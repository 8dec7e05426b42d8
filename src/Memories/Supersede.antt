-- ===== src/Memories/Supersede.antt =====
-- What `add_memory` does to the memories of its key.
use mathlib.Core.Path.{subst}
use restaurant_sahayak.Base.{
  ℕ, ◌+◌, ◌<◌, ◌≡◌, ◌≢◌, refl, Bool, true, false, ◌&&◌, ◌==◌, Option, none, some, List, [], ◌∷◌,
  ◌++◌, All, All-map, All-append, All-select, Pairwise, Pairwise-snoc, Pairwise-find,
  Pairwise-update, Distinct, Distinct-snoc, Distinct-update, Issued, Issued-mono, Issued-update,
  arith, Bool-cases, inl, inr, select, find, update,
}
use restaurant_sahayak.Base.Int.{pos, leb_ℤ}
use restaurant_sahayak.Errors.{ok}
use restaurant_sahayak.Models.{Session}
use restaurant_sahayak.Models.Approvals.{is_in}
use restaurant_sahayak.Models.Memories.{Memory, Vector, memory_types, memory_sources, memory_row}
use restaurant_sahayak.Memories.Repository.{
  MemoryKey, key_of, holds, flush, get_active_by_scope_topic, create, save,
}
use restaurant_sahayak.Memories.Lifecycle.{
  MemoryService, NewMemory, validate_type_and_source, validate_importance_confidence,
  embedding_text, new_row, deactivated, new_key, retire, persist, add_memory,
}
use restaurant_sahayak.Memories.Index.{Unlike, Unlike-flip, Unlike-index, key_eq→eq, key_eq-sym}

pub record MemoriesOk (s : Session) : Type 0 where
  pub issued : Issued s.next_id s.memories
  pub distinct : Distinct s.memories
  pub indexed : Pairwise Unlike s.memories

-- At most one row
abbrev Lone : List Memory → Type 0
Lone [] = Unit
Lone (m ∷ []) = Unit
Lone (m ∷ n ∷ ms) = ⊥

-- A row that is unlike the holder of a key does not hold it.
not-holds : (key : MemoryKey) (m x : Memory) → holds key m ≡ true → Unlike m x → holds key x ≡ false
not-holds key m x e h =
    let same : key_of m ≡ key = key_eq→eq (key_of m) key (ground (arith, e)) in
    subst (λ k. holds k x ≡ false) same (ground (arith, e, h))

none_holds :
    (key : MemoryKey) (m : Memory) (ms : List Memory)
    → holds key m ≡ true
    → All (Unlike m) ms
    → select (holds key) ms ≡ []
none_holds key m [] e h = refl
none_holds key m (x ∷ ms) e h = rw (not-holds key m x e h.0) (none_holds key m ms e h.1)

select-Lone :
    (key : MemoryKey) (ms : List Memory) → Pairwise Unlike ms → Lone (select (holds key) ms)
select-Lone key [] h = tt
select-Lone key (m ∷ ms) h = elim (Bool-cases (holds key m)) [
  | inl yes_p ↦ rw (yes_p, none_holds key m ms yes_p h.0) tt
  | inr no_p ↦ rw no_p (select-Lone key ms h.1)
]

find-selected :
    (p : Memory → Bool) (m : Memory) (rest ms : List Memory)
    → Distinct ms
    → select p ms ≡ m ∷ rest
    → find m.id ms ≡ some m
find-selected p m rest [] d e = ground arith
find-selected p m rest (x ∷ ms) d e = elim (Bool-cases (p x)) [
  | inl yes_p ↦
      let same : x ≡ m = cc (rw yes_p at e) in
      let self : (x.id == x.id) ≡ true = ground arith in
      subst (λ k. find k.id (x ∷ ms) ≡ some k) same (rw self refl)
  | inr no_p ↦
      let e' : select p ms ≡ m ∷ rest = rw no_p at e in
      let apart : All (λ y. x.id ≢ y.id) (m ∷ rest) =
        subst (All (λ y. x.id ≢ y.id)) e' (All-select (λ y. x.id ≢ y.id) p ms d.0) in
      let other : (x.id == m.id) ≡ false = ground (arith, apart.0) in
      rw other (find-selected p m rest ms d.1 e')
]

selected-holds :
    (key : MemoryKey) (m : Memory) (rest ms : List Memory)
    → select (holds key) ms ≡ m ∷ rest
    → holds key m ≡ true
selected-holds key m rest [] e = ground arith
selected-holds key m rest (x ∷ ms) e = elim (Bool-cases (holds key x)) [
  | inl yes_p ↦ let same : x ≡ m = cc (rw yes_p at e) in subst (λ k. holds key k ≡ true) same yes_p
  | inr no_p ↦ selected-holds key m rest ms (rw no_p at e)
]

select-nil : (p : Memory → Bool) (ms : List Memory) → select p ms ≡ [] → All (λ m. p m ≡ false) ms
select-nil p [] e = tt
select-nil p (m ∷ ms) e = ground (arith, select-nil p ms)

-- The rows once the stale one is retired
abbrev pub retired : Option Memory → List Memory → List Memory
retired none ms = ms
retired (some m) ms = update m.id deactivated ms

-- The stale rows of a key
abbrev pub at_most_one : Option Memory → List Memory
at_most_one none = []
at_most_one (some m) = m ∷ []

-- What the look-up of the key finds in a table that satisfies the index
look_up :
    (key : MemoryKey) (s : Session) (ms : List Memory)
    → Lone ms
    → select (holds key) s.memories ≡ ms
    → (o : Option Memory) × (select (holds key) s.memories ≡ at_most_one o)
      × (get_active_by_scope_topic key s ≡ (ok o, s))
unfolding get_active_by_scope_topic
look_up key s [] l e = (none, e, rw e refl)
look_up key s (m ∷ []) l e = (some m, e, rw e refl)
look_up key s (m ∷ n ∷ ms) l e = absurd l

updated_free :
    (key : MemoryKey) (k : ℕ) (ms : List Memory)
    → All (λ x. x.id ≢ k → holds key x ≡ false) ms
    → All (λ x. holds key x ≡ false) (update k deactivated ms)
updated_free key k [] h = tt
updated_free key k (x ∷ ms) h = (ground (arith, h.0), updated_free key k ms h.1)

retired-MemoriesOk :
    (key : MemoryKey) (o : Option Memory) (s : Session)
    → select (holds key) s.memories ≡ at_most_one o
    → MemoriesOk s
    → MemoriesOk (record s { memories = retired o s.memories })
      × All (λ x. holds key x ≡ false) (retired o s.memories)
retired-MemoriesOk key none s e h = (
  record { issued = h.issued; distinct = h.distinct; indexed = h.indexed },
  select-nil (holds key) s.memories e,
)
retired-MemoriesOk key (some m) s e h =
    let found = find-selected (holds key) m [] s.memories h.distinct e in
    let held = selected-holds key m [] s.memories e in
    (
      record {
        issued = Issued-update s.next_id m.id deactivated s.memories (λ x. refl) h.issued;
        distinct = Distinct-update m.id deactivated s.memories (λ x. refl) h.distinct;
        indexed =
            Pairwise-update Unlike Unlike-flip m.id deactivated s.memories m h.distinct found
              (All-map (λ x. x.id ≢ m.id → Unlike x m) (λ x. x.id ≢ m.id → Unlike x (deactivated m))
                (λ x _ _. ground arith) s.memories
                (Pairwise-find Unlike Unlike-flip m.id s.memories m h.indexed found))
              h.indexed;
      },
      updated_free key m.id s.memories (
          All-map (λ x. x.id ≢ m.id → Unlike x m) (λ x. x.id ≢ m.id → holds key x ≡ false)
            (λ x f ne. not-holds key m x held (Unlike-flip x m (f ne))) s.memories
            (Pairwise-find Unlike Unlike-flip m.id s.memories m h.indexed found)),
    )

retire_lem :
    (key : MemoryKey) (o : Option Memory) (s : Session)
    → select (holds key) s.memories ≡ at_most_one o
    → MemoriesOk s
    → retire o s ≡ (ok tt, record s { memories = retired o s.memories })
unfolding save flush
retire_lem key none s e h = refl
retire_lem key (some m) s e h =
    let kept = (retired-MemoriesOk key (some m) s e h).0 in
    rw (Unlike-index (update m.id deactivated s.memories) kept.indexed) refl

created-MemoriesOk :
    (a : NewMemory) (embedding : Vector) (s : Session)
    → All (λ x. holds (new_key a) x ≡ false) s.memories
    → MemoriesOk s
    → MemoriesOk (record s {
      memories = s.memories ++ new_row a embedding s.next_id ∷ [];
      next_id = s.next_id + 1;
    })
created-MemoriesOk a embedding s free h = record {
  issued =
      All-append (λ x. x.id < s.next_id + 1) s.memories (new_row a embedding s.next_id ∷ [])
        (Issued-mono s.next_id (s.next_id + 1) s.memories (omega arith) h.issued) (omega arith, tt);
  distinct =
      Distinct-snoc s.next_id s.memories (new_row a embedding s.next_id) refl h.issued h.distinct;
  indexed = Pairwise-snoc Unlike s.memories (new_row a embedding s.next_id) h.indexed (
      All-map (λ x. holds (new_key a) x ≡ false) (λ x. Unlike x (new_row a embedding s.next_id))
        (λ x f. ground (arith, f, key_eq-sym (key_of x) (new_key a))) s.memories free);
}

-- The session in which the new memory has replaced the stale one of its key
abbrev pub superseded : NewMemory → Vector → Option Memory → Session → Session
superseded a embedding stale s = record s {
  memories = retired stale s.memories ++ new_row a embedding s.next_id ∷ [];
  next_id = s.next_id + 1;
}

-- A valid memory is always taken: `add_memory` returns its identity, never the error of the unique
-- index. The active memory of its key, if there is one, stays as an inactive row, every other row
-- is as it was, and the index holds afterwards, if it held before.
pub add_memory_supersedes :
    (service : MemoryService) (a : NewMemory) (embedding : Vector) (s : Session)
    → is_in a.memory_type memory_types ≡ true
    → is_in a.source memory_sources ≡ true
    → (leb_ℤ (pos 1) a.importance && leb_ℤ a.importance (pos 5)) ≡ true
    → (leb_ℤ (pos 0) a.confidence && leb_ℤ a.confidence (pos 1000000)) ≡ true
    → service.embed (embedding_text a.topic a.content) ≡ ok embedding
    → MemoriesOk s
    → (stale : Option Memory) × (select (holds (new_key a)) s.memories ≡ at_most_one stale)
      × (add_memory service a s ≡ (ok s.next_id, superseded a embedding stale s))
      × MemoriesOk (superseded a embedding stale s)
unfolding add_memory validate_type_and_source validate_importance_confidence persist create
add_memory_supersedes service a embedding s type_ok source_ok importance_ok confidence_ok embedded
      h =
    let key = new_key a in
    let (stale, found, looked) =
      look_up key s (select (holds key) s.memories) (select-Lone key s.memories h.indexed) refl in
    let kept = retired-MemoriesOk key stale s found h in
    let after_it =
      created-MemoriesOk a embedding (record s { memories = retired stale s.memories }) kept.1
        kept.0 in
    (
      stale,
      found,
      rw (type_ok, source_ok, importance_ok, confidence_ok, embedded)
          (rw looked (
            rw (retire_lem key stale s found h) (
              rw
                (Unlike-index (retired stale s.memories ++ new_row a embedding s.next_id ∷ [])
                  after_it.indexed)
                refl))),
      after_it,
    )
