-- ===== src/Memories/Clash.antt =====
-- `update_memory` onto a key that another active memory has.
use restaurant_sahayak.Base.{
  ℕ, ◌≡◌, ◌≢◌, refl, ◌∙◌, true, false, ◌||◌, ◌==◌, is_some, none, some, List, arith, Bool-cases,
  inl, inr, Pairwise-find, All-find, find, find-id, find_self, find-update, find-update_self,
  update,
}
use restaurant_sahayak.Errors.{ok, err, integrity_error}
use restaurant_sahayak.Models.{Session}
use restaurant_sahayak.Models.Memories.{Memory, Topic, Vector, memory_row}
use restaurant_sahayak.Memories.Repository.{key_of, key_eq, index_holds, flush, save}
use restaurant_sahayak.Memories.Lifecycle.{
  MemoryService, MemoryUpdate, embedding_text, updated, get_own, update_memory,
}
use restaurant_sahayak.Memories.Index.{Unlike, Unlike-flip, index-Unlike, key_eq_self}

-- The index fails of a table in which two rows of different identities are active under one key.
index_broken :
    (rows : List Memory) (i j : ℕ) (m n : Memory)
    → find i rows ≡ some m
    → find j rows ≡ some n
    → j ≢ i
    → m.is_active ≡ true
    → n.is_active ≡ true
    → key_of n ≡ key_of m
    → index_holds rows ≡ false
index_broken rows i j m n em en ne am an same = elim (Bool-cases (index_holds rows)) [
  | inr broken ↦ broken
  | inl holds_all ↦
      let apart : Unlike n m =
        All-find (λ x. x.id ≢ i → Unlike x m) j rows n
          (Pairwise-find Unlike Unlike-flip i rows m (index-Unlike rows holds_all) em) en
          (λ e. ne (ground (arith, e, find-id j rows n en))) in
      let self : key_eq (key_of m) (key_of n) ≡ true = rw same (key_eq_self (key_of m)) in
      absurd (ground (arith, apart, self, am, an))
]

-- An update of an active memory that changes its topic to one under which another active memory of
-- the same restaurant, type and scope is kept raises the database's error of the unique index, not
-- a ToolError, and writes nothing. (The update sets neither importance nor confidence, and its text
-- is embedded.)
pub update_memory_clash :
    (service : MemoryService) (restaurant_id id other : ℕ) (u : MemoryUpdate) (m n : Memory)
    (topic : Topic) (embedding : Vector) (s : Session)
    → u.topic ≡ some topic
    → u.importance ≡ none
    → u.confidence ≡ none
    → find id s.memories ≡ some m
    → m.restaurant_id ≡ restaurant_id
    → m.is_active ≡ true
    → find other s.memories ≡ some n
    → other ≢ id
    → n.is_active ≡ true
    → key_of n ≡ key_of (updated u m)
    → service.embed (embedding_text (updated u m).topic (updated u m).content) ≡ ok embedding
    → update_memory service restaurant_id id u s
      ≡ (err (integrity_error "uq_memories_active_scope_topic"), s)
unfolding update_memory get_own save flush
update_memory_clash service restaurant_id id other u m n topic embedding s retitled no_importance
      no_confidence found own active found_other ne active_other same embedded =
    let f : Memory → Memory = λ x. record (updated u x) { embedding = some embedding } in
    let here : m.id ≡ id = find-id id s.memories m found in
    let found_here : find m.id s.memories ≡ some m = find_self id s.memories m found in
    let miss : (other == m.id) ≡ false = ground (arith, ne, here) in
    let still_other : find other (update m.id f s.memories) ≡ some n =
      rw (find-update m.id other f s.memories (λ x. refl)) (rw miss found_other) in
    let broken : index_holds (update m.id f s.memories) ≡ false =
      index_broken (update m.id f s.memories) m.id other (f m) n
        (find-update_self m.id f s.memories m (λ x. refl) found_here) still_other
        (λ e. ne (e ∙ here)) active active_other same in
    let own_row : (m.restaurant_id == restaurant_id) ≡ true = ground (arith, own) in
    let untested : (is_some u.importance || is_some u.confidence) ≡ false =
      ground (arith, no_importance, no_confidence) in
    let re_embeds : (is_some u.content || is_some u.topic) ≡ true = ground (arith, retitled) in
    rw found (rw own_row (rw (active, untested, re_embeds) (rw embedded (rw broken refl))))
