-- ===== src/Memories/Preserves.antt =====
-- What adding a memory leaves alone: every invariant that says nothing of the memories.
use restaurant_sahayak.Base.{
  ℕ, ◌+◌, ◌≤◌, String, Option, none, some, List, arith, Bool-cases, inl, inr, select, update, [],
  ◌∷◌, ◌++◌,
}
use restaurant_sahayak.Errors.{Result}
use restaurant_sahayak.Exec.{Keeps, Keeps-bind, Keeps-pure, lift, keeps_rules, scalar_one_or_none}
use restaurant_sahayak.Models.{Session}
use restaurant_sahayak.Models.Memories.{Memory, Vector, memory_row}
use restaurant_sahayak.Memories.Repository.{
  MemoryKey, holds, index_holds, flush, get_active_by_scope_topic, create, save,
}
use restaurant_sahayak.Memories.Lifecycle.{
  MemoryService, NewMemory, validate_type_and_source, validate_importance_confidence, retire,
  deactivated, new_key, new_row, persist, add_memory,
}

-- `P` says nothing of the memories, and fresh identities do not disturb it.
abbrev pub IgnoresMemories : (Session → Type 0) → Type 0
IgnoresMemories P =
    (s : Session) (ms : List Memory) (n : ℕ)
    → s.next_id ≤ n
    → P s
    → P (record s { memories = ms; next_id = n })

module _ (P : Session → Type 0) (ignores : IgnoresMemories P) where
  flush-Keeps : (rows : List Memory) → Keeps P (flush rows)
  unfolding flush
  flush-Keeps rows = record {
    at = λ s h. elim (Bool-cases (index_holds rows)) [
      | inl holds ↦ rw holds (ignores s rows s.next_id (omega arith) h)
      | inr broken ↦ rw broken h
    ];
  }

  save-Keeps : (id : ℕ) (f : Memory → Memory) → Keeps P (save id f)
  unfolding save
  save-Keeps id f = record { at = λ s h. (flush-Keeps (update id f s.memories)).at s h }

  retire-Keeps : (existing : Option Memory) → Keeps P (retire existing)
  retire-Keeps none = Keeps-pure P tt
  retire-Keeps (some m) = save-Keeps m.id deactivated

  scalar-Keeps : (ms : List Memory) → Keeps P (scalar_one_or_none ms)
  scalar-Keeps ms = record { at = λ s h. ground arith }

  get_active-Keeps : (key : MemoryKey) → Keeps P (get_active_by_scope_topic key)
  unfolding get_active_by_scope_topic
  get_active-Keeps key = record {
    at = λ s h. (scalar-Keeps (select (holds key) s.memories)).at s h;
  }

  create-Keeps : (row : ℕ → Memory) → Keeps P (create row)
  unfolding create
  create-Keeps row = record {
    at = λ s h. elim (Bool-cases (index_holds (s.memories ++ row s.next_id ∷ []))) [
      | inl holds ↦ rw holds (ignores s _ (s.next_id + 1) (omega arith) h)
      | inr broken ↦ rw broken h
    ];
  }

  persist-Keeps : (a : NewMemory) (embedding : Vector) → Keeps P (persist a embedding)
  unfolding persist
  persist-Keeps a embedding =
      Keeps-bind P (get_active_by_scope_topic (new_key a)) _ (get_active-Keeps (new_key a))
        λ existing.
          Keeps-bind P (retire existing) _ (retire-Keeps existing)
            λ _. create-Keeps (new_row a embedding)

  validate-Keeps :
      (memory_type source : String) → Keeps P (validate_type_and_source memory_type source)
  unfolding validate_type_and_source
  validate-Keeps memory_type source = search keeps_rules

  lift-Keeps : {A : Type 0} (r : Result A) → Keeps P (lift r)
  lift-Keeps r = record { at = λ s h. h }

  pub add_memory-Keeps : (service : MemoryService) (a : NewMemory) → Keeps P (add_memory service a)
  unfolding add_memory validate_type_and_source validate_importance_confidence
  add_memory-Keeps service a = search (keeps_rules, persist-Keeps, lift-Keeps)
