-- ===== src/Memories/Repository.antt =====
-- `MemoryRepository`, with the database's partial unique index on active memories.
use restaurant_sahayak.Base.{
  ℕ, ◌+◌, String, Bool, true, false, not, ◌&&◌, ◌==◌, str_eq, Option, some, List, [], ◌∷◌, ◌++◌,
  any, select, update, remove, if◌then◌else◌,
}
use restaurant_sahayak.Errors.{integrity_error}
use restaurant_sahayak.Exec.{pure, throw, scalar_one_or_none}
use restaurant_sahayak.Models.{Action}
use restaurant_sahayak.Models.Memories.{
  Memory, Topic, named, approval_topic, Scope, customer, label, scope_key, memory_row,
}

abbrev pub topic_eq : Topic → Topic → Bool
topic_eq (named a) (named b) = str_eq a b
topic_eq (approval_topic a) (approval_topic b) = a == b
topic_eq _ _ = false

abbrev pub scope_eq : Scope → Scope → Bool
scope_eq (customer a) (customer b) = a == b
scope_eq (label a) (label b) = str_eq a b
scope_eq _ _ = false

-- The key of the partial unique index `uq_memories_active_scope_topic`
pub record MemoryKey : Type 0 where
  pub restaurant_id : ℕ
  pub memory_type : String
  pub scope : Scope
  pub topic : Topic

abbrev pub key_of : Memory → MemoryKey
key_of m = record {
  restaurant_id = m.restaurant_id;
  memory_type = m.memory_type;
  scope = scope_key m.customer_id m.agent_name;
  topic = m.topic;
}

unfoldable pub key_eq : MemoryKey → MemoryKey → Bool
key_eq a b =
    a.restaurant_id == b.restaurant_id
    && str_eq a.memory_type b.memory_type
    && scope_eq a.scope b.scope
    && topic_eq a.topic b.topic

-- The WHERE clause of `get_active_by_scope_topic`
abbrev pub holds : MemoryKey → Memory → Bool
holds key m = m.is_active && key_eq (key_of m) key

-- No two active memories have one key.
abbrev pub index_holds : List Memory → Bool
index_holds [] = true
index_holds (m ∷ ms) = not (m.is_active && any (holds (key_of m)) ms) && index_holds ms

-- `session.flush()`: the database takes the written rows only if the index holds of them.
unfoldable pub flush : List Memory → Action (Unit {0})
flush rows s =
    if index_holds rows
    then pure tt (record s { memories = rows })
    else throw (integrity_error "uq_memories_active_scope_topic") s

-- `get_active_by_scope_topic`
unfoldable pub get_active_by_scope_topic : MemoryKey → Action (Option Memory)
get_active_by_scope_topic key s = scalar_one_or_none (select (holds key) s.memories) s

-- `create`: the row is given its identity and inserted.
unfoldable pub create : (ℕ → Memory) → Action ℕ
unfolding flush
create row s =
    let rows = s.memories ++ row s.next_id ∷ [] in
    if index_holds rows
    then pure s.next_id (record s { memories = rows; next_id = s.next_id + 1 })
    else throw (integrity_error "uq_memories_active_scope_topic") s

-- Assignments to the row of this identity, and `save`.
unfoldable pub save : ℕ → (Memory → Memory) → Action (Unit {0})
unfolding flush
save id f s = flush (update id f s.memories) s

-- `touch_access`
abbrev pub touched : ℕ → Memory → Memory
touched now m = record m { access_count = m.access_count + 1; last_accessed_at = some now }

unfoldable pub touch_access : ℕ → Action (Unit {0})
unfolding save
touch_access id s = save id (touched s.now) s

-- `delete`
unfoldable pub delete : ℕ → Action (Unit {0})
delete id s = pure tt (record s { memories = remove id s.memories })
