-- ===== src/Memories/Search.antt =====
-- Semantic search over the active memories: `search_by_embedding` and `search_memory`. Distances
-- and similarities count millionths; the distance of two vectors is pgvector's, a parameter.
use restaurant_sahayak.Base.{
  ℕ, String, Bool, true, false, not, ◌&&◌, ◌==◌, str_eq, is_some, Option, none, some, List, [], ◌∷◌,
  Text, select, take, leb, if◌then◌else◌,
}
use restaurant_sahayak.Base.Int.{ℤ, pos, ◌-ℤ◌, ltb_ℤ}
use restaurant_sahayak.Errors.{invalid_memory_type}
use restaurant_sahayak.Exec.{pure, lift, raise_if, ◌>>=◌, ◌>>◌}
use restaurant_sahayak.Models.{Action}
use restaurant_sahayak.Models.Approvals.{is_in}
use restaurant_sahayak.Models.Memories.{Memory, Vector, memory_types}
use restaurant_sahayak.Memories.Repository.{touch_access}
use restaurant_sahayak.Memories.Lifecycle.{MemoryService, EmbeddedText}

-- The arguments of `search_memory`
pub record SearchQuery : Type 0 where
  pub restaurant_id : ℕ
  pub query : Text
  pub memory_type : Option String
  pub customer_id : Option ℕ
  pub agent_name : Option String
  pub top_k : ℕ
  pub min_similarity : ℤ

-- `if x is not None: stmt = stmt.where(column == x)`, on a column that may be null
abbrev pub matches_str : Option String → Option String → Bool
matches_str none column = true
matches_str (some x) none = false
matches_str (some x) (some c) = str_eq c x

abbrev pub matches_id : Option ℕ → Option ℕ → Bool
matches_id none column = true
matches_id (some x) none = false
matches_id (some x) (some c) = c == x

-- The WHERE clause
unfoldable pub is_candidate : SearchQuery → Memory → Bool
is_candidate q m =
    m.restaurant_id == q.restaurant_id
    && m.is_active
    && is_some m.embedding
    && matches_str q.memory_type (some m.memory_type)
    && matches_id q.customer_id m.customer_id
    && matches_str q.agent_name m.agent_name

module _ (distance : Vector → Vector → ℕ) where
  -- The computed column; the WHERE clause leaves rows with an embedding only.
  abbrev pub with_distance : Vector → List Memory → List (Memory × ℕ)
  with_distance v [] = []
  with_distance v (m ∷ ms) =
      let rest = with_distance v ms in
      elim m.embedding [ none ↦ rest | some e ↦ (m, distance e v) ∷ rest ]

abbrev pub insert_by_distance : Memory × ℕ → List (Memory × ℕ) → List (Memory × ℕ)
insert_by_distance x [] = x ∷ []
insert_by_distance x (y ∷ ys) = if leb x.1 y.1 then x ∷ y ∷ ys else y ∷ insert_by_distance x ys

-- ORDER BY distance
abbrev pub order_by_distance : List (Memory × ℕ) → List (Memory × ℕ)
order_by_distance [] = []
order_by_distance (x ∷ xs) = insert_by_distance x (order_by_distance xs)

-- `search_by_embedding`
unfoldable pub search_by_embedding :
    (Vector → Vector → ℕ) → SearchQuery → Vector → Action (List (Memory × ℕ))
search_by_embedding distance q v s =
    pure
      (take q.top_k
        (order_by_distance (with_distance distance v (select (is_candidate q) s.memories))))
      s

-- `1.0 - distance`
abbrev pub similarity : ℕ → ℤ
similarity d = pos 1000000 -ℤ pos d

-- The `for` loop of `search_memory`: what is similar enough is touched and returned.
pub collect : ℤ → List (Memory × ℕ) → Action (List (ℕ × ℤ))
collect min_similarity [] = pure []
collect min_similarity ((m, d) ∷ rows) =
    let rest = collect min_similarity rows in
    if ltb_ℤ (similarity d) min_similarity
    then rest
    else (do touch_access m.id; results ← rest; pure ((m.id, similarity d) ∷ results))

abbrev pub valid_type : Option String → Bool
valid_type none = true
valid_type (some t) = is_in t memory_types

abbrev pub type_name : Option String → String
type_name none = ""
type_name (some t) = t

-- `search_memory`
unfoldable pub search_memory :
    MemoryService → (Vector → Vector → ℕ) → SearchQuery → Action (List (ℕ × ℤ))
search_memory service distance q = do
  raise_if (not (valid_type q.memory_type)) (invalid_memory_type (type_name q.memory_type))
  query_vector ← lift (service.embed (EmbeddedText.query q.query))
  rows ← search_by_embedding distance q query_vector
  collect q.min_similarity rows
