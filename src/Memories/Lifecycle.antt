-- ===== src/Memories/Lifecycle.antt =====
-- `MemoryService`: the steps of a memory's life.
use restaurant_sahayak.Base.{
  ℕ, suc, ◌+◌, ◌/◌, ◌%◌, ◌*◌, String, Bool, true, false, not, ◌&&◌, ◌||◌, ◌==◌, is_some, or_else,
  Option, none, some, Text, find, update, ltb, if◌then◌else◌,
}
use restaurant_sahayak.Base.Int.{ℤ, pos, negsuc, sub_ℕ, ◌+ℤ◌, leb_ℤ, ltb_ℤ}
use restaurant_sahayak.Errors.{
  Result, invalid_memory_type, invalid_source, invalid_importance, invalid_confidence,
  memory_not_found, memory_inactive,
}
use restaurant_sahayak.Exec.{
  pure, throw, modify, try_except, raise, lift, raise_if, when, ◌>>=◌, ◌>>◌,
}
use restaurant_sahayak.Models.{Action, utcnow}
use restaurant_sahayak.Models.Approvals.{is_in}
use restaurant_sahayak.Models.Memories.{
  Memory, Topic, Content, ContentText, Vector, scope_key, memory_types, memory_sources, memory_row,
}
use restaurant_sahayak.Memories.Repository.{
  MemoryKey, get_active_by_scope_topic, create, save, touched, touch_access, delete,
}

-- The f-strings that are embedded
pub data EmbeddedText : Type 0 where
  fact : Topic → ContentText → EmbeddedText
  whole : Topic → Content → EmbeddedText
  query : Text → EmbeddedText

-- The service holds an embedding provider, which may raise.
pub record MemoryService : Type 0 where
  pub embed : EmbeddedText → Result Vector

-- The arguments of `add_memory`; importance is an int, confidence counts millionths.
pub record NewMemory : Type 0 where
  pub restaurant_id : ℕ
  pub memory_type : String
  pub topic : Topic
  pub content : Content
  pub source : String
  pub importance : ℤ
  pub confidence : ℤ
  pub customer_id : Option ℕ
  pub agent_name : Option String
  pub source_agent_run_id : Option ℕ

-- `round(x, 2)` of a number of millionths, in hundredths: to the nearest, a tie to the even one
abbrev pub round_ℕ : ℕ → ℕ
round_ℕ n =
    let q = n / 10000 in
    if ltb 5000 (n % 10000) || (n % 10000 == 5000 && q % 2 == 1) then q + 1 else q

unfoldable pub round2 : ℤ → ℤ
round2 (pos n) = pos (round_ℕ n)
round2 (negsuc n) = sub_ℕ 0 (round_ℕ (suc n))

-- `_require`
abbrev pub require_memory : Option Memory → ℕ → ℕ → Action Memory
require_memory none restaurant_id id = raise (memory_not_found id)
require_memory (some m) restaurant_id id =
    if m.restaurant_id == restaurant_id then pure m else raise (memory_not_found id)

-- `_require(await self.repo.get_by_id(id), restaurant_id, id)`
unfoldable pub get_own : ℕ → ℕ → Action Memory
get_own restaurant_id id s = require_memory (find id s.memories) restaurant_id id s

-- `_validate_type_and_source`
unfoldable pub validate_type_and_source : String → String → Action (Unit {0})
validate_type_and_source memory_type source = do
  raise_if (not (is_in memory_type memory_types)) (invalid_memory_type memory_type)
  raise_if (not (is_in source memory_sources)) (invalid_source source)

-- `_validate_importance_confidence`; 1.0 is a million millionths.
unfoldable pub validate_importance_confidence : ℤ → ℤ → Action (Unit {0})
validate_importance_confidence importance confidence = do
  raise_if (not (leb_ℤ (pos 1) importance && leb_ℤ importance (pos 5))) invalid_importance
  raise_if (not (leb_ℤ (pos 0) confidence && leb_ℤ confidence (pos 1000000))) invalid_confidence

-- `_embedding_text`
abbrev pub embedding_text : Topic → Content → EmbeddedText
embedding_text topic content = elim content.text [
  | some text ↦ fact topic text
  | none ↦ whole topic content
]

-- The row that `add_memory` inserts
abbrev pub new_row : NewMemory → Vector → ℕ → Memory
new_row a embedding id = record {
  id = id;
  restaurant_id = a.restaurant_id;
  customer_id = a.customer_id;
  agent_name = a.agent_name;
  memory_type = a.memory_type;
  topic = a.topic;
  content = a.content;
  embedding = some embedding;
  importance = a.importance;
  confidence = round2 a.confidence;
  source = a.source;
  source_agent_run_id = a.source_agent_run_id;
  is_active = true;
  last_accessed_at = none;
  access_count = 0;
}

abbrev pub deactivated : Memory → Memory
deactivated m = record m { is_active = false }

abbrev pub new_key : NewMemory → MemoryKey
new_key a = record {
  restaurant_id = a.restaurant_id;
  memory_type = a.memory_type;
  scope = scope_key a.customer_id a.agent_name;
  topic = a.topic;
}

-- The stale row of the key, if there is one, becomes an inactive audit record.
abbrev pub retire : Option Memory → Action (Unit {0})
retire none = pure tt
retire (some existing) = save existing.id deactivated

-- The part of `add_memory` behind the validation and the embedding
unfoldable pub persist : NewMemory → Vector → Action ℕ
persist a embedding = do
  existing ← get_active_by_scope_topic (new_key a)
  retire existing
  create (new_row a embedding)

-- `add_memory`
unfoldable pub add_memory : MemoryService → NewMemory → Action ℕ
add_memory service a = do
  validate_type_and_source a.memory_type a.source
  validate_importance_confidence a.importance a.confidence
  embedding ← lift (service.embed (embedding_text a.topic a.content))
  persist a embedding

-- `get_memory`
unfoldable pub get_memory : ℕ → ℕ → Bool → Action ℕ
get_memory restaurant_id id touch = do
  memory ← get_own restaurant_id id
  when touch (touch_access memory.id)
  pure memory.id

-- The optional arguments of `update_memory`
pub record MemoryUpdate : Type 0 where
  pub content : Option Content
  pub topic : Option Topic
  pub importance : Option ℤ
  pub confidence : Option ℤ

-- The four conditional assignments of `update_memory`
abbrev pub updated : MemoryUpdate → Memory → Memory
updated u m = record m {
  content = or_else u.content m.content;
  topic = or_else u.topic m.topic;
  importance = or_else u.importance m.importance;
  confidence = elim u.confidence [ none ↦ m.confidence | some c ↦ round2 c ];
}

-- A number of hundredths, in millionths: `float(memory.confidence)`
abbrev pub to_millionths : ℤ → ℤ
to_millionths (pos n) = pos (n * 10000)
to_millionths (negsuc n) = sub_ℕ 0 (suc n * 10000)

-- The assignments, before any flush: the index is tested at the next one.
abbrev pub assign : ℕ → MemoryUpdate → Action (Unit {0})
assign id u = modify (λ s. record s { memories = update id (updated u) s.memories })

-- The new embedding where the content or the topic has changed. If the provider raises, the
-- attributes that were assigned before stay on the row.
abbrev pub re_embed : MemoryService → MemoryUpdate → Bool → Memory → Action (Memory → Memory)
re_embed service u false m = pure (λ x. x)
re_embed service u true m = do
  embedding ←
      try_except (lift (service.embed (embedding_text (updated u m).topic (updated u m).content)))
        pure (λ e. assign m.id u >> throw e)
  pure (λ x. record x { embedding = some embedding })

-- `update_memory`. Otherwise the assignments reach the database at the one flush of `save`.
unfoldable pub update_memory : MemoryService → ℕ → ℕ → MemoryUpdate → Action ℕ
update_memory service restaurant_id id u = do
  memory ← get_own restaurant_id id
  raise_if (not memory.is_active) memory_inactive
  when (is_some u.importance || is_some u.confidence) (
      validate_importance_confidence (or_else u.importance memory.importance)
        (or_else u.confidence (to_millionths memory.confidence)))
  embed ← re_embed service u (is_some u.content || is_some u.topic) memory
  save memory.id (λ m. embed (updated u m))
  pure memory.id

-- `min(1.0, a)`
abbrev pub min_one : ℤ → ℤ
min_one a = if ltb_ℤ a (pos 1000000) then a else pos 1000000

-- The confidence that `reinforce_memory` writes
abbrev pub reinforced : ℤ → Memory → Memory
reinforced step m = record m { confidence = round2 (min_one (to_millionths m.confidence +ℤ step)) }

-- `reinforce_memory`; `touch_access` flushes the new confidence with its own writes.
unfoldable pub reinforce_memory : ℕ → ℕ → ℤ → Action ℕ
reinforce_memory restaurant_id id confidence_step = do
  memory ← get_own restaurant_id id
  raise_if (not memory.is_active) memory_inactive
  now ← utcnow
  save memory.id (λ m. touched now (reinforced confidence_step m))
  pure memory.id

-- `forget_memory`
unfoldable pub forget_memory : ℕ → ℕ → Action ℕ
forget_memory restaurant_id id = do
  memory ← get_own restaurant_id id
  save memory.id deactivated
  pure memory.id

-- `delete_memory`
unfoldable pub delete_memory : ℕ → ℕ → Action (Unit {0})
delete_memory restaurant_id id = do memory ← get_own restaurant_id id; delete memory.id
