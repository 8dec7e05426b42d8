-- ===== src/Tests/Memories.antt =====
-- Memories of the test restaurant.
use restaurant_sahayak.Base.{◌≡◌, refl, ℕ, String, true, Option, none, some, [], ◌∷◌, arith, select}
use restaurant_sahayak.Base.Int.{pos}
use restaurant_sahayak.Errors.{ok, err, integrity_error}
use restaurant_sahayak.Models.{Session}
use restaurant_sahayak.Models.Approvals.{is_in}
use restaurant_sahayak.Models.Memories.{Memory, Content, named, stated, memory_row}
use restaurant_sahayak.Memories.Repository.{holds, key_eq}
use restaurant_sahayak.Memories.Lifecycle.{
  MemoryService, NewMemory, MemoryUpdate, new_key, add_memory, update_memory,
}
use restaurant_sahayak.Memories.Supersede.{
  MemoriesOk, at_most_one, superseded, add_memory_supersedes,
}
use restaurant_sahayak.Memories.Clash.{update_memory_clash}
use restaurant_sahayak.Tests.{restaurant}

abbrev content : Content
content = record { text = some (stated (118 ∷ [])); other_keys = [] }

abbrev service : MemoryService
service = record { embed = λ _. ok (7 ∷ []) }

abbrev memory_of : ℕ → String → Memory
memory_of id topic = record {
  id = id;
  restaurant_id = 1;
  customer_id = some 10;
  agent_name = none;
  memory_type = "CUSTOMER_PREFERENCE";
  topic = named topic;
  content = content;
  embedding = some (3 ∷ []);
  importance = pos 2;
  confidence = pos 80;
  source = "agent_inferred";
  source_agent_run_id = none;
  is_active = true;
  last_accessed_at = none;
  access_count = 0;
}

abbrev remembered : Session
remembered = record restaurant { memories = memory_of 70 "diet" ∷ memory_of 71 "seating" ∷ [] }

remembered-MemoriesOk : MemoriesOk remembered
unfolding key_eq
remembered-MemoriesOk = record {
  issued = ground arith;
  distinct = ground arith;
  indexed = ((refl, tt), (tt, tt));
}

abbrev vegan : NewMemory
vegan = record {
  restaurant_id = 1;
  memory_type = "CUSTOMER_PREFERENCE";
  topic = named "diet";
  content = content;
  source = "agent_inferred";
  importance = pos 3;
  confidence = pos 900000;
  customer_id = some 10;
  agent_name = none;
  source_agent_run_id = none;
}

add_memory_supersedes_example :
    (stale : Option Memory) × (select (holds (new_key vegan)) remembered.memories
      ≡ at_most_one stale)
    × (add_memory service vegan remembered ≡ (ok 100, superseded vegan (7 ∷ []) stale remembered))
    × MemoriesOk (superseded vegan (7 ∷ []) stale remembered)
unfolding is_in
add_memory_supersedes_example =
    add_memory_supersedes service vegan (7 ∷ []) remembered refl refl refl refl refl
      remembered-MemoriesOk

abbrev retitle : MemoryUpdate
retitle = record {
  content = none;
  topic = some (named "seating");
  importance = none;
  confidence = none;
}

update_memory_clash_example :
    update_memory service 1 70 retitle remembered
    ≡ (err (integrity_error "uq_memories_active_scope_topic"), remembered)
update_memory_clash_example =
    update_memory_clash service 1 70 71 retitle (memory_of 70 "diet") (memory_of 71 "seating")
      (named "seating") (7 ∷ []) remembered refl refl refl refl refl refl refl (λ e. omega arith)
      refl refl refl
