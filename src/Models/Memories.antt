-- ===== src/Models/Memories.antt =====
-- Memories (app/models/memory.py). A float of the API is a decimal of six digits, counted in
-- millionths; `confidence`, Numeric(3, 2), is counted in hundredths. A vector is the list of its
-- floats' bit patterns, which only the embedding provider and pgvector read.
use restaurant_sahayak.Base.{ℕ, String, Bool, Option, none, some, Text, List, [], ◌∷◌, HasId}
use restaurant_sahayak.Base.Int.{ℤ}
use restaurant_sahayak.Models.Enums.{ApprovalStatus}
use restaurant_sahayak.Models.Approvals.{Reason, ExecutionResult}

abbrev pub memory_types : List String
memory_types =
    "CUSTOMER_PREFERENCE" ∷ "BUSINESS_RULE" ∷ "MANAGER_PREFERENCE" ∷ "PAST_DECISION"
    ∷ "OPERATIONAL_FACT" ∷ "AGENT_EXPERIENCE" ∷ []

abbrev pub memory_sources : List String
memory_sources = "manager_stated" ∷ "agent_inferred" ∷ "system_derived" ∷ []

-- A topic that a caller names, or the f-string `approval_{id}`.
pub data Topic : Type 0 where
  named : String → Topic
  approval_topic : ℕ → Topic

-- The truthy "text" of a `content` dict: the caller's, or the f-string of a past decision.
pub data ContentText : Type 0 where
  stated : Text → ContentText
  past_decision :
      String → Reason → String → ApprovalStatus → Option ExecutionResult → Option Text → ContentText

-- A `content` dict: its "text", if that is there and not empty, and its other keys.
pub record Content : Type 0 where
  pub text : Option ContentText
  pub other_keys : List (String × Text)

abbrev pub Vector : Type 0
Vector = List ℕ

-- Who a memory is about: the generated column
-- `COALESCE(customer_id::text, agent_name, 'restaurant')`, a customer's identity or a text. (No
-- text is taken for a printed identity.)
pub data Scope : Type 0 where
  customer : ℕ → Scope
  label : String → Scope

pub record Memory : Type 0 where
  pub id : ℕ
  pub restaurant_id : ℕ
  pub customer_id : Option ℕ
  pub agent_name : Option String
  pub memory_type : String
  pub topic : Topic
  pub content : Content
  pub embedding : Option Vector
  pub importance : ℤ
  pub confidence : ℤ
  pub source : String
  pub source_agent_run_id : Option ℕ
  pub is_active : Bool
  pub last_accessed_at : Option ℕ
  pub access_count : ℕ

abbrev pub scope_key : Option ℕ → Option String → Scope
scope_key (some c) _ = Scope.customer c
scope_key none (some a) = Scope.label a
scope_key none none = Scope.label "restaurant"

instance abbrev pub memory_row : HasId Memory
memory_row = record { id_of = λ r. r.id }
