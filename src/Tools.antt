-- ===== src/Tools.antt =====
-- The tools of the agents (app/tools): a call validates its input and calls one method of a service.
-- The JSON of inputs and outputs is read and written by pydantic, a parameter here; the constraints
-- that the schemas declare are tested.
pub mod Reservations
use restaurant_sahayak.Base.{ℕ, String, Bool, true, false, Option, none, some, if◌then◌else◌}
use restaurant_sahayak.Errors.{Result, ok, err, validation_error}
use restaurant_sahayak.Exec.{lift, ◌>>=◌, Keeps, Keeps-bind}
use restaurant_sahayak.Models.{Session, Action}
use restaurant_sahayak.Settings.{ToolContext}
use restaurant_sahayak.ToolCalling.{Tool, ToolOutput}

-- `input_model.model_validate`: what pydantic reads, and the `Field` constraints of the schema
unfoldable pub validate : {I : Type 0} → (String → Result I) → (I → Bool) → String → Result I
validate parse constraints raw = elim (parse raw) [
  | err e ↦ err e
  | ok i ↦ if constraints i then ok i else err (validation_error "constraint")
]

-- `Tool.__call__`
unfoldable pub tool_of :
    {I : Type 0}
    → String
    → (String → Result I)
    → (I → Bool)
    → (I → ToolContext → Action ToolOutput)
    → Tool
tool_of name parse constraints run = record {
  name = name;
  call = λ raw context. lift (validate parse constraints raw) >>= λ input. run input context;
}

-- An output with no "status"
abbrev pub plain : String → ToolOutput
plain json = record { json = json; status = none; approval_id = none }

-- A `PendingApprovalOutput`
abbrev pub pending : String → ℕ → ToolOutput
pending json id = record { json = json; status = some "pending_approval"; approval_id = some id }

-- A tool keeps what its method keeps.
pub tool_of-Keeps :
    (P : Session → Type 0) {I : Type 0} (name : String) (parse : String → Result I)
    (constraints : I → Bool) (run : I → ToolContext → Action ToolOutput)
    → ((input : I) (context : ToolContext) → Keeps P (run input context))
    → (raw : String) (context : ToolContext)
    → Keeps P ((tool_of name parse constraints run).call raw context)
unfolding tool_of
tool_of-Keeps P name parse constraints run k raw context =
    Keeps-bind P (lift (validate parse constraints raw)) _ (record { at = λ s h. h })
      λ input. k input context
