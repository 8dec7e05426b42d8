-- ===== src/Workflows/Registered.antt =====
-- The event bus with the default workflows: which handlers it has, and what they keep.
use restaurant_sahayak.Base.{
  ◌≡◌, ◌≢◌, eq_iff, arith, refl, String, str_eq, some, [], ◌∷◌, ◌++◌, All-append, if◌then◌else◌,
  Bool-cases, inl, inr,
}
use restaurant_sahayak.Errors.{ok}
use restaurant_sahayak.Exec.{Keeps, Keeps-bind, Keeps-pure, pure, ◌>>◌}
use restaurant_sahayak.Models.{Session}
use restaurant_sahayak.Models.Approvals.{Payload, is_in}
use restaurant_sahayak.Events.{EventEnvelope, Registration, EventBus, subscribe}
use restaurant_sahayak.Events.Preserves.{HandlersKeep}
use restaurant_sahayak.ToolCalling
use restaurant_sahayak.ToolCalling.{Agent, Task}
use restaurant_sahayak.ToolCalling.Preserves.{ToolsKeep}
use restaurant_sahayak.ToolCalling.Sessions.{IgnoresRuns, handle-Keeps}
use restaurant_sahayak.Workflows.Reactions.{
  Printers, created_instruction, low_instruction, task_of, handle_reservation_created,
  handle_inventory_low, register_inventory_low, register_default_workflows,
}

-- The bus with one more handler
abbrev with_handler : EventBus → String → Registration → EventBus
with_handler bus event_type registration = record bus {
  handlers =
      λ t. if str_eq t event_type then bus.handlers t ++ registration ∷ [] else bus.handlers t;
}

-- A handler of this name that runs an agent on the instruction for the payload
abbrev pub runs_agent : String → Agent → (Payload → String) → Registration
runs_agent name agent instruction = record {
  name = name;
  handler =
      λ event. ToolCalling.handle agent (task_of (instruction event.payload) event) >> pure tt;
}

module _ (P : Session → Type 0) where
  -- The bus that a subscription to a known type returns keeps `P`, if the handler does.
  subscribed :
      (bus : EventBus) (event_type : String) (registration : Registration)
      → HandlersKeep P bus
      → ((envelope : EventEnvelope) → Keeps P (registration.handler envelope))
      → HandlersKeep P (with_handler bus event_type registration)
  subscribed bus event_type registration handlers k t = elim (Bool-cases (str_eq t event_type)) [
    | inl same ↦ rw same (
        All-append (λ r. (envelope : EventEnvelope) → Keeps P (r.handler envelope)) (bus.handlers t)
          (registration ∷ []) (handlers t) (k, tt))
    | inr other ↦ rw other (handlers t)
  ]

  reacts :
      (agent : Agent) (t : Task)
      → IgnoresRuns P
      → ToolsKeep P agent.tools
      → Keeps P (ToolCalling.handle agent t >> pure tt)
  reacts agent t ignores tools =
      Keeps-bind P (ToolCalling.handle agent t) _ (handle-Keeps P ignores agent t tools)
        λ _. Keeps-pure P tt

  -- The registration of the default workflows succeeds. The bus that it leaves has one more handler
  -- for "reservation.created" and one for "inventory.low", each last of its type, which run the
  -- inventory agent on the instruction of that event; the handlers of all other types are as they
  -- were. All its handlers keep what the bus kept before and the tools of the agent keep, if that
  -- says nothing of agent runs.
  pub register_default_workflows-HandlersKeep :
      (printers : Printers) (bus : EventBus) (inventory_agent : Agent)
      → IgnoresRuns P
      → HandlersKeep P bus
      → ToolsKeep P inventory_agent.tools
      → (registered : EventBus) × (register_default_workflows printers bus (some inventory_agent)
          ≡ ok registered)
        × (registered.handlers "reservation.created"
            ≡ bus.handlers "reservation.created"
              ++ runs_agent "inventory_workflow.handle_reservation_created" inventory_agent
                  (created_instruction printers)
                ∷ [])
        × (registered.handlers "inventory.low"
            ≡ bus.handlers "inventory.low"
              ++ runs_agent "inventory_workflow.handle_inventory_low" inventory_agent
                  (low_instruction printers)
                ∷ [])
        × ((t : String)
            → t ≢ "reservation.created"
            → t ≢ "inventory.low"
            → registered.handlers t ≡ bus.handlers t)
        × HandlersKeep P registered
  unfolding register_default_workflows register_inventory_low subscribe handle_reservation_created
      handle_inventory_low is_in
  register_default_workflows-HandlersKeep printers bus inventory_agent ignores handlers tools = (
    _,
    refl,
    refl,
    refl,
    (λ t not_created not_low.
        ground (arith, eq_iff t "reservation.created", eq_iff t "inventory.low")),
    subscribed
        (with_handler bus "reservation.created" (
          runs_agent "inventory_workflow.handle_reservation_created" inventory_agent
            (created_instruction printers)))
        "inventory.low" _
        (subscribed bus "reservation.created" _ handlers (λ event.
          reacts inventory_agent (task_of (created_instruction printers event.payload) event)
            ignores tools))
        (λ event.
          reacts inventory_agent (task_of (low_instruction printers event.payload) event) ignores
            tools),
  )
