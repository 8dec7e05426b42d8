-- ===== src/Agents/Orchestrated.antt =====
-- The orchestrator with the reservation agent among its specialists: no table is promised twice by a
-- request, whatever the models say.
use restaurant_sahayak.Base.{
  ◌≡◌, ◌≢◌, String, str_eq, Option, some, eq_iff, arith, Bool-cases, inl, inr,
}
use mathlib.Core.Path.{subst}
use restaurant_sahayak.Events.{EventBus}
use restaurant_sahayak.Events.Preserves.{HandlersKeep}
use restaurant_sahayak.ToolCalling
use restaurant_sahayak.ToolCalling.{Agent, Task}
use restaurant_sahayak.ToolCalling.Preserves.{ToolsKeep}
use restaurant_sahayak.ToolCalling.Sessions
use restaurant_sahayak.Reservations.Service.{ReservationService}
use restaurant_sahayak.Reservations.Bookings.{BookingsOk}
use restaurant_sahayak.Reservations.Histories.{NoDoubleBooking, BookingsOk-NoDoubleBooking}
use restaurant_sahayak.Tools.Reservations.{ReservationJson, reservation_tools}
use restaurant_sahayak.Agents.{LlmProvider, reservation_agent}
use restaurant_sahayak.Agents.Reservations.{BookingsOk-runs, reservation_tools-BookingsOk}
use restaurant_sahayak.Orchestrator.Nodes.{Orchestrator}
use restaurant_sahayak.Orchestrator.Service.{Process, Request, handle}
use restaurant_sahayak.Orchestrator.Partners.{AreAgents, agents-SpecialistsKeep}
use restaurant_sahayak.Orchestrator.Sessions.{handle-Keeps}

module _ (json : ReservationJson) (service : ReservationService)
    (handlers : (bus : EventBus) → service.event_bus ≡ some bus → HandlersKeep BookingsOk bus)
    (gate_handlers : (bus : EventBus)
      → service.approval_service.event_bus ≡ some bus
      → HandlersKeep BookingsOk bus) where
  tools-BookingsOk :
      (prompt : String) (llm : LlmProvider) (agents : String → Option Agent)
      → agents "reservation" ≡ some (reservation_agent prompt llm (reservation_tools json service))
      → ((name : String) (agent : Agent)
          → name ≢ "reservation"
          → agents name ≡ some agent
          → ToolsKeep BookingsOk agent.tools)
      → (name : String) (agent : Agent) → agents name ≡ some agent
      → ToolsKeep BookingsOk agent.tools
  unfolding reservation_agent
  tools-BookingsOk prompt llm agents ours others name agent e =
      elim (Bool-cases (str_eq name "reservation")) [
        | inl same ↦
            let named : name ≡ "reservation" = ground (arith, same, eq_iff name "reservation") in
            let equal : reservation_agent prompt llm (reservation_tools json service) ≡ agent =
              cc (ours, e, named) in
            subst (λ a. ToolsKeep BookingsOk a.tools) equal
              (reservation_tools-BookingsOk json service handlers gate_handlers)
        | inr other ↦
            others name agent (λ same. ground (arith, same, other, eq_iff name "reservation")) e
      ]

  -- A request to an orchestrator whose specialists are tool-calling agents, among them the reservation
  -- agent with its five tools, promises no table twice, whatever the models answer, if no table was
  -- promised twice before and the tools of the other agents and the handlers of the events leave the
  -- reservations apart.
  pub orchestrated-NoDoubleBooking :
      (prompt : String) (llm : LlmProvider) (agents : String → Option Agent) (o : Orchestrator)
      (r : Request) (p : Process)
      → AreAgents o agents
      → agents "reservation" ≡ some (reservation_agent prompt llm (reservation_tools json service))
      → ((name : String) (agent : Agent)
          → name ≢ "reservation"
          → agents name ≡ some agent
          → ToolsKeep BookingsOk agent.tools)
      → BookingsOk p.session
      → NoDoubleBooking (handle o r p).1.session
  orchestrated-NoDoubleBooking prompt llm agents o r p built ours others h =
      BookingsOk-NoDoubleBooking (handle o r p).1.session (
        (handle-Keeps BookingsOk BookingsOk-runs o r (
            agents-SpecialistsKeep BookingsOk o agents built (λ name agent e t.
              ToolCalling.Sessions.handle-Keeps BookingsOk BookingsOk-runs agent t
                (tools-BookingsOk prompt llm agents ours others name agent e)))).at
          p h)
