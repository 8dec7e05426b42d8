-- ===== src/Reservations/Gate.antt =====
-- High-impact changes wait for an approval.
use restaurant_sahayak.Base.{
  ℕ, ◌+◌, ◌≡◌, refl, String, true, ◌||◌, ◌==◌, or_else, Option, none, some, [], ◌∷◌, ◌++◌, find,
  find-id, arith, Text,
}
use restaurant_sahayak.Errors.{Result, ok}
use restaurant_sahayak.Models.{Session}
use restaurant_sahayak.Models.Enums.{pending, is_active_status}
use restaurant_sahayak.Models.Bookings.{Reservation, Changes, reservation_row}
use restaurant_sahayak.Models.Approvals.{
  Approval, Parameters, Reason, modify_party, cancel_party, is_in,
}
use restaurant_sahayak.Settings.{ToolContext, Outcome, pending_approval}
use restaurant_sahayak.Approvals.{
  create_approval_request, insert_approval, new_approval, publish_approval,
}
use restaurant_sahayak.Reservations.Service.{
  ReservationService, get_own, propose, modify_gated, modify_reservation, cancel_gated,
  cancel_reservation, is_high_impact_party,
}

-- One pending approval with these parameters is added, and nothing else is written.
abbrev pub Proposed :
    ToolContext → ℕ → Parameters → Reason → Session → Result Outcome × Session → Type 0
Proposed context restaurant_id parameters reason s out =
    (a : Approval) × (out ≡ (
      ok (pending_approval a.id reason),
      record s { approvals = s.approvals ++ a ∷ []; next_id = s.next_id + 1 },
    ))
    × (a.id ≡ s.next_id)
    × (a.restaurant_id ≡ restaurant_id)
    × (a.status ≡ pending)
    × (a.risk_level ≡ "MEDIUM")
    × (a.parameters ≡ parameters)
    × (a.agent_name ≡ context.acting_agent)

module _ (service : ReservationService) (context : ToolContext) (run_id : ℕ)
    (attributed : context.agent_run_id ≡ some run_id)
    (unheard : service.approval_service.event_bus ≡ none) where
  propose_lem :
      (restaurant_id : ℕ) (action : String) (parameters : Parameters) (reason : Reason)
      (s : Session)
      → Proposed context restaurant_id parameters reason s
          (propose service context restaurant_id action parameters reason s)
  unfolding propose create_approval_request insert_approval publish_approval is_in
  propose_lem restaurant_id action parameters reason s = (
    new_approval
        (record {
          restaurant_id = restaurant_id;
          domain = "reservation";
          action = action;
          agent_name = context.acting_agent;
          proposed_by_agent_run_id = run_id;
          parameters = parameters;
          reason = reason;
          risk_level = "MEDIUM";
          expires_at = none;
        })
        s,
    rw attributed (rw (unheard, publish_approval) refl),
    refl,
    refl,
    refl,
    refl,
    refl,
    refl,
  )

  module _ (restaurant_id id : ℕ) (r : Reservation) (s : Session)
      (found : find id s.reservations ≡ some r) (own : r.restaurant_id ≡ restaurant_id)
      (active : is_active_status r.status ≡ true) where
    own_lem : get_own restaurant_id id s ≡ (ok r, s)
    unfolding get_own
    own_lem =
        let same : (r.restaurant_id == restaurant_id) ≡ true = ground (arith, own) in
        rw found (rw same refl)

    -- A modification of an active reservation whose party is or becomes large is not made: it
    -- becomes the one pending MEDIUM approval that is added, with the changes as its parameters,
    -- and no reservation changes. (The call has an agent run, and the gate no event bus.)
    pub modify_waits :
        (changes : Changes)
        → (is_high_impact_party service.settings (or_else changes.party_size r.party_size)
            || is_high_impact_party service.settings r.party_size)
          ≡ true
        → Proposed context restaurant_id
            (Parameters.modify_reservation id changes)
            (modify_party (or_else changes.party_size r.party_size) r.requested_time)
            s
            (modify_reservation service context restaurant_id id changes s)
    unfolding modify_reservation modify_gated
    modify_waits changes large = rw own_lem (
        rw active (
          rw large (
            rw (find-id id s.reservations r found) (
              propose_lem restaurant_id "modify_reservation"
                (Parameters.modify_reservation id changes)
                (modify_party (or_else changes.party_size r.party_size) r.requested_time) s))))

    -- A cancellation of an active reservation with a large party is not made: it becomes the one
    -- pending MEDIUM approval that is added, and no reservation changes. (The call has an agent
    -- run, and the gate no event bus.)
    pub cancel_waits :
        (reason : Option Text)
        → is_high_impact_party service.settings r.party_size ≡ true
        → Proposed context restaurant_id
            (Parameters.cancel_reservation id reason)
            (cancel_party r.party_size r.requested_time)
            s
            (cancel_reservation service context restaurant_id id reason s)
    unfolding cancel_reservation cancel_gated
    cancel_waits reason large = rw own_lem (
        rw active (
          rw large (
            rw (find-id id s.reservations r found) (
              propose_lem restaurant_id "cancel_reservation"
                (Parameters.cancel_reservation id reason)
                (cancel_party r.party_size r.requested_time) s))))
