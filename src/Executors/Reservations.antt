-- ===== src/Executors/Reservations.antt =====
-- A modification of a reservation through the gate: what approving it does.
use restaurant_sahayak.Base.{
  ℕ, ◌≡◌, refl, true, false, Option, none, some, find, find-update_self, update,
}
use restaurant_sahayak.Errors.{ok}
use restaurant_sahayak.Models.{Session}
use restaurant_sahayak.Models.Enums.{pending, is_active_status}
use restaurant_sahayak.Models.Bookings.{Reservation, Changes, reservation_row}
use restaurant_sahayak.Models.Approvals.{Approval, success, modify_reservation, approval_row}
use restaurant_sahayak.Approvals.{ApprovalService, approve, approved_by, with_result}
use restaurant_sahayak.Approvals.Outcomes.{approve_executes, get_row_lem}
use restaurant_sahayak.Reservations.Repository.{violated}
use restaurant_sahayak.Reservations.Service.{
  ReservationService, moves, as_modified, execute_approved_action,
}
use restaurant_sahayak.Reservations.Executor.{modification_reactivates}
use restaurant_sahayak.Inventory.{InventoryService}
use restaurant_sahayak.Executors.{build_executors}

-- The executor of the domain, on a session that has the approval and its reservation
execute_found :
    (reservations : ReservationService) (id reservation_id : ℕ) (changes : Changes) (a : Approval)
    (r : Reservation) (s : Session)
    → reservations.event_bus ≡ none
    → find id s.approvals ≡ some a
    → a.parameters ≡ modify_reservation reservation_id changes
    → find reservation_id s.reservations ≡ some r
    → moves changes ≡ false
    → violated (as_modified changes r) ≡ none
    → execute_approved_action reservations id s ≡ (
      ok reservation_id,
      record s { reservations = update reservation_id (as_modified changes) s.reservations },
    )
unfolding execute_approved_action
execute_found reservations id reservation_id changes a r s unheard e named found still fits =
    rw (get_row_lem id a s e) (
      rw named
        (modification_reactivates reservations a.proposed_by_agent_run_id reservation_id changes r s
          unheard found still fits).0)

-- With the executors of `build_executors`, and neither bus nor memory wired, approving the pending
-- modification of a reservation that moves nothing writes it and records it as the result, whatever
-- the status of the reservation is by then and whoever has its table: it is active afterwards.
pub approve_reactivates :
    (reservations : ReservationService) (inventory : Option InventoryService)
    (service : ApprovalService) (id user reservation_id : ℕ) (changes : Changes) (a : Approval)
    (r : Reservation) (s : Session)
    → service.executors ≡ build_executors (some reservations) inventory
    → service.event_bus ≡ none
    → service.memory_service ≡ none
    → reservations.event_bus ≡ none
    → find id s.approvals ≡ some a
    → a.status ≡ pending
    → a.domain ≡ "reservation"
    → a.parameters ≡ modify_reservation reservation_id changes
    → find reservation_id s.reservations ≡ some r
    → moves changes ≡ false
    → violated (as_modified changes r) ≡ none
    → (approve service id user s ≡ (
      ok id,
      record s {
        approvals =
            update id
              (with_result (success reservation_id) s.now)
              (update id (approved_by user s.now) s.approvals);
        reservations = update reservation_id (as_modified changes) s.reservations;
      },
    ))
      × (find reservation_id (update reservation_id (as_modified changes) s.reservations)
          ≡ some (as_modified changes r))
      × (is_active_status (as_modified changes r).status ≡ true)
approve_reactivates reservations inventory service id user reservation_id changes a r s wired
      unheard forgotten silent found open_a domain named booked still fits =
    let granted : find id (update id (approved_by user s.now) s.approvals)
        ≡ some (approved_by user s.now a) =
      find-update_self id (approved_by user s.now) s.approvals a (λ x. refl) found in
    (
      approve_executes service (execute_approved_action reservations) id user a s unheard forgotten
          found open_a (rw (wired, domain) (unfold build_executors in refl)) reservation_id _
          (execute_found reservations id reservation_id changes (approved_by user s.now a) r
            (record s { approvals = update id (approved_by user s.now) s.approvals }) silent granted
            named booked still fits)
          granted,
      find-update_self reservation_id (as_modified changes) s.reservations r (λ x. refl) booked,
      refl,
    )
