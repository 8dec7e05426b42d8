-- ===== src/Approvals/Requests.antt =====
-- Sequences of calls of the service, as its clients make them at growing times.
use restaurant_sahayak.Base.{ℕ, ◌+◌, Option, List, [], ◌∷◌, Text, arith}
use restaurant_sahayak.Exec.{Keeps, Keeps-bind, Keeps-pure, pure, ◌>>◌}
use restaurant_sahayak.Models.{Session, Action}
use restaurant_sahayak.Approvals.{
  ApprovalService, Proposal, create_approval_request, approve, reject, expire,
}
use restaurant_sahayak.Approvals.Preserves.{
  IsLocal, PartnersKeep, Writes, create-Keeps, approve-Keeps, reject-Keeps, expire-Keeps,
}
use restaurant_sahayak.Approvals.Consistency.{
  ApprovalsConsistent, Writes-ApprovalsConsistent, ApprovalsConsistent-local,
}

pub data Request : Type 0 where
  propose : Proposal → Request
  approve_one : ℕ → ℕ → Request
  reject_one : ℕ → ℕ → Option Text → Request
  expire_all_of : ℕ → Request

-- One call; what it returns is dropped.
pub handle : ApprovalService → Request → Action (Unit {0})
handle service (propose p) = create_approval_request service p >> pure tt
handle service (approve_one id user) = approve service id user >> pure tt
handle service (reject_one id user reason) = reject service id user reason >> pure tt
handle service (expire_all_of restaurant_id) = expire restaurant_id >> pure tt

-- Calls one after the other, each a number of microseconds after the one before; a call that
-- raises leaves what it had written and the next one goes on from there.
unfoldable pub run : ApprovalService → List (ℕ × Request) → Session → Session
run service [] s = s
run service ((later, request) ∷ rest) s =
    run service rest (handle service request (record s { now = s.now + later })).1

module _ (service : ApprovalService) (P : Session → Type 0) (local : IsLocal P) where
  module _ (partners : PartnersKeep P service) (writes : Writes P) where
    handle-Keeps : (request : Request) → Keeps P (handle service request)
    unfolding handle
    handle-Keeps (propose p) =
        Keeps-bind P (create_approval_request service p) _
          (create-Keeps service P local partners.handlers writes.inserts p) (λ _. Keeps-pure P tt)
    handle-Keeps (approve_one id user) =
        Keeps-bind P (approve service id user) _
          (approve-Keeps service P local partners writes.decides id user) (λ _. Keeps-pure P tt)
    handle-Keeps (reject_one id user reason) =
        Keeps-bind P (reject service id user reason) _
          (reject-Keeps service P local partners writes.decides id user reason)
          (λ _. Keeps-pure P tt)
    handle-Keeps (expire_all_of restaurant_id) =
        Keeps-bind P (expire restaurant_id) _
          (expire-Keeps service P local partners writes restaurant_id) (λ _. Keeps-pure P tt)

    pub run-invariant :
        (requests : List (ℕ × Request)) (s : Session) → P s → P (run service requests s)
    unfolding run
    run-invariant [] s h = h
    run-invariant ((later, request) ∷ rest) s h =
        run-invariant rest (handle service request (record s { now = s.now + later })).1 (
          (handle-Keeps request).at (record s { now = s.now + later })
            (local.clock s (s.now + later) s.next_id (omega arith) h))

-- No sequence of proposals, decisions and sweeps, at any times, can violate the constraint on the
-- decision columns, whichever calls raise: every approval of the table stays consistent and has its
-- own identity, if the executors and the handlers keep that.
pub run-ApprovalsConsistent :
    (service : ApprovalService) (requests : List (ℕ × Request)) (s : Session)
    → PartnersKeep ApprovalsConsistent service
    → ApprovalsConsistent s
    → ApprovalsConsistent (run service requests s)
run-ApprovalsConsistent service requests s partners h =
    run-invariant service ApprovalsConsistent ApprovalsConsistent-local partners
      Writes-ApprovalsConsistent requests s h
