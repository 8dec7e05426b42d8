-- ===== src/Events/Attempts.antt =====
-- The retry loop of `_dispatch_one`: its runs, their length, and that it never raises.
use Prim.Native.Nat.{zero-le}
use restaurant_sahayak.Base.{
  ℕ, zero, suc, ◌≤◌, ◌≡◌, refl, Option, none, some, List, [], ◌∷◌, length, arith,
}
use restaurant_sahayak.Errors.{Result, ok, err, Exn}
use restaurant_sahayak.Models.{Session}
use restaurant_sahayak.Models.Approvals.{HandlerResult, success, failed_after_retries}
use restaurant_sahayak.Events.{EventEnvelope, Registration, EventBus, attempt_loop, dispatch_one}

module _ (registration : Registration) (envelope : EventEnvelope) where
  -- Calls of the handler one after the other, each from the session that the last one left: the
  -- exceptions that it raised, in order, up to the first return or to the end.
  pub data Tries : List Exn → Session → HandlerResult → Session → Type 0 where
    returned :
        {s s' : Session} → registration.handler envelope s ≡ (ok tt, s') → Tries [] s success s'
    gave_up :
        {s s' : Session} {e : Exn}
        → registration.handler envelope s ≡ (err e, s')
        → Tries (e ∷ []) s (failed_after_retries e) s'
    again :
        {s s' s'' : Session} {e : Exn} {es : List Exn} {r : HandlerResult}
        → registration.handler envelope s ≡ (err e, s')
        → Tries es s' r s''
        → Tries (e ∷ es) s r s''

  -- With `retries` allowed after the first attempt: a success has failed no more than that often
  -- before, a failure has used up all attempts.
  abbrev pub Within : ℕ → HandlerResult → List Exn → Type 0
  Within retries success es = length es ≤ retries
  Within retries (failed_after_retries _) es = length es ≡ suc retries

  -- A call that returns `r` after such tries.
  abbrev pub Ends : ℕ → Session → Result HandlerResult × Session → Type 0
  Ends retries s out =
      (r : HandlerResult) × (s' : Session) × (out ≡ (ok r, s'))
      × (es : List Exn) × Tries es s r s'
      × Within retries r es

  Ends-again :
      (retries : ℕ) (s s' : Session) (e : Exn) (out : Result HandlerResult × Session)
      → registration.handler envelope s ≡ (err e, s')
      → Ends retries s' out
      → Ends (suc retries) s out
  Ends-again retries s s' e out h (success, t, p, es, tries, w) =
      (success, t, p, e ∷ es, again h tries, omega arith)
  Ends-again retries s s' e out h (failed_after_retries q, t, p, es, tries, w) =
      (failed_after_retries q, t, p, e ∷ es, again h tries, omega arith)

  attempt_loop-Ends :
      (retries : ℕ) (last : Option Exn) (s : Session) (called : Result (Unit {0}) × Session)
      → registration.handler envelope s ≡ called
      → Ends retries s (attempt_loop (suc retries) last registration envelope s)
  unfolding attempt_loop
  attempt_loop-Ends retries last s (ok tt, s') h = (success, s', rw h, [], returned h, zero-le)
  attempt_loop-Ends zero last s (err e, s') h =
      (failed_after_retries e, s', rw h, e ∷ [], gave_up h, refl)
  attempt_loop-Ends (suc retries) last s (err e, s') h =
      Ends-again retries s s' e _ h
        (rw h (attempt_loop-Ends retries (some e) s' (registration.handler envelope s') refl))

-- Dispatch to one handler never raises. It calls the handler until it returns, at most
-- `max_retries_per_handler + 1` times, and records a success as soon as it does; it records a
-- failure, with the last exception, only after that many failures.
pub dispatch_one-Ends :
    (bus : EventBus) (registration : Registration) (envelope : EventEnvelope) (s : Session)
    → Ends registration envelope bus.max_retries_per_handler s
        (dispatch_one bus registration envelope s)
unfolding dispatch_one
dispatch_one-Ends bus registration envelope s =
    attempt_loop-Ends registration envelope bus.max_retries_per_handler none s
      (registration.handler envelope s) refl
