-- ===== src/Exec/Defs.antt =====
-- The operations from which the service methods are built.
use restaurant_sahayak.Base.{Bool, true, false, Option, none, some, List, [], ◌∷◌}
use restaurant_sahayak.Errors.{Result, ok, err, Exn, tool_error, ToolError, multiple_results_found}

abbrev pub Exec {ℓ} : Type ℓ → Type ℓ → Type ℓ
Exec S A = S → Result A × S

module _ {ℓ} {S A : Type ℓ} where
  abbrev pub pure : A → Exec S A
  pure a s = (ok a, s)

  -- `raise` of any exception
  abbrev pub throw : Exn → Exec S A
  throw e s = (err e, s)

  -- `raise ToolError(code, ...)`
  abbrev pub raise : ToolError → Exec S A
  raise e = throw (tool_error e)

  abbrev pub gets : (S → A) → Exec S A
  gets f s = (ok (f s), s)

  -- `if x is None: raise ...`
  abbrev pub require : Option A → ToolError → Exec S A
  require none e = raise e
  require (some a) _ = pure a

  abbrev pub lift : Result A → Exec S A
  lift r s = (r, s)

  -- `Result.scalar_one_or_none()`
  abbrev pub scalar_one_or_none : List A → Exec S (Option A)
  scalar_one_or_none [] = λ s. (ok none, s)
  scalar_one_or_none (a ∷ []) = λ s. (ok (some a), s)
  scalar_one_or_none (_ ∷ _ ∷ _) = λ s. (err multiple_results_found, s)

module _ {S : Type 0} where
  abbrev pub modify : (S → S) → Exec S (Unit {0})
  modify f s = (ok tt, f s)

  -- `if b: raise ...`
  abbrev pub raise_if : Bool → ToolError → Exec S (Unit {0})
  raise_if true e = raise e
  raise_if false _ = pure tt

  -- `if b: <statement>`
  abbrev pub when : Bool → Exec S (Unit {0}) → Exec S (Unit {0})
  when true m = m
  when false _ = pure tt

module _ {ℓ κ} {S : Type ℓ} {A : Type κ} where
  -- How an action goes on: `ok` by the rest, `err` at the handler.
  abbrev pub after {ι} : {B : Type ι} → (A → S → B) → (Exn → S → B) → Result A × S → B
  after f g (ok a, s) = f a s
  after f g (err e, s) = g e s

module _ {S A B : Type 0} where
  infixl 5 ◌>>=◌ ◌>>◌
  abbrev pub ◌>>=◌ : Exec S A → (A → Exec S B) → Exec S B
  ◌>>=◌ m f s = after f throw (m s)

  abbrev pub ◌>>◌ : Exec S A → Exec S B → Exec S B
  m >> k = m >>= λ _. k

  -- `try: r = await m; return f(r)` with `except Exception as exc: return g(exc)`
  abbrev pub try_except : Exec S A → (A → Exec S B) → (Exn → Exec S B) → Exec S B
  try_except m f g s = after f g (m s)

module _ {S A : Type 0} where
  -- `async with session.begin_nested()`: an exception rolls back what the body wrote and goes on.
  abbrev pub begin_nested : (S → S → S) → Exec S A → Exec S A
  begin_nested rollback m s = after pure (λ e s'. (err e, rollback s s')) (m s)
