-- ===== src/Exec/Invariants.antt =====
-- Invariants of actions, one rule for each way to build an action.
use mathlib.Core.Path.{subst, subst₂}
use restaurant_sahayak.Base.{◌≡◌, ap, Bool, true, false, Option, none, some}
use restaurant_sahayak.Errors.{Result, ok, err, Exn, ToolError}
use restaurant_sahayak.Exec.Defs.{
  Exec, pure, throw, gets, require, modify, raise_if, when, after, ◌>>=◌, try_except,
}

-- `m` keeps `P`, whether it returns or raises.
pub record Keeps {S A : Type 0} (P : S → Type 0) (m : Exec S A) : Type 0 where
  pub at : (s : S) → P s → P (m s).1

-- What a call leaves: `P` holds of the state, and a returned value satisfies `Q` there.
abbrev pub Leaves : {S A : Type 0} → (S → Type 0) → (A → S → Type 0) → Result A × S → Type 0
Leaves P Q (ok a, s) = P s × Q a s
Leaves P Q (err e, s) = P s

-- `m` keeps `P`, and from a state with `P` what it returns satisfies `Q` in the state after.
pub record Ensures {S A : Type 0} (P : S → Type 0) (Q : A → S → Type 0) (m : Exec S A)
    : Type 0 where
  pub at : (s : S) → P s → Leaves P Q (m s)

-- A returned value satisfies `P`.
abbrev pub Returns : {S A : Type 0} → (A → Type 0) → Result A × S → Type 0
Returns P (ok a, s) = P a
Returns P (err e, s) = Unit

pub Returns-bind :
    {S A B : Type 0} (Q : A → Type 0) (P : B → Type 0) (m : Exec S A) (f : A → Exec S B) (s : S)
    → Returns Q (m s)
    → ((a : A) (s' : S) → Q a → Returns P (f a s'))
    → Returns P ((m >>= f) s)
Returns-bind {S} {A} Q P m f s h k = after-Returns (m s) h
  where
    after-Returns : (out : Result A × S) → Returns Q out → Returns P (after f throw out)
    after-Returns (ok a, s') q = k a s' q
    after-Returns (err e, s') q = tt

-- Nothing is asked of what a call returns.
pub Returns-any : {S A : Type 0} (out : Result A × S) → Returns (λ _. Unit {0}) out
Returns-any (ok a, s) = tt
Returns-any (err e, s) = tt

pub Returns-map :
    {S A : Type 0} (P Q : A → Type 0)
    → ((a : A) → P a → Q a)
    → (out : Result A × S) → Returns P out
    → Returns Q out
Returns-map P Q f (ok a, s) h = f a h
Returns-map P Q f (err e, s) h = tt

pub Returns-ok :
    {S A : Type 0} (P : A → Type 0) {out : Result A × S} {a : A} {s : S}
    → Returns P out
    → out ≡ (ok a, s)
    → P a
Returns-ok P r e = subst (Returns P) e r

module _ {S A : Type 0} (P : S → Type 0) where
  pub Keeps-pure : (a : A) → Keeps P (pure a)
  Keeps-pure a = record { at = λ s h. h }

  pub Keeps-throw : (e : Exn) → Keeps P (throw {A = A} e)
  Keeps-throw e = record { at = λ s h. h }

  pub Keeps-gets : (f : S → A) → Keeps P (gets f)
  Keeps-gets f = record { at = λ s h. h }

  pub Keeps-require : (o : Option A) (e : ToolError) → Keeps P (require o e)
  Keeps-require none e = record { at = λ s h. h }
  Keeps-require (some a) e = record { at = λ s h. h }

module _ {S : Type 0} (P : S → Type 0) where
  pub Keeps-raise_if : (b : Bool) (e : ToolError) → Keeps P (raise_if b e)
  Keeps-raise_if true e = record { at = λ s h. h }
  Keeps-raise_if false e = record { at = λ s h. h }

  pub Keeps-modify : (f : S → S) → ((s : S) → P s → P (f s)) → Keeps P (modify f)
  Keeps-modify f h = record { at = h }

  pub Keeps-when : (b : Bool) (m : Exec S (Unit {0})) → Keeps P m → Keeps P (when b m)
  Keeps-when true m k = k
  Keeps-when false m k = record { at = λ s h. h }

module _ {S A B : Type 0} (P : S → Type 0) where
  Keeps-after :
      (f : A → Exec S B) (g : Exn → Exec S B) (r : Result A) (s : S)
      → ((a : A) → Keeps P (f a))
      → ((e : Exn) → Keeps P (g e))
      → P s
      → P (after f g (r, s)).1
  Keeps-after f g (ok a) s kf kg h = (kf a).at s h
  Keeps-after f g (err e) s kf kg h = (kg e).at s h

  pub Keeps-bind :
      (m : Exec S A) (f : A → Exec S B) → Keeps P m → ((a : A) → Keeps P (f a)) → Keeps P (m >>= f)
  Keeps-bind m f km kf = record {
    at = λ s h. Keeps-after f throw (m s).0 (m s).1 kf (λ e. Keeps-throw P e) (km.at s h);
  }

  -- From one state: the first part has left `P` there, and the rest keeps it.
  pub bind-state :
      (m : Exec S A) (f : A → Exec S B) (s : S)
      → P (m s).1
      → ((a : A) → Keeps P (f a))
      → P ((m >>= f) s).1
  bind-state m f s h kf = Keeps-after f throw (m s).0 (m s).1 kf (λ e. Keeps-throw P e) h

  -- From one state: the first part leaves `R`, which implies `P`, and the rest leads on to `P`.
  pub bind-weaken :
      (R : S → Type 0) (m : Exec S A) (f : A → Exec S B) (s : S)
      → R (m s).1
      → ((s : S) → R s → P s)
      → ((a : A) (s : S) → R s → P (f a s).1)
      → P ((m >>= f) s).1
  bind-weaken R m f s h weaken kf = ended (m s).0 (m s).1 h
    where
      ended : (r : Result A) (s : S) → R s → P (after f throw (r, s)).1
      ended (ok a) s h = kf a s h
      ended (err e) s h = weaken s h

  Leaves-after :
      (Q : A → S → Type 0) (f : A → Exec S B) (r : Result A) (s : S)
      → Leaves P Q (r, s)
      → ((a : A) (s : S) → P s → Q a s → P (f a s).1)
      → P (after f throw (r, s)).1
  Leaves-after Q f (ok a) s l kf = kf a s l.0 l.1
  Leaves-after Q f (err e) s l kf = l

  -- From one state: the rest of the block may use what the first part has left.
  pub bind-Leaves :
      (Q : A → S → Type 0) (m : Exec S A) (f : A → Exec S B) (s : S)
      → Leaves P Q (m s)
      → ((a : A) (s : S) → P s → Q a s → P (f a s).1)
      → P ((m >>= f) s).1
  bind-Leaves Q m f s l kf = Leaves-after Q f (m s).0 (m s).1 l kf

  -- The rest of the block may use what the first part ensures.
  pub Keeps-bind_after :
      (Q : A → S → Type 0) (m : Exec S A) (f : A → Exec S B)
      → Ensures P Q m
      → ((a : A) (s : S) → P s → Q a s → P (f a s).1)
      → Keeps P (m >>= f)
  Keeps-bind_after Q m f km kf = record { at = λ s h. bind-Leaves Q m f s (km.at s h) kf }

  pub Keeps-try_except :
      (m : Exec S A) (f : A → Exec S B) (g : Exn → Exec S B)
      → Keeps P m
      → ((a : A) → Keeps P (f a))
      → ((e : Exn) → Keeps P (g e))
      → Keeps P (try_except m f g)
  Keeps-try_except m f g km kf kg = record {
    at = λ s h. Keeps-after f g (m s).0 (m s).1 kf kg (km.at s h);
  }

pub ruleset keeps_rules = (
  Keeps-pure, Keeps-throw, Keeps-gets, Keeps-require, Keeps-raise_if, Keeps-modify, Keeps-when,
  Keeps-bind, Keeps-try_except,
)

-- After a return the block goes on from the state that it left.
pub goes_on :
    {S A B : Type 0} (f : A → Exec S B) (a : A) (out : Result A × S)
    → out.0 ≡ ok a
    → after f throw out ≡ f a out.1
goes_on f a (ok b, s) e = let same : b ≡ a = cc e in ap (λ x. f x s) same
goes_on f a (err e', s) e = cc e

-- Two returns are equal if their values and states are.
pub returned :
    {S A : Type 0} (P : A → S → Type 0) {a b : A} {s t : S}
    → ◌≡◌ {A = Result A × S} (ok a, s) (ok b, t)
    → P a s
    → P b t
returned P {a} {b} {s} {t} e p =
    let values : a ≡ b = cc (ap (λ (r : Result _ × _). r.0) e) in
    subst₂ P values (ap (λ (r : Result _ × _). r.1) e) p
