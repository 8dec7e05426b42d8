-- ===== src/Staffing/Requirement.antt =====
-- How many people a shift wants.
use native.Mathlib.Nat.{
  le_trans, le-max_left, le-max_right, max-le, lt-div-mul-add, div-lt_iff_lt-mul, mul-le-mul_right,
}
use restaurant_sahayak.Base.{
  ℕ, zero, suc, ◌+◌, ◌*◌, ◌/◌, ◌≤◌, ◌<◌, max, ◌≡◌, refl, ap, Option, arith, or_else,
}
use restaurant_sahayak.Errors.{ok}
use restaurant_sahayak.Models.{Session}
use restaurant_sahayak.Settings.{Settings}
use restaurant_sahayak.Staffing.{
  ceil_div, StaffRequirement, requirement_of, calculate_staff_requirement, sum_expected_covers,
}

-- The least number of at least `floor` people who serve the covers, `each` by each
abbrev pub IsLeast : ℕ → ℕ → ℕ → ℕ → Type 0
IsLeast floor each covers n =
    (floor ≤ n) × (covers ≤ n * each) × ((m : ℕ) → floor ≤ m → covers ≤ m * each → n ≤ m)

ceil_returns : (each covers : ℕ) → 0 < each → (q : ℕ) × (ceil_div covers each ≡ ok q)
unfolding ceil_div
ceil_returns zero covers h = absurd (omega arith)
ceil_returns (suc b) covers h = ((covers + b) / suc b, refl)

ceil-IsLeast :
    (floor each covers q : ℕ)
    → ceil_div covers each ≡ ok q
    → IsLeast floor each covers (max floor q)
unfolding ceil_div
ceil-IsLeast floor zero covers q e = absurd (cc e)
ceil-IsLeast floor (suc b) covers q e =
    let quotient : (covers + b) / suc b ≡ q = cc e in
    let above = lt-div-mul-add {a = covers + b} {b = suc b} (omega arith) in
    let enough : covers ≤ q * suc b = omega (arith, ap (λ (k : ℕ). k * suc b) quotient) in
    (
      le-max_left floor q,
      le_trans enough (mul-le-mul_right (suc b) (le-max_right floor q)),
      λ m low serves.
          let below =
            (div-lt_iff_lt-mul {k = suc b} {x = covers + b} {y = m + 1} (omega arith)).1
              (grind arith) in
          max-le low (omega arith),
    )

-- What a requirement promises: for servers and cooks, the least number of at least the minimum of a
-- shift who serve the covers, one host, and their sum
pub record IsExact (settings : Settings) (covers : ℕ) (r : StaffRequirement) : Type 0 where
  pub expected : r.expected_covers ≡ covers
  pub servers :
      IsLeast settings.minimum_servers_per_shift settings.covers_per_server covers
        r.required_servers
  pub cooks :
      IsLeast settings.minimum_cooks_per_shift settings.covers_per_cook covers r.required_cooks
  pub host : r.required_host ≡ 1
  pub total : r.required_total ≡ r.required_servers + r.required_cooks + r.required_host

-- Where both ratios are positive, the calculation returns, writes nothing, and gives the least numbers of
-- servers and cooks, not below the minimum of a shift, who serve the covers that are stated or, if
-- none are, that the reservations of the window expect.
pub calculate_staff_requirement-IsExact :
    (settings : Settings) (restaurant_id start_at end_at : ℕ) (expected : Option ℕ) (s : Session)
    → 0 < settings.covers_per_server
    → 0 < settings.covers_per_cook
    → (r : StaffRequirement) × (calculate_staff_requirement settings restaurant_id start_at end_at
          expected s
        ≡ (ok r, s))
      × IsExact settings (or_else expected (sum_expected_covers restaurant_id start_at end_at s)) r
unfolding calculate_staff_requirement
calculate_staff_requirement-IsExact settings restaurant_id start_at end_at expected s ps pc =
    let covers = or_else expected (sum_expected_covers restaurant_id start_at end_at s) in
    let (servers, some_servers) = ceil_returns settings.covers_per_server covers ps in
    let (cooks, some_cooks) = ceil_returns settings.covers_per_cook covers pc in
    (
      requirement_of settings covers servers cooks,
      rw (some_servers, some_cooks) refl,
      record {
        expected = refl;
        servers =
            ceil-IsLeast settings.minimum_servers_per_shift settings.covers_per_server covers
              servers some_servers;
        cooks =
            ceil-IsLeast settings.minimum_cooks_per_shift settings.covers_per_cook covers cooks
              some_cooks;
        host = refl;
        total = refl;
      },
    )
