-- ===== src/Staffing/Availability.antt =====
-- Who is free: the two queries and the difference of their results are one selection.
use restaurant_sahayak.Base.{
  ℕ, ◌≡◌, refl, ap, Bool, true, false, not, ◌&&◌, ◌||◌, ◌==◌, Option, List, [], ◌∷◌, map, any,
  select, arith, if◌then◌else◌, String,
}
use restaurant_sahayak.Models.{Session}
use restaurant_sahayak.Models.Staffing.{Staff, ShiftAssignment}
use restaurant_sahayak.Staffing.{
  has_role, is_busy_shift, list_active_staff, list_assigned_staff_ids_in_window,
  get_staff_availability,
}

-- The assignment keeps the member of the staff busy in the window.
abbrev pub keeps_busy : ℕ → ℕ → ℕ → Session → Staff → ShiftAssignment → Bool
keeps_busy restaurant_id start_at end_at s m a =
    any (is_busy_shift restaurant_id start_at end_at a.shift_id) s.shifts && a.staff_id == m.id

-- An active member of the restaurant's staff, of the role if one is named, with no shift in the window
abbrev pub is_free : ℕ → ℕ → ℕ → Option String → Session → Staff → Bool
is_free restaurant_id start_at end_at role s m =
    (m.restaurant_id == restaurant_id && m.is_active && has_role role m)
    && not (any (keeps_busy restaurant_id start_at end_at s m) s.assignments)

any-map-select :
    (key : ℕ) (p : ShiftAssignment → Bool) (rows : List ShiftAssignment)
    → any (λ id. id == key) (map (λ (a : ShiftAssignment). a.staff_id) (select p rows))
      ≡ any (λ a. p a && a.staff_id == key) rows
any-map-select key p [] = refl
any-map-select key p (a ∷ rows) = chosen (p a) (any-map-select key p rows)
  where
    chosen :
        (b : Bool)
        → any (λ id. id == key) (map (λ (a : ShiftAssignment). a.staff_id) (select p rows))
          ≡ any (λ a. p a && a.staff_id == key) rows
        → any
            (λ id. id == key)
            (map
              (λ (a : ShiftAssignment). a.staff_id)
              (if b then a ∷ select p rows else select p rows))
          ≡ (b && a.staff_id == key || any (λ a. p a && a.staff_id == key) rows)
    chosen true e = ap (λ (r : Bool). a.staff_id == key || r) e
    chosen false e = e

select-select :
    (p q r : Staff → Bool) (ms : List Staff)
    → ((m : Staff) → q m ≡ r m)
    → select q (select p ms) ≡ select (λ m. p m && r m) ms
select-select p q r [] same = refl
select-select p q r (m ∷ ms) same = ground (arith, same m, select-select p q r ms same)

-- The availability lists, in the order of the table, exactly the active staff of the restaurant (of the
-- role, if one is named) who have no assignment to one of its shifts that overlaps the window.
pub get_staff_availability_exact :
    (restaurant_id start_at end_at : ℕ) (role : Option String) (s : Session)
    → get_staff_availability restaurant_id start_at end_at role s
      ≡ select (is_free restaurant_id start_at end_at role s) s.staff
unfolding get_staff_availability list_active_staff list_assigned_staff_ids_in_window
get_staff_availability_exact restaurant_id start_at end_at role s =
    select-select (λ m. m.restaurant_id == restaurant_id && m.is_active && has_role role m) _
      (λ m. not (any (keeps_busy restaurant_id start_at end_at s m) s.assignments)) s.staff
      (λ m. ap not (
        any-map-select m.id
          (λ a. any (is_busy_shift restaurant_id start_at end_at a.shift_id) s.shifts)
          s.assignments))
