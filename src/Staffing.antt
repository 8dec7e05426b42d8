-- ===== src/Staffing.antt =====
-- Staffing (app/services/staffing_service.py, app/repositories/staffing_repo.py): the schedule, who is
-- free in a window, and how many people a shift wants. The service only reads.
pub mod Schedule
pub mod Availability
pub mod Requirement
use restaurant_sahayak.Base.{
  order_by, ℕ, zero, suc, ◌+◌, ◌-◌, ◌*◌, ◌/◌, ◌%◌, max, String, Bool, true, false, not, ◌&&◌, ◌==◌,
  str_eq, ltb, leb, or_else, Option, none, some, List, [], ◌∷◌, ◌++◌, map, any, select, find,
  if◌then◌else◌,
}
use restaurant_sahayak.Errors.{Result, ok, err, other}
use restaurant_sahayak.Exec.{pure, gets, lift, ◌>>=◌}
use restaurant_sahayak.Models.{Session, Action}
use restaurant_sahayak.Models.Enums.{ReservationStatus}
use restaurant_sahayak.Models.Bookings.{Reservation}
use restaurant_sahayak.Models.Staffing.{Staff, StaffShift, ShiftAssignment, staff_row}
use restaurant_sahayak.Settings.{Settings}

-- An aware `datetime`: the time on the wall, and how far it is from UTC
pub record Datetime : Type 0 where
  pub local : ℕ
  pub ahead : ℕ
  pub behind : ℕ

-- The instant that it names, from 1970 on
abbrev pub instant : Datetime → ℕ
instant d = d.local + d.behind - d.ahead

abbrev pub one_day : ℕ
one_day = 86400000000

-- `datetime.combine(d.date(), time.min, tzinfo=d.tzinfo)`
unfoldable pub day_start : Datetime → Datetime
day_start d = record d { local = d.local - d.local % one_day }

-- `datetime.combine(d.date(), time.max, tzinfo=d.tzinfo)`, the last microsecond of the day
unfoldable pub day_end : Datetime → Datetime
day_end d = record d { local = d.local - d.local % one_day + 86399999999 }

-- The WHERE clause of `list_shifts`
abbrev pub is_between : ℕ → ℕ → ℕ → StaffShift → Bool
is_between restaurant_id from until x =
    x.restaurant_id == restaurant_id && leb from x.start_at && leb x.start_at until

-- ORDER BY start_at
abbrev pub by_start : StaffShift → StaffShift → Bool
by_start x y = leb x.start_at y.start_at

-- `list_shifts`
unfoldable pub list_shifts : ℕ → Datetime → Datetime → Session → List StaffShift
list_shifts restaurant_id date_from date_to s = order_by by_start (
    select (is_between restaurant_id (instant (day_start date_from)) (instant (day_end date_to)))
      s.shifts)

-- A row of the join of an assignment with its member of the staff
pub record Assigned : Type 0 where
  pub assignment : ShiftAssignment
  pub member : Staff

abbrev pub joined : ShiftAssignment → Option Staff → List Assigned
joined a none = []
joined a (some m) = record { assignment = a; member = m } ∷ []

abbrev pub join_staff : List Staff → List ShiftAssignment → List Assigned
join_staff staff [] = []
join_staff staff (a ∷ rest) = joined a (find a.staff_id staff) ++ join_staff staff rest

-- `list_assignments_for_shifts`; no shifts, no rows.
unfoldable pub list_assignments_for_shifts : List ℕ → Session → List Assigned
list_assignments_for_shifts shift_ids s =
    join_staff s.staff (select (λ a. any (λ id. id == a.shift_id) shift_ids) s.assignments)

-- The `defaultdict(list)` of `get_staff_schedule`: its keys with their lists
abbrev pub ShiftDict : Type 0
ShiftDict = List (ℕ × List Assigned)

-- `by_shift[key].append(row)`
unfoldable pub append_row : ℕ → Assigned → ShiftDict → ShiftDict
append_row key row [] = (key, row ∷ []) ∷ []
append_row key row ((k, rows) ∷ rest) =
    if k == key then (k, rows ++ row ∷ []) ∷ rest else (k, rows) ∷ append_row key row rest

-- The `for` loop
unfoldable pub group_rows : ShiftDict → List Assigned → ShiftDict
group_rows by_shift [] = by_shift
group_rows by_shift (row ∷ rows) = group_rows (append_row row.assignment.shift_id row by_shift) rows

-- `by_shift.get(key, [])`
unfoldable pub rows_of : ℕ → ShiftDict → List Assigned
rows_of key [] = []
rows_of key ((k, rows) ∷ rest) = if k == key then rows else rows_of key rest

-- `get_staff_schedule`
unfoldable pub get_staff_schedule :
    ℕ → Datetime → Datetime → Session → List (StaffShift × List Assigned)
get_staff_schedule restaurant_id date_from date_to s =
    let shifts = list_shifts restaurant_id date_from date_to s in
    let by_shift = group_rows [] (list_assignments_for_shifts (map (λ x. x.id) shifts) s) in
    map (λ x. (x, rows_of x.id by_shift)) shifts

-- The WHERE clause of `list_active_staff`
abbrev pub has_role : Option String → Staff → Bool
has_role none m = true
has_role (some role) m = str_eq m.role role

unfoldable pub list_active_staff : ℕ → Option String → Session → List Staff
list_active_staff restaurant_id role s =
    select (λ m. m.restaurant_id == restaurant_id && m.is_active && has_role role m) s.staff

-- The shift of an assignment lies in the restaurant and overlaps the window.
abbrev pub is_busy_shift : ℕ → ℕ → ℕ → ℕ → StaffShift → Bool
is_busy_shift restaurant_id start_at end_at shift_id x =
    x.id == shift_id
    && (x.restaurant_id == restaurant_id && ltb x.start_at end_at && ltb start_at x.end_at)

-- `list_assigned_staff_ids_in_window`; the set is a list here.
unfoldable pub list_assigned_staff_ids_in_window : ℕ → ℕ → ℕ → Session → List ℕ
list_assigned_staff_ids_in_window restaurant_id start_at end_at s =
    map (λ a. a.staff_id)
      (select (λ a. any (is_busy_shift restaurant_id start_at end_at a.shift_id) s.shifts)
        s.assignments)

-- `get_staff_availability`
unfoldable pub get_staff_availability : ℕ → ℕ → ℕ → Option String → Session → List Staff
get_staff_availability restaurant_id start_at end_at role s =
    let assigned_ids = list_assigned_staff_ids_in_window restaurant_id start_at end_at s in
    select (λ m. not (any (λ id. id == m.id) assigned_ids)) (list_active_staff restaurant_id role s)

-- `ACTIVE_RESERVATION_STATUSES` of staffing_repo.py: a guest who has come counts too.
abbrev pub is_expected_status : ReservationStatus → Bool
is_expected_status ReservationStatus.requested = true
is_expected_status ReservationStatus.booked = true
is_expected_status ReservationStatus.modified = true
is_expected_status ReservationStatus.completed = true
is_expected_status _ = false

-- The WHERE clause of `sum_expected_covers`
abbrev pub is_expected : ℕ → ℕ → ℕ → Reservation → Bool
is_expected restaurant_id start_at end_at r =
    r.restaurant_id == restaurant_id
    && leb start_at r.requested_time
    && ltb r.requested_time end_at
    && is_expected_status r.status

abbrev pub sum_of : List Reservation → ℕ
sum_of [] = 0
sum_of (r ∷ rs) = r.party_size + sum_of rs

-- `sum_expected_covers`
unfoldable pub sum_expected_covers : ℕ → ℕ → ℕ → Session → ℕ
sum_expected_covers restaurant_id start_at end_at s =
    sum_of (select (is_expected restaurant_id start_at end_at) s.reservations)

-- `math.ceil(a / b)`. The quotient is a float; below 2 ^ 53 covers its rounding crosses no integer, so
-- that the ceiling is exact. A zero divisor raises.
unfoldable pub ceil_div : ℕ → ℕ → Result ℕ
ceil_div a zero = err (other "ZeroDivisionError")
ceil_div a (suc b) = ok ((a + b) / suc b)

-- The tuple that `calculate_staff_requirement` returns
pub record StaffRequirement : Type 0 where
  pub expected_covers : ℕ
  pub required_servers : ℕ
  pub required_cooks : ℕ
  pub required_host : ℕ
  pub required_total : ℕ

abbrev pub requirement_of : Settings → ℕ → ℕ → ℕ → StaffRequirement
requirement_of settings covers servers cooks =
    let required_servers = max settings.minimum_servers_per_shift servers in
    let required_cooks = max settings.minimum_cooks_per_shift cooks in
    record {
      expected_covers = covers;
      required_servers = required_servers;
      required_cooks = required_cooks;
      required_host = 1;
      required_total = required_servers + required_cooks + 1;
    }

-- `calculate_staff_requirement`
unfoldable pub calculate_staff_requirement :
    Settings → ℕ → ℕ → ℕ → Option ℕ → Action StaffRequirement
calculate_staff_requirement settings restaurant_id start_at end_at expected_covers = do
  summed ← gets (sum_expected_covers restaurant_id start_at end_at)
  let covers = or_else expected_covers summed
  servers ← lift (ceil_div covers settings.covers_per_server)
  cooks ← lift (ceil_div covers settings.covers_per_cook)
  pure (requirement_of settings covers servers cooks)
