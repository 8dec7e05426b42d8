-- ===== src/Staffing/Schedule.antt =====
-- The schedule: the dictionary of the loop gives each shift exactly its assignments.
use mathlib.Core.List.{append_assoc, append-nil}
use mathlib.Core.Path.{subst}
use mathlib.Core.Logic.{◌↔◌}
use restaurant_sahayak.Base.{
  ◌/◌, ◌≤◌, ◌<◌, ℕ, ◌≡◌, refl, sym, ap, ◌∙◌, Bool, true, false, ◌==◌, Option, none, some, List, [],
  ◌∷◌, ◌++◌, map, any, select, find, arith, if◌then◌else◌, All, ==→eq,
}
use restaurant_sahayak.Models.{Session}
use restaurant_sahayak.Models.Staffing.{Staff, StaffShift, ShiftAssignment, staff_row}
use restaurant_sahayak.Staffing.{
  Datetime, Assigned, ShiftDict, append_row, group_rows, rows_of, join_staff, joined, list_shifts,
  list_assignments_for_shifts, get_staff_schedule, is_between, instant, day_start, day_end, one_day,
}

-- The rows of one shift
abbrev pub of_shift : ℕ → Assigned → Bool
of_shift key row = row.assignment.shift_id == key

rows_of-append_row :
    (key k : ℕ) (row : Assigned) (d : ShiftDict)
    → rows_of key (append_row k row d)
      ≡ (if k == key then rows_of key d ++ row ∷ [] else rows_of key d)
unfolding rows_of append_row
rows_of-append_row key k row [] = ground arith
rows_of-append_row key k row ((j, rows) ∷ rest) = ground (arith, rows_of-append_row key k row rest)

-- The loop appends to each key its rows, in their order.
rows_of-group_rows :
    (key : ℕ) (d : ShiftDict) (rows : List Assigned)
    → rows_of key (group_rows d rows) ≡ rows_of key d ++ select (of_shift key) rows
unfolding group_rows
rows_of-group_rows key d [] = sym (append-nil (rows_of key d))
rows_of-group_rows key d (row ∷ rows) =
    rows_of-group_rows key (append_row row.assignment.shift_id row d) rows
    ∙ ap (λ l. l ++ select (of_shift key) rows)
        (rows_of-append_row key row.assignment.shift_id row d)
    ∙ kept (row.assignment.shift_id == key)
  where
    kept :
        (b : Bool)
        → (if b then rows_of key d ++ row ∷ [] else rows_of key d) ++ select (of_shift key) rows
          ≡ rows_of key d
            ++ (if b then row ∷ select (of_shift key) rows else select (of_shift key) rows)
    kept true = append_assoc (rows_of key d) (row ∷ []) (select (of_shift key) rows)
    kept false = refl

-- All the assignments of a shift, joined with the staff
abbrev pub assigned_to : ℕ → Session → List Assigned
assigned_to key s = join_staff s.staff (select (λ a. a.shift_id == key) s.assignments)

select-joined :
    (key : ℕ) (a : ShiftAssignment) (m : Option Staff)
    → select (of_shift key) (joined a m) ≡ (if a.shift_id == key then joined a m else [])
select-joined key a none = ground arith
select-joined key a (some m) = refl

select-append :
    (p : Assigned → Bool) (xs ys : List Assigned) → select p (xs ++ ys) ≡ select p xs ++ select p ys
select-append p [] ys = refl
select-append p (x ∷ xs) ys = ground (arith, select-append p xs ys)

-- The query for several shifts, restricted to one of them, is the query for that one.
select-join_staff :
    (key : ℕ) (ids : List ℕ) (staff : List Staff) (rows : List ShiftAssignment)
    → any (λ id. id == key) ids ≡ true
    → select (of_shift key) (join_staff staff (select (λ a. any (λ id. id == a.shift_id) ids) rows))
      ≡ join_staff staff (select (λ a. a.shift_id == key) rows)
select-join_staff key ids staff [] h = refl
select-join_staff key ids staff (a ∷ rows) h =
    queried (any (λ id. id == a.shift_id) ids) (a.shift_id == key)
      (select-join_staff key ids staff rows h) refl refl
  where
    rest : List Assigned
    rest = join_staff staff (select (λ b. any (λ id. id == b.shift_id) ids) rows)

    own : List Assigned
    own = join_staff staff (select (λ b. b.shift_id == key) rows)

    queried :
        (wanted ours : Bool)
        → select (of_shift key) rest ≡ own
        → any (λ id. id == a.shift_id) ids ≡ wanted
        → (a.shift_id == key) ≡ ours
        → select (of_shift key) (
            join_staff staff (
              if wanted
              then a ∷ select (λ b. any (λ id. id == b.shift_id) ids) rows
              else select (λ b. any (λ id. id == b.shift_id) ids) rows))
          ≡ join_staff staff (
              if ours
              then a ∷ select (λ b. b.shift_id == key) rows
              else select (λ b. b.shift_id == key) rows)
    queried true true ih e f =
        select-append (of_shift key) (joined a (find a.staff_id staff)) rest
        ∙ ap (λ l. l ++ select (of_shift key) rest)
            (select-joined key a (find a.staff_id staff)
              ∙ ap (λ b. if b then joined a (find a.staff_id staff) else []) f)
        ∙ ap (λ l. joined a (find a.staff_id staff) ++ l) ih
    queried true false ih e f =
        select-append (of_shift key) (joined a (find a.staff_id staff)) rest
        ∙ ap (λ l. l ++ select (of_shift key) rest)
            (select-joined key a (find a.staff_id staff)
              ∙ ap (λ b. if b then joined a (find a.staff_id staff) else []) f)
        ∙ ih
    queried false true ih e f =
        let unwanted : any (λ id. id == key) ids ≡ false =
          subst (λ k. any (λ id. id == k) ids ≡ false) (==→eq a.shift_id key f) e in
        absurd (cc)
    queried false false ih e f = ih

-- One row of the schedule, as it is read from the tables
abbrev pub with_assigned : Session → StaffShift → StaffShift × List Assigned
with_assigned s x = (x, assigned_to x.id s)

looked_up :
    (ids : List ℕ) (s : Session) (shifts : List StaffShift)
    → All (λ (x : StaffShift). any (λ id. id == x.id) ids ≡ true) shifts
    → map
        (λ (x : StaffShift). (x, rows_of x.id (group_rows [] (list_assignments_for_shifts ids s))))
        shifts
      ≡ map (with_assigned s) shifts
unfolding list_assignments_for_shifts rows_of
looked_up ids s [] h = refl
looked_up ids s (x ∷ shifts) h =
    ap
      (λ rows.
        (x, rows)
        ∷ map
            (λ (x : StaffShift).
              (x, rows_of x.id (group_rows [] (list_assignments_for_shifts ids s))))
            shifts)
      (rows_of-group_rows x.id [] (list_assignments_for_shifts ids s)
        ∙ select-join_staff x.id ids s.staff s.assignments h.0)
    ∙ ap (λ l. with_assigned s x ∷ l) (looked_up ids s shifts h.1)

is_member :
    (x : StaffShift) (before : List ℕ) (xs : List ℕ)
    → any (λ id. id == x.id) xs ≡ true
    → any (λ id. id == x.id) (before ++ xs) ≡ true
is_member x [] xs h = h
is_member x (b ∷ before) xs h = ground (arith, is_member x before xs h)

keys_found :
    (before : List ℕ) (shifts : List StaffShift)
    → All
        (λ (x : StaffShift).
          any (λ id. id == x.id) (before ++ map (λ (x : StaffShift). x.id) shifts) ≡ true)
        shifts
keys_found before [] = tt
keys_found before (x ∷ shifts) = (
  is_member x before (x.id ∷ map (λ (y : StaffShift). y.id) shifts) (ground arith),
  subst (λ ids. All (λ (y : StaffShift). any (λ id. id == y.id) ids ≡ true) shifts)
      (append_assoc before (x.id ∷ []) (map (λ (y : StaffShift). y.id) shifts))
      (keys_found (before ++ x.id ∷ []) shifts),
)

-- The schedule pairs each shift of the days, in the order in which they start, with exactly its own
-- assignments and the staff who have them, in the order of the table: the dictionary of the loop loses
-- and mixes up nothing.
pub get_staff_schedule_complete :
    (restaurant_id : ℕ) (date_from date_to : Datetime) (s : Session)
    → get_staff_schedule restaurant_id date_from date_to s
      ≡ map (with_assigned s) (list_shifts restaurant_id date_from date_to s)
unfolding get_staff_schedule
get_staff_schedule_complete restaurant_id date_from date_to s =
    let shifts = list_shifts restaurant_id date_from date_to s in
    looked_up (map (λ (x : StaffShift). x.id) shifts) s shifts (keys_found [] shifts)

-- The days that a range names are whole days of its zone: a shift of the restaurant is in the range
-- exactly if it begins on one of them, at whatever time of the day, and whatever the times of the
-- day of the range are.
pub is_between_days :
    (restaurant_id : ℕ) (date_from date_to start : Datetime) (x : StaffShift)
    → x.restaurant_id ≡ restaurant_id
    → x.start_at ≡ instant start
    → (start.ahead ≡ date_from.ahead) × (start.behind ≡ date_from.behind)
    → (start.ahead ≡ date_to.ahead) × (start.behind ≡ date_to.behind)
    → start.ahead < one_day
    → one_day ≤ date_from.local
    → one_day ≤ date_to.local
    → one_day ≤ start.local
    → (is_between restaurant_id (instant (day_start date_from)) (instant (day_end date_to)) x
        ≡ true)
      ↔ ((date_from.local / one_day ≤ start.local / one_day)
          × (start.local / one_day ≤ date_to.local / one_day))
unfolding day_start day_end
is_between_days restaurant_id date_from date_to start x ours begins same_from same_to zone f t l =
    (λ h. ground arith, λ h. ground arith)
