-- ===== src/Tests/Staffing.antt =====
-- The staff of the test restaurant: a server on the evening shift, a cook off duty, in Indian time.
use restaurant_sahayak.Base.{
  ◌≡◌, refl, ℕ, ◌+◌, ◌*◌, ◌/◌, ◌≤◌, true, String, none, [], ◌∷◌, map, arith,
}
use mathlib.Core.Logic.{◌↔◌}
use restaurant_sahayak.Errors.{ok}
use restaurant_sahayak.Models.{Session}
use restaurant_sahayak.Models.Staffing.{Staff, StaffShift}
use restaurant_sahayak.Settings.{default_settings}
use restaurant_sahayak.Staffing.{
  Datetime, instant, one_day, day_start, day_end, is_between, list_shifts, get_staff_schedule,
  get_staff_availability, list_active_staff, list_assigned_staff_ids_in_window, sum_expected_covers,
  StaffRequirement, calculate_staff_requirement,
}
use restaurant_sahayak.Staffing.Schedule.{
  with_assigned, get_staff_schedule_complete, is_between_days,
}
use restaurant_sahayak.Staffing.Requirement.{IsExact, calculate_staff_requirement-IsExact}
use restaurant_sahayak.Tests.{restaurant, evening}

abbrev staff_of : ℕ → String → Staff
staff_of id role = record {
  id = id;
  restaurant_id = 1;
  name = "Ravi";
  role = role;
  is_active = true;
}

-- Five and a half hours ahead of UTC
abbrev local_time : ℕ → Datetime
local_time microseconds = record { local = microseconds; ahead = 19800000000; behind = 0 }

abbrev shift_start : Datetime
shift_start = local_time (20 * one_day + 3600000000)

abbrev evening_shift : StaffShift
evening_shift = record {
  id = 60;
  restaurant_id = 1;
  start_at = instant shift_start;
  end_at = instant shift_start + 14400000000;
}

abbrev staffed : Session
staffed = record restaurant {
  staff = staff_of 50 "server" ∷ staff_of 51 "cook" ∷ [];
  shifts = evening_shift ∷ [];
  assignments = record { id = 70; shift_id = 60; staff_id = 50 } ∷ [];
}

abbrev today : Datetime
today = local_time (20 * one_day + 50000000000)

get_staff_schedule_complete_example :
    get_staff_schedule 1 today today staffed
    ≡ map (with_assigned staffed) (list_shifts 1 today today staffed)
get_staff_schedule_complete_example = get_staff_schedule_complete 1 today today staffed

is_between_days_example :
    (is_between 1 (instant (day_start today)) (instant (day_end today)) evening_shift ≡ true) ↔ (
      (today.local / one_day ≤ shift_start.local / one_day)
      × (shift_start.local / one_day ≤ today.local / one_day))
is_between_days_example =
    is_between_days 1 today today shift_start evening_shift refl refl (refl, refl) (refl, refl)
      (omega arith) (omega arith) (omega arith) (omega arith)

-- Only the cook is free.
free_cook :
    get_staff_availability 1 evening_shift.start_at evening_shift.end_at none staffed
    ≡ staff_of 51 "cook" ∷ []
unfolding get_staff_availability list_active_staff list_assigned_staff_ids_in_window
free_cook = refl

calculate_staff_requirement-IsExact_example :
    (r : StaffRequirement) × (calculate_staff_requirement default_settings 1 evening
        (evening + 1)
        none
        staffed
      ≡ (ok r, staffed))
    × IsExact default_settings (sum_expected_covers 1 evening (evening + 1) staffed) r
calculate_staff_requirement-IsExact_example =
    calculate_staff_requirement-IsExact default_settings 1 evening (evening + 1) none staffed
      (omega arith) (omega arith)
