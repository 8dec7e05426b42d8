-- ===== src/Reservations/Service/Read.antt =====
-- `get_reservations` and `find_available_table`, which only read.
use restaurant_sahayak.Base.{ℕ, Option, List}
use restaurant_sahayak.Exec.{gets}
use restaurant_sahayak.Models.{Action}
use restaurant_sahayak.Models.Bookings.{Table, Reservation}
use restaurant_sahayak.Reservations.Repository.{
  ReservationFilter, list_reservations, find_available_tables,
}
use restaurant_sahayak.Reservations.Service.Common.{ReservationService, duration_of}

-- `get_reservations`
unfoldable pub get_reservations : ℕ → ReservationFilter → Action (List Reservation)
get_reservations restaurant_id f = gets (list_reservations restaurant_id f)

-- `find_available_table`
unfoldable pub find_available_table :
    ReservationService → ℕ → ℕ → ℕ → Option ℕ → Action (List Table)
find_available_table service restaurant_id party_size requested_time duration_minutes = gets (
    find_available_tables restaurant_id party_size requested_time
      (duration_of service.settings duration_minutes))
