-- ===== src/Tests/Customers.antt =====
-- The guests of the test restaurant: Asha gets a phone, which Ben then cannot have.
use restaurant_sahayak.Base.{
  ◌≡◌, refl, ℕ, ◌==◌, String, str_eq, true, Option, none, some, List, [], ◌∷◌, select, arith,
}
use restaurant_sahayak.Errors.{err, integrity_error}
use restaurant_sahayak.Models.{Session}
use restaurant_sahayak.Models.Bookings.{Customer}
use restaurant_sahayak.Settings.{ToolContext}
use restaurant_sahayak.Customers.{
  CustomerService, Contact, update_customer, list_reservation_history,
}
use restaurant_sahayak.Customers.Contacts.{CustomersOk}
use restaurant_sahayak.Customers.Updates.{outcome, update_customer-outcome, run, run-CustomersOk}
use restaurant_sahayak.Customers.Queries.{AreLatest, list_reservation_history-AreLatest}
use restaurant_sahayak.Tests.{restaurant, context, bus, bus_keeps}

abbrev guest_of : ℕ → String → Option String → Customer
guest_of id name phone = record {
  id = id;
  restaurant_id = 1;
  name = name;
  phone = phone;
  email = some name;
  is_active = true;
}

abbrev guests : Session
guests = record restaurant {
  customers = guest_of 10 "asha@example.com" (some "555") ∷ guest_of 11 "ben@example.com" none ∷ [];
}

abbrev service : CustomerService
service = record { event_bus = some bus; ilike = str_eq; name_leb = λ _ _. true }

abbrev quiet_service : CustomerService
quiet_service = record service { event_bus = none }

abbrev phone : String → Contact
phone number = record { name = none; phone = some number; email = none }

guests-CustomersOk : CustomersOk guests
guests-CustomersOk = record {
  distinct = ground arith;
  contacts = ground arith;
  separate = ground arith;
}

-- Two updates; the second asks for the phone that the first has set.
abbrev requests : List (ℕ × ℕ × ℕ × Contact × Option ToolContext)
requests = (1, 1, 10, phone "556", some context) ∷ (1, 1, 11, phone "556", none) ∷ []

run-CustomersOk_example : CustomersOk (run service requests guests)
run-CustomersOk_example =
    run-CustomersOk service (bus_keeps CustomersOk) requests guests guests-CustomersOk

update_customer-outcome_example :
    update_customer quiet_service 1 11 (phone "555") none guests
    ≡ outcome 11 (phone "555") (guest_of 11 "ben@example.com" none) guests
update_customer-outcome_example =
    update_customer-outcome quiet_service 1 11 (phone "555") none
      (guest_of 11 "ben@example.com" none) guests refl refl refl refl

taken_phone :
    update_customer quiet_service 1 11 (phone "555") none guests
    ≡ (err (integrity_error "uq_customers_restaurant_phone"), guests)
taken_phone =
    update_customer-outcome quiet_service 1 11 (phone "555") none
      (guest_of 11 "ben@example.com" none) guests refl refl refl refl

list_reservation_history-AreLatest_example :
    AreLatest 1
      (select (λ r. r.customer_id == 10) guests.reservations)
      (list_reservation_history 10 1 guests)
list_reservation_history-AreLatest_example = list_reservation_history-AreLatest 10 1 guests
