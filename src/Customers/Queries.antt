-- ===== src/Customers/Queries.antt =====
-- What the queries on customers show: rows of the restaurant only, and the latest reservations.
use restaurant_sahayak.Base.{
  order_by, order_by-Perm, order_by-Pairwise, ℕ, suc, zero, ◌≤◌, ◌<◌, ◌≡◌, refl, sym, ap, ◌==◌,
  ==→eq, Option, none, some, List, [], ◌∷◌, ◌++◌, All, Pairwise, select, select-All, take, length,
  find, arith, Bool-cases, inl, inr, str_eq, String,
}
use mathlib.Core.Path.{subst}
use mathlib.Core.List.{Perm}
use restaurant_sahayak.Exec.{Returns, Returns-bind}
use restaurant_sahayak.Models.{Session}
use restaurant_sahayak.Models.Bookings.{Customer, Reservation, customer_row}
use restaurant_sahayak.Customers.{
  CustomerService, own_customer, get_own, find_customers, search_customers, get_customer, by_latest,
  list_reservation_history,
}

-- The second reservation is not later than the first.
abbrev pub NotLater : Reservation → Reservation → Type 0
NotLater x y = y.requested_time ≤ x.requested_time

-- `shown` are the first of the rows, up to the limit, the latest first.
pub record AreLatest (limit : ℕ) (rows shown : List Reservation) : Type 0 where
  pub rest : List Reservation
  pub all : Perm (shown ++ rest) rows
  pub ordered : Pairwise NotLater (shown ++ rest)
  pub at_most : length shown ≤ limit
  pub complete : length shown < limit → rest ≡ []

take_split :
    (n : ℕ) (xs : List Reservation)
    → (rest : List Reservation) × (take n xs ++ rest ≡ xs)
      × (length (take n xs) ≤ n)
      × (length (take n xs) < n → rest ≡ [])
take_split zero xs = (xs, refl, omega arith, λ l. absurd (omega arith))
take_split (suc n) [] = ([], refl, omega arith, λ l. refl)
take_split (suc n) (x ∷ xs) =
    let (rest, whole, most, short) = take_split n xs in
    (rest, ap (λ l. x ∷ l) whole, omega arith, λ l. short (omega arith))

-- The history of a customer is the latest of the reservations of that customer, in this order, as
-- many as the limit allows: none that is left out is later than one that is shown.
pub list_reservation_history-AreLatest :
    (customer_id limit : ℕ) (s : Session)
    → AreLatest limit
        (select (λ r. r.customer_id == customer_id) s.reservations)
        (list_reservation_history customer_id limit s)
unfolding list_reservation_history
list_reservation_history-AreLatest customer_id limit s =
    let rows = select (λ r. r.customer_id == customer_id) s.reservations in
    let (rest, whole, most, short) = take_split limit (order_by by_latest rows) in
    record {
      rest = rest;
      all = subst (λ l. Perm l rows) (sym whole) (order_by-Perm by_latest rows);
      ordered =
          subst (λ l. Pairwise NotLater l) (sym whole)
            (order_by-Pairwise NotLater by_latest (λ x y e. ground arith) (λ x y e. ground arith)
              (λ x y z a b. ground arith) rows);
      at_most = most;
      complete = short;
    }

-- All are customers of the restaurant.
abbrev pub AreOf : ℕ → List Customer → Type 0
AreOf restaurant_id = All (λ c. c.restaurant_id ≡ restaurant_id)

own-AreOf :
    (restaurant_id customer_id : ℕ) (found : Option Customer) (s : Session)
    → Returns
        (λ c. c.restaurant_id ≡ restaurant_id)
        (own_customer restaurant_id customer_id found s)
unfolding own_customer
own-AreOf restaurant_id customer_id none s = tt
own-AreOf restaurant_id customer_id (some c) s =
    elim (Bool-cases (c.restaurant_id == restaurant_id)) [
      | inl own ↦ rw own (==→eq c.restaurant_id restaurant_id own)
      | inr foreign ↦ rw foreign tt
    ]

search-AreOf :
    (service : CustomerService) (restaurant_id : ℕ) (query : Option String) (s : Session)
    → Returns (AreOf restaurant_id) (search_customers service restaurant_id query s)
unfolding search_customers find_customers
search-AreOf service restaurant_id none s = tt
search-AreOf service restaurant_id (some query) s = elim (Bool-cases (str_eq query "")) [
  | inl empty ↦ rw empty tt
  | inr text ↦
      rw text
        (select-All (λ c. c.restaurant_id ≡ restaurant_id) _ s.customers (λ c e. ground (arith, e)))
]

-- A customer of another restaurant is never shown, whatever identity or text is asked for.
pub get_customer-AreOf :
    (service : CustomerService) (restaurant_id : ℕ) (customer_id : Option ℕ) (query : Option String)
    (s : Session)
    → Returns (AreOf restaurant_id) (get_customer service restaurant_id customer_id query s)
unfolding get_customer get_own
get_customer-AreOf service restaurant_id none query s = search-AreOf service restaurant_id query s
get_customer-AreOf service restaurant_id (some customer_id) query s =
    Returns-bind (λ c. c.restaurant_id ≡ restaurant_id) (AreOf restaurant_id)
      (get_own restaurant_id customer_id) _ s
      (own-AreOf restaurant_id customer_id (find customer_id s.customers) s) λ c s' own. (own, tt)
