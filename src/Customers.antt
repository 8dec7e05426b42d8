-- ===== src/Customers.antt =====
-- Customers (app/services/customer_service.py, app/repositories/customer_repo.py): the contact data of
-- the guests, a search, and the history of their reservations.
pub mod Contacts
pub mod Updates
pub mod Queries
unfoldable pub use restaurant_sahayak.Events.{announce}
use restaurant_sahayak.Base.{
  order_by, ℕ, String, Bool, true, false, not, ◌&&◌, ◌||◌, ◌==◌, str_eq, leb, or_else, Option, none,
  some, List, [], ◌∷◌, any, select, take, find, update, if◌then◌else◌,
}
use restaurant_sahayak.Errors.{
  Exn, integrity_error, other, customer_not_found, missing_search_criteria,
}
use restaurant_sahayak.Exec.{pure, throw, raise, raise_if, gets, when, ◌>>=◌, ◌>>◌}
use restaurant_sahayak.Models.{Session, Action}
use restaurant_sahayak.Models.Bookings.{Customer, Reservation, customer_row}
use restaurant_sahayak.Models.Approvals.{customer_updated}
use restaurant_sahayak.Settings.{ToolContext}
use restaurant_sahayak.Events.{EventBus, Publication, publish}

-- `CustomerService` with what its queries take from the database: the ILIKE of a column with a
-- pattern, and the order of names
pub record CustomerService : Type 0 where
  pub event_bus : Option EventBus
  pub ilike : String → String → Bool
  pub name_leb : String → String → Bool

-- Two columns that a unique constraint compares; NULL is equal to nothing.
abbrev pub same_value : Option String → Option String → Bool
same_value (some a) (some b) = str_eq a b
same_value _ _ = false

abbrev pub same_phone : Customer → Customer → Bool
same_phone x y = x.restaurant_id == y.restaurant_id && same_value x.phone y.phone

abbrev pub same_email : Customer → Customer → Bool
same_email x y = x.restaurant_id == y.restaurant_id && same_value x.email y.email

abbrev pub is_given : Option String → Bool
is_given none = false
is_given (some _) = true

-- "phone IS NOT NULL OR email IS NOT NULL"
abbrev pub has_contact : Customer → Bool
has_contact c = is_given c.phone || is_given c.email

-- Another row than this one
abbrev pub some_other : (Customer → Customer → Bool) → Customer → List Customer → Bool
some_other p c rows = any (λ x. not (x.id == c.id) && p x c) rows

-- The constraint of the table that a row violates among the others, by name
unfoldable pub violated : List Customer → Customer → Option String
violated rows c =
    if not (has_contact c)
    then some "ck_customers_has_contact_method"
    else if some_other same_phone c rows
    then some "uq_customers_restaurant_phone"
    else if some_other same_email c rows
    then some "uq_customers_restaurant_email"
    else none

abbrev pub write_row : ℕ → (Customer → Customer) → Option String → Action ℕ
write_row id f (some name) s = throw (integrity_error name) s
write_row id f none s = pure id (record s { customers = update id f s.customers })

abbrev pub flush_row : ℕ → (Customer → Customer) → Option Customer → Action ℕ
flush_row id f none s = throw (other "ObjectDeletedError") s
flush_row id f (some c) s = write_row id f (violated s.customers (f c)) s

-- Assignments to a row, and `save`
unfoldable pub save : ℕ → (Customer → Customer) → Action ℕ
save id f s = flush_row id f (find id s.customers) s

-- The tests on a customer that is named
unfoldable pub own_customer : ℕ → ℕ → Option Customer → Action Customer
own_customer restaurant_id customer_id none = raise (customer_not_found customer_id)
own_customer restaurant_id customer_id (some c) =
    raise_if (not (c.restaurant_id == restaurant_id)) (customer_not_found customer_id) >> pure c

unfoldable pub get_own : ℕ → ℕ → Action Customer
get_own restaurant_id customer_id s =
    own_customer restaurant_id customer_id (find customer_id s.customers) s

-- `list_all`, and `list_customers`
unfoldable pub list_customers : CustomerService → ℕ → ℕ → Session → List Customer
list_customers service restaurant_id limit s = take limit (
    order_by (λ x y. service.name_leb x.name y.name)
      (select (λ c. c.restaurant_id == restaurant_id && c.is_active) s.customers))

-- A column that may be NULL
abbrev pub column_ilike : CustomerService → Option String → String → Bool
column_ilike service none query = false
column_ilike service (some value) query = service.ilike value query

-- `find`; the pattern of a query is `%query%`.
unfoldable pub find_customers : CustomerService → ℕ → String → Session → List Customer
find_customers service restaurant_id query s =
    select
      (λ c.
        c.restaurant_id == restaurant_id
        && c.is_active
        && (service.ilike c.name query
            || column_ilike service c.phone query
            || column_ilike service c.email query))
      s.customers

-- `if query`: an empty text counts as none.
unfoldable pub search_customers : CustomerService → ℕ → Option String → Action (List Customer)
search_customers service restaurant_id none = raise missing_search_criteria
search_customers service restaurant_id (some query) =
    if str_eq query ""
    then raise missing_search_criteria
    else gets (find_customers service restaurant_id query)

-- `get_customer`
unfoldable pub get_customer :
    CustomerService → ℕ → Option ℕ → Option String → Action (List Customer)
get_customer service restaurant_id none query = search_customers service restaurant_id query
get_customer service restaurant_id (some customer_id) query = do
  c ← get_own restaurant_id customer_id
  pure (c ∷ [])

-- ORDER BY requested_time DESC
abbrev pub by_latest : Reservation → Reservation → Bool
by_latest x y = leb y.requested_time x.requested_time

-- `list_reservation_history`
unfoldable pub list_reservation_history : ℕ → ℕ → Session → List Reservation
list_reservation_history customer_id limit s =
    take limit (order_by by_latest (select (λ r. r.customer_id == customer_id) s.reservations))

-- `get_customer_history`
unfoldable pub get_customer_history : ℕ → ℕ → ℕ → Action (Customer × List Reservation)
get_customer_history restaurant_id customer_id limit = do
  c ← get_own restaurant_id customer_id
  history ← gets (list_reservation_history customer_id limit)
  pure (c, history)

-- The fields that `update_customer` is given, and its `changed`
pub record Contact : Type 0 where
  pub name : Option String
  pub phone : Option String
  pub email : Option String

abbrev pub is_changed : Contact → Bool
is_changed k = is_given k.name || is_given k.phone || is_given k.email

abbrev pub set_if_given : Option String → Option String → Option String
set_if_given none old = old
set_if_given (some new) old = some new

-- The assignments
abbrev pub with_contact : Contact → Customer → Customer
with_contact k c = record c {
  name = or_else k.name c.name;
  phone = set_if_given k.phone c.phone;
  email = set_if_given k.email c.email;
}

abbrev pub agent_run_of : Option ToolContext → Option ℕ
agent_run_of none = none
agent_run_of (some context) = context.agent_run_id

abbrev pub contact_event : ℕ → ℕ → Contact → Option ToolContext → Publication
contact_event restaurant_id id k context = record {
  event_type = "customer.updated";
  restaurant_id = restaurant_id;
  entity_id = some id;
  payload = customer_updated id k.name k.phone k.email;
  published_by = "customer_service";
  correlation_id = agent_run_of context;
  idempotency_key = none;
}

-- `update_customer`
unfoldable pub update_customer : CustomerService → ℕ → ℕ → Contact → Option ToolContext → Action ℕ
update_customer service restaurant_id customer_id k context = do
  c ← get_own restaurant_id customer_id
  id ← save c.id (with_contact k)
  when (is_changed k) (announce service.event_bus (contact_event restaurant_id id k context))
  pure id
