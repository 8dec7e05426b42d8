-- ===== src/Customers/Updates.antt =====
-- `update_customer`: what it returns and writes, and what a history of updates keeps.
use restaurant_sahayak.Base.{
  ℕ, ◌+◌, ◌≡◌, refl, Bool, true, false, ◌==◌, eq→==, Option, none, some, List, [], ◌∷◌, find,
  find_self, find-id, update, Bool-cases, inl, inr, if◌then◌else◌,
}
use restaurant_sahayak.Errors.{Result, ok, err, integrity_error}
use restaurant_sahayak.Exec.{
  Keeps, Keeps-bind, Keeps-bind_after, Keeps-pure, Keeps-when, bind-state, Leaves, pure, when,
  ◌>>=◌,
}
use restaurant_sahayak.Models.{Session}
use restaurant_sahayak.Models.Bookings.{Customer, customer_row}
use restaurant_sahayak.Settings.{ToolContext}
use restaurant_sahayak.Events.{EventBus}
use restaurant_sahayak.Events.Preserves.{HandlersKeep, announce-Keeps, IgnoresEvents}
use restaurant_sahayak.Customers.{
  CustomerService, Contact, has_contact, same_phone, same_email, some_other, violated, save,
  with_contact, own_customer, get_own, announce, is_changed, contact_event, update_customer,
}
use restaurant_sahayak.Customers.Contacts.{CustomersOk, save-CustomersOk, with_contact-has_contact}

-- What an update of a customer of the restaurant comes to: the database refuses a phone or an email
-- of another row, and nothing else.
abbrev pub outcome : ℕ → Contact → Customer → Session → Result ℕ × Session
outcome customer_id k c s =
    if some_other same_phone (with_contact k c) s.customers
    then (err (integrity_error "uq_customers_restaurant_phone"), s)
    else if some_other same_email (with_contact k c) s.customers
    then (err (integrity_error "uq_customers_restaurant_email"), s)
    else (ok customer_id, record s { customers = update customer_id (with_contact k) s.customers })

-- With no bus, an update of a customer of the restaurant who has a contact either raises the unique
-- constraint on the phone or the email, which another customer of the restaurant has, and writes
-- nothing, or returns and changes the fields that are given on that row only. The constraint on the
-- contact is never violated.
pub update_customer-outcome :
    (service : CustomerService) (restaurant_id customer_id : ℕ) (k : Contact)
    (context : Option ToolContext) (c : Customer) (s : Session)
    → service.event_bus ≡ none
    → find customer_id s.customers ≡ some c
    → c.restaurant_id ≡ restaurant_id
    → has_contact c ≡ true
    → update_customer service restaurant_id customer_id k context s ≡ outcome customer_id k c s
unfolding update_customer get_own own_customer save violated announce
update_customer-outcome service restaurant_id customer_id k context c s quiet e own reachable =
    let here : c.id ≡ customer_id = find-id customer_id s.customers c e in
    let self : find c.id s.customers ≡ some c = find_self customer_id s.customers c e in
    let kept : has_contact (with_contact k c) ≡ true = with_contact-has_contact k c reachable in
    let mine : (c.restaurant_id == restaurant_id) ≡ true =
      eq→== c.restaurant_id restaurant_id own in
    rw e (
      rw mine (
        rw self (
          rw kept (elim (Bool-cases (some_other same_phone (with_contact k c) s.customers)) [
            | inl phone ↦ rw phone refl
            | inr no_phone ↦
                rw no_phone
                  (elim (Bool-cases (some_other same_email (with_contact k c) s.customers)) [
                    | inl email ↦ rw email refl
                    | inr no_email ↦ rw no_email (rw quiet (rw here (unannounced (is_changed k))))
                  ])
          ]))))
  where
    unannounced :
        (b : Bool)
        → (when b (pure {S = Session} tt) >>= λ _. pure customer_id)
            (record s { customers = update customer_id (with_contact k) s.customers })
          ≡ (
            ok customer_id,
            record s { customers = update customer_id (with_contact k) s.customers },
          )
    unannounced true = refl
    unannounced false = refl

-- Updates one after the other, each some microseconds after the one before
unfoldable pub run :
    CustomerService → List (ℕ × ℕ × ℕ × Contact × Option ToolContext) → Session → Session
run service [] s = s
run service ((later, restaurant_id, customer_id, k, context) ∷ rest) s =
    run service rest
      (update_customer service restaurant_id customer_id k context
        (record s { now = s.now + later })).1

CustomersOk-events : IgnoresEvents CustomersOk
CustomersOk-events s es n le h = record {
  distinct = h.distinct;
  contacts = h.contacts;
  separate = h.separate;
}

module _ (service : CustomerService)
    (handlers : (bus : EventBus)
      → service.event_bus ≡ some bus
      → HandlersKeep CustomersOk bus) where
  abbrev Held : Customer → Session → Type 0
  Held c s = find c.id s.customers ≡ some c

  own-Held :
      (restaurant_id customer_id : ℕ) (found : Option Customer) (s : Session)
      → find customer_id s.customers ≡ found
      → CustomersOk s
      → Leaves CustomersOk Held (own_customer restaurant_id customer_id found s)
  unfolding own_customer
  own-Held restaurant_id customer_id none s e h = h
  own-Held restaurant_id customer_id (some c) s e h =
      elim (Bool-cases (c.restaurant_id == restaurant_id)) [
        | inl own ↦ rw own (h, find_self customer_id s.customers c e)
        | inr foreign ↦ rw foreign h
      ]

  -- An update keeps the constraints of the table, whether it returns or raises.
  pub update-CustomersOk :
      (restaurant_id customer_id : ℕ) (k : Contact) (context : Option ToolContext)
      → Keeps CustomersOk (update_customer service restaurant_id customer_id k context)
  unfolding update_customer get_own
  update-CustomersOk restaurant_id customer_id k context =
      Keeps-bind_after CustomersOk Held (get_own restaurant_id customer_id) _
        (record {
          at = λ s h. own-Held restaurant_id customer_id (find customer_id s.customers) s refl h;
        })
        λ c s h held.
          bind-state CustomersOk (save c.id (with_contact k)) _ s
            (save-CustomersOk c.id k c s held h)
            λ id.
              Keeps-bind CustomersOk
                (when (is_changed k)
                  (announce service.event_bus (contact_event restaurant_id id k context)))
                _
                (Keeps-when CustomersOk (is_changed k) _
                  (announce-Keeps CustomersOk service.event_bus CustomersOk-events handlers _))
                λ _. Keeps-pure CustomersOk id

  -- From a table that satisfies them, no history of updates, of whatever customers and whether they
  -- return or raise, leads to a customer without phone and email, or to a phone or an email that two
  -- customers of one restaurant have, if the handlers of the events keep that.
  pub run-CustomersOk :
      (requests : List (ℕ × ℕ × ℕ × Contact × Option ToolContext)) (s : Session)
      → CustomersOk s
      → CustomersOk (run service requests s)
  unfolding run
  run-CustomersOk [] s h = h
  run-CustomersOk ((later, restaurant_id, customer_id, k, context) ∷ rest) s h =
      run-CustomersOk rest _ (
        (update-CustomersOk restaurant_id customer_id k context).at
          (record s { now = s.now + later })
          (record { distinct = h.distinct; contacts = h.contacts; separate = h.separate }))
