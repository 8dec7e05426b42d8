-- ===== src/Customers/Contacts.antt =====
-- The rows that `save` leaves: each with a phone or an email, and no phone and no email twice.
use restaurant_sahayak.Base.{
  ℕ, ◌≡◌, ◌≢◌, refl, true, false, ◌||◌, eq_iff, Option, none, some, List, [], ◌∷◌, All, All-map,
  Pairwise, Pairwise-update, Distinct, Distinct-update, All-update_found, find, find-id, arith,
  String,
}
use restaurant_sahayak.Models.{Session}
use restaurant_sahayak.Models.Bookings.{Customer, customer_row}
use restaurant_sahayak.Customers.{
  Contact, has_contact, is_given, same_value, same_phone, same_email, some_other, violated,
  write_row, save, with_contact, set_if_given,
}

-- The rows share neither phone nor email.
abbrev pub Separate : Customer → Customer → Type 0
Separate x y = (same_phone x y || same_email x y) ≡ false

pub record CustomersOk (s : Session) : Type 0 where
  pub distinct : Distinct s.customers
  pub contacts : All (λ c. has_contact c ≡ true) s.customers
  pub separate : Pairwise Separate s.customers

same_value-flip : (a b : Option String) → same_value a b ≡ same_value b a
same_value-flip none none = refl
same_value-flip none (some b) = refl
same_value-flip (some a) none = refl
same_value-flip (some a) (some b) = ground (arith, eq_iff a b, eq_iff b a)

pub Separate-flip : (x y : Customer) → Separate x y → Separate y x
Separate-flip x y h =
    ground (arith, h, same_value-flip x.phone y.phone, same_value-flip x.email y.email)

-- A row that violates nothing has a contact, and shares none with another row.
pub unviolated :
    (rows : List Customer) (c : Customer)
    → violated rows c ≡ none
    → (has_contact c ≡ true) × All (λ x. x.id ≢ c.id → Separate x c) rows
unfolding violated
unviolated rows c e =
    let phones : some_other same_phone c rows ≡ false = ground arith in
    let emails : some_other same_email c rows ≡ false = ground arith in
    (ground arith, both rows phones emails)
  where
    both :
        (xs : List Customer)
        → some_other same_phone c xs ≡ false
        → some_other same_email c xs ≡ false
        → All (λ x. x.id ≢ c.id → Separate x c) xs
    both [] p e = tt
    both (x ∷ xs) p e = ((λ other. ground arith), both xs (ground arith) (ground arith))

-- An update of the contact data keeps a contact: a field can be changed but not cleared.
pub with_contact-has_contact :
    (k : Contact) (c : Customer) → has_contact c ≡ true → has_contact (with_contact k c) ≡ true
with_contact-has_contact k c h = kept k.phone c.phone k.email c.email h
  where
    kept :
        (p p' e e' : Option String)
        → (is_given p' || is_given e') ≡ true
        → (is_given (set_if_given p p') || is_given (set_if_given e e')) ≡ true
    kept none p' none e' h = h
    kept none p' (some e) e' h = ground arith
    kept (some p) p' e e' h = refl

pub save-CustomersOk :
    (id : ℕ) (k : Contact) (c : Customer) (s : Session)
    → find id s.customers ≡ some c
    → CustomersOk s
    → CustomersOk (save id (with_contact k) s).1
unfolding save
save-CustomersOk id k c s e h = rw e (ended (violated s.customers (with_contact k c)) refl)
  where
    ended :
        (v : Option String)
        → violated s.customers (with_contact k c) ≡ v
        → CustomersOk (write_row id (with_contact k) v s).1
    ended (some name) v = h
    ended none v =
        let (reachable, free) = unviolated s.customers (with_contact k c) v in
        let here : c.id ≡ id = find-id id s.customers c e in
        record {
          distinct = Distinct-update id (with_contact k) s.customers (λ x. refl) h.distinct;
          contacts =
              All-update_found (λ c. has_contact c ≡ true) id (with_contact k) s.customers c
                h.distinct e reachable h.contacts;
          separate =
              Pairwise-update Separate Separate-flip id (with_contact k) s.customers c h.distinct e
                (All-map (λ x. x.id ≢ c.id → Separate x (with_contact k c))
                  (λ x. x.id ≢ id → Separate x (with_contact k c))
                  (λ x f ne. f (λ same. ne (cc (same, here)))) s.customers free)
                h.separate;
        }
