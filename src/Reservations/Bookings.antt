-- ===== src/Reservations/Bookings.antt =====
-- No table is given twice: the writes of the reservation service keep the active reservations of
-- each table apart.
use restaurant_sahayak.Base.{
  ℕ, ◌+◌, ◌<◌, ◌≡◌, ◌≢◌, refl, true, false, or_else, Option, none, some, List, [], ◌∷◌, ◌++◌, All,
  All-map, All-append, Pairwise, Pairwise-snoc, Pairwise-find, Pairwise-update, Distinct,
  Distinct-snoc, Distinct-update, Issued, Issued-mono, Issued-update, arith, Bool-cases, inl, inr,
  find, update, Text,
}
use restaurant_sahayak.Models.{Session}
use restaurant_sahayak.Models.Enums.{is_active_status}
use restaurant_sahayak.Models.Bookings.{Reservation, Changes, reservation_row}
use restaurant_sahayak.Reservations.Repository.{is_excluded, table_has_conflict}
use restaurant_sahayak.Reservations.Service.{as_modified, as_cancelled, moves, table_after}
use restaurant_sahayak.Reservations.Conflicts.{Apart, Apart-flip, conflict_free}

pub record BookingsOk (s : Session) : Type 0 where
  pub issued : Issued s.next_id s.reservations
  pub distinct : Distinct s.reservations
  pub apart : Pairwise Apart s.reservations

-- A row that clashes with none is inserted.
pub inserted-BookingsOk :
    (s : Session) (r : Reservation)
    → r.id ≡ s.next_id
    → All (λ x. Apart x r) s.reservations
    → BookingsOk s
    → BookingsOk (record s { reservations = s.reservations ++ r ∷ []; next_id = s.next_id + 1 })
inserted-BookingsOk s r new free h = record {
  issued =
      All-append (λ x. x.id < s.next_id + 1) s.reservations (r ∷ [])
        (Issued-mono s.next_id (s.next_id + 1) s.reservations (omega arith) h.issued)
        (omega arith, tt);
  distinct = Distinct-snoc s.next_id s.reservations r new h.issued h.distinct;
  apart = Pairwise-snoc Apart s.reservations r h.apart free;
}

-- A row is replaced by one that clashes with no other.
pub updated-BookingsOk :
    (s : Session) (id : ℕ) (f : Reservation → Reservation) (r : Reservation)
    → ((x : Reservation) → (f x).id ≡ x.id)
    → find id s.reservations ≡ some r
    → All (λ x. x.id ≢ id → Apart x (f r)) s.reservations
    → BookingsOk s
    → BookingsOk (record s { reservations = update id f s.reservations })
updated-BookingsOk s id f r same e free h = record {
  issued = Issued-update s.next_id id f s.reservations same h.issued;
  distinct = Distinct-update id f s.reservations same h.distinct;
  apart = Pairwise-update Apart Apart-flip id f s.reservations r h.distinct e free h.apart;
}

Apart-inactive : (x y : Reservation) → is_active_status y.status ≡ false → Apart x y
Apart-inactive x y e = ground arith

Apart-unseated : (x y : Reservation) → y.table_id ≡ none → Apart x y
Apart-unseated x y e = rw e refl

All-always :
    {P : Reservation → Type 0} → ((x : Reservation) → P x) → (xs : List Reservation) → All P xs
All-always f [] = tt
All-always f (x ∷ xs) = (f x, All-always f xs)

pub cancelled-free :
    (reason : Option Text) (id : ℕ) (r : Reservation) (xs : List Reservation)
    → All (λ x. x.id ≢ id → Apart x (as_cancelled reason r)) xs
cancelled-free reason id r xs = All-always (λ x _. Apart-inactive x (as_cancelled reason r) refl) xs

-- What `_apply_modification` finds out before its assignments
abbrev pub MoveChecked : Changes → Reservation → Option ℕ → List Reservation → Type 0
MoveChecked changes r none rows = Unit
MoveChecked changes r (some table_id) rows =
    moves changes ≡ true
    → table_has_conflict table_id (or_else changes.requested_time r.requested_time)
        r.duration_minutes (some r.id) rows
      ≡ false

unmoved :
    (changes : Changes) (r x : Reservation)
    → is_active_status r.status ≡ true
    → moves changes ≡ false
    → Apart x r
    → Apart x (as_modified changes r)
unmoved changes r x active still h = ground arith

pub modified-free :
    (changes : Changes) (id : ℕ) (r : Reservation) (rows : List Reservation)
    → r.id ≡ id
    → (moves changes ≡ false → is_active_status r.status ≡ true)
    → find id rows ≡ some r
    → Pairwise Apart rows
    → MoveChecked changes r (table_after changes r) rows
    → All (λ x. x.id ≢ id → Apart x (as_modified changes r)) rows
modified-free changes id r rows here active e apart checked = elim (Bool-cases (moves changes)) [
  | inl moved ↦ seated moved (table_after changes r) refl checked
  | inr still ↦
      All-map (λ x. x.id ≢ id → Apart x r) (λ x. x.id ≢ id → Apart x (as_modified changes r))
        (λ x f ne. unmoved changes r x (active still) still (f ne)) rows
        (Pairwise-find Apart Apart-flip id rows r apart e)
]
  where
    seated :
        moves changes ≡ true
        → (t : Option ℕ) → table_after changes r ≡ t
        → MoveChecked changes r t rows
        → All (λ x. x.id ≢ id → Apart x (as_modified changes r)) rows
    seated moved none none_at c =
        All-always (λ x _. Apart-unseated x (as_modified changes r) none_at) rows
    seated moved (some t) at_t c =
        All-map (λ x. is_excluded (some r.id) x.id ≡ false → Apart x (as_modified changes r))
          (λ x. x.id ≢ id → Apart x (as_modified changes r)) (λ x f ne. f (ground arith)) rows
          (conflict_free t (some r.id) (as_modified changes r) rows at_t (c moved))
