-- ===== src/Reservations/Tables.antt =====
-- The table that a booking gets when the caller names none: the smallest of those that suit.
use mathlib.Core.Path.{subst}
use restaurant_sahayak.Base.{
  ℕ, ◌≤◌, ◌≡◌, refl, sym, Bool, true, false, not, ◌&&◌, leb, Option, none, some, List, [], ◌∷◌, All,
  All-map, Pairwise, arith, if◌then◌else◌, Bool-cases, inl, inr, select, head?,
}
use restaurant_sahayak.Errors.{Result, ok, err, tool_error, no_availability}
use restaurant_sahayak.Models.{Session}
use restaurant_sahayak.Models.Bookings.{Table, table_row}
use restaurant_sahayak.Reservations.Repository.{
  table_has_conflict, can_seat, insert_by_capacity, order_by_capacity, find_available_tables,
}
use restaurant_sahayak.Reservations.Service.{Booking, first_available, choose_table}

abbrev NoLarger : Table → Table → Type 0
NoLarger t u = t.seat_capacity ≤ u.seat_capacity

insert-All :
    (P : Table → Type 0) (t : Table) (ts : List Table)
    → P t
    → All P ts
    → All P (insert_by_capacity t ts)
insert-All P t [] p h = (p, tt)
insert-All P t (u ∷ us) p h = elim (Bool-cases (leb t.seat_capacity u.seat_capacity)) [
  | inl le ↦ rw le (p, h)
  | inr gt ↦ rw gt (h.0, insert-All P t us p h.1)
]

All-insert :
    (P : Table → Type 0) (t : Table) (ts : List Table)
    → All P (insert_by_capacity t ts)
    → P t × All P ts
All-insert P t [] h = (h.0, tt)
All-insert P t (u ∷ us) h = elim (Bool-cases (leb t.seat_capacity u.seat_capacity)) [
  | inl le ↦ rw le at h
  | inr gt ↦ let h' = rw gt at h in let rest = All-insert P t us h'.1 in (rest.0, (h'.0, rest.1))
]

order-All : (P : Table → Type 0) (ts : List Table) → All P ts → All P (order_by_capacity ts)
order-All P [] h = tt
order-All P (t ∷ ts) h = insert-All P t (order_by_capacity ts) h.0 (order-All P ts h.1)

All-order : (P : Table → Type 0) (ts : List Table) → All P (order_by_capacity ts) → All P ts
All-order P [] h = tt
All-order P (t ∷ ts) h =
    let parts = All-insert P t (order_by_capacity ts) h in (parts.0, All-order P ts parts.1)

insert-sorted :
    (t : Table) (ts : List Table)
    → Pairwise NoLarger ts
    → Pairwise NoLarger (insert_by_capacity t ts)
insert-sorted t [] h = (tt, tt)
insert-sorted t (u ∷ us) h = elim (Bool-cases (leb t.seat_capacity u.seat_capacity)) [
  | inl le ↦
      let first : NoLarger t u = ground (arith, le) in
      rw le ((first, All-map (NoLarger u) (NoLarger t) (λ x l. omega arith) us h.0), h)
  | inr gt ↦ rw gt (insert-All (NoLarger u) t us (ground (arith, gt)) h.0, insert-sorted t us h.1)
]

order-sorted : (ts : List Table) → Pairwise NoLarger (order_by_capacity ts)
order-sorted [] = tt
order-sorted (t ∷ ts) = insert-sorted t (order_by_capacity ts) (order-sorted ts)

-- What the first selected row of a sorted list is, or what it means that there is none. Whatever
-- holds of every row holds of it.
abbrev First : (Table → Bool) → (Table → Type 0) → List Table → Option Table → Type 0
First p P ts none = All (λ u. p u ≡ false) ts
First p P ts (some t) = (p t ≡ true) × P t × All (λ u. p u ≡ true → NoLarger t u) ts

later :
    (p : Table → Bool) (P : Table → Type 0) (t : Table) (ts : List Table) (o : Option Table)
    → p t ≡ false
    → First p P ts o
    → First p P (t ∷ ts) o
later p P t ts none no_p f = (no_p, f)
later p P t ts (some u) no_p f = (f.0, f.1, (λ yes_p. ground arith, f.2))

select-First :
    (p : Table → Bool) (P : Table → Type 0) (ts : List Table)
    → All P ts
    → Pairwise NoLarger ts
    → First p P ts (head? (select p ts))
select-First p P [] all h = tt
select-First p P (t ∷ ts) all h = elim (Bool-cases (p t)) [
  | inl yes_p ↦
      subst (λ b. First p P (t ∷ ts) (head? (if b then t ∷ select p ts else select p ts)))
        (sym yes_p)
        (
          yes_p,
          all.0,
          (
            λ _. omega arith,
            All-map (NoLarger t) (λ u. p u ≡ true → NoLarger t u) (λ u l _. l) ts h.0,
          ),
        )
  | inr no_p ↦
      subst (λ b. First p P (t ∷ ts) (head? (if b then t ∷ select p ts else select p ts)))
        (sym no_p) (later p P t ts (head? (select p ts)) no_p (select-First p P ts all.1 h.1))
]

-- What holds of the selected rows, as a property of all rows
All-selected :
    (P : Table → Type 0) (q : Table → Bool) (ts : List Table)
    → All P (select q ts)
    → All (λ u. q u ≡ true → P u) ts
All-selected P q [] h = tt
All-selected P q (t ∷ ts) h = elim (Bool-cases (q t)) [
  | inl yes_q ↦ let h' = rw yes_q at h in (λ _. h'.0, All-selected P q ts h'.1)
  | inr no_q ↦ (λ yes_q. ground arith, All-selected P q ts (rw no_q at h))
]

-- The table takes the party, and is free at the time.
abbrev pub suits : Booking → ℕ → Session → Table → Bool
suits b duration s t =
    can_seat b.restaurant_id b.party_size t
    && not (table_has_conflict t.id b.requested_time duration none s.reservations)

-- The answer to a booking that names no table: the table, or that there is none
abbrev pub answer : Booking → Option Table → Session → Result ℕ × Session
answer b none s = (err (tool_error (no_availability b.party_size b.requested_time)), s)
answer b (some t) s = (ok t.id, s)

-- The smallest of the tables that suit, or none where none does
abbrev pub Smallest : Booking → ℕ → (Table → Type 0) → Session → Option Table → Type 0
Smallest b duration P s none = All (λ u. suits b duration s u ≡ false) s.tables
Smallest b duration P s (some t) =
    (suits b duration s t ≡ true)
    × P t
    × All (λ u. suits b duration s u ≡ true → t.seat_capacity ≤ u.seat_capacity) s.tables

module _ (b : Booking) (duration : ℕ) (P : Table → Type 0) (s : Session)
    (all : All P s.tables) where
  abbrev free : Table → Bool
  free t = not (table_has_conflict t.id b.requested_time duration none s.reservations)

  abbrev seats : Table → Bool
  seats = can_seat b.restaurant_id b.party_size

  -- The rows that the query returns, in its order
  abbrev candidates : List Table
  candidates = order_by_capacity (select seats s.tables)

  abbrev Seated : Table → Type 0
  Seated t = (seats t ≡ true) × P t

  select-Seated : (ts : List Table) → All P ts → All Seated (select seats ts)
  select-Seated [] h = tt
  select-Seated (t ∷ ts) h = elim (Bool-cases (seats t)) [
    | inl yes_p ↦ rw yes_p ((yes_p, h.0), select-Seated ts h.1)
    | inr no_p ↦ rw no_p (select-Seated ts h.1)
  ]

  First-Smallest : (o : Option Table) → First free Seated candidates o → Smallest b duration P s o
  First-Smallest none f =
      All-map (λ u. seats u ≡ true → free u ≡ false) (λ u. suits b duration s u ≡ false)
        (λ u g. ground (arith, g)) s.tables
        (All-selected (λ u. free u ≡ false) seats s.tables
          (All-order (λ u. free u ≡ false) (select seats s.tables) f))
  First-Smallest (some t) f = (
    ground (arith, f.0, f.1.0),
    f.1.1,
    All-map (λ u. seats u ≡ true → free u ≡ true → NoLarger t u)
        (λ u. suits b duration s u ≡ true → NoLarger t u)
        (λ u g both. g (ground (arith, both)) (ground (arith, both))) s.tables
        (All-selected (λ u. free u ≡ true → NoLarger t u) seats s.tables
          (All-order (λ u. free u ≡ true → NoLarger t u) (select seats s.tables) f.2)),
  )

  -- A booking that names no table gets the smallest of the restaurant's active tables that seat
  -- the party and are free at its time, one of the rows of the session; it is refused only if no
  -- table suits. Nothing is written.
  pub choose_table-Smallest :
      (o : Option Table) × (choose_table b duration none s ≡ answer b o s)
      × Smallest b duration P s o
  unfolding choose_table find_available_tables
  choose_table-Smallest = (
    head? (select free candidates),
    answered (head? (select free candidates)),
    First-Smallest (head? (select free candidates)) (
        select-First free Seated candidates
          (order-All Seated (select seats s.tables) (select-Seated s.tables all))
          (order-sorted (select seats s.tables))),
  )
    where
      answered : (o : Option Table) → first_available b o s ≡ answer b o s
      answered none = unfold first_available in refl
      answered (some t) = unfold first_available in refl
