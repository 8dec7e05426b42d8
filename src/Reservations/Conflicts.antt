-- ===== src/Reservations/Conflicts.antt =====
-- The conflict test as a relation of two reservations, and what it means at an instant.
use restaurant_sahayak.Base.{
  ℕ, ◌+◌, ◌≤◌, ◌<◌, ◌≡◌, refl, Bool, true, false, ◌&&◌, Option, none, some, List, [], ◌∷◌, All,
  arith, Bool-cases, inl, inr,
}
use restaurant_sahayak.Models.Enums.{is_active_status}
use restaurant_sahayak.Models.Bookings.{Reservation, minutes, reservation_row}
use restaurant_sahayak.Reservations.Repository.{
  overlaps, is_at, is_excluded, is_rival, table_has_conflict,
}

abbrev pub at_table : Option ℕ → Option ℕ → Bool
at_table none at = false
at_table (some t) at = is_at t at

-- Both are active, at one table, and each starts before the other ends.
abbrev pub clashes : Reservation → Reservation → Bool
clashes x y =
    at_table y.table_id x.table_id
    && is_active_status x.status
    && is_active_status y.status
    && overlaps y.requested_time y.duration_minutes x

abbrev pub Apart : Reservation → Reservation → Type 0
Apart x y = clashes x y ≡ false

-- The reservation keeps this table at this instant.
abbrev pub Occupies : ℕ → ℕ → Reservation → Type 0
Occupies table_id instant r =
    (r.table_id ≡ some table_id)
    × (is_active_status r.status ≡ true)
    × (r.requested_time ≤ instant)
    × (instant < r.requested_time + minutes r.duration_minutes)

pub Apart-Occupies :
    (x y : Reservation) (table_id instant : ℕ)
    → Apart x y
    → Occupies table_id instant x
    → Occupies table_id instant y
    → ⊥
Apart-Occupies x y table_id instant apart ox oy = ground (arith, apart, ox.0, ox.1, oy.0, oy.1)

pub Apart-flip : (x y : Reservation) → Apart x y → Apart y x
Apart-flip x y h = flipped x.table_id y.table_id h
  where
    flipped :
        (a b : Option ℕ)
        → (at_table b a
            && is_active_status x.status
            && is_active_status y.status
            && overlaps y.requested_time y.duration_minutes x)
          ≡ false
        → (at_table a b
            && is_active_status y.status
            && is_active_status x.status
            && overlaps x.requested_time x.duration_minutes y)
          ≡ false
    flipped none none h = refl
    flipped none (some b) h = refl
    flipped (some a) none h = refl
    flipped (some a) (some b) h = ground arith

-- Where the test finds no conflict, no row but the excluded one clashes with a reservation of
-- that table and time.
pub conflict_free :
    (table_id : ℕ) (exclude : Option ℕ) (new : Reservation) (rows : List Reservation)
    → new.table_id ≡ some table_id
    → table_has_conflict table_id new.requested_time new.duration_minutes exclude rows ≡ false
    → All (λ x. is_excluded exclude x.id ≡ false → Apart x new) rows
unfolding table_has_conflict
conflict_free table_id exclude new [] seated h = tt
conflict_free table_id exclude new (x ∷ rows) seated h =
    elim (Bool-cases (is_rival table_id exclude x)) [
      | inl rival ↦
          let both = rw rival at h in
          (
            λ kept. unseat (ground (arith, both)),
            conflict_free table_id exclude new rows seated (ground (arith, both)),
          )
      | inr other ↦ (
        λ kept. unseat (ground (arith, kept, other)),
        conflict_free table_id exclude new rows seated (rw other at h),
      )
    ]
  where
    unseat :
        (is_at table_id x.table_id
            && is_active_status x.status
            && is_active_status new.status
            && overlaps new.requested_time new.duration_minutes x)
          ≡ false
        → Apart x new
    unseat e = rw seated e
