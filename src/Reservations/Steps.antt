-- ===== src/Reservations/Steps.antt =====
-- The single steps of `ReservationService` and the reservations of each table: what the tests find
-- out, and what the writes keep.
use mathlib.Core.Path.{subst}
use restaurant_sahayak.Base.{
  ℕ, ◌+◌, ◌≡◌, ◌≢◌, refl, sym, false, not, ◌==◌, Option, none, some, List, [], ◌∷◌, head?, select,
  find, find_self, Issued-mono, arith, if◌then◌else◌, Bool-cases, inl, inr, Text, String, All,
  All-map,
}
use restaurant_sahayak.Exec.{Keeps, Ensures, Leaves, pure}
use restaurant_sahayak.Models.{Session}
use restaurant_sahayak.Models.Bookings.{
  Reservation, Changes, Table, table_row, reservation_row, customer_row,
}
use restaurant_sahayak.Settings.{ToolContext}
use restaurant_sahayak.Approvals.{Proposal, insert_approval}
use restaurant_sahayak.Approvals.Preserves.{IsLocal}
use restaurant_sahayak.Reservations.Repository.{
  violated, insert, put_row, write_row, save, table_has_conflict, find_available_tables,
  is_excluded,
}
use restaurant_sahayak.Reservations.Service.{
  Booking, check_table, choose_table, first_available, new_reservation, get_own, own_reservation,
  check_new_table, moves, check_move, as_cancelled,
}
use restaurant_sahayak.Reservations.Conflicts.{Apart, conflict_free}
use restaurant_sahayak.Reservations.Bookings.{
  BookingsOk, inserted-BookingsOk, updated-BookingsOk, cancelled-free, MoveChecked,
}

pub BookingsOk-local : IsLocal BookingsOk
BookingsOk-local = record {
  events = λ s es n le h. record {
    issued = Issued-mono s.next_id n s.reservations le h.issued;
    distinct = h.distinct;
    apart = h.apart;
  };
  memories = λ s ms n le h. record {
    issued = Issued-mono s.next_id n s.reservations le h.issued;
    distinct = h.distinct;
    apart = h.apart;
  };
  clock = λ s t n le h. record {
    issued = Issued-mono s.next_id n s.reservations le h.issued;
    distinct = h.distinct;
    apart = h.apart;
  };
}

pub insert_approval-BookingsOk : (p : Proposal) → Keeps BookingsOk (insert_approval p)
unfolding insert_approval
insert_approval-BookingsOk p = record {
  at = λ s h. record {
    issued = Issued-mono s.next_id (s.next_id + 1) s.reservations (omega arith) h.issued;
    distinct = h.distinct;
    apart = h.apart;
  };
}

-- The chosen table is free at the time of the booking.
abbrev pub Chosen : Booking → ℕ → ℕ → Session → Type 0
Chosen b duration table_id s =
    table_has_conflict table_id b.requested_time duration none s.reservations ≡ false

check_table-Chosen :
    (b : Booking) (duration table_id : ℕ) (found : Option Table) (s : Session)
    → BookingsOk s
    → Leaves BookingsOk (Chosen b duration) (check_table b duration table_id found s)
unfolding check_table
check_table-Chosen b duration table_id none s h = h
check_table-Chosen b duration table_id (some t) s h = ground arith

available-free :
    (b : Booking) (duration : ℕ) (ts : List Table) (t : Table) (s : Session)
    → head? (
        select
          (λ t. not (table_has_conflict t.id b.requested_time duration none s.reservations))
          ts)
      ≡ some t
    → Chosen b duration t.id s
available-free b duration [] t s e = ground arith
available-free b duration (u ∷ ts) t s e = ground (arith, available-free b duration ts t s)

pub choose_table-Chosen :
    (b : Booking) (duration : ℕ) (table_id : Option ℕ)
    → Ensures BookingsOk (Chosen b duration) (choose_table b duration table_id)
unfolding choose_table find_available_tables first_available
choose_table-Chosen b duration none = record {
  at = λ s h.
      go s h
        (head? (find_available_tables b.restaurant_id b.party_size b.requested_time duration s))
        (λ t e. available-free b duration _ t s e);
}
  where
    go :
        (s : Session)
        → BookingsOk s
        → (o : Option Table) → ((t : Table) → o ≡ some t → Chosen b duration t.id s)
        → Leaves BookingsOk (Chosen b duration) (first_available b o s)
    go s h none f = h
    go s h (some t) f = (h, f t refl)
choose_table-Chosen b duration (some table_id) = record {
  at = λ s h. check_table-Chosen b duration table_id (find table_id s.tables) s h;
}

pub insert-BookingsOk :
    (b : Booking) (context : ToolContext) (duration table_id : ℕ) (s : Session)
    → BookingsOk s
    → Chosen b duration table_id s
    → BookingsOk (insert (new_reservation b context duration table_id) s).1
unfolding insert
insert-BookingsOk b context duration table_id s h free =
    ended (violated (new_reservation b context duration table_id s.next_id))
  where
    ended :
        (v : Option String)
        → BookingsOk (put_row (new_reservation b context duration table_id) v s).1
    ended (some name) = h
    ended none =
        inserted-BookingsOk s (new_reservation b context duration table_id s.next_id) refl
          (All-map
            (λ x.
              is_excluded none x.id ≡ false
              → Apart x (new_reservation b context duration table_id s.next_id))
            (λ x. Apart x (new_reservation b context duration table_id s.next_id)) (λ x f. f refl)
            s.reservations
            (conflict_free table_id none (new_reservation b context duration table_id s.next_id)
              s.reservations refl free))
          h

pub save-BookingsOk :
    (id : ℕ) (f : Reservation → Reservation) (r : Reservation) (s : Session)
    → ((x : Reservation) → (f x).id ≡ x.id)
    → find id s.reservations ≡ some r
    → All (λ x. x.id ≢ id → Apart x (f r)) s.reservations
    → BookingsOk s
    → BookingsOk (save id f s).1
unfolding save
save-BookingsOk id f r s same e free h = rw e (ended (violated (f r)))
  where
    ended : (v : Option String) → BookingsOk (write_row id f v s).1
    ended (some name) = h
    ended none = updated-BookingsOk s id f r same e free h

pub save_cancelled-BookingsOk :
    (id : ℕ) (reason : Option Text) (r : Reservation) (s : Session)
    → find id s.reservations ≡ some r
    → BookingsOk s
    → BookingsOk (save id (as_cancelled reason) s).1
save_cancelled-BookingsOk id reason r s e h =
    save-BookingsOk id (as_cancelled reason) r s (λ x. refl) e
      (cancelled-free reason id r s.reservations) h

-- A reservation of the table, as the session holds it
abbrev pub Held : Reservation → Session → Type 0
Held r s = find r.id s.reservations ≡ some r

own-Held :
    (restaurant_id id : ℕ) (found : Option Reservation) (s : Session)
    → find id s.reservations ≡ found
    → BookingsOk s
    → Leaves BookingsOk Held (own_reservation restaurant_id id found s)
own-Held restaurant_id id none s e h = h
own-Held restaurant_id id (some r) s e h = elim (Bool-cases (r.restaurant_id == restaurant_id)) [
  | inl own ↦ rw own (h, find_self id s.reservations r e)
  | inr foreign ↦ rw foreign h
]

pub get_own-Held : (restaurant_id id : ℕ) → Ensures BookingsOk Held (get_own restaurant_id id)
unfolding get_own
get_own-Held restaurant_id id = record {
  at = λ s h. own-Held restaurant_id id (find id s.reservations) s refl h;
}

-- What the tests of `_apply_modification` leave: the session as it was, with no conflict.
check_new_table-Checked :
    (r : Reservation) (changes : Changes) (table_id : ℕ) (found : Option Table) (s : Session)
    → BookingsOk s
    → Held r s
    → Leaves BookingsOk
        (λ _ s. Held r s × MoveChecked changes r (some table_id) s.reservations)
        (check_new_table r changes table_id found s)
unfolding check_new_table
check_new_table-Checked r changes table_id none s h k = h
check_new_table-Checked r changes table_id (some t) s h k = ground arith

pub check_move-Checked :
    (r : Reservation) (changes : Changes) (at : Option ℕ) (s : Session)
    → BookingsOk s
    → Held r s
    → Leaves BookingsOk
        (λ _ s. Held r s × MoveChecked changes r at s.reservations)
        (check_move r changes at s)
check_move-Checked r changes none s h k = (h, (k, tt))
check_move-Checked r changes (some table_id) s h k = elim (Bool-cases (moves changes)) [
  | inl moved ↦
      subst
        (λ b.
          Leaves BookingsOk (λ _ s. Held r s × MoveChecked changes r (some table_id) s.reservations)
            (if b
              then check_new_table r changes table_id (find table_id s.tables) s
              else pure tt s))
        (sym moved) (check_new_table-Checked r changes table_id (find table_id s.tables) s h k)
  | inr still ↦
      subst
        (λ b.
          Leaves BookingsOk (λ _ s. Held r s × MoveChecked changes r (some table_id) s.reservations)
            (if b
              then check_new_table r changes table_id (find table_id s.tables) s
              else pure tt s))
        (sym still) (h, (k, λ moved. ground arith))
]
