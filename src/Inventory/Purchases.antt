-- ===== src/Inventory/Purchases.antt =====
-- One open purchase request for each item: the writes of the inventory service keep it.
use restaurant_sahayak.Base.{
  ℕ, ◌+◌, ◌≤◌, ◌<◌, ◌≡◌, ◌≢◌, refl, Bool, true, false, ◌&&◌, ◌==◌, ltb, Option, none, some, List,
  [], ◌∷◌, ◌++◌, All, All-map, All-append, All-update, All-find, Pairwise, Pairwise-snoc,
  Pairwise-find, Pairwise-update, Distinct, Distinct-snoc, Distinct-update, Issued, Issued-mono,
  Issued-update, arith, if◌then◌else◌, Bool-cases, inl, inr, select, find, find-id, update, ==→eq,
  row_id,
}
use restaurant_sahayak.Models.{Session}
use restaurant_sahayak.Models.Enums.{is_open}
use restaurant_sahayak.Models.Stock.{PurchaseRequest, purchase_row}
use restaurant_sahayak.Approvals.Preserves.{IsLocal}
use restaurant_sahayak.Inventory.{open_for, latest, get_open_purchase_request_for_item, as_approved}

-- Both are open, for one item.
abbrev pub rivals : PurchaseRequest → PurchaseRequest → Bool
rivals x y = is_open x.status && open_for x.item_id y

abbrev pub Single : PurchaseRequest → PurchaseRequest → Type 0
Single x y = rivals x y ≡ false

pub record PurchasesOk (s : Session) : Type 0 where
  pub issued : Issued s.next_id s.purchase_requests
  pub distinct : Distinct s.purchase_requests
  pub single : Pairwise Single s.purchase_requests

pub Single-flip : (x y : PurchaseRequest) → Single x y → Single y x
Single-flip x y h = ground arith

latest-none : (rows : List PurchaseRequest) → latest rows ≡ none → rows ≡ []
latest-none [] e = refl
latest-none (r ∷ rows) e = split (latest rows) e
  where
    split :
        (o : Option PurchaseRequest)
        → (elim o [
          | none ↦ some r
          | some q ↦ if ltb q.created_at r.created_at then some r else some q
        ])
          ≡ none
        → r ∷ rows ≡ []
    split none e = ground arith
    split (some q) e = ground arith

select-none :
    (item_id : ℕ) (rows : List PurchaseRequest)
    → select (open_for item_id) rows ≡ []
    → All (λ r. open_for item_id r ≡ false) rows
select-none item_id [] e = tt
select-none item_id (r ∷ rows) e = ground (arith, select-none item_id rows)

-- Where the search finds no open request of the item, a new one has no rival.
pub none_open :
    (new : PurchaseRequest) (rows : List PurchaseRequest)
    → get_open_purchase_request_for_item new.item_id rows ≡ none
    → All (λ x. Single x new) rows
unfolding get_open_purchase_request_for_item
none_open new rows e =
    All-map (λ x. open_for new.item_id x ≡ false) (λ x. Single x new) (λ x f. ground arith) rows
      (select-none new.item_id rows (latest-none (select (open_for new.item_id) rows) e))

pub inserted-PurchasesOk :
    (s : Session) (r : PurchaseRequest)
    → r.id ≡ s.next_id
    → All (λ x. Single x r) s.purchase_requests
    → PurchasesOk s
    → PurchasesOk
        (record s { purchase_requests = s.purchase_requests ++ r ∷ []; next_id = s.next_id + 1 })
inserted-PurchasesOk s r new free h = record {
  issued =
      All-append (λ x. x.id < s.next_id + 1) s.purchase_requests (r ∷ [])
        (Issued-mono s.next_id (s.next_id + 1) s.purchase_requests (omega arith) h.issued)
        (omega arith, tt);
  distinct = Distinct-snoc s.next_id s.purchase_requests r new h.issued h.distinct;
  single = Pairwise-snoc Single s.purchase_requests r h.single free;
}

-- A write that changes neither the item nor the status of a row
Pairwise-same :
    (k : ℕ) (f : PurchaseRequest → PurchaseRequest) (rows : List PurchaseRequest)
    → ((x y : PurchaseRequest) → Single x y → Single x (f y))
    → Pairwise Single rows
    → Pairwise Single (update k f rows)
Pairwise-same k f [] same h = tt
Pairwise-same k f (x ∷ rows) same h = (
  elim (Bool-cases (row_id x == k)) [
    | inl hit ↦ rw hit (
        All-map (Single x) (Single (f x))
          (λ y p. Single-flip y (f x) (same y x (Single-flip x y p))) (update k f rows)
          (All-update (Single x) k f rows h.0 (λ y _ p. same x y p)))
    | inr miss ↦ rw miss (All-update (Single x) k f rows h.0 (λ y _ p. same x y p))
  ],
  Pairwise-same k f rows same h.1,
)

pub rewritten-PurchasesOk :
    (s : Session) (k : ℕ) (f : PurchaseRequest → PurchaseRequest)
    → ((x : PurchaseRequest) → (f x).id ≡ x.id)
    → ((x y : PurchaseRequest) → Single x y → Single x (f y))
    → PurchasesOk s
    → PurchasesOk (record s { purchase_requests = update k f s.purchase_requests })
rewritten-PurchasesOk s k f id_of same h = record {
  issued = Issued-update s.next_id k f s.purchase_requests id_of h.issued;
  distinct = Distinct-update k f s.purchase_requests id_of h.distinct;
  single = Pairwise-same k f s.purchase_requests same h.single;
}

-- An open request is approved.
pub approved-PurchasesOk :
    (s : Session) (id : ℕ) (r : PurchaseRequest)
    → find id s.purchase_requests ≡ some r
    → is_open r.status ≡ true
    → PurchasesOk s
    → PurchasesOk (record s { purchase_requests = update id as_approved s.purchase_requests })
approved-PurchasesOk s id r e open_r h = record {
  issued = Issued-update s.next_id id as_approved s.purchase_requests (λ x. refl) h.issued;
  distinct = Distinct-update id as_approved s.purchase_requests (λ x. refl) h.distinct;
  single =
      Pairwise-update Single Single-flip id as_approved s.purchase_requests r h.distinct e
        (All-map (λ x. x.id ≢ id → Single x r) (λ x. x.id ≢ id → Single x (as_approved r))
          (λ x f ne. ground (arith, f ne)) s.purchase_requests
          (Pairwise-find Single Single-flip id s.purchase_requests r h.single e))
        h.single;
}

grown :
    (s t : Session)
    → s.next_id ≤ t.next_id
    → s.purchase_requests ≡ t.purchase_requests
    → PurchasesOk s
    → PurchasesOk t
grown s t le e h = record {
  issued = rw (← e) (Issued-mono s.next_id t.next_id s.purchase_requests le h.issued);
  distinct = rw (← e) h.distinct;
  single = rw (← e) h.single;
}

pub PurchasesOk-local : IsLocal PurchasesOk
PurchasesOk-local = record {
  events = λ s es n le h. grown s _ le refl h;
  memories = λ s ms n le h. grown s _ le refl h;
  clock = λ s t n le h. grown s _ le refl h;
}

-- No two open requests are for one item.
abbrev pub OneOpenRequest : Session → Type 0
OneOpenRequest s =
    (i j item_id : ℕ) (x y : PurchaseRequest)
    → find i s.purchase_requests ≡ some x
    → find j s.purchase_requests ≡ some y
    → open_for item_id x ≡ true
    → open_for item_id y ≡ true
    → i ≡ j

pub PurchasesOk-OneOpenRequest : (s : Session) → PurchasesOk s → OneOpenRequest s
PurchasesOk-OneOpenRequest s h i j item_id x y ex ey ox oy = elim (Bool-cases (i == j)) [
  | inl same ↦ ==→eq i j same
  | inr other ↦
      let apart : Single x y =
        All-find (λ x. x.id ≢ j → Single x y) i s.purchase_requests x
          (Pairwise-find Single Single-flip j s.purchase_requests y h.single ey) ex
          (λ e. ground (arith, e, find-id i s.purchase_requests x ex, other)) in
      ground (arith, apart, ox, oy)
]
