-- ===== src/Memories/Index.antt =====
-- The partial unique index on active memories, as a relation of two rows.
use restaurant_sahayak.Base.{
  ◌≡◌, refl, ap, true, false, ◌&&◌, List, [], ◌∷◌, All, Pairwise, any, any-false, arith, Bool-cases,
  inl, inr, eq_iff, ==→eq,
}
use restaurant_sahayak.Models.Memories.{Memory, Topic, Scope, named, approval_topic, memory_row}
use restaurant_sahayak.Memories.Repository.{
  MemoryKey, topic_eq, scope_eq, key_of, key_eq, holds, index_holds,
}

topic_eq→eq : (a b : Topic) → topic_eq a b ≡ true → a ≡ b
topic_eq→eq (named a) (named b) e = ap named (ground (arith, eq_iff a b))
topic_eq→eq (named a) (approval_topic b) e = ground arith
topic_eq→eq (approval_topic a) (named b) e = ground arith
topic_eq→eq (approval_topic a) (approval_topic b) e = ap approval_topic (==→eq a b e)

scope_eq→eq : (a b : Scope) → scope_eq a b ≡ true → a ≡ b
scope_eq→eq (Scope.customer a) (Scope.customer b) e = ap Scope.customer (==→eq a b e)
scope_eq→eq (Scope.label a) (Scope.label b) e = ap Scope.label (ground (arith, eq_iff a b))
scope_eq→eq (Scope.customer a) (Scope.label b) e = ground arith
scope_eq→eq (Scope.label a) (Scope.customer b) e = ground arith

topic_eq_self : (a : Topic) → topic_eq a a ≡ true
topic_eq_self (named a) = ground (arith, eq_iff a a)
topic_eq_self (approval_topic a) = ground arith

scope_eq_self : (a : Scope) → scope_eq a a ≡ true
scope_eq_self (Scope.customer a) = ground arith
scope_eq_self (Scope.label a) = ground (arith, eq_iff a a)

pub key_eq→eq : (a b : MemoryKey) → key_eq a b ≡ true → a ≡ b
unfolding key_eq
key_eq→eq a b e =
    let ids : a.restaurant_id ≡ b.restaurant_id = ground (arith, e) in
    let types : a.memory_type ≡ b.memory_type =
      ground (arith, e, eq_iff a.memory_type b.memory_type) in
    let scopes : a.scope ≡ b.scope = scope_eq→eq a.scope b.scope (ground (arith, e)) in
    let topics : a.topic ≡ b.topic = topic_eq→eq a.topic b.topic (ground (arith, e)) in
    λ i. record { restaurant_id = ids i; memory_type = types i; scope = scopes i; topic = topics i }

pub key_eq_self : (a : MemoryKey) → key_eq a a ≡ true
unfolding key_eq
key_eq_self a =
    ground (arith, eq_iff a.memory_type a.memory_type, scope_eq_self a.scope, topic_eq_self a.topic)

pub key_eq-sym : (a b : MemoryKey) → key_eq a b ≡ false → key_eq b a ≡ false
key_eq-sym a b e = elim (Bool-cases (key_eq b a)) [
  | inl same ↦ cc (key_eq→eq b a same)
  | inr other ↦ other
]

-- The rows do not share a key that both hold.
abbrev pub Unlike : Memory → Memory → Type 0
Unlike x y = (x.is_active && holds (key_of x) y) ≡ false

pub index-Unlike : (ms : List Memory) → index_holds ms ≡ true → Pairwise Unlike ms
index-Unlike [] h = tt
index-Unlike (m ∷ ms) h = (
  elim (Bool-cases m.is_active) [
    | inl active ↦
        any-false (holds (key_of m)) (Unlike m) ms (λ a e. ground (arith, e))
          (ground (arith, h, active))
    | inr retired ↦ always m ms retired
  ],
  index-Unlike ms (ground (arith, h)),
)
  where
    always : (m : Memory) (ms : List Memory) → m.is_active ≡ false → All (Unlike m) ms
    always m [] e = tt
    always m (x ∷ ms) e = (ground (arith, e), always m ms e)

pub Unlike-index : (ms : List Memory) → Pairwise Unlike ms → index_holds ms ≡ true
Unlike-index [] h = refl
Unlike-index (m ∷ ms) h = ground (arith, alone m ms h.0, Unlike-index ms h.1)
  where
    alone :
        (m : Memory) (ms : List Memory)
        → All (Unlike m) ms
        → (m.is_active && any (holds (key_of m)) ms) ≡ false
    alone m [] h = ground arith
    alone m (x ∷ ms) h = ground (arith, h.0, alone m ms h.1)

pub Unlike-flip : (x y : Memory) → Unlike x y → Unlike y x
Unlike-flip x y h = ground (arith, h, key_eq-sym (key_of y) (key_of x))
