-- ===== src/Idempotency/Owner.antt =====
-- The request that owns the row of a key: there is one at most.
use smart_table.Prelude.{
  ℕ, suc, ◌+◌, ◌≤◌, ◌≡◌, refl, Option, none, some, List, [], ◌∷◌, ◌++◌, arith, ltb, ◌==◌, ==_self,
  sum_of, sum_of-append, All, Bool-cases, Option-cases, inl, inr,
}
use smart_table.Idempotency.{
  KeyRow, Slot, Phase, arrived, inserting, executing, storing, freeing, waiting, finished,
  handle_existing, poll, store_response, delete_if_pending, System,
}

-- A request between its insert of the row and its last write to it.
abbrev pub owner : Phase → ℕ
owner (executing id) = 1
owner (storing id body) = 1
owner freeing = 1
owner _ = 0

abbrev pub stores : Phase → ℕ
stores (storing id body) = 1
stores _ = 0

abbrev pub pending : Slot → ℕ
pending none = 0
pending (some row) = elim row.response [ none ↦ 1 | some body ↦ 0 ]

abbrev pub completed : Slot → ℕ
completed none = 0
completed (some row) = elim row.response [ none ↦ 0 | some body ↦ 1 ]

abbrev pub row_id : Slot → Option ℕ
row_id none = none
row_id (some row) = some row.id

-- The request works with the row that is there.
abbrev pub HasRow : Slot → Phase → Type 0
HasRow slot (executing id) = row_id slot ≡ some id
HasRow slot (storing id body) = row_id slot ≡ some id
HasRow slot _ = Unit

pub record IsOnce (s : System) : Type 0 where
  pub one_owner : sum_of owner s.requests ≤ pending s.slot
  pub own_row : All (HasRow s.slot) s.requests
  pub counted : s.performed ≡ sum_of stores s.requests + completed s.slot

module _ {A : Type 0} where
  pub sum_of-middle :
      (f : A → ℕ) (xs : List A) (x : A) (ys : List A)
      → sum_of f (xs ++ x ∷ ys) ≡ sum_of f xs + (f x + sum_of f ys)
  sum_of-middle f xs x ys = sum_of-append f xs (x ∷ ys)

  pub All-middle : (P : A → Type 0) (xs : List A) (x : A) (ys : List A) → All P (xs ++ x ∷ ys) → P x
  All-middle P [] x ys all = all.0
  All-middle P (z ∷ xs) x ys all = All-middle P xs x ys all.1

  pub All-replace :
      (P : A → Type 0) (xs : List A) (x y : A) (ys : List A)
      → P y
      → All P (xs ++ x ∷ ys)
      → All P (xs ++ y ∷ ys)
  All-replace P [] x y ys p all = (p, all.1)
  All-replace P (z ∷ xs) x y ys p all = (all.0, All-replace P xs x y ys p all.1)

-- Where no request owns the row, any row will do.
pub HasRow-free : (slot : Slot) (phase : Phase) → owner phase ≡ 0 → HasRow slot phase
HasRow-free slot (arrived h) e = tt
HasRow-free slot (inserting h) e = tt
HasRow-free slot (executing id) e = absurd (omega (arith, e))
HasRow-free slot (storing id body) e = absurd (omega (arith, e))
HasRow-free slot freeing e = tt
HasRow-free slot (waiting h n) e = tt
HasRow-free slot (finished a) e = tt

pub All-free :
    (slot : Slot) (xs : List Phase) (x : Phase) (ys : List Phase)
    → sum_of owner xs + sum_of owner ys ≡ 0
    → HasRow slot x
    → All (HasRow slot) (xs ++ x ∷ ys)
All-free slot [] x [] e h = (h, tt)
All-free slot [] x (y ∷ ys) e h =
    (h, (HasRow-free slot y (omega (arith, e)), (All-free slot [] x ys (omega (arith, e)) h).1))
All-free slot (z ∷ xs) x ys e h =
    (HasRow-free slot z (omega (arith, e)), All-free slot xs x ys (omega (arith, e)) h)

pub stores-le-owner : (phase : Phase) → stores phase ≤ owner phase
stores-le-owner (arrived h) = omega arith
stores-le-owner (inserting h) = omega arith
stores-le-owner (executing id) = omega arith
stores-le-owner (storing id body) = omega arith
stores-le-owner freeing = omega arith
stores-le-owner (waiting h n) = omega arith
stores-le-owner (finished a) = omega arith

pub sum_of-stores-le : (xs : List Phase) → sum_of stores xs ≤ sum_of owner xs
sum_of-stores-le [] = omega arith
sum_of-stores-le (x ∷ xs) = omega (arith, stores-le-owner x, sum_of-stores-le xs)

module _ (before after : List Phase) (performed : ℕ) where
  -- A step that owns nothing, before and after it, and leaves the row.
  pub quiet-IsOnce :
      (phase next : Phase) (slot : Slot)
      → owner phase ≡ 0
      → owner next ≡ 0
      → IsOnce (record { slot = slot; requests = before ++ phase ∷ after; performed = performed })
      → IsOnce
          (record { slot = slot; requests = before ++ next ∷ after; performed = performed + 0 })
  quiet-IsOnce phase next slot e k v = record {
    one_owner = omega (
      arith,
      e,
      k,
      v.one_owner,
      sum_of-middle owner before phase after,
      sum_of-middle owner before next after,
    );
    own_row = All-replace (HasRow slot) before phase next after (HasRow-free slot next k) v.own_row;
    counted = omega (
      arith,
      v.counted,
      stores-le-owner phase,
      stores-le-owner next,
      e,
      k,
      sum_of-middle stores before phase after,
      sum_of-middle stores before next after,
    );
  }

  -- A step of the owner, after which there is this row.
  pub owner-IsOnce :
      (phase next : Phase) (slot slot' : Slot) (more : ℕ)
      → sum_of owner before + sum_of owner after ≡ 0
      → owner next ≤ pending slot'
      → HasRow slot' next
      → stores next + completed slot' ≡ stores phase + completed slot + more
      → IsOnce (record { slot = slot; requests = before ++ phase ∷ after; performed = performed })
      → IsOnce
          (record { slot = slot'; requests = before ++ next ∷ after; performed = performed + more })
  owner-IsOnce phase next slot slot' more alone own row c v = record {
    one_owner = omega (arith, alone, own, sum_of-middle owner before next after);
    own_row = All-free slot' before next after alone row;
    counted = omega (
      arith,
      c,
      v.counted,
      sum_of-middle stores before phase after,
      sum_of-middle stores before next after,
    );
  }

pub pending-le : (slot : Slot) → pending slot + completed slot ≤ 1
pending-le none = omega arith
pending-le (some row) = elim (Option-cases row.response) [
  | inl e ↦ rw e (omega arith)
  | inr (b, e) ↦ rw e (omega arith)
]

pub owner-handle_existing : (row : KeyRow) (h : ℕ) → owner (handle_existing row h) ≡ 0
unfolding handle_existing
owner-handle_existing row h = elim (Bool-cases (row.request_hash == h)) [
  | inr e ↦ rw (e, handle_existing) refl
  | inl e ↦ elim (Option-cases row.response) [
    | inl k ↦ rw (e, k, handle_existing) refl
    | inr (b, k) ↦ rw (e, k, handle_existing) refl
  ]
]

pub owner-poll : (slot : Slot) (h polls : ℕ) → owner (poll slot h polls) ≡ 0
unfolding poll
owner-poll none h polls = refl
owner-poll (some row) h polls = elim (Option-cases row.response) [
  | inr (b, k) ↦ rw (k, poll) (owner-handle_existing row h)
  | inl k ↦ elim (Bool-cases (ltb (suc polls) 40)) [
    | inl e ↦ rw (k, poll, e) refl
    | inr e ↦ rw (k, poll, e) refl
  ]
]

pub completed-store :
    (own body : ℕ) (slot : Slot)
    → row_id slot ≡ some own
    → 1 ≤ pending slot
    → completed (store_response own body slot) ≡ 1 + completed slot
unfolding store_response
completed-store own body none e h = absurd (omega (arith, h))
completed-store own body (some row) e h =
    let same : row.id ≡ own = ground (arith, e) in
    elim (Option-cases row.response) [
      | inl k ↦ rw (same, ==_self own, k) refl
      | inr (b, k) ↦ absurd (ground (arith, h, k))
    ]

pub completed-delete : (slot : Slot) → completed (delete_if_pending slot) ≡ completed slot
unfolding delete_if_pending
completed-delete none = refl
completed-delete (some row) = elim (Option-cases row.response) [
  | inl k ↦ rw (k, delete_if_pending) refl
  | inr (b, k) ↦ rw (k, delete_if_pending) (rw k refl)
]
