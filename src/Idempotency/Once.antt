-- ===== src/Idempotency/Once.antt =====
-- The operation is performed at most once; and what a lost response does.
use smart_table.Prelude.{
  ℕ, ◌≤◌, ◌≡◌, refl, false, none, some, List, [], ◌∷◌, ◌++◌, map, arith, sum_of, All,
}
use smart_table.Idempotency.{
  KeyRow, Slot, failed, Phase, arrived, inserting, executing, storing, freeing, waiting, finished,
  Outcome, goes_well, goes_wrong, handle_existing, poll, delete_if_pending, advance, System,
  loses_response, step_of, Reaches, stays, moves,
}
use smart_table.Idempotency.Owner.{
  owner, stores, HasRow, sum_of-middle, All-middle, sum_of-stores-le, quiet-IsOnce, owner-IsOnce,
  pending-le, owner-handle_existing, owner-poll, completed-store, completed-delete, IsOnce,
}

step-IsOnce :
    (o : Outcome) (id : ℕ) (before after : List Phase) (phase : Phase) (slot : Slot) (performed : ℕ)
    → loses_response o phase ≡ false
    → IsOnce (record { slot = slot; requests = before ++ phase ∷ after; performed = performed })
    → IsOnce (step_of o id before phase after slot performed)
unfolding advance
step-IsOnce o id before after (arrived h) none performed l v =
    quiet-IsOnce before after performed (arrived h) (inserting h) none refl refl v
step-IsOnce o id before after (arrived h) (some row) performed l v =
    quiet-IsOnce before after performed (arrived h) (handle_existing row h) (some row) refl
      (owner-handle_existing row h) v
step-IsOnce o id before after (inserting h) none performed l v =
    owner-IsOnce before after performed (inserting h) (executing id) none _ 0
      (omega (arith, v.one_owner, sum_of-middle owner before (inserting h) after)) (omega arith)
      refl refl v
step-IsOnce o id before after (inserting h) (some row) performed l v =
    quiet-IsOnce before after performed (inserting h) (waiting h 0) (some row) refl refl v
step-IsOnce o id before after (waiting h n) slot performed l v =
    quiet-IsOnce before after performed (waiting h n) (poll slot h n) slot refl
      (owner-poll slot h n) v
step-IsOnce o id before after (finished a) slot performed l v =
    quiet-IsOnce before after performed (finished a) (finished a) slot refl refl v
step-IsOnce (goes_well body) id before after (executing own) slot performed l v =
    let split = sum_of-middle owner before (executing own) after in
    owner-IsOnce before after performed (executing own) (storing own body) slot slot 1
      (omega (arith, v.one_owner, split, pending-le slot)) (omega (arith, v.one_owner, split))
      (All-middle (HasRow slot) before (executing own) after v.own_row) (omega arith) v
step-IsOnce goes_wrong id before after (executing own) slot performed l v =
    let split = sum_of-middle owner before (executing own) after in
    owner-IsOnce before after performed (executing own) freeing slot slot 0
      (omega (arith, v.one_owner, split, pending-le slot)) (omega (arith, v.one_owner, split)) tt
      (omega arith) v
step-IsOnce (goes_well b) id before after (storing own body) slot performed l v =
    let split = sum_of-middle owner before (storing own body) after in
    let has = All-middle (HasRow slot) before (storing own body) after v.own_row in
    owner-IsOnce before after performed (storing own body) (finished _) slot _ 0
      (omega (arith, v.one_owner, split, pending-le slot)) (omega arith) tt
      (omega (arith, completed-store own body slot has (omega (arith, v.one_owner, split)))) v
step-IsOnce goes_wrong id before after (storing own body) slot performed l v =
    absurd (ground (arith, l))
step-IsOnce o id before after freeing slot performed l v =
    let split = sum_of-middle owner before freeing after in
    owner-IsOnce before after performed freeing (finished _) slot _ 0
      (omega (arith, v.one_owner, split, pending-le slot)) (omega arith) tt
      (omega (arith, completed-delete slot)) v

Reaches-IsOnce : (s t : System) → Reaches s t → IsOnce s → IsOnce t
Reaches-IsOnce s t stays v = v
Reaches-IsOnce s t (moves o id before after phase slot performed l rest) v =
    Reaches-IsOnce _ t rest (step-IsOnce o id before after phase slot performed l v)

-- Any number of requests arrive with one key, with the same or different bodies.
abbrev pub arrivals : List ℕ → System
arrivals hashes = record { slot = none; requests = map arrived hashes; performed = 0 }

sum_of-arrivals :
    (hashes : List ℕ)
    → (sum_of owner (map arrived hashes) ≡ 0) × (sum_of stores (map arrived hashes) ≡ 0)
sum_of-arrivals [] = (refl, refl)
sum_of-arrivals (h ∷ hashes) =
    let both = sum_of-arrivals hashes in (omega (arith, both.0), omega (arith, both.1))

HasRow-arrivals : (hashes : List ℕ) → All (HasRow none) (map arrived hashes)
HasRow-arrivals [] = tt
HasRow-arrivals (h ∷ hashes) = (tt, HasRow-arrivals hashes)

arrivals-IsOnce : (hashes : List ℕ) → IsOnce (arrivals hashes)
arrivals-IsOnce hashes = record {
  one_owner = omega (arith, (sum_of-arrivals hashes).0);
  own_row = HasRow-arrivals hashes;
  counted = omega (arith, (sum_of-arrivals hashes).1);
}

-- However their steps interleave, and whether the operation succeeds or fails each time it is tried, it is
-- performed once at most for all of them, as long as no response is lost on the way to its row.
pub Reaches-once : (hashes : List ℕ) (t : System) → Reaches (arrivals hashes) t → t.performed ≤ 1
Reaches-once hashes t run =
    let v = Reaches-IsOnce (arrivals hashes) t run (arrivals-IsOnce hashes) in
    omega (arith, v.counted, v.one_owner, sum_of-stores-le t.requests, pending-le t.slot)

-- When the response of an operation that was performed cannot be stored, the row is deleted like that of an
-- operation that failed: the request ends with an error, and the next one with the same key finds no
-- row and performs the operation again.
pub lost_response :
    (own body h id later again : ℕ) (row : KeyRow)
    → row.response ≡ none
    → ((advance goes_wrong id (storing own body) (some row)).next ≡ freeing)
      × (advance goes_wrong id freeing (some row)
          ≡ record { next = finished failed; slot = none; performed = 0 })
      × (advance goes_wrong id (arrived h) none
          ≡ record { next = inserting h; slot = none; performed = 0 })
      × ((advance goes_wrong later (inserting h) none).next ≡ executing later)
      × ((advance
            (goes_well again)
            id
            (executing later)
            (advance goes_wrong later (inserting h) none).slot).performed
          ≡ 1)
unfolding advance delete_if_pending
lost_response own body h id later again row e = (refl, rw e refl, refl, refl, refl)
