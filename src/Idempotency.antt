-- ===== src/Idempotency.antt =====
-- apps/api/src/common/idempotency: the interceptor in front of an operation that must not be done
-- twice. Requests overlap at every await, so each is a state machine, and a run is a sequence of
-- steps of any of them. All requests here have one key and one endpoint; every query of the
-- repository is about such a pair, of which the unique index allows one row.
pub mod Owner
pub mod Once
use smart_table.Prelude.{
  ◌≡◌, ℕ, suc, ◌+◌, Bool, true, false, not, Option, none, some, List, [], ◌∷◌, ◌++◌, ltb, ◌==◌,
  if◌then◌else◌,
}

-- The row of the pair; the response is there once the operation has succeeded.
pub record KeyRow : Type 0 where
  pub id : ℕ
  pub request_hash : ℕ
  pub response : Option ℕ

abbrev pub Slot : Type 0
Slot = Option KeyRow

pub data Answer : Type 0 where
  -- the operation's own response, or its error
  answered : ℕ → Answer
  failed : Answer
  -- IdempotencyKeyReusedException with the stored response
  replayed : ℕ → Answer
  -- IdempotencyKeyConflictException with its three messages
  other_body did_not_complete still_in_progress : Answer

-- Where a request is, between two awaits.
pub data Phase : Type 0 where
  arrived : ℕ → Phase
  inserting : ℕ → Phase
  executing : ℕ → Phase
  storing : ℕ → ℕ → Phase
  freeing : Phase
  -- polling, after this many polls
  waiting : ℕ → ℕ → Phase
  finished : Answer → Phase

-- What the awaited call does: the operation responds or fails, the response is stored or not.
pub data Outcome : Type 0 where
  goes_well : ℕ → Outcome
  goes_wrong : Outcome

abbrev pub max_poll_attempts : ℕ
max_poll_attempts = 40

-- handleExisting
unfoldable pub handle_existing : KeyRow → ℕ → Phase
handle_existing row request_hash =
    if not (row.request_hash == request_hash)
    then finished other_body
    else elim row.response [ some body ↦ finished (replayed body) | none ↦ waiting request_hash 0 ]

-- One round of awaitCompletedResponse, and handleExisting once it returns a row.
unfoldable pub poll : Slot → ℕ → ℕ → Phase
poll none request_hash polls = finished did_not_complete
poll (some row) request_hash polls = elim row.response [
  | some body ↦ handle_existing row request_hash
  | none ↦
      if ltb (suc polls) max_poll_attempts
      then waiting request_hash (suc polls)
      else finished still_in_progress
]

unfoldable pub store_response : ℕ → ℕ → Slot → Slot
store_response id body none = none
store_response id body (some row) =
    if row.id == id then some (record row { response = some body }) else some row

unfoldable pub delete_if_pending : Slot → Slot
delete_if_pending none = none
delete_if_pending (some row) = elim row.response [ none ↦ none | some body ↦ some row ]

-- A step of a request: its next phase, the row after it, and how often it performed the operation.
pub record Move : Type 0 where
  pub next : Phase
  pub slot : Slot
  pub performed : ℕ

abbrev pub quietly : Phase → Slot → Move
quietly next slot = record { next = next; slot = slot; performed = 0 }

-- `id` is the id that a row inserted now gets.
unfoldable pub advance : Outcome → ℕ → Phase → Slot → Move
advance o id (arrived h) none = quietly (inserting h) none
advance o id (arrived h) (some row) = quietly (handle_existing row h) (some row)
advance o id (inserting h) none =
    quietly (executing id) (some (record { id = id; request_hash = h; response = none }))
advance o id (inserting h) (some row) = quietly (waiting h 0) (some row)
advance (goes_well body) id (executing own) slot = record {
  next = storing own body;
  slot = slot;
  performed = 1;
}
advance goes_wrong id (executing own) slot = quietly freeing slot
advance (goes_well _) id (storing own body) slot =
    quietly (finished (answered body)) (store_response own body slot)
advance goes_wrong id (storing own body) slot = quietly freeing slot
advance o id freeing slot = quietly (finished failed) (delete_if_pending slot)
advance o id (waiting h polls) slot = quietly (poll slot h polls) slot
advance o id (finished a) slot = quietly (finished a) slot

pub record System : Type 0 where
  pub slot : Slot
  pub requests : List Phase
  -- how often the operation has been performed
  pub performed : ℕ

-- The response of an operation that was performed is not stored.
abbrev pub loses_response : Outcome → Phase → Bool
loses_response goes_wrong (storing own body) = true
loses_response _ _ = false

-- The step of one request among the others.
abbrev pub step_of : Outcome → ℕ → List Phase → Phase → List Phase → Slot → ℕ → System
step_of o id before phase after slot performed =
    let m = advance o id phase slot in
    record {
      slot = m.slot;
      requests = before ++ m.next ∷ after;
      performed = performed + m.performed;
    }

-- Steps of any of the requests, in any order, in which no response is lost.
pub data Reaches : System → System → Type 0 where
  stays : {s : System} → Reaches s s
  moves :
      (o : Outcome) (id : ℕ) (before after : List Phase) (phase : Phase) (slot : Slot)
      (performed : ℕ) {s : System}
      → loses_response o phase ≡ false
      → Reaches (step_of o id before phase after slot performed) s
      → Reaches
          (record { slot = slot; requests = before ++ phase ∷ after; performed = performed })
          s
