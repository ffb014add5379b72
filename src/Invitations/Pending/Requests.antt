-- ===== src/Invitations/Pending/Requests.antt =====
-- The requests to the invitations keep one pending invitation of an employee at most.
use smart_table.Prelude.{
  ℕ, ◌≤◌, ◌≡◌, refl, Bool, true, false, String, Option, some, List, [], ◌∷◌, ◌++◌, arith, ◌==◌,
  count-update-le, count-append,
}
use smart_table.Domain.{
  InvitationStatus, invitation_pending, invitation_accepted_once, invitation_revoked,
  invitation_expired, invitation_status_eq, ok,
}
use smart_table.Database.{InvitationRow, Db, Env, transaction, insert_unique}
use smart_table.Effects.{World, Action, run_transaction}
use smart_table.Effects.Keeps.{
  Keeps, TxKeeps, keeps_rules, Keeps-bind, Keeps-append, Keeps-pure, Leads, Leads-bind,
  Leads-run_transaction,
}
use smart_table.Invitations.{
  InvitationSettings, mark_status, is_pending_of, revoke_pending, change_invitations,
  new_invitation, insert_invitation, create_for_employee, TokenProblem, fine, unresolved, used,
  too_old, refuse_token, validate_token_for_use, get_accept_context, AcceptanceWrite, set_accepted,
  accept_transaction, AcceptForm, accept_check, accept_commit, accept, revoke, revoke_if, reissue,
}
use smart_table.Invitations.Pending.{
  pending_count, OnePending, mark_status-le, revoke_all-le, revoke_pending-none,
}

-- No pending invitation of the employee, and one at most of anyone else.
record NonePending (employee_id : ℕ) (db : Db) : Type 0 where
  others : OnePending db
  none_left : pending_count employee_id db.invitations ≡ 0

change_invitations-at :
    (f : List InvitationRow → List InvitationRow) (w : World)
    → change_invitations f w
      ≡ (ok tt, record w { db = record w.db { invitations = f w.db.invitations } })
unfolding run_transaction transaction
change_invitations-at f w = refl

Keeps-change_invitations :
    (f : List InvitationRow → List InvitationRow)
    → ((e : ℕ) (rows : List InvitationRow) → pending_count e (f rows) ≤ pending_count e rows)
    → Keeps OnePending (change_invitations f)
Keeps-change_invitations f le = record {
  at = λ w h.
      rw (change_invitations-at f w)
        (record { one = λ e. omega (arith, le e w.db.invitations, h.one e) });
}

insert_invitation-OnePending :
    (row : InvitationRow) (db db' : Db) (t : Unit {0})
    → insert_invitation row db ≡ some (t, db')
    → NonePending row.employee_id db
    → OnePending db'
unfolding insert_invitation insert_unique
insert_invitation-OnePending row db db' t h n = record {
  one = λ e.
      let grown : db'.invitations ≡ db.invitations ++ row ∷ [] = ground arith in
      rw grown (
        ground (
          arith,
          count-append (is_pending_of e) db.invitations row,
          n.others.one e,
          n.none_left,
          same_employee e db.invitations row,
        ));
}
  where
    same_employee :
        (e : ℕ) (rows : List InvitationRow) (r : InvitationRow)
        → is_pending_of e r ≡ true
        → pending_count e rows ≡ pending_count r.employee_id rows
    same_employee e rows r p = let same : e ≡ r.employee_id = ground (arith, p) in rw same refl

revoke_pending-Leads :
    (e : ℕ) → Leads OnePending (NonePending e) (change_invitations (revoke_pending e))
unfolding revoke_pending
revoke_pending-Leads e = record {
  at = λ w h. rw (change_invitations-at (revoke_pending e) w) (record {
    others = record { one = λ x. omega (arith, revoke_all-le x _ w.db.invitations, h.one x) };
    none_left = revoke_pending-none e w.db.invitations;
  });
}

Keeps-Leads : {A : Type 0} (m : Action A) → Keeps OnePending m → Leads OnePending OnePending m
Keeps-Leads m k = record { at = k.at }

Keeps-create_for_employee :
    (env : Env) (settings : InvitationSettings) (e : ℕ) (actor : Option ℕ) (channel : String)
    → Keeps OnePending (create_for_employee env settings e actor channel)
unfolding create_for_employee
Keeps-create_for_employee env settings e actor channel =
    let row = new_invitation env settings e channel in
    let inserts : Leads (NonePending e) OnePending (run_transaction (insert_invitation row)) =
      Leads-run_transaction (insert_invitation row)
        (λ db t db' k n. insert_invitation-OnePending row db db' t k n) (λ db n. n.others) in
    let leads =
      Leads-bind (change_invitations (revoke_pending e)) _ (revoke_pending-Leads e)
        (λ u.
          Leads-bind (run_transaction (insert_invitation row)) _ inserts
            (λ t. Keeps-Leads _ (Keeps-bind _ _ (Keeps-append _) (λ v. Keeps-pure _))) (λ db o. o))
        (λ db n. n.others) in
    record { at = leads.at }

Keeps-mark_status :
    (id : ℕ) (status : InvitationStatus)
    → invitation_status_eq status invitation_pending ≡ false
    → Keeps OnePending (change_invitations (mark_status id status))
Keeps-mark_status id status h =
    Keeps-change_invitations _ (λ e rows. mark_status-le e id status rows h)

Keeps-revoked : (id : ℕ) → Keeps OnePending (change_invitations (mark_status id invitation_revoked))
Keeps-revoked id = Keeps-mark_status id invitation_revoked refl

Keeps-revoke_if : (b : Bool) (id : ℕ) → Keeps OnePending (change_invitations (revoke_if b id))
Keeps-revoke_if true id = Keeps-mark_status id invitation_revoked refl
Keeps-revoke_if false id = Keeps-change_invitations _ (λ e rows. omega arith)

Keeps-refuse_token : (p : TokenProblem) → Keeps OnePending (refuse_token p)
unfolding refuse_token
Keeps-refuse_token fine = search keeps_rules
Keeps-refuse_token unresolved = search keeps_rules
Keeps-refuse_token (used id) = search keeps_rules
Keeps-refuse_token (too_old id) =
    Keeps-bind _ _ (Keeps-mark_status id invitation_expired refl) (λ u. search keeps_rules)

Keeps-validate :
    (env : Env) (settings : InvitationSettings) (token : ℕ)
    → Keeps OnePending (validate_token_for_use env settings token)
unfolding validate_token_for_use
Keeps-validate env settings token = search (keeps_rules, Keeps-refuse_token)

Keeps-accept_transaction : (write : AcceptanceWrite) → TxKeeps OnePending (accept_transaction write)
unfolding accept_transaction
Keeps-accept_transaction write = record {
  commits = λ db {a} {db'} e h. record {
    one = λ x.
        let moved : db'.invitations ≡ set_accepted write db.invitations = ground arith in
        rw moved (
          omega (
            arith,
            h.one x,
            count-update-le (is_pending_of x) (λ r. r.id == write.invitation_id)
                (λ r. record r {
                  status = invitation_accepted_once;
                  accepted_at = some write.accepted_at;
                })
                db.invitations (λ r k. ground (arith, k)),
          ));
  };
}

-- A request to the invitations.
pub data InvitationRequest : Type 0 where
  invite : ℕ → Option ℕ → String → InvitationRequest
  look_up : ℕ → InvitationRequest
  accept_with : ℕ → AcceptForm → InvitationRequest
  revoke_by : ℕ → ℕ → InvitationRequest
  reissue_by : ℕ → ℕ → InvitationRequest

unfoldable pub perform : Env → InvitationSettings → InvitationRequest → World → World
perform env settings (invite e actor channel) w =
    (create_for_employee env settings e actor channel w).1
perform env settings (look_up token) w = (get_accept_context env settings token w).1
perform env settings (accept_with token form) w = (accept env settings token form w).1
perform env settings (revoke_by id actor) w = (revoke id actor w).1
perform env settings (reissue_by id actor) w = (reissue env settings id actor w).1

unfoldable pub perform_all : InvitationSettings → List (Env × InvitationRequest) → World → World
perform_all settings [] w = w
perform_all settings ((env, request) ∷ rest) w =
    perform_all settings rest (perform env settings request w)

perform-OnePending :
    (env : Env) (settings : InvitationSettings) (request : InvitationRequest) (w : World)
    → OnePending w.db
    → OnePending (perform env settings request w).db
unfolding perform get_accept_context accept accept_check accept_commit revoke reissue
perform-OnePending env settings (invite e actor channel) w h =
    (Keeps-create_for_employee env settings e actor channel).at w h
perform-OnePending env settings (look_up token) w h =
    let keeps : Keeps OnePending (get_accept_context env settings token) =
      search (keeps_rules, Keeps-validate) in
    keeps.at w h
perform-OnePending env settings (accept_with token form) w h =
    let keeps : Keeps OnePending (accept env settings token form) =
      search (keeps_rules, Keeps-validate, Keeps-accept_transaction) in
    keeps.at w h
perform-OnePending env settings (revoke_by id actor) w h =
    let keeps : Keeps OnePending (revoke id actor) = search (keeps_rules, Keeps-revoked) in
    keeps.at w h
perform-OnePending env settings (reissue_by id actor) w h =
    let keeps : Keeps OnePending (reissue env settings id actor) =
      search (keeps_rules, Keeps-create_for_employee, Keeps-revoke_if) depth 8 in
    keeps.at w h

-- Any sequence of invitations, look-ups, acceptances, revocations and reissues, each run in one piece
-- and each either succeeding or throwing, keeps it so that an employee has one pending invitation at
-- most.
pub perform_all-OnePending :
    (settings : InvitationSettings) (requests : List (Env × InvitationRequest)) (w : World)
    → OnePending w.db
    → OnePending (perform_all settings requests w).db
unfolding perform_all
perform_all-OnePending settings [] w h = h
perform_all-OnePending settings ((env, request) ∷ rest) w h =
    perform_all-OnePending settings rest (perform env settings request w)
      (perform-OnePending env settings request w h)
