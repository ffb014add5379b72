-- ===== src/Invitations.antt =====
-- apps/api/src/modules/invitations: an employee is invited by a token, which is used once, expires,
-- and can be revoked. Hashing and the random generator are third-party code: the hash of a token is
-- a parameter, and the hashes of the credentials are inputs.
mod Issuing
pub mod Pending
pub mod SingleUse
pub mod Race
unfoldable pub use Issuing.*
use smart_table.Prelude.{
  ℕ, ◌+◌, Bool, ◌&&◌, not, String, Option, none, some, List, [], ◌∷◌, ◌++◌, leb, ◌==◌,
  if◌then◌else◌, first, update, order_by,
}
use smart_table.Domain.{
  EmployeeRole, InvitationStatus, invitation_pending, invitation_accepted_once, invitation_revoked,
  invitation_expired, invitation_status_eq, DomainException, entity_not_found, already_accepted,
  expired,
}
use smart_table.Database.{EmployeeRow, InvitationRow, RefreshTokenRow, Db, Env, Tx}
use smart_table.Effects.{
  Action, pure, throw, throw_if, query, required, run_transaction, append, emit, ◌>>◌, id_value,
  text, invitation_accepted, ◌>>=◌,
}

unfoldable pub find_by_token_hash : ℕ → Db → Option InvitationRow
find_by_token_hash token_hash db = first (λ r. r.token_hash == token_hash) db.invitations

unfoldable pub find_invitation : ℕ → Db → Option InvitationRow
find_invitation id db = first (λ r. r.id == id) db.invitations

unfoldable pub find_employee_identity : ℕ → Db → Option EmployeeRow
find_employee_identity employee_id db = first (λ e. e.id == employee_id) db.employees

abbrev pub token_not_found : DomainException
token_not_found = entity_not_found "invitation" 0

-- What is wrong with the row that a token resolves to.
pub data TokenProblem : Type 0 where
  fine unresolved : TokenProblem
  used too_old : ℕ → TokenProblem

unfoldable pub token_problem : ℕ → InvitationRow → TokenProblem
token_problem now r =
    if invitation_status_eq r.status invitation_revoked
    then unresolved
    else if invitation_status_eq r.status invitation_accepted_once
    then used r.id
    else if leb r.expires_at now
    then too_old r.id
    else fine

-- An invitation found to be too old is marked so before the error is thrown.
unfoldable pub refuse_token : TokenProblem → Action (Unit {0})
refuse_token fine = pure tt
refuse_token unresolved = throw token_not_found
refuse_token (used id) = throw (already_accepted id)
refuse_token (too_old id) =
    change_invitations (mark_status id invitation_expired) >> throw (expired id)

unfoldable pub validate_token_for_use : Env → InvitationSettings → ℕ → Action InvitationRow
validate_token_for_use env settings raw_token = do
  r ← required (← query (find_by_token_hash (settings.hash_token raw_token))) token_not_found
  refuse_token (token_problem env.now r)
  pure r

pub record AcceptContext : Type 0 where
  pub employee_name : String
  pub role : EmployeeRole
  pub expires_at : ℕ

unfoldable pub get_accept_context : Env → InvitationSettings → ℕ → Action AcceptContext
get_accept_context env settings raw_token = do
  r ← validate_token_for_use env settings raw_token
  e ←
      required (← query (find_employee_identity r.employee_id))
        (entity_not_found "employee" r.employee_id)
  pure (record { employee_name = e.name; role = e.role; expires_at = r.expires_at })

pub record AcceptanceWrite : Type 0 where
  pub invitation_id : ℕ
  pub employee_id : ℕ
  pub password_hash : ℕ
  pub pin_hash : ℕ
  pub accepted_at : ℕ
  pub refresh_token : RefreshTokenRow

abbrev pub set_credentials : AcceptanceWrite → List EmployeeRow → List EmployeeRow
set_credentials write =
    update (λ e. e.id == write.employee_id)
      (λ e. record e { password_hash = some write.password_hash; pin_hash = some write.pin_hash })

abbrev pub set_accepted : AcceptanceWrite → List InvitationRow → List InvitationRow
set_accepted write =
    update (λ r. r.id == write.invitation_id)
      (λ r. record r { status = invitation_accepted_once; accepted_at = some write.accepted_at })

-- The three writes; none of them looks at what the rows hold.
unfoldable pub accept_transaction : AcceptanceWrite → Tx (Unit {0})
accept_transaction write db = some (
  tt,
  record db {
    employees = set_credentials write db.employees;
    invitations = set_accepted write db.invitations;
    refresh_tokens = db.refresh_tokens ++ write.refresh_token ∷ [];
  },
)

-- What the form and the hashing give.
pub record AcceptForm : Type 0 where
  pub password_hash : ℕ
  pub pin_hash : ℕ
  pub device_label : String
  pub device_token_hash : ℕ

-- `accept` up to the await of the hashing, and after it. In between, other requests run.
unfoldable pub accept_check : Env → InvitationSettings → ℕ → Action (InvitationRow × EmployeeRow)
accept_check env settings raw_token = do
  r ← validate_token_for_use env settings raw_token
  e ←
      required (← query (find_employee_identity r.employee_id))
        (entity_not_found "employee" r.employee_id)
  pure (r, e)

abbrev pub acceptance : Env → AcceptForm → InvitationRow → EmployeeRow → AcceptanceWrite
acceptance env form r e = record {
  invitation_id = r.id;
  employee_id = e.id;
  password_hash = form.password_hash;
  pin_hash = form.pin_hash;
  accepted_at = env.now;
  refresh_token = record {
    employee_id = e.id;
    device_label = form.device_label;
    token_hash = form.device_token_hash;
  };
}

unfoldable pub accept_commit : Env → AcceptForm → InvitationRow → EmployeeRow → Action EmployeeRow
accept_commit env form r e = do
  run_transaction (accept_transaction (acceptance env form r e))
  append (
      invitation_entry (some e.id) r.id "invitation_accepted" []
        (("employeeId", id_value e.id) ∷ ("deviceLabel", text form.device_label) ∷ []))
  emit (invitation_accepted r.id e.id)
  pure e

unfoldable pub accept : Env → InvitationSettings → ℕ → AcceptForm → Action EmployeeRow
accept env settings raw_token form = do
  (r, e) ← accept_check env settings raw_token
  accept_commit env form r e

unfoldable pub revoke : ℕ → ℕ → Action (Unit {0})
revoke invitation_id actor = do
  r ←
      required (← query (find_invitation invitation_id))
        (entity_not_found "invitation" invitation_id)
  throw_if (not (invitation_status_eq r.status invitation_pending)) (already_accepted invitation_id)
  change_invitations (mark_status invitation_id invitation_revoked)
  append (
      invitation_entry (some actor) invitation_id "invitation_revoked"
        (("status", text "pending") ∷ []) (("status", text "revoked") ∷ []))

abbrev pub revoke_if : Bool → ℕ → List InvitationRow → List InvitationRow
revoke_if b id rows = if b then mark_status id invitation_revoked rows else rows

unfoldable pub reissue : Env → InvitationSettings → ℕ → ℕ → Action IssuedInvitation
reissue env settings invitation_id actor = do
  r ←
      required (← query (find_invitation invitation_id))
        (entity_not_found "invitation" invitation_id)
  change_invitations (revoke_if (invitation_status_eq r.status invitation_pending) invitation_id)
  issued ← create_for_employee env settings r.employee_id (some actor) r.channel
  append (
      invitation_entry (some actor) invitation_id "invitation_reissued" []
        (("newInvitationId", id_value issued.id) ∷ []))
  pure issued

-- The status shown for an employee: that of the newest invitation, or that it is too old.
abbrev pub shown_status : ℕ → InvitationRow → InvitationStatus
shown_status now r =
    if invitation_status_eq r.status invitation_pending && leb r.expires_at now
    then invitation_expired
    else r.status

abbrev pub status_of_row : ℕ → Option InvitationRow → Option InvitationStatus
status_of_row now none = none
status_of_row now (some r) = some (shown_status now r)

unfoldable pub latest_status : Env → ℕ → Db → Option InvitationStatus
latest_status env employee_id db = status_of_row env.now (
    first (λ r. r.employee_id == employee_id)
      (order_by (λ r s. leb s.created_at r.created_at) db.invitations))
