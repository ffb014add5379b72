-- ===== src/Invitations/Issuing.antt =====
-- createForEmployee of invitations.service.ts: an invitation is issued, and the pending ones of the
-- employee are revoked first.
use smart_table.Prelude.{
  ℕ, ◌+◌, ◌*◌, Bool, ◌&&◌, ◌||◌, String, str_eq, Option, none, some, List, [], ◌∷◌, ltb, ◌==◌,
  if◌then◌else◌, select, first, update, is_some,
}
use smart_table.Domain.{
  InvitationStatus, invitation_pending, invitation_revoked, invitation_status_eq,
}
use smart_table.Database.{EmployeeRow, InvitationRow, Env, Tx, insert_unique}
use smart_table.Effects.{
  Action, pure, run_transaction, append, AuditEntry, AuditValue, id_value, amount, text, ◌>>◌,
}

pub record IssuedInvitation : Type 0 where
  pub id : ℕ
  pub token : ℕ
  pub expires_at : ℕ

-- INVITATION_EXPIRY_DAYS, and the hash under which a token is stored.
pub record InvitationSettings : Type 0 where
  pub expiry_days : ℕ
  pub hash_token : ℕ → ℕ

-- update invitations set status where id = …
unfoldable pub mark_status : ℕ → InvitationStatus → List InvitationRow → List InvitationRow
mark_status id status = update (λ r. r.id == id) (λ r. record r { status = status })

abbrev pub is_pending_of : ℕ → InvitationRow → Bool
is_pending_of employee_id r =
    r.employee_id == employee_id && invitation_status_eq r.status invitation_pending

-- The `for` over the pending ones, each marked on its own.
unfoldable pub revoke_all : List InvitationRow → List InvitationRow → List InvitationRow
unfolding mark_status
revoke_all [] rows = rows
revoke_all (old ∷ olds) rows = revoke_all olds (mark_status old.id invitation_revoked rows)

unfoldable pub revoke_pending : ℕ → List InvitationRow → List InvitationRow
revoke_pending employee_id rows = revoke_all (select (is_pending_of employee_id) rows) rows

abbrev pub change_invitations : (List InvitationRow → List InvitationRow) → Action (Unit {0})
change_invitations f =
    run_transaction (λ db. some (tt, record db { invitations = f db.invitations }))

abbrev pub ms_per_day : ℕ
ms_per_day = 86_400_000

abbrev pub new_invitation : Env → InvitationSettings → ℕ → String → InvitationRow
new_invitation env settings employee_id channel = record {
  id = env.uuid 0;
  employee_id = employee_id;
  token_hash = settings.hash_token (env.random_token 0);
  channel = channel;
  status = invitation_pending;
  expires_at = env.now + settings.expiry_days * ms_per_day;
  accepted_at = none;
  created_at = env.now;
}

abbrev pub is_channel : String → Bool
is_channel channel = str_eq channel "link" || (str_eq channel "qr" || str_eq channel "email")

-- The insert, under the primary key, the employee that it refers to, the three channels and
-- `expires_at > created_at`.
unfoldable pub insert_invitation : InvitationRow → Tx (Unit {0})
insert_invitation row db =
    if is_channel row.channel
      && (ltb row.created_at row.expires_at
          && is_some (first (λ (e : EmployeeRow). e.id == row.employee_id) db.employees))
    then elim (insert_unique (λ r. r.id) row db.invitations) [
      | none ↦ none
      | some rows ↦ some (tt, record db { invitations = rows })
    ]
    else none

abbrev pub invitation_entry :
    Option ℕ → ℕ → String → List (String × AuditValue) → List (String × AuditValue) → AuditEntry
invitation_entry actor id action old_value new_value = record {
  actor_employee_id = actor;
  entity_type = "invitation";
  entity_id = id;
  action = action;
  old_value = old_value;
  new_value = new_value;
}

unfoldable pub create_for_employee :
    Env → InvitationSettings → ℕ → Option ℕ → String → Action IssuedInvitation
create_for_employee env settings employee_id actor channel = do
  let row = new_invitation env settings employee_id channel
  change_invitations (revoke_pending employee_id)
  run_transaction (insert_invitation row)
  append (
      invitation_entry actor row.id "invitation_created" [] (
        ("employeeId", id_value employee_id)
        ∷ ("channel", text channel)
        ∷ ("expiresAt", amount row.expires_at)
        ∷ []))
  pure (record { id = row.id; token = env.random_token 0; expires_at = row.expires_at })
