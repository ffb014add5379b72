-- ===== src/Employees/Hiring.antt =====
-- From a new employee to the acceptance of the invitation.
use smart_table.Prelude.{
  ℕ, ◌+◌, ◌*◌, ◌<◌, ◌≡◌, refl, ap, ◌∙◌, Bool, true, none, some, List, [], ◌∷◌, ◌++◌, arith, ◌==◌,
  ==_self, ltb, first, select, first-update-none,
}
use smart_table.Domain.{Result, ok, invitation_pending, invitation_revoked}
use smart_table.Database.{EmployeeRow, InvitationRow, Db, Env, insert_unique, transaction}
use smart_table.Effects.{World, ◌>>=◌, run_transaction, append, pure}
use smart_table.Invitations.{
  InvitationSettings, ms_per_day, new_invitation, insert_invitation, revoke_pending, revoke_all,
  mark_status, create_for_employee, is_pending_of, find_by_token_hash, find_invitation,
  find_employee_identity, token_problem, fine, AcceptForm, accept,
}
use smart_table.Invitations.SingleUse.{accept-fine, accept_commit-db}
use smart_table.Employees.{
  CreateEmployeeRequest, new_employee, insert_employee, create_employee, employee_dto,
}

module _ {R : Type 0} where
  first_at_end :
      (p : R → Bool) (rs : List R) (r : R)
      → first p rs ≡ none
      → p r ≡ true
      → first p (rs ++ r ∷ []) ≡ some r
  unfolding first
  first_at_end p [] r h e = ground (arith, e)
  first_at_end p (x ∷ rs) r h e = ground (arith, e, first_at_end p rs r)

first-revoke_all :
    (q : InvitationRow → Bool) (olds rows : List InvitationRow)
    → ((r : InvitationRow) → q (record r { status = invitation_revoked }) ≡ q r)
    → first q rows ≡ none
    → first q (revoke_all olds rows) ≡ none
unfolding revoke_all mark_status
first-revoke_all q [] rows same h = h
first-revoke_all q (o ∷ olds) rows same h =
    first-revoke_all q olds (mark_status o.id invitation_revoked rows) same
      (first-update-none _ q _ rows h same)

-- The tables once the employee and the invitation are there.
abbrev hired_db : Env → InvitationSettings → CreateEmployeeRequest → Db → Db
hired_db env settings input db = record db {
  employees = db.employees ++ new_employee env input ∷ [];
  invitations =
      revoke_pending (env.uuid 1) db.invitations
      ++ new_invitation env settings (env.uuid 1) "link" ∷ [];
}

module _ (env : Env) (settings : InvitationSettings) (input : CreateEmployeeRequest) (actor : ℕ)
    (w : World) (new_id : find_employee_identity (env.uuid 1) w.db ≡ none)
    (new_invitation_id : find_invitation (env.uuid 0) w.db ≡ none)
    (lasts : 0 < settings.expiry_days) where
  insert_employee-new :
      insert_employee (new_employee env input) w.db
      ≡ some (tt, record w.db { employees = w.db.employees ++ new_employee env input ∷ [] })
  unfolding insert_employee insert_unique find_employee_identity
  insert_employee-new = rw (new_id, insert_employee, insert_unique) refl

  insert_invitation-new :
      insert_invitation (new_invitation env settings (env.uuid 1) "link") (record w.db {
        employees = w.db.employees ++ new_employee env input ∷ [];
        invitations = revoke_pending (env.uuid 1) w.db.invitations;
      })
      ≡ some (tt, hired_db env settings input w.db)
  unfolding insert_invitation insert_unique find_invitation find_employee_identity revoke_pending
  insert_invitation-new =
      let valid : ltb env.now (env.now + settings.expiry_days * ms_per_day) ≡ true =
        ground (arith, lasts) in
      let there : first (λ (e : EmployeeRow). e.id == env.uuid 1)
            (w.db.employees ++ new_employee env input ∷ [])
          ≡ some (new_employee env input) =
        first_at_end _ w.db.employees (new_employee env input) new_id (==_self (env.uuid 1)) in
      let free : first (λ (r : InvitationRow). r.id == env.uuid 0)
            (revoke_all (select (is_pending_of (env.uuid 1)) w.db.invitations) w.db.invitations)
          ≡ none =
        first-revoke_all _ _ w.db.invitations (λ r. refl) new_invitation_id in
      rw (valid, there, free) refl

  create_employee-hires :
      ((create_employee env settings input actor w).0
        ≡ ok (
          employee_dto (new_employee env input) (some invitation_pending),
          record {
            id = env.uuid 0;
            token = env.random_token 0;
            expires_at = env.now + settings.expiry_days * ms_per_day;
          },
        ))
      × ((create_employee env settings input actor w).1.db ≡ hired_db env settings input w.db)
  unfolding create_employee create_for_employee ◌>>=◌ run_transaction transaction append pure
  create_employee-hires = (
    rw (insert_employee-new, insert_invitation-new, ◌>>=◌, run_transaction, transaction) refl,
    rw (insert_employee-new, insert_invitation-new, ◌>>=◌, run_transaction, transaction) refl,
  )

  -- The creation of an employee succeeds and shows the token of an invitation, where the drawn ids are
  -- new and invitations last a day at least. Where the token's hash is new too, the first request with
  -- this token before the invitation expires is accepted, in the new employee's name.
  pub create_employee-accepts :
      (later : Env) (form : AcceptForm)
      → find_by_token_hash (settings.hash_token (env.random_token 0)) w.db ≡ none
      → later.now < env.now + settings.expiry_days * ms_per_day
      → let (result, w') = create_employee env settings input actor w in
        (result
          ≡ ok (
            employee_dto (new_employee env input) (some invitation_pending),
            record {
              id = env.uuid 0;
              token = env.random_token 0;
              expires_at = env.now + settings.expiry_days * ms_per_day;
            },
          ))
        × ((accept later settings (env.random_token 0) form w').0 ≡ ok (new_employee env input))
  unfolding find_by_token_hash find_employee_identity token_problem revoke_pending
  create_employee-accepts later form new_hash soon =
      let (shown, there) = create_employee-hires in
      let hash = settings.hash_token (env.random_token 0) in
      let row = new_invitation env settings (env.uuid 1) "link" in
      let found : find_by_token_hash hash (create_employee env settings input actor w).1.db
          ≡ some row =
        rw there (
          first_at_end _ _ row (first-revoke_all _ _ w.db.invitations (λ r. refl) new_hash)
            (==_self hash)) in
      let known : find_employee_identity row.employee_id
            (create_employee env settings input actor w).1.db
          ≡ some (new_employee env input) =
        rw there
          (first_at_end _ w.db.employees (new_employee env input) new_id (==_self (env.uuid 1))) in
      let good : token_problem later.now row ≡ fine = ground (arith, soon) in
      (
        shown,
        ap (λ (p : Result EmployeeRow × World). p.0)
              (accept-fine later settings (env.random_token 0) _ row (new_employee env input) form
                found good known)
            ∙ (accept_commit-db later settings (env.random_token 0) form row
                (new_employee env input) _).0,
      )
