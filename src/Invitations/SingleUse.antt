-- ===== src/Invitations/SingleUse.antt =====
-- A token is used once, as long as requests do not overlap; and what happens when they do.
use smart_table.Prelude.{
  ℕ, ◌≡◌, refl, ◌∙◌, none, some, [], ◌∷◌, ◌++◌, arith, ◌==◌, ==_self, first-update_keep,
  Option-cases, inl, inr,
}
use smart_table.Domain.{
  invitation_accepted_once, entity_not_found, already_accepted, expired, ok, err,
}
use smart_table.Database.{EmployeeRow, InvitationRow, Db, Env, transaction}
use smart_table.Effects.{
  World, pure, throw, query, required, run_transaction, append, emit, continue, ◌>>=◌,
}
use smart_table.Invitations.{
  InvitationSettings, TokenProblem, token_not_found, find_by_token_hash, find_employee_identity,
  token_problem, refuse_token, fine, unresolved, used, too_old, validate_token_for_use,
  accept_check, accept_commit, accept, acceptance, AcceptForm, accept_transaction, set_accepted,
  set_credentials,
}

abbrev pub accepted_db : Env → AcceptForm → InvitationRow → EmployeeRow → Db → Db
accepted_db env form r e db = record db {
  employees = set_credentials (acceptance env form r e) db.employees;
  invitations = set_accepted (acceptance env form r e) db.invitations;
  refresh_tokens =
      db.refresh_tokens
      ++ record {
        employee_id = e.id;
        device_label = form.device_label;
        token_hash = form.device_token_hash;
      }
        ∷ [];
}

module _ (env : Env) (settings : InvitationSettings) (token : ℕ) where
  pub accept_check-fine :
      (w : World) (r : InvitationRow) (e : EmployeeRow)
      → find_by_token_hash (settings.hash_token token) w.db ≡ some r
      → token_problem env.now r ≡ fine
      → find_employee_identity r.employee_id w.db ≡ some e
      → accept_check env settings token w ≡ (ok (r, e), w)
  unfolding accept_check validate_token_for_use refuse_token ◌>>=◌ pure throw query required
  accept_check-fine w r e f p k = rw (f, p, k, ◌>>=◌, query, required, refuse_token) refl

  accept-used :
      (w : World) (r : InvitationRow) (id : ℕ) (form : AcceptForm)
      → find_by_token_hash (settings.hash_token token) w.db ≡ some r
      → token_problem env.now r ≡ used id
      → accept env settings token form w ≡ (err (already_accepted id), w)
  unfolding accept accept_check validate_token_for_use refuse_token ◌>>=◌ pure throw query required
  accept-used w r id form f p = rw (f, p, ◌>>=◌, query, required, refuse_token) refl

  pub accept_commit-db :
      (form : AcceptForm) (r : InvitationRow) (e : EmployeeRow) (w : World)
      → ((accept_commit env form r e w).0 ≡ ok e)
        × ((accept_commit env form r e w).1.db ≡ accepted_db env form r e w.db)
  unfolding accept_commit ◌>>=◌ pure append emit run_transaction transaction accept_transaction
  accept_commit-db form r e w = (refl, refl)

  pub accept-fine :
      (w : World) (r : InvitationRow) (e : EmployeeRow) (form : AcceptForm)
      → find_by_token_hash (settings.hash_token token) w.db ≡ some r
      → token_problem env.now r ≡ fine
      → find_employee_identity r.employee_id w.db ≡ some e
      → accept env settings token form w ≡ accept_commit env form r e w
  unfolding accept ◌>>=◌
  accept-fine w r e form f p k = rw (accept_check-fine w r e f p k, continue) refl

  accept-unknown :
      (w : World) (form : AcceptForm)
      → find_by_token_hash (settings.hash_token token) w.db ≡ none
      → (accept env settings token form w).0 ≡ err token_not_found
  unfolding accept accept_check validate_token_for_use ◌>>=◌ query required
  accept-unknown w form f = rw (f, ◌>>=◌, query, required) refl

  accept-problem :
      (w : World) (form : AcceptForm) (r : InvitationRow) (shown : EmployeeRow) (p : TokenProblem)
      → find_by_token_hash (settings.hash_token token) w.db ≡ some r
      → token_problem env.now r ≡ p
      → (accept env settings token form w).0 ≡ ok shown
      → p ≡ fine
  unfolding accept accept_check validate_token_for_use refuse_token ◌>>=◌ pure throw query required
      run_transaction transaction
  accept-problem w form r shown fine f p h = refl
  accept-problem w form r shown unresolved f p h =
      let e : (accept env settings token form w).0 ≡ err token_not_found =
        rw (f, p, ◌>>=◌, query, required, refuse_token) refl in
      absurd (ground arith)
  accept-problem w form r shown (used id) f p h =
      let e : (accept env settings token form w).0 ≡ err (already_accepted id) =
        rw (f, p, ◌>>=◌, query, required, refuse_token) refl in
      absurd (ground arith)
  accept-problem w form r shown (too_old id) f p h =
      let e : (accept env settings token form w).0 ≡ err (expired id) =
        rw (f, p, ◌>>=◌, query, required, refuse_token) refl in
      absurd (ground arith)

  accept-no_employee :
      (w : World) (r : InvitationRow) (form : AcceptForm)
      → find_by_token_hash (settings.hash_token token) w.db ≡ some r
      → token_problem env.now r ≡ fine
      → find_employee_identity r.employee_id w.db ≡ none
      → (accept env settings token form w).0 ≡ err (entity_not_found "employee" r.employee_id)
  unfolding accept accept_check validate_token_for_use refuse_token ◌>>=◌ pure query required
  accept-no_employee w r form f p k = rw (f, p, k, ◌>>=◌, query, required, refuse_token) refl

  -- What an acceptance that succeeds has found.
  accept-inverts :
      (w : World) (form : AcceptForm) (shown : EmployeeRow)
      → (accept env settings token form w).0 ≡ ok shown
      → (r : InvitationRow) × (e : EmployeeRow) × (find_by_token_hash
            (settings.hash_token token)
            w.db
          ≡ some r)
        × (token_problem env.now r ≡ fine)
        × (find_employee_identity r.employee_id w.db ≡ some e)
  accept-inverts w form shown h =
      elim (Option-cases (find_by_token_hash (settings.hash_token token) w.db)) [
        | inl n ↦ absurd (ground (arith, accept-unknown w form n))
        | inr (r, f) ↦
            let p = accept-problem w form r shown (token_problem env.now r) f refl h in
            elim (Option-cases (find_employee_identity r.employee_id w.db)) [
              | inl n ↦ absurd (ground (arith, accept-no_employee w r form f p n))
              | inr (e, k) ↦ (r, e, f, p, k)
            ]
      ]

pub find-accepted :
    (hash : ℕ) (env : Env) (form : AcceptForm) (r : InvitationRow) (e : EmployeeRow) (db : Db)
    → find_by_token_hash hash db ≡ some r
    → find_by_token_hash hash (accepted_db env form r e db)
      ≡ some (record r { status = invitation_accepted_once; accepted_at = some env.now })
unfolding find_by_token_hash
find-accepted hash env form r e db f =
    first-update_keep (λ (s : InvitationRow). s.token_hash == hash) _ _ db.invitations r (λ s. refl)
      f
    ∙ rw (==_self r.id) refl

token_problem-accepted :
    (now t : ℕ) (r : InvitationRow)
    → token_problem now (record r { status = invitation_accepted_once; accepted_at = some t })
      ≡ used r.id
unfolding token_problem
token_problem-accepted now t r = refl

-- Once a token is accepted, whoever asks with it next is refused, at any time and with any credentials:
-- the invitation has been accepted. The request changes nothing.
pub accept_again :
    (env later : Env) (settings : InvitationSettings) (token : ℕ) (form form' : AcceptForm)
    (w : World) (shown : EmployeeRow)
    → (accept env settings token form w).0 ≡ ok shown
    → (id : ℕ) × (accept later settings token form' (accept env settings token form w).1
        ≡ (err (already_accepted id), (accept env settings token form w).1))
accept_again env later settings token form form' w shown h =
    let (r, e, f, p, k) = accept-inverts env settings token w form shown h in
    let w' = (accept_commit env form r e w).1 in
    let same : accept env settings token form w ≡ accept_commit env form r e w =
      accept-fine env settings token w r e form f p k in
    let found : find_by_token_hash (settings.hash_token token) w'.db
        ≡ some (record r { status = invitation_accepted_once; accepted_at = some env.now }) =
      rw (accept_commit-db env settings token form r e w).1
        (find-accepted (settings.hash_token token) env form r e w.db f) in
    (
      r.id,
      rw same (
          accept-used later settings token w' _ r.id form' found
            (token_problem-accepted later.now env.now r)),
    )
