-- ===== src/Invitations/Race.antt =====
-- The window in `accept` between the check of the token and the transaction, while the credentials are
-- hashed: the transaction does not look at the status again.
use smart_table.Prelude.{
  ℕ, ◌+◌, ◌≡◌, refl, ◌∙◌, true, some, [], ◌∷◌, ◌++◌, arith, ◌==◌, ==_self, length, length-append,
  first, first-update_keep,
}
use smart_table.Domain.{
  invitation_pending, invitation_accepted_once, invitation_revoked, invitation_status_eq, ok,
}
use smart_table.Database.{EmployeeRow, InvitationRow, Env, transaction}
use smart_table.Effects.{World, ◌>>=◌, query, required, throw_if, run_transaction, append}
use smart_table.Invitations.{
  InvitationSettings, find_by_token_hash, find_invitation, find_employee_identity, token_problem,
  fine, accept_check, accept_commit, AcceptForm, revoke, mark_status,
}
use smart_table.Invitations.SingleUse.{accept_check-fine, accept_commit-db}

module _ (settings : InvitationSettings) (token : ℕ) (w : World) (r : InvitationRow)
    (e : EmployeeRow) (found : find_by_token_hash (settings.hash_token token) w.db ≡ some r)
    (known : find_employee_identity r.employee_id w.db ≡ some e) where
  -- Two requests with the same token, which is good for both, check it before either commits. Both pass
  -- the check and both are answered with success: the token is used twice, and two devices are
  -- logged in.
  pub overlapping_accepts :
      (env env' : Env) (form form' : AcceptForm)
      → token_problem env.now r ≡ fine
      → token_problem env'.now r ≡ fine
      → (accept_check env settings token w ≡ (ok (r, e), w))
        × (accept_check env' settings token w ≡ (ok (r, e), w))
        × ((accept_commit env form r e w).0 ≡ ok e)
        × ((accept_commit env' form' r e (accept_commit env form r e w).1).0 ≡ ok e)
        × (length
              (accept_commit env' form' r e (accept_commit env form r e w).1).1.db.refresh_tokens
            ≡ length w.db.refresh_tokens + 2)
  overlapping_accepts env env' form form' p p' =
      let first_commit = accept_commit-db env settings token form r e w in
      let second_commit =
        accept_commit-db env' settings token form' r e (accept_commit env form r e w).1 in
      (
        accept_check-fine env settings token w r e found p known,
        accept_check-fine env' settings token w r e found p' known,
        first_commit.0,
        second_commit.0,
        rw (second_commit.1, first_commit.1)
            (omega (
              arith,
              length-append (w.db.refresh_tokens ++ _ ∷ []) (_ ∷ []),
              length-append w.db.refresh_tokens (_ ∷ []),
            )),
      )

  revoke-marks :
      (actor : ℕ)
      → find_invitation r.id w.db ≡ some r
      → invitation_status_eq r.status invitation_pending ≡ true
      → ((revoke r.id actor w).0 ≡ ok tt)
        × ((revoke r.id actor w).1.db
            ≡ record w.db { invitations = mark_status r.id invitation_revoked w.db.invitations })
  unfolding revoke ◌>>=◌ query required throw_if run_transaction transaction append
  revoke-marks actor f p = (
    rw (f, p, ◌>>=◌, query, required, throw_if) refl,
    rw (f, p, ◌>>=◌, query, required, throw_if) refl,
  )

  -- A request checks a token that is good, the owner revokes the invitation, and the request commits.
  -- The revocation is answered with success, and so is the acceptance, which overwrites it: the token
  -- resolves to an invitation that has been accepted.
  pub revoked_accept :
      (env : Env) (form : AcceptForm) (actor : ℕ)
      → token_problem env.now r ≡ fine
      → find_invitation r.id w.db ≡ some r
      → invitation_status_eq r.status invitation_pending ≡ true
      → (accept_check env settings token w ≡ (ok (r, e), w))
        × ((revoke r.id actor w).0 ≡ ok tt)
        × ((accept_commit env form r e (revoke r.id actor w).1).0 ≡ ok e)
        × (find_by_token_hash
              (settings.hash_token token)
              (accept_commit env form r e (revoke r.id actor w).1).1.db
            ≡ some (record r { status = invitation_accepted_once; accepted_at = some env.now }))
  unfolding find_by_token_hash mark_status
  revoked_accept env form actor p f pending =
      let revoked = revoke-marks actor f pending in
      let committed = accept_commit-db env settings token form r e (revoke r.id actor w).1 in
      let hash = settings.hash_token token in
      let after_revoke : first (λ (s : InvitationRow). s.token_hash == hash)
            (mark_status r.id invitation_revoked w.db.invitations)
          ≡ some (record r { status = invitation_revoked }) =
        first-update_keep (λ (s : InvitationRow). s.token_hash == hash) _ _ w.db.invitations r
          (λ s. refl) found
        ∙ rw (==_self r.id) refl in
      (
        accept_check-fine env settings token w r e found p known,
        revoked.0,
        committed.0,
        rw (committed.1, revoked.1)
            (first-update_keep (λ (s : InvitationRow). s.token_hash == hash) _ _ _ _ (λ s. refl)
                after_revoke
              ∙ rw (==_self r.id) refl),
      )
