-- ===== src/Invitations/Pending.antt =====
-- At most one invitation of an employee is pending.
pub mod Requests
use smart_table.Prelude.{
  ℕ, ◌≤◌, ◌≡◌, refl, Bool, true, false, ◌&&◌, ◌||◌, not, List, [], ◌∷◌, arith, ◌==◌, ==_self,
  select, count, count_mono, count-update-le, count-update-into, All, All-map, Bool-cases, inl, inr,
}
use smart_table.Domain.{
  InvitationStatus, invitation_pending, invitation_revoked, invitation_status_eq,
}
use smart_table.Database.{InvitationRow, Db}
use smart_table.Invitations.{mark_status, is_pending_of, revoke_all, revoke_pending}

abbrev pub pending_count : ℕ → List InvitationRow → ℕ
pending_count employee_id = count (is_pending_of employee_id)

pub record OnePending (db : Db) : Type 0 where
  pub one : (employee_id : ℕ) → pending_count employee_id db.invitations ≤ 1

abbrev is_among : List InvitationRow → ℕ → Bool
is_among [] id = false
is_among (o ∷ olds) id = o.id == id || is_among olds id

is_among_self : (olds : List InvitationRow) → All (λ o. is_among olds o.id ≡ true) olds
is_among_self [] = tt
is_among_self (o ∷ olds) =
    (ground (arith, ==_self o.id), All-map _ _ olds (λ r h. ground (arith, h)) (is_among_self olds))

-- Every pending row of an employee is among those that are selected.
none_missed :
    (e : ℕ) (olds rows : List InvitationRow)
    → All (λ o. is_among olds o.id ≡ true) (select (is_pending_of e) rows)
    → count (λ r. is_pending_of e r && not (is_among olds r.id)) rows ≡ 0
unfolding select count
none_missed e olds [] all = refl
none_missed e olds (r ∷ rows) all = elim (Bool-cases (is_pending_of e r)) [
  | inl p ↦ let all' = rw (p, select) at all in rw (p, all'.0) (none_missed e olds rows all'.1)
  | inr p ↦ rw p (none_missed e olds rows (rw (p, select) at all))
]

revoke_all-none :
    (e : ℕ) (olds rows : List InvitationRow)
    → count (λ r. is_pending_of e r && not (is_among olds r.id)) rows ≡ 0
    → pending_count e (revoke_all olds rows) ≡ 0
unfolding revoke_all mark_status
revoke_all-none e [] rows h = omega (
  arith,
  count_mono (is_pending_of e) (λ r. is_pending_of e r && not (is_among [] r.id)) rows
      (λ r k. ground (arith, k)),
  h,
)
revoke_all-none e (o ∷ olds) rows h =
    revoke_all-none e olds (mark_status o.id invitation_revoked rows) (
      omega (
        arith,
        count-update-into (λ r. is_pending_of e r && not (is_among (o ∷ olds) r.id))
            (λ r. is_pending_of e r && not (is_among olds r.id)) (λ r. r.id == o.id)
            (λ r. record r { status = invitation_revoked }) rows (λ r k. ground arith)
            (λ r k q. ground (arith, k, q)),
        h,
      ))

pub revoke_pending-none :
    (e : ℕ) (rows : List InvitationRow) → pending_count e (revoke_pending e rows) ≡ 0
unfolding revoke_pending
revoke_pending-none e rows = revoke_all-none e (select (is_pending_of e) rows) rows (
    none_missed e (select (is_pending_of e) rows) rows
      (is_among_self (select (is_pending_of e) rows)))

pub mark_status-le :
    (e id : ℕ) (status : InvitationStatus) (rows : List InvitationRow)
    → invitation_status_eq status invitation_pending ≡ false
    → pending_count e (mark_status id status rows) ≤ pending_count e rows
unfolding mark_status
mark_status-le e id status rows h =
    count-update-le _ _ _ rows (λ r k. absurd (ground (arith, h, k)))

pub revoke_all-le :
    (e : ℕ) (olds rows : List InvitationRow)
    → pending_count e (revoke_all olds rows) ≤ pending_count e rows
unfolding revoke_all
revoke_all-le e [] rows = omega arith
revoke_all-le e (o ∷ olds) rows = omega (
  arith,
  revoke_all-le e olds (mark_status o.id invitation_revoked rows),
  mark_status-le e o.id invitation_revoked rows refl,
)
