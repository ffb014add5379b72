-- ===== src/Visits/Payment.antt =====
-- Paying: it closes the one visit of the table, and only that visit.
use mathlib.Core.Path.{subst}
use native.Mathlib.Decide.{ℕ_discrete}
use smart_table.Prelude.{
  ℕ, ◌≤◌, ◌<◌, ◌≡◌, refl, true, some, List, [], ◌∷◌, ◌==◌, arith, first, count, update, is_some,
  Option-cases, inl, inr, count-update-le, ◌∙◌, sym,
}
use smart_table.Domain.{is_open}
use smart_table.Database.{TableRow, BillGroupRow, OrderRow, Db, Env}
use smart_table.Orders.Repository.{is_open_for}
use smart_table.Billing.Payment.{
  RecordPaymentInput, RecordPaymentResult, Gate, refuse, charge, is_open_group, close_group,
  is_occupied_row, leave_table, close_visit, settle_group, pass_gate, payment_gate,
  record_payment_transaction,
}
use smart_table.Billing.Payment.Refusals.{payment_gate-charge}
use smart_table.Visits.Rows.{open_count, IsSeated, VisitsAgree, status_of-update_ne}

open_count-close_le :
    (t id now : ℕ) (groups : List BillGroupRow)
    → open_count t (update (is_open_group id) (close_group now) groups) ≤ open_count t groups
open_count-close_le t id now groups =
    count-update-le (is_open_for t) (is_open_group id) (close_group now) groups
      (λ r e. ground arith)

open_count-close_lt :
    (id now : ℕ) (groups : List BillGroupRow) (g : BillGroupRow)
    → first (is_open_group id) groups ≡ some g
    → open_count g.table_id (update (is_open_group id) (close_group now) groups)
      < open_count g.table_id groups
unfolding first count update
open_count-close_lt id now [] g h = cc
open_count-close_lt id now (r ∷ groups) g h =
    ground
      (arith, open_count-close_lt id now groups g, open_count-close_le g.table_id id now groups)

-- The group that is found by its id is the one that is closed.
pub first-open_of_id :
    (id : ℕ) (groups : List BillGroupRow) (g : BillGroupRow)
    → first (λ (r : BillGroupRow). r.id == id) groups ≡ some g
    → is_open g.status ≡ true
    → (g.id ≡ id) × (first (is_open_group id) groups ≡ some g)
unfolding first
first-open_of_id id [] g h o = cc
first-open_of_id id (r ∷ groups) g h o = ground (arith, first-open_of_id id groups g)

close_visit_lem :
    (env : Env) (g c : BillGroupRow) (db : Db) (groups : List BillGroupRow) (tables : List TableRow)
    → close_visit env g db ≡ some (c, groups, tables)
    → (groups ≡ update (is_open_group g.id) (close_group env.now) db.table_bill_groups)
      × (tables ≡ update (is_occupied_row g.table_id) (leave_table env.now) db.tables)
      × (is_some (first (is_occupied_row g.table_id) db.tables) ≡ true)
unfolding close_visit
close_visit_lem env g c db groups tables h = ground arith

-- At the table of the closed group there is no visit left; any other table is as it was.
closed-IsSeated :
    (env : Env) (g : BillGroupRow) (db db' : Db) (t : ℕ)
    → first (is_open_group g.id) db.table_bill_groups ≡ some g
    → db'.table_bill_groups ≡ update (is_open_group g.id) (close_group env.now) db.table_bill_groups
    → db'.tables ≡ update (is_occupied_row g.table_id) (leave_table env.now) db.tables
    → IsSeated g.table_id db
    → IsSeated t db
    → IsSeated t db'
closed-IsSeated env g db db' t f eg et vg v = elim (ℕ_discrete t g.table_id) [
  | yes p ↦ rw eg (
      rw p (
        let fewer = open_count-close_lt g.id env.now db.table_bill_groups g f in
        (omega arith, λ some_open. absurd (omega arith))))
  | no p ↦
      rw (eg, et)
        (
          omega (arith, open_count-close_le t g.id env.now db.table_bill_groups),
          λ some_open.
              status_of-update_ne t g.table_id (is_occupied_row g.table_id) (leave_table env.now)
                db.tables p (λ r. refl) (λ r e. ground arith)
              ∙ v.1 (omega (arith, open_count-close_le t g.id env.now db.table_bill_groups)),
        )
]

pub settle_group-visit :
    (env : Env) (input : RecordPaymentInput) (g : BillGroupRow) (billable : List OrderRow) (db : Db)
    {r : RecordPaymentResult} {db' : Db}
    → settle_group env input g billable db ≡ some (r, db')
    → (c : BillGroupRow) × (close_visit env g db ≡ some (c, db'.table_bill_groups, db'.tables))
unfolding settle_group
settle_group-visit env input g billable db h = elim (Option-cases (close_visit env g db)) [
  | inl e ↦ absurd (ground arith)
  | inr (v, e) ↦ (v.0, ground arith)
]

pass_gate-VisitsAgree :
    (env : Env) (input : RecordPaymentInput) (db : Db) (gate : Gate) {r : RecordPaymentResult}
    {db' : Db}
    → payment_gate input db ≡ gate
    → pass_gate env input gate db ≡ some (r, db')
    → VisitsAgree db
    → VisitsAgree db'
pass_gate-VisitsAgree env input db (refuse x) {db' = db'} e h v t =
    let same : db' ≡ db = ground arith in rw same (v t)
pass_gate-VisitsAgree env input db (charge g billable) {db' = db'} e h v t =
    let payable = payment_gate-charge input db g billable e in
    let (i, f) = first-open_of_id _ db.table_bill_groups g payable.found payable.is_group_open in
    let (c, visit) = settle_group-visit env input g billable db h in
    let (eg, et, there) = close_visit_lem env g c db _ _ visit in
    closed-IsSeated env g db db' t
      (subst (λ k. first (is_open_group k) db.table_bill_groups ≡ some g) (sym i) f) eg et
      (v g.table_id) (v t)

-- Recording a payment keeps the floor consistent, whichever way it ends.
pub record_payment-VisitsAgree :
    (env : Env) (input : RecordPaymentInput) (db : Db) {r : RecordPaymentResult} {db' : Db}
    → record_payment_transaction env input db ≡ some (r, db')
    → VisitsAgree db
    → VisitsAgree db'
unfolding record_payment_transaction
record_payment-VisitsAgree env input db h v =
    pass_gate-VisitsAgree env input db (payment_gate input db) refl h v
