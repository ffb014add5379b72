-- ===== src/Visits/Race.antt =====
-- `markCleaned` reads the table in one statement and writes it in another, and the write does not
-- look at the status again. Between the two, other requests run.
use smart_table.Prelude.{
  ℕ, ◌<◌, ◌≡◌, ◌≢◌, refl, sym, ap, ◌∙◌, none, some, List, [], ◌∷◌, ◌==◌, arith, first, update,
}
use smart_table.Domain.{available}
use smart_table.Database.{TableRow, BillGroupRow, OrderRow, Db, Env}
use smart_table.Effects.{World, ◌>>=◌}
use smart_table.Orders.Repository.{find_table_by_id}
use smart_table.Billing.Payment.{
  RecordPaymentInput, RecordedPayment, recorded, Gate, refuse, charge, is_occupied_row, close_visit,
  settle_group, pass_gate, payment_gate, record_payment_transaction,
}
use smart_table.Billing.Payment.Refusals.{payment_gate-refuse}
use smart_table.Tables.{
  no_changes, has_id, change_table, update_table_row, update_tx, write_cleaned,
}
use smart_table.Visits.Rows.{open_count, occupied_found, VisitsAgree}
use smart_table.Visits.Payment.{settle_group-visit}

-- No row of the table is occupied after the write.
none_occupied :
    (env : Env) (id : ℕ) (tables : List TableRow)
    → first (is_occupied_row id) (
        update
          (has_id id)
          (change_table env (record no_changes { status = some available }))
          tables)
      ≡ none
unfolding first update change_table
none_occupied env id [] = refl
none_occupied env id (r ∷ rows) = ground (arith, none_occupied env id rows)

none_in_absent :
    (id : ℕ) (tables : List TableRow)
    → first (λ (t : TableRow). t.id == id) tables ≡ none
    → first (is_occupied_row id) tables ≡ none
unfolding first
none_in_absent id [] h = refl
none_in_absent id (r ∷ rows) h = ground (arith, none_in_absent id rows)

written_occupied :
    (env : Env) (id : ℕ) (existing : TableRow) (w : World)
    → first (is_occupied_row id) (write_cleaned env id existing w).1.db.tables ≡ none
unfolding write_cleaned update_tx update_table_row find_table_by_id ◌>>=◌
written_occupied env id existing w =
    ground (arith, none_occupied env id w.db.tables, none_in_absent id w.db.tables)

unpaid_at :
    (env : Env) (input : RecordPaymentInput) (g : BillGroupRow) (billable : List OrderRow)
    (db db' : Db) (p : RecordedPayment)
    → first (is_occupied_row g.table_id) db.tables ≡ none
    → settle_group env input g billable db ≡ some (recorded p, db')
    → ⊥
unpaid_at env input g billable db db' p free h =
    let (c, visit) = settle_group-visit env input g billable db h in
    unfold close_visit in ground arith

settle_group-table :
    (env : Env) (input : RecordPaymentInput) (g : BillGroupRow) (billable : List OrderRow)
    (db db' : Db) (p : RecordedPayment)
    → settle_group env input g billable db ≡ some (recorded p, db')
    → p.table_id ≡ g.table_id
unfolding settle_group
settle_group-table env input g billable db db' p h = ground arith

groups_kept :
    (env : Env) (id : ℕ) (existing : TableRow) (w : World)
    → (write_cleaned env id existing w).1.db.table_bill_groups ≡ w.db.table_bill_groups
unfolding write_cleaned update_tx update_table_row ◌>>=◌
groups_kept env id existing w = ground arith

-- If a visit has begun at the table by the time that the second step of `markCleaned` runs, the
-- floor is not consistent after it: the visit is left open at a table that is not occupied.
pub stale_mark_cleaned :
    (env : Env) (id : ℕ) (existing : TableRow) (w : World)
    → 0 < open_count id w.db.table_bill_groups
    → ¬ VisitsAgree (write_cleaned env id existing w).1.db
stale_mark_cleaned env id existing w some_open v =
    occupied_found id (write_cleaned env id existing w).1.db.tables
      ((v id).1 (rw (groups_kept env id existing w) some_open)) (written_occupied env id existing w)

-- After the second step of `markCleaned`, in whatever state it runs, no payment for a visit at the
-- table can be recorded.
pub stale_mark_cleaned-unpayable :
    (env env' : Env) (id : ℕ) (existing : TableRow) (w : World) (input : RecordPaymentInput)
    (p : RecordedPayment) (db' : Db)
    → p.table_id ≡ id
    → record_payment_transaction env' input (write_cleaned env id existing w).1.db
      ≢ some (recorded p, db')
stale_mark_cleaned-unpayable env env' id existing w input p db' at h =
    go (payment_gate input after) refl (unfold record_payment_transaction in h)
  where
    after : Db
    after = (write_cleaned env id existing w).1.db

    go :
        (gate : Gate)
        → payment_gate input after ≡ gate
        → pass_gate env' input gate after ≡ some (recorded p, db')
        → ⊥
    go (refuse r) e h =
        let same : r ≡ recorded p = ground arith in
        absurd (payment_gate-refuse input after p (e ∙ ap refuse same))
    go (charge g billable) e h =
        unpaid_at env' input g billable after db' p
          (rw (sym (settle_group-table env' input g billable after db' p h) ∙ at)
            (written_occupied env id existing w))
          h
