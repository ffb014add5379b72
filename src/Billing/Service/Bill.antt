-- ===== src/Billing/Service/Bill.antt =====
-- The bill: what it lists, and that the bill shown after a payment is the one that was paid.
use smart_table.Prelude.{
  ℕ, ◌≡◌, inl, inr, refl, none, some, List, [], ◌∷◌, ◌++◌, map, arith, select, ◌==◌, Option-cases,
  ap, ◌∙◌, sym,
}
use smart_table.Domain.{completed, includes}
use smart_table.Database.{
  OrderRow, OrderItemRow, BillGroupRow, RollupBucket, Db, Env, insert_unique,
}
use smart_table.BillingMath.{compute_order_totals, sum_totals}
use smart_table.Billing.Payment.{
  CompletedOrderLine, RecordPaymentInput, RecordedPayment, recorded, Settlement, Gate, refuse,
  charge, settle_line, settle_lines, order_line, order_lines, totals_of, line_item, settle_group,
  pass_gate, payment_gate, record_payment_transaction, get_tax_rate_basis_points, settlement_of,
  insert_payment,
}
use smart_table.Billing.Payment.Money.{bill_of}
use smart_table.Billing.Payment.Refusals.{payment_gate-refuse}
use smart_table.Billing.Service.{
  as_order_with_items, assemble_bill, bill_after, is_listed, is_billable, totals_at,
}

-- A line whose order is completed, and whose totals are those of its items.
record IsSettled (bps : ℕ) (line : CompletedOrderLine) : Type 0 where
  done : line.order.status ≡ completed
  priced : line.totals ≡ compute_order_totals (map line_item line.items) bps

settle_line-IsSettled :
    (env : Env) (actor : ℕ) (bucket : RollupBucket) (line line' : CompletedOrderLine)
    (s s' : Settlement)
    → settle_line env actor bucket line s ≡ some (line', s')
    → (line'.order.status ≡ completed) × (line'.items ≡ line.items) × (line'.totals ≡ line.totals)
unfolding settle_line
settle_line-IsSettled env actor bucket line line' s s' h = ground arith

abbrev AllSettled : ℕ → List CompletedOrderLine → Type 0
AllSettled bps [] = Unit
AllSettled bps (l ∷ ls) = IsSettled bps l × AllSettled bps ls

settle_lines-AllSettled :
    (env : Env) (actor bps : ℕ) (bucket : RollupBucket) (orders : List OrderRow)
    (items : List OrderItemRow) (lines' : List CompletedOrderLine) (s s' : Settlement)
    → settle_lines env actor bucket (map (order_line bps items) orders) s ≡ some (lines', s')
    → AllSettled bps lines'
      × (map totals_of lines' ≡ map totals_of (map (order_line bps items) orders))
unfolding settle_lines
settle_lines-AllSettled env actor bps bucket [] items lines' s s' h =
    let e : [] ≡ lines' = ground arith in rw (← e) (tt, refl)
settle_lines-AllSettled env actor bps bucket (o ∷ os) items lines' s s' h =
    elim (Option-cases (settle_line env actor bucket (order_line bps items o) s)) [
      | inl e ↦ absurd (ground arith)
      | inr ((l, t), e) ↦
          elim (Option-cases (settle_lines env actor bucket (map (order_line bps items) os) t)) [
            | inl f ↦ absurd (ground arith)
            | inr ((rest, u), f) ↦
                let (done, same_items, same_totals) =
                  settle_line-IsSettled env actor bucket (order_line bps items o) l s t e in
                let (ih, eq) = settle_lines-AllSettled env actor bps bucket os items rest t u f in
                let last : l ∷ rest ≡ lines' = ground arith in
                rw (← last) (
                  (
                    record {
                      done = done;
                      priced = unfold order_line in rw (same_totals, same_items) refl;
                    },
                    ih,
                  ),
                  rw (same_totals, eq) refl,
                )
          ]
    ]

-- The bill assembled over settled lines takes every one of them in.
bill-AllSettled :
    (bps : ℕ) (lines : List CompletedOrderLine)
    → AllSettled bps lines
    → map (totals_at bps) (select is_billable (select is_listed (map as_order_with_items lines)))
      ≡ map totals_of lines
unfolding select
bill-AllSettled bps [] h = refl
bill-AllSettled bps (l ∷ ls) h = ground (arith, h.0.done, h.0.priced, bill-AllSettled bps ls h.1)

settle_group-bill :
    (env : Env) (input : RecordPaymentInput) (g : BillGroupRow) (billable : List OrderRow)
    (db db' : Db) (p : RecordedPayment)
    → settle_group env input g billable db ≡ some (recorded p, db')
    → AllSettled p.tax_basis_points p.per_order
      × (p.bill_totals ≡ sum_totals (map totals_of p.per_order))
      × (p.payment.amount_minor ≡ p.bill_totals.total_minor)
      × (db'.payments ≡ db.payments ++ p.payment ∷ [])
unfolding settle_group
settle_group-bill env input g billable db db' p h =
    let bps = get_tax_rate_basis_points db in
    let ids = map (λ (o : OrderRow). o.id) billable in
    let items = select (λ (i : OrderItemRow). includes ◌==◌ ids i.order_id) db.order_items in
    let bucket = env.rollup_bucket_for env.now in
    elim (Option-cases (
      settle_lines env input.collected_by_employee_id bucket
        (order_lines bps billable db.order_items) (settlement_of db))) [
          | inl e ↦ absurd (ground arith)
          | inr ((lines, s), e) ↦
              let (settled, same) =
                settle_lines-AllSettled env input.collected_by_employee_id bps bucket billable items
                  lines (settlement_of db) s (unfold order_lines in e) in
              let el : lines ≡ p.per_order = ground arith in
              let eb : bps ≡ p.tax_basis_points = ground arith in
              let et : sum_totals (map totals_of (order_lines bps billable db.order_items))
                  ≡ p.bill_totals =
                ground arith in
              (
                rw (← el, ← eb) settled,
                rw (← et, ← el) (sym (ap sum_totals (unfold order_lines in same))),
                ground arith,
                unfold insert_payment insert_unique in ground arith,
              )
        ]

pass_gate-bill :
    (env : Env) (input : RecordPaymentInput) (gate : Gate) (db db' : Db) (p : RecordedPayment)
    → payment_gate input db ≡ gate
    → pass_gate env input gate db ≡ some (recorded p, db')
    → AllSettled p.tax_basis_points p.per_order
      × (p.bill_totals ≡ sum_totals (map totals_of p.per_order))
      × (p.payment.amount_minor ≡ p.bill_totals.total_minor)
      × (db'.payments ≡ db.payments ++ p.payment ∷ [])
pass_gate-bill env input (refuse r) db db' p e h =
    let same : r ≡ recorded p = ground arith in
    absurd (payment_gate-refuse input db p (e ∙ ap refuse same))
pass_gate-bill env input (charge g billable) db db' p e h =
    settle_group-bill env input g billable db db' p h

-- When a payment is recorded, it is added to the payments, and the bill that the answer shows has
-- as its total the amount of the payment, although it is computed a second time, from the orders
-- and items as they are after the payment.
pub bill_after-paid :
    (env : Env) (input : RecordPaymentInput) (db db' : Db) (p : RecordedPayment)
    → record_payment_transaction env input db ≡ some (recorded p, db')
    → ((bill_after p).total_minor ≡ p.payment.amount_minor)
      × (db'.payments ≡ db.payments ++ p.payment ∷ [])
unfolding record_payment_transaction bill_after assemble_bill
bill_after-paid env input db db' p h =
    let (settled, bill, amount, grown) =
      pass_gate-bill env input (payment_gate input db) db db' p refl h in
    let lines = bill-AllSettled p.tax_basis_points p.per_order settled in
    (
      ap (λ ts. (sum_totals ts).total_minor) lines
          ∙ ap (λ t. t.total_minor) (sym bill)
          ∙ sym amount,
      grown,
    )

-- A visit whose orders are all free cannot be paid: if the bill of the orders to charge is 0, the
-- transaction throws, so the visit stays open and its table occupied.
pub free_visit_unpayable :
    (env : Env) (input : RecordPaymentInput) (db : Db) (g : BillGroupRow) (billable : List OrderRow)
    → payment_gate input db ≡ charge g billable
    → (bill_of db billable).total_minor ≡ 0
    → record_payment_transaction env input db ≡ none
unfolding record_payment_transaction settle_group insert_payment
free_visit_unpayable env input db g billable e z = ground arith
