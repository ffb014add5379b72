-- ===== src/Billing/Payment/Money.antt =====
-- The money of a payment: what is booked in the rollups is what is paid.
use mathlib.Core.Option
use smart_table.Prelude.{
  ℕ, ◌+◌, ◌≡◌, refl, some, List, [], ◌∷◌, ◌++◌, map, arith, sum_of, sum_of-append, Option-cases,
  inl, inr, ◌∙◌,
}
use smart_table.Database.{
  EmployeeRow, BillGroupRow, ShiftRow, OrderRow, PaymentRow, RollupBucket, Db, Env, insert_unique,
}
use smart_table.BillingMath.{MoneyTotals, sum_totals}
use smart_table.BillingMath.Laws.{total-sum_totals}
use smart_table.Rollups.{CompletedOrderRollupInput, upsert_completed_order_rollup}
use smart_table.Rollups.Sums.{
  revenue, hourly_revenue, dine_in_revenue, delivery_revenue, revenue-upsert_daily,
  hourly_revenue-upsert_hourly, dine_in_revenue-upsert_daily, delivery_revenue-upsert_daily,
  upsert_completed-tables,
}
use smart_table.Billing.Payment.{
  RecordPaymentInput, RecordPaymentResult, CompletedOrderLine, Settlement, settle_line,
  settle_lines, order_lines, totals_of, settle_group, insert_payment, new_payment,
  get_tax_rate_basis_points, Gate, refuse, charge, pass_gate, payment_gate,
  record_payment_transaction, close_visit, settlement_of, find_open_shift,
}

-- All that has been paid.
abbrev pub paid_minor : List PaymentRow → ℕ
paid_minor = sum_of (λ p. p.amount_minor)

abbrev pub line_total : CompletedOrderLine → ℕ
line_total line = line.totals.total_minor

-- What settling adds to the daily and to the hourly revenue, and how the revenue divides.
pub record Books (s s' : Settlement) (amount : ℕ) : Type 0 where
  pub daily : revenue s'.rollups.daily ≡ revenue s.rollups.daily + amount
  pub hourly : hourly_revenue s'.rollups.hourly ≡ hourly_revenue s.rollups.hourly + amount
  pub channels :
      dine_in_revenue s'.rollups.daily + delivery_revenue s'.rollups.daily
      ≡ dine_in_revenue s.rollups.daily + delivery_revenue s.rollups.daily + amount

upsert_completed-Books :
    (env : Env) (input : CompletedOrderRollupInput) (s s' : Settlement)
    → upsert_completed_order_rollup env input s.rollups ≡ some s'.rollups
    → Books s s' input.order_total_minor
upsert_completed-Books env input s s' h =
    let (d, e) = upsert_completed-tables env input s.rollups s'.rollups h in
    record {
      daily = rw d (revenue-upsert_daily input s.rollups.daily);
      hourly = rw e (hourly_revenue-upsert_hourly input s.rollups.hourly);
      channels = rw d (
          ground (
            arith,
            dine_in_revenue-upsert_daily input s.rollups.daily,
            delivery_revenue-upsert_daily input s.rollups.daily,
          ));
    }

settle_line-Books :
    (env : Env) (actor : ℕ) (bucket : RollupBucket) (line done : CompletedOrderLine)
    (s s' : Settlement)
    → settle_line env actor bucket line s ≡ some (done, s')
    → Books s s' (line_total line)
unfolding settle_line
settle_line-Books env actor bucket line done s s' h =
    upsert_completed-Books env
      (record {
        bucket = bucket;
        now = env.now;
        order_total_minor = line.totals.total_minor;
        channel = line.order.channel;
        items = line.items;
      })
      s s' (ground arith)

pub settle_lines-Books :
    (env : Env) (actor : ℕ) (bucket : RollupBucket) (lines done : List CompletedOrderLine)
    (s s' : Settlement)
    → settle_lines env actor bucket lines s ≡ some (done, s')
    → Books s s' (sum_of line_total lines)
unfolding settle_lines
settle_lines-Books env actor bucket [] done s s' h =
    let e : s ≡ s' = ground arith in
    rw (← e) (record { daily = omega arith; hourly = omega arith; channels = omega arith })
settle_lines-Books env actor bucket (line ∷ lines) done s s' h =
    elim (Option-cases (settle_line env actor bucket line s)) [
      | inl e ↦ absurd (ground arith)
      | inr ((one, t), e) ↦ elim (Option-cases (settle_lines env actor bucket lines t)) [
        | inl f ↦ absurd (ground arith)
        | inr ((rest, u), f) ↦
            let b = settle_line-Books env actor bucket line one s t e in
            let c = settle_lines-Books env actor bucket lines rest t u f in
            let last : u ≡ s' = ground arith in
            rw (← last) (record {
              daily = omega (arith, b.daily, c.daily);
              hourly = omega (arith, b.hourly, c.hourly);
              channels = omega (arith, b.channels, c.channels);
            })
      ]
    ]

-- The books agree: what was paid is the revenue of all days, and of all hours, and the revenue
-- divides into that of the two channels.
pub record IsReconciled (db : Db) : Type 0 where
  pub daily : revenue db.sales_rollup_daily ≡ paid_minor db.payments
  pub hourly : hourly_revenue db.sales_rollup_hourly ≡ paid_minor db.payments
  pub channels :
      dine_in_revenue db.sales_rollup_daily + delivery_revenue db.sales_rollup_daily
      ≡ paid_minor db.payments

insert_payment-paid :
    (p : PaymentRow) (employees : List EmployeeRow) (payments payments' : List PaymentRow)
    → insert_payment p employees payments ≡ some payments'
    → payments' ≡ payments ++ p ∷ []
unfolding insert_payment insert_unique
insert_payment-paid p employees payments payments' h = ground arith

paid-insert_payment :
    (p : PaymentRow) (employees : List EmployeeRow) (payments payments' : List PaymentRow)
    → insert_payment p employees payments ≡ some payments'
    → paid_minor payments' ≡ paid_minor payments + p.amount_minor
paid-insert_payment p employees payments payments' h =
    rw (insert_payment-paid p employees payments payments' h)
      (omega (arith, sum_of-append (λ (q : PaymentRow). q.amount_minor) payments (p ∷ [])))

sum_of-lines :
    (lines : List CompletedOrderLine)
    → sum_of (λ (t : MoneyTotals). t.total_minor) (map totals_of lines) ≡ sum_of line_total lines
sum_of-lines [] = refl
sum_of-lines (l ∷ lines) = omega (arith, sum_of-lines lines)

-- The bill that is charged for some orders.
abbrev pub bill_of : Db → List OrderRow → MoneyTotals
bill_of db billable =
    sum_totals (map totals_of (order_lines (get_tax_rate_basis_points db) billable db.order_items))

-- A settled group adds the total of its bill to the payments and to both rollups alike.
settle_group-IsReconciled :
    (env : Env) (input : RecordPaymentInput) (g : BillGroupRow) (billable : List OrderRow) (db : Db)
    {r : RecordPaymentResult} {db' : Db}
    → settle_group env input g billable db ≡ some (r, db')
    → IsReconciled db
    → IsReconciled db'
unfolding settle_group
settle_group-IsReconciled env input g billable db {r} {db'} h v =
    let lines = order_lines (get_tax_rate_basis_points db) billable db.order_items in
    let shift =
      Option.map (λ (s : ShiftRow). s.id) (find_open_shift input.collected_by_employee_id db) in
    let payment = new_payment env input g (sum_totals (map totals_of lines)) shift in
    elim (Option-cases (insert_payment payment db.employees db.payments)) [
      | inl e ↦ absurd (ground arith)
      | inr (payments, e) ↦
          elim (Option-cases (
            settle_lines env input.collected_by_employee_id (env.rollup_bucket_for env.now) lines
              (settlement_of db))) [
                | inl f ↦ absurd (ground arith)
                | inr ((done, s), f) ↦
                    let b =
                      settle_lines-Books env input.collected_by_employee_id
                        (env.rollup_bucket_for env.now) lines done (settlement_of db) s f in
                    let p = paid-insert_payment payment db.employees db.payments payments e in
                    let t : payment.amount_minor ≡ sum_of line_total lines =
                      total-sum_totals (map totals_of lines) ∙ sum_of-lines lines in
                    elim (Option-cases (close_visit env g db)) [
                      | inl x ↦ absurd (ground arith)
                      | inr ((c, gs, ts), x) ↦
                          let ep : payments ≡ db'.payments = ground arith in
                          let ed : s.rollups.daily ≡ db'.sales_rollup_daily = ground arith in
                          let eh : s.rollups.hourly ≡ db'.sales_rollup_hourly = ground arith in
                          record {
                            daily = rw (← ep, ← ed) (omega (arith, b.daily, v.daily));
                            hourly = rw (← ep, ← eh) (omega (arith, b.hourly, v.hourly));
                            channels = rw (← ep, ← ed) (omega (arith, b.channels, v.channels));
                          }
                    ]
              ]
    ]

pass_gate-IsReconciled :
    (env : Env) (input : RecordPaymentInput) (db : Db) (gate : Gate) {r : RecordPaymentResult}
    {db' : Db}
    → pass_gate env input gate db ≡ some (r, db')
    → IsReconciled db
    → IsReconciled db'
pass_gate-IsReconciled env input db (refuse x) {db' = db'} h v =
    let same : db' ≡ db = ground arith in rw same v
pass_gate-IsReconciled env input db (charge g billable) h v =
    settle_group-IsReconciled env input g billable db h v

-- Recording a payment, whichever way it ends, keeps the sum of all payments equal to the revenue
-- of all days, to the revenue of all hours, and to that of the two channels together.
pub record_payment-IsReconciled :
    (env : Env) (input : RecordPaymentInput) (db : Db) {r : RecordPaymentResult} {db' : Db}
    → record_payment_transaction env input db ≡ some (r, db')
    → IsReconciled db
    → IsReconciled db'
unfolding record_payment_transaction
record_payment-IsReconciled env input db h v =
    pass_gate-IsReconciled env input db (payment_gate input db) h v
