-- ===== src/System/Reports.antt =====
-- The reports over the tables that the requests leave: they are balanced, in every period.
use mathlib.Core.Option
use smart_table.Prelude.{
  ℕ, ◌≡◌, Bool, String, some, List, [], ◌∷◌, map, arith, Option-cases, inl, inr, ◌⊎◌,
}
use smart_table.Database.{
  SalesRollupDaily, SalesRollupHourly, BillGroupRow, ShiftRow, OrderRow, RollupBucket, Db, Env,
}
use smart_table.Effects.{World}
use smart_table.Effects.Keeps.{TxKeeps}
use smart_table.BillingMath.{sum_totals}
use smart_table.Rollups.Periods.{
  BalancedOn, upsert_completed-BalancedOn, increment_cancelled-BalancedOn, sum_of-select,
}
use smart_table.Orders.Repository.{TransitionInput, TransitionResult, transition_status_transaction}
use smart_table.Rollups.{increment_cancelled_order_rollup}
use smart_table.Billing.Payment.{
  RecordPaymentInput, RecordPaymentResult, CompletedOrderLine, Settlement, settle_line,
  settle_lines, order_lines, totals_of, settle_group, insert_payment, new_payment,
  get_tax_rate_basis_points, Gate, refuse, charge, pass_gate, payment_gate,
  record_payment_transaction, close_visit, settlement_of, find_open_shift,
}
use smart_table.Tables.{
  create_hall, create_table_tx, regenerate_tx, update_tx, mark_cleaned, new_table,
}
use smart_table.Visits.Floor.{TxKeeps-with_retries}
use smart_table.Analytics.Repository.{
  Runtime, in_dates, find_daily_rollup_rows, find_hourly_rollup_rows,
}
use smart_table.Analytics.Range.{AnalyticsQuery, ResolvedRange}
use smart_table.Analytics.Facts.{aggregate}
use smart_table.Analytics.Balance.{IsBalanced}
use smart_table.Analytics.Balance.History.{AreBalanced, aggregate-IsBalanced}
use smart_table.System.{Request, run}
use smart_table.System.Interface.{KeepsWrites, run_keeps}
use smart_table.System.Frames.{
  SameMoney, create_order-SameMoney, open_shift-frame, close_shift-frame, create_hall-frame,
  insert_table-SameMoney, update_row-SameMoney, mark_cleaned-SameMoney,
}

-- The rollup tables are balanced over every choice of dates.
abbrev pub BalancedPeriods : Db → Type 0
BalancedPeriods db = (p : String → Bool) → BalancedOn p db.sales_rollup_daily db.sales_rollup_hourly

BalancedPeriods-same : (db db' : Db) → SameMoney db db' → BalancedPeriods db → BalancedPeriods db'
BalancedPeriods-same db db' s b p = rw (s.daily, s.hourly) (b p)

module _ (p : String → Bool) where
  settle_line-BalancedOn :
      (env : Env) (actor : ℕ) (bucket : RollupBucket) (line done : CompletedOrderLine)
      (s s' : Settlement)
      → settle_line env actor bucket line s ≡ some (done, s')
      → BalancedOn p s.rollups.daily s.rollups.hourly
      → BalancedOn p s'.rollups.daily s'.rollups.hourly
  unfolding settle_line
  settle_line-BalancedOn env actor bucket line done s s' h =
      upsert_completed-BalancedOn p env
        (record {
          bucket = bucket;
          now = env.now;
          order_total_minor = line.totals.total_minor;
          channel = line.order.channel;
          items = line.items;
        })
        s.rollups s'.rollups (ground arith)

  settle_lines-BalancedOn :
      (env : Env) (actor : ℕ) (bucket : RollupBucket) (lines done : List CompletedOrderLine)
      (s s' : Settlement)
      → settle_lines env actor bucket lines s ≡ some (done, s')
      → BalancedOn p s.rollups.daily s.rollups.hourly
      → BalancedOn p s'.rollups.daily s'.rollups.hourly
  unfolding settle_lines
  settle_lines-BalancedOn env actor bucket [] done s s' h b =
      let e : s ≡ s' = ground arith in rw (← e) b
  settle_lines-BalancedOn env actor bucket (line ∷ lines) done s s' h b =
      elim (Option-cases (settle_line env actor bucket line s)) [
        | inl e ↦ absurd (ground arith)
        | inr ((one, t), e) ↦ elim (Option-cases (settle_lines env actor bucket lines t)) [
          | inl f ↦ absurd (ground arith)
          | inr ((rest, u), f) ↦
              let last : u ≡ s' = ground arith in
              rw (← last) (
                settle_lines-BalancedOn env actor bucket lines rest t u f
                  (settle_line-BalancedOn env actor bucket line one s t e b))
        ]
      ]

settle_group-BalancedPeriods :
    (env : Env) (input : RecordPaymentInput) (g : BillGroupRow) (billable : List OrderRow) (db : Db)
    {r : RecordPaymentResult} {db' : Db}
    → settle_group env input g billable db ≡ some (r, db')
    → BalancedPeriods db
    → BalancedPeriods db'
unfolding settle_group
settle_group-BalancedPeriods env input g billable db {r} {db'} h b p =
    let lines = order_lines (get_tax_rate_basis_points db) billable db.order_items in
    let shift =
      Option.map (λ (s : ShiftRow). s.id) (find_open_shift input.collected_by_employee_id db) in
    let payment = new_payment env input g (sum_totals (map totals_of lines)) shift in
    elim (Option-cases (insert_payment payment db.employees db.payments)) [
      | inl e ↦ absurd (ground arith)
      | inr (payments, e) ↦
          elim (Option-cases (
            settle_lines env input.collected_by_employee_id (env.rollup_bucket_for env.now) lines
              (settlement_of db))) [
                | inl f ↦ absurd (ground arith)
                | inr ((done, s), f) ↦
                    let kept =
                      settle_lines-BalancedOn p env input.collected_by_employee_id
                        (env.rollup_bucket_for env.now) lines done (settlement_of db) s f (b p) in
                    elim (Option-cases (close_visit env g db)) [
                      | inl x ↦ absurd (ground arith)
                      | inr ((c, gs, ts), x) ↦
                          let ed : s.rollups.daily ≡ db'.sales_rollup_daily = ground arith in
                          let eh : s.rollups.hourly ≡ db'.sales_rollup_hourly = ground arith in
                          rw (← ed, ← eh) kept
                    ]
              ]
    ]

pass_gate-BalancedPeriods :
    (env : Env) (input : RecordPaymentInput) (db : Db) (gate : Gate) {r : RecordPaymentResult}
    {db' : Db}
    → pass_gate env input gate db ≡ some (r, db')
    → BalancedPeriods db
    → BalancedPeriods db'
pass_gate-BalancedPeriods env input db (refuse x) {db' = db'} h b =
    let same : db' ≡ db = ground arith in rw same b
pass_gate-BalancedPeriods env input db (charge g billable) h b =
    settle_group-BalancedPeriods env input g billable db h b

-- A transition books a cancellation at most.
transition-rollups :
    (env : Env) (input : TransitionInput) (db db' : Db) {r : TransitionResult}
    → transition_status_transaction env input db ≡ some (r, db')
    → (db'.sales_rollup_daily ≡ db.sales_rollup_daily
        ⊎ db'.sales_rollup_daily
          ≡ increment_cancelled_order_rollup
              (env.rollup_bucket_for env.now)
              env.now
              db.sales_rollup_daily)
      × (db'.sales_rollup_hourly ≡ db.sales_rollup_hourly)
unfolding transition_status_transaction
transition-rollups env input db db' h = (ground arith, ground arith)

transition-BalancedPeriods :
    (env : Env) (input : TransitionInput)
    → TxKeeps BalancedPeriods (transition_status_transaction env input)
transition-BalancedPeriods env input = record {
  commits = λ db {a} {db'} h b p.
      let (daily, hourly) = transition-rollups env input db db' {r = a} h in
      elim daily [
        | inl e ↦ rw (e, hourly) (b p)
        | inr e ↦
            rw (e, hourly)
              (increment_cancelled-BalancedOn p (env.rollup_bucket_for env.now) env.now
                db.sales_rollup_daily db.sales_rollup_hourly (b p))
      ];
}

periods_kept : KeepsWrites BalancedPeriods
periods_kept = record {
  create_order = λ env input. record {
    commits = λ db {a} {db'} h b.
        BalancedPeriods-same db db' (create_order-SameMoney env input db db' {r = a} h) b;
  };
  transition = transition-BalancedPeriods;
  payment = λ env input. record {
    commits = λ db {a} {db'} h b.
        pass_gate-BalancedPeriods env input db (payment_gate input db) {r = a} {db' = db'}
          (unfold record_payment_transaction in h) b;
  };
  open_shift = λ env employee opening. record {
    commits = λ db {a} {db'} h b.
        BalancedPeriods-same db db' (open_shift-frame env employee opening db db' {r = a} h).0 b;
  };
  close_shift = λ env id closing. record {
    commits = λ db {a} {db'} h b.
        BalancedPeriods-same db db' (close_shift-frame env id closing db db' {r = a} h).0 b;
  };
  create_hall = λ env name sort. record {
    at = λ w b.
        BalancedPeriods-same w.db (create_hall env name sort w).1.db
          (create_hall-frame env name sort w).0 b;
  };
  create_table = λ env hall label.
      unfold create_table_tx in
      TxKeeps-with_retries 3 0 _ (λ j db a db' h b.
        BalancedPeriods-same db db' (insert_table-SameMoney (new_table env hall label j) db db' h)
          b);
  regenerate = λ env id.
      unfold regenerate_tx in
      TxKeeps-with_retries 3 0 _
        (λ j db a db' h b. BalancedPeriods-same db db' (update_row-SameMoney env id _ db db' h) b);
  update_table = λ env id c calm. record {
    commits = λ db {a} {db'} h b.
        BalancedPeriods-same db db'
          (update_row-SameMoney env id c db db' {a = a} (unfold update_tx in ground arith)) b;
  };
  mark_cleaned = λ env id. record {
    at = λ w b.
        BalancedPeriods-same w.db (mark_cleaned env id w).1.db (mark_cleaned-SameMoney env id w) b;
  };
}

-- What a query of the rollups finds is balanced, if the tables are over its period.
periods-AreBalanced :
    (rt : Runtime) (db : Db)
    → BalancedPeriods db
    → (f t : String)
    → AreBalanced (find_daily_rollup_rows rt f t db) (find_hourly_rollup_rows rt f t db)
unfolding find_daily_rollup_rows find_hourly_rollup_rows
periods-AreBalanced rt db b f t =
    let p = in_dates rt f t in
    let on = b p in
    let days = λ (g : SalesRollupDaily → ℕ).
      sum_of-select g (λ (row : SalesRollupDaily). p row.date) db.sales_rollup_daily in
    let hours = λ (g : SalesRollupHourly → ℕ).
      sum_of-select g (λ (row : SalesRollupHourly). p row.date) db.sales_rollup_hourly in
    record {
      row_channels = omega (
        arith,
        on.channels_on,
        days (λ row. row.dine_in_revenue_minor),
        days (λ row. row.delivery_revenue_minor),
        days (λ row. row.total_revenue_minor),
      );
      row_hours = omega (
        arith,
        on.hours_on,
        hours (λ row. row.revenue_minor),
        days (λ row. row.total_revenue_minor),
      );
      row_orders =
          omega
            (arith, on.orders_on, hours (λ row. row.orders_count), days (λ row. row.total_orders));
    }

-- Let the rollup tables be balanced over every choice of dates: the two channels and the hours add
-- up to the days. After any sequence of requests, each run in one piece and each either succeeding
-- or throwing, the aggregates of any query over any range, with or without an employee, are
-- balanced: the two channels, the days and the hours each add up to the revenue, the days and the
-- hours to the number of orders, and the products and the categories to the same quantity and the
-- same merchandise.
pub aggregate-run-IsBalanced :
    (rs : List (Env × Request)) (w : World) (env : Env) (rt : Runtime) (q : AnalyticsQuery)
    (range : ResolvedRange)
    → BalancedPeriods w.db
    → IsBalanced (aggregate env rt q range (run rs w).db)
aggregate-run-IsBalanced rs w env rt q range b =
    aggregate-IsBalanced env rt q range (run rs w).db
      (periods-AreBalanced rt (run rs w).db (run_keeps periods_kept rs w b))
