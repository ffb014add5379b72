-- ===== src/Billing/Payment/Charging.antt =====
-- Steps 3 to 9 of `recordPaymentTransaction` of billing.repository.ts.
use mathlib.Core.Option
use smart_table.Prelude.{
  ℕ, Bool, ◌&&◌, Option, none, some, List, [], ◌∷◌, ◌++◌, map, ◌==◌, if◌then◌else◌, select, first,
  update,
}
use smart_table.Domain.{
  occupied, needs_cleaning, closed_group, OrderStatus, served, paid, completed, cash, is_open,
  shift_is_open, table_status_eq, includes,
}
use smart_table.Database.{
  EmployeeRow, has_employee, TableRow, BillGroupRow, OrderRow, OrderItemRow, OrderStatusEventRow,
  PaymentRow, ShiftRow, RollupBucket, Db, Env, Tx, insert_unique,
}
use smart_table.BillingMath.{BillLineItem, MoneyTotals, compute_order_totals, sum_totals}
use smart_table.Rollups.{Rollups, upsert_completed_order_rollup}
use smart_table.Orders.Repository.{is_order_in}
use smart_table.Billing.Payment.Admission.{
  CompletedOrderLine, RecordPaymentInput, RecordPaymentResult, recorded, Gate, refuse, charge,
  payment_gate, get_tax_rate_basis_points,
}

-- Step 3: the items of the billable orders, and the lines of the bill.
abbrev pub line_item : OrderItemRow → BillLineItem
line_item i = record {
  unit_price_minor_snapshot = i.unit_price_minor_snapshot;
  quantity = i.quantity;
}

unfoldable pub order_line : ℕ → List OrderItemRow → OrderRow → CompletedOrderLine
order_line bps all_items order =
    let items = select (λ (i : OrderItemRow). i.order_id == order.id) all_items in
    record { order = order; items = items; totals = compute_order_totals (map line_item items) bps }

unfoldable pub order_lines : ℕ → List OrderRow → List OrderItemRow → List CompletedOrderLine
order_lines bps billable order_items =
    let billable_ids = map (λ (o : OrderRow). o.id) billable in
    map (order_line bps (select (λ i. includes ◌==◌ billable_ids i.order_id) order_items)) billable

abbrev pub totals_of : CompletedOrderLine → MoneyTotals
totals_of line = line.totals

-- Step 4.
unfoldable pub find_open_shift : ℕ → Db → Option ShiftRow
find_open_shift employee_id db =
    first (λ s. s.employee_id == employee_id && shift_is_open s.status) db.shifts

-- Steps 6 and 7, for one order: served → paid → completed, an event for each, and the rollups.
pub record Settlement : Type 0 where
  pub orders : List OrderRow
  pub events : List OrderStatusEventRow
  pub rollups : Rollups

abbrev pub move_to : OrderStatus → ℕ → OrderRow → OrderRow
move_to status now o = record o { status = status; updated_at = now }

abbrev pub moved_event : Env → ℕ → ℕ → OrderStatus → OrderStatus → OrderStatusEventRow
moved_event env actor order_id from to = record {
  order_id = order_id;
  from_status = some from;
  to_status = to;
  actor_employee_id = some actor;
  created_at = env.now;
}

-- A missing row means corrupted control flow, on which the transaction throws.
unfoldable pub settle_line :
    Env
    → ℕ
    → RollupBucket
    → CompletedOrderLine
    → Settlement
    → Option (CompletedOrderLine × Settlement)
settle_line env actor bucket line s =
    let id = line.order.id in
    elim (first (is_order_in id served) s.orders) [
      | none ↦ none
      | some _ ↦
          let paid_orders = update (is_order_in id served) (move_to paid env.now) s.orders in
          elim (first (is_order_in id paid) paid_orders) [
            | none ↦ none
            | some row ↦
                elim (upsert_completed_order_rollup env
                  (record {
                    bucket = bucket;
                    now = env.now;
                    order_total_minor = line.totals.total_minor;
                    channel = line.order.channel;
                    items = line.items;
                  })
                  s.rollups) [
                    | none ↦ none
                    | some rollups ↦ some (
                      record line { order = move_to completed env.now row },
                      record {
                        orders =
                            update (is_order_in id paid) (move_to completed env.now) paid_orders;
                        events =
                            s.events
                            ++ moved_event env actor id served paid
                              ∷ moved_event env actor id paid completed
                              ∷ [];
                        rollups = rollups;
                      },
                    )
                  ]
          ]
    ]

unfoldable pub settle_lines :
    Env
    → ℕ
    → RollupBucket
    → List CompletedOrderLine
    → Settlement
    → Option (List CompletedOrderLine × Settlement)
settle_lines env actor bucket [] s = some ([], s)
settle_lines env actor bucket (line ∷ lines) s = elim (settle_line env actor bucket line s) [
  | none ↦ none
  | some (done, s') ↦ elim (settle_lines env actor bucket lines s') [
    | none ↦ none
    | some (rest, final) ↦ some (done ∷ rest, final)
  ]
]

-- Steps 8 and 9.
abbrev pub is_open_group : ℕ → BillGroupRow → Bool
is_open_group id g = g.id == id && is_open g.status

abbrev pub close_group : ℕ → BillGroupRow → BillGroupRow
close_group now g = record g { status = closed_group; closed_at = some now }

abbrev pub is_occupied_row : ℕ → TableRow → Bool
is_occupied_row table_id t = t.id == table_id && table_status_eq t.status occupied

abbrev pub leave_table : ℕ → TableRow → TableRow
leave_table now t = record t { status = needs_cleaning; updated_at = now }

abbrev pub new_payment :
    Env → RecordPaymentInput → BillGroupRow → MoneyTotals → Option ℕ → PaymentRow
new_payment env input group bill shift_id = record {
  id = env.uuid 0;
  table_bill_group_id = group.id;
  amount_minor = bill.total_minor;
  method = cash;
  collected_by_employee_id = input.collected_by_employee_id;
  shift_id = shift_id;
  created_at = env.now;
}

abbrev pub settlement_of : Db → Settlement
settlement_of db = record {
  orders = db.orders;
  events = db.order_status_events;
  rollups = record {
    daily = db.sales_rollup_daily;
    hourly = db.sales_rollup_hourly;
    products = db.product_sales_rollup;
    drawn = 1;
  };
}

-- Closing the visit: the group and the table, or a throw if either is not in the state expected.
unfoldable pub close_visit :
    Env → BillGroupRow → Db → Option (BillGroupRow × List BillGroupRow × List TableRow)
close_visit env group db = elim (first (is_open_group group.id) db.table_bill_groups) [
  | none ↦ none
  | some row ↦ elim (first (is_occupied_row group.table_id) db.tables) [
    | none ↦ none
    | some _ ↦ some (
      close_group env.now row,
      update (is_open_group group.id) (close_group env.now) db.table_bill_groups,
      update (is_occupied_row group.table_id) (leave_table env.now) db.tables,
    )
  ]
]

-- The check on `amount_minor` refuses a payment of 0, and the foreign key to `employees` one that
-- nobody there has collected.
unfoldable pub insert_payment :
    PaymentRow → List EmployeeRow → List PaymentRow → Option (List PaymentRow)
insert_payment payment employees payments =
    if payment.amount_minor == 0
    then none
    else if has_employee payment.collected_by_employee_id employees
    then insert_unique (λ p. p.id) payment payments
    else none

unfoldable pub settle_group :
    Env → RecordPaymentInput → BillGroupRow → List OrderRow → Tx RecordPaymentResult
settle_group env input group billable db =
    let bps = get_tax_rate_basis_points db in
    let lines = order_lines bps billable db.order_items in
    let bill = sum_totals (map totals_of lines) in
    let shift_id =
      Option.map (λ (s : ShiftRow). s.id) (find_open_shift input.collected_by_employee_id db) in
    let payment = new_payment env input group bill shift_id in
    elim (insert_payment payment db.employees db.payments) [
      | none ↦ none
      | some payments ↦
          elim (settle_lines env input.collected_by_employee_id (env.rollup_bucket_for env.now)
            lines (settlement_of db)) [
              | none ↦ none
              | some (per_order, s) ↦ elim (close_visit env group db) [
                | none ↦ none
                | some (closed, groups, tables) ↦ some (
                  recorded (record {
                    payment = payment;
                    group = closed;
                    table_id = group.table_id;
                    tax_basis_points = bps;
                    per_order = per_order;
                    bill_totals = bill;
                    shift_id = shift_id;
                  }),
                  record db {
                    payments = payments;
                    orders = s.orders;
                    order_status_events = s.events;
                    sales_rollup_daily = s.rollups.daily;
                    sales_rollup_hourly = s.rollups.hourly;
                    product_sales_rollup = s.rollups.products;
                    table_bill_groups = groups;
                    tables = tables;
                  },
                )
              ]
            ]
    ]

abbrev pub pass_gate : Env → RecordPaymentInput → Gate → Tx RecordPaymentResult
pass_gate env input (refuse result) db = some (result, db)
pass_gate env input (charge group billable) db = settle_group env input group billable db

unfoldable pub record_payment_transaction : Env → RecordPaymentInput → Tx RecordPaymentResult
record_payment_transaction env input db = pass_gate env input (payment_gate input db) db
