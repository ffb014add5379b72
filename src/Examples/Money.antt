-- ===== src/Examples/Money.antt =====
-- The theorems on the money, on the restaurant of `Examples`.
use smart_table.Prelude.{
  ℕ, ◌+◌, ◌≡◌, ◌<◌, ◌≤◌, ◌*◌, ◌||◌, ◌==◌, ◌++◌, ◌∷◌, [], refl, arith, true, none, some, List, first,
  count, select, order_by, sum_of, String,
}
use smart_table.Prelude.Int.{pos_part, neg_part, sub_ℕ, negsuc}
use smart_table.Domain.{cash, ok}
use smart_table.Database.{
  has_employee, Db, PaymentRow, ProductSalesRollup, OrderItemRow, transaction,
}
use smart_table.Effects.{World, ◌>>=◌}
use smart_table.BillingMath.{round_half_up_div, compute_order_totals, sum_totals}
use smart_table.BillingMath.Laws.{round_half_up_div_nearest}
use smart_table.Billing.Payment.{
  RecordedPayment, recorded, charge, payment_gate, order_gate, find_bill_group_by_id,
  find_payment_for_group, orders_of_group, record_payment_transaction, get_tax_rate_basis_points,
  order_lines, order_line,
}
use smart_table.Billing.Payment.Money.{IsReconciled, bill_of}
use smart_table.Billing.Payment.Settling.{IsKeyed}
use smart_table.Billing.Service.{bill_after}
use smart_table.Billing.Service.Bill.{bill_after-paid, free_visit_unpayable}
use smart_table.Billing.Shifts.{
  ShiftReconciliationDto, close_row, find_shift_by_id, collected_minor, close_shift,
  close_shift_transaction, payments_collected, is_supervisor,
}
use smart_table.Billing.Shifts.Rules.{cash_for, OneOpenShift, close_shift-reconciles}
use smart_table.System.{run}
use smart_table.System.Safety.{run-IsReconciled}
use smart_table.System.Shifts.{run-OneOpenShift}
use smart_table.Visits.Checkout.{charged_orders, record_payment-succeeds}
use smart_table.Rollups.Products.{aggregate_items_conserves, aggregate_items_collision}
use smart_table.Rollups.{Aggregate, aggregate_items}
use smart_table.Examples.{
  noon, cafe, open_house, busy_hour, visit, pay_first, served_order, item_of, till, morning_shift,
}
use smart_table.Examples.Floor.{cafe-VisitsAgree}

cafe-IsReconciled : IsReconciled cafe
cafe-IsReconciled = record { daily = refl; hourly = refl; channels = refl }

run-IsReconciled_example : IsReconciled (run busy_hour open_house).db
run-IsReconciled_example = run-IsReconciled busy_hour open_house cafe-IsReconciled

cafe-OneOpenShift : OneOpenShift cafe
unfolding count
cafe-OneOpenShift e = ground arith

run-OneOpenShift_example : OneOpenShift (run busy_hour open_house).db
run-OneOpenShift_example = run-OneOpenShift busy_hour open_house cafe-OneOpenShift

cafe-IsKeyed : IsKeyed cafe.orders
unfolding count
cafe-IsKeyed i = ground arith

no_payment_yet : first (λ (p : PaymentRow). p.id == noon.uuid 0) cafe.payments ≡ none
unfolding first
no_payment_yet = refl

no_rollup_yet :
    (k : ℕ)
    → 1 ≤ k
    → first (λ (r : ProductSalesRollup). r.id == noon.uuid k) cafe.product_sales_rollup ≡ none
unfolding first
no_rollup_yet k h = refl

visit_found : find_bill_group_by_id pay_first.table_bill_group_id cafe ≡ some (visit 21 1)
unfolding find_bill_group_by_id first
visit_found = refl

visit_unpaid : find_payment_for_group 21 cafe ≡ none
unfolding find_payment_for_group first
visit_unpaid = refl

visit_orders : orders_of_group 21 cafe ≡ served_order ∷ []
unfolding orders_of_group select order_by
visit_orders = refl

visit_charged : charged_orders 21 cafe ≡ served_order ∷ []
unfolding orders_of_group select order_by
visit_charged = refl

visit_bill : (bill_of cafe (charged_orders 21 cafe)).total_minor ≡ 550
unfolding orders_of_group select order_by order_lines order_line compute_order_totals sum_totals
    round_half_up_div get_tax_rate_basis_points
visit_bill = refl

collector_known : has_employee 9 cafe.employees ≡ true
unfolding has_employee first
collector_known = refl

record_payment-succeeds_example :
    (p : RecordedPayment) × (db' : Db) × (record_payment_transaction noon pay_first cafe
      ≡ some (recorded p, db'))
record_payment-succeeds_example =
    record_payment-succeeds noon pay_first cafe (visit 21 1) (λ j k e. omega arith) no_payment_yet
      no_rollup_yet cafe-VisitsAgree cafe-IsKeyed visit_found refl visit_unpaid
      (unfold select in rw visit_orders refl) (rw visit_charged refl)
      (rw visit_bill (λ e. omega arith)) collector_known

-- The payment that goes through.
payment_made :
    (p : RecordedPayment) × (db' : Db) × (record_payment_transaction noon pay_first cafe
      ≡ some (recorded p, db'))
payment_made =
    record_payment-succeeds noon pay_first cafe (visit 21 1) (λ j k e. omega arith) no_payment_yet
      no_rollup_yet cafe-VisitsAgree cafe-IsKeyed visit_found refl visit_unpaid
      (unfold select in rw visit_orders refl) (rw visit_charged refl)
      (rw visit_bill (λ e. omega arith)) collector_known

bill_after-paid_example :
    ((bill_after payment_made.0).total_minor ≡ payment_made.0.payment.amount_minor)
    × (payment_made.1.payments ≡ cafe.payments ++ payment_made.0.payment ∷ [])
bill_after-paid_example =
    bill_after-paid noon pay_first cafe payment_made.1 payment_made.0 payment_made.2

-- The restaurant on a day on which coffee is free.
abbrev charity : Db
charity = record cafe {
  order_items = record (item_of 41 31) { unit_price_minor_snapshot = 0 } ∷ [];
}

charity_gate : payment_gate pay_first charity ≡ charge (visit 21 1) (served_order ∷ [])
unfolding payment_gate order_gate find_bill_group_by_id find_payment_for_group orders_of_group
    select order_by first
charity_gate = refl

charity_bill : (bill_of charity (served_order ∷ [])).total_minor ≡ 0
unfolding order_lines order_line compute_order_totals sum_totals round_half_up_div
    get_tax_rate_basis_points select
charity_bill = refl

free_visit_unpayable_example : record_payment_transaction noon pay_first charity ≡ none
free_visit_unpayable_example =
    free_visit_unpayable noon pay_first charity (visit 21 1) (served_order ∷ []) charity_gate
      charity_bill

-- A day with a payment at the till's shift, one at another shift and one with no shift.
abbrev one_payment : PaymentRow
one_payment = record {
  id = 91;
  table_bill_group_id = 23;
  amount_minor = 300;
  method = cash;
  collected_by_employee_id = 9;
  shift_id = some 51;
  created_at = 40;
}

abbrev taken : List PaymentRow
taken =
    one_payment
    ∷ record one_payment { id = 92; amount_minor = 70; shift_id = some 52 }
    ∷ record one_payment { id = 93; amount_minor = 20; shift_id = none }
    ∷ []

abbrev late_house : World
late_house = record open_house { db = record cafe { payments = taken } }

shift_found : find_shift_by_id 51 late_house.db ≡ some morning_shift
unfolding find_shift_by_id first
shift_found = refl

abbrev evening : ShiftReconciliationDto
evening = record {
  shift = close_row 900 1_300 100 morning_shift;
  payments_collected = 1;
  difference_minor = negsuc 399;
}

evening_closed : (close_shift noon 51 900 till late_house).0 ≡ ok evening
unfolding close_shift close_shift_transaction ◌>>=◌ find_shift_by_id first collected_minor
    payments_collected select count sub_ℕ transaction
evening_closed = refl

close_shift-reconciles_example :
    (is_supervisor till.role || 9 == 9) ≡ true
    × (evening.shift.closing_cash_minor ≡ some 900)
    × (evening.shift.expected_cash_minor ≡ some (1_000 + sum_of (cash_for 51) taken))
    × (pos_part evening.difference_minor + (1_000 + sum_of (cash_for 51) taken)
        ≡ neg_part evening.difference_minor + 900)
close_shift-reconciles_example =
    close_shift-reconciles noon 51 900 till late_house morning_shift evening shift_found
      evening_closed

round_half_up_div_nearest_example :
    (2 * (round_half_up_div 25 10 * 10) ≤ 2 * 25 + 10)
    × (2 * 25 + 10 < 2 * (round_half_up_div 25 10 * 10) + 2 * 10)
round_half_up_div_nearest_example = round_half_up_div_nearest 25 10 (omega arith)

abbrev tea : String → String → ℕ → OrderItemRow
tea name category id = record (item_of id 31) { name_snapshot = name; category_snapshot = category }

aggregate_items_conserves_example :
    (sum_of (λ (e : Aggregate). e.quantity) (aggregate_items (tea "a" "b" 1 ∷ tea "c" "b" 2 ∷ []))
      ≡ 4)
    × (sum_of
          (λ (e : Aggregate). e.revenue_minor)
          (aggregate_items (tea "a" "b" 1 ∷ tea "c" "b" 2 ∷ []))
        ≡ 1_000)
aggregate_items_conserves_example = aggregate_items_conserves (tea "a" "b" 1 ∷ tea "c" "b" 2 ∷ [])

-- "ab" in the category "c", and "a" in the category "bc".
aggregate_items_collision_example :
    aggregate_items (tea "ab" "c" 1 ∷ tea "a" "bc" 2 ∷ [])
    ≡ record { key = "abc"; name = "ab"; category = "c"; quantity = 4; revenue_minor = 1_000 } ∷ []
aggregate_items_collision_example = aggregate_items_collision (tea "ab" "c" 1) (tea "a" "bc" 2) refl
