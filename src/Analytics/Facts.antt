-- ===== src/Analytics/Facts.antt =====
-- The fact sources of apps/api/src/modules/analytics/analytics.service.ts, and `aggregate`, which
-- puts the days before today from the rollups and today from the raw rows together.
use smart_table.Prelude.{
  ℕ, ◌+◌, ◌*◌, Bool, true, false, String, Option, none, some, List, [], ◌∷◌, map, ◌==◌,
  if◌then◌else◌, select, is_some, length,
}
use smart_table.Domain.{order_status_eq, completed, cancelled}
use smart_table.Database.{OrderItemRow, OrderStatusEventRow, OrderRow, PaymentRow, Db, Env}
use smart_table.BillingMath.{BillLineItem, compute_order_totals}
use smart_table.Analytics.Repository.{
  Runtime, find_events_by_status_in_window, find_orders_by_ids, find_orders_by_bill_group_ids,
  find_items_by_order_ids, find_payments_in_window, get_report_tax_rate, find_daily_rollup_rows,
  find_hourly_rollup_rows, find_product_rollup_rows,
}
use smart_table.Analytics.Range.{AnalyticsQuery, ResolvedRange, ms_per_day, today_string}
use smart_table.Analytics.Aggregates.{
  ItemFact, OrderFacts, Aggregates, empty_aggregates, merge_facts, merge_rollups,
}

-- What a `Map` made from a list of pairs holds under a key: the value of the last one.
unfoldable pub last_of {ℓ} : {R : Type ℓ} → (R → Bool) → List R → Option R
last_of p [] = none
last_of p (r ∷ rs) =
    let later = last_of p rs in if is_some later then later else if p r then some r else none

abbrev pub time_of_event : Option OrderStatusEventRow → ℕ
time_of_event none = 0
time_of_event (some e) = e.created_at

abbrev pub time_of_payment : Option PaymentRow → ℕ
time_of_payment none = 0
time_of_payment (some p) = p.created_at

-- itemsByOrder.get(orderId) ?? []
unfoldable pub items_of_order : ℕ → List OrderItemRow → List OrderItemRow
items_of_order order_id = select (λ item. item.order_id == order_id)

abbrev pub item_fact : OrderItemRow → ItemFact
item_fact item = record {
  name = item.name_snapshot;
  category = item.category_snapshot;
  quantity = item.quantity;
  net_minor = item.unit_price_minor_snapshot * item.quantity;
}

unfoldable pub to_item_facts : List OrderItemRow → List ItemFact
to_item_facts = map item_fact

abbrev pub line_item : OrderItemRow → BillLineItem
line_item item = record {
  unit_price_minor_snapshot = item.unit_price_minor_snapshot;
  quantity = item.quantity;
}

-- The facts of one order, completed at a time that the caller knows.
unfoldable pub fact_of : ℕ → List OrderItemRow → (OrderRow → ℕ) → OrderRow → OrderFacts
fact_of tax_basis_points items completed_at order =
    let order_items = items_of_order order.id items in
    record {
      order_id = order.id;
      channel = order.channel;
      completed_at_ms = completed_at order;
      total_minor = (compute_order_totals (map line_item order_items) tax_basis_points).total_minor;
      items = to_item_facts order_items;
    }

-- The rows that the ids of the events select, so every order has its event.
unfoldable pub live_facts : ℕ → Db → List OrderFacts
live_facts day_start_ms db =
    let completed_events =
      find_events_by_status_in_window completed day_start_ms (day_start_ms + ms_per_day) db in
    let orders = find_orders_by_ids (map (λ e. e.order_id) completed_events) db in
    let items = find_items_by_order_ids (map (λ o. o.id) orders) db in
    map
      (fact_of (get_report_tax_rate db) items
        (λ order. time_of_event (last_of (λ e. e.order_id == order.id) completed_events)))
      orders

unfoldable pub employee_facts : ResolvedRange → ℕ → Db → List OrderFacts
employee_facts range employee_id db =
    let payments =
      find_payments_in_window range.from_ms range.to_exclusive_ms (some employee_id) db in
    let orders =
      select (λ order. order_status_eq order.status completed)
        (find_orders_by_bill_group_ids (map (λ p. p.table_bill_group_id) payments) db) in
    let items = find_items_by_order_ids (map (λ o. o.id) orders) db in
    map
      (fact_of (get_report_tax_rate db) items (λ order.
        time_of_payment
          (last_of (λ p. p.table_bill_group_id == order.table_bill_group_id) payments)))
      orders

abbrev pub start_of_today : Runtime → ℕ
start_of_today rt = rt.day_start_ms (today_string rt)

unfoldable pub merge_history : Runtime → Option (String × String) → Db → Aggregates → Aggregates
merge_history rt none db a = a
merge_history rt (some (from_date, to_date)) db a =
    merge_rollups a (find_daily_rollup_rows rt from_date to_date db)
      (find_hourly_rollup_rows rt from_date to_date db)
      (find_product_rollup_rows rt from_date to_date db)

unfoldable pub merge_today : Env → Runtime → Db → Aggregates → Aggregates
merge_today env rt db a =
    let day = start_of_today rt in
    let merged = merge_facts env a (live_facts day db) in
    record merged {
      cancelled =
          merged.cancelled
          + length (find_events_by_status_in_window cancelled day (day + ms_per_day) db);
    }

unfoldable pub aggregate : Env → Runtime → AnalyticsQuery → ResolvedRange → Db → Aggregates
aggregate env rt q range db = elim q.employee_id [
  | some e ↦ merge_facts env (empty_aggregates false) (employee_facts range e db)
  | none ↦
      let history = merge_history rt range.historical db (empty_aggregates true) in
      if range.includes_today then merge_today env rt db history else history
]
