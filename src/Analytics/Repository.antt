-- ===== src/Analytics/Repository.antt =====
-- apps/api/src/modules/analytics/analytics.repository.ts: the queries of the reports, each over the
-- tables as they are when it runs. Dates are texts YYYY-MM-DD, which SQLite orders by their
-- characters.
use Prim.Native.String.{compare}
use text.Mathlib.Text.{is_lt, is_le}
use smart_table.Prelude.{
  ℕ, Bool, true, false, ◌&&◌, ◌||◌, not, String, Option, none, some, List, ltb, leb, ◌==◌, select,
  count, is_some, or_else,
}
use smart_table.Domain.{
  OrderStatus, order_status_eq, is_open, includes, waiter, kitchen, role_eq, occupied,
  bill_requested, table_status_eq,
}
use smart_table.Database.{
  SalesRollupDaily, SalesRollupHourly, ProductSalesRollup, OrderStatusEventRow, OrderRow,
  OrderItemRow, PaymentRow, ShiftRow, BillGroupRow, TableRow, EmployeeRow, Db,
}

-- What the reports take from the JavaScript runtime: the clock, the local calendar of `Date`, and
-- the collation of `localeCompare`, as a test for "does not come after".
pub record Runtime : Type 0 where
  pub now : ℕ
  -- the local date of a point in time, and the local midnight with which a date begins
  pub format_local_date : ℕ → String
  pub day_start_ms : String → ℕ
  -- the date after a date, and whether a text is a date
  pub next_day : String → String
  pub is_valid_calendar_date : String → Bool
  pub locale_le : String → String → Bool

-- `a <= b` and `a < b` on texts
abbrev pub text_le : String → String → Bool
text_le a b = is_le (compare a b)

abbrev pub text_lt : String → String → Bool
text_lt a b = is_lt (compare a b)

abbrev pub in_dates : Runtime → String → String → String → Bool
in_dates rt from_date to_date date = text_le from_date date && text_lt date (rt.next_day to_date)

abbrev pub in_window : ℕ → ℕ → ℕ → Bool
in_window from_ms to_ms t = leb from_ms t && ltb t to_ms

abbrev pub is_id : Option ℕ → ℕ → Bool
is_id none id = false
is_id (some x) id = x == id

module _ (rt : Runtime) (from_date to_date : String) (db : Db) where
  unfoldable pub find_daily_rollup_rows : List SalesRollupDaily
  find_daily_rollup_rows =
      select (λ row. in_dates rt from_date to_date row.date) db.sales_rollup_daily

  unfoldable pub find_hourly_rollup_rows : List SalesRollupHourly
  find_hourly_rollup_rows =
      select (λ row. in_dates rt from_date to_date row.date) db.sales_rollup_hourly

  unfoldable pub find_product_rollup_rows : List ProductSalesRollup
  find_product_rollup_rows =
      select (λ row. in_dates rt from_date to_date row.date) db.product_sales_rollup

unfoldable pub find_events_by_status_in_window : OrderStatus → ℕ → ℕ → Db → List OrderStatusEventRow
find_events_by_status_in_window to_status from_ms to_ms db =
    select (λ e. order_status_eq e.to_status to_status && in_window from_ms to_ms e.created_at)
      db.order_status_events

unfoldable pub find_actor_events_in_window : ℕ → ℕ → Db → List OrderStatusEventRow
find_actor_events_in_window from_ms to_ms db =
    select (λ e. is_some e.actor_employee_id && in_window from_ms to_ms e.created_at)
      db.order_status_events

unfoldable pub find_events_by_order_ids_and_status :
    List ℕ → OrderStatus → Db → List OrderStatusEventRow
find_events_by_order_ids_and_status order_ids to_status db =
    select (λ e. includes ◌==◌ order_ids e.order_id && order_status_eq e.to_status to_status)
      db.order_status_events

unfoldable pub find_orders_by_ids : List ℕ → Db → List OrderRow
find_orders_by_ids ids db = select (λ o. includes ◌==◌ ids o.id) db.orders

unfoldable pub find_orders_by_bill_group_ids : List ℕ → Db → List OrderRow
find_orders_by_bill_group_ids group_ids db =
    select (λ o. includes ◌==◌ group_ids o.table_bill_group_id) db.orders

unfoldable pub find_items_by_order_ids : List ℕ → Db → List OrderItemRow
find_items_by_order_ids order_ids db =
    select (λ i. includes ◌==◌ order_ids i.order_id) db.order_items

abbrev pub collected_by : Option ℕ → PaymentRow → Bool
collected_by none p = true
collected_by (some e) p = p.collected_by_employee_id == e

unfoldable pub find_payments_in_window : ℕ → ℕ → Option ℕ → Db → List PaymentRow
find_payments_in_window from_ms to_ms collected_by_employee_id db =
    select (λ p. in_window from_ms to_ms p.created_at && collected_by collected_by_employee_id p)
      db.payments

unfoldable pub find_shifts_by_ids : List ℕ → Db → List ShiftRow
find_shifts_by_ids ids db = select (λ s. includes ◌==◌ ids s.id) db.shifts

abbrev pub closed_in : ℕ → ℕ → Option ℕ → Bool
closed_in from_ms to_ms none = false
closed_in from_ms to_ms (some t) = in_window from_ms to_ms t

unfoldable pub find_closed_bill_groups_in_window : ℕ → ℕ → Db → List BillGroupRow
find_closed_bill_groups_in_window from_ms to_ms db =
    select (λ g. not (is_open g.status) && closed_in from_ms to_ms g.closed_at) db.table_bill_groups

abbrev pub hosts_visit : TableRow → Bool
hosts_visit t =
    t.is_active && (table_status_eq t.status occupied || table_status_eq t.status bill_requested)

unfoldable pub count_active_tables : Db → ℕ
count_active_tables db = count hosts_visit db.tables

abbrev pub is_kitchen_or_waiter : EmployeeRow → Bool
is_kitchen_or_waiter e = e.is_active && (role_eq e.role kitchen || role_eq e.role waiter)

unfoldable pub find_active_kitchen_waiter_staff : Db → List EmployeeRow
find_active_kitchen_waiter_staff db = select is_kitchen_or_waiter db.employees

unfoldable pub get_report_tax_rate : Db → ℕ
get_report_tax_rate db = or_else db.tax_rate 0
