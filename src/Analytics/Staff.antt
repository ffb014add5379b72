-- ===== src/Analytics/Staff.antt =====
-- getOperationalStats of apps/api/src/modules/analytics/analytics.service.ts, after its range is
-- resolved: what the kitchen and the waiters did.
use smart_table.Prelude.{
  ℕ, suc, Bool, false, String, Option, none, some, List, [], ◌∷◌, ◌++◌, map, ◌==◌, if◌then◌else◌,
  select, order_by,
}
use smart_table.Domain.{EmployeeRole, OrderStatus, accepted, ready, order_status_eq, includes}
use smart_table.Database.{OrderStatusEventRow, OrderRow, EmployeeRow, Db}
use smart_table.Analytics.Repository.{
  Runtime, is_id, find_active_kitchen_waiter_staff, find_actor_events_in_window, find_orders_by_ids,
  find_events_by_order_ids_and_status,
}
use smart_table.Analytics.Range.{AnalyticsQuery, ResolvedRange}
use smart_table.Analytics.Facts.{last_of}
use smart_table.Analytics.Derived.{span_between, average, preparation_spans}

pub record OperationalEmployeeStats : Type 0 where
  pub employee_id : ℕ
  pub employee_name : String
  pub role : EmployeeRole
  pub average_acceptance_time_ms : Option ℕ
  pub average_preparation_time_ms : Option ℕ
  pub orders_handled : ℕ

-- The size of a `Set` of the numbers.
unfoldable pub distinct : List ℕ → ℕ
distinct [] = 0
distinct (x ∷ xs) = if includes ◌==◌ xs x then distinct xs else suc (distinct xs)

unfoldable pub asked_staff : Option ℕ → List EmployeeRow → List EmployeeRow
asked_staff none staff = staff
asked_staff (some id) staff = select (λ e. e.id == id) staff

-- The events by one of the staff.
abbrev pub is_by_staff : List EmployeeRow → OrderStatusEventRow → Bool
is_by_staff staff e = elim e.actor_employee_id [
  | none ↦ false
  | some id ↦ includes ◌==◌ (map (λ (s : EmployeeRow). s.id) staff) id
]

unfoldable pub of_status : OrderStatus → List OrderStatusEventRow → List OrderStatusEventRow
of_status status = select (λ e. order_status_eq e.to_status status)

-- createdAtByOrder.get(orderId) ?? event.createdAt
abbrev pub order_time : List OrderRow → OrderStatusEventRow → ℕ
order_time orders e = elim (last_of (λ (o : OrderRow). o.id == e.order_id) orders) [
  | none ↦ e.created_at
  | some o ↦ o.created_at
]

unfoldable pub acceptance_spans : List OrderRow → List OrderStatusEventRow → List ℕ
acceptance_spans orders [] = []
acceptance_spans orders (e ∷ events) =
    span_between (order_time orders e) e.created_at (acceptance_spans orders events)

unfoldable pub employee_stats :
    List OrderRow
    → List OrderStatusEventRow
    → List OrderStatusEventRow
    → EmployeeRow
    → OperationalEmployeeStats
employee_stats orders accepted_events events employee =
    let own = select (λ e. is_id e.actor_employee_id employee.id) events in
    record {
      employee_id = employee.id;
      employee_name = employee.name;
      role = employee.role;
      average_acceptance_time_ms = average (acceptance_spans orders (of_status accepted own));
      average_preparation_time_ms =
          average (preparation_spans accepted_events (of_status ready own));
      orders_handled = distinct (map (λ e. e.order_id) own);
    }

unfoldable pub operational_stats :
    Runtime → AnalyticsQuery → ResolvedRange → Db → List OperationalEmployeeStats
operational_stats rt q range db =
    let staff = asked_staff q.employee_id (find_active_kitchen_waiter_staff db) in
    let events =
      select (is_by_staff staff)
        (find_actor_events_in_window range.from_ms range.to_exclusive_ms db) in
    let accepted_events = of_status accepted events in
    let span_order_ids = map (λ e. e.order_id) (accepted_events ++ of_status ready events) in
    let orders = find_orders_by_ids (map (λ e. e.order_id) accepted_events) db in
    let accepted_by_order = find_events_by_order_ids_and_status span_order_ids accepted db in
    order_by (λ a b. rt.locale_le a.employee_name b.employee_name)
      (map (employee_stats orders accepted_by_order events) staff)
