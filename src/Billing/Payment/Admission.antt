-- ===== src/Billing/Payment/Admission.antt =====
-- The reads of billing.repository.ts, and steps 1 and 2 of `recordPaymentTransaction`.
use mathlib.Core.Option
use smart_table.Prelude.{
  ℕ, Bool, not, ◌&&◌, ◌||◌, Option, none, some, List, [], ◌∷◌, map, ◌==◌, ltb, if◌then◌else◌,
  is_some, or_else, is_empty, select, first, order_by,
}
use smart_table.Domain.{
  OrderStatus, pending, accepted, preparing, ready, served, is_open, order_status_eq, includes,
}
use smart_table.Database.{BillGroupRow, OrderRow, OrderItemRow, PaymentRow, Db}
use smart_table.BillingMath.{MoneyTotals}

pub record OrderWithItems : Type 0 where
  pub order : OrderRow
  pub items : List OrderItemRow

pub record CompletedOrderLine : Type 0 where
  pub order : OrderRow
  pub items : List OrderItemRow
  pub totals : MoneyTotals

pub record RecordPaymentInput : Type 0 where
  pub table_bill_group_id : ℕ
  pub collected_by_employee_id : ℕ

pub record RecordedPayment : Type 0 where
  pub payment : PaymentRow
  pub group : BillGroupRow
  pub table_id : ℕ
  pub tax_basis_points : ℕ
  pub per_order : List CompletedOrderLine
  pub bill_totals : MoneyTotals
  pub shift_id : Option ℕ

pub data RecordPaymentResult : Type 0 where
  recorded : RecordedPayment → RecordPaymentResult
  group_not_found : RecordPaymentResult
  already_paid : Option ℕ → RecordPaymentResult
  not_ready : List ℕ → RecordPaymentResult

abbrev pub in_flight_statuses : List OrderStatus
in_flight_statuses = pending ∷ accepted ∷ preparing ∷ ready ∷ []

abbrev pub is_in_flight : OrderRow → Bool
is_in_flight o = includes order_status_eq in_flight_statuses o.status

-- order by created_at, id
abbrev pub is_not_after : OrderRow → OrderRow → Bool
is_not_after a b =
    ltb a.created_at b.created_at || (a.created_at == b.created_at && not (ltb b.id a.id))

unfoldable pub orders_of_group : ℕ → Db → List OrderRow
orders_of_group group_id db =
    order_by is_not_after (select (λ o. o.table_bill_group_id == group_id) db.orders)

unfoldable pub find_bill_group_by_id : ℕ → Db → Option BillGroupRow
find_bill_group_by_id id db = first (λ g. g.id == id) db.table_bill_groups

unfoldable pub find_payment_for_group : ℕ → Db → Option PaymentRow
find_payment_for_group group_id db = first (λ p. p.table_bill_group_id == group_id) db.payments

unfoldable pub find_orders_with_items_for_group : ℕ → Db → List OrderWithItems
unfolding orders_of_group
find_orders_with_items_for_group group_id db =
    let rows = orders_of_group group_id db in
    let item_rows =
      select (λ (i : OrderItemRow). includes ◌==◌ (map (λ (o : OrderRow). o.id) rows) i.order_id)
        db.order_items in
    map
      (λ (order : OrderRow). record {
        order = order;
        items = select (λ i. i.order_id == order.id) item_rows;
      })
      rows

unfoldable pub get_tax_rate_basis_points : Db → ℕ
get_tax_rate_basis_points db = or_else db.tax_rate 0

-- Steps 1 and 2: the payment is refused with a result, or goes on with the orders to charge.
pub data Gate : Type 0 where
  refuse : RecordPaymentResult → Gate
  charge : BillGroupRow → List OrderRow → Gate

unfoldable pub order_gate : BillGroupRow → List OrderRow → Gate
order_gate group group_orders =
    let blocking = map (λ (o : OrderRow). o.id) (select is_in_flight group_orders) in
    let billable = select (λ (o : OrderRow). order_status_eq o.status served) group_orders in
    if not (is_empty blocking)
    then refuse (not_ready blocking)
    else if is_empty billable
    then refuse (not_ready [])
    else charge group billable

unfoldable pub payment_gate : RecordPaymentInput → Db → Gate
unfolding order_gate find_bill_group_by_id find_payment_for_group
payment_gate input db = elim (find_bill_group_by_id input.table_bill_group_id db) [
  | none ↦ refuse group_not_found
  | some group ↦
      let existing = find_payment_for_group group.id db in
      if not (is_open group.status) || is_some existing
      then refuse (already_paid (Option.map (λ p. p.id) existing))
      else order_gate group (orders_of_group group.id db)
]
