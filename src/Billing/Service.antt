-- ===== src/Billing/Service.antt =====
-- billing.service.ts: the consolidated bill, and what follows a recorded payment.
pub mod Bill
use smart_table.Prelude.{ℕ, Bool, not, String, Option, none, some, List, [], ◌∷◌, ◌++◌, map, select}
use smart_table.Domain.{
  occupied, needs_cleaning, OrderStatus, served, paid, completed, cancelled, order_status_eq,
  includes, entity_not_found, payment_not_ready, payment_already_recorded,
}
use smart_table.Database.{BillGroupRow, OrderRow, OrderItemRow, PaymentRow, Db, Env}
use smart_table.BillingMath.{MoneyTotals, compute_order_totals, sum_totals}
use smart_table.Effects.{
  AuditEntry, id_value, optional_id, id_list, amount, text, status_value, OrderView, order_dto,
  order_status_changed, table_status_changed, Action, ◌>>=◌, ◌>>◌, pure, throw, query, required,
  run_transaction, append, emit,
}
use smart_table.Orders.Service.{OrderActor, item_dto}
use smart_table.Billing.Payment.{
  OrderWithItems, CompletedOrderLine, RecordPaymentResult, RecordedPayment, recorded,
  group_not_found, already_paid, not_ready, line_item, find_bill_group_by_id,
  find_payment_for_group, find_orders_with_items_for_group, get_tax_rate_basis_points,
  record_payment_transaction,
}

abbrev pub billable_statuses : List OrderStatus
billable_statuses = served ∷ paid ∷ completed ∷ []

-- The group and the payment go into the answer as they are.
pub record ConsolidatedBillDto : Type 0 where
  pub group : BillGroupRow
  pub orders : List OrderView
  pub subtotal_minor : ℕ
  pub tax_minor : ℕ
  pub total_minor : ℕ
  pub tax_rate_basis_points : ℕ
  pub payment : Option PaymentRow

abbrev pub order_to_dto : OrderWithItems → OrderView
order_to_dto line = order_dto line.order (map item_dto line.items)

abbrev pub is_listed : OrderWithItems → Bool
is_listed line = not (order_status_eq line.order.status cancelled)

abbrev pub is_billable : OrderWithItems → Bool
is_billable line = includes order_status_eq billable_statuses line.order.status

abbrev pub totals_at : ℕ → OrderWithItems → MoneyTotals
totals_at bps line = compute_order_totals (map line_item line.items) bps

unfoldable pub assemble_bill :
    BillGroupRow → List OrderWithItems → ℕ → Option PaymentRow → ConsolidatedBillDto
assemble_bill group orders_with_items bps payment =
    let non_cancelled = select is_listed orders_with_items in
    let totals = sum_totals (map (totals_at bps) (select is_billable non_cancelled)) in
    record {
      group = group;
      orders = map order_to_dto non_cancelled;
      subtotal_minor = totals.subtotal_minor;
      tax_minor = totals.tax_minor;
      total_minor = totals.total_minor;
      tax_rate_basis_points = bps;
      payment = payment;
    }

unfoldable pub get_bill : ℕ → Action ConsolidatedBillDto
get_bill id = do
  group ← required (← query (find_bill_group_by_id id)) (entity_not_found "table-bill-group" id)
  orders ← query (find_orders_with_items_for_group group.id)
  bps ← query get_tax_rate_basis_points
  payment ← query (find_payment_for_group group.id)
  pure (assemble_bill group orders bps payment)

abbrev pub unwrap_payment : ℕ → RecordPaymentResult → Action RecordedPayment
unwrap_payment id (recorded r) = pure r
unwrap_payment id group_not_found = throw (entity_not_found "table-bill-group" id)
unwrap_payment id (not_ready blocking) = throw (payment_not_ready id blocking)
unwrap_payment id (already_paid payment_id) = throw (payment_already_recorded id payment_id)

abbrev pub payment_entry : ℕ → RecordedPayment → AuditEntry
payment_entry actor r = record {
  actor_employee_id = some actor;
  entity_type = "payment";
  entity_id = r.payment.id;
  action = "payment_recorded";
  old_value = [];
  new_value =
      ("tableBillGroupId", id_value r.group.id)
      ∷ ("tableId", id_value r.table_id)
      ∷ ("amountMinor", amount r.payment.amount_minor)
      ∷ ("method", text "cash")
      ∷ ("shiftId", optional_id r.shift_id)
      ∷ ("orderIds", id_list (map (λ (l : CompletedOrderLine). l.order.id) r.per_order))
      ∷ [];
}

abbrev pub moved_entry : ℕ → ℕ → ℕ → String → OrderStatus → OrderStatus → AuditEntry
moved_entry actor payment_id order_id action from to = record {
  actor_employee_id = some actor;
  entity_type = "order";
  entity_id = order_id;
  action = action;
  old_value = ("status", status_value from) ∷ [];
  new_value = ("status", status_value to) ∷ ("paymentId", id_value payment_id) ∷ [];
}

-- The two loops over the orders: their audit entries, and then their events.
unfoldable pub audit_lines : ℕ → ℕ → List CompletedOrderLine → Action (Unit {0})
audit_lines actor payment_id [] = pure tt
audit_lines actor payment_id (line ∷ lines) = do
  append (moved_entry actor payment_id line.order.id "order_paid" served paid)
  append (moved_entry actor payment_id line.order.id "order_completed" paid completed)
  audit_lines actor payment_id lines

unfoldable pub emit_lines : List CompletedOrderLine → Action (Unit {0})
emit_lines [] = pure tt
emit_lines (line ∷ lines) = do
  emit (order_status_changed line.order.id served paid)
  emit (order_status_changed line.order.id paid completed)
  emit_lines lines

abbrev pub as_order_with_items : CompletedOrderLine → OrderWithItems
as_order_with_items line = record { order = line.order; items = line.items }

unfoldable pub bill_after : RecordedPayment → ConsolidatedBillDto
bill_after r =
    assemble_bill r.group (map as_order_with_items r.per_order) r.tax_basis_points (some r.payment)

unfoldable pub record_payment : Env → ℕ → OrderActor → Action (PaymentRow × ConsolidatedBillDto)
record_payment env id actor = do
  result ← run_transaction (
      record_payment_transaction env
        (record { table_bill_group_id = id; collected_by_employee_id = actor.id }))
  r ← unwrap_payment id result
  append (payment_entry actor.id r)
  audit_lines actor.id r.payment.id r.per_order
  emit_lines r.per_order
  emit (table_status_changed r.table_id occupied needs_cleaning)
  pure (r.payment, bill_after r)
