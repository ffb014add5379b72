-- ===== src/Orders/Service/Placing.antt =====
-- The three ways of orders.service.ts to create an order.
use smart_table.Prelude.{
  ℕ, Bool, true, false, String, Option, none, some, List, [], ◌∷◌, length, or_else, if◌then◌else◌,
}
use smart_table.Domain.{
  EmployeeRole, owner, waiter, kitchen, available, occupied, qr, waiter_manual, OrderStatus,
  cancelled, role_eq, order_status_eq, includes, DomainException, entity_not_found,
  invalid_order_transition, bill_group_closed, invalid_table_status_transition,
  insufficient_permission, product_unavailable,
}
use smart_table.Domain
use smart_table.Database.{TableRow, OrderRow, OrderItemRow, Env}
use smart_table.Effects.{
  AuditEntry, AuditValue, optional_text, id_value, amount, flag, text, OrderView, order_created,
  table_status_changed, Action, ◌>>=◌, ◌>>◌, pure, throw, throw_if, query, required,
  run_transaction, append, emit,
}
use smart_table.Orders.Repository
use smart_table.Orders.Repository.{
  OrderItemWriteInput, CreateOrderInput, CreateOrderResult, created, products_unavailable,
  bill_group_not_open, table_not_orderable, find_table_by_id, find_table_by_qr_token,
  find_order_by_id, find_items_for_order, create_order_transaction, TransitionInput,
  TransitionResult, transitioned, order_not_found, conflict, transition_status_transaction,
}
use smart_table.Orders.Service.Views.{OrderActor, to_dto}

-- An order that was created, with what the transaction reports of it.
pub record Created : Type 0 where
  pub order : OrderRow
  pub items : List OrderItemRow
  pub table_flipped_to_occupied : Bool

unfoldable pub unwrap_create_result : CreateOrderResult → ℕ → Option ℕ → Action Created
unwrap_create_result (created order items group_created flipped) table_id parent =
    pure (record { order = order; items = items; table_flipped_to_occupied = flipped })
unwrap_create_result (Repository.products_not_found ids) table_id parent =
    throw (Domain.products_not_found ids)
unwrap_create_result (products_unavailable ids) table_id parent = throw (product_unavailable ids)
unwrap_create_result bill_group_not_open table_id parent =
    throw (bill_group_closed (or_else parent table_id))
unwrap_create_result (table_not_orderable status) table_id parent =
    throw (invalid_table_status_transition table_id status "create-order")

abbrev pub emit_flip : Bool → ℕ → Action (Unit {0})
emit_flip true table_id = emit (table_status_changed table_id available occupied)
emit_flip false table_id = pure tt

unfoldable pub emit_after_create : Created → Action (Unit {0})
emit_after_create c = do
  emit (order_created (to_dto c.order c.items owner))
  emit_flip c.table_flipped_to_occupied c.order.table_id

abbrev pub created_entry : Option ℕ → String → Created → List (String × AuditValue) → AuditEntry
created_entry actor action c new_value = record {
  actor_employee_id = actor;
  entity_type = "order";
  entity_id = c.order.id;
  action = action;
  old_value = [];
  new_value = new_value;
}

-- `!table || !table.isActive`
abbrev pub active_table : Option TableRow → Option TableRow
active_table none = none
active_table (some t) = if t.is_active then some t else none

unfoldable pub create_staff_order :
    Env → ℕ → List OrderItemWriteInput → OrderActor → Action OrderView
create_staff_order env table_id items actor = do
  table ←
      required (active_table (← query (find_table_by_id table_id)))
        (entity_not_found "table" table_id)
  result ← run_transaction (
      create_order_transaction env (record {
        table_id = table.id;
        bill_group_id = none;
        source = waiter_manual;
        created_by_employee_id = some actor.id;
        items = items;
      }))
  c ← unwrap_create_result result table_id none
  append (
      created_entry (some actor.id) "order_created" c (
        ("tableId", id_value table.id)
        ∷ ("source", text "waiter_manual")
        ∷ ("itemCount", amount (length items))
        ∷ ("isAddon", flag c.order.is_addon)
        ∷ []))
  emit_after_create c
  pure (to_dto c.order c.items actor.role)

-- `source_ip` is the address of the customer's device, which goes into the audit entry.
unfoldable pub create_public_order :
    Env → ℕ → List OrderItemWriteInput → Option String → Action OrderView
create_public_order env qr_token items source_ip = do
  table ←
      required (active_table (← query (find_table_by_qr_token qr_token)))
        (entity_not_found "table" qr_token)
  result ← run_transaction (
      create_order_transaction env (record {
        table_id = table.id;
        bill_group_id = none;
        source = qr;
        created_by_employee_id = none;
        items = items;
      }))
  c ← unwrap_create_result result table.id none
  append (
      created_entry none "public_order_submitted" c (
        ("tableId", id_value table.id)
        ∷ ("sourceIp", optional_text source_ip)
        ∷ ("itemCount", amount (length items))
        ∷ ("isAddon", flag c.order.is_addon)
        ∷ []))
  emit_after_create c
  pure (to_dto c.order c.items waiter)

unfoldable pub create_addon_order :
    Env → ℕ → List OrderItemWriteInput → OrderActor → Action OrderView
create_addon_order env parent_order_id items actor = do
  parent ←
      required (← query (find_order_by_id parent_order_id))
        (entity_not_found "order" parent_order_id)
  throw_if (order_status_eq parent.status cancelled)
      (invalid_order_transition parent_order_id parent.status "addon")
  result ← run_transaction (
      create_order_transaction env (record {
        table_id = parent.table_id;
        bill_group_id = some parent.table_bill_group_id;
        source = waiter_manual;
        created_by_employee_id = some actor.id;
        items = items;
      }))
  c ← unwrap_create_result result parent.table_id (some parent_order_id)
  append (
      created_entry (some actor.id) "order_created" c (
        ("tableId", id_value parent.table_id)
        ∷ ("source", text "waiter_manual")
        ∷ ("itemCount", amount (length items))
        ∷ ("isAddon", flag true)
        ∷ ("parentOrderId", id_value parent_order_id)
        ∷ []))
  emit_after_create c
  pure (to_dto c.order c.items actor.role)
