-- ===== src/System/Steps.antt =====
-- The steps of the services around their transactions change no table.
use smart_table.Prelude.{ℕ, Bool, true, false, String, Option, none, some, List, [], ◌∷◌}
use smart_table.Domain.{EmployeeRole}
use smart_table.Database.{Db, OrderRow}
use smart_table.Effects.Keeps.{Keeps, TxKeeps, Keeps-bind, Keeps-emit, Keeps-append, keeps_rules}
use smart_table.Orders.Machine.{OrderAction}
use smart_table.Orders.Repository.{
  OrderItemWriteInput, CreateOrderInput, create_order_transaction, CreateOrderResult,
  TransitionInput, TransitionResult, transition_status_transaction, created, bill_group_not_open,
  table_not_orderable, products_unavailable, transitioned, conflict, order_not_found,
}
use smart_table.Orders.Repository
use smart_table.Orders.Service.{
  unwrap_transition, build_dto, unwrap_create_result, Created, emit_after_create, emit_flip,
}
use smart_table.Billing.Payment.{
  RecordPaymentResult, CompletedOrderLine, recorded, group_not_found, not_ready, already_paid,
}
use smart_table.Billing.Service.{unwrap_payment, audit_lines, emit_lines}
use smart_table.Billing.Shifts.{
  OpenShiftResult, CloseShiftResult, opened, already_open, closed, shift_not_found, already_closed,
  unwrap_open, unwrap_close,
}
use smart_table.Tables.{check_hall}

module _ {P : Db → Type 0} where
  pub Keeps-unwrap_transition :
      (id : ℕ) (a : OrderAction) (n : String) (r : TransitionResult)
      → Keeps P (unwrap_transition id a n r)
  Keeps-unwrap_transition id a n order_not_found = search keeps_rules
  Keeps-unwrap_transition id a n (conflict o) = search keeps_rules
  Keeps-unwrap_transition id a n (transitioned o f) = search keeps_rules

  pub Keeps-build_dto : (o : OrderRow) (viewer : EmployeeRole) → Keeps P (build_dto o viewer)
  unfolding build_dto
  Keeps-build_dto o viewer = search keeps_rules

  pub Keeps-unwrap_create :
      (r : CreateOrderResult) (id : ℕ) (parent : Option ℕ)
      → Keeps P (unwrap_create_result r id parent)
  unfolding unwrap_create_result
  Keeps-unwrap_create (created o is g f) id parent = search keeps_rules
  Keeps-unwrap_create (Repository.products_not_found ids) id parent = search keeps_rules
  Keeps-unwrap_create (products_unavailable ids) id parent = search keeps_rules
  Keeps-unwrap_create bill_group_not_open id parent = search keeps_rules
  Keeps-unwrap_create (table_not_orderable s) id parent = search keeps_rules

  pub Keeps-emit_flip : (b : Bool) (id : ℕ) → Keeps P (emit_flip b id)
  Keeps-emit_flip true id = search keeps_rules
  Keeps-emit_flip false id = search keeps_rules

  pub Keeps-emit_after_create : (c : Created) → Keeps P (emit_after_create c)
  unfolding emit_after_create
  Keeps-emit_after_create c = search (keeps_rules, Keeps-emit_flip)

  pub Keeps-unwrap_payment : (id : ℕ) (r : RecordPaymentResult) → Keeps P (unwrap_payment id r)
  Keeps-unwrap_payment id (recorded r) = search keeps_rules
  Keeps-unwrap_payment id group_not_found = search keeps_rules
  Keeps-unwrap_payment id (not_ready ids) = search keeps_rules
  Keeps-unwrap_payment id (already_paid p) = search keeps_rules

  pub Keeps-audit_lines :
      (actor p : ℕ) (lines : List CompletedOrderLine) → Keeps P (audit_lines actor p lines)
  unfolding audit_lines
  Keeps-audit_lines actor p [] = search keeps_rules
  Keeps-audit_lines actor p (l ∷ lines) =
      Keeps-bind _ _ (Keeps-append _)
        (λ _. Keeps-bind _ _ (Keeps-append _) (λ _. Keeps-audit_lines actor p lines))

  pub Keeps-emit_lines : (lines : List CompletedOrderLine) → Keeps P (emit_lines lines)
  unfolding emit_lines
  Keeps-emit_lines [] = search keeps_rules
  Keeps-emit_lines (l ∷ lines) =
      Keeps-bind _ _ (Keeps-emit _)
        (λ _. Keeps-bind _ _ (Keeps-emit _) (λ _. Keeps-emit_lines lines))

  pub Keeps-unwrap_open : (actor : ℕ) (r : OpenShiftResult) → Keeps P (unwrap_open actor r)
  Keeps-unwrap_open actor (opened s) = search keeps_rules
  Keeps-unwrap_open actor (already_open s) = search keeps_rules

  pub Keeps-unwrap_close : (id : ℕ) (r : CloseShiftResult) → Keeps P (unwrap_close id r)
  Keeps-unwrap_close id (closed s n) = search keeps_rules
  Keeps-unwrap_close id shift_not_found = search keeps_rules
  Keeps-unwrap_close id (already_closed s) = search keeps_rules

  pub Keeps-check_hall : (hall : Option ℕ) → Keeps P (check_hall hall)
  unfolding check_hall
  Keeps-check_hall none = search keeps_rules
  Keeps-check_hall (some id) = search keeps_rules

pub ruleset service_rules = (
  keeps_rules, Keeps-unwrap_transition, Keeps-build_dto, Keeps-unwrap_create,
  Keeps-emit_after_create, Keeps-unwrap_payment, Keeps-audit_lines, Keeps-emit_lines,
  Keeps-unwrap_open, Keeps-unwrap_close, Keeps-check_hall,
)
