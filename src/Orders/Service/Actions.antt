-- ===== src/Orders/Service/Actions.antt =====
-- The four actions of orders.service.ts on an order.
use smart_table.Prelude.{ℕ, Bool, true, false, not, ◌&&◌, String, Option, none, some, List, [], ◌∷◌}
use smart_table.Domain.{
  OrderStatus, role_eq, order_status_eq, includes, entity_not_found, invalid_order_transition,
  insufficient_permission,
}
use smart_table.Database.{OrderRow, Env}
use smart_table.Effects.{
  AuditEntry, AuditValue, text, status_value, OrderView, order_accepted, order_status_changed,
  Action, ◌>>=◌, ◌>>◌, pure, throw, throw_if, query, required, run_transaction, append, emit,
}
use smart_table.Orders.Machine.{
  OrderAction, accept, advance, serve, cancel, transition_rules, is_cancel_refused,
  transition_fields,
}
use smart_table.Orders.Repository.{
  find_order_by_id, TransitionInput, TransitionResult, transitioned, order_not_found, conflict,
  transition_status_transaction,
}
use smart_table.Orders.Service.Views.{OrderActor, build_dto}

-- What a transition that was executed hands on.
pub record Executed : Type 0 where
  pub order : OrderRow
  pub from_status : OrderStatus

abbrev pub unwrap_transition : ℕ → OrderAction → String → TransitionResult → Action Executed
unwrap_transition order_id action name order_not_found = throw (entity_not_found "order" order_id)
unwrap_transition order_id action name (conflict current) =
    throw (invalid_order_transition order_id current.status name)
unwrap_transition order_id action name (transitioned order from) =
    pure (record { order = order; from_status = from })

abbrev pub action_name : OrderAction → String
action_name accept = "accept"
action_name advance = "advance"
action_name serve = "serve"
action_name cancel = "cancel"

abbrev pub permission_name : OrderAction → String
permission_name accept = "orders.accept"
permission_name advance = "orders.advance"
permission_name serve = "orders.serve"
permission_name cancel = "orders.cancel"

abbrev pub is_cancel : OrderAction → Bool
is_cancel cancel = true
is_cancel _ = false

unfoldable pub transition_input :
    ℕ → OrderAction → OrderActor → Option String → OrderStatus → TransitionInput
transition_input order_id action actor reason from = record {
  order_id = order_id;
  expected_from = from ∷ [];
  to_status = (transition_rules action).to_status from;
  actor_employee_id = some actor.id;
  set_fields = transition_fields action actor.id reason;
}

unfoldable pub execute_transition :
    Env → ℕ → OrderAction → OrderActor → Option String → Action Executed
unfolding transition_input
execute_transition env order_id action actor reason = do
  order ← required (← query (find_order_by_id order_id)) (entity_not_found "order" order_id)
  let rule = transition_rules action
  throw_if (not (includes order_status_eq rule.expected_from order.status))
      (invalid_order_transition order_id order.status (action_name action))
  throw_if (not (includes role_eq rule.roles actor.role))
      (insufficient_permission (permission_name action))
  throw_if (is_cancel action && is_cancel_refused actor.role order.status)
      (insufficient_permission "orders.cancel (waiters may cancel pending orders only)")
  result ← run_transaction (
      transition_status_transaction env
        (transition_input order_id action actor reason order.status))
  unwrap_transition order_id action (action_name action) result

abbrev pub status_entry : ℕ → ℕ → String → OrderStatus → List (String × AuditValue) → AuditEntry
status_entry actor order_id action from new_value = record {
  actor_employee_id = some actor;
  entity_type = "order";
  entity_id = order_id;
  action = action;
  old_value = ("status", status_value from) ∷ [];
  new_value = new_value;
}

unfoldable pub accept_order : Env → ℕ → OrderActor → Action OrderView
accept_order env order_id actor = do
  done ← execute_transition env order_id accept actor none
  append (
      status_entry actor.id order_id "order_accepted" done.from_status
        (("status", status_value done.order.status) ∷ []))
  dto ← build_dto done.order actor.role
  emit (order_accepted dto)
  emit (order_status_changed order_id done.from_status done.order.status)
  pure dto

unfoldable pub advance_order : Env → ℕ → OrderActor → Action OrderView
advance_order env order_id actor = do
  done ← execute_transition env order_id advance actor none
  emit (order_status_changed order_id done.from_status done.order.status)
  build_dto done.order actor.role

unfoldable pub serve_order : Env → ℕ → OrderActor → Action OrderView
serve_order env order_id actor = do
  done ← execute_transition env order_id serve actor none
  emit (order_status_changed order_id done.from_status done.order.status)
  build_dto done.order actor.role

unfoldable pub cancel_order : Env → ℕ → String → OrderActor → Action OrderView
cancel_order env order_id reason actor = do
  done ← execute_transition env order_id cancel actor (some reason)
  append (
      status_entry actor.id order_id "order_cancelled" done.from_status
        (("status", status_value done.order.status) ∷ ("reason", text reason) ∷ []))
  emit (order_status_changed order_id done.from_status done.order.status)
  build_dto done.order actor.role
