-- ===== src/Orders/Machine.antt =====
-- The order state machine of orders.service.ts: the rules as data, and the checks on a rule.
use smart_table.Prelude.{
  ℕ, Bool, not, ◌&&◌, String, Option, none, some, List, [], ◌∷◌, if◌then◌else◌,
}
use smart_table.Domain.{
  EmployeeRole, owner, manager, waiter, kitchen, OrderStatus, pending, accepted, preparing, ready,
  served, cancelled, role_eq, order_status_eq,
}

pub data OrderAction : Type 0 where
  accept advance serve cancel : OrderAction

pub record TransitionRule : Type 0 where
  pub expected_from : List OrderStatus
  pub to_status : OrderStatus → OrderStatus
  pub roles : List EmployeeRole

unfoldable pub transition_rules : OrderAction → TransitionRule
transition_rules accept = record {
  expected_from = pending ∷ [];
  to_status = λ _. accepted;
  roles = owner ∷ manager ∷ kitchen ∷ [];
}
transition_rules advance = record {
  expected_from = accepted ∷ preparing ∷ [];
  to_status = λ from. if order_status_eq from accepted then preparing else ready;
  roles = owner ∷ manager ∷ kitchen ∷ [];
}
transition_rules serve = record {
  expected_from = ready ∷ [];
  to_status = λ _. served;
  roles = owner ∷ manager ∷ waiter ∷ [];
}
transition_rules cancel = record {
  expected_from = pending ∷ accepted ∷ preparing ∷ ready ∷ served ∷ [];
  to_status = λ _. cancelled;
  roles = owner ∷ manager ∷ waiter ∷ [];
}

-- The waiter's window: `true` when the cancellation is refused.
unfoldable pub is_cancel_refused : EmployeeRole → OrderStatus → Bool
is_cancel_refused role from = role_eq role waiter && not (order_status_eq from pending)

-- The columns that a transition sets beside the status; an absent one is left as it is.
pub record TransitionFields : Type 0 where
  pub accepted_by_employee_id : Option ℕ
  pub served_by_employee_id : Option ℕ
  pub cancelled_by_employee_id : Option ℕ
  pub cancellation_reason : Option String

abbrev pub no_fields : TransitionFields
no_fields = record {
  accepted_by_employee_id = none;
  served_by_employee_id = none;
  cancelled_by_employee_id = none;
  cancellation_reason = none;
}

unfoldable pub transition_fields : OrderAction → ℕ → Option String → TransitionFields
transition_fields accept actor reason = record no_fields { accepted_by_employee_id = some actor }
transition_fields serve actor reason = record no_fields { served_by_employee_id = some actor }
transition_fields cancel actor reason = record no_fields {
  cancelled_by_employee_id = some actor;
  cancellation_reason = reason;
}
transition_fields advance actor reason = no_fields
