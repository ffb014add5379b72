-- ===== src/Orders/Repository/Transitions.antt =====
-- `transitionStatusTransaction` of orders.repository.ts.
use smart_table.Prelude.{
  ℕ, Bool, not, ◌&&◌, Option, none, some, List, [], ◌∷◌, ◌++◌, ◌==◌, if◌then◌else◌, is_some, first,
  update,
}
use smart_table.Domain.{OrderStatus, cancelled, order_status_eq, includes}
use smart_table.Database.{OrderRow, Env, Tx}
use smart_table.Rollups.{increment_cancelled_order_rollup}
use smart_table.Orders.Machine.{TransitionFields}
use smart_table.Orders.Repository.Reads.{find_order_by_id}

pub record TransitionInput : Type 0 where
  pub order_id : ℕ
  pub expected_from : List OrderStatus
  pub to_status : OrderStatus
  pub actor_employee_id : Option ℕ
  pub set_fields : TransitionFields

pub data TransitionResult : Type 0 where
  transitioned : OrderRow → OrderStatus → TransitionResult
  order_not_found : TransitionResult
  conflict : OrderRow → TransitionResult

abbrev pub or_old {ℓ} : {A : Type ℓ} → Option A → Option A → Option A
or_old none old = old
or_old (some a) old = some a

unfoldable pub set_status : OrderStatus → TransitionFields → ℕ → OrderRow → OrderRow
set_status to_status fields now o = record o {
  status = to_status;
  accepted_by_employee_id = or_old fields.accepted_by_employee_id o.accepted_by_employee_id;
  served_by_employee_id = or_old fields.served_by_employee_id o.served_by_employee_id;
  cancelled_by_employee_id = or_old fields.cancelled_by_employee_id o.cancelled_by_employee_id;
  cancellation_reason = or_old fields.cancellation_reason o.cancellation_reason;
  updated_at = now;
}

-- where id = … and status = …
abbrev pub is_order_in : ℕ → OrderStatus → OrderRow → Bool
is_order_in id status o = o.id == id && order_status_eq o.status status

-- chk_orders_cancellation_reason
abbrev pub lacks_reason : OrderRow → Bool
lacks_reason o = order_status_eq o.status cancelled && not (is_some o.cancellation_reason)

unfoldable pub transition_status_transaction : Env → TransitionInput → Tx TransitionResult
transition_status_transaction env input db = elim (find_order_by_id input.order_id db) [
  | none ↦ some (order_not_found, db)
  | some current ↦
      if not (includes order_status_eq input.expected_from current.status)
      then some (conflict current, db)
      else elim (first (is_order_in input.order_id current.status) db.orders) [
        | none ↦ some (conflict current, db)
        | some row ↦
            let updated = set_status input.to_status input.set_fields env.now row in
            if lacks_reason updated
            then none
            else some (
              transitioned updated current.status,
              record db {
                orders =
                    update (is_order_in input.order_id current.status)
                      (set_status input.to_status input.set_fields env.now) db.orders;
                order_status_events =
                    db.order_status_events
                    ++ record {
                      order_id = input.order_id;
                      from_status = some current.status;
                      to_status = input.to_status;
                      actor_employee_id = input.actor_employee_id;
                      created_at = env.now;
                    }
                      ∷ [];
                sales_rollup_daily =
                    if order_status_eq input.to_status cancelled
                    then increment_cancelled_order_rollup (env.rollup_bucket_for env.now) env.now
                        db.sales_rollup_daily
                    else db.sales_rollup_daily;
              },
            )
      ]
]
