-- ===== src/Orders/Service/Lifecycle.antt =====
-- The order lifecycle: which actions succeed, for whom, and what they change.
use smart_table.Prelude.{
  ℕ, ◌≡◌, ◌≢◌, ◌⊎◌, inl, inr, refl, true, false, ◌&&◌, String, Option, some, List, [], ◌∷◌, ◌==◌,
  arith, first, is_some, Option-cases,
}
use smart_table.Domain.{
  EmployeeRole, cashier, waiter, kitchen, OrderStatus, pending, accepted, preparing, ready, served,
  paid, completed, cancelled, ok, err, order_status_eq, role_eq, includes, DomainException,
}
use smart_table.Database.{OrderRow, Db, Env, transaction}
use smart_table.Effects.{World, ◌>>=◌}
use smart_table.Orders.Machine.{
  OrderAction, accept, advance, serve, cancel, transition_rules, is_cancel_refused,
  transition_fields,
}
use smart_table.Orders.Repository.{
  find_order_by_id, lacks_reason, is_order_in, set_status, TransitionInput,
  transition_status_transaction, transitioned,
}
use smart_table.Orders.Service.{
  OrderActor, Executed, is_cancel, transition_input, execute_transition,
}

-- The moves of the lifecycle, as the product requirements list them.
abbrev pub IsMove : OrderAction → OrderStatus → OrderStatus → Type 0
IsMove accept from to = (from ≡ pending) × (to ≡ accepted)
IsMove advance from to =
    ((from ≡ accepted) × (to ≡ preparing)) ⊎ ((from ≡ preparing) × (to ≡ ready))
IsMove serve from to = (from ≡ ready) × (to ≡ served)
IsMove cancel from to = (from ≢ paid) × (from ≢ completed) × (from ≢ cancelled) × (to ≡ cancelled)

-- Who may act: the kitchen prepares, the waiter serves, and cancels while the order is pending;
-- the owner and the manager do all.
abbrev pub IsAllowed : OrderAction → EmployeeRole → OrderStatus → Type 0
IsAllowed accept role from = (role ≢ cashier) × (role ≢ waiter)
IsAllowed advance role from = (role ≢ cashier) × (role ≢ waiter)
IsAllowed serve role from = (role ≢ cashier) × (role ≢ kitchen)
IsAllowed cancel role from =
    (role ≢ cashier) × (role ≢ kitchen) × ((role ≢ waiter) ⊎ (from ≡ pending))

-- A cancellation carries a reason.
abbrev pub HasReason : OrderAction → Option String → Type 0
HasReason cancel reason = is_some reason ≡ true
HasReason _ reason = Unit

transition_sound :
    (env : Env) (input : TransitionInput) (db db' : Db) (o row : OrderRow) (from : OrderStatus)
    → find_order_by_id input.order_id db ≡ some o
    → transition_status_transaction env input db ≡ some (transitioned row from, db')
    → (row.status ≡ input.to_status) × (from ≡ o.status)
unfolding transition_status_transaction set_status
transition_sound env input db db' o row from f h = ground arith

-- What has passed when an action succeeds: each of the checks.
record Passed (action : OrderAction) (role : EmployeeRole) (from : OrderStatus) : Type 0 where
  expected : includes order_status_eq (transition_rules action).expected_from from ≡ true
  role_listed : includes role_eq (transition_rules action).roles role ≡ true
  not_refused : (is_cancel action && is_cancel_refused role from) ≡ false

execute_transition-Passed :
    (env : Env) (id : ℕ) (action : OrderAction) (actor : OrderActor) (reason : Option String)
    (w : World) (o : OrderRow) (done : Executed)
    → find_order_by_id id w.db ≡ some o
    → (execute_transition env id action actor reason w).0 ≡ ok done
    → Passed action actor.role o.status
      × (done.from_status ≡ o.status)
      × (done.order.status ≡ (transition_rules action).to_status o.status)
unfolding execute_transition ◌>>=◌
execute_transition-Passed env id action actor reason w o done f h = ground (
  arith,
  transition_sound env (transition_input id action actor reason o.status) w.db
      (transaction
        (transition_status_transaction env (transition_input id action actor reason o.status))
        w.db).1
      o done.order done.from_status,
)

-- The checks of the code amount to the lifecycle.
Passed-IsMove :
    (action : OrderAction) (role : EmployeeRole) (from : OrderStatus)
    → Passed action role from
    → IsMove action from ((transition_rules action).to_status from) × IsAllowed action role from
unfolding transition_rules is_cancel_refused
Passed-IsMove accept role from p = ground arith
Passed-IsMove advance role from p = ground arith
Passed-IsMove serve role from p = ground arith
Passed-IsMove cancel role from p = ground arith

-- An action that succeeds was a move of the lifecycle, made by someone who may make it.
pub execute_transition_sound :
    (env : Env) (id : ℕ) (action : OrderAction) (actor : OrderActor) (reason : Option String)
    (w : World) (done : Executed)
    → (execute_transition env id action actor reason w).0 ≡ ok done
    → IsMove action done.from_status done.order.status
      × IsAllowed action actor.role done.from_status
execute_transition_sound env id action actor reason w done h =
    elim (Option-cases (find_order_by_id id w.db)) [
      | inl e ↦ absurd (unfold execute_transition ◌>>=◌ in ground arith)
      | inr (o, e) ↦
          let (p, from, to) = execute_transition-Passed env id action actor reason w o done e h in
          rw (from, to) (Passed-IsMove action actor.role o.status p)
    ]

-- The row that is found by its id is found by its id and status.
pub first-is_order_in :
    (id : ℕ) (orders : List OrderRow) (o : OrderRow)
    → first (λ (r : OrderRow). r.id == id) orders ≡ some o
    → first (is_order_in id o.status) orders ≡ some o
unfolding first
first-is_order_in id [] o h = cc
first-is_order_in id (r ∷ orders) o h = ground (arith, first-is_order_in id orders o)

IsMove-Passed :
    (action : OrderAction) (role : EmployeeRole) (from to : OrderStatus)
    → IsMove action from to
    → IsAllowed action role from
    → Passed action role from × ((transition_rules action).to_status from ≡ to)
unfolding transition_rules is_cancel_refused
IsMove-Passed accept role from to m a = ground arith
IsMove-Passed advance role from to m a = ground arith
IsMove-Passed serve role from to m a = ground arith
IsMove-Passed cancel role from to m a = ground arith

-- The check on the column `cancellation_reason` passes.
has_reason :
    (action : OrderAction) (actor : ℕ) (reason : Option String) (to : OrderStatus) (o : OrderRow)
    (now : ℕ)
    → IsMove action o.status to
    → HasReason action reason
    → lacks_reason (set_status to (transition_fields action actor reason) now o) ≡ false
unfolding set_status transition_fields
has_reason accept actor reason to o now m r = ground arith
has_reason advance actor reason to o now m r = ground arith
has_reason serve actor reason to o now m r = ground arith
has_reason cancel actor reason to o now m r = ground arith

transition_lands :
    (env : Env) (input : TransitionInput) (db : Db) (o : OrderRow)
    → find_order_by_id input.order_id db ≡ some o
    → includes order_status_eq input.expected_from o.status ≡ true
    → lacks_reason (set_status input.to_status input.set_fields env.now o) ≡ false
    → (transaction (transition_status_transaction env input) db).0
      ≡ some (transitioned (set_status input.to_status input.set_fields env.now o) o.status)
unfolding transition_status_transaction find_order_by_id transaction
transition_lands env input db o f i l =
    ground (arith, first-is_order_in input.order_id db.orders o f)

Passed-executes :
    (env : Env) (id : ℕ) (action : OrderAction) (actor : OrderActor) (reason : Option String)
    (w : World) (o : OrderRow) (to : OrderStatus)
    → find_order_by_id id w.db ≡ some o
    → Passed action actor.role o.status
    → (transition_rules action).to_status o.status ≡ to
    → lacks_reason (set_status to (transition_fields action actor.id reason) env.now o) ≡ false
    → (execute_transition env id action actor reason w).0
      ≡ ok (record {
        order = set_status to (transition_fields action actor.id reason) env.now o;
        from_status = o.status;
      })
unfolding execute_transition ◌>>=◌
Passed-executes env id action actor reason w o to f p reached l =
    ground (arith, transition_lands env (transition_input id action actor reason o.status) w.db o f)

-- Conversely, a move of the lifecycle by someone who may make it succeeds.
pub execute_transition_complete :
    (env : Env) (id : ℕ) (action : OrderAction) (actor : OrderActor) (reason : Option String)
    (w : World) (o : OrderRow) (to : OrderStatus)
    → find_order_by_id id w.db ≡ some o
    → IsMove action o.status to
    → IsAllowed action actor.role o.status
    → HasReason action reason
    → (done : Executed) × ((execute_transition env id action actor reason w).0 ≡ ok done)
      × (done.from_status ≡ o.status)
      × (done.order.status ≡ to)
execute_transition_complete env id action actor reason w o to f m a r =
    let (p, reached) = IsMove-Passed action actor.role o.status to m a in
    (
      record {
        order = set_status to (transition_fields action actor.id reason) env.now o;
        from_status = o.status;
      },
      Passed-executes env id action actor reason w o to f p reached
          (has_reason action actor.id reason to o env.now m r),
      refl,
      unfold set_status in refl,
    )

-- An action that throws changes nothing.
pub execute_transition_error :
    (env : Env) (id : ℕ) (action : OrderAction) (actor : OrderActor) (reason : Option String)
    (w : World) (e : DomainException)
    → (execute_transition env id action actor reason w).0 ≡ err e
    → (execute_transition env id action actor reason w).1 ≡ w
unfolding execute_transition transition_status_transaction ◌>>=◌
execute_transition_error env id action actor reason w e h = ground arith
