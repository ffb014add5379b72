-- ===== src/System/Interface.antt =====
-- What a property of the tables has to promise about each transaction, so that every request keeps
-- it.
use smart_table.Prelude.{ℕ, ◌≡◌, refl, false, String, Option, none, some, List, [], ◌∷◌}
use smart_table.Database.{Env, Db}
use smart_table.Effects.{World}
use smart_table.Effects.Keeps.{Keeps, TxKeeps}
use smart_table.Orders.Machine.{OrderAction}
use smart_table.Orders.Repository.{
  OrderItemWriteInput, CreateOrderInput, create_order_transaction, TransitionInput,
  transition_status_transaction,
}
use smart_table.Orders.Service.{
  OrderActor, create_staff_order, create_public_order, create_addon_order, accept_order,
  advance_order, serve_order, cancel_order, execute_transition,
}
use smart_table.Billing.Payment.{RecordPaymentInput, record_payment_transaction}
use smart_table.Billing.Service.{record_payment}
use smart_table.Billing.Shifts.{
  open_shift_transaction, close_shift_transaction, open_shift_for, close_shift,
}
use smart_table.Tables.{
  create_hall, create_table, update_table, remove_table, regenerate_qr, mark_cleaned,
  create_table_tx, update_tx, regenerate_tx, TableChanges, no_changes,
}
use smart_table.System.{Request, handle, run}
use smart_table.System.Steps.{service_rules}

pub record KeepsWrites (P : Db → Type 0) : Type 0 where
  pub create_order :
      (env : Env) (input : CreateOrderInput) → TxKeeps P (create_order_transaction env input)
  pub transition :
      (env : Env) (input : TransitionInput) → TxKeeps P (transition_status_transaction env input)
  pub payment :
      (env : Env) (input : RecordPaymentInput) → TxKeeps P (record_payment_transaction env input)
  pub open_shift :
      (env : Env) (employee opening : ℕ) → TxKeeps P (open_shift_transaction env employee opening)
  pub close_shift :
      (env : Env) (id closing : ℕ) → TxKeeps P (close_shift_transaction env id closing)
  pub create_hall :
      (env : Env) (name : String) (sort : Option ℕ) → Keeps P (create_hall env name sort)
  pub create_table :
      (env : Env) (hall : ℕ) (label : String) → TxKeeps P (create_table_tx env hall label)
  pub regenerate : (env : Env) (id : ℕ) → TxKeeps P (regenerate_tx env id)
  pub update_table :
      (env : Env) (id : ℕ) (c : TableChanges) → c.status ≡ none → TxKeeps P (update_tx env id c)
  pub mark_cleaned : (env : Env) (id : ℕ) → Keeps P (mark_cleaned env id)

module _ {P : Db → Type 0} (k : KeepsWrites P) where
  Keeps-execute :
      (env : Env) (id : ℕ) (a : OrderAction) (actor : OrderActor) (reason : Option String)
      → Keeps P (execute_transition env id a actor reason)
  unfolding execute_transition
  Keeps-execute env id a actor reason = search (service_rules, k.transition) depth 12

  Keeps-create_staff_order :
      (env : Env) (t : ℕ) (is : List OrderItemWriteInput) (a : OrderActor)
      → Keeps P (create_staff_order env t is a)
  unfolding create_staff_order
  Keeps-create_staff_order env t is a = search (service_rules, k.create_order) depth 15

  Keeps-create_public_order :
      (env : Env) (t : ℕ) (is : List OrderItemWriteInput) (ip : Option String)
      → Keeps P (create_public_order env t is ip)
  unfolding create_public_order
  Keeps-create_public_order env t is ip = search (service_rules, k.create_order) depth 15

  Keeps-create_addon_order :
      (env : Env) (o : ℕ) (is : List OrderItemWriteInput) (a : OrderActor)
      → Keeps P (create_addon_order env o is a)
  unfolding create_addon_order
  Keeps-create_addon_order env o is a = search (service_rules, k.create_order) depth 15

  Keeps-accept_order : (env : Env) (o : ℕ) (a : OrderActor) → Keeps P (accept_order env o a)
  unfolding accept_order
  Keeps-accept_order env o a = search (service_rules, Keeps-execute) depth 15

  Keeps-advance_order : (env : Env) (o : ℕ) (a : OrderActor) → Keeps P (advance_order env o a)
  unfolding advance_order
  Keeps-advance_order env o a = search (service_rules, Keeps-execute) depth 15

  Keeps-serve_order : (env : Env) (o : ℕ) (a : OrderActor) → Keeps P (serve_order env o a)
  unfolding serve_order
  Keeps-serve_order env o a = search (service_rules, Keeps-execute) depth 15

  Keeps-cancel_order :
      (env : Env) (o : ℕ) (reason : String) (a : OrderActor) → Keeps P (cancel_order env o reason a)
  unfolding cancel_order
  Keeps-cancel_order env o reason a = search (service_rules, Keeps-execute) depth 15

  Keeps-record_payment : (env : Env) (g : ℕ) (a : OrderActor) → Keeps P (record_payment env g a)
  unfolding record_payment
  Keeps-record_payment env g a = search (service_rules, k.payment) depth 15

  Keeps-open_shift_for :
      (env : Env) (opening : ℕ) (a : OrderActor) → Keeps P (open_shift_for env opening a)
  unfolding open_shift_for
  Keeps-open_shift_for env opening a = search (service_rules, k.open_shift) depth 15

  Keeps-close_shift :
      (env : Env) (id closing : ℕ) (a : OrderActor) → Keeps P (close_shift env id closing a)
  unfolding close_shift
  Keeps-close_shift env id closing a = search (service_rules, k.close_shift) depth 15

  Keeps-create_table :
      (env : Env) (hall : ℕ) (label : String) → Keeps P (create_table env hall label)
  unfolding create_table
  Keeps-create_table env hall label = search (service_rules, k.create_table) depth 15

  Keeps-regenerate_qr : (env : Env) (id actor : ℕ) → Keeps P (regenerate_qr env id actor)
  unfolding regenerate_qr
  Keeps-regenerate_qr env id actor = search (service_rules, k.regenerate) depth 15

  Keeps-update_table :
      (env : Env) (id : ℕ) (label : Option String) (hall : Option ℕ)
      → Keeps P (update_table env id label hall)
  unfolding update_table
  Keeps-update_table env id label hall =
      let body = k.update_table env id (record no_changes { label = label; hall_id = hall }) refl in
      search (service_rules, body) depth 15

  Keeps-remove_table : (env : Env) (id : ℕ) → Keeps P (remove_table env id)
  unfolding remove_table
  Keeps-remove_table env id =
      let body = k.update_table env id (record no_changes { is_active = some false }) refl in
      search (service_rules, body) depth 15

  -- Every request keeps the property, whether it succeeds or throws.
  pub handle_keeps : (env : Env) (r : Request) (w : World) → P w.db → P (handle env r w).db
  unfolding handle
  handle_keeps env (Request.staff_order t is a) w h = (Keeps-create_staff_order env t is a).at w h
  handle_keeps env (Request.public_order t is ip) w h =
      (Keeps-create_public_order env t is ip).at w h
  handle_keeps env (Request.addon_order o is a) w h = (Keeps-create_addon_order env o is a).at w h
  handle_keeps env (Request.accept o a) w h = (Keeps-accept_order env o a).at w h
  handle_keeps env (Request.advance o a) w h = (Keeps-advance_order env o a).at w h
  handle_keeps env (Request.serve o a) w h = (Keeps-serve_order env o a).at w h
  handle_keeps env (Request.cancel o reason a) w h = (Keeps-cancel_order env o reason a).at w h
  handle_keeps env (Request.pay g a) w h = (Keeps-record_payment env g a).at w h
  handle_keeps env (Request.start_shift opening a) w h = (Keeps-open_shift_for env opening a).at w h
  handle_keeps env (Request.end_shift id closing a) w h =
      (Keeps-close_shift env id closing a).at w h
  handle_keeps env (Request.add_hall name sort) w h = (k.create_hall env name sort).at w h
  handle_keeps env (Request.add_table hall label) w h = (Keeps-create_table env hall label).at w h
  handle_keeps env (Request.edit_table id label hall) w h =
      (Keeps-update_table env id label hall).at w h
  handle_keeps env (Request.drop_table id) w h = (Keeps-remove_table env id).at w h
  handle_keeps env (Request.new_token id actor) w h = (Keeps-regenerate_qr env id actor).at w h
  handle_keeps env (Request.clean id) w h = (k.mark_cleaned env id).at w h

  -- So does every sequence of requests.
  pub run_keeps : (rs : List (Env × Request)) (w : World) → P w.db → P (run rs w).db
  unfolding run
  run_keeps [] w h = h
  run_keeps ((env, r) ∷ rs) w h = run_keeps rs (handle env r w) (handle_keeps env r w h)
