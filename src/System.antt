-- ===== src/System.antt =====
-- The requests that the server answers, one after the other: the driver runs each transaction in
-- one piece, and a request runs without another in between (what happens otherwise is in
-- `Visits.Race`).
pub mod Steps
pub mod Interface
pub mod Frames
pub mod Safety
pub mod Shifts
pub mod Reports
use smart_table.Prelude.{ℕ, String, Option, List, [], ◌∷◌}
use smart_table.Database.{Env}
use smart_table.Effects.{World}
use smart_table.Orders.Repository.{OrderItemWriteInput}
use smart_table.Orders.Service.{
  OrderActor, create_staff_order, create_public_order, create_addon_order, accept_order,
  advance_order, serve_order, cancel_order,
}
use smart_table.Billing.Service.{record_payment}
use smart_table.Billing.Shifts.{open_shift_for, close_shift}
use smart_table.Tables.{
  create_hall, create_table, update_table, remove_table, regenerate_qr, mark_cleaned,
}

-- The calls of the services that write.
pub data Request : Type 0 where
  staff_order : ℕ → List OrderItemWriteInput → OrderActor → Request
  public_order : ℕ → List OrderItemWriteInput → Option String → Request
  addon_order : ℕ → List OrderItemWriteInput → OrderActor → Request
  accept advance serve : ℕ → OrderActor → Request
  cancel : ℕ → String → OrderActor → Request
  pay : ℕ → OrderActor → Request
  start_shift : ℕ → OrderActor → Request
  end_shift : ℕ → ℕ → OrderActor → Request
  add_hall : String → Option ℕ → Request
  add_table : ℕ → String → Request
  edit_table : ℕ → Option String → Option ℕ → Request
  drop_table : ℕ → Request
  new_token : ℕ → ℕ → Request
  clean : ℕ → Request

-- The world after a request, whether it succeeded or threw.
unfoldable pub handle : Env → Request → World → World
handle env (staff_order table_id items actor) w = (create_staff_order env table_id items actor w).1
handle env (public_order token items ip) w = (create_public_order env token items ip w).1
handle env (addon_order parent items actor) w = (create_addon_order env parent items actor w).1
handle env (accept id actor) w = (accept_order env id actor w).1
handle env (advance id actor) w = (advance_order env id actor w).1
handle env (serve id actor) w = (serve_order env id actor w).1
handle env (cancel id reason actor) w = (cancel_order env id reason actor w).1
handle env (pay group_id actor) w = (record_payment env group_id actor w).1
handle env (start_shift opening actor) w = (open_shift_for env opening actor w).1
handle env (end_shift id closing actor) w = (close_shift env id closing actor w).1
handle env (add_hall name sort_order) w = (create_hall env name sort_order w).1
handle env (add_table hall_id label) w = (create_table env hall_id label w).1
handle env (edit_table id label hall_id) w = (update_table env id label hall_id w).1
handle env (drop_table id) w = (remove_table env id w).1
handle env (new_token id actor) w = (regenerate_qr env id actor w).1
handle env (clean id) w = (mark_cleaned env id w).1

-- Requests, each with its own clock and ids.
unfoldable pub run : List (Env × Request) → World → World
run [] w = w
run ((env, r) ∷ rs) w = run rs (handle env r w)
