-- ===== src/System/Shifts.antt =====
-- The cash shifts, after any sequence of requests: nothing else writes them.
use smart_table.Prelude.{ℕ, ◌≡◌, refl, String, Option, none, some, List, arith, ◌⊎◌, inl, inr}
use smart_table.Database.{TableRow, Env, Db, insert_unique}
use smart_table.Effects.{World, ◌>>=◌}
use smart_table.Orders.Repository.{
  CreateOrderInput, CreateOrderResult, create_order_transaction, TransitionInput, TransitionResult,
  transition_status_transaction, resolve_group, ResolvedGroup, resolved, not_open, with_group,
  place_order,
}
use smart_table.Billing.Payment.{
  RecordPaymentInput, RecordPaymentResult, Gate, refuse, charge, settle_group, pass_gate,
  payment_gate, record_payment_transaction,
}
use smart_table.Billing.Shifts.Rules.{
  OneOpenShift, OneOpenShift-same, open_shift-OneOpenShift, close_shift-OneOpenShift,
}
use smart_table.Tables.{
  create_hall, create_table_tx, regenerate_tx, update_tx, mark_cleaned, insert_table,
  update_table_row, new_table, TableChanges, written,
}
use smart_table.Visits.Floor.{TxKeeps-with_retries}
use smart_table.System.{Request, run}
use smart_table.System.Interface.{KeepsWrites, run_keeps}

with_group-shifts :
    (env : Env) (input : CreateOrderInput) (o : Option ResolvedGroup) (db db' : Db)
    {r : CreateOrderResult}
    → with_group env input o db ≡ some (r, db')
    → db'.shifts ≡ db.shifts
with_group-shifts env input none db db' h = cc
with_group-shifts env input (some not_open) db db' h = ground arith
with_group-shifts env input (some (resolved g n gs)) db db' h = unfold place_order in ground arith

create_order-shifts :
    (env : Env) (input : CreateOrderInput) (db db' : Db) {r : CreateOrderResult}
    → create_order_transaction env input db ≡ some (r, db')
    → db'.shifts ≡ db.shifts
unfolding create_order_transaction
create_order-shifts env input db db' {r} h = elim cases [
  | inl e ↦ rw (← e) refl
  | inr e ↦ with_group-shifts env input (resolve_group env input db) db db' {r = r} e
]
  where
    cases : (db ≡ db') ⊎ (with_group env input (resolve_group env input db) db ≡ some (r, db'))
    cases = ground arith

pass_gate-shifts :
    (env : Env) (input : RecordPaymentInput) (gate : Gate) (db db' : Db) {r : RecordPaymentResult}
    → pass_gate env input gate db ≡ some (r, db')
    → db'.shifts ≡ db.shifts
unfolding settle_group
pass_gate-shifts env input (refuse x) db db' h = ground arith
pass_gate-shifts env input (charge g billable) db db' h = ground arith

transition-shifts :
    (env : Env) (input : TransitionInput) (db db' : Db) {r : TransitionResult}
    → transition_status_transaction env input db ≡ some (r, db')
    → db'.shifts ≡ db.shifts
unfolding transition_status_transaction
transition-shifts env input db db' h = ground arith

insert_table-shifts :
    (row : TableRow) (db db' : Db) {a : TableRow}
    → insert_table row db ≡ written (a, db')
    → db'.shifts ≡ db.shifts
unfolding insert_table insert_unique
insert_table-shifts row db db' h = ground arith

update_row-shifts :
    (env : Env) (id : ℕ) (c : TableChanges) (db db' : Db) {a : Option TableRow}
    → update_table_row env id c db ≡ written (a, db')
    → db'.shifts ≡ db.shifts
unfolding update_table_row
update_row-shifts env id c db db' h = ground arith

create_hall-shifts :
    (env : Env) (name : String) (sort : Option ℕ) (w : World)
    → (create_hall env name sort w).1.db.shifts ≡ w.db.shifts
unfolding create_hall ◌>>=◌ insert_unique
create_hall-shifts env name sort w = ground arith

mark_cleaned-shifts :
    (env : Env) (id : ℕ) (w : World) → (mark_cleaned env id w).1.db.shifts ≡ w.db.shifts
unfolding mark_cleaned update_tx update_table_row ◌>>=◌
mark_cleaned-shifts env id w = ground arith

shifts_kept : KeepsWrites OneOpenShift
shifts_kept = record {
  create_order = λ env input. record {
    commits = λ db {a} {db'} h v.
        OneOpenShift-same db db' (create_order-shifts env input db db' {r = a} h) v;
  };
  transition = λ env input. record {
    commits = λ db {a} {db'} h v.
        OneOpenShift-same db db' (transition-shifts env input db db' {r = a} h) v;
  };
  payment = λ env input. record {
    commits = λ db {a} {db'} h v.
        OneOpenShift-same db db'
          (pass_gate-shifts env input (payment_gate input db) db db' {r = a}
            (unfold record_payment_transaction in h))
          v;
  };
  open_shift = λ env employee opening. record {
    commits = λ db {a} {db'} h v. open_shift-OneOpenShift env employee opening db db' {r = a} h v;
  };
  close_shift = λ env id closing. record {
    commits = λ db {a} {db'} h v. close_shift-OneOpenShift env id closing db db' {r = a} h v;
  };
  create_hall = λ env name sort. record {
    at = λ w v.
        OneOpenShift-same w.db (create_hall env name sort w).1.db
          (create_hall-shifts env name sort w) v;
  };
  create_table = λ env hall label.
      unfold create_table_tx in
      TxKeeps-with_retries 3 0 _ (λ j db a db' h v.
        OneOpenShift-same db db' (insert_table-shifts (new_table env hall label j) db db' h) v);
  regenerate = λ env id.
      unfold regenerate_tx in
      TxKeeps-with_retries 3 0 _
        (λ j db a db' h v. OneOpenShift-same db db' (update_row-shifts env id _ db db' h) v);
  update_table = λ env id c calm. record {
    commits = λ db {a} {db'} h v.
        OneOpenShift-same db db'
          (update_row-shifts env id c db db' {a = a} (unfold update_tx in ground arith)) v;
  };
  mark_cleaned = λ env id. record {
    at =
        λ w v. OneOpenShift-same w.db (mark_cleaned env id w).1.db (mark_cleaned-shifts env id w) v;
  };
}

-- Any sequence of requests, each run in one piece and each either succeeding or throwing, keeps
-- the shifts: an employee has one open shift at most.
pub run-OneOpenShift :
    (rs : List (Env × Request)) (w : World) → OneOpenShift w.db → OneOpenShift (run rs w).db
run-OneOpenShift = run_keeps shifts_kept
