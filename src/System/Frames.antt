-- ===== src/System/Frames.antt =====
-- What the writes leave alone of the tables that hold the money.
use smart_table.Prelude.{ℕ, ◌≡◌, refl, String, Option, none, some, arith, inl, inr, ◌⊎◌}
use smart_table.Database.{TableRow, Env, Db, insert_unique}
use smart_table.Rollups.Sums.{
  revenue, dine_in_revenue, delivery_revenue, revenue-increment_cancelled,
}
use smart_table.Effects.{World, ◌>>=◌}
use smart_table.Effects.Keeps.{TxKeeps}
use smart_table.Orders.Repository.{
  CreateOrderInput, CreateOrderResult, create_order_transaction, with_group, place_order,
  resolve_group, ResolvedGroup, resolved, not_open, TransitionInput, TransitionResult,
  transition_status_transaction,
}
use smart_table.Billing.Payment.Money.{IsReconciled}
use smart_table.Billing.Shifts.{
  OpenShiftResult, CloseShiftResult, open_shift_transaction, close_shift_transaction,
}
use smart_table.Tables.{
  create_hall, update_tx, mark_cleaned, insert_table, update_table_row, TableChanges, written,
}

-- The tables that hold the money, of which most writes change none.
pub record SameMoney (db db' : Db) : Type 0 where
  pub payments : db'.payments ≡ db.payments
  pub daily : db'.sales_rollup_daily ≡ db.sales_rollup_daily
  pub hourly : db'.sales_rollup_hourly ≡ db.sales_rollup_hourly

pub SameMoney-refl : (db db' : Db) → db ≡ db' → SameMoney db db'
SameMoney-refl db db' e = rw (← e) (record { payments = refl; daily = refl; hourly = refl })

pub IsReconciled-same : (db db' : Db) → SameMoney db db' → IsReconciled db → IsReconciled db'
IsReconciled-same db db' s v = record {
  daily = rw (s.payments, s.daily) v.daily;
  hourly = rw (s.payments, s.hourly) v.hourly;
  channels = rw (s.payments, s.daily) v.channels;
}

pub place_order-SameMoney :
    (env : Env) (input : CreateOrderInput) (o : Option ResolvedGroup) (db db' : Db)
    {r : CreateOrderResult}
    → with_group env input o db ≡ some (r, db')
    → SameMoney db db'
place_order-SameMoney env input none db db' h = cc
place_order-SameMoney env input (some not_open) db db' h = SameMoney-refl db db' (ground arith)
place_order-SameMoney env input (some (resolved g n gs)) db db' h =
    unfold place_order in
    record { payments = ground arith; daily = ground arith; hourly = ground arith }

pub create_order-SameMoney :
    (env : Env) (input : CreateOrderInput) (db db' : Db) {r : CreateOrderResult}
    → create_order_transaction env input db ≡ some (r, db')
    → SameMoney db db'
unfolding create_order_transaction
create_order-SameMoney env input db db' {r} h = elim cases [
  | inl e ↦ SameMoney-refl db db' e
  | inr e ↦ place_order-SameMoney env input (resolve_group env input db) db db' {r = r} e
]
  where
    cases : (db ≡ db') ⊎ (with_group env input (resolve_group env input db) db ≡ some (r, db'))
    cases = ground arith

pub create_order-IsReconciled :
    (env : Env) (input : CreateOrderInput)
    → TxKeeps IsReconciled (create_order_transaction env input)
create_order-IsReconciled env input = record {
  commits = λ db {a} {db'} h v.
      IsReconciled-same db db' (create_order-SameMoney env input db db' {r = a} h) v;
}

-- A transition writes at most one cancellation into the daily table, which changes no revenue.
pub transition-daily :
    (env : Env) (input : TransitionInput) (db db' : Db) {r : TransitionResult}
    → transition_status_transaction env input db ≡ some (r, db')
    → (revenue db'.sales_rollup_daily ≡ revenue db.sales_rollup_daily)
      × (dine_in_revenue db'.sales_rollup_daily ≡ dine_in_revenue db.sales_rollup_daily)
      × (delivery_revenue db'.sales_rollup_daily ≡ delivery_revenue db.sales_rollup_daily)
      × (db'.payments ≡ db.payments)
      × (db'.sales_rollup_hourly ≡ db.sales_rollup_hourly)
unfolding transition_status_transaction
transition-daily env input db db' h = ground (
  arith,
  revenue-increment_cancelled (env.rollup_bucket_for env.now) env.now db.sales_rollup_daily,
)

pub transition-IsReconciled :
    (env : Env) (input : TransitionInput)
    → TxKeeps IsReconciled (transition_status_transaction env input)
transition-IsReconciled env input = record {
  commits = λ db {a} {db'} h v.
      let (d, di, de, p, hr) = transition-daily env input db db' {r = a} h in
      record {
        daily = rw (p, d) v.daily;
        hourly = rw (p, hr) v.hourly;
        channels = rw (p, di, de) v.channels;
      };
}

-- The shifts, the halls and the tables are beside both the money and the visits.
pub open_shift-frame :
    (env : Env) (employee opening : ℕ) (db db' : Db) {r : OpenShiftResult}
    → open_shift_transaction env employee opening db ≡ some (r, db')
    → SameMoney db db' × (db'.tables ≡ db.tables) × (db'.table_bill_groups ≡ db.table_bill_groups)
unfolding open_shift_transaction insert_unique
open_shift-frame env employee opening db db' h = (
  record { payments = ground arith; daily = ground arith; hourly = ground arith },
  ground arith,
  ground arith,
)

pub close_shift-frame :
    (env : Env) (id closing : ℕ) (db db' : Db) {r : CloseShiftResult}
    → close_shift_transaction env id closing db ≡ some (r, db')
    → SameMoney db db' × (db'.tables ≡ db.tables) × (db'.table_bill_groups ≡ db.table_bill_groups)
unfolding close_shift_transaction
close_shift-frame env id closing db db' h = (
  record { payments = ground arith; daily = ground arith; hourly = ground arith },
  ground arith,
  ground arith,
)

pub create_hall-frame :
    (env : Env) (name : String) (sort : Option ℕ) (w : World)
    → let db' = (create_hall env name sort w).1.db in
      SameMoney w.db db'
      × (db'.tables ≡ w.db.tables)
      × (db'.table_bill_groups ≡ w.db.table_bill_groups)
unfolding create_hall ◌>>=◌ insert_unique
create_hall-frame env name sort w = (
  record { payments = ground arith; daily = ground arith; hourly = ground arith },
  ground arith,
  ground arith,
)

pub insert_table-SameMoney :
    (row : TableRow) (db db' : Db) {a : TableRow}
    → insert_table row db ≡ written (a, db')
    → SameMoney db db'
unfolding insert_table insert_unique
insert_table-SameMoney row db db' h = record {
  payments = ground arith;
  daily = ground arith;
  hourly = ground arith;
}

pub update_row-SameMoney :
    (env : Env) (id : ℕ) (c : TableChanges) (db db' : Db) {a : Option TableRow}
    → update_table_row env id c db ≡ written (a, db')
    → SameMoney db db'
unfolding update_table_row
update_row-SameMoney env id c db db' h = record {
  payments = ground arith;
  daily = ground arith;
  hourly = ground arith;
}

pub mark_cleaned-SameMoney :
    (env : Env) (id : ℕ) (w : World) → SameMoney w.db (mark_cleaned env id w).1.db
unfolding mark_cleaned update_tx update_table_row ◌>>=◌
mark_cleaned-SameMoney env id w = record {
  payments = ground arith;
  daily = ground arith;
  hourly = ground arith;
}
