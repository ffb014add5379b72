-- ===== src/Visits/Create.antt =====
-- Creating an order: it opens a visit only at a table that has none, and it occupies that table.
use smart_table.Prelude.{
  ℕ, ◌≡◌, ◌⊎◌, refl, Bool, true, false, Option, none, some, List, [], ◌∷◌, ◌++◌, if◌then◌else◌,
  arith, first, is_some, inl, inr, count-append, first-eq_none-count, ◌∙◌,
}
use smart_table.Domain.{occupied}
use smart_table.Database.{BillGroupRow, Db, Env, insert_unique}
use smart_table.Orders.Repository.{
  CreateOrderInput, CreateOrderResult, find_table_by_id, refusing_status, ResolvedGroup, resolved,
  not_open, is_open_for, new_group, resolve_group, open_new_group, occupy_table, place_order,
  with_group, create_order_transaction,
}
use smart_table.Visits.Rows.{status_of, IsSeated, VisitsAgree, seat, status_of-occupy_table}

-- What a group that was resolved is, by the two tables.
abbrev IsResolution : Env → CreateOrderInput → Db → BillGroupRow → Bool → List BillGroupRow → Type 0
IsResolution env input db g true groups =
    (first (is_open_for input.table_id) db.table_bill_groups ≡ none)
    × (groups ≡ db.table_bill_groups ++ new_group env input.table_id ∷ [])
IsResolution env input db g false groups = groups ≡ db.table_bill_groups

open_new_group_lem :
    (env : Env) (table_id : ℕ) (db : Db) {g : BillGroupRow} {is_new : Bool}
    {groups : List BillGroupRow}
    → open_new_group env table_id db ≡ some (resolved g is_new groups)
    → (is_new ≡ true) × (groups ≡ db.table_bill_groups ++ new_group env table_id ∷ [])
unfolding open_new_group insert_unique
open_new_group_lem env table_id db h = ground arith

resolve_group_lem :
    (env : Env) (input : CreateOrderInput) (db : Db) (g : BillGroupRow) (is_new : Bool)
    (groups : List BillGroupRow)
    → resolve_group env input db ≡ some (resolved g is_new groups)
    → IsResolution env input db g is_new groups
unfolding resolve_group
resolve_group_lem env input db g true groups h =
    ground
      (arith, open_new_group_lem env input.table_id db {g = g} {is_new = true} {groups = groups})
resolve_group_lem env input db g false groups h =
    ground
      (arith, open_new_group_lem env input.table_id db {g = g} {is_new = false} {groups = groups})

place_order-floor :
    (env : Env) (input : CreateOrderInput) (g : BillGroupRow) (is_new : Bool)
    (groups : List BillGroupRow) (db : Db) {r : CreateOrderResult} {db' : Db}
    → place_order env input g is_new groups db ≡ some (r, db')
    → (db'.table_bill_groups ≡ groups)
      × (db'.tables ≡ (if is_new then occupy_table input.table_id env.now db.tables else db.tables))
      × (is_some (find_table_by_id input.table_id db) ≡ true)
unfolding place_order
place_order-floor env input g is_new groups db h = ground arith

-- Whatever the result, the floor is as it was, or one visit was opened at a table that had none.
data FloorChange (env : Env) (table_id : ℕ) (db db' : Db) : Type 0 where
  same :
      db'.table_bill_groups ≡ db.table_bill_groups
      → db'.tables ≡ db.tables
      → FloorChange env table_id db db'
  opened :
      first (is_open_for table_id) db.table_bill_groups ≡ none
      → db'.table_bill_groups ≡ db.table_bill_groups ++ new_group env table_id ∷ []
      → db'.tables ≡ occupy_table table_id env.now db.tables
      → is_some (find_table_by_id table_id db) ≡ true
      → FloorChange env table_id db db'

with_group-change :
    (env : Env) (input : CreateOrderInput) (db : Db) (o : Option ResolvedGroup)
    {r : CreateOrderResult} {db' : Db}
    → resolve_group env input db ≡ o
    → with_group env input o db ≡ some (r, db')
    → FloorChange env input.table_id db db'
with_group-change env input db none e h = cc
with_group-change env input db (some not_open) e h = same (ground arith) (ground arith)
with_group-change env input db (some (resolved g true groups)) e h =
    let (floor, seats, there) = place_order-floor env input g true groups db h in
    let (free, grown) = resolve_group_lem env input db g true groups e in
    opened free (floor ∙ grown) seats there
with_group-change env input db (some (resolved g false groups)) e h =
    let (floor, seats, there) = place_order-floor env input g false groups db h in
    same (floor ∙ resolve_group_lem env input db g false groups e) seats

-- Past the guards: no order, or an order for a table that takes orders.
create_order-cases :
    (env : Env) (input : CreateOrderInput) (db : Db) {r : CreateOrderResult} {db' : Db}
    → create_order_transaction env input db ≡ some (r, db')
    → (db' ≡ db)
      ⊎ ((refusing_status (find_table_by_id input.table_id db) ≡ none)
          × (with_group env input (resolve_group env input db) db ≡ some (r, db')))
unfolding create_order_transaction
create_order-cases env input db h = ground arith

seat_new :
    (table_id : ℕ) (db : Db)
    → IsSeated table_id db
    → is_some (find_table_by_id table_id db) ≡ true
    → refusing_status (find_table_by_id table_id db) ≡ none
    → seat (status_of table_id db.tables) ≡ some occupied
unfolding find_table_by_id
seat_new table_id db v there calm = ground arith

FloorChange-IsSeated :
    (env : Env) (table_id : ℕ) (db db' : Db) (t : ℕ)
    → refusing_status (find_table_by_id table_id db) ≡ none
    → FloorChange env table_id db db'
    → IsSeated t db
    → IsSeated t db'
FloorChange-IsSeated env table_id db db' t calm (same e f) v = rw (e, f) v
FloorChange-IsSeated env table_id db db' t calm (opened free e f there) v =
    rw (e, f)
      (ground (
        arith,
        count-append (is_open_for t) db.table_bill_groups (new_group env table_id),
        first-eq_none-count (is_open_for table_id) db.table_bill_groups free,
        status_of-occupy_table t table_id env.now db.tables,
        seat_new table_id db,
      ))

-- Creating an order keeps the floor consistent, whichever way it ends.
pub create_order-VisitsAgree :
    (env : Env) (input : CreateOrderInput) (db : Db) {r : CreateOrderResult} {db' : Db}
    → create_order_transaction env input db ≡ some (r, db')
    → VisitsAgree db
    → VisitsAgree db'
create_order-VisitsAgree env input db h v t = elim (create_order-cases env input db h) [
  | inl e ↦ rw e (v t)
  | inr (calm, rest) ↦
      FloorChange-IsSeated env input.table_id db _ t calm
        (with_group-change env input db (resolve_group env input db) refl rest) (v t)
]
