-- ===== src/Visits/Rows.antt =====
-- The state of one table, and how the statements of the repositories change it.
use mathlib.Core.Option
use smart_table.Prelude.{
  ℕ, ◌≤◌, ◌<◌, ◌≡◌, ◌≢◌, refl, Bool, true, Option, none, some, List, [], ◌∷◌, ◌==◌, if◌then◌else◌,
  arith, first, count, update,
}
use smart_table.Domain.{TableStatus, available, occupied}
use smart_table.Database.{TableRow, BillGroupRow, Db}
use smart_table.Orders.Repository.{is_open_for, occupy_table}
use smart_table.Billing.Payment.{is_occupied_row}

-- How many open bill groups a table has.
abbrev pub open_count : ℕ → List BillGroupRow → ℕ
open_count table_id = count (is_open_for table_id)

-- The status of a table, if there is such a table.
abbrev pub status_of : ℕ → List TableRow → Option TableStatus
status_of table_id tables =
    Option.map (λ (t : TableRow). t.status) (first (λ t. t.id == table_id) tables)

-- A table has one open bill group at most, and while it has one it is occupied.
abbrev pub IsSeated : ℕ → Db → Type 0
IsSeated t db =
    (open_count t db.table_bill_groups ≤ 1)
    × (0 < open_count t db.table_bill_groups → status_of t db.tables ≡ some occupied)

-- So at every table.
abbrev pub VisitsAgree : Db → Type 0
VisitsAgree db = (t : ℕ) → IsSeated t db

abbrev pub seat : Option TableStatus → Option TableStatus
seat (some available) = some occupied
seat s = s

pub status_of-occupy_table :
    (t table_id now : ℕ) (tables : List TableRow)
    → status_of t (occupy_table table_id now tables)
      ≡ (if t == table_id then seat (status_of t tables) else status_of t tables)
unfolding occupy_table first update
status_of-occupy_table t table_id now [] = ground arith
status_of-occupy_table t table_id now (r ∷ rows) =
    ground (arith, status_of-occupy_table t table_id now rows)

-- An update of the one table leaves the status of every other table.
pub status_of-update_ne :
    (t table_id : ℕ) (p : TableRow → Bool) (f : TableRow → TableRow) (tables : List TableRow)
    → t ≢ table_id
    → ((r : TableRow) → (f r).id ≡ r.id)
    → ((r : TableRow) → p r ≡ true → r.id ≡ table_id)
    → status_of t (update p f tables) ≡ status_of t tables
unfolding first update
status_of-update_ne t table_id p f [] ne same only = refl
status_of-update_ne t table_id p f (r ∷ rows) ne same only =
    ground (arith, same r, only r, status_of-update_ne t table_id p f rows ne same only)

-- The row of an occupied table is found.
pub occupied_found :
    (id : ℕ) (tables : List TableRow)
    → status_of id tables ≡ some occupied
    → first (is_occupied_row id) tables ≢ none
unfolding first
occupied_found id [] h e = cc
occupied_found id (r ∷ rows) h e = ground (arith, occupied_found id rows)
