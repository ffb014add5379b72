-- ===== src/Tables/Guards.antt =====
-- The guards of the table operations: when cleaning and removal go through.
use smart_table.Prelude.{ℕ, ◌≡◌, some, List, [], ◌∷◌, ◌++◌, arith, first, update, ◌==◌, ◌≢◌}
use smart_table.Domain.{available, needs_cleaning, ok, err, invalid_table_status_transition}
use smart_table.Database.{TableRow, Env}
use smart_table.Effects.{World, ◌>>=◌, table_status_changed}
use smart_table.Orders.Repository.{find_table_by_id}
use smart_table.Tables.{
  TableChanges, no_changes, has_id, change_table, update_table_row, update_tx, mark_cleaned,
}

updated_first :
    (env : Env) (id : ℕ) (c : TableChanges) (tables : List TableRow) (row : TableRow)
    → first (λ (t : TableRow). t.id == id) tables ≡ some row
    → first (λ (t : TableRow). t.id == id) (update (has_id id) (change_table env c) tables)
      ≡ some (change_table env c row)
unfolding first update change_table
updated_first env id c [] row h = cc
updated_first env id c (r ∷ rows) row h = ground (arith, updated_first env id c rows row)

-- A table that waits for cleaning: `mark_cleaned` returns, the table is then available with every
-- other column but `updated_at` as it was, and the change of status is announced.
pub mark_cleaned-succeeds :
    (env : Env) (id : ℕ) (row : TableRow) (w : World)
    → find_table_by_id id w.db ≡ some row
    → row.status ≡ needs_cleaning
    → let (result, w') = mark_cleaned env id w in
      (result ≡ ok (some (record row { status = available; updated_at = env.now })))
      × (find_table_by_id id w'.db ≡ some (record row { status = available; updated_at = env.now }))
      × (w'.emitted ≡ w.emitted ++ table_status_changed id needs_cleaning available ∷ [])
unfolding mark_cleaned update_tx update_table_row find_table_by_id ◌>>=◌
mark_cleaned-succeeds env id row w f n =
    let later =
      updated_first env id (record no_changes { status = some available }) w.db.tables row f in
    (
      unfold change_table in ground arith,
      unfold change_table in ground (arith, later),
      ground arith,
    )

-- A table in any other status: `mark_cleaned` throws an error that names the status, and changes
-- nothing.
pub mark_cleaned-refused :
    (env : Env) (id : ℕ) (row : TableRow) (w : World)
    → find_table_by_id id w.db ≡ some row
    → row.status ≢ needs_cleaning
    → mark_cleaned env id w
      ≡ (err (invalid_table_status_transition id row.status "mark-cleaned"), w)
unfolding mark_cleaned ◌>>=◌
mark_cleaned-refused env id row w f n = ground arith
