-- ===== src/Tables.antt =====
-- apps/api/src/modules/tables: tables.service.ts over the statements of tables.repository.ts.
-- Sorting for display is not modelled; the QR tokens are numbers, which the code only compares.
pub mod Tokens
pub mod Guards
use mathlib.Core.Option
use smart_table.Prelude.{
  ℕ, zero, suc, ◌+◌, Bool, true, false, not, ◌&&◌, ◌||◌, String, Option, none, some, List, [], ◌∷◌,
  ◌++◌, ◌==◌, ltb, if◌then◌else◌, is_some, or_else, first, count, update,
}
use smart_table.Domain.{
  TableStatus, available, needs_cleaning, OrderStatus, completed, cancelled, table_status_eq,
  order_status_eq, includes, entity_not_found, invalid_table_status_transition,
  table_has_active_order,
}
use smart_table.Database.{Hall, TableRow, OrderRow, Db, Env, Tx, insert_unique}
use smart_table.Effects.{
  AuditEntry, AuditValue, optional_id, id_value, table_status_changed, Action, ◌>>=◌, ◌>>◌, pure,
  throw_if, query, required, run_transaction, append, emit,
}
use smart_table.Orders.Repository.{find_table_by_id}

unfoldable pub find_hall_by_id : ℕ → Db → Option Hall
find_hall_by_id id db = first (λ h. h.id == id) db.halls

abbrev pub new_hall : Env → String → Option ℕ → Hall
new_hall env name sort_order = record {
  id = env.uuid 0;
  name = name;
  sort_order = or_else sort_order 0;
  is_active = true;
}

unfoldable pub create_hall : Env → String → Option ℕ → Action Hall
create_hall env name sort_order = run_transaction (λ db.
    Option.map (λ halls. (new_hall env name sort_order, record db { halls = halls }))
      (insert_unique (λ h. h.id) (new_hall env name sort_order) db.halls))

-- A write under the unique index on `qr_token`: that index is violated, or another error.
pub data Write (A : Type 0) : Type 0 where
  written : A → Write A
  qr_collision : Write A
  refused : Write A

abbrev pub written_or_refused : {A : Type 0} → Option A → Write A
written_or_refused none = refused
written_or_refused (some a) = written a

abbrev pub new_table : Env → ℕ → String → ℕ → TableRow
new_table env hall_id label k = record {
  id = env.uuid 0;
  hall_id = hall_id;
  label = label;
  qr_token = env.random_token k;
  status = available;
  is_active = true;
  updated_at = env.now;
}

unfoldable pub insert_table : TableRow → Db → Write (TableRow × Db)
insert_table row db =
    if is_some (first (λ (t : TableRow). t.qr_token == row.qr_token) db.tables)
    then qr_collision
    else written_or_refused (
        Option.map (λ tables. (row, record db { tables = tables }))
          (insert_unique (λ t. t.id) row db.tables))

pub record TableChanges : Type 0 where
  pub label : Option String
  pub hall_id : Option ℕ
  pub qr_token : Option ℕ
  pub status : Option TableStatus
  pub is_active : Option Bool

abbrev pub no_changes : TableChanges
no_changes = record {
  label = none;
  hall_id = none;
  qr_token = none;
  status = none;
  is_active = none;
}

abbrev pub has_id : ℕ → TableRow → Bool
has_id id t = t.id == id

unfoldable pub change_table : Env → TableChanges → TableRow → TableRow
change_table env c t = record t {
  label = or_else c.label t.label;
  hall_id = or_else c.hall_id t.hall_id;
  qr_token = or_else c.qr_token t.qr_token;
  status = or_else c.status t.status;
  is_active = or_else c.is_active t.is_active;
  updated_at = env.now;
}

-- Another row that holds the token.
abbrev pub holds_token : ℕ → ℕ → TableRow → Bool
holds_token id token t = t.qr_token == token && not (t.id == id)

abbrev pub token_taken : ℕ → Option ℕ → Db → Bool
token_taken id none db = false
token_taken id (some token) db = is_some (first (holds_token id token) db.tables)

-- The row after the update, if there is one. An update without rows violates no index.
unfoldable pub update_table_row : Env → ℕ → TableChanges → Db → Write (Option TableRow × Db)
update_table_row env id changes db = elim (find_table_by_id id db) [
  | none ↦ written (none, db)
  | some t ↦
      if token_taken id changes.qr_token db
      then qr_collision
      else written (
        some (change_table env changes t),
        record db { tables = update (has_id id) (change_table env changes) db.tables },
      )
]

abbrev pub qr_token_max_attempts : ℕ
qr_token_max_attempts = 3

-- The loop of attempts: only a collision of tokens is tried again, with the next random token.
unfoldable pub with_retries : {A : Type 0} → ℕ → ℕ → (ℕ → Db → Write (A × Db)) → Tx A
with_retries zero k attempt db = none
with_retries (suc left) k attempt db = elim (attempt k db) [
  | written a ↦ some a
  | refused ↦ none
  | qr_collision ↦ with_retries left (suc k) attempt db
]

abbrev pub active_hall : Option Hall → Option Hall
active_hall none = none
active_hall (some h) = if h.is_active then some h else none

unfoldable pub create_table_tx : Env → ℕ → String → Tx TableRow
create_table_tx env hall_id label =
    with_retries qr_token_max_attempts 0 (λ k. insert_table (new_table env hall_id label k))

unfoldable pub create_table : Env → ℕ → String → Action TableRow
create_table env hall_id label = do
  required (active_hall (← query (find_hall_by_id hall_id))) (entity_not_found "hall" hall_id)
  run_transaction (create_table_tx env hall_id label)

-- A statement that stands alone.
abbrev pub once : {A : Type 0} → Write (A × Db) → Option (A × Db)
once (written a) = some a
once qr_collision = none
once refused = none

unfoldable pub update_tx : Env → ℕ → TableChanges → Tx (Option TableRow)
update_tx env id changes db = once (update_table_row env id changes db)

-- The check of a new hall, if one is given.
unfoldable pub check_hall : Option ℕ → Action (Unit {0})
check_hall none = pure tt
check_hall (some hall_id) = do
  required (active_hall (← query (find_hall_by_id hall_id))) (entity_not_found "hall" hall_id)
  pure tt

unfoldable pub update_table : Env → ℕ → Option String → Option ℕ → Action (Option TableRow)
update_table env id label hall_id = do
  required (← query (find_table_by_id id)) (entity_not_found "table" id)
  check_hall hall_id
  run_transaction (update_tx env id (record no_changes { label = label; hall_id = hall_id }))

abbrev pub is_active_order : ℕ → OrderRow → Bool
is_active_order table_id o =
    o.table_id == table_id && not (includes order_status_eq (completed ∷ cancelled ∷ []) o.status)

unfoldable pub count_non_terminal_orders : ℕ → Db → ℕ
count_non_terminal_orders table_id db = count (is_active_order table_id) db.orders

unfoldable pub remove_table : Env → ℕ → Action (Unit {0})
remove_table env id = do
  required (← query (find_table_by_id id)) (entity_not_found "table" id)
  blocking ← query (count_non_terminal_orders id)
  throw_if (ltb 0 blocking) (table_has_active_order id)
  run_transaction (update_tx env id (record no_changes { is_active = some false }))
  pure tt

abbrev pub token_of : Option TableRow → AuditValue
token_of none = optional_id none
token_of (some t) = id_value t.qr_token

unfoldable pub regenerate_tx : Env → ℕ → Tx (Option TableRow)
regenerate_tx env id =
    with_retries qr_token_max_attempts 0
      (λ k. update_table_row env id (record no_changes { qr_token = some (env.random_token k) }))

unfoldable pub regenerate_qr : Env → ℕ → ℕ → Action (Option TableRow)
regenerate_qr env id actor = do
  existing ← required (← query (find_table_by_id id)) (entity_not_found "table" id)
  updated ← run_transaction (regenerate_tx env id)
  append (record {
    actor_employee_id = some actor;
    entity_type = "table";
    entity_id = id;
    action = "qr_regenerated";
    old_value = ("qrToken", id_value existing.qr_token) ∷ [];
    new_value = ("qrToken", token_of updated) ∷ [];
  })
  pure updated

-- `markCleaned` reads and checks in one step, and writes in another: see `Visits.Race`.
unfoldable pub check_cleanable : ℕ → Action TableRow
check_cleanable id = do
  existing ← required (← query (find_table_by_id id)) (entity_not_found "table" id)
  throw_if (not (table_status_eq existing.status needs_cleaning))
      (invalid_table_status_transition id existing.status "mark-cleaned")
  pure existing

unfoldable pub write_cleaned : Env → ℕ → TableRow → Action (Option TableRow)
write_cleaned env id existing = do
  updated ← run_transaction (update_tx env id (record no_changes { status = some available }))
  emit (table_status_changed id existing.status available)
  pure updated

unfoldable pub mark_cleaned : Env → ℕ → Action (Option TableRow)
unfolding check_cleanable write_cleaned
mark_cleaned env id = do existing ← check_cleanable id; write_cleaned env id existing
