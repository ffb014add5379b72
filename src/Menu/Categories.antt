-- ===== src/Menu/Categories.antt =====
-- The categories of the menu, and which of them a product may point at.
use Prim.Native.String.{compare}
use text.Mathlib.Text.{is_le}
use smart_table.Prelude.{
  ℕ, Bool, true, false, ◌&&◌, ◌||◌, String, Option, none, some, List, ltb, ◌==◌, if◌then◌else◌,
  update, order_by, or_else,
}
use smart_table.Domain.{entity_not_found}
use smart_table.Database.{Category, Db, Env, Tx, insert_unique}
use smart_table.Effects.{Action, pure, query, required, run_transaction, ◌>>=◌, ◌>>◌}
use smart_table.Orders.Repository.{find_category}

-- order by sort_order, name_ar
abbrev pub comes_first : ℕ → String → ℕ → String → Bool
comes_first a name b name' = ltb a b || (a == b && is_le (compare name name'))

unfoldable pub list_categories : Db → List Category
list_categories db =
    order_by (λ c d. comes_first c.sort_order c.name_ar d.sort_order d.name_ar) db.categories

pub record CreateCategoryRequest : Type 0 where
  pub name_ar : String
  pub name_fr : String
  pub sort_order : Option ℕ

abbrev pub new_category : Env → CreateCategoryRequest → Category
new_category env input = record {
  id = env.uuid 0;
  name_ar = input.name_ar;
  name_fr = input.name_fr;
  sort_order = or_else input.sort_order 0;
  is_active = true;
}

unfoldable pub insert_category : Category → Tx (Unit {0})
insert_category row db = elim (insert_unique (λ c. c.id) row db.categories) [
  | none ↦ none
  | some rows ↦ some (tt, record db { categories = rows })
]

unfoldable pub create_category : Env → CreateCategoryRequest → Action Category
create_category env input = do
  run_transaction (insert_category (new_category env input))
  pure (new_category env input)

pub record UpdateCategoryRequest : Type 0 where
  pub name_ar : Option String
  pub name_fr : Option String
  pub sort_order : Option ℕ
  pub is_active : Option Bool

abbrev pub change_category : UpdateCategoryRequest → Category → Category
change_category changes c = record c {
  name_ar = or_else changes.name_ar c.name_ar;
  name_fr = or_else changes.name_fr c.name_fr;
  sort_order = or_else changes.sort_order c.sort_order;
  is_active = or_else changes.is_active c.is_active;
}

unfoldable pub update_category_row : ℕ → UpdateCategoryRequest → Tx (Unit {0})
update_category_row id changes db = some (
  tt,
  record db { categories = update (λ c. c.id == id) (change_category changes) db.categories },
)

unfoldable pub update_category : ℕ → UpdateCategoryRequest → Action Category
update_category id changes = do
  existing ← required (← query (find_category (some id))) (entity_not_found "category" id)
  run_transaction (update_category_row id changes)
  required (← query (find_category (some id))) (entity_not_found "category" id)

-- A soft delete.
unfoldable pub remove_category : ℕ → Action (Unit {0})
remove_category id = do
  existing ← required (← query (find_category (some id))) (entity_not_found "category" id)
  run_transaction (
      update_category_row id
        (record { name_ar = none; name_fr = none; sort_order = none; is_active = some false }))

-- Whether a product may point at a category: at one that is there and active, or at none.
abbrev pub active_id : Option Category → Option ℕ
active_id none = none
active_id (some c) = if c.is_active then some c.id else none

abbrev pub resolve_category : Option ℕ → Db → Option (Option ℕ)
resolve_category none db = some none
resolve_category (some id) db = elim (active_id (find_category (some id) db)) [
  | none ↦ none
  | some found ↦ some (some found)
]

unfoldable pub require_active_category : Option ℕ → Action (Option ℕ)
require_active_category category_id = do
  required (← query (resolve_category category_id))
      (entity_not_found "category" (or_else category_id 0))
