-- ===== src/Menu.antt =====
-- apps/api/src/modules/menu: categories and products. Image files are stored and deleted by
-- another service, so an upload is the path that it was stored under, and no file is deleted here.
mod Categories
pub mod Changes
pub mod Trail
unfoldable pub use Categories.*
use mathlib.Core.Option
use smart_table.Prelude.{
  ℕ, ◌-◌, ◌*◌, Bool, true, false, ◌&&◌, not, String, Option, none, some, List, [], ◌∷◌, map, ◌==◌,
  if◌then◌else◌, select, first, update, order_by, count, take, drop, is_some, or_else, same_flag,
}
use smart_table.Domain.{entity_not_found}
use smart_table.Database.{Category, Product, OrderItemRow, Db, Env, Tx, insert_unique}
use smart_table.Effects.{
  Action, pure, query, required, run_transaction, append, emit, AuditEntry, amount,
  product_availability_changed, ◌>>=◌, ◌>>◌,
}

pub record ProductFilter : Type 0 where
  pub category_id : Option ℕ
  pub is_available : Option Bool

abbrev pub in_category : ℕ → Option ℕ → Bool
in_category id none = false
in_category id (some c) = c == id

abbrev pub passes_category : Option ℕ → Product → Bool
passes_category none p = true
passes_category (some id) p = in_category id p.category_id

abbrev pub passes_availability : Option Bool → Product → Bool
passes_availability none p = true
passes_availability (some b) p = same_flag p.is_available b

abbrev pub passes : ProductFilter → Product → Bool
passes filter p = passes_category filter.category_id p && passes_availability filter.is_available p

abbrev pub product_order : Product → Product → Bool
product_order p q = comes_first p.sort_order p.name_ar q.sort_order q.name_ar

-- A page, numbered from 1, and the number of all that pass.
unfoldable pub list_products : ProductFilter → ℕ → ℕ → Db → List Product × ℕ
list_products filter page page_size db = (
  take page_size
      (drop ((page - 1) * page_size) (order_by product_order (select (passes filter) db.products))),
  count (passes filter) db.products,
)

pub record CreateProductRequest : Type 0 where
  pub category_id : Option ℕ
  pub name_ar : String
  pub name_fr : String
  pub price_minor : ℕ
  pub sort_order : Option ℕ

abbrev pub new_product : Env → Option ℕ → Option ℕ → CreateProductRequest → Product
new_product env category_id image_path input = record {
  id = env.uuid 0;
  category_id = category_id;
  name_ar = input.name_ar;
  name_fr = input.name_fr;
  price_minor = input.price_minor;
  image_path = image_path;
  is_available = true;
  sort_order = or_else input.sort_order 0;
  updated_at = env.now;
}

unfoldable pub insert_product : Product → Tx (Unit {0})
insert_product row db = elim (insert_unique (λ p. p.id) row db.products) [
  | none ↦ none
  | some rows ↦ some (tt, record db { products = rows })
]

unfoldable pub create_product : Env → CreateProductRequest → Option ℕ → Action Product
create_product env input image_path = do
  category_id ← require_active_category input.category_id
  run_transaction (insert_product (new_product env category_id image_path input))
  pure (new_product env category_id image_path input)

-- `none` for a field that is left as it is; a category may also be taken off.
pub record UpdateProductRequest : Type 0 where
  pub category_id : Option (Option ℕ)
  pub name_ar : Option String
  pub name_fr : Option String
  pub price_minor : Option ℕ
  pub is_available : Option Bool
  pub sort_order : Option ℕ

abbrev pub change_product :
    Env → UpdateProductRequest → Option (Option ℕ) → Option ℕ → Product → Product
change_product env changes category_id image_path p = record p {
  category_id = or_else category_id p.category_id;
  name_ar = or_else changes.name_ar p.name_ar;
  name_fr = or_else changes.name_fr p.name_fr;
  price_minor = or_else changes.price_minor p.price_minor;
  image_path = if is_some image_path then image_path else p.image_path;
  is_available = or_else changes.is_available p.is_available;
  sort_order = or_else changes.sort_order p.sort_order;
  updated_at = env.now;
}

unfoldable pub update_product_row : ℕ → (Product → Product) → Tx (Unit {0})
update_product_row id change db =
    some (tt, record db { products = update (λ p. p.id == id) change db.products })

unfoldable pub find_product : ℕ → Db → Option Product
find_product id db = first (λ p. p.id == id) db.products

unfoldable pub resolve_change : Option (Option ℕ) → Action (Option (Option ℕ))
resolve_change none = pure none
resolve_change (some category_id) = do
  found ← require_active_category category_id
  pure (some found)

abbrev pub price_entry : ℕ → ℕ → ℕ → ℕ → AuditEntry
price_entry actor id old_price new_price = record {
  actor_employee_id = some actor;
  entity_type = "product";
  entity_id = id;
  action = "price_changed";
  old_value = ("priceMinor", amount old_price) ∷ [];
  new_value = ("priceMinor", amount new_price) ∷ [];
}

unfoldable pub audit_price : ℕ → ℕ → ℕ → Option ℕ → Action (Unit {0})
audit_price actor id old_price none = pure tt
audit_price actor id old_price (some new_price) =
    if new_price == old_price then pure tt else append (price_entry actor id old_price new_price)

unfoldable pub emit_availability : ℕ → Bool → Option Bool → Action (Unit {0})
emit_availability id before none = pure tt
emit_availability id before (some after) =
    if same_flag after before then pure tt else emit (product_availability_changed id after)

unfoldable pub update_product : Env → ℕ → UpdateProductRequest → Option ℕ → ℕ → Action Product
update_product env id changes image_path actor = do
  existing ← required (← query (find_product id)) (entity_not_found "product" id)
  category_id ← resolve_change changes.category_id
  run_transaction (update_product_row id (change_product env changes category_id image_path))
  audit_price actor id existing.price_minor changes.price_minor
  emit_availability id existing.is_available changes.is_available
  required (← query (find_product id)) (entity_not_found "product" id)

-- The items of orders keep their snapshots; their link is set to NULL by the foreign key.
abbrev pub unlink : ℕ → OrderItemRow → OrderItemRow
unlink id i = if in_category id i.product_id then record i { product_id = none } else i

unfoldable pub delete_product : ℕ → Tx (Unit {0})
delete_product id db = some (
  tt,
  record db {
    products = select (λ p. not (p.id == id)) db.products;
    order_items = map (unlink id) db.order_items;
  },
)

unfoldable pub remove_product : ℕ → Action (Unit {0})
remove_product id = do
  existing ← required (← query (find_product id)) (entity_not_found "product" id)
  run_transaction (delete_product id)

pub record PublicMenuCategory : Type 0 where
  pub category : Category
  pub products : List Product

unfoldable pub list_available_products : Db → List Product
list_available_products db = order_by product_order (select (λ p. p.is_available) db.products)

abbrev pub menu_category : List Product → Category → PublicMenuCategory
menu_category available c = record {
  category = c;
  products = select (λ p. in_category c.id p.category_id) available;
}

unfoldable pub get_public_menu : Db → List PublicMenuCategory
get_public_menu db =
    map (menu_category (list_available_products db))
      (select (λ c. c.is_active) (list_categories db))
