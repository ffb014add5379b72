-- ===== src/Orders/Repository/Creation.antt =====
-- `createOrderTransaction` of orders.repository.ts.
use mathlib.Core.Option
use smart_table.Prelude.{
  ℕ, Bool, true, false, not, ◌&&◌, ◌||◌, String, Option, none, some, List, [], ◌∷◌, ◌++◌, map, ◌==◌,
  ltb, if◌then◌else◌, is_some, or_else, is_empty, select, first, update, count, suc,
}
use smart_table.Domain.{
  TableStatus, available, occupied, bill_requested, needs_cleaning, open_group, dine_in,
  OrderSource, pending, is_open, table_status_eq,
}
use smart_table.Database.{
  has_no_or_employee, Category, Product, TableRow, BillGroupRow, OrderRow, OrderItemRow, Db, Env,
  Tx, insert_unique,
}
use smart_table.Orders.Repository.Reads.{find_table_by_id}

pub record OrderItemWriteInput : Type 0 where
  pub product_id : ℕ
  pub quantity : ℕ
  pub notes : Option String

pub record CreateOrderInput : Type 0 where
  pub table_id : ℕ
  pub bill_group_id : Option ℕ
  pub source : OrderSource
  pub created_by_employee_id : Option ℕ
  pub items : List OrderItemWriteInput

pub data CreateOrderResult : Type 0 where
  created : OrderRow → List OrderItemRow → Bool → Bool → CreateOrderResult
  products_not_found : List ℕ → CreateOrderResult
  products_unavailable : List ℕ → CreateOrderResult
  bill_group_not_open : CreateOrderResult
  table_not_orderable : TableStatus → CreateOrderResult

-- Step 1: the products of the order, each joined with its category.
pub record ProductRow : Type 0 where
  pub product : Product
  pub category_is_active : Option Bool
  pub category_name_ar : Option String

unfoldable pub find_category : Option ℕ → Db → Option Category
find_category none db = none
find_category (some id) db = first (λ c. c.id == id) db.categories

unfoldable pub find_product_row : Db → ℕ → Option ProductRow
unfolding find_category
find_product_row db id = elim (first (λ p. p.id == id) db.products) [
  | none ↦ none
  | some product ↦
      let category = find_category product.category_id db in
      some (record {
        product = product;
        category_is_active = Option.map (λ c. c.is_active) category;
        category_name_ar = Option.map (λ c. c.name_ar) category;
      })
]

-- `[...new Set(ids)]`
unfoldable pub unique : List ℕ → List ℕ
unique [] = []
unique (x ∷ xs) = x ∷ select (λ y. not (y == x)) (unique xs)

abbrev pub is_missing : Db → ℕ → Bool
is_missing db id = not (is_some (find_product_row db id))

abbrev pub is_row_unavailable : ProductRow → Bool
is_row_unavailable row =
    not row.product.is_available
    || (is_some row.product.category_id && not (or_else row.category_is_active false))

-- The code asks only after it has seen that the product is there.
abbrev pub is_product_unavailable : Db → ℕ → Bool
is_product_unavailable db id = elim (find_product_row db id) [
  | none ↦ false
  | some row ↦ is_row_unavailable row
]

-- Step 2: a table whose visit is closing takes no order.
abbrev pub refusing_status : Option TableRow → Option TableStatus
refusing_status none = none
refusing_status (some table) =
    if table_status_eq table.status bill_requested || table_status_eq table.status needs_cleaning
    then some table.status
    else none

-- Step 3: the bill group, whether it is new, and the table of groups with it.
pub data ResolvedGroup : Type 0 where
  not_open : ResolvedGroup
  resolved : BillGroupRow → Bool → List BillGroupRow → ResolvedGroup

abbrev pub is_open_for : ℕ → BillGroupRow → Bool
is_open_for table_id g = g.table_id == table_id && is_open g.status

abbrev pub new_group : Env → ℕ → BillGroupRow
new_group env table_id = record {
  id = env.uuid 0;
  table_id = table_id;
  status = open_group;
  opened_at = env.now;
  closed_at = none;
}

abbrev pub pin_group : Option BillGroupRow → List BillGroupRow → ResolvedGroup
pin_group none groups = not_open
pin_group (some g) groups = if is_open g.status then resolved g false groups else not_open

-- The foreign key to `tables` refuses a group for a table that is not there.
unfoldable pub open_new_group : Env → ℕ → Db → Option ResolvedGroup
open_new_group env table_id db =
    if is_some (find_table_by_id table_id db)
    then Option.map (resolved (new_group env table_id) true)
        (insert_unique (λ g. g.id) (new_group env table_id) db.table_bill_groups)
    else none

unfoldable pub resolve_group : Env → CreateOrderInput → Db → Option ResolvedGroup
unfolding open_new_group
resolve_group env input db = elim input.bill_group_id [
  | some id ↦ some (pin_group (first (λ g. g.id == id) db.table_bill_groups) db.table_bill_groups)
  | none ↦ elim (first (is_open_for input.table_id) db.table_bill_groups) [
    | some g ↦ some (resolved g false db.table_bill_groups)
    | none ↦ open_new_group env input.table_id db
  ]
]

-- Step 4.
unfoldable pub derive_is_addon : CreateOrderInput → BillGroupRow → Db → Bool
derive_is_addon input group db = elim input.bill_group_id [
  | some _ ↦ true
  | none ↦ ltb 0 (count (λ (o : OrderRow). o.table_bill_group_id == group.id) db.orders)
]

-- Step 5: the order row with the defaults of its columns.
abbrev pub new_order : Env → CreateOrderInput → BillGroupRow → Bool → OrderRow
new_order env input group is_addon = record {
  id = env.uuid 1;
  table_bill_group_id = group.id;
  table_id = input.table_id;
  channel = dine_in;
  is_addon = is_addon;
  status = pending;
  source = input.source;
  created_by_employee_id = input.created_by_employee_id;
  accepted_by_employee_id = none;
  served_by_employee_id = none;
  cancelled_by_employee_id = none;
  cancellation_reason = none;
  created_at = env.now;
  updated_at = env.now;
}

abbrev pub new_item : Env → ℕ → ℕ → OrderItemWriteInput → ProductRow → OrderItemRow
new_item env k order_id item row = record {
  id = env.uuid k;
  order_id = order_id;
  product_id = some item.product_id;
  name_snapshot = row.product.name_ar;
  category_snapshot = or_else row.category_name_ar "";
  unit_price_minor_snapshot = row.product.price_minor;
  quantity = item.quantity;
  notes = item.notes;
}

-- The rows inserted, and the table with them; the check on the column refuses a quantity of 0.
unfoldable pub insert_items :
    Env
    → Db
    → ℕ
    → ℕ
    → List OrderItemWriteInput
    → List OrderItemRow
    → Option (List OrderItemRow × List OrderItemRow)
insert_items env db order_id k [] rows = some ([], rows)
insert_items env db order_id k (item ∷ items) rows = elim (find_product_row db item.product_id) [
  | none ↦ none
  | some row ↦
      let new = new_item env k order_id item row in
      if item.quantity == 0 then none else elim (insert_unique (λ r. r.id) new rows) [
        | none ↦ none
        | some rows' ↦ elim (insert_items env db order_id (suc k) items rows') [
          | none ↦ none
          | some (inserted, final) ↦ some (new ∷ inserted, final)
        ]
      ]
]

-- Step 6: available → occupied, if the table still is available.
abbrev pub is_available_row : ℕ → TableRow → Bool
is_available_row table_id t = t.id == table_id && table_status_eq t.status available

unfoldable pub occupy_table : ℕ → ℕ → List TableRow → List TableRow
occupy_table table_id now =
    update (is_available_row table_id) (λ t. record t { status = occupied; updated_at = now })

-- The foreign keys to `tables` and to `employees` refuse an order without its table, or by nobody there.
unfoldable pub place_order :
    Env → CreateOrderInput → BillGroupRow → Bool → List BillGroupRow → Tx CreateOrderResult
unfolding derive_is_addon
place_order env input group is_new groups db =
    let order = new_order env input group (derive_is_addon input group db) in
    if is_some (find_table_by_id input.table_id db)
      && has_no_or_employee input.created_by_employee_id db.employees
    then elim (insert_unique (λ o. o.id) order db.orders) [
      | none ↦ none
      | some orders ↦ elim (insert_items env db order.id 2 input.items db.order_items) [
        | none ↦ none
        | some (inserted, order_items) ↦ some (
          created order inserted is_new
              (is_new && is_some (first (is_available_row input.table_id) db.tables)),
          record db {
            table_bill_groups = groups;
            orders = orders;
            order_items = order_items;
            order_status_events =
                db.order_status_events
                ++ record {
                  order_id = order.id;
                  from_status = none;
                  to_status = pending;
                  actor_employee_id = input.created_by_employee_id;
                  created_at = env.now;
                }
                  ∷ [];
            tables = if is_new then occupy_table input.table_id env.now db.tables else db.tables;
          },
        )
      ]
    ]
    else none

abbrev pub with_group : Env → CreateOrderInput → Option ResolvedGroup → Tx CreateOrderResult
with_group env input none db = none
with_group env input (some not_open) db = some (bill_group_not_open, db)
with_group env input (some (resolved group is_new groups)) db =
    place_order env input group is_new groups db

unfoldable pub create_order_transaction : Env → CreateOrderInput → Tx CreateOrderResult
create_order_transaction env input db =
    let product_ids = unique (map (λ (i : OrderItemWriteInput). i.product_id) input.items) in
    let not_found = select (is_missing db) product_ids in
    let unavailable = select (is_product_unavailable db) product_ids in
    if not (is_empty not_found)
    then some (products_not_found not_found, db)
    else if not (is_empty unavailable)
    then some (products_unavailable unavailable, db)
    else elim (refusing_status (find_table_by_id input.table_id db)) [
      | some status ↦ some (table_not_orderable status, db)
      | none ↦ with_group env input (resolve_group env input db) db
    ]
