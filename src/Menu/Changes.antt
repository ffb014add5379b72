-- ===== src/Menu/Changes.antt =====
-- What changing the menu leaves: the trail and the events of a change, the bills of old orders, and
-- what the guests are offered.
use smart_table.Prelude.{
  ℕ, ◌≡◌, refl, ◌∙◌, ap, Bool, true, false, some, List, [], ◌∷◌, map, arith, ◌==◌, select,
  insert_by, order_by, All, All-map, Bool-cases, Option-cases, inl, inr,
}
use smart_table.Domain.{includes}
use smart_table.Database.{Category, Product, OrderRow, OrderItemRow, Db, transaction}
use smart_table.Effects.{World, query, required, run_transaction, ◌>>=◌}
use smart_table.BillingMath.{compute_order_totals}
use smart_table.Billing.Payment.{order_line, order_lines, totals_of, line_item}
use smart_table.Orders.Repository.{is_row_unavailable}
use smart_table.Menu.{
  find_product, delete_product, remove_product, unlink, PublicMenuCategory, product_order,
  list_available_products, menu_category, get_public_menu, list_categories, in_category,
}

module _ {R : Type 0} where
  insert_by-All :
      (P : R → Type 0) (le : R → R → Bool) (r : R) (rows : List R)
      → P r
      → All P rows
      → All P (insert_by le r rows)
  unfolding insert_by
  insert_by-All P le r [] p all = (p, tt)
  insert_by-All P le r (s ∷ rows) p all = elim (Bool-cases (le r s)) [
    | inl e ↦ rw e (p, all)
    | inr e ↦ rw e (all.0, insert_by-All P le r rows p all.1)
  ]

  order_by-All :
      (P : R → Type 0) (le : R → R → Bool) (rows : List R) → All P rows → All P (order_by le rows)
  unfolding order_by
  order_by-All P le [] all = tt
  order_by-All P le (r ∷ rows) all =
      insert_by-All P le r (order_by le rows) all.0 (order_by-All P le rows all.1)

  select-holds :
      (P : R → Type 0) (p : R → Bool) (rows : List R)
      → All P rows
      → All (λ r. P r × (p r ≡ true)) (select p rows)
  unfolding select
  select-holds P p [] all = tt
  select-holds P p (r ∷ rows) all = elim (Bool-cases (p r)) [
    | inl e ↦ rw e ((all.0, e), select-holds P p rows all.1)
    | inr e ↦ rw e (select-holds P p rows all.1)
  ]

  All-trivial : (rows : List R) → All (λ r. Unit {0}) rows
  All-trivial [] = tt
  All-trivial (r ∷ rows) = (tt, All-trivial rows)

  select-map :
      (p : R → Bool) (f : R → R) (rows : List R)
      → ((r : R) → p (f r) ≡ p r)
      → select p (map f rows) ≡ map f (select p rows)
  unfolding select
  select-map p f [] h = refl
  select-map p f (r ∷ rows) h = ground (arith, h r, select-map p f rows h)

  map_same :
      {B : Type 0} (g : R → B) (f : R → R) (rows : List R)
      → ((r : R) → g (f r) ≡ g r)
      → map g (map f rows) ≡ map g rows
  map_same g f [] h = refl
  map_same g f (r ∷ rows) h = rw (h r, map_same g f rows h) refl

-- What guests are offered: the category is active, and each product in it is one that an order for it
-- does not refuse.
pub record IsOffered (m : PublicMenuCategory) : Type 0 where
  pub active : m.category.is_active ≡ true
  pub orderable :
      All
        (λ (p : Product).
          is_row_unavailable (record {
            product = p;
            category_is_active = some m.category.is_active;
            category_name_ar = some m.category.name_ar;
          })
          ≡ false)
        m.products

menu_category-IsOffered :
    (db : Db) (c : Category)
    → c.is_active ≡ true
    → IsOffered (menu_category (list_available_products db) c)
unfolding list_available_products
menu_category-IsOffered db c active =
    let available =
      order_by-All _ product_order _
        (select-holds _ (λ (p : Product). p.is_available) db.products (All-trivial db.products)) in
    record {
      active = active;
      orderable =
          All-map _ _ _ (λ p h. ground (arith, h.0.1, active))
            (select-holds _ (λ (p : Product). in_category c.id p.category_id) _ available);
    }

-- All that the public menu shows is on offer: its categories are active, and an order does not refuse
-- a product in them as unavailable.
pub get_public_menu-IsOffered : (db : Db) → All IsOffered (get_public_menu db)
unfolding get_public_menu list_categories
get_public_menu-IsOffered db = offered (select (λ c. c.is_active) (list_categories db)) (
    select-holds _ (λ (c : Category). c.is_active) (list_categories db)
      (All-trivial (list_categories db)))
  where
    offered :
        (cs : List Category)
        → All (λ (c : Category). Unit {0} × (c.is_active ≡ true)) cs
        → All IsOffered (map (menu_category (list_available_products db)) cs)
    offered [] all = tt
    offered (c ∷ cs) all = (menu_category-IsOffered db c all.0.1, offered cs all.1)

unlink-snapshots : (id : ℕ) (i : OrderItemRow) → (unlink id i).order_id ≡ i.order_id
unlink-snapshots id i = elim (Bool-cases (in_category id i.product_id)) [
  | inl e ↦ rw e refl
  | inr e ↦ rw e refl
]

line_item-unlink : (id : ℕ) (i : OrderItemRow) → line_item (unlink id i) ≡ line_item i
line_item-unlink id i = elim (Bool-cases (in_category id i.product_id)) [
  | inl e ↦ rw e refl
  | inr e ↦ rw e refl
]

totals-unlink :
    (bps id : ℕ) (items : List OrderItemRow) (o : OrderRow)
    → totals_of (order_line bps (map (unlink id) items) o) ≡ totals_of (order_line bps items o)
unfolding order_line
totals-unlink bps id items o =
    ap (λ xs. compute_order_totals xs bps)
      (ap (map line_item) (
          select-map (λ (i : OrderItemRow). i.order_id == o.id) (unlink id) items
            (λ i. ap (λ x. x == o.id) (unlink-snapshots id i)))
        ∙ map_same line_item (unlink id) _ (line_item-unlink id))

order_lines-unlink :
    (bps id : ℕ) (items : List OrderItemRow) (os : List OrderRow)
    → map totals_of (map (order_line bps (map (unlink id) items)) os)
      ≡ map totals_of (map (order_line bps items) os)
order_lines-unlink bps id items [] = refl
order_lines-unlink bps id items (o ∷ os) =
    rw (totals-unlink bps id items o, order_lines-unlink bps id items os) refl

-- Removing a product leaves every bill as it was: for any orders and any tax rate, the subtotal, the tax
-- and the total of each are the same after it as before, whether it succeeds or throws.
pub remove_product-bills :
    (id bps : ℕ) (billable : List OrderRow) (w : World)
    → map totals_of (order_lines bps billable (remove_product id w).1.db.order_items)
      ≡ map totals_of (order_lines bps billable w.db.order_items)
unfolding remove_product ◌>>=◌ query required run_transaction transaction delete_product order_lines
remove_product-bills id bps billable w = elim (Option-cases (find_product id w.db)) [
  | inl e ↦ rw (e, ◌>>=◌, query, required) refl
  | inr (p, e) ↦
      let ids = map (λ (o : OrderRow). o.id) billable in
      rw (e, ◌>>=◌, query, required)
        (ap (λ xs. map totals_of (map (order_line bps xs) billable))
            (select-map (λ (i : OrderItemRow). includes ◌==◌ ids i.order_id) (unlink id)
              w.db.order_items (λ i. ap (includes ◌==◌ ids) (unlink-snapshots id i)))
          ∙ order_lines-unlink bps id _ billable)
]
