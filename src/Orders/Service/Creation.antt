-- ===== src/Orders/Service/Creation.antt =====
-- Creating orders: what an order that was placed looks like, what each refusal means, and what the
-- kitchen sees.
use mathlib.Core.List.{append-nil, append_assoc}
use smart_table.Prelude.{
  ℕ, ◌≡◌, ◌⊎◌, inl, inr, refl, Bool, true, Option, none, some, List, [], ◌∷◌, ◌++◌, map, arith,
  Option-cases, first-holds, first, count, ◌==◌, ==_self, ◌&&◌, count-append, ◌<◌, suc, ap, ◌∙◌,
}
use smart_table.Domain.{pending, is_open, kitchen}
use smart_table.Database.{OrderRow, OrderItemRow, BillGroupRow, Db, Env, insert_unique}
use smart_table.Effects.{kitchen_order_dto}
use smart_table.Orders.Service.{to_dto, kitchen_item_dto}
use smart_table.Orders.Repository
use smart_table.Orders.Repository.{
  ProductRow, find_product_row, new_item, new_order, products_unavailable, bill_group_not_open,
  table_not_orderable, OrderItemWriteInput, CreateOrderInput, CreateOrderResult, created,
  ResolvedGroup, resolved, not_open, pin_group, resolve_group, open_new_group, place_order,
  with_group, create_order_transaction, new_group, insert_items, derive_is_addon, is_open_for,
}

-- An open group with this id.
abbrev pub is_open_with : ℕ → BillGroupRow → Bool
is_open_with group_id g = g.id == group_id && is_open g.status

first-count-open :
    (p : BillGroupRow → Bool) (rows : List BillGroupRow) (g : BillGroupRow)
    → first p rows ≡ some g
    → is_open g.status ≡ true
    → 0 < count (is_open_with g.id) rows
unfolding first count
first-count-open p [] g h o = cc
first-count-open p (r ∷ rows) g h o = ground (arith, first-count-open p rows g, ==_self g.id)

-- A group that was resolved is open, and it is a row of the groups that are written.
resolve_group-open :
    (env : Env) (input : CreateOrderInput) (db : Db) (g : BillGroupRow) (n : Bool)
    (gs : List BillGroupRow)
    → resolve_group env input db ≡ some (resolved g n gs)
    → 0 < count (is_open_with g.id) gs
unfolding resolve_group open_new_group insert_unique
resolve_group-open env input db g n gs h = elim (Option-cases input.bill_group_id) [
  | inr (id, i) ↦
      elim (Option-cases (first (λ (r : BillGroupRow). r.id == id) db.table_bill_groups)) [
        | inl f ↦ absurd (ground arith)
        | inr (r, f) ↦
            ground
              (arith, first-count-open (λ (r : BillGroupRow). r.id == id) db.table_bill_groups r f)
      ]
  | inl i ↦ elim (Option-cases (first (is_open_for input.table_id) db.table_bill_groups)) [
    | inr (r, f) ↦
        let open_too = first-holds (is_open_for input.table_id) db.table_bill_groups r f in
        ground (arith, first-count-open (is_open_for input.table_id) db.table_bill_groups r f)
    | inl f ↦
        let new = new_group env input.table_id in
        let there : 0 < count (is_open_with new.id) (db.table_bill_groups ++ new ∷ []) =
          ground
            (arith, count-append (is_open_with new.id) db.table_bill_groups new, ==_self new.id) in
        let same : (new ≡ g) × (db.table_bill_groups ++ new ∷ [] ≡ gs) = ground arith in
        rw (← same.0, ← same.1) there
  ]
]

-- Each row is its item under the order, with the name and the price that the product has.
abbrev pub IsSnapshot : Db → ℕ → List OrderItemWriteInput → List OrderItemRow → Type 0
IsSnapshot db order_id [] rows = rows ≡ []
IsSnapshot db order_id (i ∷ is) [] = ⊥
IsSnapshot db order_id (i ∷ is) (r ∷ rows) =
    ((p : ProductRow) × (find_product_row db i.product_id ≡ some p)
      × (r.name_snapshot ≡ p.product.name_ar)
      × (r.unit_price_minor_snapshot ≡ p.product.price_minor))
    × (r.order_id ≡ order_id)
    × (r.quantity ≡ i.quantity)
    × (0 < r.quantity)
    × IsSnapshot db order_id is rows

insert_items-IsSnapshot :
    (env : Env) (db : Db) (order_id k : ℕ) (is : List OrderItemWriteInput)
    (rows inserted final : List OrderItemRow)
    → insert_items env db order_id k is rows ≡ some (inserted, final)
    → IsSnapshot db order_id is inserted × (final ≡ rows ++ inserted)
unfolding insert_items insert_unique
insert_items-IsSnapshot env db order_id k [] rows inserted final h = ground (arith, append-nil rows)
insert_items-IsSnapshot env db order_id k (i ∷ is) rows inserted final h =
    elim (Option-cases (find_product_row db i.product_id)) [
      | inl e ↦ absurd (ground arith)
      | inr (p, e) ↦
          let new = new_item env k order_id i p in
          elim (Option-cases (insert_items env db order_id (suc k) is (rows ++ new ∷ []))) [
            | inl f ↦ absurd (ground arith)
            | inr ((rest, end), f) ↦
                let (snap, grown) =
                  insert_items-IsSnapshot env db order_id (suc k) is (rows ++ new ∷ []) rest end
                    f in
                let positive : 0 < i.quantity = ground arith in
                let e1 : new ∷ rest ≡ inserted = ground arith in
                let e2 : end ≡ final = ground arith in
                rw (← e1, ← e2)
                  (
                    ((p, e, refl, refl), refl, refl, positive, snap),
                    grown ∙ append_assoc rows (new ∷ []) rest,
                  )
          ]
    ]

-- What is known of an order that was placed.
pub record Placed (input : CreateOrderInput) (db db' : Db) (o : OrderRow)
    (items : List OrderItemRow) : Type 0 where
  pub is_pending : o.status ≡ pending
  pub at_table : o.table_id ≡ input.table_id
  pub inserted : db'.orders ≡ db.orders ++ o ∷ []
  pub items_inserted : db'.order_items ≡ db.order_items ++ items
  pub snapshot : IsSnapshot db o.id input.items items
  pub in_open_group : 0 < count (is_open_with o.table_bill_group_id) db'.table_bill_groups

place_order-Placed :
    (env : Env) (input : CreateOrderInput) (g : BillGroupRow) (n : Bool) (gs : List BillGroupRow)
    (db db' : Db) (o : OrderRow) (items : List OrderItemRow) (m flipped : Bool)
    → 0 < count (is_open_with g.id) gs
    → place_order env input g n gs db ≡ some (created o items m flipped, db')
    → Placed input db db' o items
unfolding place_order insert_unique
place_order-Placed env input g n gs db db' o items m flipped op h =
    let order = new_order env input g (derive_is_addon input g db) in
    elim (Option-cases (insert_items env db order.id 2 input.items db.order_items)) [
      | inl e ↦ absurd (ground arith)
      | inr ((inserted, final), e) ↦
          let (snap, grown) =
            insert_items-IsSnapshot env db order.id 2 input.items db.order_items inserted final e in
          let eo : order ≡ o = ground arith in
          let ei : inserted ≡ items = ground arith in
          let ef : final ≡ db'.order_items = ground arith in
          let eg : db'.table_bill_groups ≡ gs = ground arith in
          rw (← eo, ← ei)
            (record {
              is_pending = refl;
              at_table = refl;
              inserted = ground arith;
              items_inserted = rw (← ef) grown;
              snapshot = snap;
              in_open_group = rw eg op;
            })
    ]

with_group-Placed :
    (env : Env) (input : CreateOrderInput) (db db' : Db) (r : Option ResolvedGroup) (o : OrderRow)
    (items : List OrderItemRow) (m flipped : Bool)
    → resolve_group env input db ≡ r
    → with_group env input r db ≡ some (created o items m flipped, db')
    → Placed input db db' o items
with_group-Placed env input db db' none o items m flipped e h = absurd (ground arith)
with_group-Placed env input db db' (some not_open) o items m flipped e h = absurd (ground arith)
with_group-Placed env input db db' (some (resolved g n gs)) o items m flipped e h =
    place_order-Placed env input g n gs db db' o items m flipped
      (resolve_group-open env input db g n gs e) h

-- When an order is created, it is pending, at the table asked for, and added with its items; it
-- belongs to a bill group that is an open one in the tables after it; and its items are those
-- asked for, one row for each in order, with the name and the price that the product has in the
-- tables before, and a quantity above 0.
pub create_order-Placed :
    (env : Env) (input : CreateOrderInput) (db db' : Db) (o : OrderRow) (items : List OrderItemRow)
    (m flipped : Bool)
    → create_order_transaction env input db ≡ some (created o items m flipped, db')
    → Placed input db db' o items
create_order-Placed env input db db' o items m flipped h =
    with_group-Placed env input db db' (resolve_group env input db) o items m flipped refl
      (unfold create_order_transaction in ground arith)

-- A result other than a created order leaves the tables as they were.
pub create_order-refused :
    (env : Env) (input : CreateOrderInput) (db db' : Db) (r : CreateOrderResult)
    → create_order_transaction env input db ≡ some (r, db')
    → ((o : OrderRow) × (items : List OrderItemRow) × (m : Bool) × (f : Bool) × (r
          ≡ created o items m f))
      ⊎ (db' ≡ db)
create_order-refused env input db db' r h = go (resolve_group env input db) refl
  where
    go :
        (g : Option ResolvedGroup)
        → resolve_group env input db ≡ g
        → ((o : OrderRow) × (items : List OrderItemRow) × (m : Bool) × (f : Bool) × (r
              ≡ created o items m f))
          ⊎ (db' ≡ db)
    go none e = inr (unfold create_order_transaction in ground arith)
    go (some not_open) e = inr (unfold create_order_transaction in ground arith)
    go (some (resolved g n gs)) e = shape r h
      where
        shape :
            (r : CreateOrderResult)
            → create_order_transaction env input db ≡ some (r, db')
            → ((o : OrderRow) × (items : List OrderItemRow) × (m : Bool) × (f : Bool) × (r
                  ≡ created o items m f))
              ⊎ (db' ≡ db)
        shape (created o items m f) h = inl (o, items, m, f, refl)
        shape (Repository.products_not_found ids) h =
            inr (unfold create_order_transaction place_order in ground arith)
        shape (products_unavailable ids) h =
            inr (unfold create_order_transaction place_order in ground arith)
        shape bill_group_not_open h =
            inr (unfold create_order_transaction place_order in ground arith)
        shape (table_not_orderable s) h =
            inr (unfold create_order_transaction place_order in ground arith)

-- The item with another price.
abbrev pub repriced : (OrderItemRow → ℕ) → OrderItemRow → OrderItemRow
repriced price i = record i { unit_price_minor_snapshot = price i }

-- What the kitchen sees of an order does not depend on any price.
pub to_dto-kitchen :
    (order : OrderRow) (items : List OrderItemRow) (price : OrderItemRow → ℕ)
    → to_dto order (map (repriced price) items) kitchen ≡ to_dto order items kitchen
unfolding to_dto
to_dto-kitchen order items price = ap (kitchen_order_dto order) (same items)
  where
    same :
        (is : List OrderItemRow)
        → map kitchen_item_dto (map (repriced price) is) ≡ map kitchen_item_dto is
    same [] = refl
    same (i ∷ is) = ap (λ xs. kitchen_item_dto i ∷ xs) (same is)
