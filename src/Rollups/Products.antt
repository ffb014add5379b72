-- ===== src/Rollups/Products.antt =====
-- The product rollups: aggregation loses nothing, and where its key mixes two products up.
use mathlib.Core.List.{foldl}
use text.Mathlib.TextPositions.{eq_refl}
use Prim.Native.String.{◌++◌ as concat}
use smart_table.Prelude.{
  ℕ, ◌+◌, ◌*◌, ◌≡◌, refl, List, [], ◌∷◌, arith, sum_of, sum_of-upsert, upsert,
}
use smart_table.Database.{OrderItemRow}
use smart_table.Rollups.{Aggregate, aggregate_item, aggregate_items}

quantity-aggregate_item :
    (acc : List Aggregate) (i : OrderItemRow)
    → sum_of (λ (e : Aggregate). e.quantity) (aggregate_item acc i)
      ≡ sum_of (λ (e : Aggregate). e.quantity) acc + i.quantity
quantity-aggregate_item acc i = sum_of-upsert _ _ _ _ _ acc refl (λ e. refl)

quantity-foldl :
    (acc : List Aggregate) (items : List OrderItemRow)
    → sum_of (λ (e : Aggregate). e.quantity) (foldl aggregate_item acc items)
      ≡ sum_of (λ (e : Aggregate). e.quantity) acc + sum_of (λ (i : OrderItemRow). i.quantity) items
quantity-foldl acc [] = omega arith
quantity-foldl acc (i ∷ items) =
    omega (arith, quantity-foldl (aggregate_item acc i) items, quantity-aggregate_item acc i)

-- The price of one item row.
abbrev pub net : OrderItemRow → ℕ
net i = i.unit_price_minor_snapshot * i.quantity

revenue-aggregate_item :
    (acc : List Aggregate) (i : OrderItemRow)
    → sum_of (λ (e : Aggregate). e.revenue_minor) (aggregate_item acc i)
      ≡ sum_of (λ (e : Aggregate). e.revenue_minor) acc + net i
revenue-aggregate_item acc i = sum_of-upsert _ _ _ _ _ acc refl (λ e. refl)

revenue-foldl :
    (acc : List Aggregate) (items : List OrderItemRow)
    → sum_of (λ (e : Aggregate). e.revenue_minor) (foldl aggregate_item acc items)
      ≡ sum_of (λ (e : Aggregate). e.revenue_minor) acc + sum_of net items
revenue-foldl acc [] = omega arith
revenue-foldl acc (i ∷ items) =
    omega (arith, revenue-foldl (aggregate_item acc i) items, revenue-aggregate_item acc i)

-- Aggregation by product neither loses nor invents anything: over all entries, the quantities and
-- the revenues add up to those of the items, whatever the names are.
pub aggregate_items_conserves :
    (items : List OrderItemRow)
    → (sum_of (λ (e : Aggregate). e.quantity) (aggregate_items items)
        ≡ sum_of (λ (i : OrderItemRow). i.quantity) items)
      × (sum_of (λ (e : Aggregate). e.revenue_minor) (aggregate_items items) ≡ sum_of net items)
unfolding aggregate_items
aggregate_items_conserves items =
    (omega (arith, quantity-foldl [] items), omega (arith, revenue-foldl [] items))

-- The key is the name and the category joined with nothing between: two items whose joined texts
-- agree are booked as one entry under the name and the category of the first, also where their
-- names or categories differ.
pub aggregate_items_collision :
    (a b : OrderItemRow)
    → concat b.name_snapshot b.category_snapshot ≡ concat a.name_snapshot a.category_snapshot
    → aggregate_items (a ∷ b ∷ [])
      ≡ record {
        key = concat a.name_snapshot a.category_snapshot;
        name = a.name_snapshot;
        category = a.category_snapshot;
        quantity = a.quantity + b.quantity;
        revenue_minor = net a + net b;
      }
        ∷ []
unfolding aggregate_items upsert
aggregate_items_collision a b h = rw (h, eq_refl)
