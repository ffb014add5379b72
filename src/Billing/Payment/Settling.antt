-- ===== src/Billing/Payment/Settling.antt =====
-- Settling the orders of a visit goes through: no step of it throws.
use mathlib.Core.Path.{subst}
use smart_table.Prelude.{
  ℕ, suc, ◌+◌, ◌≤◌, ◌<◌, ◌≡◌, ◌≢◌, refl, Bool, ◌&&◌, String, none, some, List, [], ◌∷◌, ◌++◌, map,
  ◌==◌, str_eq, arith, first, count, update, Option-cases, inl, inr, first-count,
  count-update-moves, count-update-apart, first-append-none, first-update-none,
}
use smart_table.Domain.{served, paid, completed}
use smart_table.Database.{
  OrderRow, OrderItemRow, ProductSalesRollup, RollupBucket, Env, insert_unique,
}
use smart_table.Rollups.{
  Rollups, Aggregate, CompletedOrderRollupInput, write_product, write_products,
  upsert_completed_order_rollup, upsert_daily, upsert_hourly, aggregate_items,
}
use smart_table.Orders.Repository.{is_order_in}
use smart_table.Billing.Payment.{
  CompletedOrderLine, Settlement, settle_line, settle_lines, order_line, move_to,
}

-- The ids that are still to be drawn name no row of the product rollup.
pub record IsFresh (env : Env) (r : Rollups) : Type 0 where
  pub ahead :
      (k : ℕ)
      → r.drawn ≤ k
      → first (λ (row : ProductSalesRollup). row.id == env.uuid k) r.products ≡ none

module _ (env : Env) (distinct : (j k : ℕ) → env.uuid j ≡ env.uuid k → j ≡ k) where
  abbrev is_product_of : String → Aggregate → ProductSalesRollup → Bool
  is_product_of d e row =
      str_eq row.date d
      && (str_eq row.product_name_snapshot e.name && str_eq row.category_snapshot e.category)

  abbrev new_product : String → Aggregate → ℕ → ProductSalesRollup
  new_product d e k = record {
    id = env.uuid k;
    date = d;
    product_name_snapshot = e.name;
    category_snapshot = e.category;
    quantity_sold = e.quantity;
    revenue_minor = e.revenue_minor;
  }

  write_product-IsFresh :
      (d : String) (e : Aggregate) (r : Rollups)
      → IsFresh env r
      → (r' : Rollups) × (write_product env d e r ≡ some r') × IsFresh env r'
  unfolding write_product insert_unique
  write_product-IsFresh d e r fresh = elim (Option-cases (first (is_product_of d e) r.products)) [
    | inl h ↦
        let free = fresh.ahead r.drawn (omega arith) in
        let grown : Rollups = record r {
          products = r.products ++ new_product d e r.drawn ∷ [];
          drawn = suc r.drawn;
        } in
        (
          grown,
          ground arith,
          record {
            ahead = λ (k : ℕ) (le : suc r.drawn ≤ k).
                first-append-none _ r.products (new_product d e r.drawn)
                  (fresh.ahead k (omega arith)) (ground (arith, distinct r.drawn k));
          },
        )
    | inr (x, h) ↦
        let f : ProductSalesRollup → ProductSalesRollup = λ row. record row {
          quantity_sold = x.quantity_sold + e.quantity;
          revenue_minor = x.revenue_minor + e.revenue_minor;
        } in
        (
          record r {
            products = update (λ (row : ProductSalesRollup). row.id == x.id) f r.products;
          },
          ground arith,
          record {
            ahead = λ k le. first-update-none _ _ f r.products (fresh.ahead k le) (λ row. refl);
          },
        )
  ]

  write_products-IsFresh :
      (d : String) (es : List Aggregate) (r : Rollups)
      → IsFresh env r
      → (r' : Rollups) × (write_products env d es r ≡ some r') × IsFresh env r'
  unfolding write_products
  write_products-IsFresh d [] r fresh = (r, refl, fresh)
  write_products-IsFresh d (e ∷ es) r fresh =
      let (s, h, f) = write_product-IsFresh d e r fresh in
      let (t, i, g) = write_products-IsFresh d es s f in (t, rw (write_products, h) i, g)

  upsert_completed-IsFresh :
      (input : CompletedOrderRollupInput) (r : Rollups)
      → IsFresh env r
      → (r' : Rollups) × (upsert_completed_order_rollup env input r ≡ some r') × IsFresh env r'
  unfolding upsert_completed_order_rollup
  upsert_completed-IsFresh input r fresh =
      write_products-IsFresh input.bucket.date (aggregate_items input.items)
        (record r { daily = upsert_daily input r.daily; hourly = upsert_hourly input r.hourly })
        (record { ahead = fresh.ahead })

abbrev pub has_order_id : ℕ → OrderRow → Bool
has_order_id id o = o.id == id

-- Each of the orders to settle is in the table, and served.
abbrev pub AllServed : List OrderRow → List OrderRow → Type 0
AllServed os orders =
    (i : ℕ) → 0 < count (has_order_id i) os → 0 < count (is_order_in i served) orders

-- No two orders of a list have the same id.
abbrev pub IsKeyed : List OrderRow → Type 0
IsKeyed os = (i : ℕ) → count (has_order_id i) os ≤ 1

module _ (env : Env) (distinct : (j k : ℕ) → env.uuid j ≡ env.uuid k → j ≡ k) (actor : ℕ)
    (bucket : RollupBucket) where
  abbrev paid_rows : ℕ → List OrderRow → List OrderRow
  paid_rows id = update (is_order_in id served) (move_to paid env.now)

  abbrev completed_rows : ℕ → List OrderRow → List OrderRow
  completed_rows id orders =
      update (is_order_in id paid) (move_to completed env.now) (paid_rows id orders)

  settle_line-succeeds :
      (line : CompletedOrderLine) (s : Settlement)
      → IsFresh env s.rollups
      → 0 < count (is_order_in line.order.id served) s.orders
      → (done : CompletedOrderLine) × (s' : Settlement) × (settle_line env actor bucket line s
          ≡ some (done, s'))
        × IsFresh env s'.rollups
        × (s'.orders ≡ completed_rows line.order.id s.orders)
  unfolding settle_line
  settle_line-succeeds line s fresh there =
      let id = line.order.id in
      let moved =
        count-update-moves (is_order_in id served) (is_order_in id paid) (move_to paid env.now)
          s.orders (λ r e. ground arith) in
      let (row, f) = first-count (is_order_in id served) s.orders there in
      let (row', f') =
        first-count (is_order_in id paid) (paid_rows id s.orders) (omega (arith, moved, there)) in
      let (r, h, fr) =
        upsert_completed-IsFresh env distinct
          (record {
            bucket = bucket;
            now = env.now;
            order_total_minor = line.totals.total_minor;
            channel = line.order.channel;
            items = line.items;
          })
          s.rollups fresh in
      elim (Option-cases (settle_line env actor bucket line s)) [
        | inl e ↦ absurd (ground (arith, f, f', h))
        | inr ((done, s'), e) ↦
            let er : r ≡ s'.rollups = ground (arith, f, f', h) in
            (done, s', e, subst (IsFresh env) er fr, ground (arith, f, f', h))
      ]

  still_served :
      (id i : ℕ) (orders : List OrderRow)
      → i ≢ id
      → count (is_order_in i served) orders
        ≤ count (is_order_in i served) (completed_rows id orders)
  still_served id i orders ne =
      let a =
        count-update-apart (is_order_in id served) (is_order_in i served) (move_to paid env.now)
          orders (λ r e f. ground arith) in
      let b =
        count-update-apart (is_order_in id paid) (is_order_in i served) (move_to completed env.now)
          (paid_rows id orders) (λ r e f. ground arith) in
      omega (arith, a, b)

  pub settle_lines-succeeds :
      (bps : ℕ) (items : List OrderItemRow) (os : List OrderRow) (s : Settlement)
      → IsFresh env s.rollups
      → IsKeyed os
      → AllServed os s.orders
      → (done : List CompletedOrderLine) × (s' : Settlement) × (settle_lines env actor bucket
            (map (order_line bps items) os)
            s
          ≡ some (done, s'))
  unfolding settle_lines
  settle_lines-succeeds bps items [] s fresh keyed all = ([], s, refl)
  settle_lines-succeeds bps items (o ∷ os) s fresh keyed all =
      let here : 0 < count (has_order_id o.id) (o ∷ os) = unfold count in ground arith in
      let (line, t, h, f, et) =
        settle_line-succeeds (order_line bps items o) s fresh
          (unfold order_line in all o.id here) in
      let rest : AllServed os t.orders = λ i some_left.
        let other : i ≢ o.id = λ e. let k = keyed i in unfold count in ground arith in
        let there = all i (unfold count in ground arith) in
        let eo : t.orders ≡ completed_rows o.id s.orders = unfold order_line in et in
        rw eo (omega (arith, there, still_served o.id i s.orders other)) in
      let (ls, u, g) =
        settle_lines-succeeds bps items os t f
          (λ i. let k = keyed i in unfold count in ground arith) rest in
      (line ∷ ls, u, rw (settle_lines, h, g) refl)
