-- ===== src/Rollups/Sums.antt =====
-- The sums over the rollup tables: what one completed or one cancelled order adds to them.
use smart_table.Prelude.{
  ℕ, ◌+◌, ◌≡◌, refl, String, some, List, [], ◌∷◌, arith, sum_of, sum_of-upsert, sum_of-upsert_keep,
  if◌then◌else◌, Option-cases, inl, inr,
}
use smart_table.Database.{SalesRollupDaily, SalesRollupHourly, RollupBucket, Env}
use smart_table.Rollups.{
  Rollups, CompletedOrderRollupInput, Aggregate, upsert_daily, upsert_hourly, is_dine_in,
  write_product, write_products, aggregate_items, upsert_completed_order_rollup,
  increment_cancelled_order_rollup,
}

-- The totals that the daily table holds over all its days.
abbrev pub revenue : List SalesRollupDaily → ℕ
revenue = sum_of (λ row. row.total_revenue_minor)

abbrev pub dine_in_revenue : List SalesRollupDaily → ℕ
dine_in_revenue = sum_of (λ row. row.dine_in_revenue_minor)

abbrev pub delivery_revenue : List SalesRollupDaily → ℕ
delivery_revenue = sum_of (λ row. row.delivery_revenue_minor)

abbrev pub cancellations : List SalesRollupDaily → ℕ
cancellations = sum_of (λ row. row.cancelled_orders)

abbrev pub orders_rolled_up : List SalesRollupDaily → ℕ
orders_rolled_up = sum_of (λ row. row.total_orders)

abbrev pub hourly_revenue : List SalesRollupHourly → ℕ
hourly_revenue = sum_of (λ row. row.revenue_minor)

module _ (input : CompletedOrderRollupInput) where
  pub revenue-upsert_daily :
      (rows : List SalesRollupDaily)
      → revenue (upsert_daily input rows) ≡ revenue rows + input.order_total_minor
  unfolding upsert_daily
  revenue-upsert_daily rows = sum_of-upsert _ _ _ _ _ rows refl (λ r. refl)

  pub dine_in_revenue-upsert_daily :
      (rows : List SalesRollupDaily)
      → dine_in_revenue (upsert_daily input rows)
        ≡ dine_in_revenue rows + (if is_dine_in input.channel then input.order_total_minor else 0)
  unfolding upsert_daily
  dine_in_revenue-upsert_daily rows = sum_of-upsert _ _ _ _ _ rows refl (λ r. refl)

  pub delivery_revenue-upsert_daily :
      (rows : List SalesRollupDaily)
      → delivery_revenue (upsert_daily input rows)
        ≡ delivery_revenue rows + (if is_dine_in input.channel then 0 else input.order_total_minor)
  unfolding upsert_daily
  delivery_revenue-upsert_daily rows = sum_of-upsert _ _ _ _ _ rows refl (λ r. refl)

  pub orders_rolled_up-upsert_daily :
      (rows : List SalesRollupDaily)
      → orders_rolled_up (upsert_daily input rows) ≡ orders_rolled_up rows + 1
  unfolding upsert_daily
  orders_rolled_up-upsert_daily rows = sum_of-upsert _ _ _ _ _ rows refl (λ r. refl)

  pub cancellations-upsert_daily :
      (rows : List SalesRollupDaily) → cancellations (upsert_daily input rows) ≡ cancellations rows
  unfolding upsert_daily
  cancellations-upsert_daily rows = sum_of-upsert_keep _ _ _ _ rows refl (λ r. refl)

  pub hourly_revenue-upsert_hourly :
      (rows : List SalesRollupHourly)
      → hourly_revenue (upsert_hourly input rows) ≡ hourly_revenue rows + input.order_total_minor
  unfolding upsert_hourly
  hourly_revenue-upsert_hourly rows = sum_of-upsert _ _ _ _ _ rows refl (λ r. refl)

-- A cancellation leaves every revenue as it is, and counts one.
pub revenue-increment_cancelled :
    (b : RollupBucket) (now : ℕ) (rows : List SalesRollupDaily)
    → (revenue (increment_cancelled_order_rollup b now rows) ≡ revenue rows)
      × (dine_in_revenue (increment_cancelled_order_rollup b now rows) ≡ dine_in_revenue rows)
      × (delivery_revenue (increment_cancelled_order_rollup b now rows) ≡ delivery_revenue rows)
      × (orders_rolled_up (increment_cancelled_order_rollup b now rows) ≡ orders_rolled_up rows)
      × (cancellations (increment_cancelled_order_rollup b now rows) ≡ cancellations rows + 1)
unfolding increment_cancelled_order_rollup
revenue-increment_cancelled b now rows = (
  sum_of-upsert_keep _ _ _ _ rows refl (λ r. refl),
  sum_of-upsert_keep _ _ _ _ rows refl (λ r. refl),
  sum_of-upsert_keep _ _ _ _ rows refl (λ r. refl),
  sum_of-upsert_keep _ _ _ _ rows refl (λ r. refl),
  sum_of-upsert _ _ _ _ 1 rows refl (λ r. refl),
)

-- Writing the product rollups leaves the two other tables alone.
write_product-frame :
    (env : Env) (d : String) (e : Aggregate) (r r' : Rollups)
    → write_product env d e r ≡ some r'
    → (r'.daily ≡ r.daily) × (r'.hourly ≡ r.hourly)
unfolding write_product
write_product-frame env d e r r' h = ground arith

write_products-frame :
    (env : Env) (d : String) (es : List Aggregate) (r r' : Rollups)
    → write_products env d es r ≡ some r'
    → (r'.daily ≡ r.daily) × (r'.hourly ≡ r.hourly)
unfolding write_products
write_products-frame env d [] r r' h = ground arith
write_products-frame env d (e ∷ es) r r' h = elim (Option-cases (write_product env d e r)) [
  | inl q ↦ ground arith
  | inr (s, q) ↦
      ground (arith, write_product-frame env d e r s q, write_products-frame env d es s r')
]

pub upsert_completed-tables :
    (env : Env) (input : CompletedOrderRollupInput) (r r' : Rollups)
    → upsert_completed_order_rollup env input r ≡ some r'
    → (r'.daily ≡ upsert_daily input r.daily) × (r'.hourly ≡ upsert_hourly input r.hourly)
unfolding upsert_completed_order_rollup
upsert_completed-tables env input r r' h =
    write_products-frame env input.bucket.date (aggregate_items input.items)
      (record r { daily = upsert_daily input r.daily; hourly = upsert_hourly input r.hourly }) r' h
