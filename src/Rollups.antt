-- ===== src/Rollups.antt =====
-- apps/api/src/database/rollups.ts: the one write path into the three rollup tables.
-- The local calendar is the runtime's, so `rollupBucketFor` is a field of `Env`.
pub mod Sums
pub mod Products
pub mod Periods
use mathlib.Core.List.{foldl}
use smart_table.Prelude.{
  ℕ, suc, ◌+◌, ◌*◌, Bool, true, false, ◌&&◌, String, str_eq, Option, none, some, List, [], ◌∷◌,
  ◌==◌, if◌then◌else◌, upsert, update, first, select,
}
use Prim.Native.String.{◌++◌ as concat}
use smart_table.Domain.{OrderChannel, dine_in, delivery}
use smart_table.Database.{
  OrderItemRow, SalesRollupDaily, SalesRollupHourly, ProductSalesRollup, RollupBucket, Env,
  insert_unique,
}

-- The three tables, and how many ids the transaction has drawn for them.
pub record Rollups : Type 0 where
  pub daily : List SalesRollupDaily
  pub hourly : List SalesRollupHourly
  pub products : List ProductSalesRollup
  pub drawn : ℕ

pub record CompletedOrderRollupInput : Type 0 where
  pub bucket : RollupBucket
  pub now : ℕ
  pub order_total_minor : ℕ
  pub channel : OrderChannel
  pub items : List OrderItemRow

abbrev pub is_dine_in : OrderChannel → Bool
is_dine_in dine_in = true
is_dine_in delivery = false

-- insert into sales_rollup_daily … on conflict (date) do update
unfoldable pub upsert_daily :
    CompletedOrderRollupInput → List SalesRollupDaily → List SalesRollupDaily
upsert_daily input =
    let total = input.order_total_minor in
    let dine_in_total : ℕ = if is_dine_in input.channel then total else 0 in
    let delivery_total : ℕ = if is_dine_in input.channel then 0 else total in
    upsert (λ row. str_eq row.date input.bucket.date)
      (λ row. record row {
        total_revenue_minor = row.total_revenue_minor + total;
        dine_in_revenue_minor = row.dine_in_revenue_minor + dine_in_total;
        delivery_revenue_minor = row.delivery_revenue_minor + delivery_total;
        total_orders = row.total_orders + 1;
        updated_at = input.now;
      })
      (record {
        date = input.bucket.date;
        total_revenue_minor = total;
        dine_in_revenue_minor = dine_in_total;
        delivery_revenue_minor = delivery_total;
        total_orders = 1;
        cancelled_orders = 0;
        updated_at = input.now;
      })

-- insert into sales_rollup_hourly … on conflict (date, hour) do update
unfoldable pub upsert_hourly :
    CompletedOrderRollupInput → List SalesRollupHourly → List SalesRollupHourly
upsert_hourly input =
    upsert (λ row. str_eq row.date input.bucket.date && row.hour == input.bucket.hour)
      (λ row. record row {
        revenue_minor = row.revenue_minor + input.order_total_minor;
        orders_count = row.orders_count + 1;
      })
      (record {
        date = input.bucket.date;
        hour = input.bucket.hour;
        revenue_minor = input.order_total_minor;
        orders_count = 1;
      })

-- A bucket of the `Map` named `aggregated`, with its key; the map keeps the order of insertion.
pub record Aggregate : Type 0 where
  pub key : String
  pub name : String
  pub category : String
  pub quantity : ℕ
  pub revenue_minor : ℕ

abbrev pub aggregate_item : List Aggregate → OrderItemRow → List Aggregate
aggregate_item aggregated item =
    let key = concat item.name_snapshot item.category_snapshot in
    let revenue = item.unit_price_minor_snapshot * item.quantity in
    upsert (λ bucket. str_eq bucket.key key)
      (λ bucket. record bucket {
        quantity = bucket.quantity + item.quantity;
        revenue_minor = bucket.revenue_minor + revenue;
      })
      (record {
        key = key;
        name = item.name_snapshot;
        category = item.category_snapshot;
        quantity = item.quantity;
        revenue_minor = revenue;
      })
      aggregated

unfoldable pub aggregate_items : List OrderItemRow → List Aggregate
aggregate_items = foldl aggregate_item []

-- The select, and the update or the insert, for one entry of the map.
unfoldable pub write_product : Env → String → Aggregate → Rollups → Option Rollups
write_product env date entry r =
    elim (first
      (λ (row : ProductSalesRollup).
        str_eq row.date date
        && (str_eq row.product_name_snapshot entry.name
            && str_eq row.category_snapshot entry.category))
      r.products) [
        | some existing ↦ some (record r {
          products =
              update (λ row. row.id == existing.id)
                (λ row. record row {
                  quantity_sold = existing.quantity_sold + entry.quantity;
                  revenue_minor = existing.revenue_minor + entry.revenue_minor;
                })
                r.products;
        })
        | none ↦
            elim (insert_unique (λ row. row.id)
              (record {
                id = env.uuid r.drawn;
                date = date;
                product_name_snapshot = entry.name;
                category_snapshot = entry.category;
                quantity_sold = entry.quantity;
                revenue_minor = entry.revenue_minor;
              })
              r.products) [
                | some products ↦ some (record r { products = products; drawn = suc r.drawn })
                | none ↦ none
              ]
      ]

unfoldable pub write_products : Env → String → List Aggregate → Rollups → Option Rollups
write_products env date [] r = some r
write_products env date (entry ∷ entries) r = elim (write_product env date entry r) [
  | some r' ↦ write_products env date entries r'
  | none ↦ none
]

unfoldable pub upsert_completed_order_rollup :
    Env → CompletedOrderRollupInput → Rollups → Option Rollups
upsert_completed_order_rollup env input r =
    write_products env input.bucket.date (aggregate_items input.items)
      (record r { daily = upsert_daily input r.daily; hourly = upsert_hourly input r.hourly })

unfoldable pub increment_cancelled_order_rollup :
    RollupBucket → ℕ → List SalesRollupDaily → List SalesRollupDaily
increment_cancelled_order_rollup bucket now =
    upsert (λ row. str_eq row.date bucket.date)
      (λ row. record row { cancelled_orders = row.cancelled_orders + 1; updated_at = now })
      (record {
        date = bucket.date;
        total_revenue_minor = 0;
        dine_in_revenue_minor = 0;
        delivery_revenue_minor = 0;
        total_orders = 0;
        cancelled_orders = 1;
        updated_at = now;
      })
