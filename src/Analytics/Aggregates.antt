-- ===== src/Analytics/Aggregates.antt =====
-- The aggregates of apps/api/src/modules/analytics/analytics.service.ts and what is merged into
-- them. A JavaScript `Map` is the list of its entries in the order of their insertion; setting the
-- changed value of a key is an upsert, from the value that a missing key counts as.
use mathlib.Core.List.{foldl}
use Prim.Native.String.{◌++◌ as concat}
use smart_table.Prelude.{
  ℕ, ◌+◌, Bool, String, str_eq, none, some, List, [], ◌∷◌, ◌==◌, if◌then◌else◌, upsert, first,
}
use smart_table.Domain.{OrderChannel}
use smart_table.Database.{SalesRollupDaily, SalesRollupHourly, ProductSalesRollup, Env}
use smart_table.Rollups.{is_dine_in}
use smart_table.Analytics.Range.{Bucket, at_hour, at_day}

pub record ItemFact : Type 0 where
  pub name : String
  pub category : String
  pub quantity : ℕ
  pub net_minor : ℕ

pub record OrderFacts : Type 0 where
  pub order_id : ℕ
  pub channel : OrderChannel
  pub completed_at_ms : ℕ
  pub total_minor : ℕ
  pub items : List ItemFact

-- An entry of productAgg, with its key.
pub record ProductAggregate : Type 0 where
  pub key : String
  pub name : String
  pub category : String
  pub quantity : ℕ
  pub revenue_minor : ℕ

pub record CategoryAggregate : Type 0 where
  pub name : String
  pub quantity : ℕ
  pub revenue_minor : ℕ

pub record HourAggregate : Type 0 where
  pub hour : ℕ
  pub revenue_minor : ℕ
  pub orders : ℕ

pub record DayAggregate : Type 0 where
  pub date : String
  pub revenue_minor : ℕ
  pub orders : ℕ

pub record Aggregates : Type 0 where
  pub revenue_minor : ℕ
  pub dine_in_minor : ℕ
  pub delivery_minor : ℕ
  pub orders : ℕ
  pub cancelled : ℕ
  pub cancelled_attributable : Bool
  pub product_agg : List ProductAggregate
  pub category_agg : List CategoryAggregate
  pub hourly_agg : List HourAggregate
  pub daily_agg : List DayAggregate

unfoldable pub empty_aggregates : Bool → Aggregates
empty_aggregates cancelled_attributable = record {
  revenue_minor = 0;
  dine_in_minor = 0;
  delivery_minor = 0;
  orders = 0;
  cancelled = 0;
  cancelled_attributable = cancelled_attributable;
  product_agg = [];
  category_agg = [];
  hourly_agg = [];
  daily_agg = [];
}

-- dailyAgg.set(date, (dailyAgg.get(date) ?? zero) + …)
unfoldable pub add_day : String → ℕ → ℕ → List DayAggregate → List DayAggregate
add_day date revenue orders =
    upsert (λ day. str_eq day.date date)
      (λ day. record day {
        revenue_minor = day.revenue_minor + revenue;
        orders = day.orders + orders;
      })
      (record { date = date; revenue_minor = revenue; orders = orders })

-- hourlyAgg.set(hour, (hourlyAgg.get(hour) ?? zero) + …)
unfoldable pub add_hour : ℕ → ℕ → ℕ → List HourAggregate → List HourAggregate
add_hour hour revenue orders =
    upsert (λ bucket. bucket.hour == hour)
      (λ bucket. record bucket {
        revenue_minor = bucket.revenue_minor + revenue;
        orders = bucket.orders + orders;
      })
      (record { hour = hour; revenue_minor = revenue; orders = orders })

unfoldable pub add_product : ItemFact → List ProductAggregate → List ProductAggregate
add_product item =
    let key = concat item.name (concat " " item.category) in
    upsert (λ product. str_eq product.key key)
      (λ product. record product {
        quantity = product.quantity + item.quantity;
        revenue_minor = product.revenue_minor + item.net_minor;
      })
      (record {
        key = key;
        name = item.name;
        category = item.category;
        quantity = item.quantity;
        revenue_minor = item.net_minor;
      })

unfoldable pub add_category : ItemFact → List CategoryAggregate → List CategoryAggregate
add_category item =
    upsert (λ category. str_eq category.name item.category)
      (λ category. record category {
        quantity = category.quantity + item.quantity;
        revenue_minor = category.revenue_minor + item.net_minor;
      })
      (record { name = item.category; quantity = item.quantity; revenue_minor = item.net_minor })

abbrev pub add_product_fact : Aggregates → ItemFact → Aggregates
add_product_fact a item = record a {
  product_agg = add_product item a.product_agg;
  category_agg = add_category item a.category_agg;
}

unfoldable pub add_product_facts : Aggregates → List ItemFact → Aggregates
add_product_facts = foldl add_product_fact

abbrev pub merge_daily_row : Aggregates → SalesRollupDaily → Aggregates
merge_daily_row a row = record a {
  revenue_minor = a.revenue_minor + row.total_revenue_minor;
  dine_in_minor = a.dine_in_minor + row.dine_in_revenue_minor;
  delivery_minor = a.delivery_minor + row.delivery_revenue_minor;
  orders = a.orders + row.total_orders;
  cancelled = a.cancelled + row.cancelled_orders;
  daily_agg = add_day row.date row.total_revenue_minor row.total_orders a.daily_agg;
}

abbrev pub merge_hourly_row : Aggregates → SalesRollupHourly → Aggregates
merge_hourly_row a row = record a {
  hourly_agg = add_hour row.hour row.revenue_minor row.orders_count a.hourly_agg;
}

abbrev pub merge_product_row : Aggregates → ProductSalesRollup → Aggregates
merge_product_row a row = add_product_facts a (
    record {
      name = row.product_name_snapshot;
      category = row.category_snapshot;
      quantity = row.quantity_sold;
      net_minor = row.revenue_minor;
    }
    ∷ [])

unfoldable pub merge_rollups :
    Aggregates
    → List SalesRollupDaily
    → List SalesRollupHourly
    → List ProductSalesRollup
    → Aggregates
merge_rollups a daily hourly product =
    foldl merge_product_row (foldl merge_hourly_row (foldl merge_daily_row a daily) hourly) product

unfoldable pub merge_fact : Env → Aggregates → OrderFacts → Aggregates
merge_fact env a fact =
    let bucket = env.rollup_bucket_for fact.completed_at_ms in
    let dine_in : ℕ = if is_dine_in fact.channel then fact.total_minor else 0 in
    let delivery : ℕ = if is_dine_in fact.channel then 0 else fact.total_minor in
    add_product_facts
      (record a {
        revenue_minor = a.revenue_minor + fact.total_minor;
        dine_in_minor = a.dine_in_minor + dine_in;
        delivery_minor = a.delivery_minor + delivery;
        orders = a.orders + 1;
        daily_agg = add_day bucket.date fact.total_minor 1 a.daily_agg;
        hourly_agg = add_hour bucket.hour fact.total_minor 1 a.hourly_agg;
      })
      fact.items

unfoldable pub merge_facts : Env → Aggregates → List OrderFacts → Aggregates
merge_facts env = foldl (merge_fact env)

-- The value of a point: `{ revenueMinor, orders }`, zero where the map has no entry.
pub record BucketValue : Type 0 where
  pub revenue_minor : ℕ
  pub orders : ℕ

abbrev pub day_value : String → List DayAggregate → BucketValue
day_value date days = elim (first (λ (day : DayAggregate). str_eq day.date date) days) [
  | none ↦ record { revenue_minor = 0; orders = 0 }
  | some day ↦ record { revenue_minor = day.revenue_minor; orders = day.orders }
]

abbrev pub hour_value : ℕ → List HourAggregate → BucketValue
hour_value hour hours = elim (first (λ (bucket : HourAggregate). bucket.hour == hour) hours) [
  | none ↦ record { revenue_minor = 0; orders = 0 }
  | some bucket ↦ record { revenue_minor = bucket.revenue_minor; orders = bucket.orders }
]

unfoldable pub bucket_value : Aggregates → Bucket → BucketValue
bucket_value a (at_hour hour) = hour_value hour a.hourly_agg
bucket_value a (at_day date) = day_value date a.daily_agg
