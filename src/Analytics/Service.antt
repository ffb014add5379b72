-- ===== src/Analytics/Service.antt =====
-- The five endpoints of apps/api/src/modules/analytics/analytics.service.ts.
use smart_table.Prelude.{
  ℕ, ◌+◌, ◌*◌, ◌&&◌, ◌||◌, String, Option, none, some, List, map, ltb, ◌==◌, if◌then◌else◌,
  order_by, take,
}
use smart_table.Domain.{Result, ok, err}
use smart_table.Database.{Db, Env}
use smart_table.BillingMath.{round_half_up_div}
use smart_table.Analytics.Repository.{Runtime, count_active_tables}
use smart_table.Analytics.Range.{
  AnalyticsQuery, ResolvedRange, resolve_range, Bucket, at_hour, at_day, hours_of_day, day_buckets,
}
use smart_table.Analytics.Aggregates.{Aggregates, CategoryAggregate, bucket_value}
use smart_table.Analytics.Facts.{aggregate}
use smart_table.Analytics.Derived.{
  Ranked, of_product, of_category, ranking, best_of, peak_hour, peak_day, average_preparation_time,
  average_table_turnover, revenue_by_shift, ShiftRevenueDto,
}
use smart_table.Analytics.Staff.{OperationalEmployeeStats, operational_stats}

abbrev pub top_products_limit : ℕ
top_products_limit = 10

abbrev pub with_range {ℓ} : {A : Type ℓ} → Result ResolvedRange → (ResolvedRange → A) → Result A
with_range (err e) f = err e
with_range (ok range) f = ok (f range)

unfoldable pub get_top_products : Env → Runtime → AnalyticsQuery → Db → Result (List Ranked)
get_top_products env rt q db = with_range (resolve_range rt q) (λ range.
    take top_products_limit (ranking rt (map of_product (aggregate env rt q range db).product_agg)))

unfoldable pub get_operational_stats :
    Runtime → AnalyticsQuery → Db → Result (List OperationalEmployeeStats)
get_operational_stats rt q db =
    with_range (resolve_range rt q) (λ range. operational_stats rt q range db)

-- A series: the points with their values. The days of a range longer than the fuel are not counted
-- up, which gives `none`.
abbrev pub series_of : (Bucket → ℕ) → Option (List Bucket) → Option (List (Bucket × ℕ))
series_of value none = none
series_of value (some buckets) = some (map (λ b. (b, value b)) buckets)

abbrev pub day_points : Option (List String) → Option (List Bucket)
day_points none = none
day_points (some dates) = some (map at_day dates)

unfoldable pub series_buckets : Runtime → ℕ → ResolvedRange → Option (List Bucket)
series_buckets rt fuel range =
    if range.single_day
    then some (map at_hour hours_of_day)
    else day_points (day_buckets rt fuel range.from_date range.to_date)

unfoldable pub get_revenue_over_time :
    Env → Runtime → ℕ → AnalyticsQuery → Db → Result (Option (List (Bucket × ℕ)))
get_revenue_over_time env rt fuel q db = with_range (resolve_range rt q) (λ range.
    let a = aggregate env rt q range db in
    series_of (λ b. (bucket_value a b).revenue_minor) (series_buckets rt fuel range))

unfoldable pub get_orders_over_time :
    Env → Runtime → ℕ → AnalyticsQuery → Db → Result (Option (List (Bucket × ℕ)))
get_orders_over_time env rt fuel q db = with_range (resolve_range rt q) (λ range.
    let a = aggregate env rt q range db in
    series_of (λ b. (bucket_value a b).orders) (series_buckets rt fuel range))

pub record AnalyticsKpis : Type 0 where
  pub total_revenue_minor : ℕ
  pub dine_in_revenue_minor : ℕ
  pub delivery_revenue_minor : ℕ
  pub total_orders : ℕ
  pub average_order_value_minor : Option ℕ
  pub best_selling_product : Option Ranked
  pub best_selling_category : Option Ranked
  pub peak_sales_hour : Option (ℕ × ℕ)
  pub peak_sales_day : Option (String × ℕ)
  pub average_preparation_time_ms : Option ℕ
  pub active_tables : ℕ
  -- in ten-thousandths, to which the code rounds the quotient
  pub cancellation_rate : Option ℕ
  pub average_table_turnover_ms : Option ℕ
  pub revenue_by_shift : List ShiftRevenueDto
  pub category_mix : List CategoryAggregate

unfoldable pub average_order_value : Aggregates → Option ℕ
average_order_value a =
    if ltb 0 a.orders then some (round_half_up_div a.revenue_minor a.orders) else none

unfoldable pub cancellation_rate : Aggregates → Option ℕ
cancellation_rate a =
    if a.cancelled_attributable && ltb 0 (a.orders + a.cancelled)
    then some (round_half_up_div (a.cancelled * 10_000) (a.orders + a.cancelled))
    else none

-- The categories by revenue, then by name.
unfoldable pub category_mix : Runtime → Aggregates → List CategoryAggregate
category_mix rt a =
    order_by
      (λ c d.
        ltb d.revenue_minor c.revenue_minor
        || (c.revenue_minor == d.revenue_minor && rt.locale_le c.name d.name))
      a.category_agg

unfoldable pub kpis : Env → Runtime → AnalyticsQuery → ResolvedRange → Db → AnalyticsKpis
kpis env rt q range db =
    let a = aggregate env rt q range db in
    record {
      total_revenue_minor = a.revenue_minor;
      dine_in_revenue_minor = a.dine_in_minor;
      delivery_revenue_minor = a.delivery_minor;
      total_orders = a.orders;
      average_order_value_minor = average_order_value a;
      best_selling_product = best_of rt (map of_product a.product_agg);
      best_selling_category = best_of rt (map of_category a.category_agg);
      peak_sales_hour = peak_hour a;
      peak_sales_day = peak_day a;
      average_preparation_time_ms = average_preparation_time range db;
      active_tables = count_active_tables db;
      cancellation_rate = cancellation_rate a;
      average_table_turnover_ms = average_table_turnover range db;
      revenue_by_shift = revenue_by_shift range q.employee_id db;
      category_mix = category_mix rt a;
    }

unfoldable pub get_kpis : Env → Runtime → AnalyticsQuery → Db → Result AnalyticsKpis
get_kpis env rt q db = with_range (resolve_range rt q) (λ range. kpis env rt q range db)
