-- ===== src/Analytics/Balance/History.antt =====
-- The balance of a whole report: the rows of its history, and what today adds.
use mathlib.Core.List.{foldl}
use smart_table.Prelude.{
  ◌+◌, ◌≡◌, refl, Bool, true, false, String, Option, none, some, List, [], ◌∷◌, arith, sum_of,
  Option-cases, Bool-cases, inl, inr,
}
use smart_table.Database.{SalesRollupDaily, SalesRollupHourly, ProductSalesRollup, Db, Env}
use smart_table.Rollups.Sums.{
  revenue, dine_in_revenue, delivery_revenue, orders_rolled_up, hourly_revenue,
}
use smart_table.Analytics.Repository.{Runtime, find_daily_rollup_rows, find_hourly_rollup_rows}
use smart_table.Analytics.Range.{AnalyticsQuery, ResolvedRange}
use smart_table.Analytics.Aggregates.{
  Aggregates, empty_aggregates, merge_daily_row, merge_hourly_row, merge_rollups,
}
use smart_table.Analytics.Facts.{aggregate, merge_history, merge_today}
use smart_table.Analytics.Balance.{
  IsBalanced, day_sum, day_orders_sum, hour_sum, hour_orders_sum, add_day-sums, add_hour-sums,
  products-IsBalanced, merge_facts-IsBalanced,
}

-- The rollup rows of a period: the channels and the hours add up to the days.
pub record AreBalanced (daily : List SalesRollupDaily) (hourly : List SalesRollupHourly)
    : Type 0 where
  pub row_channels : dine_in_revenue daily + delivery_revenue daily ≡ revenue daily
  pub row_hours : hourly_revenue hourly ≡ revenue daily
  pub row_orders :
      sum_of (λ (h : SalesRollupHourly). h.orders_count) hourly ≡ orders_rolled_up daily

-- What merging rows adds: first those of the days, then those of the hours.
record HistoryAdds (a b : Aggregates) (daily : List SalesRollupDaily)
    (hourly : List SalesRollupHourly) : Type 0 where
  added_revenue : b.revenue_minor ≡ a.revenue_minor + revenue daily
  added_channels :
      b.dine_in_minor + b.delivery_minor
      ≡ a.dine_in_minor + a.delivery_minor + (dine_in_revenue daily + delivery_revenue daily)
  added_orders : b.orders ≡ a.orders + orders_rolled_up daily
  added_days : day_sum b.daily_agg ≡ day_sum a.daily_agg + revenue daily
  added_days_orders :
      day_orders_sum b.daily_agg ≡ day_orders_sum a.daily_agg + orders_rolled_up daily
  added_hours : hour_sum b.hourly_agg ≡ hour_sum a.hourly_agg + hourly_revenue hourly
  added_hours_orders :
      hour_orders_sum b.hourly_agg
      ≡ hour_orders_sum a.hourly_agg + sum_of (λ (h : SalesRollupHourly). h.orders_count) hourly
  same_products : b.product_agg ≡ a.product_agg
  same_categories : b.category_agg ≡ a.category_agg

foldl-HistoryAdds :
    (a : Aggregates) (daily : List SalesRollupDaily) (hourly : List SalesRollupHourly)
    → HistoryAdds a (foldl merge_hourly_row (foldl merge_daily_row a daily) hourly) daily hourly
foldl-HistoryAdds a [] [] = record {
  added_revenue = omega arith;
  added_channels = omega arith;
  added_orders = omega arith;
  added_days = omega arith;
  added_days_orders = omega arith;
  added_hours = omega arith;
  added_hours_orders = omega arith;
  same_products = refl;
  same_categories = refl;
}
foldl-HistoryAdds a [] (row ∷ hourly) =
    let m = foldl-HistoryAdds (merge_hourly_row a row) [] hourly in
    let s = add_hour-sums row.hour row.revenue_minor row.orders_count a.hourly_agg in
    record {
      added_revenue = m.added_revenue;
      added_channels = m.added_channels;
      added_orders = m.added_orders;
      added_days = m.added_days;
      added_days_orders = m.added_days_orders;
      added_hours = omega (arith, m.added_hours, s.0);
      added_hours_orders = omega (arith, m.added_hours_orders, s.1);
      same_products = m.same_products;
      same_categories = m.same_categories;
    }
foldl-HistoryAdds a (row ∷ daily) hourly =
    let m = foldl-HistoryAdds (merge_daily_row a row) daily hourly in
    let s = add_day-sums row.date row.total_revenue_minor row.total_orders a.daily_agg in
    record {
      added_revenue = omega (arith, m.added_revenue);
      added_channels = omega (arith, m.added_channels);
      added_orders = omega (arith, m.added_orders);
      added_days = omega (arith, m.added_days, s.0);
      added_days_orders = omega (arith, m.added_days_orders, s.1);
      added_hours = m.added_hours;
      added_hours_orders = m.added_hours_orders;
      same_products = m.same_products;
      same_categories = m.same_categories;
    }

merge_rollups-IsBalanced :
    (a : Aggregates) (daily : List SalesRollupDaily) (hourly : List SalesRollupHourly)
    (product : List ProductSalesRollup)
    → AreBalanced daily hourly
    → IsBalanced a
    → IsBalanced (merge_rollups a daily hourly product)
unfolding merge_rollups
merge_rollups-IsBalanced a daily hourly product r b =
    let m = foldl-HistoryAdds a daily hourly in
    products-IsBalanced _ product (record {
      channels = omega (arith, m.added_channels, m.added_revenue, b.channels, r.row_channels);
      days = omega (arith, m.added_days, m.added_revenue, b.days);
      days_orders = omega (arith, m.added_days_orders, m.added_orders, b.days_orders);
      hours = omega (arith, m.added_hours, m.added_revenue, b.hours, r.row_hours);
      hours_orders =
          omega (arith, m.added_hours_orders, m.added_orders, b.hours_orders, r.row_orders);
      quantities = rw (m.same_products, m.same_categories) b.quantities;
      merchandise = rw (m.same_products, m.same_categories) b.merchandise;
    })

empty-IsBalanced : (b : Bool) → IsBalanced (empty_aggregates b)
unfolding empty_aggregates
empty-IsBalanced b = record {
  channels = omega arith;
  days = refl;
  days_orders = refl;
  hours = refl;
  hours_orders = refl;
  quantities = refl;
  merchandise = refl;
}

merge_today-IsBalanced :
    (env : Env) (rt : Runtime) (db : Db) (a : Aggregates)
    → IsBalanced a
    → IsBalanced (merge_today env rt db a)
unfolding merge_today
merge_today-IsBalanced env rt db a b =
    let m = merge_facts-IsBalanced env a _ b in
    record {
      channels = m.channels;
      days = m.days;
      days_orders = m.days_orders;
      hours = m.hours;
      hours_orders = m.hours_orders;
      quantities = m.quantities;
      merchandise = m.merchandise;
    }

merge_history-IsBalanced :
    (rt : Runtime) (period : Option (String × String)) (db : Db) (a : Aggregates)
    → ((f t : String)
        → AreBalanced (find_daily_rollup_rows rt f t db) (find_hourly_rollup_rows rt f t db))
    → IsBalanced a
    → IsBalanced (merge_history rt period db a)
unfolding merge_history
merge_history-IsBalanced rt none db a r b = b
merge_history-IsBalanced rt (some (f, t)) db a r b = merge_rollups-IsBalanced a _ _ _ (r f t) b

-- Let the rollup rows of every period be balanced: the two channels and the hours add up to the
-- days. Then the aggregates of any query over any range, with or without an employee, are: the two
-- channels, the days and the hours each add up to the revenue, the days and the hours to the number
-- of orders, and the products and the categories to the same quantity and the same merchandise.
pub aggregate-IsBalanced :
    (env : Env) (rt : Runtime) (q : AnalyticsQuery) (range : ResolvedRange) (db : Db)
    → ((f t : String)
        → AreBalanced (find_daily_rollup_rows rt f t db) (find_hourly_rollup_rows rt f t db))
    → IsBalanced (aggregate env rt q range db)
unfolding aggregate
aggregate-IsBalanced env rt q range db r = elim (Option-cases q.employee_id) [
  | inr (e, h) ↦ rw h (merge_facts-IsBalanced env _ _ (empty-IsBalanced false))
  | inl h ↦
      let past = merge_history-IsBalanced rt range.historical db _ r (empty-IsBalanced true) in
      elim (Bool-cases range.includes_today) [
        | inl t ↦ rw (h, t) (merge_today-IsBalanced env rt db _ past)
        | inr t ↦ rw (h, t) past
      ]
]
