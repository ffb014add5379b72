-- ===== src/Analytics/Agreement.antt =====
-- The two sources of a report agree: what the rollup writer books for completed orders shows as
-- what the live path computes from them.
pub mod Writer
use mathlib.Core.List.{foldl}
use text.Mathlib.TextEquality.{eq_iff}
use smart_table.Prelude.{
  ℕ, ◌+◌, Bool, true, ◌≡◌, refl, sym, ◌∙◌, String, str_eq, Option, none, some, List, [], ◌∷◌, map,
  ◌==◌, arith, if◌then◌else◌, ◌&&◌, sum_of, sum_of-upsert_at, Option-cases, inl, inr,
}
use smart_table.Database.{
  SalesRollupDaily, SalesRollupHourly, OrderItemRow, ProductSalesRollup, Env,
}
use smart_table.Rollups.{
  Rollups, CompletedOrderRollupInput, upsert_daily, upsert_hourly, is_dine_in,
  upsert_completed_order_rollup,
}
use smart_table.Rollups.Sums.{
  revenue, dine_in_revenue, delivery_revenue, orders_rolled_up, revenue-upsert_daily,
  dine_in_revenue-upsert_daily, delivery_revenue-upsert_daily, orders_rolled_up-upsert_daily,
  upsert_completed-tables,
}
use smart_table.Analytics.Aggregates.{
  ItemFact, OrderFacts, Aggregates, empty_aggregates, add_product_fact, add_product_facts,
  merge_daily_row, merge_hourly_row, merge_product_row, merge_rollups, merge_fact, merge_facts,
  day_value, hour_value,
}
use smart_table.Analytics.Points.{day_value-add_day, hour_value-add_hour}

-- What the rows of a day, or of an hour of the day, hold.
abbrev pub day_revenue : String → SalesRollupDaily → ℕ
day_revenue d row = if str_eq row.date d then row.total_revenue_minor else 0

abbrev pub day_orders : String → SalesRollupDaily → ℕ
day_orders d row = if str_eq row.date d then row.total_orders else 0

abbrev pub hour_revenue : ℕ → SalesRollupHourly → ℕ
hour_revenue h row = if row.hour == h then row.revenue_minor else 0

abbrev pub hour_orders : ℕ → SalesRollupHourly → ℕ
hour_orders h row = if row.hour == h then row.orders_count else 0

-- The aggregates show, in the headline numbers and at every point, what the rows hold.
pub record Shows (a : Aggregates) (daily : List SalesRollupDaily) (hourly : List SalesRollupHourly)
    : Type 0 where
  pub revenue_shown : a.revenue_minor ≡ revenue daily
  pub dine_in_shown : a.dine_in_minor ≡ dine_in_revenue daily
  pub delivery_shown : a.delivery_minor ≡ delivery_revenue daily
  pub orders_shown : a.orders ≡ orders_rolled_up daily
  pub day_revenue_shown :
      (d : String) → (day_value d a.daily_agg).revenue_minor ≡ sum_of (day_revenue d) daily
  pub day_orders_shown :
      (d : String) → (day_value d a.daily_agg).orders ≡ sum_of (day_orders d) daily
  pub hour_revenue_shown :
      (h : ℕ) → (hour_value h a.hourly_agg).revenue_minor ≡ sum_of (hour_revenue h) hourly
  pub hour_orders_shown :
      (h : ℕ) → (hour_value h a.hourly_agg).orders ≡ sum_of (hour_orders h) hourly

-- Two aggregates with the same headline numbers and the same value at every point.
pub record Agree (a b : Aggregates) : Type 0 where
  pub same_revenue : a.revenue_minor ≡ b.revenue_minor
  pub same_dine_in : a.dine_in_minor ≡ b.dine_in_minor
  pub same_delivery : a.delivery_minor ≡ b.delivery_minor
  pub same_orders : a.orders ≡ b.orders
  pub same_days :
      (d : String)
      → ((day_value d a.daily_agg).revenue_minor ≡ (day_value d b.daily_agg).revenue_minor)
        × ((day_value d a.daily_agg).orders ≡ (day_value d b.daily_agg).orders)
  pub same_hours :
      (h : ℕ)
      → ((hour_value h a.hourly_agg).revenue_minor ≡ (hour_value h b.hourly_agg).revenue_minor)
        × ((hour_value h a.hourly_agg).orders ≡ (hour_value h b.hourly_agg).orders)

pub Shows-Agree :
    (a b : Aggregates) (daily : List SalesRollupDaily) (hourly : List SalesRollupHourly)
    → Shows a daily hourly
    → Shows b daily hourly
    → Agree a b
Shows-Agree a b daily hourly s t = record {
  same_revenue = s.revenue_shown ∙ sym t.revenue_shown;
  same_dine_in = s.dine_in_shown ∙ sym t.dine_in_shown;
  same_delivery = s.delivery_shown ∙ sym t.delivery_shown;
  same_orders = s.orders_shown ∙ sym t.orders_shown;
  same_days = λ d. (
    s.day_revenue_shown d ∙ sym (t.day_revenue_shown d),
    s.day_orders_shown d ∙ sym (t.day_orders_shown d),
  );
  same_hours = λ h. (
    s.hour_revenue_shown h ∙ sym (t.hour_revenue_shown h),
    s.hour_orders_shown h ∙ sym (t.hour_orders_shown h),
  );
}

-- Adding products changes none of what is shown.
pub add_product_facts-Shows :
    (a : Aggregates) (items : List ItemFact) (daily : List SalesRollupDaily)
    (hourly : List SalesRollupHourly)
    → Shows a daily hourly
    → Shows (add_product_facts a items) daily hourly
unfolding add_product_facts
add_product_facts-Shows a [] daily hourly s = s
add_product_facts-Shows a (i ∷ items) daily hourly s =
    add_product_facts-Shows (add_product_fact a i) items daily hourly (record {
      revenue_shown = s.revenue_shown;
      dine_in_shown = s.dine_in_shown;
      delivery_shown = s.delivery_shown;
      orders_shown = s.orders_shown;
      day_revenue_shown = s.day_revenue_shown;
      day_orders_shown = s.day_orders_shown;
      hour_revenue_shown = s.hour_revenue_shown;
      hour_orders_shown = s.hour_orders_shown;
    })

pub products-Shows :
    (a : Aggregates) (rows : List ProductSalesRollup) (daily : List SalesRollupDaily)
    (hourly : List SalesRollupHourly)
    → Shows a daily hourly
    → Shows (foldl merge_product_row a rows) daily hourly
products-Shows a [] daily hourly s = s
products-Shows a (r ∷ rows) daily hourly s =
    products-Shows (merge_product_row a r) rows daily hourly
      (add_product_facts-Shows a _ daily hourly s)

-- The rows that are still to be merged.
pub record DailyMerged (a b : Aggregates) (daily : List SalesRollupDaily) : Type 0 where
  pub merged_revenue : b.revenue_minor ≡ a.revenue_minor + revenue daily
  pub merged_dine_in : b.dine_in_minor ≡ a.dine_in_minor + dine_in_revenue daily
  pub merged_delivery : b.delivery_minor ≡ a.delivery_minor + delivery_revenue daily
  pub merged_orders : b.orders ≡ a.orders + orders_rolled_up daily
  pub merged_hours : b.hourly_agg ≡ a.hourly_agg
  pub merged_day_revenue :
      (d : String)
      → (day_value d b.daily_agg).revenue_minor
        ≡ (day_value d a.daily_agg).revenue_minor + sum_of (day_revenue d) daily
  pub merged_day_orders :
      (d : String)
      → (day_value d b.daily_agg).orders
        ≡ (day_value d a.daily_agg).orders + sum_of (day_orders d) daily

pub foldl-DailyMerged :
    (a : Aggregates) (daily : List SalesRollupDaily)
    → DailyMerged a (foldl merge_daily_row a daily) daily
foldl-DailyMerged a [] = record {
  merged_revenue = omega arith;
  merged_dine_in = omega arith;
  merged_delivery = omega arith;
  merged_orders = omega arith;
  merged_hours = refl;
  merged_day_revenue = λ d. omega arith;
  merged_day_orders = λ d. omega arith;
}
foldl-DailyMerged a (row ∷ daily) =
    let m = foldl-DailyMerged (merge_daily_row a row) daily in
    let at = λ (d : String).
      day_value-add_day d row.date row.total_revenue_minor row.total_orders a.daily_agg in
    record {
      merged_revenue = omega (arith, m.merged_revenue);
      merged_dine_in = omega (arith, m.merged_dine_in);
      merged_delivery = omega (arith, m.merged_delivery);
      merged_orders = omega (arith, m.merged_orders);
      merged_hours = m.merged_hours;
      merged_day_revenue = λ d. omega (arith, m.merged_day_revenue d, (at d).0);
      merged_day_orders = λ d. omega (arith, m.merged_day_orders d, (at d).1);
    }
