-- ===== src/Analytics/Balance.antt =====
-- The aggregates of a report agree with each other: by channel, by day, by hour, by product and by
-- category they add up to the same.
pub mod History
use mathlib.Core.List.{foldl}
use smart_table.Prelude.{
  ℕ, ◌+◌, ◌≡◌, refl, Bool, true, false, String, Option, none, some, List, [], ◌∷◌, arith, sum_of,
  sum_of-upsert, if◌then◌else◌, Option-cases, Bool-cases, inl, inr,
}
use smart_table.Database.{
  SalesRollupDaily, SalesRollupHourly, ProductSalesRollup, RollupBucket, Db, Env,
}
use smart_table.Rollups.{is_dine_in}
use smart_table.Rollups.Sums.{
  revenue, dine_in_revenue, delivery_revenue, orders_rolled_up, hourly_revenue,
}
use smart_table.Analytics.Repository.{Runtime, find_daily_rollup_rows, find_hourly_rollup_rows}
use smart_table.Analytics.Range.{AnalyticsQuery, ResolvedRange}
use smart_table.Analytics.Aggregates.{
  ItemFact, OrderFacts, ProductAggregate, CategoryAggregate, HourAggregate, DayAggregate,
  Aggregates, empty_aggregates, add_product, add_category, add_day, add_hour, add_product_fact,
  add_product_facts, merge_daily_row, merge_hourly_row, merge_product_row, merge_rollups,
  merge_fact, merge_facts,
}
use smart_table.Analytics.Facts.{aggregate, merge_history, merge_today}

abbrev pub day_sum : List DayAggregate → ℕ
day_sum = sum_of (λ day. day.revenue_minor)

abbrev pub day_orders_sum : List DayAggregate → ℕ
day_orders_sum = sum_of (λ day. day.orders)

abbrev pub hour_sum : List HourAggregate → ℕ
hour_sum = sum_of (λ hour. hour.revenue_minor)

abbrev pub hour_orders_sum : List HourAggregate → ℕ
hour_orders_sum = sum_of (λ hour. hour.orders)

pub record IsBalanced (a : Aggregates) : Type 0 where
  pub channels : a.dine_in_minor + a.delivery_minor ≡ a.revenue_minor
  pub days : day_sum a.daily_agg ≡ a.revenue_minor
  pub days_orders : day_orders_sum a.daily_agg ≡ a.orders
  pub hours : hour_sum a.hourly_agg ≡ a.revenue_minor
  pub hours_orders : hour_orders_sum a.hourly_agg ≡ a.orders
  pub quantities :
      sum_of (λ (p : ProductAggregate). p.quantity) a.product_agg
      ≡ sum_of (λ (c : CategoryAggregate). c.quantity) a.category_agg
  pub merchandise :
      sum_of (λ (p : ProductAggregate). p.revenue_minor) a.product_agg
      ≡ sum_of (λ (c : CategoryAggregate). c.revenue_minor) a.category_agg

pub add_day-sums :
    (date : String) (r o : ℕ) (days : List DayAggregate)
    → (day_sum (add_day date r o days) ≡ day_sum days + r)
      × (day_orders_sum (add_day date r o days) ≡ day_orders_sum days + o)
unfolding add_day
add_day-sums date r o days =
    (sum_of-upsert _ _ _ _ _ days refl (λ d. refl), sum_of-upsert _ _ _ _ _ days refl (λ d. refl))

pub add_hour-sums :
    (hour r o : ℕ) (hours : List HourAggregate)
    → (hour_sum (add_hour hour r o hours) ≡ hour_sum hours + r)
      × (hour_orders_sum (add_hour hour r o hours) ≡ hour_orders_sum hours + o)
unfolding add_hour
add_hour-sums hour r o hours =
    (sum_of-upsert _ _ _ _ _ hours refl (λ d. refl), sum_of-upsert _ _ _ _ _ hours refl (λ d. refl))

add_product-sums :
    (i : ItemFact) (ps : List ProductAggregate)
    → (sum_of (λ (p : ProductAggregate). p.quantity) (add_product i ps)
        ≡ sum_of (λ (p : ProductAggregate). p.quantity) ps + i.quantity)
      × (sum_of (λ (p : ProductAggregate). p.revenue_minor) (add_product i ps)
          ≡ sum_of (λ (p : ProductAggregate). p.revenue_minor) ps + i.net_minor)
unfolding add_product
add_product-sums i ps =
    (sum_of-upsert _ _ _ _ _ ps refl (λ p. refl), sum_of-upsert _ _ _ _ _ ps refl (λ p. refl))

add_category-sums :
    (i : ItemFact) (cs : List CategoryAggregate)
    → (sum_of (λ (c : CategoryAggregate). c.quantity) (add_category i cs)
        ≡ sum_of (λ (c : CategoryAggregate). c.quantity) cs + i.quantity)
      × (sum_of (λ (c : CategoryAggregate). c.revenue_minor) (add_category i cs)
          ≡ sum_of (λ (c : CategoryAggregate). c.revenue_minor) cs + i.net_minor)
unfolding add_category
add_category-sums i cs =
    (sum_of-upsert _ _ _ _ _ cs refl (λ c. refl), sum_of-upsert _ _ _ _ _ cs refl (λ c. refl))

add_product_fact-IsBalanced :
    (a : Aggregates) (i : ItemFact) → IsBalanced a → IsBalanced (add_product_fact a i)
add_product_fact-IsBalanced a i b =
    let p = add_product-sums i a.product_agg in
    let c = add_category-sums i a.category_agg in
    record {
      channels = b.channels;
      days = b.days;
      days_orders = b.days_orders;
      hours = b.hours;
      hours_orders = b.hours_orders;
      quantities = omega (arith, p.0, c.0, b.quantities);
      merchandise = omega (arith, p.1, c.1, b.merchandise);
    }

add_product_facts-IsBalanced :
    (a : Aggregates) (items : List ItemFact) → IsBalanced a → IsBalanced (add_product_facts a items)
unfolding add_product_facts
add_product_facts-IsBalanced a [] b = b
add_product_facts-IsBalanced a (i ∷ items) b =
    add_product_facts-IsBalanced (add_product_fact a i) items (add_product_fact-IsBalanced a i b)

pub products-IsBalanced :
    (a : Aggregates) (rows : List ProductSalesRollup)
    → IsBalanced a
    → IsBalanced (foldl merge_product_row a rows)
products-IsBalanced a [] b = b
products-IsBalanced a (r ∷ rows) b =
    products-IsBalanced (merge_product_row a r) rows (add_product_facts-IsBalanced a _ b)

merge_fact-IsBalanced :
    (env : Env) (a : Aggregates) (fact : OrderFacts)
    → IsBalanced a
    → IsBalanced (merge_fact env a fact)
unfolding merge_fact
merge_fact-IsBalanced env a fact b =
    let bucket = env.rollup_bucket_for fact.completed_at_ms in
    let d = add_day-sums bucket.date fact.total_minor 1 a.daily_agg in
    let h = add_hour-sums bucket.hour fact.total_minor 1 a.hourly_agg in
    add_product_facts-IsBalanced _ fact.items (record {
      channels = ground (arith, b.channels);
      days = omega (arith, d.0, b.days);
      days_orders = omega (arith, d.1, b.days_orders);
      hours = omega (arith, h.0, b.hours);
      hours_orders = omega (arith, h.1, b.hours_orders);
      quantities = b.quantities;
      merchandise = b.merchandise;
    })

pub merge_facts-IsBalanced :
    (env : Env) (a : Aggregates) (facts : List OrderFacts)
    → IsBalanced a
    → IsBalanced (merge_facts env a facts)
unfolding merge_facts
merge_facts-IsBalanced env a [] b = b
merge_facts-IsBalanced env a (f ∷ facts) b =
    merge_facts-IsBalanced env (merge_fact env a f) facts (merge_fact-IsBalanced env a f b)
