-- ===== src/Analytics/Agreement/Writer.antt =====
-- One completed order through the rollup writer and through the live path.
use mathlib.Core.List.{foldl}
use text.Mathlib.TextEquality.{eq_iff}
use smart_table.Prelude.{
  ℕ, ◌+◌, true, ◌≡◌, refl, String, str_eq, Option, none, some, List, [], ◌∷◌, map, ◌==◌, arith,
  if◌then◌else◌, sum_of, sum_of-upsert_at, Option-cases, inl, inr, first,
}
use smart_table.Database.{
  SalesRollupDaily, SalesRollupHourly, OrderItemRow, ProductSalesRollup, Env,
}
use smart_table.Rollups.{
  Rollups, CompletedOrderRollupInput, upsert_daily, upsert_hourly, upsert_completed_order_rollup,
}
use smart_table.Rollups.Sums.{
  revenue-upsert_daily, dine_in_revenue-upsert_daily, delivery_revenue-upsert_daily,
  orders_rolled_up-upsert_daily, upsert_completed-tables,
}
use smart_table.Analytics.Aggregates.{
  OrderFacts, Aggregates, empty_aggregates, merge_daily_row, merge_hourly_row, merge_rollups,
  merge_fact, merge_facts,
}
use smart_table.Analytics.Points.{day_value-add_day, hour_value-add_hour}
use smart_table.Analytics.Agreement.{
  day_revenue, day_orders, hour_revenue, hour_orders, Shows, Agree, Shows-Agree, foldl-DailyMerged,
  products-Shows, add_product_facts-Shows,
}

hours-Shows :
    (a : Aggregates) (daily : List SalesRollupDaily) (before hourly : List SalesRollupHourly)
    → Shows a daily before
    → (whole : List SalesRollupHourly)
    → ((h : ℕ)
        → sum_of (hour_revenue h) whole
          ≡ sum_of (hour_revenue h) before + sum_of (hour_revenue h) hourly)
    → ((h : ℕ)
        → sum_of (hour_orders h) whole
          ≡ sum_of (hour_orders h) before + sum_of (hour_orders h) hourly)
    → Shows (foldl merge_hourly_row a hourly) daily whole
hours-Shows a daily before [] s whole er eo = record {
  revenue_shown = s.revenue_shown;
  dine_in_shown = s.dine_in_shown;
  delivery_shown = s.delivery_shown;
  orders_shown = s.orders_shown;
  day_revenue_shown = s.day_revenue_shown;
  day_orders_shown = s.day_orders_shown;
  hour_revenue_shown = λ h. omega (arith, s.hour_revenue_shown h, er h);
  hour_orders_shown = λ h. omega (arith, s.hour_orders_shown h, eo h);
}
hours-Shows a daily before (row ∷ hourly) s whole er eo =
    let at =
      λ (h : ℕ). hour_value-add_hour h row.hour row.revenue_minor row.orders_count a.hourly_agg in
    hours-Shows (merge_hourly_row a row) daily (row ∷ before) hourly
      (record {
        revenue_shown = s.revenue_shown;
        dine_in_shown = s.dine_in_shown;
        delivery_shown = s.delivery_shown;
        orders_shown = s.orders_shown;
        day_revenue_shown = s.day_revenue_shown;
        day_orders_shown = s.day_orders_shown;
        hour_revenue_shown = λ h. omega (arith, (at h).0, s.hour_revenue_shown h);
        hour_orders_shown = λ h. omega (arith, (at h).1, s.hour_orders_shown h);
      })
      whole (λ h. omega (arith, er h)) (λ h. omega (arith, eo h))

-- The historical path shows the rows it merges.
pub merge_rollups-Shows :
    (daily : List SalesRollupDaily) (hourly : List SalesRollupHourly)
    (product : List ProductSalesRollup)
    → Shows (merge_rollups (empty_aggregates true) daily hourly product) daily hourly
unfolding merge_rollups empty_aggregates first
merge_rollups-Shows daily hourly product =
    let start = empty_aggregates true in
    let m = foldl-DailyMerged start daily in
    products-Shows _ product daily hourly (
      hours-Shows (foldl merge_daily_row start daily) daily [] hourly
        (record {
          revenue_shown = omega (arith, m.merged_revenue);
          dine_in_shown = omega (arith, m.merged_dine_in);
          delivery_shown = omega (arith, m.merged_delivery);
          orders_shown = omega (arith, m.merged_orders);
          day_revenue_shown = λ d. omega (arith, m.merged_day_revenue d);
          day_orders_shown = λ d. omega (arith, m.merged_day_orders d);
          hour_revenue_shown = λ h. rw m.merged_hours refl;
          hour_orders_shown = λ h. rw m.merged_hours refl;
        })
        hourly (λ h. omega arith) (λ h. omega arith))

-- A completed order: its facts, and its rows.
abbrev pub Completion : Type 0
Completion = OrderFacts × List OrderItemRow

-- What the payment hands to the rollup writer for it: the total of the facts is the one that it books.
-- (`live_facts` computes a total once more, with the tax rate at the time of the report.)
abbrev pub rollup_input : Env → Completion → CompletedOrderRollupInput
rollup_input env (fact, items) = record {
  bucket = env.rollup_bucket_for fact.completed_at_ms;
  now = fact.completed_at_ms;
  order_total_minor = fact.total_minor;
  channel = fact.channel;
  items = items;
}

-- The writer, once for each order.
unfoldable pub write_completions : Env → List Completion → Rollups → Option Rollups
write_completions env [] r = some r
write_completions env (c ∷ cs) r = elim (upsert_completed_order_rollup env (rollup_input env c) r) [
  | none ↦ none
  | some r' ↦ write_completions env cs r'
]

module _ (input : CompletedOrderRollupInput) where
  day_revenue-upsert_daily :
      (d : String) (rows : List SalesRollupDaily)
      → sum_of (day_revenue d) (upsert_daily input rows)
        ≡ sum_of (day_revenue d) rows
          + (if str_eq input.bucket.date d then input.order_total_minor else 0)
  unfolding upsert_daily
  day_revenue-upsert_daily d rows =
      sum_of-upsert_at _ _ _ _ _ rows refl
        (λ r e. ground (arith, eq_iff r.date input.bucket.date, e))

  day_orders-upsert_daily :
      (d : String) (rows : List SalesRollupDaily)
      → sum_of (day_orders d) (upsert_daily input rows)
        ≡ sum_of (day_orders d) rows + (if str_eq input.bucket.date d then 1 else 0)
  unfolding upsert_daily
  day_orders-upsert_daily d rows =
      sum_of-upsert_at _ _ _ _ _ rows refl
        (λ r e. ground (arith, eq_iff r.date input.bucket.date, e))

  hour_revenue-upsert_hourly :
      (h : ℕ) (rows : List SalesRollupHourly)
      → sum_of (hour_revenue h) (upsert_hourly input rows)
        ≡ sum_of (hour_revenue h) rows
          + (if input.bucket.hour == h then input.order_total_minor else 0)
  unfolding upsert_hourly
  hour_revenue-upsert_hourly h rows = sum_of-upsert_at _ _ _ _ _ rows refl (λ r e. ground arith)

  hour_orders-upsert_hourly :
      (h : ℕ) (rows : List SalesRollupHourly)
      → sum_of (hour_orders h) (upsert_hourly input rows)
        ≡ sum_of (hour_orders h) rows + (if input.bucket.hour == h then 1 else 0)
  unfolding upsert_hourly
  hour_orders-upsert_hourly h rows = sum_of-upsert_at _ _ _ _ _ rows refl (λ r e. ground arith)

-- One completed order, booked by the writer and merged by the live path.
merge_fact-Shows :
    (env : Env) (c : Completion) (a : Aggregates) (daily : List SalesRollupDaily)
    (hourly : List SalesRollupHourly)
    → Shows a daily hourly
    → Shows
        (merge_fact env a c.0)
        (upsert_daily (rollup_input env c) daily)
        (upsert_hourly (rollup_input env c) hourly)
unfolding merge_fact
merge_fact-Shows env (fact, items) a daily hourly s =
    let input = rollup_input env (fact, items) in
    let day =
      λ (d : String). day_value-add_day d input.bucket.date fact.total_minor 1 a.daily_agg in
    let hour = λ (h : ℕ). hour_value-add_hour h input.bucket.hour fact.total_minor 1 a.hourly_agg in
    add_product_facts-Shows _ fact.items _ _ (record {
      revenue_shown = omega (arith, s.revenue_shown, revenue-upsert_daily input daily);
      dine_in_shown = omega (arith, s.dine_in_shown, dine_in_revenue-upsert_daily input daily);
      delivery_shown = omega (arith, s.delivery_shown, delivery_revenue-upsert_daily input daily);
      orders_shown = omega (arith, s.orders_shown, orders_rolled_up-upsert_daily input daily);
      day_revenue_shown = λ d.
          omega (arith, (day d).0, s.day_revenue_shown d, day_revenue-upsert_daily input d daily);
      day_orders_shown = λ d.
          omega (arith, (day d).1, s.day_orders_shown d, day_orders-upsert_daily input d daily);
      hour_revenue_shown = λ h.
          omega
            (arith, (hour h).0, s.hour_revenue_shown h, hour_revenue-upsert_hourly input h hourly);
      hour_orders_shown = λ h.
          omega
            (arith, (hour h).1, s.hour_orders_shown h, hour_orders-upsert_hourly input h hourly);
    })

merge_facts-Shows :
    (env : Env) (cs : List Completion) (a : Aggregates) (r r' : Rollups)
    → write_completions env cs r ≡ some r'
    → Shows a r.daily r.hourly
    → Shows (merge_facts env a (map (λ (c : Completion). c.0) cs)) r'.daily r'.hourly
unfolding write_completions merge_facts
merge_facts-Shows env [] a r r' h s = let e : r ≡ r' = ground arith in rw e at s
merge_facts-Shows env (c ∷ cs) a r r' h s =
    elim (Option-cases (upsert_completed_order_rollup env (rollup_input env c) r)) [
      | inl e ↦ absurd (ground arith)
      | inr (r1, e) ↦
          let rest : write_completions env cs r1 ≡ some r' = ground arith in
          let (d, u) = upsert_completed-tables env (rollup_input env c) r r1 e in
          merge_facts-Shows env cs (merge_fact env a c.0) r1 r' rest
            (rw (d, u) (merge_fact-Shows env c a r.daily r.hourly s))
    ]

-- Let the rollup writer book completed orders, one after the other, without throwing. Then the
-- historical path over the rollup rows after that, and the live path over the facts of the orders
-- on top of the historical path over the rows before, each with the total that was booked, give
-- the same revenue, channels and number of orders, and the same value at every day and at every
-- hour.
pub merge_rollups-Agree :
    (env : Env) (cs : List Completion) (r r' : Rollups)
    → write_completions env cs r ≡ some r'
    → Agree
        (merge_facts env
          (merge_rollups (empty_aggregates true) r.daily r.hourly r.products)
          (map (λ (c : Completion). c.0) cs))
        (merge_rollups (empty_aggregates true) r'.daily r'.hourly r'.products)
merge_rollups-Agree env cs r r' h =
    Shows-Agree _ _ r'.daily r'.hourly
      (merge_facts-Shows env cs _ r r' h (merge_rollups-Shows r.daily r.hourly r.products))
      (merge_rollups-Shows r'.daily r'.hourly r'.products)
