-- ===== src/Rollups/Periods.antt =====
-- The balance of the daily and the hourly table over any choice of dates, and that the writer keeps
-- it.
use text.Mathlib.TextEquality.{eq_iff}
use smart_table.Prelude.{
  ℕ, ◌+◌, ◌≡◌, refl, Bool, String, some, List, [], ◌∷◌, arith, sum_of, sum_of-upsert_at,
  sum_of-upsert_keep, if◌then◌else◌, select,
}
use smart_table.Database.{SalesRollupDaily, SalesRollupHourly, RollupBucket, Env}
use smart_table.Rollups.{
  Rollups, CompletedOrderRollupInput, upsert_daily, upsert_hourly, is_dine_in,
  upsert_completed_order_rollup, increment_cancelled_order_rollup,
}
use smart_table.Rollups.Sums.{upsert_completed-tables}

-- A measure of the rows whose date is chosen.
abbrev pub on_days : (String → Bool) → (SalesRollupDaily → ℕ) → SalesRollupDaily → ℕ
on_days p g row = if p row.date then g row else 0

abbrev pub on_hours : (String → Bool) → (SalesRollupHourly → ℕ) → SalesRollupHourly → ℕ
on_hours p g row = if p row.date then g row else 0

-- Over the chosen dates, the two channels add up to the revenue of the days, and the hours to the
-- revenue and to the orders of the days.
pub record BalancedOn (p : String → Bool) (daily : List SalesRollupDaily)
    (hourly : List SalesRollupHourly) : Type 0 where
  pub channels_on :
      sum_of (on_days p (λ row. row.dine_in_revenue_minor)) daily
        + sum_of (on_days p (λ row. row.delivery_revenue_minor)) daily
      ≡ sum_of (on_days p (λ row. row.total_revenue_minor)) daily
  pub hours_on :
      sum_of (on_hours p (λ row. row.revenue_minor)) hourly
      ≡ sum_of (on_days p (λ row. row.total_revenue_minor)) daily
  pub orders_on :
      sum_of (on_hours p (λ row. row.orders_count)) hourly
      ≡ sum_of (on_days p (λ row. row.total_orders)) daily

module _ (p : String → Bool) (input : CompletedOrderRollupInput) where
  revenue-upsert_on :
      (rows : List SalesRollupDaily)
      → sum_of (on_days p (λ row. row.total_revenue_minor)) (upsert_daily input rows)
        ≡ sum_of (on_days p (λ row. row.total_revenue_minor)) rows
          + (if p input.bucket.date then input.order_total_minor else 0)
  unfolding upsert_daily
  revenue-upsert_on rows =
      sum_of-upsert_at _ _ _ _ _ rows refl
        (λ r e. ground (arith, eq_iff r.date input.bucket.date, e))

  dine_in-upsert_on :
      (rows : List SalesRollupDaily)
      → sum_of (on_days p (λ row. row.dine_in_revenue_minor)) (upsert_daily input rows)
        ≡ sum_of (on_days p (λ row. row.dine_in_revenue_minor)) rows
          + (if p input.bucket.date
              then if is_dine_in input.channel then input.order_total_minor else 0
              else 0)
  unfolding upsert_daily
  dine_in-upsert_on rows =
      sum_of-upsert_at _ _ _ _ _ rows refl
        (λ r e. ground (arith, eq_iff r.date input.bucket.date, e))

  delivery-upsert_on :
      (rows : List SalesRollupDaily)
      → sum_of (on_days p (λ row. row.delivery_revenue_minor)) (upsert_daily input rows)
        ≡ sum_of (on_days p (λ row. row.delivery_revenue_minor)) rows
          + (if p input.bucket.date
              then if is_dine_in input.channel then 0 else input.order_total_minor
              else 0)
  unfolding upsert_daily
  delivery-upsert_on rows =
      sum_of-upsert_at _ _ _ _ _ rows refl
        (λ r e. ground (arith, eq_iff r.date input.bucket.date, e))

  orders-upsert_on :
      (rows : List SalesRollupDaily)
      → sum_of (on_days p (λ row. row.total_orders)) (upsert_daily input rows)
        ≡ sum_of (on_days p (λ row. row.total_orders)) rows + (if p input.bucket.date then 1 else 0)
  unfolding upsert_daily
  orders-upsert_on rows =
      sum_of-upsert_at _ _ _ _ _ rows refl
        (λ r e. ground (arith, eq_iff r.date input.bucket.date, e))

  hour_revenue-upsert_on :
      (rows : List SalesRollupHourly)
      → sum_of (on_hours p (λ row. row.revenue_minor)) (upsert_hourly input rows)
        ≡ sum_of (on_hours p (λ row. row.revenue_minor)) rows
          + (if p input.bucket.date then input.order_total_minor else 0)
  unfolding upsert_hourly
  hour_revenue-upsert_on rows =
      sum_of-upsert_at _ _ _ _ _ rows refl
        (λ r e. ground (arith, eq_iff r.date input.bucket.date, e))

  hour_orders-upsert_on :
      (rows : List SalesRollupHourly)
      → sum_of (on_hours p (λ row. row.orders_count)) (upsert_hourly input rows)
        ≡ sum_of (on_hours p (λ row. row.orders_count)) rows
          + (if p input.bucket.date then 1 else 0)
  unfolding upsert_hourly
  hour_orders-upsert_on rows =
      sum_of-upsert_at _ _ _ _ _ rows refl
        (λ r e. ground (arith, eq_iff r.date input.bucket.date, e))

  upsert-BalancedOn :
      (daily : List SalesRollupDaily) (hourly : List SalesRollupHourly)
      → BalancedOn p daily hourly
      → BalancedOn p (upsert_daily input daily) (upsert_hourly input hourly)
  upsert-BalancedOn daily hourly b = record {
    channels_on = ground (
      arith,
      b.channels_on,
      revenue-upsert_on daily,
      dine_in-upsert_on daily,
      delivery-upsert_on daily,
    );
    hours_on = omega (arith, b.hours_on, revenue-upsert_on daily, hour_revenue-upsert_on hourly);
    orders_on = omega (arith, b.orders_on, orders-upsert_on daily, hour_orders-upsert_on hourly);
  }

-- Booking a completed order keeps the balance.
pub upsert_completed-BalancedOn :
    (p : String → Bool) (env : Env) (input : CompletedOrderRollupInput) (r r' : Rollups)
    → upsert_completed_order_rollup env input r ≡ some r'
    → BalancedOn p r.daily r.hourly
    → BalancedOn p r'.daily r'.hourly
upsert_completed-BalancedOn p env input r r' h b =
    let (d, e) = upsert_completed-tables env input r r' h in
    rw (d, e) (upsert-BalancedOn p input r.daily r.hourly b)

-- A cancellation keeps every measure that does not read what it writes.
increment_cancelled-on :
    (p : String → Bool) (bucket : RollupBucket) (now : ℕ) (rows : List SalesRollupDaily)
    → let after = increment_cancelled_order_rollup bucket now rows in
      (sum_of (on_days p (λ row. row.dine_in_revenue_minor)) after
        ≡ sum_of (on_days p (λ row. row.dine_in_revenue_minor)) rows)
      × (sum_of (on_days p (λ row. row.delivery_revenue_minor)) after
          ≡ sum_of (on_days p (λ row. row.delivery_revenue_minor)) rows)
      × (sum_of (on_days p (λ row. row.total_revenue_minor)) after
          ≡ sum_of (on_days p (λ row. row.total_revenue_minor)) rows)
      × (sum_of (on_days p (λ row. row.total_orders)) after
          ≡ sum_of (on_days p (λ row. row.total_orders)) rows)
unfolding increment_cancelled_order_rollup
increment_cancelled-on p bucket now rows = (
  sum_of-upsert_keep _ _ _ _ rows (ground arith) (λ r. refl),
  sum_of-upsert_keep _ _ _ _ rows (ground arith) (λ r. refl),
  sum_of-upsert_keep _ _ _ _ rows (ground arith) (λ r. refl),
  sum_of-upsert_keep _ _ _ _ rows (ground arith) (λ r. refl),
)

-- So does a cancellation.
pub increment_cancelled-BalancedOn :
    (p : String → Bool) (bucket : RollupBucket) (now : ℕ) (daily : List SalesRollupDaily)
    (hourly : List SalesRollupHourly)
    → BalancedOn p daily hourly
    → BalancedOn p (increment_cancelled_order_rollup bucket now daily) hourly
increment_cancelled-BalancedOn p bucket now daily hourly b =
    let (i, d, t, o) = increment_cancelled-on p bucket now daily in
    record {
      channels_on = omega (arith, b.channels_on, i, d, t);
      hours_on = omega (arith, b.hours_on, t);
      orders_on = omega (arith, b.orders_on, o);
    }

-- The sum over the rows of a query is the sum over all rows of what the query chooses.
pub sum_of-select {ℓ} :
    {R : Type ℓ} (g : R → ℕ) (q : R → Bool) (rs : List R)
    → sum_of g (select q rs) ≡ sum_of (λ r. if q r then g r else 0) rs
unfolding select
sum_of-select g q [] = refl
sum_of-select g q (r ∷ rs) = ground (arith, sum_of-select g q rs)
