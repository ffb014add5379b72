-- ===== src/Examples/Reports.antt =====
-- The reports on concrete days: an order of the small restaurant that is completed, a calendar of two
-- days, and a day of 25 hours.
use smart_table.Prelude.{
  ℕ, zero, suc, ◌+◌, ◌*◌, ◌≤◌, ◌≡◌, refl, true, String, str_eq, none, some, List, [], ◌∷◌, map,
  arith, ltb, if◌then◌else◌, or_else, upsert, first, update,
}
use smart_table.Domain.{dine_in, cash, paid, completed}
use smart_table.Database.{Db, insert_unique}
use smart_table.Rollups.{
  Rollups, upsert_completed_order_rollup, upsert_daily, upsert_hourly, aggregate_items,
  write_products, write_product,
}
use smart_table.Analytics.Repository.{Runtime, text_le}
use smart_table.Analytics.Range.{
  AnalyticsQuery, ResolvedRange, today, resolve_range, resolved, add_days, day_buckets, asked_range,
  check_bounds, range_dates, resolve_dates, hours_of_day,
}
use smart_table.Analytics.Aggregates.{
  OrderFacts, Aggregates, empty_aggregates, merge_rollups, merge_facts,
}
use smart_table.Analytics.Facts.{aggregate, item_fact}
use smart_table.Analytics.Derived.{Ranked, of_product, ranking, peak_hour, peak, revenue_at_hour}
use smart_table.Analytics.Service.{
  get_kpis, get_revenue_over_time, get_orders_over_time, get_top_products, get_operational_stats,
  top_products_limit,
}
use smart_table.Prelude.{take}
use smart_table.Analytics.Agreement.{Agree}
use smart_table.Analytics.Agreement.Writer.{Completion, write_completions, merge_rollups-Agree}
use smart_table.Analytics.Balance.{IsBalanced}
use smart_table.Effects.{World}
use smart_table.System.{run}
use smart_table.System.Reports.{BalancedPeriods, aggregate-run-IsBalanced}
use smart_table.Analytics.Peaks.{IsFirstPeak, peak_hour-IsFirstPeak}
use smart_table.Analytics.Rankings.{AreTop, get_top_products-AreTop}
use smart_table.Analytics.Days.{
  days_from, day_buckets-terminates, day_buckets-stuck, filters_ignored, refiltered,
}
use smart_table.Examples.{noon, cafe, open_house, busy_hour, served_order, item_of}

abbrev done_order : OrderFacts
done_order = record {
  order_id = 31;
  channel = dine_in;
  completed_at_ms = 100;
  total_minor = 550;
  items = item_fact (item_of 41 31) ∷ [];
}

abbrev completions : List Completion
completions = (done_order, item_of 41 31 ∷ []) ∷ (done_order, item_of 42 32 ∷ []) ∷ []

abbrev no_rollups : Rollups
no_rollups = record { daily = []; hourly = []; products = []; drawn = 0 }

abbrev booked : Rollups
booked = or_else (write_completions noon completions no_rollups) no_rollups

merge_rollups-Agree_example :
    Agree
      (merge_facts noon
        (merge_rollups (empty_aggregates true) [] [] [])
        (map (λ (c : Completion). c.0) completions))
      (merge_rollups (empty_aggregates true) booked.daily booked.hourly booked.products)
unfolding write_completions upsert_completed_order_rollup upsert_daily upsert_hourly aggregate_items
    write_products write_product insert_unique first update upsert
merge_rollups-Agree_example = merge_rollups-Agree noon completions no_rollups booked refl

-- Two days of 24 hours, and the day after them.
abbrev two_days : Runtime
two_days = record {
  now = 86_400_100;
  format_local_date = λ ms.
      if ltb ms 86_400_000
      then "2026-01-01"
      else if ltb ms 172_800_000
      then "2026-01-02"
      else "2026-01-03";
  day_start_ms = λ d.
      if str_eq d "2026-01-01"
      then 0
      else if str_eq d "2026-01-02"
      then 86_400_000
      else 172_800_000;
  next_day = λ d. if str_eq d "2026-01-01" then "2026-01-02" else "2026-01-03";
  is_valid_calendar_date = λ d. true;
  locale_le = text_le;
}

abbrev nth_day : ℕ → String
nth_day i = two_days.format_local_date (i * 86_400_000)

days_follow : (i : ℕ) → i ≤ 1 → add_days two_days (nth_day i) 1 ≡ nth_day (suc i)
days_follow zero h = refl
days_follow (suc zero) h = refl
days_follow (suc (suc i)) h = absurd (omega arith)

days_within : (i : ℕ) → i ≤ 1 → text_le (nth_day i) "2026-01-02" ≡ true
days_within zero h = refl
days_within (suc zero) h = refl
days_within (suc (suc i)) h = absurd (omega arith)

day_buckets-terminates_example :
    day_buckets two_days (suc (suc (1 + 0))) (nth_day 0) "2026-01-02" ≡ some (days_from nth_day 1 0)
day_buckets-terminates_example =
    day_buckets-terminates two_days nth_day "2026-01-02" 1 0 days_follow days_within refl

-- A day on which the clocks go back: it has 25 hours.
abbrev long_day : Runtime
long_day = record two_days {
  format_local_date = λ ms. if ltb ms 90_000_000 then "2026-10-25" else "2026-10-26";
  day_start_ms = λ d. if str_eq d "2026-10-25" then 0 else 90_000_000;
}

day_buckets-stuck_example : day_buckets long_day 1_000 "2026-10-25" "2026-10-31" ≡ none
day_buckets-stuck_example = day_buckets-stuck long_day "2026-10-25" "2026-10-31" 1_000 refl refl

abbrev busy_hours : Aggregates
busy_hours = record (empty_aggregates true) {
  hourly_agg =
      record { hour = 20; revenue_minor = 900; orders = 2 }
      ∷ record { hour = 13; revenue_minor = 900; orders = 1 }
      ∷ record { hour = 9; revenue_minor = 300; orders = 1 }
      ∷ [];
}

peak_hour-IsFirstPeak_example :
    IsFirstPeak (revenue_at_hour busy_hours.hourly_agg) hours_of_day 13 900
unfolding empty_aggregates peak_hour peak revenue_at_hour first
peak_hour-IsFirstPeak_example = peak_hour-IsFirstPeak busy_hours 13 900 refl

-- The restaurant after the payment of an order on the second day.
abbrev after_payment : Db
after_payment = record cafe {
  orders = record served_order { status = completed } ∷ [];
  order_status_events =
      record {
        order_id = 31;
        from_status = some paid;
        to_status = completed;
        actor_employee_id = some 9;
        created_at = 86_400_050;
      }
      ∷ [];
}

abbrev todays : AnalyticsQuery
todays = record {
  range = some today;
  from_date = none;
  to_date = none;
  channel = none;
  payment_method = none;
  employee_id = none;
}

abbrev this_day : ResolvedRange
this_day = resolved two_days "2026-01-02" "2026-01-02"

-- The small restaurant with the rollups of the evening before, when it also delivered.
abbrev booked_house : World
booked_house = record open_house {
  db = record cafe {
    sales_rollup_daily =
        record {
          date = "2025-12-31";
          total_revenue_minor = 700;
          dine_in_revenue_minor = 500;
          delivery_revenue_minor = 200;
          total_orders = 2;
          cancelled_orders = 1;
          updated_at = 0;
        }
        ∷ [];
    sales_rollup_hourly =
        record { date = "2025-12-31"; hour = 19; revenue_minor = 500; orders_count = 1 }
        ∷ record { date = "2025-12-31"; hour = 20; revenue_minor = 200; orders_count = 1 }
        ∷ [];
  };
}

booked_house-BalancedPeriods : BalancedPeriods booked_house.db
booked_house-BalancedPeriods p = record {
  channels_on = ground arith;
  hours_on = ground arith;
  orders_on = ground arith;
}

-- From that evening to the second day. The first two dates come from the rollups: 700 of the evening
-- before, and the 550 that the busy hour books on the first day.
abbrev both_years : ResolvedRange
both_years = resolved two_days "2025-12-31" "2026-01-02"

aggregate-run-IsBalanced_example :
    IsBalanced (aggregate noon two_days todays both_years (run busy_hour booked_house).db)
aggregate-run-IsBalanced_example =
    aggregate-run-IsBalanced busy_hour booked_house noon two_days todays both_years
      booked_house-BalancedPeriods

abbrev listed_today : List Ranked
listed_today = take top_products_limit (
    ranking two_days
      (map of_product (aggregate noon two_days todays this_day after_payment).product_agg))

get_top_products-AreTop_example :
    AreTop listed_today
      (map of_product (aggregate noon two_days todays this_day after_payment).product_agg)
unfolding resolve_range asked_range check_bounds range_dates resolve_dates get_top_products
get_top_products-AreTop_example =
    get_top_products-AreTop noon two_days todays after_payment this_day listed_today refl refl

filters_ignored_example :
    (get_kpis noon two_days (refiltered todays (some dine_in) (some cash)) after_payment
      ≡ get_kpis noon two_days todays after_payment)
    × (get_revenue_over_time noon two_days 9
          (refiltered todays (some dine_in) (some cash))
          after_payment
        ≡ get_revenue_over_time noon two_days 9 todays after_payment)
    × (get_orders_over_time noon two_days 9
          (refiltered todays (some dine_in) (some cash))
          after_payment
        ≡ get_orders_over_time noon two_days 9 todays after_payment)
    × (get_top_products noon two_days (refiltered todays (some dine_in) (some cash)) after_payment
        ≡ get_top_products noon two_days todays after_payment)
    × (get_operational_stats two_days (refiltered todays (some dine_in) (some cash)) after_payment
        ≡ get_operational_stats two_days todays after_payment)
filters_ignored_example =
    filters_ignored noon two_days 9 todays (some dine_in) (some cash) after_payment
