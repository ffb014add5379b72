-- ===== src/Analytics/Points.antt =====
-- What adding to the maps of a report does to the values of its points.
use text.Mathlib.TextEquality.{eq_iff}
use smart_table.Prelude.{
  ℕ, ◌+◌, ◌≡◌, String, str_eq, List, [], ◌∷◌, ◌==◌, arith, if◌then◌else◌, first, upsert,
}
use smart_table.Analytics.Aggregates.{
  DayAggregate, HourAggregate, add_day, add_hour, day_value, hour_value,
}

pub day_value-add_day :
    (d date : String) (r o : ℕ) (days : List DayAggregate)
    → ((day_value d (add_day date r o days)).revenue_minor
        ≡ (day_value d days).revenue_minor + (if str_eq date d then r else 0))
      × ((day_value d (add_day date r o days)).orders
          ≡ (day_value d days).orders + (if str_eq date d then o else 0))
unfolding add_day upsert first
day_value-add_day d date r o [] = ground arith
day_value-add_day d date r o (x ∷ days) =
    ground
      (arith, eq_iff x.date date, eq_iff x.date d, eq_iff date d, day_value-add_day d date r o days)

pub hour_value-add_hour :
    (h hour : ℕ) (r o : ℕ) (hours : List HourAggregate)
    → ((hour_value h (add_hour hour r o hours)).revenue_minor
        ≡ (hour_value h hours).revenue_minor + (if hour == h then r else 0))
      × ((hour_value h (add_hour hour r o hours)).orders
          ≡ (hour_value h hours).orders + (if hour == h then o else 0))
unfolding add_hour upsert first
hour_value-add_hour h hour r o [] = ground arith
hour_value-add_hour h hour r o (x ∷ hours) = ground (arith, hour_value-add_hour h hour r o hours)
