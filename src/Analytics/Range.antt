-- ===== src/Analytics/Range.antt =====
-- resolveRange and seriesBuckets of apps/api/src/modules/analytics/analytics.service.ts: which days
-- a report covers, and the points of a series over them.
use Prim.Native.String.{slice, ◌++◌ as concat}
use smart_table.Prelude.{
  ℕ, zero, suc, ◌+◌, ◌-◌, ◌*◌, Bool, ◌||◌, not, ◌&&◌, String, str_eq, Option, none, some, List, [],
  ◌∷◌, if◌then◌else◌, is_some, or_else,
}
use smart_table.Domain.{
  OrderChannel, PaymentMethod, DomainException, validation_failed, Result, ok, err,
}
use smart_table.Analytics.Repository.{Runtime, text_le}

abbrev pub ms_per_day : ℕ
ms_per_day = 86_400_000

pub data AnalyticsRange : Type 0 where
  today yesterday last_7_days last_30_days this_month last_month this_year custom : AnalyticsRange

pub record AnalyticsQuery : Type 0 where
  pub range : Option AnalyticsRange
  pub from_date : Option String
  pub to_date : Option String
  pub channel : Option OrderChannel
  pub payment_method : Option PaymentMethod
  pub employee_id : Option ℕ

pub record ResolvedRange : Type 0 where
  pub from_date : String
  pub to_date : String
  pub from_ms : ℕ
  pub to_exclusive_ms : ℕ
  pub single_day : Bool
  pub includes_today : Bool
  -- the days before today, where there are any
  pub historical : Option (String × String)

abbrev pub today_string : Runtime → String
today_string rt = rt.format_local_date rt.now

abbrev pub add_days : Runtime → String → ℕ → String
add_days rt date days = rt.format_local_date (rt.day_start_ms date + days * ms_per_day)

-- addDays with a negative number
abbrev pub sub_days : Runtime → String → ℕ → String
sub_days rt date days = rt.format_local_date (rt.day_start_ms date - days * ms_per_day)

abbrev pub has_bounds : AnalyticsQuery → Bool
has_bounds q = is_some q.from_date || is_some q.to_date

-- The named range that is asked for, or the one that a query without a name means.
unfoldable pub asked_range : AnalyticsQuery → AnalyticsRange
asked_range q = or_else q.range (if has_bounds q then custom else today)

-- The two bounds and the range agree on whether the query gives dates.
unfoldable pub check_bounds : AnalyticsRange → AnalyticsQuery → Option DomainException
check_bounds custom q =
    if is_some q.from_date && is_some q.to_date
    then none
    else some (validation_failed "range=custom requires both from and to (YYYY-MM-DD).")
check_bounds _ q =
    if has_bounds q
    then some (validation_failed "from/to are only accepted together with range=custom.")
    else none

-- The first and the last day, given today.
unfoldable pub range_dates : Runtime → String → AnalyticsQuery → AnalyticsRange → String × String
range_dates rt day q today = (day, day)
range_dates rt day q yesterday = (sub_days rt day 1, sub_days rt day 1)
range_dates rt day q last_7_days = (sub_days rt day 6, day)
range_dates rt day q last_30_days = (sub_days rt day 29, day)
range_dates rt day q this_month = (concat (slice day 0 7) "-01", day)
range_dates rt day q last_month =
    let first_of_this_month = rt.day_start_ms (concat (slice day 0 7) "-01") in
    let last_day = rt.format_local_date (first_of_this_month - ms_per_day) in
    (concat (slice last_day 0 7) "-01", last_day)
range_dates rt day q this_year = (concat (slice day 0 4) "-01-01", day)
range_dates rt day q custom = (or_else q.from_date "", or_else q.to_date "")

-- The answer for two days in order.
abbrev pub resolved : Runtime → String → String → ResolvedRange
resolved rt from_date to_date =
    let day = today_string rt in
    let includes_today = text_le day to_date in
    let historical_to : String = if includes_today then sub_days rt day 1 else to_date in
    record {
      from_date = from_date;
      to_date = to_date;
      from_ms = rt.day_start_ms from_date;
      to_exclusive_ms = rt.day_start_ms to_date + ms_per_day;
      single_day = str_eq from_date to_date;
      includes_today = includes_today;
      historical =
          if text_le from_date historical_to then some (from_date, historical_to) else none;
    }

unfoldable pub resolve_dates : Runtime → String × String → Result ResolvedRange
resolve_dates rt (from_date, to_date) =
    if not (rt.is_valid_calendar_date from_date) || not (rt.is_valid_calendar_date to_date)
    then err (validation_failed "from/to must be real calendar dates (YYYY-MM-DD).")
    else if not (text_le from_date to_date)
    then err (validation_failed "from must not be after to.")
    else ok (resolved rt from_date to_date)

abbrev pub resolve_asked : Runtime → AnalyticsQuery → AnalyticsRange → Result ResolvedRange
resolve_asked rt q range = elim (check_bounds range q) [
  | some e ↦ err e
  | none ↦ resolve_dates rt (range_dates rt (today_string rt) q range)
]

unfoldable pub resolve_range : Runtime → AnalyticsQuery → Result ResolvedRange
resolve_range rt q = resolve_asked rt q (asked_range q)

-- A point of a series: an hour of the day (its two digits are the text of the bucket), or a day.
pub data Bucket : Type 0 where
  at_hour : ℕ → Bucket
  at_day : String → Bucket

abbrev pub hours_of_day : List ℕ
hours_of_day =
    0 ∷ 1 ∷ 2 ∷ 3 ∷ 4 ∷ 5 ∷ 6 ∷ 7 ∷ 8 ∷ 9 ∷ 10 ∷ 11 ∷ 12 ∷ 13 ∷ 14 ∷ 15 ∷ 16 ∷ 17 ∷ 18 ∷ 19 ∷ 20
    ∷ 21 ∷ 22 ∷ 23 ∷ []

-- The `for` over the days; `none` says that the fuel ran out, so that the loop goes on.
unfoldable pub day_buckets : Runtime → ℕ → String → String → Option (List String)
day_buckets rt zero date to_date = none
day_buckets rt (suc fuel) date to_date =
    let rest = day_buckets rt fuel (add_days rt date 1) to_date in
    if text_le date to_date
    then elim rest [ none ↦ none | some dates ↦ some (date ∷ dates) ]
    else some []
