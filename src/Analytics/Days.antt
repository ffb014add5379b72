-- ===== src/Analytics/Days.antt =====
-- The range of a report and the loop over its days.
use smart_table.Prelude.{
  ℕ, zero, suc, ◌+◌, ◌≤◌, ◌≡◌, refl, Bool, true, false, String, Option, none, some, List, [], ◌∷◌,
  arith, if◌then◌else◌, Bool-cases, Option-cases, inl, inr,
}
use smart_table.Domain.{OrderChannel, PaymentMethod, ok}
use smart_table.Database.{Db, Env}
use smart_table.Analytics.Repository.{Runtime, text_le}
use smart_table.Analytics.Range.{
  AnalyticsRange, today, yesterday, last_7_days, last_30_days, this_month, last_month, this_year,
  custom, AnalyticsQuery, ResolvedRange, today_string, add_days, has_bounds, asked_range,
  check_bounds, range_dates, resolved, resolve_dates, resolve_asked, resolve_range, day_buckets,
}
use smart_table.Analytics.Service.{
  get_kpis, get_top_products, get_revenue_over_time, get_orders_over_time, get_operational_stats,
  kpis,
}
use smart_table.Analytics.Facts.{aggregate}
use smart_table.Analytics.Staff.{operational_stats}

-- The days before today that a range may have: they begin with it, and end not before they begin.
abbrev pub IsHistory : String → Option (String × String) → Type 0
IsHistory from_date none = Unit
IsHistory from_date (some (f, t)) = (f ≡ from_date) × (text_le f t ≡ true)

abbrev pub is_custom : AnalyticsRange → Bool
is_custom custom = true
is_custom _ = false

pub record IsResolved (rt : Runtime) (q : AnalyticsQuery) (r : ResolvedRange) : Type 0 where
  pub asked : is_custom (asked_range q) ≡ has_bounds q
  pub from_valid : rt.is_valid_calendar_date r.from_date ≡ true
  pub to_valid : rt.is_valid_calendar_date r.to_date ≡ true
  pub ordered : text_le r.from_date r.to_date ≡ true
  pub today_included : r.includes_today ≡ text_le (today_string rt) r.to_date
  pub history : IsHistory r.from_date r.historical

kept_days-IsHistory : (f t : String) → IsHistory f (if text_le f t then some (f, t) else none)
kept_days-IsHistory f t = elim (Bool-cases (text_le f t)) [
  | inl e ↦ rw e (refl, e)
  | inr e ↦ rw e tt
]

resolve_dates-ok :
    (rt : Runtime) (f t : String) (r : ResolvedRange)
    → resolve_dates rt (f, t) ≡ ok r
    → (rt.is_valid_calendar_date f ≡ true)
      × (rt.is_valid_calendar_date t ≡ true)
      × (text_le f t ≡ true)
      × (resolved rt f t ≡ r)
unfolding resolve_dates
resolve_dates-ok rt f t r h = ground arith

check_bounds-ok :
    (range : AnalyticsRange) (q : AnalyticsQuery)
    → check_bounds range q ≡ none
    → is_custom range ≡ has_bounds q
unfolding check_bounds
check_bounds-ok today q h = ground arith
check_bounds-ok yesterday q h = ground arith
check_bounds-ok last_7_days q h = ground arith
check_bounds-ok last_30_days q h = ground arith
check_bounds-ok this_month q h = ground arith
check_bounds-ok last_month q h = ground arith
check_bounds-ok this_year q h = ground arith
check_bounds-ok custom q h = ground arith

-- A query that is accepted asks for the custom range if and only if it gives a bound. Its first and
-- its last day are dates in order; it includes today if and only if its last day is not before
-- today; and the days before today begin with its first day and end not before.
pub resolve_range-IsResolved :
    (rt : Runtime) (q : AnalyticsQuery) (r : ResolvedRange)
    → resolve_range rt q ≡ ok r
    → IsResolved rt q r
unfolding resolve_range
resolve_range-IsResolved rt q r h = elim (Option-cases (check_bounds (asked_range q) q)) [
  | inr (e, c) ↦ absurd (ground arith)
  | inl c ↦
      let (f, t) = range_dates rt (today_string rt) q (asked_range q) in
      let d : resolve_dates rt (range_dates rt (today_string rt) q (asked_range q)) ≡ ok r =
        rw (c, resolve_asked) at h in
      let (vf, vt, o, e) = resolve_dates-ok rt f t r d in
      let whole : IsResolved rt q (resolved rt f t) = record {
        asked = check_bounds-ok (asked_range q) q c;
        from_valid = vf;
        to_valid = vt;
        ordered = o;
        today_included = refl;
        history = kept_days-IsHistory f _;
      } in
      rw e at whole
]

-- The dates with the numbers from `k` to `k + n`.
pub days_from : (ℕ → String) → ℕ → ℕ → List String
days_from dates zero k = dates k ∷ []
days_from dates (suc n) k = dates k ∷ days_from dates n (suc k)

day_buckets-after :
    (rt : Runtime) (fuel : ℕ) (date to_date : String)
    → text_le date to_date ≡ false
    → day_buckets rt (suc fuel) date to_date ≡ some []
unfolding day_buckets
day_buckets-after rt fuel date to_date h = ground arith

day_buckets-step :
    (rt : Runtime) (fuel : ℕ) (date to_date : String) (dates : List String)
    → text_le date to_date ≡ true
    → day_buckets rt fuel (add_days rt date 1) to_date ≡ some dates
    → day_buckets rt (suc fuel) date to_date ≡ some (date ∷ dates)
unfolding day_buckets
day_buckets-step rt fuel date to_date dates h e = rw (h, e) refl

day_buckets_at :
    (rt : Runtime) (dates : ℕ → String) (to_date : String) (last n k spare : ℕ)
    → ((i : ℕ) → i ≤ last → add_days rt (dates i) 1 ≡ dates (suc i))
    → ((i : ℕ) → i ≤ last → text_le (dates i) to_date ≡ true)
    → text_le (dates (suc last)) to_date ≡ false
    → k + n ≡ last
    → day_buckets rt (suc (suc (n + spare))) (dates k) to_date ≡ some (days_from dates n k)
unfolding days_from
day_buckets_at rt dates to_date last zero k spare next within beyond e =
    let same : k ≡ last = omega arith in
    day_buckets-step rt (suc (zero + spare)) (dates k) to_date [] (within k (omega arith))
      (rw (next k (omega arith), same) (day_buckets-after rt _ (dates (suc last)) to_date beyond))
day_buckets_at rt dates to_date last (suc n) k spare next within beyond e =
    let rest =
      day_buckets_at rt dates to_date last n (suc k) spare next within beyond (omega arith) in
    let fuel : suc n + spare ≡ suc (n + spare) = omega arith in
    day_buckets-step rt (suc (suc n + spare)) (dates k) to_date (days_from dates n (suc k))
      (within k (omega arith)) (rw (next k (omega arith), fuel) rest)

-- Let each day from the first to the last have 24 hours: the local date a day's length after its
-- midnight is the next one. Let the texts of these dates not come after the bound, and the one
-- after them do. Then the loop ends, with any fuel above the number of days, and its points
-- are these days, each once and in order.
pub day_buckets-terminates :
    (rt : Runtime) (dates : ℕ → String) (to_date : String) (last spare : ℕ)
    → ((i : ℕ) → i ≤ last → add_days rt (dates i) 1 ≡ dates (suc i))
    → ((i : ℕ) → i ≤ last → text_le (dates i) to_date ≡ true)
    → text_le (dates (suc last)) to_date ≡ false
    → day_buckets rt (suc (suc (last + spare))) (dates 0) to_date ≡ some (days_from dates last 0)
day_buckets-terminates rt dates to_date last spare next within beyond =
    day_buckets_at rt dates to_date last last 0 spare next within beyond (omega arith)

-- On a day that has more than 24 hours, a day's length after its midnight is still the same date.
-- When the range reaches such a day and does not end before it, the loop never ends: no fuel is
-- enough.
pub day_buckets-stuck :
    (rt : Runtime) (date to_date : String) (fuel : ℕ)
    → add_days rt date 1 ≡ date
    → text_le date to_date ≡ true
    → day_buckets rt fuel date to_date ≡ none
unfolding day_buckets
day_buckets-stuck rt date to_date zero same h = refl
day_buckets-stuck rt date to_date (suc fuel) same h =
    rw (same, day_buckets-stuck rt date to_date fuel same h, h) refl

-- The query with another channel and another payment method.
abbrev pub refiltered : AnalyticsQuery → Option OrderChannel → Option PaymentMethod → AnalyticsQuery
refiltered q channel method = record q { channel = channel; payment_method = method }

module _ (q : AnalyticsQuery) (channel : Option OrderChannel) (method : Option PaymentMethod) where
  resolve_asked-refiltered :
      (rt : Runtime) (range : AnalyticsRange)
      → resolve_asked rt (refiltered q channel method) range ≡ resolve_asked rt q range
  unfolding check_bounds range_dates
  resolve_asked-refiltered rt today = refl
  resolve_asked-refiltered rt yesterday = refl
  resolve_asked-refiltered rt last_7_days = refl
  resolve_asked-refiltered rt last_30_days = refl
  resolve_asked-refiltered rt this_month = refl
  resolve_asked-refiltered rt last_month = refl
  resolve_asked-refiltered rt this_year = refl
  resolve_asked-refiltered rt custom = refl

  resolve_range-refiltered :
      (rt : Runtime) → resolve_range rt (refiltered q channel method) ≡ resolve_range rt q
  unfolding resolve_range asked_range
  resolve_range-refiltered rt = resolve_asked-refiltered rt (asked_range q)

-- The channel and the payment method of a query change nothing in the answer of any of the five
-- endpoints.
pub filters_ignored :
    (env : Env) (rt : Runtime) (fuel : ℕ) (q : AnalyticsQuery) (channel : Option OrderChannel)
    (method : Option PaymentMethod) (db : Db)
    → (get_kpis env rt (refiltered q channel method) db ≡ get_kpis env rt q db)
      × (get_revenue_over_time env rt fuel (refiltered q channel method) db
          ≡ get_revenue_over_time env rt fuel q db)
      × (get_orders_over_time env rt fuel (refiltered q channel method) db
          ≡ get_orders_over_time env rt fuel q db)
      × (get_top_products env rt (refiltered q channel method) db ≡ get_top_products env rt q db)
      × (get_operational_stats rt (refiltered q channel method) db ≡ get_operational_stats rt q db)
unfolding get_kpis get_revenue_over_time get_orders_over_time get_top_products get_operational_stats
    kpis aggregate operational_stats
filters_ignored env rt fuel q channel method db =
    let same = resolve_range-refiltered q channel method rt in
    (rw same refl, rw same refl, rw same refl, rw same refl, rw same refl)
