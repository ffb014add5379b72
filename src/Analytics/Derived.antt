-- ===== src/Analytics/Derived.antt =====
-- The derived values of apps/api/src/modules/analytics/analytics.service.ts: rankings, peaks and
-- averages.
use mathlib.Core.List.{foldl}
use smart_table.Prelude.{
  ℕ, ◌+◌, ◌-◌, Bool, true, false, ◌||◌, ◌&&◌, String, str_eq, Option, none, some, List, [], ◌∷◌,
  map, ltb, leb, ◌==◌, if◌then◌else◌, select, upsert, first, order_by, length, sum_of, or_else,
}
use smart_table.Domain.{ready, accepted}
use smart_table.Database.{OrderStatusEventRow, PaymentRow, ShiftRow, BillGroupRow, Db}
use smart_table.BillingMath.{round_half_up_div}
use smart_table.Analytics.Repository.{
  Runtime, text_le, find_events_by_status_in_window, find_events_by_order_ids_and_status,
  find_closed_bill_groups_in_window, find_payments_in_window, find_shifts_by_ids,
}
use smart_table.Analytics.Range.{ResolvedRange, hours_of_day}
use smart_table.Analytics.Facts.{last_of}
use smart_table.Analytics.Aggregates.{
  Aggregates, ProductAggregate, CategoryAggregate, HourAggregate, DayAggregate,
}

-- An entry that can be ranked.
pub record Ranked : Type 0 where
  pub name : String
  pub category : String
  pub quantity : ℕ
  pub revenue_minor : ℕ

abbrev pub of_product : ProductAggregate → Ranked
of_product p = record {
  name = p.name;
  category = p.category;
  quantity = p.quantity;
  revenue_minor = p.revenue_minor;
}

abbrev pub of_category : CategoryAggregate → Ranked
of_category c = record {
  name = c.name;
  category = c.name;
  quantity = c.quantity;
  revenue_minor = c.revenue_minor;
}

-- The comparison answers at most 0: more sold first, then more revenue, then the name.
abbrev pub ranks_before : Runtime → Ranked → Ranked → Bool
ranks_before rt a b =
    ltb b.quantity a.quantity
    || (a.quantity == b.quantity
        && (ltb b.revenue_minor a.revenue_minor
            || (a.revenue_minor == b.revenue_minor && rt.locale_le a.name b.name)))

unfoldable pub ranking : Runtime → List Ranked → List Ranked
ranking rt = order_by (ranks_before rt)

unfoldable pub best_of : Runtime → List Ranked → Option Ranked
best_of rt entries = elim (ranking rt entries) [ [] ↦ none | best ∷ _ ↦ some best ]

-- One round of either loop: a strictly higher revenue replaces the best so far.
abbrev pub better {ℓ} : {K : Type ℓ} → Option (K × ℕ) → K → Option ℕ → Option (K × ℕ)
better best k none = best
better none k (some revenue) = some (k, revenue)
better (some (j, high)) k (some revenue) =
    if ltb high revenue then some (k, revenue) else some (j, high)

unfoldable pub peak {ℓ} : {K : Type ℓ} → (K → Option ℕ) → List K → Option (K × ℕ) → Option (K × ℕ)
peak revenue_at [] best = best
peak revenue_at (k ∷ ks) best = peak revenue_at ks (better best k (revenue_at k))

unfoldable pub revenue_at_hour : List HourAggregate → ℕ → Option ℕ
revenue_at_hour hours hour = elim (first (λ (bucket : HourAggregate). bucket.hour == hour) hours) [
  | none ↦ none
  | some bucket ↦ some bucket.revenue_minor
]

unfoldable pub revenue_at_day : List DayAggregate → String → Option ℕ
revenue_at_day days date = elim (first (λ (day : DayAggregate). str_eq day.date date) days) [
  | none ↦ none
  | some day ↦ some day.revenue_minor
]

unfoldable pub peak_hour : Aggregates → Option (ℕ × ℕ)
peak_hour a = peak (revenue_at_hour a.hourly_agg) hours_of_day none

unfoldable pub peak_day : Aggregates → Option (String × ℕ)
peak_day a =
    peak (revenue_at_day a.daily_agg) (order_by text_le (map (λ day. day.date) a.daily_agg)) none

-- `later - earlier`, kept if it is not negative
abbrev pub span_between : ℕ → ℕ → List ℕ → List ℕ
span_between earlier later spans = if leb earlier later then (later - earlier) ∷ spans else spans

abbrev pub sum : List ℕ → ℕ
sum = sum_of (λ x. x)

unfoldable pub average : List ℕ → Option ℕ
average [] = none
average (x ∷ xs) = some (round_half_up_div (sum (x ∷ xs)) (length (x ∷ xs)))

abbrev pub earlier_of : Option ℕ → ℕ → Option ℕ
earlier_of none t = some t
earlier_of (some s) t = if ltb t s then some t else some s

-- acceptedAtByOrder.get(orderId): the earliest of the order's events
unfoldable pub accepted_at : ℕ → List OrderStatusEventRow → Option ℕ
accepted_at order_id events =
    foldl (λ best (e : OrderStatusEventRow). earlier_of best e.created_at) none
      (select (λ (e : OrderStatusEventRow). e.order_id == order_id) events)

-- The spans from acceptance to readiness, of the orders with an acceptance that is not later.
unfoldable pub preparation_spans : List OrderStatusEventRow → List OrderStatusEventRow → List ℕ
preparation_spans accepted_events [] = []
preparation_spans accepted_events (e ∷ ready_events) =
    let spans = preparation_spans accepted_events ready_events in
    elim (accepted_at e.order_id accepted_events) [
      | none ↦ spans
      | some t ↦ span_between t e.created_at spans
    ]

unfoldable pub average_preparation_time : ResolvedRange → Db → Option ℕ
average_preparation_time range db =
    let ready_events =
      find_events_by_status_in_window ready range.from_ms range.to_exclusive_ms db in
    let accepted_events =
      find_events_by_order_ids_and_status (map (λ e. e.order_id) ready_events) accepted db in
    average (preparation_spans accepted_events ready_events)

unfoldable pub turnover_spans : List BillGroupRow → List ℕ
turnover_spans [] = []
turnover_spans (g ∷ groups) =
    span_between g.opened_at (or_else g.closed_at 0) (turnover_spans groups)

unfoldable pub average_table_turnover : ResolvedRange → Db → Option ℕ
average_table_turnover range db =
    average
      (turnover_spans (find_closed_bill_groups_in_window range.from_ms range.to_exclusive_ms db))

pub record ShiftRevenue : Type 0 where
  pub shift_id : Option ℕ
  pub revenue_minor : ℕ

abbrev pub same_shift : Option ℕ → Option ℕ → Bool
same_shift none none = true
same_shift (some a) (some b) = a == b
same_shift _ _ = false

abbrev pub add_payment : List ShiftRevenue → PaymentRow → List ShiftRevenue
add_payment by_shift p =
    upsert (λ entry. same_shift entry.shift_id p.shift_id)
      (λ entry. record entry { revenue_minor = entry.revenue_minor + p.amount_minor })
      (record { shift_id = p.shift_id; revenue_minor = p.amount_minor }) by_shift

unfoldable pub by_shift : List PaymentRow → List ShiftRevenue
by_shift = foldl add_payment []

pub record ShiftRevenueDto : Type 0 where
  pub shift_id : Option ℕ
  pub employee_id : Option ℕ
  pub opened_at : Option ℕ
  pub closed_at : Option ℕ
  pub revenue_minor : ℕ

unfoldable pub shift_ids : List ShiftRevenue → List ℕ
shift_ids [] = []
shift_ids (e ∷ es) = elim e.shift_id [ none ↦ shift_ids es | some id ↦ id ∷ shift_ids es ]

abbrev pub shift_of : List ShiftRow → Option ℕ → Option ShiftRow
shift_of rows none = none
shift_of rows (some id) = last_of (λ s. s.id == id) rows

abbrev pub shift_dto : List ShiftRow → ShiftRevenue → ShiftRevenueDto
shift_dto rows e = elim (shift_of rows e.shift_id) [
  | none ↦ record {
    shift_id = e.shift_id;
    employee_id = none;
    opened_at = none;
    closed_at = none;
    revenue_minor = e.revenue_minor;
  }
  | some s ↦ record {
    shift_id = e.shift_id;
    employee_id = some s.employee_id;
    opened_at = some s.opened_at;
    closed_at = s.closed_at;
    revenue_minor = e.revenue_minor;
  }
]

-- Number.MAX_SAFE_INTEGER
abbrev pub max_safe_integer : ℕ
max_safe_integer = 9_007_199_254_740_991

unfoldable pub revenue_by_shift : ResolvedRange → Option ℕ → Db → List ShiftRevenueDto
revenue_by_shift range employee_id db =
    let entries =
      by_shift (find_payments_in_window range.from_ms range.to_exclusive_ms employee_id db) in
    let rows = find_shifts_by_ids (shift_ids entries) db in
    order_by
      (λ a b. leb (or_else a.opened_at max_safe_integer) (or_else b.opened_at max_safe_integer))
      (map (shift_dto rows) entries)
