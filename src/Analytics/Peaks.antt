-- ===== src/Analytics/Peaks.antt =====
-- The two loops for the peaks of a report: the best is a maximum, and the first of them.
use smart_table.Prelude.{
  ℕ, ◌≤◌, ◌<◌, ◌≡◌, refl, Option, none, some, List, [], ◌∷◌, ◌++◌, arith, ltb, All, Bool-cases,
  Option-cases, inl, inr, ◌⊎◌, ap,
}
use smart_table.Analytics.Aggregates.{Aggregates}
use smart_table.Analytics.Range.{hours_of_day}
use smart_table.Analytics.Derived.{peak, revenue_at_hour, peak_hour}

-- A key without an entry has no revenue to compare.
abbrev pub Lower : ℕ → Option ℕ → Type 0
Lower high none = Unit
Lower high (some r) = r < high

abbrev pub AtMost : ℕ → Option ℕ → Type 0
AtMost high none = Unit
AtMost high (some r) = r ≤ high

module _ {K : Type 0} (revenue_at : K → Option ℕ) where
  -- `k` has the revenue `high`; what comes before it in the list has less, what follows no more.
  pub record IsFirstPeak (ks : List K) (k : K) (high : ℕ) : Type 0 where
    pub before : List K
    pub after : List K
    pub whole : ks ≡ before ++ k ∷ after
    pub value : revenue_at k ≡ some high
    pub earlier : All (λ j. Lower high (revenue_at j)) before
    pub later : All (λ j. AtMost high (revenue_at j)) after

  IsFirstPeak-cons :
      (x : K) (ks : List K) (k : K) (high : ℕ)
      → Lower high (revenue_at x)
      → IsFirstPeak ks k high
      → IsFirstPeak (x ∷ ks) k high
  IsFirstPeak-cons x ks k high l p = record {
    before = x ∷ p.before;
    after = p.after;
    whole = ap (◌∷◌ x) p.whole;
    value = p.value;
    earlier = (l, p.earlier);
    later = p.later;
  }

  -- From a best so far, the loop keeps it, and then nothing is higher, or it finds a higher one.
  peak_from :
      (ks : List K) (j : K) (low : ℕ) (k : K) (high : ℕ)
      → peak revenue_at ks (some (j, low)) ≡ some (k, high)
      → ((k ≡ j) × (high ≡ low) × All (λ i. AtMost low (revenue_at i)) ks)
        ⊎ (IsFirstPeak ks k high × (low < high))
  unfolding peak
  peak_from [] j low k high h = inl (ground arith, ground arith, tt)
  peak_from (x ∷ ks) j low k high h = elim (Option-cases (revenue_at x)) [
    | inl e ↦
        let rest : peak revenue_at ks (some (j, low)) ≡ some (k, high) = rw e at h in
        elim (peak_from ks j low k high rest) [
          | inl (a, b, c) ↦ inl (a, b, (rw e tt, c))
          | inr (p, l) ↦ inr (IsFirstPeak-cons x ks k high (rw e tt) p, l)
        ]
    | inr (r, e) ↦ elim (Bool-cases (ltb low r)) [
      | inl up ↦
          let rest : peak revenue_at ks (some (x, r)) ≡ some (k, high) = rw (e, up) at h in
          elim (peak_from ks x r k high rest) [
            | inl (a, b, c) ↦ inr (
              record {
                before = [];
                after = ks;
                whole = rw a refl;
                value = rw (a, b) e;
                earlier = tt;
                later = rw b c;
              },
              ground arith,
            )
            | inr (p, l) ↦ inr (IsFirstPeak-cons x ks k high (rw e l) p, ground arith)
          ]
      | inr down ↦
          let rest : peak revenue_at ks (some (j, low)) ≡ some (k, high) = rw (e, down) at h in
          elim (peak_from ks j low k high rest) [
            | inl (a, b, c) ↦ inl (a, b, (rw e (ground arith), c))
            | inr (p, l) ↦ inr (IsFirstPeak-cons x ks k high (rw e (ground arith)) p, l)
          ]
    ]
  ]

  pub peak-IsFirstPeak :
      (ks : List K) (k : K) (high : ℕ)
      → peak revenue_at ks none ≡ some (k, high)
      → IsFirstPeak ks k high
  unfolding peak
  peak-IsFirstPeak [] k high h = absurd (ground arith)
  peak-IsFirstPeak (x ∷ ks) k high h = elim (Option-cases (revenue_at x)) [
    | inl e ↦
        let rest : peak revenue_at ks none ≡ some (k, high) = rw e at h in
        IsFirstPeak-cons x ks k high (rw e tt) (peak-IsFirstPeak ks k high rest)
    | inr (r, e) ↦
        let rest : peak revenue_at ks (some (x, r)) ≡ some (k, high) = rw e at h in
        elim (peak_from ks x r k high rest) [
          | inl (a, b, c) ↦ record {
            before = [];
            after = ks;
            whole = rw a refl;
            value = rw (a, b) e;
            earlier = tt;
            later = rw b c;
          }
          | inr (p, l) ↦ IsFirstPeak-cons x ks k high (rw e l) p
        ]
  ]

-- The peak hour of a report has the revenue shown with it; of the 24 hours, those before it have
-- less, and those after it no more.
pub peak_hour-IsFirstPeak :
    (a : Aggregates) (hour high : ℕ)
    → peak_hour a ≡ some (hour, high)
    → IsFirstPeak (revenue_at_hour a.hourly_agg) hours_of_day hour high
unfolding peak_hour
peak_hour-IsFirstPeak a hour high h =
    peak-IsFirstPeak (revenue_at_hour a.hourly_agg) hours_of_day hour high h
