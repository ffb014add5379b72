-- ===== src/BillingMath/Laws.antt =====
-- What billing-math.ts promises: rounding half up, and bills that add up at every level.
use mathlib.Core.List.{foldl}
use smart_table.Prelude.{ℕ, ◌+◌, ◌*◌, ◌≤◌, ◌<◌, ◌≡◌, refl, List, [], ◌∷◌, map, arith, sum_of, All}
use smart_table.BillingMath.{
  BillLineItem, MoneyTotals, round_half_up_div, add_item, compute_order_totals, add_totals,
  zero_totals, sum_totals,
}

-- For a positive denominator the result r is the integer nearest to numerator / denominator, and
-- the larger of the two nearest at a tie: r - 1/2 ≤ numerator / denominator < r + 1/2, written
-- without fractions.
pub round_half_up_div_nearest :
    (n d : ℕ)
    → 0 < d
    → (2 * (round_half_up_div n d * d) ≤ 2 * n + d)
      × (2 * n + d < 2 * (round_half_up_div n d * d) + 2 * d)
unfolding round_half_up_div
round_half_up_div_nearest n d h = grind arith

-- The price of one line.
abbrev pub line_total : BillLineItem → ℕ
line_total item = item.unit_price_minor_snapshot * item.quantity

foldl-add_item :
    (acc : ℕ) (items : List BillLineItem) → foldl add_item acc items ≡ acc + sum_of line_total items
foldl-add_item acc [] = omega arith
foldl-add_item acc (x ∷ xs) = omega (arith, foldl-add_item (acc + line_total x) xs)

pub subtotal-compute_order_totals :
    (items : List BillLineItem) (bps : ℕ)
    → (compute_order_totals items bps).subtotal_minor ≡ sum_of line_total items
unfolding compute_order_totals
subtotal-compute_order_totals items bps = omega (arith, foldl-add_item 0 items)

-- A list of totals in which each total is its subtotal plus its tax.
abbrev pub IsBalanced : MoneyTotals → Type 0
IsBalanced t = t.total_minor ≡ t.subtotal_minor + t.tax_minor

pub compute_order_totals-IsBalanced :
    (items : List BillLineItem) (bps : ℕ) → IsBalanced (compute_order_totals items bps)
unfolding compute_order_totals
compute_order_totals-IsBalanced items bps = refl

foldl-add_totals :
    (acc : MoneyTotals) (ts : List MoneyTotals)
    → ((foldl add_totals acc ts).subtotal_minor
        ≡ acc.subtotal_minor + sum_of (λ t. t.subtotal_minor) ts)
      × ((foldl add_totals acc ts).tax_minor ≡ acc.tax_minor + sum_of (λ t. t.tax_minor) ts)
      × ((foldl add_totals acc ts).total_minor ≡ acc.total_minor + sum_of (λ t. t.total_minor) ts)
foldl-add_totals acc [] = omega arith
foldl-add_totals acc (t ∷ ts) =
    let ih = foldl-add_totals (add_totals acc t) ts in omega (arith, ih.0, ih.1, ih.2)

pub total-sum_totals :
    (ts : List MoneyTotals) → (sum_totals ts).total_minor ≡ sum_of (λ t. t.total_minor) ts
unfolding sum_totals
total-sum_totals ts = omega (arith, (foldl-add_totals zero_totals ts).2)

sum_IsBalanced :
    (ts : List MoneyTotals)
    → All IsBalanced ts
    → sum_of (λ t. t.total_minor) ts
      ≡ sum_of (λ t. t.subtotal_minor) ts + sum_of (λ t. t.tax_minor) ts
sum_IsBalanced [] h = omega arith
sum_IsBalanced (t ∷ ts) h = omega (arith, h.0, sum_IsBalanced ts h.1)

All-compute :
    (bps : ℕ) (orders : List (List BillLineItem))
    → All IsBalanced (map (λ items. compute_order_totals items bps) orders)
All-compute bps [] = tt
All-compute bps (o ∷ os) = (compute_order_totals-IsBalanced o bps, All-compute bps os)

-- The bill over any orders: its subtotal is the sum of all line prices, its total is the sum of
-- the per-order totals, and subtotal plus tax is the total.
pub bill_adds_up :
    (bps : ℕ) (orders : List (List BillLineItem))
    → let bill = sum_totals (map (λ items. compute_order_totals items bps) orders) in
      (bill.subtotal_minor ≡ sum_of (λ items. sum_of line_total items) orders)
      × (bill.total_minor ≡ sum_of (λ items. (compute_order_totals items bps).total_minor) orders)
      × (bill.total_minor ≡ bill.subtotal_minor + bill.tax_minor)
unfolding sum_totals
bill_adds_up bps orders =
    let ts = map (λ items. compute_order_totals items bps) orders in
    let sums = foldl-add_totals zero_totals ts in
    (
      omega (arith, sums.0, subtotals orders),
      omega (arith, sums.2, totals orders),
      omega (arith, sums.0, sums.1, sums.2, sum_IsBalanced ts (All-compute bps orders)),
    )
  where
    subtotals :
        (os : List (List BillLineItem))
        → sum_of (λ t. t.subtotal_minor) (map (λ items. compute_order_totals items bps) os)
          ≡ sum_of (λ items. sum_of line_total items) os
    subtotals [] = refl
    subtotals (o ∷ os) = omega (arith, subtotal-compute_order_totals o bps, subtotals os)

    totals :
        (os : List (List BillLineItem))
        → sum_of (λ t. t.total_minor) (map (λ items. compute_order_totals items bps) os)
          ≡ sum_of (λ items. (compute_order_totals items bps).total_minor) os
    totals [] = refl
    totals (o ∷ os) = omega (arith, totals os)
