-- ===== src/BillingMath.antt =====
-- apps/api/src/modules/billing/billing-math.ts: exact integer money arithmetic on minor units.
-- JavaScript's `Math.floor(a / b)` of safe integers (below 2 ^ 53) is the quotient of ℕ.
pub mod Laws
use mathlib.Core.List.{foldl}
use smart_table.Prelude.{ℕ, ◌+◌, ◌*◌, ◌/◌, List}

pub record BillLineItem : Type 0 where
  pub unit_price_minor_snapshot : ℕ
  pub quantity : ℕ

pub record MoneyTotals : Type 0 where
  pub subtotal_minor : ℕ
  pub tax_minor : ℕ
  pub total_minor : ℕ

unfoldable pub round_half_up_div : ℕ → ℕ → ℕ
round_half_up_div numerator denominator = (2 * numerator + denominator) / (2 * denominator)

-- One step of the `reduce` over the items.
abbrev pub add_item : ℕ → BillLineItem → ℕ
add_item sum item = sum + item.unit_price_minor_snapshot * item.quantity

unfoldable pub compute_order_totals : List BillLineItem → ℕ → MoneyTotals
compute_order_totals items tax_basis_points =
    let subtotal = foldl add_item 0 items in
    let tax = round_half_up_div (subtotal * tax_basis_points) 10_000 in
    record { subtotal_minor = subtotal; tax_minor = tax; total_minor = subtotal + tax }

abbrev pub add_totals : MoneyTotals → MoneyTotals → MoneyTotals
add_totals acc totals = record {
  subtotal_minor = acc.subtotal_minor + totals.subtotal_minor;
  tax_minor = acc.tax_minor + totals.tax_minor;
  total_minor = acc.total_minor + totals.total_minor;
}

abbrev pub zero_totals : MoneyTotals
zero_totals = record { subtotal_minor = 0; tax_minor = 0; total_minor = 0 }

unfoldable pub sum_totals : List MoneyTotals → MoneyTotals
sum_totals = foldl add_totals zero_totals
