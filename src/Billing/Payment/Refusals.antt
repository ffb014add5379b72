-- ===== src/Billing/Payment/Refusals.antt =====
-- When a payment is let through, and what each refusal says.
use smart_table.Prelude.{
  ◌≡◌, ◌≢◌, true, false, none, some, List, [], arith, select, first, is_empty, ◌==◌,
}
use smart_table.Domain.{served, is_open, order_status_eq}
use smart_table.Database.{BillGroupRow, OrderRow, Db}
use smart_table.Billing.Payment.{
  RecordPaymentInput, RecordedPayment, recorded, refuse, charge, order_gate, payment_gate,
  is_in_flight, orders_of_group, find_bill_group_by_id, find_payment_for_group,
}

-- What is known of a payment that the gate lets through.
pub record IsPayable (input : RecordPaymentInput) (db : Db) (g : BillGroupRow)
    (billable : List OrderRow) : Type 0 where
  pub found :
      first (λ (r : BillGroupRow). r.id == input.table_bill_group_id) db.table_bill_groups ≡ some g
  pub is_group_open : is_open g.status ≡ true
  pub unpaid : find_payment_for_group g.id db ≡ none
  pub settled : select is_in_flight (orders_of_group g.id db) ≡ []
  pub charged : select (λ o. order_status_eq o.status served) (orders_of_group g.id db) ≡ billable
  pub some_served : is_empty billable ≡ false

order_gate-charge :
    (g g' : BillGroupRow) (orders billable : List OrderRow)
    → order_gate g orders ≡ charge g' billable
    → (g ≡ g')
      × (select is_in_flight orders ≡ [])
      × (select (λ (o : OrderRow). order_status_eq o.status served) orders ≡ billable)
      × (is_empty billable ≡ false)
unfolding order_gate
order_gate-charge g g' orders billable h = ground arith

pub payment_gate-charge :
    (input : RecordPaymentInput) (db : Db) (g : BillGroupRow) (billable : List OrderRow)
    → payment_gate input db ≡ charge g billable
    → IsPayable input db g billable
unfolding payment_gate
payment_gate-charge input db g billable h = ground arith

-- A refusal records no payment.
pub payment_gate-refuse :
    (input : RecordPaymentInput) (db : Db) (p : RecordedPayment)
    → payment_gate input db ≢ refuse (recorded p)
unfolding payment_gate
payment_gate-refuse input db p h = ground arith

-- Conversely, the visit of an open group without a payment, with no order in flight and with one
-- order that is served at least, is charged for its served orders.
pub payment_gate-passes :
    (input : RecordPaymentInput) (db : Db) (g : BillGroupRow)
    → find_bill_group_by_id input.table_bill_group_id db ≡ some g
    → is_open g.status ≡ true
    → find_payment_for_group g.id db ≡ none
    → select is_in_flight (orders_of_group g.id db) ≡ []
    → is_empty (select (λ o. order_status_eq o.status served) (orders_of_group g.id db)) ≡ false
    → payment_gate input db
      ≡ charge g (select (λ o. order_status_eq o.status served) (orders_of_group g.id db))
unfolding payment_gate
payment_gate-passes input db g f o p b s = ground arith
