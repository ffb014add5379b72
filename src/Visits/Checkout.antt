-- ===== src/Visits/Checkout.antt =====
-- That a visit which is ready to pay can be paid: no step of the transaction throws.
use mathlib.Core.Option
use mathlib.Core.Path.{subst}
use smart_table.Prelude.{
  ℕ, ◌≤◌, ◌<◌, ◌≡◌, ◌≢◌, ◌∙◌, Bool, true, false, ◌&&◌, none, some, List, [], ◌∷◌, ◌++◌, map, ◌==◌,
  arith, first, count, select, order_by, is_empty, Option-cases, inl, inr, first-holds,
  count-select, count_mono, count-order_by,
}
use smart_table.Domain.{served, is_open, order_status_eq, includes}
use smart_table.Database.{
  has_employee, EmployeeRow, TableRow, BillGroupRow, OrderRow, PaymentRow, ShiftRow,
  ProductSalesRollup, Db, Env, insert_unique,
}
use smart_table.Orders.Repository.{is_order_in, is_open_for}
use smart_table.Billing.Payment.{
  RecordPaymentInput, RecordedPayment, recorded, CompletedOrderLine, Settlement, settle_lines,
  order_lines, settlement_of, is_in_flight, orders_of_group, find_bill_group_by_id,
  find_payment_for_group, close_visit, is_open_group, is_occupied_row, settle_group,
  record_payment_transaction, insert_payment, is_not_after, get_tax_rate_basis_points, new_payment,
  find_open_shift, group_not_found, already_paid, not_ready,
}
use smart_table.Billing.Payment.Money.{bill_of}
use smart_table.Visits.Rows.{open_count, occupied_found, VisitsAgree}
use smart_table.Visits.Payment.{first-open_of_id}
use smart_table.Billing.Payment.Settling.{has_order_id, AllServed, IsKeyed, settle_lines-succeeds}
use smart_table.Billing.Payment.Refusals.{payment_gate-passes}

-- The orders that a payment charges.
abbrev pub charged_orders : ℕ → Db → List OrderRow
charged_orders group_id db =
    select (λ o. order_status_eq o.status served) (orders_of_group group_id db)

count-charged :
    (p : OrderRow → Bool) (group_id : ℕ) (db : Db)
    → count p (charged_orders group_id db)
      ≡ count
          (λ o. o.table_bill_group_id == group_id && (order_status_eq o.status served && p o))
          db.orders
unfolding orders_of_group
count-charged p group_id db =
    count-select p (λ o. order_status_eq o.status served)
      (order_by is_not_after (select (λ o. o.table_bill_group_id == group_id) db.orders))
    ∙ count-order_by (λ o. order_status_eq o.status served && p o) is_not_after
        (select (λ o. o.table_bill_group_id == group_id) db.orders)
    ∙ count-select (λ o. order_status_eq o.status served && p o)
        (λ o. o.table_bill_group_id == group_id) db.orders

charged-IsKeyed :
    (group_id : ℕ) (db : Db) → IsKeyed db.orders → IsKeyed (charged_orders group_id db)
charged-IsKeyed group_id db keyed i =
    let k = keyed i in
    let m =
      count_mono
        (λ o.
          o.table_bill_group_id == group_id
          && (order_status_eq o.status served && has_order_id i o))
        (has_order_id i) db.orders (λ r e. ground arith) in
    omega (arith, k, m, count-charged (has_order_id i) group_id db)

charged-AllServed : (group_id : ℕ) (db : Db) → AllServed (charged_orders group_id db) db.orders
charged-AllServed group_id db i some_left =
    let m =
      count_mono
        (λ o.
          o.table_bill_group_id == group_id
          && (order_status_eq o.status served && has_order_id i o))
        (is_order_in i served) db.orders (λ r e. ground arith) in
    omega (arith, m, some_left, count-charged (has_order_id i) group_id db)

found-count :
    (p q : BillGroupRow → Bool) (rs : List BillGroupRow) (g : BillGroupRow)
    → first p rs ≡ some g
    → q g ≡ true
    → 0 < count q rs
unfolding first count
found-count p q [] g h e = cc
found-count p q (r ∷ rs) g h e = ground (arith, found-count p q rs g)

-- On a consistent floor an open visit can be closed.
close_visit-succeeds :
    (env : Env) (g : BillGroupRow) (db : Db)
    → VisitsAgree db
    → first (λ (r : BillGroupRow). r.id == g.id) db.table_bill_groups ≡ some g
    → is_open g.status ≡ true
    → (v : BillGroupRow × List BillGroupRow × List TableRow) × (close_visit env g db ≡ some v)
unfolding close_visit
close_visit-succeeds env g db v f o =
    let (_, h) = first-open_of_id g.id db.table_bill_groups g f o in
    let there : 0 < open_count g.table_id db.table_bill_groups =
      found-count (is_open_group g.id) (is_open_for g.table_id) db.table_bill_groups g h
        (ground arith) in
    elim (Option-cases (first (is_occupied_row g.table_id) db.tables)) [
      | inl e ↦ absurd (occupied_found g.table_id db.tables ((v g.table_id).1 there) e)
      | inr (t, e) ↦ elim (Option-cases (close_visit env g db)) [
        | inl n ↦ absurd (ground (arith, h, e))
        | inr x ↦ x
      ]
    ]

found_id : (id : ℕ) (db : Db) (g : BillGroupRow) → find_bill_group_by_id id db ≡ some g → id ≡ g.id
unfolding find_bill_group_by_id
found_id id db g f =
    let e = first-holds (λ (r : BillGroupRow). r.id == id) db.table_bill_groups g f in ground arith

insert_payment-succeeds :
    (p : PaymentRow) (employees : List EmployeeRow) (payments : List PaymentRow)
    → p.amount_minor ≢ 0
    → has_employee p.collected_by_employee_id employees ≡ true
    → first (λ (q : PaymentRow). q.id == p.id) payments ≡ none
    → (ps : List PaymentRow) × (insert_payment p employees payments ≡ some ps)
insert_payment-succeeds p employees payments positive collector free =
    (payments ++ p ∷ [], unfold insert_payment insert_unique in ground arith)

settle_group-succeeds :
    (env : Env) (input : RecordPaymentInput) (g : BillGroupRow) (billable : List OrderRow) (db : Db)
    → ((bill_of db billable).total_minor ≢ 0)
    → has_employee input.collected_by_employee_id db.employees ≡ true
    → (first (λ (p : PaymentRow). p.id == env.uuid 0) db.payments ≡ none)
    → ((done : List CompletedOrderLine) × (s : Settlement) × (settle_lines env
            input.collected_by_employee_id
            (env.rollup_bucket_for env.now)
            (order_lines (get_tax_rate_basis_points db) billable db.order_items)
            (settlement_of db)
          ≡ some (done, s)))
    → ((v : BillGroupRow × List BillGroupRow × List TableRow) × (close_visit env g db ≡ some v))
    → (p : RecordedPayment) × (db' : Db) × (settle_group env input g billable db
        ≡ some (recorded p, db'))
settle_group-succeeds env input g billable db positive collector free (done, s, e) (v, f) =
    let shift =
      Option.map (λ (s : ShiftRow). s.id) (find_open_shift input.collected_by_employee_id db) in
    let (ps, h) =
      insert_payment-succeeds (new_payment env input g (bill_of db billable) shift) db.employees
        db.payments positive collector free in
    elim (Option-cases (settle_group env input g billable db)) [
      | inl n ↦ absurd (unfold settle_group in ground (arith, e, f, h))
      | inr ((recorded p, db'), n) ↦ (p, db', n)
      | inr ((group_not_found, db'), n) ↦ absurd (unfold settle_group in ground arith)
      | inr ((already_paid x, db'), n) ↦ absurd (unfold settle_group in ground arith)
      | inr ((not_ready xs, db'), n) ↦ absurd (unfold settle_group in ground arith)
    ]

-- A visit that is ready is paid. If the floor is consistent, the orders have different ids, the
-- group is found, open and not yet paid, none of its orders is in flight, one at least is served,
-- its bill is not 0, and whoever collects it is an employee, then recording the payment succeeds,
-- provided the ids that are drawn are different from each other and from those in the two tables
-- that take them.
pub record_payment-succeeds :
    (env : Env) (input : RecordPaymentInput) (db : Db) (g : BillGroupRow)
    → ((j k : ℕ) → env.uuid j ≡ env.uuid k → j ≡ k)
    → first (λ (p : PaymentRow). p.id == env.uuid 0) db.payments ≡ none
    → ((k : ℕ)
        → 1 ≤ k
        → first (λ (r : ProductSalesRollup). r.id == env.uuid k) db.product_sales_rollup ≡ none)
    → VisitsAgree db
    → IsKeyed db.orders
    → find_bill_group_by_id input.table_bill_group_id db ≡ some g
    → is_open g.status ≡ true
    → find_payment_for_group g.id db ≡ none
    → select is_in_flight (orders_of_group g.id db) ≡ []
    → is_empty (charged_orders g.id db) ≡ false
    → (bill_of db (charged_orders g.id db)).total_minor ≢ 0
    → has_employee input.collected_by_employee_id db.employees ≡ true
    → (p : RecordedPayment) × (db' : Db) × (record_payment_transaction env input db
        ≡ some (recorded p, db'))
record_payment-succeeds env input db g distinct free fresh v keyed found op unpaid calm some_served
      positive collector =
    let gate = payment_gate-passes input db g found op unpaid calm some_served in
    let bps = get_tax_rate_basis_points db in
    let ids = map (λ (o : OrderRow). o.id) (charged_orders g.id db) in
    let settled =
      settle_lines-succeeds env distinct input.collected_by_employee_id
        (env.rollup_bucket_for env.now) bps
        (select (λ i. includes ◌==◌ ids i.order_id) db.order_items) (charged_orders g.id db)
        (settlement_of db) (record { ahead = fresh }) (charged-IsKeyed g.id db keyed)
        (charged-AllServed g.id db) in
    let same_id : input.table_bill_group_id ≡ g.id =
      found_id input.table_bill_group_id db g found in
    let closed =
      close_visit-succeeds env g db v
        (subst (λ k. first (λ (r : BillGroupRow). r.id == k) db.table_bill_groups ≡ some g) same_id
          (unfold find_bill_group_by_id in found))
        op in
    let (p, db', e) =
      settle_group-succeeds env input g (charged_orders g.id db) db positive collector free
        (unfold order_lines in settled) closed in
    (p, db', unfold record_payment_transaction in rw gate e)
