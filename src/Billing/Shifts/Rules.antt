-- ===== src/Billing/Shifts/Rules.antt =====
-- The rules of the cash shifts: one open shift for an employee, the reconciliation at closing, and
-- the scope of a cashier.
use smart_table.Prelude.{
  refl, select, sum_of, if◌then◌else◌, List, ℕ, ◌+◌, ◌≤◌, ◌≡◌, ◌≢◌, ◌⊎◌, inl, inr, Bool, true, ◌&&◌,
  ◌||◌, none, some, [], ◌∷◌, ◌++◌, arith, first, count, update, count-append, count-update-le,
  first-eq_none-count, ◌==◌, Option-cases, Bool-cases,
}
use smart_table.Prelude.Int.{pos_part, neg_part, sub_ℕ_parts, sub_ℕ}
use smart_table.Domain.{owner, manager, shift_is_open, ok, err, insufficient_permission}
use smart_table.Database.{PaymentRow, ShiftRow, Db, Env, insert_unique}
use smart_table.Effects.{World, ◌>>=◌}
use smart_table.Orders.Service.{OrderActor}
use smart_table.Billing.Payment.{find_open_shift}
use smart_table.Billing.Shifts.{
  OpenShiftResult, CloseShiftResult, new_shift, open_shift_transaction, close_shift_transaction,
  find_shift_by_id, collected_minor, is_linked, is_open_shift_row, close_row,
  ShiftReconciliationDto, close_shift, get_shift, is_supervisor,
}

-- An open shift of the employee.
abbrev pub is_open_of : ℕ → ShiftRow → Bool
is_open_of employee_id s = s.employee_id == employee_id && shift_is_open s.status

-- An employee has one open shift at most.
abbrev pub OneOpenShift : Db → Type 0
OneOpenShift db = (e : ℕ) → count (is_open_of e) db.shifts ≤ 1

pub OneOpenShift-same : (db db' : Db) → db'.shifts ≡ db.shifts → OneOpenShift db → OneOpenShift db'
OneOpenShift-same db db' same v e = rw same (v e)

open_shift-cases :
    (env : Env) (employee opening : ℕ) (db db' : Db) {r : OpenShiftResult}
    → open_shift_transaction env employee opening db ≡ some (r, db')
    → (db'.shifts ≡ db.shifts)
      ⊎ ((first (is_open_of employee) db.shifts ≡ none)
          × (db'.shifts ≡ db.shifts ++ new_shift env employee opening ∷ []))
unfolding open_shift_transaction find_open_shift insert_unique
open_shift-cases env employee opening db db' h = ground arith

-- Opening a shift keeps this, whichever way it ends.
pub open_shift-OneOpenShift :
    (env : Env) (employee opening : ℕ) (db db' : Db) {r : OpenShiftResult}
    → open_shift_transaction env employee opening db ≡ some (r, db')
    → OneOpenShift db
    → OneOpenShift db'
open_shift-OneOpenShift env employee opening db db' {r} h v e =
    elim (open_shift-cases env employee opening db db' {r = r} h) [
      | inl same ↦ rw same (v e)
      | inr (free, grown) ↦ rw grown (
          ground (
            arith,
            v e,
            count-append (is_open_of e) db.shifts (new_shift env employee opening),
            first-eq_none-count (is_open_of employee) db.shifts free,
          ))
    ]

-- Closing one does too.
pub close_shift-OneOpenShift :
    (env : Env) (id closing : ℕ) (db db' : Db) {r : CloseShiftResult}
    → close_shift_transaction env id closing db ≡ some (r, db')
    → OneOpenShift db
    → OneOpenShift db'
close_shift-OneOpenShift env id closing db db' {r} h v e = elim cases [
  | inl same ↦ rw same (v e)
  | inr (i, x, grown) ↦
      let fewer =
        count-update-le (is_open_of e) (is_open_shift_row i) (close_row closing x env.now) db.shifts
          (λ s p. ground arith) in
      rw grown (omega (arith, fewer, v e))
]
  where
    cases :
        (db'.shifts ≡ db.shifts)
        ⊎ ((i : ℕ) × (x : ℕ) × (db'.shifts
              ≡ update (is_open_shift_row i) (close_row closing x env.now) db.shifts))
    cases = elim (Option-cases (find_shift_by_id id db)) [
      | inl e ↦ inl (unfold close_shift_transaction in ground arith)
      | inr (s, e) ↦ elim (Bool-cases (shift_is_open s.status)) [
        | inl o ↦ elim (Option-cases (first (is_open_shift_row s.id) db.shifts)) [
          | inl f ↦ inl (unfold close_shift_transaction in ground arith)
          | inr (t, f) ↦ inr (
            s.id,
            s.opening_cash_minor + collected_minor s.id db,
            unfold close_shift_transaction in ground arith,
          )
        ]
        | inr o ↦ inl (unfold close_shift_transaction in ground arith)
      ]
    ]

-- What a payment adds to the cash of a shift: its amount if it is linked to the shift, and else nothing.
abbrev pub cash_for : ℕ → PaymentRow → ℕ
cash_for shift_id p = elim p.shift_id [
  | none ↦ 0
  | some linked ↦ if linked == shift_id then p.amount_minor else 0
]

collected_minor-cash :
    (shift_id : ℕ) (db : Db) → collected_minor shift_id db ≡ sum_of (cash_for shift_id) db.payments
unfolding collected_minor select
collected_minor-cash shift_id db = go db.payments
  where
    go :
        (ps : List PaymentRow)
        → sum_of (λ (p : PaymentRow). p.amount_minor) (select (is_linked shift_id) ps)
          ≡ sum_of (cash_for shift_id) ps
    go [] = refl
    go (p ∷ ps) = ground (arith, go ps)

close_shift-unwrapped :
    (env : Env) (id closing : ℕ) (actor : OrderActor) (w : World) (s : ShiftRow)
    (dto : ShiftReconciliationDto)
    → find_shift_by_id id w.db ≡ some s
    → (close_shift env id closing actor w).0 ≡ ok dto
    → (is_supervisor actor.role || s.employee_id == actor.id) ≡ true
      × (dto.shift.closing_cash_minor ≡ some closing)
      × (dto.shift.expected_cash_minor ≡ some (s.opening_cash_minor + collected_minor s.id w.db))
      × (dto.difference_minor ≡ sub_ℕ closing (s.opening_cash_minor + collected_minor s.id w.db))
unfolding close_shift close_shift_transaction ◌>>=◌
close_shift-unwrapped env id closing actor w s dto f h = ground arith

-- A closing that returns was asked for by an owner, a manager or the employee of the shift; the
-- shift then holds the counted cash, and as the expected cash what it opened with plus all
-- payments linked to it and no other; and the difference that is reported is the counted less the
-- expected cash, with its sign.
pub close_shift-reconciles :
    (env : Env) (id closing : ℕ) (actor : OrderActor) (w : World) (s : ShiftRow)
    (dto : ShiftReconciliationDto)
    → find_shift_by_id id w.db ≡ some s
    → (close_shift env id closing actor w).0 ≡ ok dto
    → (is_supervisor actor.role || s.employee_id == actor.id) ≡ true
      × (dto.shift.closing_cash_minor ≡ some closing)
      × (dto.shift.expected_cash_minor
          ≡ some (s.opening_cash_minor + sum_of (cash_for s.id) w.db.payments))
      × (pos_part dto.difference_minor
            + (s.opening_cash_minor + sum_of (cash_for s.id) w.db.payments)
          ≡ neg_part dto.difference_minor + closing)
close_shift-reconciles env id closing actor w s dto f h =
    let (own, counted, expected, d) = close_shift-unwrapped env id closing actor w s dto f h in
    let same = collected_minor-cash s.id w.db in
    (
      own,
      counted,
      rw same at expected,
      rw (d, same)
          (sub_ℕ_parts closing (s.opening_cash_minor + sum_of (cash_for s.id) w.db.payments)),
    )

-- The shift of somebody else is out of reach of an employee who is neither owner nor manager:
-- both closing and reading it throw, and change nothing.
pub shift_scope :
    (env : Env) (id closing : ℕ) (actor : OrderActor) (w : World) (s : ShiftRow)
    → find_shift_by_id id w.db ≡ some s
    → actor.role ≢ owner
    → actor.role ≢ manager
    → s.employee_id ≢ actor.id
    → (close_shift env id closing actor w
        ≡ (err (insufficient_permission "shifts.close (own shift only)"), w))
      × (get_shift id actor w ≡ (err (insufficient_permission "shifts.view (own shift only)"), w))
unfolding close_shift get_shift ◌>>=◌
shift_scope env id closing actor w s f no_owner no_manager other = (ground arith, ground arith)
