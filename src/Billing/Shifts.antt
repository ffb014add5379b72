-- ===== src/Billing/Shifts.antt =====
-- The shift transactions of billing.repository.ts, and shifts.service.ts.
pub mod Rules
use mathlib.Core.Option
use smart_table.Prelude.Int.{ℤ, sub_ℕ}
use smart_table.Prelude.{
  ℕ, ◌+◌, Bool, true, false, not, ◌&&◌, ◌||◌, String, Option, none, some, List, [], ◌∷◌, ◌++◌, ◌==◌,
  if◌then◌else◌, or_else, first, select, count, update, sum_of,
}
use smart_table.Domain.{
  EmployeeRole, owner, manager, open_shift, closed_shift, shift_is_open, role_eq, entity_not_found,
  insufficient_permission, shift_already_open, shift_already_closed,
}
use smart_table.Database.{has_employee, PaymentRow, ShiftRow, Db, Env, Tx, insert_unique}
use smart_table.Effects.{
  AuditEntry, AuditValue, amount, difference, text, Action, ◌>>=◌, ◌>>◌, pure, throw, throw_if,
  query, required, run_transaction, append,
}
use smart_table.Orders.Service.{OrderActor}
use smart_table.Billing.Payment.{find_open_shift}

pub data OpenShiftResult : Type 0 where
  opened : ShiftRow → OpenShiftResult
  already_open : ShiftRow → OpenShiftResult

pub data CloseShiftResult : Type 0 where
  closed : ShiftRow → ℕ → CloseShiftResult
  shift_not_found : CloseShiftResult
  already_closed : ShiftRow → CloseShiftResult

abbrev pub new_shift : Env → ℕ → ℕ → ShiftRow
new_shift env employee_id opening_cash_minor = record {
  id = env.uuid 0;
  employee_id = employee_id;
  opening_cash_minor = opening_cash_minor;
  closing_cash_minor = none;
  expected_cash_minor = none;
  status = open_shift;
  opened_at = env.now;
  closed_at = none;
}

-- The foreign key to `employees` refuses a shift of nobody there.
unfoldable pub open_shift_transaction : Env → ℕ → ℕ → Tx OpenShiftResult
open_shift_transaction env employee_id opening_cash_minor db =
    elim (find_open_shift employee_id db) [
      | some existing ↦ some (already_open existing, db)
      | none ↦
          if has_employee employee_id db.employees
          then Option.map
              (λ shifts. (
                opened (new_shift env employee_id opening_cash_minor),
                record db { shifts = shifts },
              ))
              (insert_unique (λ s. s.id) (new_shift env employee_id opening_cash_minor) db.shifts)
          else none
    ]

unfoldable pub find_shift_by_id : ℕ → Db → Option ShiftRow
find_shift_by_id id db = first (λ s. s.id == id) db.shifts

abbrev pub is_linked : ℕ → PaymentRow → Bool
is_linked shift_id p = elim p.shift_id [ none ↦ false | some id ↦ id == shift_id ]

-- The aggregate over the payments that are linked to the shift.
unfoldable pub collected_minor : ℕ → Db → ℕ
collected_minor shift_id db =
    sum_of (λ (p : PaymentRow). p.amount_minor) (select (is_linked shift_id) db.payments)

unfoldable pub payments_collected : ℕ → Db → ℕ
payments_collected shift_id db = count (is_linked shift_id) db.payments

abbrev pub is_open_shift_row : ℕ → ShiftRow → Bool
is_open_shift_row id s = s.id == id && shift_is_open s.status

abbrev pub close_row : ℕ → ℕ → ℕ → ShiftRow → ShiftRow
close_row closing expected now s = record s {
  status = closed_shift;
  closing_cash_minor = some closing;
  expected_cash_minor = some expected;
  closed_at = some now;
}

unfoldable pub close_shift_transaction : Env → ℕ → ℕ → Tx CloseShiftResult
close_shift_transaction env shift_id closing_cash_minor db = elim (find_shift_by_id shift_id db) [
  | none ↦ some (shift_not_found, db)
  | some shift ↦
      let expected = shift.opening_cash_minor + collected_minor shift.id db in
      let close = close_row closing_cash_minor expected env.now in
      if not (shift_is_open shift.status)
      then some (already_closed shift, db)
      else elim (first (is_open_shift_row shift.id) db.shifts) [
        | none ↦ some (already_closed shift, db)
        | some row ↦ some (
          closed (close row) (payments_collected shift.id db),
          record db { shifts = update (is_open_shift_row shift.id) close db.shifts },
        )
      ]
]

abbrev pub unwrap_open : ℕ → OpenShiftResult → Action ShiftRow
unwrap_open actor (opened shift) = pure shift
unwrap_open actor (already_open existing) = throw (shift_already_open actor existing.id)

abbrev pub shift_entry :
    ℕ → ℕ → String → List (String × AuditValue) → List (String × AuditValue) → AuditEntry
shift_entry actor shift_id action old_value new_value = record {
  actor_employee_id = some actor;
  entity_type = "shift";
  entity_id = shift_id;
  action = action;
  old_value = old_value;
  new_value = new_value;
}

unfoldable pub open_shift_for : Env → ℕ → OrderActor → Action ShiftRow
open_shift_for env opening_cash_minor actor = do
  result ← run_transaction (open_shift_transaction env actor.id opening_cash_minor)
  shift ← unwrap_open actor.id result
  append (
      shift_entry actor.id shift.id "shift_opened" []
        (("openingCashMinor", amount shift.opening_cash_minor) ∷ []))
  pure shift

abbrev pub is_supervisor : EmployeeRole → Bool
is_supervisor role = role_eq role owner || role_eq role manager

unfoldable pub assert_shift_scope : ShiftRow → OrderActor → String → Action (Unit {0})
assert_shift_scope shift actor action =
    throw_if (not (is_supervisor actor.role) && not (shift.employee_id == actor.id))
      (insufficient_permission action)

pub record ShiftReconciliationDto : Type 0 where
  pub shift : ShiftRow
  pub payments_collected : ℕ
  pub difference_minor : ℤ

abbrev pub unwrap_close : ℕ → CloseShiftResult → Action (ShiftRow × ℕ)
unwrap_close id (closed shift collected) = pure (shift, collected)
unwrap_close id shift_not_found = throw (entity_not_found "shift" id)
unwrap_close id (already_closed shift) = throw (shift_already_closed id)

-- A closed row holds both amounts, which the code reads with `!`.
unfoldable pub close_shift : Env → ℕ → ℕ → OrderActor → Action ShiftReconciliationDto
unfolding assert_shift_scope
close_shift env shift_id closing_cash_minor actor = do
  existing ← required (← query (find_shift_by_id shift_id)) (entity_not_found "shift" shift_id)
  assert_shift_scope existing actor "shifts.close (own shift only)"
  result ← run_transaction (close_shift_transaction env shift_id closing_cash_minor)
  done ← unwrap_close shift_id result
  let counted = or_else done.0.closing_cash_minor 0
  let expected = or_else done.0.expected_cash_minor 0
  append (
      shift_entry actor.id shift_id "shift_closed"
        (("status", text "open") ∷ ("openingCashMinor", amount existing.opening_cash_minor) ∷ [])
        (("status", text "closed")
          ∷ ("closingCashMinor", amount counted)
          ∷ ("expectedCashMinor", amount expected)
          ∷ ("differenceMinor", difference counted expected)
          ∷ ("paymentsCollected", amount done.1)
          ∷ []))
  pure (record {
    shift = done.0;
    payments_collected = done.1;
    difference_minor = sub_ℕ counted expected;
  })

unfoldable pub get_shift : ℕ → OrderActor → Action ShiftRow
unfolding assert_shift_scope
get_shift shift_id actor = do
  shift ← required (← query (find_shift_by_id shift_id)) (entity_not_found "shift" shift_id)
  assert_shift_scope shift actor "shifts.view (own shift only)"
  pure shift
