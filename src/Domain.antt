-- ===== src/Domain.antt =====
-- The enumerations of packages/shared-types/src/enums.ts, the exceptions of
-- apps/api/src/common/exceptions/domain.exception.ts that the modelled services throw, and the
-- result of a service call. Two values of an enumeration are compared by the number of their place.
use smart_table.Prelude.{ℕ, Bool, true, false, String, Option, List, [], ◌∷◌, ◌==◌, ◌||◌}

pub data EmployeeRole : Type 0 where
  owner manager cashier waiter kitchen : EmployeeRole

pub data TableStatus : Type 0 where
  available occupied bill_requested needs_cleaning : TableStatus

pub data TableBillGroupStatus : Type 0 where
  open_group closed_group : TableBillGroupStatus

pub data OrderChannel : Type 0 where
  dine_in delivery : OrderChannel

pub data OrderSource : Type 0 where
  qr waiter_manual : OrderSource

pub data OrderStatus : Type 0 where
  pending accepted preparing ready served paid completed cancelled : OrderStatus

pub data PaymentMethod : Type 0 where
  cash : PaymentMethod

pub data ShiftStatus : Type 0 where
  open_shift closed_shift : ShiftStatus

pub data InvitationStatus : Type 0 where
  invitation_pending invitation_accepted_once invitation_revoked invitation_expired :
      InvitationStatus

abbrev pub invitation_status_number : InvitationStatus → ℕ
invitation_status_number invitation_pending = 0
invitation_status_number invitation_accepted_once = 1
invitation_status_number invitation_revoked = 2
invitation_status_number invitation_expired = 3

abbrev pub invitation_status_eq : InvitationStatus → InvitationStatus → Bool
invitation_status_eq a b = invitation_status_number a == invitation_status_number b

abbrev pub role_number : EmployeeRole → ℕ
role_number owner = 0
role_number manager = 1
role_number cashier = 2
role_number waiter = 3
role_number kitchen = 4

abbrev pub role_eq : EmployeeRole → EmployeeRole → Bool
role_eq a b = role_number a == role_number b

abbrev pub table_status_number : TableStatus → ℕ
table_status_number available = 0
table_status_number occupied = 1
table_status_number bill_requested = 2
table_status_number needs_cleaning = 3

abbrev pub table_status_eq : TableStatus → TableStatus → Bool
table_status_eq a b = table_status_number a == table_status_number b

abbrev pub order_status_number : OrderStatus → ℕ
order_status_number pending = 0
order_status_number accepted = 1
order_status_number preparing = 2
order_status_number ready = 3
order_status_number served = 4
order_status_number paid = 5
order_status_number completed = 6
order_status_number cancelled = 7

abbrev pub order_status_eq : OrderStatus → OrderStatus → Bool
order_status_eq a b = order_status_number a == order_status_number b

abbrev pub is_open : TableBillGroupStatus → Bool
is_open open_group = true
is_open closed_group = false

abbrev pub shift_is_open : ShiftStatus → Bool
shift_is_open open_shift = true
shift_is_open closed_shift = false

-- `list.includes(x)`, over the test for equality.
abbrev pub includes {ℓ} : {A : Type ℓ} → (A → A → Bool) → List A → A → Bool
includes eq [] x = false
includes eq (y ∷ ys) x = eq y x || includes eq ys x

-- What a failing service call throws.
pub data DomainException : Type 0 where
  entity_not_found : String → ℕ → DomainException
  products_not_found : List ℕ → DomainException
  invalid_order_transition : ℕ → OrderStatus → String → DomainException
  -- InvalidOrderTransitionException with the text 'bill-group-closed' in place of a status
  bill_group_closed : ℕ → DomainException
  invalid_table_status_transition : ℕ → TableStatus → String → DomainException
  insufficient_permission : String → DomainException
  product_unavailable : List ℕ → DomainException
  payment_not_ready : ℕ → List ℕ → DomainException
  payment_already_recorded : ℕ → Option ℕ → DomainException
  shift_already_open : ℕ → ℕ → DomainException
  shift_already_closed : ℕ → DomainException
  table_has_active_order : ℕ → DomainException
  validation_failed : String → DomainException
  already_accepted : ℕ → DomainException
  expired : ℕ → DomainException
  -- an `Error` of the driver or of an integrity check, which becomes the 500 answer
  internal_error : DomainException

pub data Result {ℓ} (A : Type ℓ) : Type ℓ where
  ok : A → Result A
  err : DomainException → Result A
