-- ===== src/Effects.antt =====
-- What a service does besides its tables: it appends to the audit trail
-- (apps/api/src/modules/audit/audit.service.ts) and emits on the event bus
-- (apps/api/src/common/events/domain-events.service.ts). A service method is an action on the
-- world of the three, and may throw; what it wrote before it throws stays written.
pub mod Keeps
use smart_table.Prelude.{
  if◌then◌else◌, ℕ, Bool, true, false, String, Option, none, some, List, [], ◌∷◌, ◌++◌,
}
use smart_table.Domain.{TableStatus, OrderStatus, DomainException, internal_error, Result, ok, err}
use smart_table.Database.{NotificationRow, OrderRow, Db, Tx, transaction}

-- The values in the objects that the audit entries hold as JSON.
pub data AuditValue : Type 0 where
  id_value : ℕ → AuditValue
  optional_id : Option ℕ → AuditValue
  id_list : List ℕ → AuditValue
  amount : ℕ → AuditValue
  -- `a - b`, which may be negative
  difference : ℕ → ℕ → AuditValue
  flag : Bool → AuditValue
  text : String → AuditValue
  optional_text : Option String → AuditValue
  status_value : OrderStatus → AuditValue

pub record AuditEntry : Type 0 where
  pub actor_employee_id : Option ℕ
  pub entity_type : String
  pub entity_id : ℕ
  pub action : String
  pub old_value : List (String × AuditValue)
  pub new_value : List (String × AuditValue)

-- The order as the staff and the customer see it: the columns of the row, and the items.
pub record OrderItemDto : Type 0 where
  pub id : ℕ
  pub product_id : Option ℕ
  pub name : String
  pub category : String
  pub unit_price_minor : ℕ
  pub quantity : ℕ
  pub notes : Option String

-- The item without its price.
pub record KitchenOrderItemDto : Type 0 where
  pub id : ℕ
  pub product_id : Option ℕ
  pub name : String
  pub category : String
  pub quantity : ℕ
  pub notes : Option String

-- `OrderDto | KitchenOrderDto`
pub data OrderView : Type 0 where
  order_dto : OrderRow → List OrderItemDto → OrderView
  kitchen_order_dto : OrderRow → List KitchenOrderItemDto → OrderView

pub data DomainEvent : Type 0 where
  order_created : OrderView → DomainEvent
  order_accepted : OrderView → DomainEvent
  order_status_changed : ℕ → OrderStatus → OrderStatus → DomainEvent
  table_status_changed : ℕ → TableStatus → TableStatus → DomainEvent
  product_availability_changed : ℕ → Bool → DomainEvent
  invitation_accepted : ℕ → ℕ → DomainEvent
  notification_created : NotificationRow → DomainEvent
  backup_failed : ℕ → DomainEvent
  restaurant_profile_changed : List (String × AuditValue) → DomainEvent

pub record World : Type 0 where
  pub db : Db
  pub audit_log : List AuditEntry
  pub emitted : List DomainEvent

abbrev pub Action {ℓ} : Type ℓ → Type ℓ
Action A = World → Result A × World

abbrev pub continue {ℓ κ} : {A : Type ℓ} {B : Type κ} → Result A → (A → Action B) → Action B
continue (ok a) f w = f a w
continue (err e) f w = (err e, w)

unfoldable pub pure {ℓ} : {A : Type ℓ} → A → Action A
pure a w = (ok a, w)

unfoldable pub throw {ℓ} : {A : Type ℓ} → DomainException → Action A
throw e w = (err e, w)

unfoldable pub throw_if : Bool → DomainException → Action (Unit {0})
throw_if b e w = (if b then err e else ok tt, w)

-- A read of the tables, which has no effect.
unfoldable pub query {ℓ} : {A : Type ℓ} → (Db → A) → Action A
query f w = (ok (f w.db), w)

abbrev or_throw {ℓ} : {A : Type ℓ} → DomainException → Option A → Result A
or_throw e none = err e
or_throw e (some a) = ok a

-- `row ?? throw`
unfoldable pub required {ℓ} : {A : Type ℓ} → Option A → DomainException → Action A
required o e w = (or_throw e o, w)

-- Awaiting a transaction: its error is rethrown, as one that is no domain exception.
unfoldable pub run_transaction : {A : Type 0} → Tx A → Action A
unfolding transaction
run_transaction body w =
    let (r, db') = transaction body w.db in (or_throw internal_error r, record w { db = db' })

-- The insert into `audit_log`. Its foreign key to the acting employee cannot refuse the entry of a
-- request: the actor is the employee of a verified access token or of a trusted device, and no code
-- deletes an employee.
unfoldable pub append : AuditEntry → Action (Unit {0})
append entry w = (ok tt, record w { audit_log = w.audit_log ++ entry ∷ [] })

unfoldable pub emit : DomainEvent → Action (Unit {0})
emit event w = (ok tt, record w { emitted = w.emitted ++ event ∷ [] })

-- Opening this opens the actions above too.
infixl 5 ◌>>=◌ ◌>>◌
unfoldable pub ◌>>=◌ {ℓ κ} : {A : Type ℓ} {B : Type κ} → Action A → (A → Action B) → Action B
unfolding pure throw throw_if query required run_transaction append emit
◌>>=◌ m f w = let (r, w') = m w in continue r f w'

abbrev pub ◌>>◌ {ℓ κ} : {A : Type ℓ} {B : Type κ} → Action A → Action B → Action B
m >> k = m >>= λ _. k
