-- ===== src/Database.antt =====
-- The tables of apps/api/src/database/schema that the modelled code reads and writes. A row is a
-- record with the columns that the code uses; a table is the list of its rows in the order of
-- insertion. The ids (UUID v7 texts, which the code compares and never looks into) are numbers,
-- and so are points in time (epoch milliseconds) and amounts (minor units).
use smart_table.Prelude.{
  ℕ, Bool, true, String, Option, none, some, List, [], ◌∷◌, ◌++◌, ◌==◌, first, if◌then◌else◌,
  is_some,
}
use smart_table.Domain.{
  EmployeeRole, InvitationStatus, TableStatus, TableBillGroupStatus, OrderChannel, OrderSource,
  OrderStatus, PaymentMethod, ShiftStatus,
}

-- Text columns for the names, notes and dates; `none` is SQL's NULL.
pub record Category : Type 0 where
  pub id : ℕ
  pub name_ar : String
  pub name_fr : String
  pub sort_order : ℕ
  pub is_active : Bool

pub record Product : Type 0 where
  pub id : ℕ
  pub category_id : Option ℕ
  pub name_ar : String
  pub name_fr : String
  pub price_minor : ℕ
  pub image_path : Option ℕ
  pub is_available : Bool
  pub sort_order : ℕ
  pub updated_at : ℕ

pub record Hall : Type 0 where
  pub id : ℕ
  pub name : String
  pub sort_order : ℕ
  pub is_active : Bool

pub record TableRow : Type 0 where
  pub id : ℕ
  pub hall_id : ℕ
  pub label : String
  pub qr_token : ℕ
  pub status : TableStatus
  pub is_active : Bool
  pub updated_at : ℕ

pub record BillGroupRow : Type 0 where
  pub id : ℕ
  pub table_id : ℕ
  pub status : TableBillGroupStatus
  pub opened_at : ℕ
  pub closed_at : Option ℕ

pub record OrderRow : Type 0 where
  pub id : ℕ
  pub table_bill_group_id : ℕ
  pub table_id : ℕ
  pub channel : OrderChannel
  pub is_addon : Bool
  pub status : OrderStatus
  pub source : OrderSource
  pub created_by_employee_id : Option ℕ
  pub accepted_by_employee_id : Option ℕ
  pub served_by_employee_id : Option ℕ
  pub cancelled_by_employee_id : Option ℕ
  pub cancellation_reason : Option String
  pub created_at : ℕ
  pub updated_at : ℕ

pub record OrderItemRow : Type 0 where
  pub id : ℕ
  pub order_id : ℕ
  pub product_id : Option ℕ
  pub name_snapshot : String
  pub category_snapshot : String
  pub unit_price_minor_snapshot : ℕ
  pub quantity : ℕ
  pub notes : Option String

pub record OrderStatusEventRow : Type 0 where
  pub order_id : ℕ
  pub from_status : Option OrderStatus
  pub to_status : OrderStatus
  pub actor_employee_id : Option ℕ
  pub created_at : ℕ

pub record PaymentRow : Type 0 where
  pub id : ℕ
  pub table_bill_group_id : ℕ
  pub amount_minor : ℕ
  pub method : PaymentMethod
  pub collected_by_employee_id : ℕ
  pub shift_id : Option ℕ
  pub created_at : ℕ

pub record ShiftRow : Type 0 where
  pub id : ℕ
  pub employee_id : ℕ
  pub opening_cash_minor : ℕ
  pub closing_cash_minor : Option ℕ
  pub expected_cash_minor : Option ℕ
  pub status : ShiftStatus
  pub opened_at : ℕ
  pub closed_at : Option ℕ

-- The types of a notification, and the ids that its payload refers to.
pub data NotificationType : Type 0 where
  note_order_created note_order_ready note_invitation_accepted note_bill_requested
        note_backup_failed :
      NotificationType

pub data NotificationPayload : Type 0 where
  order_payload : ℕ → ℕ → NotificationPayload
  invitation_payload : ℕ → ℕ → NotificationPayload
  backup_payload : ℕ → NotificationPayload

pub record NotificationRow : Type 0 where
  pub id : ℕ
  pub recipient_role : Option EmployeeRole
  pub recipient_employee_id : Option ℕ
  pub kind : NotificationType
  pub payload : NotificationPayload
  pub read_at : Option ℕ
  pub created_at : ℕ

-- A person on the staff; the two hashes are there once an invitation is accepted.
pub record EmployeeRow : Type 0 where
  pub id : ℕ
  pub name : String
  pub role : EmployeeRole
  pub email : Option String
  pub password_hash : Option ℕ
  pub pin_hash : Option ℕ
  pub is_active : Bool
  pub last_login_at : Option ℕ
  pub created_at : ℕ

pub record InvitationRow : Type 0 where
  pub id : ℕ
  pub employee_id : ℕ
  pub token_hash : ℕ
  pub channel : String
  pub status : InvitationStatus
  pub expires_at : ℕ
  pub accepted_at : Option ℕ
  pub created_at : ℕ

-- A device that stays logged in.
pub record RefreshTokenRow : Type 0 where
  pub employee_id : ℕ
  pub device_label : String
  pub token_hash : ℕ

pub record SalesRollupDaily : Type 0 where
  pub date : String
  pub total_revenue_minor : ℕ
  pub dine_in_revenue_minor : ℕ
  pub delivery_revenue_minor : ℕ
  pub total_orders : ℕ
  pub cancelled_orders : ℕ
  pub updated_at : ℕ

pub record SalesRollupHourly : Type 0 where
  pub date : String
  pub hour : ℕ
  pub revenue_minor : ℕ
  pub orders_count : ℕ

pub record ProductSalesRollup : Type 0 where
  pub id : ℕ
  pub date : String
  pub product_name_snapshot : String
  pub category_snapshot : String
  pub quantity_sold : ℕ
  pub revenue_minor : ℕ

pub record Db : Type 0 where
  pub employees : List EmployeeRow
  pub invitations : List InvitationRow
  pub refresh_tokens : List RefreshTokenRow
  pub halls : List Hall
  pub categories : List Category
  pub products : List Product
  pub tables : List TableRow
  pub table_bill_groups : List BillGroupRow
  pub orders : List OrderRow
  pub order_items : List OrderItemRow
  pub order_status_events : List OrderStatusEventRow
  pub payments : List PaymentRow
  pub shifts : List ShiftRow
  pub sales_rollup_daily : List SalesRollupDaily
  pub sales_rollup_hourly : List SalesRollupHourly
  pub product_sales_rollup : List ProductSalesRollup
  -- `tax_rate_percent` of the one row of `restaurant_profile`, if there is one
  pub tax_rate : Option ℕ

-- The server-local calendar day and hour of a point in time.
pub record RollupBucket : Type 0 where
  pub date : String
  pub hour : ℕ

-- What a request takes from outside the program: one reading of the clock, the ids that the UUID
-- library and the tokens that the random generator give out one after the other, and the local
-- calendar of the JavaScript runtime.
pub record Env : Type 0 where
  pub now : ℕ
  pub uuid : ℕ → ℕ
  pub random_token : ℕ → ℕ
  pub rollup_bucket_for : ℕ → RollupBucket

-- An insert under a primary key: a second row with the key is refused.
unfoldable pub insert_unique {ℓ} : {R : Type ℓ} → (R → ℕ) → R → List R → Option (List R)
insert_unique key r rows =
    if is_some (first (λ s. key s == key r) rows) then none else some (rows ++ r ∷ [])

-- The foreign keys to `employees`: one that may be NULL, and one that may not.
unfoldable pub has_employee : ℕ → List EmployeeRow → Bool
has_employee id employees = is_some (first (λ (e : EmployeeRow). e.id == id) employees)

unfoldable pub has_no_or_employee : Option ℕ → List EmployeeRow → Bool
unfolding has_employee
has_no_or_employee none employees = true
has_no_or_employee (some id) employees = has_employee id employees

-- A transaction gives its result with the tables that it commits; `none` is an error that it
-- throws, on which the driver rolls everything back.
abbrev pub Tx : Type 0 → Type 0
Tx A = Db → Option (A × Db)

-- What the caller of a transaction sees: the result, and the tables after it.
unfoldable pub transaction : {A : Type 0} → Tx A → Db → Option A × Db
transaction body db = elim (body db) [ none ↦ (none, db) | some (a, db') ↦ (some a, db') ]
