-- ===== src/Examples.antt =====
-- A small restaurant on which the theorems are applied: two tables with a visit, one that waits for
-- cleaning and one that is free.
pub mod Floor
pub mod Money
pub mod Orders
pub mod Auth
pub mod Reports
pub mod Staffing
use mathlib.Core.Option
use smart_table.Prelude.{ℕ, ◌+◌, true, false, String, Option, none, some, List, [], ◌∷◌}
use smart_table.Domain.{
  EmployeeRole, owner, manager, cashier, waiter, kitchen, available, occupied, needs_cleaning,
  open_group, closed_group, dine_in, qr, waiter_manual, pending, served, open_shift,
}
use smart_table.Database.{
  EmployeeRow, Product, Hall, TableRow, BillGroupRow, OrderRow, OrderItemRow, ShiftRow,
  RollupBucket, Db, Env,
}
use smart_table.Effects.{World}
use smart_table.Orders.Service.{OrderActor}
use smart_table.Orders.Repository.{CreateOrderInput, OrderItemWriteInput}
use smart_table.Billing.Payment.{RecordPaymentInput}
use smart_table.System.{Request}

abbrev pub noon : Env
noon = record {
  now = 100;
  uuid = λ k. 1000 + k;
  random_token = λ k. 500 + k;
  rollup_bucket_for = λ t. record { date = "2026-01-01"; hour = 12 };
}

abbrev pub table_at : ℕ → ℕ → TableRow
table_at id token = record {
  id = id;
  hall_id = 1;
  label = "T";
  qr_token = token;
  status = occupied;
  is_active = true;
  updated_at = 0;
}

abbrev pub dirty_table : TableRow
dirty_table = record (table_at 3 13) { status = needs_cleaning }

abbrev pub free_table : TableRow
free_table = record (table_at 4 14) { status = available }

abbrev pub visit : ℕ → ℕ → BillGroupRow
visit id table_id = record {
  id = id;
  table_id = table_id;
  status = open_group;
  opened_at = 5;
  closed_at = none;
}

abbrev pub served_order : OrderRow
served_order = record {
  id = 31;
  table_bill_group_id = 21;
  table_id = 1;
  channel = dine_in;
  is_addon = false;
  status = served;
  source = qr;
  created_by_employee_id = none;
  accepted_by_employee_id = some 7;
  served_by_employee_id = some 8;
  cancelled_by_employee_id = none;
  cancellation_reason = none;
  created_at = 5;
  updated_at = 9;
}

abbrev pub pending_order : OrderRow
pending_order = record served_order {
  id = 32;
  table_bill_group_id = 22;
  table_id = 2;
  status = pending;
  accepted_by_employee_id = none;
  served_by_employee_id = none;
}

abbrev pub coffee : Product
coffee = record {
  id = 61;
  category_id = none;
  name_ar = "coffee";
  name_fr = "café";
  price_minor = 250;
  image_path = none;
  is_available = true;
  sort_order = 0;
  updated_at = 0;
}

abbrev pub item_of : ℕ → ℕ → OrderItemRow
item_of id order_id = record {
  id = id;
  order_id = order_id;
  product_id = some 61;
  name_snapshot = "coffee";
  category_snapshot = "";
  unit_price_minor_snapshot = 250;
  quantity = 2;
  notes = none;
}

abbrev pub morning_shift : ShiftRow
morning_shift = record {
  id = 51;
  employee_id = 9;
  opening_cash_minor = 1_000;
  closing_cash_minor = none;
  expected_cash_minor = none;
  status = open_shift;
  opened_at = 1;
  closed_at = none;
}

abbrev pub cafe : Db
cafe = record {
  employees =
      record {
        id = 8;
        name = "Nour";
        role = waiter;
        email = none;
        password_hash = some 71;
        pin_hash = some 72;
        is_active = true;
        last_login_at = none;
        created_at = 1;
      }
      ∷ record {
        id = 7;
        name = "Amal";
        role = manager;
        email = none;
        password_hash = some 73;
        pin_hash = some 74;
        is_active = true;
        last_login_at = none;
        created_at = 1;
      }
      ∷ record {
        id = 6;
        name = "Karim";
        role = kitchen;
        email = none;
        password_hash = none;
        pin_hash = none;
        is_active = true;
        last_login_at = none;
        created_at = 1;
      }
      ∷ record {
        id = 9;
        name = "Sami";
        role = cashier;
        email = none;
        password_hash = some 75;
        pin_hash = some 76;
        is_active = true;
        last_login_at = none;
        created_at = 1;
      }
      ∷ [];
  invitations = [];
  refresh_tokens = [];
  halls = record { id = 1; name = "main"; sort_order = 0; is_active = true } ∷ [];
  categories = [];
  products = coffee ∷ [];
  tables = table_at 1 11 ∷ table_at 2 12 ∷ dirty_table ∷ free_table ∷ [];
  table_bill_groups = visit 21 1 ∷ visit 22 2 ∷ [];
  orders = served_order ∷ pending_order ∷ [];
  order_items = item_of 41 31 ∷ item_of 42 32 ∷ [];
  order_status_events = [];
  payments = [];
  shifts = morning_shift ∷ [];
  sales_rollup_daily = [];
  sales_rollup_hourly = [];
  product_sales_rollup = [];
  tax_rate = some 1_000;
}

abbrev pub open_house : World
open_house = record { db = cafe; audit_log = []; emitted = [] }

abbrev pub boss : OrderActor
boss = record { id = 7; role = manager }

abbrev pub till : OrderActor
till = record { id = 9; role = cashier }

abbrev pub pay_first : RecordPaymentInput
pay_first = record { table_bill_group_id = 21; collected_by_employee_id = 9 }

abbrev pub two_coffees : List OrderItemWriteInput
two_coffees = record { product_id = 61; quantity = 2; notes = none } ∷ []

abbrev pub coffee_order : CreateOrderInput
coffee_order = record {
  table_id = 4;
  bill_group_id = none;
  source = waiter_manual;
  created_by_employee_id = some 8;
  items = two_coffees;
}

-- An order at the free table, an order that is accepted, and a visit that is paid.
abbrev pub busy_hour : List (Env × Request)
busy_hour =
    (noon, Request.staff_order 4 two_coffees boss)
    ∷ (record noon { uuid = λ k. 2000 + k }, Request.accept 32 boss)
    ∷ (record noon { uuid = λ k. 3000 + k }, Request.pay 21 till)
    ∷ (record noon { uuid = λ k. 4000 + k }, Request.clean 3)
    ∷ []
