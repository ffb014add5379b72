-- ===== src/Employees.antt =====
-- apps/api/src/modules/employees: the accounts of the staff. The devices of an employee are left out;
-- the hash of a new PIN is an input.
pub mod Hiring
use mathlib.Core.Option
use smart_table.Prelude.{
  ℕ, ◌-◌, ◌*◌, Bool, true, false, String, Option, none, some, List, [], ◌∷◌, map, leb, ◌==◌,
  if◌then◌else◌, first, update, order_by, take, drop, length, or_else, same_flag,
}
use smart_table.Domain.{
  EmployeeRole, role_eq, owner, manager, cashier, waiter, kitchen, InvitationStatus,
  invitation_pending, entity_not_found,
}
use smart_table.Database.{EmployeeRow, Db, Env, Tx, insert_unique}
use smart_table.Effects.{
  Action, pure, query, required, run_transaction, append, ◌>>◌, AuditEntry, AuditValue, text, ◌>>=◌,
}
use smart_table.Invitations.{
  IssuedInvitation, InvitationSettings, create_for_employee, find_employee_identity, latest_status,
}

-- The row without its two hashes, and the status of the newest invitation.
pub record EmployeeDto : Type 0 where
  pub id : ℕ
  pub name : String
  pub role : EmployeeRole
  pub email : Option String
  pub is_active : Bool
  pub last_login_at : Option ℕ
  pub created_at : ℕ
  pub invitation_status : Option InvitationStatus

abbrev pub employee_dto : EmployeeRow → Option InvitationStatus → EmployeeDto
employee_dto e status = record {
  id = e.id;
  name = e.name;
  role = e.role;
  email = e.email;
  is_active = e.is_active;
  last_login_at = e.last_login_at;
  created_at = e.created_at;
  invitation_status = status;
}

-- A page of the roster, numbered from 1, and the number of all.
unfoldable pub list_employees : Env → ℕ → ℕ → Db → List EmployeeDto × ℕ
list_employees env page page_size db =
    let rows = take page_size (
      drop ((page - 1) * page_size)
        (order_by (λ a b. leb a.created_at b.created_at) db.employees)) in
    (map (λ e. employee_dto e (latest_status env e.id db)) rows, length db.employees)

pub record CreateEmployeeRequest : Type 0 where
  pub name : String
  pub role : EmployeeRole
  pub email : Option String

-- The id of the invitation is the request's first, that of the employee its second.
abbrev pub new_employee : Env → CreateEmployeeRequest → EmployeeRow
new_employee env input = record {
  id = env.uuid 1;
  name = input.name;
  role = input.role;
  email = input.email;
  password_hash = none;
  pin_hash = none;
  is_active = true;
  last_login_at = none;
  created_at = env.now;
}

unfoldable pub insert_employee : EmployeeRow → Tx (Unit {0})
insert_employee row db = elim (insert_unique (λ e. e.id) row db.employees) [
  | none ↦ none
  | some rows ↦ some (tt, record db { employees = rows })
]

abbrev pub role_text : EmployeeRole → String
role_text owner = "owner"
role_text manager = "manager"
role_text cashier = "cashier"
role_text waiter = "waiter"
role_text kitchen = "kitchen"

abbrev pub flag_text : Bool → String
flag_text b = if b then "true" else "false"

abbrev pub employee_entry :
    ℕ → ℕ → String → List (String × AuditValue) → List (String × AuditValue) → AuditEntry
employee_entry actor id action old_value new_value = record {
  actor_employee_id = some actor;
  entity_type = "employee";
  entity_id = id;
  action = action;
  old_value = old_value;
  new_value = new_value;
}

unfoldable pub create_employee :
    Env → InvitationSettings → CreateEmployeeRequest → ℕ → Action (EmployeeDto × IssuedInvitation)
create_employee env settings input actor = do
  let row = new_employee env input
  run_transaction (insert_employee row)
  append (
      employee_entry actor row.id "employee_created" []
        (("name", text row.name) ∷ ("role", text (role_text row.role)) ∷ []))
  issued ← create_for_employee env settings row.id (some actor) "link"
  pure (employee_dto row (some invitation_pending), issued)

pub record UpdateEmployeeRequest : Type 0 where
  pub role : Option EmployeeRole
  pub is_active : Option Bool

abbrev pub change_employee : UpdateEmployeeRequest → EmployeeRow → EmployeeRow
change_employee changes e = record e {
  role = or_else changes.role e.role;
  is_active = or_else changes.is_active e.is_active;
}

unfoldable pub update_employee_row : ℕ → (EmployeeRow → EmployeeRow) → Tx (Unit {0})
update_employee_row id change db =
    some (tt, record db { employees = update (λ e. e.id == id) change db.employees })

-- The entries for a role that is another one than before, and for an account that is switched on or off.
abbrev pub role_entries : ℕ → ℕ → EmployeeRole → Option EmployeeRole → List AuditEntry
role_entries actor id before none = []
role_entries actor id before (some after) =
    if role_eq after before
    then []
    else employee_entry actor id "role_changed" (("role", text (role_text before)) ∷ [])
        (("role", text (role_text after)) ∷ [])
      ∷ []

abbrev pub active_entries : ℕ → ℕ → Bool → Option Bool → List AuditEntry
active_entries actor id before none = []
active_entries actor id before (some after) =
    if same_flag after before
    then []
    else employee_entry actor id (if after then "employee_reactivated" else "employee_deactivated")
        (("isActive", text (flag_text before)) ∷ []) (("isActive", text (flag_text after)) ∷ [])
      ∷ []

unfoldable pub append_all : List AuditEntry → Action (Unit {0})
append_all [] = pure tt
append_all (entry ∷ entries) = append entry >> append_all entries

unfoldable pub update_employee : Env → ℕ → UpdateEmployeeRequest → ℕ → Action EmployeeDto
update_employee env id changes actor = do
  existing ← required (← query (find_employee_identity id)) (entity_not_found "employee" id)
  run_transaction (update_employee_row id (change_employee changes))
  append_all (role_entries actor id existing.role changes.role)
  append_all (active_entries actor id existing.is_active changes.is_active)
  updated ← required (← query (find_employee_identity id)) (entity_not_found "employee" id)
  status ← query (latest_status env id)
  pure (employee_dto updated status)

unfoldable pub reset_pin : ℕ → ℕ → ℕ → Action (Unit {0})
reset_pin id pin_hash actor = do
  existing ← required (← query (find_employee_identity id)) (entity_not_found "employee" id)
  run_transaction (update_employee_row id (λ e. record e { pin_hash = some pin_hash }))
  append (employee_entry actor id "pin_reset" [] [])
