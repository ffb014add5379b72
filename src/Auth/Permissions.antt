-- ===== src/Auth/Permissions.antt =====
-- baseline-permissions.ts and permissions.guard.ts, with the keys of
-- packages/shared-types/src/permissions.ts. The row that the guard looks up is the first that fits.
pub mod Guard
use smart_table.Prelude.{
  ℕ, Bool, true, false, not, ◌&&◌, String, str_eq, Option, none, some, List, [], ◌∷◌, if◌then◌else◌,
  first,
}
use smart_table.Domain.{
  EmployeeRole, owner, manager, cashier, waiter, kitchen, role_eq, includes,
  insufficient_permission,
}
use smart_table.Effects.{AuditValue, text, AuditEntry, Action, ◌>>=◌, ◌>>◌, pure, throw, append}
use smart_table.Orders.Service.{OrderActor}

pub data PermissionKey : Type 0 where
  staff_manage staff_view_roster menu_view menu_manage tables_view tables_manage
        tables_mark_cleaned :
      PermissionKey
  orders_view orders_create orders_accept orders_advance orders_serve orders_cancel : PermissionKey
  billing_view payments_process shifts_manage shifts_view analytics_view audit_view : PermissionKey
  backup_manage config_view config_manage : PermissionKey

abbrev pub key_text : PermissionKey → String
key_text staff_manage = "staff.manage"
key_text staff_view_roster = "staff.view_roster"
key_text menu_view = "menu.view"
key_text menu_manage = "menu.manage"
key_text tables_view = "tables.view"
key_text tables_manage = "tables.manage"
key_text tables_mark_cleaned = "tables.mark_cleaned"
key_text orders_view = "orders.view"
key_text orders_create = "orders.create"
key_text orders_accept = "orders.accept"
key_text orders_advance = "orders.advance"
key_text orders_serve = "orders.serve"
key_text orders_cancel = "orders.cancel"
key_text billing_view = "billing.view"
key_text payments_process = "payments.process"
key_text shifts_manage = "shifts.manage"
key_text shifts_view = "shifts.view"
key_text analytics_view = "analytics.view"
key_text audit_view = "audit.view"
key_text backup_manage = "backup.manage"
key_text config_view = "config.view"
key_text config_manage = "config.manage"

abbrev supervisors : List EmployeeRole
supervisors = owner ∷ manager ∷ []

abbrev everyone : List EmployeeRole
everyone = owner ∷ manager ∷ cashier ∷ waiter ∷ kitchen ∷ []

unfoldable pub baseline_permissions : PermissionKey → List EmployeeRole
baseline_permissions staff_manage = owner ∷ []
baseline_permissions staff_view_roster = supervisors
baseline_permissions menu_manage = supervisors
baseline_permissions menu_view = everyone
baseline_permissions tables_view = owner ∷ manager ∷ cashier ∷ waiter ∷ []
baseline_permissions tables_manage = supervisors
baseline_permissions tables_mark_cleaned = owner ∷ manager ∷ waiter ∷ []
baseline_permissions orders_view = everyone
baseline_permissions orders_create = owner ∷ manager ∷ waiter ∷ []
baseline_permissions orders_accept = owner ∷ manager ∷ kitchen ∷ []
baseline_permissions orders_advance = owner ∷ manager ∷ kitchen ∷ []
baseline_permissions orders_serve = owner ∷ manager ∷ waiter ∷ []
baseline_permissions orders_cancel = owner ∷ manager ∷ waiter ∷ []
baseline_permissions billing_view = owner ∷ manager ∷ cashier ∷ []
baseline_permissions payments_process = owner ∷ manager ∷ cashier ∷ []
baseline_permissions shifts_manage = owner ∷ manager ∷ cashier ∷ []
baseline_permissions shifts_view = owner ∷ manager ∷ cashier ∷ []
baseline_permissions analytics_view = supervisors
baseline_permissions audit_view = supervisors
baseline_permissions backup_manage = supervisors
baseline_permissions config_view = everyone
baseline_permissions config_manage = owner ∷ []

pub record RolePermission : Type 0 where
  pub role : EmployeeRole
  pub permission_key : String
  pub allowed : Bool

abbrev pub role_text : EmployeeRole → String
role_text owner = "owner"
role_text manager = "manager"
role_text cashier = "cashier"
role_text waiter = "waiter"
role_text kitchen = "kitchen"

-- The row for the role and the key, if there is one, may take the permission away.
abbrev pub is_revoked : Option RolePermission → Bool
is_revoked none = false
is_revoked (some row) = not row.allowed

unfoldable pub is_allowed : List RolePermission → PermissionKey → EmployeeRole → Bool
is_allowed rows required role =
    includes role_eq (baseline_permissions required) role
    && not (
        is_revoked
          (first (λ r. role_eq r.role role && str_eq r.permission_key (key_text required)) rows))

abbrev pub denied_entry : PermissionKey → OrderActor → AuditEntry
denied_entry required employee = record {
  actor_employee_id = some employee.id;
  entity_type = "employee";
  entity_id = employee.id;
  action = "permission_denied";
  old_value = [];
  new_value =
      ("permission", text (key_text required)) ∷ ("role", text (role_text employee.role)) ∷ [];
}

-- The key that the route asks for, and the employee that the guard before has attached.
unfoldable pub can_activate :
    List RolePermission → Option PermissionKey → Option OrderActor → Action Bool
can_activate rows none employee = pure true
can_activate rows (some required) none = throw (insufficient_permission (key_text required))
can_activate rows (some required) (some employee) =
    if is_allowed rows required employee.role
    then pure true
    else (append (denied_entry required employee)
        >> throw (insufficient_permission (key_text required)))
