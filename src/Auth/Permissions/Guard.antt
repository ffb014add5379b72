-- ===== src/Auth/Permissions/Guard.antt =====
-- That the database can only restrict the baseline, and that the baseline agrees with the rules of
-- the order lifecycle.
use smart_table.Prelude.{◌≡◌, ◌≢◌, refl, true, ◌++◌, first, some, List, [], ◌∷◌, arith}
use smart_table.Domain.{EmployeeRole, role_eq, includes, ok, err, insufficient_permission}
use smart_table.Effects.{World, ◌>>=◌}
use smart_table.Orders.Machine.{OrderAction, accept, advance, serve, cancel, transition_rules}
use smart_table.Orders.Service.{OrderActor}
use smart_table.Auth.Permissions.{
  PermissionKey, orders_accept, orders_advance, orders_serve, orders_cancel, baseline_permissions,
  RolePermission, is_allowed, key_text, denied_entry, can_activate,
}

-- Whatever the table of permissions holds: an employee who passes a guarded route has a role of
-- the baseline, and would pass with an empty table too.
pub can_activate-restricts :
    (rows : List RolePermission) (required : PermissionKey) (employee : OrderActor) (w : World)
    → (can_activate rows (some required) (some employee) w).0 ≡ ok true
    → (includes role_eq (baseline_permissions required) employee.role ≡ true)
      × ((can_activate [] (some required) (some employee) w).0 ≡ ok true)
unfolding can_activate is_allowed first ◌>>=◌
can_activate-restricts rows required employee w h = ground arith

-- A denial of an employee throws, appends one entry to the audit trail, which names the employee
-- and the permission, and changes nothing else.
pub can_activate-denied :
    (rows : List RolePermission) (required : PermissionKey) (employee : OrderActor) (w : World)
    → (can_activate rows (some required) (some employee) w).0 ≢ ok true
    → can_activate rows (some required) (some employee) w ≡ (
      err (insufficient_permission (key_text required)),
      record w { audit_log = w.audit_log ++ denied_entry required employee ∷ [] },
    )
unfolding can_activate ◌>>=◌
can_activate-denied rows required employee w h = ground arith

-- The permission of the route of an action.
abbrev pub permission_of : OrderAction → PermissionKey
permission_of accept = orders_accept
permission_of advance = orders_advance
permission_of serve = orders_serve
permission_of cancel = orders_cancel

-- The roles that the guard lets through to an action on an order are those that the rule of the
-- action lists.
pub baseline_permissions-transition_rules :
    (action : OrderAction) (role : EmployeeRole)
    → includes role_eq (baseline_permissions (permission_of action)) role
      ≡ includes role_eq (transition_rules action).roles role
unfolding baseline_permissions transition_rules
baseline_permissions-transition_rules accept role = refl
baseline_permissions-transition_rules advance role = refl
baseline_permissions-transition_rules serve role = refl
baseline_permissions-transition_rules cancel role = refl
