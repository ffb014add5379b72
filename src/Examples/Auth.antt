-- ===== src/Examples/Auth.antt =====
-- The theorems on authentication and presence, on the employees of `Examples`.
use smart_table.Prelude.{
  ◌+◌, ◌*◌, ◌-◌, ◌≡◌, ◌≢◌, refl, true, false, arith, none, some, List, [], ◌∷◌, if◌then◌else◌, ◌==◌,
  first,
}
use smart_table.Domain.{ok, role_eq, includes}
use smart_table.Effects.{◌>>=◌}
use smart_table.Auth.Pin.{
  trusted_to, Attempt, AuthState, account_locked, seconds, cooldown_minutes, get_lock_remaining_ms,
  pin_login, pin_logins,
}
use smart_table.Auth.Pin.Lockout.{pin_login-locks}
use smart_table.Auth.Permissions.{
  menu_view, audit_view, baseline_permissions, RolePermission, is_allowed, can_activate,
}
use smart_table.Auth.Permissions.Guard.{can_activate-restricts}
use smart_table.Realtime.Presence.{PresenceRegistry}
use smart_table.Realtime.Presence.Agreement.{IsAgreeing}
use smart_table.Examples.{open_house, boss}

-- Employee 9 has mistyped four times, after a lockout an hour ago.
abbrev door : AuthState
door = record {
  lockouts = λ e.
      if e == 9
      then some (record { consecutive_failures = 4; lockout_episodes = 1; locked_until = some 500 })
      else none;
  audit_log = [];
  logins = [];
}

abbrev wrong_pin : Attempt
wrong_pin = record {
  employee_id = 9;
  checked_at = 4_000_000;
  now = 4_000_200;
  logged_in_at = 4_000_200;
  device = trusted_to 9;
  pin_matches = false;
}

abbrev right_pin : Attempt
right_pin = record wrong_pin { checked_at = 4_299_000; pin_matches = true }

-- What happens in between: employee 8 logs in, and employee 9 tries again.
abbrev meanwhile : List Attempt
meanwhile =
    record wrong_pin {
      employee_id = 8;
      checked_at = 4_100_000;
      device = trusted_to 8;
      pin_matches = true;
    }
    ∷ record wrong_pin { checked_at = 4_200_000 }
    ∷ []

not_locked : get_lock_remaining_ms 9 4_000_000 door.lockouts ≡ 0
unfolding get_lock_remaining_ms
not_locked = refl

pin_login-locks_example :
    pin_login right_pin (pin_logins meanwhile (pin_login wrong_pin door).1) ≡ (
      account_locked (seconds (4_000_200 + cooldown_minutes 1 * 60_000 - 4_299_000)),
      pin_logins meanwhile (pin_login wrong_pin door).1,
    )
pin_login-locks_example =
    pin_login-locks wrong_pin right_pin meanwhile door refl not_locked refl refl refl
      (unfold cooldown_minutes in omega arith, (unfold cooldown_minutes in omega arith, tt))
      (unfold cooldown_minutes in omega arith)

abbrev overrides : List RolePermission
overrides = record { role = boss.role; permission_key = "audit.view"; allowed = false } ∷ []

may_see_menu : (can_activate overrides (some menu_view) (some boss) open_house).0 ≡ ok true
unfolding can_activate is_allowed baseline_permissions first ◌>>=◌
may_see_menu = refl

can_activate-restricts_example :
    (includes role_eq (baseline_permissions menu_view) boss.role ≡ true)
    × ((can_activate [] (some menu_view) (some boss) open_house).0 ≡ ok true)
can_activate-restricts_example =
    can_activate-restricts overrides menu_view boss open_house may_see_menu

revoked : (can_activate overrides (some audit_view) (some boss) open_house).0 ≢ ok true
unfolding can_activate is_allowed baseline_permissions first ◌>>=◌
revoked e = cc

-- Employee 9 is online with the sockets 100 and 101.
abbrev lobby : PresenceRegistry
lobby = record {
  socket_ids_by_employee = λ e. if e == 9 then some (100 ∷ 101 ∷ []) else none;
  employee_id_by_socket = λ s. if s == 100 then some 9 else if s == 101 then some 9 else none;
}

lobby-IsAgreeing : IsAgreeing lobby
lobby-IsAgreeing = record { owned = λ e s. ground arith; inhabited = λ e. ground arith }
