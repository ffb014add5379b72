-- ===== src/Auth/Pin.antt =====
-- pin-lockout.service.ts, and `pinLogin` of auth.service.ts, which uses it, in two pieces around its
-- awaits. The check of the device token (tokens.service.ts) is not modelled, and the comparison of a
-- PIN with its hash is a library's: what they answer are fields of the attempt. Times are epoch
-- milliseconds.
pub mod Lockout
use smart_table.Prelude.{
  ℕ, zero, suc, ◌+◌, ◌*◌, ◌-◌, ◌/◌, Bool, not, String, Option, none, some, List, [], ◌∷◌, ◌++◌,
  ◌==◌, ltb, if◌then◌else◌, or_else,
}
use smart_table.Effects.{AuditValue, text, amount, AuditEntry}

abbrev pub pin_max_consecutive_failures : ℕ
pin_max_consecutive_failures = 5

-- `PIN_LOCKOUT_COOLDOWN_MINUTES`, at the smaller of the index and the last place.
unfoldable pub cooldown_minutes : ℕ → ℕ
cooldown_minutes zero = 1
cooldown_minutes (suc zero) = 5
cooldown_minutes (suc (suc n)) = 15

pub record LockState : Type 0 where
  pub consecutive_failures : ℕ
  pub lockout_episodes : ℕ
  pub locked_until : Option ℕ

-- The map `states`.
abbrev pub Lockouts : Type 0
Lockouts = ℕ → Option LockState

abbrev pub set_state : ℕ → Option LockState → Lockouts → Lockouts
set_state employee_id state states e = if e == employee_id then state else states e

abbrev pub remaining_of : Option LockState → ℕ → ℕ
remaining_of none now = 0
remaining_of (some s) now = or_else s.locked_until 0 - now

-- `Math.max(0, lockedUntil - now)`, which is the subtraction of ℕ.
unfoldable pub get_lock_remaining_ms : ℕ → ℕ → Lockouts → ℕ
get_lock_remaining_ms employee_id now states = remaining_of (states employee_id) now

abbrev pub no_failures : LockState
no_failures = record { consecutive_failures = 0; lockout_episodes = 0; locked_until = none }

-- The state after a failure, and the duration of the lock if it triggered one.
unfoldable pub fail_once : ℕ → LockState → Option ℕ × LockState
fail_once now s =
    let failures = s.consecutive_failures + 1 in
    let cooldown = cooldown_minutes s.lockout_episodes * 60_000 in
    if ltb failures pin_max_consecutive_failures
    then (none, record s { consecutive_failures = failures })
    else (
      some cooldown,
      record {
        consecutive_failures = 0;
        lockout_episodes = s.lockout_episodes + 1;
        locked_until = some (now + cooldown);
      },
    )

unfoldable pub record_failure : ℕ → ℕ → Lockouts → Option ℕ × Lockouts
record_failure employee_id now states =
    let (lock, s) = fail_once now (or_else (states employee_id) no_failures) in
    (lock, set_state employee_id (some s) states)

unfoldable pub record_success : ℕ → Lockouts → Lockouts
record_success employee_id states = set_state employee_id none states

-- What validateAndRenewDeviceTrust of tokens.service.ts does with the device token: it answers with
-- an employee, or throws with a message.
pub data DeviceTrust : Type 0 where
  trusted_to : ℕ → DeviceTrust
  untrusted : String → DeviceTrust

-- A login, with its three readings of the clock: at the check of the lock, at the failure that is
-- recorded, and at the login that is recorded. In between it awaits the check of the device token,
-- the row of the employee and the comparison with the hash, whose answers are the other two fields.
pub record Attempt : Type 0 where
  pub employee_id : ℕ
  pub checked_at : ℕ
  pub now : ℕ
  pub logged_in_at : ℕ
  pub device : DeviceTrust
  pub pin_matches : Bool

pub data PinOutcome : Type 0 where
  logged_in : PinOutcome
  -- the seconds until the next attempt
  account_locked : ℕ → PinOutcome
  unauthenticated : String → PinOutcome

-- What a login changes: the lockouts, the audit trail, and the last login of an employee.
pub record AuthState : Type 0 where
  pub lockouts : Lockouts
  pub audit_log : List AuditEntry
  pub logins : List (ℕ × ℕ)

abbrev pub login_entry : ℕ → String → List (String × AuditValue) → AuditEntry
login_entry employee_id action new_value = record {
  actor_employee_id = some employee_id;
  entity_type = "employee";
  entity_id = employee_id;
  action = action;
  old_value = [];
  new_value = new_value;
}

-- Math.ceil(ms / 1000)
unfoldable pub seconds : ℕ → ℕ
seconds ms = (ms + 999) / 1_000

unfoldable pub refuse_pin : Attempt → Option ℕ × Lockouts → AuthState → PinOutcome × AuthState
refuse_pin a (lock, lockouts) s =
    let failed = login_entry a.employee_id "login_failed" (("method", text "pin") ∷ []) in
    elim lock [
      | none ↦ (
        unauthenticated "Invalid PIN.",
        record s { lockouts = lockouts; audit_log = s.audit_log ++ failed ∷ [] },
      )
      | some ms ↦ (
        account_locked (seconds ms),
        record s {
          lockouts = lockouts;
          audit_log =
              s.audit_log
              ++ failed
                ∷ login_entry a.employee_id "account_locked"
                    (("lockedForSeconds", amount (ms / 1_000)) ∷ [])
                ∷ [];
        },
      )
    ]

-- pinLogin up to its first await: the refusal of a locked account.
unfoldable pub start_pin_login : Attempt → AuthState → Option PinOutcome
unfolding get_lock_remaining_ms
start_pin_login a s =
    let remaining = get_lock_remaining_ms a.employee_id a.checked_at s.lockouts in
    if ltb 0 remaining then some (account_locked (seconds remaining)) else none

unfoldable pub judge_pin : Attempt → AuthState → PinOutcome × AuthState
unfolding refuse_pin record_failure record_success
judge_pin a s =
    if a.pin_matches
    then (
      logged_in,
      record s {
        lockouts = record_success a.employee_id s.lockouts;
        logins = s.logins ++ (a.employee_id, a.logged_in_at) ∷ [];
      },
    )
    else refuse_pin a (record_failure a.employee_id a.now s.lockouts) s

-- pinLogin from there on, in the state that it finds after its awaits: the lock is not looked at again.
unfoldable pub finish_pin_login : Attempt → AuthState → PinOutcome × AuthState
unfolding judge_pin
finish_pin_login a s = elim a.device [
  | untrusted message ↦ (unauthenticated message, s)
  | trusted_to id ↦
      if id == a.employee_id
      then judge_pin a s
      else (unauthenticated "Device trust does not belong to this employee.", s)
]

-- A login that no other one overlaps.
unfoldable pub pin_login : Attempt → AuthState → PinOutcome × AuthState
unfolding start_pin_login finish_pin_login
pin_login a s = elim (start_pin_login a s) [
  | some outcome ↦ (outcome, s)
  | none ↦ finish_pin_login a s
]

unfoldable pub pin_logins : List Attempt → AuthState → AuthState
unfolding pin_login
pin_logins [] s = s
pin_logins (a ∷ rest) s = pin_logins rest (pin_login a s).1
