-- ===== src/Auth/Pin/Lockout.antt =====
-- That the lockout holds: guesses are counted, and a lock lasts.
use smart_table.Prelude.{
  refl, none, some, true, List, [], ◌∷◌, All, Bool-cases, inl, inr, ==_self, ℕ, ◌+◌, ◌*◌, ◌-◌, ◌<◌,
  ◌≡◌, false, ◌==◌, arith, or_else,
}
use smart_table.Auth.Pin.{
  LockState, Lockouts, no_failures, fail_once, cooldown_minutes, get_lock_remaining_ms,
  record_failure, record_success, Attempt, account_locked, AuthState, seconds, refuse_pin,
  pin_login, pin_logins, start_pin_login, finish_pin_login, judge_pin, trusted_to, logged_in,
}

-- The failures that a state stands for.
abbrev pub failures : LockState → ℕ
failures s = s.lockout_episodes * 5 + s.consecutive_failures

abbrev pub state_of : ℕ → Lockouts → LockState
state_of e states = or_else (states e) no_failures

-- Fewer than five failures are open, and every five have been one lockout.
abbrev pub IsCounted : Lockouts → Type 0
IsCounted states = (e : ℕ) → (state_of e states).consecutive_failures < 5

fail_once-counts :
    (now : ℕ) (s : LockState)
    → s.consecutive_failures < 5
    → ((fail_once now s).1.consecutive_failures < 5)
      × (failures (fail_once now s).1 ≡ failures s + 1)
unfolding fail_once
fail_once-counts now s h = ground arith

-- After any login, successful or not, every account has fewer than five failures open.
pub pin_login-IsCounted :
    (a : Attempt) (s : AuthState) → IsCounted s.lockouts → IsCounted (pin_login a s).1.lockouts
unfolding pin_login start_pin_login finish_pin_login judge_pin refuse_pin record_failure
    record_success
pin_login-IsCounted a s h e = ground (
  arith,
  h e,
  h a.employee_id,
  (fail_once-counts a.now (state_of a.employee_id s.lockouts) (h a.employee_id)).0,
)

-- The account is locked until this time.
abbrev pub IsLockedUntil : ℕ → ℕ → AuthState → Type 0
IsLockedUntil e until s = (l : LockState) × (s.lockouts e ≡ some l) × (l.locked_until ≡ some until)

fifth_failure_lem :
    (now : ℕ) (l : LockState)
    → l.consecutive_failures ≡ 4
    → (fail_once now l).1.locked_until ≡ some (now + cooldown_minutes l.lockout_episodes * 60_000)
unfolding fail_once
fifth_failure_lem now l four = ground arith

fifth_failure-IsLockedUntil :
    (a : Attempt) (s : AuthState)
    → (state_of a.employee_id s.lockouts).consecutive_failures ≡ 4
    → get_lock_remaining_ms a.employee_id a.checked_at s.lockouts ≡ 0
    → a.device ≡ trusted_to a.employee_id
    → a.pin_matches ≡ false
    → IsLockedUntil a.employee_id
        (a.now + cooldown_minutes (state_of a.employee_id s.lockouts).lockout_episodes * 60_000)
        (pin_login a s).1
unfolding pin_login start_pin_login finish_pin_login judge_pin refuse_pin record_failure
fifth_failure-IsLockedUntil a s four open_ trusted wrong = (
  (fail_once a.now (state_of a.employee_id s.lockouts)).1,
  ground (arith, ==_self a.employee_id),
  fifth_failure_lem a.now (state_of a.employee_id s.lockouts) four,
)

locked-refuses :
    (b : Attempt) (until : ℕ) (s : AuthState)
    → IsLockedUntil b.employee_id until s
    → b.checked_at < until
    → pin_login b s ≡ (account_locked (seconds (until - b.checked_at)), s)
unfolding pin_login start_pin_login get_lock_remaining_ms
locked-refuses b until s (l, e, k) early =
    let left : get_lock_remaining_ms b.employee_id b.checked_at s.lockouts ≡ until - b.checked_at =
      rw (e, k) refl in
    ground (arith, left, early)

-- A login leaves the other accounts as they are.
pin_login-others :
    (o : Attempt) (e : ℕ) (s : AuthState)
    → (o.employee_id == e) ≡ false
    → (pin_login o s).1.lockouts e ≡ s.lockouts e
unfolding pin_login start_pin_login finish_pin_login judge_pin refuse_pin record_failure
    record_success
pin_login-others o e s other = ground arith

pin_login-IsLockedUntil :
    (o : Attempt) (e until : ℕ) (s : AuthState)
    → o.checked_at < until
    → IsLockedUntil e until s
    → IsLockedUntil e until (pin_login o s).1
pin_login-IsLockedUntil o e until s early (l, held, k) = elim (Bool-cases (o.employee_id == e)) [
  | inl same ↦
      let one : o.employee_id ≡ e = ground arith in
      let refused = locked-refuses o until s (l, rw one held, k) early in (l, rw refused held, k)
  | inr other ↦ (l, rw (pin_login-others o e s other) held, k)
]

pin_logins-IsLockedUntil :
    (os : List Attempt) (e until : ℕ) (s : AuthState)
    → All (λ o. o.checked_at < until) os
    → IsLockedUntil e until s
    → IsLockedUntil e until (pin_logins os s)
unfolding pin_logins
pin_logins-IsLockedUntil [] e until s early locked = locked
pin_logins-IsLockedUntil (o ∷ os) e until s early locked =
    pin_logins-IsLockedUntil os e until (pin_login o s).1 early.1
      (pin_login-IsLockedUntil o e until s early.0 locked)

-- The fifth failure in a row locks the account, as long as logins do not overlap: whatever logins
-- to any accounts follow, each in one piece and begun before the cooldown of the episode (one,
-- five, and from then on fifteen minutes) is over, every login to the account that is begun before
-- then is refused with the time that is left, also one with the right PIN, and changes nothing.
pub pin_login-locks :
    (a b : Attempt) (others : List Attempt) (s : AuthState)
    → (state_of a.employee_id s.lockouts).consecutive_failures ≡ 4
    → get_lock_remaining_ms a.employee_id a.checked_at s.lockouts ≡ 0
    → a.device ≡ trusted_to a.employee_id
    → a.pin_matches ≡ false
    → b.employee_id ≡ a.employee_id
    → All
        (λ (o : Attempt).
          o.checked_at
          < a.now + cooldown_minutes (state_of a.employee_id s.lockouts).lockout_episodes * 60_000)
        others
    → b.checked_at
      < a.now + cooldown_minutes (state_of a.employee_id s.lockouts).lockout_episodes * 60_000
    → pin_login b (pin_logins others (pin_login a s).1) ≡ (
      account_locked (
          seconds (
            a.now
            + cooldown_minutes (state_of a.employee_id s.lockouts).lockout_episodes * 60_000
            - b.checked_at)),
      pin_logins others (pin_login a s).1,
    )
pin_login-locks a b others s four open_ trusted wrong same earlier early =
    let until =
      a.now + cooldown_minutes (state_of a.employee_id s.lockouts).lockout_episodes * 60_000 in
    let locked =
      pin_logins-IsLockedUntil others a.employee_id until (pin_login a s).1 earlier
        (fifth_failure-IsLockedUntil a s four open_ trusted wrong) in
    locked-refuses b until _ (rw same locked) early

-- A login that was begun before the account was locked, and goes on after it: with the right PIN it
-- succeeds, in spite of the lock, and takes the lock and every count of failures away.
pub late_login_unlocks :
    (b : Attempt) (s : AuthState)
    → b.device ≡ trusted_to b.employee_id
    → b.pin_matches ≡ true
    → ((finish_pin_login b s).0 ≡ logged_in)
      × ((finish_pin_login b s).1.lockouts b.employee_id ≡ none)
unfolding finish_pin_login judge_pin record_success
late_login_unlocks b s trusted right = (ground arith, ground (arith, ==_self b.employee_id))
