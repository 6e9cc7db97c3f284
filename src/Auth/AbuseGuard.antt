-- ===== src/Auth/AbuseGuard.antt =====
-- Brute-force defence of the login: src/auth/abuseGuard.ts over the table `auth_lockouts`, whose
-- key is the normalised e-mail address. Times are milliseconds; the clock is an argument. The
-- source computes `2 ** n` in floating point, which is exact up to the cap. A call is one step:
-- two calls that race on one row are not modelled.
pub mod Backoff
pub mod Burst
use capybara_ai.Prelude.{
  ℕ, suc, ◌+◌, ◌-◌, ◌*◌, ◌^◌, min, String, Bool, true, false, Option, none, some, List, [], ◌∷◌,
  ◌++◌, length, ltb, leb, if◌then◌else◌, ◌==◌, string_eq, is_some,
}
use capybara_ai.Prelude.Table.{first_where, update_where, delete_where}
use capybara_ai.Hash.{Platform, num, str, obj, end, field}
use capybara_ai.Audit.{EventLog, SecurityEventInput, warning, append_security_event}

-- `LockoutPolicy`
pub record LockoutPolicy : Type 0 where
  pub max_failures : ℕ
  pub window_ms : ℕ
  pub lock_base_ms : ℕ
  pub lock_max_ms : ℕ

abbrev pub default_lockout_policy : LockoutPolicy
default_lockout_policy = record {
  max_failures = 10;
  window_ms = 15 * 60_000;
  lock_base_ms = 15 * 60_000;
  lock_max_ms = 24 * 60 * 60_000;
}

pub record LockoutStatus : Type 0 where
  pub locked : Bool
  pub retry_after_ms : ℕ

abbrev pub unlocked : LockoutStatus
unlocked = record { locked = false; retry_after_ms = 0 }

-- A row of `auth_lockouts`.
pub record Lockout : Type 0 where
  pub identifier : String
  pub failed_count : ℕ
  pub lockout_count : ℕ
  pub first_failed_at : ℕ
  pub last_failed_at : ℕ
  pub locked_until : Option ℕ
  pub updated_at : ℕ

pub record AuthState : Type 0 where
  pub lockouts : List Lockout
  pub log : EventLog

-- `existing.lockedUntil && existing.lockedUntil.getTime() > now`
abbrev pub in_force : ℕ → Option ℕ → Bool
in_force now none = false
in_force now (some t) = ltb now t

abbrev pub status_at : ℕ → Option ℕ → LockoutStatus
status_at now none = unlocked
status_at now (some t) =
    if ltb 0 (t - now) then record { locked = true; retry_after_ms = t - now } else unlocked

abbrev pub found_status : ℕ → Option Lockout → LockoutStatus
found_status now none = unlocked
found_status now (some r) = status_at now r.locked_until

-- `Math.min(policy.lockBaseMs * 2 ** lockoutCount, policy.lockMaxMs)`
unfoldable pub lock_ms : LockoutPolicy → ℕ → ℕ
lock_ms policy n = min (policy.lock_base_ms * 2 ^ n) policy.lock_max_ms

abbrev pub window_elapsed : LockoutPolicy → ℕ → Lockout → Bool
window_elapsed policy now r = ltb policy.window_ms (now - r.first_failed_at)

-- The failures in the window, this one included.
abbrev pub counted : LockoutPolicy → ℕ → Lockout → ℕ
counted policy now r = if window_elapsed policy now r then 1 else r.failed_count + 1

-- The row after a failure while no lock is in force.
unfoldable pub next_lockout : LockoutPolicy → ℕ → Lockout → Lockout
next_lockout policy now r =
    if leb policy.max_failures (counted policy now r)
    then record r {
      failed_count = 0;
      lockout_count = r.lockout_count + 1;
      first_failed_at = now;
      last_failed_at = now;
      locked_until = some (now + lock_ms policy r.lockout_count);
      updated_at = now;
    }
    else record r {
      failed_count = counted policy now r;
      first_failed_at = if window_elapsed policy now r then now else r.first_failed_at;
      last_failed_at = now;
      locked_until = none;
      updated_at = now;
    }

abbrev pub first_lockout : String → ℕ → Lockout
first_lockout identifier now = record {
  identifier = identifier;
  failed_count = 1;
  lockout_count = 0;
  first_failed_at = now;
  last_failed_at = now;
  locked_until = none;
  updated_at = now;
}

abbrev pub is_for : String → Lockout → Bool
is_for identifier r = r.identifier == identifier

module _ (p : Platform) where
  abbrev pub normalize : String → String
  normalize identifier = p.to_lower_case (p.trim identifier)

  abbrev pub find_lockout : String → AuthState → Option Lockout
  find_lockout raw s = first_where (is_for (normalize raw)) s.lockouts

  unfoldable pub check_lockout : ℕ → String → AuthState → LockoutStatus
  check_lockout now raw s = found_status now (find_lockout raw s)

  abbrev pub locked_event : Lockout → ℕ → SecurityEventInput
  locked_event r until = record {
    org_id = none;
    event_type = "auth.account_locked";
    severity = warning;
    payload = obj (
        field "identifier" (str r.identifier)
          (field "lockoutCount" (num r.lockout_count) (field "lockedUntilMs" (num until) end)));
  }

  -- The event and the result, after the row `r` is written.
  abbrev pub report_lock : ℕ → Lockout → AuthState → LockoutStatus × AuthState
  report_lock now r s = elim r.locked_until [
    | none ↦ (unlocked, s)
    | some t ↦ (
      record { locked = true; retry_after_ms = t - now },
      record s { log = (append_security_event p now (locked_event r t) s.log).1 },
    )
  ]

  unfoldable pub record_failure : LockoutPolicy → ℕ → String → AuthState → LockoutStatus × AuthState
  unfolding next_lockout
  record_failure policy now raw s = elim (find_lockout raw s) [
    | none ↦
        (unlocked, record s { lockouts = s.lockouts ++ first_lockout (normalize raw) now ∷ [] })
    | some r ↦
        if in_force now r.locked_until
        then (
          status_at now r.locked_until,
          record s {
            lockouts =
                update_where (is_for (normalize raw))
                  (λ (q : Lockout). record q { last_failed_at = now; updated_at = now }) s.lockouts;
          },
        )
        else report_lock now (next_lockout policy now r) (record s {
          lockouts =
              update_where (is_for (normalize raw))
                (λ (q : Lockout). record (next_lockout policy now r) { identifier = q.identifier })
                s.lockouts;
        })
  ]

  unfoldable pub record_success : String → AuthState → AuthState
  record_success raw s = record s { lockouts = delete_where (is_for (normalize raw)) s.lockouts }

  unfoldable pub clear_lockout : String → AuthState → Bool × AuthState
  clear_lockout raw s = (
    is_some (find_lockout raw s),
    record s { lockouts = delete_where (is_for (normalize raw)) s.lockouts },
  )
