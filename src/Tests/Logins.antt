-- ===== src/Tests/Logins.antt =====
-- src/auth/abuseGuard.ts at small inputs.
use capybara_ai.Prelude.{some, [], ◌∷◌, ◌≡◌, ◌≢◌, refl, String, eq_iff}
use capybara_ai.Auth.AbuseGuard.{
  LockoutPolicy, AuthState, unlocked, lock_ms, check_lockout, record_failure, record_success,
  clear_lockout, normalize, Lockout,
}
use capybara_ai.Auth.AbuseGuard.Backoff.{lockout_frame}
use capybara_ai.Tests.Samples.{platform, no_events}

abbrev policy : LockoutPolicy
policy = record { max_failures = 3; window_ms = 100; lock_base_ms = 10; lock_max_ms = 35 }

abbrev fresh : AuthState
fresh = record { lockouts = []; log = no_events }

abbrev ann : String
ann = "ann@x"

abbrev bob : String
bob = "bob@x"

abbrev held : Lockout
held = record {
  identifier = ann;
  failed_count = 0;
  lockout_count = 1;
  first_failed_at = 3;
  last_failed_at = 3;
  locked_until = some 13;
  updated_at = 3;
}

abbrev one_held : AuthState
one_held = record { lockouts = held ∷ []; log = no_events }

apart : normalize platform ann ≢ normalize platform bob
apart e = cc ((eq_iff ann bob).1 e)

lockout_frame_example :
    (check_lockout platform 5 bob (record_failure platform policy 4 ann one_held).1
      ≡ check_lockout platform 5 bob one_held)
    × (check_lockout platform 5 bob (record_success platform ann one_held)
        ≡ check_lockout platform 5 bob one_held)
    × (check_lockout platform 5 bob (clear_lockout platform ann one_held).1
        ≡ check_lockout platform 5 bob one_held)
    × (check_lockout platform 5 ann (record_success platform ann one_held) ≡ unlocked)
    × (check_lockout platform 5 ann (clear_lockout platform ann one_held).1 ≡ unlocked)
lockout_frame_example = lockout_frame platform policy 4 5 ann bob one_held apart

third_lock_is_capped : lock_ms policy 2 ≡ 35
unfolding lock_ms
third_lock_is_capped = refl

-- A policy that allows one failure: the first failure of an account does not lock it.
one_failure_is_free :
    check_lockout platform 2 ann
      (record_failure platform (record policy { max_failures = 1 }) 1 ann fresh).1
    ≡ unlocked
unfolding record_failure check_lockout
one_failure_is_free = refl
