-- ===== src/Tests/Sessions.antt =====
-- src/auth/session.ts and src/auth/mfa.ts at small inputs.
use capybara_ai.Prelude.{
  ℕ, ◌+◌, ◌≤◌, String, true, none, some, List, [], ◌∷◌, ◌==◌, string_eq, ◌≡◌, ◌≢◌, refl, eq_iff,
  if◌then◌else◌, ltb, get_or_else,
}
use capybara_ai.Prelude.Effect.{ok}
use capybara_ai.Auth.Accounts.{User, BackupCode, Accounts, active}
use capybara_ai.Auth.Session.{
  find_user, hash_token, create_session, validate_session, revoke_session, default_ttl_ms,
}
use capybara_ai.Auth.Session.Validity.{
  validate_session-create_session, validate_session-revoke_session,
}
use capybara_ai.Auth.Mfa.{Otp, same, verify_totp}
use capybara_ai.Auth.Mfa.Replay.{
  IsAscending, first_free_step, accepted_steps, accepted_steps-IsAscending,
}
use capybara_ai.Auth.Mfa.Codes.{unused_codes, try_codes, try_codes-spends}
use capybara_ai.Tests.Samples.{platform}

-- A code matches at every step, and a hash is the password.
abbrev otp : Otp
otp = record {
  validate = λ secret token step. if token == secret then some same else none;
  encrypt_secret = λ s. s;
  decrypt_secret = λ s. ok s;
  hash_password = λ s. s;
  verify_password = λ hash s. hash == s;
}

abbrev ann : User
ann = record {
  id = 4;
  email = "ann@x";
  password_hash = "h";
  status = active;
  mfa_enabled = true;
  mfa_secret = some "111222";
  mfa_last_step = none;
  invite_token_hash = none;
}

abbrev code_a : BackupCode
code_a = record { id = 1; user_id = 4; code_hash = "aa"; used_at = none }

abbrev code_b : BackupCode
code_b = record { id = 2; user_id = 4; code_hash = "bb"; used_at = none }

abbrev accounts : Accounts
accounts = record { users = ann ∷ []; sessions = []; codes = code_a ∷ code_b ∷ []; next_id = 9 }

validate_session-create_session_example :
    validate_session platform 15 "tok"
      (create_session platform 10 "tok" ann.id (some 1) (some 6) accounts).1
    ≡ (if ltb 15 (10 + get_or_else (some 6) default_ttl_ms)
        then some (record { session_id = 9; user_id = 4; email = "ann@x"; org_id = some 1 })
        else none)
validate_session-create_session_example =
    validate_session-create_session platform 10 15 "tok" ann (some 1) (some 6) accounts refl refl
      refl

abbrev with_session : Accounts
with_session = (create_session platform 10 "tok" ann.id (some 1) (some 6) accounts).1

abbrev tok : String
tok = "tok"

abbrev other_tok : String
other_tok = "other"

apart : hash_token platform other_tok ≢ hash_token platform tok
apart e = cc ((eq_iff other_tok tok).1 e)

validate_session-revoke_session_example :
    (validate_session platform 12 tok (revoke_session platform 11 tok with_session) ≡ none)
    × (validate_session platform 12 other_tok (revoke_session platform 11 tok with_session)
        ≡ validate_session platform 12 other_tok with_session)
validate_session-revoke_session_example =
    validate_session-revoke_session platform 11 12 tok other_tok with_session apart

abbrev attempts : List (ℕ × String)
attempts = (60000, "111222") ∷ (61000, "111222") ∷ (95000, "111222") ∷ (99000, "0") ∷ []

accepted_steps-IsAscending_example :
    IsAscending (first_free_step (find_user 4 accounts)) (accepted_steps otp 4 attempts accounts)
accepted_steps-IsAscending_example = accepted_steps-IsAscending otp 4 attempts accounts

-- The second code is a replay of the first, and the last one is wrong.
two_are_accepted : accepted_steps otp 4 attempts accounts ≡ some 2 ∷ some 3 ∷ []
unfolding verify_totp
two_are_accepted = refl

abbrev code_attempts : List (ℕ × String)
code_attempts = (5, "aa") ∷ (6, "aa") ∷ (7, "bb") ∷ []

try_codes-spends_example :
    (try_codes otp 4 code_attempts accounts).0
      + unused_codes otp 4 (try_codes otp 4 code_attempts accounts).1
    ≤ unused_codes otp 4 accounts
try_codes-spends_example = try_codes-spends otp 4 code_attempts accounts
