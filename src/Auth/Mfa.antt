-- ===== src/Auth/Mfa.antt =====
-- TOTP and backup codes: src/auth/mfa.ts. The clock is an argument, and so are the random secret and
-- the random codes. Third-party code enters as `Otp`: the check of a code by the otpauth package,
-- which answers how far from the current step the code matches, the encryption at rest, whose
-- decryption may throw, and Argon2.
pub mod Replay
pub mod Codes
use capybara_ai.Prelude.{
  ℕ, zero, suc, ◌+◌, ◌-◌, ◌/◌, String, Bool, true, false, Option, none, some, List, [], ◌∷◌, ◌++◌,
  map, leb, length, if◌then◌else◌, ◌==◌, nat_eq, ◌&&◌, is_none, get_or_else,
}
use capybara_ai.Prelude.Table.{first_where, update_where, delete_where, select_where}
use capybara_ai.Prelude.Effect.{Result, ok, throw, Action}
use capybara_ai.Auth.Accounts.{User, BackupCode, Accounts}
use capybara_ai.Auth.Session.{find_user}

-- The delta of a match within the window of one step.
pub data Delta : Type 0 where
  behind same ahead : Delta

pub record Otp : Type 0 where
  -- `totp.validate({ token, window: 1 })` at a step
  pub validate : String → String → ℕ → Option Delta
  pub encrypt_secret : String → String
  pub decrypt_secret : String → Result String String
  pub hash_password : String → String
  pub verify_password : String → String → Bool

-- `currentStep`, from milliseconds
abbrev pub current_step : ℕ → ℕ
current_step now = now / 1000 / 30

-- The clock is past the first step, so that there is one behind.
abbrev pub shift : ℕ → Delta → ℕ
shift step behind = step - 1
shift step same = step
shift step ahead = step + 1

abbrev pub shifted : ℕ → Option Delta → Option ℕ
shifted step none = none
shifted step (some delta) = some (shift step delta)

-- `user.mfaLastStep !== null && step <= user.mfaLastStep`
abbrev pub is_replay : Option ℕ → ℕ → Bool
is_replay none step = false
is_replay (some last) step = leb step last

abbrev pub is_user : ℕ → User → Bool
is_user id u = u.id == id

abbrev pub write_step : ℕ → ℕ → Accounts → Accounts
write_step id step s = record s {
  users = update_where (is_user id) (λ (u : User). record u { mfa_last_step = some step }) s.users;
}

module _ (otp : Otp) where
  unfoldable pub match_step : ℕ → String → String → Option ℕ
  match_step now secret token =
      shifted (current_step now) (otp.validate secret token (current_step now))

  unfoldable pub begin_enrollment : ℕ → String → Accounts → Accounts
  begin_enrollment id secret s = record s {
    users =
        update_where (is_user id)
          (λ (u : User). record u {
            mfa_secret = some (otp.encrypt_secret secret);
            mfa_enabled = false;
            mfa_last_step = none;
          })
          s.users;
  }

  -- The step that a code matches, when the secret can be read.
  abbrev pub read_step : ℕ → String → Result String String → Result String (Option ℕ)
  read_step now token (throw e) = throw e
  read_step now token (ok secret) = ok (match_step now secret token)

  -- The end of `verifyTotp`.
  abbrev pub accept_step : User → Result String (Option ℕ) → Action Accounts String Bool
  accept_step u (throw e) s = (throw e, s)
  accept_step u (ok none) s = (ok false, s)
  accept_step u (ok (some step)) s =
      if is_replay u.mfa_last_step step then (ok false, s) else (ok true, write_step u.id step s)

  -- `!user.mfaEnabled || !user.mfaSecret`
  abbrev pub with_secret : ℕ → String → User → Bool → Option String → Action Accounts String Bool
  with_secret now token u true (some sealed) s =
      accept_step u (read_step now token (otp.decrypt_secret sealed)) s
  with_secret now token u true none s = (ok false, s)
  with_secret now token u false secret s = (ok false, s)

  abbrev pub with_user : ℕ → String → Option User → Action Accounts String Bool
  with_user now token none s = (ok false, s)
  with_user now token (some u) s = with_secret now token u u.mfa_enabled u.mfa_secret s

  unfoldable pub verify_totp : ℕ → ℕ → String → Action Accounts String Bool
  unfolding match_step
  verify_totp now id token s = with_user now token (find_user id s) s

  -- The codes of the rows that are inserted, with ids from `n` on.
  abbrev pub new_codes : ℕ → ℕ → List String → List BackupCode
  new_codes n id [] = []
  new_codes n id (code ∷ codes) =
      record { id = n; user_id = id; code_hash = otp.hash_password code; used_at = none }
      ∷ new_codes (n + 1) id codes

  abbrev pub of_user : ℕ → BackupCode → Bool
  of_user id c = c.user_id == id

  unfoldable pub regenerate_backup_codes : ℕ → List String → Accounts → Accounts
  regenerate_backup_codes id codes s = record s {
    codes = delete_where (of_user id) s.codes ++ new_codes s.next_id id codes;
    next_id = s.next_id + length codes;
  }

  abbrev pub is_unused : ℕ → BackupCode → Bool
  is_unused id c = of_user id c && is_none c.used_at

  -- The first of the unused codes that the text is.
  abbrev pub matching_code : String → List BackupCode → Option BackupCode
  matching_code code rows =
      first_where (λ (c : BackupCode). otp.verify_password c.code_hash code) rows

  abbrev pub spend : ℕ → Accounts → Option BackupCode → Bool × Accounts
  spend now s none = (false, s)
  spend now s (some c) = (
    true,
    record s {
      codes =
          update_where (λ (d : BackupCode). d.id == c.id)
            (λ (d : BackupCode). record d { used_at = some now }) s.codes;
    },
  )

  unfoldable pub verify_backup_code : ℕ → ℕ → String → Accounts → Bool × Accounts
  verify_backup_code now id code s =
      spend now s (matching_code code (select_where (is_unused id) s.codes))

  -- The end of `verifyAndEnable`.
  abbrev pub enable :
      ℕ → List String → Result String (Option ℕ) → Action Accounts String (Option (List String))
  enable id codes (throw e) s = (throw e, s)
  enable id codes (ok none) s = (ok none, s)
  enable id codes (ok (some step)) s =
      let t = regenerate_backup_codes id codes s in
      (
        ok (some codes),
        record t {
          users =
              update_where (is_user id)
                (λ (u : User). record u { mfa_enabled = true; mfa_last_step = some step }) t.users;
        },
      )

  abbrev pub enable_with :
      ℕ → ℕ → String → List String → Option String → Action Accounts String (Option (List String))
  enable_with now id token codes none s = (ok none, s)
  enable_with now id token codes (some sealed) s =
      enable id codes (read_step now token (otp.decrypt_secret sealed)) s

  abbrev pub enable_user :
      ℕ → ℕ → String → List String → Option User → Action Accounts String (Option (List String))
  enable_user now id token codes none s = (ok none, s)
  enable_user now id token codes (some u) s = enable_with now id token codes u.mfa_secret s

  -- The new codes on success, none where the source answers `{ ok: false }`.
  unfoldable pub verify_and_enable :
      ℕ → ℕ → String → List String → Action Accounts String (Option (List String))
  unfolding match_step regenerate_backup_codes
  verify_and_enable now id token codes s = enable_user now id token codes (find_user id s) s

abbrev pub enabled_of : Option User → Bool
enabled_of none = false
enabled_of (some u) = u.mfa_enabled

unfoldable pub is_mfa_enabled : ℕ → Accounts → Bool
is_mfa_enabled id s = enabled_of (find_user id s)
