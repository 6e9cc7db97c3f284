-- ===== src/Auth/Accounts.antt =====
-- The tables of src/db/schema/users.ts, sessions.ts and mfaBackupCodes.ts that the authentication
-- uses, without the columns that it does not read. None of them is under row-level security.
use capybara_ai.Prelude.{ℕ, String, Bool, Option, List}

pub data UserStatus : Type 0 where
  active inactive invited : UserStatus

pub record User : Type 0 where
  pub id : ℕ
  pub email : String
  pub password_hash : String
  pub status : UserStatus
  pub mfa_enabled : Bool
  pub mfa_secret : Option String
  pub mfa_last_step : Option ℕ
  pub invite_token_hash : Option String

pub record Session : Type 0 where
  pub id : ℕ
  pub token_hash : String
  pub user_id : ℕ
  pub org_id : Option ℕ
  pub expires_at : ℕ
  pub revoked_at : Option ℕ

pub record BackupCode : Type 0 where
  pub id : ℕ
  pub user_id : ℕ
  pub code_hash : String
  pub used_at : Option ℕ

pub record Accounts : Type 0 where
  pub users : List User
  pub sessions : List Session
  pub codes : List BackupCode
  pub next_id : ℕ
