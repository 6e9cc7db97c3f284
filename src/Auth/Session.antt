-- ===== src/Auth/Session.antt =====
-- Opaque server-side sessions: src/auth/session.ts. The random token and the clock are arguments. A
-- login to a session whose user is gone finds no row in the join.
pub mod Validity
use capybara_ai.Prelude.{
  ℕ, ◌+◌, ◌*◌, String, Bool, Option, none, some, List, [], ◌∷◌, ◌++◌, ltb, if◌then◌else◌, ◌==◌,
  string_eq, nat_eq, ◌&&◌, is_some, is_none, get_or_else,
}
use capybara_ai.Prelude.Table.{first_where, update_where}
use capybara_ai.Hash.{Platform}
use capybara_ai.Auth.Accounts.{User, Session, Accounts}

abbrev pub default_ttl_ms : ℕ
default_ttl_ms = 7 * 24 * 60 * 60 * 1000

pub record CreatedSession : Type 0 where
  pub token : String
  pub session_id : ℕ
  pub expires_at : ℕ

pub record ValidatedSession : Type 0 where
  pub session_id : ℕ
  pub user_id : ℕ
  pub email : String
  pub org_id : Option ℕ

abbrev pub find_user : ℕ → Accounts → Option User
find_user id s = first_where (λ (u : User). u.id == id) s.users

-- The columns that the join selects.
abbrev pub joined : Session → Option User → Option ValidatedSession
joined r none = none
joined r (some u) =
    some (record { session_id = r.id; user_id = r.user_id; email = u.email; org_id = r.org_id })

abbrev pub found_session : Accounts → Option Session → Option ValidatedSession
found_session s none = none
found_session s (some r) = joined r (find_user r.user_id s)

module _ (p : Platform) where
  abbrev pub hash_token : String → String
  hash_token token = p.sha256_hex token

  abbrev pub new_session : ℕ → String → ℕ → Option ℕ → Option ℕ → Accounts → Session
  new_session now token user_id org_id ttl_ms s = record {
    id = s.next_id;
    token_hash = hash_token token;
    user_id = user_id;
    org_id = org_id;
    expires_at = now + get_or_else ttl_ms default_ttl_ms;
    revoked_at = none;
  }

  unfoldable pub create_session :
      ℕ → String → ℕ → Option ℕ → Option ℕ → Accounts → CreatedSession × Accounts
  create_session now token user_id org_id ttl_ms s =
      let r = new_session now token user_id org_id ttl_ms s in
      (
        record { token = token; session_id = r.id; expires_at = r.expires_at },
        record s { sessions = s.sessions ++ r ∷ []; next_id = s.next_id + 1 },
      )

  abbrev pub has_token : String → Session → Bool
  has_token token r = r.token_hash == hash_token token

  -- The condition of the query, and that the join has a row.
  abbrev pub is_live : ℕ → String → Accounts → Session → Bool
  is_live now token s r =
      has_token token r
      && is_none r.revoked_at
      && ltb now r.expires_at
      && is_some (find_user r.user_id s)

  unfoldable pub validate_session : ℕ → String → Accounts → Option ValidatedSession
  validate_session now token s =
      if token == "" then none else found_session s (first_where (is_live now token s) s.sessions)

  unfoldable pub revoke_session : ℕ → String → Accounts → Accounts
  revoke_session now token s = record s {
    sessions =
        update_where (has_token token) (λ (r : Session). record r { revoked_at = some now })
          s.sessions;
  }
