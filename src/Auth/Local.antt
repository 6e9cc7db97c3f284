-- ===== src/Auth/Local.antt =====
-- The local provider: src/auth/local.provider.ts and password.ts. Argon2 is a parameter, which hashes
-- with a salt of its own and may throw on a hash that it cannot read. The time that a refusal takes is
-- not modelled.
pub mod Accepted
use Prim.Native.Char.{code}
use capybara_ai.Prelude.{
  ℕ, ◌+◌, String, ◌<>◌, Bool, true, false, Option, none, some, List, [], ◌∷◌, ◌++◌, ◌==◌, nat_eq,
  string_eq, ◌&&◌, ◌||◌, leb, if◌then◌else◌, get_or_else, any,
}
use capybara_ai.Prelude.Effect.{Result, ok, throw}
use capybara_ai.Prelude.Table.{first_where}
use capybara_ai.Hash.{Platform}
use capybara_ai.Rbac.{Role, owner}
use capybara_ai.Auth.Accounts.{User, UserStatus, Accounts}
use capybara_ai.Auth.Directory.{Directory, Membership, Organization}

pub record Argon2 : Type 0 where
  pub hash : String → String → String
  pub verify : String → String → Result String Bool

-- `verifyPassword`, with its catch
abbrev pub or_false : Result String Bool → Bool
or_false (ok b) = b
or_false (throw _) = false

pub record AuthenticatedIdentity : Type 0 where
  pub user_id : ℕ
  pub email : String

pub record RegistrationResult : Type 0 where
  pub identity : AuthenticatedIdentity
  pub org_id : ℕ

-- `email.split('@')[0]`
abbrev pub before_at : String → String
before_at String.[] = String.[]
before_at (String.◌∷◌ c s) =
    let rest = before_at s in if code c == 64 then String.[] else String.◌∷◌ c rest

abbrev pub is_slug_char : ℕ → Bool
is_slug_char c = (leb 97 c && leb c 122) || (leb 48 c && leb c 57)

-- `.replace(/[^a-z0-9]+/g, '-')`; the first argument is whether the character before was replaced.
abbrev pub dashed : Bool → String → String
dashed in_run String.[] = String.[]
dashed in_run (String.◌∷◌ c s) =
    let after_kept = dashed false s in
    let after_run = dashed true s in
    if is_slug_char (code c)
    then String.◌∷◌ c after_kept
    else if in_run
    then after_run
    else "-" <> after_run

-- `.replace(/^-+|-+$/g, '')`
abbrev pub trim_left : String → String
trim_left String.[] = String.[]
trim_left (String.◌∷◌ c s) = let rest = trim_left s in if code c == 45 then rest else String.◌∷◌ c s

abbrev pub trim_right : String → String
trim_right String.[] = String.[]
trim_right (String.◌∷◌ c s) =
    let rest = trim_right s in if code c == 45 && rest == "" then String.[] else String.◌∷◌ c rest

-- `text || 'org'`
abbrev pub or_org : String → String
or_org text = if text == "" then "org" else text

module _ (p : Platform) where
  abbrev pub normalize_email : String → String
  normalize_email email = p.to_lower_case (p.trim email)

  abbrev pub slug_from_email : String → String → String
  slug_from_email email suffix =
      or_org (trim_right (trim_left (dashed false (p.to_lower_case (before_at email)))))
      <> ("-" <> suffix)

abbrev pub find_by_email : String → Accounts → Option User
find_by_email email s = first_where (λ (u : User). u.email == email) s.users

abbrev pub is_active : UserStatus → Bool
is_active UserStatus.active = true
is_active _ = false

abbrev pub new_user : String → String → ℕ → User
new_user email password_hash id = record {
  id = id;
  email = email;
  password_hash = password_hash;
  status = UserStatus.active;
  mfa_enabled = false;
  mfa_secret = none;
  mfa_last_step = none;
  invite_token_hash = none;
}

module _ (p : Platform) (argon : Argon2) where
  abbrev pub verify_password : String → String → Bool
  verify_password stored plain = or_false (argon.verify stored plain)

  -- The user's row is written before the organisation's, in a statement of its own.
  abbrev pub add_user : String → String → String → Directory → Directory
  add_user salt email password s = record s {
    accounts = record s.accounts {
      users = s.accounts.users ++ new_user email (argon.hash salt password) s.accounts.next_id ∷ [];
      next_id = s.accounts.next_id + 1;
    };
  }

  abbrev pub add_organization :
      ℕ → String → String → Option String → Directory → RegistrationResult × Directory
  add_organization id slug email org_name s =
      let org_id = s.accounts.next_id in
      (
        record { identity = record { user_id = id; email = email }; org_id = org_id },
        record s {
          accounts = record s.accounts { next_id = org_id + 1 };
          organizations =
              s.organizations
              ++ record {
                id = org_id;
                slug = slug;
                name = get_or_else org_name (email <> "'s organization");
              }
                ∷ [];
          memberships =
              s.memberships ++ record { org_id = org_id; user_id = id; role = owner } ∷ [];
        },
      )

  abbrev pub has_slug : String → Organization → Bool
  has_slug slug o = o.slug == slug

  -- The column `slug` is unique.
  abbrev pub add_unless_slug :
      Bool
      → ℕ
      → String
      → String
      → Option String
      → Directory
      → Result String RegistrationResult × Directory
  add_unless_slug true id slug email org_name s =
      (throw "duplicate key value violates organizations_slug_key", s)
  add_unless_slug false id slug email org_name s =
      let (r, t) = add_organization id slug email org_name s in (ok r, t)

  -- The inserts of a registration; the salt and the suffix of the slug are drawn at random.
  abbrev pub add_account :
      String
      → String
      → String
      → String
      → Option String
      → Directory
      → Result String RegistrationResult × Directory
  add_account salt suffix email password org_name s =
      let slug = slug_from_email p email suffix in
      add_unless_slug (any (has_slug slug) s.organizations) s.accounts.next_id slug email org_name
        (add_user salt email password s)

  abbrev pub register_unless :
      Option User
      → String
      → String
      → String
      → String
      → Option String
      → Directory
      → Result String RegistrationResult × Directory
  register_unless (some _) salt suffix email password org_name s =
      (throw "email already registered", s)
  register_unless none salt suffix email password org_name s =
      add_account salt suffix email password org_name s

  unfoldable pub register :
      String
      → String
      → String
      → String
      → Option String
      → Directory
      → Result String RegistrationResult × Directory
  register salt suffix raw password org_name s =
      let email = normalize_email p raw in
      register_unless (find_by_email email s.accounts) salt suffix email password org_name s

  abbrev pub identity_if : Bool → User → Option AuthenticatedIdentity
  identity_if true u = some (record { user_id = u.id; email = u.email })
  identity_if false u = none

  abbrev pub check_user : Option User → String → Option AuthenticatedIdentity
  check_user none password = none
  check_user (some u) password =
      identity_if (is_active u.status && verify_password u.password_hash password) u

  unfoldable pub authenticate : String → String → Accounts → Option AuthenticatedIdentity
  authenticate raw password s = check_user (find_by_email (normalize_email p raw) s) password
