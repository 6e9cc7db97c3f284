-- ===== src/Admin/Users.antt =====
-- The administration of users: src/admin/users.ts. An action returns its result or an error, and the
-- tables after it; what a transaction wrote before its error is rolled back. The lists and counts of
-- `listUsers` and `userActivity` are not modelled.
pub mod Roles
pub mod Deactivation
use capybara_ai.Prelude.{
  ℕ, ◌+◌, String, Bool, true, false, Option, none, some, List, [], ◌∷◌, ◌++◌, ◌==◌, nat_eq, ◌&&◌,
  not, if◌then◌else◌,
}
use capybara_ai.Prelude.Effect.{Result, ok, throw}
use capybara_ai.Prelude.Table.{first_where, update_where}
use capybara_ai.Hash.{Platform}
use capybara_ai.Rbac.{Role, viewer, member, admin, owner, unknown}
use capybara_ai.Tenancy.{TenantContext, in_tenant}
use capybara_ai.Auth.Accounts.{User, UserStatus, Session, Accounts}
use capybara_ai.Auth.AbuseGuard.{clear_lockout}
use capybara_ai.Auth.Directory.{
  Directory, Membership, AdminAction, user_invited, user_role_changed, user_deactivated,
  user_unlocked, visible_of, writes_foreign, log_action,
}
use capybara_ai.Auth.Local.{find_by_email, normalize_email}

-- `AdminError`, and the error of the database where a row would leave the organisation.
pub data AdminError : Type 0 where
  self_deactivate owner_demotion email_exists not_found row_security : AdminError

abbrev pub Outcome : Type 0 → Type 0
Outcome A = Result AdminError A × Directory

abbrev pub is_owner : Role → Bool
is_owner owner = true
is_owner _ = false

-- `current.role === 'owner' && newRole !== 'owner' && actorRole !== 'owner'`
abbrev pub demotes_owner : Role → Role → Role → Bool
demotes_owner actor current new = is_owner current && (not (is_owner new) && not (is_owner actor))

abbrev pub set_inactive : ℕ → List User → List User
set_inactive target =
    update_where (λ (u : User). u.id == target)
      (λ (u : User). record u { status = UserStatus.inactive })

abbrev pub revoke_all : ℕ → ℕ → List Session → List Session
revoke_all now target =
    update_where (λ (r : Session). r.user_id == target)
      (λ (r : Session). record r { revoked_at = some now })

module _ (ctx : TenantContext) where
  abbrev pub with_role : ℕ → Role → List Membership → List Membership
  with_role target new =
      update_where (visible_of ctx target) (λ (m : Membership). record m { role = new })

  abbrev pub write_role : ℕ → Role → Role → Directory → Directory
  write_role target current new s =
      log_action ctx (user_role_changed current new) target
        (record s { memberships = with_role target new s.memberships })

  abbrev pub change_found : Role → ℕ → Role → Option Membership → Directory → Outcome (Unit {0})
  change_found actor target new none s = (throw not_found, s)
  change_found actor target new (some current) s =
      if demotes_owner actor current.role new
      then (throw owner_demotion, s)
      else if writes_foreign ctx target s.memberships
      then (throw row_security, s)
      else (ok tt, write_role target current.role new s)

  unfoldable pub change_role : Role → ℕ → Role → Directory → Outcome (Unit {0})
  change_role actor target new s =
      change_found actor target new (first_where (visible_of ctx target) s.memberships) s

  unfoldable pub deactivate_user : ℕ → ℕ → Directory → Outcome (Unit {0})
  deactivate_user now target s = if target == ctx.user_id then (throw self_deactivate, s) else (
    ok tt,
    log_action ctx user_deactivated target (record s {
      accounts = record s.accounts {
        users = set_inactive target s.accounts.users;
        sessions = revoke_all now target s.accounts.sessions;
      };
    }),
  )

module _ (p : Platform) (ctx : TenantContext) where
  pub record InviteResult : Type 0 where
    pub user_id : ℕ
    pub invite_token : String

  abbrev pub invited_user : String → String → ℕ → User
  invited_user email token id = record {
    id = id;
    email = email;
    password_hash = "!invited";
    status = UserStatus.invited;
    mfa_enabled = false;
    mfa_secret = none;
    mfa_last_step = none;
    invite_token_hash = some (p.sha256_hex token);
  }

  abbrev pub invite_unless : Option User → String → String → Role → Directory → Outcome InviteResult
  invite_unless (some _) token email role s = (throw email_exists, s)
  invite_unless none token email role s =
      let id = s.accounts.next_id in
      (
        ok (record { user_id = id; invite_token = token }),
        log_action ctx (user_invited email role) id (record s {
          accounts = record s.accounts {
            users = s.accounts.users ++ invited_user email token id ∷ [];
            next_id = id + 1;
          };
          memberships =
              s.memberships ++ record { org_id = ctx.org_id; user_id = id; role = role } ∷ [];
        }),
      )

  -- The token is drawn at random.
  unfoldable pub invite_user : String → String → Role → Directory → Outcome InviteResult
  invite_user token raw role s =
      let email = normalize_email p raw in
      invite_unless (find_by_email email s.accounts) token email role s

  -- The e-mail address that the join of the memberships with the users selects.
  abbrev pub email_of : Option User → Option String
  email_of none = none
  email_of (some u) = some u.email

  abbrev pub joined_email : Option Membership → Directory → Option String
  joined_email none s = none
  joined_email (some m) s =
      email_of (first_where (λ (u : User). u.id == m.user_id) s.accounts.users)

  pub record UnlockResult : Type 0 where
    pub cleared : Bool
    pub email : String

  abbrev pub unlock_found : ℕ → Option String → Directory → Outcome UnlockResult
  unfolding clear_lockout
  unlock_found target none s = (throw not_found, s)
  unlock_found target (some email) s =
      let (cleared, auth) = clear_lockout p email s.auth in
      (
        ok (record { cleared = cleared; email = email }),
        log_action ctx (user_unlocked cleared) target (record s { auth = auth }),
      )

  unfoldable pub unlock_user : ℕ → Directory → Outcome UnlockResult
  unfolding clear_lockout
  unlock_user target s =
      unlock_found target (joined_email (first_where (visible_of ctx target) s.memberships) s) s
