-- ===== src/Auth/Directory.antt =====
-- The tables that accounts and their administration share: src/db/schema/memberships.ts,
-- organizations.ts and auditLog.ts beside those of `Accounts` and the lockouts, without the times of creation.
-- The policy of src/db/sql/0001_rls_and_grants.sql shows a statement the memberships of the current
-- organisation and those of the current user, and refuses to write a row of another organisation.
use capybara_ai.Prelude.{
  ℕ, String, Bool, Option, none, some, List, [], ◌∷◌, ◌++◌, any, not, ◌&&◌, ◌||◌, ◌==◌, nat_eq,
}
use capybara_ai.Prelude.Table.{first_where}
use capybara_ai.Rbac.{Role}
use capybara_ai.Tenancy.{TenantContext, in_tenant}
use capybara_ai.Auth.Accounts.{Accounts}
use capybara_ai.Auth.AbuseGuard.{AuthState}

pub record Membership : Type 0 where
  pub org_id : ℕ
  pub user_id : ℕ
  pub role : Role

pub record Organization : Type 0 where
  pub id : ℕ
  pub slug : String
  pub name : String

-- `action` and `metadata` of a row of `audit_log`, for the actions on users.
pub data AdminAction : Type 0 where
  user_invited : String → Role → AdminAction
  user_role_changed : Role → Role → AdminAction
  user_deactivated : AdminAction
  user_unlocked : Bool → AdminAction

pub record AuditEntry : Type 0 where
  pub org_id : ℕ
  pub actor_user_id : ℕ
  pub action : AdminAction
  pub target_id : ℕ

pub record Directory : Type 0 where
  pub accounts : Accounts
  pub organizations : List Organization
  pub memberships : List Membership
  pub audit : List AuditEntry
  pub auth : AuthState

module _ (ctx : TenantContext) where
  -- USING, under `withTenantContext`
  abbrev pub can_see : Membership → Bool
  can_see m = in_tenant ctx m.org_id || m.user_id == ctx.user_id

  abbrev pub visible_of : ℕ → Membership → Bool
  visible_of user_id m = can_see m && m.user_id == user_id

  -- Whether a statement on the memberships of a user would write one that WITH CHECK refuses.
  abbrev pub writes_foreign : ℕ → List Membership → Bool
  writes_foreign user_id rows = any (λ m. visible_of user_id m && not (in_tenant ctx m.org_id)) rows

  abbrev pub member_here : ℕ → Membership → Bool
  member_here user_id m = in_tenant ctx m.org_id && m.user_id == user_id

  abbrev pub log_action : AdminAction → ℕ → Directory → Directory
  log_action action target s = record s {
    audit =
        s.audit
        ++ record {
          org_id = ctx.org_id;
          actor_user_id = ctx.user_id;
          action = action;
          target_id = target;
        }
          ∷ [];
  }

-- The role of a user in an organisation.
abbrev pub role_of_row : Option Membership → Option Role
role_of_row none = none
role_of_row (some m) = some m.role

abbrev pub role_in : TenantContext → ℕ → Directory → Option Role
role_in ctx user_id s = role_of_row (first_where (member_here ctx user_id) s.memberships)
