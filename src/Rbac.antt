-- ===== src/Rbac.antt =====
-- Role-based access control: src/rbac/roles.ts, permissions.ts and guard.ts. A role that is read
-- from the database may be none of the four, which is the constructor `unknown`; a lookup in one of
-- the tables then gives `undefined`, `none` here. A guard answers with a status code or passes the
-- request on.
pub mod Laws
use capybara_ai.Prelude.{
  ℕ, Bool, true, false, Option, none, some, List, [], ◌∷◌, ◌++◌, any, leb, if◌then◌else◌, ◌==◌,
  nat_eq,
}
use capybara_ai.Prelude.Effect.{Result, ok, throw}

pub data Role : Type 0 where
  viewer member admin owner unknown : Role

pub data Permission : Type 0 where
  org_read org_update org_delete : Permission
  member_read member_invite member_remove member_update_role : Permission
  content_read content_create content_update content_delete : Permission
  ai_invoke ai_approve_tool audit_read : Permission
  document_read document_query document_upload document_delete : Permission
  document_hold document_release_hold gdpr_erase : Permission
  compliance_read compliance_write compliance_delete compliance_report : Permission
  oversight_read oversight_decide : Permission

-- The place of a permission in the array `PERMISSIONS`, which tells the permissions apart.
abbrev pub permission_index : Permission → ℕ
permission_index org_read = 0
permission_index org_update = 1
permission_index org_delete = 2
permission_index member_read = 3
permission_index member_invite = 4
permission_index member_remove = 5
permission_index member_update_role = 6
permission_index content_read = 7
permission_index content_create = 8
permission_index content_update = 9
permission_index content_delete = 10
permission_index ai_invoke = 11
permission_index ai_approve_tool = 12
permission_index audit_read = 13
permission_index document_read = 14
permission_index document_query = 15
permission_index document_upload = 16
permission_index document_delete = 17
permission_index document_hold = 18
permission_index document_release_hold = 19
permission_index gdpr_erase = 20
permission_index compliance_read = 21
permission_index compliance_write = 22
permission_index compliance_delete = 23
permission_index compliance_report = 24
permission_index oversight_read = 25
permission_index oversight_decide = 26

-- `===` on permissions
abbrev pub same_permission : Permission → Permission → Bool
same_permission p q = permission_index p == permission_index q

-- `ROLE_RANK[role]`
abbrev pub role_rank : Role → Option ℕ
role_rank viewer = some 0
role_rank member = some 1
role_rank admin = some 2
role_rank owner = some 3
role_rank unknown = none

abbrev pub viewer_permissions : List Permission
viewer_permissions =
    org_read ∷ member_read ∷ content_read ∷ document_read ∷ document_query ∷ compliance_read ∷ []

-- What the arrays `member`, `admin` and `owner` list after the spread of the one before.
abbrev pub member_added : List Permission
member_added = content_create ∷ content_update ∷ ai_invoke ∷ document_upload ∷ document_delete ∷ []

abbrev pub admin_added : List Permission
admin_added =
    org_update ∷ member_invite ∷ member_remove ∷ member_update_role ∷ content_delete
    ∷ ai_approve_tool ∷ audit_read ∷ document_hold ∷ compliance_write ∷ compliance_report
    ∷ oversight_read ∷ oversight_decide ∷ []

abbrev pub owner_added : List Permission
owner_added = org_delete ∷ document_release_hold ∷ gdpr_erase ∷ compliance_delete ∷ []

abbrev pub member_permissions : List Permission
member_permissions = viewer_permissions ++ member_added

abbrev pub admin_permissions : List Permission
admin_permissions = member_permissions ++ admin_added

abbrev pub owner_permissions : List Permission
owner_permissions = admin_permissions ++ owner_added

-- `ROLE_PERMISSIONS[role]`
abbrev pub role_permissions : Role → Option (List Permission)
role_permissions viewer = some viewer_permissions
role_permissions member = some member_permissions
role_permissions admin = some admin_permissions
role_permissions owner = some owner_permissions
role_permissions unknown = none

-- `clearanceForRole`; `undefined` is `none`
abbrev pub clearance_for_role : Role → Option ℕ
clearance_for_role role = role_rank role

-- `Set.has`
unfoldable pub has : List Permission → Permission → Bool
has ps p = any (λ q. same_permission q p) ps

unfoldable pub can : Role → Permission → Bool
unfolding has
can role p = elim (role_permissions role) [ none ↦ false | some ps ↦ has ps p ]

-- `(a ?? -1) >= (b ?? Infinity)`
abbrev pub at_least : Option ℕ → Option ℕ → Bool
at_least (some a) (some b) = leb b a
at_least (some a) none = false
at_least none _ = false

unfoldable pub has_at_least_role : Role → Role → Bool
has_at_least_role role minimum = at_least (role_rank role) (role_rank minimum)

-- `ForbiddenError`
pub data ForbiddenError : Type 0 where
  lacks : Role → Permission → ForbiddenError

unfoldable pub assert_can : Role → Permission → Result ForbiddenError (Unit {0})
unfolding can
assert_can role p = if can role p then ok tt else throw (lacks role p)

-- `request.authContext`
pub record AuthContext : Type 0 where
  pub user_id : ℕ
  pub org_id : ℕ
  pub role : Role
  pub session_id : ℕ

-- What a guard does with the request: a reply with a status code, or nothing.
pub data Verdict : Type 0 where
  reply : ℕ → Verdict
  proceed : Verdict

unfoldable pub require_auth : Option AuthContext → Verdict
require_auth none = reply 401
require_auth (some _) = proceed

unfoldable pub require_permission : Permission → Option AuthContext → Verdict
unfolding can
require_permission p none = reply 401
require_permission p (some ctx) = if can ctx.role p then proceed else reply 403

unfoldable pub require_role : Role → Option AuthContext → Verdict
unfolding has_at_least_role
require_role minimum none = reply 401
require_role minimum (some ctx) = if has_at_least_role ctx.role minimum then proceed else reply 403
