-- ===== src/Tests/Members.antt =====
-- src/admin/users.ts and src/auth/local.provider.ts on a small directory.
use capybara_ai.Prelude.{any, false, none, some, [], ◌∷◌, ◌==◌, string_eq, ◌≡◌, refl, arith}
use capybara_ai.Prelude.Effect.{ok, throw}
use capybara_ai.Rbac.{owner, admin, viewer}
use capybara_ai.Auth.Accounts.{User, Session, active}
use capybara_ai.Auth.Directory.{Directory, role_in}
use capybara_ai.Auth.Local.{Argon2, register, has_slug, authenticate, slug_from_email}
use capybara_ai.Auth.Local.Accepted.{Registration, register-IsRegistered}
use capybara_ai.Admin.Users.{
  change_role, deactivate_user, invite_user, unlock_user, owner_demotion, not_found, row_security,
}
use capybara_ai.Admin.Users.Roles.{
  owner_demoted_in_two_steps, change_role-IsRoleChange, IsRoleChange,
}
use capybara_ai.Admin.Users.Deactivation.{IsLockedOut, deactivate_user-IsLockedOut}
use capybara_ai.Tests.Samples.{platform, ctx, no_events}

-- A hash is the password.
abbrev argon : Argon2
argon = record { hash = λ salt s. s; verify = λ stored s. ok (stored == s) }

abbrev admin_user : User
admin_user = record {
  id = 5;
  email = "ada@x";
  password_hash = "pw5";
  status = active;
  mfa_enabled = false;
  mfa_secret = none;
  mfa_last_step = none;
  invite_token_hash = none;
}

abbrev boss : User
boss = record admin_user { id = 6; email = "bo@x"; password_hash = "pw6" }

abbrev boss_session : Session
boss_session = record {
  id = 1;
  token_hash = "t6";
  user_id = 6;
  org_id = some 1;
  expires_at = 100;
  revoked_at = none;
}

abbrev office : Directory
office = record {
  accounts = record {
    users = admin_user ∷ boss ∷ [];
    sessions = boss_session ∷ [];
    codes = [];
    next_id = 9;
  };
  organizations = [];
  memberships =
      record { org_id = 1; user_id = 5; role = admin }
      ∷ record { org_id = 1; user_id = 6; role = owner }
      ∷ [];
  audit = [];
  auth = record { lockouts = []; log = no_events };
}

slug_runs : slug_from_email platform "-a..b@x" "0f" ≡ "a-b-0f"
slug_runs = refl

boss_signs_in :
    authenticate platform argon "bo@x" "pw6" office.accounts
    ≡ some (record { user_id = 6; email = "bo@x" })
unfolding authenticate
boss_signs_in = refl

invited_stays_out :
    authenticate platform argon "c@x" "!invited"
      (invite_user platform ctx "tok" "c@x" viewer office).1.accounts
    ≡ none
unfolding authenticate invite_user
invited_stays_out = refl

unlock_stranger : (unlock_user platform ctx 77 office).0 ≡ throw not_found
unfolding unlock_user
unlock_stranger = refl

-- A member of two organisations cannot have a role changed in either by oneself.
abbrev two_offices : Directory
two_offices = record office {
  memberships = record { org_id = 2; user_id = 5; role = admin } ∷ office.memberships;
}

own_role_refused : (change_role ctx admin 5 viewer two_offices).0 ≡ throw row_security
unfolding change_role
own_role_refused = refl

change_role-IsRoleChange_example :
    IsRoleChange ctx admin 6 viewer office (change_role ctx admin 6 viewer office)
change_role-IsRoleChange_example = change_role-IsRoleChange ctx admin 6 viewer office

owner_demoted_in_two_steps_example :
    let risen = (change_role ctx admin 5 owner office).1 in
    ((change_role ctx admin 6 viewer office).0 ≡ throw owner_demotion)
    × (role_in ctx 5 risen ≡ some owner)
    × (role_in ctx 6 (change_role ctx owner 6 viewer risen).1 ≡ some viewer)
owner_demoted_in_two_steps_example =
    owner_demoted_in_two_steps ctx 6 office refl refl (omega arith) refl

deactivate_user-IsLockedOut_example :
    let o = deactivate_user ctx 50 6 office in
    (o.0 ≡ ok tt) × IsLockedOut platform argon 6 office.accounts o.1.accounts
deactivate_user-IsLockedOut_example =
    deactivate_user-IsLockedOut platform argon ctx 50 6 office (omega arith)

register-IsRegistered_example :
    Registration platform argon "salt" "0f" "new@x" "pw" office
      (any (has_slug platform argon "new-0f") office.organizations)
      (register platform argon "salt" "0f" "new@x" "pw" none office)
register-IsRegistered_example =
    register-IsRegistered platform argon "salt" "0f" "new@x" "pw" none office refl refl

-- A taken slug leaves a user without an organisation, whose address is taken.
abbrev slug_taken : Directory
slug_taken = record office { organizations = record { id = 1; slug = "new-0f"; name = "New" } ∷ [] }

half_registered :
    (register platform argon "salt" "1e" "new@x" "pw" none
      (register platform argon "salt" "0f" "new@x" "pw" none slug_taken).1).0
    ≡ throw "email already registered"
unfolding register
half_registered = refl
