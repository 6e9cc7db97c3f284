-- ===== src/Admin/Users/Roles.antt =====
-- What `changeRole` of src/admin/users.ts does to the roles in the organisation of the caller, in
-- others, and in two steps.
use capybara_ai.Prelude.{
  ℕ, true, false, Bool-cases, Option, none, some, List, [], ◌∷◌, ◌≡◌, ◌≢◌, ◌⊎◌, refl, sym, inl, inr,
  not, nat_eq, arith, ap, ◌∙◌,
}
use capybara_ai.Prelude.Effect.{ok, throw}
use capybara_ai.Prelude.Table.{first_where, select_where, first_where-update_apart}
use capybara_ai.Rbac.{Role, viewer, admin, owner}
use capybara_ai.Tenancy.{TenantContext, in_tenant}
use capybara_ai.Auth.Directory.{
  Directory, Membership, visible_of, writes_foreign, member_here, role_of_row, role_in,
}
use capybara_ai.Admin.Users.{
  AdminError, Outcome, change_role, change_found, with_role, demotes_owner, owner_demotion,
  row_security, not_found,
}

module _ (ctx : TenantContext) where
  -- Where no row of another organisation is touched, the visible rows of a user are those here.
  first_here :
      (target : ℕ) (rows : List Membership)
      → writes_foreign ctx target rows ≡ false
      → first_where (visible_of ctx target) rows ≡ first_where (member_here ctx target) rows
  first_here target [] h = refl
  first_here target (m ∷ rows) h = ground (arith, first_here target rows)

  -- The rows of the other organisations.
  abbrev pub elsewhere : List Membership → List Membership
  elsewhere = select_where (λ (m : Membership). not (in_tenant ctx m.org_id))

  elsewhere-with_role :
      (target : ℕ) (new : Role) (rows : List Membership)
      → writes_foreign ctx target rows ≡ false
      → elsewhere (with_role ctx target new rows) ≡ elsewhere rows
  elsewhere-with_role target new [] h = refl
  elsewhere-with_role target new (m ∷ rows) h = ground (arith, elsewhere-with_role target new rows)

  first_here-with_role :
      (target : ℕ) (new : Role) (rows : List Membership)
      → writes_foreign ctx target rows ≡ false
      → first_where (visible_of ctx target) rows ≢ none
      → role_of_row (first_where (member_here ctx target) (with_role ctx target new rows))
        ≡ some new
  first_here-with_role target new [] h k = absurd (k refl)
  first_here-with_role target new (m ∷ rows) h k =
      ground (arith, first_here-with_role target new rows, k)

  role_apart :
      (target other : ℕ) (new : Role) (rows : List Membership)
      → other ≢ target
      → first_where (member_here ctx other) (with_role ctx target new rows)
        ≡ first_where (member_here ctx other) rows
  role_apart target other new rows apart =
      first_where-update_apart (visible_of ctx target) (member_here ctx other)
        (λ (m : Membership). record m { role = new }) rows (λ m h. ground (arith))

-- What a call leaves: an error changes nothing; the rows of other organisations stay as they are, also
-- those of the caller, which the policy shows; a user that is not the target keeps the role; the
-- target has the new role; and an owner is demoted only by an owner.
pub record IsRoleChange (ctx : TenantContext) (actor : Role) (target : ℕ) (new : Role)
    (s : Directory) (o : Outcome (Unit {0})) : Type 0 where
  pub refused : (e : AdminError) → o.0 ≡ throw e → o.1 ≡ s
  pub foreign : elsewhere ctx o.1.memberships ≡ elsewhere ctx s.memberships
  pub others : (user : ℕ) → user ≢ target → role_in ctx user o.1 ≡ role_in ctx user s
  pub changed : o.0 ≡ ok tt → role_in ctx target o.1 ≡ some new
  pub guarded : o.0 ≡ ok tt → role_in ctx target s ≡ some owner → (new ≡ owner) ⊎ (actor ≡ owner)

module _ (ctx : TenantContext) (actor : Role) (target : ℕ) (new : Role) (s : Directory) where
  throw-IsRoleChange : (e : AdminError) → IsRoleChange ctx actor target new s (throw e, s)
  throw-IsRoleChange e = record {
    refused = λ e' h. refl;
    foreign = refl;
    others = λ user apart. refl;
    changed = λ h. absurd (cc);
    guarded = λ h. absurd (cc);
  }

  guard_of_owner :
      (current : Role)
      → demotes_owner actor current new ≡ false
      → current ≡ owner
      → (new ≡ owner) ⊎ (actor ≡ owner)
  guard_of_owner current h e = ground (arith)

  change_found-IsRoleChange :
      (found : Option Membership)
      → first_where (visible_of ctx target) s.memberships ≡ found
      → IsRoleChange ctx actor target new s (change_found ctx actor target new found s)
  change_found-IsRoleChange none e = throw-IsRoleChange not_found
  change_found-IsRoleChange (some current) e =
      elim (Bool-cases (demotes_owner actor current.role new)) [
        | inl q ↦ rw q (throw-IsRoleChange owner_demotion)
        | inr allowed ↦ elim (Bool-cases (writes_foreign ctx target s.memberships)) [
          | inl q ↦ rw (allowed, q) (throw-IsRoleChange row_security)
          | inr here_only ↦
              rw (allowed, here_only)
                (record {
                  refused = λ e' h. absurd (cc);
                  foreign = elsewhere-with_role ctx target new s.memberships here_only;
                  others = λ user apart.
                      ap role_of_row (role_apart ctx target user new s.memberships apart);
                  changed =
                      λ _. first_here-with_role ctx target new s.memberships here_only (λ n. cc);
                  guarded = λ _ was.
                      let same = sym (first_here ctx target s.memberships here_only) ∙ e in
                      guard_of_owner current.role allowed (cc (rw same at was));
                })
        ]
      ]

-- A change of role does only that, whichever way it ends: an error changes nothing; the memberships of
-- other organisations are untouched; other users keep their roles; after a success the target has the new
-- role; and where an owner loses the role, the caller acted as an owner.
pub change_role-IsRoleChange :
    (ctx : TenantContext) (actor : Role) (target : ℕ) (new : Role) (s : Directory)
    → IsRoleChange ctx actor target new s (change_role ctx actor target new s)
unfolding change_role
change_role-IsRoleChange ctx actor target new s =
    change_found-IsRoleChange ctx actor target new s _ refl

module _ (ctx : TenantContext) where
  -- The rows of another user than the caller are those of the organisation.
  writes_foreign-of_other :
      (target : ℕ) (rows : List Membership)
      → target ≢ ctx.user_id
      → writes_foreign ctx target rows ≡ false
  writes_foreign-of_other target [] apart = refl
  writes_foreign-of_other target (m ∷ rows) apart =
      ground (arith, writes_foreign-of_other target rows)

  found_allowed :
      (actor : Role) (target : ℕ) (current new : Role) (s : Directory) (found : Option Membership)
      → writes_foreign ctx target s.memberships ≡ false
      → role_of_row found ≡ some current
      → demotes_owner actor current new ≡ false
      → (change_found ctx actor target new found s).0 ≡ ok tt
  found_allowed actor target current new s none here_only was allowed = absurd (cc)
  found_allowed actor target current new s (some m) here_only was allowed =
      let same : m.role ≡ current = cc in rw (same, allowed, here_only) refl

  change_role_allowed :
      (actor : Role) (target : ℕ) (current new : Role) (s : Directory)
      → writes_foreign ctx target s.memberships ≡ false
      → role_in ctx target s ≡ some current
      → demotes_owner actor current new ≡ false
      → (change_role ctx actor target new s).0 ≡ ok tt
  unfolding change_role
  change_role_allowed actor target current new s here_only was allowed =
      found_allowed actor target current new s _ here_only
        (ap role_of_row (first_here ctx target s.memberships here_only) ∙ was) allowed

  found_refused :
      (actor : Role) (target : ℕ) (new : Role) (s : Directory) (found : Option Membership)
      → role_of_row found ≡ some owner
      → demotes_owner actor owner new ≡ true
      → (change_found ctx actor target new found s).0 ≡ throw owner_demotion
  found_refused actor target new s none was refused = absurd (cc)
  found_refused actor target new s (some m) was refused =
      let same : m.role ≡ owner = cc in rw (same, refused) refl

  change_role_refused :
      (actor : Role) (target : ℕ) (new : Role) (s : Directory)
      → target ≢ ctx.user_id
      → role_in ctx target s ≡ some owner
      → demotes_owner actor owner new ≡ true
      → (change_role ctx actor target new s).0 ≡ throw owner_demotion
  unfolding change_role
  change_role_refused actor target new s apart was refused =
      found_refused actor target new s _
        (ap role_of_row (
            first_here ctx target s.memberships
              (writes_foreign-of_other target s.memberships apart))
          ∙ was)
        refused

-- An admin, who is a member of no other organisation, is refused the demotion of an owner; but an admin may
-- take the role of an owner, and then demote that owner to a viewer.
pub owner_demoted_in_two_steps :
    (ctx : TenantContext) (boss : ℕ) (s : Directory)
    → role_in ctx ctx.user_id s ≡ some admin
    → writes_foreign ctx ctx.user_id s.memberships ≡ false
    → boss ≢ ctx.user_id
    → role_in ctx boss s ≡ some owner
    → let risen = (change_role ctx admin ctx.user_id owner s).1 in
      ((change_role ctx admin boss viewer s).0 ≡ throw owner_demotion)
      × (role_in ctx ctx.user_id risen ≡ some owner)
      × (role_in ctx boss (change_role ctx owner boss viewer risen).1 ≡ some viewer)
owner_demoted_in_two_steps ctx boss s self here_only apart was =
    let risen = (change_role ctx admin ctx.user_id owner s).1 in
    let up = change_role-IsRoleChange ctx admin ctx.user_id owner s in
    let still : role_in ctx boss risen ≡ some owner = up.others boss apart ∙ was in
    let down = change_role-IsRoleChange ctx owner boss viewer risen in
    (
      change_role_refused ctx admin boss viewer s apart was refl,
      up.changed (change_role_allowed ctx admin ctx.user_id admin owner s here_only self refl),
      down.changed (
          change_role_allowed ctx owner boss owner viewer risen
            (writes_foreign-of_other ctx boss risen.memberships apart) still refl),
    )
