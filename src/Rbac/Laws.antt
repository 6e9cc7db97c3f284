-- ===== src/Rbac/Laws.antt =====
-- The capability matrix of src/rbac/roles.ts and the rank agree.
use capybara_ai.Prelude.{
  ◌≡◌, refl, ◌≢◌, ◌↔◌, Bool, true, false, Option, none, some, inl, inr, Bool-cases, List, [], ◌∷◌,
  ◌++◌, any, arith,
}
use capybara_ai.Rbac.{
  Role, viewer, member, admin, owner, unknown, Permission, org_read, content_create, org_update,
  org_delete, viewer_permissions, member_permissions, admin_permissions, member_added, admin_added,
  owner_added, has, can, has_at_least_role, AuthContext, proceed, require_role, require_permission,
}

any-append :
    {A : Type 0} (p : A → Bool) (xs ys : List A) → any p xs ≡ true → any p (xs ++ ys) ≡ true
any-append p [] ys h = cc
any-append p (x ∷ xs) ys h = ground (arith, any-append p xs ys)

has-append : (ps qs : List Permission) (p : Permission) → has ps p ≡ true → has (ps ++ qs) p ≡ true
unfolding has
has-append ps qs p h = any-append _ ps qs h

viewer→member : (p : Permission) → can viewer p ≡ true → can member p ≡ true
unfolding can
viewer→member p h = has-append viewer_permissions member_added p h

member→admin : (p : Permission) → can member p ≡ true → can admin p ≡ true
unfolding can
member→admin p h = has-append member_permissions admin_added p h

admin→owner : (p : Permission) → can admin p ≡ true → can owner p ≡ true
unfolding can
admin→owner p h = has-append admin_permissions owner_added p h

can_mono :
    (r s : Role) (p : Permission) → has_at_least_role s r ≡ true → can r p ≡ true → can s p ≡ true
unfolding has_at_least_role can
can_mono viewer viewer p h c = c
can_mono viewer member p h c = viewer→member p c
can_mono viewer admin p h c = member→admin p (viewer→member p c)
can_mono viewer owner p h c = admin→owner p (member→admin p (viewer→member p c))
can_mono member member p h c = c
can_mono member admin p h c = member→admin p c
can_mono member owner p h c = admin→owner p (member→admin p c)
can_mono admin admin p h c = c
can_mono admin owner p h c = admin→owner p c
can_mono owner owner p h c = c
can_mono _ _ p h c = cc

-- The permission that a role adds to those below it.
abbrev own_permission : Role → Permission
own_permission member = content_create
own_permission admin = org_update
own_permission owner = org_delete
own_permission _ = org_read

can-own : (r : Role) → r ≢ unknown → can r (own_permission r) ≡ true
unfolding can
can-own viewer h = refl
can-own member h = refl
can-own admin h = refl
can-own owner h = refl
can-own unknown h = absurd (h refl)

at_least_of_own :
    (r s : Role) → r ≢ unknown → can s (own_permission r) ≡ true → has_at_least_role s r ≡ true
unfolding can has_at_least_role
at_least_of_own unknown s h c = absurd (h refl)
at_least_of_own viewer unknown h c = c
at_least_of_own member viewer h c = c
at_least_of_own member unknown h c = c
at_least_of_own admin viewer h c = c
at_least_of_own admin member h c = c
at_least_of_own admin unknown h c = c
at_least_of_own owner viewer h c = c
at_least_of_own owner member h c = c
at_least_of_own owner admin h c = c
at_least_of_own owner unknown h c = c
at_least_of_own _ _ h c = refl

-- For each of the four roles `r`: a role is at least `r` by rank exactly when it holds every
-- permission of `r`.
pub has_at_least_role_iff_superset :
    (r s : Role)
    → r ≢ unknown
    → (has_at_least_role s r ≡ true) ↔ ((p : Permission) → can r p ≡ true → can s p ≡ true)
has_at_least_role_iff_superset r s h =
    (λ least p. can_mono r s p least, λ sup. at_least_of_own r s h (sup _ (can-own r h)))

can-owner : (p : Permission) → can owner p ≡ true
unfolding can
can-owner org_read = refl
can-owner _ = refl

at_least-none : (r : Role) → has_at_least_role r unknown ≡ false
unfolding has_at_least_role
at_least-none viewer = refl
at_least-none _ = refl

-- The owner holds every permission, and a role outside the four holds none and passes no rank test.
pub can_extremes :
    (p : Permission) (r : Role)
    → (can owner p ≡ true)
      × (can unknown p ≡ false)
      × (has_at_least_role unknown r ≡ false)
      × (has_at_least_role r unknown ≡ false)
unfolding can has_at_least_role
can_extremes p r = (can-owner p, refl, refl, at_least-none r)

no_context :
    (r : Role) (p : Permission)
    → require_role r none ≡ proceed
    → require_permission p none ≡ proceed
unfolding require_role
no_context r p e = cc

context_passes :
    (r : Role) (p : Permission) (ctx : AuthContext)
    → can r p ≡ true
    → require_role r (some ctx) ≡ proceed
    → require_permission p (some ctx) ≡ proceed
unfolding require_role require_permission
context_passes r p ctx c q = elim (Bool-cases (has_at_least_role ctx.role r)) [
  | inl least ↦ rw (can_mono r ctx.role p least c)
  | inr less ↦ cc less
]

-- A request that passes the guard for the role `r` passes the guard for every permission of `r`.
pub require_role-require_permission :
    (r : Role) (p : Permission) (ctx : Option AuthContext)
    → can r p ≡ true
    → require_role r ctx ≡ proceed
    → require_permission p ctx ≡ proceed
require_role-require_permission r p none c q = no_context r p q
require_role-require_permission r p (some ctx) c q = context_passes r p ctx c q
