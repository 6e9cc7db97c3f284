-- ===== src/Tests/Access.antt =====
-- src/rbac and src/lib/hash.ts at small inputs.
use capybara_ai.Prelude.{true, some, none, ◌≡◌, ◌≢◌, refl, ◌↔◌, String, eq_iff}
use capybara_ai.Prelude.Effect.{throw}
use capybara_ai.Rbac.{
  viewer, admin, owner, unknown, Permission, can, has_at_least_role, audit_read, gdpr_erase,
  require_role, require_permission, require_auth, assert_can, lacks, AuthContext, proceed, reply,
}
use capybara_ai.Rbac.Laws.{has_at_least_role_iff_superset}
use capybara_ai.Hash.{Json, num, str, obj, arr, item, nil, end, field, canonical_json, sort_deep}
use capybara_ai.Hash.Canonical.{
  in_arr, both, in_obj, swap, no_field, none_left, canonical_json_same,
}
use capybara_ai.Tests.Order.{text_le-IsOrder}
use capybara_ai.Tests.Samples.{platform}

admin_is_not_unknown : admin ≢ unknown
admin_is_not_unknown e = cc

has_at_least_role_iff_superset_example :
    (has_at_least_role owner admin ≡ true)
    ↔ ((p : Permission) → can admin p ≡ true → can owner p ≡ true)
has_at_least_role_iff_superset_example =
    has_at_least_role_iff_superset admin owner admin_is_not_unknown

abbrev admin_context : AuthContext
admin_context = record { user_id = 5; org_id = 1; role = admin; session_id = 9 }

passes_admin : require_role admin (some admin_context) ≡ proceed
unfolding require_role
passes_admin = refl

may_read_audit : can admin audit_read ≡ true
unfolding can
may_read_audit = refl

erasure_is_for_owners : require_permission gdpr_erase (some admin_context) ≡ reply 403
unfolding require_permission
erasure_is_for_owners = refl

no_session : require_auth none ≡ reply 401
unfolding require_auth
no_session = refl

assertion_names_the_permission : assert_can viewer audit_read ≡ throw (lacks viewer audit_read)
unfolding assert_can
assertion_names_the_permission = refl

abbrev a_key : String
a_key = "a"

abbrev b_key : String
b_key = "b"

apart : a_key ≢ b_key
apart e = cc ((eq_iff a_key b_key).1 e)

abbrev forth : Json
forth = arr (item (obj (field a_key (num 1) (field b_key (str "x") end))) nil)

abbrev back : Json
back = arr (item (obj (field b_key (str "x") (field a_key (num 1) end))) nil)

canonical_json_same_example : canonical_json platform forth ≡ canonical_json platform back
canonical_json_same_example =
    canonical_json_same platform forth back text_le-IsOrder
      (in_arr (both (in_obj (swap apart no_field)) none_left))

canonical_back : canonical_json platform back ≡ "[{a:1,b:'x',},]"
unfolding canonical_json sort_deep
canonical_back = refl
