-- ===== src/Tests/Keys.antt =====
-- src/integrations/apiKeys.ts and src/http/apiKeyAuth.ts at small inputs.
use capybara_ai.Prelude.{◌<>◌, some, [], ◌∷◌, ◌≡◌, ◌≢◌, refl, ◌⊎◌, arith}
use capybara_ai.Prelude.Effect.{ok, throw}
use capybara_ai.Prelude.Table.{first_where}
use capybara_ai.Rbac.{reply, proceed}
use capybara_ai.Tenancy.{TenantContext}
use capybara_ai.Integrations.ApiKeys.{
  ApiKey, ApiState, CreatedApiKey, NewApiKey, prefix, has_hash, hash_key, create_api_key,
  revoke_api_key, guard_api, then_scope, bearer_auth, authenticate_api_key, require_scope,
}
use capybara_ai.Integrations.ApiKeys.Life.{answer_in_force, create_api_key-IsKey}
use capybara_ai.Tests.Samples.{platform, ctx}

abbrev input : NewApiKey
input = record { name = "reporting"; scopes = "chat:read" ∷ []; expires_at = some 50 }

abbrev empty : ApiState
empty = record { keys = []; audit = []; next_id = 4 }

abbrev elsewhere : TenantContext
elsewhere = record ctx { org_id = 2 }

abbrev with_key : ApiState
unfolding create_api_key
with_key = (create_api_key platform ctx "abcdef" input empty).1

in_force :
    (guard_api platform 50 "chat:read" "GET" "/api/v1/me" (some "Bearer capy_abcdef") with_key).0
    ≡ proceed
unfolding guard_api then_scope bearer_auth authenticate_api_key create_api_key require_scope
in_force = refl

out_of_scope :
    (guard_api platform 50 "chat:write" "GET" "/api/v1/me" (some "Bearer capy_abcdef") with_key).0
    ≡ reply 403
unfolding guard_api then_scope bearer_auth authenticate_api_key create_api_key require_scope
out_of_scope = refl

too_late :
    (guard_api platform 51 "chat:read" "GET" "/api/v1/me" (some "Bearer capy_abcdef") with_key).0
    ≡ reply 401
unfolding guard_api then_scope bearer_auth authenticate_api_key create_api_key require_scope
too_late = refl

elsewhere_apart : elsewhere.org_id ≢ ctx.org_id
elsewhere_apart = omega arith

create_api_key-IsKey_example :
    ((q : ApiKey) × (first_where
          (has_hash platform (hash_key platform (prefix <> "abcdef")))
          empty.keys
        ≡ some q)
      × (create_api_key platform ctx "abcdef" input empty ≡ (throw "duplicate key value", empty)))
    ⊎ ((created : CreatedApiKey) × (t : ApiState) × (create_api_key platform ctx "abcdef" input
            empty
          ≡ (ok created, t))
        × ((guard_api platform 30 "chat:read" "GET" "/me" (some ("Bearer " <> created.key)) t).0
            ≡ answer_in_force 30 "chat:read" input)
        × ((guard_api platform 30 "chat:read" "GET" "/me"
              (some ("Bearer " <> created.key))
              (revoke_api_key ctx created.id t).1).0
            ≡ reply 401)
        × ((guard_api platform 30 "chat:read" "GET" "/me"
              (some ("Bearer " <> created.key))
              (revoke_api_key elsewhere 4 t).1).0
            ≡ answer_in_force 30 "chat:read" input))
create_api_key-IsKey_example =
    create_api_key-IsKey platform 30 "chat:read" "GET" "/me" ctx elsewhere "abcdef" input 4 empty
      elsewhere_apart
