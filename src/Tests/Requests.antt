-- ===== src/Tests/Requests.antt =====
-- src/compliance/oversight.ts at small inputs.
use capybara_ai.Prelude.{true, false, some, none, [], ◌∷◌, ◌≡◌, ◌≢◌, refl, arith}
use capybara_ai.Prelude.Effect.{ok}
use capybara_ai.Hash.{Json, num, str, obj, end, field, canonical_json, sort_deep}
use capybara_ai.Tenancy.{TenantContext}
use capybara_ai.Oversight.{
  OversightRequest, OversightState, high, pending, approved, rejected, check, decide,
  record_outcome, expire_stale,
}
use capybara_ai.Oversight.Forward.{
  here, next, decides, passes, expires, Reach-keeps_decided, operations_keep_foreign,
}
use capybara_ai.Oversight.Approvals.{check_approves}
use capybara_ai.Tests.Samples.{platform, encrypt, ctx, no_events}
use mathlib.Core.List.{Memᴰ}

abbrev pub args : Json
args = obj (field "to" (str "x") end)

abbrev pub approved_request : OversightRequest
approved_request = record {
  id = 7;
  org_id = 1;
  requested_by = 5;
  tool_name = "mail";
  tool_args_hash = "{to:'x',}";
  tool_args_encrypted = "sealed:{to:'x',}";
  risk_level = high;
  status = approved;
  decided_by = some 6;
  decided_at = some 2;
  expires_at = 100;
  outcome_summary = none;
  created_at = 1;
}

abbrev open_request : OversightRequest
open_request = record approved_request {
  id = 8;
  tool_name = "shell";
  status = pending;
  decided_by = none;
  decided_at = none;
}

abbrev pub requests : OversightState
requests = record {
  requests = approved_request ∷ open_request ∷ [];
  log = no_events;
  next_id = 9;
  now = 3;
}

abbrev other_ctx : TenantContext
other_ctx = record ctx { org_id = 2 }

Reach-keeps_decided_example :
    Memᴰ approved_request
      (expire_stale platform ctx
        (record (decide platform encrypt ctx 8 6 rejected requests).1 { now = 200 })).1.requests
Reach-keeps_decided_example =
    Reach-keeps_decided platform encrypt approved_request refl (Memᴰ.head refl)
      (next (next (next here (decides ctx 8 6 rejected)) (passes 200)) (expires ctx))

is_foreign : approved_request.org_id ≢ other_ctx.org_id
is_foreign e = omega (arith, e)

operations_keep_foreign_example :
    Memᴰ approved_request (expire_stale platform other_ctx requests).1.requests
    × Memᴰ approved_request
        (check platform encrypt other_ctx none "mail" args high requests).1.requests
    × Memᴰ approved_request (record_outcome platform encrypt other_ctx 7 "done" requests).1.requests
    × Memᴰ approved_request (decide platform encrypt other_ctx 7 6 rejected requests).1.requests
operations_keep_foreign_example =
    operations_keep_foreign platform encrypt other_ctx approved_request requests none "mail" args
      high 7 6 rejected "done" is_foreign (Memᴰ.head refl)

usable_check :
    (check platform encrypt ctx none "mail" args high requests).0
    ≡ ok (record { approved = true; request_id = 7 })
unfolding check canonical_json sort_deep
usable_check = refl

check_approves_example :
    (r : OversightRequest) × Memᴰ r
      (check platform encrypt ctx none "mail" args high requests).1.requests
    × (r.id ≡ 7)
    × (r.org_id ≡ 1)
    × (r.tool_name ≡ "mail")
    × (r.tool_args_hash ≡ platform.sha256_hex (canonical_json platform args))
    × (r.status ≡ approved)
    × (r.outcome_summary ≡ none)
check_approves_example =
    check_approves platform encrypt ctx none "mail" args high requests
      (record { approved = true; request_id = 7 }) usable_check refl

-- The approval of other arguments is none: a request is filed, and the call waits.
other_arguments_wait :
    (check platform encrypt ctx none "mail" (num 1) high requests).0
    ≡ ok (record { approved = false; request_id = 9 })
unfolding check canonical_json sort_deep
other_arguments_wait = refl
