-- ===== src/Tests/Calls.antt =====
-- src/ai/tools at small inputs.
use capybara_ai.Prelude.{
  true, false, some, none, List, [], ◌∷◌, ◌≡◌, refl, string_eq, includes, if◌then◌else◌,
}
use capybara_ai.Prelude.Effect.{ok}
use capybara_ai.Hash.{Json, num, str, canonical_json, sort_deep}
use capybara_ai.Oversight.{
  OversightState, high, approved, db_oversight_gate, trigger_error, decided_status,
  requires_oversight,
}
use capybara_ai.Tools.{
  ToolDefinition, ToolResult, ExecuteOptions, ToolScopes, ToolContext, Run, build_context,
  secret_of, finish, failed, listed_secrets, refuse, denied,
}
use capybara_ai.Tools.Registry.{register}
use capybara_ai.Tools.Sandbox.{execute_tool, run_tool}
use capybara_ai.Tools.Gates.{Allows, Authorized, execute_tool-Authorized}
use capybara_ai.Tools.Secrets.{secret_of-build_context}
use capybara_ai.Oversight.Decisions.{is_here}
use capybara_ai.Tools.Replay.{run_tool-not_consumed}
use capybara_ai.Tests.Samples.{platform, encrypt, ctx}
use capybara_ai.Tests.Requests.{args, approved_request, requests}
use mathlib.Core.List.{Memᴰ}

abbrev sent : ToolResult
sent = record { is_ok = true; output = some (num 1); error = none }

abbrev scopes : ToolScopes
scopes = record { fs = none; network = none; shell = none; secrets = some ("MAIL_KEY" ∷ []) }

abbrev send_mail : Json → ToolContext → OversightState → Run OversightState
send_mail a c s = record { elapsed_ms = 5; outcome = ok sent; after = s }

abbrev mail : ToolDefinition OversightState
mail = record {
  name = "mail";
  input_schema = λ raw. some raw;
  dangerous = true;
  risk_level = some high;
  scopes = scopes;
  timeout_ms = 50;
  requires_isolation = false;
  handler = send_mail;
}

abbrev options : ExecuteOptions OversightState
options = record {
  is_approved = λ tool a s. true;
  secrets = ("MAIL_KEY", "k1") ∷ ("DB_KEY", "k2") ∷ [];
  redactor = λ raw. str "redacted";
  oversight = some (db_oversight_gate platform encrypt ctx none);
  isolation_runner = none;
}

abbrev tools : List (ToolDefinition OversightState)
tools = mail ∷ []

registers : register [] mail ≡ ok tools
unfolding register
registers = refl

secret_of-build_context_example :
    secret_of (build_context scopes options.secrets).secrets "DB_KEY" ≡ (
      if includes (listed_secrets scopes) "DB_KEY"
      then secret_of options.secrets "DB_KEY"
      else none)
secret_of-build_context_example = secret_of-build_context scopes options.secrets "DB_KEY"

runs_mail : execute_tool platform tools (str "mail") args options requests ≡ (
  ok (finish "mail" (failed (platform.query_error (trigger_error approved))) (str "redacted")),
  requests,
)
unfolding execute_tool db_oversight_gate requires_oversight canonical_json sort_deep
runs_mail = refl

ran : Allows (execute_tool platform tools (str "mail") args options requests)
unfolding execute_tool db_oversight_gate requires_oversight canonical_json sort_deep
ran = tt

execute_tool-Authorized_example : Authorized options tools (str "mail") args requests
execute_tool-Authorized_example =
    execute_tool-Authorized options platform tools (str "mail") args requests ran

run_tool-not_consumed_example :
    run_tool options mail args (str "redacted") (some approved_request.id) false requests ≡ (
      ok (
          finish mail.name
            (failed (
              platform.query_error (
                trigger_error (
                  decided_status
                    (is_here platform encrypt ctx approved_request.id)
                    requests.requests))))
            (str "redacted")),
      requests,
    )
run_tool-not_consumed_example =
    run_tool-not_consumed platform encrypt ctx none options mail args (str "redacted")
      approved_request sent requests requests refl refl (Memᴰ.head refl) refl refl

unknown_tool_is_denied :
    execute_tool platform tools (str "rm") args options requests
    ≡ (ok (refuse "'rm'" denied "not_allowlisted" (str "redacted")), requests)
unfolding execute_tool
unknown_tool_is_denied = refl
