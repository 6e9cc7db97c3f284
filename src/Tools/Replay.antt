-- ===== src/Tools/Replay.antt =====
-- A tool that the database's gate oversees (src/ai/tools/sandbox.ts with src/compliance/oversight.ts):
-- what its run is reported as.
use capybara_ai.Prelude.{ℕ, String, false, Option, some, ◌≡◌, refl}
use capybara_ai.Prelude.Effect.{Result, ok}
use capybara_ai.Hash.{Platform, Json}
use capybara_ai.Tenancy.{TenantContext}
use capybara_ai.Oversight.{
  OversightState, OversightRequest, has_status, pending, db_oversight_gate, trigger_error,
  decided_status,
}
use capybara_ai.Oversight.Decisions.{is_here, record_outcome_refused}
use capybara_ai.Tools.{ToolDefinition, ToolResult, ExecuteOptions, build_context, finish, failed}
use capybara_ai.Tools.Sandbox.{race, run_tool}
use mathlib.Core.List.{Memᴰ}

module _ (p : Platform) (encrypt : ℕ → String → String) (ctx : TenantContext)
    (notify : Option (ℕ → Result String (Unit {0}))) where
  -- A tool that runs in the process under an approved request of the database's gate, and whose
  -- handler ends in time with a result, is reported as failed, with what the query builder makes of the
  -- trigger's message, and the request is left as it was, not marked as used.
  pub run_tool-not_consumed :
      (o : ExecuteOptions OversightState) (def : ToolDefinition OversightState)
      (args redacted : Json) (r : OversightRequest) (result : ToolResult) (s later : OversightState)
      → o.oversight ≡ some (db_oversight_gate p encrypt ctx notify)
      → race def.timeout_ms (def.handler args (build_context def.scopes o.secrets) s)
        ≡ (ok result, later)
      → Memᴰ r later.requests
      → r.org_id ≡ ctx.org_id
      → has_status r.status pending ≡ false
      → run_tool o def args redacted (some r.id) false s ≡ (
        ok (
            finish def.name
              (failed (
                p.query_error
                  (trigger_error (decided_status (is_here p encrypt ctx r.id) later.requests))))
              redacted),
        later,
      )
  unfolding db_oversight_gate
  run_tool-not_consumed o def args redacted r result s later g h m org done =
      rw (h, g, record_outcome_refused p encrypt ctx r _ later m org done) refl
