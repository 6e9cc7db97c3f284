-- ===== src/Tools/Sandbox.antt =====
-- `executeTool` of src/ai/tools/sandbox.ts, stage by stage in the order of the source: allowlist,
-- arguments, approval, oversight, isolation, then the handler against its timeout. Each stage is a
-- function of the value that the source tests. A run that takes as long as the timeout is cut off.
use capybara_ai.Prelude.{
  ℕ, String, Bool, true, false, Option, none, some, List, ltb, if◌then◌else◌, not, ◌&&◌,
}
use capybara_ai.Prelude.Effect.{Result, ok, throw, Action, pure, resume}
use capybara_ai.Hash.{Platform, Json}
use capybara_ai.Oversight.{RiskLevel, requires_oversight, OversightCheckResult, OversightGate}
use capybara_ai.Tools.{
  ToolDefinition, ToolInvocation, ToolResult, ExecuteOptions, Run, denied, pending_approval,
  build_context, get, refuse, finish, failed, bool_text,
}
use Prim.Native.String.{◌++◌ as append}

-- `Promise.race([handler, abortRejection])`
abbrev pub race : {S : Type 0} → ℕ → Run S → Result String ToolResult × S
race timeout_ms run =
    (if ltb run.elapsed_ms timeout_ms then run.outcome else throw "timeout", run.after)

module _ {S : Type 0} (o : ExecuteOptions S) where
  -- `options.oversight?.recordOutcome`
  abbrev pub recorder : Option (OversightGate S) → Option (ℕ → String → Action S String (Unit {0}))
  recorder none = none
  recorder (some gate) = gate.record_outcome

  -- `if (oversightRequestId && recordOutcome) await recordOutcome(…)`
  abbrev pub note_outcome :
      Option ℕ
      → Option (ℕ → String → Action S String (Unit {0}))
      → String
      → Action S String (Unit {0})
  note_outcome (some id) (some put) summary = put id summary
  note_outcome (some id) none summary = pure tt
  note_outcome none put summary = pure tt

  -- The rest of the `try` block once there is a result, and the `catch`.
  abbrev pub after_note :
      String → Json → ToolResult → Result String (Unit {0}) × S → Result String ToolInvocation × S
  after_note tool redacted result (ok _, s) = (ok (finish tool result redacted), s)
  after_note tool redacted result (throw e, s) = (ok (finish tool (failed e) redacted), s)

  abbrev pub report :
      String
      → Json
      → String
      → Option ℕ
      → Result String ToolResult × S
      → Result String ToolInvocation × S
  report tool redacted label id (ok result, s) =
      after_note tool redacted result
        (note_outcome id (recorder o.oversight) (append label (bool_text result.is_ok)) s)
  report tool redacted label id (throw e, s) = (ok (finish tool (failed e) redacted), s)

  abbrev pub run_isolated :
      ToolDefinition S
      → Json
      → Json
      → Option ℕ
      → Option (ToolDefinition S → Json → ℕ → Action S String ToolResult)
      → Action S String ToolInvocation
  run_isolated def args redacted id none s =
      pure (refuse def.name denied "isolation_unavailable" redacted) s
  run_isolated def args redacted id (some run) s =
      report def.name redacted "executed (isolated): ok=" id (run def args def.timeout_ms s)

  abbrev pub run_in_process :
      ToolDefinition S → Json → Json → Option ℕ → Action S String ToolInvocation
  run_in_process def args redacted id s =
      report def.name redacted "executed: ok=" id
        (race def.timeout_ms (def.handler args (build_context def.scopes o.secrets) s))

  -- 3c, on `def.requiresIsolation`
  abbrev pub run_tool :
      ToolDefinition S → Json → Json → Option ℕ → Bool → Action S String ToolInvocation
  run_tool def args redacted id true = run_isolated def args redacted id o.isolation_runner
  run_tool def args redacted id false = run_in_process def args redacted id

  -- 3b, on the answer of the gate
  abbrev pub after_check :
      ToolDefinition S → Json → Json → ℕ → Bool → Action S String ToolInvocation
  after_check def args redacted id true =
      run_tool def args redacted (some id) def.requires_isolation
  after_check def args redacted id false =
      pure (record (refuse def.name pending_approval "human_oversight_required" redacted) {
        request_id = some id;
      })

  abbrev pub ask_gate :
      ToolDefinition S
      → Json
      → Json
      → RiskLevel
      → Option (OversightGate S)
      → Action S String ToolInvocation
  ask_gate def args redacted level none s =
      pure (refuse def.name denied "oversight_unavailable" redacted) s
  ask_gate def args redacted level (some gate) s =
      resume (λ (c : OversightCheckResult). after_check def args redacted c.request_id c.approved)
        (gate.check def.name args level s)

  -- The level at which a tool needs oversight, if it does.
  abbrev pub oversight_level : Option RiskLevel → Option RiskLevel
  oversight_level none = none
  oversight_level (some level) = if requires_oversight level then some level else none

  abbrev pub oversee :
      ToolDefinition S → Json → Json → Option RiskLevel → Action S String ToolInvocation
  oversee def args redacted none = run_tool def args redacted none def.requires_isolation
  oversee def args redacted (some level) = ask_gate def args redacted level o.oversight

  -- 3, on whether an approval is missing
  abbrev pub approve : ToolDefinition S → Json → Json → Bool → Action S String ToolInvocation
  approve def args redacted true =
      pure (refuse def.name pending_approval "awaiting_human_approval" redacted)
  approve def args redacted false = oversee def args redacted (oversight_level def.risk_level)

  -- 2, on the parsed arguments
  abbrev pub validate : ToolDefinition S → Json → Option Json → Action S String ToolInvocation
  validate def redacted none s = pure (refuse def.name denied "invalid_arguments" redacted) s
  validate def redacted (some args) s =
      approve def args redacted (def.dangerous && not (o.is_approved def.name args s)) s

  -- 1, on the tool that the registry has
  abbrev pub allowlist :
      String → Json → Json → Option (ToolDefinition S) → Action S String ToolInvocation
  allowlist shown raw redacted none = pure (refuse shown denied "not_allowlisted" redacted)
  allowlist shown raw redacted (some def) = validate def redacted (def.input_schema raw)

unfoldable pub execute_tool :
    {S : Type 0}
    → Platform
    → List (ToolDefinition S)
    → Json
    → Json
    → ExecuteOptions S
    → Action S String ToolInvocation
unfolding get
execute_tool p tools name raw o =
    allowlist o (p.string_of name) raw (o.redactor raw) (get tools name)
