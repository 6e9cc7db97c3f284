-- ===== src/Tools/Gates.antt =====
-- What src/ai/tools/sandbox.ts requires before a tool runs, and what a tool may see of the secrets.
use capybara_ai.Prelude.{
  ℕ, String, Bool, true, false, Option, none, some, List, ◌&&◌, not, is_some, ◌≡◌, refl, ◌⊎◌, inl,
  inr, arith, string_eq,
}
use capybara_ai.Prelude.Effect.{Result, ok, throw, Action, resume}
use capybara_ai.Hash.{Platform, Json}
use capybara_ai.Oversight.{RiskLevel, OversightCheckResult, OversightGate}
use capybara_ai.Tools.{
  ToolDefinition, ToolInvocation, ToolResult, ToolDecision, ExecuteOptions, allowed, denied,
  pending_approval, get,
}
use capybara_ai.Tools.Sandbox.{
  allowlist, validate, approve, oversight_level, oversee, ask_gate, after_check, run_tool,
  run_isolated, execute_tool,
}

abbrev pub IsAllowed : ToolDecision → Type 0
IsAllowed allowed = Unit
IsAllowed denied = ⊥
IsAllowed pending_approval = ⊥

-- The action answered in a state, and the answer says that the tool ran.
abbrev pub Allows : {S : Type 0} → Result String ToolInvocation × S → Type 0
Allows (ok v, s) = IsAllowed v.decision
Allows (throw e, s) = ⊥

-- The gate that the options give approved the call in the state.
abbrev pub Approves : {S : Type 0} → Result String OversightCheckResult × S → Type 0
Approves (ok c, s) = c.approved ≡ true
Approves (throw e, s) = ⊥

abbrev pub GateApproves :
    {S : Type 0} → ToolDefinition S → Json → RiskLevel → Option (OversightGate S) → S → Type 0
GateApproves def args level none s = ⊥
GateApproves def args level (some gate) s = Approves (gate.check def.name args level s)

module _ {S : Type 0} (o : ExecuteOptions S) where
  -- Overseen: no level at which the tool needs oversight, or the approval of the gate.
  abbrev pub Overseen : ToolDefinition S → Json → Option RiskLevel → S → Type 0
  Overseen def args none s = Unit
  Overseen def args (some level) s = GateApproves def args level o.oversight s

  abbrev pub Isolated : ToolDefinition S → Type 0
  Isolated def = (def.requires_isolation ≡ false) ⊎ (is_some o.isolation_runner ≡ true)

  -- Everything that the sandbox must have found before it runs a tool.
  pub record Authorized (tools : List (ToolDefinition S)) (name raw : Json) (s : S) : Type 0 where
    def : ToolDefinition S
    listed : get tools name ≡ some def
    args : Json
    parsed : def.input_schema raw ≡ some args
    approved : (def.dangerous ≡ false) ⊎ (o.is_approved def.name args s ≡ true)
    overseen : Overseen def args (oversight_level o def.risk_level) s
    isolated : Isolated def

  run_tool-Isolated :
      (def : ToolDefinition S) (args redacted : Json) (id : Option ℕ) (b : Bool) (s : S)
      → Allows (run_tool o def args redacted id b s)
      → (b ≡ false) ⊎ (is_some o.isolation_runner ≡ true)
  run_tool-Isolated def args redacted id false s allows = inl refl
  run_tool-Isolated def args redacted id true s allows = runner o.isolation_runner allows
    where
      runner :
          (r : Option (ToolDefinition S → Json → ℕ → Action S String ToolResult))
          → Allows (run_isolated o def args redacted id r s)
          → (true ≡ false) ⊎ (is_some r ≡ true)
      runner none empty = absurd empty
      runner (some r) _ = inr refl

  after_check-Approves :
      (def : ToolDefinition S) (args redacted : Json) (a : Result String OversightCheckResult × S)
      → Allows (
          resume
            (λ (c : OversightCheckResult). after_check o def args redacted c.request_id c.approved)
            a)
      → Approves a × Isolated def
  after_check-Approves def args redacted (throw e, s) empty = absurd empty
  after_check-Approves def args redacted (ok c, s) allows = settled c.approved allows
    where
      settled :
          (b : Bool)
          → Allows (after_check o def args redacted c.request_id b s)
          → (b ≡ true) × Isolated def
      settled false empty = absurd empty
      settled true ran = (
        refl,
        run_tool-Isolated def args redacted (some c.request_id) def.requires_isolation s ran,
      )

  ask_gate-GateApproves :
      (def : ToolDefinition S) (args redacted : Json) (level : RiskLevel)
      (gate : Option (OversightGate S)) (s : S)
      → Allows (ask_gate o def args redacted level gate s)
      → GateApproves def args level gate s × Isolated def
  ask_gate-GateApproves def args redacted level none s empty = absurd empty
  ask_gate-GateApproves def args redacted level (some gate) s allows =
      after_check-Approves def args redacted (gate.check def.name args level s) allows

  oversee-Overseen :
      (def : ToolDefinition S) (args redacted : Json) (level : Option RiskLevel) (s : S)
      → Allows (oversee o def args redacted level s)
      → Overseen def args level s × Isolated def
  oversee-Overseen def args redacted none s allows =
      (tt, run_tool-Isolated def args redacted none def.requires_isolation s allows)
  oversee-Overseen def args redacted (some level) s allows =
      ask_gate-GateApproves def args redacted level o.oversight s allows

  abbrev Passed : ToolDefinition S → Json → Bool → S → Type 0
  Passed def args missing s =
      (missing ≡ false) × Overseen def args (oversight_level o def.risk_level) s × Isolated def

  approve-Passed :
      (def : ToolDefinition S) (args redacted : Json) (missing : Bool) (s : S)
      → Allows (approve o def args redacted missing s)
      → Passed def args missing s
  approve-Passed def args redacted true s empty = absurd empty
  approve-Passed def args redacted false s allows =
      let (seen, isolated) =
        oversee-Overseen def args redacted (oversight_level o def.risk_level) s allows in
      (refl, seen, isolated)

  not_missing :
      (dangerous given : Bool)
      → (dangerous && not given) ≡ false
      → (dangerous ≡ false) ⊎ (given ≡ true)
  not_missing false given h = inl refl
  not_missing true true h = inr refl
  not_missing true false h = absurd (ground arith)

  validate-Authorized :
      (tools : List (ToolDefinition S)) (name raw redacted : Json) (def : ToolDefinition S)
      (args : Option Json) (s : S)
      → get tools name ≡ some def
      → def.input_schema raw ≡ args
      → Allows (validate o def redacted args s)
      → Authorized tools name raw s
  validate-Authorized tools name raw redacted def none s listed parsed empty = absurd empty
  validate-Authorized tools name raw redacted def (some args) s listed parsed allows =
      let (present, overseen, isolated) =
        approve-Passed def args redacted (def.dangerous && not (o.is_approved def.name args s)) s
          allows in
      record {
        def = def;
        listed = listed;
        args = args;
        parsed = parsed;
        approved = not_missing def.dangerous (o.is_approved def.name args s) present;
        overseen = overseen;
        isolated = isolated;
      }

  allowlist-Authorized :
      (tools : List (ToolDefinition S)) (shown : String) (name raw redacted : Json)
      (found : Option (ToolDefinition S)) (s : S)
      → get tools name ≡ found
      → Allows (allowlist o shown raw redacted found s)
      → Authorized tools name raw s
  allowlist-Authorized tools shown name raw redacted none s listed empty = absurd empty
  allowlist-Authorized tools shown name raw redacted (some def) s listed allows =
      validate-Authorized tools name raw redacted def (def.input_schema raw) s listed refl allows

  -- When the sandbox answers that it ran a tool, the registry has the tool under the name, its
  -- schema accepts the arguments, it is not dangerous or the call is approved, a tool at a level
  -- that needs oversight has a gate whose check approved the call, and a tool that needs isolation
  -- has a runner.
  pub execute_tool-Authorized :
      (p : Platform) (tools : List (ToolDefinition S)) (name raw : Json) (s : S)
      → Allows (execute_tool p tools name raw o s)
      → Authorized tools name raw s
  unfolding execute_tool
  execute_tool-Authorized p tools name raw s allows =
      allowlist-Authorized tools (p.string_of name) name raw (o.redactor raw) (get tools name) s
        refl allows
