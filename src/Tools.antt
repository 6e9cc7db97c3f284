-- ===== src/Tools.antt =====
-- The tool sandbox: src/ai/tools/registry.ts, approval.ts, tool.types.ts and sandbox.ts. `S` is the
-- state of the world that the tools, the gates and the isolation runner read and change. A Zod
-- schema is the function that parses the arguments. The race of a handler against its timeout is
-- read off the milliseconds that the handler takes.
pub mod Approval
pub mod Sandbox
pub mod Registry
pub mod Gates
pub mod Replay
pub mod Secrets
pub mod Scopes
use capybara_ai.Prelude.{
  ℕ, String, Bool, true, false, Option, none, some, List, [], ◌∷◌, ◌++◌, ltb, if◌then◌else◌, not,
  ◌==◌, string_eq, ◌&&◌,
}
use capybara_ai.Prelude.Table.{first_where}
use capybara_ai.Prelude.Effect.{Result, ok, throw, Action, pure, raise, ◌>>=◌}
use capybara_ai.Hash.{Platform, Json, null, bool, num, str, arr, obj, canonical_json}
use capybara_ai.Oversight.{RiskLevel, requires_oversight, OversightCheckResult, OversightGate}
use Prim.Native.String.{◌++◌ as append}

pub data FsMode : Type 0 where
  no_access read readwrite : FsMode

pub record FsScope : Type 0 where
  pub mode : FsMode
  pub allowed_paths : List String

pub record NetworkScope : Type 0 where
  pub allowed_hosts : List String
  pub allow_private_ranges : Bool

pub record ShellScope : Type 0 where
  pub allowed_commands : List String

pub record ToolScopes : Type 0 where
  pub fs : Option FsScope
  pub network : Option NetworkScope
  pub shell : Option ShellScope
  pub secrets : Option (List String)

-- The capabilities are the scopes that they are made from.
pub record ToolContext : Type 0 where
  pub fs : Option FsScope
  pub net : Option NetworkScope
  pub shell : Option ShellScope
  pub secrets : List (String × String)

pub record ToolResult : Type 0 where
  pub is_ok : Bool
  pub output : Option Json
  pub error : Option String

-- A handler's run: the milliseconds until it settles, what it comes to, and the world after it.
pub record Run (S : Type 0) : Type 0 where
  pub elapsed_ms : ℕ
  pub outcome : Result String ToolResult
  pub after : S

pub record ToolDefinition (S : Type 0) : Type 0 where
  pub name : String
  pub input_schema : Json → Option Json
  pub dangerous : Bool
  pub risk_level : Option RiskLevel
  pub scopes : ToolScopes
  pub timeout_ms : ℕ
  pub requires_isolation : Bool
  pub handler : Json → ToolContext → S → Run S

pub data ToolDecision : Type 0 where
  allowed denied pending_approval : ToolDecision

pub record ToolInvocation : Type 0 where
  pub tool : String
  pub decision : ToolDecision
  pub result : Option ToolResult
  pub reason : Option String
  pub request_id : Option ℕ
  pub redacted_args : Json

pub record ExecuteOptions (S : Type 0) : Type 0 where
  pub is_approved : String → Json → S → Bool
  pub secrets : List (String × String)
  pub redactor : Json → Json
  pub oversight : Option (OversightGate S)
  pub isolation_runner : Option (ToolDefinition S → Json → ℕ → Action S String ToolResult)

-- `deps.secrets[key]`
abbrev pub secret_of : List (String × String) → String → Option String
secret_of [] key = none
secret_of ((k, v) ∷ rest) key = if k == key then some v else secret_of rest key

-- `if (value !== undefined) grantedSecrets[key] = value`
abbrev pub grant_secret : String → Option String → List (String × String) → List (String × String)
grant_secret key none rest = rest
grant_secret key (some value) rest = (key, value) ∷ rest

-- The loop over `scopes.secrets`.
abbrev pub granted_secrets : List (String × String) → List String → List (String × String)
granted_secrets available [] = []
granted_secrets available (key ∷ keys) =
    grant_secret key (secret_of available key) (granted_secrets available keys)

abbrev pub listed_secrets : ToolScopes → List String
listed_secrets scopes = elim scopes.secrets [ none ↦ [] | some keys ↦ keys ]

unfoldable pub build_context : ToolScopes → List (String × String) → ToolContext
build_context scopes available = record {
  fs = scopes.fs;
  net = scopes.network;
  shell = scopes.shell;
  secrets = granted_secrets available (listed_secrets scopes);
}

-- `ToolRegistry.get`: the tools in the order of their registration; a name that is no text, or that
-- no tool has, is unknown.
unfoldable pub get : {S : Type 0} → List (ToolDefinition S) → Json → Option (ToolDefinition S)
get {S = S} tools (str name) = first_where (λ (t : ToolDefinition S). t.name == name) tools
get {S = S} tools _ = none

abbrev pub refuse : String → ToolDecision → String → Json → ToolInvocation
refuse tool decision reason redacted = record {
  tool = tool;
  decision = decision;
  result = none;
  reason = some reason;
  request_id = none;
  redacted_args = redacted;
}

abbrev pub finish : String → ToolResult → Json → ToolInvocation
finish tool result redacted = record {
  tool = tool;
  decision = allowed;
  result = some result;
  reason = none;
  request_id = none;
  redacted_args = redacted;
}

abbrev pub failed : String → ToolResult
failed error = record { is_ok = false; output = none; error = some error }

abbrev pub bool_text : Bool → String
bool_text true = "true"
bool_text false = "false"
