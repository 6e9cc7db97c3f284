-- ===== src/Integrations/ApiKeys.antt =====
-- API keys and the requests that carry them: src/integrations/apiKeys.ts and src/http/apiKeyAuth.ts over
-- `api_keys` of src/db/schema/enterprise.ts, with the policy, the unique hash and `api_key_by_hash` of
-- src/db/sql/0006_enterprise.sql. The random part of a key is an argument; a key is ASCII. The rows stand
-- in the order of their creation.
pub mod Life
use capybara_ai.Prelude.{
  ℕ, zero, suc, ◌+◌, String, ◌<>◌, Bool, true, false, Option, none, some, List, [], ◌∷◌, ◌++◌, map,
  includes, ltb, not, ◌==◌, nat_eq, string_eq, ◌&&◌, ◌||◌, if◌then◌else◌, is_some, strip_prefix,
  starts_with,
}
use mathlib.Core.List.{reverse}
use capybara_ai.Prelude.Effect.{Result, ok, throw}
use capybara_ai.Prelude.Table.{select_where, update_where, first_where}
use capybara_ai.Tenancy.{TenantContext, in_tenant}
use capybara_ai.Hash.{Platform}
use capybara_ai.Rbac.{Verdict, reply, proceed}

pub record ApiKey : Type 0 where
  pub id : ℕ
  pub org_id : ℕ
  pub created_by : ℕ
  pub name : String
  pub key_hash : String
  pub key_prefix : String
  pub scopes : List String
  pub last_used_at : Option ℕ
  pub expires_at : Option ℕ
  pub active : Bool

-- The row of `audit_log` for a request.
pub record ApiRequest : Type 0 where
  pub org_id : ℕ
  pub target_id : ℕ
  pub method : String
  pub path : String

pub record ApiState : Type 0 where
  pub keys : List ApiKey
  pub audit : List ApiRequest
  pub next_id : ℕ

pub record CreatedApiKey : Type 0 where
  pub id : ℕ
  pub key : String
  pub prefix : String

pub record NewApiKey : Type 0 where
  pub name : String
  pub scopes : List String
  pub expires_at : Option ℕ

pub record AuthenticatedApiKey : Type 0 where
  pub key_id : ℕ
  pub org_id : ℕ
  pub scopes : List String

abbrev pub prefix : String
prefix = "capy_"

-- `raw.slice(0, n)`
abbrev pub slice_text : ℕ → String → String
slice_text zero t = ""
slice_text (suc n) String.[] = ""
slice_text (suc n) (String.◌∷◌ c t) = String.◌∷◌ c (slice_text n t)

-- The columns without the hash.
pub record ApiKeyView : Type 0 where
  pub id : ℕ
  pub org_id : ℕ
  pub created_by : ℕ
  pub name : String
  pub key_prefix : String
  pub scopes : List String
  pub last_used_at : Option ℕ
  pub expires_at : Option ℕ
  pub active : Bool

abbrev pub without_hash : ApiKey → ApiKeyView
without_hash r = record {
  id = r.id;
  org_id = r.org_id;
  created_by = r.created_by;
  name = r.name;
  key_prefix = r.key_prefix;
  scopes = r.scopes;
  last_used_at = r.last_used_at;
  expires_at = r.expires_at;
  active = r.active;
}

abbrev pub deactivated : ApiKey → ApiKey
deactivated r = record r { active = false }

module _ (ctx : TenantContext) where
  abbrev pub has_key : ℕ → ApiKey → Bool
  has_key id r = in_tenant ctx r.org_id && r.id == id

  unfoldable pub list_api_keys : ApiState → List ApiKeyView
  list_api_keys s =
      map without_hash (reverse (select_where (λ (r : ApiKey). in_tenant ctx r.org_id) s.keys))

  unfoldable pub revoke_api_key : ℕ → ApiState → Bool × ApiState
  revoke_api_key id s = (
    is_some (first_where (has_key id) s.keys),
    record s { keys = update_where (has_key id) deactivated s.keys },
  )

-- `expires_at && new Date(expires_at).getTime() < Date.now()`
abbrev pub is_expired : ℕ → Option ℕ → Bool
is_expired now none = false
is_expired now (some expires_at) = ltb expires_at now

-- The context of a request by an API key.
abbrev pub key_context : ℕ → TenantContext
key_context org_id = record { org_id = org_id; clearance = 0; user_id = org_id }

abbrev pub stamp : ℕ → ApiKey → ApiState → ApiState
stamp now r s = record s {
  keys =
      update_where (has_key (key_context r.org_id) r.id)
        (λ (q : ApiKey). record q { last_used_at = some now }) s.keys;
}

-- What the lookup found, tested.
abbrev pub admit_key : ℕ → Option ApiKey → ApiState → Option AuthenticatedApiKey × ApiState
admit_key now none s = (none, s)
admit_key now (some r) s =
    if not r.active || is_expired now r.expires_at
    then (none, s)
    else (some (record { key_id = r.id; org_id = r.org_id; scopes = r.scopes }), stamp now r s)

abbrev pub log_request : String → String → AuthenticatedApiKey → ApiState → ApiState
log_request method path auth s = record s {
  audit =
      s.audit
      ++ record { org_id = auth.org_id; target_id = auth.key_id; method = method; path = path }
        ∷ [];
}

-- A key that is accepted is set on the request, and the request is logged.
abbrev pub after_auth :
    String
    → String
    → Option AuthenticatedApiKey × ApiState
    → Result ℕ AuthenticatedApiKey × ApiState
after_auth method path (none, s) = (throw 401, s)
after_auth method path (some auth, s) = (ok auth, log_request method path auth s)

-- `req.apiKey` is an option.
unfoldable pub require_scope : String → Option AuthenticatedApiKey → Verdict
require_scope scope none = reply 403
require_scope scope (some auth) = if includes auth.scopes scope then proceed else reply 403

unfoldable pub then_scope : String → Result ℕ AuthenticatedApiKey × ApiState → Verdict × ApiState
unfolding require_scope
then_scope scope (throw code, s) = (reply code, s)
then_scope scope (ok auth, s) = (require_scope scope (some auth), s)

-- The insert: the column `key_hash` is unique.
abbrev pub insert_key :
    Option ApiKey → String → ApiKey → ApiState → Result String CreatedApiKey × ApiState
insert_key (some _) raw r s = (throw "duplicate key value", s)
insert_key none raw r s = (
  ok (record { id = r.id; key = raw; prefix = r.key_prefix }),
  record s { keys = s.keys ++ r ∷ []; next_id = s.next_id + 1 },
)

module _ (p : Platform) where
  abbrev pub hash_key : String → String
  hash_key raw = p.sha256_hex raw

  abbrev pub has_hash : String → ApiKey → Bool
  has_hash hash r = r.key_hash == hash

  abbrev pub new_key : TenantContext → String → NewApiKey → ApiState → ApiKey
  new_key ctx raw input s = record {
    id = s.next_id;
    org_id = ctx.org_id;
    created_by = ctx.user_id;
    name = input.name;
    key_hash = hash_key raw;
    key_prefix = slice_text 8 raw;
    scopes = input.scopes;
    last_used_at = none;
    expires_at = input.expires_at;
    active = true;
  }

  unfoldable pub create_api_key :
      TenantContext → String → NewApiKey → ApiState → Result String CreatedApiKey × ApiState
  create_api_key ctx random input s =
      let raw = prefix <> random in
      insert_key (first_where (has_hash (hash_key raw)) s.keys) raw (new_key ctx raw input s) s

  unfoldable pub authenticate_api_key :
      ℕ → String → ApiState → Option AuthenticatedApiKey × ApiState
  authenticate_api_key now raw s =
      if raw == "" || not (starts_with raw prefix)
      then (none, s)
      else admit_key now (first_where (has_hash (hash_key raw)) s.keys) s

  -- The bearer's key, if the header has one.
  unfoldable pub bearer_auth :
      ℕ → String → String → Option String → ApiState → Result ℕ AuthenticatedApiKey × ApiState
  unfolding authenticate_api_key
  bearer_auth now method path none s = (throw 401, s)
  bearer_auth now method path (some raw) s = after_auth method path (authenticate_api_key now raw s)

  abbrev pub api_key_auth :
      ℕ → String → String → Option String → ApiState → Result ℕ AuthenticatedApiKey × ApiState
  api_key_auth now method path none s = (throw 401, s)
  api_key_auth now method path (some authz) s =
      bearer_auth now method path (strip_prefix "Bearer " authz) s

  -- The two handlers that stand before a route, in their order.
  unfoldable pub guard_api :
      ℕ → String → String → String → Option String → ApiState → Verdict × ApiState
  guard_api now scope method path authz s = then_scope scope (api_key_auth now method path authz s)
