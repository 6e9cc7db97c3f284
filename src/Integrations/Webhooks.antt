-- ===== src/Integrations/Webhooks.antt =====
-- Webhooks and their delivery: src/integrations/webhooks.ts. HMAC and JSON are the platform's, and what a
-- receiver answers to an attempt is an argument: a response, or an error of the request or its
-- timeout. The rows of a table stand in the order of their creation. The loop over the attempts takes fuel.
pub mod Delivery
pub mod Reached
use capybara_ai.Prelude.{
  ℕ, zero, suc, ◌+◌, String, Bool, true, false, Option, none, some, List, [], ◌∷◌, ◌++◌, map,
  includes, not, leb, length, ltb, ◌==◌, nat_eq, string_eq, ◌&&◌, if◌then◌else◌, get_or_else,
  is_some,
}
use mathlib.Core.List.{reverse}
use capybara_ai.Prelude.Effect.{Result, ok, throw}
use capybara_ai.Prelude.Table.{select_where, update_where, delete_where, first_where}
use capybara_ai.Tenancy.{TenantContext, in_tenant}
use capybara_ai.Crypto.{Bytes, Ciphers, encrypt_secret, decrypt_secret, derive_tenant_key}

pub record WebhookConfig : Type 0 where
  pub id : ℕ
  pub org_id : ℕ
  pub url : String
  pub secret_encrypted : Bytes
  pub events : List String
  pub active : Bool
  pub updated_at : ℕ

pub data DeliveryStatus : Type 0 where
  delivered failed : DeliveryStatus

pub record WebhookDelivery : Type 0 where
  pub org_id : ℕ
  pub webhook_id : ℕ
  pub event_type : String
  pub status : DeliveryStatus
  pub status_code : Option ℕ
  pub attempt : ℕ

-- A request that was sent.
pub record Request : Type 0 where
  pub url : String
  pub signature : Bytes
  pub event_type : String
  pub body : Bytes

pub record Response : Type 0 where
  pub status : ℕ
  pub is_ok : Bool

pub record Hooks : Type 0 where
  pub configs : List WebhookConfig
  pub deliveries : List WebhookDelivery
  pub requests : List Request
  pub next_id : ℕ

pub record Receivers : Type 0 where
  pub hmac_sha256_hex : Bytes → Bytes → Bytes
  -- the answer to an attempt at the delivery to a webhook
  pub answer : ℕ → ℕ → Result String Response

-- `'sha256=' + …`
abbrev pub sha256_prefix : Bytes
sha256_prefix = 115 ∷ 104 ∷ 97 ∷ 50 ∷ 53 ∷ 54 ∷ 61 ∷ []

abbrev pub sign_payload : Receivers → Bytes → Bytes → Bytes
sign_payload w secret body = sha256_prefix ++ w.hmac_sha256_hex secret body

module _ (ctx : TenantContext) where
  abbrev pub has_hook : ℕ → WebhookConfig → Bool
  has_hook id cfg = in_tenant ctx cfg.org_id && cfg.id == id

  -- The columns without the secret.
  pub record WebhookView : Type 0 where
    pub id : ℕ
    pub url : String
    pub events : List String
    pub active : Bool

  abbrev pub view : WebhookConfig → WebhookView
  view cfg = record { id = cfg.id; url = cfg.url; events = cfg.events; active = cfg.active }

  unfoldable pub list_webhooks : Hooks → List WebhookView
  list_webhooks s =
      map view
        (reverse (select_where (λ (cfg : WebhookConfig). in_tenant ctx cfg.org_id) s.configs))

  pub record WebhookUpdate : Type 0 where
    pub url : Option String
    pub events : Option (List String)
    pub active : Option Bool

  abbrev pub updated : ℕ → WebhookUpdate → WebhookConfig → WebhookConfig
  updated now input cfg = record cfg {
    url = get_or_else input.url cfg.url;
    events = get_or_else input.events cfg.events;
    active = get_or_else input.active cfg.active;
    updated_at = now;
  }

  unfoldable pub update_webhook : ℕ → ℕ → WebhookUpdate → Hooks → Bool × Hooks
  update_webhook now id input s = (
    is_some (first_where (has_hook id) s.configs),
    record s { configs = update_where (has_hook id) (updated now input) s.configs },
  )

  -- The deliveries of a webhook go with it, by its foreign key.
  unfoldable pub delete_webhook : ℕ → Hooks → Bool × Hooks
  delete_webhook id s =
      let found = is_some (first_where (has_hook id) s.configs) in
      (
        found,
        record s {
          configs = delete_where (has_hook id) s.configs;
          deliveries =
              delete_where (λ (d : WebhookDelivery). found && d.webhook_id == id) s.deliveries;
        },
      )

  unfoldable pub list_deliveries : ℕ → Hooks → List WebhookDelivery
  list_deliveries id s = reverse (
      select_where (λ (d : WebhookDelivery). in_tenant ctx d.org_id && d.webhook_id == id)
        s.deliveries)

module _ (c : Ciphers) (ctx : TenantContext) (master_key : Bytes) where
  abbrev pub inserted :
      ℕ → String → List String → Hooks → Result String Bytes → Result String WebhookConfig × Hooks
  inserted now url events s (throw e) = (throw e, s)
  inserted now url events s (ok blob) =
      let row : WebhookConfig = record {
        id = s.next_id;
        org_id = ctx.org_id;
        url = url;
        secret_encrypted = blob;
        events = events;
        active = true;
        updated_at = now;
      } in
      (ok row, record s { configs = s.configs ++ row ∷ []; next_id = s.next_id + 1 })

  unfoldable pub create_webhook :
      ℕ → Bytes → String → Bytes → List String → Hooks → Result String WebhookConfig × Hooks
  create_webhook now iv url secret events s =
      inserted now url events s
        (encrypt_secret c iv secret (derive_tenant_key c master_key ctx.org_id))

abbrev pub status_of : Result String Response → DeliveryStatus
status_of (throw e) = failed
status_of (ok r) = if r.is_ok then delivered else failed

abbrev pub code_of : Result String Response → Option ℕ
code_of (throw e) = none
code_of (ok r) = some r.status

abbrev pub is_delivered : DeliveryStatus → Bool
is_delivered delivered = true
is_delivered failed = false

module _ (w : Receivers) (ctx : TenantContext) (event_type : String) (body : Bytes) where
  -- The row that an attempt leaves.
  abbrev pub attempt_row : ℕ → ℕ → WebhookDelivery
  attempt_row id attempt = record {
    org_id = ctx.org_id;
    webhook_id = id;
    event_type = event_type;
    status = status_of (w.answer id attempt);
    status_code = code_of (w.answer id attempt);
    attempt = attempt;
  }

  -- A request, and its row in the log.
  abbrev pub attempt_once : WebhookConfig → Bytes → ℕ → Hooks → Hooks
  attempt_once cfg signature attempt s = record s {
    requests =
        s.requests
        ++ record { url = cfg.url; signature = signature; event_type = event_type; body = body }
          ∷ [];
    deliveries = s.deliveries ++ attempt_row cfg.id attempt ∷ [];
  }

  -- `for (let attempt = 1; attempt <= maxRetries && !delivered; attempt++)`
  unfoldable pub deliver_loop : ℕ → ℕ → WebhookConfig → Bytes → ℕ → Bool → Hooks → Option Hooks
  deliver_loop zero max_retries cfg signature attempt done s = none
  deliver_loop (suc fuel) max_retries cfg signature attempt done s =
      let rest =
        deliver_loop fuel max_retries cfg signature (attempt + 1)
          (is_delivered (status_of (w.answer cfg.id attempt)))
          (attempt_once cfg signature attempt s) in
      if leb attempt max_retries && not done then rest else some s

  -- A webhook is tried until the fuel, one more than the attempts, would be spent.
  abbrev pub deliver : ℕ → WebhookConfig → Bytes → Hooks → Option Hooks
  deliver max_retries cfg signature s =
      deliver_loop (max_retries + 1) max_retries cfg signature 1 false s

module _ (c : Ciphers) (w : Receivers) (ctx : TenantContext) (event_type : String)
    (body tenant_key : Bytes) (max_retries : ℕ) where
  abbrev pub next_hook :
      (Hooks → Option (Result String (Unit {0}) × Hooks))
      → Option Hooks
      → Option (Result String (Unit {0}) × Hooks)
  next_hook rest none = none
  next_hook rest (some s) = rest s

  abbrev pub with_secret :
      (Hooks → Option (Result String (Unit {0}) × Hooks))
      → WebhookConfig
      → Hooks
      → Result String Bytes
      → Option (Result String (Unit {0}) × Hooks)
  with_secret rest cfg s (throw e) = some (throw e, s)
  with_secret rest cfg s (ok secret) =
      next_hook rest (deliver w ctx event_type body max_retries cfg (sign_payload w secret body) s)

  -- `for (const cfg of configs)`; a secret that cannot be read ends it.
  unfoldable pub emit_to : List WebhookConfig → Hooks → Option (Result String (Unit {0}) × Hooks)
  emit_to [] s = some (ok tt, s)
  emit_to (cfg ∷ cfgs) s =
      with_secret (emit_to cfgs) cfg s (decrypt_secret c cfg.secret_encrypted tenant_key)

abbrev pub subscribed : TenantContext → String → WebhookConfig → Bool
subscribed ctx event_type cfg =
    in_tenant ctx cfg.org_id && (cfg.active && includes cfg.events event_type)

-- The body is the JSON text of the event; `maxRetries ?? 3`.
unfoldable pub emit_event :
    Ciphers
    → Receivers
    → TenantContext
    → Bytes
    → Option ℕ
    → String
    → Bytes
    → Hooks
    → Option (Result String (Unit {0}) × Hooks)
emit_event c w ctx master_key max_retries event_type body s =
    emit_to c w ctx event_type body (derive_tenant_key c master_key ctx.org_id)
      (get_or_else max_retries 3) (select_where (subscribed ctx event_type) s.configs) s
