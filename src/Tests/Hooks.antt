-- ===== src/Tests/Hooks.antt =====
-- src/integrations/webhooks.ts at a small input: the receiver accepts the second attempt.
use capybara_ai.Prelude.{
  ℕ, String, true, Option, none, some, List, [], ◌∷◌, ◌++◌, ◌≡◌, refl, All, any, get_or_else,
  nat_eq, if◌then◌else◌, ltb, drop, map,
}
use mathlib.Core.Option
use capybara_ai.Prelude.Effect.{Result, ok, throw}
use capybara_ai.Crypto.{decrypt_secret}
use capybara_ai.Integrations.Webhooks.{
  WebhookConfig, WebhookDelivery, Hooks, Receivers, emit_event, emit_to, deliver_loop, delivered,
  failed,
}
use capybara_ai.Integrations.Webhooks.Delivery.{AreRuns, emit_event_completes}
use capybara_ai.Integrations.Webhooks.Reached.{Accepts, says_delivered, emit_event_delivers}
use capybara_ai.Tests.Samples.{ctx}
use capybara_ai.Tests.Vaults.{plain, blob, key_of}

abbrev receivers : Receivers
receivers = record {
  hmac_sha256_hex = λ secret text. secret;
  answer = λ id attempt.
      if ltb attempt 2 then throw "timeout" else ok (record { status = 200; is_ok = true });
}

abbrev hook : WebhookConfig
hook = record {
  id = 3;
  org_id = 1;
  url = "https://hooks.eu";
  secret_encrypted = blob (1 ∷ drop 1 (key_of 7)) [];
  events = "document.uploaded" ∷ [];
  active = true;
  updated_at = 0;
}

abbrev hooks : Hooks
hooks = record { configs = hook ∷ []; deliveries = []; requests = []; next_id = 9 }

abbrev master : List ℕ
master = drop 1 (key_of 7)

abbrev emitted : Option (Result String (Unit {0}) × Hooks)
unfolding emit_event emit_to deliver_loop decrypt_secret
emitted = emit_event plain receivers ctx master none "document.uploaded" [] hooks

two_attempts :
    map
      (λ (d : WebhookDelivery). d.status)
      (get_or_else
        (Option.map (λ (o : Result String (Unit {0}) × Hooks). o.1) emitted)
        hooks).deliveries
    ≡ failed ∷ delivered ∷ []
unfolding emit_event emit_to deliver_loop decrypt_secret
two_attempts = refl

-- With no retry allowed nothing is sent at all.
no_attempt :
    emit_event plain receivers ctx master (some 0) "document.uploaded" [] hooks
    ≡ some (ok tt, hooks)
unfolding emit_event emit_to deliver_loop decrypt_secret
no_attempt = refl

emit_event_completes_example :
    (t : Hooks) × (emit_event plain receivers ctx master none "document.uploaded" [] hooks
      ≡ some (ok tt, t))
    × (t.configs ≡ hooks.configs)
    × (log : List WebhookDelivery) × (t.deliveries ≡ hooks.deliveries ++ log)
    × AreRuns receivers ctx "document.uploaded" [] 3 (hook ∷ []) log
unfolding decrypt_secret
emit_event_completes_example =
    emit_event_completes plain receivers ctx master none "document.uploaded" [] hooks
      (([], refl), tt)

emit_event_delivers_example :
    (t : Hooks) × (emit_event plain receivers ctx master none "document.uploaded" [] hooks
      ≡ some (ok tt, t))
    × All
        (λ (cfg : WebhookConfig).
          Accepts receivers ctx "document.uploaded" [] 3 cfg
          → any (says_delivered cfg.id) t.deliveries ≡ true)
        (hook ∷ [])
unfolding decrypt_secret
emit_event_delivers_example =
    emit_event_delivers plain receivers ctx master none "document.uploaded" [] hooks
      (([], refl), tt)
