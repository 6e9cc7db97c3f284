-- ===== src/Integrations/Webhooks/Delivery.antt =====
-- What `emitEvent` of src/integrations/webhooks.ts does for each webhook.
use mathlib.Core.List.{append_assoc, append-nil}
use capybara_ai.Prelude.{
  ℕ, zero, suc, ◌+◌, ◌<◌, ◌≤◌, String, Bool, true, false, Bool-cases, Option, some, List, [], ◌∷◌,
  ◌++◌, ◌⊎◌, inl, inr, leb, length, nat_eq, All, get_or_else, ◌≡◌, refl, sym, ap, ◌∙◌, arith,
  length-append, leb→le,
}
use capybara_ai.Prelude.Effect.{ok}
use capybara_ai.Prelude.Table.{select_where}
use capybara_ai.Tenancy.{TenantContext}
use capybara_ai.Crypto.{Bytes, Ciphers, decrypt_secret, derive_tenant_key}
use capybara_ai.Integrations.Webhooks.{
  WebhookConfig, DeliveryStatus, delivered, failed, WebhookDelivery, Hooks, Receivers, sign_payload,
  is_delivered, attempt_row, attempt_once, deliver_loop, deliver, emit_to, subscribed, emit_event,
}

DeliveryStatus-cases : (d : DeliveryStatus) → (d ≡ delivered) ⊎ (d ≡ failed)
DeliveryStatus-cases delivered = inl refl
DeliveryStatus-cases failed = inr refl

module _ (w : Receivers) (ctx : TenantContext) (event_type : String) (body : Bytes) where
  abbrev row : ℕ → ℕ → WebhookDelivery
  row id attempt = attempt_row w ctx event_type body id attempt

  -- The rows of one webhook from an attempt on: each attempt has one, in order; all but the last failed,
  -- and the last was delivered or was the last that is allowed.
  abbrev pub IsRun : ℕ → ℕ → ℕ → List WebhookDelivery → Type 0
  IsRun max_retries id attempt [] = max_retries < attempt
  IsRun max_retries id attempt (d ∷ []) =
      (d ≡ row id attempt)
      × (attempt ≤ max_retries)
      × ((d.status ≡ delivered) ⊎ (attempt ≡ max_retries))
  IsRun max_retries id attempt (d ∷ e ∷ ds) =
      (d ≡ row id attempt) × (d.status ≡ failed) × IsRun max_retries id (attempt + 1) (e ∷ ds)

  IsRun-cons :
      (max_retries id attempt : ℕ) (run : List WebhookDelivery)
      → attempt ≤ max_retries
      → (row id attempt).status ≡ failed
      → IsRun max_retries id (attempt + 1) run
      → IsRun max_retries id attempt (row id attempt ∷ run)
  IsRun-cons max_retries id attempt [] h bad end = (refl, h, inr (omega arith))
  IsRun-cons max_retries id attempt (e ∷ ds) h bad more = (refl, bad, more)

  -- What the rounds of one webhook leave.
  pub record IsDelivered (max_retries : ℕ) (cfg : WebhookConfig) (attempt : ℕ) (s t : Hooks)
      : Type 0 where
    pub run : List WebhookDelivery
    pub is_run : IsRun max_retries cfg.id attempt run
    pub logged : t.deliveries ≡ s.deliveries ++ run
    pub configs : t.configs ≡ s.configs
    pub sent : length t.requests ≡ length s.requests + length run

  module _ (max_retries : ℕ) (cfg : WebhookConfig) (signature : Bytes) where
    loop_done :
        (fuel attempt : ℕ) (s : Hooks)
        → 0 < fuel
        → deliver_loop w ctx event_type body fuel max_retries cfg signature attempt true s ≡ some s
    unfolding deliver_loop
    loop_done zero attempt s h = absurd (omega arith)
    loop_done (suc fuel) attempt s h = ground arith

    abbrev again : ℕ → ℕ → Hooks → Bool → Option Hooks
    again fuel attempt s done =
        deliver_loop w ctx event_type body fuel max_retries cfg signature (attempt + 1) done s

    loop_step :
        (fuel attempt : ℕ) (s : Hooks)
        → leb attempt max_retries ≡ true
        → deliver_loop w ctx event_type body (suc fuel) max_retries cfg signature attempt false s
          ≡ again fuel attempt
              (attempt_once w ctx event_type body cfg signature attempt s)
              (is_delivered (row cfg.id attempt).status)
    unfolding deliver_loop
    loop_step fuel attempt s within = rw within refl

    deliver_loop-IsDelivered :
        (fuel attempt : ℕ) (s : Hooks)
        → attempt ≤ max_retries + 1
        → max_retries + 1 < fuel + attempt
        → (t : Hooks) × (deliver_loop w ctx event_type body fuel max_retries cfg signature attempt
              false s
            ≡ some t)
          × IsDelivered max_retries cfg attempt s t
    unfolding deliver_loop
    deliver_loop-IsDelivered zero attempt s h k = absurd (omega arith)
    deliver_loop-IsDelivered (suc fuel) attempt s h k =
        let next = attempt_once w ctx event_type body cfg signature attempt s in
        elim (Bool-cases (leb attempt max_retries)) [
          | inr over ↦ (
            s,
            rw over refl,
            record {
              run = [];
              is_run = ground (arith, over);
              logged = sym (append-nil s.deliveries);
              configs = refl;
              sent = omega arith;
            },
          )
          | inl within ↦ elim (DeliveryStatus-cases (row cfg.id attempt).status) [
            | inl good ↦ (
              next,
              loop_step fuel attempt s within
                  ∙ ap (again fuel attempt next) (ap is_delivered good)
                  ∙ loop_done fuel (attempt + 1) next
                      (omega (arith, leb→le attempt max_retries within)),
              record {
                run = row cfg.id attempt ∷ [];
                is_run = (refl, leb→le attempt max_retries within, inl good);
                logged = refl;
                configs = refl;
                sent = length-append s.requests _;
              },
            )
            | inr bad ↦
                let (t, ended, rest) =
                  deliver_loop-IsDelivered fuel (attempt + 1) next
                    (omega (arith, leb→le attempt max_retries within)) (omega arith) in
                (
                  t,
                  loop_step fuel attempt s within
                      ∙ ap (again fuel attempt next) (ap is_delivered bad)
                      ∙ ended,
                  record {
                    run = row cfg.id attempt ∷ rest.run;
                    is_run =
                        IsRun-cons max_retries cfg.id attempt rest.run
                          (leb→le attempt max_retries within) bad rest.is_run;
                    logged =
                        rest.logged ∙ append_assoc s.deliveries (row cfg.id attempt ∷ []) rest.run;
                    configs = rest.configs;
                    sent = omega (
                      arith,
                      rest.sent,
                      length-append s.requests (
                          record {
                            url = cfg.url;
                            signature = signature;
                            event_type = event_type;
                            body = body;
                          }
                          ∷ []),
                    );
                  },
                )
          ]
        ]

  -- The rows of the webhooks, one after the other.
  abbrev pub AreRuns : ℕ → List WebhookConfig → List WebhookDelivery → Type 0
  AreRuns max_retries [] log = log ≡ []
  AreRuns max_retries (cfg ∷ cfgs) log =
      (run : List WebhookDelivery) × (rest : List WebhookDelivery) × (log ≡ run ++ rest)
      × IsRun max_retries cfg.id 1 run
      × AreRuns max_retries cfgs rest

module _ (c : Ciphers) (w : Receivers) (ctx : TenantContext) (event_type : String)
    (body key : Bytes) (max_retries : ℕ) where
  emit_to_step :
      (cfg : WebhookConfig) (cfgs : List WebhookConfig) (s t : Hooks) (secret : Bytes)
      → decrypt_secret c cfg.secret_encrypted key ≡ ok secret
      → deliver w ctx event_type body max_retries cfg (sign_payload w secret body) s ≡ some t
      → emit_to c w ctx event_type body key max_retries (cfg ∷ cfgs) s
        ≡ emit_to c w ctx event_type body key max_retries cfgs t
  unfolding emit_to
  emit_to_step cfg cfgs s t secret opened tried = rw (opened, tried) refl

  emit_to_completes :
      (cfgs : List WebhookConfig) (s : Hooks)
      → All
          (λ (cfg : WebhookConfig).
            (secret : Bytes) × (decrypt_secret c cfg.secret_encrypted key ≡ ok secret))
          cfgs
      → (t : Hooks) × (emit_to c w ctx event_type body key max_retries cfgs s ≡ some (ok tt, t))
        × (t.configs ≡ s.configs)
        × (log : List WebhookDelivery) × (t.deliveries ≡ s.deliveries ++ log)
        × AreRuns w ctx event_type body max_retries cfgs log
  unfolding emit_to
  emit_to_completes [] s h = (s, refl, refl, [], sym (append-nil s.deliveries), refl)
  emit_to_completes (cfg ∷ cfgs) s ((secret, opened), h) =
      let (t, tried, one) =
        deliver_loop-IsDelivered w ctx event_type body max_retries cfg (sign_payload w secret body)
          (max_retries + 1) 1 s (omega arith) (omega arith) in
      let (u, ended, same, log, logged, runs) = emit_to_completes cfgs t h in
      (
        u,
        emit_to_step cfg cfgs s t secret opened tried ∙ ended,
        same ∙ one.configs,
        one.run ++ log,
        logged ∙ ap (λ xs. xs ++ log) one.logged ∙ append_assoc s.deliveries one.run log,
        (one.run, log, refl, one.is_run, runs),
      )

-- Where the secret of every subscribed webhook can be read, an emission comes to its end without an error:
-- it changes no webhook and appends to the log, for each subscribed webhook in turn, a row for each attempt
-- from the first on, of which all but the last failed, and the last was delivered or is the last that
-- is allowed; where no attempt is allowed, there is none.
pub emit_event_completes :
    (c : Ciphers) (w : Receivers) (ctx : TenantContext) (master_key : Bytes)
    (max_retries : Option ℕ) (event_type : String) (body : Bytes) (s : Hooks)
    → All
        (λ (cfg : WebhookConfig).
          (secret : Bytes) × (decrypt_secret c cfg.secret_encrypted
              (derive_tenant_key c master_key ctx.org_id)
            ≡ ok secret))
        (select_where (subscribed ctx event_type) s.configs)
    → (t : Hooks) × (emit_event c w ctx master_key max_retries event_type body s ≡ some (ok tt, t))
      × (t.configs ≡ s.configs)
      × (log : List WebhookDelivery) × (t.deliveries ≡ s.deliveries ++ log)
      × AreRuns w ctx event_type body
          (get_or_else max_retries 3)
          (select_where (subscribed ctx event_type) s.configs)
          log
unfolding emit_event
emit_event_completes c w ctx master_key max_retries event_type body s readable =
    emit_to_completes c w ctx event_type body (derive_tenant_key c master_key ctx.org_id)
      (get_or_else max_retries 3) (select_where (subscribed ctx event_type) s.configs) s readable
