-- ===== src/Integrations/Webhooks/Reached.antt =====
-- A receiver that accepts an attempt is reached: `emitEvent` of src/integrations/webhooks.ts.
use mathlib.Core.Path.{subst}
use capybara_ai.Prelude.{
  ℕ, ◌+◌, ◌≤◌, String, Bool, true, Bool-cases, Option, some, List, [], ◌∷◌, ◌++◌, inl, inr, ◌==◌,
  nat_eq, nat_beq_iff, ◌&&◌, any, All, get_or_else, ◌≡◌, refl, sym, arith,
}
use capybara_ai.Prelude.Effect.{ok}
use capybara_ai.Prelude.Table.{select_where}
use capybara_ai.Tenancy.{TenantContext}
use capybara_ai.Crypto.{Bytes, Ciphers, decrypt_secret, derive_tenant_key}
use capybara_ai.Integrations.Webhooks.{
  WebhookConfig, delivered, WebhookDelivery, Hooks, Receivers, status_of, is_delivered, subscribed,
  emit_event,
}
use capybara_ai.Integrations.Webhooks.Delivery.{IsRun, AreRuns, emit_event_completes}

any_append_left :
    {A : Type 0} (f : A → Bool) (xs ys : List A) → any f xs ≡ true → any f (xs ++ ys) ≡ true
any_append_left f [] ys h = absurd (cc)
any_append_left f (x ∷ xs) ys h = ground (arith, any_append_left f xs ys)

any_append_right :
    {A : Type 0} (f : A → Bool) (xs ys : List A) → any f ys ≡ true → any f (xs ++ ys) ≡ true
any_append_right f [] ys h = h
any_append_right f (x ∷ xs) ys h = ground (arith, any_append_right f xs ys h)

-- A row that says that a webhook was delivered to.
abbrev pub says_delivered : ℕ → WebhookDelivery → Bool
says_delivered id d = d.webhook_id == id && is_delivered d.status

module _ (w : Receivers) (ctx : TenantContext) (event_type : String) (body : Bytes)
    (max_retries : ℕ) where
  -- The receiver of a webhook accepts one of the attempts that are allowed.
  abbrev pub Accepts : WebhookConfig → Type 0
  Accepts cfg = (k : ℕ) × (1 ≤ k) × (k ≤ max_retries) × (status_of (w.answer cfg.id k) ≡ delivered)

  delivered_in_run :
      (id attempt k : ℕ) (run : List WebhookDelivery)
      → IsRun w ctx event_type body max_retries id attempt run
      → attempt ≤ k
      → k ≤ max_retries
      → status_of (w.answer id k) ≡ delivered
      → any (says_delivered id) run ≡ true
  delivered_in_run id attempt k [] over h l good = absurd (omega arith)
  delivered_in_run id attempt k (d ∷ []) (same, within, inl last) h l good =
      let own : (id == id) ≡ true = (nat_beq_iff id id).1 refl in rw (last, same, own) refl
  delivered_in_run id attempt k (d ∷ []) (same, within, inr last) h l good =
      let own : (id == id) ≡ true = (nat_beq_iff id id).1 refl in
      let at : k ≡ attempt = omega arith in rw same (rw (own, ← at, good) refl)
  delivered_in_run id attempt k (d ∷ e ∷ ds) (same, bad, more) h l good =
      elim (Bool-cases (attempt == k)) [
        | inl now ↦
            let at : attempt ≡ k = (nat_beq_iff attempt k).0 now in
            absurd (cc (good, rw (same, at) at bad))
        | inr later ↦
            let rest =
              delivered_in_run id (attempt + 1) k (e ∷ ds) more (ground (arith, later)) l good in
            any_append_right (says_delivered id) (d ∷ []) (e ∷ ds) rest
      ]

  later_rows :
      (cfgs : List WebhookConfig) (run rest : List WebhookDelivery)
      → All (λ cfg. Accepts cfg → any (says_delivered cfg.id) rest ≡ true) cfgs
      → All (λ cfg. Accepts cfg → any (says_delivered cfg.id) (run ++ rest) ≡ true) cfgs
  later_rows [] run rest h = tt
  later_rows (cfg ∷ cfgs) run rest (one, h) = (
    (λ accepts. any_append_right (says_delivered cfg.id) run rest (one accepts)),
    later_rows cfgs run rest h,
  )

  delivered_in_runs :
      (cfgs : List WebhookConfig) (log : List WebhookDelivery)
      → AreRuns w ctx event_type body max_retries cfgs log
      → All (λ cfg. Accepts cfg → any (says_delivered cfg.id) log ≡ true) cfgs
  delivered_in_runs [] log h = tt
  delivered_in_runs (cfg ∷ cfgs) log (run, rest, same, is_run, runs) = (
    (λ accepts.
        let (k, first, last, good) = accepts in
        rw same (
          any_append_left (says_delivered cfg.id) run rest
            (delivered_in_run cfg.id 1 k run is_run first last good))),
    subst (λ l. All (λ cfg. Accepts cfg → any (says_delivered cfg.id) l ≡ true) cfgs) (sym same)
        (later_rows cfgs run rest (delivered_in_runs cfgs rest runs)),
  )

-- Every subscribed webhook whose receiver accepts one of the attempts that are allowed has, after the
-- emission, a row in the log that says delivered; the secrets of the subscribed webhooks can be read.
pub emit_event_delivers :
    (c : Ciphers) (w : Receivers) (ctx : TenantContext) (master_key : Bytes)
    (max_retries : Option ℕ) (event_type : String) (body : Bytes) (s : Hooks)
    → All
        (λ (cfg : WebhookConfig).
          (secret : Bytes) × (decrypt_secret c cfg.secret_encrypted
              (derive_tenant_key c master_key ctx.org_id)
            ≡ ok secret))
        (select_where (subscribed ctx event_type) s.configs)
    → (t : Hooks) × (emit_event c w ctx master_key max_retries event_type body s ≡ some (ok tt, t))
      × All
          (λ (cfg : WebhookConfig).
            Accepts w ctx event_type body (get_or_else max_retries 3) cfg
            → any (says_delivered cfg.id) t.deliveries ≡ true)
          (select_where (subscribed ctx event_type) s.configs)
emit_event_delivers c w ctx master_key max_retries event_type body s readable =
    let (t, ended, _, log, logged, runs) =
      emit_event_completes c w ctx master_key max_retries event_type body s readable in
    let most = get_or_else max_retries 3 in
    let hooks = select_where (subscribed ctx event_type) s.configs in
    (
      t,
      ended,
      subst
          (λ l.
            All
              (λ (cfg : WebhookConfig).
                Accepts w ctx event_type body most cfg → any (says_delivered cfg.id) l ≡ true)
              hooks)
          (sym logged)
          (later_rows w ctx event_type body most hooks s.deliveries log
            (delivered_in_runs w ctx event_type body most hooks log runs)),
    )
