-- ===== src/Oversight/Approvals.antt =====
-- What an approval by the gate of src/compliance/oversight.ts rests on.
use capybara_ai.Prelude.{
  ℕ, ◌≡◌, refl, inl, inr, String, Bool, true, false, Bool-cases, Option, none, some, List, [], ◌∷◌,
  arith, nat_eq, string_eq, is_none, nat_beq_iff, eq_iff,
}
use capybara_ai.Prelude.Table.{first_where}
use capybara_ai.Prelude.Effect.{Result, ok, throw, Action, pure, settle, resume}
use capybara_ai.Hash.{Platform, Json, canonical_json}
use capybara_ai.Tenancy.{TenantContext}
use capybara_ai.Oversight.{
  OversightRequest, OversightState, OversightStatus, OversightCheckResult, RiskLevel, pending,
  approved, rejected, expired, has_status, is_usable, answer_or_request, look_up_or_request, check,
  expire_stale, notify_new,
}
use mathlib.Core.List.{Memᴰ}

first_where-Memᴰ :
    {A : Type 0} (q : A → Bool) (rs : List A) (r : A)
    → first_where q rs ≡ some r
    → Memᴰ r rs × (q r ≡ true)
first_where-Memᴰ q [] r e = cc
first_where-Memᴰ q (s ∷ rs) r e = elim (Bool-cases (q s)) [
  | inl hit ↦
      let found : some s ≡ some r = rw hit at e in
      let same : r ≡ s = cc found in (Memᴰ.head same, rw same hit)
  | inr miss ↦ let (m, h) = first_where-Memᴰ q rs r (rw miss at e) in (Memᴰ.tail m, h)
]

status_approved : (t : OversightStatus) → has_status t approved ≡ true → t ≡ approved
status_approved pending h = absurd (ground arith)
status_approved approved h = refl
status_approved rejected h = absurd (ground arith)
status_approved expired h = absurd (ground arith)

unset : (o : Option String) → is_none o ≡ true → o ≡ none
unset none h = refl
unset (some t) h = absurd (cc)

module _ (p : Platform) (encrypt : ℕ → String → String) (ctx : TenantContext) where
  -- What an approving answer rests on.
  abbrev Approves : String → Json → Result String OversightCheckResult × OversightState → Type 0
  Approves tool args o =
      (c : OversightCheckResult)
      → o.0 ≡ ok c
      → c.approved ≡ true
      → (r : OversightRequest) × Memᴰ r o.1.requests
        × (r.id ≡ c.request_id)
        × (is_usable p encrypt ctx tool args r ≡ true)

  settle-Approves :
      (tool : String) (args : Json) (s : OversightState)
      (o : Result String OversightCheckResult × OversightState)
      → Approves tool args o
      → Approves tool args (settle s o)
  settle-Approves tool args s (ok a, t) h c e b = h c e b
  settle-Approves tool args s (throw x, t) h c e a = cc

  resume-Approves :
      {A : Type 0} (tool : String) (args : Json)
      (f : A → Action OversightState String OversightCheckResult)
      (o : Result String A × OversightState)
      → ((a : A) (s : OversightState) → Approves tool args (f a s))
      → Approves tool args (resume f o)
  resume-Approves tool args f (ok a, t) h c e b = h a t c e b
  resume-Approves tool args f (throw x, t) h c e a = cc

  notified-Approves :
      (tool : String) (args : Json) (id : ℕ) (o : Result String (Unit {0}) × OversightState)
      → Approves tool args (resume (λ _. pure (record { approved = false; request_id = id })) o)
  notified-Approves tool args id (ok a, t) c e h = absurd (ground arith)
  notified-Approves tool args id (throw x, t) c e a = cc

  module _ (notify : Option (ℕ → Result String (Unit {0}))) (tool : String) (args : Json)
      (level : RiskLevel) where
    answer-Approves :
        (usable reusable : Option OversightRequest) (s : OversightState)
        → first_where (is_usable p encrypt ctx tool args) s.requests ≡ usable
        → Approves tool args
            (answer_or_request p encrypt ctx notify tool args level usable reusable s)
    answer-Approves (some r) reusable s u c e a =
        let (m, h) = first_where-Memᴰ _ s.requests r u in (r, m, ground arith, h)
    answer-Approves none (some r) s u c e a = absurd (ground arith)
    answer-Approves none none s u c e a =
        notified-Approves tool args s.next_id (notify_new p encrypt notify s.next_id _) c e a

    usable_parts :
        (r : OversightRequest)
        → is_usable p encrypt ctx tool args r ≡ true
        → (r.org_id ≡ ctx.org_id)
          × (r.tool_name ≡ tool)
          × (r.tool_args_hash ≡ p.sha256_hex (canonical_json p args))
          × (r.status ≡ approved)
          × (r.outcome_summary ≡ none)
    usable_parts r h =
        let asked = p.sha256_hex (canonical_json p args) in
        (
          ground (arith, h, nat_beq_iff r.org_id ctx.org_id),
          ground (arith, h, eq_iff r.tool_name tool),
          ground (arith, h, eq_iff r.tool_args_hash asked),
          status_approved r.status (ground (arith, h)),
          unset r.outcome_summary (ground (arith, h)),
        )

    -- A check that approves names a request that stands in the table and belongs to the organisation, was
    -- filed for this very tool, carries the SHA-256 hash of the canonical text of these arguments, has
    -- the status approved, and has no outcome yet.
    pub check_approves :
        (s : OversightState) (c : OversightCheckResult)
        → (check p encrypt ctx notify tool args level s).0 ≡ ok c
        → c.approved ≡ true
        → (r : OversightRequest) × Memᴰ r (check p encrypt ctx notify tool args level s).1.requests
          × (r.id ≡ c.request_id)
          × (r.org_id ≡ ctx.org_id)
          × (r.tool_name ≡ tool)
          × (r.tool_args_hash ≡ p.sha256_hex (canonical_json p args))
          × (r.status ≡ approved)
          × (r.outcome_summary ≡ none)
    unfolding check look_up_or_request
    check_approves s c e a =
        let (r, m, same, usable) =
          resume-Approves tool args _ (expire_stale p ctx s)
            (λ n t. settle-Approves tool args t _ (answer-Approves _ _ t refl)) c e a in
        let (org, name, hash, status, unused) = usable_parts r usable in
        (r, m, same, org, name, hash, status, unused)
