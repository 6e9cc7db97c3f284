-- ===== src/Oversight/Forward.antt =====
-- A decided oversight request is final: the trigger of src/db/sql/0005_compliance.sql lets no
-- operation of src/compliance/oversight.ts change it; and the tenant policy keeps every operation
-- away from the requests of another organisation.
use capybara_ai.Prelude.{
  ℕ, ◌≡◌, ◌≢◌, refl, subst, inl, inr, String, Bool, true, false, Bool-cases, Option, none, some,
  List, [], ◌∷◌, ◌++◌, arith, nat_eq, ◌&&◌, not, any, length, ltb,
}
use capybara_ai.Prelude.Table.{Memᴰ-update_where, update_where, select_where}
use capybara_ai.Prelude.Effect.{
  Result, ok, throw, pure, transaction, Keeps, transaction-Keeps, >>=-Keeps,
}
use capybara_ai.Hash.{Platform, Json}
use capybara_ai.Tenancy.{TenantContext}
use capybara_ai.Oversight.{
  OversightRequest, OversightState, OversightStatus, RiskLevel, pending, has_status, guarded_update,
  update_requests, store, answer_or_request, is_stale, expired_at, expire_statement,
  decide_statement, expire_stale, new_request, insert_request, notify_new, look_up_or_request,
  check, record_outcome, is_open, decided, log_decision, decide, decision_event,
}
use mathlib.Core.List.{Memᴰ}

-- A request that an operation in the context `ctx` may not touch.
pub data IsFixed (ctx : TenantContext) (r : OversightRequest) : Type 0 where
  is_decided : has_status r.status pending ≡ false → IsFixed ctx r
  is_foreign : r.org_id ≢ ctx.org_id → IsFixed ctx r

abbrev pub Holds : OversightRequest → OversightState → Type 0
Holds r s = Memᴰ r s.requests

-- A condition of an update that the tenant policy guards.
abbrev IsGuarded : TenantContext → (OversightRequest → Bool) → Type 0
IsGuarded ctx q = (r : OversightRequest) → q r ≡ true → r.org_id ≡ ctx.org_id

Memᴰ-append : {A : Type 0} {a : A} (xs ys : List A) → Memᴰ a xs → Memᴰ a (xs ++ ys)
Memᴰ-append [] ys m = elim m [ ]
Memᴰ-append (x ∷ xs) ys (Memᴰ.head e) = Memᴰ.head e
Memᴰ-append (x ∷ xs) ys (Memᴰ.tail m) = Memᴰ.tail (Memᴰ-append xs ys m)

any-false :
    {A : Type 0} {a : A} (q : A → Bool) (rs : List A) → any q rs ≡ false → Memᴰ a rs → q a ≡ false
any-false q [] h m = elim m [ ]
any-false {a} q (r ∷ rs) h (Memᴰ.head e) = rw e (ground arith)
any-false q (r ∷ rs) h (Memᴰ.tail m) = any-false q rs (ground arith) m

module _ (ctx : TenantContext) (r : OversightRequest) (fixed : IsFixed ctx r) where
  fixed-unmatched :
      (q : OversightRequest → Bool)
      → IsGuarded ctx q
      → (q r && not (has_status r.status pending)) ≡ false
      → q r ≡ false
  fixed-unmatched q g h = elim (Bool-cases (q r)) [
    | inl hit ↦ elim fixed [
      | is_decided d ↦ cc (rw (hit, d) at h)
      | is_foreign n ↦ absurd (n (g r hit))
    ]
    | inr miss ↦ miss
  ]

  guarded_update-keeps :
      (q : OversightRequest → Bool) (f : OversightRequest → OversightRequest)
      (rows rows' : List OversightRequest)
      → IsGuarded ctx q
      → guarded_update q f rows ≡ ok rows'
      → Memᴰ r rows
      → Memᴰ r rows'
  unfolding guarded_update
  guarded_update-keeps q f rows rows' g e m =
      elim (Bool-cases (any (λ x. q x && not (has_status x.status pending)) rows)) [
        | inl bad ↦ absurd (ground arith)
        | inr good ↦
            let same : update_where q f rows ≡ rows' = ground arith in
            subst (Memᴰ r) same
              (Memᴰ-update_where q f rows (fixed-unmatched q g (any-false _ rows good m)) m)
      ]

  module _ (p : Platform) (encrypt : ℕ → String → String) where
    store-keeps :
        (changed : List OversightRequest) (s : OversightState)
        (o : Result String (List OversightRequest))
        → ((rows : List OversightRequest) → o ≡ ok rows → Memᴰ r rows)
        → Holds r s
        → Holds r (store p changed s o).1
    store-keeps changed s (ok rows) k m = k rows refl
    store-keeps changed s (throw e) k m = m

    update_requests-Keeps :
        (q : OversightRequest → Bool) (f : OversightRequest → OversightRequest)
        → IsGuarded ctx q
        → Keeps (Holds r) (update_requests p q f)
    unfolding update_requests
    update_requests-Keeps q f g s m =
        store-keeps (select_where q s.requests) s (guarded_update q f s.requests)
          (λ rows e. guarded_update-keeps q f s.requests rows g e m) m

    expire_statement-Keeps : Keeps (Holds r) (expire_statement p ctx)
    expire_statement-Keeps s =
        >>=-Keeps (Holds r) (update_requests p (is_stale ctx s.now) (expired_at s.now))
          (λ rows. pure (length rows))
          (update_requests-Keeps (is_stale ctx s.now) (expired_at s.now) (λ x h. ground arith))
          (λ rows t n. n) s

    expire_stale-Keeps : Keeps (Holds r) (expire_stale p ctx)
    unfolding expire_stale
    expire_stale-Keeps = transaction-Keeps (Holds r) (expire_statement p ctx) expire_statement-Keeps

    answer_or_request-Keeps :
        (notify : Option (ℕ → Result String (Unit {0}))) (tool : String) (args : Json)
        (level : RiskLevel) (usable reusable : Option OversightRequest)
        → Keeps (Holds r) (answer_or_request p encrypt ctx notify tool args level usable reusable)
    answer_or_request-Keeps notify tool args level (some q) o s m = m
    answer_or_request-Keeps notify tool args level none (some q) s m = m
    answer_or_request-Keeps none tool args level none none s m = Memᴰ-append s.requests _ m
    answer_or_request-Keeps (some notify) tool args level none none s m =
        >>=-Keeps (Holds r) (notify_new p encrypt (some notify) s.next_id) _ (λ t n. n) (λ u t n. n)
          (insert_request p encrypt (new_request p encrypt ctx tool args level s) s)
          (Memᴰ-append s.requests _ m)

    check-Keeps :
        (notify : Option (ℕ → Result String (Unit {0}))) (tool : String) (args : Json)
        (level : RiskLevel)
        → Keeps (Holds r) (check p encrypt ctx notify tool args level)
    unfolding check look_up_or_request
    check-Keeps notify tool args level =
        >>=-Keeps (Holds r) (expire_stale p ctx) _ expire_stale-Keeps (λ n.
          transaction-Keeps (Holds r) (look_up_or_request p encrypt ctx notify tool args level)
            (λ s m. answer_or_request-Keeps notify tool args level _ _ s m))

    record_outcome-Keeps :
        (id : ℕ) (summary : String) → Keeps (Holds r) (record_outcome p encrypt ctx id summary)
    unfolding record_outcome
    record_outcome-Keeps id summary = transaction-Keeps (Holds r) _ (
        >>=-Keeps (Holds r) (update_requests p _ _) _
          (update_requests-Keeps _ _ (λ x h. ground arith)) (λ rows t n. n))

    log_decision-Keeps :
        (id decider : ℕ) (status : OversightStatus) (done : Bool)
        → Keeps
            (Holds r)
            (log_decision p encrypt (decision_event p encrypt ctx id decider status) done)
    log_decision-Keeps id decider status true s m = m
    log_decision-Keeps id decider status false s m = m

    decide_statement-Keeps :
        (id decider : ℕ) (status : OversightStatus)
        → Keeps (Holds r) (decide_statement p encrypt ctx id decider status)
    decide_statement-Keeps id decider status s =
        >>=-Keeps (Holds r)
          (update_requests p (is_open p encrypt ctx id) (decided p encrypt status decider s.now))
          (λ rows. pure (ltb 0 (length rows)))
          (update_requests-Keeps (is_open p encrypt ctx id) (decided p encrypt status decider s.now)
            (λ x h. ground arith))
          (λ rows t n. n) s

    decide-Keeps :
        (id decider : ℕ) (status : OversightStatus)
        → Keeps (Holds r) (decide p encrypt ctx id decider status)
    unfolding decide
    decide-Keeps id decider status =
        >>=-Keeps (Holds r) (transaction (decide_statement p encrypt ctx id decider status))
          (log_decision p encrypt (decision_event p encrypt ctx id decider status))
          (transaction-Keeps (Holds r) (decide_statement p encrypt ctx id decider status)
            (decide_statement-Keeps id decider status))
          (log_decision-Keeps id decider status)

-- What can happen to the state: the operations, each in a context of its own, and time.
module _ (p : Platform) (encrypt : ℕ → String → String) where
  pub data Step (s : OversightState) : OversightState → Type 0 where
    expires : (ctx : TenantContext) → Step s (expire_stale p ctx s).1
    checks :
        (ctx : TenantContext) (notify : Option (ℕ → Result String (Unit {0}))) (tool : String)
        (args : Json) (level : RiskLevel)
        → Step s (check p encrypt ctx notify tool args level s).1
    records :
        (ctx : TenantContext) (id : ℕ) (summary : String)
        → Step s (record_outcome p encrypt ctx id summary s).1
    decides :
        (ctx : TenantContext) (id decider : ℕ) (status : OversightStatus)
        → Step s (decide p encrypt ctx id decider status s).1
    passes : (t : ℕ) → Step s (record s { now = t })

  pub data Reach (s : OversightState) : OversightState → Type 0 where
    here : Reach s s
    next : {t u : OversightState} → Reach s t → Step t u → Reach s u

  Step-keeps_decided :
      (r : OversightRequest) {s t : OversightState}
      → has_status r.status pending ≡ false
      → Step s t
      → Holds r s
      → Holds r t
  Step-keeps_decided r d (expires ctx) m = expire_stale-Keeps ctx r (is_decided d) p encrypt _ m
  Step-keeps_decided r d (checks ctx notify tool args level) m =
      check-Keeps ctx r (is_decided d) p encrypt notify tool args level _ m
  Step-keeps_decided r d (records ctx id summary) m =
      record_outcome-Keeps ctx r (is_decided d) p encrypt id summary _ m
  Step-keeps_decided r d (decides ctx id decider status) m =
      decide-Keeps ctx r (is_decided d) p encrypt id decider status _ m
  Step-keeps_decided r d (passes t) m = m

  -- Once a request is approved, rejected or expired, its row stays in the table exactly as it is,
  -- through any sequence of checks, decisions, expiries, recorded outcomes and passing time, whoever
  -- makes them: no decision is ever reversed, and no column of the row is rewritten.
  pub Reach-keeps_decided :
      (r : OversightRequest) {s t : OversightState}
      → has_status r.status pending ≡ false
      → Memᴰ r s.requests
      → Reach s t
      → Memᴰ r t.requests
  Reach-keeps_decided r d m here = m
  Reach-keeps_decided r d m (next path step) =
      Step-keeps_decided r d step (Reach-keeps_decided r d m path)

  -- The operations in the context of one organisation leave every request of another one as it is.
  pub operations_keep_foreign :
      (ctx : TenantContext) (r : OversightRequest) (s : OversightState)
      (notify : Option (ℕ → Result String (Unit {0}))) (tool : String) (args : Json)
      (level : RiskLevel) (id decider : ℕ) (status : OversightStatus) (summary : String)
      → r.org_id ≢ ctx.org_id
      → Memᴰ r s.requests
      → Memᴰ r (expire_stale p ctx s).1.requests
        × Memᴰ r (check p encrypt ctx notify tool args level s).1.requests
        × Memᴰ r (record_outcome p encrypt ctx id summary s).1.requests
        × Memᴰ r (decide p encrypt ctx id decider status s).1.requests
  operations_keep_foreign ctx r s notify tool args level id decider status summary n m =
      let fixed : IsFixed ctx r = is_foreign n in
      (
        expire_stale-Keeps ctx r fixed p encrypt s m,
        check-Keeps ctx r fixed p encrypt notify tool args level s m,
        record_outcome-Keeps ctx r fixed p encrypt id summary s m,
        decide-Keeps ctx r fixed p encrypt id decider status s m,
      )
