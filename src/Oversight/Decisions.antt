-- ===== src/Oversight/Decisions.antt =====
-- What a decision of src/compliance/oversight.ts comes to, and what the trigger of
-- src/db/sql/0005_compliance.sql does to the recording of an outcome.
use capybara_ai.Prelude.{
  ℕ, ◌≡◌, refl, ap, ◌∙◌, String, Bool, true, false, some, List, [], ◌∷◌, arith, ◌==◌, nat_eq,
  string_eq, ◌&&◌, not, any, length, ltb,
}
use capybara_ai.Prelude.Table.{update_where, select_where}
use capybara_ai.Prelude.Effect.{ok, throw}
use capybara_ai.Hash.{Platform}
use capybara_ai.Tenancy.{TenantContext, in_tenant}
use capybara_ai.Oversight.{
  OversightRequest, OversightState, OversightStatus, pending, has_status, guarded_update,
  update_requests, record_outcome, is_open, decided, log_decision, decide, decision_event,
  trigger_error, decided_status,
}
use mathlib.Core.List.{Memᴰ}

any-true :
    {A : Type 0} {a : A} (q : A → Bool) (rs : List A) → q a ≡ true → Memᴰ a rs → any q rs ≡ true
any-true q [] h m = elim m [ ]
any-true q (r ∷ rs) h (Memᴰ.head e) = let here : q r ≡ true = rw (← e) h in rw here refl
any-true q (r ∷ rs) h (Memᴰ.tail m) = ground (arith, any-true q rs h m)

-- No row is left that fits a condition which the change of an update ends.
select_where-update_none :
    {A : Type 0} (q : A → Bool) (f : A → A) (rs : List A)
    → ((r : A) → q (f r) ≡ false)
    → select_where q (update_where q f rs) ≡ []
select_where-update_none q f [] h = refl
select_where-update_none q f (r ∷ rs) h = ground (arith, h r, select_where-update_none q f rs h)

module _ (p : Platform) (encrypt : ℕ → String → String) (ctx : TenantContext) where
  guarded_update_refused :
      (q : OversightRequest → Bool) (f : OversightRequest → OversightRequest)
      (rows : List OversightRequest) (r : OversightRequest)
      → Memᴰ r rows
      → q r ≡ true
      → has_status r.status pending ≡ false
      → guarded_update q f rows ≡ throw (trigger_error (decided_status q rows))
  unfolding guarded_update
  guarded_update_refused q f rows r m h d =
      let bad : (q r && not (has_status r.status pending)) ≡ true = rw (h, d) refl in
      rw (any-true (λ x. q x && not (has_status x.status pending)) rows bad m)

  -- The row that an outcome is recorded on.
  abbrev pub is_here : ℕ → OversightRequest → Bool
  is_here id x = in_tenant ctx x.org_id && x.id == id

  -- The outcome of a request of the organisation that has been decided cannot be recorded: the
  -- trigger refuses the update, the call throws, and nothing changes.
  pub record_outcome_refused :
      (r : OversightRequest) (summary : String) (s : OversightState)
      → Memᴰ r s.requests
      → r.org_id ≡ ctx.org_id
      → has_status r.status pending ≡ false
      → record_outcome p encrypt ctx r.id summary s
        ≡ (throw (p.query_error (trigger_error (decided_status (is_here r.id) s.requests))), s)
  unfolding record_outcome update_requests
  record_outcome_refused r summary s m o d =
      rw
        (guarded_update_refused (is_here r.id) (λ x. record x { outcome_summary = some summary })
          s.requests r m (ground arith) d)
        refl

  guarded_update-open :
      (id : ℕ) (f : OversightRequest → OversightRequest) (rows : List OversightRequest)
      → guarded_update (is_open p encrypt ctx id) f rows
        ≡ ok (update_where (is_open p encrypt ctx id) f rows)
  unfolding guarded_update
  guarded_update-open id f rows = rw (quiet rows)
    where
      quiet :
          (rows : List OversightRequest)
          → any (λ x. is_open p encrypt ctx id x && not (has_status x.status pending)) rows ≡ false
      quiet [] = refl
      quiet (x ∷ rows) = ground (arith, quiet rows)

  -- A decision: whether a row was open, and the state with that row decided.
  decide_lem :
      (id decider : ℕ) (status : OversightStatus) (s : OversightState)
      → decide p encrypt ctx id decider status s
        ≡ log_decision p encrypt
            (decision_event p encrypt ctx id decider status)
            (ltb 0 (length (select_where (is_open p encrypt ctx id) s.requests)))
            (record s {
              requests =
                  update_where
                    (is_open p encrypt ctx id)
                    (decided p encrypt status decider s.now)
                    s.requests;
            })
  unfolding decide update_requests
  decide_lem id decider status s =
      rw (guarded_update-open id (decided p encrypt status decider s.now) s.requests)

  log_decision-requests :
      (id decider : ℕ) (status : OversightStatus) (done : Bool) (s : OversightState)
      → (log_decision p encrypt (decision_event p encrypt ctx id decider status) done s).1.requests
        ≡ s.requests
  log_decision-requests id decider status true s = refl
  log_decision-requests id decider status false s = refl

  -- A request is decided at most once: after a decision of any kind on it, a further decision on it
  -- in the same organisation reports that nothing was decided, and leaves the security log alone.
  pub decide_once :
      (id first second : ℕ) (status status' : OversightStatus) (s : OversightState)
      → has_status status pending ≡ false
      → let t = (decide p encrypt ctx id first status s).1 in
        ((decide p encrypt ctx id second status' t).0 ≡ ok false)
        × ((decide p encrypt ctx id second status' t).1.log ≡ t.log)
  decide_once id first second status status' s d =
      let t = (decide p encrypt ctx id first status s).1 in
      let closed : select_where (is_open p encrypt ctx id) t.requests ≡ [] =
        ap (λ o. select_where (is_open p encrypt ctx id) (o.1.requests))
          (decide_lem id first status s)
        ∙ ap (select_where (is_open p encrypt ctx id)) (log_decision-requests id first status _ _)
        ∙ select_where-update_none (is_open p encrypt ctx id)
            (λ r. decided p encrypt status first s.now r) s.requests (λ r. ground arith) in
      let after = decide_lem id second status' t in
      (ap (λ o. o.0) after ∙ rw closed refl, ap (λ o. o.1.log) after ∙ rw closed refl)
