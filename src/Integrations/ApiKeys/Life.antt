-- ===== src/Integrations/ApiKeys/Life.antt =====
-- The life of a key of src/integrations/apiKeys.ts: what a request that carries it is answered by
-- src/http/apiKeyAuth.ts.
use capybara_ai.Prelude.{
  ℕ, ◌+◌, String, ◌<>◌, true, false, Bool-cases, Option, none, some, [], ◌∷◌, ◌++◌, includes, not,
  ◌==◌, nat_eq, string_eq, ◌||◌, if◌then◌else◌, Option-cases, ◌⊎◌, ◌≡◌, ◌≢◌, refl, sym, ◌∙◌, ap,
  eq_iff, inl, inr, nat_beq_iff, strip_prefix, strip_prefix-append,
}
use capybara_ai.Prelude.Effect.{ok, throw}
use capybara_ai.Prelude.Table.{first_where, first_where-append_new, first_where-update_same}
use mathlib.Core.Option
use capybara_ai.Tenancy.{TenantContext}
use capybara_ai.Hash.{Platform}
use capybara_ai.Rbac.{Verdict, reply, proceed}
use capybara_ai.Integrations.ApiKeys.{
  ApiKey, ApiState, CreatedApiKey, NewApiKey, prefix, deactivated, has_key, revoke_api_key,
  is_expired, admit_key, after_auth, require_scope, then_scope, hash_key, has_hash, new_key,
  insert_key, create_api_key, authenticate_api_key, guard_api, bearer_auth,
}

module _ (now : ℕ) (scope : String) where
  -- The answer to a request with a key of the right form depends on the row of its hash.
  abbrev pub answer_of : Option ApiKey → Verdict
  answer_of none = reply 401
  answer_of (some r) =
      if not r.active || is_expired now r.expires_at
      then reply 401
      else (if includes r.scopes scope then proceed else reply 403)

  -- The answer to a key that is in force.
  abbrev pub answer_in_force : NewApiKey → Verdict
  answer_in_force input =
      if is_expired now input.expires_at
      then reply 401
      else (if includes input.scopes scope then proceed else reply 403)

module _ (p : Platform) (now : ℕ) (scope method path : String) where
  guard-found :
      (o : Option ApiKey) (s : ApiState)
      → (then_scope scope (after_auth method path (admit_key now o s))).0 ≡ answer_of now scope o
  unfolding require_scope then_scope
  guard-found none s = refl
  guard-found (some r) s = elim (Bool-cases (not r.active || is_expired now r.expires_at)) [
    | inl out ↦ rw out refl
    | inr in_use ↦ rw in_use refl
  ]

  not_empty : (random : String) → (prefix <> random) == "" ≡ false
  not_empty random = elim (Bool-cases ((prefix <> random) == "")) [
    | inl h ↦
        let nothing : strip_prefix prefix (prefix <> random) ≡ none =
          ap (strip_prefix prefix) ((eq_iff (prefix <> random) "").0 h) in
        absurd (cc (nothing, strip_prefix-append prefix random))
    | inr h ↦ h
  ]

  guard_api-found :
      (random : String) (s : ApiState)
      → (guard_api p now scope method path (some ("Bearer " <> (prefix <> random))) s).0
        ≡ answer_of now scope (first_where (has_hash p (hash_key p (prefix <> random))) s.keys)
  unfolding guard_api bearer_auth authenticate_api_key then_scope
  guard_api-found random s =
      rw
        (
          strip_prefix-append "Bearer " (prefix <> random),
          not_empty random,
          strip_prefix-append prefix random,
        )
        (guard-found (first_where (has_hash p (hash_key p (prefix <> random))) s.keys) s)

  -- The answer after a revocation that the row may be out of reach of.
  answer-revoked :
      (ctx : TenantContext) (id : ℕ) (random : String) (r : ApiKey) (t : ApiState)
      → first_where (has_hash p (hash_key p (prefix <> random))) t.keys ≡ some r
      → (guard_api p now scope method path
          (some ("Bearer " <> (prefix <> random)))
          (revoke_api_key ctx id t).1).0
        ≡ answer_of now scope (some (if has_key ctx id r then deactivated r else r))
  unfolding revoke_api_key
  answer-revoked ctx id random r t found =
      guard_api-found random (revoke_api_key ctx id t).1
      ∙ ap (answer_of now scope) (
          first_where-update_same (has_hash p (hash_key p (prefix <> random))) (has_key ctx id)
            deactivated t.keys (λ q. refl)
          ∙ ap (Option.map (λ q. if has_key ctx id q then deactivated q else q)) found)

  answer-other :
      (ctx other : TenantContext) (id : ℕ) (r : ApiKey)
      → r.org_id ≡ ctx.org_id
      → other.org_id ≢ ctx.org_id
      → has_key other id r ≡ false
  answer-other ctx other id r own apart = elim (Bool-cases (r.org_id == other.org_id)) [
    | inl h ↦ absurd (apart (sym ((nat_beq_iff r.org_id other.org_id).0 h) ∙ own))
    | inr h ↦ rw h refl
  ]

  -- A created key that the caller keeps is answered by what it was created with: until it expires a
  -- request within its scopes proceeds and any other is refused with 403, and after that it is refused
  -- with 401. Once its organisation has revoked it, every request is refused with 401. A revocation by another
  -- organisation of any key changes nothing. The only creation that fails is of a hash that
  -- the table has; it changes nothing.
  pub create_api_key-IsKey :
      (ctx other : TenantContext) (random : String) (input : NewApiKey) (id : ℕ) (s : ApiState)
      → other.org_id ≢ ctx.org_id
      → ((q : ApiKey) × (first_where (has_hash p (hash_key p (prefix <> random))) s.keys ≡ some q)
          × (create_api_key p ctx random input s ≡ (throw "duplicate key value", s)))
        ⊎ ((created : CreatedApiKey) × (t : ApiState) × (create_api_key p ctx random input s
              ≡ (ok created, t))
            × ((guard_api p now scope method path (some ("Bearer " <> created.key)) t).0
                ≡ answer_in_force now scope input)
            × ((guard_api p now scope method path
                  (some ("Bearer " <> created.key))
                  (revoke_api_key ctx created.id t).1).0
                ≡ reply 401)
            × ((guard_api p now scope method path
                  (some ("Bearer " <> created.key))
                  (revoke_api_key other id t).1).0
                ≡ answer_in_force now scope input))
  unfolding create_api_key
  create_api_key-IsKey ctx other random input id s apart =
      let raw = prefix <> random in
      let r = new_key p ctx raw input s in
      let has = has_hash p (hash_key p raw) in
      let t : ApiState = record s { keys = s.keys ++ r ∷ []; next_id = s.next_id + 1 } in
      elim (Option-cases (first_where has s.keys)) [
        | inr taken ↦ inl (taken.0, taken.1, ap (λ o. insert_key o raw r s) taken.1)
        | inl fresh ↦
            let found : first_where has t.keys ≡ some r =
              first_where-append_new has s.keys r fresh
                ((eq_iff (hash_key p raw) (hash_key p raw)).1 refl) in
            let here : has_key ctx r.id r ≡ true =
              rw
                (
                  (nat_beq_iff ctx.org_id ctx.org_id).1 refl,
                  (nat_beq_iff s.next_id s.next_id).1 refl,
                )
                refl in
            inr (
              record { id = r.id; key = raw; prefix = r.key_prefix },
              t,
              ap (λ o. insert_key o raw r s) fresh,
              guard_api-found random t ∙ ap (answer_of now scope) found,
              answer-revoked ctx r.id random r t found
                  ∙ ap (λ b. answer_of now scope (some (if b then deactivated r else r))) here,
              answer-revoked other id random r t found
                  ∙ ap (λ b. answer_of now scope (some (if b then deactivated r else r)))
                      (answer-other ctx other id r refl apart),
            )
      ]
