-- ===== src/Auth/Session/Validity.antt =====
-- When a token of src/auth/session.ts is accepted.
use capybara_ai.Prelude.{
  ℕ, ◌+◌, String, Bool, true, false, Bool-cases, Option, none, some, List, [], ◌∷◌, ltb,
  if◌then◌else◌, ◌==◌, string_eq, nat_eq, ◌≡◌, ◌≢◌, refl, sym, ◌∙◌, ap, arith, eq_iff, inl, inr,
  get_or_else,
}
use capybara_ai.Prelude.Table.{
  first_where, update_where, first_where-append_new, first_where-append_apart,
  first_where-update_apart,
}
use capybara_ai.Hash.{Platform}
use capybara_ai.Auth.Accounts.{User, Session, Accounts}
use capybara_ai.Auth.Session.{
  ValidatedSession, find_user, joined, found_session, hash_token, new_session, create_session,
  has_token, is_live, validate_session, revoke_session, default_ttl_ms,
}

module _ (p : Platform) where
  none_live :
      (now : ℕ) (token : String) (s : Accounts) (rows : List Session)
      → first_where (has_token p token) rows ≡ none
      → first_where (is_live p now token s) rows ≡ none
  none_live now token s [] e = refl
  none_live now token s (r ∷ rows) e = ground (arith, none_live now token s rows)

  -- A token that is new to the table, of a user that exists, is accepted from its creation until it
  -- expires, as a session of that user and organisation, and not from then on.
  pub validate_session-create_session :
      (now later : ℕ) (token : String) (u : User) (org_id ttl_ms : Option ℕ) (s : Accounts)
      → token == "" ≡ false
      → find_user u.id s ≡ some u
      → first_where (has_token p token) s.sessions ≡ none
      → validate_session p later token (create_session p now token u.id org_id ttl_ms s).1 ≡ (
          if ltb later (now + get_or_else ttl_ms default_ttl_ms)
          then some
              (record { session_id = s.next_id; user_id = u.id; email = u.email; org_id = org_id })
          else none)
  unfolding validate_session create_session
  validate_session-create_session now later token u org_id ttl_ms s named known fresh =
      let r = new_session p now token u.id org_id ttl_ms s in
      let own : has_token p token r ≡ true =
        (eq_iff (hash_token p token) (hash_token p token)).1 refl in
      let none_before = none_live later token s s.sessions fresh in
      elim (Bool-cases (ltb later r.expires_at)) [
        | inl in_time ↦
            let live : is_live p later token s r ≡ true = rw (own, in_time, known) refl in
            rw (named, in_time)
              (ap (found_session s)
                  (first_where-append_new (is_live p later token s) s.sessions r none_before live)
                ∙ ap (joined r) known)
        | inr too_late ↦
            let dead : is_live p later token s r ≡ false = rw (own, too_late) refl in
            rw (named, too_late)
              (ap (found_session s) (
                first_where-append_apart (is_live p later token s) s.sessions r dead ∙ none_before))
      ]

  revoked_none :
      (now later : ℕ) (token : String) (s : Accounts) (rows : List Session)
      → first_where (is_live p later token s) (
          update_where
            (has_token p token)
            (λ (r : Session). record r { revoked_at = some now })
            rows)
        ≡ none
  revoked_none now later token s [] = refl
  revoked_none now later token s (r ∷ rows) = ground (arith, revoked_none now later token s rows)

  same_branches : (b : Bool) → ◌≡◌ {A = Option ValidatedSession} (if b then none else none) none
  same_branches true = refl
  same_branches false = refl

  other_token :
      (token other : String) (r : Session)
      → hash_token p other ≢ hash_token p token
      → has_token p token r ≡ true
      → has_token p other r ≡ false
  other_token token other r differ h = elim (Bool-cases (has_token p other r)) [
    | inl hit ↦ absurd (
        differ (
          sym ((eq_iff r.token_hash (hash_token p other)).0 hit)
          ∙ (eq_iff r.token_hash (hash_token p token)).0 h))
    | inr miss ↦ miss
  ]

  -- A revoked token is never accepted again, and the revocation changes nothing for a token with
  -- another hash.
  pub validate_session-revoke_session :
      (now later : ℕ) (token other : String) (s : Accounts)
      → hash_token p other ≢ hash_token p token
      → (validate_session p later token (revoke_session p now token s) ≡ none)
        × (validate_session p later other (revoke_session p now token s)
            ≡ validate_session p later other s)
  unfolding validate_session revoke_session
  validate_session-revoke_session now later token other s differ = (
    ap (λ o. if token == "" then none else found_session s o)
          (revoked_none now later token s s.sessions)
        ∙ same_branches (token == ""),
    ap (λ o. if other == "" then none else found_session s o)
        (first_where-update_apart (has_token p token) (is_live p later other s)
          (λ (r : Session). record r { revoked_at = some now }) s.sessions
          (λ r h.
            let apart = other_token token other r differ h in (rw apart refl, rw apart refl))),
  )
