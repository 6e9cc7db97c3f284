-- ===== src/Admin/Users/Deactivation.antt =====
-- What `deactivateUser` of src/admin/users.ts means for the sign-in of src/auth/local.provider.ts and
-- for the sessions of src/auth/session.ts.
use mathlib.Core.Path.{fun_ext}
use capybara_ai.Prelude.{
  ℕ, String, true, false, Bool-cases, Option, none, some, List, [], ◌∷◌, ◌≡◌, ◌≢◌, refl, inl, inr,
  ◌==◌, nat_eq, nat_beq_iff, string_eq, arith, Option-cases, ◌∙◌, All, is_some, is_none,
}
use capybara_ai.Prelude.Effect.{ok}
use capybara_ai.Prelude.Table.{
  first_where, first_where_sound, first_where-update_apart, first_where-update_miss,
  All-first_where,
}
use capybara_ai.Hash.{Platform}
use capybara_ai.Tenancy.{TenantContext}
use capybara_ai.Auth.Accounts.{User, UserStatus, Session, Accounts}
use capybara_ai.Auth.Session.{ValidatedSession, validate_session, is_live, found_session, find_user}
use capybara_ai.Auth.Directory.{Directory}
use capybara_ai.Auth.Local.{
  Argon2, AuthenticatedIdentity, authenticate, check_user, verify_password, is_active,
  normalize_email,
}
use capybara_ai.Admin.Users.{deactivate_user, set_inactive, revoke_all}

-- A row of the target is revoked.
abbrev pub IsRevokedFor : ℕ → Session → Type 0
IsRevokedFor target r = r.user_id == target ≡ true → is_none r.revoked_at ≡ false

abbrev pub IsInactiveFor : ℕ → User → Type 0
IsInactiveFor target u = u.id == target ≡ true → is_active u.status ≡ false

revoke_all-IsRevokedFor :
    (now target : ℕ) (rows : List Session) → All (IsRevokedFor target) (revoke_all now target rows)
revoke_all-IsRevokedFor now target [] = tt
revoke_all-IsRevokedFor now target (r ∷ rows) = elim (Bool-cases (r.user_id == target)) [
  | inl e ↦ rw e ((λ _. refl), revoke_all-IsRevokedFor now target rows)
  | inr e ↦ rw e ((λ h. absurd (cc (rw e at h))), revoke_all-IsRevokedFor now target rows)
]

set_inactive-IsInactiveFor :
    (target : ℕ) (rows : List User) → All (IsInactiveFor target) (set_inactive target rows)
set_inactive-IsInactiveFor target [] = tt
set_inactive-IsInactiveFor target (u ∷ rows) = elim (Bool-cases (u.id == target)) [
  | inl e ↦ rw e ((λ _. refl), set_inactive-IsInactiveFor target rows)
  | inr e ↦ rw e ((λ h. absurd (cc (rw e at h))), set_inactive-IsInactiveFor target rows)
]

module _ (p : Platform) (now target : ℕ) where
  -- The accounts after a deactivation.
  abbrev shut : Accounts → Accounts
  shut a = record a {
    users = set_inactive target a.users;
    sessions = revoke_all now target a.sessions;
  }

  find_user-some_shut :
      (id : ℕ) (rows : List User)
      → is_some (first_where (λ (u : User). u.id == id) (set_inactive target rows))
        ≡ is_some (first_where (λ (u : User). u.id == id) rows)
  find_user-some_shut id [] = refl
  find_user-some_shut id (u ∷ rows) = ground (arith, find_user-some_shut id rows)

  find_user-shut : (id : ℕ) (a : Accounts) → id ≢ target → find_user id (shut a) ≡ find_user id a
  find_user-shut id a apart =
      first_where-update_apart (λ (u : User). u.id == target) (λ (u : User). u.id == id)
        (λ (u : User). record u { status = UserStatus.inactive }) a.users (λ u h. ground (arith))

  is_live-shut :
      (later : ℕ) (token : String) (a : Accounts) (r : Session)
      → is_live p later token (shut a) r ≡ is_live p later token a r
  is_live-shut later token a r = rw (find_user-some_shut r.user_id a.users) refl

  -- The live session of another user stays the one that is found.
  live_of_other :
      (later : ℕ) (token : String) (a : Accounts) (rows : List Session) (r : Session)
      → first_where (is_live p later token a) rows ≡ some r
      → r.user_id ≢ target
      → first_where (is_live p later token (shut a)) (revoke_all now target rows) ≡ some r
  live_of_other later token a rows r e apart = rw (fun_ext (is_live-shut later token a)) (
      first_where-update_miss (is_live p later token a) (λ (x : Session). x.user_id == target)
        (λ (x : Session). record x { revoked_at = some now }) rows r (λ x h k. ground arith) e
        (ground arith))

  found_of_other :
      (a : Accounts) (found : Option Session) (v : ValidatedSession)
      → found_session a found ≡ some v
      → (r : Session) × (found ≡ some r) × (r.user_id ≡ v.user_id)
  found_of_other a none v e = absurd (cc)
  found_of_other a (some r) v e = elim (Option-cases (find_user r.user_id a)) [
    | inl q ↦ absurd (cc (rw q at e))
    | inr (u, q) ↦ (r, refl, ground (arith, rw q at e))
  ]

  -- A token of another user is accepted as before.
  validate_other :
      (later : ℕ) (token : String) (a : Accounts) (v : ValidatedSession)
      → validate_session p later token a ≡ some v
      → v.user_id ≢ target
      → validate_session p later token (shut a) ≡ some v
  unfolding validate_session
  validate_other later token a v e apart = elim (Bool-cases (token == "")) [
    | inl q ↦ absurd (cc (rw q at e))
    | inr q ↦
        let e' : found_session a (first_where (is_live p later token a) a.sessions) ≡ some v =
          rw q at e in
        let (r, live, user) = found_of_other a _ v e' in
        let other : r.user_id ≢ target = rw user apart in
        rw
          (q, live_of_other later token a a.sessions r live other, find_user-shut r.user_id a other)
          (rw live at e')
  ]

  -- No token of the target is accepted.
  validate_target :
      (later : ℕ) (token : String) (a : Accounts) (v : ValidatedSession)
      → validate_session p later token (shut a) ≡ some v
      → v.user_id ≢ target
  unfolding validate_session
  validate_target later token a v e = elim (Bool-cases (token == "")) [
    | inl q ↦ absurd (cc (rw q at e))
    | inr q ↦
        let (r, live, user) = found_of_other (shut a) _ v (rw q at e) in
        let revoked =
          All-first_where (IsRevokedFor target) (is_live p later token (shut a)) _ r
            (revoke_all-IsRevokedFor now target a.sessions) live in
        let alive = first_where_sound (is_live p later token (shut a)) _ r live in
        λ same.
          let dead = revoked ((nat_beq_iff r.user_id target).1 (user ∙ same)) in
          absurd (ground (arith, alive, dead))
  ]

  module _ (argon : Argon2) where
    checked_of :
        (found : Option User) (password : String) (id : AuthenticatedIdentity)
        → check_user p argon found password ≡ some id
        → (u : User) × (found ≡ some u) × (u.id ≡ id.user_id) × (is_active u.status ≡ true)
    checked_of none password id e = absurd (cc)
    checked_of (some u) password id e = elim (Bool-cases (is_active u.status)) [
      | inl q ↦ elim (Bool-cases (verify_password p argon u.password_hash password)) [
        | inl k ↦ (u, refl, ground (arith, rw (q, k) at e), q)
        | inr k ↦ absurd (cc (rw (q, k) at e))
      ]
      | inr q ↦ absurd (cc (rw q at e))
    ]

    sign_in_target :
        (raw password : String) (a : Accounts) (id : AuthenticatedIdentity)
        → authenticate p argon raw password (shut a) ≡ some id
        → id.user_id ≢ target
    unfolding authenticate
    sign_in_target raw password a id e same =
        let (u, found, user, active) = checked_of _ password id e in
        let inactive =
          All-first_where (IsInactiveFor target) (λ (v : User). v.email == normalize_email p raw) _
            u (set_inactive-IsInactiveFor target a.users) found in
        absurd (cc (active, inactive ((nat_beq_iff u.id target).1 (user ∙ same))))

    sign_in_other :
        (raw password : String) (a : Accounts) (id : AuthenticatedIdentity)
        → authenticate p argon raw password a ≡ some id
        → id.user_id ≢ target
        → authenticate p argon raw password (shut a) ≡ some id
    unfolding authenticate
    sign_in_other raw password a id e apart =
        let (u, found, user, active) = checked_of _ password id e in
        let other : u.id ≢ target = rw user apart in
        let miss : (u.id == target) ≡ false = ground arith in
        let kept =
          first_where-update_miss (λ (v : User). v.email == normalize_email p raw)
            (λ (v : User). v.id == target) (λ (v : User). record v { status = UserStatus.inactive })
            a.users u (λ v h k. k) found miss in
        rw kept (rw found at e)

-- What a deactivation does to the ways in: those of the target are shut, those of others are not.
pub record IsLockedOut (p : Platform) (argon : Argon2) (target : ℕ) (before after : Accounts)
    : Type 0 where
  pub no_session :
      (now : ℕ) (token : String) (v : ValidatedSession)
      → validate_session p now token after ≡ some v
      → v.user_id ≢ target
  pub no_sign_in :
      (raw password : String) (id : AuthenticatedIdentity)
      → authenticate p argon raw password after ≡ some id
      → id.user_id ≢ target
  pub other_sessions :
      (now : ℕ) (token : String) (v : ValidatedSession)
      → validate_session p now token before ≡ some v
      → v.user_id ≢ target
      → validate_session p now token after ≡ some v
  pub other_sign_ins :
      (raw password : String) (id : AuthenticatedIdentity)
      → authenticate p argon raw password before ≡ some id
      → id.user_id ≢ target
      → authenticate p argon raw password after ≡ some id

-- Once a user other than the caller was deactivated, no session token of that user is accepted, at any
-- time, and no password signs the user in; the tokens and the passwords of everybody else work as before.
pub deactivate_user-IsLockedOut :
    (p : Platform) (argon : Argon2) (ctx : TenantContext) (now target : ℕ) (s : Directory)
    → target ≢ ctx.user_id
    → let o = deactivate_user ctx now target s in
      (o.0 ≡ ok tt) × IsLockedOut p argon target s.accounts o.1.accounts
unfolding deactivate_user
deactivate_user-IsLockedOut p argon ctx now target s apart =
    let other : (target == ctx.user_id) ≡ false = ground arith in
    rw other (
      refl,
      record {
        no_session = λ later token v. validate_target p now target later token s.accounts v;
        no_sign_in =
            λ raw password id. sign_in_target p now target argon raw password s.accounts id;
        other_sessions = λ later token v. validate_other p now target later token s.accounts v;
        other_sign_ins =
            λ raw password id. sign_in_other p now target argon raw password s.accounts id;
      },
    )
