-- ===== src/Auth/Local/Accepted.antt =====
-- Who the local provider of src/auth/local.provider.ts lets in after a registration.
use capybara_ai.Prelude.{
  String, Bool, true, false, any, [], ◌∷◌, ◌++◌, Option, none, some, ◌==◌, nat_eq, string_eq, ◌≡◌,
  ◌≢◌, refl, ap, eq_iff, arith,
}
use capybara_ai.Prelude.Effect.{Result, ok, throw, is_ok}
use capybara_ai.Prelude.Table.{first_where-append_new, first_where-append_apart}
use capybara_ai.Hash.{Platform}
use capybara_ai.Auth.Accounts.{User}
use capybara_ai.Auth.Directory.{Directory}
use capybara_ai.Rbac.{owner}
use capybara_ai.Auth.Local.{
  Argon2, AuthenticatedIdentity, RegistrationResult, register, add_user, add_organization,
  add_unless_slug, has_slug, slug_from_email, authenticate, check_user, find_by_email,
  normalize_email, new_user,
}

module _ (p : Platform) (argon : Argon2) (salt suffix raw password : String) where
  -- What is left when the row of the new user was written, with the identity `identity`.
  pub record IsRegistered (identity : AuthenticatedIdentity) (before after : Directory)
      : Type 0 where
    pub signs_in : authenticate p argon raw password after.accounts ≡ some identity
    pub taken :
        (salt' suffix' raw' password' : String) (org_name : Option String)
        → normalize_email p raw' ≡ normalize_email p raw
        → register p argon salt' suffix' raw' password' org_name after
          ≡ (throw "email already registered", after)
    pub others :
        (raw' password' : String)
        → normalize_email p raw' ≢ normalize_email p raw
        → authenticate p argon raw' password' after.accounts
          ≡ authenticate p argon raw' password' before.accounts

  -- What a registration under an address that nobody has comes to: with the slug free, a result whose
  -- user owns the new organisation; with the slug taken, an error, no organisation and no membership.
  abbrev pub Registration : Directory → Bool → Result String RegistrationResult × Directory → Type 0
  Registration before false o =
      (r : RegistrationResult) × (o.0 ≡ ok r)
      × IsRegistered r.identity before o.1
      × (o.1.memberships
          ≡ before.memberships
            ++ record { org_id = r.org_id; user_id = r.identity.user_id; role = owner } ∷ [])
  Registration before true o =
      (identity : AuthenticatedIdentity) × (is_ok o.0 ≡ false)
      × IsRegistered identity before o.1
      × (o.1.organizations ≡ before.organizations)
      × (o.1.memberships ≡ before.memberships)

  user_added-IsRegistered :
      (s after : Directory)
      → argon.verify (argon.hash salt password) password ≡ ok true
      → find_by_email (normalize_email p raw) s.accounts ≡ none
      → after.accounts.users
        ≡ s.accounts.users
          ++ new_user (normalize_email p raw) (argon.hash salt password) s.accounts.next_id ∷ []
      → IsRegistered
          (record { user_id = s.accounts.next_id; email = normalize_email p raw })
          s
          after
  unfolding register authenticate
  user_added-IsRegistered s after law free added =
      let email = normalize_email p raw in
      let u = new_user email (argon.hash salt password) s.accounts.next_id in
      let own : (email == email) ≡ true = (eq_iff email email).1 refl in
      let found : find_by_email email after.accounts ≡ some u =
        rw added
          (first_where-append_new (λ (v : User). v.email == email) s.accounts.users u free own) in
      record {
        signs_in = rw (found, law) refl;
        taken = λ salt' suffix' raw' password' org_name' same. rw (same, found) refl;
        others = λ raw' password' apart.
            let miss : (email == normalize_email p raw') ≡ false =
              ground (arith, eq_iff email (normalize_email p raw')) in
            rw added (
              ap (λ f. check_user p argon f password')
                (first_where-append_apart (λ (v : User). v.email == normalize_email p raw')
                  s.accounts.users u miss));
      }

  registration :
      (taken : Bool) (org_name : Option String) (s : Directory)
      → argon.verify (argon.hash salt password) password ≡ ok true
      → find_by_email (normalize_email p raw) s.accounts ≡ none
      → let email = normalize_email p raw in
        Registration s taken (
          add_unless_slug p argon taken s.accounts.next_id
            (slug_from_email p email suffix)
            email
            org_name
            (add_user p argon salt email password s))
  registration false org_name s law free =
      let email = normalize_email p raw in
      let (r, t) =
        add_organization p argon s.accounts.next_id (slug_from_email p email suffix) email org_name
          (add_user p argon salt email password s) in
      (r, refl, user_added-IsRegistered s t law free refl, refl)
  registration true org_name s law free =
      let email = normalize_email p raw in
      (
        record { user_id = s.accounts.next_id; email = email },
        refl,
        user_added-IsRegistered s (add_user p argon salt email password s) law free refl,
        refl,
        refl,
      )

  -- A registration under an address that nobody has goes through if no organisation has the slug, and makes
  -- the new user an owner. If the slug is taken it fails, without an organisation or a membership. In either case
  -- the row of the user is written: the address, however it is written, and the password sign the user in,
  -- the address cannot be registered again, and every other address signs in as before. Argon2 verifies
  -- what it hashed.
  pub register-IsRegistered :
      (org_name : Option String) (s : Directory)
      → argon.verify (argon.hash salt password) password ≡ ok true
      → find_by_email (normalize_email p raw) s.accounts ≡ none
      → Registration s
          (any
            (has_slug p argon (slug_from_email p (normalize_email p raw) suffix))
            s.organizations)
          (register p argon salt suffix raw password org_name s)
  unfolding register
  register-IsRegistered org_name s law free = rw free (registration _ org_name s law free)
