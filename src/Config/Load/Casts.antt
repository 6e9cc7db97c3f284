-- ===== src/Config/Load/Casts.antt =====
-- The casts at the end of `loadConfig` in src/config/config.ts, `cookieSecret as string` and the like.
use mathlib.Core.Path.{subst}
use capybara_ai.Prelude.{
  ℕ, String, Bool, true, false, Option, none, some, List, [], ◌∷◌, ◌≡◌, ◌≢◌, refl, ◌&&◌, not, All,
  length, ◌==◌, string_eq, nat_eq, arith, is_none, is_some, Bool-cases, inl, inr,
}
use capybara_ai.Prelude.Effect.{ok}
use capybara_ai.Config.Schema.{Env, RawEnv}
use capybara_ai.Config.Secrets.{is_strong, assess_secret}
use capybara_ai.Config.Keys.{parse_encryption_key, resolve_key_material}
use capybara_ai.Config.Checks.{is_set, count_set}
use capybara_ai.Config.Load.{
  Host, Config, SignOn, sign_on, load_config, checks, config_of, chosen_secret, chosen_key,
  chosen_origins, assess,
}
use capybara_ai.Config.Load.Accepted.{HasPassed, load_config-passed}

-- All four settings are there, if the sign-on is configured at all.
abbrev pub IsComplete : Option SignOn → Type 0
IsComplete none = Unit
IsComplete (some s) =
    (is_some s.first ≡ true)
    × (is_some s.second ≡ true)
    × (is_some s.third ≡ true)
    × (is_some s.fourth ≡ true)

-- What the type `Config` of the source promises of the values that are cast.
pub record IsCast (config : Config) : Type 0 where
  pub cookie_secret : is_some config.cookie_secret ≡ true
  pub session_secret : is_some config.session_secret ≡ true
  pub encryption_key : is_some config.encryption_key ≡ true
  pub master_kek : is_some config.master_kek ≡ true
  pub document_key : is_some config.document_encryption_key ≡ true
  pub oidc : IsComplete config.oidc
  pub saml : IsComplete config.saml
  pub some_origin : config.cors_allowed_origins ≢ []

chosen_key-is_some :
    (production : Bool) (key : Option (List ℕ)) (fresh : List ℕ)
    → (production && is_none key) ≡ false
    → is_some (chosen_key production key fresh) ≡ true
chosen_key-is_some production none fresh h = ground arith
chosen_key-is_some production (some key) fresh h = refl

chosen_origins-ne-nil :
    (production : Bool) (origins : List String)
    → (production && length origins == 0) ≡ false
    → chosen_origins production origins ≢ []
chosen_origins-ne-nil true [] h = cc
chosen_origins-ne-nil false [] h = λ e. cc
chosen_origins-ne-nil production (o ∷ os) h = λ e. cc

is_set-is_some : (o : Option String) → is_set o ≡ true → is_some o ≡ true
is_set-is_some none h = absurd (cc)
is_set-is_some (some t) h = refl

sign_on-IsComplete : (a b c d : Option String) → IsComplete (sign_on (a ∷ b ∷ c ∷ d ∷ []) a b c d)
sign_on-IsComplete a b c d = elim (Bool-cases (count_set (a ∷ b ∷ c ∷ d ∷ []) == 4)) [
  | inl all ↦ rw all (
    is_set-is_some a (ground (arith, all)),
    is_set-is_some b (ground (arith, all)),
    is_set-is_some c (ground (arith, all)),
    is_set-is_some d (ground (arith, all)),
  )
  | inr some_missing ↦ rw some_missing tt
]

module _ (host : Host) (env : Env) where
  chosen_secret-is_some :
      (production : Bool) (value : Option String) (fresh : String)
      → (production && not (is_strong (assess host env value))) ≡ false
      → is_some (chosen_secret production (assess host env value) value fresh) ≡ true
  unfolding assess_secret
  chosen_secret-is_some true none fresh h = absurd (cc)
  chosen_secret-is_some false none fresh h = refl
  chosen_secret-is_some production (some value) fresh h = ground arith

  config_of-IsCast :
      (e : RawEnv) → All (All HasPassed) (checks host env e) → IsCast (config_of host env e)
  unfolding resolve_key_material parse_encryption_key assess_secret
  config_of-IsCast e passed =
      let (_, (_, (secrets, (origins, (_, (_, (_, (_, (keys, (_, (documents, _))))))))))) =
        passed in
      let production = e.app_env == "production" in
      record {
        cookie_secret = chosen_secret-is_some production e.cookie_secret _ secrets.0;
        session_secret = chosen_secret-is_some production e.session_secret _ secrets.1.0;
        encryption_key = chosen_key-is_some production _ _ keys.0;
        master_kek = chosen_key-is_some production _ _ keys.1.0;
        document_key = chosen_key-is_some production _ _ documents.0;
        oidc =
            sign_on-IsComplete e.oidc_issuer e.oidc_client_id e.oidc_client_secret
              e.oidc_redirect_uri;
        saml =
            sign_on-IsComplete e.saml_entry_point e.saml_issuer e.saml_callback_url e.saml_idp_cert;
        some_origin = chosen_origins-ne-nil production _ origins.0;
      }

  -- Whatever the environment, a configuration that is returned has a cookie and a session secret, the
  -- three keys and an origin, and where it has OIDC or SAML, all four settings of it: none of the casts of
  -- `loadConfig` to a text or a buffer hides an absent value.
  pub load_config-IsCast : (config : Config) → load_config host env ≡ ok config → IsCast config
  load_config-IsCast config loaded =
      let (e, _, passed, same) = load_config-passed host env config loaded in
      subst IsCast same (config_of-IsCast e passed)
