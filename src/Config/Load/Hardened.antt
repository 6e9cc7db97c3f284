-- ===== src/Config/Load/Hardened.antt =====
-- What a configuration that `loadConfig` of src/config/config.ts returned in production guarantees.
use mathlib.Core.Path.{subst}
use capybara_ai.Prelude.{
  ℕ, String, Bool, true, false, Option, none, some, List, [], ◌∷◌, ◌≡◌, ◌≢◌, refl, inl, inr, ◌&&◌,
  not, All, includes, length, ◌==◌, string_eq, nat_eq, eq_iff, arith, Bool-cases, get_or_else,
  is_none, Option-cases,
}
use capybara_ai.Prelude.Effect.{ok}
use capybara_ai.Config.Schema.{Env, RawEnv, optional, is_named}
use capybara_ai.Config.Schema.Fields.{raw_env}
use capybara_ai.Config.Secrets.{SecretAssessment, is_strong_secret, is_strong}
use capybara_ai.Config.Keys.{Machine, of_32_bytes, parse_encryption_key, resolve_key_material}
use capybara_ai.Config.Texts.{has_trivial_password, enforces_tls, parse_origins}
use capybara_ai.Config.Providers.{has_provider, providers_read, ProviderReading}
use capybara_ai.Config.Checks.{is_text, key_material, is_missing, url_checks, lacks_default}
use capybara_ai.Config.Load.Accepted.{HasPassed, load_config-passed}
use capybara_ai.Config.Load.{
  Host, Config, load_config, checks, config_of, chosen_key, chosen_origins, reading_of_env, assess,
  keys_read,
}

-- A key of 32 bytes, as AES-256 wants it.
abbrev pub IsKey : Option (List ℕ) → Type 0
IsKey key = (bytes : List ℕ) × (key ≡ some bytes) × (length bytes ≡ 32)

-- A DSN without a default password that asks for TLS.
abbrev pub IsSafeUrl : Option String → Type 0
IsSafeUrl url =
    (dsn : String) × (url ≡ some dsn)
    × (has_trivial_password dsn ≡ false)
    × (enforces_tls dsn ≡ true)

pub record IsHardened (host : Host) (config : Config) : Type 0 where
  pub cookie_secret : is_strong_secret host.to_lower_case config.cookie_secret ≡ true
  pub session_secret : is_strong_secret host.to_lower_case config.session_secret ≡ true
  pub some_origin : config.cors_allowed_origins ≢ []
  pub no_wildcard : includes config.cors_allowed_origins "*" ≡ false
  pub secure_cookies : config.secure_cookies ≡ true
  pub encryption_key : IsKey config.encryption_key
  pub master_kek : IsKey config.master_kek
  pub document_key : IsKey config.document_encryption_key
  pub database : IsSafeUrl config.database_url
  pub default_provider :
      (id : String)
      → config.llm.default_provider ≡ some id
      → id ≢ ""
      → has_provider config.llm.providers id ≡ true

passed-strong :
    (production : Bool) (a : SecretAssessment)
    → production ≡ true
    → (production && not (is_strong a)) ≡ false
    → is_strong a ≡ true
passed-strong production a p h = ground arith

of_32_bytes_lem :
    (bytes key : List ℕ) (otherwise : Option (List ℕ))
    → of_32_bytes bytes otherwise ≡ some key
    → (otherwise ≡ some key → length key ≡ 32)
    → length key ≡ 32
of_32_bytes_lem bytes key otherwise e h = elim (Bool-cases (length bytes == 32)) [
  | inl q ↦
      let same : some bytes ≡ some key = rw q at e in
      let size : length bytes ≡ 32 = (nat_eq.same_iff (length bytes) 32).0 q in
      ground (arith, same, size)
  | inr q ↦ h (rw q at e)
]

module _ (m : Machine) where
  pub parse_encryption_key-length :
      (raw : Option String) (key : List ℕ) → parse_encryption_key m raw ≡ some key → length key ≡ 32
  unfolding parse_encryption_key
  parse_encryption_key-length none key e = cc
  parse_encryption_key-length (some raw) key e = elim (Bool-cases (raw == "")) [
    | inl q ↦ absurd (cc (rw q at e))
    | inr q ↦
        of_32_bytes_lem (m.from_base64 raw) key (of_32_bytes (m.from_hex raw) none) (rw q at e)
          (λ e'. of_32_bytes_lem (m.from_hex raw) key none e' (λ e''. cc))
  ]

  chosen_key-IsKey :
      (production : Bool) (raw : Option String) (fresh : List ℕ)
      → production ≡ true
      → (production && is_none (parse_encryption_key m raw)) ≡ false
      → IsKey (chosen_key production (parse_encryption_key m raw) fresh)
  chosen_key-IsKey production raw fresh p h = elim (Option-cases (parse_encryption_key m raw)) [
    | inl e ↦ absurd (cc (rw (p, e) at h))
    | inr (key, e) ↦ rw e (key, refl, parse_encryption_key-length raw key e)
  ]

passed-safe :
    (production empty insecure : Bool) (dsn : String)
    → production ≡ true
    → empty ≡ false
    → ((production && not empty) && has_trivial_password dsn) ≡ false
    → ((production && not empty) && (not (enforces_tls dsn) && not insecure)) ≡ false
    → ((production && not empty) && insecure) ≡ false
    → IsSafeUrl (some dsn)
passed-safe production empty insecure dsn p q a b c =
    (dsn, refl, ground (arith, a), ground (arith, b, c))

-- The origins that are used, of those that passed the checks.
origins-IsHardened :
    (production : Bool) (origins : List String)
    → production ≡ true
    → (production && length origins == 0) ≡ false
    → (production && includes origins "*") ≡ false
    → (chosen_origins production origins ≢ [])
      × (includes (chosen_origins production origins) "*" ≡ false)
origins-IsHardened production [] p a b = absurd (cc (rw p at a))
origins-IsHardened production (o ∷ os) p a b = ((λ e. cc), rw p at b)

default-known :
    (reading : ProviderReading) (chosen : Option String)
    → lacks_default reading chosen ≡ false
    → (id : String) → chosen ≡ some id
    → id ≢ ""
    → has_provider (providers_read reading) id ≡ true
default-known reading none h id e named = absurd (cc)
default-known reading (some d) h id e named = ground (arith, eq_iff d "", e)

url-IsSafeUrl :
    (production insecure : Bool) (url : Option String) (dsn : String)
    → production ≡ true
    → (dsn == "") ≡ false
    → url ≡ some dsn
    → All HasPassed (url_checks production insecure url)
    → IsSafeUrl (some dsn)
url-IsSafeUrl production insecure none dsn p q e passed = absurd (cc)
url-IsSafeUrl production insecure (some u) dsn p q e (a, (b, (c, _))) =
    let same : u ≡ dsn = cc in
    passed-safe production (dsn == "") insecure dsn p q (rw same at a) (rw same at b) (rw same at c)

module _ (host : Host) (env : Env) where
  database-IsSafeUrl :
      (production insecure : Bool) (raw : Option String)
      → host.machine.trim "" ≡ ""
      → production ≡ true
      → (production && is_missing host.machine.trim raw) ≡ false
      → All HasPassed (url_checks production insecure (get_or_else (optional is_named raw) none))
      → IsSafeUrl (get_or_else (optional is_named raw) none)
  database-IsSafeUrl production insecure none blank p present passed = absurd (cc (rw p at present))
  database-IsSafeUrl production insecure (some dsn) blank p present passed =
      elim (Bool-cases (dsn == "")) [
        | inl q ↦ absurd (cc (rw (p, (eq_iff dsn "").0 q, blank) at present))
        | inr q ↦
            let named : get_or_else (optional is_named (some dsn)) none ≡ some dsn = rw q refl in
            rw named (url-IsSafeUrl production insecure _ dsn p q named passed)
      ]

  -- `isProduction`, once the environment was accepted
  config_of-IsHardened :
      (e : RawEnv)
      → raw_env host.zod env ≡ e
      → host.machine.trim "" ≡ ""
      → (e.app_env == "production") ≡ true
      → All (All HasPassed) (checks host env e)
      → IsHardened host (config_of host env e)
  unfolding parse_encryption_key resolve_key_material is_strong_secret
  config_of-IsHardened e same blank p passed =
      let (
        _,
        (presence, (secrets, (origins, (url, (_, (_, (default, (keys, (_, (documents, _)))))))))),
      ) =
        passed in
      let (some_origin, no_star) =
        origins-IsHardened (e.app_env == "production")
          (parse_origins host.machine.trim e.cors_allowed_origins) p origins.0 origins.1.0 in
      let at_env : e.database_url ≡ get_or_else (optional is_named (env "DATABASE_URL")) none =
        rw (← same) refl in
      let safe : IsSafeUrl e.database_url = rw at_env (
        database-IsSafeUrl (e.app_env == "production") (is_text (env "DB_ALLOW_INSECURE") "true")
          (env "DATABASE_URL") blank p presence.0 (rw at_env at url)) in
      record {
        cookie_secret = rw p (
            passed-strong (e.app_env == "production") (assess host env e.cookie_secret) p
              secrets.0);
        session_secret = rw p (
            passed-strong (e.app_env == "production") (assess host env e.session_secret) p
              secrets.1.0);
        some_origin = some_origin;
        no_wildcard = no_star;
        secure_cookies = rw p refl;
        encryption_key =
            chosen_key-IsKey host.machine (e.app_env == "production")
              (key_material (keys_read host env)).encryption_key _ p keys.0;
        master_kek =
            chosen_key-IsKey host.machine (e.app_env == "production")
              (key_material (keys_read host env)).master_kek _ p keys.1.0;
        document_key =
            chosen_key-IsKey host.machine (e.app_env == "production")
              (key_material (keys_read host env)).document_encryption_key _ p documents.0;
        database = safe;
        default_provider =
            default-known (reading_of_env host env e) e.llm_default_provider default.0;
      }

  -- In production the server starts only with strong cookie and session secrets, with origins that are
  -- named and no wildcard among them, with secure cookies, with three keys of 32 bytes, with a database
  -- URL that has no default password and enforces TLS, and with a default provider that is configured,
  -- if one is chosen; `trim` leaves the empty text as it is.
  pub load_config-IsHardened :
      (config : Config)
      → host.machine.trim "" ≡ ""
      → load_config host env ≡ ok config
      → config.app_env ≡ "production"
      → IsHardened host config
  load_config-IsHardened config blank loaded production =
      let (e, read, passed, same) = load_config-passed host env config loaded in
      subst (IsHardened host) same (
        config_of-IsHardened e read blank
          ((eq_iff e.app_env "production").1 (rw (← same) at production)) passed)
