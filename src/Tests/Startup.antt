-- ===== src/Tests/Startup.antt =====
-- The start of the server in a concrete environment: src/config.
use capybara_ai.Prelude.{
  ℕ, String, false, none, some, List, [], ◌∷◌, ◌≡◌, refl, ◌==◌, string_eq, if◌then◌else◌, not,
}
use capybara_ai.Prelude.Effect.{ok, throw, is_ok}
use capybara_ai.Config.Schema.{Env}
use capybara_ai.Config.Schema.Fields.{raw_env, parse_env}
use capybara_ai.Config.Secrets.{assess_secret}
use capybara_ai.Config.Keys.{resolve_key_material, parse_encryption_key}
use capybara_ai.Config.Providers.{not_json}
use capybara_ai.Config.Load.{Host, Config, load_config, config_of}
use capybara_ai.Config.Load.Hardened.{IsHardened, load_config-IsHardened}
use capybara_ai.Config.Load.Casts.{IsCast, load_config-IsCast}

abbrev bytes_32 : List ℕ
bytes_32 =
    1 ∷ 2 ∷ 3 ∷ 4 ∷ 5 ∷ 6 ∷ 7 ∷ 8 ∷ 9 ∷ 10 ∷ 11 ∷ 12 ∷ 13 ∷ 14 ∷ 15 ∷ 16 ∷ 17 ∷ 18 ∷ 19 ∷ 20 ∷ 21
    ∷ 22 ∷ 23 ∷ 24 ∷ 25 ∷ 26 ∷ 27 ∷ 28 ∷ 29 ∷ 30 ∷ 31 ∷ 32 ∷ []

abbrev sample_host : Host
sample_host = record {
  zod = record {
    is_url = λ s. not (s == "");
    to_number = λ s. none;
    message = λ name raw. "invalid";
  };
  machine = record {
    read_file = λ path. throw "no such file";
    run_command = λ command. throw "no such command";
    without_newline = λ s. s;
    trim = λ s. s;
    from_base64 = λ s. [];
    from_hex = λ s. bytes_32;
  };
  to_lower_case = λ s. s;
  parse_json = λ s. not_json;
  show = λ n. "3000";
  fresh = record {
    cookie_secret = "fresh";
    session_secret = "fresh";
    encryption_key = bytes_32;
    master_kek = bytes_32;
    document_key = bytes_32;
  };
}

abbrev set_in : List (String × String) → Env
set_in [] name = none
set_in ((key, value) ∷ rest) name = if key == name then some value else set_in rest name

abbrev production_env : Env
production_env = set_in (
    ("APP_ENV", "production")
    ∷ ("APP_BASE_URL", "https://capy.eu")
    ∷ ("DATABASE_URL", "postgres://app:Xk4v@db/capy?sslmode=require")
    ∷ ("COOKIE_SECRET", "q8Zr1nVw5Yc3Lk7Tj2Hb9Gf4Xm6Ps0Da")
    ∷ ("SESSION_SECRET", "m2Wq9Bz4Kt7Rv1Yx5Nc8Hj3Gf6Lp0Sua")
    ∷ ("CORS_ALLOWED_ORIGINS", "https://capy.eu,https://app.capy.eu")
    ∷ ("ENCRYPTION_KEY", "k1")
    ∷ ("MASTER_KEK", "k2")
    ∷ ("DOCUMENT_ENCRYPTION_KEY", "k3")
    ∷ ("OLLAMA_BASE_URL", "http://ollama")
    ∷ [])

abbrev production_config : Config
production_config = config_of sample_host production_env (raw_env sample_host.zod production_env)

production_starts : load_config sample_host production_env ≡ ok production_config
unfolding load_config parse_env assess_secret resolve_key_material parse_encryption_key
production_starts = refl

-- With nothing set the server starts in development, and draws its secrets.
abbrev development_config : Config
development_config = config_of sample_host (set_in []) (raw_env sample_host.zod (set_in []))

development_starts : load_config sample_host (set_in []) ≡ ok development_config
unfolding load_config parse_env assess_secret resolve_key_material parse_encryption_key
development_starts = refl

abbrev default_password_env : Env
default_password_env name =
    if name == "DATABASE_URL"
    then some "postgres://app:Postgres@db/capy?SSLMODE=require"
    else production_env name

default_password_refused : is_ok (load_config sample_host default_password_env) ≡ false
unfolding load_config parse_env assess_secret resolve_key_material parse_encryption_key
default_password_refused = refl

load_config-IsHardened_example : IsHardened sample_host production_config
load_config-IsHardened_example =
    load_config-IsHardened sample_host production_env production_config refl production_starts refl

load_config-IsCast_example : IsCast development_config
load_config-IsCast_example =
    load_config-IsCast sample_host (set_in []) development_config development_starts
