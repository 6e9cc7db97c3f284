-- ===== src/Config/Load/Accepted.antt =====
-- An accepted environment has passed every check: `loadConfig` of src/config/config.ts.
use capybara_ai.Prelude.{
  false, List, [], ◌∷◌, ◌≡◌, refl, inl, inr, concat, All, All-concat, string_eq, nat_eq, arith,
  Bool-cases,
}
use capybara_ai.Prelude.Effect.{Result, ok, throw}
use capybara_ai.Config.Schema.{Env, Zod, ConfigIssue, RawEnv}
use capybara_ai.Config.Schema.Fields.{accept_if, parse_env, raw_env, schema_issues}
use capybara_ai.Config.Checks.{Check, issues_of}
use capybara_ai.Config.Load.{Host, Config, load_config, load_parsed, finish, checks, config_of}

abbrev pub HasPassed : Check → Type 0
HasPassed c = c.failed ≡ false

passed_of_no_issue : (cs : List Check) → issues_of cs ≡ [] → All HasPassed cs
passed_of_no_issue [] h = tt
passed_of_no_issue (c ∷ cs) h = elim (Bool-cases c.failed) [
  | inl e ↦ absurd (ground (arith, e))
  | inr e ↦ (e, passed_of_no_issue cs (ground (arith, e)))
]

accept_if_lem :
    (zod : Zod) (env : Env) (is : List ConfigIssue) (e : RawEnv)
    → accept_if zod env is ≡ ok e
    → raw_env zod env ≡ e
accept_if_lem zod env [] e h = cc
accept_if_lem zod env (i ∷ is) e h = cc

module _ (host : Host) (env : Env) where
  finish_lem :
      (is : List ConfigIssue) (c config : Config)
      → finish host env is c ≡ ok config
      → (is ≡ []) × (c ≡ config)
  finish_lem [] c config h = (refl, cc)
  finish_lem (i ∷ is) c config h = absurd (cc)

  -- An accepted environment has no issue.
  load_parsed-eq_ok :
      (r : Result (List ConfigIssue) RawEnv) (config : Config)
      → load_parsed host env r ≡ ok config
      → (e : RawEnv) × (r ≡ ok e)
        × (issues_of (concat (checks host env e)) ≡ [])
        × (config_of host env e ≡ config)
  load_parsed-eq_ok (throw issues) config h = absurd (cc)
  load_parsed-eq_ok (ok e) config h =
      let (clean, same) =
        finish_lem (issues_of (concat (checks host env e))) (config_of host env e) config h in
      (e, refl, clean, same)

  parse_env-eq_ok : (e : RawEnv) → parse_env host.zod env ≡ ok e → raw_env host.zod env ≡ e
  unfolding parse_env
  parse_env-eq_ok e h = accept_if_lem host.zod env (schema_issues host.zod env) e h

  -- The values that were read, and the configuration that is made of them.
  pub load_config-passed :
      (config : Config)
      → load_config host env ≡ ok config
      → (e : RawEnv) × (raw_env host.zod env ≡ e)
        × All (All HasPassed) (checks host env e)
        × (config_of host env e ≡ config)
  unfolding load_config
  load_config-passed config loaded =
      let (e, parsed, clean, same) = load_parsed-eq_ok (parse_env host.zod env) config loaded in
      (
        e,
        parse_env-eq_ok e parsed,
        All-concat HasPassed (checks host env e)
            (passed_of_no_issue (concat (checks host env e)) clean),
        same,
      )
