-- ===== src/Config/Secrets.antt =====
-- The strength of a secret: src/config/secrets.ts.
use capybara_ai.Prelude.{
  ℕ, ◌+◌, String, Bool, true, false, Option, none, some, List, [], ◌∷◌, any, includes, ltb,
  if◌then◌else◌, ◌==◌, nat_eq, string_eq, js_length, codes, includes_text,
}

abbrev pub min_secret_length : ℕ
min_secret_length = 32

abbrev pub min_distinct_chars : ℕ
min_distinct_chars = 8

abbrev pub placeholder_denylist : List String
placeholder_denylist =
    "change_me" ∷ "changeme" ∷ "change-me" ∷ "placeholder" ∷ "example" ∷ "default" ∷ "secret"
    ∷ "password" ∷ "pass123" ∷ "test" ∷ "dev" ∷ "demo" ∷ "localhost" ∷ "todo" ∷ "xxxxx" ∷ "00000000"
    ∷ "12345678" ∷ "replace" ∷ "capybara" ∷ []

pub data SecretAssessment : Type 0 where
  strong missing too_short placeholder low_entropy : SecretAssessment

-- `new Set(value).size`
abbrev pub distinct : List ℕ → ℕ
distinct [] = 0
distinct (c ∷ cs) = if includes cs c then distinct cs else 1 + distinct cs

abbrev pub distinct_char_count : String → ℕ
distinct_char_count value = distinct (codes value)

module _ (to_lower_case : String → String) where
  abbrev pub assess_text : String → SecretAssessment
  assess_text value =
      if js_length value == 0
      then missing
      else if ltb (js_length value) min_secret_length
      then too_short
      else if any (λ bad. includes_text (to_lower_case value) bad) placeholder_denylist
      then placeholder
      else if ltb (distinct_char_count value) min_distinct_chars
      then low_entropy
      else strong

  unfoldable pub assess_secret : Option String → SecretAssessment
  assess_secret none = missing
  assess_secret (some value) = assess_text value

-- `assessment.ok`
abbrev pub is_strong : SecretAssessment → Bool
is_strong strong = true
is_strong _ = false

-- `assessment.reason`
abbrev pub reason_text : SecretAssessment → String
reason_text strong = "undefined"
reason_text missing = "missing"
reason_text too_short = "too_short"
reason_text placeholder = "placeholder"
reason_text low_entropy = "low_entropy"

unfoldable pub is_strong_secret : (String → String) → Option String → Bool
unfolding assess_secret
is_strong_secret to_lower_case value = is_strong (assess_secret to_lower_case value)
