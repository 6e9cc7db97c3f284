-- ===== src/Config/Texts.antt =====
-- The texts that `loadConfig` takes apart: `parseOrigins`, and the two patterns for DATABASE_URL, in
-- src/config/config.ts. `trim` is JavaScript's; the flag `i` of a pattern ignores the case of ASCII letters.
use Prim.Native.Char.{code}
use capybara_ai.Prelude.{
  ℕ, ◌+◌, String, Bool, true, false, Option, none, some, List, [], ◌∷◌, map, ◌&&◌, ◌||◌, ◌==◌,
  nat_eq, ltb, leb, any, if◌then◌else◌, js_length, string_eq,
}
use capybara_ai.Prelude.Table.{select_where}

-- The text up to the first comma.
abbrev pub before_comma : String → String
before_comma String.[] = String.[]
before_comma (String.◌∷◌ c s) =
    let rest = before_comma s in if code c == 44 then String.[] else String.◌∷◌ c rest

-- The texts that stand after a comma, each up to the next.
abbrev pub after_commas : String → List String
after_commas String.[] = []
after_commas (String.◌∷◌ c s) =
    let rest = after_commas s in if code c == 44 then before_comma s ∷ rest else rest

-- `raw.split(',')`
abbrev pub split_commas : String → List String
split_commas raw = before_comma raw ∷ after_commas raw

abbrev pub parse_origins : (String → String) → Option String → List String
parse_origins trim none = []
parse_origins trim (some raw) =
    if raw == "" then [] else select_where (λ s. ltb 0 (js_length s)) (map trim (split_commas raw))

abbrev pub lower : ℕ → ℕ
lower c = if leb 65 c && leb c 90 then c + 32 else c

-- Whether the text starts with a word of small letters, in any case.
abbrev pub starts_any_case : String → String → Bool
starts_any_case String.[] s = true
starts_any_case (String.◌∷◌ p w) String.[] = false
starts_any_case (String.◌∷◌ p w) (String.◌∷◌ c s) =
    let rest = starts_any_case w s in if code p == lower (code c) then rest else false

abbrev pub includes_any_case : String → String → Bool
includes_any_case w String.[] = starts_any_case w String.[]
includes_any_case w (String.◌∷◌ c s) = starts_any_case w (String.◌∷◌ c s) || includes_any_case w s

-- `(postgres|password|root|admin)@`
abbrev pub is_trivial_password : String → Bool
is_trivial_password s =
    any (λ word. starts_any_case word s) ("postgres@" ∷ "password@" ∷ "root@" ∷ "admin@" ∷ [])

-- `[^:@/]+:` and a trivial password; the first argument is whether a character of the user was read.
abbrev pub after_user : Bool → String → Bool
after_user seen String.[] = false
after_user seen (String.◌∷◌ c s) =
    let later = after_user true s in
    if code c == 58
    then seen && is_trivial_password s
    else if code c == 64 || code c == 47
    then false
    else later

-- `://` and then such a user
abbrev pub after_scheme : String → Bool
after_scheme (String.◌∷◌ a (String.◌∷◌ b (String.◌∷◌ c s))) =
    code a == 58 && (code b == 47 && (code c == 47 && after_user false s))
after_scheme _ = false

abbrev pub has_trivial_password : String → Bool
has_trivial_password String.[] = false
has_trivial_password (String.◌∷◌ c s) = after_scheme (String.◌∷◌ c s) || has_trivial_password s

abbrev pub enforces_tls : String → Bool
enforces_tls url = includes_any_case "sslmode=require" url || includes_any_case "sslmode=verify" url
