-- ===== src/Prelude/Texts.antt =====
-- Texts as the program tests them: prefixes, substrings, and their length in UTF-16 units.
use Prim.Native.Nat.{ℕ, ◌+◌}
use Prim.Native.String.{String, ◌++◌ as ◌<>◌}
use Prim.Native.String.append.{nil, cons}
use mathlib.Core.Path.{◌≡◌, refl}
use Prim.Native.Char.{code}
use mathlib.Core.Bool.{Bool, ◌||◌}
use mathlib.Core.Option.{Option, none, some}
use mathlib.Core.List.{List, [], ◌∷◌}
use capybara_ai.Prelude.Tests.{leb, nat_eq, ◌==◌, if◌then◌else◌, is_some, nat_beq_iff}

-- What follows a prefix, if the text has it.
abbrev pub strip_prefix : String → String → Option String
strip_prefix String.[] s = some s
strip_prefix (String.◌∷◌ c p) String.[] = none
strip_prefix (String.◌∷◌ c p) (String.◌∷◌ d s) =
    let rest = strip_prefix p s in if code c == code d then rest else none

-- `s.startsWith(p)`
abbrev pub starts_with : String → String → Bool
starts_with s p = is_some (strip_prefix p s)

-- `s.includes(p)`
abbrev pub includes_text : String → String → Bool
includes_text String.[] p = starts_with String.[] p
includes_text (String.◌∷◌ c s) p = starts_with (String.◌∷◌ c s) p || includes_text s p

-- `s.length`: a character beyond the basic plane counts twice.
abbrev pub js_length : String → ℕ
js_length String.[] = 0
js_length (String.◌∷◌ c s) = (if leb 65536 (code c) then 2 else 1) + js_length s

-- The characters of a text, by their numbers.
abbrev pub codes : String → List ℕ
codes String.[] = []
codes (String.◌∷◌ c s) = code c ∷ codes s

pub strip_prefix-append : (p s : String) → strip_prefix p (p <> s) ≡ some s
strip_prefix-append String.[] s = rw (nil s) refl
strip_prefix-append (String.◌∷◌ c p) s =
    rw (cons c p s, (nat_beq_iff (code c) (code c)).1 refl) (strip_prefix-append p s)
