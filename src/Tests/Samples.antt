-- ===== src/Tests/Samples.antt =====
-- A platform and data to run the definitions on.
use capybara_ai.Prelude.{
  ℕ, zero, suc, String, true, false, none, some, [], ◌==◌, string_eq, ◌≡◌, refl,
}
use capybara_ai.Hash.{
  Platform, Json, Items, Fields, null, bool, num, str, arr, obj, nil, item, end, field,
}
use capybara_ai.Audit.{EventLog, SecurityEventInput, info, warning}
use capybara_ai.Tenancy.{TenantContext}
use capybara_ai.Anchor.{Ed25519}
use capybara_ai.Tests.Order.{text_le}
use Prim.Native.String.{◌++◌ as append, count}
use Prim.Native.String.count.{cons}
use Prim.Native.Char.{Char}

abbrev pub tally : ℕ → String
tally zero = ""
tally (suc n) = append "1" (tally n)

abbrev mutual
  pub render : Json → String
  render null = "null"
  render (bool true) = "true"
  render (bool false) = "false"
  render (num n) = tally n
  render (str s) = append "'" (append s "'")
  render (arr xs) = append "[" (render_items xs)
  render (obj fs) = append "{" (render_fields fs)

  pub render_items : Items → String
  render_items nil = "]"
  render_items (item v xs) = append (render v) (append "," (render_items xs))

  pub render_fields : Fields → String
  render_fields end = "}"
  render_fields (field k v fs) =
      append k (append ":" (append (render v) (append "," (render_fields fs))))

abbrev pub platform : Platform
platform = record {
  stringify = render;
  sha256_hex = λ s. s;
  to_iso_string = tally;
  uuid_text = tally;
  trim = λ s. s;
  to_lower_case = λ s. s;
  string_of = render;
  key_le = text_le;
  query_error = λ message. append "Failed query: " message;
}

abbrev nought : Char
nought = "0"

-- The first characters of a text, filled up with noughts.
abbrev pub fit : ℕ → String → String
fit zero t = ""
fit (suc n) String.[] = String.◌∷◌ nought (fit n "")
fit (suc n) (String.◌∷◌ c t) = String.◌∷◌ c (fit n t)

abbrev pub backwards : String → String → String
backwards done String.[] = done
backwards done (String.◌∷◌ c t) = backwards (String.◌∷◌ c done) t

pub count-fit : (n : ℕ) (t : String) → count (fit n t) ≡ n
count-fit zero t = refl
count-fit (suc n) String.[] = rw (cons nought (fit n "")) (rw (count-fit n "") refl)
count-fit (suc n) (String.◌∷◌ c t) = rw (cons c (fit n t)) (rw (count-fit n t) refl)

-- The same with a hash of the right length: the last 64 characters.
abbrev pub hex_platform : Platform
hex_platform = record platform { sha256_hex = λ s. fit 64 (backwards "" s) }

abbrev pub ed : Ed25519
ed = record { sign = λ m. m; verify = λ m s. m == s }

abbrev pub encrypt : ℕ → String → String
encrypt org s = append "sealed:" s

abbrev pub ctx : TenantContext
ctx = record { org_id = 1; clearance = 2; user_id = 5 }

abbrev pub no_events : EventLog
no_events = record { rows = []; next_id = 1 }

abbrev pub login_event : SecurityEventInput
login_event = record { org_id = some 1; event_type = "auth.login"; severity = info; payload = null }

abbrev pub lock_event : SecurityEventInput
lock_event = record {
  org_id = none;
  event_type = "auth.account_locked";
  severity = warning;
  payload = obj (field "b" (num 2) (field "a" (num 1) end));
}
