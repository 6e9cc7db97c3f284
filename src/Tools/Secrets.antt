-- ===== src/Tools/Secrets.antt =====
-- Which secrets a tool is handed by `buildContext` of src/ai/tools/sandbox.ts.
use capybara_ai.Prelude.{
  String, Bool, true, false, Bool-cases, Option, none, some, List, [], ◌∷◌, ◌==◌, string_eq,
  includes, ◌≡◌, refl, ◌∙◌, ◌⊎◌, inl, inr, eq_iff, if◌then◌else◌,
}
use capybara_ai.Tools.{
  ToolScopes, secret_of, grant_secret, granted_secrets, listed_secrets, build_context,
}

secret_of-grant_apart :
    (k key : String) (value : Option String) (rest : List (String × String))
    → (k == key) ≡ false
    → secret_of (grant_secret k value rest) key ≡ secret_of rest key
secret_of-grant_apart k key none rest miss = refl
secret_of-grant_apart k key (some value) rest miss = rw miss refl

secret_of-grant_same :
    (k key : String) (value : Option String) (rest : List (String × String))
    → (k == key) ≡ true
    → secret_of rest key ≡ value ⊎ secret_of rest key ≡ none
    → secret_of (grant_secret k value rest) key ≡ value
secret_of-grant_same k key none rest hit (inl h) = h
secret_of-grant_same k key none rest hit (inr h) = h
secret_of-grant_same k key (some value) rest hit h = rw hit refl

either : (b : Bool) (o r : Option String) → r ≡ (if b then o else none) → r ≡ o ⊎ r ≡ none
either true o r h = inl h
either false o r h = inr h

secret_of-granted :
    (available : List (String × String)) (keys : List String) (key : String)
    → secret_of (granted_secrets available keys) key
      ≡ (if includes keys key then secret_of available key else none)
secret_of-granted available [] key = refl
secret_of-granted available (k ∷ keys) key = elim (Bool-cases (k == key)) [
  | inl hit ↦
      let same : k ≡ key = (eq_iff k key).0 hit in
      let rest = granted_secrets available keys in
      rw hit (
        rw same (
          secret_of-grant_same key key (secret_of available key) rest (rw same at hit) (
            either (includes keys key) (secret_of available key) (secret_of rest key)
              (secret_of-granted available keys key))))
  | inr miss ↦ rw miss (
      secret_of-grant_apart k key (secret_of available k) (granted_secrets available keys) miss
      ∙ secret_of-granted available keys key)
]

-- A handler sees under a key what the deployment has there if the tool's scope lists the key, and
-- nothing otherwise.
pub secret_of-build_context :
    (scopes : ToolScopes) (available : List (String × String)) (key : String)
    → secret_of (build_context scopes available).secrets key
      ≡ (if includes (listed_secrets scopes) key then secret_of available key else none)
unfolding build_context
secret_of-build_context scopes available key =
    secret_of-granted available (listed_secrets scopes) key
