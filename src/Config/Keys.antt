-- ===== src/Config/Keys.antt =====
-- Where the keys come from: src/config/keySource.ts, and `parseEncryptionKey` of src/config/config.ts.
-- Reading a file and running a command may throw; a key is the list of its bytes.
use capybara_ai.Prelude.{
  ℕ, String, Option, none, some, List, length, if◌then◌else◌, ◌==◌, nat_eq, string_eq, get_or_else,
  js_length, ltb,
}
use capybara_ai.Prelude.Effect.{Result, ok, throw}
use capybara_ai.Config.Schema.{Env}

pub record ResolvedKeyMaterial : Type 0 where
  pub encryption_key : Option String
  pub document_encryption_key : Option String
  pub master_kek : Option String

-- The operating system: a file or the output of a command, and what the source takes of either,
-- which is all but one newline at the end.
pub record Machine : Type 0 where
  pub read_file : String → Result String String
  pub run_command : String → Result String String
  pub without_newline : String → String
  pub trim : String → String
  pub from_base64 : String → List ℕ
  pub from_hex : String → List ℕ

abbrev pub no_keys : ResolvedKeyMaterial
no_keys = record { encryption_key = none; document_encryption_key = none; master_kek = none }

abbrev pub map_result : {A B : Type 0} → (A → B) → Result String A → Result String B
map_result f (ok a) = ok (f a)
map_result f (throw e) = throw e

abbrev pub combine :
    Result String (Option String)
    → Result String (Option String)
    → Result String (Option String)
    → Result String ResolvedKeyMaterial
combine (throw e) b c = throw e
combine (ok a) (throw e) c = throw e
combine (ok a) (ok b) (throw e) = throw e
combine (ok a) (ok b) (ok c) =
    ok (record { encryption_key = a; document_encryption_key = b; master_kek = c })

abbrev pub of_32_bytes : List ℕ → Option (List ℕ) → Option (List ℕ)
of_32_bytes bytes otherwise = if length bytes == 32 then some bytes else otherwise

module _ (m : Machine) where
  -- `if (name && name.trim().length > 0) return read(name); return inline;`
  abbrev pub pick :
      (String → Result String String)
      → Option String
      → Option String
      → Result String (Option String)
  pick read none inline = ok inline
  pick read (some name) inline =
      if ltb 0 (js_length (m.trim name))
      then map_result (λ text. some (m.without_newline text)) (read name)
      else ok inline

  abbrev pub from_env : Env → ResolvedKeyMaterial
  from_env env = record {
    encryption_key = env "ENCRYPTION_KEY";
    document_encryption_key = env "DOCUMENT_ENCRYPTION_KEY";
    master_kek = env "MASTER_KEK";
  }

  unfoldable pub resolve_key_material : Env → Result String ResolvedKeyMaterial
  resolve_key_material env =
      let source = get_or_else (env "KEY_SOURCE") "env" in
      if source == "file"
      then combine (pick m.read_file (env "ENCRYPTION_KEY_FILE") (env "ENCRYPTION_KEY"))
          (pick m.read_file (env "DOCUMENT_ENCRYPTION_KEY_FILE") (env "DOCUMENT_ENCRYPTION_KEY"))
          (pick m.read_file (env "MASTER_KEK_FILE") (env "MASTER_KEK"))
      else if source == "command"
      then combine (pick m.run_command (env "ENCRYPTION_KEY_COMMAND") (env "ENCRYPTION_KEY"))
          (pick m.run_command (env "DOCUMENT_ENCRYPTION_KEY_COMMAND")
            (env "DOCUMENT_ENCRYPTION_KEY"))
          (pick m.run_command (env "MASTER_KEK_COMMAND") (env "MASTER_KEK"))
      else ok (from_env env)

  unfoldable pub parse_encryption_key : Option String → Option (List ℕ)
  parse_encryption_key none = none
  parse_encryption_key (some raw) =
      if raw == ""
      then none
      else of_32_bytes (m.from_base64 raw) (of_32_bytes (m.from_hex raw) none)
