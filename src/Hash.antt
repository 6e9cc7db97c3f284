-- ===== src/Hash.antt =====
-- src/lib/hash.ts: JSON values, and the deterministic serialisation that hashes are taken of.
-- `JSON.stringify`, SHA-256, `Date.toISOString`, `trim`, `toLowerCase`, the wording of errors and the order that
-- `Array.sort` puts texts in are the platform's, and enter as parameters. A number is a non-negative integer.
pub mod Canonical
use capybara_ai.Prelude.{ℕ, String, Bool, if◌then◌else◌, ◌≡◌, true, ◌⊎◌, ◌≢◌}

mutual
  pub data Json : Type 0 where
    null : Json
    bool : Bool → Json
    num : ℕ → Json
    str : String → Json
    arr : Items → Json
    obj : Fields → Json

  pub data Items : Type 0 where
    nil : Items
    item : Json → Items → Items

  -- The entries of an object in their insertion order.
  pub data Fields : Type 0 where
    end : Fields
    field : String → Json → Fields → Fields

pub record Platform : Type 0 where
  pub stringify : Json → String
  pub sha256_hex : String → String
  pub to_iso_string : ℕ → String
  -- the text of a UUID
  pub uuid_text : ℕ → String
  pub trim : String → String
  pub to_lower_case : String → String
  -- `String(value)`
  pub string_of : Json → String
  pub key_le : String → String → Bool
  -- the message of an error that the query builder makes of the database's
  pub query_error : String → String

-- What the sort of `Object.keys` relies on.
pub record IsOrder (le : String → String → Bool) : Type 0 where
  pub total : (a b : String) → (le a b ≡ true) ⊎ (le b a ≡ true)
  pub antisym : (a b : String) → le a b ≡ true → le b a ≡ true → a ≡ b
  pub trans : (a b c : String) → le a b ≡ true → le b c ≡ true → le a c ≡ true

module _ (le : String → String → Bool) where
  -- An entry put in its place among sorted ones.
  unfoldable pub insert_field : String → Json → Fields → Fields
  insert_field k v end = field k v end
  insert_field k v (field j w fs) =
      if le k j then field k v (field j w fs) else field j w (insert_field k v fs)

unfoldable mutual
  unfolding insert_field

  -- `sortDeep`
  pub sort_deep : (String → String → Bool) → Json → Json
  sort_deep le null = null
  sort_deep le (bool b) = bool b
  sort_deep le (num n) = num n
  sort_deep le (str s) = str s
  sort_deep le (arr xs) = arr (sort_items le xs)
  sort_deep le (obj fs) = obj (sort_fields le fs)

  pub sort_items : (String → String → Bool) → Items → Items
  sort_items le nil = nil
  sort_items le (item v xs) = item (sort_deep le v) (sort_items le xs)

  pub sort_fields : (String → String → Bool) → Fields → Fields
  sort_fields le end = end
  sort_fields le (field k v fs) = insert_field le k (sort_deep le v) (sort_fields le fs)

module _ (p : Platform) where
  -- `canonicalJson`
  unfoldable pub canonical_json : Json → String
  canonical_json value = p.stringify (sort_deep p.key_le value)
