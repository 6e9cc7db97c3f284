-- ===== src/Crypto.antt =====
-- Encryption at rest: src/lib/crypto.ts. AES-256-GCM, HKDF and base64 are the platform's, as `Ciphers`.
-- A text is the list of its UTF-8 bytes, also the text of a blob, and an initialisation vector, which the source
-- draws at random, is an argument.
pub mod Wire
use capybara_ai.Prelude.{
  ℕ, ◌+◌, String, Bool, true, false, List, [], ◌∷◌, ◌++◌, take, drop, length, ltb, ◌==◌, nat_eq,
  not, if◌then◌else◌, ◌≡◌, ◌≢◌,
}
use capybara_ai.Prelude.Effect.{Result, ok, throw, is_ok}

abbrev pub Bytes : Type 0
Bytes = List ℕ

pub record Sealed : Type 0 where
  pub enc : Bytes
  pub tag : Bytes

pub record Ciphers : Type 0 where
  pub seal : Bytes → Bytes → Bytes → Sealed
  -- key, vector, tag and ciphertext
  pub unseal : Bytes → Bytes → Bytes → Bytes → Result String Bytes
  pub to_base64 : Bytes → Bytes
  pub from_base64 : Bytes → Bytes
  pub hkdf : Bytes → ℕ → Bytes

abbrev pub iv_length : ℕ
iv_length = 12

abbrev pub tag_length : ℕ
tag_length = 16

module _ (c : Ciphers) where
  -- What AES-256-GCM and base64 promise: a text that was sealed with a key of 32 bytes and a vector of 12
  -- opens under them, its tag has 16 bytes, and bytes come back from their base64.
  pub record IsCipher : Type 0 where
    pub opens :
        (key iv text : Bytes)
        → length key ≡ 32
        → length iv ≡ 12
        → c.unseal key iv (c.seal key iv text).tag (c.seal key iv text).enc ≡ ok text
    pub tag_size :
        (key iv text : Bytes)
        → length key ≡ 32
        → length iv ≡ 12
        → length (c.seal key iv text).tag ≡ 16
    pub base64 : (bytes : Bytes) → c.from_base64 (c.to_base64 bytes) ≡ bytes

  abbrev pub derive_tenant_key : Bytes → ℕ → Bytes
  derive_tenant_key master_key org_id = c.hkdf master_key org_id

  abbrev pub packed : Bytes → Sealed → Bytes
  packed iv s = c.to_base64 (iv ++ (s.tag ++ s.enc))

  unfoldable pub encrypt_secret : Bytes → Bytes → Bytes → Result String Bytes
  encrypt_secret iv plaintext key =
      if not (length key == 32)
      then throw "encryption key must be 32 bytes"
      else ok (packed iv (c.seal key iv plaintext))

  abbrev pub unpack : Bytes → Bytes → Result String Bytes
  unpack buf key =
      if ltb (length buf) (iv_length + tag_length)
      then throw "ciphertext too short"
      else c.unseal key (take iv_length buf) (take tag_length (drop iv_length buf))
          (drop (iv_length + tag_length) buf)

  unfoldable pub decrypt_secret : Bytes → Bytes → Result String Bytes
  decrypt_secret blob key =
      if not (length key == 32)
      then throw "encryption key must be 32 bytes"
      else unpack (c.from_base64 blob) key
