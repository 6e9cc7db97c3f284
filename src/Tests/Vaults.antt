-- ===== src/Tests/Vaults.antt =====
-- src/lib/crypto.ts and src/admin/encryption.ts with a small cipher: a sealed text is the key and the
-- text, behind a tag of zeros.
use capybara_ai.Prelude.{
  ℕ, String, true, false, none, some, [], ◌∷◌, ◌++◌, length, ◌==◌, nat_eq, nat_beq_iff, ◌≡◌, refl,
  if◌then◌else◌,
}
use capybara_ai.Prelude.Effect.{Result, ok, throw, is_ok}
use capybara_ai.Crypto.{Bytes, Ciphers, IsCipher, encrypt_secret, decrypt_secret}
use capybara_ai.Crypto.Wire.{decrypt-encrypt}
use capybara_ai.Admin.Encryption.{Vault, KeyVersion, Draw, RotationResult, rotate_key}
use capybara_ai.Admin.Encryption.Loop.{recode_rows, batches}
use capybara_ai.Admin.Encryption.Rotation.{IsDrawn, IsConsistent, IsRotated, rotate_key-IsRotated}
use capybara_ai.Tests.Samples.{platform, ctx, no_events}

abbrev pub after_key : Bytes → Bytes → Result String Bytes
after_key [] text = ok text
after_key (k ∷ key) [] = throw "bad tag"
after_key (k ∷ key) (b ∷ bytes) =
    let rest = after_key key bytes in if k == b then rest else throw "bad tag"

abbrev pub zeros_16 : Bytes
zeros_16 = 0 ∷ 0 ∷ 0 ∷ 0 ∷ 0 ∷ 0 ∷ 0 ∷ 0 ∷ 0 ∷ 0 ∷ 0 ∷ 0 ∷ 0 ∷ 0 ∷ 0 ∷ 0 ∷ []

abbrev pub plain : Ciphers
plain = record {
  seal = λ key iv text. record { enc = key ++ text; tag = zeros_16 };
  unseal = λ key iv tag enc. after_key key enc;
  to_base64 = λ bytes. bytes;
  from_base64 = λ bytes. bytes;
  hkdf = λ key org. org ∷ key;
}

after_key_same : (key text : Bytes) → after_key key (key ++ text) ≡ ok text
after_key_same [] text = refl
after_key_same (k ∷ key) text = rw ((nat_beq_iff k k).1 refl) (after_key_same key text)

pub plain-IsCipher : IsCipher plain
plain-IsCipher = record {
  opens = λ key iv text n m. after_key_same key text;
  tag_size = λ key iv text n m. refl;
  base64 = λ bytes. refl;
}

abbrev pub key_of : ℕ → Bytes
key_of n =
    n ∷ n ∷ n ∷ n ∷ n ∷ n ∷ n ∷ n ∷ n ∷ n ∷ n ∷ n ∷ n ∷ n ∷ n ∷ n ∷ n ∷ n ∷ n ∷ n ∷ n ∷ n ∷ n ∷ n
    ∷ n ∷ n ∷ n ∷ n ∷ n ∷ n ∷ n ∷ n ∷ []

abbrev pub iv_12 : Bytes
iv_12 = 9 ∷ 9 ∷ 9 ∷ 9 ∷ 9 ∷ 9 ∷ 9 ∷ 9 ∷ 9 ∷ 9 ∷ 9 ∷ 9 ∷ []

abbrev pub blob : Bytes → Bytes → Bytes
blob key text = iv_12 ++ (zeros_16 ++ (key ++ text))

decrypt-encrypt_example :
    (b : Bytes) × (encrypt_secret plain iv_12 (104 ∷ 105 ∷ []) (key_of 1) ≡ ok b)
    × (decrypt_secret plain b (key_of 1) ≡ ok (104 ∷ 105 ∷ []))
    × (decrypt_secret plain b (key_of 2) ≡ (
        if length (key_of 2) == 32
        then plain.unseal (key_of 2) iv_12 zeros_16 (key_of 1 ++ 104 ∷ 105 ∷ [])
        else throw "encryption key must be 32 bytes"))
decrypt-encrypt_example =
    decrypt-encrypt plain plain-IsCipher iv_12 (104 ∷ 105 ∷ []) (key_of 1) (key_of 2) refl refl

abbrev pub version_1 : KeyVersion
version_1 = record {
  id = 1;
  org_id = 1;
  key_version = 1;
  key_encrypted = blob (key_of 7) (key_of 1);
  active = true;
  retired_at = none;
}

-- A chunk within the clearance, one above it, and a message.
abbrev pub vault : Vault
vault = record {
  versions = version_1 ∷ [];
  chunks =
      record {
        id = 1;
        org_id = 1;
        document_id = 4;
        classification_rank = 1;
        content_encrypted = blob (key_of 1) (104 ∷ []);
      }
      ∷ record {
        id = 2;
        org_id = 1;
        document_id = 4;
        classification_rank = 3;
        content_encrypted = blob (key_of 1) (105 ∷ []);
      }
      ∷ [];
  messages = record { id = 3; org_id = 1; content_encrypted = blob (key_of 1) [] } ∷ [];
  log = no_events;
  next_id = 9;
}

abbrev pub draw : Draw
draw = record { dek = key_of 2; chunk_iv = λ id. iv_12; message_iv = λ id. iv_12; wrap_iv = iv_12 }

pub draw-IsDrawn : IsDrawn (key_of 7) draw
draw-IsDrawn = record {
  kek_size = refl;
  dek_size = refl;
  chunk_ivs = λ id. refl;
  message_ivs = λ id. refl;
  wrap_size = refl;
}

pub vault-IsConsistent : IsConsistent plain ctx (key_of 7) version_1 (key_of 1) vault
unfolding decrypt_secret
vault-IsConsistent = record {
  found = refl;
  only_active = ((λ h. refl), tt);
  fresh_version = refl;
  unwrapped = refl;
  chunk_ids = (tt, tt);
  chunks_open = ((104 ∷ [], refl), tt);
  message_ids = (tt, tt);
  messages_open = (([], refl), tt);
}

rotate_key-IsRotated_example :
    (r : RotationResult) × (t : Vault) × (rotate_key plain ctx (key_of 7) draw 50 platform vault
      ≡ some (ok r, t))
    × IsRotated plain ctx (key_of 7) (key_of 1) (key_of 2) r vault t
rotate_key-IsRotated_example =
    rotate_key-IsRotated plain plain-IsCipher ctx (key_of 7) draw 50 platform draw-IsDrawn version_1
      (key_of 1) vault vault-IsConsistent

-- Another key is refused.
other_key_refused : is_ok (decrypt_secret plain (blob (key_of 1) (104 ∷ [])) (key_of 2)) ≡ false
unfolding decrypt_secret
other_key_refused = refl

-- With a later version in the table the rotation is rolled back.
abbrev crowded : Vault
crowded = record vault {
  versions = version_1 ∷ record version_1 { id = 2; key_version = 2; active = false } ∷ [];
}

crowded_rolls_back :
    rotate_key plain ctx (key_of 7) draw 50 platform crowded
    ≡ some (throw "duplicate key value violates encryption_key_org_version_unique", crowded)
unfolding rotate_key recode_rows batches encrypt_secret decrypt_secret
crowded_rolls_back = refl
