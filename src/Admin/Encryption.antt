-- ===== src/Admin/Encryption.antt =====
-- Key versions and their rotation: src/admin/encryption.ts. The rows of a table stand in the order of
-- their ids. A statement sees the rows of the organisation, and of the chunks those within the
-- clearance (src/db/sql/0004_documents.sql). The random bytes are arguments.
pub mod Loop
pub mod Batches
pub mod Rotation
use capybara_ai.Prelude.{
  ℕ, zero, suc, ◌+◌, ◌/◌, String, Bool, true, false, Option, none, some, List, [], ◌∷◌, ◌++◌, take,
  drop, length, ltb, any, leb, ◌==◌, nat_eq, ◌&&◌, if◌then◌else◌,
}
use capybara_ai.Prelude.Effect.{Result, ok, throw}
use capybara_ai.Prelude.Table.{first_where, select_where, update_where}
use capybara_ai.Hash.{Platform, Json, num, obj, end, field}
use capybara_ai.Audit.{EventLog, SecurityEventInput, warning, append_security_event}
use capybara_ai.Tenancy.{TenantContext, in_tenant}
use capybara_ai.Crypto.{Bytes, Ciphers, encrypt_secret, decrypt_secret}
use capybara_ai.Admin.Encryption.Loop.{SecretTable, then_do, reencrypt, batches, recode_rows}

pub record KeyVersion : Type 0 where
  pub id : ℕ
  pub org_id : ℕ
  pub key_version : ℕ
  pub key_encrypted : Bytes
  pub active : Bool
  pub retired_at : Option ℕ

pub record ChunkRow : Type 0 where
  pub id : ℕ
  pub org_id : ℕ
  pub document_id : ℕ
  pub classification_rank : ℕ
  pub content_encrypted : Bytes

pub record MessageRow : Type 0 where
  pub id : ℕ
  pub org_id : ℕ
  pub content_encrypted : Bytes

pub record Vault : Type 0 where
  pub versions : List KeyVersion
  pub chunks : List ChunkRow
  pub messages : List MessageRow
  pub log : EventLog
  pub next_id : ℕ

abbrev pub chunk_table : SecretTable ChunkRow
chunk_table = record {
  id_of = λ r. r.id;
  content_of = λ r. r.content_encrypted;
  with_content = λ text r. record r { content_encrypted = text };
}

abbrev pub message_table : SecretTable MessageRow
message_table = record {
  id_of = λ r. r.id;
  content_of = λ r. r.content_encrypted;
  with_content = λ text r. record r { content_encrypted = text };
}

module _ (c : Ciphers) where
  abbrev pub wrap_dek : Bytes → Bytes → Bytes → Result String Bytes
  wrap_dek iv dek kek = encrypt_secret c iv (c.to_base64 dek) kek

  abbrev pub from_text : Result String Bytes → Result String Bytes
  from_text (ok text) = ok (c.from_base64 text)
  from_text (throw e) = throw e

  abbrev pub unwrap_dek : Bytes → Bytes → Result String Bytes
  unwrap_dek blob kek = from_text (decrypt_secret c blob kek)

  -- A content that the old key opens, under the new key.
  abbrev pub recode : Bytes → Bytes → Bytes → Bytes → Result String Bytes
  recode old new iv content =
      then_do (decrypt_secret c content old) (λ text. encrypt_secret c iv text new)

-- The random bytes of a rotation: the new key, and a vector for each row and for the key.
pub record Draw : Type 0 where
  pub dek : Bytes
  pub chunk_iv : ℕ → Bytes
  pub message_iv : ℕ → Bytes
  pub wrap_iv : Bytes

pub record RotationResult : Type 0 where
  pub rotated : ℕ
  pub new_key_version : ℕ

module _ (ctx : TenantContext) where
  abbrev pub sees_chunk : ChunkRow → Bool
  sees_chunk r = in_tenant ctx r.org_id && leb r.classification_rank ctx.clearance

  abbrev pub sees_message : MessageRow → Bool
  sees_message r = in_tenant ctx r.org_id

  -- `activeRow`
  abbrev pub active_row : Vault → Option KeyVersion
  active_row v = first_where (λ (k : KeyVersion). in_tenant ctx k.org_id && k.active) v.versions

  abbrev pub retired : ℕ → KeyVersion → List KeyVersion → List KeyVersion
  retired now current =
      update_where (λ (k : KeyVersion). in_tenant ctx k.org_id && k.id == current.id)
        (λ (k : KeyVersion). record k { active = false; retired_at = some now })

  abbrev pub has_version : ℕ → KeyVersion → Bool
  has_version version k = in_tenant ctx k.org_id && k.key_version == version

  abbrev pub new_version : ℕ → ℕ → Bytes → KeyVersion
  new_version id version key_encrypted = record {
    id = id;
    org_id = ctx.org_id;
    key_version = version;
    key_encrypted = key_encrypted;
    active = true;
    retired_at = none;
  }

module _ (c : Ciphers) (ctx : TenantContext) (kek : Bytes) where
  abbrev pub unwrap_row : Option KeyVersion → Option (Result String Bytes)
  unwrap_row none = none
  unwrap_row (some k) = some (unwrap_dek c k.key_encrypted kek)

  unfoldable pub get_active_dek : Vault → Option (Result String Bytes)
  get_active_dek v = unwrap_row (active_row ctx v)

  unfoldable pub count_key_versions : Vault → ℕ
  count_key_versions v =
      length (select_where (λ (k : KeyVersion). in_tenant ctx k.org_id) v.versions)

  -- The row that `created!` reads; an error rolls the insertion back.
  abbrev pub created : Vault → Vault → Option KeyVersion → Result String Bytes × Vault
  created before after none = (throw "created is undefined", before)
  created before after (some k) = (unwrap_dek c k.key_encrypted kek, after)

  -- ON CONFLICT DO NOTHING, on the organisation and the version.
  abbrev pub insert_first : Bytes → Vault → Vault
  insert_first key v = if any (has_version ctx 1) v.versions then v else record v {
    versions = v.versions ++ new_version ctx v.next_id 1 key ∷ [];
    next_id = v.next_id + 1;
  }

  abbrev pub first_version : Vault → Result String Bytes → Result String Bytes × Vault
  first_version v (throw e) = (throw e, v)
  first_version v (ok key) =
      let after = insert_first key v in created v after (active_row ctx after)

  abbrev pub ensure_found : Bytes → Bytes → Option KeyVersion → Vault → Result String Bytes × Vault
  ensure_found iv legacy_dek none v = first_version v (wrap_dek c iv legacy_dek kek)
  ensure_found iv legacy_dek (some k) v = (unwrap_dek c k.key_encrypted kek, v)

  unfoldable pub ensure_key_version : Bytes → Bytes → Vault → Result String Bytes × Vault
  ensure_key_version iv legacy_dek v = ensure_found iv legacy_dek (active_row ctx v) v

module _ (c : Ciphers) (ctx : TenantContext) (kek : Bytes) (d : Draw) (now : ℕ) where
  abbrev pub code_chunk : Bytes → ChunkRow → Result String Bytes
  code_chunk old r = recode c old d.dek (d.chunk_iv r.id) r.content_encrypted

  abbrev pub code_message : Bytes → MessageRow → Result String Bytes
  code_message old r = recode c old d.dek (d.message_iv r.id) r.content_encrypted

  -- The old version is retired and the new one inserted.
  abbrev pub insert_version :
      KeyVersion → ℕ → List ChunkRow → List MessageRow → Vault → Bytes → RotationResult × Vault
  insert_version current n chunks messages v key =
      let version = current.key_version + 1 in
      (
        record { rotated = n; new_key_version = version },
        record v {
          versions =
              retired ctx now current v.versions ++ new_version ctx v.next_id version key ∷ [];
          chunks = chunks;
          messages = messages;
          next_id = v.next_id + 1;
        },
      )

  -- The number of a version is unique in its organisation; a conflict rolls the rotation back.
  abbrev pub with_version :
      KeyVersion
      → ℕ
      → List ChunkRow
      → List MessageRow
      → Vault
      → Result String Bytes
      → Result String (RotationResult × Vault)
  with_version current n chunks messages v (throw e) = throw e
  with_version current n chunks messages v (ok key) =
      if any (has_version ctx (current.key_version + 1)) v.versions
      then throw "duplicate key value violates encryption_key_org_version_unique"
      else ok (insert_version current n chunks messages v key)

  abbrev pub with_messages :
      KeyVersion
      → ℕ
      → List ChunkRow
      → Vault
      → Option (Result String (ℕ × List MessageRow))
      → Option (Result String (RotationResult × Vault))
  with_messages current n chunks v none = none
  with_messages current n chunks v (some (throw e)) = some (throw e)
  with_messages current n chunks v (some (ok (m, messages))) =
      some (with_version current (n + m) chunks messages v (wrap_dek c d.wrap_iv d.dek kek))

  abbrev pub with_chunks :
      KeyVersion
      → Bytes
      → Vault
      → Option (Result String (ℕ × List ChunkRow))
      → Option (Result String (RotationResult × Vault))
  with_chunks current old v none = none
  with_chunks current old v (some (throw e)) = some (throw e)
  with_chunks current old v (some (ok (n, chunks))) =
      with_messages current n chunks v
        (reencrypt message_table (sees_message ctx) (code_message old) v.messages)

  abbrev pub with_old :
      KeyVersion → Vault → Result String Bytes → Option (Result String (RotationResult × Vault))
  with_old current v (throw e) = some (throw e)
  with_old current v (ok old) =
      with_chunks current old v (reencrypt chunk_table (sees_chunk ctx) (code_chunk old) v.chunks)

  -- The transaction of `rotateKey`; an error in it leaves the tables as they were.
  abbrev pub rotate_rows :
      Option KeyVersion → Vault → Option (Result String (RotationResult × Vault))
  rotate_rows none v = some (throw "no active key version; run migration first")
  rotate_rows (some current) v = with_old current v (unwrap_dek c current.key_encrypted kek)

  abbrev pub rotated_event : RotationResult → SecurityEventInput
  rotated_event r = record {
    org_id = some ctx.org_id;
    event_type = "encryption.rotated";
    severity = warning;
    payload =
        obj (field "newKeyVersion" (num r.new_key_version) (field "rotated" (num r.rotated) end));
  }

  abbrev pub logged : Platform → RotationResult → Vault → Vault
  logged p r t = record t { log = (append_security_event p now (rotated_event r) t.log).1 }

  abbrev pub log_rotation :
      Platform
      → Vault
      → Option (Result String (RotationResult × Vault))
      → Option (Result String RotationResult × Vault)
  log_rotation p v none = none
  log_rotation p v (some (throw e)) = some (throw e, v)
  log_rotation p v (some (ok (r, t))) = some (ok r, logged p r t)

  unfoldable pub rotate_key : Platform → Vault → Option (Result String RotationResult × Vault)
  rotate_key p v = log_rotation p v (rotate_rows (active_row ctx v) v)
