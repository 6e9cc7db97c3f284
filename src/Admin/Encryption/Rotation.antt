-- ===== src/Admin/Encryption/Rotation.antt =====
-- What `rotateKey` of src/admin/encryption.ts leaves.
use mathlib.Core.List.{append-nil}
use capybara_ai.Prelude.{
  ℕ, ◌+◌, String, Bool, true, false, Bool-cases, none, some, List, [], ◌∷◌, ◌++◌, map, length, ◌==◌,
  nat_eq, nat_beq_iff, ◌&&◌, not, any, ◌≡◌, refl, ap, ◌∙◌, inl, inr, All, All2,
}
use capybara_ai.Prelude.Effect.{Result, ok, throw}
use capybara_ai.Prelude.Table.{select_where, first_where, first_where-append_new}
use capybara_ai.Hash.{Platform}
use capybara_ai.Tenancy.{TenantContext, in_tenant}
use capybara_ai.Crypto.{Bytes, Ciphers, IsCipher, encrypt_secret, decrypt_secret}
use capybara_ai.Crypto.Wire.{decrypt-encrypt}
use capybara_ai.Admin.Encryption.{
  KeyVersion, Vault, chunk_table, message_table, recode, Draw, RotationResult, sees_chunk,
  sees_message, active_row, retired, new_version, unwrap_dek, get_active_dek, insert_version,
  has_version, logged, rotate_key,
}
use capybara_ai.Admin.Encryption.Loop.{SecretTable, reencrypt}
use capybara_ai.Admin.Encryption.Batches.{IsKeyed, renewed, reencrypt-IsRenewed}

-- The content is what encrypting a text under the key, with some vector, gives.
abbrev pub IsSealed : Ciphers → Bytes → Bytes → Type 0
IsSealed c key content = (iv : Bytes) × (text : Bytes) × (encrypt_secret c iv text key ≡ ok content)

-- A row keeps its id and its text, which is now sealed under the new key and read under it.
abbrev pub IsRecoded : {R : Type 0} → Ciphers → SecretTable R → Bytes → Bytes → R → R → Type 0
IsRecoded c t old new r r' =
    (text : Bytes) × (t.id_of r' ≡ t.id_of r)
    × (decrypt_secret c (t.content_of r) old ≡ ok text)
    × (decrypt_secret c (t.content_of r') new ≡ ok text)
    × IsSealed c new (t.content_of r')

-- The key opens a row.
abbrev pub Opens : {R : Type 0} → Ciphers → SecretTable R → Bytes → R → Type 0
Opens c t key r = (text : Bytes) × (decrypt_secret c (t.content_of r) key ≡ ok text)

abbrev content_or_nil : Result String Bytes → Bytes
content_or_nil (ok b) = b
content_or_nil (throw e) = []

module _ (c : Ciphers) (law : IsCipher c) (old new : Bytes) (fits : length new ≡ 32) where
  recode_opened :
      (iv content text : Bytes)
      → length iv ≡ 12
      → decrypt_secret c content old ≡ ok text
      → (blob : Bytes) × (recode c old new iv content ≡ ok blob)
        × (decrypt_secret c blob new ≡ ok text)
        × IsSealed c new blob
  recode_opened iv content text n e =
      let (blob, sealed, opens, _) = decrypt-encrypt c law iv text new new fits n in
      (blob, rw (e, sealed) refl, opens, (iv, text, sealed))

  module _ {R : Type 0} (t : SecretTable R) (sees : R → Bool) (iv_of : R → Bytes)
      (iv_size : (r : R) → length (iv_of r) ≡ 12)
      (keeps_id : (text : List ℕ) (r : R) → t.id_of (t.with_content text r) ≡ t.id_of r)
      (keeps_sight : (text : List ℕ) (r : R) → sees (t.with_content text r) ≡ sees r)
      (sets_content : (text : List ℕ) (r : R) → t.content_of (t.with_content text r) ≡ text) where
    abbrev code : R → Result String Bytes
    code r = recode c old new (iv_of r) (t.content_of r)

    abbrev fresh : R → Bytes
    fresh r = content_or_nil (code r)

    abbrev renew : R → R
    renew = renewed t sees code keeps_id keeps_sight fresh

    codes_opened :
        (rs : List R)
        → All (Opens c t old) rs
        → All (λ r. code r ≡ ok (fresh r)) rs × All2 (IsRecoded c t old new) rs (map renew rs)
    codes_opened [] h = (tt, tt)
    codes_opened (r ∷ rs) ((text, e), h) =
        let (blob, done, opens, sealed) =
          recode_opened (iv_of r) (t.content_of r) text (iv_size r) e in
        let (works, pairs) = codes_opened rs h in
        let now : t.content_of (renew r) ≡ blob =
          sets_content (fresh r) r ∙ ap content_or_nil done in
        ((rw done refl, works), ((text, keeps_id _ r, e, rw now opens, rw now sealed), pairs))

    -- A table is re-encrypted, whatever the number of its batches.
    reencrypt_table :
        (table : List R)
        → IsKeyed t (select_where sees table)
        → All (Opens c t old) (select_where sees table)
        → (table' : List R) × (reencrypt t sees code table
            ≡ some (ok (length (select_where sees table), table')))
          × All2 (IsRecoded c t old new) (select_where sees table) (select_where sees table')
          × (select_where (λ r. not (sees r)) table' ≡ select_where (λ r. not (sees r)) table)
    reencrypt_table table keyed opened =
        let (works, pairs) = codes_opened (select_where sees table) opened in
        let (table', done, inv) =
          reencrypt-IsRenewed t sees code keeps_id keeps_sight fresh table keyed works in
        (table', done, rw (inv.seen ∙ append-nil _) pairs, inv.unseen)

-- The bytes that were drawn have the sizes that the ciphers want.
pub record IsDrawn (kek : Bytes) (d : Draw) : Type 0 where
  pub kek_size : length kek ≡ 32
  pub dek_size : length d.dek ≡ 32
  pub chunk_ivs : (id : ℕ) → length (d.chunk_iv id) ≡ 12
  pub message_ivs : (id : ℕ) → length (d.message_iv id) ≡ 12
  pub wrap_size : length d.wrap_iv ≡ 12

-- The organisation has one active version and none with the next number, the key of the active one opens
-- every row that the caller sees, and ids are unique.
pub record IsConsistent (c : Ciphers) (ctx : TenantContext) (kek : Bytes) (current : KeyVersion)
    (old : Bytes) (v : Vault) : Type 0 where
  pub found : active_row ctx v ≡ some current
  pub only_active :
      All
        (λ (k : KeyVersion). (in_tenant ctx k.org_id && k.active) ≡ true → k.id ≡ current.id)
        v.versions
  pub fresh_version : any (has_version ctx (current.key_version + 1)) v.versions ≡ false
  pub unwrapped : unwrap_dek c current.key_encrypted kek ≡ ok old
  pub chunk_ids : IsKeyed chunk_table (select_where (sees_chunk ctx) v.chunks)
  pub chunks_open : All (Opens c chunk_table old) (select_where (sees_chunk ctx) v.chunks)
  pub message_ids : IsKeyed message_table (select_where (sees_message ctx) v.messages)
  pub messages_open : All (Opens c message_table old) (select_where (sees_message ctx) v.messages)

pub record IsRotated (c : Ciphers) (ctx : TenantContext) (kek old new : Bytes) (r : RotationResult)
    (v t : Vault) : Type 0 where
  pub chunks :
      All2
        (IsRecoded c chunk_table old new)
        (select_where (sees_chunk ctx) v.chunks)
        (select_where (sees_chunk ctx) t.chunks)
  pub hidden_chunks :
      select_where (λ r. not (sees_chunk ctx r)) t.chunks
      ≡ select_where (λ r. not (sees_chunk ctx r)) v.chunks
  pub messages :
      All2
        (IsRecoded c message_table old new)
        (select_where (sees_message ctx) v.messages)
        (select_where (sees_message ctx) t.messages)
  pub hidden_messages :
      select_where (λ r. not (sees_message ctx r)) t.messages
      ≡ select_where (λ r. not (sees_message ctx r)) v.messages
  pub active_key : get_active_dek c ctx kek t ≡ some (ok new)
  pub counted :
      r.rotated
      ≡ length (select_where (sees_chunk ctx) v.chunks)
        + length (select_where (sees_message ctx) v.messages)

-- After the old version is retired there is none that is active.
retired-none :
    (ctx : TenantContext) (now : ℕ) (current : KeyVersion) (rows : List KeyVersion)
    → All (λ (k : KeyVersion). (in_tenant ctx k.org_id && k.active) ≡ true → k.id ≡ current.id) rows
    → first_where
        (λ (k : KeyVersion). in_tenant ctx k.org_id && k.active)
        (retired ctx now current rows)
      ≡ none
retired-none ctx now current [] h = refl
retired-none ctx now current (k ∷ rows) (own, h) =
    let rest = retired-none ctx now current rows h in
    elim (Bool-cases (k.org_id == ctx.org_id)) [
      | inr foreign ↦ rw (foreign, foreign) rest
      | inl mine ↦ elim (Bool-cases (k.id == current.id)) [
        | inl same ↦ rw (mine, same, mine) rest
        | inr other ↦ elim (Bool-cases k.active) [
          | inl on ↦ absurd (cc (other, (nat_beq_iff k.id current.id).1 (own (rw (mine, on) refl))))
          | inr off ↦ rw (mine, other, mine, off) rest
        ]
      ]
    ]

module _ (c : Ciphers) (law : IsCipher c) (ctx : TenantContext) (kek : Bytes) (d : Draw) (now : ℕ)
    (p : Platform) (drawn : IsDrawn kek d) where
  -- The version that was inserted is the active one, and its key is the one that was drawn.
  active_new :
      (id version : ℕ) (current : KeyVersion) (rows : List KeyVersion) (blob : Bytes) (v : Vault)
      → first_where (λ (k : KeyVersion). in_tenant ctx k.org_id && k.active) rows ≡ none
      → v.versions ≡ rows ++ new_version ctx id version blob ∷ []
      → decrypt_secret c blob kek ≡ ok (c.to_base64 d.dek)
      → get_active_dek c ctx kek v ≡ some (ok d.dek)
  unfolding get_active_dek
  active_new id version current rows blob v no_other same opens =
      let own : (ctx.org_id == ctx.org_id) ≡ true = (nat_beq_iff ctx.org_id ctx.org_id).1 refl in
      let found =
        first_where-append_new (λ (k : KeyVersion). in_tenant ctx k.org_id && k.active) rows
          (new_version ctx id version blob) no_other (rw own refl) in
      rw (same, found, opens, law.base64 d.dek) refl

  -- When the organisation has one active version and none with the next number, and the active key opens
  -- every row that the caller sees, a rotation goes through, whatever the number of its batches: every
  -- such chunk and message keeps its id and its text, which is sealed under the new key and read by it,
  -- rows that the caller does not see stay as they are, the new key is the active one, and the count
  -- that is returned is that of the rows. The keys have 32 bytes and the vectors 12.
  pub rotate_key-IsRotated :
      (current : KeyVersion) (old : Bytes) (v : Vault)
      → IsConsistent c ctx kek current old v
      → (r : RotationResult) × (t : Vault) × (rotate_key c ctx kek d now p v ≡ some (ok r, t))
        × IsRotated c ctx kek old d.dek r v t
  unfolding rotate_key
  rotate_key-IsRotated current old v good =
      let (chunks, chunks_done, chunk_pairs, chunks_hidden) =
        reencrypt_table c law old d.dek drawn.dek_size chunk_table (sees_chunk ctx)
          (λ r. d.chunk_iv r.id) (λ r. drawn.chunk_ivs r.id) (λ text r. refl) (λ text r. refl)
          (λ text r. refl) v.chunks good.chunk_ids good.chunks_open in
      let (messages, messages_done, message_pairs, messages_hidden) =
        reencrypt_table c law old d.dek drawn.dek_size message_table (sees_message ctx)
          (λ r. d.message_iv r.id) (λ r. drawn.message_ivs r.id) (λ text r. refl) (λ text r. refl)
          (λ text r. refl) v.messages good.message_ids good.messages_open in
      let (blob, wrapped, opens, _) =
        decrypt-encrypt c law d.wrap_iv (c.to_base64 d.dek) kek kek drawn.kek_size
          drawn.wrap_size in
      let n =
        length (select_where (sees_chunk ctx) v.chunks)
        + length (select_where (sees_message ctx) v.messages) in
      let (r, t) = insert_version c ctx kek d now current n chunks messages v blob in
      (
        r,
        logged c ctx kek d now p r t,
        rw (good.found, good.unwrapped, chunks_done, messages_done, wrapped, good.fresh_version)
            refl,
        record {
          chunks = chunk_pairs;
          hidden_chunks = chunks_hidden;
          messages = message_pairs;
          hidden_messages = messages_hidden;
          active_key =
              active_new v.next_id (current.key_version + 1) current
                (retired ctx now current v.versions) blob (logged c ctx kek d now p r t)
                (retired-none ctx now current v.versions good.only_active) refl opens;
          counted = refl;
        },
      )
