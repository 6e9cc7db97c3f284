-- ===== src/Documents/Search/Rotated.antt =====
-- The search of src/documents/search.ts after a rotation by src/admin/encryption.ts. The search opens
-- every row by the key that is derived for the organisation, not by the active version.
use capybara_ai.Prelude.{
  ℕ, String, true, false, Bool-cases, Option, some, List, [], ◌∷◌, nat_eq, get_or_else, ◌≡◌, ◌≢◌,
  refl, ◌⊎◌, inl, inr, All, All2,
}
use capybara_ai.Prelude.Effect.{Result, ok, throw, is_ok}
use capybara_ai.Prelude.Table.{select_where}
use capybara_ai.Hash.{Platform}
use capybara_ai.Tenancy.{TenantContext}
use capybara_ai.Crypto.{Bytes, IsCipher, decrypt_secret, derive_tenant_key}
use capybara_ai.Documents.Lifecycle.{DocumentState}
use capybara_ai.Admin.Encryption.{
  ChunkRow, KeyVersion, Vault, Draw, RotationResult, chunk_table, sees_chunk, rotate_key,
}
use mathlib.Core.List.{Memᴰ}
use capybara_ai.Admin.Encryption.Rotation.{
  IsSealed, IsRecoded, IsDrawn, IsConsistent, rotate_key-IsRotated,
}
use capybara_ai.Documents.Search.{
  SearchDeps, SearchResult, may_hit, hits, with_result, results_of, log_query, search_documents,
}
use capybara_ai.Documents.Search.Clearance.{Reorders, All-take}

module _ (deps : SearchDeps) (p : Platform) (ctx : TenantContext) where
  abbrev pub tenant_key : Bytes
  tenant_key = derive_tenant_key deps.ciphers deps.master_key ctx.org_id

  -- The content of the row is sealed under the new key.
  abbrev pub Renewed : Bytes → ChunkRow → Type 0
  Renewed new r = IsSealed deps.ciphers new r.content_encrypted

  recoded-Renewed :
      (old new : Bytes) (rs ts : List ChunkRow)
      → All2 (IsRecoded deps.ciphers chunk_table old new) rs ts
      → All (Renewed new) ts
  recoded-Renewed old new [] [] h = tt
  recoded-Renewed old new [] (t ∷ ts) h = absurd h
  recoded-Renewed old new (r ∷ rs) [] h = absurd h
  recoded-Renewed old new (r ∷ rs) (t ∷ ts) ((_, _, _, _, sealed), h) =
      (sealed, recoded-Renewed old new rs ts h)

  -- The rows that a search may hit are among those that the caller sees.
  hit-Renewed :
      (new : Bytes) (s : DocumentState) (rows : List ChunkRow)
      → All (Renewed new) (select_where (sees_chunk ctx) rows)
      → All (Renewed new) (select_where (may_hit deps p ctx s) rows)
  hit-Renewed new s [] h = tt
  hit-Renewed new s (r ∷ rows) h = elim (Bool-cases (sees_chunk ctx r)) [
    | inl seen ↦
        let (own, rest) = rw seen at h in
        elim (Bool-cases (may_hit deps p ctx s r)) [
          | inl hit ↦ rw hit (own, hit-Renewed new s rows rest)
          | inr miss ↦ rw miss (hit-Renewed new s rows rest)
        ]
    | inr hidden ↦
        let miss : may_hit deps p ctx s r ≡ false = rw hidden refl in
        rw miss (hit-Renewed new s rows (rw hidden at h))
  ]

  with_result_refused :
      (s : DocumentState) (r : ChunkRow) (x : Result String Bytes)
      (rest : Result String (List SearchResult))
      → is_ok x ≡ false
      → is_ok (with_result deps p ctx s r x rest) ≡ false
  with_result_refused s r (ok content) rest h = absurd (cc)
  with_result_refused s r (throw e) rest h = refl

  -- A row that is sealed under the new key, and that the key of the organisation opens, which is another.
  abbrev pub Misread : Bytes → List ChunkRow → Type 0
  Misread new rows =
      (r : ChunkRow) × Memᴰ r rows
      × Renewed new r
      × (tenant_key ≢ new)
      × (is_ok (decrypt_secret deps.ciphers r.content_encrypted tenant_key) ≡ true)

  results_fail :
      (new : Bytes) (s : DocumentState) (rows : List ChunkRow)
      → tenant_key ≢ new
      → All (Renewed new) rows
      → (rows ≡ []) ⊎ (is_ok (results_of deps p ctx s rows) ≡ false) ⊎ Misread new rows
  results_fail new s [] apart h = inl refl
  results_fail new s (r ∷ rows) apart h =
      elim (Bool-cases (is_ok (decrypt_secret deps.ciphers r.content_encrypted tenant_key))) [
        | inl opened ↦ inr (inr (r, Memᴰ.head refl, h.0, apart, opened))
        | inr refused ↦ inr (inl (with_result_refused s r _ (results_of deps p ctx s rows) refused))
      ]

  log_query_refused :
      (text : String) (ip : Option String) (s : DocumentState)
      (r : Result String (List SearchResult))
      → is_ok r ≡ false
      → is_ok (log_query deps p ctx text ip s r).0 ≡ false
  log_query_refused text ip s (ok results) h = absurd (cc)
  log_query_refused text ip s (throw e) h = refl

  search-fails :
      (new : Bytes) (text : String) (limit : Option ℕ) (ip : Option String) (chunks : List ChunkRow)
      (s : DocumentState) (vector : List ℕ)
      → Reorders deps
      → deps.embed text ≡ some vector
      → tenant_key ≢ new
      → All (Renewed new) (select_where (sees_chunk ctx) chunks)
      → let rows = hits deps p ctx vector (get_or_else limit 10) chunks s in
        (rows ≡ [])
        ⊎ (is_ok (search_documents deps p ctx text limit ip chunks s).0 ≡ false)
        ⊎ Misread new rows
  unfolding search_documents
  search-fails new text limit ip chunks s vector order embedded apart renewed =
      let rows = hits deps p ctx vector (get_or_else limit 10) chunks s in
      let all_renewed : All (Renewed new) rows =
        All-take (Renewed new) (get_or_else limit 10) _
          (order (Renewed new) vector _ (hit-Renewed new s chunks renewed)) in
      elim (results_fail new s rows apart all_renewed) [
        | inl nothing ↦ inl nothing
        | inr more ↦ elim more [
          | inl failed ↦ inr (
              inl (rw embedded (log_query_refused text ip s (results_of deps p ctx s rows) failed)))
          | inr misread ↦ inr (inr misread)
        ]
      ]

-- After a rotation that went through, a search of the organisation by the same caller hits no row or fails,
-- if the new key is not the one that is derived for the organisation. The only other case is that a row of
-- the hits, which was sealed under the new key, is opened by the derived key all the same. The rotation goes
-- through when the organisation has one active version and none with the next number, and the active
-- key opens every row that the caller sees.
pub search_documents-rotate_key :
    (deps : SearchDeps) (law : IsCipher deps.ciphers) (p : Platform) (ctx : TenantContext)
    (kek : Bytes) (d : Draw) (now : ℕ) (drawn : IsDrawn kek d) (current : KeyVersion) (old : Bytes)
    (v : Vault) (text : String) (limit : Option ℕ) (ip : Option String) (s : DocumentState)
    (vector : List ℕ)
    → Reorders deps
    → IsConsistent deps.ciphers ctx kek current old v
    → derive_tenant_key deps.ciphers deps.master_key ctx.org_id ≢ d.dek
    → deps.embed text ≡ some vector
    → (r : RotationResult) × (t : Vault) × (rotate_key deps.ciphers ctx kek d now p v
        ≡ some (ok r, t))
      × ((hits deps p ctx vector (get_or_else limit 10) t.chunks s ≡ [])
          ⊎ (is_ok (search_documents deps p ctx text limit ip t.chunks s).0 ≡ false)
          ⊎ Misread deps p ctx d.dek (hits deps p ctx vector (get_or_else limit 10) t.chunks s))
search_documents-rotate_key deps law p ctx kek d now drawn current old v text limit ip s vector
      order good apart embedded =
    let (r, t, done, rotated) =
      rotate_key-IsRotated deps.ciphers law ctx kek d now p drawn current old v good in
    (
      r,
      t,
      done,
      search-fails deps p ctx d.dek text limit ip t.chunks s vector order embedded apart
          (recoded-Renewed deps p ctx old d.dek _ _ rotated.chunks),
    )
