-- ===== src/Documents/Search/Clearance.antt =====
-- What a search of src/documents/search.ts shows.
use mathlib.Core.Path.{subst}
use mathlib.Core.List.{Memᴰ}
use capybara_ai.Prelude.{
  ℕ, zero, suc, ◌≤◌, String, Bool, true, Bool-cases, Option, none, some, List, [], ◌∷◌, take,
  nat_eq, is_none, get_or_else, ◌≡◌, refl, arith, inl, inr, All, Option-cases,
}
use capybara_ai.Prelude.Effect.{Result, ok, throw}
use capybara_ai.Prelude.Table.{select_where, first_where_sound}
use capybara_ai.Hash.{Platform}
use capybara_ai.Tenancy.{TenantContext}
use capybara_ai.Crypto.{decrypt_secret, derive_tenant_key}
use capybara_ai.Documents.Lifecycle.{Document, DocumentState, is_visible}
use capybara_ai.Admin.Encryption.{ChunkRow}
use capybara_ai.Documents.Search.{
  SearchDeps, SearchResult, is_joined, document_of, may_hit, hits, result_of, with_result,
  results_of, log_query, search_vector, search_documents,
}

-- The order of the chunks neither adds nor changes one.
abbrev pub Reorders : SearchDeps → Type 1
Reorders deps =
    (P : ChunkRow → Type 0) (vector : List ℕ) (rows : List ChunkRow)
    → All P rows
    → All P (deps.nearest vector rows)

pub All-take : {A : Type 0} (P : A → Type 0) (n : ℕ) (xs : List A) → All P xs → All P (take n xs)
All-take P zero xs h = tt
All-take P (suc n) [] h = tt
All-take P (suc n) (x ∷ xs) h = (h.0, All-take P n xs h.1)

-- The rows that a query selects are rows of the table, and meet its condition.
select_where-All :
    {A : Type 0} (p : A → Bool) (xs whole : List A)
    → ((x : A) → Memᴰ x xs → Memᴰ x whole)
    → All (λ x. Memᴰ x whole × (p x ≡ true)) (select_where p xs)
select_where-All p [] whole up = tt
select_where-All p (x ∷ xs) whole up =
    let rest = select_where-All p xs whole (λ y m. up y (Memᴰ.tail m)) in
    elim (Bool-cases (p x)) [ inl h ↦ rw h ((up x (Memᴰ.head refl), h), rest) | inr h ↦ rw h rest ]

-- What a hit shows: a chunk of the table and its document, both of the organisation and within the
-- clearance, the document not deleted, and the text that the key of the organisation opens.
pub record IsShown (deps : SearchDeps) (ctx : TenantContext) (chunks : List ChunkRow)
    (s : DocumentState) (hit : SearchResult) : Type 0 where
  pub row : ChunkRow
  pub document : Document
  pub of_table : Memᴰ row chunks
  pub row_org : row.org_id ≡ ctx.org_id
  pub row_rank : row.classification_rank ≤ ctx.clearance
  pub document_seen : is_visible ctx document ≡ true
  pub same_document : (document.id ≡ row.document_id) × (document.id ≡ hit.document_id)
  pub kept : document.deleted_at ≡ none
  pub title : hit.document_title ≡ document.title
  pub opened :
      decrypt_secret deps.ciphers row.content_encrypted
        (derive_tenant_key deps.ciphers deps.master_key ctx.org_id)
      ≡ ok hit.content

module _ (deps : SearchDeps) (p : Platform) (ctx : TenantContext) where
  pub hits-may_hit :
      (vector : List ℕ) (limit : ℕ) (chunks : List ChunkRow) (s : DocumentState)
      → Reorders deps
      → All
          (λ r. Memᴰ r chunks × (may_hit deps p ctx s r ≡ true))
          (hits deps p ctx vector limit chunks s)
  hits-may_hit vector limit chunks s order =
      All-take (λ r. Memᴰ r chunks × (may_hit deps p ctx s r ≡ true)) limit _
        (order (λ r. Memᴰ r chunks × (may_hit deps p ctx s r ≡ true)) vector _
          (select_where-All (may_hit deps p ctx s) chunks chunks (λ x m. m)))

  is_joined_lem :
      (r : ChunkRow) (d : Document)
      → is_joined deps p ctx r d ≡ true
      → (is_visible ctx d ≡ true) × (d.id ≡ r.document_id) × (is_none d.deleted_at ≡ true)
  is_joined_lem r d h = ground (arith)

  none_of_is_none : {A : Type 0} (o : Option A) → is_none o ≡ true → o ≡ none
  none_of_is_none none h = refl
  none_of_is_none (some a) h = absurd (cc)

  hit-IsShown :
      (chunks : List ChunkRow) (s : DocumentState) (r : ChunkRow) (content : List ℕ)
      → Memᴰ r chunks
      → may_hit deps p ctx s r ≡ true
      → decrypt_secret deps.ciphers r.content_encrypted
          (derive_tenant_key deps.ciphers deps.master_key ctx.org_id)
        ≡ ok content
      → IsShown deps ctx chunks s (result_of deps p ctx s r content)
  hit-IsShown chunks s r content m h opened = elim (Option-cases (document_of deps p ctx s r)) [
    | inl e ↦ absurd (ground (arith, rw e at h))
    | inr (d, e) ↦
        let (seen, same, kept) =
          is_joined_lem r d (first_where_sound (is_joined deps p ctx r) s.documents d e) in
        record {
          row = r;
          document = d;
          of_table = m;
          row_org = ground arith;
          row_rank = ground arith;
          document_seen = seen;
          same_document = (same, same);
          kept = none_of_is_none d.deleted_at kept;
          title = rw e refl;
          opened = opened;
        }
  ]

  with_result_lem :
      (s : DocumentState) (r : ChunkRow) (x : Result String (List ℕ))
      (rest : Result String (List SearchResult)) (found : List SearchResult)
      → with_result deps p ctx s r x rest ≡ ok found
      → (content : List ℕ) × (others : List SearchResult) × (x ≡ ok content)
        × (rest ≡ ok others)
        × (result_of deps p ctx s r content ∷ others ≡ found)
  with_result_lem s r (throw e) rest found h = absurd (cc)
  with_result_lem s r (ok content) (throw e) found h = absurd (cc)
  with_result_lem s r (ok content) (ok others) found h = (content, others, refl, refl, cc)

  results-IsShown :
      (chunks : List ChunkRow) (s : DocumentState) (rows : List ChunkRow)
      (found : List SearchResult)
      → All (λ r. Memᴰ r chunks × (may_hit deps p ctx s r ≡ true)) rows
      → results_of deps p ctx s rows ≡ ok found
      → All (IsShown deps ctx chunks s) found
  results-IsShown chunks s [] found h e =
      let same : [] ≡ found = cc in subst (All (IsShown deps ctx chunks s)) same tt
  results-IsShown chunks s (r ∷ rows) found ((m, shown), h) e =
      let (content, others, opened, rest, same) = with_result_lem s r _ _ found e in
      subst (All (IsShown deps ctx chunks s)) same
        (hit-IsShown chunks s r content m shown opened, results-IsShown chunks s rows others h rest)

  log_query_lem :
      (text : String) (ip : Option String) (s : DocumentState)
      (r : Result String (List SearchResult)) (found : List SearchResult)
      → (log_query deps p ctx text ip s r).0 ≡ ok found
      → r ≡ ok found
  log_query_lem text ip s (throw e) found h = absurd (cc)
  log_query_lem text ip s (ok results) found h = h

  vector-IsShown :
      (text : String) (limit : ℕ) (ip : Option String) (chunks : List ChunkRow) (s : DocumentState)
      (vector : Option (List ℕ)) (found : List SearchResult)
      → Reorders deps
      → (search_vector deps p ctx text limit ip chunks s vector).0 ≡ ok found
      → All (IsShown deps ctx chunks s) found
  vector-IsShown text limit ip chunks s none found order h =
      let same : [] ≡ found = cc in subst (All (IsShown deps ctx chunks s)) same tt
  vector-IsShown text limit ip chunks s (some vector) found order h =
      results-IsShown chunks s (hits deps p ctx vector limit chunks s) found
        (hits-may_hit vector limit chunks s order) (log_query_lem text ip s _ found h)

  -- Every hit of a search is a chunk of the table and its document, both of the organisation and within the
  -- clearance of the caller, the document not deleted, with the title of the document and the text that the
  -- key of the organisation opens; the order by distance only reorders the chunks.
  pub search_documents-IsShown :
      (text : String) (limit : Option ℕ) (ip : Option String) (chunks : List ChunkRow)
      (s : DocumentState) (found : List SearchResult)
      → Reorders deps
      → (search_documents deps p ctx text limit ip chunks s).0 ≡ ok found
      → All (IsShown deps ctx chunks s) found
  unfolding search_documents
  search_documents-IsShown text limit ip chunks s found order h =
      vector-IsShown text (get_or_else limit 10) ip chunks s (deps.embed text) found order h
