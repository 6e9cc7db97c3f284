-- ===== src/Documents/Search.antt =====
-- The search of documents: src/documents/search.ts. The embedder and the order that pgvector puts the
-- chunks in are parameters; the similarity of a hit is left out. The rows that a query may join are those
-- that the policies on chunks and documents show.
pub mod Clearance
pub mod Rotated
use capybara_ai.Prelude.{
  ℕ, String, Bool, true, false, Option, none, some, List, [], ◌∷◌, ◌++◌, take, leb, ◌&&◌, ◌==◌,
  nat_eq, is_none, if◌then◌else◌, get_or_else,
}
use capybara_ai.Prelude.Effect.{Result, ok, throw}
use capybara_ai.Prelude.Table.{first_where, select_where}
use capybara_ai.Hash.{Platform}
use capybara_ai.Tenancy.{TenantContext, in_tenant}
use capybara_ai.Crypto.{Bytes, Ciphers, decrypt_secret, derive_tenant_key}
use capybara_ai.Documents.Lifecycle.{
  Document, DocumentState, query, AccessLogInput, log_access, is_visible,
}
use capybara_ai.Admin.Encryption.{ChunkRow, sees_chunk}

pub record SearchDeps : Type 0 where
  pub ciphers : Ciphers
  -- the vector of a text, where the embedder yields one
  pub embed : String → Option (List ℕ)
  pub nearest : List ℕ → List ChunkRow → List ChunkRow
  pub master_key : Bytes

pub record SearchResult : Type 0 where
  pub chunk_id : ℕ
  pub document_id : ℕ
  pub document_title : String
  pub content : Bytes
  pub classification_rank : ℕ

module _ (deps : SearchDeps) (p : Platform) (ctx : TenantContext) where
  -- `JOIN documents d ON d.id = c.document_id AND d.deleted_at IS NULL`
  abbrev pub is_joined : ChunkRow → Document → Bool
  is_joined r d = is_visible ctx d && (d.id == r.document_id && is_none d.deleted_at)

  abbrev pub document_of : DocumentState → ChunkRow → Option Document
  document_of s r = first_where (is_joined r) s.documents

  abbrev pub has_document : Option Document → Bool
  has_document none = false
  has_document (some _) = true

  -- The rows that the statement may return, before ORDER BY and LIMIT.
  abbrev pub may_hit : DocumentState → ChunkRow → Bool
  may_hit s r =
      sees_chunk ctx r
      && (leb r.classification_rank ctx.clearance && has_document (document_of s r))

  abbrev pub hits : List ℕ → ℕ → List ChunkRow → DocumentState → List ChunkRow
  hits vector limit chunks s = take limit (deps.nearest vector (select_where (may_hit s) chunks))

  abbrev pub title_of : Option Document → String
  title_of none = ""
  title_of (some d) = d.title

  abbrev pub result_of : DocumentState → ChunkRow → Bytes → SearchResult
  result_of s r content = record {
    chunk_id = r.id;
    document_id = r.document_id;
    document_title = title_of (document_of s r);
    content = content;
    classification_rank = r.classification_rank;
  }

  abbrev pub with_result :
      DocumentState
      → ChunkRow
      → Result String Bytes
      → Result String (List SearchResult)
      → Result String (List SearchResult)
  with_result s r (throw e) rest = throw e
  with_result s r (ok content) (throw e) = throw e
  with_result s r (ok content) (ok rest) = ok (result_of s r content ∷ rest)

  -- `rows.map(…)`, where decryption may throw
  abbrev pub results_of : DocumentState → List ChunkRow → Result String (List SearchResult)
  results_of s [] = ok []
  results_of s (r ∷ rs) =
      with_result s r
        (decrypt_secret deps.ciphers r.content_encrypted
          (derive_tenant_key deps.ciphers deps.master_key ctx.org_id))
        (results_of s rs)

  abbrev pub query_input : String → Option String → AccessLogInput
  query_input text ip = record {
    org_id = ctx.org_id;
    action = query;
    document_id = none;
    user_id = some ctx.user_id;
    query_text = some text;
    ip = ip;
  }

  -- An error rolls the entry of the access log back.
  abbrev pub log_query :
      String
      → Option String
      → DocumentState
      → Result String (List SearchResult)
      → Result String (List SearchResult) × DocumentState
  log_query text ip s (throw e) = (throw e, s)
  log_query text ip s (ok results) = (ok results, log_access p (query_input text ip) s)

  abbrev pub search_vector :
      String
      → ℕ
      → Option String
      → List ChunkRow
      → DocumentState
      → Option (List ℕ)
      → Result String (List SearchResult) × DocumentState
  search_vector text limit ip chunks s none = (ok [], s)
  search_vector text limit ip chunks s (some vector) =
      log_query text ip s (results_of s (hits vector limit chunks s))

  unfoldable pub search_documents :
      String
      → Option ℕ
      → Option String
      → List ChunkRow
      → DocumentState
      → Result String (List SearchResult) × DocumentState
  search_documents text limit ip chunks s =
      search_vector text (get_or_else limit 10) ip chunks s (deps.embed text)
