-- ===== src/Tests/Queries.antt =====
-- src/documents/search.ts at a small input, before a rotation and after it.
use capybara_ai.Prelude.{false, none, some, [], ◌∷◌, ◌≡◌, refl, All, ◌⊎◌, drop, arith}
use capybara_ai.Prelude.Effect.{ok, is_ok}
use capybara_ai.Crypto.{decrypt_secret}
use capybara_ai.Documents.Lifecycle.{Document, DocumentState, internal}
use capybara_ai.Documents.Search.{SearchDeps, SearchResult, search_documents, hits}
use capybara_ai.Documents.Search.Clearance.{IsShown, search_documents-IsShown}
use capybara_ai.Documents.Search.Rotated.{Misread, search_documents-rotate_key}
use capybara_ai.Admin.Encryption.{RotationResult, Vault, rotate_key}
use capybara_ai.Tests.Samples.{platform, ctx}
use capybara_ai.Tests.Vaults.{
  plain, plain-IsCipher, key_of, vault, version_1, draw, draw-IsDrawn, vault-IsConsistent,
}

-- The key of organisation 1 is 1 and the master key, which opens the chunks of `vault`.
abbrev deps : SearchDeps
deps = record {
  ciphers = plain;
  embed = λ text. some (1 ∷ []);
  nearest = λ vector rows. rows;
  master_key = drop 1 (key_of 1);
}

abbrev report : Document
report = record {
  id = 4;
  org_id = 1;
  uploaded_by = none;
  title = "Report";
  mime_type = "text/plain";
  storage_path = "p";
  size_bytes = 2;
  classification = internal;
  version = 1;
  parent_id = none;
  retention_date = none;
  legal_hold = false;
  deleted_at = none;
  created_at = 0;
  updated_at = 0;
}

abbrev shelf : DocumentState
shelf = record { documents = report ∷ []; access_log = []; next_id = 1; now = 5 }

abbrev report_hit : SearchResult
report_hit = record {
  chunk_id = 1;
  document_id = 4;
  document_title = "Report";
  content = 104 ∷ [];
  classification_rank = 1;
}

finds :
    (search_documents deps platform ctx "q" none none vault.chunks shelf).0 ≡ ok (report_hit ∷ [])
unfolding search_documents decrypt_secret
finds = refl

search_documents-IsShown_example : All (IsShown deps ctx vault.chunks shelf) (report_hit ∷ [])
search_documents-IsShown_example =
    search_documents-IsShown deps platform ctx "q" none none vault.chunks shelf (report_hit ∷ [])
      (λ P vector rows h. h) finds

search_documents-rotate_key_example :
    (r : RotationResult) × (t : Vault) × (rotate_key plain ctx (key_of 7) draw 50 platform vault
      ≡ some (ok r, t))
    × ((hits deps platform ctx (1 ∷ []) 10 t.chunks shelf ≡ [])
        ⊎ (is_ok (search_documents deps platform ctx "q" none none t.chunks shelf).0 ≡ false)
        ⊎ Misread deps platform ctx (key_of 2) (hits deps platform ctx (1 ∷ []) 10 t.chunks shelf))
search_documents-rotate_key_example =
    search_documents-rotate_key deps plain-IsCipher platform ctx (key_of 7) draw 50 draw-IsDrawn
      version_1 (key_of 1) vault "q" none none shelf (1 ∷ []) (λ P vector rows h. h)
      vault-IsConsistent (λ e. absurd (ground (arith, e))) refl
