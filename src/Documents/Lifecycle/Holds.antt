-- ===== src/Documents/Lifecycle/Holds.antt =====
-- What a deletion and a legal hold of src/documents/lifecycle.ts do.
use capybara_ai.Prelude.{
  ℕ, String, Bool, true, false, Option, none, some, [], ◌∷◌, ◌++◌, nat_eq, ◌≡◌, refl, ◌⊎◌,
}
use capybara_ai.Prelude.Table.{Memᴰ-update_where}
use capybara_ai.Prelude.Effect.{Result, ok, throw, settle}
use capybara_ai.Hash.{Platform}
use capybara_ai.Tenancy.{TenantContext}
use capybara_ai.Documents.Lifecycle.{
  Document, DocumentState, LegalHoldError, under_hold, is_visible, has_id, find_document,
  delete_found, delete_unless, delete_input, deleted, log_access, new_entry, soft_delete_document,
  set_legal_hold, held, can_hold,
}
use mathlib.Core.List.{Memᴰ}
use mathlib.Core.Option

-- What a deletion comes to, from the row that the caller sees under the id.
abbrev pub Deletes :
    Platform
    → TenantContext
    → ℕ
    → Option String
    → DocumentState
    → Option Document
    → Result LegalHoldError Bool × DocumentState
    → Type 0
Deletes p ctx id ip s none o = o ≡ (ok false, s)
Deletes p ctx id ip s (some d) o =
    ((d.legal_hold ≡ true) × (o ≡ (throw under_hold, s)))
    ⊎ ((d.legal_hold ≡ false)
        × (o.0 ≡ ok true)
        × (find_document ctx id o.1 ≡ some (deleted s.now d))
        × (o.1.access_log ≡ s.access_log ++ new_entry p (delete_input ctx id ip) s ∷ []))

-- A caller's deletions and holds leave the documents as they are that the policy hides from the caller:
-- those of other organisations and those above the caller's clearance.
pub operations_keep_unseen :
    (p : Platform) (ctx : TenantContext) (id : ℕ) (ip : Option String) (hold : Bool)
    (s : DocumentState) (d : Document)
    → is_visible ctx d ≡ false
    → Memᴰ d s.documents
    → Memᴰ d (soft_delete_document p ctx id ip s).1.documents
      × Memᴰ d (set_legal_hold ctx id hold s).1.documents
unfolding soft_delete_document log_access set_legal_hold
operations_keep_unseen p ctx id ip hold s d unseen m = (
  after_delete (find_document ctx id s),
  Memᴰ-update_where (can_hold ctx id) (held hold s.now) s.documents (rw unseen refl) m,
)
  where
    after_test : (b : Bool) → Memᴰ d (settle s (delete_unless p ctx id ip b s)).1.documents
    after_test true = m
    after_test false =
        Memᴰ-update_where (has_id ctx id) (deleted s.now) s.documents (rw unseen refl) m

    after_delete :
        (found : Option Document) → Memᴰ d (settle s (delete_found p ctx id ip found s)).1.documents
    after_delete none = m
    after_delete (some e) = after_test e.legal_hold
