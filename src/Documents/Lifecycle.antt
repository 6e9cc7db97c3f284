-- ===== src/Documents/Lifecycle.antt =====
-- The deletion and the legal hold of a document: src/documents/lifecycle.ts and accessLog.ts over the
-- tables of src/db/schema/documents.ts and documentAccessLog.ts, with the policies of
-- src/db/sql/0004_documents.sql. The state holds the clock and the supply of ids.
pub mod Holds
use capybara_ai.Prelude.{
  ℕ, ◌+◌, String, Bool, true, false, Option, none, some, List, [], ◌∷◌, ◌++◌, length, ltb, leb,
  if◌then◌else◌, ◌==◌, nat_eq, string_eq, ◌&&◌, ◌||◌, is_none, get_or_else,
}
use capybara_ai.Prelude.Table.{first_where, select_where, update_where}
use capybara_ai.Prelude.Effect.{Result, ok, throw, Action, transaction}
use capybara_ai.Hash.{Platform}
use capybara_ai.Tenancy.{TenantContext, in_tenant}
use mathlib.Core.Option

pub data Classification : Type 0 where
  public internal confidential secret : Classification

abbrev pub classification_rank : Classification → ℕ
classification_rank public = 0
classification_rank internal = 1
classification_rank confidential = 2
classification_rank secret = 3

pub record Document : Type 0 where
  pub id : ℕ
  pub org_id : ℕ
  pub uploaded_by : Option ℕ
  pub title : String
  pub mime_type : String
  pub storage_path : String
  pub size_bytes : ℕ
  pub classification : Classification
  pub version : ℕ
  pub parent_id : Option ℕ
  pub retention_date : Option ℕ
  pub legal_hold : Bool
  pub deleted_at : Option ℕ
  pub created_at : ℕ
  pub updated_at : ℕ

pub data DocumentAction : Type 0 where
  upload view download delete query : DocumentAction

pub record AccessEntry : Type 0 where
  pub id : ℕ
  pub org_id : ℕ
  pub document_id : Option ℕ
  pub user_id : Option ℕ
  pub action : DocumentAction
  pub query_text_hash : Option String
  pub ip_address : Option String
  pub created_at : ℕ

pub record AccessLogInput : Type 0 where
  pub org_id : ℕ
  pub action : DocumentAction
  pub document_id : Option ℕ
  pub user_id : Option ℕ
  pub query_text : Option String
  pub ip : Option String

pub record DocumentState : Type 0 where
  pub documents : List Document
  pub access_log : List AccessEntry
  pub next_id : ℕ
  pub now : ℕ

pub data LegalHoldError : Type 0 where
  under_hold : LegalHoldError

-- The policy `documents_isolation`.
abbrev pub is_visible : TenantContext → Document → Bool
is_visible ctx d =
    in_tenant ctx d.org_id && leb (classification_rank d.classification) ctx.clearance

abbrev pub has_id : TenantContext → ℕ → Document → Bool
has_id ctx id d = is_visible ctx d && d.id == id

abbrev pub hash_if_any : Platform → Option String → Option String
hash_if_any p none = none
hash_if_any p (some text) = if text == "" then none else some (p.sha256_hex text)

abbrev pub new_entry : Platform → AccessLogInput → DocumentState → AccessEntry
new_entry p input s = record {
  id = s.next_id;
  org_id = input.org_id;
  document_id = input.document_id;
  user_id = input.user_id;
  action = input.action;
  query_text_hash = hash_if_any p input.query_text;
  ip_address = input.ip;
  created_at = s.now;
}

-- `logAccess`
unfoldable pub log_access : Platform → AccessLogInput → DocumentState → DocumentState
log_access p input s = record s {
  access_log = s.access_log ++ new_entry p input s ∷ [];
  next_id = s.next_id + 1;
}

abbrev pub delete_input : TenantContext → ℕ → Option String → AccessLogInput
delete_input ctx id ip = record {
  org_id = ctx.org_id;
  action = delete;
  document_id = some id;
  user_id = some ctx.user_id;
  query_text = none;
  ip = ip;
}

abbrev pub deleted : ℕ → Document → Document
deleted now d = record d { deleted_at = some now; updated_at = now }

abbrev pub mark_deleted : TenantContext → ℕ → DocumentState → DocumentState
mark_deleted ctx id s = record s {
  documents = update_where (has_id ctx id) (deleted s.now) s.documents;
}

-- From the test of the legal hold on.
abbrev pub delete_unless :
    Platform → TenantContext → ℕ → Option String → Bool → Action DocumentState LegalHoldError Bool
delete_unless p ctx id ip true s = (throw under_hold, s)
delete_unless p ctx id ip false s =
    (ok true, log_access p (delete_input ctx id ip) (mark_deleted ctx id s))

-- The rest of the transaction of `softDeleteDocument`, from the row that the query found.
abbrev pub delete_found :
    Platform
    → TenantContext
    → ℕ
    → Option String
    → Option Document
    → Action DocumentState LegalHoldError Bool
delete_found p ctx id ip none s = (ok false, s)
delete_found p ctx id ip (some d) s = delete_unless p ctx id ip d.legal_hold s

abbrev pub find_document : TenantContext → ℕ → DocumentState → Option Document
find_document ctx id s = first_where (has_id ctx id) s.documents

unfoldable pub soft_delete_document :
    Platform → TenantContext → ℕ → Option String → Action DocumentState LegalHoldError Bool
unfolding log_access
soft_delete_document p ctx id ip =
    transaction (λ s. delete_found p ctx id ip (find_document ctx id s) s)

abbrev pub can_hold : TenantContext → ℕ → Document → Bool
can_hold ctx id d = has_id ctx id d && is_none d.deleted_at

abbrev pub held : Bool → ℕ → Document → Document
held hold now d = record d { legal_hold = hold; updated_at = now }

unfoldable pub set_legal_hold : TenantContext → ℕ → Bool → DocumentState → Bool × DocumentState
set_legal_hold ctx id hold s = (
  ltb 0 (length (select_where (can_hold ctx id) s.documents)),
  record s { documents = update_where (can_hold ctx id) (held hold s.now) s.documents },
)

abbrev pub root_of : Document → ℕ
root_of d = get_or_else d.parent_id d.id

-- `parent_id = root` is not true of a row without a parent.
abbrev pub has_parent : ℕ → Option ℕ → Bool
has_parent root none = false
has_parent root (some parent) = parent == root

-- The rows that `getVersions` selects, without the order by version.
abbrev pub versions_of : TenantContext → DocumentState → Option Document → List Document
versions_of ctx s none = []
versions_of ctx s (some d) =
    select_where
      (λ (e : Document).
        is_visible ctx e && (e.id == root_of d || has_parent (root_of d) e.parent_id))
      s.documents

unfoldable pub get_versions : TenantContext → ℕ → DocumentState → List Document
get_versions ctx id s = versions_of ctx s (find_document ctx id s)
