-- ===== src/Tests/Files.antt =====
-- src/documents/lifecycle.ts and src/admin/storageQuota.ts at small inputs.
use capybara_ai.Prelude.{◌+◌, ◌≤◌, true, false, none, some, [], ◌∷◌, ◌≡◌, refl, ◌↔◌}
use capybara_ai.Prelude.Effect.{ok, throw, is_ok}
use capybara_ai.Tenancy.{TenantContext}
use capybara_ai.Documents.Lifecycle.{
  Document, DocumentState, internal, secret, soft_delete_document, set_legal_hold, under_hold,
}
use capybara_ai.Documents.Lifecycle.Holds.{operations_keep_unseen}
use capybara_ai.Documents.Quota.{
  hidden_bytes, enforce_storage_quota, get_storage_usage, org_bytes, enforce_storage_quota-bounds,
}
use capybara_ai.Tests.Samples.{platform, ctx}
use mathlib.Core.List.{Memᴰ}

abbrev memo : Document
memo = record {
  id = 3;
  org_id = 1;
  uploaded_by = some 5;
  title = "memo";
  mime_type = "text/plain";
  storage_path = "f3";
  size_bytes = 40;
  classification = internal;
  version = 1;
  parent_id = none;
  retention_date = none;
  legal_hold = false;
  deleted_at = none;
  created_at = 1;
  updated_at = 1;
}

abbrev dossier : Document
dossier = record memo { id = 4; title = "dossier"; size_bytes = 50; classification = secret }

abbrev files : DocumentState
files = record { documents = memo ∷ dossier ∷ []; access_log = []; next_id = 9; now = 7 }

abbrev cleared : TenantContext
cleared = record ctx { clearance = 3 }

operations_keep_unseen_example :
    Memᴰ dossier (soft_delete_document platform ctx 4 none files).1.documents
    × Memᴰ dossier (set_legal_hold ctx 4 true files).1.documents
operations_keep_unseen_example =
    operations_keep_unseen platform ctx 4 none true files dossier refl (Memᴰ.tail (Memᴰ.head refl))

hold_blocks_deletion :
    (soft_delete_document platform ctx 3 none (set_legal_hold ctx 3 true files).1).0
    ≡ throw under_hold
unfolding soft_delete_document set_legal_hold
hold_blocks_deletion = refl

admits :
    enforce_storage_quota cleared 10 120 files
    ≡ ok (record { used_bytes = 100; limit_bytes = 120; remaining_bytes = 20 })
unfolding enforce_storage_quota
admits = refl

enforce_storage_quota-bounds_example :
    (is_ok (enforce_storage_quota ctx 10 60 files) ≡ true)
    ↔ (org_bytes ctx files + 10 ≤ 60 + hidden_bytes ctx files)
enforce_storage_quota-bounds_example = enforce_storage_quota-bounds ctx 10 60 files

-- The limit is overrun by the dossier.
overrun : (is_ok (enforce_storage_quota ctx 10 60 files) ≡ true) × (hidden_bytes ctx files ≡ 50)
unfolding enforce_storage_quota
overrun = (refl, refl)

-- A caller who is not cleared for the dossier is admitted past the limit.
unseen_bytes_are_not_counted : get_storage_usage ctx files ≡ 40
unfolding get_storage_usage
unseen_bytes_are_not_counted = refl
