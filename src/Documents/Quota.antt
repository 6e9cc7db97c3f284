-- ===== src/Documents/Quota.antt =====
-- The storage quota of src/admin/storageQuota.ts.
use capybara_ai.Prelude.{
  ℕ, ◌+◌, ◌-◌, ◌≤◌, Bool, true, Bool-cases, List, [], ◌∷◌, ltb, if◌then◌else◌, ◌&&◌, is_none, ◌≡◌,
  refl, arith, inl, inr, nat_eq, ◌↔◌, ltb→lt, ◌<◌,
}
use capybara_ai.Prelude.Effect.{Result, ok, throw, is_ok}
use capybara_ai.Tenancy.{TenantContext, in_tenant}
use capybara_ai.Documents.Lifecycle.{Document, DocumentState, is_visible, classification_rank}

abbrev pub sum_bytes : (Document → Bool) → List Document → ℕ
sum_bytes q [] = 0
sum_bytes q (d ∷ ds) = if q d then d.size_bytes + sum_bytes q ds else sum_bytes q ds

-- `getStorageUsage`: the query runs under the policy of the table.
unfoldable pub get_storage_usage : TenantContext → DocumentState → ℕ
get_storage_usage ctx s = sum_bytes (λ d. is_visible ctx d && is_none d.deleted_at) s.documents

pub record QuotaStatus : Type 0 where
  pub used_bytes : ℕ
  pub limit_bytes : ℕ
  pub remaining_bytes : ℕ

pub data QuotaError : Type 0 where
  exceeded : ℕ → ℕ → ℕ → QuotaError

abbrev pub status_for : ℕ → ℕ → ℕ → QuotaStatus
status_for used add_bytes limit_bytes = record {
  used_bytes = used + add_bytes;
  limit_bytes = limit_bytes;
  remaining_bytes = limit_bytes - used - add_bytes;
}

unfoldable pub enforce_storage_quota :
    TenantContext → ℕ → ℕ → DocumentState → Result QuotaError QuotaStatus
unfolding get_storage_usage
enforce_storage_quota ctx add_bytes limit_bytes s =
    let used = get_storage_usage ctx s in
    if ltb limit_bytes (used + add_bytes)
    then throw (exceeded used limit_bytes add_bytes)
    else ok (status_for used add_bytes limit_bytes)

-- What the documents of the organisation take, whoever may see them.
abbrev pub org_bytes : TenantContext → DocumentState → ℕ
org_bytes ctx s = sum_bytes (λ d. in_tenant ctx d.org_id && is_none d.deleted_at) s.documents

-- What those of its documents take that the caller is not cleared for.
abbrev pub hidden_bytes : TenantContext → DocumentState → ℕ
hidden_bytes ctx s =
    sum_bytes
      (λ d.
        in_tenant ctx d.org_id
        && is_none d.deleted_at
        && ltb ctx.clearance (classification_rank d.classification))
      s.documents

usage-hidden :
    (ctx : TenantContext) (ds : List Document)
    → sum_bytes (λ d. in_tenant ctx d.org_id && is_none d.deleted_at) ds
      ≡ sum_bytes (λ d. is_visible ctx d && is_none d.deleted_at) ds
        + sum_bytes
            (λ d.
              in_tenant ctx d.org_id
              && is_none d.deleted_at
              && ltb ctx.clearance (classification_rank d.classification))
            ds
usage-hidden ctx [] = refl
usage-hidden ctx (d ∷ ds) = let rest = usage-hidden ctx ds in ground arith

-- An upload is admitted exactly when what the organisation stores, whoever may see it, and the upload stay
-- within the limit and what is stored of documents above the clearance of the caller: the quota does
-- not see these, and overruns the limit by as much at most.
pub enforce_storage_quota-bounds :
    (ctx : TenantContext) (add_bytes limit_bytes : ℕ) (s : DocumentState)
    → (is_ok (enforce_storage_quota ctx add_bytes limit_bytes s) ≡ true)
      ↔ (org_bytes ctx s + add_bytes ≤ limit_bytes + hidden_bytes ctx s)
unfolding enforce_storage_quota get_storage_usage
enforce_storage_quota-bounds ctx add_bytes limit_bytes s =
    let used = get_storage_usage ctx s in
    let parts : org_bytes ctx s ≡ used + hidden_bytes ctx s = usage-hidden ctx s.documents in
    elim (Bool-cases (ltb limit_bytes (used + add_bytes))) [
      | inl over ↦
          let above : limit_bytes < used + add_bytes = ltb→lt limit_bytes (used + add_bytes) over in
          (
            λ passes. absurd (cc (rw over at passes)),
            λ fits. absurd (omega (arith, parts, fits, above)),
          )
      | inr within ↦
          let below : used + add_bytes ≤ limit_bytes = ground (arith, within) in
          (λ passes. omega (arith, parts, below), λ fits. rw within refl)
    ]
