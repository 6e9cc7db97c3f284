-- ===== src/Tenancy.antt =====
-- Tenant scoping: src/tenancy/scope.ts. `withTenantContext` sets the organisation, the user and the
-- clearance that the row-level policies of src/db/sql read; a statement inside it sees the rows
-- that the table's policy lets through.
use capybara_ai.Prelude.{ℕ, Bool, ◌==◌, nat_eq}

pub record TenantContext : Type 0 where
  pub org_id : ℕ
  pub clearance : ℕ
  pub user_id : ℕ

-- `org_id = current_setting('app.current_org', true)::uuid`
abbrev pub in_tenant : TenantContext → ℕ → Bool
in_tenant ctx org_id = org_id == ctx.org_id
