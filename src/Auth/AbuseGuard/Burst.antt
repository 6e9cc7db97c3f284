-- ===== src/Auth/AbuseGuard/Burst.antt =====
-- Repeated failures within the window of src/auth/abuseGuard.ts lock the account.
use capybara_ai.Prelude.{ℕ, ◌≡◌, none}
use capybara_ai.Auth.AbuseGuard.{Lockout}

-- A row that counts `n` failures since `t₀`, with no lock, after `k` locks.
record Counts (t₀ n k : ℕ) (r : Lockout) : Type 0 where
  since : r.first_failed_at ≡ t₀
  failures : r.failed_count ≡ n
  locks : r.lockout_count ≡ k
  free : r.locked_until ≡ none
