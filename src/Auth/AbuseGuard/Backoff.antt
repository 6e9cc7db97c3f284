-- ===== src/Auth/AbuseGuard/Backoff.antt =====
-- One call of src/auth/abuseGuard.ts: the row that it leaves, the rows that it does not touch, and
-- failures while a lock is in force.
use capybara_ai.Prelude.{
  ℕ, ◌<◌, ◌≡◌, ◌≢◌, refl, sym, ap, ◌∙◌, inl, inr, String, true, false, Bool-cases, Option, none,
  some, Option-cases, List, [], ◌∷◌, ◌++◌, arith, eq_iff, All, if◌then◌else◌, string_eq,
}
use capybara_ai.Prelude.Table.{
  update_where, first_where-update_self, first_where-update_apart, first_where-delete_self,
  first_where-delete_apart, first_where-append_new, first_where-append_apart,
}
use mathlib.Core.Option
use capybara_ai.Hash.{Platform}
use capybara_ai.Auth.AbuseGuard.{
  LockoutPolicy, Lockout, AuthState, unlocked, in_force, status_at, found_status, next_lockout,
  first_lockout, is_for, normalize, find_lockout, check_lockout, report_lock, record_failure,
  record_success, clear_lockout,
}

-- A failure that is only noted, since a lock is in force.
abbrev pub noted : ℕ → Lockout → Lockout
noted now r = record r { last_failed_at = now; updated_at = now }

-- The row of an identifier after a failure, from the row before.
abbrev pub row_after : LockoutPolicy → ℕ → String → Option Lockout → Lockout
row_after policy now identifier none = first_lockout identifier now
row_after policy now identifier (some r) =
    if in_force now r.locked_until then noted now r else next_lockout policy now r

-- `SET` of all columns but the key.
abbrev pub set_columns : Lockout → Lockout → Lockout
set_columns new q = record new { identifier = q.identifier }

set_columns-next_lockout :
    (policy : LockoutPolicy) (now : ℕ) (r : Lockout)
    → set_columns (next_lockout policy now r) r ≡ next_lockout policy now r
unfolding next_lockout
set_columns-next_lockout policy now r = ground arith

report_lock-lockouts :
    (p : Platform) (now : ℕ) (r : Lockout) (s : AuthState)
    → (report_lock p now r s).1.lockouts ≡ s.lockouts
report_lock-lockouts p now r s = ground arith

module _ (p : Platform) (policy : LockoutPolicy) (now : ℕ) (raw : String) (s : AuthState) where
  lockouts_new :
      find_lockout p raw s ≡ none
      → (record_failure p policy now raw s).1.lockouts
        ≡ s.lockouts ++ first_lockout (normalize p raw) now ∷ []
  unfolding record_failure
  lockouts_new e = ground arith

  lockouts_held :
      (r : Lockout)
      → find_lockout p raw s ≡ some r
      → in_force now r.locked_until ≡ true
      → (record_failure p policy now raw s).1.lockouts
        ≡ update_where (is_for (normalize p raw)) (noted now) s.lockouts
  unfolding record_failure
  lockouts_held r e h = rw (e, record_failure) (rw h)

  lockouts_lapsed :
      (r : Lockout)
      → find_lockout p raw s ≡ some r
      → in_force now r.locked_until ≡ false
      → (record_failure p policy now raw s).1.lockouts
        ≡ update_where
            (is_for (normalize p raw))
            (set_columns (next_lockout policy now r))
            s.lockouts
  unfolding record_failure
  lockouts_lapsed r e h =
      rw (e, record_failure) (rw h (report_lock-lockouts p now (next_lockout policy now r) _))

  pub find_lockout-record_failure :
      find_lockout p raw (record_failure p policy now raw s).1
      ≡ some (row_after policy now (normalize p raw) (find_lockout p raw s))
  find_lockout-record_failure = elim (Option-cases (find_lockout p raw s)) [
    | inl e ↦ rw (lockouts_new e, e) (first_where-append_new _ s.lockouts _ e ((eq_iff _ _).1 refl))
    | inr (r, e) ↦ elim (Bool-cases (in_force now r.locked_until)) [
      | inl held ↦
          rw (lockouts_held r e held, e, held)
            (first_where-update_self _ _ s.lockouts (λ q h. h) ∙ ap (Option.map (noted now)) e)
      | inr lapsed ↦
          rw (lockouts_lapsed r e lapsed, e, lapsed)
            (first_where-update_self _ _ s.lockouts (λ q h. h)
              ∙ ap (Option.map (set_columns (next_lockout policy now r))) e
              ∙ ap some (set_columns-next_lockout policy now r))
    ]
  ]

  log_held :
      (r : Lockout)
      → find_lockout p raw s ≡ some r
      → in_force now r.locked_until ≡ true
      → (record_failure p policy now raw s).1.log ≡ s.log
  unfolding record_failure
  log_held r e h = rw (e, record_failure) (rw h)

  is_for_apart :
      (other : String)
      → normalize p raw ≢ normalize p other
      → (q : Lockout) → is_for (normalize p raw) q ≡ true
      → is_for (normalize p other) q ≡ false
  is_for_apart other ne q h =
      ground (arith, eq_iff q.identifier (normalize p raw), eq_iff q.identifier (normalize p other))

  find_lockout-record_failure_apart :
      (other : String)
      → normalize p raw ≢ normalize p other
      → find_lockout p other (record_failure p policy now raw s).1 ≡ find_lockout p other s
  find_lockout-record_failure_apart other ne =
      let apart = is_for_apart other ne in
      elim (Option-cases (find_lockout p raw s)) [
        | inl e ↦ rw (lockouts_new e) (
            first_where-append_apart _ s.lockouts _
              (apart (first_lockout (normalize p raw) now) ((eq_iff _ _).1 refl)))
        | inr (r, e) ↦ elim (Bool-cases (in_force now r.locked_until)) [
          | inl held ↦
              rw (lockouts_held r e held)
                (first_where-update_apart _ _ _ s.lockouts (λ q h. (apart q h, apart q h)))
          | inr lapsed ↦
              rw (lockouts_lapsed r e lapsed)
                (first_where-update_apart _ _ _ s.lockouts (λ q h. (apart q h, apart q h)))
        ]
      ]

-- A login attempt that fails, succeeds or is cleared for one account leaves the lock status of
-- every other account as it was, at any time; a success or a clearance leaves the account itself
-- unlocked. Accounts differ if their normalised addresses differ.
pub lockout_frame :
    (p : Platform) (policy : LockoutPolicy) (now later : ℕ) (raw other : String) (s : AuthState)
    → normalize p raw ≢ normalize p other
    → (check_lockout p later other (record_failure p policy now raw s).1
        ≡ check_lockout p later other s)
      × (check_lockout p later other (record_success p raw s) ≡ check_lockout p later other s)
      × (check_lockout p later other (clear_lockout p raw s).1 ≡ check_lockout p later other s)
      × (check_lockout p later raw (record_success p raw s) ≡ unlocked)
      × (check_lockout p later raw (clear_lockout p raw s).1 ≡ unlocked)
unfolding check_lockout record_success clear_lockout
lockout_frame p policy now later raw other s ne =
    let same = find_lockout-record_failure_apart p policy now raw s other ne in
    let kept = first_where-delete_apart _ _ s.lockouts (is_for_apart p policy now raw s other ne) in
    let gone = first_where-delete_self (is_for (normalize p raw)) s.lockouts in
    let status = found_status later in
    (ap status same, ap status kept, ap status kept, ap status gone, ap status gone)

module _ (p : Platform) (policy : LockoutPolicy) (raw : String) where
  -- The state after failures at the given times.
  abbrev pub fail_all : List ℕ → AuthState → AuthState
  fail_all [] s = s
  fail_all (t ∷ ts) s = fail_all ts (record_failure p policy t raw s).1

  held_row :
      (ts : List ℕ) (until : ℕ) (s : AuthState) (r : Lockout)
      → find_lockout p raw s ≡ some r
      → r.locked_until ≡ some until
      → All (λ t. t < until) ts
      → ((q : Lockout) × (find_lockout p raw (fail_all ts s) ≡ some q)
          × (q.locked_until ≡ some until)
          × ((fail_all ts s).log ≡ s.log))
  held_row [] until s r e u h = (r, e, u, refl)
  held_row (t ∷ ts) until s r e u (lt, h) =
      let force : in_force t r.locked_until ≡ true = rw u (ground arith) in
      let next = find_lockout-record_failure p policy t raw s in
      let next' : find_lockout p raw (record_failure p policy t raw s).1 ≡ some (noted t r) =
        next ∙ rw (e, force) refl in
      let (q, f, v, l) =
        held_row ts until (record_failure p policy t raw s).1 (noted t r) next' u h in
      (q, f, v, l ∙ log_held p policy t raw s r e force)

  -- Failures while a lock is in force, however many, neither extend nor lift it: the status at any
  -- time stays what it was, and no further lock is logged.
  pub fail_all-under_lock :
      (ts : List ℕ) (until now : ℕ) (s : AuthState) (r : Lockout)
      → find_lockout p raw s ≡ some r
      → r.locked_until ≡ some until
      → All (λ t. t < until) ts
      → (check_lockout p now raw (fail_all ts s) ≡ check_lockout p now raw s)
        × ((fail_all ts s).log ≡ s.log)
  unfolding check_lockout
  fail_all-under_lock ts until now s r e u h =
      let (q, f, v, l) = held_row ts until s r e u h in
      (ap (found_status now) f ∙ ap (status_at now) (v ∙ sym u) ∙ sym (ap (found_status now) e), l)
