-- ===== src/Auth/Mfa/Codes.antt =====
-- A backup code of src/auth/mfa.ts is spent by its use.
use capybara_ai.Prelude.{
  ℕ, ◌+◌, ◌≤◌, ◌<◌, String, Bool, true, false, Bool-cases, Option, none, some, List, [], ◌∷◌, ◌==◌,
  nat_eq, ◌≡◌, refl, ap, arith, inl, inr,
}
use capybara_ai.Prelude.Table.{update_where, select_where, count_where}
use capybara_ai.Auth.Accounts.{BackupCode, Accounts}
use capybara_ai.Auth.Mfa.{Otp, is_unused, matching_code, spend, verify_backup_code}

abbrev pub unused_codes : (otp : Otp) → ℕ → Accounts → ℕ
unused_codes otp id s = count_where (is_unused otp id) s.codes

abbrev pub used : ℕ → BackupCode → BackupCode
used now d = record d { used_at = some now }

update-fewer :
    (otp : Otp) (id now : ℕ) (q : BackupCode → Bool) (rows : List BackupCode)
    → count_where (is_unused otp id) (update_where q (used now) rows)
      ≤ count_where (is_unused otp id) rows
update-fewer otp id now q [] = omega arith
update-fewer otp id now q (c ∷ rows) = ground (arith, update-fewer otp id now q rows)

abbrev id_or_0 : Option BackupCode → ℕ
id_or_0 none = 0
id_or_0 (some c) = c.id

-- The update by id spends the row that was found, and may be others with its id.
spent-fewer :
    (otp : Otp) (id now : ℕ) (code : String) (rows : List BackupCode) (c : BackupCode)
    → matching_code otp code (select_where (is_unused otp id) rows) ≡ some c
    → count_where
        (is_unused otp id)
        (update_where (λ (d : BackupCode). d.id == c.id) (used now) rows)
      < count_where (is_unused otp id) rows
spent-fewer otp id now code [] c e = absurd (cc e)
spent-fewer otp id now code (r ∷ rows) c e =
    let rest = update-fewer otp id now (λ (d : BackupCode). d.id == c.id) rows in
    elim (Bool-cases (is_unused otp id r)) [
      | inl unused ↦ elim (Bool-cases (otp.verify_password r.code_hash code)) [
        | inl fits ↦
            let first : some r ≡ some c = rw (unused, fits) at e in
            let same : r.id ≡ c.id = ap (λ o. id_or_0 o) first in ground (arith, rest)
        | inr other ↦
            let later = spent-fewer otp id now code rows c (rw (unused, other) at e) in
            ground (arith, later)
      ]
      | inr spent ↦
          let later = spent-fewer otp id now code rows c (rw spent at e) in ground (arith, later)
    ]

abbrev pub count_if : Bool → ℕ → ℕ
count_if true n = n + 1
count_if false n = n

-- The number of attempts with backup codes that are accepted, and the state after all attempts; an
-- attempt is a time and a code.
abbrev pub try_codes : (otp : Otp) → ℕ → List (ℕ × String) → Accounts → ℕ × Accounts
try_codes otp id [] s = (0, s)
try_codes otp id ((now, code) ∷ rest) s =
    let (done, t) = verify_backup_code otp now id code s in
    let (n, after) = try_codes otp id rest t in (count_if done n, after)

spend-fewer :
    (otp : Otp) (id now : ℕ) (code : String) (s : Accounts) (o : Option BackupCode)
    → matching_code otp code (select_where (is_unused otp id) s.codes) ≡ o
    → count_if (spend otp now s o).0 (unused_codes otp id (spend otp now s o).1)
      ≤ unused_codes otp id s
spend-fewer otp id now code s none e = omega arith
spend-fewer otp id now code s (some c) e = omega (arith, spent-fewer otp id now code s.codes c e)

one_more : (b : Bool) (n m k l : ℕ) → count_if b m ≤ k → n + l ≤ m → count_if b n + l ≤ k
one_more true n m k l h h' = omega arith
one_more false n m k l h h' = omega arith

-- Over any sequence of attempts with backup codes by a user, each accepted attempt spends at least one
-- unused code: the accepted ones and the codes left unused are together at most the codes that were
-- unused before. So a set of codes admits no more logins than it has codes.
pub try_codes-spends :
    (otp : Otp) (id : ℕ) (attempts : List (ℕ × String)) (s : Accounts)
    → let (accepted, after) = try_codes otp id attempts s in
      accepted + unused_codes otp id after ≤ unused_codes otp id s
unfolding verify_backup_code
try_codes-spends otp id [] s = omega arith
try_codes-spends otp id ((now, code) ∷ rest) s =
    let (done, t) = verify_backup_code otp now id code s in
    let later = try_codes otp id rest t in
    one_more done later.0 (unused_codes otp id t) (unused_codes otp id s)
      (unused_codes otp id later.1)
      (spend-fewer otp id now code s
        (matching_code otp code (select_where (is_unused otp id) s.codes)) refl)
      (try_codes-spends otp id rest t)
