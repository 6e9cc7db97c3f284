-- ===== src/Auth/Mfa/Replay.antt =====
-- A one-time code of src/auth/mfa.ts is accepted once.
use capybara_ai.Prelude.{
  ℕ, ◌+◌, ◌-◌, ◌/◌, ◌≤◌, sym, String, Bool, true, false, Bool-cases, Option, none, some, List, [],
  ◌∷◌, nat_eq, ◌≡◌, refl, ◌∙◌, ap, arith, inl, inr,
}
use capybara_ai.Prelude.Table.{first_where-update_self, first_where_sound}
use capybara_ai.Prelude.Effect.{Result, ok, throw}
use mathlib.Core.Option
use capybara_ai.Auth.Accounts.{User, Accounts}
use capybara_ai.Auth.Session.{find_user}
use capybara_ai.Auth.Mfa.{
  Otp, Delta, behind, same, ahead, shifted, match_step, is_replay, is_user, write_step, read_step,
  accept_step, with_secret, with_user, verify_totp,
}

abbrev pub first_free : Option ℕ → ℕ
first_free none = 0
first_free (some last) = last + 1

-- The first step that the account has not used.
abbrev pub first_free_step : Option User → ℕ
first_free_step none = 0
first_free_step (some u) = first_free u.mfa_last_step

-- The numbers are there, rise strictly, and start from `n` on.
abbrev pub IsAscending : ℕ → List (Option ℕ) → Type 0
IsAscending n [] = Unit
IsAscending n (none ∷ xs) = ⊥
IsAscending n (some x ∷ xs) = (n ≤ x) × IsAscending (x + 1) xs

-- The step that a code is of which the package found so far from the step `at` of the clock.
abbrev pub step_of_code : ℕ → Option Delta → Option ℕ
step_of_code at none = none
step_of_code at (some behind) = some (at - 1)
step_of_code at (some same) = some at
step_of_code at (some ahead) = some (at + 1)

abbrev pub code_under : Otp → ℕ → String → Result String String → Option ℕ
code_under otp at token (throw e) = none
code_under otp at token (ok secret) = step_of_code at (otp.validate secret token at)

abbrev pub code_sealed : Otp → ℕ → String → Option String → Option ℕ
code_sealed otp at token none = none
code_sealed otp at token (some sealed) = code_under otp at token (otp.decrypt_secret sealed)

-- The step that a code is of under the secret of the user, at a time in milliseconds; a step takes thirty seconds.
abbrev pub code_step : Otp → ℕ → String → Option User → Option ℕ
code_step otp now token none = none
code_step otp now token (some u) = code_sealed otp (now / 1000 / 30) token u.mfa_secret

abbrev pub step_if : {E : Type 0} → Result E Bool → Option ℕ → List (Option ℕ) → List (Option ℕ)
step_if (ok true) step later = step ∷ later
step_if (ok false) step later = later
step_if (throw e) step later = later

module _ (otp : Otp) (id : ℕ) where
  -- The steps of the codes that are accepted, in a sequence of attempts; an attempt is a time and a code.
  abbrev pub accepted_steps : List (ℕ × String) → Accounts → List (Option ℕ)
  accepted_steps [] s = []
  accepted_steps ((now, token) ∷ rest) s =
      let (r, t) = verify_totp otp now id token s in
      step_if r (code_step otp now token (find_user id s)) (accepted_steps rest t)

  -- What one attempt does to the user's row `u`.
  abbrev Attempted : Option User → Option ℕ → Result String Bool × Accounts → Type 0
  Attempted u code (ok true, t) =
      (v : User) × (step : ℕ) × (find_user id t ≡ some v)
      × (code ≡ some step)
      × (v.mfa_last_step ≡ some step)
      × (first_free_step u ≤ step)
  Attempted u code (ok false, t) = find_user id t ≡ u
  Attempted u code (throw e, t) = find_user id t ≡ u

  unseen_free : (o : Option ℕ) (step : ℕ) → is_replay o step ≡ false → first_free o ≤ step
  unseen_free none step h = omega arith
  unseen_free (some last) step h = ground arith

  written :
      (step k : ℕ) (u : User) (s : Accounts)
      → k ≡ id
      → find_user id s ≡ some u
      → find_user id (write_step k step s) ≡ some (record u { mfa_last_step = some step })
  written step k u s own found =
      let f = λ (v : User). record v { mfa_last_step = some step } in
      rw own (first_where-update_self (is_user id) f s.users (λ r h. h) ∙ ap (Option.map f) found)

  accept_step-Attempted :
      (u : User) (m : Result String (Option ℕ)) (code : Option ℕ) (s : Accounts)
      → find_user id s ≡ some u
      → ((step : ℕ) → m ≡ ok (some step) → code ≡ some step)
      → Attempted (some u) code (accept_step otp u m s)
  accept_step-Attempted u (throw e) code s found same_step = found
  accept_step-Attempted u (ok none) code s found same_step = found
  accept_step-Attempted u (ok (some step)) code s found same_step =
      elim (Bool-cases (is_replay u.mfa_last_step step)) [
        | inl replayed ↦ rw replayed found
        | inr unseen ↦
            let own : u.id ≡ id = ground (arith, first_where_sound (is_user id) s.users u found) in
            rw unseen (
              record u { mfa_last_step = some step },
              step,
              written step u.id u s own found,
              same_step step refl,
              refl,
              unseen_free u.mfa_last_step step unseen,
            )
      ]

  -- The step that the source computes is that of the code.
  shifted-step_of_code : (at : ℕ) (d : Option Delta) → shifted at d ≡ step_of_code at d
  shifted-step_of_code at none = refl
  shifted-step_of_code at (some behind) = refl
  shifted-step_of_code at (some same) = refl
  shifted-step_of_code at (some ahead) = refl

  read_step-code_under :
      (now : ℕ) (token : String) (r : Result String String) (step : ℕ)
      → read_step otp now token r ≡ ok (some step)
      → code_under otp (now / 1000 / 30) token r ≡ some step
  unfolding match_step
  read_step-code_under now token (throw e) step h = absurd (cc)
  read_step-code_under now token (ok secret) step h =
      let at = now / 1000 / 30 in
      sym (shifted-step_of_code at (otp.validate secret token at)) ∙ cc h

  with_secret-Attempted :
      (now : ℕ) (token : String) (u : User) (b : Bool) (secret : Option String) (s : Accounts)
      → find_user id s ≡ some u
      → Attempted
          (some u)
          (code_sealed otp (now / 1000 / 30) token secret)
          (with_secret otp now token u b secret s)
  with_secret-Attempted now token u true (some sealed) s found =
      accept_step-Attempted u (read_step otp now token (otp.decrypt_secret sealed)) _ s found
        (λ step h. read_step-code_under now token (otp.decrypt_secret sealed) step h)
  with_secret-Attempted now token u true none s found = found
  with_secret-Attempted now token u false secret s found = found

  with_user-Attempted :
      (now : ℕ) (token : String) (u : Option User) (s : Accounts)
      → find_user id s ≡ u
      → Attempted u (code_step otp now token u) (with_user otp now token u s)
  with_user-Attempted now token none s found = found
  with_user-Attempted now token (some u) s found =
      with_secret-Attempted now token u u.mfa_enabled u.mfa_secret s found

  step_if-IsAscending :
      (u : Option User) (code : Option ℕ) (o : Result String Bool × Accounts)
      (later : List (Option ℕ))
      → Attempted u code o
      → IsAscending (first_free_step (find_user id o.1)) later
      → IsAscending (first_free_step u) (step_if o.0 code later)
  step_if-IsAscending u code (ok true, t) later (v, step, found, own, last, free) h =
      rw own (free, rw (found, last) at h)
  step_if-IsAscending u code (ok false, t) later kept h = rw kept at h
  step_if-IsAscending u code (throw e, t) later kept h = rw kept at h

  -- Over any sequence of attempts by a user, at any times and with any codes, every code that is accepted
  -- is of a step under the user's secret, and the steps of the accepted codes rise strictly, from a
  -- step that the account has not used: no two logins are accepted by codes of one step, nor by a code
  -- of a step before one that was used. A code one step off the clock is of the step before or after.
  pub accepted_steps-IsAscending :
      (attempts : List (ℕ × String)) (s : Accounts)
      → IsAscending (first_free_step (find_user id s)) (accepted_steps attempts s)
  unfolding verify_totp
  accepted_steps-IsAscending [] s = tt
  accepted_steps-IsAscending ((now, token) ∷ rest) s =
      let o = verify_totp otp now id token s in
      step_if-IsAscending (find_user id s) (code_step otp now token (find_user id s)) o
        (accepted_steps rest o.1) (with_user-Attempted now token (find_user id s) s refl)
        (accepted_steps-IsAscending rest o.1)
