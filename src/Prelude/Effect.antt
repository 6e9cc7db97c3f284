-- ===== src/Prelude/Effect.antt =====
-- An asynchronous method as a sequence of state changes that may end in a thrown error. The
-- state comes back after a throw too: what was written stays written, but for a transaction.
use mathlib.Core.Bool.{Bool, true, false}
use mathlib.Core.Option.{Option, none, some}
use capybara_ai.Prelude.Tests.{if◌then◌else◌}

pub data Result {ℓ κ} (E : Type ℓ) (A : Type κ) : Type (ℓ ⊔ κ) where
  ok : A → Result E A
  throw : E → Result E A

module _ {ℓ κ} {E : Type ℓ} {A : Type κ} where
  abbrev pub is_ok : Result E A → Bool
  is_ok (ok _) = true
  is_ok (throw _) = false

abbrev pub Action : Type 0 → Type 0 → Type 0 → Type 0
Action S E A = S → Result E A × S

module _ {S E A : Type 0} where
  abbrev pub pure : A → Action S E A
  pure a s = (ok a, s)

  abbrev pub raise : E → Action S E A
  raise e s = (throw e, s)

  abbrev pub gets : (S → A) → Action S E A
  gets f s = (ok (f s), s)

  -- The state before a transaction, and what the work in it came to.
  abbrev pub settle : S → Result E A × S → Result E A × S
  settle s (ok a, s') = (ok a, s')
  settle s (throw e, s') = (throw e, s)

  -- `db.transaction(f)`: an error inside rolls the state back and is thrown again.
  abbrev pub transaction : Action S E A → Action S E A
  transaction m s = settle s (m s)

abbrev pub modify : {S E : Type 0} → (S → S) → Action S E (Unit {0})
modify f s = (ok tt, f s)

abbrev pub resume : {S E A B : Type 0} → (A → Action S E B) → Result E A × S → Result E B × S
resume f (ok a, s) = f a s
resume f (throw e, s) = (throw e, s)

infixl 5 ◌>>=◌ ◌>>◌
abbrev pub ◌>>=◌ : {S E A B : Type 0} → Action S E A → (A → Action S E B) → Action S E B
◌>>=◌ m f s = resume f (m s)

abbrev pub ◌>>◌ : {S E A B : Type 0} → Action S E A → Action S E B → Action S E B
m >> k = m >>= λ _. k

abbrev pub raise_if : {S E : Type 0} → Bool → E → Action S E (Unit {0})
raise_if b e s = if b then (throw e, s) else (ok tt, s)

abbrev pub or_raise : {S E A : Type 0} → Option A → E → Action S E A
or_raise none e s = (throw e, s)
or_raise (some a) e s = (ok a, s)

-- What an action keeps true of the state, however it ends.
module _ {S E : Type 0} (P : S → Type 0) where
  abbrev pub Keeps : {A : Type 0} → Action S E A → Type 0
  Keeps m = (s : S) → P s → P (m s).1

  settle-keeps : {A : Type 0} (s : S) (o : Result E A × S) → P s → P o.1 → P (settle s o).1
  settle-keeps s (ok a, s') h k = k
  settle-keeps s (throw e, s') h k = h

  resume-keeps :
      {A B : Type 0} (f : A → Action S E B) (o : Result E A × S)
      → ((a : A) → Keeps (f a))
      → P o.1
      → P (resume f o).1
  resume-keeps f (ok a, s) k h = k a s h
  resume-keeps f (throw e, s) k h = h

  pub transaction-Keeps : {A : Type 0} (m : Action S E A) → Keeps m → Keeps (transaction m)
  transaction-Keeps m k s h = settle-keeps s (m s) h (k s h)

  pub >>=-Keeps :
      {A B : Type 0} (m : Action S E A) (f : A → Action S E B)
      → Keeps m
      → ((a : A) → Keeps (f a))
      → Keeps (m >>= f)
  >>=-Keeps m f k l s h = resume-keeps f (m s) l (k s h)
