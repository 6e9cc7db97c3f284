-- ===== src/Prelude/Table.antt =====
-- SQL statements over a table, the list of its rows in the order in which a query without
-- ORDER BY returns them. A condition is a Boolean test on the row.
use mathlib.Core.List.{Memᴰ}
use Prim.Native.Nat.{ℕ, suc}
use mathlib.Core.Path.{◌≡◌, refl, subst}
use mathlib.Core.Logic.{inl, inr}
use mathlib.Core.Option
use mathlib.Core.Bool.{Bool, true, false}
use mathlib.Core.Option.{Option, none, some, some-injective}
use mathlib.Core.List.{List, [], ◌∷◌, ◌++◌}
use native.Mathlib.Omega.{arith}
use capybara_ai.Prelude.Tests.{if◌then◌else◌, Bool-cases}
use capybara_ai.Prelude.Lists.{length, All}

module _ {ℓ} {A : Type ℓ} where
  -- SELECT … WHERE p
  abbrev pub select_where : (A → Bool) → List A → List A
  select_where p [] = []
  select_where p (r ∷ rs) = if p r then r ∷ select_where p rs else select_where p rs

  -- SELECT … WHERE p LIMIT 1
  abbrev pub first_where : (A → Bool) → List A → Option A
  first_where p [] = none
  first_where p (r ∷ rs) = if p r then some r else first_where p rs

  -- UPDATE … SET f WHERE p
  abbrev pub update_where : (A → Bool) → (A → A) → List A → List A
  update_where p f [] = []
  update_where p f (r ∷ rs) = (if p r then f r else r) ∷ update_where p f rs

  -- DELETE … WHERE p
  abbrev pub delete_where : (A → Bool) → List A → List A
  delete_where p [] = []
  delete_where p (r ∷ rs) = if p r then delete_where p rs else r ∷ delete_where p rs

  -- SELECT count(*) … WHERE p
  abbrev pub count_where : (A → Bool) → List A → ℕ
  count_where p [] = 0
  count_where p (r ∷ rs) = if p r then suc (count_where p rs) else count_where p rs

  -- ORDER BY id DESC LIMIT 1, on a table whose rows stand in the order of a serial id
  abbrev pub last_row : List A → Option A
  last_row [] = none
  last_row (r ∷ []) = some r
  last_row (r ∷ s ∷ rs) = last_row (s ∷ rs)

  pub first_where_sound :
      (p : A → Bool) (rs : List A) (r : A) → first_where p rs ≡ some r → p r ≡ true
  first_where_sound p [] r e = cc
  first_where_sound p (s ∷ rs) r e = ground (arith, first_where_sound p rs r)

  pub first_where-none :
      (p : A → Bool) (rs : List A) → first_where p rs ≡ none → All (λ r. p r ≡ false) rs
  first_where-none p [] e = tt
  first_where-none p (s ∷ rs) e = ground (arith, first_where-none p rs)

  pub first_where-of_None :
      (p : A → Bool) (rs : List A) → All (λ r. p r ≡ false) rs → first_where p rs ≡ none
  first_where-of_None p [] h = refl
  first_where-of_None p (s ∷ rs) h = ground (arith, first_where-of_None p rs h.1)

  pub last_row-append : (rs : List A) (r : A) → last_row (rs ++ r ∷ []) ≡ some r
  last_row-append [] r = refl
  last_row-append (s ∷ []) r = refl
  last_row-append (s ∷ t ∷ rs) r = last_row-append (t ∷ rs) r

  pub length-update_where :
      (p : A → Bool) (f : A → A) (rs : List A) → length (update_where p f rs) ≡ length rs
  length-update_where p f [] = refl
  length-update_where p f (r ∷ rs) = omega (arith, length-update_where p f rs)

  -- Where an update does not touch what is looked for, the row that is found is the same one, updated.
  pub first_where-update_same :
      (p q : A → Bool) (f : A → A) (rs : List A)
      → ((r : A) → p (f r) ≡ p r)
      → first_where p (update_where q f rs)
        ≡ Option.map (λ r. if q r then f r else r) (first_where p rs)
  first_where-update_same p q f [] h = refl
  first_where-update_same p q f (r ∷ rs) h = ground (arith, h r, first_where-update_same p q f rs h)

  pub first_where-update_self :
      (p : A → Bool) (f : A → A) (rs : List A)
      → ((r : A) → p r ≡ true → p (f r) ≡ true)
      → first_where p (update_where p f rs) ≡ Option.map f (first_where p rs)
  first_where-update_self p f [] h = refl
  first_where-update_self p f (r ∷ rs) h = ground (arith, h r, first_where-update_self p f rs h)

  pub first_where-update_apart :
      (p q : A → Bool) (f : A → A) (rs : List A)
      → ((r : A) → p r ≡ true → (q r ≡ false) × (q (f r) ≡ false))
      → first_where q (update_where p f rs) ≡ first_where q rs
  first_where-update_apart p q f [] h = refl
  first_where-update_apart p q f (r ∷ rs) h =
      ground (arith, h r, first_where-update_apart p q f rs h)

  -- The row that is found stays so, where the update leaves it and matches no new row.
  pub first_where-update_miss :
      (p q : A → Bool) (f : A → A) (rs : List A) (r : A)
      → ((s : A) → q s ≡ true → p (f s) ≡ true → p s ≡ true)
      → first_where p rs ≡ some r
      → q r ≡ false
      → first_where p (update_where q f rs) ≡ some r
  first_where-update_miss p q f [] r new e h = absurd (cc)
  first_where-update_miss p q f (s ∷ rs) r new e h = elim (Bool-cases (p s)) [
    | inl found ↦
        let same : some s ≡ some r = rw found at e in
        let it : s ≡ r = some-injective s r same in rw it (rw (h, ← it, found) refl)
    | inr passed ↦ elim (Bool-cases (q s)) [
      | inl hit ↦ elim (Bool-cases (p (f s))) [
        | inl fresh ↦ absurd (cc (new s hit fresh))
        | inr still ↦ rw (hit, still) (first_where-update_miss p q f rs r new (rw passed at e) h)
      ]
      | inr miss ↦ rw (miss, passed) (first_where-update_miss p q f rs r new (rw passed at e) h)
    ]
  ]

  pub first_where-delete_self :
      (p : A → Bool) (rs : List A) → first_where p (delete_where p rs) ≡ none
  first_where-delete_self p [] = refl
  first_where-delete_self p (r ∷ rs) = ground (arith, first_where-delete_self p rs)

  pub first_where-delete_apart :
      (p q : A → Bool) (rs : List A)
      → ((r : A) → p r ≡ true → q r ≡ false)
      → first_where q (delete_where p rs) ≡ first_where q rs
  first_where-delete_apart p q [] h = refl
  first_where-delete_apart p q (r ∷ rs) h = ground (arith, h r, first_where-delete_apart p q rs h)

  pub first_where-append_new :
      (p : A → Bool) (rs : List A) (r : A)
      → first_where p rs ≡ none
      → p r ≡ true
      → first_where p (rs ++ r ∷ []) ≡ some r
  first_where-append_new p [] r e h = rw h
  first_where-append_new p (s ∷ rs) r e h = ground (arith, first_where-append_new p rs r)

  pub first_where-append_apart :
      (p : A → Bool) (rs : List A) (r : A)
      → p r ≡ false
      → first_where p (rs ++ r ∷ []) ≡ first_where p rs
  first_where-append_apart p [] r h = rw h
  first_where-append_apart p (s ∷ rs) r h = ground (arith, first_where-append_apart p rs r h)

  -- A property that an update keeps and that the rows had, every row has after it.
  pub All-update_where {κ} :
      (P : A → Type κ) (p : A → Bool) (f : A → A) (rs : List A)
      → ((r : A) → p r ≡ true → P r → P (f r))
      → All P rs
      → All P (update_where p f rs)
  All-update_where P p f [] keep h = tt
  All-update_where P p f (r ∷ rs) keep h = elim (Bool-cases (p r)) [
    | inl e ↦ rw e (keep r e h.0, All-update_where P p f rs keep h.1)
    | inr e ↦ rw e (h.0, All-update_where P p f rs keep h.1)
  ]

  pub All-delete_where {κ} :
      (P : A → Type κ) (p : A → Bool) (rs : List A) → All P rs → All P (delete_where p rs)
  All-delete_where P p [] h = tt
  All-delete_where P p (r ∷ rs) h = elim (Bool-cases (p r)) [
    | inl e ↦ rw e (All-delete_where P p rs h.1)
    | inr e ↦ rw e (h.0, All-delete_where P p rs h.1)
  ]

  pub All-first_where {κ} :
      (P : A → Type κ) (p : A → Bool) (rs : List A) (r : A)
      → All P rs
      → first_where p rs ≡ some r
      → P r
  All-first_where P p [] r h e = cc
  All-first_where P p (s ∷ rs) r h e = elim (Bool-cases (p s)) [
    | inl q ↦ let same : some s ≡ some r = rw q at e in subst P (some-injective s r same) h.0
    | inr q ↦ All-first_where P p rs r h.1 (rw q at e)
  ]

-- An update leaves a row that it does not match.
pub Memᴰ-update_where :
    {A : Type 0} {a : A} (q : A → Bool) (f : A → A) (rs : List A)
    → q a ≡ false
    → Memᴰ a rs
    → Memᴰ a (update_where q f rs)
Memᴰ-update_where q f [] h m = elim m [ ]
Memᴰ-update_where q f (r ∷ rs) h (Memᴰ.head e) = Memᴰ.head (rw (← e) (rw h refl))
Memᴰ-update_where q f (r ∷ rs) h (Memᴰ.tail m) = Memᴰ.tail (Memᴰ-update_where q f rs h m)
