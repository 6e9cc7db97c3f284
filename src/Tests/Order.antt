-- ===== src/Tests/Order.antt =====
-- An order on texts, to stand for the platform's.
use capybara_ai.Prelude.{
  Bool, true, false, ltb, if◌then◌else◌, ◌==◌, nat_eq, ◌≡◌, refl, ◌⊎◌, inl, inr, arith,
}
use capybara_ai.Hash.{IsOrder}
use Prim.Native.String.{String, [], ◌∷◌}
use Prim.Native.Char.{Char, code}
use text.Mathlib.TextEquality.{Char-path}

abbrev pub text_le : String → String → Bool
text_le [] t = true
text_le (c ∷ s) [] = false
text_le (c ∷ s) (d ∷ t) =
    let rest = text_le s t in
    if ltb (code c) (code d) then true else if code c == code d then rest else false

text_le_total : (s t : String) → (text_le s t ≡ true) ⊎ (text_le t s ≡ true)
text_le_total [] t = inl refl
text_le_total (c ∷ s) [] = inr refl
text_le_total (c ∷ s) (d ∷ t) = ground (arith, text_le_total s t)

heads :
    (c d : Char) (s t : String)
    → text_le (c ∷ s) (d ∷ t) ≡ true
    → text_le (d ∷ t) (c ∷ s) ≡ true
    → (code c ≡ code d) × (text_le s t ≡ true) × (text_le t s ≡ true)
heads c d s t h k = ground arith

text_le_antisym : (s t : String) → text_le s t ≡ true → text_le t s ≡ true → s ≡ t
text_le_antisym [] [] h k = refl
text_le_antisym [] (d ∷ t) h k = absurd (ground arith)
text_le_antisym (c ∷ s) [] h k = absurd (ground arith)
text_le_antisym (c ∷ s) (d ∷ t) h k =
    let (e, f, g) = heads c d s t h k in λ i. Char-path c d e i ∷ text_le_antisym s t f g i

text_le_trans : (s t u : String) → text_le s t ≡ true → text_le t u ≡ true → text_le s u ≡ true
text_le_trans [] t u h k = refl
text_le_trans (c ∷ s) [] u h k = absurd (ground arith)
text_le_trans (c ∷ s) (d ∷ t) [] h k = absurd (ground arith)
text_le_trans (c ∷ s) (d ∷ t) (e ∷ u) h k = ground (arith, text_le_trans s t u)

pub text_le-IsOrder : IsOrder text_le
text_le-IsOrder = record { total = text_le_total; antisym = text_le_antisym; trans = text_le_trans }
