-- ===== src/Documents/Chunk/Reassembly.antt =====
-- The chunks of src/documents/chunk.ts cover the text without a gap.
use capybara_ai.Prelude.{
  ℕ, zero, suc, ◌+◌, ◌≤◌, ◌<◌, String, Option, true, false, Bool-cases, List, [], ◌∷◌, ◌++◌, length,
  take, drop, ltb, leb, ◌≡◌, refl, sym, ◌∙◌, ap, All, arith, length-take, length-drop, inl, inr,
  get_or_else, leb→le,
}
use capybara_ai.Documents.Chunk.{TextChunk, slice, step_of, chunk_at, chunk_loop, chunk_text}

module _ {T : Type 0} where
  take-drop : (n : ℕ) (xs : List T) → take n xs ++ drop n xs ≡ xs
  take-drop zero xs = refl
  take-drop (suc n) [] = refl
  take-drop (suc n) (x ∷ xs) = ap (λ ys. x ∷ ys) (take-drop n xs)

  take-take : (m n : ℕ) (xs : List T) → m ≤ n → take m (take n xs) ≡ take m xs
  take-take zero n xs h = refl
  take-take (suc m) zero xs h = absurd (omega arith)
  take-take (suc m) (suc n) [] h = refl
  take-take (suc m) (suc n) (x ∷ xs) h = ap (λ ys. x ∷ ys) (take-take m n xs (omega arith))

  drop-nil : (n : ℕ) → drop {A = T} n [] ≡ []
  drop-nil zero = refl
  drop-nil (suc n) = refl

  drop-drop : (m n : ℕ) (xs : List T) → drop m (drop n xs) ≡ drop (n + m) xs
  drop-drop m zero xs = let same : 0 + m ≡ m = omega arith in rw same refl
  drop-drop m (suc n) [] = drop-nil m ∙ sym (drop-nil (suc n + m))
  drop-drop m (suc n) (x ∷ xs) =
      let same : suc n + m ≡ suc (n + m) = omega arith in rw same (drop-drop m n xs)

  take-all : (n : ℕ) (xs : List T) → length xs ≤ n → take n xs ≡ xs
  take-all zero [] h = refl
  take-all zero (x ∷ xs) h = absurd (omega arith)
  take-all (suc n) [] h = refl
  take-all (suc n) (x ∷ xs) h = ap (λ ys. x ∷ ys) (take-all n xs (omega arith))

  -- The windows put together again: the first `step` tokens of each, and the whole last one.
  abbrev pub join_windows : ℕ → List (List T) → List T
  join_windows step [] = []
  join_windows step (w ∷ []) = w
  join_windows step (w ∷ v ∷ ws) = take step w ++ join_windows step (v ∷ ws)

  -- A window that stands before the others gives its first `step` tokens.
  join_windows-next :
      (step : ℕ) (w : List T) (ws : List (List T)) (rest : List T)
      → join_windows step ws ≡ rest
      → 0 < length rest
      → join_windows step (w ∷ ws) ≡ take step w ++ rest
  join_windows-next step w [] rest e pos = absurd (omega (arith, ap length e))
  join_windows-next step w (v ∷ ws) rest e pos = ap (λ r. take step w ++ r) e

  window-rest :
      (step size start : ℕ) (tokens : List T)
      → step ≤ size
      → take step (slice start size tokens) ++ drop (start + step) tokens ≡ drop start tokens
  window-rest step size start tokens h =
      rw (take-take step size (drop start tokens) h, ← drop-drop step start tokens)
        (take-drop step (drop start tokens))

module _ {T : Type 0} (encode : String → List T) (decode : List T → String) where
  abbrev pub number : ℕ → List (List T) → List TextChunk
  number index [] = []
  number index (w ∷ ws) = chunk_at encode decode index w ∷ number (index + 1) ws

  -- Windows of at most `size` tokens that the chunks are made of and that cover the tokens.
  pub record IsCover (size step : ℕ) (tokens : List T) (index : ℕ) (chunks : List TextChunk)
      : Type 0 where
    pub windows : List (List T)
    pub numbered : chunks ≡ number index windows
    pub joined : join_windows step windows ≡ tokens
    pub bounded : All (λ w. length w ≤ size) windows

  slice-bounded : (start size : ℕ) (tokens : List T) → length (slice start size tokens) ≤ size
  slice-bounded start size tokens = omega (arith, length-take size (drop start tokens))

  chunk_loop-IsCover :
      (fuel size step : ℕ) (tokens : List T) (start index : ℕ)
      → 1 ≤ step
      → step ≤ size
      → start < length tokens
      → length tokens ≤ start + fuel
      → IsCover size step
          (drop start tokens)
          index
          (chunk_loop encode decode fuel size step tokens start index)
  unfolding chunk_loop
  chunk_loop-IsCover zero size step tokens start index one within more enough = absurd (omega arith)
  chunk_loop-IsCover (suc fuel) size step tokens start index one within more enough =
      let goes : ltb start (length tokens) ≡ true = ground arith in
      let w = slice start size tokens in
      let left = length-drop start tokens in
      elim (Bool-cases (leb (length tokens) (start + size))) [
        | inl last ↦
            let ends = leb→le (length tokens) (start + size) last in
            rw (goes, last)
              (record {
                windows = w ∷ [];
                numbered = refl;
                joined = take-all size (drop start tokens) (omega arith);
                bounded = (slice-bounded start size tokens, tt);
              })
        | inr open_end ↦
            let goes_on : start + size < length tokens = ground arith in
            let later =
              chunk_loop-IsCover fuel size step tokens (start + step) (index + 1) one within
                (omega arith) (omega arith) in
            let pos : 0 < length (drop (start + step) tokens) =
              omega (arith, length-drop (start + step) tokens) in
            rw (goes, open_end)
              (record {
                windows = w ∷ later.windows;
                numbered = ap (λ cs. chunk_at encode decode index w ∷ cs) later.numbered;
                joined =
                    join_windows-next step w later.windows (drop (start + step) tokens) later.joined
                      pos
                    ∙ window-rest step size start tokens within;
                bounded = (slice-bounded start size tokens, later.bounded);
              })
      ]

  no_tokens :
      (fuel size step : ℕ) (tokens : List T)
      → length tokens ≡ 0
      → chunk_loop encode decode fuel size step tokens 0 0 ≡ []
  unfolding chunk_loop
  no_tokens zero size step tokens e = refl
  no_tokens (suc fuel) size step tokens e =
      let stops : ltb 0 (length tokens) ≡ false = ground arith in rw stops refl

  IsCover-of :
      (size step : ℕ) (tokens : List T)
      → 1 ≤ step
      → step ≤ size
      → IsCover size step tokens 0 (chunk_loop encode decode (length tokens) size step tokens 0 0)
  IsCover-of size step [] one within =
      rw (no_tokens 0 size step [] refl)
        (record { windows = []; numbered = refl; joined = refl; bounded = tt })
  IsCover-of size step (t ∷ tokens) one within =
      chunk_loop-IsCover (length (t ∷ tokens)) size step (t ∷ tokens) 0 0 one within (omega arith)
        (omega arith)

  -- For a chunk size of one or more and any overlap, the chunks are the decodings of windows over the
  -- tokens of the text, numbered from 0 and each of at most the chunk size, and the first tokens of
  -- the windows, as many as the loop moves on by, with the whole last window, are the tokens of the
  -- text: nothing is left out, and nothing comes out of order.
  pub chunk_text-IsCover :
      (text : String) (chunk_size overlap : Option ℕ)
      → 1 ≤ get_or_else chunk_size 512
      → IsCover
          (get_or_else chunk_size 512)
          (step_of (get_or_else chunk_size 512) (get_or_else overlap 100))
          (encode text)
          0
          (chunk_text encode decode text chunk_size overlap)
  unfolding chunk_text
  chunk_text-IsCover text chunk_size overlap pos =
      let size = get_or_else chunk_size 512 in
      IsCover-of size (step_of size (get_or_else overlap 100)) (encode text) (omega arith)
        (omega arith)
