-- ===== src/Documents/Chunk.antt =====
-- Token-based chunking with overlap: src/documents/chunk.ts. The tokens of the encoding are a type
-- `T`, and its `encode` and `decode` are parameters.
pub mod Reassembly
use capybara_ai.Prelude.{
  ℕ, zero, suc, ◌+◌, ◌-◌, max, String, Option, List, [], ◌∷◌, length, take, drop, ltb, leb,
  if◌then◌else◌, get_or_else, Bool, true, false,
}

pub record TextChunk : Type 0 where
  pub index : ℕ
  pub content : String
  pub token_count : ℕ

-- `tokens.slice(start, start + size)`
abbrev pub slice : {T : Type 0} → ℕ → ℕ → List T → List T
slice start size tokens = take size (drop start tokens)

abbrev pub step_of : ℕ → ℕ → ℕ
step_of size overlap = max 1 (size - overlap)

module _ {T : Type 0} (encode : String → List T) (decode : List T → String) where
  abbrev pub chunk_at : ℕ → List T → TextChunk
  chunk_at index w = record { index = index; content = decode w; token_count = length w }

  -- The `while` loop, at most `fuel` turns of it.
  unfoldable pub chunk_loop : ℕ → ℕ → ℕ → List T → ℕ → ℕ → List TextChunk
  chunk_loop zero size step tokens start index = []
  chunk_loop (suc fuel) size step tokens start index =
      let chunk = chunk_at index (slice start size tokens) in
      let rest = chunk_loop fuel size step tokens (start + step) (index + 1) in
      if ltb start (length tokens)
      then if leb (length tokens) (start + size) then chunk ∷ [] else chunk ∷ rest
      else []

  -- The loop moves on by one token or more in a turn, so a turn for every token is enough. For no
  -- tokens the loop makes no turn, as the early return does.
  unfoldable pub chunk_text : String → Option ℕ → Option ℕ → List TextChunk
  unfolding chunk_loop
  chunk_text text chunk_size overlap =
      let size = get_or_else chunk_size 512 in
      let tokens = encode text in
      chunk_loop (length tokens) size (step_of size (get_or_else overlap 100)) tokens 0 0
