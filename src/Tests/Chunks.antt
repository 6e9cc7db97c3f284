-- ===== src/Tests/Chunks.antt =====
-- src/documents/chunk.ts at small inputs. A token is a number, and a text stands for four of them.
use capybara_ai.Prelude.{ℕ, String, some, List, [], ◌∷◌, ◌≡◌, refl, arith}
use capybara_ai.Documents.Chunk.{chunk_text, step_of}
use capybara_ai.Documents.Chunk.Reassembly.{IsCover, chunk_text-IsCover}
use capybara_ai.Tests.Samples.{tally}
use Prim.Native.String.{◌++◌ as append}

abbrev encode : String → List ℕ
encode text = 1 ∷ 2 ∷ 3 ∷ 4 ∷ []

abbrev decode : List ℕ → String
decode [] = ""
decode (t ∷ ts) = append (tally t) (append "," (decode ts))

chunk_text-IsCover_example :
    IsCover encode decode 3
      (step_of 3 1)
      (encode "text")
      0
      (chunk_text encode decode "text" (some 3) (some 1))
chunk_text-IsCover_example = chunk_text-IsCover encode decode "text" (some 3) (some 1) (omega arith)

two_chunks :
    chunk_text encode decode "text" (some 3) (some 1)
    ≡ record { index = 0; content = "1,11,111,"; token_count = 3 }
      ∷ record { index = 1; content = "111,1111,"; token_count = 2 }
      ∷ []
unfolding chunk_text
two_chunks = refl
