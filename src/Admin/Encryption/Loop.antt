-- ===== src/Admin/Encryption/Loop.antt =====
-- The loop over the batches of a table: `reencryptChunks` and `reencryptMessages` in src/admin/encryption.ts,
-- which differ in the table and in what it shows. The loop takes fuel: a round for each hundred rows and one
-- more are enough.
use capybara_ai.Prelude.{
  ℕ, zero, suc, ◌+◌, ◌/◌, String, Bool, Option, none, some, List, [], ◌∷◌, take, drop, length, ltb,
  ◌==◌, nat_eq, ◌&&◌, if◌then◌else◌,
}
use capybara_ai.Prelude.Effect.{Result, ok, throw}
use capybara_ai.Prelude.Table.{select_where, update_where}
use capybara_ai.Crypto.{Bytes}

-- A table whose rows have an id and a text under encryption.
pub record SecretTable (R : Type 0) : Type 0 where
  pub id_of : R → ℕ
  pub content_of : R → Bytes
  pub with_content : Bytes → R → R

abbrev pub batch : ℕ
batch = 100

abbrev pub then_do : {A B : Type 0} → Result String A → (A → Result String B) → Result String B
then_do (ok a) f = f a
then_do (throw e) f = throw e

-- What follows a page, where its rows could be written.
abbrev pub after_page :
    {A B : Type 0} → Result String A → (A → Option (Result String B)) → Option (Result String B)
after_page (ok a) f = f a
after_page (throw e) f = some (throw e)

module _ {R : Type 0} (t : SecretTable R) (sees : R → Bool) where
  -- `UPDATE … SET content_encrypted = text WHERE id = row.id`
  abbrev pub write_row : R → Bytes → List R → List R
  write_row row text =
      update_where (λ r. sees r && t.id_of r == t.id_of row) (λ r. t.with_content text r)

  abbrev pub page : ℕ → List R → List R
  page offset table = take batch (drop offset (select_where sees table))

module _ {R : Type 0} (t : SecretTable R) (sees : R → Bool) (code : R → Result String Bytes) where
  -- The rows of a batch, one after another.
  unfoldable pub recode_rows : List R → List R → Result String (List R)
  recode_rows [] table = ok table
  recode_rows (row ∷ rows) table =
      then_do (code row) (λ text. recode_rows rows (write_row t sees row text table))

  -- How many rows were rotated, and the table.
  unfoldable pub batches : ℕ → ℕ → ℕ → List R → Option (Result String (ℕ × List R))
  batches zero offset total table = none
  batches (suc fuel) offset total table =
      let rows = page t sees offset table in
      let size = length rows in
      if size == 0
      then some (ok (total, table))
      else after_page (recode_rows rows table) (λ table'.
        let rest = batches fuel (offset + batch) (total + size) table' in
        if ltb size batch then some (ok (total + size, table')) else rest)

  abbrev pub reencrypt : List R → Option (Result String (ℕ × List R))
  reencrypt table = batches (length table / batch + 1) 0 0 table
