-- ===== src/Admin/Encryption/Batches.antt =====
-- The loop of `reencryptChunks` and `reencryptMessages` in src/admin/encryption.ts: it ends, and treats
-- every visible row once.
use mathlib.Core.List.{append_assoc, append-nil, map-append}
use capybara_ai.Prelude.{
  ℕ, zero, suc, ◌+◌, ◌*◌, ◌/◌, ◌<◌, ◌≤◌, min, String, Bool, true, false, Bool-cases, some, List, [],
  ◌∷◌, ◌++◌, map, take, drop, length, ltb, ◌==◌, nat_eq, nat_beq_iff, not, if◌then◌else◌, ◌≡◌, ◌≢◌,
  refl, sym, ap, ◌∙◌, arith, inl, inr, All, length-append, All-split, All-append, length-take,
  length-drop, length-map, take-append-drop, take-eq_of_short, eq-nil_of_length, ltb→lt,
  drop-append_left,
}
use capybara_ai.Prelude.Effect.{Result, ok}
use capybara_ai.Prelude.Table.{select_where}
use capybara_ai.Admin.Encryption.Loop.{
  SecretTable, write_row, recode_rows, page, batches, reencrypt,
}

module _ {R : Type 0} (t : SecretTable R) where
  -- No two rows have one id.
  abbrev pub IsKeyed : List R → Type 0
  IsKeyed [] = Unit
  IsKeyed (r ∷ rs) = All (λ s. t.id_of s ≢ t.id_of r) rs × IsKeyed rs

page_empty : (n k : ℕ) → n ≡ min 100 k → (n == 0) ≡ true → k ≡ 0
page_empty n k e h = omega (arith, (nat_beq_iff n 0).0 h)

page_full : (n k : ℕ) → n ≡ min 100 k → ltb n 100 ≡ false → n ≡ 100
page_full n k e h = ground (arith)

module _ {R : Type 0} (t : SecretTable R) (sees : R → Bool) (code : R → Result String (List ℕ))
    (keeps_id : (text : List ℕ) (r : R) → t.id_of (t.with_content text r) ≡ t.id_of r)
    (keeps_sight : (text : List ℕ) (r : R) → sees (t.with_content text r) ≡ sees r) where
  abbrev put : R → List ℕ → R → R
  put row text r = if t.id_of r == t.id_of row then t.with_content text r else r

  select-write_row :
      (row : R) (text : List ℕ) (rs : List R)
      → select_where sees (write_row t sees row text rs) ≡ map (put row text) (select_where sees rs)
  select-write_row row text [] = refl
  select-write_row row text (r ∷ rs) = elim (Bool-cases (sees r)) [
    | inl seen ↦ elim (Bool-cases (t.id_of r == t.id_of row)) [
      | inl same ↦
          rw (seen, same, keeps_sight text r, seen)
            (ap (λ xs. t.with_content text r ∷ xs) (select-write_row row text rs))
      | inr other ↦ rw (seen, other, seen) (ap (λ xs. r ∷ xs) (select-write_row row text rs))
    ]
    | inr hidden ↦ rw (hidden, hidden) (select-write_row row text rs)
  ]

  hidden-write_row :
      (row : R) (text : List ℕ) (rs : List R)
      → select_where (λ r. not (sees r)) (write_row t sees row text rs)
        ≡ select_where (λ r. not (sees r)) rs
  hidden-write_row row text [] = refl
  hidden-write_row row text (r ∷ rs) = elim (Bool-cases (sees r)) [
    | inl seen ↦ elim (Bool-cases (t.id_of r == t.id_of row)) [
      | inl same ↦ rw (seen, same, keeps_sight text r, seen) (hidden-write_row row text rs)
      | inr other ↦ rw (seen, other, seen) (hidden-write_row row text rs)
    ]
    | inr hidden ↦ rw (hidden, hidden) (ap (λ xs. r ∷ xs) (hidden-write_row row text rs))
  ]

  put_others :
      (row : R) (text : List ℕ) (rs : List R)
      → All (λ s. t.id_of s ≢ t.id_of row) rs
      → map (put row text) rs ≡ rs
  put_others row text [] h = refl
  put_others row text (r ∷ rs) h =
      let other : (t.id_of r == t.id_of row) ≡ false = ground (arith, h.0) in
      rw other (ap (λ xs. r ∷ xs) (put_others row text rs h.1))

  -- Among rows with ids of their own, a write changes the one row.
  put_one :
      (before : List R) (row : R) (after : List R) (text : List ℕ)
      → IsKeyed t (before ++ row ∷ after)
      → map (put row text) (before ++ row ∷ after) ≡ before ++ t.with_content text row ∷ after
  put_one [] row after text (apart, _) =
      let own : (t.id_of row == t.id_of row) ≡ true = (nat_beq_iff _ _).1 refl in
      rw own (ap (λ xs. t.with_content text row ∷ xs) (put_others row text after apart))
  put_one (r ∷ before) row after text (apart, keyed) =
      let (_, (distinct, _)) = All-split (λ s. t.id_of s ≢ t.id_of r) before (row ∷ after) apart in
      let other : (t.id_of r == t.id_of row) ≡ false = ground arith in
      rw other (ap (λ xs. r ∷ xs) (put_one before row after text keyed))

  IsKeyed-put :
      (before : List R) (row : R) (after : List R) (text : List ℕ)
      → IsKeyed t (before ++ row ∷ after)
      → IsKeyed t (before ++ t.with_content text row ∷ after)
  IsKeyed-put [] row after text (apart, keyed) = (rw (keeps_id text row) apart, keyed)
  IsKeyed-put (r ∷ before) row after text (apart, keyed) =
      let (left, (distinct, right)) =
        All-split (λ s. t.id_of s ≢ t.id_of r) before (row ∷ after) apart in
      (
        All-append (λ s. t.id_of s ≢ t.id_of r) before (t.with_content text row ∷ after) left
            (rw (keeps_id text row) distinct, right),
        IsKeyed-put before row after text keyed,
      )

  module _ (fresh : R → List ℕ) where
    -- The row with its text under the new key.
    abbrev pub renewed : R → R
    renewed r = t.with_content (fresh r) r

    -- What a part of the loop leaves: the rows up to there are renewed, and the hidden ones are as before.
    pub record IsRenewed (before : List R) (after : List R) (old table : List R) : Type 0 where
      pub keyed : IsKeyed t (before ++ after)
      pub seen : select_where sees table ≡ before ++ after
      pub unseen : select_where (λ r. not (sees r)) table ≡ select_where (λ r. not (sees r)) old

    recode_rows-IsRenewed :
        (rows before after old table : List R)
        → All (λ r. code r ≡ ok (fresh r)) rows
        → IsRenewed before (rows ++ after) old table
        → (table' : List R) × (recode_rows t sees code rows table ≡ ok table')
          × IsRenewed (before ++ map renewed rows) after old table'
    unfolding recode_rows
    recode_rows-IsRenewed [] before after old table works inv =
        (table, refl, rw (append-nil before) inv)
    recode_rows-IsRenewed (row ∷ rows) before after old table (work, works) inv =
        let text = fresh row in
        let next = write_row t sees row text table in
        let seen' : select_where sees next ≡ before ++ renewed row ∷ (rows ++ after) =
          select-write_row row text table
          ∙ ap (map (put row text)) inv.seen
          ∙ put_one before row (rows ++ after) text inv.keyed in
        let keyed' = IsKeyed-put before row (rows ++ after) text inv.keyed in
        let inv' : IsRenewed (before ++ renewed row ∷ []) (rows ++ after) old next = record {
          keyed = rw (append_assoc before (renewed row ∷ []) (rows ++ after)) keyed';
          seen = rw (append_assoc before (renewed row ∷ []) (rows ++ after)) seen';
          unseen = hidden-write_row row text table ∙ inv.unseen;
        } in
        let (table', done, end) =
          recode_rows-IsRenewed rows (before ++ renewed row ∷ []) after old next works inv' in
        (table', rw work done, rw (← append_assoc before (renewed row ∷ []) (map renewed rows)) end)

    batches_step :
        (fuel offset total : ℕ) (rows table table' : List R)
        → page t sees offset table ≡ rows
        → (length rows == 0) ≡ false
        → recode_rows t sees code rows table ≡ ok table'
        → batches t sees code (suc fuel) offset total table ≡ (
            if ltb (length rows) 100
            then some (ok (total + length rows, table'))
            else batches t sees code fuel (offset + 100) (total + length rows) table')
    unfolding batches
    batches_step fuel offset total rows table table' paged more done = rw (paged, more, done) refl

    -- The rounds that are left.
    batches-IsRenewed :
        (fuel offset total : ℕ) (before rest old table : List R)
        → length before ≡ offset
        → length rest < fuel * 100
        → All (λ r. code r ≡ ok (fresh r)) rest
        → IsRenewed before rest old table
        → (table' : List R) × (batches t sees code fuel offset total table
            ≡ some (ok (total + length rest, table')))
          × IsRenewed (before ++ map renewed rest) [] old table'
    unfolding batches
    batches-IsRenewed zero offset total before rest old table at enough works inv =
        absurd (omega arith)
    batches-IsRenewed (suc fuel) offset total before rest old table at enough works inv =
        let paged : page t sees offset table ≡ take 100 rest =
          rw inv.seen (rw (← at) (ap (take 100) (drop-append_left before rest))) in
        let cut = take-append-drop 100 rest in
        let (works_page, works_rest) =
          All-split (λ r. code r ≡ ok (fresh r)) (take 100 rest) (drop 100 rest)
            (rw (sym cut) at works) in
        let (table', done, inv') =
          recode_rows-IsRenewed (take 100 rest) before (drop 100 rest) old table works_page
            (rw cut inv) in
        let size : length (take 100 rest) ≡ min 100 (length rest) = length-take 100 rest in
        elim (Bool-cases (length (take 100 rest) == 0)) [
          | inl empty ↦
              let none_left : length rest ≡ 0 = page_empty _ (length rest) size empty in
              let nil : rest ≡ [] = eq-nil_of_length rest none_left in
              let stop : batches t sees code (suc fuel) offset total table
                  ≡ some (ok (total, table)) =
                rw (paged, empty) refl in
              let counted : total ≡ total + length rest = omega arith in
              (
                table,
                stop ∙ ap (λ n. some (ok (n, table))) counted,
                rw (nil, append-nil before) (rw nil at inv),
              )
          | inr more ↦ elim (Bool-cases (ltb (length (take 100 rest)) 100)) [
            | inl last ↦
                let (front, back) = take-eq_of_short 100 rest (ltb→lt _ _ last) in
                let stop : batches t sees code (suc fuel) offset total table
                    ≡ some (ok (total + length (take 100 rest), table')) =
                  batches_step fuel offset total (take 100 rest) table table' paged more done
                  ∙ rw last refl in
                (
                  table',
                  stop ∙ ap (λ xs. some (ok (total + length xs, table'))) front,
                  rw (front, back) at inv',
                )
            | inr full ↦
                let all_100 : length (take 100 rest) ≡ 100 = page_full _ (length rest) size full in
                let (table'', rest_done, inv'') =
                  batches-IsRenewed fuel (offset + 100) (total + length (take 100 rest))
                    (before ++ map renewed (take 100 rest)) (drop 100 rest) old table'
                    (omega (
                      arith,
                      length-append before (map renewed (take 100 rest)),
                      length-map renewed (take 100 rest),
                    ))
                    (omega (arith, length-drop 100 rest)) works_rest inv' in
                let go : batches t sees code (suc fuel) offset total table
                    ≡ batches t sees code fuel (offset + 100) (total + length (take 100 rest))
                        table' =
                  batches_step fuel offset total (take 100 rest) table table' paged more done
                  ∙ rw full refl in
                let counted : total + length (take 100 rest) + length (drop 100 rest)
                    ≡ total + length rest =
                  omega (arith, length-append (take 100 rest) (drop 100 rest), ap length cut) in
                let joined : (before ++ map renewed (take 100 rest)) ++ map renewed (drop 100 rest)
                    ≡ before ++ map renewed rest =
                  append_assoc before (map renewed (take 100 rest)) (map renewed (drop 100 rest))
                  ∙ ap (λ xs. before ++ xs)
                      (sym (map-append renewed (take 100 rest) (drop 100 rest))
                        ∙ ap (map renewed) cut) in
                (
                  table'',
                  go ∙ rest_done ∙ ap (λ n. some (ok (n, table''))) counted,
                  rw joined at inv'',
                )
          ]
        ]

    length-select-le : (rs : List R) → length (select_where sees rs) ≤ length rs
    length-select-le [] = omega arith
    length-select-le (r ∷ rs) = ground (arith, length-select-le rs)

    -- The loop ends, and renews every row that is seen, in order, and no other.
    pub reencrypt-IsRenewed :
        (table : List R)
        → IsKeyed t (select_where sees table)
        → All (λ r. code r ≡ ok (fresh r)) (select_where sees table)
        → (table' : List R) × (reencrypt t sees code table
            ≡ some (ok (length (select_where sees table), table')))
          × IsRenewed (map renewed (select_where sees table)) [] table table'
    reencrypt-IsRenewed table keyed works =
        let (table', done, inv) =
          batches-IsRenewed (length table / 100 + 1) 0 0 [] (select_where sees table) table table
            refl (omega (arith, length-select-le table)) works
            (record { keyed = keyed; seen = refl; unseen = refl }) in
        let counted : 0 + length (select_where sees table) ≡ length (select_where sees table) =
          omega arith in
        (table', rw counted at done, inv)
