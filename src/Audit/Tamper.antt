-- ===== src/Audit/Tamper.antt =====
-- Tamper evidence of the hash chain of src/audit/securityLog.ts: the hash of the last row
-- determines the content of every row, unless SHA-256 is broken.
use capybara_ai.Prelude.{
  ◌≡◌, ◌≢◌, refl, sym, ap, subst, ◌∙◌, ◌⊎◌, inl, inr, String, true, Bool-cases, List, [], ◌∷◌, map,
  eq_iff, ◌==◌, string_eq,
}
use capybara_ai.Hash.{Platform}
use capybara_ai.Audit.{
  SecurityEvent, EventLog, genesis_hash, content_of, compute_hash, verify_chain,
}
use capybara_ai.Audit.Chain.{IsChain, final_hash, verify_chain_iff}
use Prim.Native.String.{◌++◌ as append, count}
use mathlib.Core.List.{Memᴰ, reverse_aux, reverse, reverse-reverse}
use text.Mathlib.TextLemmas.{append_inj}

-- The texts that the rows of a log give to SHA-256, by the hash before each and its content.
abbrev pub hashed_texts : Platform → String → List SecurityEvent → List String
hashed_texts p prev [] = []
hashed_texts p prev (row ∷ rows) =
    append prev (append "\n" (content_of p row)) ∷ hashed_texts p row.hash rows

-- Two different texts with one hash, the one from the first list and the other from the second, or a
-- text from one of them whose hash is the genesis hash.
pub data Forgery (sha : String → String) (ss ts : List String) : Type 0 where
  collision : (a b : String) → Memᴰ a ss → Memᴰ b ts → a ≢ b → sha a ≡ sha b → Forgery sha ss ts
  genesis_left : (a : String) → Memᴰ a ss → sha a ≡ genesis_hash → Forgery sha ss ts
  genesis_right : (b : String) → Memᴰ b ts → sha b ≡ genesis_hash → Forgery sha ss ts

-- A forgery is one of longer lists too.
pub Forgery-weaken :
    {sha : String → String} (ss ts ss' ts' : List String)
    → ((a : String) → Memᴰ a ss → Memᴰ a ss')
    → ((b : String) → Memᴰ b ts → Memᴰ b ts')
    → Forgery sha ss ts
    → Forgery sha ss' ts'
Forgery-weaken ss ts ss' ts' f g (collision a b m n differ same) =
    collision a b (f a m) (g b n) differ same
Forgery-weaken ss ts ss' ts' f g (genesis_left a m e) = genesis_left a (f a m) e
Forgery-weaken ss ts ss' ts' f g (genesis_right b n e) = genesis_right b (g b n) e

module _ (p : Platform) (hex_length : (s : String) → count (p.sha256_hex s) ≡ 64) where
  -- The hash after the contents `cs`, the last one first.
  digest : List String → String
  digest [] = genesis_hash
  digest (c ∷ cs) = compute_hash p (digest cs) c

  count-digest : (cs : List String) → count (digest cs) ≡ 64
  unfolding digest compute_hash
  count-digest [] = refl
  count-digest (c ∷ cs) = hex_length _

  digest_step_inj :
      (cs ds : List String) (c d : String)
      → append (digest cs) (append "\n" c) ≡ append (digest ds) (append "\n" d)
      → (digest cs ≡ digest ds) × (c ≡ d)
  digest_step_inj cs ds c d e =
      let (before, after) = append_inj e (count-digest cs ∙ sym (count-digest ds)) in
      (before, (append_inj {s₁ = "\n"} {s₂ = "\n"} after refl).1)

  -- The texts whose hashes make up a digest, the last one first.
  digest_texts : List String → List String
  digest_texts [] = []
  digest_texts (c ∷ cs) = append (digest cs) (append "\n" c) ∷ digest_texts cs

  -- One step back along two chains that end in the same hash.
  digest_step :
      (cs ds : List String) (c d : String)
      → compute_hash p (digest cs) c ≡ compute_hash p (digest ds) d
      → (digest cs ≡ digest ds
          → (cs ≡ ds) ⊎ Forgery p.sha256_hex (digest_texts cs) (digest_texts ds))
      → (c ∷ cs ≡ d ∷ ds) ⊎ Forgery p.sha256_hex (digest_texts (c ∷ cs)) (digest_texts (d ∷ ds))
  unfolding compute_hash digest_texts
  digest_step cs ds c d e before =
      elim (Bool-cases (append (digest cs) (append "\n" c) == append (digest ds) (append "\n" d))) [
        | inl equal ↦
            let (q, r) = digest_step_inj cs ds c d ((eq_iff _ _).0 equal) in
            elim (before q) [
              | inl s ↦ inl (cc)
              | inr f ↦ inr (
                  Forgery-weaken (digest_texts cs) (digest_texts ds) _ _ (λ a m. Memᴰ.tail m)
                    (λ b m. Memᴰ.tail m) f)
            ]
        | inr differ ↦
            inr
              (collision _ _ (Memᴰ.head refl) (Memᴰ.head refl) (λ same. cc ((eq_iff _ _).1 same)) e)
      ]

  digest_inj :
      (cs ds : List String)
      → digest cs ≡ digest ds
      → (cs ≡ ds) ⊎ Forgery p.sha256_hex (digest_texts cs) (digest_texts ds)
  unfolding digest digest_texts compute_hash
  digest_inj [] [] e = inl refl
  digest_inj [] (d ∷ ds) e = inr (genesis_right _ (Memᴰ.head refl) (sym e))
  digest_inj (c ∷ cs) [] e = inr (genesis_left _ (Memᴰ.head refl) e)
  digest_inj (c ∷ cs) (d ∷ ds) e = digest_step cs ds c d e (digest_inj cs ds)

  -- The texts of a digest of a chain are those that its rows were hashed of.
  texts_of_chain :
      (acc : List String) (rows : List SecurityEvent) (a : String)
      → IsChain p (digest acc) rows
      → Memᴰ a (digest_texts (reverse_aux (map (content_of p) rows) acc))
      → Memᴰ a (hashed_texts p (digest acc) rows) ⊎ Memᴰ a (digest_texts acc)
  unfolding digest digest_texts
  texts_of_chain acc [] a h m = inr m
  texts_of_chain acc (row ∷ rows) a (_, e, h) m =
      let next : digest (content_of p row ∷ acc) ≡ row.hash = sym e in
      elim (texts_of_chain (content_of p row ∷ acc) rows a (subst (λ t. IsChain p t rows) e h) m) [
        | inl later ↦ inl (Memᴰ.tail (subst (λ t. Memᴰ a (hashed_texts p t rows)) next later))
        | inr before ↦ first_or_rest acc row rows a before
      ]
    where
      first_or_rest :
          (acc : List String) (row : SecurityEvent) (rows : List SecurityEvent) (a : String)
          → Memᴰ a (digest_texts (content_of p row ∷ acc))
          → Memᴰ a (hashed_texts p (digest acc) (row ∷ rows)) ⊎ Memᴰ a (digest_texts acc)
      first_or_rest acc row rows a (Memᴰ.head same) = inl (Memᴰ.head same)
      first_or_rest acc row rows a (Memᴰ.tail m) = inr m

  log_texts :
      (log : EventLog) (a : String)
      → IsChain p genesis_hash log.rows
      → Memᴰ a (digest_texts (reverse (map (content_of p) log.rows)))
      → Memᴰ a (hashed_texts p genesis_hash log.rows)
  unfolding digest digest_texts
  log_texts log a h m = elim (texts_of_chain [] log.rows a h m) [
    | inl found ↦ found
    | inr nothing ↦ elim nothing [ ]
  ]

  final_hash-digest :
      (acc : List String) (rows : List SecurityEvent)
      → IsChain p (digest acc) rows
      → final_hash p (digest acc) rows ≡ digest (reverse_aux (map (content_of p) rows) acc)
  unfolding digest
  final_hash-digest acc [] h = refl
  final_hash-digest acc (row ∷ rows) (_, e, h) =
      ap (λ t. final_hash p t rows) e
      ∙ final_hash-digest (content_of p row ∷ acc) rows (subst (λ t. IsChain p t rows) e h)

  -- If two logs both verify and the hashes of their last rows agree (the genesis hash for an empty
  -- log), then they record the same events in the same order: the texts that commit to their
  -- organisation, type, severity, payload and time agree row by row, and so does their number.
  -- Otherwise two different texts with one SHA-256 hash are found, one that a row of the first log was
  -- hashed of and one that a row of the second was, or such a text whose hash is the genesis hash. A
  -- hash has 64 characters.
  pub verify_chain_binds_contents :
      (log log' : EventLog)
      → (verify_chain p log).is_ok ≡ true
      → (verify_chain p log').is_ok ≡ true
      → final_hash p genesis_hash log.rows ≡ final_hash p genesis_hash log'.rows
      → (map (content_of p) log.rows ≡ map (content_of p) log'.rows)
        ⊎ Forgery p.sha256_hex
            (hashed_texts p genesis_hash log.rows)
            (hashed_texts p genesis_hash log'.rows)
  unfolding digest
  verify_chain_binds_contents log log' v v' e =
      let chain = (verify_chain_iff p log).0 v in
      let chain' = (verify_chain_iff p log').0 v' in
      let d = final_hash-digest [] log.rows chain in
      let d' = final_hash-digest [] log'.rows chain' in
      elim (digest_inj (reverse (map (content_of p) log.rows))
        (reverse (map (content_of p) log'.rows)) (sym d ∙ e ∙ d')) [
          | inl same ↦ inl (sym (reverse-reverse _) ∙ ap reverse same ∙ reverse-reverse _)
          | inr f ↦ inr (
              Forgery-weaken _ _ _ _ (λ a m. log_texts log a chain m)
                (λ b m. log_texts log' b chain' m) f)
        ]
