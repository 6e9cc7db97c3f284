-- ===== src/Anchor/Binding.antt =====
-- A checkpoint of src/audit/anchor.ts pins the log that it was taken of: what a database that is
-- rewritten later can still hold and verify.
use capybara_ai.Prelude.{
  ◌<◌, ◌≡◌, refl, sym, ap, subst, ◌∙◌, ◌⊎◌, inl, inr, String, Bool, true, Bool-cases, none, some,
  Option-cases, List, [], ◌∷◌, ◌++◌, map, arith, eq_iff, ◌==◌, nat_eq, string_eq, All,
}
use capybara_ai.Prelude.Table.{first_where}
use capybara_ai.Hash.{Platform}
use capybara_ai.Audit.{SecurityEvent, EventLog, genesis_hash, content_of, verify_chain}
use capybara_ai.Audit.Chain.{IsChain, final_hash, verify_chain_iff}
use capybara_ai.Audit.Tamper.{Forgery, Forgery-weaken, hashed_texts, verify_chain_binds_contents}
use capybara_ai.Anchor.{Anchor, AnchorState, Ed25519, refusal, verify_anchors}
use capybara_ai.Anchor.Laws.{verify_each_sound}
use mathlib.Core.List.{Memᴰ, map-append}
use Prim.Native.String.{count}

first_where_split :
    {A : Type 0} (q : A → Bool) (rs : List A) (r : A)
    → first_where q rs ≡ some r
    → (pre : List A) × (post : List A) × (rs ≡ (pre ++ r ∷ []) ++ post)
first_where_split q [] r e = cc
first_where_split q (s ∷ rs) r e = elim (Bool-cases (q s)) [
  | inl yep ↦ let here : some s ≡ some r = rw yep at e in ([], rs, cc here)
  | inr nope ↦
      let (pre, post, eq) = first_where_split q rs r (rw nope at e) in (s ∷ pre, post, cc eq)
]

All-Memᴰ : {A : Type 0} (P : A → Type 0) (xs : List A) {x : A} → All P xs → Memᴰ x xs → P x
All-Memᴰ P [] h m = elim m [ ]
All-Memᴰ P (y ∷ xs) h (Memᴰ.head e) = subst P (sym e) h.0
All-Memᴰ P (y ∷ xs) h (Memᴰ.tail m) = All-Memᴰ P xs h.1 m

module _ (p : Platform) where
  IsChain-prefix :
      (prev : String) (pre post : List SecurityEvent)
      → IsChain p prev (pre ++ post)
      → IsChain p prev pre
  IsChain-prefix prev [] post h = tt
  IsChain-prefix prev (r ∷ pre) post h = (h.0, h.1, IsChain-prefix r.hash pre post h.2)

  hashed_texts-prefix :
      (prev : String) (pre post : List SecurityEvent) (a : String)
      → Memᴰ a (hashed_texts p prev pre)
      → Memᴰ a (hashed_texts p prev (pre ++ post))
  hashed_texts-prefix prev [] post a m = elim m [ ]
  hashed_texts-prefix prev (r ∷ pre) post a (Memᴰ.head e) = Memᴰ.head e
  hashed_texts-prefix prev (r ∷ pre) post a (Memᴰ.tail m) =
      Memᴰ.tail (hashed_texts-prefix r.hash pre post a m)

  final_hash-snoc :
      (prev : String) (pre : List SecurityEvent) (r : SecurityEvent)
      → final_hash p prev (pre ++ r ∷ []) ≡ r.hash
  final_hash-snoc prev [] r = refl
  final_hash-snoc prev (s ∷ pre) r = final_hash-snoc s.hash pre r

  module _ (ed : Ed25519) where
    refusal-none :
        (log : EventLog) (a : Anchor)
        → refusal p ed log a ≡ none
        → 0 < a.content.event_id
        → (r : SecurityEvent) × (first_where
              (λ (s : SecurityEvent). s.id == a.content.event_id)
              log.rows
            ≡ some r)
          × (r.hash ≡ a.content.chain_hash)
    unfolding refusal
    refusal-none log a h pos =
        elim (Option-cases
          (first_where (λ (s : SecurityEvent). s.id == a.content.event_id) log.rows)) [
            | inl missed ↦ absurd (ground arith)
            | inr (r, e) ↦ (r, e, ground (arith, eq_iff r.hash a.content.chain_hash))
          ]

    module _ (hex_length : (t : String) → count (p.sha256_hex t) ≡ 64) where
      prefix_binds :
          (old : EventLog) (pre post : List SecurityEvent) (r : SecurityEvent)
          → IsChain p genesis_hash ((pre ++ r ∷ []) ++ post)
          → r.hash ≡ final_hash p genesis_hash old.rows
          → (verify_chain p old).is_ok ≡ true
          → (map (content_of p) (pre ++ r ∷ []) ≡ map (content_of p) old.rows)
            ⊎ Forgery p.sha256_hex
                (hashed_texts p genesis_hash (pre ++ r ∷ []))
                (hashed_texts p genesis_hash old.rows)
      prefix_binds old pre post r h e v =
          let kept : EventLog = record { rows = pre ++ r ∷ []; next_id = 0 } in
          verify_chain_binds_contents p hex_length kept old
            ((verify_chain_iff p kept).1 (IsChain-prefix genesis_hash (pre ++ r ∷ []) post h)) v
            (final_hash-snoc genesis_hash pre r ∙ e)

      -- Take a checkpoint of a log `old` that verified, over at least one event. If the checkpoint
      -- still stands among the anchors of a later state, and there both the chain and the anchors
      -- verify, then the later log begins with exactly the events of `old`: none of them is changed,
      -- dropped or reordered unseen. Otherwise two different texts with one SHA-256 hash are found,
      -- one that a row of the later log was hashed of and one that a row of `old` was, or such a text
      -- whose hash is the genesis hash. A hash has 64 characters.
      pub verify_anchors_pins_log :
          (s : AnchorState) (a : Anchor) (old : EventLog)
          → Memᴰ a s.anchors
          → 0 < a.content.event_id
          → a.content.chain_hash ≡ final_hash p genesis_hash old.rows
          → (verify_chain p old).is_ok ≡ true
          → (verify_chain p s.log).is_ok ≡ true
          → (verify_anchors p ed s).is_ok ≡ true
          → ((rest : List String) × (map (content_of p) s.log.rows
                ≡ map (content_of p) old.rows ++ rest))
            ⊎ Forgery p.sha256_hex
                (hashed_texts p genesis_hash s.log.rows)
                (hashed_texts p genesis_hash old.rows)
      unfolding verify_anchors
      verify_anchors_pins_log s a old m pos taken v_old v_log v_anchors =
          let accepted = verify_each_sound p ed s.log 0 s.anchors v_anchors in
          let (r, found, same) =
            refusal-none s.log a (All-Memᴰ (λ b. refusal p ed s.log b ≡ none) s.anchors accepted m)
              pos in
          let (pre, post, split) = first_where_split _ s.log.rows r found in
          let chain = subst (IsChain p genesis_hash) split ((verify_chain_iff p s.log).0 v_log) in
          elim (prefix_binds old pre post r chain (same ∙ taken) v_old) [
            | inl equal ↦ inl (
              map (content_of p) post,
              ap (map (content_of p)) split
                  ∙ map-append (content_of p) (pre ++ r ∷ []) post
                  ∙ ap (λ t. t ++ map (content_of p) post) equal,
            )
            | inr f ↦ inr (
                Forgery-weaken (hashed_texts p genesis_hash (pre ++ r ∷ []))
                  (hashed_texts p genesis_hash old.rows) _ _
                  (λ a m.
                    subst (λ rows. Memᴰ a (hashed_texts p genesis_hash rows)) (sym split)
                      (hashed_texts-prefix genesis_hash (pre ++ r ∷ []) post a m))
                  (λ b m. m) f)
          ]
