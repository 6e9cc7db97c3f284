-- ===== src/Anchor/Laws.antt =====
-- Checkpoints that src/audit/anchor.ts writes are accepted by its own verification.
use capybara_ai.Prelude.{
  ℕ, ◌+◌, ◌<◌, ◌≡◌, refl, sym, ap, ◌∙◌, ◌⊎◌, inl, inr, String, true, Bool-cases, Option, none, some,
  Option-cases, List, [], ◌∷◌, ◌++◌, arith, eq_iff, ◌==◌, nat_eq, string_eq, All, All-append,
}
use capybara_ai.Prelude.Table.{last_row, last_row-append, first_where}
use capybara_ai.Prelude.Effect.{ok}
use mathlib.Core.Path.{subst₂}
use capybara_ai.Hash.{Platform}
use capybara_ai.Audit.{SecurityEvent, EventLog}
use capybara_ai.Anchor.{
  Anchor, AnchorState, AnchorSink, Ed25519, chain_head, anchor_message, new_anchor, ship,
  write_anchor, create_anchor, refusal, verify_each, verify_anchors, is_current, result_of,
}

-- The rows' ids rise, from 1 on, and so differ.
abbrev pub IsRising : ℕ → List SecurityEvent → Type 0
IsRising n [] = Unit
IsRising n (r ∷ rows) = (n < r.id) × IsRising r.id rows

IsRising-last :
    (n : ℕ) (rows : List SecurityEvent) (r : SecurityEvent)
    → IsRising n rows
    → last_row rows ≡ some r
    → n < r.id
IsRising-last n [] r h e = cc
IsRising-last n (s ∷ []) r h e = ground arith
IsRising-last n (s ∷ t ∷ rows) r h e = omega (arith, h.0, IsRising-last s.id (t ∷ rows) r h.1 e)

-- The last row is found by its id.
pub first_where-last :
    (n : ℕ) (rows : List SecurityEvent) (r : SecurityEvent)
    → IsRising n rows
    → last_row rows ≡ some r
    → first_where (λ (s : SecurityEvent). s.id == r.id) rows ≡ some r
first_where-last n [] r h e = cc
first_where-last n (s ∷ []) r h e = ground arith
first_where-last n (s ∷ t ∷ rows) r h e =
    ground (arith, first_where-last s.id (t ∷ rows) r h.1, IsRising-last s.id (t ∷ rows) r h.1)

module _ (p : Platform) (ed : Ed25519) where
  abbrev pub Accepted : EventLog → List Anchor → Type 0
  Accepted log anchors = All (λ a. refusal p ed log a ≡ none) anchors

  pub verify_each_sound :
      (log : EventLog) (n : ℕ) (rows : List Anchor)
      → (verify_each p ed log n rows).is_ok ≡ true
      → Accepted log rows
  unfolding verify_each
  verify_each_sound log n [] h = tt
  verify_each_sound log n (a ∷ rest) h = ground (arith, verify_each_sound log (n + 1) rest)

  pub verify_each_complete :
      (log : EventLog) (n : ℕ) (rows : List Anchor)
      → Accepted log rows
      → (verify_each p ed log n rows).is_ok ≡ true
  unfolding verify_each
  verify_each_complete log n [] h = refl
  verify_each_complete log n (a ∷ rest) h =
      ground (arith, verify_each_complete log (n + 1) rest h.1)

  -- What a call leaves behind: the log as it was, and a last anchor for the head of the log.
  pub record IsAnchored (s t : AnchorState) : Type 0 where
    pub same_log : t.log ≡ s.log
    pub last : Anchor
    pub is_last : last_row t.anchors ≡ some last
    pub current : is_current (chain_head s.log) last.content ≡ true

  is_current_self :
      (now : ℕ) (s : AnchorState)
      → is_current (chain_head s.log) (new_anchor p ed now s).content ≡ true
  is_current_self now s =
      ground (arith, eq_iff (chain_head s.log).chain_hash (chain_head s.log).chain_hash)

  ship-state :
      (sink : Option AnchorSink) (a : Anchor) (s : AnchorState)
      → ((ship p ed sink a s).1.log ≡ s.log) × ((ship p ed sink a s).1.anchors ≡ s.anchors)
  ship-state none a s = (refl, refl)
  ship-state (some sink) a s = ground arith

  write_anchor-state :
      (sink : Option AnchorSink) (now : ℕ) (s : AnchorState)
      → let t = (write_anchor p ed sink now s).1 in
        (t.log ≡ s.log) × (t.anchors ≡ s.anchors ++ new_anchor p ed now s ∷ [])
  write_anchor-state sink now s =
      let a = new_anchor p ed now s in
      ship-state sink a (record s { anchors = s.anchors ++ a ∷ [] })

  write_anchor-IsAnchored :
      (sink : Option AnchorSink) (now : ℕ) (s : AnchorState)
      → IsAnchored s (write_anchor p ed sink now s).1
  write_anchor-IsAnchored sink now s =
      let (l, e) = write_anchor-state sink now s in
      record {
        same_log = l;
        last = new_anchor p ed now s;
        is_last = ap last_row e ∙ last_row-append s.anchors (new_anchor p ed now s);
        current = is_current_self now s;
      }

  -- The state after a call is the state before it, under a current last anchor, or that of a write.
  create_anchor-cases :
      (sink : Option AnchorSink) (now : ℕ) (s : AnchorState)
      → ((create_anchor p ed sink now s).1 ≡ s)
          × ((a : Anchor) × (last_row s.anchors ≡ some a)
              × (is_current (chain_head s.log) a.content ≡ true))
        ⊎ ((create_anchor p ed sink now s).1 ≡ (write_anchor p ed sink now s).1)
  unfolding create_anchor
  create_anchor-cases sink now s = elim (Option-cases (last_row s.anchors)) [
    | inl first ↦ inr (ground arith)
    | inr (a, e) ↦ elim (Bool-cases (is_current (chain_head s.log) a.content)) [
      | inl old ↦ inl (rw (e, create_anchor) (rw old), (a, e, old))
      | inr new ↦ inr (ground arith)
    ]
  ]

  create_anchor-IsAnchored :
      (sink : Option AnchorSink) (now : ℕ) (s : AnchorState)
      → IsAnchored s (create_anchor p ed sink now s).1
  create_anchor-IsAnchored sink now s = elim (create_anchor-cases sink now s) [
    | inl (same, (a, e, old)) ↦
        rw same (record { same_log = refl; last = a; is_last = e; current = old })
    | inr written ↦ rw written (write_anchor-IsAnchored sink now s)
  ]

  create_anchor_current :
      (sink : Option AnchorSink) (now : ℕ) (s : AnchorState) (a : Anchor)
      → last_row s.anchors ≡ some a
      → is_current (chain_head s.log) a.content ≡ true
      → create_anchor p ed sink now s ≡ (ok (result_of a.content), s)
  unfolding create_anchor
  create_anchor_current sink now s a e c = rw (e, create_anchor) (rw c)

  -- While no event is appended, a second call writes and ships nothing, whatever became of the first
  -- one's sink, and it succeeds.
  pub create_anchor_idempotent :
      (sink sink' : Option AnchorSink) (now later : ℕ) (s : AnchorState)
      → let t = (create_anchor p ed sink now s).1 in
        (a : Anchor) × (last_row t.anchors ≡ some a)
        × (create_anchor p ed sink' later t ≡ (ok (result_of a.content), t))
  create_anchor_idempotent sink sink' now later s =
      let t = (create_anchor p ed sink now s).1 in
      let h = create_anchor-IsAnchored sink now s in
      (
        h.last,
        h.is_last,
        create_anchor_current sink' later t h.last h.is_last (rw (h.same_log) h.current),
      )

  module _ (signed : (m : String) → ed.verify m (ed.sign m) ≡ true) where
    new_anchor-Accepted :
        (now : ℕ) (s : AnchorState)
        → IsRising 0 s.log.rows
        → refusal p ed s.log (new_anchor p ed now s) ≡ none
    unfolding refusal
    new_anchor-Accepted now s h = elim (Option-cases (last_row s.log.rows)) [
      | inl empty ↦ ground (arith, signed (anchor_message p ed (new_anchor p ed now s).content))
      | inr (r, e) ↦ ground (
        arith,
        signed (anchor_message p ed (new_anchor p ed now s).content),
        first_where-last 0 s.log.rows r h e,
        eq_iff r.hash r.hash,
      )
    ]

    write_anchor-Accepted :
        (sink : Option AnchorSink) (now : ℕ) (s : AnchorState)
        → IsRising 0 s.log.rows
        → Accepted s.log s.anchors
        → let t = (write_anchor p ed sink now s).1 in Accepted t.log t.anchors
    write_anchor-Accepted sink now s rising h =
        let (l, e) = write_anchor-state sink now s in
        subst₂ Accepted (sym l) (sym e) (
          All-append (λ a. refusal p ed s.log a ≡ none) s.anchors _ h
            (new_anchor-Accepted now s rising, tt))

    create_anchor-Accepted :
        (sink : Option AnchorSink) (now : ℕ) (s : AnchorState)
        → IsRising 0 s.log.rows
        → Accepted s.log s.anchors
        → let t = (create_anchor p ed sink now s).1 in Accepted t.log t.anchors
    create_anchor-Accepted sink now s rising h = elim (create_anchor-cases sink now s) [
      | inl (same, _) ↦ rw same h
      | inr written ↦ rw written (write_anchor-Accepted sink now s rising h)
    ]

    -- If a signature verifies under the public key, and the events' ids rise from 1 on, then anchors
    -- that all verify still do after a new checkpoint, whether its sink takes it, fails or is absent.
    pub verify_anchors-create_anchor :
        (sink : Option AnchorSink) (now : ℕ) (s : AnchorState)
        → IsRising 0 s.log.rows
        → (verify_anchors p ed s).is_ok ≡ true
        → (verify_anchors p ed (create_anchor p ed sink now s).1).is_ok ≡ true
    unfolding verify_anchors
    verify_anchors-create_anchor sink now s rising h =
        let t = (create_anchor p ed sink now s).1 in
        verify_each_complete t.log 0 t.anchors
          (create_anchor-Accepted sink now s rising (verify_each_sound s.log 0 s.anchors h))
