-- ===== src/Audit/Chain.antt =====
-- What src/audit/verifyChain.ts accepts, and that appends keep a log acceptable.
use capybara_ai.Prelude.{
  ℕ, ◌≡◌, refl, sym, ap, ◌↔◌, String, true, List, [], ◌∷◌, ◌++◌, length, arith, eq_iff, get_or_else,
}
use capybara_ai.Prelude.Table.{last_row}
use capybara_ai.Hash.{Platform}
use capybara_ai.Audit.{
  SecurityEvent, SecurityEventInput, EventLog, genesis_hash, content_of, compute_hash, tail_hash,
  new_event, append_security_event, verify_from, verify_chain,
}
use mathlib.Core.Option

module _ (p : Platform) where
  -- Each row names the hash before it and commits to its own content.
  abbrev pub IsChain : String → List SecurityEvent → Type 0
  IsChain prev [] = Unit
  IsChain prev (row ∷ rows) =
      (row.prev_hash ≡ prev)
      × (row.hash ≡ compute_hash p prev (content_of p row))
      × IsChain row.hash rows

  -- The hash after the last row.
  abbrev pub final_hash : String → List SecurityEvent → String
  final_hash prev [] = prev
  final_hash prev (row ∷ rows) = final_hash row.hash rows

  pub verify_from_sound :
      (n : ℕ) (prev : String) (rows : List SecurityEvent)
      → (verify_from p n prev rows).is_ok ≡ true
      → IsChain prev rows
  unfolding verify_from
  verify_from_sound n prev [] h = tt
  verify_from_sound n prev (row ∷ rows) h = ground (
    arith,
    eq_iff row.prev_hash prev,
    eq_iff (compute_hash p prev (content_of p row)) row.hash,
    verify_from_sound n row.hash rows,
  )

  pub verify_from_complete :
      (n : ℕ) (prev : String) (rows : List SecurityEvent)
      → IsChain prev rows
      → (verify_from p n prev rows).is_ok ≡ true
  unfolding verify_from
  verify_from_complete n prev [] h = refl
  verify_from_complete n prev (row ∷ rows) h = ground (
    arith,
    eq_iff row.prev_hash prev,
    eq_iff (compute_hash p prev (content_of p row)) row.hash,
    verify_from_complete n row.hash rows h.2,
  )

  final_hash-cons :
      (prev d : String) (r : SecurityEvent) (rows : List SecurityEvent)
      → final_hash prev (r ∷ rows)
        ≡ get_or_else (Option.map (λ (e : SecurityEvent). e.hash) (last_row (r ∷ rows))) d
  final_hash-cons prev d r [] = refl
  final_hash-cons prev d r (s ∷ rows) = final_hash-cons r.hash d s rows

  pub final_hash-tail :
      (rows : List SecurityEvent) → tail_hash p rows ≡ final_hash genesis_hash rows
  final_hash-tail [] = refl
  final_hash-tail (r ∷ rows) = sym (final_hash-cons genesis_hash genesis_hash r rows)

  IsChain-append :
      (prev : String) (rows : List SecurityEvent) (row : SecurityEvent)
      → IsChain prev rows
      → row.prev_hash ≡ final_hash prev rows
      → row.hash ≡ compute_hash p (final_hash prev rows) (content_of p row)
      → IsChain prev (rows ++ row ∷ [])
  IsChain-append prev [] row h e f = (e, f, tt)
  IsChain-append prev (s ∷ rows) row h e f = (h.0, h.1, IsChain-append s.hash rows row h.2 e f)

  -- `verify_chain` accepts a log exactly when every row names the hash of the row before it (the
  -- genesis hash for the first) and its own hash is the one of that hash and its content.
  pub verify_chain_iff :
      (log : EventLog) → ((verify_chain p log).is_ok ≡ true) ↔ IsChain genesis_hash log.rows
  unfolding verify_chain
  verify_chain_iff log = (
    verify_from_sound (length log.rows) genesis_hash log.rows,
    verify_from_complete (length log.rows) genesis_hash log.rows,
  )

  append-IsChain :
      (now : ℕ) (input : SecurityEventInput) (log : EventLog)
      → IsChain genesis_hash log.rows
      → IsChain genesis_hash (append_security_event p now input log).1.rows
  unfolding append_security_event
  append-IsChain now input log h =
      IsChain-append genesis_hash log.rows (new_event p now input log) h (final_hash-tail log.rows)
        (ap (λ t. compute_hash p t (content_of p (new_event p now input log)))
          (final_hash-tail log.rows))

  -- A log that verifies still verifies after an event is appended, whatever the event.
  pub verify_chain-append_security_event :
      (now : ℕ) (input : SecurityEventInput) (log : EventLog)
      → (verify_chain p log).is_ok ≡ true
      → (verify_chain p (append_security_event p now input log).1).is_ok ≡ true
  verify_chain-append_security_event now input log h =
      (verify_chain_iff _).1 (append-IsChain now input log ((verify_chain_iff log).0 h))
