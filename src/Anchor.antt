-- ===== src/Anchor.antt =====
-- Signed checkpoints of the security log: src/audit/anchor.ts, with the columns of
-- src/db/schema/auditAnchors.ts. Ed25519 is a parameter: the signature under the private key that
-- the server holds, and the check against the public key. The anchors stand in the order of their
-- sequence numbers. A sink is a function that may fail; what it took is kept in `shipped`.
pub mod Laws
pub mod Binding
use capybara_ai.Prelude.{
  ℕ, suc, ◌+◌, String, Bool, true, false, Option, none, some, List, [], ◌∷◌, ◌++◌, length, ltb,
  get_or_else, if◌then◌else◌, not, ◌==◌, string_eq, nat_eq, ◌&&◌, ◌≡◌,
}
use capybara_ai.Prelude.Table.{last_row, first_where}
use capybara_ai.Prelude.Effect.{Result, ok, throw}
use capybara_ai.Hash.{Platform, num, str, obj, end, field, canonical_json}
use capybara_ai.Audit.{SecurityEvent, EventLog, genesis_hash}
use mathlib.Core.Option

-- `AnchorContent`
pub record AnchorContent : Type 0 where
  pub checkpoint_seq : ℕ
  pub event_id : ℕ
  pub event_count : ℕ
  pub chain_hash : String
  pub created_at : ℕ

-- A row of `audit_anchors`, and what a sink is given.
pub record Anchor : Type 0 where
  pub content : AnchorContent
  pub signature : String

pub record ChainHead : Type 0 where
  pub event_id : ℕ
  pub event_count : ℕ
  pub chain_hash : String

pub record AnchorResult : Type 0 where
  pub checkpoint_seq : ℕ
  pub event_id : ℕ
  pub event_count : ℕ
  pub chain_hash : String

pub record AnchorState : Type 0 where
  pub log : EventLog
  pub anchors : List Anchor
  pub shipped : List Anchor

pub data AnchorReason : Type 0 where
  bad_signature hash_mismatch missing_event : AnchorReason

pub record AnchorVerification : Type 0 where
  pub is_ok : Bool
  pub checked : ℕ
  pub broken_at : Option ℕ
  pub reason : Option AnchorReason

abbrev pub AnchorSink : Type 0
AnchorSink = Anchor → Result String (Unit {0})

pub record Ed25519 : Type 0 where
  pub sign : String → String
  pub verify : String → String → Bool

abbrev pub genesis_head : ChainHead
genesis_head = record { event_id = 0; event_count = 0; chain_hash = genesis_hash }

abbrev pub chain_head : EventLog → ChainHead
chain_head log = elim (last_row log.rows) [
  | none ↦ genesis_head
  | some r ↦ record { event_id = r.id; event_count = length log.rows; chain_hash = r.hash }
]

-- `last && last.eventId === head.eventId && last.chainHash === head.chainHash`
abbrev pub is_current : ChainHead → AnchorContent → Bool
is_current head c = c.event_id == head.event_id && c.chain_hash == head.chain_hash

abbrev pub next_seq : Option Anchor → ℕ
next_seq none = 0 + 1
next_seq (some a) = a.content.checkpoint_seq + 1

abbrev pub result_of : AnchorContent → AnchorResult
result_of c = record {
  checkpoint_seq = c.checkpoint_seq;
  event_id = c.event_id;
  event_count = c.event_count;
  chain_hash = c.chain_hash;
}

module _ (p : Platform) (ed : Ed25519) where
  -- `anchorMessage`
  unfoldable pub anchor_message : AnchorContent → String
  anchor_message c = canonical_json p (
      obj (
        field "checkpointSeq" (num c.checkpoint_seq) (
          field "eventId" (num c.event_id) (
            field "eventCount" (num c.event_count) (
              field "chainHash" (str c.chain_hash) (
                field "createdAt" (str (p.to_iso_string c.created_at))
                  (field "algorithm" (str "ed25519") end)))))))

  abbrev pub new_anchor : ℕ → AnchorState → Anchor
  new_anchor now s =
      let head = chain_head s.log in
      let c : AnchorContent = record {
        checkpoint_seq = next_seq (last_row s.anchors);
        event_id = head.event_id;
        event_count = head.event_count;
        chain_hash = head.chain_hash;
        created_at = now;
      } in
      record { content = c; signature = ed.sign (anchor_message c) }

  -- `if (sink) await sink(…)`, after the row is inserted
  abbrev pub ship :
      Option AnchorSink → Anchor → AnchorState → Result String AnchorResult × AnchorState
  ship none a s = (ok (result_of a.content), s)
  ship (some sink) a s = elim (sink a) [
    | ok _ ↦ (ok (result_of a.content), record s { shipped = s.shipped ++ a ∷ [] })
    | throw e ↦ (throw e, s)
  ]

  abbrev pub write_anchor :
      Option AnchorSink → ℕ → AnchorState → Result String AnchorResult × AnchorState
  write_anchor sink now s =
      let a = new_anchor now s in ship sink a (record s { anchors = s.anchors ++ a ∷ [] })

  unfoldable pub create_anchor :
      Option AnchorSink → ℕ → AnchorState → Result String AnchorResult × AnchorState
  create_anchor sink now s = elim (last_row s.anchors) [
    | none ↦ write_anchor sink now s
    | some a ↦
        if is_current (chain_head s.log) a.content
        then (ok (result_of a.content), s)
        else write_anchor sink now s
  ]

  abbrev broken : ℕ → Anchor → AnchorReason → AnchorVerification
  broken checked a why = record {
    is_ok = false;
    checked = checked;
    broken_at = some a.content.checkpoint_seq;
    reason = some why;
  }

  -- The reason to refuse an anchor, if there is one.
  unfoldable pub refusal : EventLog → Anchor → Option AnchorReason
  refusal log a =
      if not (ed.verify (anchor_message a.content) a.signature)
      then some bad_signature
      else if ltb 0 a.content.event_id
      then (elim (first_where (λ (r : SecurityEvent). r.id == a.content.event_id) log.rows) [
        | none ↦ some missing_event
        | some r ↦ if not (r.hash == a.content.chain_hash) then some hash_mismatch else none
      ])
      else none

  -- The loop of `verifyAnchors`.
  unfoldable pub verify_each : EventLog → ℕ → List Anchor → AnchorVerification
  unfolding refusal
  verify_each log checked [] = record {
    is_ok = true;
    checked = checked;
    broken_at = none;
    reason = none;
  }
  verify_each log checked (a ∷ rest) =
      let more = verify_each log (checked + 1) rest in
      elim (refusal log a) [ none ↦ more | some why ↦ broken checked a why ]

  unfoldable pub verify_anchors : AnchorState → AnchorVerification
  unfolding verify_each
  verify_anchors s = verify_each s.log 0 s.anchors
