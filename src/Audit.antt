-- ===== src/Audit.antt =====
-- The tamper-evident security log: src/audit/securityLog.ts and src/audit/verifyChain.ts, with the
-- columns of src/db/schema/securityEvents.ts that they use. An append runs in a transaction under
-- an advisory lock, so one append is one step. The table's rows stand in the order of their serial
-- ids, and `next_id` is the sequence. UUIDs and times are numbers.
pub mod Chain
pub mod Tamper
use capybara_ai.Prelude.{
  ℕ, zero, suc, ◌+◌, String, Bool, true, false, Option, none, some, List, [], ◌∷◌, ◌++◌, length,
  get_or_else, if◌then◌else◌, not, ◌==◌, string_eq, nat_eq,
}
use capybara_ai.Prelude.Table.{last_row}
use capybara_ai.Hash.{Platform, Json, null, str, obj, end, field, canonical_json}
use mathlib.Core.Option
use Prim.Native.String.{◌++◌ as append}

pub data Severity : Type 0 where
  info warning critical : Severity

abbrev pub severity_text : Severity → String
severity_text info = "info"
severity_text warning = "warning"
severity_text critical = "critical"

-- `GENESIS_HASH`, `'0'.repeat(64)`
abbrev pub genesis_hash : String
genesis_hash = "0000000000000000000000000000000000000000000000000000000000000000"

-- `SecurityEventInput`
pub record SecurityEventInput : Type 0 where
  pub org_id : Option ℕ
  pub event_type : String
  pub severity : Severity
  pub payload : Json

-- A row of `security_events`.
pub record SecurityEvent : Type 0 where
  pub id : ℕ
  pub org_id : Option ℕ
  pub event_type : String
  pub severity : Severity
  pub payload : Json
  pub prev_hash : String
  pub hash : String
  pub created_at : ℕ

pub record EventLog : Type 0 where
  pub rows : List SecurityEvent
  pub next_id : ℕ

pub record AppendedEvent : Type 0 where
  pub id : ℕ
  pub hash : String

pub data Reason : Type 0 where
  hash_mismatch prev_hash_mismatch : Reason

pub record ChainVerification : Type 0 where
  pub is_ok : Bool
  pub length : ℕ
  pub broken_at : Option ℕ
  pub reason : Option Reason

module _ (p : Platform) where
  abbrev pub org_json : Option ℕ → Json
  org_json none = null
  org_json (some org) = str (p.uuid_text org)

  -- `canonicalContent`
  unfoldable pub canonical_content : Option ℕ → String → Severity → Json → ℕ → String
  canonical_content org_id event_type severity payload created_at = canonical_json p (
      obj (
        field "orgId" (org_json org_id) (
          field "eventType" (str event_type) (
            field "severity" (str (severity_text severity)) (
              field "payload" payload
                (field "createdAt" (str (p.to_iso_string created_at)) end))))))

  -- The text that the hash of a row commits to.
  abbrev pub content_of : SecurityEvent → String
  content_of r = canonical_content r.org_id r.event_type r.severity r.payload r.created_at

  unfoldable pub compute_hash : String → String → String
  compute_hash prev_hash content = p.sha256_hex (append prev_hash (append "\n" content))

  abbrev pub tail_hash : List SecurityEvent → String
  tail_hash rows =
      get_or_else (Option.map (λ (r : SecurityEvent). r.hash) (last_row rows)) genesis_hash

  abbrev pub new_event : ℕ → SecurityEventInput → EventLog → SecurityEvent
  new_event now input log =
      let prev_hash = tail_hash log.rows in
      let content =
        canonical_content input.org_id input.event_type input.severity input.payload now in
      record {
        id = log.next_id;
        org_id = input.org_id;
        event_type = input.event_type;
        severity = input.severity;
        payload = input.payload;
        prev_hash = prev_hash;
        hash = compute_hash prev_hash content;
        created_at = now;
      }

  -- The insertion always returns its row, so the source's check for none is not reached.
  unfoldable pub append_security_event :
      ℕ → SecurityEventInput → EventLog → AppendedEvent × EventLog
  append_security_event now input log =
      let row = new_event now input log in
      (
        record { id = row.id; hash = row.hash },
        record { rows = log.rows ++ row ∷ []; next_id = log.next_id + 1 },
      )

  abbrev broken : ℕ → ℕ → Reason → ChainVerification
  broken total id why = record {
    is_ok = false;
    length = total;
    broken_at = some id;
    reason = some why;
  }

  -- The loop of `verifyChain` over the rows that are left, from the hash before them.
  unfoldable pub verify_from : ℕ → String → List SecurityEvent → ChainVerification
  verify_from total prev [] = record {
    is_ok = true;
    length = total;
    broken_at = none;
    reason = none;
  }
  verify_from total prev (row ∷ rows) =
      if not (row.prev_hash == prev)
      then broken total row.id prev_hash_mismatch
      else if not (compute_hash prev (content_of row) == row.hash)
      then broken total row.id hash_mismatch
      else verify_from total row.hash rows

  unfoldable pub verify_chain : EventLog → ChainVerification
  unfolding verify_from
  verify_chain log = verify_from (length log.rows) genesis_hash log.rows
