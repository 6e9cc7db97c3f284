-- ===== src/Tests/Records.antt =====
-- src/audit at small inputs.
use capybara_ai.Hash.{canonical_json, sort_deep}
use capybara_ai.Prelude.{
  ◌<◌, true, some, List, [], ◌∷◌, ◌++◌, map, ◌≡◌, refl, ◌↔◌, ◌⊎◌, eq_iff, arith, String,
}
use capybara_ai.Prelude.Effect.{throw}
use capybara_ai.Audit.{
  EventLog, append_security_event, verify_chain, genesis_hash, content_of, compute_hash,
  canonical_content,
}
use capybara_ai.Audit.Chain.{
  IsChain, final_hash, verify_chain_iff, verify_chain-append_security_event,
}
use capybara_ai.Audit.Tamper.{Forgery, hashed_texts, verify_chain_binds_contents}
use capybara_ai.Anchor.{
  Anchor, AnchorState, AnchorSink, create_anchor, verify_anchors, new_anchor, anchor_message,
}
use capybara_ai.Anchor.Laws.{IsRising, verify_anchors-create_anchor}
use capybara_ai.Anchor.Binding.{verify_anchors_pins_log}
use capybara_ai.Tests.Samples.{
  platform, hex_platform, ed, no_events, login_event, lock_event, count-fit, backwards,
}
use mathlib.Core.List.{Memᴰ}
use Prim.Native.String.{count}

abbrev two_events : EventLog
two_events =
    (append_security_event platform 2 lock_event
      (append_security_event platform 1 login_event no_events).1).1

two_events-verifies : (verify_chain platform two_events).is_ok ≡ true
unfolding verify_chain append_security_event compute_hash canonical_content canonical_json sort_deep
two_events-verifies = refl

verify_chain_iff_example :
    ((verify_chain platform two_events).is_ok ≡ true)
    ↔ IsChain platform genesis_hash two_events.rows
verify_chain_iff_example = verify_chain_iff platform two_events

verify_chain-append_security_event_example :
    (verify_chain platform (append_security_event platform 3 login_event two_events).1).is_ok ≡ true
verify_chain-append_security_event_example =
    verify_chain-append_security_event platform 3 login_event two_events two_events-verifies

abbrev hashed : EventLog
hashed = (append_security_event hex_platform 1 login_event no_events).1

hashed-verifies : (verify_chain hex_platform hashed).is_ok ≡ true
unfolding verify_chain append_security_event compute_hash canonical_content canonical_json sort_deep
hashed-verifies = refl

hex_length : (s : String) → count (hex_platform.sha256_hex s) ≡ 64
hex_length s = count-fit 64 (backwards "" s)

-- The same event under another serial id.
abbrev renumbered : EventLog
renumbered = (append_security_event hex_platform 1 login_event (record no_events { next_id = 6 })).1

renumbered-verifies : (verify_chain hex_platform renumbered).is_ok ≡ true
unfolding verify_chain append_security_event compute_hash canonical_content canonical_json sort_deep
renumbered-verifies = refl

one_final_hash :
    final_hash hex_platform genesis_hash hashed.rows
    ≡ final_hash hex_platform genesis_hash renumbered.rows
unfolding append_security_event
one_final_hash = refl

verify_chain_binds_contents_example :
    (map (content_of hex_platform) hashed.rows ≡ map (content_of hex_platform) renumbered.rows)
    ⊎ Forgery hex_platform.sha256_hex
        (hashed_texts hex_platform genesis_hash hashed.rows)
        (hashed_texts hex_platform genesis_hash renumbered.rows)
verify_chain_binds_contents_example =
    verify_chain_binds_contents hex_platform hex_length hashed renumbered hashed-verifies
      renumbered-verifies one_final_hash

abbrev unanchored : AnchorState
unanchored = record { log = two_events; anchors = []; shipped = [] }

abbrev down : AnchorSink
down a = throw "sink down"

signed : (m : String) → ed.verify m (ed.sign m) ≡ true
signed m = (eq_iff m m).1 refl

rising : IsRising 0 unanchored.log.rows
unfolding append_security_event
rising = (omega arith, (omega arith, tt))

nothing_to_refuse : (verify_anchors platform ed unanchored).is_ok ≡ true
unfolding verify_anchors
nothing_to_refuse = refl

verify_anchors-create_anchor_example :
    (verify_anchors platform ed (create_anchor platform ed (some down) 3 unanchored).1).is_ok ≡ true
verify_anchors-create_anchor_example =
    verify_anchors-create_anchor platform ed signed (some down) 3 unanchored rising
      nothing_to_refuse

abbrev plain : AnchorState
plain = record { log = hashed; anchors = []; shipped = [] }

abbrev checkpoint : Anchor
checkpoint = new_anchor hex_platform ed 2 plain

abbrev later : AnchorState
later = record {
  log = (append_security_event hex_platform 5 lock_event hashed).1;
  anchors = checkpoint ∷ [];
  shipped = [];
}

later-verifies : (verify_chain hex_platform later.log).is_ok ≡ true
later-verifies = verify_chain-append_security_event hex_platform 5 lock_event hashed hashed-verifies

anchors-verify : (verify_anchors hex_platform ed later).is_ok ≡ true
unfolding verify_anchors append_security_event anchor_message canonical_json sort_deep compute_hash
    canonical_content
anchors-verify = refl

is_positive : 0 < checkpoint.content.event_id
unfolding append_security_event
is_positive = omega arith

same_hash : checkpoint.content.chain_hash ≡ final_hash hex_platform genesis_hash hashed.rows
unfolding append_security_event
same_hash = refl

verify_anchors_pins_log_example :
    ((rest : List String) × (map (content_of hex_platform) later.log.rows
        ≡ map (content_of hex_platform) hashed.rows ++ rest))
    ⊎ Forgery hex_platform.sha256_hex
        (hashed_texts hex_platform genesis_hash later.log.rows)
        (hashed_texts hex_platform genesis_hash hashed.rows)
verify_anchors_pins_log_example =
    verify_anchors_pins_log hex_platform ed hex_length later checkpoint hashed (Memᴰ.head refl)
      is_positive same_hash hashed-verifies later-verifies anchors-verify
