-- ===== src/Oversight.antt =====
-- Human oversight of risky tool calls: src/compliance/oversight.ts, the table of
-- src/db/schema/oversightRequests.ts, and the policy and the trigger `oversight_forward_only` of
-- src/db/sql/0005_compliance.sql. The state holds the clock and the supply of the ids that the
-- database will draw. The encryption of the arguments is a parameter.
pub mod Forward
pub mod Decisions
pub mod Approvals
use capybara_ai.Prelude.{
  ℕ, ◌+◌, ◌*◌, String, ◌<>◌, Bool, true, false, Option, none, some, List, [], ◌∷◌, ◌++◌, length,
  ltb, leb, if◌then◌else◌, ◌==◌, nat_eq, string_eq, ◌&&◌, not, any, is_none,
}
use capybara_ai.Prelude.Table.{first_where, select_where, update_where}
use capybara_ai.Prelude.Effect.{
  Result, ok, throw, Action, pure, raise, gets, modify, transaction, ◌>>=◌, ◌>>◌,
}
use capybara_ai.Hash.{Platform, Json, str, obj, end, field, canonical_json}
use capybara_ai.Audit.{EventLog, SecurityEventInput, warning, append_security_event}
use capybara_ai.Tenancy.{TenantContext, in_tenant}

pub data RiskLevel : Type 0 where
  low medium high critical : RiskLevel

pub data OversightStatus : Type 0 where
  pending approved rejected expired : OversightStatus

abbrev pub risk_level_rank : RiskLevel → ℕ
risk_level_rank low = 0
risk_level_rank medium = 1
risk_level_rank high = 2
risk_level_rank critical = 3

unfoldable pub requires_oversight : RiskLevel → Bool
requires_oversight level = leb (risk_level_rank high) (risk_level_rank level)

abbrev pub status_index : OversightStatus → ℕ
status_index pending = 0
status_index approved = 1
status_index rejected = 2
status_index expired = 3

abbrev pub has_status : OversightStatus → OversightStatus → Bool
has_status a b = status_index a == status_index b

-- A row of `oversight_requests`.
pub record OversightRequest : Type 0 where
  pub id : ℕ
  pub org_id : ℕ
  pub requested_by : ℕ
  pub tool_name : String
  pub tool_args_hash : String
  pub tool_args_encrypted : String
  pub risk_level : RiskLevel
  pub status : OversightStatus
  pub decided_by : Option ℕ
  pub decided_at : Option ℕ
  pub expires_at : ℕ
  pub outcome_summary : Option String
  pub created_at : ℕ

pub record OversightState : Type 0 where
  pub requests : List OversightRequest
  pub log : EventLog
  pub next_id : ℕ
  pub now : ℕ

pub record OversightCheckResult : Type 0 where
  pub approved : Bool
  pub request_id : ℕ

-- What a gate offers to the sandbox; `S` is the state of the world.
pub record OversightGate (S : Type 0) : Type 0 where
  pub check : String → Json → RiskLevel → Action S String OversightCheckResult
  pub record_outcome : Option (ℕ → String → Action S String (Unit {0}))

abbrev pub status_text : OversightStatus → String
status_text pending = "PENDING"
status_text approved = "APPROVED"
status_text rejected = "REJECTED"
status_text expired = "EXPIRED"

-- The message that the trigger raises.
abbrev pub trigger_error : OversightStatus → String
trigger_error status = "oversight request already decided (status=" <> (status_text status <> ")")

-- The status of the first row that an update meets and that is not pending.
abbrev pub decided_status : (OversightRequest → Bool) → List OversightRequest → OversightStatus
decided_status q [] = pending
decided_status q (r ∷ rows) =
    let rest = decided_status q rows in
    if q r && not (has_status r.status pending) then r.status else rest

-- `UPDATE oversight_requests SET f WHERE q`: the trigger raises at the first row that is not
-- pending, and the statement changes nothing. None of the updates changes the columns that the
-- trigger holds fixed.
unfoldable pub guarded_update :
    (OversightRequest → Bool)
    → (OversightRequest → OversightRequest)
    → List OversightRequest
    → Result String (List OversightRequest)
guarded_update q f rows =
    if any (λ r. q r && not (has_status r.status pending)) rows
    then throw (trigger_error (decided_status q rows))
    else ok (update_where q f rows)

-- The state and the result of a statement that changes the rows `changed`.
abbrev pub store :
    Platform
    → List OversightRequest
    → OversightState
    → Result String (List OversightRequest)
    → Result String (List OversightRequest) × OversightState
store p changed s (ok rows) = (ok changed, record s { requests = rows })
store p changed s (throw e) = (throw (p.query_error e), s)

-- The statement in a state; its value is the list of the rows that it changed.
unfoldable pub update_requests :
    Platform
    → (OversightRequest → Bool)
    → (OversightRequest → OversightRequest)
    → Action OversightState String (List OversightRequest)
unfolding guarded_update
update_requests p q f s = store p (select_where q s.requests) s (guarded_update q f s.requests)

abbrev pub is_stale : TenantContext → ℕ → OversightRequest → Bool
is_stale ctx now r = in_tenant ctx r.org_id && has_status r.status pending && ltb r.expires_at now

abbrev pub expired_at : ℕ → OversightRequest → OversightRequest
expired_at now r = record r { status = expired; decided_at = some now }

-- The statement of `expireStale`, and the number of rows that it returns.
abbrev pub expire_statement : Platform → TenantContext → Action OversightState String ℕ
expire_statement p ctx = do
  now ← gets (λ s. s.now)
  rows ← update_requests p (is_stale ctx now) (expired_at now)
  pure (length rows)

unfoldable pub expire_stale : Platform → TenantContext → Action OversightState String ℕ
unfolding update_requests
expire_stale p ctx = transaction (expire_statement p ctx)

module _ (p : Platform) (encrypt : ℕ → String → String) where
  abbrev pub args_hash : Json → String
  args_hash args = p.sha256_hex (canonical_json p args)

  abbrev pub matches : TenantContext → String → Json → OversightStatus → OversightRequest → Bool
  matches ctx tool args status r =
      in_tenant ctx r.org_id
      && r.tool_name == tool
      && r.tool_args_hash == args_hash args
      && has_status r.status status

  abbrev pub is_usable : TenantContext → String → Json → OversightRequest → Bool
  is_usable ctx tool args r = matches ctx tool args approved r && is_none r.outcome_summary

  abbrev pub new_request :
      TenantContext → String → Json → RiskLevel → OversightState → OversightRequest
  new_request ctx tool args level s = record {
    id = s.next_id;
    org_id = ctx.org_id;
    requested_by = ctx.user_id;
    tool_name = tool;
    tool_args_hash = args_hash args;
    tool_args_encrypted = encrypt ctx.org_id (canonical_json p args);
    risk_level = level;
    status = pending;
    decided_by = none;
    decided_at = none;
    expires_at = s.now + 24 * 60 * 60 * 1000;
    outcome_summary = none;
    created_at = s.now;
  }

  abbrev pub insert_request : OversightRequest → OversightState → OversightState
  insert_request r s = record s { requests = s.requests ++ r ∷ []; next_id = s.next_id + 1 }

  -- `if (this.notify) await this.notify(…)`
  abbrev pub notify_new :
      Option (ℕ → Result String (Unit {0})) → ℕ → Action OversightState String (Unit {0})
  notify_new none id s = (ok tt, s)
  notify_new (some notify) id s = (notify id, s)

  -- The second transaction of `DbOversightGate.check`: from an approved request, if one was found,
  -- or from a pending one, or by a new one.
  abbrev pub answer_or_request :
      TenantContext
      → Option (ℕ → Result String (Unit {0}))
      → String
      → Json
      → RiskLevel
      → Option OversightRequest
      → Option OversightRequest
      → Action OversightState String OversightCheckResult
  answer_or_request ctx notify tool args level (some r) reusable =
      pure (record { approved = true; request_id = r.id })
  answer_or_request ctx notify tool args level none (some r) =
      pure (record { approved = false; request_id = r.id })
  answer_or_request ctx notify tool args level none none = do
    id ← gets (λ s. s.next_id)
    modify (λ s. insert_request (new_request ctx tool args level s) s)
    notify_new notify id
    pure (record { approved = false; request_id = id })

  unfoldable pub look_up_or_request :
      TenantContext
      → Option (ℕ → Result String (Unit {0}))
      → String
      → Json
      → RiskLevel
      → Action OversightState String OversightCheckResult
  look_up_or_request ctx notify tool args level = do
    usable ← gets (λ s. first_where (is_usable ctx tool args) s.requests)
    reusable ← gets (λ s. first_where (matches ctx tool args pending) s.requests)
    answer_or_request ctx notify tool args level usable reusable

  unfoldable pub check :
      TenantContext
      → Option (ℕ → Result String (Unit {0}))
      → String
      → Json
      → RiskLevel
      → Action OversightState String OversightCheckResult
  unfolding expire_stale look_up_or_request
  check ctx notify tool args level = do
    expire_stale p ctx
    transaction (look_up_or_request ctx notify tool args level)

  unfoldable pub record_outcome :
      TenantContext → ℕ → String → Action OversightState String (Unit {0})
  unfolding update_requests
  record_outcome ctx id summary = transaction do
    update_requests p (λ r. in_tenant ctx r.org_id && r.id == id)
        (λ r. record r { outcome_summary = some summary })
    pure tt

  -- `DbOversightGate`
  unfoldable pub db_oversight_gate :
      TenantContext → Option (ℕ → Result String (Unit {0})) → OversightGate OversightState
  unfolding check record_outcome
  db_oversight_gate ctx notify = record {
    check = check ctx notify;
    record_outcome = some (record_outcome ctx);
  }

  abbrev pub decision_event : TenantContext → ℕ → ℕ → OversightStatus → SecurityEventInput
  decision_event ctx id decider status = record {
    org_id = some ctx.org_id;
    event_type = if has_status status approved then "oversight.approved" else "oversight.rejected";
    severity = warning;
    payload = obj (
        field "requestId" (str (p.uuid_text id))
          (field "decidedBy" (str (p.uuid_text decider)) end));
  }

  abbrev pub is_open : TenantContext → ℕ → OversightRequest → Bool
  is_open ctx id r = in_tenant ctx r.org_id && r.id == id && has_status r.status pending

  abbrev pub decided : OversightStatus → ℕ → ℕ → OversightRequest → OversightRequest
  decided status decider now r = record r {
    status = status;
    decided_by = some decider;
    decided_at = some now;
  }

  abbrev pub log_decision : SecurityEventInput → Bool → Action OversightState String Bool
  log_decision event false s = (ok false, s)
  log_decision event true s =
      (ok true, record s { log = (append_security_event p s.now event s.log).1 })

  -- The statement of `decide`, and whether it returned a row.
  abbrev pub decide_statement :
      TenantContext → ℕ → ℕ → OversightStatus → Action OversightState String Bool
  decide_statement ctx id decider status = do
    now ← gets (λ s. s.now)
    rows ← update_requests p (is_open ctx id) (decided status decider now)
    pure (ltb 0 (length rows))

  unfoldable pub decide :
      TenantContext → ℕ → ℕ → OversightStatus → Action OversightState String Bool
  unfolding update_requests
  decide ctx id decider status = do
    done ← transaction (decide_statement ctx id decider status)
    log_decision (decision_event ctx id decider status) done

  unfoldable pub approve_request : TenantContext → ℕ → ℕ → Action OversightState String Bool
  unfolding decide
  approve_request ctx id decider = decide ctx id decider approved

  unfoldable pub reject_request : TenantContext → ℕ → ℕ → Action OversightState String Bool
  unfolding decide
  reject_request ctx id decider = decide ctx id decider rejected
