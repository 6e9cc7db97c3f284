-- ===== src/Security/Anomaly.antt =====
-- Anomaly detection over the security log and the audit log: src/security/anomaly.ts. The clock of an append
-- is an argument, by the kind of the anomaly. A notification may fail, with an error that
-- `detectAnomalies` passes on. A window is not longer than the time since the epoch.
mod Raised
pub mod Once
use capybara_ai.Prelude.{
  ℕ, ◌+◌, ◌*◌, ◌/◌, String, Bool, true, false, Option, none, some, List, [], ◌∷◌, any, leb, ltb,
  ◌==◌, string_eq, ◌&&◌, if◌then◌else◌, get_or_else,
}
use capybara_ai.Prelude.Effect.{Result, ok, throw}
use capybara_ai.Prelude.Table.{count_where}
use capybara_ai.Hash.{Platform, Json, Fields, null, bool, num, str, arr, obj, end, field}
use capybara_ai.Audit.{SecurityEvent, SecurityEventInput, EventLog, critical, append_security_event}

pub record AnomalyThresholds : Type 0 where
  pub auth_lockouts : ℕ
  pub oversight_rejections : ℕ
  pub key_rotations : ℕ
  pub role_changes : ℕ

abbrev pub default_thresholds : AnomalyThresholds
default_thresholds = record {
  auth_lockouts = 5;
  oversight_rejections = 5;
  key_rotations = 3;
  role_changes = 5;
}

-- `Partial<AnomalyThresholds>`
pub record PartialThresholds : Type 0 where
  pub auth_lockouts : Option ℕ
  pub oversight_rejections : Option ℕ
  pub key_rotations : Option ℕ
  pub role_changes : Option ℕ

-- `{ ...DEFAULT_THRESHOLDS, ...opts.thresholds }`
abbrev pub merged : PartialThresholds → AnomalyThresholds
merged o = record {
  auth_lockouts = get_or_else o.auth_lockouts default_thresholds.auth_lockouts;
  oversight_rejections = get_or_else o.oversight_rejections default_thresholds.oversight_rejections;
  key_rotations = get_or_else o.key_rotations default_thresholds.key_rotations;
  role_changes = get_or_else o.role_changes default_thresholds.role_changes;
}

pub record Anomaly : Type 0 where
  pub kind : String
  pub count : ℕ
  pub threshold : ℕ
  pub window_minutes : ℕ

-- The columns of `audit_log` that are read.
pub record AuditRow : Type 0 where
  pub action : String
  pub created_at : ℕ

-- `created_at >= sinceIso`, with the window's length taken to the other side.
abbrev pub is_recent : ℕ → ℕ → ℕ → Bool
is_recent now window_ms created_at = leb now (created_at + window_ms)

abbrev pub recent_of_type : ℕ → ℕ → String → SecurityEvent → Bool
recent_of_type now window_ms event_type r =
    r.event_type == event_type && is_recent now window_ms r.created_at

abbrev pub recent_action : ℕ → ℕ → String → AuditRow → Bool
recent_action now window_ms action r = r.action == action && is_recent now window_ms r.created_at

-- `Math.round(windowMs / 60_000)`
abbrev pub rounded_minutes : ℕ → ℕ
rounded_minutes window_ms = (window_ms + 30000) / 60000

-- The checks, in their order.
abbrev pub checks_of : ℕ → ℕ → AnomalyThresholds → List SecurityEvent → List AuditRow → List Anomaly
checks_of now window_ms th events audit =
    let minutes = rounded_minutes window_ms in
    record {
      kind = "auth_lockout_burst";
      threshold = th.auth_lockouts;
      count = count_where (recent_of_type now window_ms "auth.account_locked") events;
      window_minutes = minutes;
    }
    ∷ record {
      kind = "oversight_rejection_burst";
      threshold = th.oversight_rejections;
      count = count_where (recent_of_type now window_ms "oversight.rejected") events;
      window_minutes = minutes;
    }
    ∷ record {
      kind = "key_rotation_burst";
      threshold = th.key_rotations;
      count = count_where (recent_of_type now window_ms "encryption.rotated") events;
      window_minutes = minutes;
    }
    ∷ record {
      kind = "privilege_change_burst";
      threshold = th.role_changes;
      count = count_where (recent_action now window_ms "user.role_changed") audit;
      window_minutes = minutes;
    }
    ∷ []

abbrev pub payload_of : Anomaly → Json
payload_of a = obj (
    field "kind" (str a.kind) (
      field "count" (num a.count)
        (field "threshold" (num a.threshold) (field "windowMinutes" (num a.window_minutes) end))))

abbrev pub event_of : Anomaly → SecurityEventInput
event_of a = record {
  org_id = none;
  event_type = "security.anomaly";
  severity = critical;
  payload = payload_of a;
}

-- What notifying of an anomaly comes to, if there is someone to notify.
abbrev pub Notify : Type 0
Notify = Option (Anomaly → Result String (Unit {0}))

abbrev pub notify_of : Notify → Anomaly → Result String (Unit {0})
notify_of none a = ok tt
notify_of (some notify) a = notify a

abbrev pub add_raised :
    Anomaly → Result String (List Anomaly) × EventLog → Result String (List Anomaly) × EventLog
add_raised a (throw e, log) = (throw e, log)
add_raised a (ok raised, log) = (ok (a ∷ raised), log)

-- The loop goes on, unless the notification failed.
abbrev pub after_notify :
    Result String (Unit {0})
    → Anomaly
    → EventLog
    → Result String (List Anomaly) × EventLog
    → Result String (List Anomaly) × EventLog
after_notify (throw e) a log rest = (throw e, log)
after_notify (ok _) a log rest = add_raised a rest

module _ (p : Platform) where
  -- The text of a value, `->>`: no text for a null.
  abbrev pub value_text : Json → Option String
  value_text null = none
  value_text (str t) = some t
  value_text j = some (p.string_of j)

  abbrev pub field_text : String → Fields → Option String
  field_text key end = none
  field_text key (field k j rest) = if k == key then value_text j else field_text key rest

  -- `payload ->> key`
  abbrev pub payload_text : String → Json → Option String
  payload_text key (obj fields) = field_text key fields
  payload_text key _ = none

  abbrev pub says_text : String → Option String → Bool
  says_text t none = false
  says_text t (some u) = u == t

  -- The condition of the query of `alreadyRaised`.
  abbrev pub raised_as : ℕ → ℕ → String → SecurityEvent → Bool
  raised_as now window_ms kind r =
      recent_of_type now window_ms "security.anomaly" r
      && says_text kind (payload_text "kind" r.payload)

  unfoldable pub already_raised : ℕ → ℕ → String → EventLog → Bool
  already_raised now window_ms kind log =
      ltb 0 (count_where (raised_as now window_ms kind) log.rows)

  abbrev pub appended : (String → ℕ) → Anomaly → EventLog → EventLog
  appended clock a log = (append_security_event p (clock a.kind) (event_of a) log).1

  module _ (clock : String → ℕ) (notify : Notify) (now window_ms : ℕ) where
    unfoldable pub raise_all : List Anomaly → EventLog → Result String (List Anomaly) × EventLog
    unfolding already_raised
    raise_all [] log = (ok [], log)
    raise_all (c ∷ cs) log =
        let rest = raise_all cs log in
        let log' = appended clock c log in
        let rest' = raise_all cs log' in
        if ltb c.count c.threshold
        then rest
        else if already_raised now window_ms c.kind log
        then rest
        else after_notify (notify_of notify c) c log' rest'

  -- `detectAnomalies`, with its options but the notification merged in.
  unfoldable pub detect_anomalies :
      (String → ℕ)
      → Notify
      → Option ℕ
      → Option ℕ
      → ℕ
      → PartialThresholds
      → List AuditRow
      → EventLog
      → Result String (List Anomaly) × EventLog
  unfolding raise_all
  detect_anomalies clock notify opt_now opt_window date_now thresholds audit log =
      let now = get_or_else opt_now date_now in
      let window_ms = get_or_else opt_window (60 * 60000) in
      raise_all clock notify now window_ms
        (checks_of now window_ms (merged thresholds) log.rows audit) log
