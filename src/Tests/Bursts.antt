-- ===== src/Tests/Bursts.antt =====
-- src/security/anomaly.ts at a small input: three rotations of a key within an hour.
use capybara_ai.Prelude.{ℕ, String, none, some, List, [], ◌∷◌, ◌≢◌, refl}
use mathlib.Core.List.{Memᴰ}
use capybara_ai.Prelude.Effect.{Result}
use capybara_ai.Hash.{null}
use capybara_ai.Audit.{EventLog, SecurityEventInput, info, append_security_event}
use capybara_ai.Security.Anomaly.{
  Anomaly, PartialThresholds, detect_anomalies, raise_all, already_raised,
}
use capybara_ai.Security.Anomaly.Once.{detect_anomalies-IsOnce}
use capybara_ai.Tests.Samples.{platform}

abbrev rotated : SecurityEventInput
rotated = record {
  org_id = some 1;
  event_type = "encryption.rotated";
  severity = info;
  payload = null;
}

abbrev add : ℕ → EventLog → EventLog
unfolding append_security_event
add now log = (append_security_event platform now rotated log).1

abbrev three : EventLog
three = add 7 (add 6 (add 5 (record { rows = []; next_id = 1 })))

abbrev usual : PartialThresholds
usual = record {
  auth_lockouts = none;
  oversight_rejections = none;
  key_rotations = none;
  role_changes = none;
}

abbrev first_pass : Result String (List Anomaly) × EventLog
unfolding detect_anomalies raise_all already_raised append_security_event
first_pass = detect_anomalies platform (λ kind. 9) none none none 8 usual [] three

abbrev rotation_burst : Anomaly
rotation_burst = record {
  kind = "key_rotation_burst";
  count = 3;
  threshold = 3;
  window_minutes = 60;
}

abbrev second_pass : Result String (List Anomaly) × EventLog
unfolding detect_anomalies raise_all already_raised append_security_event
second_pass =
    detect_anomalies platform (λ kind. 12) none none none 11
      (record usual { auth_lockouts = some 0 }) [] first_pass.1

abbrev lockout_burst : Anomaly
lockout_burst = record {
  kind = "auth_lockout_burst";
  count = 0;
  threshold = 0;
  window_minutes = 60;
}

detect_anomalies-IsOnce_example : rotation_burst.kind ≢ lockout_burst.kind
unfolding detect_anomalies raise_all already_raised append_security_event
detect_anomalies-IsOnce_example =
    detect_anomalies-IsOnce platform (λ kind. 9) (λ kind. 12) none none none none none none 8 11
      usual (record usual { auth_lockouts = some 0 }) [] [] three [] first_pass.1 first_pass.1
      second_pass.1 (rotation_burst ∷ []) (lockout_burst ∷ []) rotation_burst lockout_burst refl
      refl refl (Memᴰ.head refl) refl (Memᴰ.head refl)
