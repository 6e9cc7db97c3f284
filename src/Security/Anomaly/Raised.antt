-- ===== src/Security/Anomaly/Raised.antt =====
-- What the steps of the loop in src/security/anomaly.ts keep.
use capybara_ai.Prelude.{String, List, [], ◌∷◌, sym, subst, All}
use mathlib.Core.List.{Memᴰ}
use capybara_ai.Prelude.Effect.{Result, ok, throw}
use capybara_ai.Audit.{EventLog}
use capybara_ai.Security.Anomaly.{Anomaly, after_notify}

-- A property of every anomaly that a pass returns as raised, and of the log after it.
abbrev pub AllRaised :
    (Anomaly → EventLog → Type 0) → Result String (List Anomaly) × EventLog → Type 0
AllRaised P (throw e, log) = Unit
AllRaised P (ok raised, log) = All (λ a. P a log) raised

pub All-Memᴰ :
    (P : Anomaly → Type 0) (a : Anomaly) (raised : List Anomaly)
    → All P raised
    → Memᴰ a raised
    → P a
All-Memᴰ P a [] h m = elim m [ ]
All-Memᴰ P a (b ∷ raised) h (Memᴰ.head e) = subst P (sym e) h.0
All-Memᴰ P a (b ∷ raised) h (Memᴰ.tail m) = All-Memᴰ P a raised h.1 m

All-weaken :
    (P Q : Anomaly → Type 0) (raised : List Anomaly)
    → ((a : Anomaly) → P a → Q a)
    → All P raised
    → All Q raised
All-weaken P Q [] f h = tt
All-weaken P Q (b ∷ raised) f h = (f b h.0, All-weaken P Q raised f h.1)

pub AllRaised-weaken :
    (P Q : Anomaly → EventLog → Type 0) (o : Result String (List Anomaly) × EventLog)
    → ((a : Anomaly) (log : EventLog) → P a log → Q a log)
    → AllRaised P o
    → AllRaised Q o
AllRaised-weaken P Q (throw e, log) f h = tt
AllRaised-weaken P Q (ok raised, log) f h =
    All-weaken (λ a. P a log) (λ a. Q a log) raised (λ a. f a log) h

pub AllRaised-after :
    (P : Anomaly → EventLog → Type 0) (r : Result String (Unit {0})) (c : Anomaly) (log : EventLog)
    (rest : Result String (List Anomaly) × EventLog)
    → P c rest.1
    → AllRaised P rest
    → AllRaised P (after_notify r c log rest)
AllRaised-after P (throw e) c log rest h k = tt
AllRaised-after P (ok _) c log (throw e, log') h k = tt
AllRaised-after P (ok _) c log (ok raised, log') h k = (h, k)

-- A property of the log that the rest of the loop has.
pub log-after :
    (Q : EventLog → Type 0) (r : Result String (Unit {0})) (c : Anomaly) (log : EventLog)
    (rest : Result String (List Anomaly) × EventLog)
    → Q log
    → Q rest.1
    → Q (after_notify r c log rest).1
log-after Q (throw e) c log rest h k = h
log-after Q (ok _) c log (throw e, log') h k = k
log-after Q (ok _) c log (ok raised, log') h k = k
