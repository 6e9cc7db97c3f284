-- ===== src/Security/Anomaly/Once.antt =====
-- How often src/security/anomaly.ts raises an anomaly of one kind.
use capybara_ai.Prelude.{
  ℕ, ◌+◌, String, Bool, true, false, Bool-cases, Option, List, [], ◌∷◌, ◌++◌, leb, ltb, ◌*◌,
  get_or_else, ◌≡◌, ◌≢◌, refl, sym, ◌∙◌, subst, arith, eq_iff, inl, inr, string_eq,
}
use mathlib.Core.List.{Memᴰ}
use capybara_ai.Prelude.Effect.{ok}
use capybara_ai.Prelude.Table.{count_where}
use capybara_ai.Hash.{Platform}
use capybara_ai.Audit.{SecurityEvent, EventLog, new_event, append_security_event}
use capybara_ai.Security.Anomaly.Raised.{
  AllRaised, AllRaised-weaken, AllRaised-after, log-after, All-Memᴰ,
}
use capybara_ai.Security.Anomaly.{
  Anomaly, AuditRow, PartialThresholds, Notify, notify_of, event_of, raised_as, already_raised,
  appended, raise_all, detect_anomalies, checks_of, merged,
}

module _ {A : Type 0} (q : A → Bool) where
  -- A row that counts still counts in a longer table.
  counts-append :
      (rs more : List A)
      → ltb 0 (count_where q rs) ≡ true
      → ltb 0 (count_where q (rs ++ more)) ≡ true
  counts-append [] more h = absurd (cc)
  counts-append (r ∷ rs) more h = ground (arith, counts-append rs more)

  counts-last : (rs : List A) (r : A) → q r ≡ true → ltb 0 (count_where q (rs ++ r ∷ [])) ≡ true
  counts-last [] r h = rw h refl
  counts-last (s ∷ rs) r h = ground (arith, counts-last rs r)

clash : true ≢ false
clash h = absurd (cc)

abbrev Counts : (SecurityEvent → Bool) → EventLog → Type 0
Counts q log = ltb 0 (count_where q log.rows) ≡ true

module _ (p : Platform) (clock : String → ℕ) where
  Counts-appended :
      (q : SecurityEvent → Bool) (c : Anomaly) (log : EventLog)
      → Counts q log
      → Counts q (appended p clock c log)
  unfolding append_security_event
  Counts-appended q c log h =
      counts-append q log.rows (new_event p (clock c.kind) (event_of c) log ∷ []) h

  -- The event of an anomaly is found by `alreadyRaised` while it is within the window.
  own_event :
      (later window_ms : ℕ) (c : Anomaly) (log : EventLog)
      → leb later (clock c.kind + window_ms) ≡ true
      → Counts (raised_as p later window_ms c.kind) (appended p clock c log)
  unfolding append_security_event
  own_event later window_ms c log h =
      let row = new_event p (clock c.kind) (event_of c) log in
      let own : raised_as p later window_ms c.kind row ≡ true =
        rw (h, (eq_iff c.kind c.kind).1 refl) refl in
      counts-last (raised_as p later window_ms c.kind) log.rows row own

  new_before :
      (now window_ms : ℕ) (c : Anomaly) (log : EventLog) (a : Anomaly)
      → already_raised p now window_ms a.kind (appended p clock c log) ≡ false
      → already_raised p now window_ms a.kind log ≡ false
  unfolding already_raised
  new_before now window_ms c log a h =
      elim (Bool-cases (already_raised p now window_ms a.kind log)) [
        | inl was ↦ absurd (cc (h, Counts-appended (raised_as p now window_ms a.kind) c log was))
        | inr new ↦ new
      ]

  module _ (notify : Notify) (now window_ms : ℕ) where
    Counts-raise_all :
        (q : SecurityEvent → Bool) (cs : List Anomaly) (log : EventLog)
        → Counts q log
        → Counts q (raise_all p clock notify now window_ms cs log).1
    unfolding raise_all
    Counts-raise_all q [] log h = h
    Counts-raise_all q (c ∷ cs) log h = elim (Bool-cases (ltb c.count c.threshold)) [
      | inl few ↦ rw few (Counts-raise_all q cs log h)
      | inr many ↦ elim (Bool-cases (already_raised p now window_ms c.kind log)) [
        | inl before ↦ rw (many, before) (Counts-raise_all q cs log h)
        | inr new ↦
            let log' = appended p clock c log in
            let h' = Counts-appended q c log h in
            rw (many, new)
              (log-after (Counts q) (notify_of notify c) c log'
                (raise_all p clock notify now window_ms cs log') h' (Counts-raise_all q cs log' h'))
      ]
    ]

    -- What is raised was not in the log before.
    raise_all-AreNew :
        (cs : List Anomaly) (log : EventLog)
        → AllRaised
            (λ a _. already_raised p now window_ms a.kind log ≡ false)
            (raise_all p clock notify now window_ms cs log)
    unfolding raise_all
    raise_all-AreNew [] log = tt
    raise_all-AreNew (c ∷ cs) log = elim (Bool-cases (ltb c.count c.threshold)) [
      | inl few ↦ rw few (raise_all-AreNew cs log)
      | inr many ↦ elim (Bool-cases (already_raised p now window_ms c.kind log)) [
        | inl before ↦ rw (many, before) (raise_all-AreNew cs log)
        | inr new ↦
            let log' = appended p clock c log in
            rw (many, new)
              (AllRaised-after (λ a _. already_raised p now window_ms a.kind log ≡ false)
                (notify_of notify c) c log' (raise_all p clock notify now window_ms cs log') new
                (AllRaised-weaken (λ a _. already_raised p now window_ms a.kind log' ≡ false)
                  (λ a _. already_raised p now window_ms a.kind log ≡ false)
                  (raise_all p clock notify now window_ms cs log')
                  (λ a _ h. new_before now window_ms c log a h) (raise_all-AreNew cs log')))
      ]
    ]

    -- What is raised is in the log afterwards.
    raise_all-AreFound :
        (later window' : ℕ) (cs : List Anomaly) (log : EventLog)
        → AllRaised
            (λ a log'.
              leb later (clock a.kind + window') ≡ true
              → Counts (raised_as p later window' a.kind) log')
            (raise_all p clock notify now window_ms cs log)
    unfolding raise_all
    raise_all-AreFound later window' [] log = tt
    raise_all-AreFound later window' (c ∷ cs) log = elim (Bool-cases (ltb c.count c.threshold)) [
      | inl few ↦ rw few (raise_all-AreFound later window' cs log)
      | inr many ↦ elim (Bool-cases (already_raised p now window_ms c.kind log)) [
        | inl before ↦ rw (many, before) (raise_all-AreFound later window' cs log)
        | inr new ↦
            let log' = appended p clock c log in
            rw (many, new)
              (AllRaised-after
                (λ a log'.
                  leb later (clock a.kind + window') ≡ true
                  → Counts (raised_as p later window' a.kind) log')
                (notify_of notify c) c log' (raise_all p clock notify now window_ms cs log')
                (λ h.
                  Counts-raise_all (raised_as p later window' c.kind) cs log'
                    (own_event later window' c log h))
                (raise_all-AreFound later window' cs log'))
      ]
    ]

-- An anomaly of one kind is raised once in a window: what one pass returns as raised, no later pass
-- returns whose window still reaches back to the time of its event, whatever was appended to the log
-- between the two, and whatever their options are.
pub detect_anomalies-IsOnce :
    (p : Platform) (clock clock' : String → ℕ) (notify notify' : Notify)
    (now now' window window' : Option ℕ) (date date' : ℕ) (th th' : PartialThresholds)
    (audit audit' : List AuditRow) (log : EventLog) (between : List SecurityEvent)
    (log1 log2 log3 : EventLog) (raised raised' : List Anomaly) (a b : Anomaly)
    → detect_anomalies p clock notify now window date th audit log ≡ (ok raised, log1)
    → log2.rows ≡ log1.rows ++ between
    → detect_anomalies p clock' notify' now' window' date' th' audit' log2 ≡ (ok raised', log3)
    → Memᴰ a raised
    → leb (get_or_else now' date') (clock a.kind + get_or_else window' (60 * 60000)) ≡ true
    → Memᴰ b raised'
    → a.kind ≢ b.kind
unfolding detect_anomalies already_raised
detect_anomalies-IsOnce p clock clock' notify notify' now now' window window' date date' th th'
      audit audit' log between log1 log2 log3 raised raised' a b first then_rows second in_first
      in_time in_second same =
    let later = get_or_else now' date' in
    let window_ms' = get_or_else window' (60 * 60000) in
    let q = raised_as p later window_ms' a.kind in
    let found : Counts q log1 =
      All-Memᴰ
        (λ c.
          leb later (clock c.kind + window_ms') ≡ true
          → Counts (raised_as p later window_ms' c.kind) log1)
        a raised
        (subst
          (AllRaised (λ c l.
            leb later (clock c.kind + window_ms') ≡ true
            → Counts (raised_as p later window_ms' c.kind) l))
          first
          (raise_all-AreFound p clock notify (get_or_else now date)
            (get_or_else window (60 * 60000)) later window_ms'
            (checks_of (get_or_else now date) (get_or_else window (60 * 60000)) (merged th) log.rows
              audit)
            log))
        in_first in_time in
    let still : Counts q log2 =
      subst (λ rows. ltb 0 (count_where q rows) ≡ true) (sym then_rows)
        (counts-append q log1.rows between found) in
    let new : already_raised p later window_ms' b.kind log2 ≡ false =
      All-Memᴰ (λ c. already_raised p later window_ms' c.kind log2 ≡ false) b raised'
        (subst (AllRaised (λ c _. already_raised p later window_ms' c.kind log2 ≡ false)) second (
          raise_all-AreNew p clock' notify' later window_ms'
            (checks_of later window_ms' (merged th') log2.rows audit') log2))
        in_second in
    let new_a : ltb 0 (count_where q log2.rows) ≡ false =
      subst (λ k. already_raised p later window_ms' k log2 ≡ false) (sym same) new in
    absurd (clash (sym still ∙ new_a))
