-- ===== src/Http/Streams.antt =====
-- The counts of src/http/rateLimits.ts over every sequence of acquisitions and releases.
use capybara_ai.Prelude.{
  ℕ, zero, suc, ◌+◌, ◌≤◌, ◌<◌, String, true, false, Bool-cases, Option, none, some, List, [], ◌∷◌,
  ◌++◌, ◌≡◌, refl, arith, ◌==◌, string_eq, not, ◌&&◌, leb, if◌then◌else◌, get_or_else, eq_iff, inl,
  inr,
}
use capybara_ai.Prelude.Table.{count_where}
use capybara_ai.Http.{
  Ticket, StreamLimiter, no_streams, set_key, count_streams, acquire, mark, lower_count, after_mark,
  behind, release,
}

-- The streams of an organisation that are open: acquired and not released.
abbrev pub open_streams : String → List Ticket → ℕ
open_streams org ts = count_where (λ t. t.org_id == org && not t.released) ts

-- What can happen, in any order: a stream starts, if it may, or a release is called, at any time and
-- any number of times.
pub data Step (max_per_org : ℕ) (s : StreamLimiter) : StreamLimiter → Type 0 where
  acquires : (org : String) → Step max_per_org s (acquire max_per_org org s).1
  releases : (n : ℕ) → Step max_per_org s (release n s)

pub data Reach (max_per_org : ℕ) : StreamLimiter → Type 0 where
  start : Reach max_per_org no_streams
  next : {s t : StreamLimiter} → Reach max_per_org s → Step max_per_org s t → Reach max_per_org t

record IsCounted (max_per_org : ℕ) (s : StreamLimiter) (org : String) : Type 0 where
  counted : count_streams org s ≡ open_streams org s.tickets
  bounded : count_streams org s ≤ max_per_org

open_streams-append :
    (org : String) (ts : List Ticket) (t : Ticket)
    → open_streams org (ts ++ t ∷ []) ≡ open_streams org ts + open_streams org (t ∷ [])
open_streams-append org [] t = ground arith
open_streams-append org (u ∷ ts) t = ground (arith, open_streams-append org ts t)

-- The number that a ticket of one organisation adds to the open streams of another.
abbrev one_for : String → String → ℕ
one_for org other = if org == other then 1 else 0

-- What a release that counts takes from the open streams.
abbrev Marks : String → List Ticket → Option (String × List Ticket) → Type 0
Marks other ts none = Unit
Marks other ts (some (org, us)) = open_streams other ts ≡ open_streams other us + one_for org other

behind-Marks :
    (other : String) (t : Ticket) (ts : List Ticket) (o : Option (String × List Ticket))
    → Marks other ts o
    → Marks other (t ∷ ts) (behind t o)
behind-Marks other t ts none h = tt
behind-Marks other t ts (some (org, us)) h = ground arith

mark-Marks : (other : String) (n : ℕ) (ts : List Ticket) → Marks other ts (mark n ts)
mark-Marks other zero [] = tt
mark-Marks other (suc n) [] = tt
mark-Marks other (suc n) (t ∷ ts) = behind-Marks other t ts (mark n ts) (mark-Marks other n ts)
mark-Marks other zero (t ∷ ts) = elim (Bool-cases t.released) [
  | inl done ↦ rw done tt
  | inr open_yet ↦ rw open_yet (ground arith)
]

self : (org : String) → org == org ≡ true
self org = (eq_iff org org).1 refl

raise-count :
    (org other : String) (m : String → Option ℕ)
    → get_or_else (set_key org (get_or_else (m org) 0 + 1) m other) 0
      ≡ get_or_else (m other) 0 + one_for org other
raise-count org other m = elim (Bool-cases (org == other)) [
  | inl hit ↦ let same : org ≡ other = (eq_iff org other).0 hit in rw same (rw (self other) refl)
  | inr miss ↦ rw miss (omega arith)
]

lower-same :
    (org : String) (m : String → Option ℕ)
    → 1 ≤ get_or_else (m org) 0
    → get_or_else (lower_count org m org) 0 + 1 ≡ get_or_else (m org) 0
lower-same org m pos = ground (arith, self org)

lower-apart :
    (org other : String) (m : String → Option ℕ)
    → org == other ≡ false
    → get_or_else (lower_count org m other) 0 ≡ get_or_else (m other) 0
lower-apart org other m miss = ground arith

lower-count :
    (org other : String) (m : String → Option ℕ)
    → 1 ≤ get_or_else (m org) 0
    → get_or_else (lower_count org m other) 0 + one_for org other ≡ get_or_else (m other) 0
lower-count org other m pos = elim (Bool-cases (org == other)) [
  | inl hit ↦
      let same : org ≡ other = (eq_iff org other).0 hit in
      rw same (rw (self other) (lower-same other m (rw same at pos)))
  | inr miss ↦ rw miss (omega (arith, lower-apart org other m miss))
]

-- Below the cap there is room for one more stream of the organisation, and the others are untouched.
room :
    (max_per_org : ℕ) (org other : String) (s : StreamLimiter)
    → count_streams org s < max_per_org
    → count_streams other s ≤ max_per_org
    → count_streams other s + one_for org other ≤ max_per_org
room max_per_org org other s free h = elim (Bool-cases (org == other)) [
  | inl hit ↦
      let same : org ≡ other = (eq_iff org other).0 hit in
      let free' : count_streams other s < max_per_org = rw same at free in rw hit (omega arith)
  | inr miss ↦ rw miss (omega arith)
]

acquire-IsCounted :
    (max_per_org : ℕ) (org other : String) (s : StreamLimiter)
    → IsCounted max_per_org s org
    → IsCounted max_per_org s other
    → IsCounted max_per_org (acquire max_per_org org s).1 other
unfolding acquire count_streams
acquire-IsCounted max_per_org org other s own h =
    elim (Bool-cases (leb max_per_org (count_streams org s))) [
      | inl full ↦ rw full h
      | inr free ↦
          let t : Ticket = record { org_id = org; released = false } in
          let below : count_streams org s < max_per_org = ground arith in
          let one_more : open_streams other (t ∷ []) ≡ one_for org other = ground arith in
          let raised = raise-count org other s.active in
          rw free (record {
            counted =
                omega (arith, raised, h.counted, one_more, open_streams-append other s.tickets t);
            bounded = omega (arith, raised, room max_per_org org other s below h.bounded);
          })
    ]

lower-IsCounted :
    (max_per_org : ℕ) (org other : String) (s : StreamLimiter) (ts : List Ticket)
    → IsCounted max_per_org s org
    → IsCounted max_per_org s other
    → Marks org s.tickets (some (org, ts))
    → Marks other s.tickets (some (org, ts))
    → IsCounted max_per_org (record { active = lower_count org s.active; tickets = ts }) other
unfolding count_streams
lower-IsCounted max_per_org org other s ts own h k l =
    let one : one_for org org ≡ 1 = rw (self org) refl in
    let pos : 1 ≤ get_or_else (s.active org) 0 = omega (arith, own.counted, k, one) in
    let lowered = lower-count org other s.active pos in
    record {
      counted = omega (arith, lowered, h.counted, l);
      bounded = omega (arith, lowered, h.bounded);
    }

release-IsCounted :
    (max_per_org : ℕ) (other : String) (s : StreamLimiter) (o : Option (String × List Ticket))
    → ((org : String) → Marks org s.tickets o)
    → ((org : String) → IsCounted max_per_org s org)
    → IsCounted max_per_org (after_mark s o) other
release-IsCounted max_per_org other s none m h = h other
release-IsCounted max_per_org other s (some (org, ts)) m h =
    lower-IsCounted max_per_org org other s ts (h org) (h other) (m org) (m other)

Reach-IsCounted :
    (max_per_org : ℕ) (org : String) (s : StreamLimiter)
    → Reach max_per_org s
    → IsCounted max_per_org s org
unfolding release count_streams
Reach-IsCounted max_per_org org _ start = record { counted = refl; bounded = omega arith }
Reach-IsCounted max_per_org org _ (next {s = s} path (acquires other)) =
    acquire-IsCounted max_per_org other org s (Reach-IsCounted max_per_org other s path)
      (Reach-IsCounted max_per_org org s path)
Reach-IsCounted max_per_org org _ (next {s = s} path (releases n)) =
    release-IsCounted max_per_org org s (mark n s.tickets) (λ o. mark-Marks o n s.tickets)
      (λ o. Reach-IsCounted max_per_org o s path)

-- In every state that acquisitions and releases lead to, in any order and with releases repeated, the
-- count of an organisation is the number of its open streams, and it is at most the cap.
pub Reach-counts_open :
    (max_per_org : ℕ) (org : String) (s : StreamLimiter)
    → Reach max_per_org s
    → (count_streams org s ≡ open_streams org s.tickets)
      × (open_streams org s.tickets ≤ max_per_org)
Reach-counts_open max_per_org org s path =
    let h = Reach-IsCounted max_per_org org s path in
    (h.counted, omega (arith, h.counted, h.bounded))
