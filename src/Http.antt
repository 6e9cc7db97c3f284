-- ===== src/Http.antt =====
-- The cap on concurrent streaming responses: `StreamConcurrencyLimiter` of src/http/rateLimits.ts.
-- The map of the counts is a function. A closure that `acquire` returned is a ticket, named by its
-- place in the list of all that were returned; it has the `released` flag of its own.
pub mod Streams
use capybara_ai.Prelude.{
  ℕ, zero, suc, ◌+◌, ◌-◌, String, Bool, true, false, Option, none, some, List, [], ◌∷◌, ◌++◌,
  length, leb, if◌then◌else◌, ◌==◌, string_eq, get_or_else,
}
use capybara_ai.Prelude.Effect.{Result, ok, throw, Action}

pub record Ticket : Type 0 where
  pub org_id : String
  pub released : Bool

pub record StreamLimiter : Type 0 where
  pub active : String → Option ℕ
  pub tickets : List Ticket

pub data StreamLimitError : Type 0 where
  too_many : String → ℕ → StreamLimitError

abbrev pub no_streams : StreamLimiter
no_streams = record { active = λ org. none; tickets = [] }

-- `Map.set` and `Map.delete`
abbrev pub set_key : String → ℕ → (String → Option ℕ) → String → Option ℕ
set_key key n m other = if key == other then some n else m other

abbrev pub delete_key : String → (String → Option ℕ) → String → Option ℕ
delete_key key m other = if key == other then none else m other

unfoldable pub count_streams : String → StreamLimiter → ℕ
count_streams org s = get_or_else (s.active org) 0

unfoldable pub acquire : ℕ → String → Action StreamLimiter StreamLimitError ℕ
unfolding count_streams
acquire max_per_org org s =
    if leb max_per_org (count_streams org s) then (throw (too_many org max_per_org), s) else (
      ok (length s.tickets),
      record {
        active = set_key org (count_streams org s + 1) s.active;
        tickets = s.tickets ++ record { org_id = org; released = false } ∷ [];
      },
    )

abbrev pub behind : Ticket → Option (String × List Ticket) → Option (String × List Ticket)
behind t none = none
behind t (some (org, ts)) = some (org, t ∷ ts)

-- The tickets with the one at a place marked as released, and its organisation; none if it was
-- marked before, or if there is no such ticket.
abbrev pub mark : ℕ → List Ticket → Option (String × List Ticket)
mark n [] = none
mark zero (t ∷ ts) = if t.released then none else some (t.org_id, record t { released = true } ∷ ts)
mark (suc n) (t ∷ ts) = behind t (mark n ts)

-- `const n = (active.get(orgId) ?? 1) - 1`, and what follows.
abbrev pub lower_count : String → (String → Option ℕ) → String → Option ℕ
lower_count org active =
    let n = get_or_else (active org) 1 - 1 in
    if leb n 0 then delete_key org active else set_key org n active

abbrev pub after_mark : StreamLimiter → Option (String × List Ticket) → StreamLimiter
after_mark s none = s
after_mark s (some (org, ts)) = record { active = lower_count org s.active; tickets = ts }

unfoldable pub release : ℕ → StreamLimiter → StreamLimiter
release n s = after_mark s (mark n s.tickets)
