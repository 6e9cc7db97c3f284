-- ===== src/Tests/Streams.antt =====
-- src/http/rateLimits.ts at small inputs.
use capybara_ai.Prelude.{◌≤◌, ◌≡◌, refl}
use capybara_ai.Prelude.Effect.{throw}
use capybara_ai.Http.{StreamLimiter, no_streams, count_streams, acquire, release, too_many}
use capybara_ai.Http.Streams.{start, next, acquires, releases, open_streams, Reach-counts_open}

-- Two streams start, and the first is released twice.
abbrev limited : StreamLimiter
limited = release 0 (release 0 (acquire 2 "o" (acquire 2 "o" no_streams).1).1)

Reach-counts_open_example :
    (count_streams "o" limited ≡ open_streams "o" limited.tickets)
    × (open_streams "o" limited.tickets ≤ 2)
Reach-counts_open_example =
    Reach-counts_open 2 "o" limited
      (next (next (next (next start (acquires "o")) (acquires "o")) (releases 0)) (releases 0))

one_is_left : count_streams "o" limited ≡ 1
unfolding count_streams acquire release
one_is_left = refl

third_is_refused :
    (acquire 2 "o" (acquire 2 "o" (acquire 2 "o" no_streams).1).1).0 ≡ throw (too_many "o" 2)
unfolding acquire
third_is_refused = refl
