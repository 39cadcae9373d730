-- ===== src/Tests/Counters.antt =====
-- safa-core/src/slime.rs and idempotency.rs, safa-daemon/src/server.rs: two threads on a shared counter
-- and on a shared cache, and a burst of requests.
use ama.Prelude.{
  ℕ, ◌+◌, ◌<◌, ◌≤◌, ◌≡◌, refl, ◌≢◌, Bool, true, false, some, List, [], ◌∷◌, arith, length, get,
  retain, nat_eq, string_eq, inl,
}
use ama.Slime.{P0Authorizer, try_reserve}
use ama.Slime.Reserve.{reserve, try_reserve-reserve}
use ama.Slime.Race.{entered, System, run, granted}
use ama.Slime.Race.Linear.{Replays, history, run-Replays}
use ama.Slime.Race.Account.{run-granted}
use ama.Idempotency.{
  in_flight, cached, IdempotencyCache, check_or_insert, Clock, Op, check, completes, removes,
}
use ama.Idempotency.Owner.{answers, expected, owner_unique}
use ama.Idempotency.Race
use ama.Idempotency.Race.Winner.{wins, wins-le-one}
use ama.Idempotency.Race.Overshoot.{pending, run-length}
use ama.Server.RateLimit.{RateLimitState, elapsed_secs, admitted, admitted-burst}
use ama.Tests.Fixtures.{policy}

abbrev authorizer : P0Authorizer
authorizer = record {
  capacity = 4;
  max_capacity = 12;
  domains = ("fs", policy) ∷ [];
  session_id = 1;
}

try_reserve-reserve_example :
    try_reserve (true ∷ false ∷ []) authorizer "fs" 8 ≡ some (reserve authorizer "fs" 8)
try_reserve-reserve_example = try_reserve-reserve (true ∷ false ∷ []) authorizer "fs" 8 tt

-- Two threads that want more together than is left.
abbrev rivals : System
rivals = record { authorizer = authorizer; threads = entered "fs" 5 ∷ entered "fs" 6 ∷ [] }

-- Both load before either exchanges.
abbrev schedule : List (ℕ × Bool)
schedule =
    (0, false)
    ∷ (1, false)
    ∷ (0, false)
    ∷ (1, false)
    ∷ (0, true)
    ∷ (1, false)
    ∷ (0, false)
    ∷ (0, false)
    ∷ []

run-Replays_example : Replays authorizer (history schedule rivals) (run schedule rivals).authorizer
run-Replays_example = run-Replays schedule rivals (tt, (tt, tt))

run-granted_example :
    ((run schedule rivals).authorizer.capacity + 0 ≡ 4 + granted (run schedule rivals).threads)
    × ((run schedule rivals).authorizer.capacity ≤ (run schedule rivals).authorizer.max_capacity)
    × ((run schedule rivals).authorizer.max_capacity ≡ 12)
unfolding granted
run-granted_example = run-granted schedule rivals (omega arith)

abbrev at : ℕ → Clock
at t = record { purged_at = t; now = t; stamp = t }

abbrev cache : IdempotencyCache
cache = record { entries = []; max_entries = 2; ttl = 100 }

abbrev calls : List Op
calls = check (at 6) 7 ∷ check (at 7) 8 ∷ completes 7 "done" ∷ removes 8 ∷ check (at 50) 7 ∷ []

seven_not_eight : ◌≢◌ {A = ℕ} 8 7
seven_not_eight h = omega (arith, h)

owner_unique_example :
    answers 7 calls (check_or_insert (at 5) 7 cache).0 ≡ in_flight ∷ cached "done" ∷ []
unfolding expected check_or_insert get retain
owner_unique_example = owner_unique (at 5) 7 cache calls tt refl (
  omega arith,
  omega arith,
  (omega arith, omega arith, (seven_not_eight, (omega arith, omega arith, tt))),
)

-- Two threads race for one key; one of them reads the size before the other's entry is there.
abbrev events : List Race.Event
events =
    Race.thread 0 5 5
    ∷ Race.thread 1 5 5
    ∷ Race.thread 0 6 6
    ∷ Race.thread 1 6 6
    ∷ Race.thread 1 7 7
    ∷ Race.thread 0 7 7
    ∷ Race.completes 7 "done"
    ∷ []

wins-le-one_example : wins 7 (Race.run events cache (Race.called 7 ∷ Race.called 7 ∷ [])).1 ≤ 1
unfolding wins
wins-le-one_example =
    wins-le-one events 7 5 cache (Race.called 7 ∷ Race.called 7 ∷ []) (ground arith)
      (record { map = tt; lasting = omega arith; winner = inl refl })

abbrev small : IdempotencyCache
small = record { entries = []; max_entries = 1; ttl = 100 }

run-length_example :
    length (Race.run events small (Race.called 7 ∷ Race.called 8 ∷ [])).0.entries
      + pending (Race.run events small (Race.called 7 ∷ Race.called 8 ∷ [])).1
    < 3
unfolding pending
run-length_example = run-length events small (Race.called 7 ∷ Race.called 8 ∷ []) (omega arith)

abbrev limiter : RateLimitState
limiter = record { window_start = 0; count = 0; max_per_window = 2; window_secs = 60 }

admitted-burst_example :
    admitted (59000000000 ∷ 59000000001 ∷ 60000000000 ∷ 61000000000 ∷ []) limiter ≤ 4
unfolding elapsed_secs
admitted-burst_example =
    admitted-burst (59000000000 ∷ 59000000001 ∷ 60000000000 ∷ 61000000000 ∷ []) limiter 59000000000
      (ground arith) (omega arith) (omega arith)
