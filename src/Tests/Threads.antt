-- ===== src/Tests/Threads.antt =====
-- safa-daemon/src/server.rs: two requests with one key, and one with another, whose steps alternate.
use ama.Prelude.{ℕ, ◌≡◌, ◌≤◌, refl, List, [], ◌∷◌, arith, get, insert, retain, nat_eq}
use ama.Idempotency.{IdempotencyCache, empty_cache}
use ama.Idempotency.Race.{advance}
use ama.Server.Threads.{Thread, Turn, arrive, malformed, executes, run, executions}
use ama.Server.Threads.Once.{executions-le-one}
use ama.Server.Threads.Served.{executions-eq-one}

abbrev turn : ℕ → ℕ → Turn
turn number now = record { number = number; now = now; stamp = now }

-- The third request turns out to be malformed.
abbrev rivals : List Thread
rivals = arrive 7 (executes "a") ∷ arrive 7 (executes "b") ∷ arrive 8 (malformed "c") ∷ []

-- Every request goes one step in its turn, five times.
abbrev turns : List Turn
turns =
    turn 0 10
    ∷ turn 1 11
    ∷ turn 2 12
    ∷ turn 1 13
    ∷ turn 0 14
    ∷ turn 2 15
    ∷ turn 1 16
    ∷ turn 0 17
    ∷ turn 2 18
    ∷ turn 2 19
    ∷ turn 1 20
    ∷ turn 1 21
    ∷ []

abbrev cache : IdempotencyCache
cache = empty_cache 3 100

executions-le-one_example : executions 8 (run turns cache rivals).1 ≤ 1
unfolding empty_cache
executions-le-one_example =
    executions-le-one turns 8 10 cache rivals (omega arith) tt (omega arith) (omega arith)
      (refl, (refl, (refl, tt)))

executions-eq-one_example : executions 7 (run turns cache rivals).1 ≡ 1
unfolding empty_cache run get insert retain advance
executions-eq-one_example =
    executions-eq-one turns 7 10 cache rivals (omega arith) tt (omega arith) (omega arith)
      (refl, (refl, (refl, tt))) refl (tt, (tt, ((λ h. omega arith), tt))) (omega arith)
      (tt, (tt, (tt, tt)))
