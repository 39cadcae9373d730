-- ===== src/Server/Threads.antt =====
-- safa-daemon/src/server.rs: `handle_action` called by any number of threads at once, from its call of
-- `check_or_insert` on, as far as it concerns the idempotency cache. The parts of `check_or_insert` that are
-- atomic, and every other call of the cache, may be separated by those of other threads.
pub mod Claimed
pub mod Once
pub mod Served
use ama.Prelude.{ℕ, zero, suc, ◌+◌, String, Bool, List, [], ◌∷◌, Uuid, ◌==◌, nat_eq, if◌then◌else◌}
use ama.Idempotency.{
  IdempotencyStatus, new, in_flight, cached, full, IdempotencyCache, complete, remove_key,
}
use ama.Idempotency.Race
use ama.Idempotency.Race.{called, purged, sized, answered}

-- What a request leads to after the answer `new`: its body does not parse, its agent has no authorizer,
-- or it is handed to the pipeline. The text is the one that is kept under the key.
pub data Course : Type 0 where
  malformed : String → Course
  unknown : Course
  executes : String → Course

-- Where a request stands. `rejecting` comes after the answer `full`, `executing` while the pipeline runs.
pub data Pc : Type 0 where
  checking : Race.Pc → Pc
  won : Pc
  rejecting : Pc
  executing : String → Pc
  executed : Pc
  refused : Pc

pub record Thread : Type 0 where
  pub key : Uuid
  pub course : Course
  pub pc : Pc

abbrev pub arrive : Uuid → Course → Thread
arrive key course = record { key = key; course = course; pc = checking (called key) }

-- What the handler does with an answer.
abbrev pub settle : Race.Pc → Pc
settle (answered k IdempotencyStatus.new) = won
settle (answered k IdempotencyStatus.full) = rejecting
settle (answered k IdempotencyStatus.in_flight) = refused
settle (answered k (IdempotencyStatus.cached response)) = refused
settle (called k) = checking (called k)
settle (purged k) = checking (purged k)
settle (sized k reached) = checking (sized k reached)

-- The step of `start` that comes after the answer `new`.
abbrev pub begin : Uuid → Course → IdempotencyCache → IdempotencyCache × Pc
begin key (malformed text) c = (complete key text c, refused)
begin key unknown c = (remove_key key c, refused)
begin key (executes text) c = (c, executing text)

-- The next step of a request.
unfoldable pub step : ℕ → ℕ → Uuid → Course → Pc → IdempotencyCache → IdempotencyCache × Pc
step now stamp key course (checking p) c =
    let (c', p') = Race.advance now stamp c p in (c', settle p')
step now stamp key course won c = begin key course c
step now stamp key course rejecting c = (remove_key key c, refused)
step now stamp key course (executing text) c = (complete key text c, executed)
step now stamp key course executed c = (c, executed)
step now stamp key course refused c = (c, refused)

abbrev pub moved : Thread → IdempotencyCache × Pc → IdempotencyCache × Thread
moved t out = (out.0, record t { pc = out.1 })

-- A step of the thread with the given number, with its readings of the clock.
pub record Turn : Type 0 where
  pub number : ℕ
  pub now : ℕ
  pub stamp : ℕ

unfoldable pub take_turn :
    ℕ → ℕ → ℕ → IdempotencyCache → List Thread → IdempotencyCache × List Thread
unfolding step
take_turn i now stamp c [] = (c, [])
take_turn zero now stamp c (t ∷ ts) =
    let (c', t') = moved t (step now stamp t.key t.course t.pc c) in (c', t' ∷ ts)
take_turn (suc i) now stamp c (t ∷ ts) = let (c', ts') = take_turn i now stamp c ts in (c', t ∷ ts')

unfoldable pub run : List Turn → IdempotencyCache → List Thread → IdempotencyCache × List Thread
unfolding take_turn
run [] c ts = (c, ts)
run (turn ∷ turns) c ts =
    let (c', ts') = take_turn turn.number turn.now turn.stamp c ts in run turns c' ts'

abbrev pub is_execution : Pc → ℕ
is_execution (executing text) = 1
is_execution executed = 1
is_execution other = 0

-- How many requests with the key have been handed to the pipeline.
unfoldable pub executions : Uuid → List Thread → ℕ
executions key [] = 0
executions key (t ∷ ts) = (if t.key == key then is_execution t.pc else 0) + executions key ts
