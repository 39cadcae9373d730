-- ===== src/Server/Threads/Once.antt =====
-- safa-daemon/src/server.rs: a request is carried out at most once, however many threads have its key.
use native.Mathlib.Nat.{add_assoc}
use mathlib.Core.Path.{subst}
use ama.Prelude.{
  ℕ, zero, suc, ◌+◌, ◌≤◌, ◌<◌, ◌≡◌, sym, refl, inl, List, [], ◌∷◌, arith, length, IsMap, Uuid, ◌==◌,
  nat_eq, if◌then◌else◌,
}
use ama.Idempotency.{IdempotencyCache}
use ama.Idempotency.Race.{called}
use ama.Idempotency.Race.Winner.{Decided}
use ama.Server.Threads.{
  Pc, checking, won, rejecting, executing, executed, refused, Thread, Turn, take_turn, run,
  executions, is_execution,
}
use ama.Server.Threads.Claimed.{claim, undecided, Proper, Sole, step-Kept}

abbrev pub claims : Uuid → List Thread → ℕ
claims key [] = 0
claims key (t ∷ ts) = claim key t.key t.pc + claims key ts

abbrev pub waiting : List Thread → ℕ
waiting [] = 0
waiting (t ∷ ts) = undecided t.pc + waiting ts

abbrev pub AllProper : List Thread → Type 0
AllProper [] = Unit {0}
AllProper (t ∷ ts) = Proper t.key t.pc × AllProper ts

pub regroup : (a b c : ℕ) → a + b + c ≡ b + (a + c)
regroup a b c = omega arith

Sole-eq :
    (key : Uuid) (start ttl max_entries : ℕ) (c : IdempotencyCache) (a b : ℕ) {x y : ℕ}
    → Sole key start ttl max_entries c x y
    → x ≡ a
    → y ≡ b
    → Sole key start ttl max_entries c a b
Sole-eq key start ttl max_entries c a b s h k = record {
  decided = subst (λ n. Decided key start c n) h s.decided;
  room = omega (arith, s.room, k);
  same_ttl = s.same_ttl;
  same_max = s.same_max;
}

-- Every reading of the clock falls into the time to live that begins at `start`.
abbrev pub InWindow : ℕ → ℕ → List Turn → Type 0
InWindow start ttl [] = Unit {0}
InWindow start ttl (turn ∷ turns) =
    (turn.now < start + ttl) × (start ≤ turn.stamp) × InWindow start ttl turns

module _ (key : Uuid) (start ttl max_entries : ℕ) where
  abbrev pub AllKept : ℕ → ℕ → IdempotencyCache × List Thread → Type 0
  AllKept rest others out =
      Sole key start ttl max_entries out.0 (claims key out.1 + rest) (waiting out.1 + others)
      × AllProper out.1

  pub take_turn-AllKept :
      (i now stamp : ℕ) (c : IdempotencyCache) (ts : List Thread) (rest others : ℕ)
      → now < start + ttl
      → start ≤ stamp
      → AllKept rest others (c, ts)
      → AllKept rest others (take_turn i now stamp c ts)
  unfolding take_turn
  take_turn-AllKept i now stamp c [] rest others live fresh kept = kept
  take_turn-AllKept zero now stamp c (t ∷ ts) rest others live fresh kept =
      let s = Sole-eq key start ttl max_entries c _ _ kept.0 (add_assoc _ _ _) (add_assoc _ _ _) in
      let out =
        step-Kept key start ttl max_entries now stamp live fresh t.key t.course t.pc c
          (claims key ts + rest) (waiting ts + others) kept.1.0 s in
      (
        Sole-eq key start ttl max_entries _ _ _ out.0 (sym (add_assoc _ _ _))
            (sym (add_assoc _ _ _)),
        (out.1, kept.1.1),
      )
  take_turn-AllKept (suc i) now stamp c (t ∷ ts) rest others live fresh kept =
      let s = Sole-eq key start ttl max_entries c _ _ kept.0 (regroup _ _ _) (regroup _ _ _) in
      let out =
        take_turn-AllKept i now stamp c ts (claim key t.key t.pc + rest) (undecided t.pc + others)
          live fresh (s, kept.1.1) in
      (
        Sole-eq key start ttl max_entries _ _ _ out.0 (sym (regroup _ _ _)) (sym (regroup _ _ _)),
        (kept.1.0, out.1),
      )

  pub run-AllKept :
      (turns : List Turn) (c : IdempotencyCache) (ts : List Thread)
      → InWindow start ttl turns
      → AllKept 0 0 (c, ts)
      → AllKept 0 0 (run turns c ts)
  unfolding run
  run-AllKept [] c ts w kept = kept
  run-AllKept (turn ∷ turns) c ts w kept =
      run-AllKept turns _ _ w.2
        (take_turn-AllKept turn.number turn.now turn.stamp c ts 0 0 w.0 w.1 kept)

pub executions-le-claims : (key : Uuid) (ts : List Thread) → executions key ts ≤ claims key ts
unfolding executions
executions-le-claims key [] = omega arith
executions-le-claims key (t ∷ ts) =
    omega (arith, executions-le-claims key ts, execution_claim key t.key t.pc)
  where
    execution_claim :
        (key k : Uuid) (pc : Pc) → (if k == key then is_execution pc else 0) ≤ claim key k pc
    execution_claim key k (checking p) = ground arith
    execution_claim key k won = ground arith
    execution_claim key k rejecting = ground arith
    execution_claim key k (executing text) = ground arith
    execution_claim key k executed = ground arith
    execution_claim key k refused = ground arith

-- No request has been looked up yet.
abbrev pub AllArrived : List Thread → Type 0
AllArrived [] = Unit {0}
AllArrived (t ∷ ts) = (t.pc ≡ checking (called t.key)) × AllArrived ts

pub arrived-Proper :
    (key : Uuid) (ts : List Thread)
    → AllArrived ts
    → AllProper ts × (claims key ts ≡ 0) × (waiting ts ≡ length ts)
arrived-Proper key [] h = (tt, refl, refl)
arrived-Proper key (t ∷ ts) h =
    let rest = arrived-Proper key ts h.1 in
    rw h.0 ((refl, rest.0), omega (arith, rest.1), omega (arith, rest.2))

-- The invariant when all requests have arrived.
pub arrived-AllKept :
    (key : Uuid) (start : ℕ) (c : IdempotencyCache) (ts : List Thread)
    → IsMap c.entries
    → 0 < c.ttl
    → length c.entries + length ts ≤ c.max_entries
    → AllArrived ts
    → AllKept key start c.ttl c.max_entries 0 0 (c, ts)
arrived-AllKept key start c ts map lasting room arrived =
    let fresh = arrived-Proper key ts arrived in
    (
      record {
        decided = record { map = map; lasting = lasting; winner = inl (omega (arith, fresh.1)) };
        room = omega (arith, room, fresh.2);
        same_ttl = refl;
        same_max = refl;
      },
      fresh.0,
    )

-- However the steps of the requests interleave, at most one of those that have the key is handed to the
-- pipeline within a time to live, if the cache has room for all of them.
pub executions-le-one :
    (turns : List Turn) (key : Uuid) (start : ℕ) (c : IdempotencyCache) (ts : List Thread)
    → InWindow start c.ttl turns
    → IsMap c.entries
    → 0 < c.ttl
    → length c.entries + length ts ≤ c.max_entries
    → AllArrived ts
    → executions key (run turns c ts).1 ≤ 1
executions-le-one turns key start c ts w map lasting room arrived =
    let kept =
      run-AllKept key start c.ttl c.max_entries turns c ts w
        (arrived-AllKept key start c ts map lasting room arrived) in
    ground (arith, executions-le-claims key (run turns c ts).1, kept.0.decided.winner)
