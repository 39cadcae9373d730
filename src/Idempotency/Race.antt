-- ===== src/Idempotency/Race.antt =====
-- safa-core/src/idempotency.rs: `check_or_insert` called by any number of threads at once. Only its
-- three parts are atomic: the purge, the size that it reads before it takes the entry lock, and the
-- work under that lock. The DashMap locks one shard after the other in the first two, which are one step
-- each here.
pub mod Winner
pub mod Overshoot
use ama.Prelude.{
  ◌⊎◌, ltb, ◌-◌, ℕ, zero, suc, ◌+◌, ◌≤◌, ◌≡◌, refl, Bool, true, false, List, [], ◌∷◌, arith, length,
  get, length-retain-le, length-remove-le, length-insert_new, length-insert_old, Uuid, String,
  nat_eq, Option-cases, inl, inr, if◌then◌else◌, leb,
}
use ama.Idempotency.{
  CacheEntry, fresh_entry, IdempotencyStatus, IdempotencyCache, purge_expired, at_capacity, enter,
  complete, remove_key,
}

-- Where a call of `check_or_insert` stands.
pub data Pc : Type 0 where
  called : Uuid → Pc
  purged : Uuid → Pc
  sized : Uuid → (capacity_reached : Bool) → Pc
  answered : Uuid → IdempotencyStatus → Pc

-- The next part of a call, with the readings of the clock that it makes.
unfoldable pub advance : ℕ → ℕ → IdempotencyCache → Pc → IdempotencyCache × Pc
unfolding purge_expired at_capacity enter
advance now stamp c (called k) = (purge_expired now c, purged k)
advance now stamp c (purged k) = (c, sized k (at_capacity c))
advance now stamp c (sized k reached) =
    let (c', status) = enter reached now stamp k c in (c', answered k status)
advance now stamp c (answered k status) = (c, answered k status)

-- What happens next: a thread goes on, or some thread completes or removes a key.
pub data Event : Type 0 where
  thread : (i now stamp : ℕ) → Event
  completes : Uuid → String → Event
  removes : Uuid → Event

unfoldable pub turn : ℕ → ℕ → ℕ → IdempotencyCache → List Pc → IdempotencyCache × List Pc
unfolding advance
turn i now stamp c [] = (c, [])
turn zero now stamp c (p ∷ ps) = let (c', p') = advance now stamp c p in (c', p' ∷ ps)
turn (suc i) now stamp c (p ∷ ps) = let (c', ps') = turn i now stamp c ps in (c', p ∷ ps')

unfoldable pub happen : Event → IdempotencyCache → List Pc → IdempotencyCache × List Pc
unfolding turn complete remove_key
happen (thread i now stamp) c ps = turn i now stamp c ps
happen (completes k s) c ps = (complete k s c, ps)
happen (removes k) c ps = (remove_key k c, ps)

unfoldable pub run : List Event → IdempotencyCache → List Pc → IdempotencyCache × List Pc
unfolding happen
run [] c ps = (c, ps)
run (ev ∷ evs) c ps = let (c', ps') = happen ev c ps in run evs c' ps'
