-- ===== src/Idempotency/Race/Overshoot.antt =====
-- safa-core/src/idempotency.rs: how far threads that overlap can take the cache over its limit.
use ama.Prelude.{
  ◌<◌, some, ap, ◌⊎◌, ltb, ◌-◌, ℕ, zero, suc, ◌+◌, ◌≤◌, ◌≡◌, refl, false, List, [], ◌∷◌, arith,
  length, get, length-retain-le, length-remove-le, length-insert_new, length-insert_old, Uuid,
  String, nat_eq, Option-cases, inl, inr,
}
use ama.Idempotency.{CacheEntry, fresh_entry, IdempotencyCache, complete, remove_key}
use ama.Idempotency.Race.{
  Pc, called, purged, sized, answered, advance, Event, thread, completes, removes, turn, happen,
  run,
}

-- The threads that may still insert: they found room.
abbrev pub pending_one : Pc → ℕ
pending_one (sized k false) = 1
pending_one p = 0

unfoldable pub pending : List Pc → ℕ
pending [] = 0
pending (p ∷ ps) = pending_one p + pending ps

-- The measure of an overshoot: it grows only where a thread finds room.
record Room (c c' : IdempotencyCache) (before after : ℕ) : Type 0 where
  limit : c'.max_entries ≡ c.max_entries
  room :
      (length c'.entries + after ≤ length c.entries + before)
      ⊎ ((suc (length c'.entries) ≤ c.max_entries) × (after ≤ before + 1))

advance-Room :
    (now stamp : ℕ) (c : IdempotencyCache) (p : Pc)
    → Room c (advance now stamp c p).0 (pending_one p) (pending_one (advance now stamp c p).1)
unfolding advance
advance-Room now stamp c (called k) = record {
  limit = refl;
  room = inl (
      omega
        (arith, length-retain-le (λ (e : CacheEntry). ltb (now - e.created_at) c.ttl) c.entries));
}
advance-Room now stamp c (purged k) = ground arith
advance-Room now stamp c (sized k reached) = elim (Option-cases (get k c.entries)) [
  | inl missing ↦ ground (arith, length-insert_new k (fresh_entry stamp) c.entries missing)
  | inr (old, here) ↦ ground (arith, length-insert_old k (fresh_entry stamp) old c.entries here)
]
advance-Room now stamp c (answered k status) = record { limit = refl; room = inl (omega arith) }

turn-Room :
    (i now stamp : ℕ) (c : IdempotencyCache) (ps : List Pc)
    → Room c (turn i now stamp c ps).0 (pending ps) (pending (turn i now stamp c ps).1)
unfolding turn pending
turn-Room i now stamp c [] = record { limit = refl; room = inl (omega arith) }
turn-Room zero now stamp c (p ∷ ps) =
    let r = advance-Room now stamp c p in ground (arith, r.limit, r.room)
turn-Room (suc i) now stamp c (p ∷ ps) =
    let r = turn-Room i now stamp c ps in ground (arith, r.limit, r.room)

complete-Room : (k : Uuid) (s : String) (c : IdempotencyCache) (n : ℕ) → Room c (complete k s c) n n
unfolding complete
complete-Room k s c n = elim (Option-cases (get k c.entries)) [
  | inl missing ↦ ground arith
  | inr (old, here) ↦
      let done : CacheEntry = record old { is_in_flight = false; result = some s } in
      ground (arith, length-insert_old k done old c.entries here)
]

happen-Room :
    (ev : Event) (c : IdempotencyCache) (ps : List Pc)
    → Room c (happen ev c ps).0 (pending ps) (pending (happen ev c ps).1)
unfolding happen remove_key
happen-Room (thread i now stamp) c ps = turn-Room i now stamp c ps
happen-Room (completes k s) c ps = complete-Room k s c (pending ps)
happen-Room (removes k) c ps = record {
  limit = refl;
  room = inl (omega (arith, length-remove-le k c.entries));
}

pending-le : (ps : List Pc) → pending ps ≤ length ps
unfolding pending
pending-le [] = omega arith
pending-le (p ∷ ps) = ground (arith, pending-le ps)

length-turn :
    (i now stamp : ℕ) (c : IdempotencyCache) (ps : List Pc)
    → length (turn i now stamp c ps).1 ≡ length ps
unfolding turn
length-turn i now stamp c [] = refl
length-turn zero now stamp c (p ∷ ps) = refl
length-turn (suc i) now stamp c (p ∷ ps) = ap suc (length-turn i now stamp c ps)

length-happen :
    (ev : Event) (c : IdempotencyCache) (ps : List Pc) → length (happen ev c ps).1 ≡ length ps
unfolding happen
length-happen (thread i now stamp) c ps = length-turn i now stamp c ps
length-happen (completes k s) c ps = refl
length-happen (removes k) c ps = refl

-- With `n` threads at work, in every interleaving the cache holds fewer than `max_entries + n` entries:
-- the size is read before the lock is taken, so each other thread may add an entry in between.
pub run-length :
    (evs : List Event) (c : IdempotencyCache) (ps : List Pc)
    → length c.entries + pending ps < c.max_entries + length ps
    → length (run evs c ps).0.entries + pending (run evs c ps).1 < c.max_entries + length ps
unfolding run
run-length [] c ps h = h
run-length (ev ∷ evs) c ps h =
    let r = happen-Room ev c ps in
    let (c', ps') = happen ev c ps in
    let same = length-happen ev c ps in
    ground (arith, r.limit, r.room, same, pending-le ps', run-length evs c' ps')
