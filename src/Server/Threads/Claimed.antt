-- ===== src/Server/Threads/Claimed.antt =====
-- safa-daemon/src/server.rs: each step of a request keeps at most one claim on a key.
use ama.Prelude.{
  ℕ, ◌+◌, ◌≤◌, ◌<◌, ◌≡◌, inl, inr, false, some, arith, String, length, get, Uuid, ◌==◌, nat_eq,
  if◌then◌else◌, Bool-cases, Option-cases, ltb, ◌-◌, length-retain-le, length-remove-le,
  length-insert_new, length-insert_old, get-remove, remove-IsMap,
}
use ama.Idempotency.{IdempotencyCache, CacheEntry, fresh_entry, complete, remove_key}
use ama.Idempotency.Race
use ama.Idempotency.Race.{called, purged, sized, answered, advance}
use ama.Idempotency.Race.Winner.{Decided, advance-Decided, complete-Decided}
use ama.Server.Threads.{
  Course, malformed, unknown, executes, Pc, checking, won, rejecting, executing, executed, refused,
  settle, step,
}

-- A request that was told `new` and has not given the key back.
abbrev pub claim : Uuid → Uuid → Pc → ℕ
claim key k won = if k == key then 1 else 0
claim key k (executing text) = if k == key then 1 else 0
claim key k executed = if k == key then 1 else 0
claim key k other = 0

abbrev pub undecided : Pc → ℕ
undecided (checking p) = 1
undecided other = 0

-- While the cache has room, no request is told `full`.
abbrev pub Proper : Uuid → Pc → Type 0
Proper key (checking (called k)) = k ≡ key
Proper key (checking (purged k)) = k ≡ key
Proper key (checking (sized k reached)) = (k ≡ key) × (reached ≡ false)
Proper key (checking (answered k status)) = ⊥
Proper key rejecting = ⊥
Proper key other = Unit {0}

-- One request at most holds the key, and its entry stands; and there is room for all requests that have no
-- answer yet.
pub record Sole (key : Uuid) (start ttl max_entries : ℕ) (c : IdempotencyCache) (claims waiting : ℕ)
    : Type 0 where
  pub decided : Decided key start c claims
  pub room : length c.entries + waiting ≤ max_entries
  pub same_ttl : c.ttl ≡ ttl
  pub same_max : c.max_entries ≡ max_entries

module _ (key : Uuid) (start ttl max_entries now stamp : ℕ) (live : now < start + ttl)
    (fresh : start ≤ stamp) where
  -- What a step must keep.
  abbrev pub Kept : Uuid → ℕ → ℕ → IdempotencyCache × Pc → Type 0
  Kept k rest others out =
      Sole key start ttl max_entries out.0 (claim key k out.1 + rest) (undecided out.1 + others)
      × Proper k out.1

  sized-Kept :
      (k : Uuid) (c : IdempotencyCache) (rest others : ℕ)
      → Sole key start ttl max_entries c (0 + rest) (1 + others)
      → Kept k rest others
          ((advance now stamp c (sized k false)).0, settle (advance now stamp c (sized k false)).1)
  unfolding advance
  sized-Kept k c rest others s =
      let d =
        advance-Decided key start now stamp c (sized k false) rest (rw s.same_ttl live) fresh
          s.decided in
      elim (Option-cases (get k c.entries)) [
        | inl missing ↦ ground (arith, d, s, length-insert_new k (fresh_entry stamp) c.entries)
        | inr (old, here) ↦ elim (Bool-cases (ltb c.ttl (now - old.created_at))) [
          | inl expired ↦
              ground (arith, d, s, length-insert_old k (fresh_entry stamp) old c.entries)
          | inr stands ↦ ground (arith, d, s)
        ]
      ]

  checking-Kept :
      (k : Uuid) (course : Course) (p : Race.Pc) (c : IdempotencyCache) (rest others : ℕ)
      → Proper k (checking p)
      → Sole key start ttl max_entries c (0 + rest) (1 + others)
      → Kept k rest others (step now stamp k course (checking p) c)
  unfolding step advance
  checking-Kept k course (called k') c rest others proper s = (
    record {
      decided =
          advance-Decided key start now stamp c (called k') rest (rw s.same_ttl live) fresh
            s.decided;
      room =
          omega (arith, s.room, length-retain-le (λ e. ltb (now - e.created_at) c.ttl) c.entries);
      same_ttl = s.same_ttl;
      same_max = s.same_max;
    },
    proper,
  )
  checking-Kept k course (purged k') c rest others proper s =
      (s, (proper, ground (arith, s.room, s.same_max)))
  checking-Kept k course (sized k' reached) c rest others proper s =
      rw (proper.0, proper.1) (sized-Kept k c rest others s)
  checking-Kept k course (answered k' status) c rest others proper s = absurd proper

  -- The key is given back.
  remove-Decided :
      (k : Uuid) (c : IdempotencyCache) (rest : ℕ)
      → Decided key start c ((if k == key then 1 else 0) + rest)
      → Decided key start (remove_key k c) (0 + rest)
  unfolding remove_key
  remove-Decided k c rest d = record {
    map = remove-IsMap k c.entries d.map;
    lasting = d.lasting;
    winner = ground (arith, d.winner, get-remove k key c.entries d.map);
  }

  -- A claim is given up, and the entry stays.
  drop-Decided :
      (k : Uuid) (c : IdempotencyCache) (rest : ℕ)
      → Decided key start c ((if k == key then 1 else 0) + rest)
      → Decided key start c (0 + rest)
  drop-Decided k c rest d = record {
    map = d.map;
    lasting = d.lasting;
    winner = ground (arith, d.winner);
  }

  complete-Sole :
      (k : Uuid) (text : String) (c : IdempotencyCache) (claims waiting : ℕ)
      → Sole key start ttl max_entries c claims waiting
      → Sole key start ttl max_entries (complete k text c) claims waiting
  unfolding complete
  complete-Sole k text c claims waiting s = elim (Option-cases (get k c.entries)) [
    | inl missing ↦ rw (missing, complete) s
    | inr (old, here) ↦
        let done : CacheEntry = record old { is_in_flight = false; result = some text } in
        let d = complete-Decided key start k text c claims s.decided in
        ground (arith, d, s, length-insert_old k done old c.entries)
  ]

  pub step-Kept :
      (k : Uuid) (course : Course) (pc : Pc) (c : IdempotencyCache) (rest others : ℕ)
      → Proper k pc
      → Sole key start ttl max_entries c (claim key k pc + rest) (undecided pc + others)
      → Kept k rest others (step now stamp k course pc c)
  unfolding step
  step-Kept k course (checking p) c rest others proper s =
      checking-Kept k course p c rest others proper s
  step-Kept k (malformed text) won c rest others proper s = (
    complete-Sole k text c (0 + rest) (0 + others) (record {
      decided = drop-Decided k c rest s.decided;
      room = s.room;
      same_ttl = s.same_ttl;
      same_max = s.same_max;
    }),
    tt,
  )
  step-Kept k unknown won c rest others proper s = (
    record {
      decided = remove-Decided k c rest s.decided;
      room = unfold remove_key in omega (arith, s.room, length-remove-le k c.entries);
      same_ttl = unfold remove_key in s.same_ttl;
      same_max = unfold remove_key in s.same_max;
    },
    tt,
  )
  step-Kept k (executes text) won c rest others proper s = (s, tt)
  step-Kept k course rejecting c rest others proper s = absurd proper
  step-Kept k course (executing text) c rest others proper s = (complete-Sole k text c _ _ s, tt)
  step-Kept k course executed c rest others proper s = (s, tt)
  step-Kept k course refused c rest others proper s = (s, tt)
