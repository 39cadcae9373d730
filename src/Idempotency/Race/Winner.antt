-- ===== src/Idempotency/Race/Winner.antt =====
-- safa-core/src/idempotency.rs: among threads that race for a key, one wins.
use native.Mathlib.Nat.{add_assoc, add-zero}
use ama.Prelude.{
  Bool-cases, insert, zero, suc, refl, String, false, get-remove, remove-IsMap, ◌<◌, some, ◌≢◌,
  ◌==◌, IsMap, get-insert, get-retain, retain-IsMap, insert-IsMap, ◌⊎◌, ltb, ◌-◌, ℕ, ◌+◌, ◌≤◌, ◌≡◌,
  List, [], ◌∷◌, arith, get, Uuid, nat_eq, Option-cases, inl, inr, if◌then◌else◌,
}
use ama.Idempotency.{
  complete, remove_key, CacheEntry, fresh_entry, IdempotencyStatus, IdempotencyCache,
}
use ama.Idempotency.Race.{
  Pc, called, purged, sized, answered, advance, turn, happen, run, Event, thread, completes,
  removes,
}

abbrev pub win_one : Uuid → Pc → ℕ
win_one key (answered k IdempotencyStatus.new) = if k == key then 1 else 0
win_one key p = 0

-- The threads that were told to execute the request of the key.
unfoldable pub wins : Uuid → List Pc → ℕ
wins key [] = 0
wins key (p ∷ ps) = win_one key p + wins key ps

-- Every reading of the clock falls into the time to live that begins at `start`, and nobody removes
-- the key.
abbrev pub InWindow : Uuid → ℕ → ℕ → List Event → Type 0
InWindow key start ttl [] = Unit {0}
InWindow key start ttl (thread i now stamp ∷ evs) =
    (now < start + ttl) × (start ≤ stamp) × InWindow key start ttl evs
InWindow key start ttl (completes k s ∷ evs) = InWindow key start ttl evs
InWindow key start ttl (removes k ∷ evs) = (k ≢ key) × InWindow key start ttl evs

-- Entries live for some time, and nobody has won, or one thread has and its entry stands.
pub record Decided (key : Uuid) (start : ℕ) (c : IdempotencyCache) (won : ℕ) : Type 0 where
  pub map : IsMap c.entries
  pub lasting : 0 < c.ttl
  pub winner :
      (won ≡ 0)
      ⊎ ((won ≡ 1) × ((e : CacheEntry) × (get key c.entries ≡ some e) × (start ≤ e.created_at)))

-- A new entry for a key that nobody has won yet, or for another key.
insert-Decided :
    (key : Uuid) (start stamp k : ℕ) (c : IdempotencyCache) (won : ℕ)
    → start ≤ stamp
    → (k ≡ key → won ≡ 0)
    → Decided key start c won
    → Decided key start
        (record c { entries = insert k (fresh_entry stamp) c.entries })
        ((if k == key then 1 else 0) + won)
insert-Decided key start stamp k c won fresh free d = record {
  map = insert-IsMap k (fresh_entry stamp) c.entries d.map;
  lasting = d.lasting;
  winner = elim (Bool-cases (k == key)) [
    | inl same ↦
        let e : k ≡ key = ground arith in
        inr (
          ground (arith, free e),
          (
            fresh_entry stamp,
            ground (arith, get-insert k key (fresh_entry stamp) c.entries),
            fresh,
          ),
        )
    | inr other ↦ ground (arith, d.winner, get-insert k key (fresh_entry stamp) c.entries)
  ];
}

pub advance-Decided :
    (key : Uuid) (start now stamp : ℕ) (c : IdempotencyCache) (p : Pc) (rest : ℕ)
    → now < start + c.ttl
    → start ≤ stamp
    → Decided key start c (win_one key p + rest)
    → Decided key start (advance now stamp c p).0 (win_one key (advance now stamp c p).1 + rest)
unfolding advance
advance-Decided key start now stamp c (called k) rest live fresh d = record {
  map = retain-IsMap _ c.entries d.map;
  lasting = d.lasting;
  winner =
      ground
        (arith, d.winner, get-retain (λ e. ltb (now - e.created_at) c.ttl) key c.entries d.map);
}
advance-Decided key start now stamp c (purged k) rest live fresh d = ground arith
advance-Decided key start now stamp c (sized k reached) rest live fresh d =
    elim (Option-cases (get k c.entries)) [
      | inl missing ↦
          ground (
            arith,
            d,
            insert-Decided key start stamp k c rest fresh (λ e. ground (arith, d.winner)),
          )
      | inr (old, here) ↦ elim (Bool-cases (ltb c.ttl (now - old.created_at))) [
        | inl expired ↦ ground (
          arith,
          d,
          insert-Decided key start stamp k c rest fresh (λ e. ground (arith, d.winner)),
        )
        | inr stands ↦ ground (arith, d)
      ]
    ]
advance-Decided key start now stamp c (answered k status) rest live fresh d = d

regroup : (a b c : ℕ) → a + b + c ≡ b + (a + c)
regroup a b c = omega arith

turn-Decided :
    (key : Uuid) (start i now stamp : ℕ) (c : IdempotencyCache) (ps : List Pc) (rest : ℕ)
    → now < start + c.ttl
    → start ≤ stamp
    → Decided key start c (wins key ps + rest)
    → Decided key start (turn i now stamp c ps).0 (wins key (turn i now stamp c ps).1 + rest)
unfolding turn wins
turn-Decided key start i now stamp c [] rest live fresh d = d
turn-Decided key start zero now stamp c (p ∷ ps) rest live fresh d =
    rw add_assoc
      (advance-Decided key start now stamp c p (wins key ps + rest) live fresh (rw add_assoc at d))
turn-Decided key start (suc i) now stamp c (p ∷ ps) rest live fresh d =
    rw (regroup (win_one key p) _ rest) (
      turn-Decided key start i now stamp c ps (win_one key p + rest) live fresh
        (rw (regroup (win_one key p) (wins key ps) rest) at d))

pub complete-Decided :
    (key : Uuid) (start : ℕ) (k : Uuid) (s : String) (c : IdempotencyCache) (won : ℕ)
    → Decided key start c won
    → Decided key start (complete k s c) won
unfolding complete
complete-Decided key start k s c won d = elim (Option-cases (get k c.entries)) [
  | inl missing ↦ rw (missing, complete) d
  | inr (old, here) ↦
      let done : CacheEntry = record old { is_in_flight = false; result = some s } in
      rw (here, complete)
        (record {
          map = insert-IsMap k done c.entries d.map;
          lasting = d.lasting;
          winner = ground (arith, d.winner, get-insert k key done c.entries);
        })
]

happen-Decided :
    (ev : Event) (evs : List Event) (key : Uuid) (start : ℕ) (c : IdempotencyCache) (ps : List Pc)
    → InWindow key start c.ttl (ev ∷ evs)
    → Decided key start c (wins key ps)
    → Decided key start (happen ev c ps).0 (wins key (happen ev c ps).1)
unfolding happen remove_key
happen-Decided (thread i now stamp) evs key start c ps w d =
    rw add-zero at
      (turn-Decided key start i now stamp c ps 0 w.0 w.1 (rw (add-zero (wins key ps)) d))
happen-Decided (completes k s) evs key start c ps w d = complete-Decided key start k s c _ d
happen-Decided (removes k) evs key start c ps w d = record {
  map = remove-IsMap k c.entries d.map;
  lasting = d.lasting;
  winner = ground (arith, d.winner, w.0, get-remove k key c.entries d.map);
}

turn-ttl :
    (i now stamp : ℕ) (c : IdempotencyCache) (ps : List Pc) → (turn i now stamp c ps).0.ttl ≡ c.ttl
unfolding turn advance
turn-ttl i now stamp c [] = refl
turn-ttl zero now stamp c (called k ∷ ps) = refl
turn-ttl zero now stamp c (purged k ∷ ps) = refl
turn-ttl zero now stamp c (sized k reached ∷ ps) = ground arith
turn-ttl zero now stamp c (answered k status ∷ ps) = refl
turn-ttl (suc i) now stamp c (p ∷ ps) = turn-ttl i now stamp c ps

happen-ttl : (ev : Event) (c : IdempotencyCache) (ps : List Pc) → (happen ev c ps).0.ttl ≡ c.ttl
unfolding happen complete remove_key
happen-ttl (thread i now stamp) c ps = turn-ttl i now stamp c ps
happen-ttl (completes k s) c ps = ground arith
happen-ttl (removes k) c ps = refl

InWindow-tail :
    (ev : Event) (evs : List Event) (key : Uuid) (start ttl : ℕ)
    → InWindow key start ttl (ev ∷ evs)
    → InWindow key start ttl evs
InWindow-tail (thread i now stamp) evs key start ttl w = w.2
InWindow-tail (completes k s) evs key start ttl w = w
InWindow-tail (removes k) evs key start ttl w = w.1

-- Threads, completions and removals of other keys may overlap in any way: within a time to live, at
-- most one thread is told `new` for a key, however many ask.
pub wins-le-one :
    (evs : List Event) (key : Uuid) (start : ℕ) (c : IdempotencyCache) (ps : List Pc)
    → InWindow key start c.ttl evs
    → Decided key start c (wins key ps)
    → wins key (run evs c ps).1 ≤ 1
unfolding run
wins-le-one [] key start c ps w d = ground (arith, d.winner)
wins-le-one (ev ∷ evs) key start c ps w d =
    wins-le-one evs key start (happen ev c ps).0 (happen ev c ps).1
      (rw (happen-ttl ev c ps) (InWindow-tail ev evs key start c.ttl w))
      (happen-Decided ev evs key start c ps w d)
