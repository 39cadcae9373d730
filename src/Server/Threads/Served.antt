-- ===== src/Server/Threads/Served.antt =====
-- safa-daemon/src/server.rs: of the requests that have a key, one is carried out.
use native.Mathlib.Nat.{add_assoc}
use ama.Prelude.{
  ℕ, zero, suc, ◌+◌, ◌≤◌, ◌<◌, ◌≡◌, ◌≢◌, sym, refl, ap, ◌∙◌, ◌⊎◌, inl, inr, false, some, none, List,
  [], ◌∷◌, arith, String, length, get, IsMap, Uuid, ◌==◌, nat_eq, if◌then◌else◌, Bool-cases,
  Option-cases, ltb, ◌-◌, get-insert, get-remove, get-retain,
}
use ama.Idempotency.{IdempotencyCache, CacheEntry, fresh_entry, complete, remove_key}
use ama.Idempotency.Race.{called, purged, sized, answered, advance}
use ama.Server.Threads.{
  Course, malformed, unknown, executes, Pc, checking, won, rejecting, executing, executed, refused,
  Thread, settle, step, Turn, take_turn, run, executions, is_execution,
}
use ama.Server.Threads.Claimed.{claim, Proper}
use ama.Server.Threads.Once.{
  claims, AllProper, AllKept, AllArrived, take_turn-AllKept, InWindow, arrived-AllKept,
  executions-le-one, regroup,
}

abbrev refusal : Uuid → Uuid → Pc → ℕ
refusal key k refused = if k == key then 1 else 0
refusal key k other = 0

-- A request with the key has been refused only if another one holds it.
abbrev Taken : Uuid → IdempotencyCache → ℕ → ℕ → Type 0
Taken key c held turned_down = ((get key c.entries ≡ none) × (turned_down ≡ 0)) ⊎ (1 ≤ held)

-- A request with the key is handed to the pipeline if it is told `new`.
abbrev pub WouldExecute : Uuid → Uuid → Course → Type 0
WouldExecute key k (executes text) = Unit {0}
WouldExecute key k other = k ≢ key

complete-none :
    (key k : Uuid) (text : String) (c : IdempotencyCache)
    → get key c.entries ≡ none
    → get key (complete k text c).entries ≡ none
unfolding complete
complete-none key k text c h = elim (Option-cases (get k c.entries)) [
  | inl missing ↦ ground (arith, h)
  | inr (old, here) ↦
      let done : CacheEntry = record old { is_in_flight = false; result = some text } in
      elim (Bool-cases (k == key)) [
        | inl same ↦
            let e : k ≡ key = ground arith in
            absurd (ground (arith, sym here ∙ ap (λ j. get j c.entries) e ∙ h))
        | inr other ↦ ground (arith, get-insert k key done c.entries)
      ]
]

module _ (key : Uuid) (now stamp : ℕ) where
  sized-Taken :
      (k : Uuid) (c : IdempotencyCache) (held turned_down : ℕ)
      → Taken key c (0 + held) (0 + turned_down)
      → Taken key
          (advance now stamp c (sized k false)).0
          (claim key k (settle (advance now stamp c (sized k false)).1) + held)
          (refusal key k (settle (advance now stamp c (sized k false)).1) + turned_down)
  unfolding advance
  sized-Taken k c held turned_down t = elim (Option-cases (get k c.entries)) [
    | inl missing ↦ ground (arith, t, get-insert k key (fresh_entry stamp) c.entries)
    | inr (old, here) ↦ elim (Bool-cases (k == key)) [
      | inl same ↦
          let e : k ≡ key = ground arith in
          let here' : get key c.entries ≡ some old = ap (λ j. get j c.entries) (sym e) ∙ here in
          ground (arith, t, here')
      | inr other ↦ ground (arith, t, get-insert k key (fresh_entry stamp) c.entries)
    ]
  ]

  step-Taken :
      (k : Uuid) (course : Course) (pc : Pc) (c : IdempotencyCache) (held turned_down : ℕ)
      → IsMap c.entries
      → Proper k pc
      → WouldExecute key k course
      → Taken key c (claim key k pc + held) (refusal key k pc + turned_down)
      → Taken key
          (step now stamp k course pc c).0
          (claim key k (step now stamp k course pc c).1 + held)
          (refusal key k (step now stamp k course pc c).1 + turned_down)
  unfolding step advance remove_key
  step-Taken k course (checking (called k')) c held turned_down map proper w t =
      ground (arith, t, get-retain (λ e. ltb (now - e.created_at) c.ttl) key c.entries map)
  step-Taken k course (checking (purged k')) c held turned_down map proper w t = t
  step-Taken k course (checking (sized k' reached)) c held turned_down map proper w t =
      rw (proper.0, proper.1) (sized-Taken k c held turned_down t)
  step-Taken k course (checking (answered k' status)) c held turned_down map proper w t =
      absurd proper
  step-Taken k (malformed text) won c held turned_down map proper w t =
      ground (arith, t, w, complete-none key k text c)
  step-Taken k unknown won c held turned_down map proper w t =
      ground (arith, t, w, get-remove k key c.entries map)
  step-Taken k (executes text) won c held turned_down map proper w t = t
  step-Taken k course rejecting c held turned_down map proper w t = absurd proper
  step-Taken k course (executing text) c held turned_down map proper w t =
      ground (arith, t, complete-none key k text c)
  step-Taken k course executed c held turned_down map proper w t = t
  step-Taken k course refused c held turned_down map proper w t = t

abbrev refusals : Uuid → List Thread → ℕ
refusals key [] = 0
refusals key (t ∷ ts) = refusal key t.key t.pc + refusals key ts

abbrev pub AllWouldExecute : Uuid → List Thread → Type 0
AllWouldExecute key [] = Unit {0}
AllWouldExecute key (t ∷ ts) = WouldExecute key t.key t.course × AllWouldExecute key ts

-- How many requests have the key.
abbrev pub requests : Uuid → List Thread → ℕ
requests key [] = 0
requests key (t ∷ ts) = (if t.key == key then 1 else 0) + requests key ts

Taken-eq :
    (key : Uuid) (c : IdempotencyCache) (a b : ℕ) {x y : ℕ}
    → Taken key c x y
    → x ≡ a
    → y ≡ b
    → Taken key c a b
Taken-eq key c a b t h k = ground (arith, t)

take_turn-Taken :
    (key : Uuid) (i now stamp : ℕ) (c : IdempotencyCache) (ts : List Thread) (held turned_down : ℕ)
    → IsMap c.entries
    → AllProper ts
    → AllWouldExecute key ts
    → Taken key c (claims key ts + held) (refusals key ts + turned_down)
    → Taken key
        (take_turn i now stamp c ts).0
        (claims key (take_turn i now stamp c ts).1 + held)
        (refusals key (take_turn i now stamp c ts).1 + turned_down)
unfolding take_turn
take_turn-Taken key i now stamp c [] held turned_down map proper w t = t
take_turn-Taken key zero now stamp c (r ∷ ts) held turned_down map proper w t =
    Taken-eq key (step now stamp r.key r.course r.pc c).0 _ _
      (step-Taken key now stamp r.key r.course r.pc c (claims key ts + held)
        (refusals key ts + turned_down) map proper.0 w.0
        (Taken-eq key c _ _ t (add_assoc _ _ _) (add_assoc _ _ _)))
      (sym (add_assoc _ _ _)) (sym (add_assoc _ _ _))
take_turn-Taken key (suc i) now stamp c (r ∷ ts) held turned_down map proper w t =
    Taken-eq key (take_turn i now stamp c ts).0 _ _
      (take_turn-Taken key i now stamp c ts (claim key r.key r.pc + held)
        (refusal key r.key r.pc + turned_down) map proper.1 w.1
        (Taken-eq key c _ _ t (regroup _ _ _) (regroup _ _ _)))
      (sym (regroup _ _ _)) (sym (regroup _ _ _))

take_turn-same :
    (key : Uuid) (i now stamp : ℕ) (c : IdempotencyCache) (ts : List Thread)
    → AllWouldExecute key ts
    → AllWouldExecute key (take_turn i now stamp c ts).1
      × (requests key (take_turn i now stamp c ts).1 ≡ requests key ts)
unfolding take_turn
take_turn-same key i now stamp c [] w = (w, refl)
take_turn-same key zero now stamp c (t ∷ ts) w = (w, refl)
take_turn-same key (suc i) now stamp c (t ∷ ts) w =
    let rest = take_turn-same key i now stamp c ts w.1 in ((w.0, rest.0), omega (arith, rest.1))

run-Taken :
    (key : Uuid) (start ttl max_entries : ℕ) (turns : List Turn) (c : IdempotencyCache)
    (ts : List Thread)
    → InWindow start ttl turns
    → AllKept key start ttl max_entries 0 0 (c, ts)
    → AllWouldExecute key ts
    → Taken key c (claims key ts + 0) (refusals key ts + 0)
    → Taken key
        (run turns c ts).0
        (claims key (run turns c ts).1 + 0)
        (refusals key (run turns c ts).1 + 0)
      × (requests key (run turns c ts).1 ≡ requests key ts)
unfolding run
run-Taken key start ttl max_entries [] c ts w kept e t = (t, refl)
run-Taken key start ttl max_entries (turn ∷ turns) c ts w kept e t =
    let same = take_turn-same key turn.number turn.now turn.stamp c ts e in
    let rest =
      run-Taken key start ttl max_entries turns _ _ w.2
        (take_turn-AllKept key start ttl max_entries turn.number turn.now turn.stamp c ts 0 0 w.0
          w.1 kept)
        same.0
        (take_turn-Taken key turn.number turn.now turn.stamp c ts 0 0 kept.0.decided.map kept.1 e
          t) in
    (rest.0, rest.1 ∙ same.1)

abbrev pub Answered : Pc → Type 0
Answered executed = Unit {0}
Answered refused = Unit {0}
Answered other = ⊥

abbrev pub AllAnswered : List Thread → Type 0
AllAnswered [] = Unit {0}
AllAnswered (t ∷ ts) = Answered t.pc × AllAnswered ts

answered-counts :
    (key : Uuid) (ts : List Thread)
    → AllAnswered ts
    → (requests key ts ≡ executions key ts + refusals key ts) × (claims key ts ≡ executions key ts)
unfolding executions
answered-counts key [] h = (omega arith, refl)
answered-counts key (t ∷ ts) h =
    let rest = answered-counts key ts h.1 in
    let own = answered-counts_pc key t.key t.pc h.0 in
    (omega (arith, rest.0, own.0), omega (arith, rest.1, own.1))
  where
    answered-counts_pc :
        (key k : Uuid) (pc : Pc)
        → Answered pc
        → ((if k == key then 1 else 0)
            ≡ (if k == key then is_execution pc else 0) + refusal key k pc)
          × (claim key k pc ≡ (if k == key then is_execution pc else 0))
    answered-counts_pc key k executed h = (ground arith, ground arith)
    answered-counts_pc key k refused h = (ground arith, ground arith)
    answered-counts_pc key k (checking p) h = absurd h
    answered-counts_pc key k won h = absurd h
    answered-counts_pc key k rejecting h = absurd h
    answered-counts_pc key k (executing text) h = absurd h

arrived-refusals : (key : Uuid) (ts : List Thread) → AllArrived ts → refusals key ts ≡ 0
arrived-refusals key [] h = refl
arrived-refusals key (t ∷ ts) h = rw h.0 (omega (arith, arrived-refusals key ts h.1))

-- Exactly once: of requests that have one new key and well-formed bodies, however their steps interleave within the
-- time to live, exactly one has been handed to the pipeline when all have been answered, if the cache
-- has room for all requests.
pub executions-eq-one :
    (turns : List Turn) (key : Uuid) (start : ℕ) (c : IdempotencyCache) (ts : List Thread)
    → InWindow start c.ttl turns
    → IsMap c.entries
    → 0 < c.ttl
    → length c.entries + length ts ≤ c.max_entries
    → AllArrived ts
    → get key c.entries ≡ none
    → AllWouldExecute key ts
    → 1 ≤ requests key ts
    → AllAnswered (run turns c ts).1
    → executions key (run turns c ts).1 ≡ 1
executions-eq-one turns key start c ts w map lasting room arrived absent well some_request done =
    let most = executions-le-one turns key start c ts w map lasting room arrived in
    let t =
      run-Taken key start c.ttl c.max_entries turns c ts w
        (arrived-AllKept key start c ts map lasting room arrived) well
        (inl (absent, omega (arith, arrived-refusals key ts arrived))) in
    let counts = answered-counts key (run turns c ts).1 done in
    ground (arith, t.0, t.1, counts, most)
