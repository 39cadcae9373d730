-- ===== src/Idempotency/Owner.antt =====
-- safa-core/src/idempotency.rs: one caller at most owns a key until its time to live has passed.
use mathlib.Core.Path.{ap₂}
use ama.Prelude.{
  get-insert_self, inl, inr, Option-cases, ◌==◌, ℕ, ◌-◌, ◌≤◌, ◌<◌, String, ◌≡◌, refl, ◌≢◌, Bool,
  true, false, Option, none, some, List, [], ◌∷◌, ◌++◌, arith, get, IsMap, get-insert, get-remove,
  get-retain, retain-IsMap, insert-IsMap, remove-IsMap, ltb, if◌then◌else◌, nat_eq, Uuid,
}
use ama.Idempotency.{
  IdempotencyStatus, new, in_flight, cached, CacheEntry, IdempotencyCache, purge_expired,
  at_capacity, fresh_entry, enter, Clock, check_or_insert, complete, remove_key, Op, check,
  completes, removes, step,
}

-- What a live entry with this result answers.
abbrev pub answer : Option String → IdempotencyStatus
answer none = in_flight
answer (some result) = cached result

abbrev pub owned_entry : ℕ → Option String → CacheEntry
owned_entry created none = record { result = none; created_at = created; is_in_flight = true }
owned_entry created (some result) = record {
  result = some result;
  created_at = created;
  is_in_flight = false;
}

-- `key` stands in the cache since `created`, completed with the result if there is one.
pub record Owned (key : Uuid) (created : ℕ) (result : Option String) (c : IdempotencyCache)
    : Type 0 where
  pub map : IsMap c.entries
  pub entry : get key c.entries ≡ some (owned_entry created result)

-- The calls neither remove the key nor come after its time to live.
abbrev pub Within : Uuid → ℕ → ℕ → List Op → Type 0
Within key created ttl [] = Unit {0}
Within key created ttl (check t k ∷ ops) =
    (t.purged_at - created < ttl) × (t.now - created ≤ ttl) × Within key created ttl ops
Within key created ttl (completes k result ∷ ops) = Within key created ttl ops
Within key created ttl (removes k ∷ ops) = (k ≢ key) × Within key created ttl ops

purge-Owned :
    (now : ℕ) (key : Uuid) (created : ℕ) (result : Option String) (c : IdempotencyCache)
    → now - created < c.ttl
    → Owned key created result c
    → Owned key created result (purge_expired now c)
unfolding purge_expired
purge-Owned now key created none c live o = record {
  map = retain-IsMap _ c.entries o.map;
  entry = ground (arith, get-retain (λ e. ltb (now - e.created_at) c.ttl) key c.entries o.map);
}
purge-Owned now key created (some result) c live o = record {
  map = retain-IsMap _ c.entries o.map;
  entry = ground (arith, get-retain (λ e. ltb (now - e.created_at) c.ttl) key c.entries o.map);
}

-- The entry itself: a live key is answered from its entry, which stays.
enter-Owned :
    (cap : Bool) (now stamp : ℕ) (key : Uuid) (created : ℕ) (result : Option String)
    (c : IdempotencyCache)
    → now - created ≤ c.ttl
    → Owned key created result c
    → enter cap now stamp key c ≡ (c, answer result)
unfolding enter
enter-Owned cap now stamp key created none c live o = ground arith
enter-Owned cap now stamp key created (some result) c live o = ground arith

-- An entry under another key.
enter_other-Owned :
    (cap : Bool) (now stamp : ℕ) (k key : Uuid) (created : ℕ) (result : Option String)
    (c : IdempotencyCache)
    → k ≢ key
    → Owned key created result c
    → Owned key created result (enter cap now stamp k c).0
unfolding enter
enter_other-Owned cap now stamp k key created result c other o = ground (
  arith,
  get-insert k key (fresh_entry stamp) c.entries,
  insert-IsMap k (fresh_entry stamp) c.entries o.map,
)

enter_any-Owned :
    (cap : Bool) (now stamp : ℕ) (k key : Uuid) (created : ℕ) (result : Option String)
    (c : IdempotencyCache)
    → now - created ≤ c.ttl
    → Owned key created result c
    → Owned key created result (enter cap now stamp k c).0
enter_any-Owned cap now stamp k key created result c live o = ground (
  arith,
  enter-Owned cap now stamp key created result c live o,
  enter_other-Owned cap now stamp k key created result c,
)

pub check_self-Owned :
    (t : Clock) (key : Uuid) (created : ℕ) (result : Option String) (c : IdempotencyCache)
    → t.purged_at - created < c.ttl
    → t.now - created ≤ c.ttl
    → Owned key created result c
    → check_or_insert t key c ≡ (purge_expired t.purged_at c, answer result)
unfolding check_or_insert
check_self-Owned t key created result c purged live o =
    enter-Owned (at_capacity (purge_expired t.purged_at c)) t.now t.stamp key created result
      (purge_expired t.purged_at c) live (purge-Owned t.purged_at key created result c purged o)

pub complete-Owned :
    (k : Uuid) (s : String) (key : Uuid) (created : ℕ) (result : Option String)
    (c : IdempotencyCache)
    → Owned key created result c
    → Owned key created (if k == key then some s else result) (complete k s c)
unfolding complete
complete-Owned k s key created none c o = elim (Option-cases (get k c.entries)) [
  | inl missing ↦ ground (arith)
  | inr (e, found) ↦ ground (
    arith,
    get-insert k key (record e { is_in_flight = false; result = some s }) c.entries,
    insert-IsMap k (record e { is_in_flight = false; result = some s }) c.entries o.map,
  )
]
complete-Owned k s key created (some r) c o = elim (Option-cases (get k c.entries)) [
  | inl missing ↦ ground (arith)
  | inr (e, found) ↦ ground (
    arith,
    get-insert k key (record e { is_in_flight = false; result = some s }) c.entries,
    insert-IsMap k (record e { is_in_flight = false; result = some s }) c.entries o.map,
  )
]

-- The result that the key holds after a call.
abbrev result_after : Uuid → Option String → Op → Option String
result_after key result (completes k s) = if k == key then some s else result
result_after key result op = result

step-Owned :
    (op : Op) (ops : List Op) (key : Uuid) (created : ℕ) (result : Option String)
    (c : IdempotencyCache)
    → Within key created c.ttl (op ∷ ops)
    → Owned key created result c
    → Owned key created (result_after key result op) (step op c)
unfolding step check_or_insert remove_key purge_expired
step-Owned (check t k) ops key created result c w o =
    enter_any-Owned (at_capacity (purge_expired t.purged_at c)) t.now t.stamp k key created result
      (purge_expired t.purged_at c) w.1 (purge-Owned t.purged_at key created result c w.0 o)
step-Owned (completes k s) ops key created result c w o = complete-Owned k s key created result c o
step-Owned (removes k) ops key created result c w o = record {
  map = remove-IsMap k c.entries o.map;
  entry = ground (arith, w.0, get-remove k key c.entries o.map);
}

-- What the calls of `check_or_insert` on the key answer.
reply : Uuid → Op → IdempotencyCache → List IdempotencyStatus
reply key (check t k) c = if k == key then (check_or_insert t k c).1 ∷ [] else []
reply key op c = []

unfoldable pub answers : Uuid → List Op → IdempotencyCache → List IdempotencyStatus
unfolding reply
answers key [] c = []
answers key (op ∷ ops) c = reply key op c ++ answers key ops (step op c)

-- What they should: `in_flight` until the key is completed, and the last result from then on.
unfoldable pub expected : Uuid → Option String → List Op → List IdempotencyStatus
expected key result [] = []
expected key result (check t k ∷ ops) =
    (if k == key then answer result ∷ [] else []) ++ expected key result ops
expected key result (completes k s ∷ ops) = expected key (if k == key then some s else result) ops
expected key result (removes k ∷ ops) = expected key result ops

pub check_or_insert-ttl :
    (t : Clock) (key : Uuid) (c : IdempotencyCache) → (check_or_insert t key c).0.ttl ≡ c.ttl
unfolding check_or_insert purge_expired enter
check_or_insert-ttl t key c = ground arith

step-ttl : (op : Op) (c : IdempotencyCache) → (step op c).ttl ≡ c.ttl
unfolding step complete remove_key
step-ttl (check t k) c = check_or_insert-ttl t k c
step-ttl (completes k s) c = ground arith
step-ttl (removes k) c = refl

reply-Owned :
    (t : Clock) (k key : Uuid) (created : ℕ) (result : Option String) (c : IdempotencyCache)
    → t.purged_at - created < c.ttl
    → t.now - created ≤ c.ttl
    → Owned key created result c
    → reply key (check t k) c ≡ (if k == key then answer result ∷ [] else [])
unfolding reply
reply-Owned t k key created result c purged live o =
    ground (arith, check_self-Owned t key created result c purged live o)

-- While a key is within its time to live and is not removed, no sequence of calls, on this and other
-- keys, makes `check_or_insert` hand the key out again: it answers `in_flight` until the key is
-- completed, and from then on the result that was stored last.
pub answers-expected :
    (ops : List Op) (key : Uuid) (created : ℕ) (result : Option String) (c : IdempotencyCache)
    → Within key created c.ttl ops
    → Owned key created result c
    → answers key ops c ≡ expected key result ops
unfolding answers expected
answers-expected [] key created result c w o = refl
answers-expected (check t k ∷ ops) key created result c w o =
    ap₂ ◌++◌ (reply-Owned t k key created result c w.0 w.1 o) (
      answers-expected ops key created result (step (check t k) c) (rw (step-ttl (check t k) c) w.2)
        (step-Owned (check t k) ops key created result c w o))
answers-expected (completes k s ∷ ops) key created result c w o =
    answers-expected ops key created (if k == key then some s else result) (step (completes k s) c)
      (rw (step-ttl (completes k s) c) w) (step-Owned (completes k s) ops key created result c w o)
answers-expected (removes k ∷ ops) key created result c w o =
    answers-expected ops key created result (step (removes k) c) (rw (step-ttl (removes k) c) w.1)
      (step-Owned (removes k) ops key created result c w o)

-- A call that hands the key out makes its caller the owner.
pub check_new-Owned :
    (t : Clock) (key : Uuid) (c : IdempotencyCache)
    → IsMap c.entries
    → (check_or_insert t key c).1 ≡ new
    → Owned key t.stamp none (check_or_insert t key c).0
unfolding check_or_insert enter purge_expired
check_new-Owned t key c map h = ground (
  arith,
  get-insert_self key (fresh_entry t.stamp) (purge_expired t.purged_at c).entries,
  insert-IsMap key (fresh_entry t.stamp) (purge_expired t.purged_at c).entries,
  retain-IsMap (λ (e : CacheEntry). ltb (t.purged_at - e.created_at) c.ttl) c.entries map,
)

-- Exactly one execution: after a call of `check_or_insert` that answers `new`, the later calls on the
-- key within its time to live answer only from what its owner completes.
pub owner_unique :
    (t : Clock) (key : Uuid) (c : IdempotencyCache) (ops : List Op)
    → IsMap c.entries
    → (check_or_insert t key c).1 ≡ new
    → Within key t.stamp c.ttl ops
    → answers key ops (check_or_insert t key c).0 ≡ expected key none ops
owner_unique t key c ops map h w =
    answers-expected ops key t.stamp none (check_or_insert t key c).0
      (rw (check_or_insert-ttl t key c) w) (check_new-Owned t key c map h)
