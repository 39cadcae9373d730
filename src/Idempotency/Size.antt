-- ===== src/Idempotency/Size.antt =====
-- safa-core/src/idempotency.rs: what every call keeps, when calls do not overlap.
use ama.Prelude.{
  List, [], ◌∷◌, ℕ, ◌-◌, ◌≤◌, ◌≡◌, ◌≢◌, false, none, some, arith, get, length, IsMap, get-insert,
  get-remove, get-retain, retain-IsMap, insert-IsMap, remove-IsMap, length-retain-le,
  length-remove-le, length-insert_new, length-insert_old, ltb, Uuid, String, nat_eq, Option-cases,
  inl, inr,
}
use ama.Idempotency.{
  Clock, run, empty_cache, CacheEntry, IdempotencyCache, purge_expired, at_capacity, fresh_entry,
  enter, check_or_insert, complete, remove_key, Op, check, completes, removes, step,
}

-- Each key stands once, the size is within the limit, and an entry that is not in flight has a result.
pub record IsValid (c : IdempotencyCache) : Type 0 where
  pub map : IsMap c.entries
  pub bounded : length c.entries ≤ c.max_entries
  pub answered :
      (k : Uuid) (e : CacheEntry)
      → get k c.entries ≡ some e
      → e.is_in_flight ≡ false
      → e.result ≢ none

pub purge-IsValid : (now : ℕ) (c : IdempotencyCache) → IsValid c → IsValid (purge_expired now c)
unfolding purge_expired
purge-IsValid now c v = record {
  map = retain-IsMap _ c.entries v.map;
  bounded = omega (
    arith,
    v.bounded,
    length-retain-le (λ (e : CacheEntry). ltb (now - e.created_at) c.ttl) c.entries,
  );
  answered = λ k e found.
      ground (
        arith,
        get-retain (λ e'. ltb (now - e'.created_at) c.ttl) k c.entries v.map,
        v.answered k e,
      );
}

enter-IsValid :
    (now stamp : ℕ) (key : Uuid) (c : IdempotencyCache)
    → IsValid c
    → IsValid (enter (at_capacity c) now stamp key c).0
unfolding enter at_capacity
enter-IsValid now stamp key c v = elim (Option-cases (get key c.entries)) [
  | inl missing ↦ record {
    map = ground (arith, insert-IsMap key (fresh_entry stamp) c.entries v.map);
    bounded = ground (arith, length-insert_new key (fresh_entry stamp) c.entries missing);
    answered =
        λ k e found. ground (arith, v.answered k e, get-insert key k (fresh_entry stamp) c.entries);
  }
  | inr (old, here) ↦ record {
    map = ground (arith, insert-IsMap key (fresh_entry stamp) c.entries v.map);
    bounded = ground (arith, length-insert_old key (fresh_entry stamp) old c.entries here);
    answered =
        λ k e found. ground (arith, v.answered k e, get-insert key k (fresh_entry stamp) c.entries);
  }
]

pub complete-IsValid :
    (key : Uuid) (s : String) (c : IdempotencyCache) → IsValid c → IsValid (complete key s c)
unfolding complete
complete-IsValid key s c v = elim (Option-cases (get key c.entries)) [
  | inl missing ↦ rw (missing, complete) v
  | inr (old, here) ↦
      let done : CacheEntry = record old { is_in_flight = false; result = some s } in
      rw (here, complete)
        (record {
          map = insert-IsMap key done c.entries v.map;
          bounded = omega (arith, v.bounded, length-insert_old key done old c.entries here);
          answered = λ k e found. ground (arith, v.answered k e, get-insert key k done c.entries);
        })
]

pub remove-IsValid : (key : Uuid) (c : IdempotencyCache) → IsValid c → IsValid (remove_key key c)
unfolding remove_key
remove-IsValid key c v = record {
  map = remove-IsMap key c.entries v.map;
  bounded = omega (arith, v.bounded, length-remove-le key c.entries);
  answered = λ k e found. ground (arith, v.answered k e, get-remove key k c.entries v.map);
}

pub check_or_insert-IsValid :
    (t : Clock) (key : Uuid) (c : IdempotencyCache)
    → IsValid c
    → IsValid (check_or_insert t key c).0
unfolding check_or_insert
check_or_insert-IsValid t key c v =
    enter-IsValid t.now t.stamp key (purge_expired t.purged_at c) (purge-IsValid t.purged_at c v)

-- Every call keeps the keys distinct, the cache within its limit, and each finished entry answered.
step-IsValid : (op : Op) (c : IdempotencyCache) → IsValid c → IsValid (step op c)
unfolding step
step-IsValid (check t k) c v = check_or_insert-IsValid t k c v
step-IsValid (completes k s) c v = complete-IsValid k s c v
step-IsValid (removes k) c v = remove-IsValid k c v

run_from-IsValid : (ops : List Op) (c : IdempotencyCache) → IsValid c → IsValid (run ops c)
unfolding run
run_from-IsValid [] c v = v
run_from-IsValid (op ∷ ops) c v = run_from-IsValid ops (step op c) (step-IsValid op c v)

-- So it is after any sequence of calls on a new cache: the keys are distinct, there are at most
-- `max_entries` of them, and an entry that is not in flight has a result, so that the last branch of
-- `check_or_insert`, for an entry with neither, is never taken.
pub run-IsValid :
    (ops : List Op) (max_entries ttl : ℕ) → IsValid (run ops (empty_cache max_entries ttl))
unfolding empty_cache get
run-IsValid ops max_entries ttl =
    run_from-IsValid ops _ (record { map = tt; bounded = omega arith; answered = λ k e found. cc })
