-- ===== src/Idempotency.antt =====
-- safa-core/src/idempotency.rs: the idempotency cache. Instants are nanoseconds, and each reading of
-- the clock is an argument; `elapsed` and `duration_since` stop at 0, as `-` does.
pub mod Owner
pub mod Size
pub mod Race
use Prim.Native.String.{len}
use mathlib.Core.List.{List, [], ◌∷◌}
use ama.Prelude.{
  ℕ, ◌-◌, String, Bool, true, false, Option, none, some, ◌||◌, HashMap, length, get, insert, remove,
  retain, leb, ltb, if◌then◌else◌, is_empty, Uuid, nat_eq,
}
use ama.Errors.{Result, ok, err, AmaError, bad_request}

-- The `uuid` crate, which is not part of the repository.
pub record UuidCrate : Type 0 where
  pub parse_str : String → Option Uuid
  pub get_version_num : Uuid → ℕ

abbrev pub max_key_bytes : ℕ
max_key_bytes = 128

unfoldable pub validate_idempotency_key : UuidCrate → String → Result AmaError Uuid
validate_idempotency_key u key =
    if is_empty key || ltb max_key_bytes (len key)
    then err (bad_request "Idempotency-Key must be 1-128 bytes")
    else elim (u.parse_str key) [
      | none ↦ err (bad_request "Idempotency-Key must be a valid UUID v4")
      | some uuid ↦
          if ama.Prelude.nat_beq (u.get_version_num uuid) 4
          then ok uuid
          else err (bad_request "Idempotency-Key must be UUID v4")
    ]

pub data IdempotencyStatus : Type 0 where
  new : IdempotencyStatus
  in_flight : IdempotencyStatus
  cached : String → IdempotencyStatus
  full : IdempotencyStatus

pub record CacheEntry : Type 0 where
  pub result : Option String
  pub created_at : ℕ
  pub is_in_flight : Bool

pub record IdempotencyCache : Type 0 where
  pub entries : HashMap Uuid CacheEntry
  pub max_entries : ℕ
  pub ttl : ℕ

unfoldable pub empty_cache : ℕ → ℕ → IdempotencyCache
empty_cache max_entries ttl = record { entries = []; max_entries = max_entries; ttl = ttl }

-- `purge_expired`, with its reading of the clock.
unfoldable pub purge_expired : ℕ → IdempotencyCache → IdempotencyCache
purge_expired now c = record c {
  entries = retain (λ entry. ltb (now - entry.created_at) c.ttl) c.entries;
}

unfoldable pub at_capacity : IdempotencyCache → Bool
at_capacity c = leb c.max_entries (length c.entries)

abbrev pub fresh_entry : ℕ → CacheEntry
fresh_entry now = record { result = none; created_at = now; is_in_flight = true }

-- The `match` under the entry lock: `elapsed()` reads `now`, and a new entry is stamped `stamp`.
unfoldable pub enter : Bool → ℕ → ℕ → Uuid → IdempotencyCache → IdempotencyCache × IdempotencyStatus
enter capacity_reached now stamp key c = elim (get key c.entries) [
  | some entry ↦
      if ltb c.ttl (now - entry.created_at)
      then (record c { entries = insert key (fresh_entry stamp) c.entries }, new)
      else if entry.is_in_flight
      then (c, in_flight)
      else elim entry.result [ some result ↦ (c, cached result) | none ↦ (c, in_flight) ]
  | none ↦
      if capacity_reached
      then (c, full)
      else (record c { entries = insert key (fresh_entry stamp) c.entries }, new)
]

-- The three readings of the clock in one `check_or_insert`.
pub record Clock : Type 0 where
  pub purged_at : ℕ
  pub now : ℕ
  pub stamp : ℕ

unfoldable pub check_or_insert :
    Clock → Uuid → IdempotencyCache → IdempotencyCache × IdempotencyStatus
unfolding purge_expired at_capacity enter
check_or_insert t key c =
    let p = purge_expired t.purged_at c in enter (at_capacity p) t.now t.stamp key p

unfoldable pub complete : Uuid → String → IdempotencyCache → IdempotencyCache
complete key result c = elim (get key c.entries) [
  | none ↦ c
  | some entry ↦ record c {
    entries = insert key (record entry { is_in_flight = false; result = some result }) c.entries;
  }
]

unfoldable pub remove_key : Uuid → IdempotencyCache → IdempotencyCache
remove_key key c = record c { entries = remove key c.entries }

unfoldable pub cache_len : IdempotencyCache → ℕ
cache_len c = length c.entries

-- A call of the cache.
pub data Op : Type 0 where
  check : Clock → Uuid → Op
  completes : Uuid → String → Op
  removes : Uuid → Op

unfoldable pub step : Op → IdempotencyCache → IdempotencyCache
unfolding check_or_insert complete remove_key
step (check t key) c = (check_or_insert t key c).0
step (completes key result) c = complete key result c
step (removes key) c = remove_key key c

-- The cache after a sequence of calls.
unfoldable pub run : List Op → IdempotencyCache → IdempotencyCache
run [] c = c
run (op ∷ ops) c = run ops (step op c)
