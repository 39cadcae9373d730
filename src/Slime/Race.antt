-- ===== src/Slime/Race.antt =====
-- safa-core/src/slime.rs: `try_reserve` called by any number of threads at once. Each thread goes
-- through its atomic accesses, the load and the compare-exchange, and a schedule says whose access
-- comes next and whether a `compare_exchange_weak` fails spuriously.
pub mod Linear
pub mod Account
use ama.Prelude.{
  ℕ, zero, suc, ◌+◌, String, Bool, true, false, Option, none, some, List, [], ◌∷◌, not, ◌&&◌,
  if◌then◌else◌, nat_beq,
}
use ama.Errors.{Result, ok, err}
use ama.Slime.{SlimeVerdict, authorized, impossible, P0Authorizer, check_policy, next_capacity}

-- Where a call of `try_reserve` stands, with its arguments and the value that it loaded.
pub data Pc : Type 0 where
  entered : (domain_id : String) (magnitude : ℕ) → Pc
  looping : (domain_id : String) (magnitude : ℕ) → Pc
  loaded : (domain_id : String) (magnitude current : ℕ) → Pc
  finished : (domain_id : String) (magnitude : ℕ) (verdict : SlimeVerdict) → Pc

-- The next access of a call.
unfoldable pub access : Bool → P0Authorizer → Pc → P0Authorizer × Pc
unfolding next_capacity
access spurious a (entered d m) = elim (check_policy a d m) [
  | err v ↦ (a, finished d m v)
  | ok policy ↦ (a, looping d m)
]
access spurious a (looping d m) = (a, loaded d m a.capacity)
access spurious a (loaded d m current) = elim (next_capacity a current m) [
  | none ↦ (a, finished d m impossible)
  | some next ↦
      if nat_beq a.capacity current && not spurious
      then (record a { capacity = next }, finished d m authorized)
      else (a, looping d m)
]
access spurious a (finished d m v) = (a, finished d m v)

pub record System : Type 0 where
  pub authorizer : P0Authorizer
  pub threads : List Pc

-- An access of the thread with the given number; a number out of range changes nothing.
unfoldable pub turn : ℕ → Bool → P0Authorizer → List Pc → P0Authorizer × List Pc
unfolding access
turn i spurious a [] = (a, [])
turn zero spurious a (p ∷ ps) = let (a', p') = access spurious a p in (a', p' ∷ ps)
turn (suc i) spurious a (p ∷ ps) = let (a', ps') = turn i spurious a ps in (a', p ∷ ps')

unfoldable pub run : List (ℕ × Bool) → System → System
unfolding turn
run [] s = s
run ((i, spurious) ∷ schedule) s =
    let (a, ps) = turn i spurious s.authorizer s.threads in
    run schedule (record { authorizer = a; threads = ps })

-- The capacity that the calls have been granted.
unfoldable pub granted : List Pc → ℕ
granted [] = 0
granted (finished d m authorized ∷ ps) = m + granted ps
granted (p ∷ ps) = granted ps
