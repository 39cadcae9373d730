-- ===== src/Slime/Race/Account.antt =====
-- safa-core/src/slime.rs: the shared counter under a race, as a sum.
use ama.Prelude.{◌∙◌, ℕ, zero, suc, ◌+◌, ◌≤◌, ◌≡◌, refl, Bool, List, [], ◌∷◌, arith}
use ama.Slime.{authorized, impossible, P0Authorizer}
use ama.Slime.Reserve.{check_policy-cases}
use ama.Slime.Race.{Pc, entered, looping, loaded, finished, access, System, turn, run, granted}

-- What an access keeps: the limit, and the counter as what has been granted.
record Keeps (a a' : P0Authorizer) (before after : ℕ) : Type 0 where
  limit : a'.max_capacity ≡ a.max_capacity
  counted : a'.capacity + before ≡ a.capacity + after
  bounded : a.capacity ≤ a.max_capacity → a'.capacity ≤ a'.max_capacity

access-Keeps :
    (spurious : Bool) (a : P0Authorizer) (p : Pc) (ps : List Pc)
    → Keeps a (access spurious a p).0 (granted (p ∷ ps)) (granted ((access spurious a p).1 ∷ ps))
unfolding access granted
access-Keeps spurious a (entered d m) ps = ground (arith, check_policy-cases a d m)
access-Keeps spurious a (looping d m) ps = ground arith
access-Keeps spurious a (loaded d m current) ps = ground arith
access-Keeps spurious a (finished d m v) ps = ground arith

turn-Keeps :
    (i : ℕ) (spurious : Bool) (a : P0Authorizer) (ps : List Pc)
    → Keeps a (turn i spurious a ps).0 (granted ps) (granted (turn i spurious a ps).1)
unfolding turn granted
turn-Keeps i spurious a [] = record { limit = refl; counted = refl; bounded = λ h. h }
turn-Keeps zero spurious a (p ∷ ps) = access-Keeps spurious a p ps
turn-Keeps (suc i) spurious a (entered d m ∷ ps) = turn-Keeps i spurious a ps
turn-Keeps (suc i) spurious a (looping d m ∷ ps) = turn-Keeps i spurious a ps
turn-Keeps (suc i) spurious a (loaded d m current ∷ ps) = turn-Keeps i spurious a ps
turn-Keeps (suc i) spurious a (finished d m impossible ∷ ps) = turn-Keeps i spurious a ps
turn-Keeps (suc i) spurious a (finished d m authorized ∷ ps) =
    let t = turn-Keeps i spurious a ps in
    record { limit = t.limit; counted = omega (arith, t.counted); bounded = t.bounded }

-- In every interleaving the shared counter rises by exactly what the calls have been granted, and it
-- never passes the limit, which does not change.
pub run-granted :
    (schedule : List (ℕ × Bool)) (s : System)
    → s.authorizer.capacity ≤ s.authorizer.max_capacity
    → ((run schedule s).authorizer.capacity + granted s.threads
        ≡ s.authorizer.capacity + granted (run schedule s).threads)
      × ((run schedule s).authorizer.capacity ≤ (run schedule s).authorizer.max_capacity)
      × ((run schedule s).authorizer.max_capacity ≡ s.authorizer.max_capacity)
unfolding run
run-granted [] s h = (refl, h, refl)
run-granted ((i, spurious) ∷ schedule) s h =
    let t = turn-Keeps i spurious s.authorizer s.threads in
    let r = run-granted schedule _ (t.bounded h) in
    (omega (arith, t.counted, r.0), r.1, r.2 ∙ t.limit)
