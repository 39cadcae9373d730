-- ===== src/Slime/Race/Linear.antt =====
-- safa-core/src/slime.rs: a race of `try_reserve` calls is a sequence of atomic reservations.
use ama.Prelude.{inl, inr, ℕ, zero, suc, ◌≤◌, String, ◌≡◌, refl, Bool, List, [], ◌∷◌, ◌++◌, arith}
use ama.Errors.{ok}
use ama.Slime.{SlimeVerdict, P0Authorizer, check_policy}
use ama.Slime.Reserve.{reserve, check_policy-cases}
use ama.Slime.Race.{Pc, entered, looping, loaded, finished, access, System, turn, run}

-- What a call knows of the authorizer: past its policy check, and with a value that the counter has had.
abbrev pub Fits : P0Authorizer → Pc → Type 0
Fits a (entered d m) = Unit {0}
Fits a (looping d m) = (policy : _) × (check_policy a d m ≡ ok policy)
Fits a (loaded d m current) =
    (policy : _) × (check_policy a d m ≡ ok policy) × (current ≤ a.capacity)
Fits a (finished d m v) = Unit {0}

abbrev pub AllFit : P0Authorizer → List Pc → Type 0
AllFit a [] = Unit {0}
AllFit a (p ∷ ps) = Fits a p × AllFit a ps

-- A reservation of the history: its arguments and verdict.
abbrev pub Event : Type 0
Event = String × ℕ × SlimeVerdict

-- The event of an access: a call that finishes.
abbrev pub event : Pc → Pc → List Event
event (entered d m) (finished d' m' v) = (d, m, v) ∷ []
event (loaded d m current) (finished d' m' v) = (d, m, v) ∷ []
event p q = []

-- `a'` and the verdicts of the events are what the events give as atomic reservations from `a`.
abbrev pub Replays : P0Authorizer → List Event → P0Authorizer → Type 0
Replays a [] a' = a ≡ a'
Replays a ((d, m, v) ∷ es) a' = ((reserve a d m).1 ≡ v) × Replays (reserve a d m).0 es a'

access-Replays :
    (spurious : Bool) (a : P0Authorizer) (p : Pc)
    → Fits a p
    → Replays a (event p (access spurious a p).1) (access spurious a p).0
unfolding access reserve
access-Replays spurious a (entered d m) h = ground (arith, check_policy-cases a d m)
access-Replays spurious a (looping d m) h = refl
access-Replays spurious a (loaded d m current) h = ground arith
access-Replays spurious a (finished d m v) h = refl

turn_events : ℕ → Bool → P0Authorizer → List Pc → List Event
turn_events i spurious a [] = []
turn_events zero spurious a (p ∷ ps) = event p (access spurious a p).1
turn_events (suc i) spurious a (p ∷ ps) = turn_events i spurious a ps

-- The calls that finish during a schedule, in order.
unfoldable pub history : List (ℕ × Bool) → System → List Event
unfolding turn_events
history [] s = []
history ((i, spurious) ∷ schedule) s =
    let (a, ps) = turn i spurious s.authorizer s.threads in
    turn_events i spurious s.authorizer s.threads
    ++ history schedule (record { authorizer = a; threads = ps })

record Grows (a a' : P0Authorizer) : Type 0 where
  capacity : a.capacity ≤ a'.capacity
  domains : a.domains ≡ a'.domains

access-Grows :
    (spurious : Bool) (a : P0Authorizer) (p : Pc) → Fits a p → Grows a (access spurious a p).0
unfolding access
access-Grows spurious a (entered d m) h = ground (arith, check_policy-cases a d m)
access-Grows spurious a (looping d m) h = ground arith
access-Grows spurious a (loaded d m current) h = ground arith
access-Grows spurious a (finished d m v) h = ground arith

access-Fits :
    (spurious : Bool) (a : P0Authorizer) (p : Pc)
    → Fits a p
    → Fits (access spurious a p).0 (access spurious a p).1
unfolding access
access-Fits spurious a (entered d m) h = elim (check_policy-cases a d m) [
  | inl e ↦ rw (e, access) tt
  | inr (policy, e) ↦ rw (e, access) (policy, e)
]
access-Fits spurious a (looping d m) h = (h.0, h.1, omega arith)
access-Fits spurious a (loaded d m current) h = ground arith
access-Fits spurious a (finished d m v) h = tt

Fits-Grows : (a a' : P0Authorizer) (p : Pc) → Grows a a' → Fits a p → Fits a' p
unfolding check_policy
Fits-Grows a a' (entered d m) g h = tt
Fits-Grows a a' (looping d m) g h = (h.0, ground arith)
Fits-Grows a a' (loaded d m current) g h = (h.0, ground arith, omega arith)
Fits-Grows a a' (finished d m v) g h = tt

AllFit-Grows : (a a' : P0Authorizer) (ps : List Pc) → Grows a a' → AllFit a ps → AllFit a' ps
AllFit-Grows a a' [] g h = tt
AllFit-Grows a a' (p ∷ ps) g h = (Fits-Grows a a' p g h.0, AllFit-Grows a a' ps g h.1)

record Turned (i : ℕ) (spurious : Bool) (a : P0Authorizer) (ps : List Pc) : Type 0 where
  grows : Grows a (turn i spurious a ps).0
  fits : AllFit (turn i spurious a ps).0 (turn i spurious a ps).1
  replays : Replays a (turn_events i spurious a ps) (turn i spurious a ps).0

turn-Turned :
    (i : ℕ) (spurious : Bool) (a : P0Authorizer) (ps : List Pc)
    → AllFit a ps
    → Turned i spurious a ps
unfolding turn turn_events
turn-Turned i spurious a [] h = record {
  grows = record { capacity = omega arith; domains = refl };
  fits = tt;
  replays = refl;
}
turn-Turned zero spurious a (p ∷ ps) h = record {
  grows = access-Grows spurious a p h.0;
  fits = (access-Fits spurious a p h.0, AllFit-Grows a _ ps (access-Grows spurious a p h.0) h.1);
  replays = access-Replays spurious a p h.0;
}
turn-Turned (suc i) spurious a (p ∷ ps) h =
    let t = turn-Turned i spurious a ps h.1 in
    record { grows = t.grows; fits = (Fits-Grows a _ p t.grows h.0, t.fits); replays = t.replays }

Replays-append :
    (a b c : P0Authorizer) (es fs : List Event)
    → Replays a es b
    → Replays b fs c
    → Replays a (es ++ fs) c
Replays-append a b c [] fs h k = rw h k
Replays-append a b c ((d, m, v) ∷ es) fs h k =
    (h.0, Replays-append (reserve a d m).0 b c es fs h.1 k)

-- In every interleaving, the calls that finish have the verdicts of atomic reservations made one
-- after the other in the order in which they finish, and the shared authorizer is what those
-- reservations leave.
pub run-Replays :
    (schedule : List (ℕ × Bool)) (s : System)
    → AllFit s.authorizer s.threads
    → Replays s.authorizer (history schedule s) (run schedule s).authorizer
unfolding run history
run-Replays [] s h = refl
run-Replays ((i, spurious) ∷ schedule) s h =
    let t = turn-Turned i spurious s.authorizer s.threads h in
    Replays-append _ _ _ _ _ t.replays (run-Replays schedule _ t.fits)
