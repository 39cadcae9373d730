-- ===== src/Server/RateLimit.antt =====
-- safa-daemon/src/server.rs: the rate limit of one agent. Instants are nanoseconds; `duration_since`
-- stops at 0, as `-` does. The counter is a `u64` that wraps.
use ama.Prelude.{
  ℕ, suc, ◌+◌, ◌-◌, ◌*◌, ◌/◌, ◌%◌, ◌^◌, ◌≤◌, ◌<◌, ◌≡◌, Bool, true, List, [], ◌∷◌, arith, leb,
  if◌then◌else◌, length, Bool-cases, inl, inr,
}

pub record RateLimitState : Type 0 where
  pub window_start : ℕ
  pub count : ℕ
  pub max_per_window : ℕ
  pub window_secs : ℕ

-- `Duration::as_secs`
unfoldable pub elapsed_secs : ℕ → ℕ → ℕ
elapsed_secs now start = (now - start) / 1000000000

-- What `check_rate_limit` does under the lock of the agent's limiter.
unfoldable pub admit : ℕ → RateLimitState → RateLimitState × Bool
unfolding elapsed_secs
admit now rl =
    if leb rl.window_secs (elapsed_secs now rl.window_start)
    then (record rl { window_start = now; count = 1 }, true)
    else let count = (rl.count + 1) % 2 ^ 64 in
      (record rl { count = count }, leb count rl.max_per_window)

-- How many of the requests at the given times are let through.
unfoldable pub admitted : List ℕ → RateLimitState → ℕ
unfolding admit
admitted [] rl = 0
admitted (now ∷ times) rl =
    let rest = admitted times (admit now rl).0 in if (admit now rl).1 then suc rest else rest

-- Every time is less than `secs` seconds after `start`.
abbrev pub Before : ℕ → ℕ → List ℕ → Type 0
Before start secs [] = Unit
Before start secs (now ∷ times) = (elapsed_secs now start < secs) × Before start secs times

abbrev pub min : ℕ → ℕ → ℕ
min a b = if leb a b then a else b

-- Within a window, as many requests are let through as come, up to what is left of the limit.
admitted-min :
    (times : List ℕ) (rl : RateLimitState)
    → Before rl.window_start rl.window_secs times
    → rl.count + length times < 2 ^ 64
    → admitted times rl ≡ min (length times) (rl.max_per_window - rl.count)
unfolding admitted
admitted-min [] rl h small = ground arith
admitted-min (now ∷ times) rl h small =
    ground (arith, admitted-min times (record rl { count = rl.count + 1 }) h.1)

-- Every time is less than `secs` seconds after `start`, and not before it.
abbrev pub Spans : ℕ → ℕ → List ℕ → Type 0
Spans start secs [] = Unit
Spans start secs (now ∷ times) =
    (start ≤ now) × (elapsed_secs now start < secs) × Spans start secs times

Spans-Before :
    (start later secs : ℕ) (times : List ℕ)
    → start ≤ later
    → Spans start secs times
    → Before later secs times
unfolding elapsed_secs
Spans-Before start later secs [] after h = tt
Spans-Before start later secs (now ∷ times) after h =
    (omega (arith, h.1), Spans-Before start later secs times after h.2)

min-le : (a b : ℕ) → min a b ≤ b
min-le a b = ground arith

-- Requests that all come within the length of one window, wherever the limiter's own window
-- begins, are at most twice the limit in number.
pub admitted-burst :
    (times : List ℕ) (rl : RateLimitState) (start : ℕ)
    → Spans start rl.window_secs times
    → rl.count + length times < 2 ^ 64
    → 1 ≤ rl.max_per_window
    → admitted times rl ≤ rl.max_per_window * 2 - min rl.count rl.max_per_window
unfolding admitted
admitted-burst [] rl start h small some_room = omega arith
admitted-burst (now ∷ times) rl start h small some_room =
    elim (Bool-cases (leb rl.window_secs (elapsed_secs now rl.window_start))) [
      | inl over ↦ ground (
        arith,
        admitted-min times (record rl { window_start = now; count = 1 })
            (Spans-Before start now rl.window_secs times h.0 h.2),
        min-le (length times) (rl.max_per_window - 1),
      )
      | inr within ↦
          ground (arith, admitted-burst times (record rl { count = rl.count + 1 }) start h.2)
    ]
