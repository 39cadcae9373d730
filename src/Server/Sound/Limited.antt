-- ===== src/Server/Sound/Limited.antt =====
-- safa-daemon/src/server.rs: the rate limiter keeps its limits.
use text.Mathlib.TextEquality.{eq_iff}
use ama.Prelude.{
  ℕ, ◌≡◌, ap, ◌∙◌, inl, inr, String, arith, get, get-insert, string_eq, nat_eq, ◌==◌, Option-cases,
  Bool-cases,
}
use ama.Config.{AgentConfig}
use ama.Slime.Registry.{get_agent}
use ama.Server.RateLimit.{RateLimitState, admit}
use ama.Server.{AppState, check_rate_limit}
use ama.Server.Sound.{Stores, Sound}

admit-limits :
    (now : ℕ) (rl : RateLimitState)
    → ((admit now rl).0.max_per_window ≡ rl.max_per_window)
      × ((admit now rl).0.window_secs ≡ rl.window_secs)
unfolding admit
admit-limits now rl = ground arith

module _ {W : Type 0} (id : String) (a : AgentConfig) where
  -- The parts of the state that the invariant reads.
  pub Sound-kept :
      (s t : AppState W)
      → Sound id a s
      → t.agent_registry ≡ s.agent_registry
      → t.agent_rate_limiters ≡ s.agent_rate_limiters
      → Stores t.idempotency_cache t.proof_store
      → Sound id a t
  Sound-kept s t v registry limiters stores = record {
    authorizer = v.authorizer;
    registered = ap (get_agent id) registry ∙ v.registered;
    same_max = v.same_max;
    within = v.within;
    limiter = v.limiter;
    limited = ap (get id) limiters ∙ v.limited;
    same_limit = v.same_limit;
    stores = stores;
  }

  pub check_rate_limit-Sound :
      (now : ℕ) (agent_id : String) (s : AppState W)
      → Sound id a s
      → Sound id a (check_rate_limit now s agent_id).0
  unfolding check_rate_limit
  check_rate_limit-Sound now agent_id s v =
      elim (Option-cases (get agent_id s.agent_rate_limiters)) [
        | inl missing ↦ rw (missing, check_rate_limit) v
        | inr (rl, found) ↦
            let kept = get-insert agent_id id (admit now rl).0 s.agent_rate_limiters in
            let limits = admit-limits now rl in
            rw (found, check_rate_limit)
              (elim (Bool-cases (agent_id == id)) [
                | inl same ↦
                    let own : rl ≡ v.limiter =
                      ground (arith, found, v.limited, (eq_iff agent_id id).0 same) in
                    record {
                      authorizer = v.authorizer;
                      registered = v.registered;
                      same_max = v.same_max;
                      within = v.within;
                      limiter = (admit now rl).0;
                      limited = ground (arith, kept, same);
                      same_limit = (
                        limits.0 ∙ ap (λ l. l.max_per_window) own ∙ v.same_limit.0,
                        limits.1 ∙ ap (λ l. l.window_secs) own ∙ v.same_limit.1,
                      );
                      stores = v.stores;
                    }
                | inr other ↦ record {
                  authorizer = v.authorizer;
                  registered = v.registered;
                  same_max = v.same_max;
                  within = v.within;
                  limiter = v.limiter;
                  limited = ground (arith, kept, other, v.limited);
                  same_limit = v.same_limit;
                  stores = v.stores;
                }
              ])
      ]
