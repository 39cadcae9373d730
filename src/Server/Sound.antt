-- ===== src/Server/Sound.antt =====
-- safa-daemon/src/server.rs: what holds of the daemon's state whatever requests come, one after the other.
pub mod Stored
pub mod Limited
pub mod Kept
pub mod Started
use text.Mathlib.TextEquality.{eq_iff}
use ama.Prelude.{
  ℕ, ◌≤◌, ◌≡◌, refl, sym, ap, ◌∙◌, inl, inr, String, Bool, true, some, List, [], ◌∷◌, arith, get,
  get-insert, string_eq, nat_eq, ◌==◌, Uuid, u64_max, Option-cases, Bool-cases,
}
use ama.Errors.{Result, Result-cases, ok, err, AmaError}
use ama.Config.{AmaConfig, AgentConfig}
use ama.Config.Raw.{ConfigDir, Crates}
use ama.Config.Load.{load}
use ama.Schema.{ActionRequest, ActionResponse}
use ama.Slime.{P0Authorizer, new}
use ama.Slime.Registry.{get_agent}
use ama.Idempotency.{
  IdempotencyCache, check_or_insert, complete, remove_key, check, completes, removes,
}
use ama.Idempotency.Size
use ama.Audit.{ProofStore, insert_proof}
use ama.Audit.Proofs
use ama.Pipeline.Process.Budget.{process_action-budget}
use ama.Server.RateLimit.{RateLimitState, admit}
use ama.Server.{Response, HeaderMap, AppState, new_state, check_rate_limit}
use ama.Server.Handler.{
  Env, Reading, context, idempotency_key, count_action, respond, pipeline, put_back, process, start,
  deduplicate, limit, identify, handle_action,
}
use ama.Server.Gates.{status-cases}
use ama.Server.Replay.{count_action-cache}
use ama.Server.Attested.{count_action-proofs, check_rate_limit-proofs}
use ama.Server.Isolation.{count_action-kept}
use ama.Server.Boot.{load-Ready}

-- A request, with what the handler reads of the clocks and draws at random for it.
pub record Incoming : Type 0 where
  pub reading : Reading
  pub headers : HeaderMap
  pub body : List ℕ

-- The requests one after the other.
unfoldable pub serve : {W : Type 0} → Env W → List Incoming → AppState W → AppState W
unfolding handle_action
serve env [] s = s
serve env (q ∷ qs) s = serve env qs (handle_action env q.reading q.headers q.body s).1

-- The cache and the proof store are well formed, with the limits that the start has set.
pub record Stores (cache : IdempotencyCache) (proof_store : ProofStore) : Type 0 where
  pub cache_valid : Size.IsValid cache
  pub cache_limit : cache.max_entries ≡ 10000
  pub proofs_valid : Proofs.IsValid proof_store
  pub proofs_limit : proof_store.max_entries ≡ 10000

-- The agent has an authorizer that has not granted more than the capacity of its configuration, and a limiter
-- with the limits of its configuration; the stores are as above.
pub record Sound {W : Type 0} (id : String) (a : AgentConfig) (s : AppState W) : Type 0 where
  pub authorizer : P0Authorizer
  pub registered : get_agent id s.agent_registry ≡ some authorizer
  pub same_max : authorizer.max_capacity ≡ a.max_capacity
  pub within : authorizer.capacity ≤ a.max_capacity
  pub limiter : RateLimitState
  pub limited : get id s.agent_rate_limiters ≡ some limiter
  pub same_limit :
      (limiter.max_per_window ≡ a.rate_limit_per_window)
      × (limiter.window_secs ≡ a.rate_limit_window_secs)
  pub stores : Stores s.idempotency_cache s.proof_store
