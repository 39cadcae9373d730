-- ===== src/Server/Sound/Started.antt =====
-- safa-daemon/src/server.rs and main.rs: the state stays sound from the start on.
use ama.Prelude.{
  ℕ, ◌≤◌, ◌≡◌, refl, String, some, List, [], ◌∷◌, arith, get, string_eq, nat_eq, Uuid, u64_max,
}
use ama.Errors.{ok}
use ama.Config.{AmaConfig, AgentConfig}
use ama.Config.Raw.{ConfigDir, Crates}
use ama.Config.Load.{load}
use ama.Slime.{new}
use ama.Server.{AppState, new_state}
use ama.Server.Handler.{Env}
use ama.Server.Boot.{load-Ready}
use ama.Server.Sound.{Incoming, serve, Sound}
use ama.Server.Sound.Kept.{handle_action-Sound}

serve-Sound :
    {W : Type 0} (env : Env W) (qs : List Incoming) (id : String) (a : AgentConfig) (s : AppState W)
    → a.max_capacity ≤ u64_max
    → Sound id a s
    → Sound id a (serve env qs s)
unfolding serve
serve-Sound env [] id a s wide v = v
serve-Sound env (q ∷ qs) id a s wide v =
    serve-Sound env qs id a _ wide
      (handle_action-Sound env q.reading q.headers q.body id a s wide v)

-- Whatever requests the daemon answers, one after the other, after it has started with a loaded
-- configuration: no agent has ever been granted more than the capacity of its configuration, which fits a
-- `u64`, its limiter has the limits of its configuration, and the idempotency cache and the proof store are
-- well formed and hold at most 10000 entries each.
pub load-serve-Sound :
    {W : Type 0} (crates : Crates) (dir : ConfigDir) (config : AmaConfig) (ids : AgentConfig → Uuid)
    (session_id : Uuid) (now : ℕ) (world : W) (env : Env W) (qs : List Incoming) (id : String)
    (a : AgentConfig)
    → load crates dir ≡ ok config
    → get id config.agents ≡ some a
    → a.max_capacity ≤ u64_max
    → Sound id a (serve env qs (new_state config ids session_id now world []))
unfolding new new_state
load-serve-Sound crates dir config ids session_id now world env qs id a loaded known wide =
    let ready = load-Ready crates dir config ids session_id now world id a loaded known in
    serve-Sound env qs id a _ wide (record {
      authorizer = new a.max_capacity a.domain_policies (ids a);
      registered = ready.authorizer;
      same_max = refl;
      within = omega arith;
      limiter = _;
      limited = ready.limiter;
      same_limit = (refl, refl);
      stores = record {
        cache_valid = ready.cache;
        cache_limit = refl;
        proofs_valid = ready.proofs;
        proofs_limit = refl;
      };
    })
