-- ===== src/Mapper.antt =====
-- safa-core/src/mapper.rs: the domain of an action.
use Prim.Native.String.{◌++◌}
use ama.Prelude.{ℕ, String, none, some, get, string_eq}
use ama.Errors.{Result, ok, err, AmaError, validation}
use ama.Config.{AmaConfig}

pub record DomainMapping : Type 0 where
  pub domain_id : String
  pub magnitude : ℕ

unfoldable pub map_action : String → ℕ → AmaConfig → Result AmaError DomainMapping
map_action action magnitude config = elim (get action config.domain_mappings) [
  | none ↦ err (validation "unknown_action" ("action '" ++ (action ++ "' not in domains.toml")))
  | some domain_entry ↦ ok (record { domain_id = domain_entry.domain_id; magnitude = magnitude })
]
