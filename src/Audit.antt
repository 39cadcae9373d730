-- ===== src/Audit.antt =====
-- safa-core/src/audit.rs: the audit entry, the request hash and the store of proofs. The log that
-- `log_audit` writes to is the list of its entries, oldest first.
pub mod Proofs
use Prim.Native.Char.{code}
use mathlib.Core.List.{◌++◌}
use ama.Prelude.{
  ◌≡◌, ℕ, zero, suc, ◌+◌, ◌*◌, ◌/◌, ◌%◌, String, Bool, Option, none, some, List, [], ◌∷◌, HashMap,
  length, get, insert, remove, leb, ltb, if◌then◌else◌, string_eq,
}

pub record AuditEntry : Type 0 where
  pub timestamp : String
  pub session_id : String
  pub action_id : String
  pub adapter : String
  pub action : String
  pub domain_id : String
  pub magnitude_effective : ℕ
  pub duration_ms : ℕ
  pub status : String
  pub request_hash : String
  pub truncated : Bool

pub record ProofRecord : Type 0 where
  pub request_id : String
  pub agent_id : String
  pub action : String
  pub verdict : String
  pub manifest_hash : String
  pub timestamp : String

pub record ProofStore : Type 0 where
  pub records : HashMap String ProofRecord
  pub max_entries : ℕ

unfoldable pub new : ℕ → ProofStore
new max_entries = record { records = []; max_entries = max_entries }

-- The order of a `HashMap`, which Rust leaves open: `first_key` is `keys().next()`. It is a key of the
-- map, and there is one unless the map is empty.
pub record Order : Type 0 where
  pub first_key : HashMap String ProofRecord → Option String
  pub first_key_mem :
      (m : HashMap String ProofRecord) (k : String)
      → first_key m ≡ some k
      → (r : ProofRecord) × (get k m ≡ some r)
  pub first_key_none : (m : HashMap String ProofRecord) → first_key m ≡ none → m ≡ []

unfoldable pub evict : Order → ProofStore → ProofStore
evict o s =
    if leb s.max_entries (length s.records)
    then elim (o.first_key s.records) [
      | none ↦ s
      | some key ↦ record s { records = remove key s.records }
    ]
    else s

unfoldable pub insert_proof : Order → ProofRecord → ProofStore → ProofStore
unfolding evict
insert_proof o r s = let t = evict o s in record t { records = insert r.request_id r t.records }

unfoldable pub get_proof : String → ProofStore → Option ProofRecord
get_proof request_id s = get request_id s.records

-- `str::as_bytes`
utf8 : ℕ → List ℕ
utf8 c =
    if ltb c 0x80
    then c ∷ []
    else if ltb c 0x800
    then (0xc0 + c / 64) ∷ (0x80 + c % 64) ∷ []
    else if ltb c 0x10000
    then (0xe0 + c / 4096) ∷ (0x80 + c / 64 % 64) ∷ (0x80 + c % 64) ∷ []
    else (0xf0 + c / 262144) ∷ (0x80 + c / 4096 % 64) ∷ (0x80 + c / 64 % 64) ∷ (0x80 + c % 64) ∷ []

unfoldable pub as_bytes : String → List ℕ
unfolding utf8
as_bytes String.[] = []
as_bytes (String.◌∷◌ c s) = utf8 (code c) ++ as_bytes s

-- The low `n` bytes of a number, the lowest first.
le_bytes : ℕ → ℕ → List ℕ
le_bytes zero n = []
le_bytes (suc k) n = (n % 256) ∷ le_bytes k (n / 256)

-- What `compute_request_hash` feeds to the hash.
unfoldable pub request_preimage : String → String → ℕ → List ℕ
unfolding as_bytes le_bytes
request_preimage action target magnitude =
    as_bytes action ++ b'|' ∷ (as_bytes target ++ b'|' ∷ le_bytes 8 magnitude)

-- The argument is SHA-256 with its result in hexadecimal.
unfoldable pub compute_request_hash : (List ℕ → String) → String → String → ℕ → String
compute_request_hash sha256_hex action target magnitude =
    sha256_hex (request_preimage action target magnitude)

unfoldable pub log_audit : AuditEntry → List AuditEntry → List AuditEntry
log_audit entry log = log ++ entry ∷ []
