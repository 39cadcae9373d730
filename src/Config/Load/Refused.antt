-- ===== src/Config/Load/Refused.antt =====
-- safa-core/src/config.rs: what `AmaConfig::load` does not accept.
use text.Mathlib.TextEquality.{eq_iff}
use ama.Prelude.{
  ap, ◌∙◌, sym, ◌≡◌, ◌≢◌, ◌⊎◌, inl, inr, String, false, arith, string_eq, starts_with,
}
use ama.Errors.{ok, err, AmaError, service_unavailable, Result-cases, ok_injective, >>=-eq-ok}
use ama.Config.{AmaConfig}
use ama.Config.Raw.{ConfigDir, Crates}
use ama.Config.Load.Starts.{load-Starts, Starts-err}
use ama.Config.Load.Valid.{Traced, Loaded, load-Loaded}
use ama.Config.Load.{Bytes, RawFiles, check_schema, read_files, parse_files, check_schemas, load}

-- The four files can be read and parsed, to these.
pub record Parses (crates : Crates) (dir : ConfigDir) (raw : RawFiles) : Type 0 where
  pub bytes : Bytes
  pub was_read : read_files dir ≡ ok bytes
  pub was_parsed : parse_files crates bytes ≡ ok raw

-- What the daemon does not start with.
pub data Flawed (crates : Crates) (dir : ConfigDir) : Type 0 where
  unreadable : (e : AmaError) → read_files dir ≡ err e → Flawed crates dir
  unparsable :
      (bytes : Bytes) (e : AmaError)
      → read_files dir ≡ ok bytes
      → parse_files crates bytes ≡ err e
      → Flawed crates dir
  unknown_schema :
      (raw : RawFiles)
      → Parses crates dir raw
      → raw.domains.meta.schema_version ≢ "safa-domains-v1"
        ⊎ raw.intents.meta.schema_version ≢ "safa-intents-v1"
        ⊎ raw.allowlist.meta.schema_version ≢ "safa-allowlist-v1"
      → Flawed crates dir
  bad_workspace :
      (raw : RawFiles)
      → Parses crates dir raw
      → (starts_with raw.config.safa.workspace_root "/" ≡ false)
        ⊎ (dir.is_dir raw.config.safa.workspace_root ≡ false)
      → Flawed crates dir
  foreign_host :
      (raw : RawFiles)
      → Parses crates dir raw
      → raw.config.safa.bind_host ≢ "127.0.0.1"
      → Flawed crates dir
  foreign_mode :
      (raw : RawFiles)
      → Parses crates dir raw
      → raw.config.slime.mode ≢ "embedded"
      → Flawed crates dir

same_raw :
    (crates : Crates) (dir : ConfigDir) (raw : RawFiles) (c : AmaConfig)
    → Parses crates dir raw
    → (t : Traced crates dir c) → raw ≡ t.raw
same_raw crates dir raw c p t =
    let same : p.bytes ≡ t.bytes = ok_injective (sym p.was_read ∙ t.was_read) in
    ok_injective (sym p.was_parsed ∙ ap (parse_files crates) same ∙ t.was_parsed)

check_schema-eq :
    (expected got file : String) → check_schema expected got file ≡ ok tt → got ≡ expected
unfolding check_schema
check_schema-eq expected got file h = ground (arith, eq_iff got expected)

-- The versions that the three files must name.
record Known (raw : RawFiles) : Type 0 where
  domains : raw.domains.meta.schema_version ≡ "safa-domains-v1"
  intents : raw.intents.meta.schema_version ≡ "safa-intents-v1"
  allowlist : raw.allowlist.meta.schema_version ≡ "safa-allowlist-v1"

check_schemas-Known : (raw : RawFiles) → check_schemas raw ≡ ok tt → Known raw
unfolding check_schemas
check_schemas-Known raw h =
    let first =
      >>=-eq-ok (check_schema "safa-domains-v1" raw.domains.meta.schema_version "domains.toml") _ tt
        h in
    let second =
      >>=-eq-ok (check_schema "safa-intents-v1" raw.intents.meta.schema_version "intents.toml") _ tt
        first.2 in
    record {
      domains = check_schema-eq "safa-domains-v1" _ "domains.toml" first.1;
      intents = check_schema-eq "safa-intents-v1" _ "intents.toml" second.1;
      allowlist = check_schema-eq "safa-allowlist-v1" _ "allowlist.toml" second.2;
    }

Flawed-fails :
    (crates : Crates) (dir : ConfigDir) (c : AmaConfig)
    → Flawed crates dir
    → Loaded crates dir c
    → ⊥
Flawed-fails crates dir c (unreadable e h) l = ground (arith, l.traced.was_read)
Flawed-fails crates dir c (unparsable bytes e h k) l =
    let same : bytes ≡ l.traced.bytes = ok_injective (sym h ∙ l.traced.was_read) in
    ground (arith, sym k ∙ ap (parse_files crates) same ∙ l.traced.was_parsed)
Flawed-fails crates dir c (unknown_schema raw p h) l =
    let same = same_raw crates dir raw c p l.traced in
    let known = check_schemas-Known raw (ap check_schemas same ∙ l.traced.schemas) in
    elim h [
      | inl domains ↦ domains known.domains
      | inr (inl intents) ↦ intents known.intents
      | inr (inr allowlist) ↦ allowlist known.allowlist
    ]
Flawed-fails crates dir c (bad_workspace raw p h) l =
    let same = same_raw crates dir raw c p l.traced in
    let root = ap (λ r. r.config.safa.workspace_root) same ∙ sym l.traced.workspace_root in
    elim h [
      | inl relative ↦ ground (arith, sym relative ∙ ap (λ r. starts_with r "/") root ∙ l.absolute)
      | inr missing ↦ ground (arith, sym missing ∙ ap dir.is_dir root ∙ l.directory)
    ]
Flawed-fails crates dir c (foreign_host raw p h) l =
    let same = same_raw crates dir raw c p l.traced in
    h (ap (λ r. r.config.safa.bind_host) same ∙ sym l.traced.bind_host ∙ l.local)
Flawed-fails crates dir c (foreign_mode raw p h) l =
    let same = same_raw crates dir raw c p l.traced in
    h (ap (λ r. r.config.slime.mode) same ∙ sym l.traced.slime_mode ∙ l.embedded)

-- The loading refuses to start, with a message, if a file cannot be read or parsed or has an unknown
-- schema, or if the workspace is relative or no directory, the host is not 127.0.0.1, or the mode is not
-- the embedded one.
pub load-Flawed :
    (crates : Crates) (dir : ConfigDir)
    → Flawed crates dir
    → (message : String) × (load crates dir ≡ err (service_unavailable message))
load-Flawed crates dir flaw = elim (Result-cases (load crates dir)) [
  | inr (c, loaded) ↦ absurd (Flawed-fails crates dir c flaw (load-Loaded crates dir c loaded))
  | inl (e, failed) ↦ Starts-err (load-Starts crates dir) e failed
]
