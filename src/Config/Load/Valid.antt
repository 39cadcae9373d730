-- ===== src/Config/Load/Valid.antt =====
-- safa-core/src/config.rs: what a configuration promises that `AmaConfig::load` returns.
use mathlib.Core.Path.{subst}
use text.Mathlib.TextEquality.{eq_iff}
use ama.Prelude.{
  ◌≡◌, refl, ◌⊎◌, inl, inr, String, true, false, some, [], ◌∷◌, arith, HashMap, get, insert,
  string_eq, ◌==◌, not, Bool-cases, Option-cases, starts_with,
}
use ama.Errors.{ok, >>=-eq-ok, ok_injective, fail_if}
use ama.Config.{DomainPolicy, DomainMapping, IntentMapping, AmaConfig}
use ama.Config.Raw.{RawConfig, RawDomainEntry, RawIntentEntry, ConfigDir, Crates}
use ama.Config.AgentSet.{AgentSet, agents_hash, from_slime}
use ama.Config.AgentSet.Valid.{IsValid, AllDefined, from_directory-IsValid, from_slime-IsValid}
use ama.Config.Load.{
  Bytes, RawFiles, check_config, agent_set, is_absent, domain_mappings, intent_mappings, read_files,
  parse_files, check_schemas, load,
}

-- Every action is mapped to a domain that has a policy.
abbrev pub AllMapped : HashMap String DomainPolicy → HashMap String DomainMapping → Type 0
AllMapped policies [] = Unit {0}
AllMapped policies ((action, m) ∷ mappings) =
    ((p : DomainPolicy) × (get m.domain_id policies ≡ some p)) × AllMapped policies mappings

-- The binary of every intent exists.
abbrev pub AllPresent : ConfigDir → HashMap String IntentMapping → Type 0
AllPresent dir [] = Unit {0}
AllPresent dir ((name, i) ∷ intents) = (dir.exists i.binary ≡ true) × AllPresent dir intents

insert-AllMapped :
    (policies : HashMap String DomainPolicy) (action : String) (m : DomainMapping)
    (mappings : HashMap String DomainMapping)
    → (p : DomainPolicy) × (get m.domain_id policies ≡ some p)
    → AllMapped policies mappings
    → AllMapped policies (insert action m mappings)
unfolding insert
insert-AllMapped policies action m [] w h = (w, tt)
insert-AllMapped policies action m ((k, n) ∷ mappings) w h = elim (Bool-cases (k == action)) [
  | inl same ↦ rw same (w, h.1)
  | inr other ↦ rw other (h.0, insert-AllMapped policies action m mappings w h.1)
]

insert-AllPresent :
    (dir : ConfigDir) (name : String) (i : IntentMapping) (intents : HashMap String IntentMapping)
    → dir.exists i.binary ≡ true
    → AllPresent dir intents
    → AllPresent dir (insert name i intents)
unfolding insert
insert-AllPresent dir name i [] w h = (w, tt)
insert-AllPresent dir name i ((k, j) ∷ intents) w h = elim (Bool-cases (k == name)) [
  | inl same ↦ rw same (w, h.1)
  | inr other ↦ rw other (h.0, insert-AllPresent dir name i intents w h.1)
]

domain_mappings-AllMapped :
    (policies : HashMap String DomainPolicy) (domains : HashMap String RawDomainEntry)
    (mappings out : HashMap String DomainMapping)
    → domain_mappings policies domains mappings ≡ ok out
    → AllMapped policies mappings
    → AllMapped policies out
unfolding domain_mappings
domain_mappings-AllMapped policies [] mappings out h m =
    subst (AllMapped policies) (ok_injective h) m
domain_mappings-AllMapped policies ((action, entry) ∷ domains) mappings out h m =
    let known = >>=-eq-ok (fail_if (is_absent (get entry.domain_id policies)) _) _ out h in
    elim (Option-cases (get entry.domain_id policies)) [
      | inl missing ↦ absurd (ground (arith, known.1))
      | inr found ↦
          domain_mappings-AllMapped policies domains _ out known.2
            (insert-AllMapped policies action _ mappings found m)
    ]

intent_mappings-AllPresent :
    (dir : ConfigDir) (workspace_root : String) (raws : HashMap String RawIntentEntry)
    (intents out : HashMap String IntentMapping)
    → intent_mappings dir workspace_root raws intents ≡ ok out
    → AllPresent dir intents
    → AllPresent dir out
unfolding intent_mappings
intent_mappings-AllPresent dir workspace_root [] intents out h m =
    subst (AllPresent dir) (ok_injective h) m
intent_mappings-AllPresent dir workspace_root ((name, raw) ∷ raws) intents out h m =
    let there = >>=-eq-ok (fail_if (not (dir.exists raw.binary)) _) _ out h in
    intent_mappings-AllPresent dir workspace_root raws _ out there.2
      (insert-AllPresent dir name _ intents (ground (arith, there.1)) m)

abbrev pub set_of : AmaConfig → AgentSet
set_of c = record {
  agents = c.agents;
  default_agent_id = c.default_agent_id;
  domain_policies = c.domain_policies;
  max_capacity = c.max_capacity;
  agents_hash = c.boot_hashes.agents_hash;
}

-- The hashes of the four files are those of the bytes that were read, and the rest comes from their texts.
pub record Traced (crates : Crates) (dir : ConfigDir) (c : AmaConfig) : Type 0 where
  pub bytes : Bytes
  pub raw : RawFiles
  pub was_read : read_files dir ≡ ok bytes
  pub was_parsed : parse_files crates bytes ≡ ok raw
  pub schemas : check_schemas raw ≡ ok tt
  pub workspace_root : c.workspace_root ≡ raw.config.safa.workspace_root
  pub bind_host : c.bind_host ≡ raw.config.safa.bind_host
  pub slime_mode : c.slime_mode ≡ raw.config.slime.mode
  pub config_hash : c.boot_hashes.config_hash ≡ crates.sha256_hex bytes.config
  pub domains_hash : c.boot_hashes.domains_hash ≡ crates.sha256_hex bytes.domains
  pub intents_hash : c.boot_hashes.intents_hash ≡ crates.sha256_hex bytes.intents
  pub allowlist_hash : c.boot_hashes.allowlist_hash ≡ crates.sha256_hex bytes.allowlist
  pub cross :
      ((dir.agents_is_dir ≡ false) × (from_slime raw.config.slime ≡ ok (set_of c)))
      ⊎ (AllDefined raw.domains.domains c.agents
          × (agents_hash crates.sha256_hex dir.agents_bytes ≡ ok c.boot_hashes.agents_hash))

pub record Loaded (crates : Crates) (dir : ConfigDir) (c : AmaConfig) : Type 0 where
  pub traced : Traced crates dir c
  pub absolute : starts_with c.workspace_root "/" ≡ true
  pub directory : dir.is_dir c.workspace_root ≡ true
  pub local : c.bind_host ≡ "127.0.0.1"
  pub embedded : c.slime_mode ≡ "embedded"
  pub agents : IsValid (set_of c)
  pub mapped : AllMapped c.domain_policies c.domain_mappings
  pub present : AllPresent dir c.intents

pub record Checked (dir : ConfigDir) (raw : RawConfig) : Type 0 where
  pub absolute : starts_with raw.safa.workspace_root "/" ≡ true
  pub directory : dir.is_dir raw.safa.workspace_root ≡ true
  pub local : raw.safa.bind_host ≡ "127.0.0.1"
  pub embedded : raw.slime.mode ≡ "embedded"

check_config-Checked :
    (dir : ConfigDir) (raw : RawConfig) → check_config dir raw ≡ ok tt → Checked dir raw
unfolding check_config
check_config-Checked dir raw h =
    let absolute = >>=-eq-ok (fail_if (not (starts_with raw.safa.workspace_root "/")) _) _ tt h in
    let directory =
      >>=-eq-ok (fail_if (not (dir.is_dir raw.safa.workspace_root)) _) _ tt absolute.2 in
    let local = >>=-eq-ok (fail_if (not (raw.safa.bind_host == "127.0.0.1")) _) _ tt directory.2 in
    record {
      absolute = ground (arith, absolute.1);
      directory = ground (arith, directory.1);
      local = ground (arith, local.1, eq_iff raw.safa.bind_host "127.0.0.1");
      embedded = ground (arith, local.2, eq_iff raw.slime.mode "embedded");
    }

agent_set-IsValid :
    (crates : Crates) (dir : ConfigDir) (raw : RawConfig) (domains : HashMap String RawDomainEntry)
    (s : AgentSet)
    → agent_set crates dir raw domains ≡ ok s
    → IsValid s
      × (((dir.agents_is_dir ≡ false) × (from_slime raw.slime ≡ ok s))
          ⊎ (AllDefined domains s.agents
              × (agents_hash crates.sha256_hex dir.agents_bytes ≡ ok s.agents_hash)))
unfolding agent_set
agent_set-IsValid crates dir raw domains s h = elim (Bool-cases dir.agents_is_dir) [
  | inl there ↦
      let v = from_directory-IsValid crates dir domains s (ground arith) in (v.0, inr (v.1, v.2))
  | inr absent ↦
      let e : from_slime raw.slime ≡ ok s = ground arith in
      (from_slime-IsValid raw.slime s e, inl (absent, e))
]

-- A configuration that is loaded has a workspace that is an absolute path to a directory, listens on
-- 127.0.0.1 and runs in the embedded mode; it has agents, each under its own id and valid, and a default
-- agent exactly if it has one agent, which is that one; no agent has more than the capacity of the configuration, and every domain of an agent
-- has a policy, which fits into that capacity; every action is mapped to a domain with a policy, and the
-- binary of every intent exists; the boot hashes of the four files are those of the bytes that were parsed,
-- under their schemas; and if there is a directory of agents, their domains are defined in `domains.toml`, and
-- their hash is that of a second reading of their files.
pub load-Loaded :
    (crates : Crates) (dir : ConfigDir) (c : AmaConfig)
    → load crates dir ≡ ok c
    → Loaded crates dir c
unfolding load
load-Loaded crates dir c h =
    let read = >>=-eq-ok (read_files dir) _ c h in
    let parsed = >>=-eq-ok (parse_files crates read.0) _ c read.2 in
    let raw = parsed.0 in
    let schemas = >>=-eq-ok (check_schemas raw) _ c parsed.2 in
    let checked = >>=-eq-ok (check_config dir raw.config) _ c schemas.2 in
    let set = >>=-eq-ok (agent_set crates dir raw.config raw.domains.domains) _ c checked.2 in
    let mappings =
      >>=-eq-ok (domain_mappings set.0.domain_policies raw.domains.domains []) _ c set.2 in
    let intents =
      >>=-eq-ok (intent_mappings dir raw.config.safa.workspace_root raw.intents.intents []) _ c
        mappings.2 in
    let k = check_config-Checked dir raw.config checked.1 in
    let v = agent_set-IsValid crates dir raw.config raw.domains.domains set.0 set.1 in
    subst (Loaded crates dir) (ok_injective intents.2) (record {
      traced = record {
        bytes = read.0;
        raw = raw;
        was_read = read.1;
        was_parsed = parsed.1;
        schemas = schemas.1;
        workspace_root = refl;
        bind_host = refl;
        slime_mode = refl;
        config_hash = refl;
        domains_hash = refl;
        intents_hash = refl;
        allowlist_hash = refl;
        cross = v.1;
      };
      absolute = k.absolute;
      directory = k.directory;
      local = k.local;
      embedded = k.embedded;
      agents = v.0;
      mapped =
          domain_mappings-AllMapped set.0.domain_policies raw.domains.domains [] mappings.0
            mappings.1 tt;
      present =
          intent_mappings-AllPresent dir raw.config.safa.workspace_root raw.intents.intents []
            intents.0 intents.1 tt;
    })
