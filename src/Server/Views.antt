-- ===== src/Server/Views.antt =====
-- safa-daemon/src/server.rs: the handlers that only read the state, and the check of the content type.
use Prim.Native.String.{◌++◌}
use ama.Prelude.{
  ℕ, ◌-◌, ◌/◌, String, Option, none, some, List, [], ◌∷◌, HashMap, get, string_eq, starts_with,
  if◌then◌else◌, ◌==◌, pos,
}
use ama.Errors.{
  Json, bool, number, string, object, Fields, end, field, texts, error_body, unsupported_media_type,
}
use ama.Config.{DomainPolicy}
use ama.Slime.{P0Authorizer, capacity_used, capacity_max}
use ama.Slime.Registry.{agent_ids, get_agent}
use ama.Audit.{ProofRecord, get_proof}
use ama.Manifest.{
  BTreeMap, DomainCapability, ManifestForHashing, PublicManifest, from_agent_config, hash,
}
use ama.Server.{json, Response, HeaderMap, header_text, AppState, ama_error_response}

abbrev pub reply : ℕ → Json → Response
reply status value = record { status = status; headers = []; body = json value }

abbrev natural : ℕ → Json
natural n = number (pos n)

unfoldable pub handle_health : Response
handle_health = reply 200 (object (texts (("status", "ok") ∷ [])))

-- The version that Cargo sets when it builds is an argument.
unfoldable pub handle_version : String → Response
handle_version version = reply 200 (
    object
      (texts (("name", "safa") ∷ ("version", version) ∷ ("schema_version", "ama-action-v1") ∷ [])))

abbrev text_or_empty : Option String → String
text_or_empty none = ""
text_or_empty (some t) = t

-- `none` where the middleware hands the request on.
unfoldable pub content_type_middleware : String → HeaderMap → Option Response
unfolding ama_error_response
content_type_middleware method headers =
    if method == "POST"
    then (if starts_with (text_or_empty (header_text "content-type" headers)) "application/json"
        then none
        else some (ama_error_response unsupported_media_type))
    else none

module _ {W : Type 0} (s : AppState W) where
  agent_status : P0Authorizer → Json
  unfolding capacity_used capacity_max
  agent_status a = object (
      field "capacity_used" (natural (capacity_used a)) (
        field "capacity_max" (natural (capacity_max a))
          (field "capacity_remaining" (natural (capacity_max a - capacity_used a)) end)))

  unfoldable pub agents_status : List String → Fields
  unfolding agent_status get_agent
  agents_status [] = end
  agents_status (agent_id ∷ ids) = elim (get_agent agent_id s.agent_registry) [
    | none ↦ agents_status ids
    | some a ↦ field agent_id (agent_status a) (agents_status ids)
  ]

  unfoldable pub domains_status : HashMap String DomainPolicy → Fields
  domains_status [] = end
  domains_status ((domain_id, policy) ∷ policies) =
      let count : ℕ = elim (get domain_id s.domain_counters) [ none ↦ 0 | some n ↦ n ] in
      field domain_id
        (object (field "enabled" (bool policy.enabled) (field "actions_count" (natural count) end)))
        (domains_status policies)

  -- The reading of the clock is in nanoseconds.
  unfoldable pub handle_status : String → ℕ → Response
  unfolding agents_status domains_status agent_ids
  handle_status session_text now = reply 200 (
      object (
        field "session_id" (string session_text) (
          field "uptime_seconds" (natural ((now - s.start_time) / 1000000000)) (
            field "agents" (object (agents_status (agent_ids s.agent_registry)))
              (field "domains" (object (domains_status s.config.domain_policies)) end)))))

  abbrev pub capability_fields : BTreeMap DomainCapability → Fields
  capability_fields [] = end
  capability_fields ((domain_id, c) ∷ cs) =
      field domain_id
        (object (
          field "enabled" (bool c.enabled)
            (field "max_magnitude_per_action" (natural c.max_magnitude_per_action) end)))
        (capability_fields cs)

  -- The derived `Serialize` of a manifest.
  abbrev pub manifest_value : PublicManifest → Json
  manifest_value m = object (
      field "schema_version" (string m.schema_version) (
        field "agent_id" (string m.agent_id) (
          field "identity_bound" (bool m.identity_bound) (
            field "max_capacity" (natural m.max_capacity) (
              field "rate_limit_per_window" (natural m.rate_limit_per_window) (
                field "rate_limit_window_secs" (natural m.rate_limit_window_secs) (
                  field "domains" (object (capability_fields m.domains))
                    (field "manifest_hash" (string m.manifest_hash) end))))))))

  unfoldable pub handle_manifest :
      (ManifestForHashing → String) → (List ℕ → String) → String → Response
  unfolding from_agent_config hash
  handle_manifest to_string sha256_hex agent_id = elim (get agent_id s.config.agents) [
    | some agent_config ↦
        let manifest = from_agent_config to_string sha256_hex agent_config in
        record {
          status = 200;
          headers = ("x-safa-policy-hash", hash manifest) ∷ [];
          body = json (manifest_value manifest);
        }
    | none ↦ reply 404 (error_body "unknown_agent" ("no manifest for agent: " ++ agent_id))
  ]

  abbrev proof_value : ProofRecord → Json
  proof_value p = object (
      texts (
        ("request_id", p.request_id)
        ∷ ("agent_id", p.agent_id)
        ∷ ("action", p.action)
        ∷ ("verdict", p.verdict)
        ∷ ("manifest_hash", p.manifest_hash)
        ∷ ("timestamp", p.timestamp)
        ∷ []))

  unfoldable pub handle_proof : String → Response
  unfolding get_proof
  handle_proof request_id = elim (get_proof request_id s.proof_store) [
    | some p ↦ record {
      status = 200;
      headers = ("x-safa-policy-hash", p.manifest_hash) ∷ [];
      body = json (proof_value p);
    }
    | none ↦
        reply 404 (error_body "proof_not_found" ("no proof record for request_id: " ++ request_id))
  ]
