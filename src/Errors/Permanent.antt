-- ===== src/Errors/Permanent.antt =====
-- packages/agent-api/src/errors.ts, `PERMANENT_TAGS` and `PERMANENT_CODES`: a failure is permanent by
-- its tag exactly when it is by the code that it projects to.
use cf_open_agents_api.Prelude.{ℕ, ◌≡◌, refl, ap, ◌∙◌, sym, String, false, contains, string_eq}
use cf_open_agents_api.Errors.Crossing.{
  CrossingFailure, crossing_message, crossing_wire, EventCode, RuntimeFailure, runtime_wire,
  storage_failure, transport_failure, unanswered_wire, event_code,
}
use cf_open_agents_api.Errors.Domain.{
  DefiniteError, DomainError, definite, crossing, runtime, unanswered, row, to_api_error,
  permanent_codes, permanent_definite, permanent_crossing, has_permanent_tag,
}
use cf_open_agents_api.Errors.Session.{
  PersistenceFailure, persistence_row, LifecycleFailure, lifecycle_row, ConfigurationFailure,
  configuration_row, FileFailure, files_row,
}
use cf_open_agents_api.Errors.Skills.{SkillFailure, skills_row, VaultFailure, vaults_row}
use cf_open_agents_api.Errors.Runtime.{HarnessFailure, harness_row, WorkspaceFailure, workspace_row}
use cf_open_agents_api.Errors.Gateway.{
  GatewayFailure, gateway_row, ProgramFailure, program_row, RequestFailure, request_row,
}
use cf_open_agents_api.Errors.Boundary.{
  domain, api, failure, error, caught_failure, is_permanent, projected, over_rpc, error_response,
  response_of, respond,
}
use cf_open_agents_api.Errors.Hops.{Named, failure_recovered}

persistence_agrees :
    (e : PersistenceFailure)
    → permanent_definite (DefiniteError.persistence e)
      ≡ contains permanent_codes (persistence_row e).code
unfolding permanent_definite persistence_row crossing_wire vaults_row workspace_row harness_row
    lifecycle_row
persistence_agrees PersistenceFailure.container_unassigned = refl
persistence_agrees e = refl

lifecycle_agrees :
    (e : LifecycleFailure)
    → permanent_definite (DefiniteError.lifecycle e)
      ≡ contains permanent_codes (lifecycle_row e).code
unfolding permanent_definite lifecycle_row crossing_wire vaults_row workspace_row harness_row
lifecycle_agrees LifecycleFailure.session_not_deleted = refl
lifecycle_agrees e = refl

configuration_agrees :
    (e : ConfigurationFailure)
    → permanent_definite (DefiniteError.configuration e)
      ≡ contains permanent_codes (configuration_row e).code
unfolding permanent_definite configuration_row crossing_wire vaults_row workspace_row harness_row
    lifecycle_row
configuration_agrees ConfigurationFailure.reserved_tool_name = refl
configuration_agrees e = refl

files_agrees :
    (e : FileFailure)
    → permanent_definite (DefiniteError.files e) ≡ contains permanent_codes (files_row e).code
unfolding permanent_definite files_row crossing_wire vaults_row workspace_row harness_row
    lifecycle_row
files_agrees FileFailure.input_file_invalid = refl
files_agrees e = refl

skills_agrees :
    (e : SkillFailure)
    → permanent_definite (DefiniteError.skills e) ≡ contains permanent_codes (skills_row e).code
unfolding permanent_definite skills_row crossing_wire vaults_row workspace_row harness_row
    lifecycle_row
skills_agrees SkillFailure.skill_manifest_missing = refl
skills_agrees e = refl

vaults_agrees :
    (e : VaultFailure)
    → permanent_definite (DefiniteError.vaults e) ≡ contains permanent_codes (vaults_row e).code
unfolding permanent_definite vaults_row crossing_wire workspace_row harness_row lifecycle_row
vaults_agrees VaultFailure.credential_not_found = refl
vaults_agrees e = refl

harness_agrees :
    (e : HarnessFailure)
    → permanent_definite (DefiniteError.harness e) ≡ contains permanent_codes (harness_row e).code
unfolding permanent_definite harness_row crossing_wire vaults_row workspace_row lifecycle_row
harness_agrees HarnessFailure.container_retired = refl
harness_agrees e = refl

workspace_agrees :
    (shown : ℕ → String) (e : WorkspaceFailure)
    → permanent_definite (DefiniteError.workspace e)
      ≡ contains permanent_codes (workspace_row shown e).code
unfolding permanent_definite workspace_row crossing_wire vaults_row harness_row lifecycle_row
workspace_agrees shown WorkspaceFailure.environment_list_failed = refl
workspace_agrees shown e = refl

gateway_agrees :
    (e : GatewayFailure)
    → permanent_definite (DefiniteError.gateway e) ≡ contains permanent_codes (gateway_row e).code
unfolding permanent_definite gateway_row crossing_wire vaults_row workspace_row harness_row
    lifecycle_row
gateway_agrees GatewayFailure.model_input_missing = refl
gateway_agrees e = refl

program_agrees :
    (e : ProgramFailure)
    → permanent_definite (DefiniteError.program e) ≡ contains permanent_codes (program_row e).code
unfolding permanent_definite program_row crossing_wire vaults_row workspace_row harness_row
    lifecycle_row
program_agrees ProgramFailure.programmatic_input_too_large = refl
program_agrees e = refl

request_agrees :
    (e : RequestFailure)
    → permanent_definite (DefiniteError.request e) ≡ contains permanent_codes (request_row e).code
unfolding permanent_definite request_row crossing_wire vaults_row workspace_row harness_row
    lifecycle_row
request_agrees RequestFailure.invalid_json = refl
request_agrees e = refl

definite_agrees :
    (shown : ℕ → String) (e : DefiniteError)
    → permanent_definite e ≡ contains permanent_codes (row shown e).code
unfolding row
definite_agrees shown (DefiniteError.persistence e) = persistence_agrees e
definite_agrees shown (DefiniteError.lifecycle e) = lifecycle_agrees e
definite_agrees shown (DefiniteError.configuration e) = configuration_agrees e
definite_agrees shown (DefiniteError.files e) = files_agrees e
definite_agrees shown (DefiniteError.skills e) = skills_agrees e
definite_agrees shown (DefiniteError.vaults e) = vaults_agrees e
definite_agrees shown (DefiniteError.harness e) = harness_agrees e
definite_agrees shown (DefiniteError.workspace e) = workspace_agrees shown e
definite_agrees shown (DefiniteError.gateway e) = gateway_agrees e
definite_agrees shown (DefiniteError.program e) = program_agrees e
definite_agrees shown (DefiniteError.request e) = request_agrees e

crossing_agrees :
    (m : String) (e : CrossingFailure)
    → permanent_crossing e ≡ contains permanent_codes (crossing_wire m e).code
unfolding permanent_crossing crossing_wire vaults_row workspace_row harness_row lifecycle_row
crossing_agrees m CrossingFailure.session_not_found = refl
crossing_agrees m e = refl

event_agrees : (c : EventCode) → false ≡ contains permanent_codes (event_code c)
unfolding crossing_wire vaults_row workspace_row harness_row lifecycle_row
event_agrees EventCode.invalid_runtime_event = refl
event_agrees EventCode.invalid_runtime_cursor = refl

-- A failure whose code is its tag's: all but the two answers that carry a runtime's own code.
abbrev pub Static : DomainError → Type 0
Static (runtime (RuntimeFailure.command_rejected code m)) = ⊥
Static (runtime (RuntimeFailure.runtime_rejected status code m)) = ⊥
Static _ = Unit

module _ (shown : ℕ → String) where
  permanent_agrees :
      (e : DomainError)
      → Static e
      → is_permanent (domain e) ≡ is_permanent (api (to_api_error shown e))
  unfolding is_permanent has_permanent_tag to_api_error runtime_wire unanswered_wire crossing_wire
      vaults_row workspace_row harness_row lifecycle_row
  permanent_agrees (definite e) h = definite_agrees shown e
  permanent_agrees (crossing e) h = crossing_agrees (crossing_message shown e) e
  permanent_agrees (runtime (RuntimeFailure.invalid_event code m)) h = event_agrees code
  permanent_agrees (runtime (RuntimeFailure.command_rejected code m)) h = elim h [ ]
  permanent_agrees (runtime (RuntimeFailure.execution_missing m)) h = refl
  permanent_agrees (runtime (RuntimeFailure.runtime_rejected status code m)) h = elim h [ ]
  permanent_agrees (runtime (RuntimeFailure.checkpoint_incompatible m)) h = refl
  permanent_agrees (unanswered (storage_failure operation)) h = refl
  permanent_agrees (unanswered (transport_failure operation)) h = refl

  -- A definite failure whose code is its tag's is answered over HTTP alike whether it was thrown here
  -- or by a method of another object: the same status, type, code and message, and the same header
  -- that tells a client not to retry.
  pub hop_answered_alike :
      (e : DomainError)
      → Static e
      → Named e
      → error_response shown (error (over_rpc shown e)) ≡ error_response shown (failure (domain e))
  unfolding error_response caught_failure projected
  hop_answered_alike e h n =
      ap (response_of shown) (failure_recovered shown "" e n).0
      ∙ ap (respond (to_api_error shown e)) (sym (permanent_agrees e h))
