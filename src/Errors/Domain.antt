-- ===== src/Errors/Domain.antt =====
-- packages/agent-api/src/errors.ts: the closed union of the failures, and the one projection of them.
use cf_open_agents_api.Prelude.{none, ℕ, String, Bool, true, false, List, [], ◌∷◌, string_eq}
use cf_open_agents_api.Errors.Api.{ApiError}
use cf_open_agents_api.Errors.Session.{
  PersistenceFailure, persistence_row, LifecycleFailure, lifecycle_row, ConfigurationFailure,
  configuration_row, FileFailure, files_row,
}
use cf_open_agents_api.Errors.Skills.{SkillFailure, skills_row, VaultFailure, vaults_row}
use cf_open_agents_api.Errors.Runtime.{HarnessFailure, harness_row, WorkspaceFailure, workspace_row}
use cf_open_agents_api.Errors.Gateway.{
  GatewayFailure, gateway_row, ProgramFailure, program_row, RequestFailure, request_row,
}
use cf_open_agents_api.Errors.Crossing.{
  StoppedAction, CrossingFailure, crossing_message, crossing_wire, RuntimeFailure, runtime_wire,
  Unanswered, unanswered_wire,
}

-- `DefiniteError`, a constructor for each layer of the table.
pub data DefiniteError : Type 0 where
  persistence : PersistenceFailure → DefiniteError
  lifecycle : LifecycleFailure → DefiniteError
  configuration : ConfigurationFailure → DefiniteError
  files : FileFailure → DefiniteError
  skills : SkillFailure → DefiniteError
  vaults : VaultFailure → DefiniteError
  harness : HarnessFailure → DefiniteError
  workspace : WorkspaceFailure → DefiniteError
  gateway : GatewayFailure → DefiniteError
  program : ProgramFailure → DefiniteError
  request : RequestFailure → DefiniteError

-- `DomainError`
pub data DomainError : Type 0 where
  definite : DefiniteError → DomainError
  crossing : CrossingFailure → DomainError
  runtime : RuntimeFailure → DomainError
  unanswered : Unanswered → DomainError

module _ (shown : ℕ → String) where
  -- `DEFINITE[tag]`, with the message that it renders.
  unfoldable pub row : DefiniteError → ApiError
  row (DefiniteError.persistence e) = persistence_row e
  row (DefiniteError.lifecycle e) = lifecycle_row e
  row (DefiniteError.configuration e) = configuration_row e
  row (DefiniteError.files e) = files_row e
  row (DefiniteError.skills e) = skills_row e
  row (DefiniteError.vaults e) = vaults_row e
  row (DefiniteError.harness e) = harness_row e
  row (DefiniteError.workspace e) = workspace_row shown e
  row (DefiniteError.gateway e) = gateway_row e
  row (DefiniteError.program e) = program_row e
  row (DefiniteError.request e) = request_row e

  -- `toApiError(error)`, of a failure of the domain
  unfoldable pub to_api_error : DomainError → ApiError
  to_api_error (definite e) = row e
  to_api_error (crossing e) = crossing_wire (crossing_message shown e) e
  to_api_error (runtime e) = runtime_wire e
  to_api_error (unanswered e) = unanswered_wire e

-- `PERMANENT_TAGS`, of the table's tags and of those that cross as data
abbrev permanent_harness : HarnessFailure → Bool
permanent_harness HarnessFailure.network_policy_conflict = true
permanent_harness HarnessFailure.container_retired = true
permanent_harness _ = false

abbrev permanent_workspace : WorkspaceFailure → Bool
permanent_workspace WorkspaceFailure.environment_setup_indeterminate = true
permanent_workspace (WorkspaceFailure.environment_conflict environment_id) = true
permanent_workspace _ = false

abbrev permanent_vault : VaultFailure → Bool
permanent_vault VaultFailure.credential_refresh_indeterminate = true
permanent_vault _ = false

abbrev permanent_lifecycle : LifecycleFailure → Bool
permanent_lifecycle LifecycleFailure.session_not_deleted = true
permanent_lifecycle _ = false

unfoldable pub permanent_definite : DefiniteError → Bool
permanent_definite (DefiniteError.lifecycle e) = permanent_lifecycle e
permanent_definite (DefiniteError.vaults e) = permanent_vault e
permanent_definite (DefiniteError.harness e) = permanent_harness e
permanent_definite (DefiniteError.workspace e) = permanent_workspace e
permanent_definite _ = false

unfoldable pub permanent_crossing : CrossingFailure → Bool
permanent_crossing (CrossingFailure.idempotency_conflict subject reason) = true
permanent_crossing (CrossingFailure.turn_active action) = true
permanent_crossing CrossingFailure.session_failed = true
permanent_crossing CrossingFailure.turn_checkpointing = true
permanent_crossing (CrossingFailure.steering_unsupported name) = true
permanent_crossing (CrossingFailure.invalid_session_state reason) = true
permanent_crossing _ = false

-- `PERMANENT_TAGS.includes(error._tag)`
unfoldable pub has_permanent_tag : DomainError → Bool
has_permanent_tag (definite e) = permanent_definite e
has_permanent_tag (crossing e) = permanent_crossing e
has_permanent_tag _ = false

-- `PERMANENT_CODES`: what `WIRE` says of each of `PERMANENT_TAGS`; a code does not depend on the props.
abbrev pub permanent_codes : List String
unfolding crossing_wire vaults_row workspace_row harness_row lifecycle_row
permanent_codes =
    (crossing_wire "" (CrossingFailure.idempotency_conflict "" none)).code
    ∷ (crossing_wire "" (CrossingFailure.turn_active StoppedAction.delete)).code
    ∷ (crossing_wire "" CrossingFailure.session_failed).code
    ∷ (crossing_wire "" CrossingFailure.turn_checkpointing).code
    ∷ (crossing_wire "" (CrossingFailure.steering_unsupported "")).code
    ∷ (vaults_row VaultFailure.credential_refresh_indeterminate).code
    ∷ (workspace_row (λ n. "") WorkspaceFailure.environment_setup_indeterminate).code
    ∷ (harness_row HarnessFailure.network_policy_conflict).code
    ∷ (harness_row HarnessFailure.container_retired).code
    ∷ (crossing_wire "" (CrossingFailure.invalid_session_state "")).code
    ∷ (lifecycle_row LifecycleFailure.session_not_deleted).code
    ∷ (workspace_row (λ n. "") (WorkspaceFailure.environment_conflict "")).code
    ∷ []
