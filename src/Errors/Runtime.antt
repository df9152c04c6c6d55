-- ===== src/Errors/Runtime.antt =====
-- packages/agent-api/src/errors.ts: the definite failures of the harness and its containers and
-- of an environment's workspace.
use Prim.Native.String.{◌++◌ as text_append}
use cf_open_agents_api.Prelude.{String, ℕ, Bool, true, false, Option, none, some}
use cf_open_agents_api.Errors.Api.{
  ApiError, answer, status_400, status_404, status_409, status_413, status_422, status_503,
}

-- The failures of the harness and its containers.
pub data HarnessFailure : Type 0 where
  harness_unknown : String → HarnessFailure
  checkpoint_harness_mismatch : String → String → HarnessFailure
  checkpoint_missing : String → HarnessFailure
  checkpoint_too_large : HarnessFailure
  assignment_conflict : String → HarnessFailure
  network_policy_conflict : HarnessFailure
  container_retired : HarnessFailure
  container_misconfigured : String → HarnessFailure
  artifact_list_failed : HarnessFailure
  artifact_limit_exceeded : HarnessFailure

-- Their rows of `DEFINITE`.
unfoldable pub harness_row : HarnessFailure → ApiError
harness_row (HarnessFailure.harness_unknown harness) =
    answer status_400 "unsupported_harness" "Unknown Container harness"
harness_row (HarnessFailure.checkpoint_harness_mismatch harness revision) =
    answer status_409 "checkpoint_incompatible" "Checkpoint belongs to another harness version"
harness_row (HarnessFailure.checkpoint_missing key) =
    answer status_409 "checkpoint_missing" "Native checkpoint is missing"
harness_row HarnessFailure.checkpoint_too_large =
    answer status_413 "checkpoint_too_large" "Native checkpoint exceeds 64 MiB"
harness_row (HarnessFailure.assignment_conflict session_id) =
    answer status_409 "assignment_conflict" "Container already belongs to another session"
harness_row HarnessFailure.network_policy_conflict =
    answer status_409 "network_policy_conflict"
      "Network access must be configured before the environment starts"
harness_row HarnessFailure.container_retired =
    answer status_409 "session_deleted" "The session was deleted and its compute released"
harness_row (HarnessFailure.container_misconfigured reason) =
    answer status_503 "container_misconfigured" reason
harness_row HarnessFailure.artifact_list_failed =
    answer status_503 "artifact_list_failed" "Artifact listing failed"
harness_row HarnessFailure.artifact_limit_exceeded =
    answer status_413 "artifact_limit" "Artifacts exceed 200 MiB per file or 500 MiB per turn"

pub data EnvironmentReason : Type 0 where
  source : EnvironmentReason
  upload : EnvironmentReason

abbrev pub environment_reason_message : EnvironmentReason → String
environment_reason_message EnvironmentReason.source = "Source environment is not connected"
environment_reason_message EnvironmentReason.upload = "Wait for the environment to connect"

pub data EnvironmentSetupReason : Type 0 where
  command : EnvironmentSetupReason
  capability_result : EnvironmentSetupReason

-- The text of a number is the platform's.
abbrev pub setup_command_message : (ℕ → String) → Bool → Option ℕ → String
setup_command_message shown true exit_code = "Environment command timed out after 120 seconds"
setup_command_message shown false none = "Environment command failed"
setup_command_message shown false (some exit_code) =
    text_append "Environment command failed with exit code " (shown exit_code)

abbrev pub setup_message : (ℕ → String) → EnvironmentSetupReason → Option ℕ → Bool → String
setup_message shown EnvironmentSetupReason.capability_result exit_code timed_out =
    "Invalid capability installation result"
setup_message shown EnvironmentSetupReason.command exit_code timed_out =
    setup_command_message shown timed_out exit_code

-- `ENVIRONMENT_WRITES`
pub data EnvironmentWrite : Type 0 where
  file : EnvironmentWrite
  upload_missing : EnvironmentWrite
  upload : EnvironmentWrite

abbrev pub environment_write_message : EnvironmentWrite → String
environment_write_message EnvironmentWrite.file = "Environment file write failed"
environment_write_message EnvironmentWrite.upload_missing = "Environment upload missing"
environment_write_message EnvironmentWrite.upload = "Environment upload write failed"

-- `STORED_OBJECTS`
pub data StoredObject : Type 0 where
  environment_configuration : StoredObject
  skill_bundle : StoredObject
  input_file : StoredObject
  file_content : StoredObject
  skill_content : StoredObject
  artifact_content : StoredObject
  workspace_backup : StoredObject

abbrev pub stored_object_message : StoredObject → String
stored_object_message StoredObject.environment_configuration = "Environment configuration not found"
stored_object_message StoredObject.skill_bundle = "Pinned skill bundle not found"
stored_object_message StoredObject.input_file = "Input file not found"
stored_object_message StoredObject.file_content = "File content not found"
stored_object_message StoredObject.skill_content = "Skill content not found"
stored_object_message StoredObject.artifact_content = "Artifact content not found"
stored_object_message StoredObject.workspace_backup = "Workspace backup not found"

-- The failures of an environment's workspace.
pub data WorkspaceFailure : Type 0 where
  environment_not_found : String → WorkspaceFailure
  environment_not_ready : EnvironmentReason → WorkspaceFailure
  environment_conflict : String → WorkspaceFailure
  environment_setup_indeterminate : WorkspaceFailure
  environment_setup_failed : EnvironmentSetupReason → Option ℕ → Bool → WorkspaceFailure
  environment_write_failed : EnvironmentWrite → WorkspaceFailure
  environment_list_failed : WorkspaceFailure
  environment_driver_unavailable : WorkspaceFailure
  capability_budget_exceeded : WorkspaceFailure
  stored_object_missing : StoredObject → WorkspaceFailure
  object_storage_unavailable : WorkspaceFailure
  upstream_redirect : String → WorkspaceFailure

-- Their rows of `DEFINITE`.
unfoldable pub workspace_row : (ℕ → String) → WorkspaceFailure → ApiError
workspace_row shown (WorkspaceFailure.environment_not_found environment_id) =
    answer status_404 "not_found" "Environment not found"
workspace_row shown (WorkspaceFailure.environment_not_ready reason) =
    answer status_409 "environment_not_ready" (environment_reason_message reason)
workspace_row shown (WorkspaceFailure.environment_conflict environment_id) =
    answer status_409 "environment_conflict" "Harness already owns another environment"
workspace_row shown WorkspaceFailure.environment_setup_indeterminate =
    answer status_409 "outcome_unknown" "Environment setup did not complete; create a new session"
workspace_row shown (WorkspaceFailure.environment_setup_failed reason exit_code timed_out) =
    answer status_422 "environment_setup_failed" (setup_message shown reason exit_code timed_out)
workspace_row shown (WorkspaceFailure.environment_write_failed reason) =
    answer status_503 "environment_write_failed" (environment_write_message reason)
workspace_row shown WorkspaceFailure.environment_list_failed =
    answer status_503 "environment_list_failed" "Environment listing failed"
workspace_row shown WorkspaceFailure.environment_driver_unavailable =
    answer status_503 "environment_unavailable" "Environment driver is unavailable"
workspace_row shown WorkspaceFailure.capability_budget_exceeded =
    answer status_413 "capability_limit" "Skills and plugins exceed 64 MiB per environment"
workspace_row shown (WorkspaceFailure.stored_object_missing object) =
    answer status_404 "not_found" (stored_object_message object)
workspace_row shown WorkspaceFailure.object_storage_unavailable =
    answer status_503 "storage_unavailable" "Object storage is not configured"
workspace_row shown (WorkspaceFailure.upstream_redirect operation) =
    answer status_503 "upstream_redirect" "Configured upstream returned a redirect"
