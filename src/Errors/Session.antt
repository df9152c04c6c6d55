-- ===== src/Errors/Session.antt =====
-- packages/agent-api/src/errors.ts: the definite failures of persistence, of the session
-- lifecycle, of an agent's configuration and of files.
use Prim.Native.String.{◌++◌ as text_append}
use cf_open_agents_api.Prelude.{String, ℕ}
use cf_open_agents_api.Errors.Api.{
  ApiError, answer, status_400, status_404, status_409, status_413, status_422, status_429,
  status_503,
}

-- The failures of persistence.
pub data PersistenceFailure : Type 0 where
  superseded : String → ℕ → PersistenceFailure
  container_unassigned : PersistenceFailure

-- Their rows of `DEFINITE`.
unfoldable pub persistence_row : PersistenceFailure → ApiError
persistence_row (PersistenceFailure.superseded turn_id generation) =
    answer status_409 "stale_generation" "Execution was superseded"
persistence_row PersistenceFailure.container_unassigned =
    answer status_409 "unassigned_container" "Container has no session assignment"

-- The failures of the session lifecycle.
pub data LifecycleFailure : Type 0 where
  session_not_deleted : LifecycleFailure
  stream_limit_exceeded : ℕ → LifecycleFailure
  subagent_turn_mismatch : String → String → LifecycleFailure

-- Their rows of `DEFINITE`.
unfoldable pub lifecycle_row : LifecycleFailure → ApiError
lifecycle_row LifecycleFailure.session_not_deleted =
    answer status_409 "not_deleted" "Delete the session before purging its storage"
lifecycle_row (LifecycleFailure.stream_limit_exceeded limit) =
    answer status_429 "stream_limit" "Too many live streams for this session"
lifecycle_row (LifecycleFailure.subagent_turn_mismatch subagent_id turn_id) =
    answer status_404 "not_found" "Subagent turn not found"

pub data McpPlacementRule : Type 0 where
  environment_required : McpPlacementRule
  stdio_in_service : McpPlacementRule

abbrev pub mcp_placement_rule_message : McpPlacementRule → String
mcp_placement_rule_message McpPlacementRule.environment_required =
    "Environment-origin MCP requires an execution environment"
mcp_placement_rule_message McpPlacementRule.stdio_in_service =
    "Stdio MCP runs in the execution environment"

pub data NetworkPolicyRule : Type 0 where
  access : NetworkPolicyRule
  domains : NetworkPolicyRule

abbrev pub network_policy_rule_message : NetworkPolicyRule → String
network_policy_rule_message NetworkPolicyRule.access =
    "Session cannot broaden its template network policy"
network_policy_rule_message NetworkPolicyRule.domains =
    "Session domains must be allowed by its template"

-- The failures of an agent's configuration.
pub data ConfigurationFailure : Type 0 where
  model_not_registered : String → ConfigurationFailure
  delegate_unavailable : String → ConfigurationFailure
  reserved_tool_name : ConfigurationFailure
  mcp_placement_invalid : McpPlacementRule → ConfigurationFailure
  mcp_transport_unsupported : String → ConfigurationFailure
  network_policy_broadened : NetworkPolicyRule → ConfigurationFailure

-- Their rows of `DEFINITE`.
unfoldable pub configuration_row : ConfigurationFailure → ApiError
configuration_row (ConfigurationFailure.model_not_registered alias) =
    answer status_422 "unsupported_model" "Model is not registered in this deployment"
configuration_row (ConfigurationFailure.delegate_unavailable alias) =
    answer status_503 "delegate_unavailable"
      (text_append "Delegate preset " (text_append alias " is not registered in this deployment"))
configuration_row ConfigurationFailure.reserved_tool_name =
    answer status_400 "invalid_request"
      "Subagent delegation reserves cf_delegate, cf_wait and cf_close"
configuration_row (ConfigurationFailure.mcp_placement_invalid rule) =
    answer status_400 "invalid_request" (mcp_placement_rule_message rule)
configuration_row (ConfigurationFailure.mcp_transport_unsupported transport) =
    answer status_400 "invalid_request" "Expected HTTP MCP"
configuration_row (ConfigurationFailure.network_policy_broadened rule) =
    answer status_400 "network_policy_broadened" (network_policy_rule_message rule)

pub data FileKind : Type 0 where
  input : FileKind
  inline : FileKind

abbrev pub file_kind_message : FileKind → String
file_kind_message FileKind.input = "Environment input files exceed 50 MiB"
file_kind_message FileKind.inline = "Inline file exceeds 5 MiB"

-- The failures of files.
pub data FileFailure : Type 0 where
  input_file_invalid : FileFailure
  file_too_large : FileKind → FileFailure
  file_expired : String → FileFailure

-- Their rows of `DEFINITE`.
unfoldable pub files_row : FileFailure → ApiError
files_row FileFailure.input_file_invalid =
    answer status_400 "invalid_file" "Expected a multipart file"
files_row (FileFailure.file_too_large kind) =
    answer status_413 "file_too_large" (file_kind_message kind)
files_row (FileFailure.file_expired id) = answer status_404 "not_found" "File not found"
