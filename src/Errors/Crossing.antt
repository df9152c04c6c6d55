-- ===== src/Errors/Crossing.antt =====
-- packages/agent-api/src/errors.ts: the failures whose classes are written by hand. The text of a
-- number and of an unexpected cause is the platform's.
use Prim.Native.String.{◌++◌ as text_append}
use cf_open_agents_api.Prelude.{ℕ, String, Option, none, some}
use cf_open_agents_api.Errors.Api.{
  Status, ApiError, answer, status_400, status_404, status_409, status_413, status_422, status_500,
  status_503,
}

-- `CAPABILITIES`
pub data Capability : Type 0 where
  configuration : Capability
  subagents : Capability
  mcp : Capability
  web_search : Capability
  tool_search : Capability
  programmatic_tool_calling : Capability
  environment_mcp_credentials : Capability
  image_input : Capability
  image_function_results : Capability
  environment_capabilities : Capability
  configured_environment : Capability
  environment_fork : Capability
  workspace_inheritance : Capability

-- `CAPABILITY_MESSAGES`
unfoldable pub capability_message : Capability → String
capability_message Capability.configuration =
    "The selected harness does not support this configuration"
capability_message Capability.subagents = "The selected harness does not support subagents"
capability_message Capability.mcp = "The selected harness does not support MCP servers"
capability_message Capability.web_search =
    "The selected harness or model alias does not support web search"
capability_message Capability.tool_search =
    "The selected harness does not support deferred tool loading"
capability_message Capability.programmatic_tool_calling =
    "Programmatic tool calling requires a configured isolated code runner"
capability_message Capability.environment_mcp_credentials =
    "Environment-origin MCP cannot use vault credentials or request metadata"
capability_message Capability.image_input = "The selected harness does not support image input"
capability_message Capability.image_function_results =
    "The selected harness does not support image function results"
capability_message Capability.environment_capabilities =
    "The selected harness does not support environment skills or plugins"
capability_message Capability.configured_environment =
    "Configured environments require an environment driver and object storage"
capability_message Capability.environment_fork =
    "Forking a configured environment requires an environment driver"
capability_message Capability.workspace_inheritance =
    "This environment driver cannot inherit a workspace"

pub data StoppedAction : Type 0 where
  delete : StoppedAction
  fork : StoppedAction

pub data ImageScope : Type 0 where
  request : ImageScope
  turn : ImageScope

-- The failures that cross a call of another object as data.
pub data CrossingFailure : Type 0 where
  record_too_large : ℕ → CrossingFailure
  record_not_found : String → String → CrossingFailure
  invalid_cursor : Option String → CrossingFailure
  session_not_found : CrossingFailure
  invalid_session_state : String → CrossingFailure
  idempotency_conflict : String → Option String → CrossingFailure
  session_failed : CrossingFailure
  turn_checkpointing : CrossingFailure
  turn_active : StoppedAction → CrossingFailure
  steering_unsupported : String → CrossingFailure
  unknown_tool_call : String → CrossingFailure
  executor_version_incompatible : String → String → CrossingFailure
  capability_unsupported : Capability → Option String → CrossingFailure
  image_limit_exceeded : ℕ → ImageScope → CrossingFailure

-- `reason ?? text`
abbrev pub reason_or : Option String → String → String
reason_or none message = message
reason_or (some reason) message = reason

abbrev pub active_message : StoppedAction → String
active_message delete = "Cancel the active turn before deleting the session"
active_message fork = "Wait for the current turn to stop before forking"

abbrev pub image_limit_message : String → ImageScope → String
image_limit_message limit request =
    text_append "At most " (text_append limit " distinct remote images per request")
image_limit_message limit turn =
    text_append "A turn may reference at most " (text_append limit " remote images")

-- `message` of each
unfoldable pub crossing_message : (ℕ → String) → CrossingFailure → String
crossing_message shown (CrossingFailure.record_too_large bytes) =
    "Serialized record exceeds 1,900,000 bytes"
crossing_message shown (CrossingFailure.record_not_found kind id) = text_append kind " not found"
crossing_message shown (CrossingFailure.invalid_cursor reason) =
    reason_or reason "Cursor does not belong to this collection"
crossing_message shown CrossingFailure.session_not_found = "Session not found"
crossing_message shown (CrossingFailure.invalid_session_state reason) = reason
crossing_message shown (CrossingFailure.idempotency_conflict subject reason) =
    reason_or reason (text_append "Key was used with different " subject)
crossing_message shown CrossingFailure.session_failed =
    "Fork or create a new session after an indeterminate execution"
crossing_message shown CrossingFailure.turn_checkpointing =
    "Wait for the current turn to become idle"
crossing_message shown (CrossingFailure.turn_active action) = active_message action
crossing_message shown (CrossingFailure.steering_unsupported harness) =
    "This harness cannot steer an active turn"
crossing_message shown (CrossingFailure.unknown_tool_call call_id) =
    text_append "Unknown pending tool call: " call_id
crossing_message shown (CrossingFailure.executor_version_incompatible harness revision) =
    "Session requires its original harness revision"
crossing_message shown (CrossingFailure.capability_unsupported capability harness) =
    capability_message capability
crossing_message shown (CrossingFailure.image_limit_exceeded limit scope) =
    image_limit_message (shown limit) scope

-- Their rows of `WIRE`, with a message.
unfoldable pub crossing_wire : String → CrossingFailure → ApiError
crossing_wire m (CrossingFailure.record_too_large bytes) =
    answer status_413 "storage_record_too_large" m
crossing_wire m (CrossingFailure.record_not_found kind id) = answer status_404 "not_found" m
crossing_wire m (CrossingFailure.invalid_cursor reason) = answer status_400 "invalid_cursor" m
crossing_wire m CrossingFailure.session_not_found = answer status_404 "not_found" m
crossing_wire m (CrossingFailure.invalid_session_state reason) =
    answer status_409 "invalid_session_state" m
crossing_wire m (CrossingFailure.idempotency_conflict subject reason) =
    answer status_409 "idempotency_conflict" m
crossing_wire m CrossingFailure.session_failed = answer status_409 "session_failed" m
crossing_wire m CrossingFailure.turn_checkpointing = answer status_409 "turn_checkpointing" m
crossing_wire m (CrossingFailure.turn_active action) = answer status_409 "active_turn" m
crossing_wire m (CrossingFailure.steering_unsupported harness) =
    answer status_409 "active_turn_not_steerable" m
crossing_wire m (CrossingFailure.unknown_tool_call call_id) =
    answer status_400 "invalid_request_error" m
crossing_wire m (CrossingFailure.executor_version_incompatible harness revision) =
    answer status_503 "executor_version_incompatible" m
crossing_wire m (CrossingFailure.capability_unsupported capability harness) =
    answer status_422 "unsupported_capability" m
crossing_wire m (CrossingFailure.image_limit_exceeded limit scope) =
    answer status_413 "image_limit" m

-- `InvalidRuntimeEvent.code`
pub data EventCode : Type 0 where
  invalid_runtime_event : EventCode
  invalid_runtime_cursor : EventCode

abbrev pub event_code : EventCode → String
event_code EventCode.invalid_runtime_event = "invalid_runtime_event"
event_code EventCode.invalid_runtime_cursor = "invalid_runtime_cursor"

-- The answers of a runtime.
pub data RuntimeFailure : Type 0 where
  invalid_event : EventCode → String → RuntimeFailure
  command_rejected : String → String → RuntimeFailure
  execution_missing : String → RuntimeFailure
  runtime_rejected : Status → String → String → RuntimeFailure
  checkpoint_incompatible : String → RuntimeFailure

-- `wire` of each, with its message.
unfoldable pub runtime_wire : RuntimeFailure → ApiError
runtime_wire (RuntimeFailure.invalid_event code m) = answer status_409 (event_code code) m
runtime_wire (RuntimeFailure.command_rejected code m) = answer status_409 code m
runtime_wire (RuntimeFailure.execution_missing m) = answer status_404 "execution_missing" m
runtime_wire (RuntimeFailure.runtime_rejected status code m) = answer status code m
runtime_wire (RuntimeFailure.checkpoint_incompatible m) = answer status_409 "invalid_checkpoint" m

-- The failures that are no definite answer: `StorageFailure` and `TransportFailure`.
pub data Unanswered : Type 0 where
  storage_failure : String → Unanswered
  transport_failure : String → Unanswered

unfoldable pub unanswered_wire : Unanswered → ApiError
unanswered_wire (storage_failure operation) =
    answer status_500 "internal_error" (text_append operation " failed")
unanswered_wire (transport_failure operation) =
    answer status_500 "internal_error" (text_append operation " failed")

-- `name` of each, which is its tag.
unfoldable pub unanswered_name : Unanswered → String
unanswered_name (storage_failure operation) = "StorageFailure"
unanswered_name (transport_failure operation) = "TransportFailure"
