-- ===== src/Errors/Gateway.antt =====
-- packages/agent-api/src/errors.ts: the definite failures of the model gateway, of programmatic
-- tool calling and of the validation of what arrives on the wire.
use cf_open_agents_api.Prelude.{String}
use cf_open_agents_api.Errors.Api.{
  ApiError, answer, status_400, status_401, status_404, status_413, status_422, status_503,
}

-- The failures of the model gateway.
pub data GatewayFailure : Type 0 where
  model_not_found : String → GatewayFailure
  model_protocol_mismatch : String → GatewayFailure
  model_input_missing : GatewayFailure
  model_input_too_large : GatewayFailure
  model_input_unsupported : GatewayFailure
  model_output_failed : GatewayFailure
  model_upstream_rejected : GatewayFailure

-- Their rows of `DEFINITE`.
unfoldable pub gateway_row : GatewayFailure → ApiError
gateway_row (GatewayFailure.model_not_found model) =
    answer status_404 "model_not_found" "No model is registered with this name"
gateway_row (GatewayFailure.model_protocol_mismatch protocol) =
    answer status_400 "model_protocol_mismatch"
      "Model preset does not support this harness protocol"
gateway_row GatewayFailure.model_input_missing =
    answer status_400 "missing_model_input" "Model input is required"
gateway_row GatewayFailure.model_input_too_large =
    answer status_413 "model_input_too_large" "Model input exceeds 4 MiB"
gateway_row GatewayFailure.model_input_unsupported =
    answer status_400 "unsupported_model_input"
      "Unsupported translated model input; use a native model preset for provider-specific content"
gateway_row GatewayFailure.model_output_failed =
    answer status_503 "model_output_failed" "Upstream model output failed or was incomplete"
gateway_row GatewayFailure.model_upstream_rejected =
    answer status_503 "model_upstream_rejected" "Upstream model rejected the request"

-- The failures of programmatic tool calling.
pub data ProgramFailure : Type 0 where
  programmatic_execution_failed : String → ProgramFailure
  programmatic_outcome_uncertain : String → ProgramFailure
  programmatic_input_too_large : ProgramFailure

-- Their rows of `DEFINITE`.
unfoldable pub program_row : ProgramFailure → ApiError
program_row (ProgramFailure.programmatic_execution_failed reason) =
    answer status_422 "programmatic_execution_failed" reason
program_row (ProgramFailure.programmatic_outcome_uncertain reason) =
    answer status_422 "programmatic_execution_uncertain" reason
program_row ProgramFailure.programmatic_input_too_large =
    answer status_413 "programmatic_input_too_large" "Code and arguments exceed 256 KB"

-- The failures of the validation of what arrives on the wire.
pub data RequestFailure : Type 0 where
  invalid_request : String → RequestFailure
  invalid_json : RequestFailure
  invalid_tenant : RequestFailure
  unauthorized : RequestFailure
  body_too_large : RequestFailure

-- Their rows of `DEFINITE`.
unfoldable pub request_row : RequestFailure → ApiError
request_row (RequestFailure.invalid_request issues) = answer status_400 "invalid_request" issues
request_row RequestFailure.invalid_json =
    answer status_400 "invalid_json" "Request body must be valid JSON"
request_row RequestFailure.invalid_tenant =
    answer status_400 "invalid_tenant" "Tenant must be nonempty and at most 256 characters"
request_row RequestFailure.unauthorized = answer status_401 "unauthorized" "Authentication required"
request_row RequestFailure.body_too_large =
    answer status_413 "body_too_large" "Request exceeds its upload limit"
