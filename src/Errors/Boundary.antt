-- ===== src/Errors/Boundary.antt =====
-- packages/agent-api/src/errors.ts and runtime.ts: what a boundary makes of a thrown value, and the
-- two ways that a failure reaches the caller of another object.
use cf_open_agents_api.Prelude.{
  ℕ, String, Bool, true, false, ◌&&◌, Option, none, some, Result, ok, err, contains, if◌then◌else◌,
  ◌==◌, string_eq, ◌⊎◌, inl, inr,
}
use cf_open_agents_api.Errors.Api.{
  Status, status_401, status_404, status_429, status_500, status_503, ApiError, answer, error_name,
  RemoteError, remote_api_error,
}
use cf_open_agents_api.Errors.Crossing.{
  CrossingFailure, RuntimeFailure, transport_failure, unanswered_name,
}
use cf_open_agents_api.Errors.Gateway.{RequestFailure}
use cf_open_agents_api.Errors.Domain.{
  DefiniteError, DomainError, definite, crossing, runtime, unanswered, to_api_error,
  has_permanent_tag, permanent_codes,
}

-- What `caughtFailure` answers: a failure of the domain, or an `ApiError`.
pub data Failure : Type 0 where
  domain : DomainError → Failure
  api : ApiError → Failure

-- A value that code throws: a failure, any other error, an object that is no error but carries a
-- status, a code and perhaps a message, or anything else; a text that is no JSON is a `SyntaxError`.
pub data Thrown : Type 0 where
  failure : Failure → Thrown
  error : RemoteError → Thrown
  syntax_error : Thrown
  shaped : Status → String → Option String → Thrown
  other : Thrown

abbrev as_api : Option ApiError → Option Failure
as_api none = none
as_api (some e) = some (api e)

-- `caughtFailure(error)`
unfoldable pub caught_failure : Thrown → Option Failure
caught_failure (failure f) = some f
caught_failure (error e) = as_api (remote_api_error e)
caught_failure syntax_error = none
caught_failure (shaped status code message) = none
caught_failure other = none

-- `isPermanent(error)`
unfoldable pub is_permanent : Failure → Bool
is_permanent (api e) = contains permanent_codes e.code
is_permanent (domain e) = has_permanent_tag e

abbrev message_or : String → Option String → String
message_or code none = code
message_or code (some message) = message

-- What `rejection` reads of a value that no boundary knows.
abbrev shape_of : Thrown → Option ApiError
shape_of (shaped status code message) = some (answer status code (message_or code message))
shape_of _ = none

module _ (shown : ℕ → String) where
  -- `toApiError(error)`
  unfoldable pub projected : Failure → ApiError
  projected (domain e) = to_api_error shown e
  projected (api e) = e

  abbrev pub or_shape : Thrown → Option Failure → Option ApiError
  or_shape cause (some f) = some (projected f)
  or_shape cause none = shape_of cause

  -- `rejection(cause)`
  unfoldable pub rejection : Thrown → Option ApiError
  rejection cause = or_shape cause (caught_failure cause)

  abbrev pub rejected_as : String → Option ApiError → DomainError
  rejected_as operation none = unanswered (transport_failure operation)
  rejected_as operation (some e) =
      runtime (RuntimeFailure.runtime_rejected e.status e.code e.message)

  -- `rejected(operation)`, of runtime.ts
  unfoldable pub rejected : String → Thrown → DomainError
  rejected operation cause = rejected_as operation (rejection cause)

  abbrev is_404 : Status → Bool
  is_404 status_404 = true
  is_404 _ = false

  abbrev pub refused_as : Option ApiError → DomainError
  refused_as none = unanswered (transport_failure "runtime.control")
  refused_as (some e) =
      if is_404 e.status && e.code == "execution_missing"
      then runtime (RuntimeFailure.execution_missing e.message)
      else runtime (RuntimeFailure.command_rejected e.code e.message)

  -- `refused`, of runtime.ts
  unfoldable pub refused : Thrown → DomainError
  refused cause = refused_as (rejection cause)

  -- What a call of another object leaves of a failure that its method throws: the name and the
  -- message (`wired`; the failures that are no definite answer keep their tag for a name).
  unfoldable pub over_rpc : DomainError → RemoteError
  over_rpc (unanswered e) = record {
    name = unanswered_name e;
    message = (to_api_error shown (unanswered e)).message;
  }
  over_rpc e = record {
    name = error_name (to_api_error shown e);
    message = (to_api_error shown e).message;
  }

-- `errorType(status)`, of http/app.ts
unfoldable pub error_type : Status → String
error_type status_401 = "authentication_error"
error_type status_429 = "rate_limit_error"
error_type status_500 = "server_error"
error_type status_503 = "server_error"
error_type _ = "invalid_request_error"

-- The answer over HTTP; `no_retry` is the header `x-should-retry: false`.
pub record Response : Type 0 where
  pub status : Status
  pub kind : String
  pub code : String
  pub message : String
  pub no_retry : Bool

abbrev pub respond : ApiError → Bool → Response
respond e no_retry = record {
  status = e.status;
  kind = error_type e.status;
  code = e.code;
  message = e.message;
  no_retry = no_retry;
}

abbrev pub response_of : (ℕ → String) → Option Failure → Response
response_of shown none = respond (answer status_500 "internal_error" "Internal server error") false
response_of shown (some f) = respond (projected shown f) (is_permanent f)

abbrev as_request : Thrown → Option Failure
as_request syntax_error =
    some (domain (definite (DefiniteError.request RequestFailure.invalid_json)))
as_request thrown = caught_failure thrown

-- `app.onError`, of http/app.ts
unfoldable pub error_response : (ℕ → String) → Thrown → Response
error_response shown thrown = response_of shown (as_request thrown)

-- `isRpcFailure(value)`
abbrev pub rpc_failure : Failure → Option (CrossingFailure ⊎ ApiError)
rpc_failure (domain (crossing e)) = some (inl e)
rpc_failure (domain _) = none
rpc_failure (api e) = some (inr e)

-- What the method of an object answers: data in an envelope, or an error that it throws.
pub data Answered {ℓ} (A : Type ℓ) : Type ℓ where
  enveloped : Result (CrossingFailure ⊎ ApiError) A → Answered A
  throws : Failure → Answered A

abbrev enveloped_or {ℓ} : {A : Type ℓ} → Failure → Option (CrossingFailure ⊎ ApiError) → Answered A
enveloped_or f none = throws f
enveloped_or f (some e) = enveloped (err e)

-- `encodeRpc(envelope, effect)`, of what the effect ends with
unfoldable pub encode_rpc {ℓ} : {A : Type ℓ} → Result Failure A → Answered A
encode_rpc (ok a) = enveloped (ok a)
encode_rpc (err f) = enveloped_or f (rpc_failure f)

abbrev decoded_failure : CrossingFailure ⊎ ApiError → Failure
decoded_failure (inl e) = domain (crossing e)
decoded_failure (inr e) = api e

-- `decodeRpc(envelope)`: the caller's effect ends with the value, or with the decoded failure.
unfoldable pub decode_rpc {ℓ} :
    {A : Type ℓ} → Result (CrossingFailure ⊎ ApiError) A → Result Failure A
decode_rpc (ok a) = ok a
decode_rpc (err e) = err (decoded_failure e)
