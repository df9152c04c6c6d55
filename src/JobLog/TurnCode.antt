-- ===== src/JobLog/TurnCode.antt =====
-- lifecycle.ts, `statusToTurnCode`: the public code for a provider's HTTP status.
use cf_open_agents_api.Prelude.{
  ℕ, ◌≤◌, ◌<◌, ◌≡◌, ◌⊎◌, ◌↔◌, ◌||◌, Option, none, some, if◌then◌else◌, leb, ◌==◌, nat_eq, arith,
}

-- The codes that the table gives, of `TurnErrorCode`.
pub data TurnErrorCode : Type 0 where
  authentication_error : TurnErrorCode
  resource_not_found : TurnErrorCode
  request_timeout : TurnErrorCode
  rate_limit_exceeded : TurnErrorCode
  server_overloaded : TurnErrorCode
  server_error : TurnErrorCode
  invalid_request : TurnErrorCode

-- `statusToTurnCode(status)` of a status that is not undefined
unfoldable pub turn_code_of : ℕ → Option TurnErrorCode
turn_code_of status =
    if status == 401 || status == 403
    then some authentication_error
    else if status == 404
    then some resource_not_found
    else if status == 408
    then some request_timeout
    else if status == 429
    then some rate_limit_exceeded
    else if status == 503 || status == 529
    then some server_overloaded
    else if leb 500 status
    then some server_error
    else if leb 400 status
    then some invalid_request
    else none

-- `statusToTurnCode(status)`
unfoldable pub status_to_turn_code : Option ℕ → Option TurnErrorCode
unfolding turn_code_of
status_to_turn_code none = none
status_to_turn_code (some status) = turn_code_of status

-- Which statuses get a code: none below 400, and an overload or a server error exactly from 500 on.
pub turn_code_ranges :
    (status : ℕ)
    → ((status_to_turn_code (some status) ≡ none) ↔ (status < 400))
      × (((status_to_turn_code (some status) ≡ some server_overloaded)
            ⊎ (status_to_turn_code (some status) ≡ some server_error))
          ↔ (500 ≤ status))
unfolding status_to_turn_code turn_code_of
turn_code_ranges status =
    ((λ h. ground arith, λ h. ground arith), (λ h. ground arith, λ h. ground arith))
