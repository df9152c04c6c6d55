-- ===== src/Tests/Errors.antt =====
-- The failures of the service at concrete inputs.
use cf_open_agents_api.Prelude.{ℕ, ◌≡◌, refl, String, true, none, some}
use cf_open_agents_api.Errors.Api.{status_404, status_503, answer, remote_api_error, is_code}
use cf_open_agents_api.Errors.Crossing.{
  CrossingFailure, RuntimeFailure, runtime_wire, storage_failure, transport_failure,
}
use cf_open_agents_api.Errors.Domain.{DomainError, crossing, runtime, unanswered, to_api_error}
use cf_open_agents_api.Errors.Boundary.{
  domain, api, failure, error, syntax_error, shaped, caught_failure, rejection, rejected, refused,
  over_rpc, error_response,
}
use cf_open_agents_api.Errors.Hops.{failure_recovered, unanswered_stays}
use cf_open_agents_api.Errors.Permanent.{hop_answered_alike}

abbrev shown : ℕ → String
shown n = "7"

abbrev rejects : DomainError
rejects = runtime (RuntimeFailure.runtime_rejected status_503 "sandbox_error" "No container")

failure_recovered_example :
    (caught_failure (error (over_rpc shown rejects)) ≡ some (api (to_api_error shown rejects)))
    × (rejection shown (error (over_rpc shown rejects)) ≡ some (to_api_error shown rejects))
    × (rejected shown "runtime.start" (error (over_rpc shown rejects)) ≡ rejects)
unfolding runtime_wire to_api_error is_code
failure_recovered_example = failure_recovered shown "runtime.start" rejects (refl, refl)

unanswered_stays_example :
    let seen = error (over_rpc shown (unanswered (storage_failure "session.tx"))) in
    (caught_failure seen ≡ none)
    × (rejected shown "runtime.start" seen ≡ unanswered (transport_failure "runtime.start"))
    × (refused shown seen ≡ unanswered (transport_failure "runtime.control"))
unanswered_stays_example = unanswered_stays shown "runtime.start" (storage_failure "session.tx")

abbrev closed_session : DomainError
closed_session = crossing CrossingFailure.session_failed

hop_answered_alike_example :
    error_response shown (error (over_rpc shown closed_session))
    ≡ error_response shown (failure (domain closed_session))
hop_answered_alike_example = hop_answered_alike shown closed_session tt tt

-- A conflict of a session that closed_session tells the client not to retry.
session_failed_is_final : (error_response shown (failure (domain closed_session))).no_retry ≡ true
unfolding error_response caught_failure cf_open_agents_api.Errors.Boundary.is_permanent
    cf_open_agents_api.Errors.Domain.has_permanent_tag
    cf_open_agents_api.Errors.Domain.permanent_crossing
session_failed_is_final = refl

-- A status that is not of the closed set names no failure.
unknown_status :
    remote_api_error (record { name = "AgentApiError:418:teapot"; message = "" }) ≡ none
unfolding remote_api_error cf_open_agents_api.Errors.Api.after_prefix
    cf_open_agents_api.Errors.Api.status_of
unknown_status = refl

-- A command for a job that is gone is no rejection of the command.
gone :
    refused shown (shaped status_404 "execution_missing" none)
    ≡ runtime (RuntimeFailure.execution_missing "execution_missing")
unfolding refused rejection caught_failure
gone = refl
