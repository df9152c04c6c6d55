-- ===== src/Errors/Hops.antt =====
-- packages/agent-api/src/errors.ts: what the caller of another object learns of a failure.
use cf_open_agents_api.Prelude.{
  ℕ, ◌≡◌, refl, String, none, some, string_eq, Result, ok, err, ◌⊎◌, arith,
}
use cf_open_agents_api.Errors.Api.{ApiError, remote_api_error, after_prefix}
use cf_open_agents_api.Errors.Crossing.{
  CrossingFailure, crossing_message, RuntimeFailure, runtime_wire, Unanswered, storage_failure,
  transport_failure, unanswered_name,
}
use cf_open_agents_api.Errors.Domain.{
  DomainError, definite, crossing, runtime, unanswered, to_api_error,
}
use cf_open_agents_api.Errors.Boundary.{
  encode_rpc, decode_rpc, enveloped, Failure, domain, api, error, caught_failure, projected,
  rejection, rejected, refused, over_rpc,
}
use cf_open_agents_api.Errors.Names.{IsCarried, name_read, row-IsCarried, crossing-IsCarried}

-- A definite failure whose code a name carries: all of the table and all that cross as data; of the
-- runtime's own answers, those with such a code.
abbrev pub Named : DomainError → Type 0
Named (definite e) = Unit
Named (crossing e) = Unit
Named (runtime e) = IsCarried (runtime_wire e).code
Named (unanswered e) = ⊥

module _ (shown : ℕ → String) where
  Named-IsCarried : (e : DomainError) → Named e → IsCarried (to_api_error shown e).code
  unfolding to_api_error
  Named-IsCarried (definite e) h = row-IsCarried shown e
  Named-IsCarried (crossing e) h = crossing-IsCarried (crossing_message shown e) e
  Named-IsCarried (runtime e) h = h
  Named-IsCarried (unanswered e) h = elim h [ ]

  hop_read :
      (e : DomainError)
      → Named e
      → remote_api_error (over_rpc shown e) ≡ some (to_api_error shown e)
  unfolding over_rpc
  hop_read (unanswered e) h = elim h [ ]
  hop_read (definite e) h =
      name_read (to_api_error shown (definite e)) (Named-IsCarried (definite e) h)
  hop_read (crossing e) h =
      name_read (to_api_error shown (crossing e)) (Named-IsCarried (crossing e) h)
  hop_read (runtime e) h =
      name_read (to_api_error shown (runtime e)) (Named-IsCarried (runtime e) h)

  -- A definite failure that a method of another object throws reaches its caller with the status, the
  -- code and the message of its projection, whether the caller projects it for HTTP or a driver reads
  -- it as a rejection; of the runtime's own answers this is stated for those whose code is made of
  -- the letters a to z and underscores.
  pub failure_recovered :
      (operation : String) (e : DomainError)
      → Named e
      → let told = to_api_error shown e in
        (caught_failure (error (over_rpc shown e)) ≡ some (api told))
        × (rejection shown (error (over_rpc shown e)) ≡ some told)
        × (rejected shown operation (error (over_rpc shown e))
            ≡ runtime (RuntimeFailure.runtime_rejected told.status told.code told.message))
  unfolding caught_failure rejection rejected projected
  failure_recovered operation e h = rw (hop_read e h) (refl, refl, refl)

  unanswered_unread : (e : Unanswered) → remote_api_error (over_rpc shown (unanswered e)) ≡ none
  unfolding over_rpc remote_api_error after_prefix unanswered_name
  unanswered_unread (storage_failure operation) = refl
  unanswered_unread (transport_failure operation) = refl

  -- A failure of storage or of transport is never mistaken for a definite answer behind a call of
  -- another object: its caller projects nothing of it, and a driver that starts, controls or
  -- checkpoints a turn reads it as a transport failure, which is retried.
  pub unanswered_stays :
      (operation : String) (e : Unanswered)
      → let seen = error (over_rpc shown (unanswered e)) in
        (caught_failure seen ≡ none)
        × (rejected shown operation seen ≡ unanswered (transport_failure operation))
        × (refused shown seen ≡ unanswered (transport_failure "runtime.control"))
  unfolding caught_failure rejection rejected refused
  unanswered_stays operation e = rw (unanswered_unread e) (refl, refl, refl)

-- What an object answers in an envelope, its caller reads back: the same value, or the same failure.
pub envelope_kept :
    {A : Type 0} (r : Result Failure A) (x : Result (CrossingFailure ⊎ ApiError) A)
    → encode_rpc r ≡ enveloped x
    → decode_rpc x ≡ r
unfolding encode_rpc decode_rpc
envelope_kept (ok a) x h = ground arith
envelope_kept (err (api e)) x h = ground arith
envelope_kept (err (domain (crossing e))) x h = ground arith
envelope_kept (err (domain (definite e))) x h = absurd (ground arith)
envelope_kept (err (domain (runtime e))) x h = absurd (ground arith)
envelope_kept (err (domain (unanswered e))) x h = absurd (ground arith)
