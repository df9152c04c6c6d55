-- ===== src/JobLog/Log.antt =====
-- lifecycle.ts: `JobState`, and the methods of `JobLog` that change it. The state is the one that
-- the `MutableRef` holds. How many bytes an event encodes to is an argument, since the encoder is
-- the platform's.
use cf_open_agents_api.Prelude.{
  ℕ, ◌+◌, String, Bool, true, false, ◌||◌, List, [], ◌∷◌, ◌++◌, length, if◌then◌else◌, ltb,
}

-- `JobState["outcome"]["status"]`
pub data Status : Type 0 where
  running : Status
  waiting : Status
  completed : Status
  cancelled : Status
  failed : Status

-- `Outcome`
pub data Outcome : Type 0 where
  running : Outcome
  waiting : Outcome
  completed : Outcome
  cancelled : Outcome
  failed : String → Outcome

-- What `setStatus` takes.
pub data Progress : Type 0 where
  running : Progress
  waiting : Progress
  completed : Progress
  cancelled : Progress

-- `RuntimeBatch["events"][number]`
pub record Logged (E : Type 0) : Type 0 where
  pub seq : ℕ
  pub event : E

-- `JobState`
pub record JobState (E : Type 0) : Type 0 where
  pub outcome : Outcome
  pub cancelling : Bool
  pub closing : Bool
  pub events : List (Logged E)
  pub bytes : ℕ

-- The state of a new `JobLog`.
abbrev pub new_log : {E : Type 0} → JobState E
new_log = record {
  outcome = Outcome.running;
  cancelling = false;
  closing = false;
  events = [];
  bytes = 0;
}

-- `EVENT_LOG_LIMIT`
abbrev pub event_log_limit : ℕ
event_log_limit = 8000000

abbrev pub status_of : Outcome → Status
status_of running = Status.running
status_of waiting = Status.waiting
status_of completed = Status.completed
status_of cancelled = Status.cancelled
status_of (failed e) = Status.failed

-- `terminal(status)`
abbrev pub terminal : Status → Bool
terminal running = false
terminal waiting = false
terminal completed = true
terminal cancelled = true
terminal failed = true

-- `settled(outcome)`
abbrev pub settled : Outcome → Bool
settled outcome = terminal (status_of outcome)

abbrev pub outcome_of : Progress → Outcome
outcome_of running = Outcome.running
outcome_of waiting = Outcome.waiting
outcome_of completed = Outcome.completed
outcome_of cancelled = Outcome.cancelled

-- `status === "completed" || status === "cancelled"`
abbrev pub ends : Progress → Bool
ends running = false
ends waiting = false
ends completed = true
ends cancelled = true

module _ {E : Type 0} where
  -- `setStatus(status)`
  unfoldable pub set_status : Progress → JobState E → JobState E
  set_status status s =
      if settled s.outcome || s.closing
      then s
      else if s.cancelling
      then if ends status then record s { outcome = Outcome.cancelled } else s
      else record s { outcome = outcome_of status }

  -- `requestCancel()`
  unfoldable pub request_cancel : JobState E → JobState E
  request_cancel s = if settled s.outcome || s.closing then s else record s { cancelling = true }

  -- `fail(error)`
  unfoldable pub fail : String → JobState E → JobState E
  fail error s =
      if settled s.outcome || s.closing then s else record s { outcome = Outcome.failed error }

  -- `close()`
  unfoldable pub close : JobState E → JobState E
  close s = if s.closing then s else record s {
    closing = true;
    outcome = if settled s.outcome then s.outcome else Outcome.cancelled;
  }

  -- `emit(event)`: whether the event was retained, and the state.
  unfoldable pub emit : (E → ℕ) → E → JobState E → Bool × JobState E
  emit encoded event s =
      if settled s.outcome || s.closing
      then (false, s)
      else if ltb event_log_limit (s.bytes + encoded event)
      then (false, record s { outcome = Outcome.failed "native_output_limit" })
      else (
        true,
        record s {
          bytes = s.bytes + encoded event;
          events = s.events ++ record { seq = length s.events + 1; event = event } ∷ [];
        },
      )

-- A call of one of them.
pub data Call (E : Type 0) : Type 0 where
  sets : Progress → Call E
  requests_cancel : Call E
  fails : String → Call E
  closes : Call E
  emits : E → Call E

unfoldable pub call : {E : Type 0} → (E → ℕ) → Call E → JobState E → JobState E
call encoded (sets status) s = set_status status s
call encoded requests_cancel s = request_cancel s
call encoded (fails error) s = fail error s
call encoded closes s = close s
call encoded (emits event) s = (emit encoded event s).1

unfoldable pub calls : {E : Type 0} → (E → ℕ) → List (Call E) → JobState E → JobState E
calls encoded [] s = s
calls encoded (c ∷ cs) s = calls encoded cs (call encoded c s)
