-- ===== src/Reconcile/Steps.antt =====
-- session-reconcile.ts, from `pollWait` to `checkpoint`: the steps of a tick.
use cf_open_agents_api.Prelude.{
  ℕ, ◌-◌, min, String, Bool, true, false, not, ◌||◌, Option, none, some, List, [], ◌∷◌, take, find,
  lookup, insert, Result, ok, err, if◌then◌else◌, leb, ◌==◌, string_eq,
}
use cf_open_agents_api.Errors.Crossing.{CrossingFailure, RuntimeFailure, Unanswered}
use cf_open_agents_api.Errors.Domain.{DomainError, crossing, runtime, unanswered, to_api_error}
use cf_open_agents_api.Stream.Types.{SessionStatus}
use cf_open_agents_api.Stream.Rows.{StreamError}
use cf_open_agents_api.Turns.State.{
  Checkpointed, TurnExecution, RuntimeCommand, TurnCommand, TurnRecord, Live,
}
use cf_open_agents_api.Turns.Queue.{discard, reject}
use cf_open_agents_api.Turns.Children.{Ending}
use cf_open_agents_api.Turns.Complete.{
  Outside, complete, commit_checkpoint, CheckpointError, checkpoint_incompatible, refused,
}
use cf_open_agents_api.Reconcile.Tick.{
  World, Tick, pure, fail, ◌>>=◌, ◌>>◌, catch_tags, current_time, domain_of, PromiseDriver,
  driver_control, driver_checkpoint, driver_stop, fenced,
}

-- What a tick has from the deployment: the text of a number, what `complete` takes from outside, the
-- identifier that the event of a number gets for a prefix, and the registered drivers with the interval of their polls.
pub record Deployment : Type 0 where
  pub shown : ℕ → String
  pub outside : World → Outside
  pub identifier : World → ℕ → String → String
  pub poll_interval_ms : ℕ
  pub driver_of : String → Option PromiseDriver

-- `Tick`
pub record TickOf : Type 0 where
  pub driver : PromiseDriver
  pub execution : TurnExecution
  pub budget_end : ℕ

abbrev pub long_poll_margin_ms : ℕ
long_poll_margin_ms = 500

abbrev pub long_poll_max_ms : ℕ
long_poll_max_ms = 25000

abbrev is_requires_action : SessionStatus → Bool
is_requires_action SessionStatus.requires_action = true
is_requires_action _ = false

-- `pollWait(tick, record, now)`. The difference stops at 0, and `Math.max(0, …)` makes the same of a
-- negative one.
unfoldable pub poll_wait : TickOf → TurnRecord → ℕ → ℕ
poll_wait tick r now =
    if not tick.driver.long_poll || is_requires_action r.session.status
    then 0
    else min (min tick.budget_end tick.execution.deadline - now - long_poll_margin_ms)
        long_poll_max_ms

-- `expired(execution)`
unfoldable pub expired : TurnExecution → Tick Bool
expired execution = current_time >>= λ now. pure (leb execution.deadline now)

abbrev pub as_domain : Result StreamError Live → Result DomainError (Unit {0} × Live)
as_domain (ok live) = ok (tt, live)
as_domain (err e) = err (domain_of e)

abbrev as_committed : Result CheckpointError Live → Result DomainError (Unit {0} × Live)
as_committed (ok live) = ok (tt, live)
as_committed (err (refused e)) = err (domain_of e)
as_committed (err checkpoint_incompatible) = err (
    runtime
      (RuntimeFailure.checkpoint_incompatible "Checkpoint has an incompatible harness revision"))

-- Whether a stop is confirmed.
pub data Stop : Type 0 where
  stopped : Stop
  unknown : Stop

-- What a handler does with a failure.
pub data Handling : Type 0 where
  seals : Handling
  waits : Handling
  passes : Handling

-- The tags that a failed checkpoint is sealed with, and those that it waits for.
unfoldable pub checkpoint_handling : DomainError → Handling
checkpoint_handling (runtime (RuntimeFailure.runtime_rejected status code m)) = seals
checkpoint_handling (runtime (RuntimeFailure.checkpoint_incompatible m)) = seals
checkpoint_handling (crossing (CrossingFailure.record_too_large bytes)) = seals
checkpoint_handling (crossing (CrossingFailure.record_not_found kind id)) = seals
checkpoint_handling (crossing (CrossingFailure.invalid_session_state reason)) = seals
checkpoint_handling (unanswered e) = waits
checkpoint_handling _ = passes

-- How the delivery of a command failed: it is refused, or its outcome is unknown.
unfoldable pub delivery_handling : DomainError → Handling
delivery_handling (runtime (RuntimeFailure.command_rejected code m)) = seals
delivery_handling (runtime (RuntimeFailure.execution_missing m)) = seals
delivery_handling (unanswered (Unanswered.transport_failure operation)) = waits
delivery_handling _ = passes

unfoldable pub stop_handling : DomainError → Handling
stop_handling (unanswered (Unanswered.transport_failure operation)) = waits
stop_handling _ = passes

pub data Delivery : Type 0 where
  delivered : Delivery
  skipped : Delivery
  retry : Delivery

abbrev is_cancel : TurnCommand → Bool
is_cancel operation = elim operation.command [ RuntimeCommand.cancel ↦ true | _ ↦ false ]

abbrev cancel_of : Option TurnCommand → Option TurnCommand → Option TurnCommand
cancel_of none legacy = legacy
cancel_of (some c) legacy = some c

abbrev commands_of : Option TurnCommand → List TurnCommand → List TurnCommand
commands_of none queued = queued
commands_of (some c) queued = c ∷ []

abbrev values : List (String × TurnCommand) → List TurnCommand
values [] = []
values ((id, c) ∷ rows) = c ∷ values rows

-- `complete(tx, config, tx.fenced(execution), status, error)`, in one transaction
unfoldable pub complete_fenced :
    Deployment → TurnExecution → Ending → Option String → Tick (Unit {0})
complete_fenced host execution ending error =
    fenced execution λ w. as_domain (complete (host.outside w) execution ending error w.live)

module _ (host : Deployment) (tick : TickOf) where
  -- `finish(tick, status, error)`
  unfoldable pub finish : Ending → Option String → Tick (Unit {0})
  finish ending error = complete_fenced host tick.execution ending error

  abbrev pub unconfirmed : DomainError → Bool → Tick Stop
  unconfirmed e true = pure unknown
  unconfirmed e false = fail e

  abbrev pub stop_failed : DomainError → Handling → Tick Stop
  stop_failed e waits = expired tick.execution >>= unconfirmed e
  stop_failed e _ = fail e

  -- `boundedStop(tick)`
  unfoldable pub bounded_stop : Tick Stop
  bounded_stop =
      catch_tags (driver_stop host.shown tick.driver >> pure stopped)
        λ e. stop_failed e (stop_handling e)

  abbrev pub code_after : String → Stop → String
  code_after code stopped = code
  code_after code unknown = "outcome_unknown"

  -- `stopAndFail(tick, code)`
  unfoldable pub stop_and_fail : String → Tick (Unit {0})
  stop_and_fail code = bounded_stop >>= λ stop. finish Ending.failed (some (code_after code stop))

  abbrev pub stored_cancel : Option TurnCommand → Option TurnCommand → Tick (Unit {0})
  stored_cancel none (some legacy) = fenced tick.execution λ w. ok (
    tt,
    record w.live { cancellations = insert tick.execution.turn_id legacy w.live.cancellations },
  )
  stored_cancel cancellation legacy = pure tt

  abbrev pub read_live : Tick Live
  read_live w = (ok w.live, w)

  -- `pendingCommands(tick)`: the cancellation, if there is one, and the commands to deliver.
  unfoldable pub pending_commands : Tick (Option TurnCommand × List TurnCommand)
  pending_commands = read_live >>= λ (live : Live).
      let cancellation = lookup tick.execution.turn_id live.cancellations in
      let queued = values (take 100 live.commands) in
      let cancel = cancel_of cancellation (find is_cancel queued) in
      (stored_cancel cancellation cancel >> pure (cancel, commands_of cancel queued))

  abbrev pub removed : (TurnCommand → Live → Live) → TurnCommand → Tick (Unit {0})
  removed change operation = fenced tick.execution λ w. ok (tt, change operation w.live)

  abbrev pub refused_command : TurnCommand → Option TurnCommand → Tick Delivery
  refused_command operation (some cancel) = pure skipped
  refused_command operation none = removed reject operation >> pure skipped

  abbrev pub unknown_delivery : TurnCommand → Option TurnCommand → Tick Delivery
  unknown_delivery operation (some cancel) = refused_command operation (some cancel)
  unknown_delivery operation none = pure retry

  abbrev pub delivery_failed :
      TurnCommand → Option TurnCommand → DomainError → Handling → Tick Delivery
  delivery_failed operation cancel e seals = refused_command operation cancel
  delivery_failed operation cancel e waits = unknown_delivery operation cancel
  delivery_failed operation cancel e passes = fail e

  abbrev pub after_delivery : TurnCommand → Option TurnCommand → Delivery → Tick Delivery
  after_delivery operation none delivered = removed discard operation >> pure delivered
  after_delivery operation cancel delivery = pure delivery

  abbrev pub not_ours : TurnCommand → Option TurnCommand → Tick Delivery
  not_ours operation none = removed discard operation >> pure skipped
  not_ours operation (some cancel) = pure skipped

  abbrev pub ours : TurnCommand → Option TurnCommand → Tick Delivery
  ours operation cancel =
      catch_tags
        (driver_control host.shown tick.driver operation.id operation.command >> pure delivered)
        (λ e. delivery_failed operation cancel e (delivery_handling e))
      >>= after_delivery operation cancel

  -- `deliver(tick, operation, cancel)`
  unfoldable pub deliver : TurnCommand → Option TurnCommand → Tick Delivery
  deliver operation cancel =
      if operation.turn_id == tick.execution.turn_id
      then ours operation cancel
      else not_ours operation cancel

  -- `sealWith(tick)`
  unfoldable pub seal_with : DomainError → Tick (Unit {0})
  seal_with e = stop_and_fail (to_api_error host.shown e).code

  abbrev pub unavailable : DomainError → Bool → Tick (Unit {0})
  unavailable e true = stop_and_fail "checkpoint_unavailable"
  unavailable e false = fail e

  abbrev pub checkpoint_failed : DomainError → Handling → Tick (Unit {0})
  checkpoint_failed e seals = seal_with e
  checkpoint_failed e waits = expired tick.execution >>= unavailable e
  checkpoint_failed e passes = fail e

  abbrev pub commit : Checkpointed → Tick (Unit {0})
  commit result =
      fenced tick.execution
        λ w. as_committed (commit_checkpoint (host.outside w) tick.execution result w.live)

  -- `checkpoint(tick)`
  unfoldable pub checkpoint_turn : Tick (Unit {0})
  checkpoint_turn =
      catch_tags (driver_checkpoint host.shown tick.driver >>= commit)
        λ e. checkpoint_failed e (checkpoint_handling e)
