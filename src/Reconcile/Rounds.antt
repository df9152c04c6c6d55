-- ===== src/Reconcile/Rounds.antt =====
-- session-reconcile.ts, from `round` on: a round of commands and a poll, the turn, and the tick.
use Prim.Native.String.{◌++◌ as text_append}
use cf_open_agents_api.Prelude.{
  ℕ, zero, suc, ◌+◌, ◌-◌, min, String, Bool, true, false, not, ◌&&◌, Option, none, some, List, [],
  ◌∷◌, any, Result, ok, err, if◌then◌else◌, ltb, ◌==◌, string_eq,
}
use cf_open_agents_api.Errors.Crossing.{CrossingFailure, RuntimeFailure}
use cf_open_agents_api.Errors.Domain.{DefiniteError, DomainError, definite, crossing, runtime}
use cf_open_agents_api.Errors.Session.{PersistenceFailure}
use cf_open_agents_api.Stream.Rows.{StreamError}
use cf_open_agents_api.Turns.State.{
  TurnPhase, TurnExecution, TurnCommand, TurnRecord, Live, BatchStatus, RuntimeBatch,
}
use cf_open_agents_api.Turns.Batch.{BatchAnswer, commands, now_in, accept_batch}
use cf_open_agents_api.Turns.Queue.{mark_running}
use cf_open_agents_api.Turns.Children.{Ending}
use cf_open_agents_api.Reconcile.Tick.{
  Tick, pure, fail, ◌>>=◌, ◌>>◌, catch_tags, current_time, domain_of, PromiseDriver, driver_start,
  driver_poll, read_fenced, fenced, SessionRow, row_there, row_absent, row_faulty,
}
use cf_open_agents_api.Reconcile.Steps.{
  Deployment, TickOf, long_poll_margin_ms, poll_wait, expired, finish, bounded_stop, stop_and_fail,
  complete_fenced, pending_commands, Delivery, retry, deliver, Handling, seals, passes, seal_with,
  checkpoint_turn,
}

-- What a round answers.
pub data Outcome : Type 0 where
  again : Outcome
  done : Outcome

abbrev is_commands : BatchAnswer → Bool
is_commands commands = true
is_commands (now_in phase) = false

abbrev is_running : BatchStatus → Bool
is_running BatchStatus.running = true
is_running _ = false

abbrev error_or : Option String → String → String
error_or none code = code
error_or (some error) code = error

abbrev as_accepted :
    Result StreamError (BatchAnswer × Live) → Result DomainError (BatchAnswer × Live)
as_accepted (ok r) = ok r
as_accepted (err e) = err (domain_of e)

abbrev as_running : Result StreamError Live → Result DomainError (Unit {0} × Live)
as_running (ok live) = ok (tt, live)
as_running (err e) = err (domain_of e)

-- The failures of a turn that seal it.
unfoldable pub turn_handling : DomainError → Handling
turn_handling (runtime (RuntimeFailure.runtime_rejected status code m)) = seals
turn_handling (runtime (RuntimeFailure.invalid_event code m)) = seals
turn_handling (crossing (CrossingFailure.record_too_large bytes)) = seals
turn_handling (crossing (CrossingFailure.invalid_session_state reason)) = seals
turn_handling _ = passes

abbrev pub is_superseded : DomainError → Bool
is_superseded
      (definite (DefiniteError.persistence (PersistenceFailure.superseded turn_id generation))) =
    true
is_superseded _ = false

-- `driver.longPoll ? LONG_POLL_ROUNDS_PER_TICK : ROUNDS_PER_TICK`
abbrev pub repeats : Bool → ℕ
repeats true = 1000
repeats false = 16

module _ (host : Deployment) (tick : TickOf) where
  abbrev pub on_retry : Delivery → Tick Bool → Tick Bool
  on_retry retry rest = pure true
  on_retry _ rest = rest

  -- The loop over the commands: whether a delivery is to be retried.
  unfoldable pub deliver_all : List TurnCommand → Option TurnCommand → Tick Bool
  deliver_all [] cancel = pure false
  deliver_all (operation ∷ operations) cancel = read_fenced tick.execution >>= λ _.
      (deliver host tick operation cancel >>= λ (delivery : Delivery).
      on_retry delivery (deliver_all operations cancel))

  abbrev pub time_left : ℕ → Tick Outcome
  time_left now = pure (
      if ltb now (min tick.budget_end tick.execution.deadline - long_poll_margin_ms)
      then again
      else done)

  abbrev pub after_news : Bool → Tick Outcome
  after_news true = current_time >>= time_left
  after_news false = pure done

  -- After a batch that ends nothing.
  abbrev pub continued : BatchAnswer → TurnRecord → ℕ → RuntimeBatch → Bool → Tick Outcome
  continued phase before wait_ms batch retry_delivery =
      let advanced = any (λ entry. ltb before.cursor entry.seq) batch.events in
      if is_commands phase && not retry_delivery
      then pure again
      else after_news (ltb 0 wait_ms && advanced && is_running batch.status)

  abbrev pub by_status :
      BatchStatus → BatchAnswer → TurnRecord → ℕ → RuntimeBatch → Bool → Tick Outcome
  by_status BatchStatus.failed phase before wait_ms batch retry_delivery =
      stop_and_fail host tick (error_or batch.error "executor_failed") >> pure done
  by_status BatchStatus.missing phase before wait_ms batch retry_delivery =
      stop_and_fail host tick "outcome_unknown" >> pure done
  by_status BatchStatus.cancelled phase before wait_ms batch retry_delivery =
      (bounded_stop host tick >>= λ _. finish host tick Ending.cancelled none) >> pure done
  by_status _ phase before wait_ms batch retry_delivery =
      continued phase before wait_ms batch retry_delivery

  abbrev pub by_phase : BatchAnswer → TurnRecord → ℕ → RuntimeBatch → Bool → Tick Outcome
  by_phase (now_in TurnPhase.checkpointing) before wait_ms batch retry_delivery =
      checkpoint_turn host tick >> pure done
  by_phase phase before wait_ms batch retry_delivery =
      by_status batch.status phase before wait_ms batch retry_delivery

  abbrev pub accepted : RuntimeBatch → Option TurnCommand → Tick BatchAnswer
  accepted batch cancel = fenced tick.execution λ w.
      as_accepted
        (accept_batch (λ seq. w.now) (host.identifier w) tick.execution.turn_id batch cancel w.live)

  -- From the poll on.
  unfoldable pub polled : Option TurnCommand → Bool → TurnRecord → ℕ → Tick Outcome
  polled cancel retry_delivery before now =
      let wait_ms = poll_wait tick before now in
      driver_poll host.shown tick.driver before.cursor wait_ms >>= λ (batch : RuntimeBatch).
      (accepted batch cancel >>= λ (phase : BatchAnswer).
      by_phase phase before wait_ms batch retry_delivery)

  abbrev pub delivered_round : Option TurnCommand × List TurnCommand → Tick Outcome
  delivered_round (cancel, operations) =
      deliver_all operations cancel >>= λ (retry_delivery : Bool).
      (read_fenced tick.execution >>= λ (before : TurnRecord).
      (current_time >>= polled cancel retry_delivery before))

  abbrev pub timely_round : Bool → Tick Outcome
  timely_round true = stop_and_fail host tick "request_timeout" >> pure done
  timely_round false = pending_commands host tick >>= delivered_round

  -- `round(tick)`
  unfoldable pub round : Tick Outcome
  round = read_fenced tick.execution >>= λ _. (expired tick.execution >>= timely_round)

  abbrev pub while_again : Tick (Unit {0}) → Outcome → Tick (Unit {0})
  while_again rest again = rest
  while_again rest done = pure tt

  -- `Effect.repeat({ while, times })`: the effect once, and at most so often again.
  unfoldable pub repeat_round : ℕ → Tick (Unit {0})
  repeat_round zero = round >>= while_again (pure tt)
  repeat_round (suc times) = round >>= while_again (repeat_round times)

  abbrev pub mark : Tick (Unit {0})
  mark =
      fenced tick.execution
        λ w. as_running (mark_running (host.outside w).now tick.execution w.live)

  abbrev pub started : TurnPhase → Tick (Unit {0})
  started TurnPhase.starting =
      driver_start host.shown tick.driver (text_append tick.execution.turn_id ":start") >> mark
  started _ = pure tt

  abbrev pub timely_turn : TurnPhase → Bool → Tick (Unit {0})
  timely_turn phase true = stop_and_fail host tick "request_timeout"
  timely_turn phase false = started phase >> repeat_round (repeats tick.driver.long_poll)

  abbrev pub turn_in : TurnPhase → Tick (Unit {0})
  turn_in TurnPhase.checkpointing = checkpoint_turn host tick
  turn_in phase = expired tick.execution >>= timely_turn phase

  -- `reconcileTurn(tick, initial)`
  unfoldable pub reconcile_turn : TurnRecord → Tick (Unit {0})
  reconcile_turn initial =
      if tick.driver.revision == initial.revision
      then turn_in initial.phase
      else stop_and_fail host tick "executor_version_incompatible"

  abbrev pub turn_failed : DomainError → Handling → Tick (Unit {0})
  turn_failed e seals = seal_with host tick e
  turn_failed e _ = fail e

  unfoldable pub sealing_turn : TurnRecord → Tick (Unit {0})
  sealing_turn initial = catch_tags (reconcile_turn initial) λ e. turn_failed e (turn_handling e)

abbrev pub silenced : DomainError → Bool → Tick (Unit {0})
silenced e true = pure tt
silenced e false = fail e

module _ (host : Deployment) where
  abbrev pub with_driver : TurnRecord → TurnExecution → ℕ → Option PromiseDriver → Tick (Unit {0})
  with_driver initial execution began none =
      complete_fenced host execution Ending.failed (some "executor_unavailable")
  with_driver initial execution began (some driver) =
      sealing_turn host
        (record {
          driver = driver;
          execution = execution;
          budget_end = began + host.poll_interval_ms;
        })
        initial

  -- `alarm.arm(delay)`
  abbrev pub arm : ℕ → Tick (Unit {0})
  arm delay w = (ok tt, record w { armed = some (w.now + delay) })

  abbrev pub unless_deleted : TurnRecord → TurnExecution → Bool → Tick (Unit {0})
  unless_deleted initial execution true = pure tt
  unless_deleted initial execution false = current_time >>= λ (began : ℕ).
      (arm host.poll_interval_ms
        >> with_driver initial execution began (host.driver_of initial.driver))

  abbrev pub with_execution : TurnRecord → Option TurnExecution → Tick (Unit {0})
  with_execution initial none = pure tt
  with_execution initial (some execution) = unless_deleted initial execution initial.deleted

  abbrev pub found_record : SessionRow → TurnRecord → Result DomainError (Option TurnRecord)
  found_record row_there r = ok (some r)
  found_record row_absent r = ok none
  found_record (row_faulty e) r = err e

  -- `repo.read((tx) => tx.session())`
  abbrev pub read_record : Tick (Option TurnRecord)
  read_record w = (found_record w.session_row w.live.stored, w)

  abbrev pub with_record : Option TurnRecord → Tick (Unit {0})
  with_record none = pure tt
  with_record (some initial) = with_execution initial initial.execution

  -- `reconcileTick()`
  unfoldable pub reconcile_tick : Tick (Unit {0})
  reconcile_tick =
      catch_tags (read_record >>= λ (initial : Option TurnRecord). with_record initial)
        λ e. silenced e (is_superseded e)
