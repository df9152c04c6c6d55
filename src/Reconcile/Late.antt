-- ===== src/Reconcile/Late.antt =====
-- session-reconcile.ts, `stopAndFail` and `boundedStop`: a turn does not outlive its deadline, whether
-- or not its runtime confirms that it stopped.
use cf_open_agents_api.Prelude.{
  ◌≡◌, refl, ap, ◌∙◌, String, Bool, true, false, Option, some, ◌∷◌, take, Result, ok, err, leb,
  ◌==◌, string_eq, if◌then◌else◌,
}
use cf_open_agents_api.Errors.Domain.{DomainError}
use cf_open_agents_api.Errors.Boundary.{Thrown}
use cf_open_agents_api.Turns.State.{TurnPhase, TurnRecord, Live}
use cf_open_agents_api.Turns.Children.{Ending, is_indeterminate}
use cf_open_agents_api.Turns.Complete.{complete}
use cf_open_agents_api.Turns.Ended.{QueuesEmpty, Opened, Stored, turn_sealed}
use cf_open_agents_api.Reconcile.Tick.{
  Request, World, Tick, pure, ◌>>=◌, ◌>>◌, catch_tags, current_time, bound, call, settled,
  transport, driver_stop, is_current, fenced, admitted, admitted_row, committed, row_there,
}
use cf_open_agents_api.Reconcile.Steps.{
  Deployment, TickOf, expired, complete_fenced, finish, unconfirmed, stop_failed, stop_handling,
  bounded_stop, stop_and_fail, code_after, Stop, stopped, unknown, as_domain,
}
use cf_open_agents_api.Reconcile.Rounds.{timely_turn, turn_in, reconcile_turn}

-- The world when the driver has answered that a turn stopped, or failed to.
abbrev pub after_stop : TickOf → World → World
after_stop tick w =
    let a = tick.driver.stop w in
    record w {
      session_row = a.session_row;
      live = a.live;
      now = a.now;
      asked = record { request = Request.stop; at = w.now } ∷ w.asked;
    }

abbrev pub stop_of : Result Thrown (Unit {0}) → Stop
stop_of (ok u) = stopped
stop_of (err cause) = unknown

-- The code that a late turn fails with, by whether its driver still has the revision that the turn
-- started with, and by the answer to stopping it.
abbrev pub late_code : Bool → Result Thrown (Unit {0}) → String
late_code same (err cause) = "outcome_unknown"
late_code true (ok u) = "request_timeout"
late_code false (ok u) = "executor_version_incompatible"

abbrev pub is_checkpointing : TurnPhase → Bool
is_checkpointing TurnPhase.checkpointing = true
is_checkpointing _ = false

module _ (host : Deployment) (tick : TickOf) where
  answered :
      (answer : Result Thrown (Unit {0})) (v : World)
      → leb tick.execution.deadline v.now ≡ true
      → catch_tags
          ((λ (u : World). (settled (transport "runtime.stop") answer, v)) >> pure stopped)
          (λ e. stop_failed host tick e (stop_handling e))
          v
        ≡ (ok (stop_of answer), v)
  unfolding catch_tags ◌>>=◌ stop_handling expired current_time pure
  answered (ok u) v late = refl
  answered (err cause) v late =
      ap (λ b. unconfirmed host tick (transport "runtime.stop" cause) b v) late

  stop_settled :
      (w : World)
      → leb tick.execution.deadline (tick.driver.stop w).now ≡ true
      → bounded_stop host tick w ≡ (ok (stop_of (tick.driver.stop w).answer), after_stop tick w)
  unfolding bounded_stop catch_tags ◌>>=◌ driver_stop call
  stop_settled w late = answered (tick.driver.stop w).answer (after_stop tick w) late

  -- What `fenced` makes of a record that is there, when the transition succeeds.
  finished :
      (v : World) (ending : Ending) (e : Option String) (ended : Live)
      → v.session_row ≡ row_there
      → is_current tick.execution v.live.stored ≡ true
      → complete (host.outside v) tick.execution ending e v.live ≡ ok ended
      → finish host tick ending e v ≡ committed v (as_domain (ok ended))
  unfolding finish complete_fenced fenced
  finished v ending e ended there current done =
      ap
        (λ row. committed v (
          admitted_row tick.execution
            (λ w. as_domain (complete (host.outside w) tick.execution ending e w.live)) row v))
        there
      ∙ ap
          (λ b. committed v (
            admitted tick.execution
              (λ w. as_domain (complete (host.outside w) tick.execution ending e w.live)) b v))
          current
      ∙ ap (λ r. committed v (as_domain r)) done

  turn_in_late :
      (phase : TurnPhase)
      → is_checkpointing phase ≡ false
      → turn_in host tick phase ≡ (expired tick.execution >>= timely_turn host tick phase)
  turn_in_late TurnPhase.idle h = refl
  turn_in_late TurnPhase.failed h = refl
  turn_in_late TurnPhase.starting h = refl
  turn_in_late TurnPhase.running h = refl
  turn_in_late TurnPhase.checkpointing h = cc

  expired_late :
      (w : World) (next : Bool → Tick (Unit {0}))
      → leb tick.execution.deadline w.now ≡ true
      → (expired tick.execution >>= next) w ≡ next true w
  unfolding expired ◌>>=◌ current_time pure
  expired_late w next late = ap (λ b. next b w) late

  -- The code of a turn that a tick finds past its deadline.
  abbrev pub overdue_code : Bool → String
  overdue_code true = "request_timeout"
  overdue_code false = "executor_version_incompatible"

  code_after-late :
      (same : Bool) (answer : Result Thrown (Unit {0}))
      → code_after host tick (overdue_code same) (stop_of answer) ≡ late_code same answer
  code_after-late true (ok u) = refl
  code_after-late false (ok u) = refl
  code_after-late true (err cause) = refl
  code_after-late false (err cause) = refl

  stopped_first :
      (initial : TurnRecord) (same : Bool) (w : World)
      → is_checkpointing initial.phase ≡ false
      → leb tick.execution.deadline w.now ≡ true
      → (if same
            then turn_in host tick initial.phase
            else stop_and_fail host tick "executor_version_incompatible")
          w
        ≡ stop_and_fail host tick (overdue_code same) w
  stopped_first initial false w live late = refl
  stopped_first initial true w live late =
      ap (λ (m : Tick (Unit {0})). m w) (turn_in_late initial.phase live)
      ∙ expired_late w (timely_turn host tick initial.phase) late

  -- A turn that a tick finds past its deadline, and whose checkpoint is not pending, is ended as failed
  -- in that tick, whether or not the runtime confirms the stop, provided that when the stop is answered
  -- the deadline is still past, the session's row is there, the session still runs the turn and the
  -- turn's row is stored: with `request_timeout`, or with `executor_version_incompatible` when the
  -- driver's revision is not the turn's, if the stop is confirmed, and with `outcome_unknown` if it is
  -- not. The queues are then empty, and the session rests or runs its next turn as after every end of a
  -- turn.
  pub late_turn_sealed :
      (initial : TurnRecord) (w : World)
      → let v = after_stop tick w in
        let same = tick.driver.revision == initial.revision in
        let code = late_code same (tick.driver.stop w).answer in
        let outside = host.outside v in
        let unsure = is_indeterminate outside.ends_uncertain (some code) in
        is_checkpointing initial.phase ≡ false
        → leb tick.execution.deadline w.now ≡ true
        → leb tick.execution.deadline v.now ≡ true
        → v.session_row ≡ row_there
        → is_current tick.execution v.live.stored ≡ true
        → Stored tick.execution.turn_id v.live.rows
        → (ended : Live) × (reconcile_turn host tick initial w ≡ (
          ok tt,
          record v {
            live = ended;
            writes = record { row = v.session_row; before = v.live; after = ended } ∷ v.writes;
          },
        ))
          × (complete outside tick.execution Ending.failed (some code) v.live ≡ ok ended)
          × QueuesEmpty ended
          × Opened outside unsure unsure v.live.stored (take 100 v.live.queued_input) ended.stored
  unfolding reconcile_turn stop_and_fail ◌>>=◌
  late_turn_sealed initial w pending late later there current stored =
      let v = after_stop tick w in
      let same = tick.driver.revision == initial.revision in
      let answer = (tick.driver.stop w).answer in
      let code = late_code same answer in
      let (ended, done, empty, opened) =
        turn_sealed (host.outside v) tick.execution Ending.failed (some code) v.live stored in
      (
        ended,
        stopped_first initial same w pending late
            ∙ ap
                (λ (r : Result DomainError Stop × World).
                  bound
                    (λ (stop : Stop).
                      finish host tick Ending.failed
                        (some (code_after host tick (overdue_code same) stop)))
                    r.0 r.1)
                (stop_settled w later)
            ∙ ap (λ c. finish host tick Ending.failed (some c) v) (code_after-late same answer)
            ∙ finished v Ending.failed (some code) ended there current done,
        done,
        empty,
        opened,
      )
