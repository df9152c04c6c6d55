-- ===== src/Turns/Complete.antt =====
-- session-state.ts: `complete` and `commitCheckpoint`.
use cf_open_agents_api.Prelude.{
  ℕ, String, Bool, true, false, not, ◌&&◌, ◌||◌, Option, none, some, List, [], ◌∷◌, ◌++◌, Result,
  ok, err, if◌then◌else◌, take, insert, ◌==◌, string_eq,
}
use cf_open_agents_api.Stream.Types.{
  Turn, SessionStatus, SessionView, turn_ended, session_idle, session_failed,
}
use cf_open_agents_api.Stream.Rows.{Streamed, put_turn, append, all_written, StreamError}
use cf_open_agents_api.Stream.Finish.{finish_output_items}
use cf_open_agents_api.Turns.State.{TurnPhase, Checkpointed, TurnExecution, TurnRecord, Live}
use cf_open_agents_api.Turns.Queue.{begun, begin_rows, add_input, require_turn}
use cf_open_agents_api.Turns.Children.{
  Ending, ending_status, turn_error, is_indeterminate, is_failed, is_cancelled, close_child_turns,
}

abbrev after_ending : Ending → TurnRecord → Option String
after_ending Ending.completed r = none
after_ending ending r = r.inherited_transcript

abbrev pub ended_phase : Bool → TurnPhase
ended_phase true = TurnPhase.failed
ended_phase false = TurnPhase.idle

abbrev ended_status : Bool → SessionStatus
ended_status true = SessionStatus.failed
ended_status false = SessionStatus.idle

-- The record that `complete` saves first.
unfoldable pub ended_record : Bool → Ending → ℕ → Option String → TurnRecord → TurnRecord
ended_record indeterminate ending now error r = record r {
  inherited_transcript = after_ending ending r;
  execution = none;
  phase = ended_phase indeterminate;
  session = record r.session { status = ended_status indeterminate; required_actions = [] };
  error = error;
  last_active_at = now;
}

abbrev session_ended : Bool → SessionView → Streamed → Streamed
session_ended true view s = all_written (append (session_failed view) ∷ []) s
session_ended false view s = all_written (append (session_idle view) ∷ []) s

abbrev pub all_input : List (String × List String) → List String
all_input [] = []
all_input ((id, input) ∷ rows) = input ++ all_input rows

-- What `complete` needs from outside: fresh identifiers, the time and the deadline of a next turn.
pub record Outside : Type 0 where
  pub now : ℕ
  pub deadline : ℕ
  pub next_turn : String
  pub fresh : ℕ → String
  pub transcript_message : String → String
  pub ends_uncertain : String → Bool

-- The steer input that the runtime refused becomes the next turn; at most 100 rows of it are read.
unfoldable pub run_queued : Outside → Bool → List (String × List String) → Live → Live
run_queued outside stops [] live = live
run_queued outside true (q ∷ queue) live = live
run_queued outside false (q ∷ queue) live =
    let input = all_input (q ∷ queue) in
    let id = outside.next_turn in
    let started =
      begun outside.transcript_message outside.now outside.deadline id live.stored input in
    record live {
      stored = started;
      rows =
          (add_input outside.fresh 0 live.stored.session.id id input
            (begin_rows outside.now id live.stored.session live.rows)).1;
    }

-- What `complete` leaves of a turn whose row is read, before input that was queued runs.
unfoldable pub sealed_live : Outside → Ending → Option String → Live → Streamed → Turn → Live
sealed_live outside ending error live closed turn =
    let indeterminate = is_failed ending && is_indeterminate outside.ends_uncertain error in
    let sealed : Turn = record turn {
      status = ending_status ending;
      completed_at = some outside.now;
      error = turn_error error;
    } in
    let next = ended_record indeterminate ending outside.now error live.stored in
    let stored = all_written (put_turn sealed ∷ []) closed in
    let finished =
      all_written
        (finish_output_items live.stored.session.id turn.id "item" stored
          ++ append (turn_ended sealed) ∷ [])
        stored in
    record live {
      stored = next;
      rows = session_ended indeterminate next.session finished;
      commands = [];
      cancellations = [];
      queued_input = [];
    }

-- `complete`, once its turn's row is read.
unfoldable pub seal_turn :
    Outside
    → Ending
    → Option String
    → Live
    → Streamed
    → Result StreamError Turn
    → Result StreamError Live
seal_turn outside ending error live closed (err e) = err e
seal_turn outside ending error live closed (ok turn) =
    let indeterminate = is_failed ending && is_indeterminate outside.ends_uncertain error in
    ok (
      run_queued outside (is_cancelled ending || indeterminate) (take 100 live.queued_input)
        (sealed_live outside ending error live closed turn))

-- `complete(tx, config, record, status, error)`, of the fenced record
unfoldable pub complete :
    Outside → TurnExecution → Ending → Option String → Live → Result StreamError Live
complete outside execution ending error live =
    let closed =
      close_child_turns live.stored.session.id ending outside.now (turn_error error) live.rows in
    seal_turn outside ending error live closed (require_turn execution.turn_id closed)

pub data CheckpointError : Type 0 where
  checkpoint_incompatible : CheckpointError
  refused : StreamError → CheckpointError

abbrev put_artifacts : List (String × String) → List (String × String) → List (String × String)
put_artifacts [] rows = rows
put_artifacts ((id, artifact) ∷ artifacts) rows = put_artifacts artifacts (insert id artifact rows)

abbrev as_checkpoint_error : Result StreamError Live → Result CheckpointError Live
as_checkpoint_error (err e) = err (refused e)
as_checkpoint_error (ok live) = ok live

-- `commitCheckpoint`
unfoldable pub commit_checkpoint :
    Outside → TurnExecution → Checkpointed → Live → Result CheckpointError Live
commit_checkpoint outside execution checkpoint live =
    if not (checkpoint.driver == live.stored.driver)
      || not (checkpoint.revision == live.stored.revision)
    then err checkpoint_incompatible
    else as_checkpoint_error (
        complete outside execution Ending.completed none (record live {
          stored = record live.stored { checkpoint = some checkpoint };
          artifacts = put_artifacts checkpoint.artifacts live.artifacts;
        }))
