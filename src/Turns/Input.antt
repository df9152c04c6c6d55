-- ===== src/Turns/Input.antt =====
-- session-state.ts: `acceptMessage`, `acceptToolResult` and `acceptInput`. What a message holds, the
-- fingerprint of a request and the limit on its images are protocol.ts's, and arguments here.
use cf_open_agents_api.Prelude.{
  ℕ, ◌+◌, String, Bool, true, false, not, ◌&&◌, ◌||◌, Option, none, some, List, [], ◌∷◌, Result, ok,
  err, any, lookup, insert, if◌then◌else◌, ◌==◌, string_eq, guard, ◌>>=◌, ◌>>◌,
}
use cf_open_agents_api.Stream.Types.{Action, SessionStatus, TurnStatus, session_in_progress}
use cf_open_agents_api.Stream.Rows.{put_turn, append, all_written, StreamError}
use cf_open_agents_api.Stream.Items.{or_else}
use cf_open_agents_api.Stream.Accept.{ToolResult, record_tool_result}
use cf_open_agents_api.Turns.State.{
  TurnPhase, TurnExecution, cancel, steer, tool_result, TurnRecord, Live,
}
use cf_open_agents_api.Turns.Queue.{begun, begin_rows, add_input, enqueue_command, require_turn}
use cf_open_agents_api.Turns.Complete.{Outside}

-- `InputEvent`
pub data InputEvent : Type 0 where
  input_messages : List String → InputEvent
  input_cancel : InputEvent
  input_tool_result : ToolResult → InputEvent

pub data InputError : Type 0 where
  session_not_found : InputError
  executor_version_incompatible : String → String → InputError
  idempotency_conflict : InputError
  session_failed : InputError
  turn_checkpointing : InputError
  too_many_images : InputError
  image_input_unsupported : InputError
  image_results_unsupported : InputError
  steering_unsupported : InputError
  unknown_tool_call : String → InputError
  refused : StreamError → InputError

-- `driver.capabilities`, as input reads them.
pub record Capabilities : Type 0 where
  pub images : Bool
  pub steers : Bool

-- A driver of the deployment, as `requireDriver` reads it.
pub record Registered : Type 0 where
  pub revision : String
  pub capabilities : Capabilities

abbrev at_revision : TurnRecord → Option Registered → Result InputError Capabilities
at_revision r none = err (executor_version_incompatible r.driver r.revision)
at_revision r (some registered) =
    if registered.revision == r.revision
    then ok registered.capabilities
    else err (executor_version_incompatible r.driver r.revision)

-- `requireDriver(drivers, record)`, of session.ts
unfoldable pub require_driver :
    (String → Option Registered) → TurnRecord → Result InputError Capabilities
require_driver drivers r = at_revision r (drivers r.driver)

-- What one event of a request draws: the identifiers, the time and a next turn's deadline.
pub record Drawn : Type 0 where
  pub outside : Outside
  pub operation : String
  pub identifier : String → String

-- protocol.ts, on messages and function outputs.
pub record Protocol : Type 0 where
  pub message_has_image : String → Bool
  pub output_has_image : String → Bool
  pub image_limit_kept : List InputEvent → Bool
  pub fingerprint : List InputEvent → String

abbrev pub lift : {A : Type 0} → Result StreamError A → Result InputError A
lift (err e) = err (refused e)
lift (ok a) = ok a

-- The input of a session that is at rest, or whose turn is open.
unfoldable pub messages_accepted :
    Capabilities → Drawn → List String → Live → Option TurnExecution → Result InputError Live
messages_accepted driver drawn input live (some execution) =
    let added =
      add_input drawn.outside.fresh 0 live.stored.session.id execution.turn_id input live.rows in
    guard driver.steers steering_unsupported
    >> ok (
        enqueue_command drawn.operation execution.turn_id (steer input) added.0
          (record live { rows = added.1 }))
messages_accepted driver drawn input live none =
    let outside = drawn.outside in
    let id = outside.next_turn in
    ok (record live {
      stored = begun outside.transcript_message outside.now outside.deadline id live.stored input;
      rows =
          (add_input outside.fresh 0 live.stored.session.id id input
            (begin_rows outside.now id live.stored.session live.rows)).1;
    })

-- `acceptMessage`
unfoldable pub accept_message :
    Protocol → Capabilities → Drawn → List String → Live → Result InputError Live
accept_message protocol driver drawn input live =
    guard (driver.images || not (any protocol.message_has_image input)) image_input_unsupported
    >> messages_accepted driver drawn input live live.stored.execution

abbrev pub answers : ToolResult → Action → Bool
answers event action = action.call_id == event.call_id && action.turn_id == event.turn_id

abbrev pub kept_before : Action → Option (List Action) → Option (List Action)
kept_before action none = none
kept_before action (some left) = some (action ∷ left)

-- The actions less the one that is answered, when there is one.
unfoldable pub without_action : ToolResult → List Action → Option (List Action)
without_action event [] = none
without_action event (action ∷ actions) =
    let rest = kept_before action (without_action event actions) in
    if answers event action then some actions else rest

abbrev pub answer_text : ToolResult → String
answer_text event =
    if event.success then or_else event.output "" else or_else event.error "Tool failed"

abbrev pub status_of_actions : List Action → SessionStatus
status_of_actions [] = SessionStatus.in_progress
status_of_actions (a ∷ actions) = SessionStatus.requires_action

-- Once no action is left, the turn goes on.
abbrev pub resumed : List Action → String → Live → Result StreamError Live
resumed (a ∷ actions) turn_id live = ok live
resumed [] turn_id live = require_turn turn_id live.rows >>= λ turn. ok (record live {
  rows =
      all_written
        (put_turn (record turn { status = TurnStatus.in_progress })
          ∷ append (session_in_progress live.stored.session)
          ∷ [])
        live.rows;
})

-- The result of a call that waits, in an open turn.
unfoldable pub result_accepted :
    Drawn → ToolResult → Live → TurnExecution → List Action → Result StreamError Live
result_accepted drawn event live execution left =
    record_tool_result drawn.identifier live.stored.session.id event live.rows >>= λ writes.
    (let queued =
        enqueue_command drawn.operation execution.turn_id
          (tool_result event.call_id event.success (answer_text event)) []
          (record live { rows = all_written writes live.rows }) in
      let session = record live.stored.session {
        required_actions = left;
        status = status_of_actions left;
      } in
      resumed left event.turn_id
        (record queued { stored = record live.stored { session = session } }))

abbrev pub result_of_call :
    Drawn → ToolResult → Live → Option TurnExecution → Option (List Action) → Result InputError Live
result_of_call drawn event live (some execution) (some left) =
    lift (result_accepted drawn event live execution left)
result_of_call drawn event live execution none = err (unknown_tool_call event.call_id)
result_of_call drawn event live none (some left) = err (unknown_tool_call event.call_id)

abbrev pub output_has_image : Protocol → Option String → Bool
output_has_image protocol none = false
output_has_image protocol (some output) = protocol.output_has_image output

-- `acceptToolResult`
unfoldable pub accept_tool_result :
    Protocol → Capabilities → Drawn → ToolResult → Live → Result InputError Live
accept_tool_result protocol driver drawn event live =
    guard (driver.images || not (output_has_image protocol event.output)) image_results_unsupported
    >> result_of_call drawn event live live.stored.execution
        (without_action event live.stored.session.required_actions)

abbrev pub cancel_open : Drawn → Live → Option TurnExecution → Live
cancel_open drawn live none = live
cancel_open drawn live (some execution) =
    enqueue_command drawn.operation execution.turn_id cancel [] live

-- The loop's body.
unfoldable pub accept_input_event :
    Protocol → Capabilities → Drawn → InputEvent → Live → Result InputError Live
accept_input_event protocol driver drawn (input_messages input) live =
    accept_message protocol driver drawn input live
accept_input_event protocol driver drawn input_cancel live =
    ok (cancel_open drawn live live.stored.execution)
accept_input_event protocol driver drawn (input_tool_result event) live =
    accept_tool_result protocol driver drawn event live

-- The loop over the events, each with what it draws.
unfoldable pub accept_input_events :
    Protocol → Capabilities → (ℕ → Drawn) → ℕ → List InputEvent → Live → Result InputError Live
accept_input_events protocol driver drawn i [] live = ok live
accept_input_events protocol driver drawn i (event ∷ events) live =
    accept_input_event protocol driver (drawn i) event live
    >>= accept_input_events protocol driver drawn (i + 1) events

-- The object with the keys of the requests that it accepted.
pub record Keyed : Type 0 where
  pub live : Live
  pub idempotency : List (String × String)

abbrev pub is_failed_phase : TurnPhase → Bool
is_failed_phase TurnPhase.failed = true
is_failed_phase _ = false

abbrev pub is_checkpointing : TurnPhase → Bool
is_checkpointing TurnPhase.checkpointing = true
is_checkpointing _ = false

-- `acceptInput`, after the key is looked up.
unfoldable pub input_of_key :
    Protocol
    → (TurnRecord → Result InputError Capabilities)
    → (ℕ → Drawn)
    → ℕ
    → List InputEvent
    → String
    → Keyed
    → Option String
    → Result InputError Keyed
input_of_key protocol driver drawn now events key k (some previous) =
    if previous == protocol.fingerprint events then ok k else err idempotency_conflict
input_of_key protocol driver drawn now events key k none =
    guard (not (is_failed_phase k.live.stored.phase)) session_failed
    >> (guard (not (is_checkpointing k.live.stored.phase)) turn_checkpointing
        >> (driver k.live.stored >>= λ resolved.
            (guard (protocol.image_limit_kept events) too_many_images
              >> (accept_input_events protocol resolved drawn 0 events k.live >>= λ live.
                  ok (record {
                    live = record live { stored = record live.stored { last_active_at = now } };
                    idempotency = insert key (protocol.fingerprint events) k.idempotency;
                  })))))

-- `acceptInput(tx, config, driver, events, key)`; the session's row is there, perhaps deleted, and
-- `driver` gives the capabilities of a record's driver, or throws.
unfoldable pub accept_input :
    Protocol
    → (TurnRecord → Result InputError Capabilities)
    → (ℕ → Drawn)
    → ℕ
    → List InputEvent
    → String
    → Keyed
    → Result InputError Keyed
accept_input protocol driver drawn now events key k =
    guard (not k.live.stored.deleted) session_not_found
    >> input_of_key protocol driver drawn now events key k (lookup key k.idempotency)
