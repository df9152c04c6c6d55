-- ===== src/Tests/Turns.antt =====
-- The transitions of a turn at concrete inputs.
use cf_open_agents_api.Prelude.{
  if◌then◌else◌, ◌==◌, nat_eq, ℕ, ◌≡◌, refl, String, true, false, Option, none, some, List, [], ◌∷◌,
  take, Result, ok, err,
}
use Prim.Native.String.{◌++◌ as text_append}
use cf_open_agents_api.Stream.Types.{SessionStatus, SessionView, Turn, TurnStatus, item, delta}
use cf_open_agents_api.Stream.Rows.{Streamed, all_written, written}
use cf_open_agents_api.Turns.State.{TurnPhase, TurnExecution, TurnRecord, Live, BatchEntry, cancel}
use cf_open_agents_api.Turns.Batch.{Accepting, accept_entries}
use cf_open_agents_api.Turns.Repeated.{
  Delivers, none_more, next_page, accept_pages, pages_recorded_once,
}
use cf_open_agents_api.Turns.Children.{Ending, is_indeterminate}
use cf_open_agents_api.Turns.Complete.{Outside, complete}
use cf_open_agents_api.Stream.Accept.{ToolResult, record_tool_result}
use cf_open_agents_api.Turns.Queue.{enqueue_command}
use cf_open_agents_api.Turns.Input.{
  Registered, require_driver, InputEvent, input_messages, input_cancel, InputError,
  idempotency_conflict, unknown_tool_call, Capabilities, Drawn, Protocol, Keyed, accept_input,
  input_of_key, accept_input_events, accept_input_event, accept_tool_result, result_accepted,
  without_action,
}
use cf_open_agents_api.Turns.Once.{input_once, answered_once}
use cf_open_agents_api.Turns.Answers.{waits}
use cf_open_agents_api.Turns.Ended.{QueuesEmpty, Opened, turn_sealed}

abbrev view : SessionView
view = record {
  id = "s";
  agent_id = "a";
  status = SessionStatus.in_progress;
  required_actions = [];
  usage = none;
}

abbrev pub execution : TurnExecution
execution = record {
  turn_id = "t";
  generation = 1;
  harness = "h";
  model = "m";
  input = [];
  checkpoint = none;
  deadline = 100;
}

abbrev pub turn : Turn
turn = record {
  id = "t";
  session_id = "s";
  agent_id = "a";
  subagent_id = none;
  created_at = 1;
  started_at = some 1;
  completed_at = none;
  status = TurnStatus.in_progress;
  error = none;
  usage = none;
}

abbrev pub row : TurnRecord
row = record {
  session = view;
  deleted = false;
  error = none;
  last_active_at = 1;
  driver = "h";
  revision = "1";
  model = "m";
  generation = 1;
  execution = some execution;
  checkpoint = none;
  inherited_transcript = none;
  cursor = 0;
  phase = TurnPhase.running;
}

abbrev rows : Streamed
rows = record {
  items = [];
  outputs = [];
  output_counts = [];
  turns = ("t", turn) ∷ [];
  pending_turns = [];
  subagents = [];
  log = [];
}

abbrev pub live : Live
live = record {
  stored = row;
  rows = rows;
  commands = ("op1", record { id = "op1"; turn_id = "t"; command = cancel; item_ids = [] }) ∷ [];
  cancellations = [];
  queued_input = ("op2", "hello" ∷ []) ∷ [];
  artifacts = [];
}

abbrev says : ℕ → BatchEntry
says n = record {
  seq = n;
  event = item (record { id = "n"; turn_id = none; subagent_id = none; kind = delta (n ∷ []) });
}

abbrev pub made : String → String
made prefix = prefix

abbrev pub made_at : ℕ → String → String
made_at seq prefix = if seq == 1 then made prefix else text_append "later_" prefix

abbrev before : Accepting
before = record { next = row; rows = rows }

-- The second page repeats the second event.
abbrev two_pages :
    Delivers []
      ((says 1 ∷ says 2 ∷ []) ∷ (says 2 ∷ says 3 ∷ []) ∷ [])
      (says 1 ∷ says 2 ∷ says 3 ∷ [])
two_pages =
    next_page [] [] (says 1 ∷ says 2 ∷ []) refl
      (next_page (says 1 ∷ []) (says 2 ∷ []) (says 3 ∷ []) refl none_more)

pages_recorded_once_example :
    accept_pages
      (λ seq. 9)
      made_at
      "t"
      ((says 1 ∷ says 2 ∷ []) ∷ (says 2 ∷ says 3 ∷ []) ∷ [])
      before
    ≡ accept_entries (λ seq. 9) made_at "t" (says 1 ∷ says 2 ∷ says 3 ∷ []) before
pages_recorded_once_example =
    pages_recorded_once (λ seq. 9) made_at "t" [] (says 1 ∷ says 2 ∷ says 3 ∷ [])
      ((says 1 ∷ says 2 ∷ []) ∷ (says 2 ∷ says 3 ∷ []) ∷ []) before two_pages
      (refl, (refl, (refl, tt))) refl

abbrev pub outside : Outside
outside = record {
  now = 9;
  deadline = 200;
  next_turn = "t2";
  fresh = λ i. "msg";
  transcript_message = λ t. t;
  ends_uncertain = λ e. false;
}

turn_sealed_example :
    (ended : Live) × (complete outside execution Ending.failed (some "server_error") live
      ≡ ok ended)
    × QueuesEmpty ended
    × Opened outside false false row (take 100 live.queued_input) ended.stored
unfolding is_indeterminate
turn_sealed_example =
    turn_sealed outside execution Ending.failed (some "server_error") live (turn, refl)

abbrev fingerprint_of : List InputEvent → String
fingerprint_of (input_cancel ∷ events) = "cancel"
fingerprint_of _ = "other"

abbrev protocol : Protocol
protocol = record {
  message_has_image = λ m. false;
  output_has_image = λ o. false;
  image_limit_kept = λ events. true;
  fingerprint = fingerprint_of;
}

abbrev driver : Capabilities
driver = record { images = true; steers = true }

abbrev drawn : Drawn
drawn = record { outside = outside; operation = "op3"; identifier = made }

abbrev keyed : Keyed
keyed = record { live = live; idempotency = [] }

abbrev cancelled_once : Keyed
cancelled_once = record {
  live = record live {
    stored = record row { last_active_at = 9 };
    cancellations =
        ("t", record { id = "op3"; turn_id = "t"; command = cancel; item_ids = [] }) ∷ [];
  };
  idempotency = ("k", "cancel") ∷ [];
}

-- The deployment's drivers by name, of a revision.
abbrev drivers : String → String → Option Registered
drivers revision name = some (record { revision = revision; capabilities = driver })

input_once_example :
    accept_input protocol
      (require_driver (drivers "2"))
      (λ i. drawn)
      20
      ((input_messages ("hi" ∷ [])) ∷ [])
      "k"
      cancelled_once
    ≡ err idempotency_conflict
unfolding accept_input input_of_key accept_input_events accept_input_event enqueue_command
    require_driver
input_once_example =
    input_once protocol (require_driver (drivers "1")) (require_driver (drivers "2")) (λ i. drawn)
      (λ i. drawn) 9 20 (input_cancel ∷ []) (input_messages ("hi" ∷ []) ∷ []) "k" keyed
      cancelled_once refl

abbrev asking : Live
asking = record live {
  stored = record row {
    session = record view {
      status = SessionStatus.requires_action;
      required_actions = record { turn_id = "t"; call_id = "c"; name = "f"; arguments = "{}" } ∷ [];
    };
  };
}

abbrev answer : ToolResult
answer = record { turn_id = "t"; call_id = "c"; success = true; output = some "4"; error = none }

abbrev answered_live : Result InputError Live → Live
answered_live (ok l) = l
answered_live (err e) = live

abbrev answered : Live
answered = answered_live (accept_tool_result protocol driver drawn answer asking)

answered_once_example :
    (waits answer answered.stored.session.required_actions ≡ false)
    × (accept_tool_result protocol driver drawn answer answered ≡ err (unknown_tool_call "c"))
unfolding accept_tool_result result_accepted record_tool_result without_action enqueue_command
    all_written written
answered_once_example = answered_once protocol driver drawn drawn answer asking answered refl refl
