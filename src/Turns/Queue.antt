-- ===== src/Turns/Queue.antt =====
-- session-state.ts: `begin`, `addInput`, `enqueue`, `discard`, `reject` and `markRunning`. Fresh
-- identifiers are arguments, as is what `begin` takes from the deployment.
use cf_open_agents_api.Prelude.{
  ℕ, ◌+◌, String, Option, none, some, List, [], ◌∷◌, Result, ok, err, lookup, insert, erase,
  if◌then◌else◌, ◌==◌, string_eq,
}
use cf_open_agents_api.Stream.Types.{
  Item, ItemStatus, input_message, Turn, TurnStatus, SessionStatus, SessionView, item_added,
  turn_created, turn_in_progress, session_in_progress,
}
use cf_open_agents_api.Stream.Rows.{
  Streamed, put_item, put_turn, append, table, all_written, StreamError, record_not_found,
}
use cf_open_agents_api.Turns.State.{
  TurnPhase, TurnExecution, RuntimeCommand, cancel, steer, TurnCommand, TurnRecord, Live,
}

-- The input of a turn, after the transcript of the session that it was forked from.
abbrev pub with_transcript : (String → String) → Option String → List String → List String
with_transcript transcript_message none input = input
with_transcript transcript_message (some t) input =
    if t == "" then input else transcript_message t ∷ input

-- The record that `begin` returns.
unfoldable pub begun : (String → String) → ℕ → ℕ → String → TurnRecord → List String → TurnRecord
begun transcript_message now deadline id r input = record r {
  generation = r.generation + 1;
  execution = some (record {
    turn_id = id;
    generation = r.generation + 1;
    harness = r.driver;
    model = r.model;
    input = with_transcript transcript_message r.inherited_transcript input;
    checkpoint = r.checkpoint;
    deadline = deadline;
  });
  cursor = 0;
  phase = TurnPhase.starting;
  session = record r.session { status = SessionStatus.in_progress };
  last_active_at = now;
}

abbrev pub new_turn : ℕ → String → SessionView → Turn
new_turn now id session = record {
  id = id;
  session_id = session.id;
  agent_id = session.agent_id;
  subagent_id = none;
  created_at = now;
  started_at = none;
  completed_at = none;
  status = TurnStatus.queued;
  error = none;
  usage = none;
}

-- The rows that `begin` writes; the caller saves the record.
unfoldable pub begin_rows : ℕ → String → SessionView → Streamed → Streamed
begin_rows now id session s =
    let turn = new_turn now id session in
    all_written
      (put_turn turn
        ∷ append (turn_created turn)
        ∷ append (session_in_progress (record session { status = SessionStatus.in_progress }))
        ∷ [])
      s

abbrev pub input_item : String → String → String → Item
input_item turn_id id message = record {
  id = id;
  turn_id = turn_id;
  status = ItemStatus.completed;
  body = input_message message;
}

-- `addInput`, with the identifiers from an index on: the rows, and the items' identifiers.
unfoldable pub add_input :
    (ℕ → String) → ℕ → String → String → List String → Streamed → List String × Streamed
add_input fresh i session_id turn_id [] s = ([], s)
add_input fresh i session_id turn_id (message ∷ messages) s =
    let item = input_item turn_id (fresh i) message in
    let rest = add_input fresh (i + 1) session_id turn_id messages (
      all_written (put_item "item" item ∷ append (item_added session_id turn_id none item) ∷ [])
        s) in
    (fresh i ∷ rest.0, rest.1)

abbrev put_new_cancellation :
    Option TurnCommand → String → String → List (String × TurnCommand) → List (String × TurnCommand)
put_new_cancellation (some c) id turn_id rows = rows
put_new_cancellation none id turn_id rows =
    insert turn_id (record { id = id; turn_id = turn_id; command = cancel; item_ids = [] }) rows

abbrev pub put_command : String → String → RuntimeCommand → List String → Live → Live
put_command id turn_id command item_ids live = record live {
  commands =
      insert id (record { id = id; turn_id = turn_id; command = command; item_ids = item_ids })
        live.commands;
}

-- `enqueue(tx, record, command, itemIds)`, of an active turn
unfoldable pub enqueue_command : String → String → RuntimeCommand → List String → Live → Live
enqueue_command id turn_id cancel item_ids live = record live {
  cancellations =
      put_new_cancellation (lookup turn_id live.cancellations) id turn_id live.cancellations;
}
enqueue_command id turn_id command item_ids live = put_command id turn_id command item_ids live

-- `discard`
unfoldable pub discard : TurnCommand → Live → Live
discard operation live = record live { commands = erase operation.id live.commands }

abbrev pub remove_item : String → Streamed → Streamed
remove_item id s = record s { items = insert "item" (erase id (table "item" s.items)) s.items }

abbrev pub remove_items : List String → Streamed → Streamed
remove_items [] s = s
remove_items (id ∷ ids) s = remove_items ids (remove_item id s)

abbrev requeued : RuntimeCommand → TurnCommand → Live → Live
requeued (steer input) operation live = record live {
  rows = remove_items operation.item_ids live.rows;
  queued_input = insert operation.id input live.queued_input;
}
requeued _ operation live = live

-- `reject`
unfoldable pub reject : TurnCommand → Live → Live
reject operation live = requeued operation.command operation (discard operation live)

abbrev pub turn_found : String → Option Turn → Result StreamError Turn
turn_found id none = err (record_not_found id)
turn_found id (some turn) = ok turn

-- `tx.requireTurn(id)`
abbrev pub require_turn : String → Streamed → Result StreamError Turn
require_turn id s = turn_found id (lookup id s.turns)

abbrev started_turn : ℕ → Live → Result StreamError Turn → Result StreamError Live
started_turn now live (err e) = err e
started_turn now live (ok turn) =
    let started : Turn = record turn { status = TurnStatus.in_progress; started_at = some now } in
    ok (record live {
      stored = record live.stored { phase = TurnPhase.running };
      rows = all_written (put_turn started ∷ append (turn_in_progress started) ∷ []) live.rows;
    })

-- `markRunning`, of the fenced record
unfoldable pub mark_running : ℕ → TurnExecution → Live → Result StreamError Live
mark_running now execution live = started_turn now live (require_turn execution.turn_id live.rows)
