-- ===== src/Stream/Accept.antt =====
-- session-events.ts: `acceptRuntimeEvent`, usage and function calls, and `recordToolResult`. The record
-- is the part of the session's record that events change.
use cf_open_agents_api.Prelude.{
  ℕ, ◌+◌, ◌-◌, String, Bool, Option, none, some, List, [], ◌∷◌, ◌++◌, Result, ok, err, any,
  if◌then◌else◌, lookup, ◌==◌, string_eq,
}
use cf_open_agents_api.Stream.Types.{
  TokenUsage, TurnStatus, FunctionCall, ItemEvent, UsageEvent, RuntimeEvent, subagent,
  subagent_turn, usage, item, Item, ItemStatus, called, function_call_output, Turn, Action,
  SessionStatus, SessionView, item_added, requires_action, collaboration, delta, text, reasoning,
  reasoning_delta, reasoning_part, command_start, command_delta, web_search, function_call, mcp,
  command,
}
use cf_open_agents_api.Stream.Rows.{
  Streamed, Write, put_item, put_turn, put_pending_turn, append, all_written, StreamError,
  record_not_found,
}
use cf_open_agents_api.Stream.Items.{Slot, or_else, item_kind, resolve_slot, completes}
use cf_open_agents_api.Stream.Calls.{
  accept_collaboration, accept_command_start, accept_command_delta, accept_web_search,
  accept_command, accept_mcp,
}
use cf_open_agents_api.Stream.Message.{accept_delta, accept_text}
use cf_open_agents_api.Stream.Reasoning.{
  accept_reasoning, accept_reasoning_delta, accept_reasoning_part,
}
use cf_open_agents_api.Stream.Subagents.{
  Outcome, runtime_record, accept_subagent, accept_subagent_turn,
}

abbrev pub no_usage : TokenUsage
no_usage = record {
  input_tokens = 0;
  output_tokens = 0;
  total_tokens = 0;
  cached_tokens = 0;
  reasoning_tokens = 0;
}

-- `add(total, next, previous)` of each count; a difference below 0 is 0.
unfoldable pub add_usage : TokenUsage → TokenUsage → TokenUsage → TokenUsage
add_usage total next previous = record {
  input_tokens = total.input_tokens + next.input_tokens - previous.input_tokens;
  output_tokens = total.output_tokens + next.output_tokens - previous.output_tokens;
  total_tokens = total.total_tokens + next.total_tokens - previous.total_tokens;
  cached_tokens = total.cached_tokens + next.cached_tokens - previous.cached_tokens;
  reasoning_tokens = total.reasoning_tokens + next.reasoning_tokens - previous.reasoning_tokens;
}

abbrev pub pending_usage : String → Option Turn → TokenUsage → List Write
pending_usage turn_id none u = []
pending_usage turn_id (some t) u = put_pending_turn turn_id (record t { usage = some u }) ∷ []

-- The usage of a turn that is stored, and the turn that waits for its checkpoint.
abbrev pub usage_accepted :
    String → SessionView → TokenUsage → Option Turn → Result StreamError Turn → Outcome
usage_accepted turn_id view next pending (err e) = err e
usage_accepted turn_id view next pending (ok turn) = ok (
  put_turn (record turn { usage = some next }) ∷ pending_usage turn_id pending next,
  record view {
    usage = some (add_usage (or_else view.usage no_usage) next (or_else turn.usage no_usage));
  },
)

-- `acceptUsage`
unfoldable pub accept_usage : String → SessionView → UsageEvent → Streamed → Outcome
accept_usage execution_turn view event s =
    let turn_id = or_else event.turn_id execution_turn in
    usage_accepted turn_id view event.usage (lookup turn_id s.pending_turns)
      (runtime_record "turn" turn_id s.turns)

-- The session's actions after a function call that waits for the client.
unfoldable pub with_action : String → FunctionCall → List Action → List Action
with_action turn_id event actions =
    if any (λ action. action.call_id == event.call_id) actions
    then actions
    else actions
      ++ record {
        turn_id = turn_id;
        call_id = event.call_id;
        name = event.name;
        arguments = event.arguments;
      }
        ∷ []

-- The session while it waits for the client.
abbrev pub view_with_action : Slot → SessionView → FunctionCall → SessionView
view_with_action slot view event = record view {
  required_actions = with_action slot.turn_id event view.required_actions;
  status = SessionStatus.requires_action;
}

-- The call as an item.
abbrev pub call_item : Slot → FunctionCall → Item
call_item slot event = record {
  id = slot.id;
  turn_id = slot.turn_id;
  status = ItemStatus.completed;
  body = called event;
}

-- The call of a turn that is stored.
abbrev pub call_accepted : Slot → SessionView → FunctionCall → Result StreamError Turn → Outcome
call_accepted slot view event (err e) = err e
call_accepted slot view event (ok turn) =
    let next = view_with_action slot view event in
    ok (
      completes slot (call_item slot event)
          ++ (put_turn (record turn { status = TurnStatus.waiting })
              ∷ append (requires_action next)
              ∷ []),
      next,
    )

-- `acceptFunctionCall`
unfoldable pub accept_function_call : Slot → SessionView → FunctionCall → Streamed → Outcome
accept_function_call slot view event s =
    call_accepted slot view event (runtime_record "turn" slot.turn_id s.turns)

-- `acceptOutputItem`, from its slot
unfoldable pub accept_in_slot : Slot → SessionView → ItemEvent → Streamed → Outcome
accept_in_slot slot view event s = elim event.kind [
  | collaboration c ↦
      ok (accept_collaboration slot (or_else event.subagent_id view.agent_id) c, view)
  | delta t ↦ ok (accept_delta slot t, view)
  | text t phase ↦ ok (accept_text slot t phase, view)
  | reasoning parts is_completed ↦ ok (accept_reasoning slot parts is_completed, view)
  | reasoning_delta i t ↦ ok (accept_reasoning_delta slot i t, view)
  | reasoning_part i t ↦ ok (accept_reasoning_part slot i, view)
  | command_start c cwd ↦ ok (accept_command_start slot c cwd, view)
  | command_delta t ↦ ok (accept_command_delta slot t, view)
  | web_search action status ↦ ok (accept_web_search slot action status, view)
  | function_call f ↦ accept_function_call slot view f s
  | mcp m ↦ ok (accept_mcp slot m, view)
  | command c ↦ ok (accept_command slot c, view)
]

-- `acceptRuntimeEvent(tx, record, event)`, at a time, with the identifiers that `identifier` makes
unfoldable pub accept_runtime_event :
    ℕ → (String → String) → String → SessionView → RuntimeEvent → Streamed → Outcome
accept_runtime_event now identifier execution_turn view event s = elim event [
  | subagent e ↦ ok (accept_subagent now view e s, view)
  | subagent_turn e ↦ accept_subagent_turn view e s
  | usage e ↦ accept_usage execution_turn view e s
  | item e ↦ accept_in_slot (resolve_slot identifier view.id execution_turn s e) view e s
]

-- What the client answered to a function call.
pub record ToolResult : Type 0 where
  pub turn_id : String
  pub call_id : String
  pub success : Bool
  pub output : Option String
  pub error : Option String

-- `recordToolResult(tx, record, event)`
unfoldable pub record_tool_result :
    (String → String) → String → ToolResult → Streamed → Result StreamError (List Write)
record_tool_result identifier session_id event s = elim (lookup event.turn_id s.turns) [
  | none ↦ err (record_not_found event.turn_id)
  | some turn ↦
      let answer : Item = record {
        id = identifier "output";
        turn_id = event.turn_id;
        status = if event.success then ItemStatus.completed else ItemStatus.failed;
        body =
            function_call_output
              (record { call_id = event.call_id; output = event.output; error = event.error });
      } in
      ok (
        put_item (item_kind turn.subagent_id) answer
        ∷ append (item_added session_id event.turn_id none answer)
        ∷ [])
]

abbrev pub rows_after : Streamed → Outcome → Streamed
rows_after s (err e) = s
rows_after s (ok (writes, view)) = all_written writes s

abbrev pub view_after : SessionView → Outcome → SessionView
view_after view (err e) = view
view_after view (ok (writes, next)) = next

-- The rows after an event that no limit refuses: an event that throws leaves them.
unfoldable pub delivered :
    ℕ → (String → String) → String → SessionView → RuntimeEvent → Streamed → Streamed
delivered now identifier execution_turn view event s =
    rows_after s (accept_runtime_event now identifier execution_turn view event s)

-- The same for events one after another, of a session that they do not change.
unfoldable pub all_delivered :
    ℕ → (String → String) → String → SessionView → List RuntimeEvent → Streamed → Streamed
all_delivered now identifier execution_turn view [] s = s
all_delivered now identifier execution_turn view (e ∷ es) s =
    all_delivered now identifier execution_turn view es
      (delivered now identifier execution_turn view e s)
