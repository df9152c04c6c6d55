-- ===== src/Stream/Calls.antt =====
-- session-events.ts: collaborations, commands, web searches and MCP calls as items.
use cf_open_agents_api.Prelude.{
  ℕ, String, Bool, true, false, Option, none, some, List, [], ◌∷◌, ◌++◌, if◌then◌else◌, ◌==◌,
  nat_eq, string_eq,
}
use cf_open_agents_api.Stream.Types.{
  Text, SearchAction, spawn_agent, wait, close_agent, resume_agent, interrupt_agent, ItemStatus,
  Collaborate, McpCall, Ran, CollaborationBody, create_subagent_call, wait_for_subagents_call,
  close_subagent_call, resume_subagent_call, interrupt_subagent_call, send_subagent_input_call,
  Body, command_execution, web_search_call, mcp_call, collaborates, Item, OutputPosition,
  command_output_delta,
}
use cf_open_agents_api.Stream.Rows.{Write, append}
use cf_open_agents_api.Stream.Items.{
  Slot, or_else, save_item, added_if_new, done, place_of, completes,
}

abbrev first_or_empty : List String → String
first_or_empty [] = ""
first_or_empty (r ∷ rs) = r

abbrev prompt_content : Option String → List String
prompt_content none = []
prompt_content (some p) = p ∷ []

-- `collaborationItem`, its body.
unfoldable pub collaboration_body : String → Collaborate → CollaborationBody
collaboration_body sender event =
    let recipient = first_or_empty event.recipients in
    let content = prompt_content event.prompt in
    elim event.operation [
      | spawn_agent ↦ create_subagent_call sender content event.model event.effort
      | wait ↦ wait_for_subagents_call sender event.recipients
      | close_agent ↦ close_subagent_call sender recipient
      | resume_agent ↦ resume_subagent_call sender recipient
      | interrupt_agent ↦ interrupt_subagent_call sender recipient
      | _ ↦ send_subagent_input_call sender recipient content
    ]

abbrev pub succeeded : Bool → ItemStatus
succeeded true = ItemStatus.completed
succeeded false = ItemStatus.failed

-- `acceptCollaboration`
unfoldable pub accept_collaboration : Slot → String → Collaborate → List Write
accept_collaboration slot sender event = completes slot (record {
  id = slot.id;
  turn_id = slot.turn_id;
  status = succeeded event.success;
  body = collaborates (collaboration_body sender event);
})

-- The command item that an event continues.
unfoldable pub command_item : Slot → Option OutputPosition → String → Option String → Item
command_item slot none command cwd = record {
  id = slot.id;
  turn_id = slot.turn_id;
  status = ItemStatus.in_progress;
  body =
      command_execution (record {
        command = command;
        cwd = cwd;
        duration_ms = none;
        exit_code = none;
        output = [];
      });
}
command_item slot (some position) command cwd = elim position.item.body [
  | command_execution c ↦ position.item
  | _ ↦ record {
    id = slot.id;
    turn_id = slot.turn_id;
    status = ItemStatus.in_progress;
    body = command_execution (record {
      command = command;
      cwd = cwd;
      duration_ms = none;
      exit_code = none;
      output = [];
    });
  }
]

unfoldable pub with_output : Body → Text → Body
with_output (command_execution c) t = command_execution (record c { output = c.output ++ t })
with_output body t = body

-- `acceptCommandStream`
unfoldable pub accept_command_start : Slot → String → Option String → List Write
accept_command_start slot command cwd =
    let item = command_item slot slot.previous command cwd in
    added_if_new slot slot.previous item ++ save_item slot item

unfoldable pub accept_command_delta : Slot → Text → List Write
accept_command_delta slot t =
    let item = command_item slot slot.previous "" none in
    added_if_new slot slot.previous item
    ++ append (command_output_delta (place_of slot item) t) ∷ []
    ++ save_item slot (record item { body = with_output item.body t })

unfoldable pub done_if_ended : Slot → ItemStatus → Item → List Write
done_if_ended slot ItemStatus.in_progress item = []
done_if_ended slot status item = done slot item

-- `acceptWebSearch`
unfoldable pub accept_web_search : Slot → Option SearchAction → ItemStatus → List Write
accept_web_search slot action status =
    let item : Item = record {
      id = slot.id;
      turn_id = slot.turn_id;
      status = status;
      body = web_search_call action;
    } in
    added_if_new slot slot.previous item ++ save_item slot item ++ done_if_ended slot status item

-- `commandStatus(exitCode)`
unfoldable pub command_status : Option ℕ → ItemStatus
command_status none = ItemStatus.incomplete
command_status (some code) = if code == 0 then ItemStatus.completed else ItemStatus.failed

unfoldable pub previous_cwd : Option OutputPosition → Option String
previous_cwd none = none
previous_cwd (some position) = elim position.item.body [ command_execution c ↦ c.cwd | _ ↦ none ]

-- `event.cwd ?? previous`: null counts as absent.
abbrev pub cwd_or : Option (Option String) → Option String → Option String
cwd_or none before = before
cwd_or (some none) before = before
cwd_or (some (some cwd)) before = some cwd

-- `completedItem` of a command and of an MCP call, and `acceptCompletedItem`
unfoldable pub accept_command : Slot → Ran → List Write
accept_command slot event = completes slot (record {
  id = slot.id;
  turn_id = slot.turn_id;
  status = or_else event.status (command_status event.exit_code);
  body = command_execution (record {
    command = event.command;
    cwd = cwd_or event.cwd (previous_cwd slot.previous);
    duration_ms = event.duration_ms;
    exit_code = event.exit_code;
    output = event.output;
  });
})

unfoldable pub accept_mcp : Slot → McpCall → List Write
accept_mcp slot event = completes slot (record {
  id = slot.id;
  turn_id = slot.turn_id;
  status = succeeded event.success;
  body = mcp_call event;
})
