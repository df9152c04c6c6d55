-- ===== src/Stream/Types.antt =====
-- runtime.ts, `runtimeEventSchema`, and the public shapes that session-events.ts makes of it. A text
-- that is streamed is the list of its UTF-16 code units; other texts, and JSON values, are `String`.
use cf_open_agents_api.Prelude.{ℕ, String, Bool, Option, List}

abbrev pub Text : Type 0
Text = List ℕ

-- `usageSchema`: cumulative usage within a turn.
pub record TokenUsage : Type 0 where
  pub input_tokens : ℕ
  pub output_tokens : ℕ
  pub total_tokens : ℕ
  pub cached_tokens : ℕ
  pub reasoning_tokens : ℕ

pub data SearchAction : Type 0 where
  search : Option String → Option (List String) → SearchAction
  open_page : Option String → SearchAction
  find_in_page : Option String → Option String → SearchAction
  other : SearchAction

pub data Operation : Type 0 where
  spawn_agent : Operation
  send_input : Operation
  resume_agent : Operation
  wait : Operation
  close_agent : Operation
  send_message : Operation
  followup_task : Operation
  interrupt_agent : Operation

pub data Phase : Type 0 where
  commentary : Phase
  final_answer : Phase

pub data ItemStatus : Type 0 where
  in_progress : ItemStatus
  completed : ItemStatus
  incomplete : ItemStatus
  failed : ItemStatus

pub data TurnStatus : Type 0 where
  queued : TurnStatus
  in_progress : TurnStatus
  waiting : TurnStatus
  completed : TurnStatus
  cancelled : TurnStatus
  failed : TurnStatus

pub data SubagentStatus : Type 0 where
  active : SubagentStatus
  closed : SubagentStatus

pub record Collaborate : Type 0 where
  pub operation : Operation
  pub recipients : List String
  pub prompt : Option String
  pub model : Option String
  pub effort : Option String
  pub success : Bool

pub record McpCall : Type 0 where
  pub name : String
  pub server : String
  pub arguments : String
  pub output : String
  pub error : String
  pub success : Bool

pub record FunctionCall : Type 0 where
  pub call_id : String
  pub name : String
  pub arguments : String

-- A finished command. An absent `cwd` differs from a null one.
pub record Ran : Type 0 where
  pub command : String
  pub output : Text
  pub exit_code : Option ℕ
  pub cwd : Option (Option String)
  pub duration_ms : Option ℕ
  pub status : Option ItemStatus

-- The kinds of event that describe one streamed output item (`ItemEvent`).
pub data ItemKind : Type 0 where
  collaboration : Collaborate → ItemKind
  delta : Text → ItemKind
  text : Text → Phase → ItemKind
  reasoning : List Text → Bool → ItemKind
  reasoning_delta : ℕ → Text → ItemKind
  reasoning_part : ℕ → Text → ItemKind
  command_start : String → Option String → ItemKind
  command_delta : Text → ItemKind
  web_search : Option SearchAction → ItemStatus → ItemKind
  function_call : FunctionCall → ItemKind
  mcp : McpCall → ItemKind
  command : Ran → ItemKind

-- An item's event, with `eventScope`.
pub record ItemEvent : Type 0 where
  pub id : String
  pub turn_id : Option String
  pub subagent_id : Option String
  pub kind : ItemKind

pub record SubagentEvent : Type 0 where
  pub id : String
  pub parent_id : Option String
  pub name : Option String
  pub instructions : Option String
  pub status : SubagentStatus
  pub opened_at : ℕ

pub record SubagentTurnEvent : Type 0 where
  pub id : String
  pub subagent_id : String
  pub status : TurnStatus
  pub started_at : ℕ
  pub completed_at : Option ℕ

pub record UsageEvent : Type 0 where
  pub usage : TokenUsage
  pub turn_id : Option String

-- `RuntimeEvent`
pub data RuntimeEvent : Type 0 where
  subagent : SubagentEvent → RuntimeEvent
  subagent_turn : SubagentTurnEvent → RuntimeEvent
  usage : UsageEvent → RuntimeEvent
  item : ItemEvent → RuntimeEvent

-- `CommandItem`, less what every item has.
pub record CommandBody : Type 0 where
  pub command : String
  pub cwd : Option String
  pub duration_ms : Option ℕ
  pub exit_code : Option ℕ
  pub output : Text

-- A collaboration item, by its type.
pub data CollaborationBody : Type 0 where
  create_subagent_call : String → List String → Option String → Option String → CollaborationBody
  wait_for_subagents_call : String → List String → CollaborationBody
  close_subagent_call : String → String → CollaborationBody
  resume_subagent_call : String → String → CollaborationBody
  interrupt_subagent_call : String → String → CollaborationBody
  send_subagent_input_call : String → String → List String → CollaborationBody

pub record CallOutput : Type 0 where
  pub call_id : String
  pub output : Option String
  pub error : Option String

-- What an item is, by its type. An input message is a client's.
pub data Body : Type 0 where
  message : Option Phase → List Text → Body
  reasoning_summary : List Text → Body
  command_execution : CommandBody → Body
  web_search_call : Option SearchAction → Body
  mcp_call : McpCall → Body
  called : FunctionCall → Body
  collaborates : CollaborationBody → Body
  function_call_output : CallOutput → Body
  input_message : String → Body

-- `OutputItem`, `AgentSessionItem`
pub record Item : Type 0 where
  pub id : String
  pub turn_id : String
  pub status : ItemStatus
  pub body : Body

-- `OutputPosition`
pub record OutputPosition : Type 0 where
  pub index : ℕ
  pub item : Item

-- `Turn`. Its error is a code and a message.
pub record Turn : Type 0 where
  pub id : String
  pub session_id : String
  pub agent_id : String
  pub subagent_id : Option String
  pub created_at : ℕ
  pub started_at : Option ℕ
  pub completed_at : Option ℕ
  pub status : TurnStatus
  pub error : Option (String × String)
  pub usage : Option TokenUsage

-- `Subagent`
pub record Subagent : Type 0 where
  pub id : String
  pub session_id : String
  pub parent_agent_id : String
  pub name : Option String
  pub instructions : Option String
  pub status : SubagentStatus
  pub opened_at : ℕ
  pub closed_at : Option ℕ

-- A required action: a function call that waits for the client.
pub record Action : Type 0 where
  pub turn_id : String
  pub call_id : String
  pub name : String
  pub arguments : String

pub data SessionStatus : Type 0 where
  idle : SessionStatus
  in_progress : SessionStatus
  requires_action : SessionStatus
  failed : SessionStatus

-- The part of the session resource that events change, and what they read of it.
pub record SessionView : Type 0 where
  pub id : String
  pub agent_id : String
  pub status : SessionStatus
  pub required_actions : List Action
  pub usage : Option TokenUsage

-- `session_id` and `turn_id` of an event, and the item and index that it is about.
pub record Place : Type 0 where
  pub session_id : String
  pub turn_id : String
  pub item_id : String
  pub output_index : ℕ

-- `AgentSessionEvent`, less its random identifier.
pub data Published : Type 0 where
  item_added : String → String → Option ℕ → Item → Published
  item_done : String → String → ℕ → Item → Published
  content_part_added : Place → ℕ → Text → Published
  output_text_delta : Place → ℕ → Text → Published
  output_text_done : Place → ℕ → Text → Published
  content_part_done : Place → ℕ → Text → Published
  summary_part_added : Place → ℕ → Text → Published
  summary_text_delta : Place → ℕ → Text → Published
  summary_text_done : Place → ℕ → Text → Published
  summary_part_done : Place → ℕ → Text → Option ItemStatus → Published
  command_output_delta : Place → Text → Published
  requires_action : SessionView → Published
  subagent_created : Subagent → Published
  subagent_closed : Subagent → Published
  subagent_active : Subagent → Published
  turn_created : Turn → Published
  turn_in_progress : Turn → Published
  turn_ended : Turn → Published
  session_in_progress : SessionView → Published
  session_idle : SessionView → Published
  session_failed : SessionView → Published
