-- ===== src/Stream/Subagents.antt =====
-- session-events.ts: what an event returns, `acceptSubagent` and `acceptSubagentTurn`.
use cf_open_agents_api.Prelude.{
  ℕ, String, Bool, true, false, Option, none, some, List, [], ◌∷◌, ◌++◌, Result, ok, err,
  if◌then◌else◌, lookup, string_eq,
}
use cf_open_agents_api.Stream.Types.{
  TokenUsage, TurnStatus, SubagentStatus, SubagentEvent, SubagentTurnEvent, Turn, Subagent,
  SessionView, subagent_created, subagent_closed, subagent_active, turn_created, turn_in_progress,
  turn_ended,
}
use cf_open_agents_api.Stream.Rows.{
  Streamed, Write, put_turn, put_pending_turn, put_subagent, append, StreamError,
  invalid_runtime_event,
}
use cf_open_agents_api.Stream.Items.{or_else, subagent_kind}
use cf_open_agents_api.Stream.Finish.{finish_output_items}

-- What an event does: its writes, and the session after it; or the error that it throws. A throw
-- rolls back the transaction, so what was written before it is left out.
abbrev pub Outcome : Type 0
Outcome = Result StreamError (List Write × SessionView)

abbrev pub found : {A : Type 0} → String → String → Option A → Result StreamError A
found kind id none = err (invalid_runtime_event kind id)
found kind id (some a) = ok a

-- `runtimeRecord(store, kind, id)`
abbrev pub runtime_record :
    {A : Type 0} → String → String → List (String × A) → Result StreamError A
runtime_record kind id rows = found kind id (lookup id rows)

abbrev pub same_subagent_status : SubagentStatus → SubagentStatus → Bool
same_subagent_status SubagentStatus.active SubagentStatus.active = true
same_subagent_status SubagentStatus.closed SubagentStatus.closed = true
same_subagent_status _ _ = false

abbrev closed_time : SubagentStatus → ℕ → Option ℕ
closed_time SubagentStatus.active now = none
closed_time SubagentStatus.closed now = some now

abbrev opened_or : Option Subagent → ℕ → ℕ
opened_or none at = at
opened_or (some p) at = p.opened_at

abbrev name_or : Option String → Option Subagent → Option String
name_or (some n) p = some n
name_or none none = none
name_or none (some p) = p.name

abbrev instructions_or : Option String → Option Subagent → Option String
instructions_or (some t) p = some t
instructions_or none none = none
instructions_or none (some p) = p.instructions

-- `subagentEventType`, and whether an event is published
unfoldable pub subagent_published : Option Subagent → Subagent → List Write
subagent_published none s = append (subagent_created s) ∷ []
subagent_published (some p) s =
    if same_subagent_status p.status s.status then [] else elim s.status [
      | SubagentStatus.active ↦ append (subagent_active s) ∷ []
      | SubagentStatus.closed ↦ append (subagent_closed s) ∷ []
    ]

-- `acceptSubagent`
unfoldable pub accept_subagent : ℕ → SessionView → SubagentEvent → Streamed → List Write
accept_subagent now view event s =
    let previous = lookup event.id s.subagents in
    let next : Subagent = record {
      id = event.id;
      session_id = view.id;
      parent_agent_id = or_else event.parent_id view.agent_id;
      name = name_or event.name previous;
      instructions = instructions_or event.instructions previous;
      status = event.status;
      opened_at = opened_or previous event.opened_at;
      closed_at = closed_time event.status now;
    } in
    put_subagent next ∷ subagent_published previous next

abbrev created_or : Option Turn → ℕ → ℕ
created_or none at = at
created_or (some t) at = t.created_at

abbrev pub usage_of : Option Turn → Option TokenUsage
usage_of none = none
usage_of (some t) = t.usage

-- `acceptSubagentTurn`: the turn that an event describes.
abbrev pub child_turn : SessionView → SubagentTurnEvent → Option Turn → Turn
child_turn view event previous = record {
  id = event.id;
  session_id = view.id;
  agent_id = event.subagent_id;
  subagent_id = some event.subagent_id;
  created_at = created_or previous event.started_at;
  started_at = some event.started_at;
  completed_at = event.completed_at;
  status = event.status;
  error = none;
  usage = usage_of previous;
}

abbrev pub put_if_new : Option Turn → Turn → List Write
put_if_new none t =
    put_turn (record t { status = TurnStatus.in_progress; completed_at = none }) ∷ []
put_if_new (some p) t = []

abbrev pub created_if_new : Option Turn → Turn → List Write
created_if_new none t = append (turn_created t) ∷ []
created_if_new (some p) t = []

-- What a child turn's status publishes, once its row is written.
unfoldable pub child_published : TurnStatus → Turn → List Write → List Write
child_published TurnStatus.in_progress t closing = append (turn_in_progress t) ∷ []
child_published TurnStatus.waiting t closing = []
child_published status t closing = closing ++ append (turn_ended t) ∷ []

-- What a child turn's event writes: a completed one waits for its checkpoint, the others are stored.
unfoldable pub child_writes : TurnStatus → Option Turn → Turn → List Write → List Write
child_writes TurnStatus.completed previous turn closing =
    put_pending_turn turn.id turn ∷ put_if_new previous turn
child_writes status previous turn closing =
    put_turn turn ∷ (created_if_new previous turn ++ child_published status turn closing)

-- `acceptSubagentTurn`, of a known subagent
unfoldable pub accept_child_turn : SessionView → SubagentTurnEvent → Streamed → List Write
accept_child_turn view event s =
    let previous = lookup event.id s.turns in
    let turn = child_turn view event previous in
    child_writes event.status previous turn
      (finish_output_items view.id turn.id (subagent_kind event.subagent_id) s)

abbrev pub if_known : {A : Type 0} → Result StreamError A → List Write × SessionView → Outcome
if_known (err e) next = err e
if_known (ok a) next = ok next

-- `acceptSubagentTurn`
unfoldable pub accept_subagent_turn : SessionView → SubagentTurnEvent → Streamed → Outcome
accept_subagent_turn view event s =
    if_known (runtime_record "subagent" event.subagent_id s.subagents)
      (accept_child_turn view event s, view)
