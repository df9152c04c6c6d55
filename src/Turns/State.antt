-- ===== src/Turns/State.antt =====
-- session-state.ts and session-record.ts: the rows of a session's object that the transitions of a
-- turn read and write. A row beyond the limit throws and rolls the transition back; here rows fit.
use cf_open_agents_api.Prelude.{ℕ, String, Bool, Option, List}
use cf_open_agents_api.Stream.Types.{SessionView, RuntimeEvent}
use cf_open_agents_api.Stream.Rows.{Streamed}

-- `phase`
pub data TurnPhase : Type 0 where
  idle : TurnPhase
  failed : TurnPhase
  starting : TurnPhase
  running : TurnPhase
  checkpointing : TurnPhase

-- `Checkpoint`, less what the transitions carry along.
pub record Checkpointed : Type 0 where
  pub driver : String
  pub revision : String
  pub native : String
  pub artifacts : List (String × String)

-- `Execution`, less what `begin` takes from the deployment's configuration.
pub record TurnExecution : Type 0 where
  pub turn_id : String
  pub generation : ℕ
  pub harness : String
  pub model : String
  pub input : List String
  pub checkpoint : Option Checkpointed
  pub deadline : ℕ

-- `RuntimeCommand`
pub data RuntimeCommand : Type 0 where
  cancel : RuntimeCommand
  steer : List String → RuntimeCommand
  tool_result : String → Bool → String → RuntimeCommand

-- `Command`
pub record TurnCommand : Type 0 where
  pub id : String
  pub turn_id : String
  pub command : RuntimeCommand
  pub item_ids : List String

-- `SessionRecord`, less what the transitions carry along.
pub record TurnRecord : Type 0 where
  pub session : SessionView
  pub deleted : Bool
  pub error : Option String
  pub last_active_at : ℕ
  pub driver : String
  pub revision : String
  pub model : String
  pub generation : ℕ
  pub execution : Option TurnExecution
  pub checkpoint : Option Checkpointed
  pub inherited_transcript : Option String
  pub cursor : ℕ
  pub phase : TurnPhase

-- What the object holds: the record, the rows of events, and the queues of a turn.
pub record Live : Type 0 where
  pub stored : TurnRecord
  pub rows : Streamed
  pub commands : List (String × TurnCommand)
  pub cancellations : List (String × TurnCommand)
  pub queued_input : List (String × List String)
  pub artifacts : List (String × String)

-- An event of a batch, and `RuntimeBatch`, as `acceptBatch` reads it.
pub record BatchEntry : Type 0 where
  pub seq : ℕ
  pub event : RuntimeEvent

pub data BatchStatus : Type 0 where
  running : BatchStatus
  waiting : BatchStatus
  completed : BatchStatus
  cancelled : BatchStatus
  failed : BatchStatus
  missing : BatchStatus

pub record RuntimeBatch : Type 0 where
  pub events : List BatchEntry
  pub status : BatchStatus
  pub error : Option String
