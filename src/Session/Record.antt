-- ===== src/Session/Record.antt =====
-- persistence/session-record.ts: the record of a session, `migrate` and `validate`. What the
-- transitions only carry from record to record has the types `R` (of a configuration), `X` (of an
-- execution), `E` (of the session resource) and `S` (of the record).
use cf_open_agents_api.Prelude.{
  ℕ, String, Bool, true, false, ◌&&◌, Option, none, some, Result, ok, err, if◌then◌else◌, ◌==◌,
  nat_eq, string_eq,
}

-- `max_concurrent_subagents`: alpha records stored null.
pub data Limit : Type 0 where
  absent : Limit
  null : Limit
  limit : ℕ → Limit

pub record MultiAgent : Type 0 where
  pub enabled : Bool
  pub max_concurrent_subagents : Limit

-- `AgentConfig`
pub record AgentConfig (R : Type 0) : Type 0 where
  pub multi_agent : Option MultiAgent
  pub configured : R

pub data Phase : Type 0 where
  idle : Phase
  failed : Phase
  starting : Phase
  running : Phase
  checkpointing : Phase

-- `Execution`
pub record Execution (R X : Type 0) : Type 0 where
  pub session_id : String
  pub turn_id : String
  pub generation : ℕ
  pub agent : AgentConfig R
  pub carried : X

pub data SessionStatus : Type 0 where
  idle : SessionStatus
  in_progress : SessionStatus
  requires_action : SessionStatus
  failed : SessionStatus

-- `session.environment`: its identifier and type, unless the type is "none".
pub record EnvironmentRef : Type 0 where
  pub id : String
  pub kind : String

-- `AgentSession`
pub record AgentSession (E : Type 0) : Type 0 where
  pub id : String
  pub status : SessionStatus
  pub environment : Option EnvironmentRef
  pub error : Option String
  pub published : E

-- `SessionRecord`
pub record SessionRecord (R X E S : Type 0) : Type 0 where
  pub schema_version : Option ℕ
  pub session : AgentSession E
  pub agent : AgentConfig R
  pub generation : ℕ
  pub phase : Phase
  pub execution : Option (Execution R X)
  pub deleted : Bool
  pub kept : S

pub data SessionError : Type 0 where
  invalid_session_state : SessionError
  session_not_found : SessionError
  superseded : SessionError
  turn_active : SessionError
  session_not_deleted : SessionError
  record_too_large : SessionError

abbrev limit_value : Limit → Limit
limit_value null = absent
limit_value l = l

-- `agent(config)` of `migrate`
unfoldable pub migrated_config : {R : Type 0} → AgentConfig R → AgentConfig R
migrated_config config = elim config.multi_agent [
  | none ↦ config
  | some m ↦ record config {
    multi_agent =
        some (record m { max_concurrent_subagents = limit_value m.max_concurrent_subagents });
  }
]

abbrev pub migrated_execution : {R X : Type 0} → Option (Execution R X) → Option (Execution R X)
migrated_execution none = none
migrated_execution (some x) = some (record x { agent = migrated_config x.agent })

module _ {R X E S : Type 0} where
  -- A record of the current version is not changed.
  abbrev pub is_current : SessionRecord R X E S → Bool
  is_current r = elim r.schema_version [ none ↦ false | some v ↦ v == 2 ]

  abbrev pub upgraded : SessionRecord R X E S → SessionRecord R X E S
  upgraded r = record r {
    schema_version = some 2;
    agent = migrated_config r.agent;
    execution = migrated_execution r.execution;
  }

  -- `migrate(record)`
  unfoldable pub migrate : SessionRecord R X E S → Result SessionError (SessionRecord R X E S)
  migrate r = elim r.schema_version [
    | none ↦ ok (upgraded r)
    | some v ↦ if v == 2 then ok r else err invalid_session_state
  ]

-- `executionState`
abbrev pub runs : Phase → Bool
runs idle = false
runs failed = false
runs starting = true
runs running = true
runs checkpointing = true

-- `validate(record)`: whether it does not throw.
unfoldable pub is_valid : {R X E S : Type 0} → SessionRecord R X E S → Bool
is_valid r = elim r.execution [
  | none ↦ if runs r.phase then false else true
  | some x ↦ runs r.phase && x.generation == r.generation && x.session_id == r.session.id
]
