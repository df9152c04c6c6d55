-- ===== src/Session/Transitions.antt =====
-- session-state.ts: `applyEnvironmentStatus`, `markDeleted` and `purgeRecords`.
use cf_open_agents_api.Prelude.{
  String, Bool, true, false, not, ◌&&◌, Option, none, some, [], Result, ok, err, if◌then◌else◌,
  ◌==◌, string_eq,
}
use cf_open_agents_api.Session.Record.{
  Phase, Execution, EnvironmentRef, SessionStatus, SessionRecord, SessionError, session_not_found,
  turn_active, session_not_deleted, migrate,
}
use cf_open_agents_api.Session.Tx.{
  EnvironmentStatus, pending, connected, disconnected, failed, environment_changed, session_failed,
  Rows, Sizes, Tx, and_then, answers, write, require_session, save, emit,
}

abbrev pub same_status : EnvironmentStatus → EnvironmentStatus → Bool
same_status pending pending = true
same_status connected connected = true
same_status disconnected disconnected = true
same_status failed failed = true
same_status _ _ = false

-- `current === status`
abbrev pub is_status : Option EnvironmentStatus → EnvironmentStatus → Bool
is_status none status = false
is_status (some current) status = same_status current status

abbrev pub is_some : Option EnvironmentStatus → Bool
is_some none = false
is_some (some current) = true

-- The guards of `applyEnvironmentStatus`: whether a status is published after another one.
unfoldable pub publishes : Option EnvironmentStatus → EnvironmentStatus → Bool
publishes current status =
    if is_status current status
    then false
    else if same_status status pending && is_some current
    then false
    else if same_status status disconnected && not (is_status current connected)
    then false
    else if same_status status connected && is_status current failed
    then false
    else true

-- `Deleted`: its other fields are constants.
pub record Deleted : Type 0 where
  pub id : String

abbrev pub turn_of : {R X : Type 0} → Option (Execution R X) → Option String
turn_of none = none
turn_of (some x) = some x.turn_id

abbrev pub from_tombstone : Option String → Result SessionError Deleted
from_tombstone none = err session_not_found
from_tombstone (some id) = ok (record { id = id })

module _ {R X E S : Type 0} where
  -- The record of a session whose environment failed while no turn ran.
  abbrev pub failed_record : SessionRecord R X E S → SessionRecord R X E S
  failed_record r = record r {
    phase = Phase.failed;
    execution = none;
    session = record r.session {
      status = SessionStatus.failed;
      error = some "environment_setup_failed";
    };
  }

  -- `store.purge()`
  abbrev pub purge : Rows R X E S → Rows R X E S
  purge s = record { session = none; tombstone = none; environment = none; rest = []; events = [] }

  abbrev pub known_id : Rows R X E S → Option String
  known_id s = elim s.session [ none ↦ s.tombstone | some r ↦ some r.session.id ]

  abbrev pub is_live : Option (SessionRecord R X E S) → Bool
  is_live none = false
  is_live (some r) = if r.deleted then false else true

module _ {R X E S : Type 0} (sizes : Sizes R X E S) where
  -- The end of `applyEnvironmentStatus`: a failed setup fails an idle session.
  unfoldable pub fail_idle :
      SessionRecord R X E S → EnvironmentStatus → Tx (Rows R X E S) (Unit {0})
  fail_idle r failed = elim r.execution [
    | some x ↦ answers (ok tt)
    | none ↦
        and_then (save sizes (failed_record r))
          λ _. emit sizes (session_failed (failed_record r).session)
  ]
  fail_idle r status = answers (ok tt)

  unfoldable pub publish :
      SessionRecord R X E S → EnvironmentRef → EnvironmentStatus → Tx (Rows R X E S) (Unit {0})
  publish r environment status =
      and_then (write (sizes.of_environment status) (λ s. record s { environment = some status }))
        λ _.
          and_then
            (emit sizes (environment_changed r.session.id (turn_of r.execution) environment status))
            λ _. fail_idle r status

  unfoldable pub apply_to :
      SessionRecord R X E S
      → Option EnvironmentRef
      → EnvironmentStatus
      → Tx (Rows R X E S) (Unit {0})
  apply_to r none status s = (ok tt, s)
  apply_to r (some environment) status s =
      if publishes s.environment status then publish r environment status s else (ok tt, s)

  -- `applyEnvironmentStatus(tx, status)`
  unfoldable pub apply_environment_status : EnvironmentStatus → Tx (Rows R X E S) (Unit {0})
  apply_environment_status status =
      and_then (require_session sizes) (λ r. apply_to r r.session.environment status)

  unfoldable pub delete_record : SessionRecord R X E S → Tx (Rows R X E S) Deleted
  delete_record r = elim r.execution [
    | some x ↦ answers (err turn_active)
    | none ↦
        and_then (save sizes (record r { deleted = true }))
          λ _. answers (ok (record { id = r.session.id }))
  ]

  unfoldable pub delete_stored : Option (SessionRecord R X E S) → Tx (Rows R X E S) Deleted
  delete_stored none s = (from_tombstone s.tombstone, s)
  delete_stored (some stored) s = and_then (answers (migrate stored)) delete_record s

  -- `markDeleted(tx)`
  unfoldable pub mark_deleted : Tx (Rows R X E S) Deleted
  mark_deleted s = delete_stored s.session s

  -- An empty identifier is false in the source's test.
  unfoldable pub purge_as : Option String → Tx (Rows R X E S) Bool
  purge_as none s = (ok false, s)
  purge_as (some id) s =
      if id == ""
      then (ok false, s)
      else and_then (write (sizes.of_tombstone id) (λ t. record t { tombstone = some id }))
          (λ _. answers (ok true)) (purge s)

  -- `purgeRecords(tx)`
  unfoldable pub purge_records : Tx (Rows R X E S) Bool
  purge_records s =
      if is_live s.session then (err session_not_deleted, s) else purge_as (known_id s) s
