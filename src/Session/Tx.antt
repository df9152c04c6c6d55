-- ===== src/Session/Tx.antt =====
-- persistence/session-tx.ts over the rows of a session's object. The kinds that the transitions here
-- read are fields of `Rows`; the rows of the others are `rest`. A row's size is what its JSON text
-- and keys encode to, so it is an argument.
use cf_open_agents_api.Prelude.{
  ℕ, String, Bool, false, ◌&&◌, ◌||◌, not, Option, none, some, List, [], ◌∷◌, ◌++◌, Result, ok, err,
  if◌then◌else◌, ltb, ◌==◌, nat_eq, string_eq,
}
use cf_open_agents_api.Session.Record.{
  Execution, AgentSession, EnvironmentRef, SessionRecord, SessionError, invalid_session_state,
  session_not_found, superseded, record_too_large, is_current, migrate, is_valid,
}

pub data EnvironmentStatus : Type 0 where
  pending : EnvironmentStatus
  connected : EnvironmentStatus
  disconnected : EnvironmentStatus
  failed : EnvironmentStatus

-- The events that these transitions emit, less their random identifiers.
pub data SessionEvent (E : Type 0) : Type 0 where
  environment_changed : String → Option String → EnvironmentRef → EnvironmentStatus → SessionEvent E
  session_failed : AgentSession E → SessionEvent E

pub record Rows (R X E S : Type 0) : Type 0 where
  -- `SessionKinds.state`, under its two identifiers
  pub session : Option (SessionRecord R X E S)
  pub tombstone : Option String
  pub environment : Option EnvironmentStatus
  pub rest : List String
  pub events : List (SessionEvent E)

-- The bytes of a row, keys included.
pub record Sizes (R X E S : Type 0) : Type 0 where
  pub of_record : SessionRecord R X E S → ℕ
  pub of_tombstone : String → ℕ
  pub of_environment : EnvironmentStatus → ℕ
  pub of_event : SessionEvent E → ℕ

-- `MAX_ROW_BYTES`
abbrev pub max_row_bytes : ℕ
max_row_bytes = 1900000

-- Code over some rows, which may throw.
abbrev pub Tx : Type 0 → Type 0 → Type 0
Tx W A = W → Result SessionError A × W

-- One piece of code after another: a throw ends both.
unfoldable pub and_then : {W A B : Type 0} → Tx W A → (A → Tx W B) → Tx W B
and_then m f s = elim (m s).0 [ err e ↦ (err e, (m s).1) | ok a ↦ f a (m s).1 ]

-- `transaction(closure)`: a throw restores the rows.
unfoldable pub transaction : {W A : Type 0} → Tx W A → Tx W A
transaction m s = elim (m s).0 [ err e ↦ (err e, s) | ok a ↦ (ok a, (m s).1) ]

abbrev pub answers : {W A : Type 0} → Result SessionError A → Tx W A
answers r s = (r, s)

-- A row of some size is written, or refused.
unfoldable pub write : {W : Type 0} → ℕ → (W → W) → Tx W (Unit {0})
write bytes change s =
    if ltb max_row_bytes bytes then (err record_too_large, s) else (ok tt, change s)

abbrev pub present :
    {R X E S : Type 0}
    → Option (SessionRecord R X E S)
    → Result SessionError (SessionRecord R X E S)
present none = err session_not_found
present (some r) = if r.deleted then err session_not_found else ok r

abbrev pub same_execution : {R X : Type 0} → Option (Execution R X) → Execution R X → Bool
same_execution none execution = false
same_execution (some x) execution =
    x.generation == execution.generation && x.turn_id == execution.turn_id

abbrev pub matching :
    {R X E S : Type 0}
    → Execution R X
    → Option (SessionRecord R X E S)
    → Result SessionError (SessionRecord R X E S)
matching execution none = err superseded
matching execution (some r) =
    if r.deleted || not (same_execution r.execution execution) then err superseded else ok r

module _ {R X E S : Type 0} (sizes : Sizes R X E S) where
  unfoldable pub put_session : SessionRecord R X E S → Tx (Rows R X E S) (Unit {0})
  put_session r = write (sizes.of_record r) (λ s. record s { session = some r })

  -- `session()` once its record is migrated: an upgraded one is written back.
  unfoldable pub admit_record :
      SessionRecord R X E S
      → SessionRecord R X E S
      → Tx (Rows R X E S) (Option (SessionRecord R X E S))
  admit_record original r s =
      if not (is_valid r)
      then (err invalid_session_state, s)
      else if is_current original
      then (ok (some r), s)
      else and_then (put_session r) (λ _. answers (ok (some r))) s

  -- `session()` of a stored record.
  unfoldable pub read_record :
      SessionRecord R X E S → Tx (Rows R X E S) (Option (SessionRecord R X E S))
  read_record original s = elim (migrate original) [
    | err e ↦ (err e, s)
    | ok r ↦ admit_record original r s
  ]

  unfoldable pub stored_session :
      Option (SessionRecord R X E S) → Tx (Rows R X E S) (Option (SessionRecord R X E S))
  stored_session none s = (ok none, s)
  stored_session (some original) s = read_record original s

  -- `session()`
  unfoldable pub session : Tx (Rows R X E S) (Option (SessionRecord R X E S))
  session s = stored_session s.session s

  -- `requireSession()`
  unfoldable pub require_session : Tx (Rows R X E S) (SessionRecord R X E S)
  require_session = and_then session (λ found. answers (present found))

  -- `save(record)`
  unfoldable pub save : SessionRecord R X E S → Tx (Rows R X E S) (Unit {0})
  save r s = if is_valid r then put_session r s else (err invalid_session_state, s)

  -- `emit(event)`
  unfoldable pub emit : SessionEvent E → Tx (Rows R X E S) (Unit {0})
  emit event = write (sizes.of_event event) (λ s. record s { events = s.events ++ event ∷ [] })

  -- `fenced(execution)`
  unfoldable pub fenced : Execution R X → Tx (Rows R X E S) (SessionRecord R X E S)
  fenced execution = and_then session (λ found. answers (matching execution found))
