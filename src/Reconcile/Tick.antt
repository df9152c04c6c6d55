-- ===== src/Reconcile/Tick.antt =====
-- session-reconcile.ts and runtime.ts: the world of a tick, its effects, and the calls of a driver. A
-- transaction runs at once; while a driver is asked, others may change the store and time passes, so
-- the driver's answer says how both stand when it arrives. What was asked and what was written is
-- kept, newest first.
use cf_open_agents_api.Prelude.{
  ℕ, String, Bool, true, false, not, ◌&&◌, Option, none, some, List, ◌∷◌, Result, ok, err, ◌==◌,
  nat_eq, string_eq,
}
use cf_open_agents_api.Stream.Rows.{StreamError}
use cf_open_agents_api.Errors.Crossing.{
  CrossingFailure, EventCode, RuntimeFailure, transport_failure,
}
use cf_open_agents_api.Errors.Domain.{
  DefiniteError, DomainError, definite, crossing, runtime, unanswered,
}
use cf_open_agents_api.Errors.Session.{PersistenceFailure}
use cf_open_agents_api.Errors.Boundary.{Thrown, rejected, refused}
use cf_open_agents_api.Turns.State.{
  Checkpointed, TurnExecution, RuntimeCommand, TurnRecord, Live, RuntimeBatch,
}

-- What a driver is asked.
pub data Request : Type 0 where
  start : String → Request
  control : String → RuntimeCommand → Request
  poll : ℕ → ℕ → Request
  checkpoint : Request
  stop : Request

pub record Asked : Type 0 where
  pub request : Request
  pub at : ℕ

-- The row of the session's record: there, absent, or one on which a transaction fails: the record does
-- not migrate or validate (`InvalidSessionState`), or the storage refuses (`StorageFailure`).
pub data SessionRow : Type 0 where
  row_there : SessionRow
  row_absent : SessionRow
  row_faulty : DomainError → SessionRow

-- A write of the tick: the session's row at its transaction, and the store before and after it.
pub record Written : Type 0 where
  pub row : SessionRow
  pub before : Live
  pub after : Live

-- `live` is what the store holds where the session's row is there.
pub record World : Type 0 where
  pub session_row : SessionRow
  pub live : Live
  pub now : ℕ
  pub armed : Option ℕ
  pub asked : List Asked
  pub writes : List Written

-- What an effect makes of the world: how it ends, and the world then.
abbrev pub Tick : Type 0 → Type 0
Tick A = World → Result DomainError A × World

unfoldable pub pure : {A : Type 0} → A → Tick A
pure a w = (ok a, w)

unfoldable pub fail : {A : Type 0} → DomainError → Tick A
fail e w = (err e, w)

abbrev pub bound :
    {A B : Type 0} → (A → Tick B) → Result DomainError A → World → Result DomainError B × World
bound next (ok a) w = next a w
bound next (err e) w = (err e, w)

infixl 5 ◌>>=◌ ◌>>◌
unfoldable pub ◌>>=◌ : {A B : Type 0} → Tick A → (A → Tick B) → Tick B
◌>>=◌ m next w = let r = m w in bound next r.0 r.1

abbrev pub ◌>>◌ : {A B : Type 0} → Tick A → Tick B → Tick B
first >> second = first >>= λ _. second

abbrev pub rescued :
    {A : Type 0}
    → (DomainError → Tick A)
    → Result DomainError A
    → World
    → Result DomainError A × World
rescued handler (ok a) w = (ok a, w)
rescued handler (err e) w = handler e w

-- `Effect.catchTags(…)`; a handler fails again with what it does not name.
unfoldable pub catch_tags : {A : Type 0} → Tick A → (DomainError → Tick A) → Tick A
catch_tags m handler w = let r = m w in rescued handler r.0 r.1

-- `Clock.currentTimeMillis`
unfoldable pub current_time : Tick ℕ
current_time w = (ok w.now, w)

-- A failure of a transition (session-events.ts, session-state.ts), less the text of its message.
unfoldable pub domain_of : StreamError → DomainError
domain_of (StreamError.invalid_runtime_event kind id) =
    runtime (RuntimeFailure.invalid_event EventCode.invalid_runtime_event id)
domain_of StreamError.invalid_runtime_cursor =
    runtime (RuntimeFailure.invalid_event EventCode.invalid_runtime_cursor "")
domain_of StreamError.record_too_large = crossing (CrossingFailure.record_too_large 0)
domain_of (StreamError.record_not_found id) = crossing (CrossingFailure.record_not_found "turn" id)

-- What a driver's promise ends with, and how the store and the clock stand then.
pub record Answer (A : Type 0) : Type 0 where
  pub answer : Result Thrown A
  pub session_row : SessionRow
  pub live : Live
  pub now : ℕ

-- `PromiseRuntimeDriver`, for one execution; a driver may answer by all that came before.
pub record PromiseDriver : Type 0 where
  pub revision : String
  pub long_poll : Bool
  pub start : String → World → Answer (Unit {0})
  pub control : String → RuntimeCommand → World → Answer (Unit {0})
  pub poll : ℕ → ℕ → World → Answer RuntimeBatch
  pub checkpoint : World → Answer Checkpointed
  pub stop : World → Answer (Unit {0})

abbrev pub settled : {A : Type 0} → (Thrown → DomainError) → Result Thrown A → Result DomainError A
settled on_failure (ok a) = ok a
settled on_failure (err cause) = err (on_failure cause)

-- `call(f, onFailure)`, of runtime.ts
unfoldable pub call : {A : Type 0} → Request → (World → Answer A) → (Thrown → DomainError) → Tick A
call request f on_failure w =
    let a = f w in
    (
      settled on_failure a.answer,
      record w {
        session_row = a.session_row;
        live = a.live;
        now = a.now;
        asked = record { request = request; at = w.now } ∷ w.asked;
      },
    )

-- `transport(operation)`, of runtime.ts
abbrev pub transport : String → Thrown → DomainError
transport operation cause = unanswered (transport_failure operation)

-- `fromPromiseDriver(driver)`, of runtime.ts, a function for each call
module _ (shown : ℕ → String) (driver : PromiseDriver) where
  unfoldable pub driver_start : String → Tick (Unit {0})
  driver_start id = call (start id) (driver.start id) (rejected shown "runtime.start")

  unfoldable pub driver_poll : ℕ → ℕ → Tick RuntimeBatch
  driver_poll after wait_ms =
      call (poll after wait_ms) (driver.poll after wait_ms) (transport "runtime.poll")

  unfoldable pub driver_control : String → RuntimeCommand → Tick (Unit {0})
  driver_control id command = call (control id command) (driver.control id command) (refused shown)

  unfoldable pub driver_checkpoint : Tick Checkpointed
  driver_checkpoint = call checkpoint driver.checkpoint (rejected shown "runtime.checkpoint")

  unfoldable pub driver_stop : Tick (Unit {0})
  driver_stop = call stop driver.stop (transport "runtime.stop")

abbrev same_execution : TurnExecution → Option TurnExecution → Bool
same_execution execution none = false
same_execution execution (some e) =
    e.generation == execution.generation && e.turn_id == execution.turn_id

-- Whether a record is still at an execution.
unfoldable pub is_current : TurnExecution → TurnRecord → Bool
is_current execution r = not r.deleted && same_execution execution r.execution

abbrev pub superseded : {A : Type 0} → TurnExecution → Result DomainError A
superseded execution = err (
    definite (
      DefiniteError.persistence
        (PersistenceFailure.superseded execution.turn_id execution.generation)))

abbrev pub matched_record : TurnExecution → Bool → TurnRecord → Result DomainError TurnRecord
matched_record execution true r = ok r
matched_record execution false r = superseded execution

-- `tx.fenced(execution)`
unfoldable pub fenced_record :
    TurnExecution → SessionRow → TurnRecord → Result DomainError TurnRecord
fenced_record execution row_there r = matched_record execution (is_current execution r) r
fenced_record execution row_absent r = superseded execution
fenced_record execution (row_faulty e) r = err e

-- `repo.read((tx) => tx.fenced(execution))`
unfoldable pub read_fenced : TurnExecution → Tick TurnRecord
read_fenced execution w = (fenced_record execution w.session_row w.live.stored, w)

-- A transaction that throws leaves the store as it was.
abbrev pub committed :
    {A : Type 0} → World → Result DomainError (A × Live) → Result DomainError A × World
committed w (err e) = (err e, w)
committed w (ok (a, after)) = (
  ok a,
  record w {
    live = after;
    writes = record { row = w.session_row; before = w.live; after = after } ∷ w.writes;
  },
)

abbrev pub admitted :
    {A : Type 0}
    → TurnExecution
    → (World → Result DomainError (A × Live))
    → Bool
    → World
    → Result DomainError (A × Live)
admitted execution f true w = f w
admitted execution f false w = superseded execution

abbrev pub admitted_row :
    {A : Type 0}
    → TurnExecution
    → (World → Result DomainError (A × Live))
    → SessionRow
    → World
    → Result DomainError (A × Live)
admitted_row execution f row_there w = admitted execution f (is_current execution w.live.stored) w
admitted_row execution f row_absent w = superseded execution
admitted_row execution f (row_faulty e) w = err e

-- `fenced(tick, f)`: one transaction on the record as re-read and matched to the execution.
unfoldable pub fenced :
    {A : Type 0} → TurnExecution → (World → Result DomainError (A × Live)) → Tick A
fenced execution f w = committed w (admitted_row execution f w.session_row w)
