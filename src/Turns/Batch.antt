-- ===== src/Turns/Batch.antt =====
-- session-state.ts, `acceptBatch`.
use cf_open_agents_api.Prelude.{
  ℕ, ◌+◌, String, Bool, true, false, not, ◌&&◌, Option, none, some, List, [], ◌∷◌, Result, ok, err,
  if◌then◌else◌, leb, ◌==◌, nat_eq, ◌>>=◌,
}
use cf_open_agents_api.Stream.Types.{SessionView}
use cf_open_agents_api.Stream.Rows.{
  Streamed, Write, all_written, StreamError, invalid_runtime_cursor,
}
use cf_open_agents_api.Stream.Accept.{accept_runtime_event}
use cf_open_agents_api.Turns.State.{
  TurnPhase, TurnRecord, TurnCommand, Live, BatchEntry, BatchStatus, RuntimeBatch,
}

-- The record and the rows while the loop runs.
pub record Accepting : Type 0 where
  pub next : TurnRecord
  pub rows : Streamed

-- `"commands" | ActiveSession["phase"]`
pub data BatchAnswer : Type 0 where
  commands : BatchAnswer
  now_in : TurnPhase → BatchAnswer

-- The time, and the identifier that a prefix gets, are those drawn for the event of a number.
module _ (now : ℕ → ℕ) (identifier : ℕ → String → String) (turn_id : String) where
  abbrev pub moved_on :
      ℕ → Accepting → Result StreamError (List Write × SessionView) → Result StreamError Accepting
  moved_on seq a (err e) = err e
  moved_on seq a (ok (writes, view)) = ok (record {
    next = record a.next { session = view; cursor = seq };
    rows = all_written writes a.rows;
  })

  -- `{ ...acceptRuntimeEvent(tx, next, entry.event), cursor: entry.seq }`
  unfoldable pub accept_next : BatchEntry → Accepting → Result StreamError Accepting
  accept_next entry a = moved_on entry.seq a (
      accept_runtime_event (now entry.seq) (identifier entry.seq) turn_id a.next.session entry.event
        a.rows)

  -- The loop's body.
  unfoldable pub accept_entry : BatchEntry → Accepting → Result StreamError Accepting
  accept_entry entry a =
      if leb entry.seq a.next.cursor
      then ok a
      else if not (entry.seq == a.next.cursor + 1)
      then err invalid_runtime_cursor
      else accept_next entry a

  -- The loop over `batch.events`.
  unfoldable pub accept_entries : List BatchEntry → Accepting → Result StreamError Accepting
  accept_entries [] a = ok a
  accept_entries (entry ∷ entries) a = accept_entry entry a >>= accept_entries entries

abbrev pub is_completed : BatchStatus → Bool
is_completed BatchStatus.completed = true
is_completed _ = false

abbrev pub none_left : List (String × TurnCommand) → Bool
none_left [] = true
none_left (c ∷ cs) = false

abbrev is_none : Option TurnCommand → Bool
is_none none = true
is_none (some c) = false

abbrev pub sealed_phase : Bool → TurnPhase → TurnPhase
sealed_phase true phase = TurnPhase.checkpointing
sealed_phase false phase = phase

-- What `acceptBatch` saves and answers, after the loop.
unfoldable pub finish_batch :
    Option TurnCommand → BatchStatus → Live → Accepting → BatchAnswer × Live
finish_batch cancel status live a =
    let pending = is_none cancel && not (none_left live.commands) in
    let phase = sealed_phase (is_completed status && not pending) a.next.phase in
    (
      if pending then commands else now_in phase,
      record live { stored = record a.next { phase = phase }; rows = a.rows },
    )

-- `acceptBatch(tx, record, batch, cancel)`, of the fenced record.
unfoldable pub accept_batch :
    (ℕ → ℕ)
    → (ℕ → String → String)
    → String
    → RuntimeBatch
    → Option TurnCommand
    → Live
    → Result StreamError (BatchAnswer × Live)
accept_batch now identifier turn_id batch cancel live =
    accept_entries now identifier turn_id batch.events
      (record { next = live.stored; rows = live.rows })
    >>= λ a. ok (finish_batch cancel batch.status live a)
