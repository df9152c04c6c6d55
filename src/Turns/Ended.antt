-- ===== src/Turns/Ended.antt =====
-- session-state.ts, `complete`: it ends the turn, empties the queues and opens at most one next turn.
use cf_open_agents_api.Prelude.{
  ℕ, ◌+◌, ◌≡◌, refl, ap, ◌∙◌, String, Bool, true, false, ◌&&◌, ◌||◌, Option, none, some, List, [],
  ◌∷◌, ◌++◌, take, ok, ◌⊎◌, inl, inr, lookup, insert, lookup-insert, ◌==◌, string_eq, Bool-cases,
  if◌then◌else◌,
}
use cf_open_agents_api.Stream.Types.{SessionStatus, Turn, turn_ended}
use cf_open_agents_api.Stream.Rows.{Streamed, put_turn, append, all_written, written}
use cf_open_agents_api.Stream.Items.{subagent_kind, or_else}
use cf_open_agents_api.Stream.Finish.{finish_output_items}
use cf_open_agents_api.Stream.Quiet.{Quiet-turns, finish_output_items-Quiet, both}
use cf_open_agents_api.Turns.State.{TurnPhase, TurnExecution, TurnRecord, Live}
use cf_open_agents_api.Turns.Queue.{begun, with_transcript, turn_found, require_turn}
use cf_open_agents_api.Turns.Children.{
  Ending, ended_child, close_child, close_children, close_child_turns, open_child_turns, turn_error,
  is_failed, is_cancelled, is_indeterminate,
}
use cf_open_agents_api.Turns.Complete.{
  Outside, ended_record, run_queued, sealed_live, seal_turn, complete, all_input,
}

-- The record after a turn: at rest, or with the next turn, one generation on, which is about to start
-- with all the input that was queued.
abbrev pub Rests : Bool → TurnRecord → Type 0
Rests indeterminate r =
    (r.execution ≡ none)
    × (r.phase ≡ (if indeterminate then TurnPhase.failed else TurnPhase.idle))
    × (r.session.status ≡ (if indeterminate then SessionStatus.failed else SessionStatus.idle))

abbrev pub Continues : Outside → TurnRecord → List (String × List String) → TurnRecord → Type 0
Continues outside before queue r =
    (e : TurnExecution) × (r.execution ≡ some e)
    × (e.turn_id ≡ outside.next_turn)
    × (e.generation ≡ before.generation + 1)
    × (r.generation ≡ before.generation + 1)
    × (e.input
        ≡ with_transcript outside.transcript_message r.inherited_transcript (all_input queue))
    × (r.cursor ≡ 0)
    × (r.phase ≡ TurnPhase.starting)
    × (r.session.status ≡ SessionStatus.in_progress)

abbrev pub QueuesEmpty : Live → Type 0
QueuesEmpty live = (live.commands ≡ []) × (live.cancellations ≡ []) × (live.queued_input ≡ [])

-- Whether the turn ends so that no further input is run.
abbrev pub stops : Outside → Ending → Option String → Bool
stops outside ending error =
    is_cancelled ending || is_failed ending && is_indeterminate outside.ends_uncertain error

-- What the record is after a turn, by whether input that was queued may run.
abbrev pub Opened :
    Outside → Bool → Bool → TurnRecord → List (String × List String) → TurnRecord → Type 0
Opened outside indeterminate stopped before queue r =
    (((stopped ≡ true) ⊎ (queue ≡ [])) × Rests indeterminate r)
    ⊎ ((stopped ≡ false) × ¬ (queue ≡ []) × Continues outside before queue r)

abbrev pub Stored : String → Streamed → Type 0
Stored id s = (turn : Turn) × (lookup id s.turns ≡ some turn)

module _ (session_id : String) (ending : Ending) (now : ℕ) (error : Option (String × String)) where
  closed_row :
      (t : Turn) (s : Streamed)
      → let child = ended_child ending now error t in
        (close_child session_id ending now error t s).turns ≡ insert child.id child s.turns
  unfolding close_child all_written written
  closed_row t s =
      let child = ended_child ending now error t in
      let after = written (put_turn child) s in
      Quiet-turns
        (finish_output_items session_id child.id (subagent_kind (or_else child.subagent_id ""))
            after
          ++ append (turn_ended child) ∷ [])
        after (both _ _ (finish_output_items-Quiet session_id child.id _ after) (tt, tt))

  inserted_row :
      (id : String) (child : Turn) (turns : List (String × Turn)) (turn : Turn)
      → lookup id turns ≡ some turn
      → (found : Turn) × (lookup id (insert child.id child turns) ≡ some found)
  inserted_row id child turns turn h = elim (Bool-cases (child.id == id)) [
    | inl e ↦ (child, lookup-insert child.id id child turns ∙ (rw e refl))
    | inr e ↦ (turn, lookup-insert child.id id child turns ∙ (rw e h))
  ]

  close_children-Stored :
      (id : String) (ts : List Turn) (s : Streamed)
      → Stored id s
      → Stored id (close_children session_id ending now error ts s)
  unfolding close_children
  close_children-Stored id [] s h = h
  close_children-Stored id (t ∷ ts) s (turn, h) =
      let child = ended_child ending now error t in
      let (found, e) = inserted_row id child s.turns turn h in
      close_children-Stored id ts (close_child session_id ending now error t s)
        (found, ap (lookup id) (closed_row t s) ∙ e)

  close_child_turns-Stored :
      (id : String) (s : Streamed)
      → Stored id s
      → Stored id (close_child_turns session_id ending now error s)
  unfolding close_child_turns
  close_child_turns-Stored id s h = close_children-Stored id (open_child_turns ending s) s h

∷-not_nil : {A : Type 0} (x : A) (xs : List A) → ¬ (x ∷ xs ≡ [])
∷-not_nil x xs h = cc

run_queued-Opened :
    (outside : Outside) (indeterminate stopped : Bool) (queue : List (String × List String))
    (live : Live)
    → Rests indeterminate live.stored
    → QueuesEmpty live
    → let after = run_queued outside stopped queue live in
      QueuesEmpty after × Opened outside indeterminate stopped live.stored queue after.stored
unfolding run_queued begun
run_queued-Opened outside indeterminate stopped [] live r q = (q, inl (inr refl, r))
run_queued-Opened outside indeterminate true (x ∷ queue) live r q = (q, inl (inl refl, r))
run_queued-Opened outside indeterminate false (x ∷ queue) live r q =
    (q, inr (refl, ∷-not_nil x queue, (_, refl, refl, refl, refl, refl, refl, refl, refl)))

rested :
    (r : TurnRecord) (now : ℕ) (error : Option String) (ending : Ending) (indeterminate : Bool)
    → Rests indeterminate (ended_record indeterminate ending now error r)
unfolding ended_record
rested r now error ending true = (refl, refl, refl)
rested r now error ending false = (refl, refl, refl)

required :
    (id : String) (s : Streamed) (turn : Turn)
    → lookup id s.turns ≡ some turn
    → require_turn id s ≡ ok turn
required id s turn h = ap (turn_found id) h

-- A turn whose row is stored is ended by `complete`, which does not throw: the queues of commands, of
-- cancellations and of input are empty. When the turn was cancelled, when its outcome is unknown or
-- when no input was queued, no turn is under way and the phase and the session's status are failed
-- if the outcome is unknown and idle if not. Else, and only else, the next turn stands one
-- generation on with cursor 0, about to start with the first hundred rows of the queued input.
pub turn_sealed :
    (outside : Outside) (execution : TurnExecution) (ending : Ending) (error : Option String)
    (live : Live)
    → Stored execution.turn_id live.rows
    → let indeterminate = is_failed ending && is_indeterminate outside.ends_uncertain error in
      (ended : Live) × (complete outside execution ending error live ≡ ok ended)
      × QueuesEmpty ended
      × Opened outside indeterminate
          (is_cancelled ending || indeterminate)
          live.stored
          (take 100 live.queued_input)
          ended.stored
unfolding complete seal_turn sealed_live ended_record
turn_sealed outside execution ending error live h =
    let (turn, e) =
      close_child_turns-Stored live.stored.session.id ending outside.now (turn_error error)
        execution.turn_id live.rows h in
    let indeterminate = is_failed ending && is_indeterminate outside.ends_uncertain error in
    let closed =
      close_child_turns live.stored.session.id ending outside.now (turn_error error) live.rows in
    let opened =
      run_queued-Opened outside indeterminate (is_cancelled ending || indeterminate)
        (take 100 live.queued_input) (sealed_live outside ending error live closed turn)
        (rested live.stored outside.now error ending indeterminate) (refl, refl, refl) in
    (
      _,
      ap (seal_turn outside ending error live closed) (required execution.turn_id closed turn e),
      opened.0,
      opened.1,
    )
