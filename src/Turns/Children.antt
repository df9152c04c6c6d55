-- ===== src/Turns/Children.antt =====
-- session-state.ts: how a turn ends, and the child turns that `complete` closes.
use cf_open_agents_api.Prelude.{
  ℕ, String, Bool, true, false, not, ◌||◌, Option, none, some, List, [], ◌∷◌, ◌++◌, if◌then◌else◌,
  contains, filter, ◌==◌, string_eq,
}
use cf_open_agents_api.Stream.Types.{Turn, TurnStatus, turn_ended}
use cf_open_agents_api.Stream.Rows.{Streamed, put_turn, append, all_written}
use cf_open_agents_api.Stream.Items.{or_else, subagent_kind}
use cf_open_agents_api.Stream.Finish.{finish_output_items}

-- `status`
pub data Ending : Type 0 where
  completed : Ending
  cancelled : Ending
  failed : Ending

abbrev pub ending_status : Ending → TurnStatus
ending_status Ending.completed = TurnStatus.completed
ending_status Ending.cancelled = TurnStatus.cancelled
ending_status Ending.failed = TurnStatus.failed

abbrev pub known_turn_errors : List String
known_turn_errors =
    "context_length_exceeded" ∷ "session_budget_exceeded" ∷ "usage_limit_exceeded"
    ∷ "rate_limit_exceeded" ∷ "server_overloaded" ∷ "cyber_policy" ∷ "connection_failed"
    ∷ "server_error" ∷ "authentication_error" ∷ "invalid_request" ∷ "resource_not_found"
    ∷ "sandbox_error" ∷ "executor_version_incompatible" ∷ "active_turn_not_steerable"
    ∷ "request_timeout" ∷ "internal_error" ∷ []

-- The error of a turn; an empty text is no error.
unfoldable pub turn_error : Option String → Option (String × String)
turn_error none = none
turn_error (some error) =
    if error == ""
    then none
    else some (if contains known_turn_errors error then error else "internal_error", error)

-- `isIndeterminate(error)`, with JavaScript's `endsWith("_uncertain")`
unfoldable pub is_indeterminate : (String → Bool) → Option String → Bool
is_indeterminate ends_uncertain none = false
is_indeterminate ends_uncertain (some error) = error == "outcome_unknown" || ends_uncertain error

abbrev pub is_failed : Ending → Bool
is_failed Ending.failed = true
is_failed _ = false

abbrev pub is_cancelled : Ending → Bool
is_cancelled Ending.cancelled = true
is_cancelled _ = false

abbrev pub turn_rows : List (String × Turn) → List Turn
turn_rows [] = []
turn_rows ((id, turn) ∷ rows) = turn ∷ turn_rows rows

abbrev is_in_progress : Turn → Bool
is_in_progress turn = elim turn.status [ TurnStatus.in_progress ↦ true | _ ↦ false ]

abbrev is_waiting : Turn → Bool
is_waiting turn = elim turn.status [ TurnStatus.waiting ↦ true | _ ↦ false ]

abbrev is_child : Turn → Bool
is_child turn = elim turn.subagent_id [ none ↦ false | some id ↦ not (id == "") ]

-- `openChildTurns`
unfoldable pub open_child_turns : Ending → Streamed → List Turn
open_child_turns Ending.completed s = turn_rows s.pending_turns
open_child_turns ending s =
    filter is_child (filter is_in_progress (turn_rows s.turns))
    ++ filter is_child (filter is_waiting (turn_rows s.turns))

abbrev pub ended_child : Ending → ℕ → Option (String × String) → Turn → Turn
ended_child Ending.completed now error pending = pending
ended_child ending now error pending = record pending {
  status = ending_status ending;
  completed_at = some now;
  error = error;
}

-- The body of `closeChildTurns`' loop.
unfoldable pub close_child :
    String → Ending → ℕ → Option (String × String) → Turn → Streamed → Streamed
close_child session_id ending now error pending s =
    let child = ended_child ending now error pending in
    let after = all_written (put_turn child ∷ []) s in
    all_written
      (finish_output_items session_id child.id (subagent_kind (or_else child.subagent_id "")) after
        ++ append (turn_ended child) ∷ [])
      after

unfoldable pub close_children :
    String → Ending → ℕ → Option (String × String) → List Turn → Streamed → Streamed
close_children session_id ending now error [] s = s
close_children session_id ending now error (t ∷ ts) s =
    close_children session_id ending now error ts (close_child session_id ending now error t s)

-- `closeChildTurns`
unfoldable pub close_child_turns :
    String → Ending → ℕ → Option (String × String) → Streamed → Streamed
close_child_turns session_id ending now error s =
    record (close_children session_id ending now error (open_child_turns ending s) s) {
      pending_turns = [];
    }
