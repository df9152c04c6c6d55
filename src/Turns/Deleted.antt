-- ===== src/Turns/Deleted.antt =====
-- session-state.ts, `acceptInput`: whether the session is deleted is as it was after its events.
use cf_open_agents_api.Prelude.{
  ℕ, ◌+◌, any, ◌≡◌, refl, ap, ◌∙◌, String, Bool, true, not, ◌||◌, Option, none, some, List, [], ◌∷◌,
  Result, ok, err, string_eq, guard, >>=-eq-ok, >>-eq-ok,
}
use cf_open_agents_api.Stream.Types.{Action}
use cf_open_agents_api.Stream.Rows.{StreamError}
use cf_open_agents_api.Stream.Accept.{ToolResult, record_tool_result}
use cf_open_agents_api.Turns.State.{Live, TurnExecution, TurnRecord}
use cf_open_agents_api.Turns.Queue.{require_turn, begun, enqueue_command}
use cf_open_agents_api.Turns.Input.{
  InputEvent, InputError, Capabilities, Drawn, Protocol, accept_input_events, accept_tool_result,
  lift, resumed, result_accepted, result_of_call, output_has_image, image_results_unsupported,
  messages_accepted, cancel_open, accept_input_event, accept_message, input_messages, input_cancel,
  input_tool_result, steering_unsupported, image_input_unsupported,
}

abbrev live_or : Live → Result InputError Live → Result StreamError Live
live_or live (ok l) = ok l
live_or live (err e) = ok live

abbrev stored_or : Live → Result StreamError Live → TurnRecord
stored_or live (ok l) = l.stored
stored_or live (err e) = live.stored

pub lifted : (r : Result StreamError Live) (after : Live) → lift r ≡ ok after → r ≡ ok after
lifted (ok l) after h = ap (live_or after) h
lifted (err e) after h = absurd (cc)

pub resumed-stored :
    (left : List Action) (turn_id : String) (live after : Live)
    → resumed left turn_id live ≡ ok after
    → live.stored ≡ after.stored
resumed-stored (a ∷ left) turn_id live after h = ap (stored_or live) h
resumed-stored [] turn_id live after h =
    let (turn, e1, e2) = >>=-eq-ok (require_turn turn_id live.rows) _ h in ap (stored_or live) e2

-- Whether a session is deleted that a transition leaves.
abbrev is_deleted : Result InputError Live → Bool
is_deleted (ok live) = live.stored.deleted
is_deleted (err e) = true

module _ (driver : Capabilities) (drawn : Drawn) where
  messages_accepted-deleted :
      (input : List String) (live after : Live) (execution : Option TurnExecution)
      → messages_accepted driver drawn input live execution ≡ ok after
      → live.stored.deleted ≡ after.stored.deleted
  unfolding messages_accepted begun enqueue_command
  messages_accepted-deleted input live after (some execution) h =
      let (steers, done) = >>-eq-ok (guard driver.steers steering_unsupported) _ h in
      ap is_deleted done
  messages_accepted-deleted input live after none h = ap is_deleted h

  result_accepted-deleted :
      (event : ToolResult) (live after : Live) (execution : TurnExecution) (left : List Action)
      → result_accepted drawn event live execution left ≡ ok after
      → live.stored.deleted ≡ after.stored.deleted
  unfolding result_accepted
  result_accepted-deleted event live after execution left h =
      let (writes, e1, e2) =
        >>=-eq-ok (record_tool_result drawn.identifier live.stored.session.id event live.rows) _
          h in
      ap (λ r. r.deleted) (resumed-stored left event.turn_id _ after e2)

  result_of_call-deleted :
      (event : ToolResult) (live after : Live) (execution : Option TurnExecution)
      (found : Option (List Action))
      → result_of_call drawn event live execution found ≡ ok after
      → live.stored.deleted ≡ after.stored.deleted
  result_of_call-deleted event live after (some execution) (some left) h =
      result_accepted-deleted event live after execution left (lifted _ after h)
  result_of_call-deleted event live after execution none h = absurd (cc)
  result_of_call-deleted event live after none (some left) h = absurd (cc)

  cancel_open-deleted :
      (live : Live) (execution : Option TurnExecution)
      → live.stored.deleted ≡ (cancel_open drawn live execution).stored.deleted
  unfolding enqueue_command
  cancel_open-deleted live none = refl
  cancel_open-deleted live (some execution) = refl

  -- Input neither deletes a session nor brings one back.
  event_deleted :
      (protocol : Protocol) (event : InputEvent) (live after : Live)
      → accept_input_event protocol driver drawn event live ≡ ok after
      → live.stored.deleted ≡ after.stored.deleted
  unfolding accept_input_event accept_message accept_tool_result
  event_deleted protocol (input_messages input) live after h =
      let (images, done) =
        >>-eq-ok
          (guard (driver.images || not (any protocol.message_has_image input))
            image_input_unsupported)
          _ h in
      messages_accepted-deleted input live after live.stored.execution done
  event_deleted protocol input_cancel live after h =
      cancel_open-deleted live live.stored.execution ∙ ap is_deleted h
  event_deleted protocol (input_tool_result event) live after h =
      let (images, done) =
        >>-eq-ok
          (guard (driver.images || not (output_has_image protocol event.output))
            image_results_unsupported)
          _ h in
      result_of_call-deleted event live after live.stored.execution _ done

pub events_deleted :
    (protocol : Protocol) (driver : Capabilities) (drawn : ℕ → Drawn) (i : ℕ)
    (events : List InputEvent) (live after : Live)
    → accept_input_events protocol driver drawn i events live ≡ ok after
    → live.stored.deleted ≡ after.stored.deleted
unfolding accept_input_events
events_deleted protocol driver drawn i [] live after h = ap is_deleted h
events_deleted protocol driver drawn i (event ∷ events) live after h =
    let (next, first, later) =
      >>=-eq-ok (accept_input_event protocol driver (drawn i) event live) _ h in
    event_deleted driver (drawn i) protocol event live next first
    ∙ events_deleted protocol driver drawn (i + 1) events next after later
