-- ===== src/Turns/Once.antt =====
-- session-state.ts, `acceptInput` and `acceptToolResult`: a request and an answer count once.
use cf_open_agents_api.Prelude.{
  ℕ, ◌≡◌, refl, sym, ap, ◌∙◌, String, Bool, true, false, not, ◌||◌, Option, none, some, List,
  Result, ok, err, lookup, lookup-insert_self, if◌then◌else◌, ◌==◌, string_eq, Bool-cases,
  Option-cases, inl, inr, guard, ◌>>◌, >>=-eq-ok, >>-eq-ok, distinct,
}
use cf_open_agents_api.Stream.Types.{Action}
use cf_open_agents_api.Stream.Accept.{ToolResult, record_tool_result}
use cf_open_agents_api.Stream.Actions.{call_ids}
use cf_open_agents_api.Turns.State.{Live, TurnExecution, TurnRecord}
use cf_open_agents_api.Turns.Input.{
  InputEvent, InputError, idempotency_conflict, session_failed, turn_checkpointing, too_many_images,
  unknown_tool_call, Capabilities, Drawn, Protocol, Keyed, input_of_key, accept_input,
  accept_input_events, without_action, accept_tool_result, result_accepted, result_of_call,
  output_has_image, image_results_unsupported, is_failed_phase, is_checkpointing, session_not_found,
}
use cf_open_agents_api.Turns.Deleted.{lifted, resumed-stored, events_deleted}
use cf_open_agents_api.Turns.Answers.{waits, removed-gone, not_waiting}

not_deleted : (b : Bool) → guard (not b) session_not_found ≡ ok tt → b ≡ false
not_deleted true h = absurd (cc)
not_deleted false h = refl

abbrev keyed_or : Keyed → Result InputError Keyed → Keyed
keyed_or k (ok b) = b
keyed_or k (err e) = k

module _ (protocol : Protocol) (driver : TurnRecord → Result InputError Capabilities)
    (drawn : ℕ → Drawn) (now : ℕ) (events : List InputEvent) (key : String) (k b : Keyed) where
  -- What a request that is accepted under a key leaves: the key's fingerprint, and no deleted session.
  abbrev Kept : Type 0
  Kept =
      (lookup key b.idempotency ≡ some (protocol.fingerprint events))
      × (k.live.stored.deleted ≡ b.live.stored.deleted)

  -- A key that is known, and one that is not.
  known_key :
      (previous : String)
      → lookup key k.idempotency ≡ some previous
      → input_of_key protocol driver drawn now events key k (some previous) ≡ ok b
      → Kept
  unfolding input_of_key
  known_key previous e h = elim (Bool-cases (previous == protocol.fingerprint events)) [
    | inl t ↦
        (let same : k ≡ b = ap (keyed_or k) (rw t at h) in
          (
            ap (λ x. lookup key x.idempotency) (sym same)
                ∙ e
                ∙ ap some ((string_eq.equal_iff previous (protocol.fingerprint events)).0 t),
            ap (λ x. x.live.stored.deleted) same,
          ))
    | inr t ↦ absurd (cc)
  ]

  new_key : input_of_key protocol driver drawn now events key k none ≡ ok b → Kept
  unfolding input_of_key
  new_key h =
      let (g1, h1) =
        >>-eq-ok (guard (not (is_failed_phase k.live.stored.phase)) session_failed) _ h in
      let (g2, h2) =
        >>-eq-ok (guard (not (is_checkpointing k.live.stored.phase)) turn_checkpointing) _ h1 in
      let (resolved, g3, h3) = >>=-eq-ok (driver k.live.stored) _ h2 in
      let (g4, h4) = >>-eq-ok (guard (protocol.image_limit_kept events) too_many_images) _ h3 in
      let (live, e1, e2) =
        >>=-eq-ok (accept_input_events protocol resolved drawn 0 events k.live) _ h4 in
      (
        ap (λ r. lookup key (keyed_or k r).idempotency) (sym e2)
            ∙ lookup-insert_self key (protocol.fingerprint events) k.idempotency,
        events_deleted protocol resolved drawn 0 events k.live live e1
            ∙ ap (λ r. (keyed_or k r).live.stored.deleted) e2,
      )

  key_kept :
      accept_input protocol driver drawn now events key k ≡ ok b
      → (k.live.stored.deleted ≡ false) × Kept
  unfolding accept_input
  key_kept h =
      let (there, asked) = >>-eq-ok (guard (not k.live.stored.deleted) session_not_found) _ h in
      (
        not_deleted k.live.stored.deleted there,
        elim (Option-cases (lookup key k.idempotency)) [
          | inl e ↦
              new_key (sym (ap (input_of_key protocol driver drawn now events key k) e) ∙ asked)
          | inr (previous, e) ↦
              known_key previous e
                (sym (ap (input_of_key protocol driver drawn now events key k) e) ∙ asked)
        ],
      )

-- Once a request is accepted under a key, a request under that key changes nothing: it is accepted
-- again when its events have the same fingerprint, and is a conflict when they have not, whatever
-- the driver, the time and the identifiers are then, and although the driver may then throw.
pub input_once :
    (protocol : Protocol) (driver later_driver : TurnRecord → Result InputError Capabilities)
    (drawn later_drawn : ℕ → Drawn) (now later : ℕ) (events again : List InputEvent) (key : String)
    (k b : Keyed)
    → accept_input protocol driver drawn now events key k ≡ ok b
    → accept_input protocol later_driver later_drawn later again key b ≡ (
        if protocol.fingerprint events == protocol.fingerprint again
        then ok b
        else err idempotency_conflict)
unfolding accept_input input_of_key
input_once protocol driver later_driver drawn later_drawn now later events again key k b h =
    let (there, kept) = key_kept protocol driver drawn now events key k b h in
    rw (sym kept.1 ∙ there, kept.0) refl

result_accepted-actions :
    (drawn : Drawn) (event : ToolResult) (live after : Live) (execution : TurnExecution)
    (left : List Action)
    → result_accepted drawn event live execution left ≡ ok after
    → left ≡ after.stored.session.required_actions
unfolding result_accepted
result_accepted-actions drawn event live after execution left h =
    let (writes, e1, e2) =
      >>=-eq-ok (record_tool_result drawn.identifier live.stored.session.id event live.rows) _ h in
    ap (λ r. r.session.required_actions) (resumed-stored left event.turn_id _ after e2)

result_of_call-left :
    (drawn : Drawn) (event : ToolResult) (live after : Live) (execution : Option TurnExecution)
    (found : Option (List Action))
    → result_of_call drawn event live execution found ≡ ok after
    → found ≡ some after.stored.session.required_actions
result_of_call-left drawn event live after (some execution) (some left) h =
    ap some (result_accepted-actions drawn event live after execution left (lifted _ after h))
result_of_call-left drawn event live after execution none h = absurd (cc)
result_of_call-left drawn event live after none (some left) h = absurd (cc)

no_call :
    (drawn : Drawn) (event : ToolResult) (live : Live) (execution : Option TurnExecution)
    → result_of_call drawn event live execution none ≡ err (unknown_tool_call event.call_id)
no_call drawn event live none = refl
no_call drawn event live (some execution) = refl

-- A client's answer to a call is accepted once: when no two required actions are of one call and an
-- answer is accepted, no action of its call waits any more, and the same answer is refused then,
-- whatever it would draw.
pub answered_once :
    (protocol : Protocol) (driver : Capabilities) (drawn later : Drawn) (event : ToolResult)
    (live after : Live)
    → distinct (call_ids live.stored.session.required_actions) ≡ true
    → accept_tool_result protocol driver drawn event live ≡ ok after
    → (waits event after.stored.session.required_actions ≡ false)
      × (accept_tool_result protocol driver later event after
          ≡ err (unknown_tool_call event.call_id))
unfolding accept_tool_result
answered_once protocol driver drawn later event live after d h =
    let (passes, called) =
      >>-eq-ok
        (guard (driver.images || not (output_has_image protocol event.output))
          image_results_unsupported)
        _ h in
    let taken = result_of_call-left drawn event live after live.stored.execution _ called in
    let gone =
      removed-gone event live.stored.session.required_actions after.stored.session.required_actions
        d taken in
    (
      gone,
      ap
            (λ r.
              r
              >> result_of_call later event after after.stored.execution
                  (without_action event after.stored.session.required_actions))
            passes
          ∙ ap (result_of_call later event after after.stored.execution)
              (not_waiting event after.stored.session.required_actions gone)
          ∙ no_call later event after after.stored.execution,
    )
