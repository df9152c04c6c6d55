-- ===== src/Stream/Actions.antt =====
-- session-events.ts, `acceptFunctionCall`: the session's required actions over any event.
use cf_open_agents_api.Prelude.{
  ℕ, ◌≡◌, refl, String, true, false, ◌||◌, Option, List, [], ◌∷◌, ◌++◌, Result, ok, err, any,
  contains, distinct, ◌==◌, string_eq, inl, inr, Bool-cases, arith, subst, sym, ap, ◌∙◌,
}
use cf_open_agents_api.Stream.Types.{
  TokenUsage, RuntimeEvent, subagent, subagent_turn, usage, item, Action, SessionView, ItemEvent,
  ItemKind, collaboration, delta, text, reasoning, reasoning_delta, reasoning_part, command_start,
  command_delta, web_search, function_call, mcp, command, FunctionCall, Turn,
}
use cf_open_agents_api.Stream.Rows.{Streamed, StreamError, Write}
use cf_open_agents_api.Stream.Text.{append_nil}
use cf_open_agents_api.Stream.Items.{Slot, resolve_slot, or_else}
use cf_open_agents_api.Stream.Accept.{
  view_after, with_action, accept_runtime_event, accept_in_slot, accept_function_call, accept_usage,
  call_accepted, usage_accepted,
}
use cf_open_agents_api.Stream.Subagents.{accept_subagent_turn, runtime_record, if_known}

-- The calls that wait for the client, by their identifiers.
abbrev pub call_ids : List Action → List String
call_ids [] = []
call_ids (action ∷ actions) = action.call_id ∷ call_ids actions

-- The actions after, as the actions before and what is added to them, with no call twice.
abbrev pub Extends : List Action → List Action → Type 0
Extends before after =
    (added : List Action) × (after ≡ before ++ added) × (distinct (call_ids after) ≡ true)

same_actions : (before : List Action) → distinct (call_ids before) ≡ true → Extends before before
same_actions before d = ([], sym (append_nil before), d)

waits-call :
    (call_id : String) (actions : List Action)
    → any (λ action. action.call_id == call_id) actions ≡ contains (call_ids actions) call_id
waits-call call_id [] = refl
waits-call call_id (a ∷ actions) =
    ap (λ b. (a.call_id == call_id) || b) (waits-call call_id actions)

contains_last :
    (action : Action) (call_id : String) (actions : List Action)
    → contains (call_ids (actions ++ action ∷ [])) call_id
      ≡ (contains (call_ids actions) call_id || (action.call_id == call_id))
contains_last action call_id [] = ground arith
contains_last action call_id (a ∷ actions) = ground (arith, contains_last action call_id actions)

distinct_last :
    (action : Action) (actions : List Action)
    → contains (call_ids actions) action.call_id ≡ false
    → distinct (call_ids actions) ≡ true
    → distinct (call_ids (actions ++ action ∷ [])) ≡ true
distinct_last action [] c d = refl
distinct_last action (a ∷ actions) c d = ground (
  arith,
  contains_last action a.call_id actions,
  distinct_last action actions,
  string_eq.equal_iff a.call_id action.call_id,
  string_eq.equal_iff action.call_id a.call_id,
)

with_action-Extends :
    (turn_id : String) (event : FunctionCall) (actions : List Action)
    → distinct (call_ids actions) ≡ true
    → Extends actions (with_action turn_id event actions)
unfolding with_action
with_action-Extends turn_id event actions d =
    elim (Bool-cases (any (λ action. action.call_id == event.call_id) actions)) [
      | inl e ↦ rw e (same_actions actions d)
      | inr e ↦ rw e (
        record {
          turn_id = turn_id;
          call_id = event.call_id;
          name = event.name;
          arguments = event.arguments;
        }
            ∷ [],
        refl,
        distinct_last _ actions (sym (waits-call event.call_id actions) ∙ e) d,
      )
    ]

call_accepted-Extends :
    (slot : Slot) (view : SessionView) (event : FunctionCall) (turn : Result StreamError Turn)
    → distinct (call_ids view.required_actions) ≡ true
    → Extends view.required_actions
        (view_after view (call_accepted slot view event turn)).required_actions
call_accepted-Extends slot view event (err e) d = same_actions view.required_actions d
call_accepted-Extends slot view event (ok turn) d =
    with_action-Extends slot.turn_id event view.required_actions d

known-view :
    {A : Type 0} (view : SessionView) (ws : List Write) (r : Result StreamError A)
    → view_after view (if_known r (ws, view)) ≡ view
known-view view ws (err e) = refl
known-view view ws (ok a) = refl

usage-actions :
    (id : String) (view : SessionView) (u : TokenUsage) (pending : Option Turn)
    (turn : Result StreamError Turn)
    → (view_after view (usage_accepted id view u pending turn)).required_actions
      ≡ view.required_actions
usage-actions id view u pending (err e) = refl
usage-actions id view u pending (ok turn) = refl

accept_in_slot-Extends :
    (slot : Slot) (view : SessionView) (event : ItemEvent) (s : Streamed) (kind : ItemKind)
    → distinct (call_ids view.required_actions) ≡ true
    → Extends view.required_actions
        (view_after view
          (accept_in_slot slot view (record event { kind = kind }) s)).required_actions
unfolding accept_in_slot accept_function_call
accept_in_slot-Extends slot view event s (function_call f) d =
    call_accepted-Extends slot view f (runtime_record "turn" slot.turn_id s.turns) d
accept_in_slot-Extends slot view event s (collaboration c) d = same_actions view.required_actions d
accept_in_slot-Extends slot view event s (delta t) d = same_actions view.required_actions d
accept_in_slot-Extends slot view event s (text t phase) d = same_actions view.required_actions d
accept_in_slot-Extends slot view event s (reasoning parts b) d =
    same_actions view.required_actions d
accept_in_slot-Extends slot view event s (reasoning_delta i t) d =
    same_actions view.required_actions d
accept_in_slot-Extends slot view event s (reasoning_part i t) d =
    same_actions view.required_actions d
accept_in_slot-Extends slot view event s (command_start c cwd) d =
    same_actions view.required_actions d
accept_in_slot-Extends slot view event s (command_delta t) d = same_actions view.required_actions d
accept_in_slot-Extends slot view event s (web_search a status) d =
    same_actions view.required_actions d
accept_in_slot-Extends slot view event s (mcp m) d = same_actions view.required_actions d
accept_in_slot-Extends slot view event s (command c) d = same_actions view.required_actions d

-- No two required actions of a session are of one call: when that holds before an event, then after
-- it the session has the actions it had, in their order, then what the event added, and still no call
-- twice.
pub actions_extended :
    (now : ℕ) (identifier : String → String) (execution_turn : String) (view : SessionView)
    (event : RuntimeEvent) (s : Streamed)
    → distinct (call_ids view.required_actions) ≡ true
    → Extends view.required_actions
        (view_after view
          (accept_runtime_event now identifier execution_turn view event s)).required_actions
unfolding accept_runtime_event accept_subagent_turn accept_usage
actions_extended now identifier execution_turn view (subagent e) s d =
    same_actions view.required_actions d
actions_extended now identifier execution_turn view (subagent_turn e) s d =
    subst (λ v. Extends view.required_actions v.required_actions)
      (sym (known-view view _ (runtime_record "subagent" e.subagent_id s.subagents)))
      (same_actions view.required_actions d)
actions_extended now identifier execution_turn view (usage e) s d =
    subst (Extends view.required_actions)
      (sym (
        usage-actions _ view e.usage _
          (runtime_record "turn" (or_else e.turn_id execution_turn) s.turns)))
      (same_actions view.required_actions d)
actions_extended now identifier execution_turn view (item e) s d =
    accept_in_slot-Extends (resolve_slot identifier view.id execution_turn s e) view e s e.kind d
