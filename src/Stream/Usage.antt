-- ===== src/Stream/Usage.antt =====
-- session-events.ts, `acceptUsage` and the other events: the session's usage is that of its turns.
use cf_open_agents_api.Prelude.{
  ℕ, ◌≡◌, refl, sym, ap, ◌∙◌, subst, String, Option, none, some, List, [], ◌∷◌, Result, ok, err,
  All-lookup, lookup, insert, string_eq, inl, inr, Option-cases,
}
use cf_open_agents_api.Stream.Types.{
  TokenUsage, TurnStatus, RuntimeEvent, subagent, subagent_turn, usage, item, Turn, SessionView,
  requires_action, SubagentTurnEvent, UsageEvent, ItemEvent, ItemKind, collaboration, delta, text,
  reasoning, reasoning_delta, reasoning_part, command_start, command_delta, web_search,
  function_call, mcp, command, FunctionCall,
}
use cf_open_agents_api.Stream.Rows.{
  Streamed, Write, append, put_turn, put_pending_turn, all_written, written, StreamError,
}
use cf_open_agents_api.Stream.Items.{Slot, or_else, completes, resolve_slot}
use cf_open_agents_api.Stream.Subagents.{
  Outcome, usage_of, accept_subagent_turn, accept_child_turn, child_turn, put_if_new,
  runtime_record, if_known, found, child_writes,
}
use cf_open_agents_api.Stream.Accept.{
  rows_after, view_after, no_usage, add_usage, accept_runtime_event, accept_usage, accept_in_slot,
  accept_function_call, pending_usage, usage_accepted, call_accepted, call_item, view_with_action,
}
use cf_open_agents_api.Stream.Quiet.{
  Quiet, Quiet-turns, all_written-append, finish_output_items-Quiet, child_rest-Quiet,
  completes-Quiet, accept_collaboration-Quiet, accept_delta-Quiet, accept_text-Quiet,
  accept_reasoning-Quiet, accept_reasoning_delta-Quiet, accept_reasoning_part-Quiet,
  accept_command_start-Quiet, accept_command_delta-Quiet, accept_web_search-Quiet, accept_mcp-Quiet,
  accept_command-Quiet, accept_subagent-Quiet,
}
use cf_open_agents_api.Stream.Totals.{Named, Accounted, Effect, accounted}

-- What an event causes, errors included.
abbrev Causes : SessionView → Streamed → Outcome → Type 0
Causes view s o = Effect view s.turns (view_after view o) (rows_after s o).turns

Quiet-Causes :
    (view : SessionView) (s : Streamed) (ws : List Write) → Quiet ws → Causes view s (ok (ws, view))
Quiet-Causes view s ws q = inl (refl, Quiet-turns ws s q)

-- A turn's row, and writes that are not.
puts_turn :
    (turn : Turn) (ws : List Write) (s : Streamed)
    → Quiet ws
    → (all_written (put_turn turn ∷ ws) s).turns ≡ insert turn.id turn s.turns
unfolding all_written written
puts_turn turn ws s q = Quiet-turns ws (written (put_turn turn) s) q

child_put-Effect :
    (view : SessionView) (event : SubagentTurnEvent) (s : Streamed) (ws : List Write)
    → Quiet ws
    → let turn = child_turn view event (lookup event.id s.turns) in
      Effect view s.turns view (all_written (put_turn turn ∷ ws) s).turns
child_put-Effect view event s ws q =
    let turn = child_turn view event (lookup event.id s.turns) in
    inr (turn, puts_turn turn ws s q, inl (refl, refl))

child_added-Effect :
    (view : SessionView) (event : SubagentTurnEvent) (s : Streamed) (previous : Option Turn)
    → lookup event.id s.turns ≡ previous
    → let turn = child_turn view event previous in
      Effect view s.turns view
        (all_written (put_pending_turn event.id turn ∷ put_if_new previous turn) s).turns
unfolding all_written written
child_added-Effect view event s none h = inr (
  record (child_turn view event none) { status = TurnStatus.in_progress; completed_at = none },
  refl,
  inl (refl, sym (ap usage_of h)),
)
child_added-Effect view event s (some p) h = inl (refl, refl)

-- A row of a child's turn has the usage of the row before it.
child_writes-Effect :
    (status : TurnStatus) (view : SessionView) (event : SubagentTurnEvent) (s : Streamed)
    (closing : List Write)
    → Quiet closing
    → let previous = lookup event.id s.turns in
      Causes view s
        (ok (child_writes status previous (child_turn view event previous) closing, view))
unfolding child_writes
child_writes-Effect TurnStatus.completed view event s closing q =
    child_added-Effect view event s (lookup event.id s.turns) refl
child_writes-Effect TurnStatus.queued view event s closing q =
    child_put-Effect view event s _ (child_rest-Quiet _ _ TurnStatus.queued closing q)
child_writes-Effect TurnStatus.in_progress view event s closing q =
    child_put-Effect view event s _ (child_rest-Quiet _ _ TurnStatus.in_progress closing q)
child_writes-Effect TurnStatus.waiting view event s closing q =
    child_put-Effect view event s _ (child_rest-Quiet _ _ TurnStatus.waiting closing q)
child_writes-Effect TurnStatus.cancelled view event s closing q =
    child_put-Effect view event s _ (child_rest-Quiet _ _ TurnStatus.cancelled closing q)
child_writes-Effect TurnStatus.failed view event s closing q =
    child_put-Effect view event s _ (child_rest-Quiet _ _ TurnStatus.failed closing q)

accept_child_turn-Effect :
    (view : SessionView) (event : SubagentTurnEvent) (s : Streamed)
    → Causes view s (ok (accept_child_turn view event s, view))
unfolding accept_child_turn
accept_child_turn-Effect view event s =
    child_writes-Effect event.status view event s _ (finish_output_items-Quiet _ _ _ s)

pending_usage-Quiet :
    (id : String) (pending : Option Turn) (u : TokenUsage) → Quiet (pending_usage id pending u)
pending_usage-Quiet id none u = tt
pending_usage-Quiet id (some t) u = (tt, tt)

-- A row that stands under its turn's identifier.
found_by_id :
    (id : String) (turn : Turn) (turns : List (String × Turn))
    → Named turns
    → lookup id turns ≡ some turn
    → lookup turn.id turns ≡ some turn
found_by_id id turn turns n e =
    ap (λ k. lookup k turns) (All-lookup (λ k t. t.id ≡ k) id turn turns n e) ∙ e

accept_usage-Effect :
    (execution_turn : String) (view : SessionView) (event : UsageEvent) (s : Streamed)
    → Named s.turns
    → Causes view s (accept_usage execution_turn view event s)
unfolding accept_usage
accept_usage-Effect execution_turn view event s n =
    let id = or_else event.turn_id execution_turn in
    elim (Option-cases (lookup id s.turns)) [
      | inl e ↦
          subst
            (λ o.
              Causes view s (
                usage_accepted id view event.usage (lookup id s.pending_turns) (found "turn" id o)))
            (sym e) (inl (refl, refl))
      | inr (turn, e) ↦
          subst
            (λ o.
              Causes view s (
                usage_accepted id view event.usage (lookup id s.pending_turns) (found "turn" id o)))
            (sym e)
            (inr (
              record turn { usage = some event.usage },
              puts_turn _ _ s (pending_usage-Quiet id (lookup id s.pending_turns) event.usage),
              inr (
                  ap
                    (λ o. some (
                      add_usage (or_else view.usage no_usage) event.usage
                        (or_else (usage_of o) no_usage)))
                    (sym (found_by_id id turn s.turns n e))),
            ))
    ]

call_turns :
    (slot : Slot) (view : SessionView) (event : FunctionCall) (turn : Turn) (s : Streamed)
    → (rows_after s (call_accepted slot view event (ok turn))).turns
      ≡ insert turn.id (record turn { status = TurnStatus.waiting }) s.turns
call_turns slot view event turn s =
    let waits = record turn { status = TurnStatus.waiting } in
    let shown = completes slot (call_item slot event) in
    let last = put_turn waits ∷ append (requires_action (view_with_action slot view event)) ∷ [] in
    ap (λ r. r.turns) (all_written-append shown last s)
    ∙ puts_turn waits _ (all_written shown s) (tt, tt)
    ∙ ap (insert turn.id waits) (Quiet-turns shown s (completes-Quiet slot (call_item slot event)))

accept_function_call-Effect :
    (slot : Slot) (view : SessionView) (event : FunctionCall) (s : Streamed)
    → Named s.turns
    → Causes view s (accept_function_call slot view event s)
unfolding accept_function_call
accept_function_call-Effect slot view event s n =
    elim (Option-cases (lookup slot.turn_id s.turns)) [
      | inl e ↦
          subst (λ o. Causes view s (call_accepted slot view event (found "turn" slot.turn_id o)))
            (sym e) (inl (refl, refl))
      | inr (turn, e) ↦
          subst (λ o. Causes view s (call_accepted slot view event (found "turn" slot.turn_id o)))
            (sym e)
            (inr (
              record turn { status = TurnStatus.waiting },
              call_turns slot view event turn s,
              inl (refl, sym (ap usage_of (found_by_id slot.turn_id turn s.turns n e))),
            ))
    ]

known-Effect :
    {A : Type 0} (view : SessionView) (s : Streamed) (ws : List Write)
    → Causes view s (ok (ws, view))
    → (known : Result StreamError A) → Causes view s (if_known known (ws, view))
known-Effect view s ws c (err e) = inl (refl, refl)
known-Effect view s ws c (ok a) = c

accept_subagent_turn-Effect :
    (view : SessionView) (event : SubagentTurnEvent) (s : Streamed)
    → Causes view s (accept_subagent_turn view event s)
unfolding accept_subagent_turn
accept_subagent_turn-Effect view event s =
    known-Effect view s (accept_child_turn view event s) (accept_child_turn-Effect view event s)
      (runtime_record "subagent" event.subagent_id s.subagents)

accept_in_slot-Effect :
    (slot : Slot) (view : SessionView) (event : ItemEvent) (s : Streamed) (kind : ItemKind)
    → Named s.turns
    → Causes view s (accept_in_slot slot view (record event { kind = kind }) s)
unfolding accept_in_slot
accept_in_slot-Effect slot view event s (collaboration c) n =
    Quiet-Causes view s _ (accept_collaboration-Quiet slot _ c)
accept_in_slot-Effect slot view event s (delta t) n =
    Quiet-Causes view s _ (accept_delta-Quiet slot t)
accept_in_slot-Effect slot view event s (text t phase) n =
    Quiet-Causes view s _ (accept_text-Quiet slot t phase)
accept_in_slot-Effect slot view event s (reasoning parts b) n =
    Quiet-Causes view s _ (accept_reasoning-Quiet slot parts b)
accept_in_slot-Effect slot view event s (reasoning_delta i t) n =
    Quiet-Causes view s _ (accept_reasoning_delta-Quiet slot i t)
accept_in_slot-Effect slot view event s (reasoning_part i t) n =
    Quiet-Causes view s _ (accept_reasoning_part-Quiet slot i)
accept_in_slot-Effect slot view event s (command_start c cwd) n =
    Quiet-Causes view s _ (accept_command_start-Quiet slot c cwd)
accept_in_slot-Effect slot view event s (command_delta t) n =
    Quiet-Causes view s _ (accept_command_delta-Quiet slot t)
accept_in_slot-Effect slot view event s (web_search action status) n =
    Quiet-Causes view s _ (accept_web_search-Quiet slot action status)
accept_in_slot-Effect slot view event s (function_call f) n =
    accept_function_call-Effect slot view f s n
accept_in_slot-Effect slot view event s (mcp m) n = Quiet-Causes view s _ (accept_mcp-Quiet slot m)
accept_in_slot-Effect slot view event s (command c) n =
    Quiet-Causes view s _ (accept_command-Quiet slot c)

event-Effect :
    (now : ℕ) (identifier : String → String) (execution_turn : String) (view : SessionView)
    (event : RuntimeEvent) (s : Streamed)
    → Named s.turns
    → Causes view s (accept_runtime_event now identifier execution_turn view event s)
unfolding accept_runtime_event
event-Effect now identifier execution_turn view (subagent e) s n =
    Quiet-Causes view s _ (accept_subagent-Quiet now view e s)
event-Effect now identifier execution_turn view (subagent_turn e) s n =
    accept_subagent_turn-Effect view e s
event-Effect now identifier execution_turn view (usage e) s n =
    accept_usage-Effect execution_turn view e s n
event-Effect now identifier execution_turn view (item e) s n =
    accept_in_slot-Effect (resolve_slot identifier view.id execution_turn s e) view e s e.kind n

-- When every turn's row stands under its identifier and the session's usage is, count by count, the
-- sum of its turns' usage, both hold again after any event, one that is refused included.
pub usage-Accounted :
    (now : ℕ) (identifier : String → String) (execution_turn : String) (view : SessionView)
    (event : RuntimeEvent) (s : Streamed)
    → Accounted view s.turns
    → let outcome = accept_runtime_event now identifier execution_turn view event s in
      Accounted (view_after view outcome) (rows_after s outcome).turns
usage-Accounted now identifier execution_turn view event s a =
    let outcome = accept_runtime_event now identifier execution_turn view event s in
    accounted view (view_after view outcome) s.turns (rows_after s outcome).turns
      (event-Effect now identifier execution_turn view event s a.0) a
