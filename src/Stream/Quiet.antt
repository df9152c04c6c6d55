-- ===== src/Stream/Quiet.antt =====
-- session-events.ts: which of an event's writes are not rows of turns. Only a child's turn, a usage
-- and a function call write such rows.
use cf_open_agents_api.Prelude.{
  ℕ, zero, suc, ◌+◌, ◌-◌, ◌≡◌, refl, String, Bool, true, false, ◌&&◌, Option, none, some, List, [],
  ◌∷◌, ◌++◌, length, All, All-append, if◌then◌else◌, ltb, nat_eq, string_eq, inl, inr, Bool-cases,
  lookup,
}
use cf_open_agents_api.Stream.Types.{
  Text, ItemStatus, Item, OutputPosition, Body, message, reasoning_summary, Place, Turn,
  Collaborate, SearchAction, Phase, Ran, McpCall, Subagent, SubagentStatus, subagent_active,
  subagent_closed, TurnStatus, SubagentEvent, SessionView, command_execution, web_search_call,
  mcp_call, called, collaborates, function_call_output, input_message,
}
use cf_open_agents_api.Stream.Rows.{
  Streamed, Write, put_item, put_output, put_output_count, put_turn, put_pending_turn, put_subagent,
  append, all_written, written,
}
use cf_open_agents_api.Stream.Items.{Slot, completes, added_if_new, place_of}
use cf_open_agents_api.Stream.Message.{
  opened_message, message_item, accept_delta, delta_if_new, accept_text,
}
use cf_open_agents_api.Stream.Calls.{
  accept_collaboration, accept_command_start, accept_command_delta, done_if_ended,
  accept_web_search, accept_command, accept_mcp,
}
use cf_open_agents_api.Stream.Reasoning.{
  ensure_part, ensure_parts, delta_of_part, accept_parts, set_part, part_at, starts_with,
  parts_done, accept_reasoning_delta, accept_reasoning_part, reasoning_done, accept_reasoning,
}
use cf_open_agents_api.Stream.Finish.{
  texts_done, body_done, end_item, finish_item, finish_items, is_streaming, put_position,
  output_key_of, finish_output_items, positions_of,
}
use cf_open_agents_api.Stream.Subagents.{
  accept_subagent, subagent_published, same_subagent_status, created_if_new, child_published,
}

-- A write that is not a turn's row, and writes of which none is.
abbrev pub IsQuiet : Write → Type 0
IsQuiet (put_turn t) = ⊥
IsQuiet _ = Unit

abbrev pub Quiet : List Write → Type 0
Quiet ws = All IsQuiet ws

pub Quiet-turns : (ws : List Write) (s : Streamed) → Quiet ws → (all_written ws s).turns ≡ s.turns
unfolding all_written written
Quiet-turns [] s q = refl
Quiet-turns (put_item k i ∷ ws) s q = Quiet-turns ws (written (put_item k i) s) q.1
Quiet-turns (put_output k p ∷ ws) s q = Quiet-turns ws (written (put_output k p) s) q.1
Quiet-turns (put_output_count k n ∷ ws) s q = Quiet-turns ws (written (put_output_count k n) s) q.1
Quiet-turns (put_turn t ∷ ws) s q = elim q.0 [ ]
Quiet-turns (put_pending_turn k t ∷ ws) s q = Quiet-turns ws (written (put_pending_turn k t) s) q.1
Quiet-turns (put_subagent a ∷ ws) s q = Quiet-turns ws (written (put_subagent a) s) q.1
Quiet-turns (append e ∷ ws) s q = Quiet-turns ws (written (append e) s) q.1

pub all_written-append :
    (ws vs : List Write) (s : Streamed)
    → all_written (ws ++ vs) s ≡ all_written vs (all_written ws s)
unfolding all_written
all_written-append [] vs s = refl
all_written-append (w ∷ ws) vs s = all_written-append ws vs (written w s)

pub both : (ws vs : List Write) → Quiet ws → Quiet vs → Quiet (ws ++ vs)
both = All-append IsQuiet

added_if_new-Quiet :
    (slot : Slot) (p : Option OutputPosition) (i : Item) → Quiet (added_if_new slot p i)
unfolding added_if_new
added_if_new-Quiet slot none i = (tt, (tt, tt))
added_if_new-Quiet slot (some p) i = tt

pub completes-Quiet : (slot : Slot) (i : Item) → Quiet (completes slot i)
unfolding completes
completes-Quiet slot i =
    both _ _ (both _ _ (added_if_new-Quiet slot slot.previous i) (tt, (tt, tt))) (tt, tt)

opened_message-Quiet :
    (slot : Slot) (p : Option OutputPosition) (i : Item) → Quiet (opened_message slot p i)
unfolding opened_message
opened_message-Quiet slot (some p) i = tt
opened_message-Quiet slot none i = both _ _ (added_if_new-Quiet slot none i) (tt, tt)

delta_if_new-Quiet :
    (slot : Slot) (p : Option OutputPosition) (i : Item) (t : Text)
    → Quiet (delta_if_new slot p i t)
delta_if_new-Quiet slot (some p) i t = tt
delta_if_new-Quiet slot none i t = (tt, tt)

pub accept_delta-Quiet : (slot : Slot) (t : Text) → Quiet (accept_delta slot t)
unfolding accept_delta
accept_delta-Quiet slot t =
    let item = message_item slot slot.previous none in
    both _ _ (both _ _ (opened_message-Quiet slot slot.previous item) (tt, tt)) (tt, (tt, tt))

pub accept_text-Quiet : (slot : Slot) (t : Text) (p : Phase) → Quiet (accept_text slot t p)
unfolding accept_text
accept_text-Quiet slot t p =
    let item = message_item slot slot.previous (some p) in
    both _ _
      (both _ _
        (both _ _
          (both _ _ (opened_message-Quiet slot slot.previous item)
            (delta_if_new-Quiet slot slot.previous item t))
          (tt, (tt, tt)))
        (tt, tt))
      (tt, (tt, tt))

ensure_parts-Quiet :
    (place : Place) (n : ℕ) (parts : List Text) → Quiet (ensure_parts place n parts).1
unfolding ensure_parts
ensure_parts-Quiet place zero parts = tt
ensure_parts-Quiet place (suc n) parts = (tt, ensure_parts-Quiet place n (parts ++ [] ∷ []))

ensure_part-Quiet :
    (place : Place) (i : ℕ) (parts : List Text) → Quiet (ensure_part place i parts).1
unfolding ensure_part
ensure_part-Quiet place i parts = ensure_parts-Quiet place (i + 1 - length parts) parts

if-Quiet : (b : Bool) (ws : List Write) → Quiet ws → Quiet (if b then ws else [])
if-Quiet true ws q = q
if-Quiet false ws q = tt

delta_of_part-Quiet :
    (place : Place) (i : ℕ) (before t : Text) → Quiet (delta_of_part place i before t)
delta_of_part-Quiet place i before t =
    if-Quiet (starts_with before t && ltb (length before) (length t)) _ (tt, tt)

accept_parts-Quiet :
    (place : Place) (i : ℕ) (ts parts : List Text) → Quiet (accept_parts place i ts parts).1
unfolding accept_parts
accept_parts-Quiet place i [] parts = tt
accept_parts-Quiet place i (t ∷ ts) parts =
    let ready = ensure_part place i parts in
    both _ _
      (both _ _ (ensure_part-Quiet place i parts)
        (delta_of_part-Quiet place i (part_at i ready.0) t))
      (accept_parts-Quiet place (i + 1) ts (set_part i t ready.0))

parts_done-Quiet :
    (place : Place) (status : Option ItemStatus) (i : ℕ) (ts : List Text)
    → Quiet (parts_done place status i ts)
unfolding parts_done
parts_done-Quiet place status i [] = tt
parts_done-Quiet place status i (t ∷ ts) = (tt, (tt, parts_done-Quiet place status (i + 1) ts))

reasoning_done-Quiet :
    (slot : Slot) (b : Bool) (item : Item) (ts : List Text) → Quiet (reasoning_done slot b item ts)
reasoning_done-Quiet slot false item ts = tt
reasoning_done-Quiet slot true item ts =
    both _ _ (parts_done-Quiet (place_of slot item) none 0 ts) (tt, tt)

pub accept_reasoning_delta-Quiet :
    (slot : Slot) (i : ℕ) (t : Text) → Quiet (accept_reasoning_delta slot i t)
unfolding accept_reasoning_delta
accept_reasoning_delta-Quiet slot i t =
    both _ _
      (both _ _ (both _ _ (added_if_new-Quiet slot slot.previous _) (ensure_part-Quiet _ i _))
        (tt, tt))
      (tt, (tt, tt))

pub accept_reasoning_part-Quiet : (slot : Slot) (i : ℕ) → Quiet (accept_reasoning_part slot i)
unfolding accept_reasoning_part
accept_reasoning_part-Quiet slot i =
    both _ _ (both _ _ (added_if_new-Quiet slot slot.previous _) (ensure_part-Quiet _ i _))
      (tt, (tt, tt))

pub accept_reasoning-Quiet :
    (slot : Slot) (ts : List Text) (b : Bool) → Quiet (accept_reasoning slot ts b)
unfolding accept_reasoning
accept_reasoning-Quiet slot ts b =
    both _ _
      (both _ _ (both _ _ (added_if_new-Quiet slot slot.previous _) (accept_parts-Quiet _ 0 ts _))
        (reasoning_done-Quiet slot b _ _))
      (tt, (tt, tt))

pub accept_command_start-Quiet :
    (slot : Slot) (c : String) (cwd : Option String) → Quiet (accept_command_start slot c cwd)
unfolding accept_command_start
accept_command_start-Quiet slot c cwd =
    both _ _ (added_if_new-Quiet slot slot.previous _) (tt, (tt, tt))

pub accept_command_delta-Quiet : (slot : Slot) (t : Text) → Quiet (accept_command_delta slot t)
unfolding accept_command_delta
accept_command_delta-Quiet slot t =
    both _ _ (both _ _ (added_if_new-Quiet slot slot.previous _) (tt, tt)) (tt, (tt, tt))

done_if_ended-Quiet :
    (slot : Slot) (status : ItemStatus) (item : Item) → Quiet (done_if_ended slot status item)
unfolding done_if_ended
done_if_ended-Quiet slot ItemStatus.in_progress item = tt
done_if_ended-Quiet slot ItemStatus.completed item = (tt, tt)
done_if_ended-Quiet slot ItemStatus.incomplete item = (tt, tt)
done_if_ended-Quiet slot ItemStatus.failed item = (tt, tt)

pub accept_web_search-Quiet :
    (slot : Slot) (a : Option SearchAction) (status : ItemStatus)
    → Quiet (accept_web_search slot a status)
unfolding accept_web_search
accept_web_search-Quiet slot a status =
    both _ _ (both _ _ (added_if_new-Quiet slot slot.previous _) (tt, (tt, tt)))
      (done_if_ended-Quiet slot status _)

pub accept_command-Quiet : (slot : Slot) (c : Ran) → Quiet (accept_command slot c)
unfolding accept_command
accept_command-Quiet slot c = completes-Quiet slot _

pub accept_mcp-Quiet : (slot : Slot) (m : McpCall) → Quiet (accept_mcp slot m)
unfolding accept_mcp
accept_mcp-Quiet slot m = completes-Quiet slot _

pub accept_collaboration-Quiet :
    (slot : Slot) (sender : String) (c : Collaborate) → Quiet (accept_collaboration slot sender c)
unfolding accept_collaboration
accept_collaboration-Quiet slot sender c = completes-Quiet slot _

texts_done-Quiet : (place : Place) (i : ℕ) (ts : List Text) → Quiet (texts_done place i ts)
unfolding texts_done
texts_done-Quiet place i [] = tt
texts_done-Quiet place i (t ∷ ts) = (tt, (tt, texts_done-Quiet place (i + 1) ts))

body_done-Quiet : (place : Place) (b : Body) → Quiet (body_done place b)
unfolding body_done
body_done-Quiet place (reasoning_summary parts) =
    parts_done-Quiet place (some ItemStatus.incomplete) 0 parts
body_done-Quiet place (message phase content) = texts_done-Quiet place 0 content
body_done-Quiet place (command_execution c) = tt
body_done-Quiet place (web_search_call a) = tt
body_done-Quiet place (mcp_call m) = tt
body_done-Quiet place (called f) = tt
body_done-Quiet place (collaborates c) = tt
body_done-Quiet place (function_call_output o) = tt
body_done-Quiet place (input_message m) = tt

put_position-Quiet : (key : Option String) (p : OutputPosition) → Quiet (put_position key p)
put_position-Quiet none p = tt
put_position-Quiet (some key) p = (tt, tt)

end_item-Quiet :
    (session turn kind : String) (outputs : List (String × OutputPosition)) (p : OutputPosition)
    → Quiet (end_item session turn kind outputs p)
unfolding end_item
end_item-Quiet session turn kind outputs p = (
  tt,
  both _ _
      (both _ _ (put_position-Quiet (output_key_of p.item.id outputs) _)
        (body_done-Quiet _ p.item.body))
      (tt, tt),
)

finish_item-Quiet :
    (session turn kind : String) (outputs : List (String × OutputPosition)) (p : OutputPosition)
    → Quiet (finish_item session turn kind outputs p)
unfolding finish_item
finish_item-Quiet session turn kind outputs p =
    if-Quiet (is_streaming p.item.status) (end_item session turn kind outputs p)
      (end_item-Quiet session turn kind outputs p)

finish_items-Quiet :
    (session turn kind : String) (outputs : List (String × OutputPosition))
    (ps : List OutputPosition)
    → Quiet (finish_items session turn kind outputs ps)
finish_items-Quiet session turn kind outputs [] = tt
finish_items-Quiet session turn kind outputs (p ∷ ps) =
    both _ _ (finish_item-Quiet session turn kind outputs p)
      (finish_items-Quiet session turn kind outputs ps)

pub finish_output_items-Quiet :
    (session turn kind : String) (s : Streamed) → Quiet (finish_output_items session turn kind s)
unfolding finish_output_items
finish_output_items-Quiet session turn kind s =
    finish_items-Quiet session turn kind s.outputs (positions_of turn s.outputs)

changed-Quiet :
    (next : Subagent) (status : SubagentStatus)
    → Quiet (elim status [
      | SubagentStatus.active ↦ append (subagent_active next) ∷ []
      | SubagentStatus.closed ↦ append (subagent_closed next) ∷ []
    ])
changed-Quiet next SubagentStatus.active = (tt, tt)
changed-Quiet next SubagentStatus.closed = (tt, tt)

subagent_published-Quiet :
    (previous : Option Subagent) (next : Subagent) → Quiet (subagent_published previous next)
unfolding subagent_published
subagent_published-Quiet none next = (tt, tt)
subagent_published-Quiet (some p) next =
    elim (Bool-cases (same_subagent_status p.status next.status)) [
      | inl e ↦ rw e tt
      | inr e ↦ rw e (changed-Quiet next next.status)
    ]

pub accept_subagent-Quiet :
    (now : ℕ) (view : SessionView) (event : SubagentEvent) (s : Streamed)
    → Quiet (accept_subagent now view event s)
unfolding accept_subagent
accept_subagent-Quiet now view event s =
    (tt, subagent_published-Quiet (lookup event.id s.subagents) _)

created_if_new-Quiet : (previous : Option Turn) (t : Turn) → Quiet (created_if_new previous t)
created_if_new-Quiet none t = (tt, tt)
created_if_new-Quiet (some p) t = tt

child_published-Quiet :
    (status : TurnStatus) (t : Turn) (closing : List Write)
    → Quiet closing
    → Quiet (child_published status t closing)
unfolding child_published
child_published-Quiet TurnStatus.in_progress t closing q = (tt, tt)
child_published-Quiet TurnStatus.waiting t closing q = tt
child_published-Quiet TurnStatus.queued t closing q = both _ _ q (tt, tt)
child_published-Quiet TurnStatus.completed t closing q = both _ _ q (tt, tt)
child_published-Quiet TurnStatus.cancelled t closing q = both _ _ q (tt, tt)
child_published-Quiet TurnStatus.failed t closing q = both _ _ q (tt, tt)

-- What follows the row of a child's turn.
pub child_rest-Quiet :
    (previous : Option Turn) (turn : Turn) (status : TurnStatus) (closing : List Write)
    → Quiet closing
    → Quiet (created_if_new previous turn ++ child_published status turn closing)
child_rest-Quiet previous turn status closing q =
    both _ _ (created_if_new-Quiet previous turn) (child_published-Quiet status turn closing q)
