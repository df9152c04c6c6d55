-- ===== src/Stream/Reasoning.antt =====
-- session-events.ts, `acceptReasoning`.
use cf_open_agents_api.Prelude.{
  ℕ, zero, suc, ◌+◌, ◌-◌, Bool, true, false, ◌&&◌, Option, none, some, List, [], ◌∷◌, ◌++◌, length,
  drop, if◌then◌else◌, ltb, ◌==◌, nat_eq, string_eq,
}
use cf_open_agents_api.Stream.Types.{
  Text, ItemStatus, Body, reasoning_summary, Item, OutputPosition, Place, summary_part_added,
  summary_text_delta, summary_text_done, summary_part_done,
}
use cf_open_agents_api.Stream.Rows.{Write, append}
use cf_open_agents_api.Stream.Items.{Slot, save_item, added_if_new, done, place_of}

-- The reasoning item that an event continues.
unfoldable pub reasoning_item : Slot → Option OutputPosition → Item
reasoning_item slot none = record {
  id = slot.id;
  turn_id = slot.turn_id;
  status = ItemStatus.in_progress;
  body = reasoning_summary [];
}
reasoning_item slot (some position) = elim position.item.body [
  | reasoning_summary parts ↦ position.item
  | _ ↦ record {
    id = slot.id;
    turn_id = slot.turn_id;
    status = ItemStatus.in_progress;
    body = reasoning_summary [];
  }
]

unfoldable pub summary_of : Body → List Text
summary_of (reasoning_summary parts) = parts
summary_of _ = []

-- `ensurePart`'s loop, on the rounds that are left: the parts, and its writes.
unfoldable pub ensure_parts : Place → ℕ → List Text → List Text × List Write
ensure_parts place zero parts = (parts, [])
ensure_parts place (suc left) parts =
    let rest = ensure_parts place left (parts ++ [] ∷ []) in
    (rest.0, append (summary_part_added place (length parts) []) ∷ rest.1)

-- `ensurePart(summaryIndex)`
unfoldable pub ensure_part : Place → ℕ → List Text → List Text × List Write
ensure_part place i parts = ensure_parts place (i + 1 - length parts) parts

-- `parts[i] = text`, and `parts[i]?.text ?? ""`
abbrev pub set_part : ℕ → Text → List Text → List Text
set_part i t [] = []
set_part zero t (x ∷ xs) = t ∷ xs
set_part (suc i) t (x ∷ xs) = x ∷ set_part i t xs

abbrev pub part_at : ℕ → List Text → Text
part_at i [] = []
part_at zero (x ∷ xs) = x
part_at (suc i) (x ∷ xs) = part_at i xs

-- `text.startsWith(previous)`
abbrev pub starts_with : Text → Text → Bool
starts_with [] t = true
starts_with (c ∷ cs) [] = false
starts_with (c ∷ cs) (d ∷ ds) = d == c && starts_with cs ds

abbrev pub delta_of_part : Place → ℕ → Text → Text → List Write
delta_of_part place i before t =
    if starts_with before t && ltb (length before) (length t)
    then append (summary_text_delta place i (drop (length before) t)) ∷ []
    else []

-- The loop over `event.summary.entries()`, from an index on.
unfoldable pub accept_parts : Place → ℕ → List Text → List Text → List Text × List Write
accept_parts place i [] parts = (parts, [])
accept_parts place i (t ∷ ts) parts =
    let ready = ensure_part place i parts in
    let rest = accept_parts place (i + 1) ts (set_part i t ready.0) in
    (rest.0, ready.1 ++ delta_of_part place i (part_at i ready.0) t ++ rest.1)

-- The loop over the parts of a finished item, from an index on.
unfoldable pub parts_done : Place → Option ItemStatus → ℕ → List Text → List Write
parts_done place status i [] = []
parts_done place status i (t ∷ ts) =
    append (summary_text_done place i t)
    ∷ append (summary_part_done place i t status)
    ∷ parts_done place status (i + 1) ts

-- `acceptReasoning` of a delta, and of a part
unfoldable pub accept_reasoning_delta : Slot → ℕ → Text → List Write
accept_reasoning_delta slot i t =
    let item = reasoning_item slot slot.previous in
    let place = place_of slot item in
    let ready = ensure_part place i (summary_of item.body) in
    let next = record item {
      body = reasoning_summary (set_part i (part_at i ready.0 ++ t) ready.0);
    } in
    added_if_new slot slot.previous item
    ++ ready.1
    ++ append (summary_text_delta place i t) ∷ []
    ++ save_item slot next

unfoldable pub accept_reasoning_part : Slot → ℕ → List Write
accept_reasoning_part slot i =
    let item = reasoning_item slot slot.previous in
    let ready = ensure_part (place_of slot item) i (summary_of item.body) in
    added_if_new slot slot.previous item
    ++ ready.1
    ++ save_item slot (record item { body = reasoning_summary ready.0 })

abbrev pub reasoning_done : Slot → Bool → Item → List Text → List Write
reasoning_done slot false item parts = []
reasoning_done slot true item parts = parts_done (place_of slot item) none 0 parts ++ done slot item

abbrev pub reasoning_status : Bool → ItemStatus
reasoning_status true = ItemStatus.completed
reasoning_status false = ItemStatus.in_progress

-- `acceptReasoning` of a whole summary
unfoldable pub accept_reasoning : Slot → List Text → Bool → List Write
accept_reasoning slot summary is_completed =
    let item = reasoning_item slot slot.previous in
    let merged = accept_parts (place_of slot item) 0 summary (summary_of item.body) in
    let next : Item = record item {
      status = reasoning_status is_completed;
      body = reasoning_summary merged.0;
    } in
    added_if_new slot slot.previous item
    ++ merged.1
    ++ reasoning_done slot is_completed next merged.0
    ++ save_item slot next
