-- ===== src/Stream/Items.antt =====
-- session-events.ts, output items: `resolveSlot` and what every kind of item writes. A function that
-- applies an event to its slot gives the list of its writes.
use cf_open_agents_api.Prelude.{
  ℕ, ◌+◌, String, Option, none, some, List, [], ◌∷◌, ◌++◌, lookup, nat_eq, string_eq, ◌==◌,
  if◌then◌else◌,
}
use Prim.Native.String.{◌++◌ as text_append}
use cf_open_agents_api.Stream.Types.{
  ItemKind, delta, text, ItemEvent, Item, OutputPosition, Place, item_added, item_done,
}
use cf_open_agents_api.Stream.Rows.{Streamed, Write, put_item, put_output, put_output_count, append}

-- `ItemSlot`
pub record Slot : Type 0 where
  pub session_id : String
  pub turn_id : String
  pub kind : String
  pub key : String
  pub previous : Option OutputPosition
  pub id : String
  pub index : ℕ

abbrev pub or_else : {A : Type 0} → Option A → A → A
or_else none a = a
or_else (some b) a = b

-- `SessionKinds.subagentItem(id)`
abbrev pub subagent_kind : String → String
subagent_kind subagent_id = text_append "subagent_item:" subagent_id

-- `SessionKinds.item`, or the kind of a subagent's items; an empty identifier is none.
abbrev pub item_kind : Option String → String
item_kind none = "item"
item_kind (some subagent_id) = if subagent_id == "" then "item" else subagent_kind subagent_id

-- The key of an item's position in `SessionKinds.output`.
abbrev pub output_key : String → String → String
output_key turn_id id = text_append turn_id (text_append ":" id)

-- The prefix of a new item's identifier.
abbrev pub id_prefix : ItemKind → String
id_prefix (delta t) = "msg"
id_prefix (text t p) = "msg"
id_prefix _ = "item"

abbrev pub slot_id : Option OutputPosition → String → String
slot_id none made = made
slot_id (some position) made = position.item.id

abbrev pub slot_index : Option OutputPosition → Option ℕ → ℕ
slot_index none count = or_else count 0
slot_index (some position) count = position.index

-- `resolveSlot(db, record, event)`, with the identifier that `identifier` would make of a prefix.
unfoldable pub resolve_slot : (String → String) → String → String → Streamed → ItemEvent → Slot
resolve_slot identifier session_id execution_turn s event =
    let turn_id = or_else event.turn_id execution_turn in
    let key = output_key turn_id event.id in
    let previous = lookup key s.outputs in
    record {
      session_id = session_id;
      turn_id = turn_id;
      kind = item_kind event.subagent_id;
      key = key;
      previous = previous;
      id = slot_id previous (identifier (id_prefix event.kind));
      index = slot_index previous (lookup turn_id s.output_counts);
    }

-- `slot.save(item)`
abbrev pub save_item : Slot → Item → List Write
save_item slot item =
    put_item slot.kind item ∷ put_output slot.key (record { index = slot.index; item = item }) ∷ []

-- `if (!previous) slot.added(item)`
unfoldable pub added_if_new : Slot → Option OutputPosition → Item → List Write
added_if_new slot (some position) item = []
added_if_new slot none item =
    put_output_count slot.turn_id (slot.index + 1)
    ∷ append (item_added slot.session_id slot.turn_id (some slot.index) item)
    ∷ []

-- `itemDone(slot, item)`
abbrev pub done : Slot → Item → List Write
done slot item = append (item_done slot.session_id slot.turn_id slot.index item) ∷ []

abbrev pub place_of : Slot → Item → Place
place_of slot item = record {
  session_id = slot.session_id;
  turn_id = slot.turn_id;
  item_id = item.id;
  output_index = slot.index;
}

-- Stored, positioned and published done in one step.
unfoldable pub completes : Slot → Item → List Write
completes slot item = added_if_new slot slot.previous item ++ save_item slot item ++ done slot item
