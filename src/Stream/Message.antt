-- ===== src/Stream/Message.antt =====
-- session-events.ts, `acceptMessage`.
use cf_open_agents_api.Prelude.{Option, none, some, List, [], ◌∷◌, ◌++◌, nat_eq, string_eq}
use cf_open_agents_api.Stream.Types.{
  Text, Phase, ItemStatus, Body, message, Item, OutputPosition, content_part_added,
  output_text_delta, output_text_done, content_part_done,
}
use cf_open_agents_api.Stream.Rows.{Write, append}
use cf_open_agents_api.Stream.Items.{Slot, save_item, added_if_new, done, place_of}

-- The assistant message that an event continues.
unfoldable pub message_item : Slot → Option OutputPosition → Option Phase → Item
message_item slot none phase = record {
  id = slot.id;
  turn_id = slot.turn_id;
  status = ItemStatus.in_progress;
  body = message phase ([] ∷ []);
}
message_item slot (some position) phase = elim position.item.body [
  | message p content ↦ position.item
  | _ ↦ record {
    id = slot.id;
    turn_id = slot.turn_id;
    status = ItemStatus.in_progress;
    body = message phase ([] ∷ []);
  }
]

-- `item.content[0]?.text ?? ""`
unfoldable pub text_of : Body → Text
text_of (message p (t ∷ ts)) = t
text_of _ = []

abbrev pub phase_of : Body → Option Phase
phase_of (message p content) = p
phase_of _ = none

unfoldable pub opened_message : Slot → Option OutputPosition → Item → List Write
opened_message slot (some position) item = []
opened_message slot none item =
    added_if_new slot none item ++ append (content_part_added (place_of slot item) 0 []) ∷ []

-- `acceptMessage` of a delta
unfoldable pub accept_delta : Slot → Text → List Write
accept_delta slot t =
    let item = message_item slot slot.previous none in
    let next = record item {
      body = message (phase_of item.body) ((text_of item.body ++ t) ∷ []);
    } in
    opened_message slot slot.previous item
    ++ append (output_text_delta (place_of slot item) 0 t) ∷ []
    ++ save_item slot next

abbrev pub delta_if_new : Slot → Option OutputPosition → Item → Text → List Write
delta_if_new slot (some position) item t = []
delta_if_new slot none item t = append (output_text_delta (place_of slot item) 0 t) ∷ []

-- `acceptMessage` of a whole text
unfoldable pub accept_text : Slot → Text → Phase → List Write
accept_text slot t phase =
    let item = message_item slot slot.previous (some phase) in
    let next : Item = record item {
      status = ItemStatus.completed;
      body = message (some phase) (t ∷ []);
    } in
    opened_message slot slot.previous item
    ++ delta_if_new slot slot.previous item t
    ++ append (output_text_done (place_of slot item) 0 t)
      ∷ append (content_part_done (place_of slot item) 0 t)
      ∷ []
    ++ done slot next
    ++ save_item slot next
