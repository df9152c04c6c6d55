-- ===== src/Stream/Finish.antt =====
-- session-events.ts, `finishOutputItems`: the items of a turn that still stream are closed. The walk
-- reads pages in ascending order, and no write of the loop moves a row, so it is the list of the
-- turn's positions before the loop; the key of an item's position is looked up in the rows as the
-- writes before it left them.
use cf_open_agents_api.Prelude.{
  ℕ, ◌+◌, String, Bool, true, false, Option, none, some, List, [], ◌∷◌, ◌++◌, if◌then◌else◌, ◌==◌,
  string_eq,
}
use cf_open_agents_api.Stream.Types.{
  Text, ItemStatus, Item, OutputPosition, Body, message, reasoning_summary, Place, item_done,
  output_text_done, content_part_done,
}
use cf_open_agents_api.Stream.Rows.{Streamed, Write, put_item, put_output, append}
use cf_open_agents_api.Stream.Reasoning.{parts_done}

-- `store.outputKey(itemId)`
abbrev pub output_key_of : String → List (String × OutputPosition) → Option String
output_key_of id [] = none
output_key_of id ((key, position) ∷ rows) =
    if position.item.id == id then some key else output_key_of id rows

-- The positions of a turn's items.
abbrev pub positions_of : String → List (String × OutputPosition) → List OutputPosition
positions_of turn_id [] = []
positions_of turn_id ((key, position) ∷ rows) =
    let rest = positions_of turn_id rows in
    if position.item.turn_id == turn_id then position ∷ rest else rest

-- The loop over `item.content.entries()`, from an index on.
unfoldable pub texts_done : Place → ℕ → List Text → List Write
texts_done place i [] = []
texts_done place i (t ∷ ts) =
    append (output_text_done place i t)
    ∷ append (content_part_done place i t)
    ∷ texts_done place (i + 1) ts

unfoldable pub body_done : Place → Body → List Write
body_done place (reasoning_summary parts) = parts_done place (some ItemStatus.incomplete) 0 parts
body_done place (message phase content) = texts_done place 0 content
body_done place _ = []

abbrev pub put_position : Option String → OutputPosition → List Write
put_position none position = []
put_position (some key) position = put_output key position ∷ []

abbrev pub is_streaming : ItemStatus → Bool
is_streaming ItemStatus.in_progress = true
is_streaming ItemStatus.completed = false
is_streaming ItemStatus.incomplete = false
is_streaming ItemStatus.failed = false

abbrev pub ended_item : Item → Item
ended_item item = record item { status = ItemStatus.incomplete }

-- The writes for an item that still streams.
unfoldable pub end_item :
    String → String → String → List (String × OutputPosition) → OutputPosition → List Write
end_item session_id turn_id kind outputs position =
    let ended = ended_item position.item in
    let place : Place = record {
      session_id = session_id;
      turn_id = turn_id;
      item_id = ended.id;
      output_index = position.index;
    } in
    put_item kind ended
      ∷ put_position (output_key_of ended.id outputs)
          (record { index = position.index; item = ended })
    ++ body_done place ended.body
    ++ append (item_done session_id turn_id position.index ended) ∷ []

-- The loop's body.
unfoldable pub finish_item :
    String → String → String → List (String × OutputPosition) → OutputPosition → List Write
finish_item session_id turn_id kind outputs position =
    if is_streaming position.item.status
    then end_item session_id turn_id kind outputs position
    else []

abbrev pub finish_items :
    String → String → String → List (String × OutputPosition) → List OutputPosition → List Write
finish_items session_id turn_id kind outputs [] = []
finish_items session_id turn_id kind outputs (p ∷ ps) =
    finish_item session_id turn_id kind outputs p ++ finish_items session_id turn_id kind outputs ps

-- `finishOutputItems(tx, record, turnId, itemKind)`. A position keeps its item's identifier and its
-- key, so the keys are those of the rows before the loop.
unfoldable pub finish_output_items : String → String → String → Streamed → List Write
finish_output_items session_id turn_id kind s =
    finish_items session_id turn_id kind s.outputs (positions_of turn_id s.outputs)
