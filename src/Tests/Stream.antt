-- ===== src/Tests/Stream.antt =====
-- The events of a runtime at concrete inputs.
use Prim.Native.String.{◌++◌ as text_append}
use cf_open_agents_api.Prelude.{
  ◌≡◌, refl, String, none, some, List, [], ◌∷◌, ◌++◌, map, lookup, drop, length, string_eq,
}
use cf_open_agents_api.Stream.Types.{
  Text, TokenUsage, TurnStatus, ItemStatus, RuntimeEvent, usage, item, function_call,
  OutputPosition, Turn, SessionStatus, SessionView, Place, message, item_added, content_part_added,
}
use cf_open_agents_api.Stream.Rows.{Streamed, all_written}
use cf_open_agents_api.Stream.Items.{output_key}
use cf_open_agents_api.Stream.Reasoning.{accept_parts}
use cf_open_agents_api.Stream.Finish.{finish_output_items}
use cf_open_agents_api.Stream.Accept.{all_delivered, accept_runtime_event, view_after, rows_after}
use cf_open_agents_api.Stream.Text.{delta_event, message_at, item_place, delta_log, streamed_text}
use cf_open_agents_api.Stream.Summary.{all_followed, summary_merged, summary_followed}
use cf_open_agents_api.Stream.Totals.{Accounted}
use cf_open_agents_api.Stream.Usage.{usage-Accounted}
use cf_open_agents_api.Stream.Actions.{Extends, actions_extended}
use cf_open_agents_api.Stream.Finished.{all_closed, streaming_closed}

abbrev made : String → String
made prefix = text_append prefix "_1"

abbrev few : TokenUsage
few = record {
  input_tokens = 5;
  output_tokens = 2;
  total_tokens = 7;
  cached_tokens = 1;
  reasoning_tokens = 0;
}

abbrev more : TokenUsage
more = record {
  input_tokens = 9;
  output_tokens = 4;
  total_tokens = 13;
  cached_tokens = 1;
  reasoning_tokens = 2;
}

abbrev turn : Turn
turn = record {
  id = "t";
  session_id = "s";
  agent_id = "a";
  subagent_id = none;
  created_at = 1;
  started_at = some 1;
  completed_at = none;
  status = TurnStatus.in_progress;
  error = none;
  usage = some few;
}

abbrev view : SessionView
view = record {
  id = "s";
  agent_id = "a";
  status = SessionStatus.in_progress;
  required_actions = record { turn_id = "t"; call_id = "c0"; name = "f"; arguments = "{}" } ∷ [];
  usage = some few;
}

abbrev streaming : OutputPosition
streaming = record {
  index = 0;
  item = record {
    id = "msg_0";
    turn_id = "t";
    status = ItemStatus.in_progress;
    body = message none ((72 ∷ 105 ∷ []) ∷ []);
  };
}

abbrev rows : Streamed
rows = record {
  items = [];
  outputs = ("t:n0", streaming) ∷ [];
  output_counts = ("t", 1) ∷ [];
  turns = ("t", turn) ∷ [];
  pending_turns = [];
  subagents = [];
  log = [];
}

streamed_text_example :
    let after =
      all_delivered 9 made "t" view (map (delta_event "n1") ((72 ∷ []) ∷ (105 ∷ []) ∷ [])) rows in
    (lookup (output_key "t" "n1") after.outputs
      ≡ some (message_at 9 made "t" view "n1" 1 "msg_1" (72 ∷ 105 ∷ [])))
    × (after.log
        ≡ []
          ++ (item_added "s" "t" (some 1) ((message_at 9 made "t" view "n1" 1 "msg_1" []).item)
              ∷ content_part_added (item_place 9 made "t" view "n1" 1 "msg_1") 0 []
              ∷ delta_log 9 made "t" view "n1" 1 "msg_1" ((72 ∷ []) ∷ (105 ∷ []) ∷ [])))
streamed_text_example = streamed_text 9 made "t" view "n1" (72 ∷ []) ((105 ∷ []) ∷ []) rows refl

abbrev place : Place
place = record { session_id = "s"; turn_id = "t"; item_id = "item_1"; output_index = 0 }

abbrev summary : List Text
summary = (72 ∷ 105 ∷ []) ∷ (79 ∷ []) ∷ []

abbrev stored : List Text
stored = (72 ∷ []) ∷ []

-- A part that the new text does not continue.
abbrev other : List Text
other = (90 ∷ []) ∷ []

summary_merged_example :
    (accept_parts place 0 summary other).0 ≡ summary ++ drop (length summary) other
summary_merged_example = summary_merged place summary other

summary_followed_example :
    all_followed (accept_parts place 0 summary stored).1 stored
    ≡ summary ++ drop (length summary) stored
summary_followed_example = summary_followed place summary stored refl

abbrev used_more : RuntimeEvent
used_more = usage (record { usage = more; turn_id = none })

usage-Accounted_example :
    let outcome = accept_runtime_event 9 made "t" view used_more rows in
    Accounted (view_after view outcome) (rows_after rows outcome).turns
usage-Accounted_example =
    usage-Accounted 9 made "t" view used_more rows ((refl, tt), refl, refl, refl, refl, refl)

abbrev calls : RuntimeEvent
calls = item (record {
  id = "n2";
  turn_id = none;
  subagent_id = none;
  kind = function_call (record { call_id = "c1"; name = "g"; arguments = "[]" });
})

actions_extended_example :
    Extends view.required_actions
      (view_after view (accept_runtime_event 9 made "t" view calls rows)).required_actions
actions_extended_example = actions_extended 9 made "t" view calls rows refl

streaming_closed_example :
    (all_written (finish_output_items "s" "t" "item" rows) rows).outputs
    ≡ all_closed "t" rows.outputs
streaming_closed_example = streaming_closed "s" "t" "item" rows refl refl
