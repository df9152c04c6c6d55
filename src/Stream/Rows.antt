-- ===== src/Stream/Rows.antt =====
-- The rows of a session's object that session-events.ts reads and writes, a table for each kind
-- (persistence/session-kinds.ts), and a write of one of them. What a transition writes is a list, in
-- the order of its writes, so that a throw stands between two of them.
use cf_open_agents_api.Prelude.{
  ℕ, String, Option, none, some, List, [], ◌∷◌, ◌++◌, Result, ok, err, if◌then◌else◌, ltb, lookup,
  insert, string_eq,
}
use cf_open_agents_api.Stream.Types.{Item, OutputPosition, Turn, Subagent, Published}

pub record Streamed : Type 0 where
  -- each kind of item has a table
  pub items : List (String × List (String × Item))
  pub outputs : List (String × OutputPosition)
  pub output_counts : List (String × ℕ)
  pub turns : List (String × Turn)
  pub pending_turns : List (String × Turn)
  pub subagents : List (String × Subagent)
  pub log : List Published

-- `store.put` of each kind, and `store.append`.
pub data Write : Type 0 where
  put_item : String → Item → Write
  put_output : String → OutputPosition → Write
  put_output_count : String → ℕ → Write
  put_turn : Turn → Write
  put_pending_turn : String → Turn → Write
  put_subagent : Subagent → Write
  append : Published → Write

abbrev pub table_of : {A : Type 0} → Option (List (String × A)) → List (String × A)
table_of none = []
table_of (some rows) = rows

-- `table(kind)`
abbrev pub table : String → List (String × List (String × Item)) → List (String × Item)
table kind items = table_of (lookup kind items)

unfoldable pub written : Write → Streamed → Streamed
written (put_item kind item) s = record s {
  items = insert kind (insert item.id item (table kind s.items)) s.items;
}
written (put_output key position) s = record s { outputs = insert key position s.outputs }
written (put_output_count turn_id count) s = record s {
  output_counts = insert turn_id count s.output_counts;
}
written (put_turn turn) s = record s { turns = insert turn.id turn s.turns }
written (put_pending_turn id turn) s = record s { pending_turns = insert id turn s.pending_turns }
written (put_subagent subagent) s = record s { subagents = insert subagent.id subagent s.subagents }
written (append event) s = record s { log = s.log ++ event ∷ [] }

pub data StreamError : Type 0 where
  invalid_runtime_event : String → String → StreamError
  invalid_runtime_cursor : StreamError
  record_too_large : StreamError
  record_not_found : String → StreamError

-- The writes in order; a row beyond the limit (persistence/row.ts) throws. The bytes of a row are
-- what the platform's encoder says.
unfoldable pub write_all :
    (Write → ℕ) → ℕ → List Write → Streamed → Result StreamError (Unit {0}) × Streamed
write_all bytes limit [] s = (ok tt, s)
write_all bytes limit (w ∷ ws) s =
    if ltb limit (bytes w)
    then (err record_too_large, s)
    else write_all bytes limit ws (written w s)

-- All the writes of a list that none of them refuses.
unfoldable pub all_written : List Write → Streamed → Streamed
all_written [] s = s
all_written (w ∷ ws) s = all_written ws (written w s)

-- What the writes append to the log.
unfoldable pub appended : List Write → List Published
appended [] = []
appended (append event ∷ ws) = event ∷ appended ws
appended (_ ∷ ws) = appended ws
