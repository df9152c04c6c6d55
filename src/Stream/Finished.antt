-- ===== src/Stream/Finished.antt =====
-- session-events.ts, `finishOutputItems`: what the stored positions are after it.
use cf_open_agents_api.Prelude.{
  ℕ, ◌+◌, ◌≡◌, refl, sym, ap, ◌∙◌, String, true, false, Option, some, List, [], ◌∷◌, ◌++◌, contains,
  distinct, keys, insert, if◌then◌else◌, ◌==◌, string_eq, inl, inr, Bool-cases, All, All-append,
  arith,
}
use cf_open_agents_api.Stream.Types.{
  Text, ItemStatus, OutputPosition, Body, message, reasoning_summary, command_execution,
  web_search_call, mcp_call, called, collaborates, function_call_output, input_message, Place,
  item_done,
}
use cf_open_agents_api.Stream.Rows.{
  Streamed, Write, put_item, put_output, put_output_count, put_turn, put_pending_turn, put_subagent,
  append, all_written, written,
}
use cf_open_agents_api.Stream.Reasoning.{parts_done}
use cf_open_agents_api.Stream.Finish.{
  output_key_of, positions_of, texts_done, body_done, is_streaming, ended_item, end_item,
  finish_item, finish_items, finish_output_items,
}
use cf_open_agents_api.Stream.Quiet.{all_written-append}
use cf_open_agents_api.Stream.Text.{append_nil, append_assoc}

abbrev pub Rows : Type 0
Rows = List (String × OutputPosition)

-- A position of a turn, with its item closed if it still streams; others as they are.
abbrev pub ended_position : OutputPosition → OutputPosition
ended_position p = record {
  index = p.index;
  item = record p.item { status = ItemStatus.incomplete };
}

abbrev pub closed_position : ItemStatus → OutputPosition → OutputPosition
closed_position ItemStatus.in_progress p = ended_position p
closed_position _ p = p

abbrev pub closed : String → OutputPosition → OutputPosition
closed turn p = if p.item.turn_id == turn then closed_position p.item.status p else p

closed_position-streaming :
    (st : ItemStatus) (p : OutputPosition)
    → closed_position st p ≡ (if is_streaming st then ended_position p else p)
closed_position-streaming ItemStatus.in_progress p = refl
closed_position-streaming ItemStatus.completed p = refl
closed_position-streaming ItemStatus.incomplete p = refl
closed_position-streaming ItemStatus.failed p = refl

abbrev pub all_closed : String → Rows → Rows
all_closed turn [] = []
all_closed turn ((key, p) ∷ rows) = (key, closed turn p) ∷ all_closed turn rows

abbrev pub item_ids : Rows → List String
item_ids [] = []
item_ids ((key, p) ∷ rows) = p.item.id ∷ item_ids rows

-- Writes of which none is a position.
abbrev IsElsewhere : Write → Type 0
IsElsewhere (put_output k p) = ⊥
IsElsewhere _ = Unit

abbrev Elsewhere : List Write → Type 0
Elsewhere ws = All IsElsewhere ws

Elsewhere-outputs :
    (ws : List Write) (s : Streamed) → Elsewhere ws → (all_written ws s).outputs ≡ s.outputs
unfolding all_written written
Elsewhere-outputs [] s q = refl
Elsewhere-outputs (put_item k i ∷ ws) s q = Elsewhere-outputs ws (written (put_item k i) s) q.1
Elsewhere-outputs (put_output k p ∷ ws) s q = elim q.0 [ ]
Elsewhere-outputs (put_output_count k n ∷ ws) s q =
    Elsewhere-outputs ws (written (put_output_count k n) s) q.1
Elsewhere-outputs (put_turn t ∷ ws) s q = Elsewhere-outputs ws (written (put_turn t) s) q.1
Elsewhere-outputs (put_pending_turn k t ∷ ws) s q =
    Elsewhere-outputs ws (written (put_pending_turn k t) s) q.1
Elsewhere-outputs (put_subagent a ∷ ws) s q = Elsewhere-outputs ws (written (put_subagent a) s) q.1
Elsewhere-outputs (append e ∷ ws) s q = Elsewhere-outputs ws (written (append e) s) q.1

parts_done-Elsewhere :
    (place : Place) (status : Option ItemStatus) (i : ℕ) (ts : List Text)
    → Elsewhere (parts_done place status i ts)
unfolding parts_done
parts_done-Elsewhere place status i [] = tt
parts_done-Elsewhere place status i (t ∷ ts) =
    (tt, (tt, parts_done-Elsewhere place status (i + 1) ts))

texts_done-Elsewhere : (place : Place) (i : ℕ) (ts : List Text) → Elsewhere (texts_done place i ts)
unfolding texts_done
texts_done-Elsewhere place i [] = tt
texts_done-Elsewhere place i (t ∷ ts) = (tt, (tt, texts_done-Elsewhere place (i + 1) ts))

body_done-Elsewhere : (place : Place) (b : Body) → Elsewhere (body_done place b)
unfolding body_done
body_done-Elsewhere place (reasoning_summary parts) =
    parts_done-Elsewhere place (some ItemStatus.incomplete) 0 parts
body_done-Elsewhere place (message phase content) = texts_done-Elsewhere place 0 content
body_done-Elsewhere place (command_execution c) = tt
body_done-Elsewhere place (web_search_call a) = tt
body_done-Elsewhere place (mcp_call m) = tt
body_done-Elsewhere place (called f) = tt
body_done-Elsewhere place (collaborates c) = tt
body_done-Elsewhere place (function_call_output o) = tt
body_done-Elsewhere place (input_message m) = tt

-- A closed item's position is the one row that moves.
end_item-outputs :
    (session turn kind key : String) (outputs : Rows) (p : OutputPosition) (s : Streamed)
    → output_key_of p.item.id outputs ≡ some key
    → (all_written (end_item session turn kind outputs p) s).outputs
      ≡ insert key (ended_position p) s.outputs
unfolding end_item all_written written
end_item-outputs session turn kind key outputs p s h =
    let rest =
      body_done
        (record {
          session_id = session;
          turn_id = turn;
          item_id = p.item.id;
          output_index = p.index;
        })
        p.item.body in
    rw h (
      Elsewhere-outputs (rest ++ append (item_done session turn p.index (ended_item p.item)) ∷ []) _
        (All-append IsElsewhere rest _ (body_done-Elsewhere _ p.item.body) (tt, tt)))

-- The key of a position whose item's identifier no earlier row has.
output_key_found :
    (before : Rows) (key : String) (p : OutputPosition) (rows : Rows)
    → contains (item_ids before) p.item.id ≡ false
    → output_key_of p.item.id (before ++ (key, p) ∷ rows) ≡ some key
output_key_found [] key p rows h = ground (arith, string_eq.equal_iff p.item.id p.item.id)
output_key_found ((k, q) ∷ before) key p rows h = ground (arith, output_key_found before key p rows)

insert_found :
    (before : Rows) (key : String) (p next : OutputPosition) (rows : Rows)
    → contains (keys before) key ≡ false
    → insert key next (before ++ (key, p) ∷ rows) ≡ before ++ (key, next) ∷ rows
insert_found [] key p next rows h = ground (arith, string_eq.equal_iff key key)
insert_found ((k, q) ∷ before) key p next rows h =
    ground (arith, insert_found before key p next rows)

keys_closed : (turn : String) (rows : Rows) → keys (all_closed turn rows) ≡ keys rows
keys_closed turn [] = refl
keys_closed turn ((k, p) ∷ rows) = ap (◌∷◌ k) (keys_closed turn rows)

keys-append : (xs ys : Rows) → keys (xs ++ ys) ≡ keys xs ++ keys ys
keys-append [] ys = refl
keys-append ((k, p) ∷ xs) ys = ap (◌∷◌ k) (keys-append xs ys)

item_ids-append : (xs ys : Rows) → item_ids (xs ++ ys) ≡ item_ids xs ++ item_ids ys
item_ids-append [] ys = refl
item_ids-append ((k, p) ∷ xs) ys = ap (◌∷◌ p.item.id) (item_ids-append xs ys)

all_closed-append :
    (turn : String) (xs ys : Rows)
    → all_closed turn (xs ++ ys) ≡ all_closed turn xs ++ all_closed turn ys
all_closed-append turn [] ys = refl
all_closed-append turn ((k, p) ∷ xs) ys = ap (◌∷◌ (k, closed turn p)) (all_closed-append turn xs ys)

contains-append :
    (xs : List String) (y x : String) (ys : List String)
    → contains (xs ++ y ∷ ys) x ≡ false
    → (y == x) ≡ false
contains-append [] y x ys h = ground arith
contains-append (z ∷ xs) y x ys h = ground (arith, contains-append xs y x ys)

-- A value in the middle of distinct ones is not among the earlier ones.
distinct_middle :
    (xs : List String) (y : String) (ys : List String)
    → distinct (xs ++ y ∷ ys) ≡ true
    → contains xs y ≡ false
distinct_middle [] y ys h = refl
distinct_middle (x ∷ xs) y ys h = ground (
  arith,
  contains-append xs y x ys,
  distinct_middle xs y ys,
  string_eq.equal_iff x y,
  string_eq.equal_iff y x,
)

closed_middle :
    (turn : String) (before : Rows) (key : String) (p next : OutputPosition) (rows : Rows)
    → closed turn p ≡ next
    → all_closed turn before ++ (key, next) ∷ rows
      ≡ all_closed turn (before ++ (key, p) ∷ []) ++ rows
closed_middle turn before key p next rows c =
    ap (λ q. all_closed turn before ++ (key, q) ∷ rows) (sym c)
    ∙ sym (append_assoc (all_closed turn before) ((key, closed turn p) ∷ []) rows)
    ∙ ap (λ l. l ++ rows) (sym (all_closed-append turn before ((key, p) ∷ [])))

module _ (session turn kind : String) (outputs : Rows) (key_free : distinct (keys outputs) ≡ true)
    (id_free : distinct (item_ids outputs) ≡ true) where
  key_found :
      (before : Rows) (key : String) (p : OutputPosition) (rows : Rows)
      → outputs ≡ before ++ (key, p) ∷ rows
      → output_key_of p.item.id outputs ≡ some key
  key_found before key p rows e =
      ap (output_key_of p.item.id) e
      ∙ output_key_found before key p rows (
          distinct_middle (item_ids before) p.item.id (item_ids rows) (
            sym (ap distinct (ap item_ids e ∙ item_ids-append before ((key, p) ∷ rows))) ∙ id_free))

  key_unused :
      (before : Rows) (key : String) (p : OutputPosition) (rows : Rows)
      → outputs ≡ before ++ (key, p) ∷ rows
      → contains (keys (all_closed turn before)) key ≡ false
  key_unused before key p rows e =
      ap (λ ks. contains ks key) (keys_closed turn before)
      ∙ distinct_middle (keys before) key (keys rows)
          (sym (ap distinct (ap keys e ∙ keys-append before ((key, p) ∷ rows))) ∙ key_free)

  -- The loop's round at one position.
  position_closed :
      (before : Rows) (key : String) (p : OutputPosition) (rows : Rows) (s : Streamed)
      → outputs ≡ before ++ (key, p) ∷ rows
      → s.outputs ≡ all_closed turn before ++ (key, p) ∷ rows
      → (p.item.turn_id == turn) ≡ true
      → (all_written (finish_item session turn kind outputs p) s).outputs
        ≡ all_closed turn (before ++ (key, p) ∷ []) ++ rows
  unfolding finish_item all_written
  position_closed before key p rows s e h t = elim (Bool-cases (is_streaming p.item.status)) [
    | inl st ↦ rw st (
        end_item-outputs session turn kind key outputs p s (key_found before key p rows e)
        ∙ ap (insert key (ended_position p)) h
        ∙ insert_found (all_closed turn before) key p (ended_position p) rows
            (key_unused before key p rows e)
        ∙ closed_middle turn before key p (ended_position p) rows
            (rw t (closed_position-streaming p.item.status p ∙ rw st refl)))
    | inr st ↦ rw st (
        h
        ∙ closed_middle turn before key p p rows
            (rw t (closed_position-streaming p.item.status p ∙ rw st refl)))
  ]

  positions_closed :
      (before rows : Rows) (s : Streamed)
      → outputs ≡ before ++ rows
      → s.outputs ≡ all_closed turn before ++ rows
      → (all_written (finish_items session turn kind outputs (positions_of turn rows)) s).outputs
        ≡ all_closed turn outputs
  unfolding all_written
  positions_closed before [] s e h =
      h
      ∙ append_nil (all_closed turn before)
      ∙ ap (all_closed turn) (sym (append_nil before) ∙ sym e)
  positions_closed before ((key, p) ∷ rows) s e h = elim (Bool-cases (p.item.turn_id == turn)) [
    | inl t ↦
        (let round = finish_item session turn kind outputs p in
          let later = finish_items session turn kind outputs (positions_of turn rows) in
          rw t (
            ap (λ r. r.outputs) (all_written-append round later s)
            ∙ positions_closed (before ++ (key, p) ∷ []) rows (all_written round s)
                (e ∙ sym (append_assoc before ((key, p) ∷ []) rows))
                (position_closed before key p rows s e h t)))
    | inr t ↦ rw t (
        positions_closed (before ++ (key, p) ∷ []) rows s
          (e ∙ sym (append_assoc before ((key, p) ∷ []) rows))
          (h ∙ closed_middle turn before key p p rows (rw t refl)))
  ]

-- Where no two positions have one key and no two have one item's identifier, closing a turn's items
-- changes exactly the positions of that turn's items that still stream: their status becomes
-- incomplete, and every other row, and the order of the rows, stays.
pub streaming_closed :
    (session turn kind : String) (s : Streamed)
    → distinct (keys s.outputs) ≡ true
    → distinct (item_ids s.outputs) ≡ true
    → (all_written (finish_output_items session turn kind s) s).outputs ≡ all_closed turn s.outputs
unfolding finish_output_items
streaming_closed session turn kind s key_free id_free =
    positions_closed session turn kind s.outputs key_free id_free [] s.outputs s refl refl
