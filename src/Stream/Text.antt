-- ===== src/Stream/Text.antt =====
-- session-events.ts, `acceptMessage`: the text of a message is what its deltas add up to.
use cf_open_agents_api.Prelude.{
  ℕ, ◌+◌, String, ◌≡◌, Option, none, some, List, [], ◌∷◌, ◌++◌, map, lookup, string_eq,
  lookup-insert_self, refl, sym, ap, ◌∙◌,
}
use cf_open_agents_api.Stream.Types.{
  Text, ItemStatus, delta, RuntimeEvent, item, OutputPosition, message, SessionView, Place,
  Published, item_added, content_part_added, output_text_delta,
}
use cf_open_agents_api.Stream.Rows.{Streamed, written, all_written}
use cf_open_agents_api.Stream.Items.{
  Slot, or_else, item_kind, slot_id, slot_index, output_key, resolve_slot, added_if_new,
}
use cf_open_agents_api.Stream.Message.{opened_message, message_item, text_of, accept_delta}
use cf_open_agents_api.Stream.Accept.{
  accept_runtime_event, accept_in_slot, delivered, all_delivered,
}

abbrev pub concat : List Text → Text
concat [] = []
concat (t ∷ ts) = t ++ concat ts

pub append_nil : {A : Type 0} (xs : List A) → xs ++ [] ≡ xs
append_nil [] = refl
append_nil (x ∷ xs) = ap (◌∷◌ x) (append_nil xs)

pub append_assoc : {A : Type 0} (xs ys zs : List A) → (xs ++ ys) ++ zs ≡ xs ++ (ys ++ zs)
append_assoc [] ys zs = refl
append_assoc (x ∷ xs) ys zs = ap (◌∷◌ x) (append_assoc xs ys zs)

appends_three :
    {A : Type 0} (xs : List A) (a b c : A)
    → ((xs ++ a ∷ []) ++ b ∷ []) ++ c ∷ [] ≡ xs ++ (a ∷ b ∷ c ∷ [])
appends_three xs a b c =
    append_assoc (xs ++ a ∷ []) (b ∷ []) (c ∷ []) ∙ append_assoc xs (a ∷ []) (b ∷ c ∷ [])

-- A delta of the root turn's item `id`.
abbrev pub delta_event : String → Text → RuntimeEvent
delta_event id t = item (record { id = id; turn_id = none; subagent_id = none; kind = delta t })

module _ (now : ℕ) (identifier : String → String) (turn_id : String) (view : SessionView)
    (id : String) where
  -- The position of a message whose text is `x` so far.
  abbrev pub message_at : ℕ → String → Text → OutputPosition
  message_at index item_id x = record {
    index = index;
    item = record {
      id = item_id;
      turn_id = turn_id;
      status = ItemStatus.in_progress;
      body = message none (x ∷ []);
    };
  }

  abbrev pub item_place : ℕ → String → Place
  item_place index item_id = record {
    session_id = view.id;
    turn_id = turn_id;
    item_id = item_id;
    output_index = index;
  }

  -- The slot of a message's event, by what is stored at its key.
  abbrev slot_of : Option OutputPosition → Option ℕ → Slot
  slot_of previous count = record {
    session_id = view.id;
    turn_id = turn_id;
    kind = item_kind none;
    key = output_key turn_id id;
    previous = previous;
    id = slot_id previous (identifier "msg");
    index = slot_index previous count;
  }

  delivered-delta :
      (t : Text) (s : Streamed) (previous : Option OutputPosition)
      → lookup (output_key turn_id id) s.outputs ≡ previous
      → delivered now identifier turn_id view (delta_event id t) s
        ≡ all_written (accept_delta (slot_of previous (lookup turn_id s.output_counts)) t) s
  unfolding delivered accept_runtime_event accept_in_slot resolve_slot
  delivered-delta t s previous h =
      ap (λ p. all_written (accept_delta (slot_of p (lookup turn_id s.output_counts)) t) s) h

  -- One more delta of a message.
  delta_continues :
      (index : ℕ) (item_id : String) (x t : Text) (s : Streamed)
      → lookup (output_key turn_id id) s.outputs ≡ some (message_at index item_id x)
      → let after = delivered now identifier turn_id view (delta_event id t) s in
        (lookup (output_key turn_id id) after.outputs ≡ some (message_at index item_id (x ++ t)))
        × (after.log ≡ s.log ++ output_text_delta (item_place index item_id) 0 t ∷ [])
  unfolding accept_delta all_written written opened_message message_item text_of
  delta_continues index item_id x t s h =
      let e = delivered-delta t s (some (message_at index item_id x)) h in
      rw e (
        lookup-insert_self (output_key turn_id id) (message_at index item_id (x ++ t)) s.outputs,
        refl,
      )

  -- The deltas of a stored message, one event each.
  abbrev pub delta_log : ℕ → String → List Text → List Published
  delta_log index item_id [] = []
  delta_log index item_id (t ∷ ts) =
      output_text_delta (item_place index item_id) 0 t ∷ delta_log index item_id ts

  deltas_continue :
      (index : ℕ) (item_id : String) (ts : List Text) (x : Text) (s : Streamed)
      → lookup (output_key turn_id id) s.outputs ≡ some (message_at index item_id x)
      → let after = all_delivered now identifier turn_id view (map (delta_event id) ts) s in
        (lookup (output_key turn_id id) after.outputs
          ≡ some (message_at index item_id (x ++ concat ts)))
        × (after.log ≡ s.log ++ delta_log index item_id ts)
  unfolding all_delivered
  deltas_continue index item_id [] x s h = (rw (append_nil x) h, sym (append_nil s.log))
  deltas_continue index item_id (t ∷ ts) x s h =
      let one = delta_continues index item_id x t s h in
      let after = delivered now identifier turn_id view (delta_event id t) s in
      let rest = deltas_continue index item_id ts (x ++ t) after one.0 in
      (
        rest.0 ∙ ap (λ y. some (message_at index item_id y)) (append_assoc x t (concat ts)),
        rest.1
            ∙ ap (λ l. l ++ delta_log index item_id ts) one.1
            ∙ append_assoc s.log (output_text_delta (item_place index item_id) 0 t ∷ [])
                (delta_log index item_id ts),
      )

  abbrev pub next_index : Streamed → ℕ
  next_index s = or_else (lookup turn_id s.output_counts) 0

  delta_opens :
      (t : Text) (s : Streamed)
      → lookup (output_key turn_id id) s.outputs ≡ none
      → let item_id = identifier "msg" in
        let index = next_index s in
        let after = delivered now identifier turn_id view (delta_event id t) s in
        (lookup (output_key turn_id id) after.outputs ≡ some (message_at index item_id t))
        × (after.log
            ≡ s.log
              ++ item_added view.id turn_id (some index) ((message_at index item_id []).item)
                ∷ content_part_added (item_place index item_id) 0 []
                ∷ output_text_delta (item_place index item_id) 0 t
                ∷ [])
        × (lookup turn_id after.output_counts ≡ some (index + 1))
  unfolding accept_delta all_written written opened_message message_item text_of added_if_new
  delta_opens t s h =
      let e = delivered-delta t s none h in
      let index = next_index s in
      let position = message_at index (identifier "msg") t in
      rw e (
        lookup-insert_self (output_key turn_id id) position s.outputs,
        appends_three s.log _ _ _,
        lookup-insert_self turn_id (index + 1) s.output_counts,
      )

  -- A message that no event has opened yet is opened by its first delta: the log has its item and
  -- an empty part, then every delta in order at the turn's next index, and the stored text is the deltas
  -- one after another.
  pub streamed_text :
      (t : Text) (ts : List Text) (s : Streamed)
      → lookup (output_key turn_id id) s.outputs ≡ none
      → let item_id = identifier "msg" in
        let index = next_index s in
        let after = all_delivered now identifier turn_id view (map (delta_event id) (t ∷ ts)) s in
        (lookup (output_key turn_id id) after.outputs
          ≡ some (message_at index item_id (concat (t ∷ ts))))
        × (after.log
            ≡ s.log
              ++ (item_added view.id turn_id (some index) ((message_at index item_id []).item)
                  ∷ content_part_added (item_place index item_id) 0 []
                  ∷ delta_log index item_id (t ∷ ts)))
  unfolding all_delivered
  streamed_text t ts s h =
      let opened = delta_opens t s h in
      let index = next_index s in
      let rest =
        deltas_continue index (identifier "msg") ts t
          (delivered now identifier turn_id view (delta_event id t) s) opened.0 in
      (
        rest.0,
        rest.1
            ∙ ap (λ l. l ++ delta_log index (identifier "msg") ts) opened.1
            ∙ append_assoc s.log _ (delta_log index (identifier "msg") ts),
      )
