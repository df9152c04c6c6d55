-- ===== src/Durable/Applied.antt =====
-- durable.ts, `apply`: what a transition that moves leaves in the store.
use cf_open_agents_api.Prelude.{
  ℕ, ◌+◌, ◌≡◌, Bool, List, [], ◌∷◌, ◌++◌, Result, ok, if◌then◌else◌, ◌==◌, string_eq, filter,
  filter-append, lookup, lookup-insert_self, arith, refl, sym, ap, ◌∙◌,
}
use mathlib.Core.List.{append_assoc, append-nil}
use text.Mathlib.TextPositions.{eq_refl}
use cf_open_agents_api.Machine.Types.{State, Event, Step, MachineError, Planned, moved}
use cf_open_agents_api.Machine.Defs.{step}
use cf_open_agents_api.Machine.Codec.{
  RoundTrips, encode_state, decode_state, encode_command, decode-encode_state,
}
use cf_open_agents_api.Machine.Stepping.{step-Moves, Moves-IsKnown}
use cf_open_agents_api.Store.Memory.{
  Memory, OutboxEntry, settle, and_then, reading, outbox, load, save, enqueue,
}
use cf_open_agents_api.Durable.Defs.{
  Options, World, Held, load_record, save_record, stored_record, enqueue_planned, commit_step,
  transition_record, apply, apply_body,
}
use cf_open_agents_api.Durable.Epochs.{transact_memory}
use cf_open_agents_api.Store.Transactions.{transaction_outer}

module _ {D P C F J : Type 0} (o : Options D P C F J) where
  -- The outbox entries of a step's commands, from the next identifier on.
  unfoldable pub planned_entries : ℕ → ℕ → ℕ → List (Planned C) → List (OutboxEntry J)
  planned_entries next epoch now [] = []
  planned_entries next epoch now (p ∷ rest) =
      record {
        id = next;
        machine = o.key;
        command = encode_command o.codec o.machine.definition p.command;
        epoch = epoch;
        release = p.release;
        attempts = 0;
        due = now + o.recovery_delay;
      }
      ∷ planned_entries (next + 1) epoch now rest

  enqueue_planned_states :
      (epoch now : ℕ) (planned : List (Planned C)) (s : Memory J)
      → (enqueue_planned o epoch now planned s).states ≡ s.states
  unfolding enqueue_planned enqueue
  enqueue_planned_states epoch now [] s = refl
  enqueue_planned_states epoch now (p ∷ rest) s = enqueue_planned_states epoch now rest _

  enqueue_planned_depth :
      (epoch now : ℕ) (planned : List (Planned C)) (s : Memory J)
      → (enqueue_planned o epoch now planned s).depth ≡ s.depth
  unfolding enqueue_planned enqueue
  enqueue_planned_depth epoch now [] s = refl
  enqueue_planned_depth epoch now (p ∷ rest) s = enqueue_planned_depth epoch now rest _

  -- Entries are appended in the order of the step's commands.
  enqueue_planned_entries :
      (epoch now : ℕ) (planned : List (Planned C)) (s : Memory J)
      → (enqueue_planned o epoch now planned s).entries
        ≡ s.entries ++ planned_entries s.next epoch now planned
  unfolding enqueue_planned enqueue planned_entries
  enqueue_planned_entries epoch now [] s = sym (append-nil s.entries)
  enqueue_planned_entries epoch now (p ∷ rest) s =
      enqueue_planned_entries epoch now rest _ ∙ append_assoc s.entries _ _

  planned_entries_own :
      (next epoch now : ℕ) (planned : List (Planned C))
      → filter (λ e. e.machine == o.key) (planned_entries next epoch now planned)
        ≡ planned_entries next epoch now planned
  unfolding planned_entries
  planned_entries_own next epoch now [] = refl
  planned_entries_own next epoch now (p ∷ rest) =
      rw (eq_refl o.key, planned_entries_own (next + 1) epoch now rest)

  pub load_saved :
      (r : Held D) (s t : Memory J)
      → decode_state o.codec o.machine.definition
          (encode_state o.codec o.machine.definition r.state)
        ≡ ok r.state
      → t.states ≡ (save_record o r s).states
      → load_record o t ≡ ok r
  unfolding load_record save_record load save
  load_saved r s t decodes same =
      ground (arith, lookup-insert_self o.key (stored_record o r) s.states, ap (lookup o.key) same)

  -- The record after a step that moved.
  abbrev pub record_after : Held D → State D → Bool → Held D
  record_after r to entered = record {
    state = to;
    epoch = if entered then r.epoch + 1 else r.epoch;
    fired = if entered then [] else r.fired;
  }

  pub commit_step_load :
      (r : Held D) (now : ℕ) (s : Memory J) (from to : State D) (planned : List (Planned C))
      (entered : Bool)
      → decode_state o.codec o.machine.definition (encode_state o.codec o.machine.definition to)
        ≡ ok to
      → load_record o (commit_step o r now (moved from to planned entered) s)
        ≡ ok (record_after r to entered)
  unfolding commit_step
  commit_step_load r now s from to planned entered decodes =
      load_saved (record_after r to entered) s _ decodes (enqueue_planned_states _ now planned _)

  commit_step_entries :
      (r : Held D) (now : ℕ) (s : Memory J) (from to : State D) (planned : List (Planned C))
      (entered : Bool)
      → (commit_step o r now (moved from to planned entered) s).entries
        ≡ s.entries ++ planned_entries s.next (record_after r to entered).epoch now planned
  unfolding commit_step save_record save
  commit_step_entries r now s from to planned entered = enqueue_planned_entries _ now planned _

  apply_body_moves :
      (event : Event P) (f : F) (now : ℕ) (s : Memory J) (r : Held D) (st : Step D C)
      → load_record o s ≡ ok r
      → step o.machine r.state event f ≡ ok st
      → apply_body o event f now (λ _. reading (λ _. ok tt)) s ≡ (ok st, commit_step o r now st s)
  unfolding apply_body and_then reading transition_record
  apply_body_moves event f now s r st loaded stepped = ground arith

  apply_memory :
      (event : Event P) (f : F) (now : ℕ) (w : World J) (r : Held D) (st : Step D C)
      → w.memory.depth ≡ 0
      → load_record o (record w.memory { depth = 1 }) ≡ ok r
      → step o.machine r.state event f ≡ ok st
      → (apply o event f now (λ _. reading (λ _. ok tt)) w).1.memory
        ≡ (settle w.memory (
            let r : Result MachineError (Step D C) × Memory J =
              (ok st, commit_step o r now st (record w.memory { depth = 1 })) in
            r)).1
  unfolding apply
  apply_memory event f now w r st outer loaded stepped =
      transact_memory o (apply_body o event f now (λ _. reading (λ _. ok tt))) w
      ∙ ap (λ x. x.1) (transaction_outer _ w.memory outer)
      ∙ ap (λ x. (settle w.memory x).1)
          (apply_body_moves event f now (record w.memory { depth = 1 }) r st loaded stepped)

  -- Outside a transaction and under a codec that round-trips, `apply` of an event whose transition
  -- moves, with no writes of the host: the stored record is
  -- the new one, and the outbox has the step's commands behind what it had, in their order and in
  -- the new epoch.
  pub apply_moves :
      (event : Event P) (f : F) (now : ℕ) (w : World J) (r : Held D) {from to : State D}
      {planned : List (Planned C)} {entered : Bool}
      → w.memory.depth ≡ 0
      → RoundTrips o.codec o.machine.definition
      → load_record o w.memory ≡ ok r
      → step o.machine r.state event f ≡ ok (moved from to planned entered)
      → let after = (apply o event f now (λ _. reading (λ _. ok tt)) w).1.memory in
        (load_record o after ≡ ok (record_after r to entered))
        × (outbox o.key after
            ≡ outbox o.key w.memory
              ++ planned_entries w.memory.next (record_after r to entered).epoch now planned)
  unfolding settle load_record load outbox
  apply_moves event f now w r {from = from} {to = to} {planned = planned} {entered = entered} outer
        law loaded st =
      let known = Moves-IsKnown o.machine (step-Moves o.machine r.state event f st) in
      let decodes = decode-encode_state o.codec o.machine.definition to law known in
      let inner = record w.memory { depth = 1 } in
      let after = apply_memory event f now w r (moved from to planned entered) outer loaded st in
      (
        ap (load_record o) after ∙ commit_step_load r now inner from to planned entered decodes,
        ap (outbox o.key) after
            ∙ ap (filter (λ e. e.machine == o.key))
                (commit_step_entries r now inner from to planned entered)
            ∙ filter-append _ w.memory.entries _
            ∙ ap (◌++◌ (outbox o.key w.memory)) (planned_entries_own _ _ now planned),
      )
