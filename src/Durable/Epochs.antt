-- ===== src/Durable/Epochs.antt =====
-- durable.ts, `take` and `runOne`: which commands run, and whose answers count.
use cf_open_agents_api.Prelude.{
  ℕ, ◌≡◌, ◌≢◌, ◌≤◌, true, Option, some, List, [], ◌∷◌, ok, err, nat_eq, arith, refl, ◌⊎◌, inl, inr,
  Result-cases, Bool-cases, sym, ap, ◌∙◌,
}
use cf_open_agents_api.Machine.Types.{Event, Command, Step, MachineError}
use cf_open_agents_api.Machine.Defs.{step}
use cf_open_agents_api.Machine.Codec.{decode_command}
use cf_open_agents_api.Store.Memory.{
  Memory, Storing, OutboxEntry, settle, transaction, and_then, reading, writing, outbox, remove,
  load,
}
use cf_open_agents_api.Store.Transactions.{transaction_outer, settle_result, transaction_reads}
use cf_open_agents_api.Durable.Defs.{
  Options, World, Held, success, run, load_record, take_due, take_entry, take_first, take,
  apply_answer, succeed_body, transition_record, arm, transact, apply, apply_body, finish_command,
}

pair_path : {A B : Type 0} {p : A × B} {a : A} {b : B} → p.0 ≡ a → p.1 ≡ b → p ≡ (a, b)
pair_path h k = λ i. (h i, k i)

module _ {D P C F J : Type 0} (o : Options D P C F J) where
  take_due_lem :
      (e entry : OutboxEntry J) (now : ℕ) (command : Command C) (s : Memory J)
      → (take_due o e now s).0 ≡ ok (run entry command)
      → (entry ≡ e)
        × ((e.attempts ≡ 0) ⊎ (e.due ≤ now))
        × (decode_command o.codec o.machine.definition e.command ≡ ok command)
        × ((take_due o e now s).1 ≡ s)
  unfolding take_due reading and_then
  take_due_lem e entry now command s h = ground arith

  take_entry_lem :
      (e entry : OutboxEntry J) (now : ℕ) (command : Command C) (s : Memory J)
      → (take_entry o e now s).0 ≡ ok (run entry command)
      → ((e.release ≡ true) ⊎ ((r : Held D) × (load_record o s ≡ ok r) × (e.epoch ≡ r.epoch)))
        × ((take_due o e now s).0 ≡ ok (run entry command))
        × ((take_entry o e now s).1 ≡ (take_due o e now s).1)
  unfolding take_entry reading writing and_then
  take_entry_lem e entry now command s h = elim (Bool-cases e.release) [
    | inl t ↦ (inl t, ground arith, ground arith)
    | inr t ↦ elim (Result-cases (load_record o s)) [
      | inl (r, l) ↦ (inr (r, l, ground arith), ground arith, ground arith)
      | inr (x, l) ↦ absurd (ground arith)
    ]
  ]

  take_first_lem :
      (es : List (OutboxEntry J)) (entry : OutboxEntry J) (now : ℕ) (command : Command C)
      (s : Memory J)
      → (take_first o es now s).0 ≡ ok (run entry command)
      → ((rest : List (OutboxEntry J)) × (es ≡ entry ∷ rest))
        × ((entry.release ≡ true)
            ⊎ ((r : Held D) × (load_record o s ≡ ok r) × (entry.epoch ≡ r.epoch)))
        × ((entry.attempts ≡ 0) ⊎ (entry.due ≤ now))
        × (decode_command o.codec o.machine.definition entry.command ≡ ok command)
        × ((take_first o es now s).1 ≡ s)
  unfolding take_first reading
  take_first_lem [] entry now command s h = absurd (cc)
  take_first_lem (e ∷ rest) entry now command s h =
      let (fresh, due, same) = take_entry_lem e entry now command s h in
      let (this, time, decoded, kept) = take_due_lem e entry now command s due in
      rw this ((rest, refl), fresh, time, decoded, same ∙ kept)

  -- Outside a transaction, a command that `take` starts is the first of the outbox; it is a release, or the machine is
  -- still in the epoch that enqueued it; it was not tried before, or its retry time has come; and
  -- taking it changes nothing in the store.
  pub take_sound :
      (now : ℕ) (s : Memory J) (entry : OutboxEntry J) (command : Command C)
      → s.depth ≡ 0
      → (take o now s).0 ≡ ok (run entry command)
      → ((rest : List (OutboxEntry J)) × (outbox o.key s ≡ entry ∷ rest))
        × ((entry.release ≡ true)
            ⊎ ((r : Held D) × (load_record o s ≡ ok r) × (entry.epoch ≡ r.epoch)))
        × ((entry.attempts ≡ 0) ⊎ (entry.due ≤ now))
        × (decode_command o.codec o.machine.definition entry.command ≡ ok command)
        × ((take o now s).1 ≡ s)
  unfolding take load_record load outbox
  take_sound now s entry command outer h =
      let body = λ (t : Memory J). take_first o (outbox o.key t) now t in
      let whole = transaction_outer body s outer in
      let inner = record s { depth = 1 } in
      let (first, fresh, time, decoded, kept) =
        take_first_lem (outbox o.key s) entry now command inner
          (sym (settle_result s (body inner)) ∙ ap (λ r. r.0) (sym whole) ∙ h) in
      let result = sym (settle_result s (body inner)) ∙ ap (λ r. r.0) (sym whole) ∙ h in
      (
        first,
        fresh,
        time,
        decoded,
        ap (λ r. r.1) (transaction_reads body s (run entry command) outer (pair_path result kept)),
      )

  arm_memory : {A : Type 0} (a : A) (w : World J) → (arm o a w).1.memory ≡ w.memory
  unfolding arm
  arm_memory a w = ground arith

  pub transact_memory :
      {A : Type 0} (body : Storing J A) (w : World J)
      → (transact o body w).1.memory ≡ (transaction body w.memory).1
  unfolding transact
  transact_memory body w = elim (Result-cases (transaction body w.memory).0) [
    | inl (a, e) ↦ rw (e, transact) (arm_memory a _)
    | inr (x, e) ↦ rw (e, transact)
  ]

  finish_command_memory :
      (entry : OutboxEntry J) (answer : Option (Event P)) (f : F) (now : ℕ) (w : World J)
      → (finish_command o entry (success answer) f now w).1.memory
        ≡ (transaction (succeed_body o entry answer f now) w.memory).1
  unfolding finish_command
  finish_command_memory entry answer f now w =
      elim (Result-cases (transact o (succeed_body o entry answer f now) w).0) [
        | inl (a, e) ↦ rw (e, finish_command) (transact_memory _ w)
        | inr (x, e) ↦ rw (e, finish_command) (transact_memory _ w)
      ]

  succeed_body_stale :
      (entry : OutboxEntry J) (event : Event P) (f : F) (now : ℕ) (s : Memory J) (r : Held D)
      → s.depth ≡ 0
      → load_record o s ≡ ok r
      → r.epoch ≢ entry.epoch
      → (settle s (succeed_body o entry (some event) f now (record s { depth = 1 }))).1
        ≡ remove entry.id s
  unfolding settle succeed_body and_then writing reading remove load_record load apply_answer
  succeed_body_stale entry event f now s r outer loaded moved_on = ground arith

  -- Outside a transaction, a handler's answer that arrives after the machine left the command's epoch is dropped: the
  -- command leaves the outbox, and nothing else in the store changes.
  pub stale_answer_dropped :
      (entry : OutboxEntry J) (event : Event P) (f : F) (now : ℕ) (w : World J) (r : Held D)
      → w.memory.depth ≡ 0
      → load_record o w.memory ≡ ok r
      → r.epoch ≢ entry.epoch
      → (finish_command o entry (success (some event)) f now w).1.memory ≡ remove entry.id w.memory
  stale_answer_dropped entry event f now w r outer loaded moved_on =
      finish_command_memory entry (some event) f now w
      ∙ ap (λ x. x.1) (transaction_outer _ w.memory outer)
      ∙ succeed_body_stale entry event f now w.memory r outer loaded moved_on

  -- Outside a transaction, a transition that throws leaves the store and the alarm as they were, and `apply` throws its
  -- error.
  pub apply_throws :
      (event : Event P) (f : F) (now : ℕ) (alongside : Step D C → Storing J (Unit {0}))
      (w : World J) (r : Held D) (e : MachineError)
      → w.memory.depth ≡ 0
      → load_record o w.memory ≡ ok r
      → step o.machine r.state event f ≡ err e
      → apply o event f now alongside w ≡ (err e, w)
  unfolding apply apply_body transact transition_record and_then reading transaction settle
      load_record load
  apply_throws event f now alongside w r e outer loaded throws = ground arith
