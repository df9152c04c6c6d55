-- ===== src/Durable/Keeps.antt =====
-- durable.ts: what the store keeps through each call, from what it keeps through each write.
use cf_open_agents_api.Prelude.{
  ℕ, zero, suc, ◌+◌, ◌≡◌, false, Option, none, some, List, [], ◌∷◌, nat_eq, Result-cases, inl, inr,
  refl,
}
use cf_open_agents_api.Machine.Types.{Event, Step, ignored, rejected, moved, Planned, Due}
use cf_open_agents_api.Machine.Defs.{step}
use cf_open_agents_api.Store.Memory.{
  Memory, Storing, OutboxEntry, writing, transaction, outbox, remove, reschedule,
}
use cf_open_agents_api.Store.Keeps.{
  Keeps, Closed, Keeps-reading, Keeps-writing, Keeps-if, Keeps-if_eq, Keeps-and_then,
  Keeps-transaction, keeps_rules,
}
use cf_open_agents_api.Durable.Defs.{
  Options, World, Held, Exit, success, interrupted, failure, save_record, enqueue_planned,
  commit_step, transition_record, next_wake, arm, transact, apply_body, apply, take_due, take_entry,
  take_first, take, apply_answer, succeed_body, finish_command, fire_due, fire_body, fire_loop,
  fire_timers, max_firings,
}

module _ {D P C F J : Type 0} (o : Options D P C F J) (K : Memory J → Type 0)
    (may_remove : ℕ → Type 0) (c : Closed K may_remove) where
  enqueue_planned-Keeps :
      (epoch now : ℕ) (planned : List (Planned C)) (s : Memory J)
      → K s
      → K (enqueue_planned o epoch now planned s)
  unfolding enqueue_planned
  enqueue_planned-Keeps epoch now [] s h = h
  enqueue_planned-Keeps epoch now (p ∷ ps) s h =
      enqueue_planned-Keeps epoch now ps _ (c.closed_enqueue _ _ s h)

  commit_step-Keeps :
      (r : Held D) (now : ℕ) (st : Step D C) (s : Memory J) → K s → K (commit_step o r now st s)
  unfolding commit_step save_record
  commit_step-Keeps r now (ignored t) s h = h
  commit_step-Keeps r now (rejected t) s h = h
  commit_step-Keeps r now (moved from to planned entered) s h =
      enqueue_planned-Keeps _ now planned _ (c.closed_save _ _ s h)

  pub transition_record-Keeps :
      (r : Held D) (e : Event P) (f : F) (now : ℕ) → Keeps K (transition_record o r e f now)
  unfolding transition_record
  transition_record-Keeps r e f now = record {
    after = λ s h. elim (Result-cases (step o.machine r.state e f)) [
      | inl (st, eq) ↦ rw (eq, transition_record) (commit_step-Keeps r now st s h)
      | inr (x, eq) ↦ rw (eq, transition_record) h
    ];
  }

  pub apply_body-Keeps :
      (e : Event P) (f : F) (now : ℕ) (alongside : Step D C → Storing J (Unit {0}))
      → ((st : Step D C) → Keeps K (alongside st))
      → Keeps K (apply_body o e f now alongside)
  unfolding apply_body
  apply_body-Keeps e f now alongside ha = search (keeps_rules, transition_record-Keeps, ha)

  take_due-Keeps : (e : OutboxEntry J) (now : ℕ) → Keeps K (take_due o e now)
  unfolding take_due
  take_due-Keeps e now = search keeps_rules

  removes-Keeps : (id : ℕ) → may_remove id → Keeps K (writing (remove id))
  removes-Keeps id may = Keeps-writing K (remove id) (λ s. c.closed_remove id s may)

  pub take_entry-Keeps :
      (e : OutboxEntry J) (now : ℕ)
      → (e.release ≡ false → may_remove e.id)
      → Keeps K (take_entry o e now)
  unfolding take_entry
  take_entry-Keeps e now may =
      Keeps-if_eq K e.release _ _ (λ _. take_due-Keeps e now)
        λ t. Keeps-and_then K _ _ (Keeps-reading K _) λ r.
          Keeps-if K _ _ _ (take_due-Keeps e now)
            (Keeps-and_then K _ _ (removes-Keeps e.id (may t)) (λ _. Keeps-reading K _))

  apply_answer-Keeps :
      (e : OutboxEntry J) (answer : Option (Event P)) (f : F) (now : ℕ) (r : Held D)
      → Keeps K (apply_answer o e answer f now r)
  unfolding apply_answer
  apply_answer-Keeps e none f now r = Keeps-reading K _
  apply_answer-Keeps e (some event) f now r = search (keeps_rules, transition_record-Keeps)

  pub succeed_body-Keeps :
      (e : OutboxEntry J) (answer : Option (Event P)) (f : F) (now : ℕ)
      → may_remove e.id
      → Keeps K (succeed_body o e answer f now)
  unfolding succeed_body
  succeed_body-Keeps e answer f now may =
      Keeps-and_then K _ _ (removes-Keeps e.id may) λ _. search (keeps_rules, apply_answer-Keeps)

  save_record-Keeps : (r : Held D) → Keeps K (writing (save_record o r))
  unfolding save_record
  save_record-Keeps r = Keeps-writing K _ (λ s. c.closed_save _ _ s)

  fire_due-Keeps : (r : Held D) (f : F) (now : ℕ) (ds : List Due) → Keeps K (fire_due o r f now ds)
  unfolding fire_due
  fire_due-Keeps r f now [] = search keeps_rules
  fire_due-Keeps r f now (d ∷ ds) = search (keeps_rules, transition_record-Keeps, save_record-Keeps)

  pub fire_body-Keeps : (f : F) (now : ℕ) → Keeps K (fire_body o f now)
  unfolding fire_body
  fire_body-Keeps f now = search (keeps_rules, fire_due-Keeps)

-- Of a property that the nesting depth is no part of.
module _ {D P C F J : Type 0} (o : Options D P C F J) (K : Memory J → Type 0)
    (may_remove : ℕ → Type 0) (c : Closed K may_remove)
    (depth : (s : Memory J) (n : ℕ) → K s → K (record s { depth = n })) where
  pub arm-Keeps : {A : Type 0} (a : A) (w : World J) → K w.memory → K (arm o a w).1.memory
  unfolding arm
  arm-Keeps a w h = elim (Result-cases (next_wake o w.memory)) [
    | inl (x, e) ↦ rw (e, arm) h
    | inr (x, e) ↦ rw (e, arm) h
  ]

  transact-Keeps :
      {A : Type 0} (body : Storing J A) (w : World J)
      → Keeps K body
      → K w.memory
      → K (transact o body w).1.memory
  unfolding transact
  transact-Keeps body w keeps h =
      let after = (Keeps-transaction K body depth keeps).after w.memory h in
      elim (Result-cases (transaction body w.memory).0) [
        | inl (x, e) ↦ rw (e, transact) (arm-Keeps x _ after)
        | inr (x, e) ↦ rw (e, transact) after
      ]

  pub apply-Keeps :
      (e : Event P) (f : F) (now : ℕ) (alongside : Step D C → Storing J (Unit {0})) (w : World J)
      → ((st : Step D C) → Keeps K (alongside st))
      → K w.memory
      → K (apply o e f now alongside w).1.memory
  unfolding apply
  apply-Keeps e f now alongside w ha h =
      transact-Keeps _ w (apply_body-Keeps o K may_remove c e f now alongside ha) h

  pub finish_command-Keeps :
      (entry : OutboxEntry J) (exit : Exit P) (f : F) (now : ℕ) (w : World J)
      → ((answer : Option (Event P)) → exit ≡ success answer → may_remove entry.id)
      → K w.memory
      → K (finish_command o entry exit f now w).1.memory
  unfolding finish_command
  finish_command-Keeps entry (success answer) f now w may h =
      let after =
        transact-Keeps _ w
          (succeed_body-Keeps o K may_remove c entry answer f now (may answer refl)) h in
      elim (Result-cases (transact o (succeed_body o entry answer f now) w).0) [
        | inl (x, e) ↦ rw (e, finish_command) after
        | inr (x, e) ↦ rw (e, finish_command) after
      ]
  finish_command-Keeps entry interrupted f now w may h = h
  finish_command-Keeps entry failure f now w may h =
      let attempt = entry.attempts + 1 in
      let body = writing (reschedule entry.id attempt (now + o.retry_delay attempt)) in
      let after =
        transact-Keeps body w
          (Keeps-writing K _
            (λ s. c.closed_reschedule entry.id attempt (now + o.retry_delay attempt) s))
          h in
      elim (Result-cases (transact o body w).0) [
        | inl (x, e) ↦ rw (e, finish_command) after
        | inr (x, e) ↦ rw (e, finish_command) after
      ]

  fire_loop-Keeps :
      (left : ℕ) (facts : ℕ → F) (clock : ℕ → ℕ) → Keeps K (fire_loop o left facts clock)
  unfolding fire_loop
  fire_loop-Keeps zero facts clock = Keeps-reading K _
  fire_loop-Keeps (suc left) facts clock =
      let round =
        Keeps-transaction K _ depth (fire_body-Keeps o K may_remove c (facts left) (clock left)) in
      Keeps-and_then K _ _ round
        λ fired. Keeps-if K fired _ _ (fire_loop-Keeps left facts clock) (Keeps-reading K _)

  pub fire_timers-Keeps :
      (facts : ℕ → F) (clock : ℕ → ℕ) (w : World J)
      → K w.memory
      → K (fire_timers o facts clock w).1.memory
  unfolding fire_timers
  fire_timers-Keeps facts clock w h =
      let after = (fire_loop-Keeps max_firings facts clock).after w.memory h in
      elim (Result-cases (fire_loop o max_firings facts clock w.memory).0) [
        | inl (x, e) ↦ rw (e, fire_timers) (arm-Keeps tt _ after)
        | inr (x, e) ↦ rw (e, fire_timers) after
      ]

  -- The command that `take` may drop is the first of the outbox, and no release.
  take_first-Keeps :
      (es : List (OutboxEntry J)) (now : ℕ)
      → ((e : OutboxEntry J) (rest : List (OutboxEntry J))
          → es ≡ e ∷ rest
          → e.release ≡ false
          → may_remove e.id)
      → Keeps K (take_first o es now)
  unfolding take_first
  take_first-Keeps [] now may = Keeps-reading K _
  take_first-Keeps (e ∷ rest) now may = take_entry-Keeps o K may_remove c e now (may e rest refl)

  pub take-Keeps :
      (now : ℕ) (s : Memory J)
      → ((e : OutboxEntry J) (rest : List (OutboxEntry J))
          → outbox o.key s ≡ e ∷ rest
          → e.release ≡ false
          → may_remove e.id)
      → K s
      → K (take o now s).1
  unfolding take outbox take_first transaction
  take-Keeps now s may h =
      (Keeps-transaction K (λ t. take_first o (outbox o.key s) now t) depth
          (take_first-Keeps (outbox o.key s) now may)).after
        s h
