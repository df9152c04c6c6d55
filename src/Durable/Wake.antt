-- ===== src/Durable/Wake.antt =====
-- durable.ts, `nextWake` and `fireTimers`: when the alarm is set, and what it fires.
use cf_open_agents_api.Prelude.{
  ℕ, ◌≡◌, ◌≤◌, ◌↔◌, min, String, Bool, true, false, Option, none, some, List, [], ◌∷◌, ◌++◌, map,
  ok, nat_eq, string_eq, insert, lookup-insert_self, All, Member, All_of_map, All-append_left,
  All-append_right, arith, refl, inl, inr, sym, subst, All-map_of, ap, ap₂, ◌∙◌, Option-cases,
}
use native.Mathlib.Decide.{dec_le}
use cf_open_agents_api.Machine.Types.{State, Event, Step, ignored, rejected, moved, Due}
use cf_open_agents_api.Machine.Defs.{step}
use cf_open_agents_api.Machine.Codec.{RoundTrips, decode-encode_state}
use cf_open_agents_api.Machine.Stepping.{IsKnown, step-Moves, Moves-IsKnown}
use cf_open_agents_api.Store.Memory.{Memory, OutboxEntry, and_then, reading, writing, outbox}
use cf_open_agents_api.Durable.Defs.{
  Options, Held, load_record, save_record, pending_timers, first_due, next_wake, earliest,
  is_pending, commit_step, transition_record, fire_due,
}
use cf_open_agents_api.Durable.Applied.{load_saved, commit_step_load, record_after}

earliest-none : (ts : List ℕ) → earliest ts ≡ none → ts ≡ []
unfolding earliest
earliest-none [] h = refl
earliest-none (t ∷ ts) h = ground arith

-- The earliest of some times is one of them, and is at most each.
earliest_least : (ts : List ℕ) (t : ℕ) → earliest ts ≡ some t → Member t ts × All (λ u. t ≤ u) ts
unfolding earliest
earliest_least [] t h = absurd (cc)
earliest_least (u ∷ ts) t h = elim (Option-cases (earliest ts)) [
  | inl e ↦
      let last : t ≡ u = ground arith in
      (inl last, (omega arith, subst (All (λ x. t ≤ x)) (sym (earliest-none ts e)) tt))
  | inr (v, e) ↦
      let least : t ≡ min u v = ground arith in
      let (inside, below) = earliest_least ts v e in
      let rest : All (λ x. t ≤ x) ts = All-map_of {P = λ x. v ≤ x} (λ x p. omega arith) ts below in
      elim (dec_le u v) [
        | yes p ↦ (inl (omega arith), (omega arith, rest))
        | no p ↦ (inr (subst (λ x. Member x ts) {x = v} (omega arith) inside), (omega arith, rest))
      ]
]

module _ {D P C F J : Type 0} (o : Options D P C F J) where
  next_wake_lem :
      (s : Memory J) (r : Held D) (due : List Due) (at : Option ℕ)
      → load_record o s ≡ ok r
      → pending_timers o r ≡ ok due
      → next_wake o s ≡ ok at
      → at ≡ earliest (map (λ timer. timer.time) due ++ first_due o (outbox o.key s))
  unfolding next_wake
  next_wake_lem s r due at loaded pending h = ground arith

  no_times :
      (due : List Due) (es : List (OutboxEntry J))
      → map (λ timer. timer.time) due ++ first_due o es ≡ []
      → (due ≡ []) × (es ≡ [])
  no_times [] [] h = (refl, refl)
  no_times [] (x ∷ xs) h = cc
  no_times (d ∷ ds) es h = cc

  -- The next wake is none exactly when no timer is pending and the outbox is empty.
  pub next_wake-none :
      (s : Memory J) (r : Held D) (due : List Due) (at : Option ℕ)
      → load_record o s ≡ ok r
      → pending_timers o r ≡ ok due
      → next_wake o s ≡ ok at
      → (at ≡ none) ↔ ((due ≡ []) × (outbox o.key s ≡ []))
  unfolding earliest
  next_wake-none s r due at loaded pending h =
      let e = next_wake_lem s r due at loaded pending h in
      (
        λ none_at. no_times due (outbox o.key s) (earliest-none _ (sym e ∙ none_at)),
        λ both.
            e ∙ ap₂ (λ x y. earliest (map (λ timer. timer.time) x ++ first_due o y)) both.0 both.1,
      )

  -- A next wake is the time of a pending timer or of the first command, and no later than any
  -- pending timer or the first command.
  pub next_wake_earliest :
      (s : Memory J) (r : Held D) (due : List Due) (t : ℕ)
      → load_record o s ≡ ok r
      → pending_timers o r ≡ ok due
      → next_wake o s ≡ ok (some t)
      → Member t (map (λ timer. timer.time) due ++ first_due o (outbox o.key s))
        × All (λ timer. t ≤ timer.time) due
        × All (λ first. t ≤ first) (first_due o (outbox o.key s))
  next_wake_earliest s r due t loaded pending h =
      let e = next_wake_lem s r due (some t) loaded pending h in
      let (inside, below) = earliest_least _ t (sym e) in
      (
        inside,
        All_of_map (λ timer. timer.time) (λ u. t ≤ u) due
            (All-append_left (λ u. t ≤ u) (map (λ timer. timer.time) due) _ below),
        All-append_right (λ u. t ≤ u) (map (λ timer. timer.time) due) _ below,
      )

  unfoldable pub enters : Step D C → Bool
  enters (moved from to planned entered) = entered
  enters _ = false

  insert_not_pending :
      (timer : Due) (fired : List (String × ℕ))
      → is_pending (insert timer.event timer.time fired) timer ≡ false
  insert_not_pending timer fired = ground (arith, lookup-insert_self timer.event timer.time fired)

  -- The record after a timer's event was applied to the marked record.
  fired_record : Held D → Due → Step D C → Held D
  fired_record r timer (moved from to planned entered) =
      record_after o (record r { fired = insert timer.event timer.time r.fired }) to entered
  fired_record r timer _ = record r { fired = insert timer.event timer.time r.fired }

  fired_record_pending :
      (r : Held D) (timer : Due) (st : Step D C)
      → is_pending (fired_record r timer st).fired timer ≡ enters st
  unfolding enters fired_record
  fired_record_pending r timer (ignored t) = insert_not_pending timer r.fired
  fired_record_pending r timer (rejected t) = insert_not_pending timer r.fired
  fired_record_pending r timer (moved from to planned true) = refl
  fired_record_pending r timer (moved from to planned false) = insert_not_pending timer r.fired

  -- The state after a step of the machine from a state.
  abbrev pub state_after : State D → Step D C → State D
  state_after before (moved from to planned entered) = to
  state_after before _ = before

  fired_record_state :
      (r : Held D) (timer : Due) (st : Step D C)
      → (fired_record r timer st).state ≡ state_after r.state st
  unfolding fired_record
  fired_record_state r timer (ignored t) = refl
  fired_record_state r timer (rejected t) = refl
  fired_record_state r timer (moved from to planned true) = refl
  fired_record_state r timer (moved from to planned false) = refl

  fired_load :
      (r : Held D) (timer : Due) (now : ℕ) (st : Step D C) (s : Memory J) (event : Event P) (f : F)
      → RoundTrips o.codec o.machine.definition
      → IsKnown o.machine.definition r.state
      → step o.machine r.state event f ≡ ok st
      → let marked = record r { fired = insert timer.event timer.time r.fired } in
        load_record o (commit_step o marked now st (save_record o marked s))
        ≡ ok (fired_record r timer st)
  unfolding fired_record commit_step
  fired_load r timer now (ignored t) s event f law known h =
      load_saved o _ s _ (decode-encode_state o.codec o.machine.definition r.state law known) refl
  fired_load r timer now (rejected t) s event f law known h =
      load_saved o _ s _ (decode-encode_state o.codec o.machine.definition r.state law known) refl
  fired_load r timer now (moved from to planned entered) s event f law known h =
      let next = Moves-IsKnown o.machine (step-Moves o.machine r.state event f h) in
      let decodes = decode-encode_state o.codec o.machine.definition to law next in
      commit_step_load o (record r { fired = insert timer.event timer.time r.fired }) now
        (save_record o (record r { fired = insert timer.event timer.time r.fired }) s) from to
        planned entered decodes

  fire_due_lem :
      (r : Held D) (timer : Due) (rest : List Due) (f : F) (now : ℕ) (s : Memory J) (st : Step D C)
      → step o.machine r.state (record { tag = timer.event; payload = o.empty_payload }) f ≡ ok st
      → let marked = record r { fired = insert timer.event timer.time r.fired } in
        fire_due o r f now (timer ∷ rest) s
        ≡ (ok true, commit_step o marked now st (save_record o marked s))
  unfolding fire_due and_then writing reading transition_record
  fire_due_lem r timer rest f now s st h = ground arith

  -- Under a codec that round-trips, and from a known state with valid data, the first due timer fires
  -- if the machine answers its event: the record that is then stored is in the state of the answer,
  -- and the same deadline counts as pending again exactly when the answer enters a state, so that a
  -- timer fires once per deadline for as long as no state is entered.
  pub fires_once :
      (r : Held D) (timer : Due) (rest : List Due) (f : F) (now : ℕ) (s : Memory J) (st : Step D C)
      → RoundTrips o.codec o.machine.definition
      → IsKnown o.machine.definition r.state
      → step o.machine r.state (record { tag = timer.event; payload = o.empty_payload }) f ≡ ok st
      → let after = fire_due o r f now (timer ∷ rest) s in
        (after.0 ≡ ok true)
        × ((r' : Held D) × (load_record o after.1 ≡ ok r')
            × (r'.state ≡ state_after r.state st)
            × (is_pending r'.fired timer ≡ enters st))
  fires_once r timer rest f now s st law known h =
      let done = fire_due_lem r timer rest f now s st h in
      (
        ap (λ x. x.0) done,
        (
          fired_record r timer st,
          ap (λ x. load_record o x.1) done ∙ fired_load r timer now st s _ f law known h,
          fired_record_state r timer st,
          fired_record_pending r timer st,
        ),
      )
