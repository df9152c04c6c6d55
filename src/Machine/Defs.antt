-- ===== src/Machine/Defs.antt =====
-- packages/durable-machine/src/machine.ts: `make` and the machine's operations.
use cf_open_agents_api.Prelude.{
  String, Bool, true, false, not, none, some, List, [], ◌∷◌, ◌++◌, map, Result, ok, err, ◌>>=◌,
  ◌>>◌, guard, or_throw, leb, if◌then◌else◌, ◌==◌, string_eq, filter, contains, lookup, keys,
}
use cf_open_agents_api.Machine.Types.{
  StateSpec, Spec, State, Event, Command, Next, Returned, promise, returned, Answer, ignore, reject,
  not_a_function, transition, Deadline, undefined, not_finite, at_time, Implementation, Planned,
  Step, ignored, rejected, moved, Due, MachineError, unknown_state, terminal_has_table,
  terminal_holds, no_table, does_not_answer, answers_unknown_event, no_release,
  table_names_unknown_state, initial_is_terminal, initial_data_invalid, no_answer, returned_promise,
  unknown_target, invalid_data, unknown_command, invalid_command, deadline_not_finite, Machine,
}

abbrev pub Checked : Type 0 → Type 0
Checked A = Result MachineError A

-- `for (const x of xs) check(x)`
abbrev pub each : {A : Type 0} → (A → Checked (Unit {0})) → List A → Checked (Unit {0})
each check [] = ok tt
each check (x ∷ xs) = check x >> each check xs

-- `own(record, key)`
abbrev pub own : {V : Type 0} → List (String × V) → String → Bool
own m k = contains (keys m) k

-- `specOf(tag)`
unfoldable pub spec_of : {D C : Type 0} → Spec D C → String → Checked (StateSpec D)
spec_of definition tag = or_throw (lookup tag definition.states) (unknown_state tag)

-- `array.length === 0`
abbrev is_empty {ℓ} : {A : Type ℓ} → List A → Bool
is_empty [] = true
is_empty (x ∷ xs) = false

unfoldable pub check_initial : {D C : Type 0} → Spec D C → State D → Checked (Unit {0})
unfolding spec_of
check_initial definition initial = do
  spec ← spec_of definition initial.tag
  guard (not spec.terminal) initial_is_terminal
  guard (spec.validates initial.content) initial_data_invalid

abbrev pub plan_own : {C : Type 0} → Command C → Planned C
plan_own command = record { command = command; release = false; resource = none }

module _ {D C : Type 0} where
  -- The commands of a step: the transition's own, then the releases, in release order.
  abbrev pub plan_release : State D → String × (State D → Command C) → Planned C
  plan_release current (resource, release) = record {
    command = release current;
    release = true;
    resource = some resource;
  }

  unfoldable pub plan_releases :
      List (String × (State D → Command C)) → State D → List String → List String → List (Planned C)
  plan_releases release current held kept =
      let released = filter (λ resource. not (contains kept resource)) held in
      map (plan_release current) (filter (λ r. contains released r.0) release)

  -- The last loop of `step`: each planned command is known and its schema accepts it.
  unfoldable pub check_command : Spec D C → Planned C → Checked (Unit {0})
  check_command definition planned = do
    schema ←
        or_throw (lookup planned.command.tag definition.commands)
          (unknown_command planned.command.tag)
    guard (schema planned.command.payload) (invalid_command planned.command.tag)

-- `entries.filter(defined).map(check)`
unfoldable pub defined_timers : List (String × Deadline) → Checked (List Due)
defined_timers [] = ok []
defined_timers ((event, undefined) ∷ entries) = defined_timers entries
defined_timers ((event, not_finite) ∷ entries) = err (deadline_not_finite event)
defined_timers ((event, at_time t) ∷ entries) = do
  rest ← defined_timers entries
  ok (record { event = event; time = t } ∷ rest)

module _ {D P C F : Type 0} where
  -- The body of `make`'s loop over the states, for a terminal state and for a live one.
  unfoldable pub check_terminal : Implementation D P C F → String → StateSpec D → Checked (Unit {0})
  check_terminal implementation tag spec = do
    guard (not (own implementation.on tag)) (terminal_has_table tag)
    guard (is_empty spec.holds) (terminal_holds tag)

  unfoldable pub check_live :
      Spec D C → Implementation D P C F → String → StateSpec D → Checked (Unit {0})
  check_live definition implementation tag spec = do
    answers ← or_throw (lookup tag implementation.on) (no_table tag)
    each (λ event. guard (own answers event) (does_not_answer tag event)) definition.events
    each (λ event. guard (contains definition.events event) (answers_unknown_event tag event))
        (keys answers)
    each (λ resource. guard (own implementation.release resource) (no_release resource)) spec.holds

  unfoldable pub check_state :
      Spec D C → Implementation D P C F → String × StateSpec D → Checked (Unit {0})
  unfolding check_terminal check_live
  check_state definition implementation (tag, spec) =
      if spec.terminal
      then check_terminal implementation tag spec
      else check_live definition implementation tag spec

  -- `make`
  unfoldable pub make : Spec D C → Implementation D P C F → Checked (Machine D P C F)
  unfolding check_state check_initial
  make definition implementation = do
    each (check_state definition implementation) definition.states
    each (λ tag. guard (contains (keys definition.states) tag) (table_names_unknown_state tag))
        (keys implementation.on)
    check_initial definition implementation.initial
    ok (record { definition = definition; implementation = implementation })

  -- `machine.resources`, `machine.holds(tag)`, `machine.isTerminal(tag)`
  abbrev pub resources : Machine D P C F → List String
  resources machine = keys machine.implementation.release

  unfoldable pub holds : Machine D P C F → String → Checked (List String)
  unfolding spec_of
  holds machine tag = do spec ← spec_of machine.definition tag; ok spec.holds

  unfoldable pub is_terminal : Machine D P C F → String → Checked Bool
  unfolding spec_of
  is_terminal machine tag = do spec ← spec_of machine.definition tag; ok spec.terminal

  -- `step` from the point where the transition has returned.
  unfoldable pub finish_step :
      Machine D P C F → State D → List String → Next D C → Checked (Step D C)
  unfolding plan_releases check_command
  finish_step machine current held next = do
    spec ← or_throw (lookup next.to machine.definition.states) (unknown_target next.to)
    guard (spec.validates next.content) (invalid_data next.to)
    let target : State D = record { tag = next.to; content = next.content }
    let planned =
        map plan_own next.commands
        ++ plan_releases machine.implementation.release current held spec.holds
    each (check_command machine.definition) planned
    ok (moved current target planned (not (next.to == current.tag)))

  -- What the transition returned: a promise is refused.
  unfoldable pub returned_step :
      Machine D P C F → State D → Event P → List String → Returned D C → Checked (Step D C)
  returned_step machine current event held promise = err (returned_promise current.tag event.tag)
  returned_step machine current event held (returned n) = finish_step machine current held n

  unfoldable pub answer_step :
      Machine D P C F → State D → Event P → F → List String → Answer D P C F → Checked (Step D C)
  unfolding returned_step
  answer_step machine current event facts held ignore = ok (ignored current)
  answer_step machine current event facts held reject = ok (rejected current)
  answer_step machine current event facts held not_a_function =
      err (no_answer current.tag event.tag)
  answer_step machine current event facts held (transition f) =
      returned_step machine current event held (f current.content event facts)

  -- `on[stateTag]?.[eventTag]`, where a missing answer is `undefined`.
  unfoldable pub find_answer : Machine D P C F → String → String → Answer D P C F
  find_answer machine tag event = elim (lookup tag machine.implementation.on) [
    | none ↦ not_a_function
    | some answers ↦ elim (lookup event answers) [ none ↦ not_a_function | some a ↦ a ]
  ]

  -- `machine.step(current, event, facts)`
  unfoldable pub step : Machine D P C F → State D → Event P → F → Checked (Step D C)
  unfolding spec_of answer_step find_answer
  step machine current event facts = do
    spec ← spec_of machine.definition current.tag
    if spec.terminal
        then ok (ignored current)
        else answer_step machine current event facts spec.holds
            (find_answer machine current.tag event.tag)

-- `[...due].sort((left, right) => left.at - right.at)`, a stable sort.
unfoldable pub insert_due : Due → List Due → List Due
insert_due d [] = d ∷ []
insert_due d (x ∷ xs) = if leb d.time x.time then d ∷ x ∷ xs else x ∷ insert_due d xs

unfoldable pub sort_due : List Due → List Due
unfolding insert_due
sort_due [] = []
sort_due (d ∷ ds) = insert_due d (sort_due ds)

unfoldable pub derive_timers :
    {D : Type 0} → Bool → D → (D → List (String × Deadline)) → Checked (List Due)
unfolding defined_timers sort_due
derive_timers true content derive = ok []
derive_timers false content derive = do due ← defined_timers (derive content); ok (sort_due due)

module _ {D P C F : Type 0} where
  -- `machine.timers(current)`
  unfoldable pub timers : Machine D P C F → State D → Checked (List Due)
  unfolding derive_timers spec_of
  timers machine current = elim (lookup current.tag machine.implementation.timers) [
    | none ↦ ok []
    | some derive ↦ (do
      spec ← spec_of machine.definition current.tag
      derive_timers spec.terminal current.content derive)
  ]
