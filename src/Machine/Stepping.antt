-- ===== src/Machine/Stepping.antt =====
-- machine.ts, `step`: what holds of a step that does not throw, and of the states it reaches.
use cf_open_agents_api.Prelude.{
  String, ◌≡◌, Bool, true, false, not, some, List, ◌++◌, map, arith, ok, or_throw, ◌==◌, string_eq,
  lookup, All, guard-eq-ok, or_throw-eq-ok, >>=-eq-ok, All-map_of, ◌⊎◌,
}
use cf_open_agents_api.Machine.Types.{
  StateSpec, Spec, State, Event, Next, Answer, ignore, reject, not_a_function, transition, promise,
  returned, Implementation, Machine, Planned, ignored, rejected, moved, Returned, Command,
}
use cf_open_agents_api.Machine.Defs.{
  each, spec_of, check_command, plan_own, plan_releases, finish_step, returned_step, answer_step,
  find_answer, step, make,
}
use cf_open_agents_api.Machine.Made.{All-each, make-IsMade}

-- A state whose tag the machine knows, with data that the tag's schema accepts.
pub record IsKnown {D C : Type 0} (d : Spec D C) (s : State D) : Type 0 where
  pub spec : StateSpec D
  pub found : lookup s.tag d.states ≡ some spec
  pub valid : spec.validates s.content ≡ true

-- A planned command whose tag the machine knows, with a payload that the tag's schema accepts.
pub record CommandKnown {D C : Type 0} (d : Spec D C) (planned : Planned C) : Type 0 where
  pub schema : C → Bool
  pub found : lookup planned.command.tag d.commands ≡ some schema
  pub valid : schema planned.command.payload ≡ true

check_command-CommandKnown :
    {D C : Type 0} (d : Spec D C) (planned : Planned C)
    → check_command d planned ≡ ok tt
    → CommandKnown d planned
unfolding check_command
check_command-CommandKnown d planned h =
    let (schema, found, h1) = >>=-eq-ok (or_throw (lookup planned.command.tag d.commands) _) _ h in
    record {
      schema = schema;
      found = or_throw-eq-ok (lookup planned.command.tag d.commands) _ found;
      valid = guard-eq-ok _ _ h1;
    }

-- The plan of a transition's result, for a target that keeps `kept`.
abbrev pub plan_of :
    {D P C F : Type 0}
    → Machine D P C F
    → State D
    → List String
    → Next D C
    → List String
    → List (Planned C)
plan_of m s held n kept =
    map plan_own n.commands ++ plan_releases m.implementation.release s held kept

module _ {D P C F : Type 0} (m : Machine D P C F) where
  finish_step_lem :
      (s : State D) (held : List String) (n : Next D C) {from to : State D}
      {planned : List (Planned C)} {entered : Bool}
      → finish_step m s held n ≡ ok (moved from to planned entered)
      → (spec : StateSpec D) × (lookup n.to m.definition.states ≡ some spec)
        × (spec.validates n.content ≡ true)
        × (each (check_command m.definition) (plan_of m s held n spec.holds) ≡ ok tt)
        × (from ≡ s)
        × (to ≡ record { tag = n.to; content = n.content })
        × (planned ≡ plan_of m s held n spec.holds)
        × (entered ≡ not (n.to == s.tag))
  unfolding finish_step
  finish_step_lem s held n h = ground arith

  -- What a step that moves has done.
  pub record Moves (s from to : State D) (planned : List (Planned C)) (entered : Bool)
      : Type 0 where
    pub spec : StateSpec D
    pub source : lookup s.tag m.definition.states ≡ some spec
    pub live : spec.terminal ≡ false
    pub from_current : from ≡ s
    pub target : StateSpec D
    pub target_found : lookup to.tag m.definition.states ≡ some target
    pub target_valid : target.validates to.content ≡ true
    pub commands_known : All (CommandKnown m.definition) planned
    pub own_commands : List (Command C)
    pub plan :
        planned
        ≡ map plan_own own_commands
          ++ plan_releases m.implementation.release s spec.holds target.holds
    pub entered_exactly : entered ≡ not (to.tag == s.tag)

  returned_step_lem :
      (s : State D) (e : Event P) (held : List String) (r : Returned D C) {from to : State D}
      {planned : List (Planned C)} {entered : Bool}
      → returned_step m s e held r ≡ ok (moved from to planned entered)
      → (n : Next D C) × (finish_step m s held n ≡ ok (moved from to planned entered))
  unfolding returned_step
  returned_step_lem s e held promise h = cc
  returned_step_lem s e held (returned n) h = (n, h)

  answer_step_lem :
      (s : State D) (e : Event P) (f : F) (held : List String) (a : Answer D P C F)
      {from to : State D} {planned : List (Planned C)} {entered : Bool}
      → answer_step m s e f held a ≡ ok (moved from to planned entered)
      → (n : Next D C) × (finish_step m s held n ≡ ok (moved from to planned entered))
  unfolding answer_step
  answer_step_lem s e f held ignore h = cc
  answer_step_lem s e f held reject h = cc
  answer_step_lem s e f held not_a_function h = cc
  answer_step_lem s e f held (transition t) h = returned_step_lem s e held (t s.content e f) h

  step_lem :
      (s : State D) (e : Event P) (f : F) {from to : State D} {planned : List (Planned C)}
      {entered : Bool}
      → step m s e f ≡ ok (moved from to planned entered)
      → (spec : StateSpec D) × (lookup s.tag m.definition.states ≡ some spec)
        × (spec.terminal ≡ false)
        × (answer_step m s e f spec.holds (find_answer m s.tag e.tag)
            ≡ ok (moved from to planned entered))
  unfolding step spec_of
  step_lem s e f h = ground arith

  -- A step that moves leaves a live state for one whose tag and data the machine accepts, with
  -- commands that it accepts: the transition's own, then the releases.
  pub step-Moves :
      (s : State D) (e : Event P) (f : F) {from to : State D} {planned : List (Planned C)}
      {entered : Bool}
      → step m s e f ≡ ok (moved from to planned entered)
      → Moves s from to planned entered
  step-Moves s e f h =
      let (spec, source, live, h1) = step_lem s e f h in
      let (n, h2) = answer_step_lem s e f spec.holds _ h1 in
      let (target, found, valid, known, from_s, to_n, planned_n, entered_n) =
        finish_step_lem s spec.holds n h2 in
      record {
        spec = spec;
        source = source;
        live = live;
        from_current = from_s;
        target = target;
        target_found = rw to_n found;
        target_valid = rw to_n valid;
        commands_known =
            rw planned_n
              (All-map_of (check_command-CommandKnown m.definition) _ (All-each _ _ known));
        own_commands = n.commands;
        plan = planned_n;
        entered_exactly = rw to_n entered_n;
      }

  -- Whatever the state, a step that moves reaches a state that the machine knows.
  pub Moves-IsKnown :
      {s from to : State D} {planned : List (Planned C)} {entered : Bool}
      → Moves s from to planned entered
      → IsKnown m.definition to
  Moves-IsKnown mv = record { spec = mv.target; found = mv.target_found; valid = mv.target_valid }

  -- A terminal state ignores every event.
  pub terminal_ignores :
      (s : State D) (e : Event P) (f : F) (spec : StateSpec D)
      → lookup s.tag m.definition.states ≡ some spec
      → spec.terminal ≡ true
      → step m s e f ≡ ok (ignored s)
  unfolding step spec_of
  terminal_ignores s e f spec found dead = ground arith

  -- An answer that is no transition leaves the state as it was.
  pub unmoved_keeps :
      (s : State D) (e : Event P) (f : F) (t : State D)
      → (step m s e f ≡ ok (ignored t)) ⊎ (step m s e f ≡ ok (rejected t))
      → t ≡ s
  unfolding step spec_of answer_step returned_step finish_step
  unmoved_keeps s e f t h = ground arith

-- The states that events lead to from a given one, each step under facts of its own.
pub data Reaches {D P C F : Type 0} (m : Machine D P C F) (s : State D) : State D → Type 0 where
  here : Reaches m s s
  next :
      {t from to : State D} {planned : List (Planned C)} {entered : Bool} (e : Event P) (f : F)
      → Reaches m s t
      → step m t e f ≡ ok (moved from to planned entered)
      → Reaches m s to

module _ {D P C F : Type 0} (m : Machine D P C F) where
  -- Every state that a made machine reaches from its initial one is known, with valid data, so
  -- that no event at it can fail for an unknown state.
  pub Reaches-IsKnown :
      (d : Spec D C) (i : Implementation D P C F) (s : State D)
      → make d i ≡ ok m
      → Reaches m i.initial s
      → IsKnown m.definition s
  Reaches-IsKnown d i s made here =
      let (e, checked) = make-IsMade d i m made in
      let initial = checked.initial_checked in
      rw e (record { spec = initial.spec; found = initial.found; valid = initial.valid })
  Reaches-IsKnown d i s made (next e f r st) = Moves-IsKnown m (step-Moves m _ e f st)
