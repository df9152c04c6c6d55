-- ===== src/Machine/Release.antt =====
-- machine.ts, `step`: the release commands that a step enqueues.
use cf_open_agents_api.Prelude.{
  String, ◌≡◌, Bool, true, false, not, some, List, [], ◌∷◌, ◌++◌, map, ok, string_eq, contains,
  filter, lookup, All, Member, All-lookup, refl, sym, subst₂, inl, inr, subst, Member-contains,
  contains-Member, Member-filter, Member-of_filter, Member-map, Member-append_right,
  Member-append_cases, lookup_of_key, Member-of_lookup, Member-of_map, not-eq-true, All-Member,
}
use cf_open_agents_api.Machine.Types.{
  StateSpec, Spec, State, Event, Command, Implementation, Machine, Planned, moved,
}
use cf_open_agents_api.Machine.Defs.{own, plan_own, plan_release, plan_releases, step, make}
use cf_open_agents_api.Machine.Made.{StateChecked, live-AnswersAll, make-IsMade}
use cf_open_agents_api.Machine.Stepping.{step-Moves}

module _ {D C : Type 0} (release : List (String × (State D → Command C))) (s : State D)
    (held kept : List String) where
  -- A resource that is held and not kept has its release in the plan.
  Member-plan_releases :
      (r : String) (f : State D → Command C)
      → lookup r release ≡ some f
      → Member r held
      → contains kept r ≡ false
      → Member (plan_release s (r, f)) (plan_releases release s held kept)
  unfolding plan_releases
  Member-plan_releases r f found h k =
      let released = filter (λ x. not (contains kept x)) held in
      Member-map (plan_release s) (r, f) _
        (Member-filter (λ x. contains released x.0) (r, f) release
          (Member-of_lookup r release f found)
          (Member-contains released r (Member-filter (λ x. not (contains kept x)) r held h (rw k))))

  -- A planned release is of a resource that is held and not kept, by that resource's command.
  abbrev pub IsDueRelease : Planned C → Type 0
  IsDueRelease p =
      (r : String) × (f : State D → Command C) × Member (r, f) release
      × Member r held
      × (contains kept r ≡ false)
      × (p ≡ plan_release s (r, f))

  plan_releases-IsDueRelease :
      (p : Planned C) → Member p (plan_releases release s held kept) → IsDueRelease p
  unfolding plan_releases
  plan_releases-IsDueRelease p h =
      let released = filter (λ x. not (contains kept x)) held in
      let ((r, f), inside, e) = Member-of_map (plan_release s) p _ h in
      let (known, due) = Member-of_filter (λ x. contains released x.0) (r, f) release inside in
      let (was_held, dropped) =
        Member-of_filter (λ x. not (contains kept x)) r held (contains-Member released r due) in
      (r, f, known, was_held, not-eq-true _ dropped, e)

all_own_release :
    {C : Type 0} (cs : List (Command C)) → All (λ p. p.release ≡ false) (map plan_own cs)
all_own_release [] = tt
all_own_release (c ∷ cs) = (refl, all_own_release cs)

module _ {D P C F : Type 0} (m : Machine D P C F) where
  -- The plan of a step, at the specifications of its two states.
  step_plan :
      (s : State D) (e : Event P) (f : F) (spec target : StateSpec D) {from to : State D}
      {planned : List (Planned C)} {entered : Bool}
      → step m s e f ≡ ok (moved from to planned entered)
      → lookup s.tag m.definition.states ≡ some spec
      → lookup to.tag m.definition.states ≡ some target
      → (own_commands : List (Command C)) × (spec.terminal ≡ false)
        × (planned
            ≡ map plan_own own_commands
              ++ plan_releases m.implementation.release s spec.holds target.holds)
  step_plan s e f spec target {planned = planned} st source goal =
      let mv = step-Moves m s e f st in
      let same_spec : mv.spec ≡ spec = cc (mv.source, source) in
      let same_target : mv.target ≡ target = cc (mv.target_found, goal) in
      (
        mv.own_commands,
        subst (λ x. x.terminal ≡ false) same_spec mv.live,
        subst₂
            (λ (x y : StateSpec D).
              planned
              ≡ map plan_own mv.own_commands
                ++ plan_releases m.implementation.release s x.holds y.holds)
            same_spec same_target mv.plan,
      )

  -- A resource that a live state of a made machine holds has a release command.
  made_release :
      (d : Spec D C) (i : Implementation D P C F) (tag r : String) (spec : StateSpec D)
      → make d i ≡ ok m
      → lookup tag m.definition.states ≡ some spec
      → spec.terminal ≡ false
      → Member r spec.holds
      → (release : State D → Command C) × (lookup r m.implementation.release ≡ some release)
  made_release d i tag r spec made source live held =
      let (e, checked) = make-IsMade d i m made in
      let found =
        subst (λ (x : Machine D P C F). lookup tag x.definition.states ≡ some spec) e source in
      let answers =
        live-AnswersAll d i tag spec
          (All-lookup (StateChecked d i) tag spec d.states checked.states_checked found) live in
      let known = All-Member (λ x. own i.release x ≡ true) r spec.holds answers.released held in
      subst
        (λ (x : Machine D P C F).
          (release : State D → Command C) × (lookup r x.implementation.release ≡ some release))
        (sym e) (lookup_of_key r i.release known)

  -- In a machine that `make` returned, a step that leaves a state which holds a resource, for one
  -- which does not, enqueues that resource's release command, built from the state that it left.
  pub release_complete :
      (d : Spec D C) (i : Implementation D P C F) (s : State D) (e : Event P) (f : F)
      (spec target : StateSpec D) (r : String) {from to : State D} {planned : List (Planned C)}
      {entered : Bool}
      → make d i ≡ ok m
      → step m s e f ≡ ok (moved from to planned entered)
      → lookup s.tag m.definition.states ≡ some spec
      → lookup to.tag m.definition.states ≡ some target
      → Member r spec.holds
      → contains target.holds r ≡ false
      → (release : State D → Command C) × (lookup r m.implementation.release ≡ some release)
        × Member (record { command = release s; release = true; resource = some r }) planned
  release_complete d i s e f spec target r made st source goal held dropped =
      let (own_commands, live, plan) = step_plan s e f spec target st source goal in
      let (release, found) = made_release d i s.tag r spec made source live held in
      (
        release,
        found,
        subst (Member _) (sym plan) (
            Member-append_right _ (map plan_own own_commands) _ (
              Member-plan_releases m.implementation.release s spec.holds target.holds r release
                found held dropped)),
      )

  -- A step enqueues no other release: each one is of a resource that the state it leaves holds and
  -- the state it enters does not, and is that resource's own release command.
  pub release_sound :
      (s : State D) (e : Event P) (f : F) (spec target : StateSpec D) (p : Planned C)
      {from to : State D} {planned : List (Planned C)} {entered : Bool}
      → step m s e f ≡ ok (moved from to planned entered)
      → lookup s.tag m.definition.states ≡ some spec
      → lookup to.tag m.definition.states ≡ some target
      → Member p planned
      → p.release ≡ true
      → IsDueRelease m.implementation.release s spec.holds target.holds p
  release_sound s e f spec target p st source goal inside marked =
      let (own_commands, live, plan) = step_plan s e f spec target st source goal in
      elim (Member-append_cases p (map plan_own own_commands) _ (subst (Member p) plan inside)) [
        | inl own ↦
            let unmarked =
              All-Member (λ x. x.release ≡ false) p (map plan_own own_commands)
                (all_own_release own_commands) own in
            absurd (cc)
        | inr due ↦ plan_releases-IsDueRelease _ s spec.holds target.holds p due
      ]
