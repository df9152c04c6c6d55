-- ===== src/Machine/Made.antt =====
-- machine.ts, `make`: what its checks establish.
use cf_open_agents_api.Prelude.{
  String, ◌≡◌, Bool, true, false, some, List, [], ◌∷◌, arith, ok, guard, or_throw, string_eq,
  contains, lookup, keys, All, guard-eq-ok, or_throw-eq-ok, >>-eq-ok, >>=-eq-ok, ◌⊎◌, inl, inr,
  All-map_of, Bool-cases,
}
use cf_open_agents_api.Machine.Types.{
  StateSpec, Spec, State, Answer, Implementation, Machine, MachineError,
}
use cf_open_agents_api.Machine.Defs.{
  Checked, each, own, spec_of, check_terminal, check_live, check_state, check_initial, make,
}

-- A loop of checks that passes has passed at each element.
pub All-each :
    {A : Type 0} (check : A → Checked (Unit {0})) (xs : List A)
    → each check xs ≡ ok tt
    → All (λ x. check x ≡ ok tt) xs
All-each check [] h = tt
All-each check (x ∷ xs) h =
    let (p, q) = >>-eq-ok (check x) (each check xs) h in (p, All-each check xs q)

All-each-guard :
    {A : Type 0} (test : A → Bool) (e : A → MachineError) (xs : List A)
    → each (λ x. guard (test x) (e x)) xs ≡ ok tt
    → All (λ x. test x ≡ true) xs
All-each-guard test e xs h = All-map_of (λ x p. guard-eq-ok (test x) (e x) p) xs (All-each _ xs h)

-- The answers of a live state: one for each event, none for another, and a release for each
-- resource that it holds.
pub record AnswersAll {D P C F : Type 0} (d : Spec D C) (i : Implementation D P C F) (tag : String)
    (spec : StateSpec D) : Type 0 where
  pub answers : List (String × Answer D P C F)
  pub found : lookup tag i.on ≡ some answers
  pub complete : All (λ event. own answers event ≡ true) d.events
  pub known : All (λ event. contains d.events event ≡ true) (keys answers)
  pub released : All (λ resource. own i.release resource ≡ true) spec.holds

-- The initial state is a live state of the machine with data that its schema accepts.
pub record InitialChecked {D C : Type 0} (d : Spec D C) (initial : State D) : Type 0 where
  pub spec : StateSpec D
  pub found : lookup initial.tag d.states ≡ some spec
  pub live : spec.terminal ≡ false
  pub valid : spec.validates initial.content ≡ true

check_initial-InitialChecked :
    {D C : Type 0} (d : Spec D C) (initial : State D)
    → check_initial d initial ≡ ok tt
    → InitialChecked d initial
unfolding check_initial
check_initial-InitialChecked d initial h =
    let (spec, found, h1) = >>=-eq-ok (spec_of d initial.tag) _ h in
    record {
      spec = spec;
      found = or_throw-eq-ok (lookup initial.tag d.states) _ found;
      live = ground arith;
      valid = ground arith;
    }

module _ {D P C F : Type 0} (d : Spec D C) (i : Implementation D P C F) where
  check_live-AnswersAll :
      (tag : String) (spec : StateSpec D)
      → check_live d i tag spec ≡ ok tt
      → AnswersAll d i tag spec
  unfolding check_live
  check_live-AnswersAll tag spec h =
      let (answers, found, h1) = >>=-eq-ok (or_throw (lookup tag i.on) _) _ h in
      let (complete, h2) = >>-eq-ok _ _ h1 in
      let (known, h3) = >>-eq-ok _ _ h2 in
      record {
        answers = answers;
        found = or_throw-eq-ok (lookup tag i.on) _ found;
        complete = All-each-guard _ _ d.events complete;
        known = All-each-guard _ _ (keys answers) known;
        released = All-each-guard _ _ spec.holds h3;
      }

  check_terminal_lem :
      (tag : String) (spec : StateSpec D)
      → check_terminal i tag spec ≡ ok tt
      → (own i.on tag ≡ false) × (spec.holds ≡ [])
  unfolding check_terminal
  check_terminal_lem tag spec h = ground arith

  -- What `make` has checked of a state: a live one answers, a terminal one has and holds nothing.
  abbrev pub StateChecked : String → StateSpec D → Type 0
  StateChecked tag spec =
      ((spec.terminal ≡ false) × AnswersAll d i tag spec)
      ⊎ ((spec.terminal ≡ true) × (own i.on tag ≡ false) × (spec.holds ≡ []))

  check_state-StateChecked :
      (tag : String) (spec : StateSpec D)
      → check_state d i (tag, spec) ≡ ok tt
      → StateChecked tag spec
  unfolding check_state
  check_state-StateChecked tag spec h = elim (Bool-cases spec.terminal) [
    | inl t ↦
        let (none_on, nothing) = check_terminal_lem tag spec (rw t at h) in
        inr (t, none_on, nothing)
    | inr t ↦ inl (t, check_live-AnswersAll tag spec (rw t at h))
  ]

  pub live-AnswersAll :
      (tag : String) (spec : StateSpec D)
      → StateChecked tag spec
      → spec.terminal ≡ false
      → AnswersAll d i tag spec
  live-AnswersAll tag spec (inl (live, answers)) h = answers
  live-AnswersAll tag spec (inr (dead, no_table, nothing)) h = cc

  pub record IsMade : Type 0 where
    pub states_checked : All (λ x. StateChecked x.0 x.1) d.states
    pub tables_known : All (λ tag. contains (keys d.states) tag ≡ true) (keys i.on)
    pub initial_checked : InitialChecked d i.initial

  -- What `make` returns is the given specification and implementation, and they passed its checks:
  -- a live state answers every event and no other and its resources have releases, a terminal state
  -- has no table and holds nothing, and the initial state is live with valid data.
  pub make-IsMade :
      (m : Machine D P C F)
      → make d i ≡ ok m
      → (m ≡ record { definition = d; implementation = i }) × IsMade
  unfolding make
  make-IsMade m h =
      let (states, h1) = >>-eq-ok _ _ h in
      let (tables, h2) = >>-eq-ok _ _ h1 in
      let (initial, h3) = >>-eq-ok (check_initial d i.initial) _ h2 in
      (
        cc,
        record {
          states_checked =
              All-map_of (λ x p. check_state-StateChecked x.0 x.1 p) d.states
                (All-each _ d.states states);
          tables_known = All-each-guard _ _ (keys i.on) tables;
          initial_checked = check_initial-InitialChecked d i.initial initial;
        },
      )
