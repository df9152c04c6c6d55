-- ===== src/Turns/Answers.antt =====
-- session-state.ts, `acceptToolResult`: the required actions without the one that is answered.
use cf_open_agents_api.Prelude.{
  ◌≡◌, refl, ap, subst, String, Bool, true, false, not, ◌||◌, Option, none, some, List, [], ◌∷◌,
  ◌==◌, string_eq, Bool-cases, Option-cases, inl, inr, contains, distinct, not-eq-true,
}
use cf_open_agents_api.Stream.Types.{Action}
use cf_open_agents_api.Stream.Accept.{ToolResult}
use cf_open_agents_api.Stream.Actions.{call_ids}
use cf_open_agents_api.Stream.Summary.{and-eq-true}
use cf_open_agents_api.Turns.Input.{without_action, answers}

-- Whether a call is among those that wait.
abbrev pub waits : ToolResult → List Action → Bool
waits event actions = contains (call_ids actions) event.call_id

or_right : (a b : Bool) → b ≡ true → (a || b) ≡ true
or_right true b h = refl
or_right false b h = h

differs :
    (x y : String) (xs : List String)
    → contains xs x ≡ false
    → contains xs y ≡ true
    → (x == y) ≡ false
differs x y xs h g = elim (Bool-cases (x == y)) [
  | inl t ↦
      (let both : contains xs y ≡ false =
          subst (λ z. contains xs z ≡ false) ((string_eq.equal_iff x y).0 t) h in
        absurd (cc))
  | inr f ↦ f
]

abbrev actions_or : Option (List Action) → List Action
actions_or none = []
actions_or (some actions) = actions

or-eq-false : (a b : Bool) → (a || b) ≡ false → (a ≡ false) × (b ≡ false)
or-eq-false false b h = (refl, h)
or-eq-false true b h = cc

-- An action that is taken out was of the call.
removed-waits :
    (event : ToolResult) (actions left : List Action)
    → without_action event actions ≡ some left
    → waits event actions ≡ true
unfolding without_action
removed-waits event [] left h = cc
removed-waits event (a ∷ actions) left h = elim (Bool-cases (answers event a)) [
  | inl t ↦ rw ((and-eq-true (a.call_id == event.call_id) _ t).0) refl
  | inr t ↦ elim (Option-cases (without_action event actions)) [
    | inl e ↦ absurd (cc)
    | inr (rest, e) ↦ or_right (a.call_id == event.call_id) _ (removed-waits event actions rest e)
  ]
]

-- Without a call's action, no action of the call is left, when none was there twice.
pub removed-gone :
    (event : ToolResult) (actions left : List Action)
    → distinct (call_ids actions) ≡ true
    → without_action event actions ≡ some left
    → waits event left ≡ false
unfolding without_action
removed-gone event [] left d h = cc
removed-gone event (a ∷ actions) left d h =
    let unique = and-eq-true (not (contains (call_ids actions) a.call_id)) _ d in
    let absent = not-eq-true (contains (call_ids actions) a.call_id) unique.0 in
    elim (Bool-cases (answers event a)) [
      | inl t ↦
          (let same =
              (string_eq.equal_iff a.call_id event.call_id).0
                (and-eq-true (a.call_id == event.call_id) _ t).0 in
            let rest : actions ≡ left = ap actions_or (rw t at h) in
            subst (λ l. waits event l ≡ false) rest
              (subst (λ c. contains (call_ids actions) c ≡ false) same absent))
      | inr t ↦ elim (Option-cases (without_action event actions)) [
        | inl e ↦ absurd (cc)
        | inr (rest, e) ↦
            (let kept : a ∷ rest ≡ left = ap actions_or (rw (t, e) at h) in
              let inside = removed-waits event actions rest e in
              let other : (a.call_id == event.call_id) ≡ false =
                differs a.call_id event.call_id (call_ids actions) absent inside in
              subst (λ l. waits event l ≡ false) kept
                (rw other (removed-gone event actions rest unique.1 e)))
      ]
    ]

pub not_waiting :
    (event : ToolResult) (actions : List Action)
    → waits event actions ≡ false
    → without_action event actions ≡ none
unfolding without_action
not_waiting event [] h = refl
not_waiting event (a ∷ actions) h =
    let (other, rest) = or-eq-false (a.call_id == event.call_id) _ h in
    rw (other, not_waiting event actions rest) refl
