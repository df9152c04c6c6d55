-- ===== src/Assignment.antt =====
-- packages/agent-api/src/containers/assignment.ts and harnesses.ts: how a harness's object receives
-- the start of a turn, and which model a turn may name.
use cf_open_agents_api.Prelude.{
  ℕ, ◌<◌, ◌≤◌, ◌≡◌, ◌≢◌, ◌↔◌, ◌⊎◌, String, Bool, true, false, not, ◌&&◌, ◌||◌, Option, none, some,
  List, [], ◌∷◌, Result, ok, err, if◌then◌else◌, ltb, ◌==◌, nat_eq, string_eq, eq_iff, map,
  contains, lookup, arith, refl, subst,
}

-- `HARNESSES`: the revision of each harness by its name.
abbrev pub harnesses : List (String × String)
harnesses = ("codex", "0.154.0") ∷ ("claude-code", "0.3.268") ∷ ("opencode", "1.18.30") ∷ []

-- The checkpoint's fields that an admission reads.
pub record CheckpointRef : Type 0 where
  pub driver : String
  pub revision : String

-- The fields of an execution that an admission reads.
pub record Start : Type 0 where
  pub session_id : String
  pub turn_id : String
  pub generation : ℕ
  pub harness : String
  pub checkpoint : Option CheckpointRef

-- The fields of `Assignment` that an admission and the model proxy read.
pub record Assigned : Type 0 where
  pub session_id : String
  pub turn_id : String
  pub generation : ℕ
  pub dispatched : Bool
  pub model : String
  pub tiers : List (String × String)

pub data AdmissionError : Type 0 where
  harness_unknown : String → AdmissionError
  checkpoint_harness_mismatch : String → String → AdmissionError
  superseded_start : AdmissionError
  assignment_conflict : String → AdmissionError

pub data Admission : Type 0 where
  already_dispatched : Admission
  new_start : Admission

-- `superseded(current, expected)`
unfoldable pub is_superseded : Assigned → Start → Bool
is_superseded current expected =
    not (current.turn_id == expected.turn_id) || not (current.generation == expected.generation)

-- `modelAllowed(assignment, model)` of a model that is a string
unfoldable pub model_allowed : Assigned → String → Bool
model_allowed assignment model =
    if model == assignment.model
    then true
    else contains (map (λ tier. tier.1) assignment.tiers) model

unfoldable pub compatible : String → String → Option CheckpointRef → Result AdmissionError String
compatible harness revision none = ok harness
compatible harness revision (some checkpoint) =
    if not (checkpoint.driver == harness) || not (checkpoint.revision == revision)
    then err (checkpoint_harness_mismatch checkpoint.driver checkpoint.revision)
    else ok harness

-- `admittedHarness`, from the harness's revision.
unfoldable pub admitted_at : Option String → Start → Result AdmissionError String
admitted_at none execution = err (harness_unknown execution.harness)
admitted_at (some revision) execution = compatible execution.harness revision execution.checkpoint

-- `admittedHarness(execution)`
unfoldable pub admitted_harness : Start → Result AdmissionError String
admitted_harness execution = admitted_at (lookup execution.harness harnesses) execution

-- `startAdmission(execution, previous)`
unfoldable pub start_admission : Start → Option Assigned → Result AdmissionError Admission
start_admission execution none = ok new_start
start_admission execution (some previous) =
    if ltb execution.generation previous.generation
      || (execution.generation == previous.generation
          && not (execution.turn_id == previous.turn_id))
    then err superseded_start
    else if previous.turn_id == execution.turn_id && previous.dispatched
    then ok already_dispatched
    else if not (previous.session_id == execution.session_id)
    then err (assignment_conflict previous.session_id)
    else ok new_start

-- Which starts an object that has an assignment receives. One is superseded exactly when its
-- generation is older, or the same with another turn. One counts as dispatched exactly when it is the
-- assigned turn, which was dispatched, and not older. One is new exactly when it has the assignment's
-- session, is of a later generation or is the assigned turn again, and is not a dispatched turn.
pub admission_exactly :
    (e : Start) (p : Assigned)
    → ((start_admission e (some p) ≡ err superseded_start) ↔ (
        (e.generation < p.generation) ⊎ ((e.generation ≡ p.generation) × (e.turn_id ≢ p.turn_id))))
      × ((start_admission e (some p) ≡ ok already_dispatched)
          ↔ ((e.turn_id ≡ p.turn_id) × (p.dispatched ≡ true) × (p.generation ≤ e.generation)))
      × ((start_admission e (some p) ≡ ok new_start) ↔ (
          (e.session_id ≡ p.session_id)
          × ((p.generation < e.generation)
              ⊎ ((p.generation ≡ e.generation) × (e.turn_id ≡ p.turn_id)))
          × ((e.turn_id ≢ p.turn_id) ⊎ (p.dispatched ≡ false))))
unfolding start_admission
admission_exactly e p =
    let turns = eq_iff e.turn_id p.turn_id in
    let turns_back = eq_iff p.turn_id e.turn_id in
    let sessions = eq_iff p.session_id e.session_id in
    (
      (λ h. ground (arith, turns, turns_back, h), λ h. ground (arith, turns, turns_back, h)),
      (λ h. ground (arith, turns, turns_back, h), λ h. ground (arith, turns, turns_back, h)),
      (
        λ h. ground (arith, turns, turns_back, sessions, h),
        λ h. ground (arith, turns, turns_back, sessions, h),
      ),
    )

compatible_lem :
    (harness revision h : String) (checkpoint : Option CheckpointRef)
    → (compatible harness revision checkpoint ≡ ok h) ↔ (
        (h ≡ harness)
        × ((checkpoint ≡ none)
            ⊎ (checkpoint ≡ some (record { driver = harness; revision = revision }))))
unfolding compatible
compatible_lem harness revision h none = (λ e. ground arith, λ e. ground arith)
compatible_lem harness revision h (some c) =
    let drivers = eq_iff c.driver harness in
    let revisions = eq_iff c.revision revision in
    (λ e. ground (arith, drivers, revisions, e), λ e. ground (arith, drivers, revisions, e))

admitted_at_lem :
    (found : Option String) (e : Start) (h : String)
    → (admitted_at found e ≡ ok h) ↔ (
        (h ≡ e.harness)
        × ((revision : String) × (found ≡ some revision)
            × ((e.checkpoint ≡ none)
                ⊎ (e.checkpoint ≡ some (record { driver = e.harness; revision = revision })))))
unfolding admitted_at
admitted_at_lem none e h = (λ k. cc k, λ k. absurd (cc (k.1.1)))
admitted_at_lem (some revision) e h =
    let fits = compatible_lem e.harness revision h e.checkpoint in
    (
      λ k. ((fits.0 k).0, (revision, refl, (fits.0 k).1)),
      λ k.
          let same : k.1.0 ≡ revision = cc (k.1.1) in
          fits.1 (
            k.0,
            subst
                (λ r.
                  (e.checkpoint ≡ none)
                  ⊎ (e.checkpoint ≡ some (record { driver = e.harness; revision = r })))
                same (k.1.2),
          ),
    )

-- A harness is admitted exactly when it is a known one and the checkpoint, where the start has one,
-- was written by that harness at the revision that runs now.
pub admitted_exactly :
    (e : Start) (h : String)
    → (admitted_harness e ≡ ok h) ↔ (
        (h ≡ e.harness)
        × ((revision : String) × (lookup e.harness harnesses ≡ some revision)
            × ((e.checkpoint ≡ none)
                ⊎ (e.checkpoint ≡ some (record { driver = e.harness; revision = revision })))))
unfolding admitted_harness
admitted_exactly e h = admitted_at_lem (lookup e.harness harnesses) e h
