-- ===== src/Tests/Lease.antt =====
-- The machine and the lease at concrete inputs.
use cf_open_agents_api.Prelude.{
  ℕ, ◌+◌, ◌≤◌, ◌≡◌, Option, none, some, true, false, [], ◌∷◌, ok, arith, refl, inl, Member, lookup,
  List, string_eq,
}
use cf_open_agents_api.Machine.Types.{State, StateSpec, Due, moved, Planned, Step}
use cf_open_agents_api.Machine.Defs.{step}
use cf_open_agents_api.Machine.Codec.{Codec}
use cf_open_agents_api.Machine.Stepping.{IsKnown, here, next, Reaches-IsKnown}
use cf_open_agents_api.Machine.Release.{release_complete, release_sound, IsDueRelease}
use cf_open_agents_api.Lease.Table.{
  Running, LeaseFacts, container_spec, container_implementation, container_lease, is_running_data,
  is_empty_data, destroy, LeaseData,
}
use cf_open_agents_api.Lease.Spec.{
  stopped, running, retired, need, touch, idle, retire, boots, destroys, change, change_step,
  lease_state, lease_event, orders_planned, order_planned,
}
use cf_open_agents_api.Lease.Refines.{container_lease_made, container_lease_refines}
use cf_open_agents_api.Lease.History.{
  History, machine_run, machine_run-after, after, planned_count, container_held,
  machine_run_balance,
}

abbrev facts_at : ℕ → LeaseFacts
facts_at now = record { now = now; busy = 0; container_running = true; boot_pending = false }

abbrev held_lease : Running
held_lease = record { since = 10; last_active = 20; idle_ms = 5000 }

-- A container that is needed, touched, goes idle, and whose session is deleted.
abbrev one_day : History
one_day =
    (need 5000, facts_at 10)
    ∷ (touch, facts_at 20)
    ∷ (idle, facts_at 6000)
    ∷ (retire, facts_at 6001)
    ∷ (need 5000, facts_at 6002)
    ∷ []

one_day_after : after stopped one_day ≡ (retired, boots ∷ destroys ∷ [])
unfolding after change
one_day_after = refl

container_lease_refines_example :
    step container_lease (lease_state (running held_lease)) (lease_event idle) (facts_at 9000)
    ≡ ok (change_step (running held_lease) (change (running held_lease) idle (facts_at 9000)))
container_lease_refines_example =
    container_lease_refines (running held_lease) idle (facts_at 9000) (omega arith) tt (omega arith)

machine_run-after_example :
    machine_run one_day (lease_state stopped)
    ≡ ok (lease_state (after stopped one_day).0, orders_planned (after stopped one_day).1)
machine_run-after_example = machine_run-after stopped one_day tt (omega arith)

machine_run_balance_example :
    (last : State LeaseData) × (planned : List (Planned (Unit {0}))) × (machine_run one_day
        (lease_state stopped)
      ≡ ok (last, planned))
    × (planned_count "destroy" planned + container_held last ≤ planned_count "boot" planned + 0)
    × (0 ≤ planned_count "destroy" planned + container_held last)
machine_run_balance_example = machine_run_balance stopped one_day tt (omega arith)

abbrev booted : Step LeaseData (Unit {0})
booted =
    moved (lease_state stopped)
      (lease_state (running (record { since = 10; last_active = 10; idle_ms = 5000 })))
      (order_planned boots ∷ []) true

need_boots :
    step container_lease (lease_state stopped) (lease_event (need 5000)) (facts_at 10) ≡ ok booted
unfolding change
need_boots =
    container_lease_refines stopped (need 5000) (facts_at 10) tt (omega arith) (omega arith)

Reaches-IsKnown_example :
    IsKnown container_lease.definition
      (lease_state (running (record { since = 10; last_active = 10; idle_ms = 5000 })))
unfolding container_implementation
Reaches-IsKnown_example =
    Reaches-IsKnown container_lease container_spec container_implementation _ container_lease_made
      (next (lease_event (need 5000)) (facts_at 10) here need_boots)

abbrev stopped_spec : StateSpec LeaseData
stopped_spec = record { validates = is_empty_data; holds = []; terminal = false }

abbrev running_spec : StateSpec LeaseData
running_spec = record { validates = is_running_data; holds = "container" ∷ []; terminal = false }

abbrev destroy_plan : Planned (Unit {0})
destroy_plan = record { command = destroy; release = true; resource = some "container" }

idle_destroys :
    step container_lease (lease_state (running held_lease)) (lease_event idle) (facts_at 9000)
    ≡ ok (moved (lease_state (running held_lease)) (lease_state stopped) (destroy_plan ∷ []) true)
unfolding change
idle_destroys = container_lease_refines_example

release_complete_example :
    (release : State LeaseData → _) × (lookup "container" container_lease.implementation.release
      ≡ some release)
    × Member
        (record {
          command = release (lease_state (running held_lease));
          release = true;
          resource = some "container";
        })
        (destroy_plan ∷ [])
unfolding container_lease
release_complete_example =
    release_complete container_lease container_spec container_implementation
      (lease_state (running held_lease)) (lease_event idle) (facts_at 9000) running_spec
      stopped_spec "container" container_lease_made idle_destroys refl refl (inl refl) refl

release_sound_example :
    IsDueRelease container_lease.implementation.release
      (lease_state (running held_lease))
      ("container" ∷ [])
      []
      destroy_plan
unfolding container_lease
release_sound_example =
    release_sound container_lease (lease_state (running held_lease)) (lease_event idle)
      (facts_at 9000) running_spec stopped_spec destroy_plan idle_destroys refl refl (inl refl) refl

abbrev idle_due : Due
idle_due = record { event = "idle"; time = 5020 }

-- A codec that stores a value as it is.
abbrev as_is : Codec LeaseData (Unit {0}) (Option LeaseData)
as_is = record {
  encode_data = λ _ d. some d;
  decode_data = λ _ j. j;
  encode_payload = λ _ _. none;
  decode_payload = λ _ _. some tt;
}
