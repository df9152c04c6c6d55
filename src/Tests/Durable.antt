-- ===== src/Tests/Durable.antt =====
-- The store and the durable machine at concrete inputs: a container's lease in a store.
use cf_open_agents_api.Prelude.{
  ℕ, ◌≤◌, ◌≡◌, ◌⊎◌, true, false, Option, none, some, List, [], ◌∷◌, ok, err, arith, refl, inl, inr,
  ◌==◌, string_eq,
}
use cf_open_agents_api.Machine.Types.{Event, Due, moved, no_answer}
use cf_open_agents_api.Machine.Defs.{step}
use cf_open_agents_api.Machine.Codec.{Codec, Encoded, RoundTrips, decode_command}
use cf_open_agents_api.Store.Memory.{
  Memory, Storing, OutboxEntry, StoredState, memory_store, transaction, remove, outbox, reading,
}
use cf_open_agents_api.Store.Transactions.{transaction_rolls_back}
use cf_open_agents_api.Store.Outbox.{IsOrdered, Retains}
use cf_open_agents_api.Durable.Defs.{
  Options, World, Held, Exit, success, failure, Taken, run, take, load_record, next_wake,
  make_durable, check_handlers, no_handler, pending_timers, first_due, is_pending, apply,
  finish_command, fire_due, default_retry,
}
use cf_open_agents_api.Durable.System.{System, finishes, act}
use cf_open_agents_api.Durable.Outbox.{release_kept}
use cf_open_agents_api.Durable.Epochs.{take_sound, stale_answer_dropped}
use cf_open_agents_api.Durable.Applied.{apply_moves, planned_entries}
use cf_open_agents_api.Durable.Wake.{fires_once, enters}
use cf_open_agents_api.Lease.Table.{
  LeaseData, LeasePayload, LeaseFacts, Running, empty, container_spec, container_implementation,
  container_lease, boot,
}
use cf_open_agents_api.Lease.Spec.{
  stopped, running, need, idle, boots, destroys, lease_state, lease_event, order_planned, change,
}
use cf_open_agents_api.Lease.Refines.{container_lease_refines}

-- The stored form: the value itself.
data Stored : Type 0 where
  stored_data : LeaseData → Stored
  stored_payload : Stored

abbrev data_of : Stored → Option LeaseData
data_of (stored_data d) = some d
data_of stored_payload = none

abbrev payload_of : Stored → Option (Unit {0})
payload_of (stored_data d) = none
payload_of stored_payload = some tt

abbrev plain : Codec LeaseData (Unit {0}) Stored
plain = record {
  encode_data = λ _ d. stored_data d;
  decode_data = λ _ j. data_of j;
  encode_payload = λ _ _. stored_payload;
  decode_payload = λ _ j. payload_of j;
}

plain-RoundTrips : RoundTrips plain container_lease.definition
plain-RoundTrips = record {
  states_decode = λ tag spec content found valid. refl;
  commands_decode = λ tag schema payload found valid. refl;
}

abbrev lease_options : Options LeaseData LeasePayload (Unit {0}) LeaseFacts Stored
lease_options = record {
  machine = container_lease;
  codec = plain;
  key = "lease";
  retry_delay = default_retry;
  recovery_delay = 120000;
  empty_payload = empty;
}

abbrev facts_of : ℕ → LeaseFacts
facts_of now = record { now = now; busy = 0; container_running = true; boot_pending = false }

abbrev empty_store : Memory Stored
empty_store = memory_store

abbrev stopped_record : Held LeaseData
stopped_record = record { state = lease_state stopped; epoch = 0; fired = [] }

abbrev active : Running
active = record { since = 10; last_active = 10; idle_ms = 5000 }

abbrev boot_entry : OutboxEntry Stored
boot_entry = record {
  id = 1;
  machine = "lease";
  command = record { tag = "boot"; fields = stored_payload };
  epoch = 1;
  release = false;
  attempts = 0;
  due = 120010;
}

abbrev destroy_entry : OutboxEntry Stored
destroy_entry = record {
  id = 2;
  machine = "lease";
  command = record { tag = "destroy"; fields = stored_payload };
  epoch = 2;
  release = true;
  attempts = 0;
  due = 126000;
}

-- A lease that is held, with its boot still queued.
abbrev held_store : Memory Stored
held_store = record {
  states =
      (
        "lease",
        record {
          state = record { tag = "running"; fields = stored_data (some active) };
          fired = some [];
          epoch = 1;
        },
      )
      ∷ [];
  entries = boot_entry ∷ [];
  next = 2;
  depth = 0;
}

abbrev held_record : Held LeaseData
held_record = record { state = lease_state (running active); epoch = 1; fired = [] }

-- A lease that ended: the boot is stale, and the release waits behind it.
abbrev ended_store : Memory Stored
ended_store = record {
  states =
      (
        "lease",
        record {
          state = record { tag = "stopped"; fields = stored_data none };
          fired = some [];
          epoch = 2;
        },
      )
      ∷ [];
  entries = boot_entry ∷ destroy_entry ∷ [];
  next = 3;
  depth = 0;
}

abbrev ended_record : Held LeaseData
ended_record = record { state = lease_state stopped; epoch = 2; fired = [] }

abbrev world_of : Memory Stored → World Stored
world_of s = record { memory = s; alarm = none }

abbrev system_of : Memory Stored → Option (OutboxEntry Stored) → System (Unit {0}) Stored
system_of s running_entry = record { world = world_of s; running = running_entry }

abbrev unknown : Event LeasePayload
unknown = record { tag = "explode"; payload = empty }

-- A body that enqueues nothing, clears the outbox and throws.
abbrev failing : Storing Stored (Unit {0})
failing s = (err (no_answer "stopped" "explode"), record s { entries = [] })

transaction_rolls_back_example :
    transaction failing held_store ≡ (err (no_answer "stopped" "explode"), held_store)
transaction_rolls_back_example =
    transaction_rolls_back failing held_store (no_answer "stopped" "explode") refl (λ s. refl) refl

held_loads : load_record lease_options held_store ≡ ok held_record
unfolding load_record container_spec cf_open_agents_api.Store.Memory.load
    cf_open_agents_api.Machine.Codec.decode_state container_lease
held_loads = refl

ended_loads : load_record lease_options ended_store ≡ ok ended_record
unfolding load_record container_spec cf_open_agents_api.Store.Memory.load
    cf_open_agents_api.Machine.Codec.decode_state container_lease
ended_loads = refl

empty_loads : load_record lease_options empty_store ≡ ok stopped_record
unfolding load_record container_implementation cf_open_agents_api.Store.Memory.load container_lease
empty_loads = refl

lease_boots :
    step container_lease (lease_state stopped) (lease_event (need 5000)) (facts_of 10)
    ≡ ok
        (moved (lease_state stopped) (lease_state (running active)) (order_planned boots ∷ []) true)
unfolding change
lease_boots =
    container_lease_refines stopped (need 5000) (facts_of 10) tt (omega arith) (omega arith)

apply_moves_example :
    let after =
      (apply lease_options
        (lease_event (need 5000))
        (facts_of 10)
        10
        (λ _. reading (λ _. ok tt))
        (world_of empty_store)).1.memory in
    (load_record lease_options after ≡ ok held_record) × (outbox "lease" after ≡ boot_entry ∷ [])
unfolding planned_entries container_lease container_spec outbox
    cf_open_agents_api.Machine.Codec.encode_command
apply_moves_example =
    apply_moves lease_options (lease_event (need 5000)) (facts_of 10) 10 (world_of empty_store)
      stopped_record refl plain-RoundTrips empty_loads lease_boots

take_sound_example :
    ((rest : List (OutboxEntry Stored)) × (outbox "lease" held_store ≡ boot_entry ∷ rest))
    × ((false ≡ true)
        ⊎ ((r : Held LeaseData) × (load_record lease_options held_store ≡ ok r)
            × (boot_entry.epoch ≡ r.epoch)))
    × ((boot_entry.attempts ≡ 0) ⊎ (120010 ≤ 20))
    × (decode_command plain container_lease.definition boot_entry.command ≡ ok boot)
    × ((take lease_options 20 held_store).1 ≡ held_store)
unfolding take container_lease container_spec transaction cf_open_agents_api.Store.Memory.settle
    cf_open_agents_api.Durable.Defs.take_first outbox cf_open_agents_api.Durable.Defs.take_entry
    cf_open_agents_api.Store.Memory.and_then reading load_record
    cf_open_agents_api.Store.Memory.load cf_open_agents_api.Machine.Codec.decode_state
    cf_open_agents_api.Durable.Defs.take_due decode_command
take_sound_example = take_sound lease_options 20 held_store boot_entry boot refl refl

stale_answer_dropped_example :
    (finish_command lease_options boot_entry
      (success (some (lease_event idle)))
      (facts_of 10)
      10
      (world_of ended_store)).1.memory
    ≡ remove 1 ended_store
stale_answer_dropped_example =
    stale_answer_dropped lease_options boot_entry (lease_event idle) (facts_of 10) 10
      (world_of ended_store) ended_record refl ended_loads (λ e. omega (arith, e))

ended-IsOrdered : IsOrdered ended_store
ended-IsOrdered = record { fresh = omega arith; increasing = omega arith }

-- A machine whose `destroy` has no handler is not made.
destroy_unhandled :
    make_durable (λ tag. tag == "boot") lease_options ≡ err (no_handler lease_options.key "destroy")
unfolding check_handlers container_lease container_spec
destroy_unhandled = refl

release_kept_example :
    Retains destroy_entry
      (act lease_options
        (finishes failure (facts_of 20) 20)
        (system_of ended_store (some destroy_entry))).memory
release_kept_example =
    release_kept lease_options (finishes failure (facts_of 20) 20)
      (system_of ended_store (some destroy_entry)) destroy_entry ended-IsOrdered (inr (inl refl))
      refl tt (λ c. cc (c.2))

abbrev idle_timer : Due
idle_timer = record { event = "idle"; time = 5010 }

held_pending : pending_timers lease_options held_record ≡ ok (idle_timer ∷ [])
unfolding pending_timers container_implementation cf_open_agents_api.Machine.Defs.timers
    container_lease
held_pending = refl

held_wakes : next_wake lease_options held_store ≡ ok (some 5010)
unfolding next_wake container_implementation container_spec load_record
    cf_open_agents_api.Store.Memory.load cf_open_agents_api.Machine.Codec.decode_state
    container_lease pending_timers cf_open_agents_api.Machine.Defs.timers
    cf_open_agents_api.Durable.Defs.earliest outbox
held_wakes = refl

abbrev free_at : LeaseFacts
free_at = record { now = 5010; busy = 0; container_running = true; boot_pending = false }

-- A free container's lease is ended by its idle timer.
lease_ended :
    step container_lease (lease_state (running active)) (lease_event idle) free_at
    ≡ ok (
        moved
          (lease_state (running active))
          (lease_state stopped)
          (order_planned destroys ∷ [])
          true)
unfolding change
lease_ended = container_lease_refines (running active) idle free_at (omega arith) tt (omega arith)

fires_once_example :
    let after = fire_due lease_options held_record free_at 5010 (idle_timer ∷ []) held_store in
    (after.0 ≡ ok true)
    × ((r' : Held LeaseData) × (load_record lease_options after.1 ≡ ok r')
        × (r'.state ≡ lease_state stopped)
        × (is_pending r'.fired idle_timer ≡ true))
unfolding enters container_lease container_spec
fires_once_example =
    fires_once lease_options held_record idle_timer [] free_at 5010 held_store
      (moved (lease_state (running active)) (lease_state stopped) (order_planned destroys ∷ [])
        true)
      plain-RoundTrips (record { spec = _; found = refl; valid = refl }) lease_ended
