-- ===== src/Lease/Spec.antt =====
-- What the lease promises, with its states and events as types: the specification that
-- `containerLease` implements.
use cf_open_agents_api.Prelude.{
  ℕ, ◌+◌, ◌≤◌, max, String, Bool, true, false, ◌||◌, none, some, List, [], ◌∷◌, if◌then◌else◌, ltb,
}
use cf_open_agents_api.Machine.Types.{State, Event, Planned, Step, ignored, moved}
use cf_open_agents_api.Lease.Table.{
  Running, LeaseData, LeasePayload, empty, idle_of, reason, LeaseFacts, boot, destroy, max_time,
  min_idle_ms, max_idle_ms,
}

pub data Lease : Type 0 where
  stopped : Lease
  running : Running → Lease
  retired : Lease

pub data LeaseEvent : Type 0 where
  need : ℕ → LeaseEvent
  touch : LeaseEvent
  idle : LeaseEvent
  boot_failed : String → LeaseEvent
  stop : String → LeaseEvent
  retire : LeaseEvent

-- The commands that a change of the lease enqueues.
pub data Order : Type 0 where
  boots : Order
  destroys : Order

pub data Change : Type 0 where
  unchanged : Change
  becomes : Lease → List Order → Change

unfoldable pub change : Lease → LeaseEvent → LeaseFacts → Change
change retired e f = unchanged
change stopped (need d) f =
    becomes (running (record { since = f.now; last_active = f.now; idle_ms = d })) (boots ∷ [])
change stopped retire f = becomes retired []
change stopped _ f = unchanged
change (running r) (need d) f =
    if f.container_running || f.boot_pending
    then becomes (running (record r { last_active = max r.last_active f.now; idle_ms = d })) []
    else becomes (running (record { since = f.now; last_active = f.now; idle_ms = d })) (boots ∷ [])
change (running r) touch f =
    becomes (running (record r { last_active = max r.last_active f.now })) []
change (running r) idle f =
    if ltb 0 f.busy
    then becomes (running (record r { last_active = f.now })) []
    else if ltb f.now (r.last_active + r.idle_ms)
    then becomes (running r) []
    else becomes stopped (destroys ∷ [])
change (running r) (boot_failed why) f = becomes stopped (destroys ∷ [])
change (running r) (stop why) f = becomes stopped (destroys ∷ [])
change (running r) retire f = becomes retired (destroys ∷ [])

-- The machine's form of a lease, an event and a change.
abbrev pub lease_state : Lease → State LeaseData
lease_state stopped = record { tag = "stopped"; content = none }
lease_state (running r) = record { tag = "running"; content = some r }
lease_state retired = record { tag = "retired"; content = none }

abbrev pub lease_event : LeaseEvent → Event LeasePayload
lease_event (need d) = record { tag = "need"; payload = idle_of d }
lease_event touch = record { tag = "touch"; payload = empty }
lease_event idle = record { tag = "idle"; payload = empty }
lease_event (boot_failed why) = record { tag = "bootFailed"; payload = reason why }
lease_event (stop why) = record { tag = "stop"; payload = reason why }
lease_event retire = record { tag = "retire"; payload = empty }

abbrev pub order_planned : Order → Planned (Unit {0})
order_planned boots = record { command = boot; release = false; resource = none }
order_planned destroys = record { command = destroy; release = true; resource = some "container" }

abbrev pub orders_planned : List Order → List (Planned (Unit {0}))
orders_planned [] = []
orders_planned (x ∷ xs) = order_planned x ∷ orders_planned xs

abbrev pub same_kind : Lease → Lease → Bool
same_kind stopped stopped = true
same_kind (running r) (running q) = true
same_kind retired retired = true
same_kind _ _ = false

abbrev pub change_step : Lease → Change → Step LeaseData (Unit {0})
change_step s unchanged = ignored (lease_state s)
change_step s (becomes t orders) =
    moved (lease_state s) (lease_state t) (orders_planned orders)
      (if same_kind s t then false else true)

-- What the schemas admit.
abbrev pub IsRunningValid : Running → Type 0
IsRunningValid r =
    (r.since ≤ max_time)
    × (r.last_active ≤ max_time)
    × (min_idle_ms ≤ r.idle_ms)
    × (r.idle_ms ≤ max_idle_ms)

abbrev pub IsLeaseValid : Lease → Type 0
IsLeaseValid (running r) = IsRunningValid r
IsLeaseValid _ = Unit {0}

abbrev pub IsEventValid : LeaseEvent → Type 0
IsEventValid (need d) = (min_idle_ms ≤ d) × (d ≤ max_idle_ms)
IsEventValid _ = Unit {0}
