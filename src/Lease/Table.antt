-- ===== src/Lease/Table.antt =====
-- lease.ts: `ContainerLease` and `containerLease`. A payload that an event lacks is `undefined` in
-- the source; arithmetic on it gives a number that the state's schema refuses, and so does the
-- missing data here.
use cf_open_agents_api.Prelude.{
  ℕ, ◌+◌, max, String, Bool, true, false, ◌&&◌, ◌||◌, Option, none, some, List, [], ◌∷◌,
  if◌then◌else◌, ltb, leb,
}
use cf_open_agents_api.Machine.Types.{
  state, terminal_state, Spec, Event, Command, Returned, returned, Answer, ignore, transition,
  Deadline, undefined, at_time, Implementation, Machine,
}

-- The data of the `running` state.
pub record Running : Type 0 where
  pub since : ℕ
  pub last_active : ℕ
  pub idle_ms : ℕ

-- The data of a state: `none` is the empty object of `stopped` and `retired`.
abbrev pub LeaseData : Type 0
LeaseData = Option Running

pub data LeasePayload : Type 0 where
  empty : LeasePayload
  idle_of : ℕ → LeasePayload
  reason : String → LeasePayload

-- `facts`
pub record LeaseFacts : Type 0 where
  pub now : ℕ
  pub busy : ℕ
  pub container_running : Bool
  pub boot_pending : Bool

-- The bounds of `Time`, and `MIN_IDLE_MS`, `MAX_IDLE_MS`.
abbrev pub max_time : ℕ
max_time = 8640000000000000

abbrev pub min_idle_ms : ℕ
min_idle_ms = 1000

abbrev pub max_idle_ms : ℕ
max_idle_ms = 21600000

-- `Time` and `Duration`
abbrev pub is_time : ℕ → Bool
is_time t = leb t max_time

abbrev pub is_duration : ℕ → Bool
is_duration d = leb min_idle_ms d && leb d max_idle_ms

abbrev pub is_empty_data : LeaseData → Bool
is_empty_data none = true
is_empty_data (some r) = false

abbrev pub is_running_data : LeaseData → Bool
is_running_data none = false
is_running_data (some r) = is_time r.since && is_time r.last_active && is_duration r.idle_ms

-- `ContainerLease`
unfoldable pub container_spec : Spec LeaseData (Unit {0})
container_spec = record {
  name = "container";
  states =
      ("stopped", state is_empty_data [])
      ∷ ("running", state is_running_data ("container" ∷ []))
      ∷ ("retired", terminal_state is_empty_data)
      ∷ [];
  events = "need" ∷ "touch" ∷ "idle" ∷ "bootFailed" ∷ "stop" ∷ "retire" ∷ [];
  commands = ("boot", λ _. true) ∷ ("destroy", λ _. true) ∷ [];
}

abbrev pub Transit : Type 0
Transit = LeaseData → Event LeasePayload → LeaseFacts → Returned LeaseData (Unit {0})

abbrev pub boot : Command (Unit {0})
boot = record { tag = "boot"; payload = tt }

abbrev pub destroy : Command (Unit {0})
destroy = record { tag = "destroy"; payload = tt }

abbrev to_state : String → LeaseData → List (Command (Unit {0})) → Returned LeaseData (Unit {0})
to_state tag content commands =
    returned (record { to = tag; content = content; commands = commands })

-- The constants `stopped` and `retired`, as transitions.
abbrev pub to_stopped : Transit
to_stopped _ _ _ = to_state "stopped" none []

abbrev pub to_retired : Transit
to_retired _ _ _ = to_state "retired" none []

abbrev payload_idle : LeasePayload → Option ℕ
payload_idle (idle_of d) = some d
payload_idle _ = none

abbrev fresh : ℕ → Option ℕ → LeaseData
fresh now none = none
fresh now (some d) = some (record { since = now; last_active = now; idle_ms = d })

-- `stopped.need`
unfoldable pub stopped_need : Transit
stopped_need content event facts =
    to_state "running" (fresh facts.now (payload_idle event.payload)) (boot ∷ [])

abbrev renewed : LeaseData → ℕ → Option ℕ → LeaseData
renewed none now idle = none
renewed (some r) now none = none
renewed (some r) now (some d) = some (record r { last_active = max r.last_active now; idle_ms = d })

-- `running.need`
unfoldable pub running_need : Transit
running_need content event facts =
    if facts.container_running || facts.boot_pending
    then to_state "running" (renewed content facts.now (payload_idle event.payload)) []
    else to_state "running" (fresh facts.now (payload_idle event.payload)) (boot ∷ [])

abbrev touched : LeaseData → ℕ → LeaseData
touched none now = none
touched (some r) now = some (record r { last_active = now })

-- `running.touch`
unfoldable pub running_touch : Transit
running_touch none event facts = to_state "running" none []
running_touch (some r) event facts =
    to_state "running" (some (record r { last_active = max r.last_active facts.now })) []

-- `running.idle`
unfoldable pub running_idle : Transit
running_idle none event facts = to_state "running" none []
running_idle (some r) event facts =
    if ltb 0 facts.busy
    then to_state "running" (some (record r { last_active = facts.now })) []
    else if ltb facts.now (r.last_active + r.idle_ms)
    then to_state "running" (some r) []
    else to_state "stopped" none []

abbrev pub LeaseAnswers : Type 0
LeaseAnswers = List (String × Answer LeaseData LeasePayload (Unit {0}) LeaseFacts)

unfoldable pub stopped_answers : LeaseAnswers
unfolding stopped_need
stopped_answers =
    ("need", transition stopped_need)
    ∷ ("touch", ignore)
    ∷ ("idle", ignore)
    ∷ ("bootFailed", ignore)
    ∷ ("stop", ignore)
    ∷ ("retire", transition to_retired)
    ∷ []

unfoldable pub running_answers : LeaseAnswers
unfolding running_need running_touch running_idle
running_answers =
    ("need", transition running_need)
    ∷ ("touch", transition running_touch)
    ∷ ("idle", transition running_idle)
    ∷ ("bootFailed", transition to_stopped)
    ∷ ("stop", transition to_stopped)
    ∷ ("retire", transition to_retired)
    ∷ []

-- `timers.running`
unfoldable pub running_timers : LeaseData → List (String × Deadline)
running_timers none = ("idle", undefined) ∷ []
running_timers (some r) = ("idle", at_time (r.last_active + r.idle_ms)) ∷ []

unfoldable pub container_implementation :
    Implementation LeaseData LeasePayload (Unit {0}) LeaseFacts
unfolding stopped_answers running_answers running_timers
container_implementation = record {
  initial = record { tag = "stopped"; content = none };
  on = ("stopped", stopped_answers) ∷ ("running", running_answers) ∷ [];
  timers = ("running", running_timers) ∷ [];
  release = ("container", λ _. destroy) ∷ [];
}

-- `containerLease`
unfoldable pub container_lease : Machine LeaseData LeasePayload (Unit {0}) LeaseFacts
unfolding container_spec container_implementation
container_lease = record { definition = container_spec; implementation = container_implementation }
