-- ===== src/Lease/History.antt =====
-- lease.ts: what holds of a container's lease over any history of events.
use cf_open_agents_api.Prelude.{
  ℕ, suc, ◌+◌, ◌≤◌, ◌≡◌, List, [], ◌∷◌, ◌++◌, Result, ok, err, arith, refl, inl, inr, ltb, ap, ◌∙◌,
  ◌||◌, Bool-cases, String, if◌then◌else◌, ◌==◌, string_eq,
}
use cf_open_agents_api.Machine.Types.{State, Step, ignored, rejected, moved, Planned, MachineError}
use cf_open_agents_api.Machine.Defs.{step}
use cf_open_agents_api.Lease.Table.{LeaseData, LeaseFacts, container_lease, max_time}
use cf_open_agents_api.Lease.Spec.{
  Lease, stopped, running, retired, LeaseEvent, need, touch, idle, boot_failed, stop, retire, Order,
  boots, destroys, Change, unchanged, becomes, change, lease_state, lease_event, change_step,
  order_planned, orders_planned, IsLeaseValid, IsEventValid,
}
use cf_open_agents_api.Lease.Refines.{container_lease_refines}

abbrev pub History : Type 0
History = List (LeaseEvent × LeaseFacts)

-- The facts of each event are within the clock's range, and its payload within its schema.
abbrev pub IsHistoryValid : History → Type 0
IsHistoryValid [] = Unit {0}
IsHistoryValid ((e, f) ∷ rest) = IsEventValid e × (f.now ≤ max_time) × IsHistoryValid rest

abbrev changed : Lease → Change → Lease
changed s unchanged = s
changed s (becomes t orders) = t

abbrev ordered : Change → List Order
ordered unchanged = []
ordered (becomes t orders) = orders

-- The lease after a history, and the commands that it enqueued.
unfoldable pub after : Lease → History → Lease × List Order
after s [] = (s, [])
after s ((e, f) ∷ rest) =
    let c = change s e f in let (t, orders) = after (changed s c) rest in (t, ordered c ++ orders)

-- The machine over the same history: its last state, and the commands that it planned.
abbrev Ran : Type 0
Ran = Result MachineError (State LeaseData × List (Planned (Unit {0})))

abbrev behind : List (Planned (Unit {0})) → Ran → Ran
behind planned (ok (t, rest)) = ok (t, planned ++ rest)
behind planned (err e) = err e

abbrev next_run : (State LeaseData → Ran) → Result MachineError (Step LeaseData (Unit {0})) → Ran
next_run run (err e) = err e
next_run run (ok (ignored t)) = run t
next_run run (ok (rejected t)) = run t
next_run run (ok (moved from to planned entered)) = behind planned (run to)

unfoldable pub machine_run : History → State LeaseData → Ran
machine_run [] s = ok (s, [])
machine_run ((e, f) ∷ rest) s =
    next_run (machine_run rest) (step container_lease s (lease_event e) f)

-- A valid event keeps the data within the schema, also where a busy container's clock went back.
change-IsLeaseValid :
    (s : Lease) (e : LeaseEvent) (f : LeaseFacts)
    → IsLeaseValid s
    → IsEventValid e
    → f.now ≤ max_time
    → IsLeaseValid (changed s (change s e f))
unfolding change
change-IsLeaseValid retired e f v w t = tt
change-IsLeaseValid stopped (need d) f v w t = ground arith
change-IsLeaseValid stopped retire f v w t = tt
change-IsLeaseValid stopped _ f v w t = tt
change-IsLeaseValid (running r) (need d) f v w t =
    elim (Bool-cases (f.container_running || f.boot_pending)) [
      | inl e ↦ rw e (omega arith)
      | inr e ↦ rw e (omega arith)
    ]
change-IsLeaseValid (running r) touch f v w t = omega arith
change-IsLeaseValid (running r) idle f v w t = elim (Bool-cases (ltb 0 f.busy)) [
  | inl e ↦ rw e (omega arith)
  | inr e ↦ rw e (elim (Bool-cases (ltb f.now (r.last_active + r.idle_ms))) [
    | inl g ↦ rw g (omega arith)
    | inr g ↦ rw g tt
  ])
]
change-IsLeaseValid (running r) (boot_failed why) f v w t = tt
change-IsLeaseValid (running r) (stop why) f v w t = tt
change-IsLeaseValid (running r) retire f v w t = tt

orders_planned-append :
    (xs ys : List Order) → orders_planned xs ++ orders_planned ys ≡ orders_planned (xs ++ ys)
orders_planned-append [] ys = refl
orders_planned-append (x ∷ xs) ys = ap (◌∷◌ (order_planned x)) (orders_planned-append xs ys)

machine_next-change :
    (run : State LeaseData → Ran) (s : Lease) (c : Change) (rest : Lease × List Order)
    → run (lease_state (changed s c)) ≡ ok (lease_state rest.0, orders_planned rest.1)
    → next_run run (ok (change_step s c))
      ≡ ok (lease_state rest.0, orders_planned (ordered c ++ rest.1))
machine_next-change run s unchanged rest h = h
machine_next-change run s (becomes t orders) rest h =
    ap (behind (orders_planned orders)) h
    ∙ ap (λ x. ok (lease_state rest.0, x)) (orders_planned-append orders rest.1)

-- Over any valid history, from any valid lease, the machine never throws, and it ends in the lease
-- and with the commands that the specification gives.
pub machine_run-after :
    (s : Lease) (h : History)
    → IsLeaseValid s
    → IsHistoryValid h
    → machine_run h (lease_state s) ≡ ok (lease_state (after s h).0, orders_planned (after s h).1)
unfolding machine_run after
machine_run-after s [] v w = refl
machine_run-after s ((e, f) ∷ rest) v w =
    let c = change s e f in
    ap (next_run (machine_run rest)) (container_lease_refines s e f v w.0 w.1)
    ∙ machine_next-change (machine_run rest) s c (after (changed s c) rest)
        (machine_run-after (changed s c) rest (change-IsLeaseValid s e f v w.0 w.1) w.2)

-- A retired lease stays retired and enqueues nothing more: no container is started again.
pub retired_forever : (h : History) → after retired h ≡ (retired, [])
unfolding after change
retired_forever [] = refl
retired_forever ((e, f) ∷ rest) = ap (λ x. (x.0, x.1)) (retired_forever rest)

abbrev pub boot_count : List Order → ℕ
boot_count [] = 0
boot_count (boots ∷ xs) = suc (boot_count xs)
boot_count (destroys ∷ xs) = boot_count xs

abbrev pub destroy_count : List Order → ℕ
destroy_count [] = 0
destroy_count (boots ∷ xs) = destroy_count xs
destroy_count (destroys ∷ xs) = suc (destroy_count xs)

-- One for a lease that holds the container.
abbrev pub holding : Lease → ℕ
holding (running r) = 1
holding _ = 0

counts_append :
    (xs ys : List Order)
    → (boot_count (xs ++ ys) ≡ boot_count xs + boot_count ys)
      × (destroy_count (xs ++ ys) ≡ destroy_count xs + destroy_count ys)
counts_append [] ys = omega arith
counts_append (boots ∷ xs) ys = omega (arith, counts_append xs ys)
counts_append (destroys ∷ xs) ys = omega (arith, counts_append xs ys)

change_balance :
    (s : Lease) (e : LeaseEvent) (f : LeaseFacts)
    → let c = change s e f in
      (destroy_count (ordered c) + holding (changed s c) ≤ boot_count (ordered c) + holding s)
      × (boot_count (ordered c) ≤ 1)
      × (holding s ≤ destroy_count (ordered c) + holding (changed s c))
unfolding change
change_balance retired e f = omega arith
change_balance stopped (need d) f = omega arith
change_balance stopped retire f = omega arith
change_balance stopped _ f = omega arith
change_balance (running r) (need d) f = ground arith
change_balance (running r) touch f = omega arith
change_balance (running r) idle f = ground arith
change_balance (running r) (boot_failed why) f = omega arith
change_balance (running r) (stop why) f = omega arith
change_balance (running r) retire f = omega arith

after_balance :
    (s : Lease) (h : History)
    → (destroy_count (after s h).1 + holding (after s h).0 ≤ boot_count (after s h).1 + holding s)
      × (holding s ≤ destroy_count (after s h).1 + holding (after s h).0)
unfolding after
after_balance s [] = omega arith
after_balance s ((e, f) ∷ rest) =
    let c = change s e f in
    omega (
      arith,
      change_balance s e f,
      after_balance (changed s c) rest,
      counts_append (ordered c) (after (changed s c) rest).1,
    )

-- The commands of a tag among planned ones, and one for a state that holds the container.
abbrev pub planned_count : String → List (Planned (Unit {0})) → ℕ
planned_count tag [] = 0
planned_count tag (p ∷ ps) =
    if p.command.tag == tag then suc (planned_count tag ps) else planned_count tag ps

abbrev pub container_held : State LeaseData → ℕ
container_held state = if state.tag == "running" then 1 else 0

planned_count-orders_planned :
    (xs : List Order)
    → (planned_count "boot" (orders_planned xs) ≡ boot_count xs)
      × (planned_count "destroy" (orders_planned xs) ≡ destroy_count xs)
planned_count-orders_planned [] = (refl, refl)
planned_count-orders_planned (boots ∷ xs) =
    let rest = planned_count-orders_planned xs in (ap suc rest.0, rest.1)
planned_count-orders_planned (destroys ∷ xs) =
    let rest = planned_count-orders_planned xs in (rest.0, ap suc rest.1)

container_held-lease_state : (s : Lease) → container_held (lease_state s) ≡ holding s
container_held-lease_state stopped = refl
container_held-lease_state (running r) = refl
container_held-lease_state retired = refl

-- No container leaks, and none is destroyed that was not booted: from a valid lease and over any
-- valid history, the machine does not throw, the destroy commands that it planned and the container
-- that its last state holds are at most the boot commands that it planned and the container held at
-- the start, and a container held at the start is still held or its destruction was planned.
pub machine_run_balance :
    (s : Lease) (h : History)
    → IsLeaseValid s
    → IsHistoryValid h
    → (last : State LeaseData) × (planned : List (Planned (Unit {0}))) × (machine_run h
          (lease_state s)
        ≡ ok (last, planned))
      × (planned_count "destroy" planned + container_held last
          ≤ planned_count "boot" planned + container_held (lease_state s))
      × (container_held (lease_state s) ≤ planned_count "destroy" planned + container_held last)
machine_run_balance s h v w =
    let counted = planned_count-orders_planned (after s h).1 in
    let held = container_held-lease_state (after s h).0 in
    let start = container_held-lease_state s in
    let (most, kept) = after_balance s h in
    (
      lease_state (after s h).0,
      orders_planned (after s h).1,
      machine_run-after s h v w,
      omega (arith, counted.0, counted.1, held, start, most),
      omega (arith, counted.1, held, start, kept),
    )
