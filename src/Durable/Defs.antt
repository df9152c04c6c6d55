-- ===== src/Durable/Defs.antt =====
-- durable.ts: `make` and the functions that it closes over. The clock and the facts are read once
-- where the source reads them, and are arguments here; the handlers are the host's, so what a
-- handler answered is an argument of `finish_command`, the second half of `runOne`.
use cf_open_agents_api.Prelude.{
  ℕ, zero, suc, ◌+◌, ◌-◌, ◌*◌, ◌^◌, min, String, Bool, true, false, not, ◌&&◌, Option, none, some,
  List, [], ◌∷◌, ◌++◌, map, Result, ok, err, ◌>>=◌, if◌then◌else◌, ltb, leb, ◌==◌, nat_eq,
  string_eq, filter, lookup, insert,
}
use cf_open_agents_api.Machine.Types.{
  State, Event, Command, Machine, MachineError, Planned, Step, ignored, rejected, moved, Due,
}
use cf_open_agents_api.Machine.Defs.{Checked, step, timers}
use cf_open_agents_api.Machine.Codec.{
  Codec, encode_state, decode_state, encode_command, decode_command,
}
use cf_open_agents_api.Store.Memory.{
  Memory, Storing, StoredState, OutboxEntry, load, save, enqueue, outbox, remove, reschedule,
  transaction, and_then, reading, writing,
}

-- `Options`, less the handlers, the clock and the facts.
pub record Options (D P C F J : Type 0) : Type 0 where
  pub machine : Machine D P C F
  pub codec : Codec D C J
  pub key : String
  pub retry_delay : ℕ → ℕ
  pub recovery_delay : ℕ
  -- the payload of an event that has none
  pub empty_payload : P

-- The `Error` that `make` throws: a machine's key, and a command of it that has no handler.
pub data DurableError : Type 0 where
  no_handler : String → String → DurableError

-- The loop of `make` over the commands of a machine's specification.
unfoldable pub check_handlers :
    {C : Type 0}
    → (String → Bool)
    → String
    → List (String × (C → Bool))
    → Result DurableError (Unit {0})
check_handlers has_handler key [] = ok tt
check_handlers has_handler key ((tag, is_payload) ∷ commands) =
    let rest = check_handlers has_handler key commands in
    if has_handler tag then rest else err (no_handler key tag)

-- What `make` checks before it returns, by whether a tag has a handler among the options.
abbrev pub make_durable :
    {D P C F J : Type 0}
    → (String → Bool)
    → Options D P C F J
    → Result DurableError (Options D P C F J)
make_durable has_handler o =
    check_handlers has_handler o.key o.machine.definition.commands >>= λ checked. ok o

-- `defaultRetry`: 1 s doubling to 60 s.
unfoldable pub default_retry : ℕ → ℕ
default_retry attempt = min 60000 (1000 * 2 ^ (attempt - 1))

-- `MAX_FIRINGS`
abbrev pub max_firings : ℕ
max_firings = 64

-- `Record_`: the machine's state, its epoch, and the deadlines that fired.
pub record Held (D : Type 0) : Type 0 where
  pub state : State D
  pub epoch : ℕ
  pub fired : List (String × ℕ)

-- The handler's exit: success with an event or nothing, interruption, or another failure.
pub data Exit (P : Type 0) : Type 0 where
  success : Option (Event P) → Exit P
  interrupted : Exit P
  failure : Exit P

-- `Taken`
pub data Taken (C J : Type 0) : Type 0 where
  run : OutboxEntry J → Command C → Taken C J
  skipped : Taken C J
  idle : Taken C J

-- The store, and the time that the alarm was last set to.
pub record World (J : Type 0) : Type 0 where
  pub memory : Memory J
  pub alarm : Option (Option ℕ)

abbrev pub or_default : Option (List (String × ℕ)) → List (String × ℕ)
or_default none = []
or_default (some fired) = fired

-- `times.length ? Math.min(...times) : null`
unfoldable pub earliest : List ℕ → Option ℕ
earliest [] = none
earliest (t ∷ ts) = elim (earliest ts) [ none ↦ some t | some u ↦ some (min t u) ]

-- `record.fired[timer.event] !== timer.at`
abbrev pub is_pending : List (String × ℕ) → Due → Bool
is_pending fired timer = elim (lookup timer.event fired) [
  | none ↦ true
  | some at ↦ not (at == timer.time)
]

module _ {D P C F J : Type 0} (o : Options D P C F J) where
  -- `load()`
  unfoldable pub load_record : Memory J → Checked (Held D)
  load_record s = elim (load o.key s) [
    | none ↦ ok (record { state = o.machine.implementation.initial; epoch = 0; fired = [] })
    | some stored ↦ (do
      state ← decode_state o.codec o.machine.definition stored.state
      ok (record { state = state; epoch = stored.epoch; fired = or_default stored.fired }))
  ]

  -- `save(record)`
  abbrev pub stored_record : Held D → StoredState J
  stored_record r = record {
    state = encode_state o.codec o.machine.definition r.state;
    fired = some r.fired;
    epoch = r.epoch;
  }

  unfoldable pub save_record : Held D → Memory J → Memory J
  save_record r = save o.key (stored_record r)

  -- `pendingTimers(record)`
  unfoldable pub pending_timers : Held D → Checked (List Due)
  pending_timers r = do due ← timers o.machine r.state; ok (filter (is_pending r.fired) due)

  -- Only the first command decides when the outbox can move.
  abbrev pub first_due : List (OutboxEntry J) → List ℕ
  first_due [] = []
  first_due (first ∷ rest) = first.due ∷ []

  -- `nextWake()`
  unfoldable pub next_wake : Memory J → Checked (Option ℕ)
  next_wake s = do
    r ← load_record s
    due ← pending_timers r
    ok (earliest (map (λ timer. timer.time) due ++ first_due (outbox o.key s)))

  -- The loop that enqueues a step's commands.
  unfoldable pub enqueue_planned : ℕ → ℕ → List (Planned C) → Memory J → Memory J
  enqueue_planned epoch now [] s = s
  enqueue_planned epoch now (planned ∷ rest) s = enqueue_planned epoch now rest (
      enqueue o.key
        (record {
          command = encode_command o.codec o.machine.definition planned.command;
          epoch = epoch;
          release = planned.release;
          attempts = 0;
          due = now + o.recovery_delay;
        })
        s)

  unfoldable pub commit_step : Held D → ℕ → Step D C → Memory J → Memory J
  commit_step r now (ignored state) s = s
  commit_step r now (rejected state) s = s
  commit_step r now (moved from to planned entered) s =
      let epoch = if entered then r.epoch + 1 else r.epoch in
      enqueue_planned epoch now planned (
        save_record (record { state = to; epoch = epoch; fired = if entered then [] else r.fired })
          s)

  -- `transition(record, event, now)`
  unfoldable pub transition_record : Held D → Event P → F → ℕ → Storing J (Step D C)
  transition_record r event facts now s = elim (step o.machine r.state event facts) [
    | err e ↦ (err e, s)
    | ok st ↦ (ok st, commit_step r now st s)
  ]

  -- `arm()`: what the alarm was last set to, `none` within for no alarm.
  unfoldable pub arm : {A : Type 0} → A → World J → Result MachineError A × World J
  arm a w = elim (next_wake w.memory) [
    | err e ↦ (err e, w)
    | ok at ↦ (ok a, record w { alarm = some at })
  ]

  -- One transaction, and `arm()` after it.
  unfoldable pub transact : {A : Type 0} → Storing J A → World J → Result MachineError A × World J
  transact body w =
      let r = transaction body w.memory in
      elim r.0 [
        | err e ↦ (err e, record w { memory = r.1 })
        | ok a ↦ arm a (record w { memory = r.1 })
      ]

  -- `apply(event, alongside)`, with the host's own writes as code over the same store.
  unfoldable pub apply_body :
      Event P → F → ℕ → (Step D C → Storing J (Unit {0})) → Storing J (Step D C)
  apply_body event facts now alongside = and_then (reading load_record) λ r.
      and_then (transition_record r event facts now)
        λ st. and_then (alongside st) λ _. reading (λ _. ok st)

  unfoldable pub apply :
      Event P
      → F
      → ℕ
      → (Step D C → Storing J (Unit {0}))
      → World J
      → Result MachineError (Step D C) × World J
  apply event facts now alongside = transact (apply_body event facts now alongside)

  -- `take(now)`: the first command, if it is to run now.
  unfoldable pub take_due : OutboxEntry J → ℕ → Storing J (Taken C J)
  take_due entry now =
      if ltb 0 entry.attempts && ltb now entry.due
      then reading (λ _. ok idle)
      else and_then (reading (λ _. decode_command o.codec o.machine.definition entry.command))
          λ command. reading (λ _. ok (run entry command))

  unfoldable pub take_entry : OutboxEntry J → ℕ → Storing J (Taken C J)
  take_entry entry now =
      if entry.release
      then take_due entry now
      else and_then (reading load_record) λ r.
        if entry.epoch == r.epoch
        then take_due entry now
        else and_then (writing (remove entry.id)) λ _. reading (λ _. ok skipped)

  unfoldable pub take_first : List (OutboxEntry J) → ℕ → Storing J (Taken C J)
  take_first [] now = reading (λ _. ok idle)
  take_first (entry ∷ rest) now = take_entry entry now

  unfoldable pub take : ℕ → Storing J (Taken C J)
  take now = transaction (λ s. take_first (outbox o.key s) now s)

  -- `runOne` after a handler that succeeded: is its answer stale?
  unfoldable pub apply_answer : OutboxEntry J → Option (Event P) → F → ℕ → Held D → Storing J Bool
  apply_answer entry none facts now r = reading (λ _. ok false)
  apply_answer entry (some event) facts now r =
      if r.epoch == entry.epoch
      then and_then (transition_record r event facts now) (λ _. reading (λ _. ok false))
      else reading (λ _. ok true)

  unfoldable pub succeed_body : OutboxEntry J → Option (Event P) → F → ℕ → Storing J Bool
  succeed_body entry answer facts now =
      and_then (writing (remove entry.id))
        λ _. and_then (reading load_record) λ r. apply_answer entry answer facts now r

  -- `runOne` after the handler's exit. The result says whether `drain` goes on.
  unfoldable pub finish_command :
      OutboxEntry J → Exit P → F → ℕ → World J → Result MachineError Bool × World J
  finish_command entry (success answer) facts now w =
      let r = transact (succeed_body entry answer facts now) w in
      elim r.0 [ err e ↦ (err e, r.1) | ok stale ↦ (ok true, r.1) ]
  finish_command entry interrupted facts now w = (ok false, w)
  finish_command entry failure facts now w =
      let attempt = entry.attempts + 1 in
      let r = transact (writing (reschedule entry.id attempt (now + o.retry_delay attempt))) w in
      elim r.0 [ err e ↦ (err e, r.1) | ok _ ↦ (ok false, r.1) ]

  -- One round of `fireTimers`: the first timer that is due is marked, then its event is applied.
  unfoldable pub fire_due : Held D → F → ℕ → List Due → Storing J Bool
  fire_due r facts now [] = reading (λ _. ok false)
  fire_due r facts now (timer ∷ rest) =
      let marked = record r { fired = insert timer.event timer.time r.fired } in
      and_then (writing (save_record marked)) λ _.
        and_then
          (transition_record marked (record { tag = timer.event; payload = o.empty_payload }) facts
            now)
          λ _. reading (λ _. ok true)

  unfoldable pub fire_body : F → ℕ → Storing J Bool
  fire_body facts now = and_then (reading load_record) λ r.
      and_then (reading (λ _. pending_timers r))
        λ pending. fire_due r facts now (filter (λ timer. leb timer.time now) pending)

  -- The loop of `fireTimers`, on the firings that are left; the clock and the facts are read anew
  -- in each round.
  unfoldable pub fire_loop : ℕ → (ℕ → F) → (ℕ → ℕ) → Storing J (Unit {0})
  fire_loop zero facts clock = reading (λ _. ok tt)
  fire_loop (suc left) facts clock =
      and_then (transaction (fire_body (facts left) (clock left)))
        λ fired. if fired then fire_loop left facts clock else reading (λ _. ok tt)

  unfoldable pub fire_timers :
      (ℕ → F) → (ℕ → ℕ) → World J → Result MachineError (Unit {0}) × World J
  fire_timers facts clock w =
      let r = fire_loop max_firings facts clock w.memory in
      elim r.0 [
        | err e ↦ (err e, record w { memory = r.1 })
        | ok _ ↦ arm tt (record w { memory = r.1 })
      ]
