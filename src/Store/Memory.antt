-- ===== src/Store/Memory.antt =====
-- store.ts: `memoryStore`. Its variables are a record; a method that throws returns an error
-- beside the state that it leaves.
use cf_open_agents_api.Prelude.{
  ℕ, ◌+◌, ◌-◌, String, Bool, Option, List, [], ◌∷◌, ◌++◌, map, Result, ok, err, if◌then◌else◌, ltb,
  ◌==◌, nat_eq, string_eq, not, filter, lookup, insert,
}
use cf_open_agents_api.Machine.Types.{MachineError}
use cf_open_agents_api.Machine.Codec.{Encoded}

-- `StoredState`. The deadlines that fired are a field of the stored state object, absent in
-- records that were written before timers.
pub record StoredState (J : Type 0) : Type 0 where
  pub state : Encoded J
  pub fired : Option (List (String × ℕ))
  pub epoch : ℕ

-- `OutboxEntry`, with the machine that it belongs to.
pub record OutboxEntry (J : Type 0) : Type 0 where
  pub id : ℕ
  pub machine : String
  pub command : Encoded J
  pub epoch : ℕ
  pub release : Bool
  pub attempts : ℕ
  pub due : ℕ

-- `Omit<OutboxEntry, "id">`
pub record NewEntry (J : Type 0) : Type 0 where
  pub command : Encoded J
  pub epoch : ℕ
  pub release : Bool
  pub attempts : ℕ
  pub due : ℕ

-- The variables of `memoryStore`.
pub record Memory (J : Type 0) : Type 0 where
  pub states : List (String × StoredState J)
  pub entries : List (OutboxEntry J)
  pub next : ℕ
  pub depth : ℕ

abbrev pub memory_store : {J : Type 0} → Memory J
memory_store = record { states = []; entries = []; next = 1; depth = 0 }

-- Code that reads and writes the store, and may throw.
abbrev pub Storing : Type 0 → Type 0 → Type 0
Storing J A = Memory J → Result MachineError A × Memory J

module _ {J : Type 0} where
  -- `load(machine)`
  unfoldable pub load : String → Memory J → Option (StoredState J)
  load machine s = lookup machine s.states

  -- `save(machine, value)`
  unfoldable pub save : String → StoredState J → Memory J → Memory J
  save machine value s = record s { states = insert machine value s.states }

  abbrev pub with_id : String → ℕ → NewEntry J → OutboxEntry J
  with_id machine id entry = record {
    id = id;
    machine = machine;
    command = entry.command;
    epoch = entry.epoch;
    release = entry.release;
    attempts = entry.attempts;
    due = entry.due;
  }

  -- `enqueue(machine, entry)`; the identifier that it returns is the store's `next` before it.
  unfoldable pub enqueue : String → NewEntry J → Memory J → Memory J
  enqueue machine entry s = record s {
    entries = s.entries ++ with_id machine s.next entry ∷ [];
    next = s.next + 1;
  }

  -- `outbox(machine)`
  unfoldable pub outbox : String → Memory J → List (OutboxEntry J)
  outbox machine s = filter (λ entry. entry.machine == machine) s.entries

  -- `remove(id)`
  unfoldable pub remove : ℕ → Memory J → Memory J
  remove id s = record s { entries = filter (λ entry. not (entry.id == id)) s.entries }

  abbrev pub set_attempt : ℕ → ℕ → ℕ → OutboxEntry J → OutboxEntry J
  set_attempt id attempts due entry =
      if entry.id == id then record entry { attempts = attempts; due = due } else entry

  -- `reschedule(id, attempts, due)`
  unfoldable pub reschedule : ℕ → ℕ → ℕ → Memory J → Memory J
  reschedule id attempts due s = record s { entries = map (set_attempt id attempts due) s.entries }

  -- The end of an outer transaction: `catch` restores what was saved, and `finally` counts down.
  unfoldable pub settle :
      {A : Type 0} → Memory J → Result MachineError A × Memory J → Result MachineError A × Memory J
  settle saved (ok a, s) = (ok a, record s { depth = s.depth - 1 })
  settle saved (err e, s) = (err e, record saved { depth = s.depth - 1 })

  -- `transaction(body)`
  unfoldable pub transaction : {A : Type 0} → Storing J A → Storing J A
  transaction body s =
      if ltb 0 s.depth then body s else settle s (body (record s { depth = s.depth + 1 }))

-- One piece of code after another: a throw ends both.
unfoldable pub and_then : {J A B : Type 0} → Storing J A → (A → Storing J B) → Storing J B
and_then m f s = elim (m s).0 [ err e ↦ (err e, (m s).1) | ok a ↦ f a (m s).1 ]

-- Code that only reads.
unfoldable pub reading : {J A : Type 0} → (Memory J → Result MachineError A) → Storing J A
reading f s = (f s, s)

-- Code that only writes.
unfoldable pub writing : {J : Type 0} → (Memory J → Memory J) → Storing J (Unit {0})
writing f s = (ok tt, f s)
