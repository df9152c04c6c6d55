-- ===== src/Durable/System.antt =====
-- durable.ts: the calls that reach a machine, in any order. `drain` holds a permit, so one command
-- runs at a time, while other calls apply events and fire timers between its start and its end.
use cf_open_agents_api.Prelude.{ℕ, Option, none, some, List, [], ◌∷◌, Result, ok, err}
use cf_open_agents_api.Machine.Types.{Event, Step, MachineError}
use cf_open_agents_api.Store.Memory.{Memory, Storing, OutboxEntry}
use cf_open_agents_api.Durable.Defs.{
  Options, World, Exit, Taken, run, skipped, idle, arm, take, apply, finish_command, fire_timers,
}

-- The store and the alarm, and the command that `drain` is running.
pub record System (C J : Type 0) : Type 0 where
  pub world : World J
  pub open world use *
  pub running : Option (OutboxEntry J)

-- What can happen next. The clock and the facts that a call reads are part of it, and so is what
-- the handler of the running command answered.
pub data Action (D P C F J : Type 0) : Type 0 where
  applies : Event P → F → ℕ → (Step D C → Storing J (Unit {0})) → Action D P C F J
  takes : ℕ → Action D P C F J
  finishes : Exit P → F → ℕ → Action D P C F J
  fires : (ℕ → F) → (ℕ → ℕ) → Action D P C F J

module _ {D P C F J : Type 0} (o : Options D P C F J) where
  -- The head of `drain`'s loop: a skipped command re-arms the alarm, another one starts.
  unfoldable pub after_take : Result MachineError (Taken C J) × Memory J → System C J → System C J
  after_take (err e, s) sys = record sys { world = record sys.world { memory = s } }
  after_take (ok idle, s) sys = record sys { world = record sys.world { memory = s } }
  after_take (ok skipped, s) sys = record sys {
    world = (arm o tt (record sys.world { memory = s })).1;
  }
  after_take (ok (run entry command), s) sys = record sys {
    world = record sys.world { memory = s };
    running = some entry;
  }

  -- The permit: a command is taken only while none runs.
  unfoldable pub take_next : Option (OutboxEntry J) → ℕ → System C J → System C J
  take_next (some entry) now sys = sys
  take_next none now sys = after_take (take o now sys.memory) sys

  unfoldable pub finish_next : Option (OutboxEntry J) → Exit P → F → ℕ → System C J → System C J
  finish_next none exit facts now sys = sys
  finish_next (some entry) exit facts now sys = record sys {
    world = (finish_command o entry exit facts now sys.world).1;
    running = none;
  }

  unfoldable pub act : Action D P C F J → System C J → System C J
  act (applies event facts now alongside) sys = record sys {
    world = (apply o event facts now alongside sys.world).1;
  }
  act (takes now) sys = take_next sys.running now sys
  act (finishes exit facts now) sys = finish_next sys.running exit facts now sys
  act (fires facts clock) sys = record sys { world = (fire_timers o facts clock sys.world).1 }

  unfoldable pub acts : List (Action D P C F J) → System C J → System C J
  acts [] sys = sys
  acts (a ∷ rest) sys = acts rest (act a sys)
