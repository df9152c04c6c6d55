-- ===== src/Reconcile/Bounded.antt =====
-- session-reconcile.ts: every step of a tick moves the world within the tick's bounds.
use cf_open_agents_api.Prelude.{
  ℕ, String, Bool, true, false, Option, none, some, Result, ◌==◌, string_eq, if◌then◌else◌, arith,
  leb,
}
use cf_open_agents_api.Errors.Domain.{DomainError}
use cf_open_agents_api.Errors.Boundary.{rejected, refused}
use cf_open_agents_api.Turns.State.{RuntimeCommand, TurnCommand, TurnRecord, Live}
use cf_open_agents_api.Turns.Queue.{discard, reject}
use cf_open_agents_api.Turns.Children.{Ending}
use cf_open_agents_api.Reconcile.Tick.{
  Request, World, Tick, pure, fail, ◌>>=◌, catch_tags, driver_start, driver_poll, driver_control,
  driver_checkpoint, driver_stop, fenced, transport,
}
use cf_open_agents_api.Reconcile.Steps.{
  Deployment, TickOf, poll_wait, expired, complete_fenced, finish, unconfirmed, stop_failed,
  stop_handling, bounded_stop, stop_and_fail, Stop, stopped, stored_cancel, pending_commands,
  refused_command, removed, unknown_delivery, delivery_failed, delivery_handling, after_delivery,
  not_ours, ours, Delivery, delivered, skipped, retry, deliver, Handling, seals, waits, passes,
  seal_with, unavailable, checkpoint_failed, checkpoint_handling, checkpoint_turn,
}
use cf_open_agents_api.Reconcile.Moves.{
  InBounds, Moves, Moved, stays, pure-Moved, fail-Moved, >>=-Moved, catch_tags-Moved, fenced-Moved,
  call-Moves, current_time-Moved,
}

-- The wait of a poll is within the tick's bounds.
poll_wait-InBounds :
    (tick : TickOf) (r : TurnRecord) (now : ℕ)
    → InBounds tick.execution tick.budget_end (Request.poll r.cursor (poll_wait tick r now)) now
unfolding poll_wait
poll_wait-InBounds tick r now = ground arith

module _ (host : Deployment) (tick : TickOf) where
  -- An effect that stays within the bounds of this tick, with at most `n` polls.
  abbrev pub Kept : {A : Type 0} → ℕ → Tick A → Type 0
  Kept n m = Moved tick.execution tick.budget_end n m

  pub then_Kept :
      {A B : Type 0} {first : Tick A} {next : A → Tick B}
      → Kept 0 first
      → ((a : A) → Kept 0 (next a))
      → Kept 0 (first >>= next)
  then_Kept {first} {next} p q = >>=-Moved tick.execution tick.budget_end 0 0 first next p q

  pub caught_Kept :
      {A : Type 0} {first : Tick A} {handler : DomainError → Tick A}
      → Kept 0 first
      → ((e : DomainError) → Kept 0 (handler e))
      → Kept 0 (catch_tags first handler)
  caught_Kept {first} {handler} p q =
      catch_tags-Moved tick.execution tick.budget_end 0 0 first handler p q

  pub fenced-Kept :
      {A : Type 0} (f : World → Result DomainError (A × Live)) → Kept 0 (fenced tick.execution f)
  fenced-Kept f = fenced-Moved tick.execution tick.budget_end f

  pub pure-Kept : {A : Type 0} (a : A) → Kept 0 (pure a)
  pure-Kept a = pure-Moved tick.execution tick.budget_end a

  pub fail-Kept : {A : Type 0} (e : DomainError) → Kept 0 (fail {A = A} e)
  fail-Kept e = fail-Moved tick.execution tick.budget_end e

  pub driver_stop-Kept : Kept 0 (driver_stop host.shown tick.driver)
  unfolding driver_stop
  driver_stop-Kept = record {
    moves = λ w.
        call-Moves tick.execution tick.budget_end 0 Request.stop tick.driver.stop
          (transport "runtime.stop") w tt (omega arith);
  }

  pub driver_start-Kept : (id : String) → Kept 0 (driver_start host.shown tick.driver id)
  unfolding driver_start
  driver_start-Kept id = record {
    moves = λ w.
        call-Moves tick.execution tick.budget_end 0 (Request.start id) (tick.driver.start id)
          (rejected host.shown "runtime.start") w tt (omega arith);
  }

  pub driver_control-Kept :
      (id : String) (c : RuntimeCommand) → Kept 0 (driver_control host.shown tick.driver id c)
  unfolding driver_control
  driver_control-Kept id c = record {
    moves = λ w.
        call-Moves tick.execution tick.budget_end 0 (Request.control id c)
          (tick.driver.control id c) (refused host.shown) w tt (omega arith);
  }

  pub driver_checkpoint-Kept : Kept 0 (driver_checkpoint host.shown tick.driver)
  unfolding driver_checkpoint
  driver_checkpoint-Kept = record {
    moves = λ w.
        call-Moves tick.execution tick.budget_end 0 Request.checkpoint tick.driver.checkpoint
          (rejected host.shown "runtime.checkpoint") w tt (omega arith);
  }

  pub driver_poll-Moves :
      (r : TurnRecord) (w : World)
      → Moves tick.execution tick.budget_end 1 w
          (driver_poll host.shown tick.driver r.cursor (poll_wait tick r w.now) w).1
  unfolding driver_poll
  driver_poll-Moves r w =
      let wait = poll_wait tick r w.now in
      call-Moves tick.execution tick.budget_end 1 (Request.poll r.cursor wait)
        (tick.driver.poll r.cursor wait) (transport "runtime.poll") w
        (poll_wait-InBounds tick r w.now) (omega arith)

  pub expired-Kept : Kept 0 (expired tick.execution)
  unfolding expired
  expired-Kept =
      then_Kept (current_time-Moved tick.execution tick.budget_end)
        (λ now. pure-Kept (leb tick.execution.deadline now))

  pub finish-Kept : (ending : Ending) (e : Option String) → Kept 0 (finish host tick ending e)
  unfolding finish complete_fenced
  finish-Kept ending e = fenced-Kept _

  pub unconfirmed-Kept : (e : DomainError) (late : Bool) → Kept 0 (unconfirmed host tick e late)
  unconfirmed-Kept e true = pure-Kept Stop.unknown
  unconfirmed-Kept e false = fail-Kept e

  pub stop_failed-Kept : (e : DomainError) (h : Handling) → Kept 0 (stop_failed host tick e h)
  stop_failed-Kept e waits = then_Kept expired-Kept (unconfirmed-Kept e)
  stop_failed-Kept e seals = fail-Kept e
  stop_failed-Kept e passes = fail-Kept e

  pub bounded_stop-Kept : Kept 0 (bounded_stop host tick)
  unfolding bounded_stop
  bounded_stop-Kept =
      caught_Kept (then_Kept driver_stop-Kept (λ _. pure-Kept stopped))
        (λ e. stop_failed-Kept e (stop_handling e))

  pub stop_and_fail-Kept : (code : String) → Kept 0 (stop_and_fail host tick code)
  unfolding stop_and_fail
  stop_and_fail-Kept code = then_Kept bounded_stop-Kept (λ stop. finish-Kept Ending.failed _)

  pub stored_cancel-Kept : (c l : Option TurnCommand) → Kept 0 (stored_cancel host tick c l)
  stored_cancel-Kept none (some legacy) = fenced-Kept _
  stored_cancel-Kept none none = pure-Kept tt
  stored_cancel-Kept (some c) none = pure-Kept tt
  stored_cancel-Kept (some c) (some l) = pure-Kept tt

  pub pending_commands-Kept : Kept 0 (pending_commands host tick)
  unfolding pending_commands
  pending_commands-Kept =
      then_Kept (record { moves = stays tick.execution tick.budget_end 0 })
        (λ live. then_Kept (stored_cancel-Kept _ _) (λ _. pure-Kept _))

  pub removed-Kept :
      (change : TurnCommand → Live → Live) (c : TurnCommand) → Kept 0 (removed host tick change c)
  removed-Kept change c = fenced-Kept _

  pub refused_command-Kept :
      (c : TurnCommand) (cancel : Option TurnCommand) → Kept 0 (refused_command host tick c cancel)
  refused_command-Kept c (some cancel) = pure-Kept skipped
  refused_command-Kept c none = then_Kept (removed-Kept reject c) (λ _. pure-Kept skipped)

  pub unknown_delivery-Kept :
      (c : TurnCommand) (cancel : Option TurnCommand) → Kept 0 (unknown_delivery host tick c cancel)
  unknown_delivery-Kept c (some cancel) = refused_command-Kept c (some cancel)
  unknown_delivery-Kept c none = pure-Kept retry

  pub delivery_failed-Kept :
      (c : TurnCommand) (cancel : Option TurnCommand) (e : DomainError) (h : Handling)
      → Kept 0 (delivery_failed host tick c cancel e h)
  delivery_failed-Kept c cancel e seals = refused_command-Kept c cancel
  delivery_failed-Kept c cancel e waits = unknown_delivery-Kept c cancel
  delivery_failed-Kept c cancel e passes = fail-Kept e

  pub after_delivery-Kept :
      (c : TurnCommand) (cancel : Option TurnCommand) (d : Delivery)
      → Kept 0 (after_delivery host tick c cancel d)
  after_delivery-Kept c none delivered =
      then_Kept (removed-Kept discard c) (λ _. pure-Kept delivered)
  after_delivery-Kept c none skipped = pure-Kept skipped
  after_delivery-Kept c none retry = pure-Kept retry
  after_delivery-Kept c (some cancel) d = pure-Kept d

  pub ours-Kept : (c : TurnCommand) (cancel : Option TurnCommand) → Kept 0 (ours host tick c cancel)
  ours-Kept c cancel =
      then_Kept
        (caught_Kept (then_Kept (driver_control-Kept c.id c.command) (λ _. pure-Kept delivered))
          (λ e. delivery_failed-Kept c cancel e (delivery_handling e)))
        (after_delivery-Kept c cancel)

  pub not_ours-Kept :
      (c : TurnCommand) (cancel : Option TurnCommand) → Kept 0 (not_ours host tick c cancel)
  not_ours-Kept c none = then_Kept (removed-Kept discard c) (λ _. pure-Kept skipped)
  not_ours-Kept c (some cancel) = pure-Kept skipped

  pub if_Kept :
      {A : Type 0} (n : ℕ) (b : Bool) (x y : Tick A)
      → Kept n x
      → Kept n y
      → Kept n (if b then x else y)
  if_Kept n true x y p q = p
  if_Kept n false x y p q = q

  pub deliver-Kept :
      (c : TurnCommand) (cancel : Option TurnCommand) → Kept 0 (deliver host tick c cancel)
  unfolding deliver
  deliver-Kept c cancel =
      if_Kept 0 (c.turn_id == tick.execution.turn_id) _ _ (ours-Kept c cancel)
        (not_ours-Kept c cancel)

  pub seal_with-Kept : (e : DomainError) → Kept 0 (seal_with host tick e)
  unfolding seal_with
  seal_with-Kept e = stop_and_fail-Kept _

  pub unavailable-Kept : (e : DomainError) (late : Bool) → Kept 0 (unavailable host tick e late)
  unavailable-Kept e true = stop_and_fail-Kept _
  unavailable-Kept e false = fail-Kept e

  pub checkpoint_failed-Kept :
      (e : DomainError) (h : Handling) → Kept 0 (checkpoint_failed host tick e h)
  checkpoint_failed-Kept e seals = seal_with-Kept e
  checkpoint_failed-Kept e waits = then_Kept expired-Kept (unavailable-Kept e)
  checkpoint_failed-Kept e passes = fail-Kept e

  pub checkpoint_turn-Kept : Kept 0 (checkpoint_turn host tick)
  unfolding checkpoint_turn
  checkpoint_turn-Kept =
      caught_Kept (then_Kept driver_checkpoint-Kept (λ result. fenced-Kept _))
        (λ e. checkpoint_failed-Kept e (checkpoint_handling e))
