-- ===== src/Reconcile/Limits.antt =====
-- session-reconcile.ts: what a whole tick may write, how long its polls may wait, and how many polls
-- it sends, whatever its runtime answers and whatever others do meanwhile.
use cf_open_agents_api.Prelude.{
  ℕ, zero, suc, ◌+◌, Bool, true, false, Option, none, List, [], ◌∷◌, string_eq, arith,
}
use cf_open_agents_api.Turns.State.{TurnPhase, TurnCommand, TurnRecord, BatchStatus, RuntimeBatch}
use cf_open_agents_api.Turns.Batch.{BatchAnswer, commands, now_in}
use cf_open_agents_api.Turns.Children.{Ending}
use cf_open_agents_api.Reconcile.Tick.{Tick, pure, ◌>>=◌, ◌>>◌, current_time, driver_poll}
use cf_open_agents_api.Reconcile.Steps.{
  Deployment, TickOf, poll_wait, Delivery, delivered, skipped, retry,
}
use cf_open_agents_api.Reconcile.Rounds.{
  Outcome, again, done, on_retry, deliver_all, after_news, continued, by_status, by_phase, accepted,
  polled, delivered_round, timely_round, round, while_again, repeat_round,
}
use cf_open_agents_api.Reconcile.Moves.{
  Moves-trans, Moved-more, >>=-Moved, bound-Moves, read_fenced-Moved, current_time-Moved,
}
use cf_open_agents_api.Reconcile.Bounded.{
  Kept, then_Kept, fenced-Kept, pure-Kept, if_Kept, driver_poll-Moves, expired-Kept, finish-Kept,
  bounded_stop-Kept, stop_and_fail-Kept, pending_commands-Kept, deliver-Kept, checkpoint_turn-Kept,
}

module _ (host : Deployment) (tick : TickOf) where
  on_retry-Kept :
      (d : Delivery) (rest : Tick Bool)
      → Kept host tick 0 rest
      → Kept host tick 0 (on_retry host tick d rest)
  on_retry-Kept retry rest p = pure-Kept host tick true
  on_retry-Kept delivered rest p = p
  on_retry-Kept skipped rest p = p

  deliver_all-Kept :
      (cs : List TurnCommand) (cancel : Option TurnCommand)
      → Kept host tick 0 (deliver_all host tick cs cancel)
  unfolding deliver_all
  deliver_all-Kept [] cancel = pure-Kept host tick false
  deliver_all-Kept (c ∷ cs) cancel =
      then_Kept host tick (read_fenced-Moved tick.execution tick.budget_end) (λ _.
        then_Kept host tick (deliver-Kept host tick c cancel)
          (λ d. on_retry-Kept d (deliver_all host tick cs cancel) (deliver_all-Kept cs cancel)))

  after_news-Kept : (news : Bool) → Kept host tick 0 (after_news host tick news)
  after_news-Kept true =
      then_Kept host tick (current_time-Moved tick.execution tick.budget_end)
        (λ now. pure-Kept host tick _)
  after_news-Kept false = pure-Kept host tick done

  pub done-Kept : {m : Tick (Unit {0})} → Kept host tick 0 m → Kept host tick 0 (m >> pure done)
  done-Kept p = then_Kept host tick p (λ _. pure-Kept host tick done)

  module _ (before : TurnRecord) (wait : ℕ) (batch : RuntimeBatch) (retries : Bool) where
    continued-Kept :
        (phase : BatchAnswer)
        → Kept host tick 0 (continued host tick phase before wait batch retries)
    continued-Kept phase = if_Kept host tick 0 _ _ _ (pure-Kept host tick again) (after_news-Kept _)

    by_status-Kept :
        (status : BatchStatus) (phase : BatchAnswer)
        → Kept host tick 0 (by_status host tick status phase before wait batch retries)
    by_status-Kept BatchStatus.failed phase = done-Kept (stop_and_fail-Kept host tick _)
    by_status-Kept BatchStatus.missing phase = done-Kept (stop_and_fail-Kept host tick _)
    by_status-Kept BatchStatus.cancelled phase = done-Kept (
        then_Kept host tick (bounded_stop-Kept host tick)
          (λ _. finish-Kept host tick Ending.cancelled none))
    by_status-Kept BatchStatus.running phase = continued-Kept phase
    by_status-Kept BatchStatus.waiting phase = continued-Kept phase
    by_status-Kept BatchStatus.completed phase = continued-Kept phase

    by_phase-Kept :
        (phase : BatchAnswer)
        → Kept host tick 0 (by_phase host tick phase before wait batch retries)
    by_phase-Kept (now_in TurnPhase.checkpointing) = done-Kept (checkpoint_turn-Kept host tick)
    by_phase-Kept commands = by_status-Kept batch.status commands
    by_phase-Kept (now_in TurnPhase.idle) = by_status-Kept batch.status (now_in TurnPhase.idle)
    by_phase-Kept (now_in TurnPhase.failed) = by_status-Kept batch.status (now_in TurnPhase.failed)
    by_phase-Kept (now_in TurnPhase.starting) =
        by_status-Kept batch.status (now_in TurnPhase.starting)
    by_phase-Kept (now_in TurnPhase.running) =
        by_status-Kept batch.status (now_in TurnPhase.running)

  polled-Kept :
      (cancel : Option TurnCommand) (retries : Bool) (before : TurnRecord)
      → Kept host tick 1 (current_time >>= polled host tick cancel retries before)
  unfolding ◌>>=◌ current_time polled
  polled-Kept cancel retries before = record {
    moves = λ w.
        let wait = poll_wait tick before w.now in
        let answered = driver_poll host.shown tick.driver before.cursor wait w in
        Moves-trans tick.execution tick.budget_end 1 0 (driver_poll-Moves host tick before w) (
          bound-Moves tick.execution tick.budget_end 0
            (λ (batch : RuntimeBatch). accepted host tick batch cancel >>= λ (phase : BatchAnswer).
              by_phase host tick phase before wait batch retries)
            answered.0 answered.1
            (λ batch.
              then_Kept host tick (fenced-Kept host tick _)
                (λ phase. by_phase-Kept before wait batch retries phase)));
  }

  -- One step and then another, the second with at most `n` polls.
  pub first_Kept :
      {A B : Type 0} (n : ℕ) {first : Tick A} {next : A → Tick B}
      → Kept host tick 0 first
      → ((a : A) → Kept host tick n (next a))
      → Kept host tick n (first >>= next)
  first_Kept n {first} {next} p q =
      Moved-more tick.execution tick.budget_end (0 + n) n (first >>= next) (omega arith)
        (>>=-Moved tick.execution tick.budget_end 0 n first next p q)

  pub more_Kept : {A : Type 0} (n : ℕ) {m : Tick A} → Kept host tick 0 m → Kept host tick n m
  more_Kept n {m} p = Moved-more tick.execution tick.budget_end 0 n m (omega arith) p

  delivered_round-Kept :
      (cancel : Option TurnCommand) (cs : List TurnCommand)
      → Kept host tick 1 (delivered_round host tick (cancel, cs))
  delivered_round-Kept cancel cs = first_Kept 1 (deliver_all-Kept cs cancel) (λ retries.
      first_Kept 1 (read_fenced-Moved tick.execution tick.budget_end)
        (λ before. polled-Kept cancel retries before))

  timely_round-Kept : (late : Bool) → Kept host tick 1 (timely_round host tick late)
  timely_round-Kept true = more_Kept 1 (done-Kept (stop_and_fail-Kept host tick _))
  timely_round-Kept false =
      first_Kept 1 (pending_commands-Kept host tick) (λ p. delivered_round-Kept p.0 p.1)

  round-Kept : Kept host tick 1 (round host tick)
  unfolding round
  round-Kept =
      first_Kept 1 (read_fenced-Moved tick.execution tick.budget_end)
        (λ _. first_Kept 1 (expired-Kept host tick) timely_round-Kept)

  while_again-Kept :
      (n : ℕ) (rest : Tick (Unit {0})) (outcome : Outcome)
      → Kept host tick n rest
      → Kept host tick n (while_again host tick rest outcome)
  while_again-Kept n rest again p = p
  while_again-Kept n rest done p = more_Kept n (pure-Kept host tick tt)

  pub repeat_round-Kept : (times : ℕ) → Kept host tick (1 + times) (repeat_round host tick times)
  unfolding repeat_round
  repeat_round-Kept zero =
      >>=-Moved tick.execution tick.budget_end 1 0 (round host tick)
        (while_again host tick (pure tt)) round-Kept
        (λ outcome. while_again-Kept 0 (pure tt) outcome (pure-Kept host tick tt))
  repeat_round-Kept (suc times) =
      Moved-more tick.execution tick.budget_end (1 + (1 + times)) (1 + suc times)
        (round host tick >>= while_again host tick (repeat_round host tick times)) (omega arith)
        (>>=-Moved tick.execution tick.budget_end 1 (1 + times) (round host tick)
          (while_again host tick (repeat_round host tick times)) round-Kept
          (λ outcome.
            while_again-Kept (1 + times) (repeat_round host tick times) outcome
              (repeat_round-Kept times)))
