-- ===== src/Reconcile/Ticks.antt =====
-- session-reconcile.ts, `reconcileTick`: what a whole tick may write, how long its polls may wait, and
-- how many polls it sends, whatever its runtime answers and whatever others do meanwhile.
use cf_open_agents_api.Prelude.{
  ℕ, ◌+◌, ◌≤◌, ◌≡◌, ap, subst, sym, Bool, true, false, Option, none, some, [], All, ◌==◌, string_eq,
  arith,
}
use cf_open_agents_api.Errors.Domain.{DomainError}
use cf_open_agents_api.Turns.State.{TurnPhase, TurnExecution, TurnRecord}
use cf_open_agents_api.Reconcile.Tick.{
  SessionRow, row_there, row_absent, row_faulty, bound, fail, World, Tick, pure, ◌>>=◌, ◌>>◌,
  catch_tags, current_time, PromiseDriver, rescued,
}
use cf_open_agents_api.Reconcile.Steps.{
  Deployment, TickOf, Handling, seals, waits, passes, complete_fenced, expired,
}
use cf_open_agents_api.Reconcile.Rounds.{
  found_record, with_record, mark, started, timely_turn, turn_in, reconcile_turn, repeats,
  turn_failed, turn_handling, sealing_turn, silenced, is_superseded, reconcile_tick, with_driver,
  unless_deleted, with_execution, arm,
}
use cf_open_agents_api.Reconcile.Moves.{
  FencedWrite, BoundedRequest, Moves, stays, Moves-trans, Moved, Moved-more, rescued-Moves,
  pure-Moved, fail-Moved, catch_tags-Moved, fenced-Moved, polls_of,
}
use cf_open_agents_api.Reconcile.Limits.{repeat_round-Kept, more_Kept, first_Kept}
use cf_open_agents_api.Reconcile.Bounded.{
  Kept, then_Kept, fenced-Kept, pure-Kept, fail-Kept, if_Kept, driver_start-Kept, expired-Kept,
  stop_and_fail-Kept, seal_with-Kept, checkpoint_turn-Kept,
}

-- The most polls of a tick, by whether its driver waits for news.
abbrev pub rounds_allowed : Bool → ℕ
rounds_allowed true = 1001
rounds_allowed false = 17

abbrev pub allowed : Option PromiseDriver → ℕ
allowed none = 0
allowed (some driver) = rounds_allowed driver.long_poll

repeats-le : (long_poll : Bool) → 1 + repeats long_poll ≤ rounds_allowed long_poll
repeats-le true = omega arith
repeats-le false = omega arith

module _ (host : Deployment) (tick : TickOf) where
  most : ℕ
  most = 1 + repeats tick.driver.long_poll

  mark-Kept : Kept host tick 0 (mark host tick)
  mark-Kept = fenced-Kept host tick _

  started-Kept : (phase : TurnPhase) → Kept host tick 0 (started host tick phase)
  started-Kept TurnPhase.starting =
      then_Kept host tick (driver_start-Kept host tick _) (λ _. mark-Kept)
  started-Kept TurnPhase.idle = pure-Kept host tick tt
  started-Kept TurnPhase.failed = pure-Kept host tick tt
  started-Kept TurnPhase.running = pure-Kept host tick tt
  started-Kept TurnPhase.checkpointing = pure-Kept host tick tt

  timely_turn-Kept :
      (phase : TurnPhase) (late : Bool) → Kept host tick most (timely_turn host tick phase late)
  unfolding most
  timely_turn-Kept phase true = more_Kept host tick _ (stop_and_fail-Kept host tick _)
  timely_turn-Kept phase false =
      first_Kept host tick _ (started-Kept phase)
        (λ _. repeat_round-Kept host tick (repeats tick.driver.long_poll))

  in_time_Kept :
      (phase : TurnPhase)
      → Kept host tick most (expired tick.execution >>= timely_turn host tick phase)
  in_time_Kept phase = first_Kept host tick _ (expired-Kept host tick) (timely_turn-Kept phase)

  turn_in-Kept : (phase : TurnPhase) → Kept host tick most (turn_in host tick phase)
  turn_in-Kept TurnPhase.checkpointing = more_Kept host tick _ (checkpoint_turn-Kept host tick)
  turn_in-Kept TurnPhase.idle = in_time_Kept TurnPhase.idle
  turn_in-Kept TurnPhase.failed = in_time_Kept TurnPhase.failed
  turn_in-Kept TurnPhase.starting = in_time_Kept TurnPhase.starting
  turn_in-Kept TurnPhase.running = in_time_Kept TurnPhase.running

  reconcile_turn-Kept :
      (initial : TurnRecord) → Kept host tick most (reconcile_turn host tick initial)
  unfolding reconcile_turn
  reconcile_turn-Kept initial =
      if_Kept host tick _ (tick.driver.revision == initial.revision) _ _
        (turn_in-Kept initial.phase) (more_Kept host tick _ (stop_and_fail-Kept host tick _))

  turn_failed-Kept : (e : DomainError) (h : Handling) → Kept host tick 0 (turn_failed host tick e h)
  turn_failed-Kept e seals = seal_with-Kept host tick e
  turn_failed-Kept e waits = fail-Kept host tick e
  turn_failed-Kept e passes = fail-Kept host tick e

  sealing_turn-Kept : (initial : TurnRecord) → Kept host tick most (sealing_turn host tick initial)
  unfolding sealing_turn
  sealing_turn-Kept initial =
      Moved-more tick.execution tick.budget_end (most + 0) most
        (catch_tags (reconcile_turn host tick initial)
          (λ e. turn_failed host tick e (turn_handling e)))
        (omega arith)
        (catch_tags-Moved tick.execution tick.budget_end most 0 (reconcile_turn host tick initial)
          (λ e. turn_failed host tick e (turn_handling e)) (reconcile_turn-Kept initial)
          (λ e. turn_failed-Kept e (turn_handling e)))

module _ (host : Deployment) (e : TurnExecution) where
  with_driver-Moved :
      (initial : TurnRecord) (began : ℕ) (driver : Option PromiseDriver)
      → Moved e
          (began + host.poll_interval_ms)
          (allowed driver)
          (with_driver host initial e began driver)
  unfolding complete_fenced most
  with_driver-Moved initial began none = fenced-Moved e (began + host.poll_interval_ms) _
  with_driver-Moved initial began (some driver) =
      let tick : TickOf = record {
        driver = driver;
        execution = e;
        budget_end = began + host.poll_interval_ms;
      } in
      Moved-more e (began + host.poll_interval_ms) (1 + repeats driver.long_poll)
        (rounds_allowed driver.long_poll) (sealing_turn host tick initial)
        (repeats-le driver.long_poll) (sealing_turn-Kept host tick initial)

  armed_Moves :
      (n budget : ℕ) (m : Tick (Unit {0})) (w : World)
      → Moved e budget n m
      → Moves e budget n w ((arm host host.poll_interval_ms >> m) w).1
  unfolding ◌>>=◌
  armed_Moves n budget m w p =
      let q = p.moves (record w { armed = some (w.now + host.poll_interval_ms) }) in
      record { writes = q.writes; bounds = q.bounds; polls = q.polls }

  unless_deleted-Moves :
      (initial : TurnRecord) (gone : Bool) (w : World)
      → Moves e
          (w.now + host.poll_interval_ms)
          (allowed (host.driver_of initial.driver))
          w
          (unless_deleted host initial e gone w).1
  unfolding ◌>>=◌ current_time pure
  unless_deleted-Moves initial true w =
      stays e (w.now + host.poll_interval_ms) (allowed (host.driver_of initial.driver)) w
  unless_deleted-Moves initial false w =
      armed_Moves (allowed (host.driver_of initial.driver)) (w.now + host.poll_interval_ms)
        (with_driver host initial e w.now (host.driver_of initial.driver)) w
        (with_driver-Moved initial w.now (host.driver_of initial.driver))

  silenced-Moved : (budget : ℕ) (x : DomainError) (b : Bool) → Moved e budget 0 (silenced x b)
  silenced-Moved budget x true = pure-Moved e budget tt
  silenced-Moved budget x false = fail-Moved e budget x

  found_Moves :
      (w : World)
      → w.live.stored.execution ≡ some e
      → let n = allowed (host.driver_of w.live.stored.driver) in
        let ended = with_record host (some w.live.stored) w in
        Moves e
          (w.now + host.poll_interval_ms)
          n
          w
          (rescued (λ x. silenced x (is_superseded x)) ended.0 ended.1).1
  found_Moves w found =
      let budget = w.now + host.poll_interval_ms in
      let n = allowed (host.driver_of w.live.stored.driver) in
      let ended = with_execution host w.live.stored (some e) w in
      let p =
        Moves-trans e budget n 0 (unless_deleted-Moves w.live.stored w.live.stored.deleted w) (
          rescued-Moves e budget 0 (λ x. silenced x (is_superseded x)) ended.0 ended.1
            (λ x. silenced-Moved budget x (is_superseded x))) in
      let q : Moves e budget n w (rescued (λ x. silenced x (is_superseded x)) ended.0 ended.1).1 =
        record { writes = p.writes; bounds = p.bounds; polls = omega (arith, p.polls) } in
      subst
        (λ found.
          Moves e budget n w
            (rescued (λ x. silenced x (is_superseded x))
              (with_execution host w.live.stored found w).0
              (with_execution host w.live.stored found w).1).1)
        (sym found) q

  silenced-Moves :
      (budget n : ℕ) (x : DomainError) (b : Bool) (w : World)
      → Moves e budget n w (silenced x b w).1
  unfolding pure fail
  silenced-Moves budget n x true w = stays e budget n w
  silenced-Moves budget n x false w = stays e budget n w

  read_Moves :
      (row : SessionRow) (w : World)
      → w.live.stored.execution ≡ some e
      → let n = allowed (host.driver_of w.live.stored.driver) in
        let ended = bound (with_record host) (found_record host row w.live.stored) w in
        Moves e
          (w.now + host.poll_interval_ms)
          n
          w
          (rescued (λ x. silenced x (is_superseded x)) ended.0 ended.1).1
  unfolding pure
  read_Moves row_there w found = found_Moves w found
  read_Moves row_absent w found =
      stays e (w.now + host.poll_interval_ms) (allowed (host.driver_of w.live.stored.driver)) w
  read_Moves (row_faulty x) w found =
      silenced-Moves (w.now + host.poll_interval_ms) (allowed (host.driver_of w.live.stored.driver))
        x (is_superseded x) w

  tick_Moves :
      (w : World)
      → w.live.stored.execution ≡ some e
      → Moves e
          (w.now + host.poll_interval_ms)
          (allowed (host.driver_of w.live.stored.driver))
          w
          (reconcile_tick host w).1
  unfolding reconcile_tick catch_tags ◌>>=◌
  tick_Moves w found = read_Moves w.session_row w found

  -- Whatever the runtime answers, and whatever others write while a tick waits for it: every write of
  -- the tick finds the session there, at the generation and at the turn that it found at its start.
  pub tick_writes_fenced :
      (w : World)
      → w.live.stored.execution ≡ some e
      → w.writes ≡ []
      → All (FencedWrite e) (reconcile_tick host w).1.writes
  tick_writes_fenced w found fresh =
      (tick_Moves w found).writes (subst (All (FencedWrite e)) (sym fresh) tt)

  -- Every poll that a tick sends waits for at most 25 seconds and, unless it does not wait at all, ends
  -- half a second before the interval of the polls is over and before the turn's deadline.
  pub tick_polls_bounded :
      (w : World)
      → w.live.stored.execution ≡ some e
      → w.asked ≡ []
      → All (BoundedRequest e (w.now + host.poll_interval_ms)) (reconcile_tick host w).1.asked
  tick_polls_bounded w found fresh =
      (tick_Moves w found).bounds
        (subst (All (BoundedRequest e (w.now + host.poll_interval_ms))) (sym fresh) tt)

  -- A tick ends after a bounded number of polls, whatever its runtime answers: none for a driver that
  -- is not registered, 1,001 for one that waits for news, and 17 for any other: its bound of 1,000 or
  -- 16 rounds counts the rounds after the first.
  pub tick_polls_counted :
      (w : World)
      → w.live.stored.execution ≡ some e
      → w.asked ≡ []
      → polls_of (reconcile_tick host w).1.asked ≤ allowed (host.driver_of w.live.stored.driver)
  tick_polls_counted w found fresh = omega (arith, (tick_Moves w found).polls, ap polls_of fresh)
