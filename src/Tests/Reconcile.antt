-- ===== src/Tests/Reconcile.antt =====
-- A tick of the reconciler at concrete inputs.
use cf_open_agents_api.Prelude.{
  ℕ, ◌≡◌, ◌≤◌, refl, String, true, none, some, [], ◌∷◌, All, take, ok, err,
}
use cf_open_agents_api.Errors.Boundary.{other}
use cf_open_agents_api.Turns.State.{Checkpointed, Live, BatchStatus, RuntimeBatch}
use cf_open_agents_api.Turns.Children.{Ending, is_indeterminate}
use cf_open_agents_api.Turns.Complete.{complete}
use cf_open_agents_api.Turns.Ended.{QueuesEmpty, Opened}
use cf_open_agents_api.Reconcile.Tick.{World, PromiseDriver, is_current, row_there}
use cf_open_agents_api.Reconcile.Steps.{Deployment, TickOf, poll_wait}
use cf_open_agents_api.Reconcile.Rounds.{reconcile_turn, reconcile_tick}
use cf_open_agents_api.Reconcile.Moves.{FencedWrite, BoundedRequest, polls_of}
use cf_open_agents_api.Reconcile.Ticks.{tick_writes_fenced, tick_polls_bounded, tick_polls_counted}
use cf_open_agents_api.Reconcile.Late.{after_stop, late_turn_sealed}
use cf_open_agents_api.Tests.Turns.{execution, row, live, outside, made_at, turn}

abbrev shown : ℕ → String
shown n = "7"

-- A runtime that is busy: every poll is answered at once, with no event.
abbrev busy : RuntimeBatch
busy = record { events = []; status = BatchStatus.running; error = none }

abbrev checkpoint : Checkpointed
checkpoint = record { driver = "h"; revision = "1"; native = "n"; artifacts = [] }

-- Nothing confirms that it stops.
abbrev runtime : PromiseDriver
runtime = record {
  revision = "1";
  long_poll = true;
  start =
      λ id w. record { answer = ok tt; session_row = w.session_row; live = w.live; now = w.now };
  control =
      λ id c w. record { answer = ok tt; session_row = w.session_row; live = w.live; now = w.now };
  poll = λ after wait w. record {
    answer = ok busy;
    session_row = w.session_row;
    live = w.live;
    now = w.now;
  };
  checkpoint = λ w. record {
    answer = ok checkpoint;
    session_row = w.session_row;
    live = w.live;
    now = w.now;
  };
  stop =
      λ w. record { answer = err other; session_row = w.session_row; live = w.live; now = w.now };
}

abbrev host : Deployment
host = record {
  shown = shown;
  outside = λ w. outside;
  identifier = λ w. made_at;
  poll_interval_ms = 5000;
  driver_of = λ name. some runtime;
}

abbrev world : World
world = record {
  session_row = row_there;
  live = live;
  now = 50;
  armed = none;
  asked = [];
  writes = [];
}

tick_writes_fenced_example : All (FencedWrite execution) (reconcile_tick host world).1.writes
tick_writes_fenced_example = tick_writes_fenced host execution world refl refl

tick_polls_bounded_example : All (BoundedRequest execution 5050) (reconcile_tick host world).1.asked
tick_polls_bounded_example = tick_polls_bounded host execution world refl refl

tick_polls_counted_example : polls_of (reconcile_tick host world).1.asked ≤ 1001
tick_polls_counted_example = tick_polls_counted host execution world refl refl

abbrev tick : TickOf
tick = record { driver = runtime; execution = execution; budget_end = 5050 }

abbrev late : World
late = record world { now = 100 }

late_turn_sealed_example :
    (ended : Live) × (reconcile_turn host tick row late ≡ (
      ok tt,
      record (after_stop tick late) {
        live = ended;
        writes = record { row = row_there; before = live; after = ended } ∷ [];
      },
    ))
    × (complete outside execution Ending.failed (some "outcome_unknown") live ≡ ok ended)
    × QueuesEmpty ended
    × Opened outside true true row (take 100 live.queued_input) ended.stored
unfolding is_indeterminate is_current
late_turn_sealed_example = late_turn_sealed host tick row late refl refl refl refl refl (turn, refl)

-- A poll waits for the rest of the budget, less half a second, up to 25 seconds.
waits_for_budget :
    poll_wait (record tick { execution = record execution { deadline = 900000 } }) row 50 ≡ 4500
unfolding poll_wait
waits_for_budget = refl
