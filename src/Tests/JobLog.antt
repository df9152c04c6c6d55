-- ===== src/Tests/JobLog.antt =====
-- The log of a job at concrete inputs: an event's name is its payload, and its length its bytes.
use cf_open_agents_api.Prelude.{
  ℕ, ◌≡◌, ◌≢◌, ◌++◌, ◌+◌, eq_iff, String, true, false, List, [], ◌∷◌, Result, ok, err, drop, refl,
  arith, inl,
}
use cf_open_agents_api.JobLog.Log.{
  Outcome, JobState, Logged, Progress, sets, closes, emits, calls, new_log,
}
use cf_open_agents_api.JobLog.Kept.{IsLog, calls-IsLog, cancelling_never_completes}
use cf_open_agents_api.JobLog.Paging.{Round, Reading, follow, follow_complete}
use cf_open_agents_api.JobLog.Operations.{
  Operations, perform, performs, replays, idempotency_conflict,
}

abbrev size : ℕ → ℕ
size event = event

abbrev empty_log : JobState ℕ
empty_log = new_log

abbrev one_event : List (Logged ℕ)
one_event = record { seq = 1; event = 7 } ∷ []

abbrev done_log : JobState ℕ
done_log = record {
  outcome = Outcome.completed;
  cancelling = false;
  closing = false;
  events = one_event;
  bytes = 7;
}

abbrev cancelling_log : JobState ℕ
cancelling_log = record empty_log { cancelling = true }

empty-IsLog : IsLog size empty_log
empty-IsLog = record { numbered = tt; counted = refl; bounded = omega arith; sealed = inl refl }

done-IsLog : IsLog size done_log
done-IsLog = record {
  numbered = (refl, tt);
  counted = refl;
  bounded = omega arith;
  sealed = inl refl;
}

calls-IsLog_example : IsLog size (calls size (emits 7 ∷ closes ∷ emits 8 ∷ []) empty_log)
calls-IsLog_example = calls-IsLog size (emits 7 ∷ closes ∷ emits 8 ∷ []) empty_log empty-IsLog

cancelling_never_completes_example :
    (calls size (sets Progress.completed ∷ []) cancelling_log).outcome ≢ Outcome.completed
cancelling_never_completes_example =
    cancelling_never_completes size (sets Progress.completed ∷ []) cancelling_log refl (λ e. cc e)

abbrev rounds : List (Round ℕ)
rounds =
    record { before = emits 7 ∷ []; wait = 0; meanwhile = emits 8 ∷ [] }
    ∷ record { before = []; wait = 100; meanwhile = closes ∷ [] }
    ∷ []

follow_complete_example :
    (r : Reading ℕ) × (follow size rounds empty_log 0 ≡ ok r)
    × (r.events ++ drop r.cursor r.log.events ≡ r.log.events)
follow_complete_example = follow_complete size rounds

abbrev failing_write : ℕ → Result String (Unit {0}) × ℕ
failing_write n = (err "lost", n + 1)

abbrev other_write : ℕ → Result String (Unit {0}) × ℕ
other_write n = (ok tt, n + 10)

abbrev no_operations : Operations String ℕ
no_operations = record { entries = []; outside = 0 }

replays_example :
    let first = perform "op" "{}" failing_write no_operations in
    let later = performs [] first.1 in
    (perform "op" "{}" other_write later ≡ (first.0, later))
    × (perform "op" "[]" other_write later ≡ (err idempotency_conflict, later))
replays_example =
    replays "op" "{}" "[]" failing_write other_write [] no_operations refl
      (λ e. cc ((eq_iff "{}" "[]").1 e))
