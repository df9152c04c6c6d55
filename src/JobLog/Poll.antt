-- ===== src/JobLog/Poll.antt =====
-- lifecycle.ts, `page` and `poll`. What other fibers did to the log while `poll` waited is a
-- function of the state that `poll` found: the state that it reads again.
use cf_open_agents_api.Prelude.{
  ℕ, ◌+◌, String, not, ◌&&◌, ◌||◌, Option, none, some, List, [], ◌∷◌, length, take, drop, Result,
  ok, err, if◌then◌else◌, ltb,
}
use cf_open_agents_api.JobLog.Log.{Status, Outcome, failed, Logged, JobState, status_of, settled}

-- `RuntimeBatch`
pub record Batch (E : Type 0) : Type 0 where
  pub events : List (Logged E)
  pub cursor : ℕ
  pub status : Status
  pub error : Option String

pub data PollError : Type 0 where
  invalid_cursor : PollError

-- `events.at(-1)?.seq ?? after`
abbrev pub last_seq : {E : Type 0} → List (Logged E) → ℕ → ℕ
last_seq [] after = after
last_seq (x ∷ xs) after = last_seq xs x.seq

abbrev pub error_of : Outcome → Option String
error_of (failed error) = some error
error_of _ = none

abbrev pub page_limit : ℕ
page_limit = 128

module _ {E : Type 0} where
  -- `page(state, after)`
  unfoldable pub page : JobState E → ℕ → Batch E
  page s after =
      let events = take page_limit (drop after s.events) in
      record {
        events = events;
        cursor = last_seq events after;
        status =
            if ltb (after + length events) (length s.events)
            then Status.running
            else status_of s.outcome;
        error = error_of s.outcome;
      }

  -- `poll(after, wait)`, with the wait in milliseconds.
  unfoldable pub poll : ℕ → ℕ → (JobState E → JobState E) → JobState E → Result PollError (Batch E)
  poll after wait meanwhile s =
      if ltb (length s.events) after
      then err invalid_cursor
      else if not (ltb after (length s.events) || settled s.outcome) && ltb 0 wait
      then ok (page (meanwhile s) after)
      else ok (page s after)
