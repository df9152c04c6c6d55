-- ===== src/Session/Environment.antt =====
-- session-state.ts, `applyEnvironmentStatus`: which statuses are published, and in what order.
use cf_open_agents_api.Prelude.{
  ◌≡◌, ◌↔◌, true, false, Option, none, some, List, [], ◌∷◌, ok, refl, ap, ◌∙◌,
}
use cf_open_agents_api.Session.Record.{SessionRecord, EnvironmentRef}
use cf_open_agents_api.Session.Tx.{
  EnvironmentStatus, pending, connected, disconnected, failed, Rows, Sizes, require_session,
  transaction,
}
use cf_open_agents_api.Session.Fence.{and_then_ok}
use cf_open_agents_api.Session.Transitions.{publishes, apply_to, apply_environment_status}

-- What may follow what: a setup starts or settles at once, a pending one settles, a connected and a
-- disconnected environment change places, and each can fail; nothing follows a failure.
pub data Follows : Option EnvironmentStatus → EnvironmentStatus → Type 0 where
  starts : Follows none pending
  connects_at_once : Follows none connected
  fails_at_once : Follows none failed
  connects : Follows (some pending) connected
  disconnects : Follows (some connected) disconnected
  reconnects : Follows (some disconnected) connected
  fails_pending : Follows (some pending) failed
  fails_connected : Follows (some connected) failed
  fails_disconnected : Follows (some disconnected) failed

publishes-Follows :
    (current : Option EnvironmentStatus) (status : EnvironmentStatus)
    → publishes current status ≡ true
    → Follows current status
unfolding publishes
publishes-Follows none pending h = starts
publishes-Follows none connected h = connects_at_once
publishes-Follows none disconnected h = cc
publishes-Follows none failed h = fails_at_once
publishes-Follows (some pending) pending h = cc
publishes-Follows (some pending) connected h = connects
publishes-Follows (some pending) disconnected h = cc
publishes-Follows (some pending) failed h = fails_pending
publishes-Follows (some connected) pending h = cc
publishes-Follows (some connected) connected h = cc
publishes-Follows (some connected) disconnected h = disconnects
publishes-Follows (some connected) failed h = fails_connected
publishes-Follows (some disconnected) pending h = cc
publishes-Follows (some disconnected) connected h = reconnects
publishes-Follows (some disconnected) disconnected h = cc
publishes-Follows (some disconnected) failed h = fails_disconnected
publishes-Follows (some failed) pending h = cc
publishes-Follows (some failed) connected h = cc
publishes-Follows (some failed) disconnected h = cc
publishes-Follows (some failed) failed h = cc

Follows-publishes :
    {current : Option EnvironmentStatus} {status : EnvironmentStatus}
    → Follows current status
    → publishes current status ≡ true
unfolding publishes
Follows-publishes starts = refl
Follows-publishes connects_at_once = refl
Follows-publishes fails_at_once = refl
Follows-publishes connects = refl
Follows-publishes disconnects = refl
Follows-publishes reconnects = refl
Follows-publishes fails_pending = refl
Follows-publishes fails_connected = refl
Follows-publishes fails_disconnected = refl

-- The guards publish exactly the statuses that may follow the current one.
pub publishes_exactly :
    (current : Option EnvironmentStatus) (status : EnvironmentStatus)
    → (publishes current status ≡ true) ↔ Follows current status
publishes_exactly current status =
    (λ h. publishes-Follows current status h, λ f. Follows-publishes f)

failed_publishes_none : (status : EnvironmentStatus) → publishes (some failed) status ≡ false
unfolding publishes
failed_publishes_none pending = refl
failed_publishes_none connected = refl
failed_publishes_none disconnected = refl
failed_publishes_none failed = refl

module _ {R X E S : Type 0} (sizes : Sizes R X E S) where
  -- The calls of a sequence of reported statuses, each in its own transaction.
  unfoldable pub report : List EnvironmentStatus → Rows R X E S → Rows R X E S
  report [] s = s
  report (status ∷ rest) s = report rest (transaction (apply_environment_status sizes status) s).1

  apply_to_failed :
      (r : SessionRecord R X E S) (environment : Option EnvironmentRef) (status : EnvironmentStatus)
      (s : Rows R X E S)
      → s.environment ≡ some failed
      → apply_to sizes r environment status s ≡ (ok tt, s)
  unfolding apply_to
  apply_to_failed r none status s h = refl
  apply_to_failed r (some environment) status s h =
      let quiet : publishes s.environment status ≡ false =
        ap (λ o. publishes o status) h ∙ failed_publishes_none status in
      rw quiet refl

  apply_failed :
      (r : SessionRecord R X E S) (status : EnvironmentStatus) (s : Rows R X E S)
      → require_session sizes s ≡ (ok r, s)
      → s.environment ≡ some failed
      → apply_environment_status sizes status s ≡ (ok tt, s)
  unfolding apply_environment_status
  apply_failed r status s found h =
      and_then_ok (require_session sizes) _ s s r found
      ∙ apply_to_failed r r.session.environment status s h

  -- Once the setup of an environment failed, no sequence of reported statuses changes any row of
  -- the session, its events included.
  pub failed_environment_stays :
      (statuses : List EnvironmentStatus) (r : SessionRecord R X E S) (s : Rows R X E S)
      → require_session sizes s ≡ (ok r, s)
      → s.environment ≡ some failed
      → report statuses s ≡ s
  unfolding report transaction
  failed_environment_stays [] r s found h = refl
  failed_environment_stays (status ∷ rest) r s found h =
      ap (λ z. report rest (transaction (λ _. z) s).1) (apply_failed r status s found h)
      ∙ failed_environment_stays rest r s found h
