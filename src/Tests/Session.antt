-- ===== src/Tests/Session.antt =====
-- A session's record at concrete inputs.
use cf_open_agents_api.Prelude.{ℕ, ◌≡◌, Bool, true, false, Option, none, some, [], ◌∷◌, ok, refl}
use cf_open_agents_api.Session.Record.{
  AgentConfig, Phase, Execution, SessionStatus, AgentSession, EnvironmentRef, SessionRecord,
  SessionError, session_not_found, superseded, migrate, runs,
}
use cf_open_agents_api.Session.Tx.{
  EnvironmentStatus, pending, connected, Rows, Sizes, require_session, fenced,
}
use cf_open_agents_api.Session.Transitions.{Deleted, mark_deleted, purge_records, purge, publishes}
use cf_open_agents_api.Session.Fence.{fenced_is_current}
use cf_open_agents_api.Session.Deletion.{deletion_repeats}

abbrev Nothing : Type 0
Nothing = Unit {0}

abbrev Row : Type 0
Row = SessionRecord Nothing Nothing Nothing Nothing

abbrev config : AgentConfig Nothing
config = record { multi_agent = none; configured = tt }

abbrev turn : Execution Nothing Nothing
turn = record { session_id = "s"; turn_id = "t"; generation = 3; agent = config; carried = tt }

abbrev resource : AgentSession Nothing
resource = record {
  id = "s";
  status = SessionStatus.idle;
  environment = some (record { id = "e"; kind = "hosted" });
  error = none;
  published = tt;
}

abbrev idle_row : Row
idle_row = record {
  schema_version = some 2;
  session = resource;
  agent = config;
  generation = 3;
  phase = Phase.idle;
  execution = none;
  deleted = false;
  kept = tt;
}

abbrev active_row : Row
active_row = record idle_row { phase = Phase.running; execution = some turn }

abbrev small : Sizes Nothing Nothing Nothing Nothing
small = record {
  of_record = λ _. 500;
  of_tombstone = λ _. 20;
  of_environment = λ _. 20;
  of_event = λ _. 100;
}

abbrev rows_with : Row → Rows Nothing Nothing Nothing Nothing
rows_with r = record {
  session = some r;
  tombstone = none;
  environment = some EnvironmentStatus.failed;
  rest = "{}" ∷ [];
  events = [];
}

fenced_is_current_example :
    ((stored : Row) × (◌≡◌ {A = Option Row} (some active_row) (some stored))
      × (migrate stored ≡ ok active_row))
    × (◌≡◌ {A = Bool} false false)
    × (runs Phase.running ≡ true)
    × (◌≡◌ {A = ℕ} 3 3)
    × ((y : Execution Nothing Nothing) × (◌≡◌ {A = Option (Execution Nothing Nothing)}
          (some turn)
          (some y))
        × (y.generation ≡ 3)
        × (y.turn_id ≡ "t")
        × (y.session_id ≡ "s"))
unfolding fenced cf_open_agents_api.Session.Tx.and_then cf_open_agents_api.Session.Tx.session
    cf_open_agents_api.Session.Tx.stored_session cf_open_agents_api.Session.Tx.read_record migrate
    cf_open_agents_api.Session.Tx.admit_record cf_open_agents_api.Session.Record.is_valid
fenced_is_current_example = fenced_is_current small turn (rows_with active_row) active_row refl

abbrev answer : Deleted
answer = record { id = "s" }

deletion_repeats_example :
    let after = (purge_records small (mark_deleted small (rows_with idle_row)).1).1 in
    (after ≡ record (purge (rows_with idle_row)) { tombstone = some "s" })
    × (mark_deleted small after ≡ (ok answer, after))
    × (purge_records small after ≡ (ok true, after))
unfolding mark_deleted cf_open_agents_api.Session.Transitions.delete_stored
    cf_open_agents_api.Session.Tx.and_then migrate
    cf_open_agents_api.Session.Transitions.delete_record cf_open_agents_api.Session.Tx.save
    cf_open_agents_api.Session.Record.is_valid cf_open_agents_api.Session.Tx.put_session
    cf_open_agents_api.Session.Tx.write purge_records
    cf_open_agents_api.Session.Transitions.purge_as
deletion_repeats_example =
    deletion_repeats small idle_row (rows_with idle_row) answer refl refl refl
