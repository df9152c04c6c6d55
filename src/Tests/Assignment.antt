-- ===== src/Tests/Assignment.antt =====
-- Starts of turns at concrete inputs.
use cf_open_agents_api.Prelude.{
  ◌≡◌, ◌≢◌, ◌<◌, ◌≤◌, ◌↔◌, ◌⊎◌, true, false, some, [], ok, err, string_eq,
}
use cf_open_agents_api.Assignment.{
  Start, Assigned, superseded_start, already_dispatched, new_start, start_admission,
  admission_exactly,
}

abbrev restart : Start
restart = record {
  session_id = "s";
  turn_id = "t2";
  generation = 2;
  harness = "codex";
  checkpoint = some (record { driver = "codex"; revision = "0.154.0" });
}

abbrev earlier : Assigned
earlier = record {
  session_id = "s";
  turn_id = "t1";
  generation = 1;
  dispatched = true;
  model = "m";
  tiers = [];
}

admission_exactly_example :
    ((start_admission restart (some earlier) ≡ err superseded_start) ↔ (
      (2 < 1) ⊎ ((restart.generation ≡ earlier.generation) × (restart.turn_id ≢ earlier.turn_id))))
    × ((start_admission restart (some earlier) ≡ ok already_dispatched)
        ↔ ((restart.turn_id ≡ earlier.turn_id) × (earlier.dispatched ≡ true) × (1 ≤ 2)))
    × ((start_admission restart (some earlier) ≡ ok new_start) ↔ (
        (restart.session_id ≡ earlier.session_id)
        × ((1 < 2)
            ⊎ ((earlier.generation ≡ restart.generation) × (restart.turn_id ≡ earlier.turn_id)))
        × ((restart.turn_id ≢ earlier.turn_id) ⊎ (earlier.dispatched ≡ false))))
admission_exactly_example = admission_exactly restart earlier
