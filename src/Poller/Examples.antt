-- ===== src/Poller/Examples.antt =====
-- A run with a failed poll and a good one.
use mathlib.Core.List.{Memᴰ}
use jinko_exporter.Prelude.{ℕ, ◌+◌, ◌≤◌, ◌≡◌, refl, List, [], ◌∷◌, some, none, true, arith}
use jinko_exporter.Prelude.Int.{pos, pos_part, ltb_ℤ}
use jinko_exporter.Model.{Snapshot}
use jinko_exporter.Poller.{
  State, failed, fetched, Poll, new_state, ready, record_success, record_failure, poll_once, run,
}
use jinko_exporter.Poller.Readiness.{IsShownBy, ready_shows_recent_poll, successful_poll_ready}

abbrev shown : Snapshot ℕ
shown = record {
  source = "modbus";
  device_sn = "SN1";
  parent_sn = "";
  device_id = "";
  site_id = "";
  collected_at = pos 40;
  metrics = [];
  meta = [];
  modbus_evidence = none;
}

abbrev bad : Poll ℕ
bad = record { polled = failed "timeout"; duration = 5; finished_at = 20 }

abbrev good : Poll ℕ
good = record { polled = fetched shown none; duration = 7; finished_at = 50 }

abbrev polls : List (Poll ℕ)
polls = bad ∷ good ∷ []

abbrev shown_state : State ℕ
shown_state = record {
  source_name = "modbus";
  snapshot = some shown;
  last_poll_duration = 7;
  last_error = "";
  last_success_at = some (pos 40);
  last_poll_success_at = some 50;
  up = true;
  success_count = 1;
  error_count = 1;
}

runs : run (new_state "modbus") polls ≡ some shown_state
unfolding run poll_once new_state record_success record_failure
runs = refl

is_ready : ready shown_state (pos 100) 120 ≡ true
unfolding ready
is_ready = refl

ready_shows_recent_poll_example :
    (shown_state.last_error ≡ "")
    × ((p : Poll ℕ) × Memᴰ p polls
        × IsShownBy shown_state p
        × (ltb_ℤ (pos 0) (pos 100) ≡ true → 120 ≤ p.finished_at + pos_part (pos 100)))
ready_shows_recent_poll_example =
    ready_shows_recent_poll "modbus" polls shown_state (pos 100) 120 runs is_ready

young : ltb_ℤ (pos 0) (pos 100) ≡ true → 120 ≤ good.finished_at + pos_part (pos 100)
young on = omega arith

successful_poll_ready_example :
    (s' : State ℕ) × (poll_once (new_state "modbus") good ≡ some s')
    × (ready s' (pos 100) 120 ≡ true)
successful_poll_ready_example =
    successful_poll_ready (new_state "modbus") good shown (pos 100) 120 refl young
