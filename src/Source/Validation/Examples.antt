-- ===== src/Source/Validation/Examples.antt =====
-- One capture of a published snapshot.
use jinko_exporter.Prelude.{◌≤◌, ◌≡◌, [], ◌∷◌, length, some}
use jinko_exporter.Prelude.Int.{ℤ, pos}
use jinko_exporter.Model.{ModbusEvidence, ModbusReadWindow, Snapshot}
use jinko_exporter.Modbus.Client.Metrics.{modbus_warning_fault_metrics}
use jinko_exporter.Source.Validation.{new_observer, observe_all}
use jinko_exporter.Source.Validation.Budget.{capture_indexes, count_from, records_bounded}

abbrev window : ℤ → ℤ → ModbusReadWindow
window started_at finished_at = record { started_at = started_at; finished_at = finished_at }

abbrev evidence : ModbusEvidence
evidence = record {
  started_at = pos 1000;
  finished_at = pos 2000;
  bms_words = 0 ∷ 7 ∷ 0 ∷ 0 ∷ 0 ∷ 0 ∷ 0 ∷ 0 ∷ 65535 ∷ [];
  bms_window = window (pos 1000) (pos 1100);
  relay_words = 0 ∷ 1 ∷ [];
  relay_window = window (pos 1100) (pos 1200);
  alert_words = 0 ∷ 0 ∷ 4 ∷ 0 ∷ 0 ∷ 0 ∷ [];
  alert_window = window (pos 1300) (pos 1400);
  run_state = 2;
  run_state_window = window (pos 1400) (pos 1500);
}

abbrev captured : Snapshot ℤ
captured = record {
  source = "modbus";
  device_sn = "SN1";
  parent_sn = "";
  device_id = "";
  site_id = "";
  collected_at = pos 2000;
  metrics = modbus_warning_fault_metrics (0 ∷ 0 ∷ 4 ∷ 0 ∷ 0 ∷ 0 ∷ []);
  meta = [];
  modbus_evidence = some evidence;
}

records_bounded_example :
    let records = (observe_all new_observer ((pos 5, captured) ∷ (pos 9, captured) ∷ [])).1 in
    (capture_indexes records ≡ count_from 1 (length records)) × (length records ≤ 73)
records_bounded_example = records_bounded ((pos 5, captured) ∷ (pos 9, captured) ∷ [])
