-- ===== src/HomeAssistant/Examples.antt =====
-- An inverter and one meter that is observed on its own.
use Prim.Native.String.{String}
use jinko_exporter.Prelude.{ℕ, ◌≡◌, refl, true, false, none, some, List, [], ◌∷◌}
use jinko_exporter.Prelude.Int.{pos}
use jinko_exporter.Model.{Metric, Snapshot}
use jinko_exporter.Prelude.Text.{trim_space, is_space}
use jinko_exporter.HomeAssistant.Ids.{is_group, same_codes, fold_codes}
use jinko_exporter.HomeAssistant.Streams.{
  Publisher, Stream, cached, not_cached, load_meter, combined, filter, while_up, is_own_meta,
  grid_meter_metadata, not_owned, independent_meters,
}
use jinko_exporter.HomeAssistant.Streams.Calls.{
  ObserverCall, Writes, inverter_polled, inverter_failed, meter_polled, handle_all, all_in_group,
  handle, inverter_success, inverter_failure, meter_success,
}
use jinko_exporter.HomeAssistant.Streams.Combined.{in_group, metrics_of, meta_of}
use jinko_exporter.HomeAssistant.Streams.Combined.Parts.{combined_exactly}
use jinko_exporter.HomeAssistant.Streams.Sound.{IsSound}
use jinko_exporter.HomeAssistant.Streams.Sound.Runs.{handle_all-IsSound}

abbrev reading : String → String → Metric ℕ
reading group key = record { group = group; key = key; name = key; unit = "W"; value = 500 }

abbrev snapshot_of : String → List (Metric ℕ) → List (String × String) → Snapshot ℕ
snapshot_of source metrics meta = record {
  source = source;
  device_sn = "SN1";
  parent_sn = "";
  device_id = "";
  site_id = "";
  collected_at = pos 40;
  metrics = metrics;
  meta = meta;
  modbus_evidence = none;
}

abbrev inverter_reading : Snapshot ℕ
inverter_reading =
    snapshot_of "modbus" (reading "pv" "pv1" ∷ reading "Grid_Load" "old" ∷ [])
      (("shelly_grid_load_url", "old") ∷ ("model", "JKS") ∷ [])

abbrev meter_reading : Snapshot ℕ
meter_reading =
    snapshot_of "shelly_grid_load" (reading "grid_load" "l1_power" ∷ [])
      (("shelly_grid_load_url", "http://meter") ∷ [])

abbrev not_yet : Stream ℕ
not_yet = record { snapshot = none; up = false; published_at = "" }

abbrev start : Publisher ℕ
start = record {
  primary_source = "modbus";
  closing = false;
  closed = false;
  online = false;
  offline_publish_pending = false;
  independent_grid_load = true;
  independent_grid_input = false;
  inverter = not_yet;
  inverter_duration = pos 0;
  grid_load = not_yet;
  grid_input = not_yet;
  cached_state = none;
}

abbrev both_up : Publisher ℕ
both_up = record start {
  inverter = record { snapshot = some inverter_reading; up = true; published_at = "10:00" };
  grid_load = record { snapshot = some meter_reading; up = true; published_at = "10:01" };
}

abbrev writes : Writes
writes = record { duration = pos 3; now = "10:00"; attempt = cached none; write_failed = false }

abbrev broken : Writes
broken = record writes { attempt = not_cached 5; write_failed = true }

abbrev day : List (ObserverCall ℕ)
day =
    inverter_polled (some inverter_reading) writes
    ∷ meter_polled load_meter (some meter_reading) broken
    ∷ meter_polled load_meter (some inverter_reading) writes
    ∷ meter_polled load_meter (some meter_reading) writes
    ∷ inverter_failed writes
    ∷ []

start-IsSound : IsSound start
unfolding independent_meters all_in_group
start-IsSound = record {
  apart = record { independent = refl; own_load = refl; own_input = refl };
  lit = λ on. absurd (cc on);
}

handle_all-IsSound_example : IsSound (handle_all start day)
handle_all-IsSound_example = handle_all-IsSound start day start-IsSound

meter_reading-own : all_in_group "grid_load" meter_reading.metrics ≡ true
unfolding all_in_group is_group same_codes fold_codes trim_space is_space
meter_reading-own = refl

no_metrics-own : all_in_group {V = ℕ} "grid_input" [] ≡ true
unfolding all_in_group
no_metrics-own = refl

combined_exactly_example :
    (filter (in_group "grid_load") (combined both_up).metrics
      ≡ metrics_of (while_up true both_up.grid_load))
    × (filter (is_own_meta "grid_load") (combined both_up).meta
        ≡ grid_meter_metadata (meta_of (while_up true both_up.grid_load)) "grid_load")
    × (filter (not_owned both_up) (combined both_up).metrics
        ≡ filter (not_owned both_up) (metrics_of (while_up true both_up.inverter)))
combined_exactly_example = combined_exactly both_up load_meter refl meter_reading-own no_metrics-own

ends_online :
    ((handle_all start day).online ≡ true)
    × ((handle_all start day).inverter.up ≡ false)
    × ((handle_all start day).grid_load.snapshot ≡ some meter_reading)
unfolding handle_all handle inverter_success inverter_failure meter_success independent_meters
    all_in_group is_group same_codes fold_codes trim_space is_space
ends_online = (refl, refl, refl)
