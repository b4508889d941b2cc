-- ===== src/Alert/Rules/Examples.antt =====
-- A snapshot with a low battery and a warm inverter.
use Prim.Native.String.{String, ◌++◌}
use jinko_exporter.Prelude.{
  ℕ, ◌+◌, ◌-◌, ◌≡◌, ◌≢◌, refl, true, false, not, ◌&&◌, List, [], ◌∷◌, ltb, leb, ◌==◌, if◌then◌else◌,
  none,
}
use jinko_exporter.Prelude.Int.{pos}
use jinko_exporter.Prelude.Text.{is_empty, trim_space, is_space}
use jinko_exporter.Model.{Metric, Snapshot}
use jinko_exporter.Alert.Manager.{Manager, Attempt, new_manager}
use jinko_exporter.Alert.Rules.{
  Scale, AlertConfig, Rule, present, soc_keys, grid_keys, temperature_keys, any_above, any_below,
  evaluate_battery_soc, evaluate_grid_down, evaluate_high_temperature, alert_identity,
  alarm_metric_active_key,
}
use jinko_exporter.Alert.Rules.Bands.{
  DecidedBy, all_above, any_at_least, is_some_there, decisions-DecidedBy,
}
use jinko_exporter.Alert.Rules.Keys.{Untouched, evaluate-keeps_others}

abbrev numbers : Scale ℕ
numbers = record {
  above = λ a b. ltb b a;
  at_least = λ a b. leb b a;
  below = λ a b. ltb a b;
  is_zero = λ a. a == 0;
  is_positive = λ a. ltb 0 a;
  plus_five = λ a. a + 5;
  minus_five = λ a. a - 5;
  at_most_100 = λ a. if ltb 100 a then 100 else a;
}

abbrev no_body : Rule → List (Metric ℕ) → String
no_body rule metrics = ""

abbrev config : AlertConfig ℕ
config = record {
  notify_recovery = true;
  grid_down_voltage_threshold = 50;
  battery_soc_low_threshold = 20;
  high_temperature_threshold = 60;
}

abbrev plain : String → ℕ → Metric ℕ
plain key value = record { group = "g"; key = key; name = "n"; unit = ""; value = value }

abbrev low_and_warm : Snapshot ℕ
low_and_warm = record {
  source = "modbus";
  device_sn = "SN1";
  parent_sn = "";
  device_id = "";
  site_id = "";
  collected_at = pos 0;
  metrics = plain "B_left_cap1" 15 ∷ plain "AC_T" 58 ∷ plain "G_V_L1" 230 ∷ [];
  meta = [];
  modbus_evidence = none;
}

decisions-DecidedBy_example :
    let socs = present low_and_warm.metrics soc_keys in
    let temperatures = present low_and_warm.metrics temperature_keys in
    let voltages = present low_and_warm.metrics grid_keys in
    let up = any_above numbers 50 voltages in
    DecidedBy true
      (not (all_above numbers 20 socs))
      (is_some_there numbers socs && not (any_below numbers 25 socs))
      (evaluate_battery_soc numbers no_body config low_and_warm)
    × DecidedBy true
        (any_at_least numbers 60 temperatures)
        (is_some_there numbers temperatures && not (any_above numbers 55 temperatures))
        (evaluate_high_temperature numbers no_body config low_and_warm)
    × DecidedBy true
        (is_some_there numbers voltages && not up)
        up
        (evaluate_grid_down numbers no_body config low_and_warm)
decisions-DecidedBy_example = decisions-DecidedBy numbers no_body config low_and_warm

abbrev fresh_manager : Manager
fresh_manager = new_manager true (pos 100)

abbrev prompt : ℕ → Attempt
prompt n = record { reserved_at = n; failed = false; finished_at = n + 1 }

-- Another inverter of the same source.
abbrev other_inverter : Snapshot ℕ
other_inverter = record low_and_warm { device_sn = "SN2 "; metrics = [] }

named : is_empty (trim_space low_and_warm.device_sn) ≡ false
unfolding trim_space is_space
named = refl

other_named : is_empty (trim_space other_inverter.device_sn) ≡ false
unfolding trim_space is_space
other_named = refl

serial_numbers_differ : trim_space low_and_warm.device_sn ≢ trim_space other_inverter.device_sn
unfolding trim_space is_space
serial_numbers_differ e = cc

evaluate-keeps_others_example :
    Untouched numbers no_body fresh_manager config low_and_warm prompt
      ("grid_down_" ++ alert_identity other_inverter)
    × Untouched numbers no_body fresh_manager config low_and_warm prompt
        ("battery_soc_low_" ++ alert_identity other_inverter)
    × Untouched numbers no_body fresh_manager config low_and_warm prompt
        ("high_temperature_" ++ alert_identity other_inverter)
    × Untouched numbers no_body fresh_manager config low_and_warm prompt
        (alarm_metric_active_key other_inverter)
evaluate-keeps_others_example =
    evaluate-keeps_others numbers no_body fresh_manager config low_and_warm prompt other_inverter
      named other_named serial_numbers_differ
