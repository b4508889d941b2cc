-- ===== src/Modbus/Client/Metrics.antt =====
-- client.go: the metrics of a fetch, in the order in which they are published.
use Prim.Native.String.{String, ◌++◌}
use jinko_exporter.Prelude.{ℕ, ◌+◌, none, some, List, [], ◌∷◌, get_or, Result, ok, err}
use mathlib.Core.List.{◌++◌ as append}
use jinko_exporter.Prelude.Digits.{decimal}
use jinko_exporter.Prelude.Int.{ℤ, pos}
use jinko_exporter.Model.{Metric}
use jinko_exporter.Jinko.Schema.Lookup.{canonicalize_metric}
use jinko_exporter.Modbus.Decode.Words.{MetricValue, word_at, units}
use jinko_exporter.Modbus.Client.Program.{FetchError, no_definition}
use jinko_exporter.Modbus.Client.Readings.{Readings}

abbrev pub value_at : List ℤ → ℕ → ℤ
value_at values i = get_or values i (pos 0)

abbrev pub reading : String → ℤ → MetricValue
reading key value = record { key = key; value = value }

unfoldable pub fixed_values : ℤ → Readings → List MetricValue
fixed_values rated_power_w r =
    reading "Pr1" (rated_power_w)
    ∷ reading "UPS_P" (value_at r.load.ups_powers 3)
    ∷ reading "C_P_L1" (value_at r.load.ups_powers 0)
    ∷ reading "C_P_L2" (value_at r.load.ups_powers 1)
    ∷ reading "C_P_L3" (value_at r.load.ups_powers 2)
    ∷ reading "C_V_L1" (value_at r.load.voltages 0)
    ∷ reading "C_V_L2" (value_at r.load.voltages 1)
    ∷ reading "C_V_L3" (value_at r.load.voltages 2)
    ∷ reading "L_F" (r.load.frequency)
    ∷ reading "LPP_A" (value_at r.load.direct_powers.phases_w 0)
    ∷ reading "LPP_B" (value_at r.load.direct_powers.phases_w 1)
    ∷ reading "LPP_C" (value_at r.load.direct_powers.phases_w 2)
    ∷ reading "E_Puse_t1" (r.load.direct_powers.total_w)
    ∷ reading "G_V_L1" (value_at r.grid.voltages 0)
    ∷ reading "G_V_L2" (value_at r.grid.voltages 1)
    ∷ reading "G_V_L3" (value_at r.grid.voltages 2)
    ∷ reading "PG_F1" (r.currents.frequency_currents.frequency_hz)
    ∷ reading "G_C_L1" (value_at r.currents.frequency_currents.currents 0)
    ∷ reading "G_C_L2" (value_at r.currents.frequency_currents.currents 1)
    ∷ reading "G_C_L3" (value_at r.currents.frequency_currents.currents 2)
    ∷ reading "G_P_L1" (value_at r.grid.powers 0)
    ∷ reading "G_P_L2" (value_at r.grid.powers 1)
    ∷ reading "G_P_L3" (value_at r.grid.powers 2)
    ∷ reading "PG_Pt1" (value_at r.grid.powers 3)
    ∷ reading "CT1_P_E" (value_at r.currents.external_ct.powers_w 0)
    ∷ reading "CT2_P_E" (value_at r.currents.external_ct.powers_w 1)
    ∷ reading "CT3_P_E" (value_at r.currents.external_ct.powers_w 2)
    ∷ reading "CT_T_E" (value_at r.currents.external_ct.powers_w 3)
    ∷ reading "GS_A" (value_at r.currents.internal_powers 0)
    ∷ reading "GS_B" (value_at r.currents.internal_powers 1)
    ∷ reading "GS_C" (value_at r.currents.internal_powers 2)
    ∷ reading "GS_T" (value_at r.currents.internal_powers 3)
    ∷ reading "AV1" (value_at r.grid.output.voltages 0)
    ∷ reading "AV2" (value_at r.grid.output.voltages 1)
    ∷ reading "AV3" (value_at r.grid.output.voltages 2)
    ∷ reading "AC1" (value_at r.grid.output.currents 0)
    ∷ reading "AC2" (value_at r.grid.output.currents 1)
    ∷ reading "AC3" (value_at r.grid.output.currents 2)
    ∷ reading "A_Fo1" (r.grid.output.frequency_hz)
    ∷ reading "INV_O_P_L1" (value_at r.grid.output_powers 0)
    ∷ reading "INV_O_P_L2" (value_at r.grid.output_powers 1)
    ∷ reading "INV_O_P_L3" (value_at r.grid.output_powers 2)
    ∷ reading "INV_O_P_T" (value_at r.grid.output_powers 3)
    ∷ reading "DP1" (r.battery.pv.powers_w.0)
    ∷ reading "DP2" (r.battery.pv.powers_w.1)
    ∷ reading "DV1" (r.battery.pv.voltages_v.0)
    ∷ reading "DC1" (r.battery.pv.currents_a.0)
    ∷ reading "DV2" (r.battery.pv.voltages_v.1)
    ∷ reading "DC2" (r.battery.pv.currents_a.1)
    ∷ reading "S_P_T" (r.battery.pv.total_power_w)
    ∷ reading "T_DC" (r.battery.inverter_temperatures.0)
    ∷ reading "AC_T" (r.battery.inverter_temperatures.1)
    ∷ reading "B_T1" (r.battery.temperature)
    ∷ reading "B_V1" (r.battery.voltage_soc.0)
    ∷ reading "B_left_cap1" (r.battery.voltage_soc.1)
    ∷ reading "B_P1" (r.battery.flow.0)
    ∷ reading "B_C1" (r.battery.flow.1)
    ∷ reading "AC" (units r.status.switch_relay.1)
    ∷ []

unfoldable pub metric_values : ℤ → Readings → List MetricValue
unfolding fixed_values
metric_values rated_power_w r = append (fixed_values rated_power_w r) (
    append r.battery.bms
      (append r.battery.energy (append r.generator.energy r.generator.electrical)))

unfoldable pub canonical_metric : String → ℤ → Result FetchError (Metric ℤ)
canonical_metric key value =
    elim (canonicalize_metric
      (record { group = ""; key = key; name = ""; unit = ""; value = value })) [
        | none ↦ err no_definition
        | some m ↦ ok m
      ]

-- The loop over `metricValues`.
unfoldable pub canonical_metrics : List MetricValue → Result FetchError (List (Metric ℤ))
canonical_metrics [] = ok []
canonical_metrics (item ∷ items) =
    let rest = canonical_metrics items in
    elim (canonical_metric item.key item.value) [
      | err e ↦ err e
      | ok m ↦ elim rest [ err e ↦ err e | ok ms ↦ ok (m ∷ ms) ]
    ]

unfoldable pub external_ct_metrics : ℕ → List ℤ → List (Metric ℤ)
external_ct_metrics index [] = []
external_ct_metrics index (value ∷ values) =
    record {
      group = "grid";
      key =
          "JINKO_MODBUS_R"
          ++ decimal (613 + index)
          ++ "_EXTERNAL_CT_L"
          ++ decimal (index + 1)
          ++ "_CURRENT";
      name = "External CT Current L" ++ decimal (index + 1);
      unit = "A";
      value = value;
    }
    ∷ external_ct_metrics (index + 1) values

abbrev pub alert_word : String → String → ℕ → Metric ℤ
alert_word key name value = record {
  group = "alert";
  key = key;
  name = name;
  unit = "";
  value = units value;
}

unfoldable pub modbus_warning_fault_metrics : List ℕ → List (Metric ℤ)
modbus_warning_fault_metrics values =
    alert_word "DEYE_MODBUS_R553_WARNING_WORD_1_RAW" "Deye Inverter Warning Word 1 (Raw U16)"
      (word_at values 0)
    ∷ alert_word "DEYE_MODBUS_R554_WARNING_WORD_2_RAW" "Deye Inverter Warning Word 2 (Raw U16)"
        (word_at values 1)
    ∷ alert_word "DEYE_MODBUS_R555_FAULT_WORD_1_RAW" "Deye Inverter Fault Word 1 (Raw U16)"
        (word_at values 2)
    ∷ alert_word "DEYE_MODBUS_R556_FAULT_WORD_2_RAW" "Deye Inverter Fault Word 2 (Raw U16)"
        (word_at values 3)
    ∷ alert_word "DEYE_MODBUS_R557_FAULT_WORD_3_RAW" "Deye Inverter Fault Word 3 (Raw U16)"
        (word_at values 4)
    ∷ alert_word "DEYE_MODBUS_R558_FAULT_WORD_4_RAW" "Deye Inverter Fault Word 4 (Raw U16)"
        (word_at values 5)
    ∷ []

unfoldable pub status_metrics : ℕ → ℕ → List (Metric ℤ)
status_metrics power_switch_state run_state =
    record {
      group = "status";
      key = "DEYE_MODBUS_R551_POWER_SWITCH_STATE";
      name = "Deye Inverter Power Switch State";
      unit = "";
      value = units power_switch_state;
    }
    ∷ record {
      group = "status";
      key = "DEYE_MODBUS_R500_RUN_STATE";
      name = "Deye Inverter Run State Code";
      unit = "";
      value = units run_state;
    }
    ∷ []

unfoldable pub snapshot_metrics : ℤ → Readings → Result FetchError (List (Metric ℤ))
unfolding metric_values canonical_metrics external_ct_metrics modbus_warning_fault_metrics
    status_metrics
snapshot_metrics rated_power_w r = elim (canonical_metrics (metric_values rated_power_w r)) [
  | err e ↦ err e
  | ok ms ↦ ok (
      append ms (
        append (external_ct_metrics 0 r.currents.external_ct.currents_a) (
          append (modbus_warning_fault_metrics r.status.alert_words)
            (status_metrics r.status.switch_relay.0 r.status.run_state))))
]
