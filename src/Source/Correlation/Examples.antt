-- ===== src/Source/Correlation/Examples.antt =====
-- An active alert, the two clouds, and the calls of one gate.
use Prim.Native.String.{String}
use jinko_exporter.Prelude.{
  ℕ, ◌≤◌, ◌≡◌, refl, true, false, Bool, Option, none, some, List, [], ◌∷◌, All, length, Result, ok,
  err, inl, arith,
}
use jinko_exporter.Prelude.Int.{ℤ, pos}
use jinko_exporter.Model.{Metric, Snapshot}
use jinko_exporter.Modbus.Client.Program.{FetchError}
use jinko_exporter.Modbus.Client.Readings.{Readings}
use jinko_exporter.Modbus.Client.Metrics.{canonical_metric, snapshot_metrics}
use jinko_exporter.Prelude.Text.{trim_space, is_space, lower_codes}
use jinko_exporter.Jinko.Schema.Lookup.{
  canonicalize_metric, lookup_metric_definition, look_up, find_definition, build_metric_index,
}
use jinko_exporter.Source.Priority.{equal_codes}
use jinko_exporter.Source.Correlation.Signature.{modbus_alert_signature_from_snapshot}
use jinko_exporter.Source.Correlation.Worker.{
  observes, starts, takes, ends, run_worker, new_worker, WorkerEvent, clone_ordinary_metric_keys,
}
use jinko_exporter.Source.Correlation.Worker.Queue.{IsCoherent, run-IsCoherent, new-IsCoherent}
use jinko_exporter.Source.Correlation.Gate.{
  World, Reachable, started, stepped, normal_enters, diagnostic_takes, start, with_call,
  take_diagnostic, waiting, fetching, at_phase, new_call,
}
use jinko_exporter.Source.Correlation.Gate.Turns.{IsOrdered, LetsNormalFirst, gate-IsOrdered}
use jinko_exporter.Source.Correlation.Evidence.{
  Values, CorrelationMetric, FetchFault, fetch_alert_correlation_evidence,
  max_correlation_evidence_metrics,
}
use jinko_exporter.Source.Correlation.Evidence.Labels.{IsShareable, evidence-AreShareable}
use jinko_exporter.Source.Correlation.Published.{published_signature}

abbrev calm_readings : Readings
calm_readings = record {
  generator = record { energy = []; electrical = [] };
  load = record {
    voltages = [];
    ups_powers = [];
    frequency = pos 5000;
    direct_powers = record { phases_w = []; total_w = pos 0 };
  };
  grid = record {
    voltages = [];
    powers = [];
    output = record { voltages = []; currents = []; frequency_hz = pos 5000 };
    output_powers = [];
  };
  battery = record {
    pv = record {
      powers_w = (pos 0, pos 0);
      voltages_v = (pos 0, pos 0);
      currents_a = (pos 0, pos 0);
      total_power_w = pos 0;
    };
    inverter_temperatures = (pos 4000, pos 4100);
    temperature = pos 2500;
    voltage_soc = (pos 5200, pos 8000);
    flow = (pos 0, pos 0);
    bms_words = [];
    bms = [];
    energy = [];
  };
  status = record {
    relay_words = [];
    switch_relay = (1, 2);
    alert_words = 0 ∷ 0 ∷ 4 ∷ 0 ∷ 0 ∷ 65535 ∷ [];
    run_state_words = [];
    run_state = 2;
  };
  currents = record {
    frequency_currents = record { frequency_hz = pos 5000; currents = [] };
    external_ct = record { currents_a = pos 0 ∷ pos 0 ∷ pos 0 ∷ []; powers_w = [] };
    internal_powers = [];
  };
}

abbrev made_of : Result FetchError (List (Metric ℤ)) → List (Metric ℤ)
made_of (err e) = []
made_of (ok ms) = ms

abbrev snapshot_of : String → List (Metric ℤ) → Snapshot ℤ
snapshot_of source metrics = record {
  source = source;
  device_sn = "SN1";
  parent_sn = "";
  device_id = "";
  site_id = "";
  collected_at = pos 1700000000000000000;
  metrics = metrics;
  meta = [];
  modbus_evidence = none;
}

abbrev published : Snapshot ℤ
published = snapshot_of "modbus" (made_of (snapshot_metrics (pos 1200000) calm_readings))

calm-made : snapshot_metrics (pos 1200000) calm_readings ≡ ok published.metrics
unfolding snapshot_metrics canonical_metric canonicalize_metric lookup_metric_definition look_up
    find_definition build_metric_index lower_codes equal_codes trim_space is_space
calm-made = refl

published_signature_example :
    modbus_alert_signature_from_snapshot published
    ≡ ok (record { values = 0 ∷ 0 ∷ 4 ∷ 0 ∷ 0 ∷ 65535 ∷ [] })
published_signature_example =
    published_signature (pos 1200000) calm_readings published (pos 0) (pos 0) (pos 0) 0 0 4 0 0
      65535 calm-made refl refl refl
      (omega arith, (omega arith, (omega arith, (omega arith, (omega arith, (omega arith, tt))))))

abbrev events : List WorkerEvent
events =
    starts
    ∷ observes (pos 10) published
    ∷ observes (pos 20) (snapshot_of "modbus" [])
    ∷ takes
    ∷ ends
    ∷ []

run-IsCoherent_example : IsCoherent (run_worker (new_worker (pos 60000000000)) events)
run-IsCoherent_example =
    run-IsCoherent (new_worker (pos 60000000000)) events (new-IsCoherent (pos 60000000000))

-- A diagnostic fetch holds the gate, and a normal one waits.
abbrev kinds : List Bool
kinds = true ∷ false ∷ []

abbrev diagnosing : World
diagnosing = record {
  gate = record {
    active = true;
    diagnostic = true;
    cancel_diagnostic = some 1;
    normal_waiters = 1;
  };
  calls =
      record { is_normal = true; phase = waiting; preempted = false }
      ∷ record { is_normal = false; phase = fetching; preempted = false }
      ∷ [];
}

diagnosing-reached : Reachable kinds diagnosing
diagnosing-reached =
    stepped
      {w = with_call (start kinds) (take_diagnostic 1 (start kinds).gate) 1
        (at_phase (new_call false) fetching)}
      0 (new_call true)
      (stepped 1 (new_call false) started refl (diagnostic_takes refl (inl refl) refl)) refl
      (normal_enters refl refl)

gate-IsOrdered_example : IsOrdered diagnosing × LetsNormalFirst diagnosing
gate-IsOrdered_example = gate-IsOrdered kinds diagnosing diagnosing-reached

abbrev plain_values : Values ℕ
plain_values = record { is_finite = λ v. true; plain_zero = λ v. v; bits_less = λ a b. false }

abbrev no_digest : List (CorrelationMetric ℕ) → String
no_digest metrics = "digest"

abbrev battery_metrics : List (Metric ℤ)
battery_metrics =
    record { group = " battery"; key = "B_left_cap1"; name = "SoC"; unit = "%"; value = pos 80 }
    ∷ []

abbrev cloud_answer : Result FetchFault (Option (Snapshot ℕ))
cloud_answer = ok (
    some (record {
      source = "jinko";
      device_sn = "SN1";
      parent_sn = "";
      device_id = "";
      site_id = "";
      collected_at = pos 1700000000000000000;
      metrics =
          record { group = "x"; key = "B_left_cap1"; name = "SoC"; unit = "y"; value = 80 }
          ∷ record { group = "alert"; key = "L_B_A_F"; name = "n"; unit = ""; value = 4 }
          ∷ record { group = "alert"; key = "secret"; name = "n"; unit = ""; value = 1 }
          ∷ [];
      meta = [];
      modbus_evidence = none;
    }))

evidence-AreShareable_example :
    let e =
      fetch_alert_correlation_evidence plain_values no_digest "jinko" "SN1"
        (clone_ordinary_metric_keys [] battery_metrics)
        (pos 1700000000000000000)
        cloud_answer in
    All (IsShareable battery_metrics) e.metrics
    × (length e.metrics ≤ max_correlation_evidence_metrics)
    × (length e.metrics ≤ e.total_metric_count)
    × (e.source ≡ "jinko")
evidence-AreShareable_example =
    evidence-AreShareable plain_values no_digest "jinko" "SN1" battery_metrics
      (pos 1700000000000000000) cloud_answer
