-- ===== src/Shelly/Meter.antt =====
-- client.go, grid_input.go: the readings of a meter as a snapshot. A missing number is none; the value
-- of a metric is a parameter with its division by 1000.
use Prim.Native.Char.{code}
use Prim.Native.String.{String, ◌++◌}
use mathlib.Core.List.{◌++◌ as append}
use jinko_exporter.Prelude.{
  Bool, true, false, ◌&&◌, not, Option, none, some, List, [], ◌∷◌, Result, ok, err, ◌>>=◌, ◌>>◌,
  reject, if◌then◌else◌, ◌==◌, ◌≡◌, refl,
}
use jinko_exporter.Prelude.Int.{ℤ, pos, ltb_ℤ}
use jinko_exporter.Prelude.Text.{◌=$◌}
use jinko_exporter.Model.{Metric, Snapshot}
use jinko_exporter.Shelly.Rpc.{RpcError}

module _ (V : Type 0) where
  pub record Phase : Type 0 where
    pub voltage : Option V
    pub current : Option V
    pub active_power : Option V
    pub apparent_power : Option V
    pub power_factor : Option V
    pub frequency : Option V

  pub record EmStatus : Type 0 where
    pub id : Option ℤ
    pub a : Phase
    pub b : Phase
    pub c : Phase
    pub n_current : Option V
    pub total_current : Option V
    pub total_active_power : Option V
    pub total_apparent_power : Option V

  -- A phase's energy and what it returned, in Wh.
  pub record EmDataStatus : Type 0 where
    pub id : Option ℤ
    pub a_total : Option V
    pub a_returned : Option V
    pub b_total : Option V
    pub b_returned : Option V
    pub c_total : Option V
    pub c_returned : Option V
    pub total : Option V
    pub returned : Option V

  pub record TemperatureStatus : Type 0 where
    pub id : Option ℤ
    pub t_c : Option V
    pub errors : List String

pub data MeterError : Type 0 where
  rpc_failed : RpcError → MeterError
  missing_id no_telemetry : MeterError
  other_id : ℤ → MeterError

abbrev pub same_int : ℤ → ℤ → Bool
same_int a b = not (ltb_ℤ a b) && not (ltb_ℤ b a)

abbrev pub check_id : Option ℤ → ℤ → Result MeterError Unit
check_id none expected = err missing_id
check_id (some id) expected = reject (not (same_int id expected)) (other_id id)

module _ {V : Type 0} where
  -- Whether no number is there.
  unfoldable pub all_missing : List (Option V) → Bool
  all_missing [] = true
  all_missing (none ∷ rest) = all_missing rest
  all_missing (some value ∷ rest) = false

  abbrev pub phase_values : Phase V → List (Option V)
  phase_values p =
      p.voltage ∷ p.current ∷ p.active_power ∷ p.apparent_power ∷ p.power_factor ∷ p.frequency ∷ []

  abbrev pub em_values : EmStatus V → List (Option V)
  em_values s = append (phase_values s.a) (
      append (phase_values s.b) (
        append (phase_values s.c)
          (s.n_current ∷ s.total_current ∷ s.total_active_power ∷ s.total_apparent_power ∷ [])))

  unfoldable pub validate_em : EmStatus V → ℤ → Result MeterError Unit
  validate_em s expected_id = do
    check_id s.id expected_id
    reject (all_missing (em_values s)) no_telemetry
    ok tt

  abbrev pub em_data_values : EmDataStatus V → List (Option V)
  em_data_values s =
      s.a_total ∷ s.a_returned ∷ s.b_total ∷ s.b_returned ∷ s.c_total ∷ s.c_returned ∷ s.total
      ∷ s.returned ∷ []

  unfoldable pub validate_em_data : EmDataStatus V → ℤ → Result MeterError Unit
  validate_em_data s expected_id = do
    check_id s.id expected_id
    reject (all_missing (em_data_values s)) no_telemetry
    ok tt

  -- The closure `add`, in front of what is added later.
  abbrev pub add : String → String → String → Option V → List (Metric V) → List (Metric V)
  add key name unit none rest = rest
  add key name unit (some value) rest =
      record { group = "grid_load"; key = key; name = name; unit = unit; value = value } ∷ rest

  unfoldable pub add_phase_metrics : String → String → Phase V → List (Metric V) → List (Metric V)
  add_phase_metrics prefix label p rest =
      add (prefix ++ "_voltage") ("Grid Load " ++ label ++ " Voltage") "V" p.voltage (
        add (prefix ++ "_current") ("Grid Load " ++ label ++ " Current") "A" p.current (
          add (prefix ++ "_power") ("Grid Load " ++ label ++ " Power") "W" p.active_power (
            add (prefix ++ "_apparent_power") ("Grid Load " ++ label ++ " Apparent Power") "VA"
              p.apparent_power
              (add (prefix ++ "_power_factor") ("Grid Load " ++ label ++ " Power Factor") ""
                p.power_factor
                (add (prefix ++ "_frequency") ("Grid Load " ++ label ++ " Frequency") "Hz"
                  p.frequency rest)))))

  -- A temperature that is not there, not the internal one or in error is left out.
  unfoldable pub temperature_metric : Option ℤ → List String → Option V → List (Metric V)
  temperature_metric none errors t_c = []
  temperature_metric (some id) (e ∷ errors) t_c = []
  temperature_metric (some id) [] t_c =
      if same_int id (pos 0)
      then add "internal_temperature" "Shelly Internal Temperature" "°C" t_c []
      else []

  unfoldable pub add_temperature : Result RpcError (TemperatureStatus V) → List (Metric V)
  add_temperature (err e) = []
  add_temperature (ok t) = temperature_metric t.id t.errors t.t_c

module _ {V : Type 0} (thousandth : V → V) where
  abbrev pub add_kwh : String → String → Option V → List (Metric V) → List (Metric V)
  add_kwh key name none rest = rest
  add_kwh key name (some value) rest = add key name "kWh" (some (thousandth value)) rest

  unfoldable pub energy_metrics : EmDataStatus V → List (Metric V) → List (Metric V)
  energy_metrics d rest = add_kwh "l1_energy_total" "Grid Load L1 Energy Total" d.a_total (
      add_kwh "l1_returned_energy_total" "Grid Load L1 Returned Energy Total" d.a_returned (
        add_kwh "l2_energy_total" "Grid Load L2 Energy Total" d.b_total (
          add_kwh "l2_returned_energy_total" "Grid Load L2 Returned Energy Total" d.b_returned (
            add_kwh "l3_energy_total" "Grid Load L3 Energy Total" d.c_total (
              add_kwh "l3_returned_energy_total" "Grid Load L3 Returned Energy Total" d.c_returned (
                add_kwh "energy_total" "Grid Load Energy Total" d.total (
                  add_kwh "returned_energy_total" "Grid Load Returned Energy Total" d.returned
                    rest)))))))

  unfoldable pub meter_metrics :
      EmStatus V → EmDataStatus V → Result RpcError (TemperatureStatus V) → List (Metric V)
  meter_metrics em d t = add_phase_metrics "l1" "L1" em.a (
      add_phase_metrics "l2" "L2" em.b (
        add_phase_metrics "l3" "L3" em.c (
          add "neutral_current" "Grid Load Neutral Current" "A" em.n_current (
            add "total_current" "Grid Load Total Current" "A" em.total_current (
              add "total_power" "Grid Load Total Power" "W" em.total_active_power (
                add "total_apparent_power" "Grid Load Total Apparent Power" "VA"
                  em.total_apparent_power (energy_metrics d (add_temperature t))))))))

-- The configuration of a client, and what its three calls gave.
pub record MeterConfig : Type 0 where
  pub em_id : ℤ
  pub em_id_text : String
  pub host : String
  pub metadata_base_url : String

pub record Answers (V : Type 0) : Type 0 where
  pub em : Result RpcError (EmStatus V)
  pub em_data : Result RpcError (EmDataStatus V)
  pub temperature : Result RpcError (TemperatureStatus V)
  pub now : ℤ

abbrev pub rpc : {T : Type 0} → Result RpcError T → Result MeterError T
rpc (err e) = err (rpc_failed e)
rpc (ok value) = ok value

module _ {V : Type 0} (thousandth : V → V) where
  abbrev pub loaded :
      MeterConfig
      → ℤ
      → EmStatus V
      → EmDataStatus V
      → Result RpcError (TemperatureStatus V)
      → Snapshot V
  loaded cfg now em em_data temperature = record {
    source = "shelly_grid_load";
    device_sn = cfg.host;
    parent_sn = "";
    device_id = "";
    site_id = "";
    collected_at = now;
    metrics = meter_metrics thousandth em em_data temperature;
    meta =
        ("shelly_grid_load_url", cfg.metadata_base_url)
        ∷ ("shelly_grid_load_em_id", cfg.em_id_text)
        ∷ [];
    modbus_evidence = none;
  }

  unfoldable pub fetch_grid_load : MeterConfig → Answers V → Result MeterError (Snapshot V)
  fetch_grid_load cfg answers = do
    em ← rpc answers.em
    validate_em em cfg.em_id
    em_data ← rpc answers.em_data
    validate_em_data em_data cfg.em_id
    ok (loaded cfg answers.now em em_data answers.temperature)

-- What follows a pattern at the start of a text.
unfoldable pub after_prefix : String → String → Option String
after_prefix String.[] text = some text
after_prefix (String.◌∷◌ p pattern) String.[] = none
after_prefix (String.◌∷◌ p pattern) (String.◌∷◌ c text) =
    let rest = after_prefix pattern text in if code p == code c then rest else none

-- strings.Replace(text, pattern, by, 1) for a pattern that is not empty
unfoldable pub replace_first : String → String → String → String
replace_first pattern by String.[] = ""
replace_first pattern by (String.◌∷◌ c text) =
    let later = replace_first pattern by text in
    elim (after_prefix pattern (String.◌∷◌ c text)) [
      | some rest ↦ by ++ rest
      | none ↦ String.◌∷◌ c later
    ]

module _ {V : Type 0} where
  unfoldable pub as_grid_input : Metric V → Metric V
  as_grid_input m = record m {
    group = "grid_input";
    name =
        if m.key =$ "internal_temperature"
        then "Shelly Grid Input Internal Temperature"
        else replace_first "Grid Load " "Grid Input " m.name;
  }

  unfoldable pub as_grid_inputs : List (Metric V) → List (Metric V)
  as_grid_inputs [] = []
  as_grid_inputs (m ∷ metrics) = as_grid_input m ∷ as_grid_inputs metrics

module _ {V : Type 0} where
  -- The labels of the meter are its URL and its identifier.
  abbrev pub as_input : MeterConfig → Snapshot V → Snapshot V
  as_input cfg s = record s {
    source = "shelly_grid_input";
    metrics = as_grid_inputs s.metrics;
    meta =
        ("shelly_grid_input_url", cfg.metadata_base_url)
        ∷ ("shelly_grid_input_em_id", cfg.em_id_text)
        ∷ [];
  }

module _ {V : Type 0} (thousandth : V → V) where
  unfoldable pub fetch_grid_input : MeterConfig → Answers V → Result MeterError (Snapshot V)
  fetch_grid_input cfg answers = elim (fetch_grid_load thousandth cfg answers) [
    | err e ↦ err e
    | ok s ↦ ok (as_input cfg s)
  ]

renames : replace_first "Grid Load " "Grid Input " "Grid Load L1 Power" ≡ "Grid Input L1 Power"
unfolding replace_first after_prefix
renames = refl
