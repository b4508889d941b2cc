-- ===== src/Modbus/Client/Readings.antt =====
-- client.go, metadata.go: the reads of a fetch in their order, each decoded as soon as it can be.
use Prim.Native.String.{String}
use jinko_exporter.Prelude.{ℕ, not, ◌||◌, List, length, ◌==◌, Result, reject}
use jinko_exporter.Prelude.Int.{ℤ}
use jinko_exporter.Modbus.Profile.{
  ReadId, device_type_read, ups_power_high_read, grid_voltage_read, capability_read,
  battery_temperature_read, battery_voltage_soc_read, battery_flow_read, energy_read,
  grid_power_low_read, grid_power_high_read, output_scalar_read, load_voltage_read,
  direct_load_power_low_read, load_frequency_read, pv_input_read, inverter_temperature_read,
  warning_fault_read, run_state_read, grid_frequency_current_read, generator_port_mode_read,
  generator_energy_read, generator_electrical_read, output_power_high_read, relay_status_read,
  external_ct_power_high_read, internal_grid_power_low_read, internal_grid_power_high_read,
  protocol_version_read, controller_versions_read, firmware_words_read, battery_input_code_read,
  bms_mirrors_read,
}
use jinko_exporter.Modbus.Decode.Words.{MetricValue, word_at}
use jinko_exporter.Modbus.Decode.Metadata.{decode_metadata}
use jinko_exporter.Modbus.Decode.Gates.{
  ProfileCapabilities, decode_capabilities, decode_generator_port_mode_zero_only,
  decode_generator_energy_zero_only, decode_generator_electrical_zero_only,
  decode_warning_fault_words, decode_power_and_ac_relay_status, decode_run_state,
}
use jinko_exporter.Modbus.Decode.Scalars.{
  OutputScalars, GridFrequencyCurrents, PvInputs, decode_load_voltages, decode_load_frequency,
  decode_grid_voltages, decode_output_scalars, decode_pv_inputs, decode_inverter_temperatures,
  decode_battery_temperature, decode_battery_voltage_soc, decode_battery_flow, decode_bms_mirrors,
  decode_grid_frequency_currents,
}
use jinko_exporter.Modbus.Decode.Powers.{
  ExternalCtReadings, DirectLoadPowers, decode_ups_powers, decode_direct_load_powers,
  decode_grid_powers, decode_output_active_powers, decode_external_ct, decode_internal_grid_powers,
}
use jinko_exporter.Modbus.Decode.Counters.{decode_energy_metrics}
use jinko_exporter.Modbus.Transport.{Io}
use jinko_exporter.Modbus.Client.Program.{
  FetchError, wrong_device_type, Program, pure, lift, decoded, ◌>>=◌, ◌>>◌, read,
}

abbrev pub expected_device_type : ℕ
expected_device_type = 6

unfoldable pub check_device_type : List ℕ → Result FetchError Unit
check_device_type values =
    reject (not (length values == 1) || not (word_at values 0 == expected_device_type))
      (wrong_device_type values)

pub record GeneratorReadings : Type 0 where
  pub energy : List MetricValue
  pub electrical : List MetricValue

pub record LoadReadings : Type 0 where
  pub voltages : List ℤ
  pub ups_powers : List ℤ
  pub frequency : ℤ
  pub direct_powers : DirectLoadPowers

pub record GridReadings : Type 0 where
  pub voltages : List ℤ
  pub powers : List ℤ
  pub output : OutputScalars
  pub output_powers : List ℤ

pub record BatteryReadings : Type 0 where
  pub pv : PvInputs
  pub inverter_temperatures : ℤ × ℤ
  pub temperature : ℤ
  pub voltage_soc : ℤ × ℤ
  pub flow : ℤ × ℤ
  pub bms_words : List ℕ
  pub bms : List MetricValue
  pub energy : List MetricValue

pub record StatusReadings : Type 0 where
  pub relay_words : List ℕ
  pub switch_relay : ℕ × ℕ
  pub alert_words : List ℕ
  pub run_state_words : List ℕ
  pub run_state : ℕ

pub record CurrentReadings : Type 0 where
  pub frequency_currents : GridFrequencyCurrents
  pub external_ct : ExternalCtReadings
  pub internal_powers : List ℤ

pub record Readings : Type 0 where
  pub generator : GeneratorReadings
  pub load : LoadReadings
  pub grid : GridReadings
  pub battery : BatteryReadings
  pub status : StatusReadings
  pub currents : CurrentReadings

module _ (io : ReadId → Io) where
  unfoldable pub validate_profile : Program ProfileCapabilities
  validate_profile = do
    values ← read io device_type_read
    lift (check_device_type values)
    words ← read io capability_read
    decoded (decode_capabilities words)

  unfoldable pub read_metadata : Program (List (String × String))
  read_metadata = do
    protocol ← read io protocol_version_read
    controller ← read io controller_versions_read
    words ← read io firmware_words_read
    battery ← read io battery_input_code_read
    decoded (decode_metadata protocol controller words battery)

  -- Register 133 is gated on every fetch.
  unfoldable pub read_generator : Program GeneratorReadings
  read_generator = do
    port_mode_words ← read io generator_port_mode_read
    decoded (decode_generator_port_mode_zero_only port_mode_words)
    energy_words ← read io generator_energy_read
    energy ← decoded (decode_generator_energy_zero_only energy_words)
    electrical_words ← read io generator_electrical_read
    electrical ← decoded (decode_generator_electrical_zero_only electrical_words)
    pure (record { energy = energy; electrical = electrical })

  unfoldable pub read_load : Program LoadReadings
  read_load = do
    voltage_words ← read io load_voltage_read
    voltages ← decoded (decode_load_voltages voltage_words)
    ups_high_words ← read io ups_power_high_read
    ups_powers ← decoded (decode_ups_powers voltage_words ups_high_words)
    direct_low_words ← read io direct_load_power_low_read
    frequency_words ← read io load_frequency_read
    frequency ← decoded (decode_load_frequency frequency_words)
    direct_powers ← decoded (decode_direct_load_powers direct_low_words frequency_words)
    pure (record {
      voltages = voltages;
      ups_powers = ups_powers;
      frequency = frequency;
      direct_powers = direct_powers;
    })

  unfoldable pub read_grid : Program GridReadings
  read_grid = do
    grid_words ← read io grid_voltage_read
    voltages ← decoded (decode_grid_voltages grid_words)
    low_words ← read io grid_power_low_read
    high_words ← read io grid_power_high_read
    powers ← decoded (decode_grid_powers low_words high_words)
    output_words ← read io output_scalar_read
    output_high_words ← read io output_power_high_read
    output ← decoded (decode_output_scalars output_words)
    output_powers ← decoded (decode_output_active_powers output_words output_high_words)
    pure (record {
      voltages = voltages;
      powers = powers;
      output = output;
      output_powers = output_powers;
    })

  unfoldable pub read_battery : ℤ → Program BatteryReadings
  read_battery rated_power_w = do
    pv_words ← read io pv_input_read
    pv ← decoded (decode_pv_inputs pv_words rated_power_w)
    inverter_words ← read io inverter_temperature_read
    inverter_temperatures ← decoded (decode_inverter_temperatures inverter_words)
    temperature_words ← read io battery_temperature_read
    temperature ← decoded (decode_battery_temperature temperature_words)
    voltage_soc_words ← read io battery_voltage_soc_read
    voltage_soc ← decoded (decode_battery_voltage_soc voltage_soc_words)
    flow_words ← read io battery_flow_read
    flow ← decoded (decode_battery_flow flow_words)
    bms_words ← read io bms_mirrors_read
    bms ← decoded (decode_bms_mirrors bms_words)
    energy_words ← read io energy_read
    energy ← decoded (decode_energy_metrics energy_words)
    pure (record {
      pv = pv;
      inverter_temperatures = inverter_temperatures;
      temperature = temperature;
      voltage_soc = voltage_soc;
      flow = flow;
      bms_words = bms_words;
      bms = bms;
      energy = energy;
    })

  unfoldable pub read_status : Program StatusReadings
  read_status = do
    relay_words ← read io relay_status_read
    switch_relay ← decoded (decode_power_and_ac_relay_status relay_words)
    warning_fault_words ← read io warning_fault_read
    alert_words ← decoded (decode_warning_fault_words warning_fault_words)
    run_state_words ← read io run_state_read
    run_state ← decoded (decode_run_state run_state_words)
    pure (record {
      relay_words = relay_words;
      switch_relay = switch_relay;
      alert_words = alert_words;
      run_state_words = run_state_words;
      run_state = run_state;
    })

  unfoldable pub read_currents : Program CurrentReadings
  read_currents = do
    grid_words ← read io grid_frequency_current_read
    frequency_currents ← decoded (decode_grid_frequency_currents grid_words)
    ct_high_words ← read io external_ct_power_high_read
    external_ct ← decoded (decode_external_ct grid_words ct_high_words)
    internal_low_words ← read io internal_grid_power_low_read
    internal_high_words ← read io internal_grid_power_high_read
    internal_powers ← decoded (decode_internal_grid_powers internal_low_words internal_high_words)
    pure (record {
      frequency_currents = frequency_currents;
      external_ct = external_ct;
      internal_powers = internal_powers;
    })

  unfoldable pub read_measurements : ℤ → Program Readings
  read_measurements rated_power_w = do
    generator ← read_generator
    load ← read_load
    grid ← read_grid
    battery ← read_battery rated_power_w
    status ← read_status
    currents ← read_currents
    pure (record {
      generator = generator;
      load = load;
      grid = grid;
      battery = battery;
      status = status;
      currents = currents;
    })
