-- ===== src/Modbus/Profile.antt =====
-- bridge/internal/source/modbus/profile.go: the compile-time allowlist of register reads.
pub mod Allowlist
use Prim.Native.String.{String}
use jinko_exporter.Prelude.{ℕ, zero, suc, ◌+◌, Bool, Option, none, some, ◌==◌}

abbrev pub modbus_unit_id : ℕ
modbus_unit_id = 1

abbrev pub read_holding_registers : ℕ
read_holding_registers = 3

pub record ReadSpec : Type 0 where
  pub name : String
  pub sequence : ℕ  -- byte
  pub start : ℕ  -- uint16
  pub quantity : ℕ  -- uint16

-- `readID` is a byte: its 32 constants, and `unlisted` for the bytes that name none of them.
pub data ReadId : Type 0 where
  device_type_read ups_power_high_read grid_voltage_read capability_read : ReadId
  battery_temperature_read battery_voltage_soc_read battery_flow_read energy_read : ReadId
  grid_power_low_read grid_power_high_read output_scalar_read load_voltage_read : ReadId
  direct_load_power_low_read load_frequency_read pv_input_read inverter_temperature_read : ReadId
  warning_fault_read run_state_read grid_frequency_current_read generator_port_mode_read : ReadId
  generator_energy_read generator_electrical_read output_power_high_read relay_status_read : ReadId
  external_ct_power_high_read internal_grid_power_low_read internal_grid_power_high_read : ReadId
  protocol_version_read controller_versions_read firmware_words_read battery_input_code_read :
      ReadId
  bms_mirrors_read : ReadId
  unlisted : ℕ → ReadId

-- The byte of an identifier: `iota + 1`, in the order of the constants.
unfoldable pub id_byte : ReadId → ℕ
id_byte device_type_read = 1
id_byte ups_power_high_read = 2
id_byte grid_voltage_read = 3
id_byte capability_read = 4
id_byte battery_temperature_read = 5
id_byte battery_voltage_soc_read = 6
id_byte battery_flow_read = 7
id_byte energy_read = 8
id_byte grid_power_low_read = 9
id_byte grid_power_high_read = 10
id_byte output_scalar_read = 11
id_byte load_voltage_read = 12
id_byte direct_load_power_low_read = 13
id_byte load_frequency_read = 14
id_byte pv_input_read = 15
id_byte inverter_temperature_read = 16
id_byte warning_fault_read = 17
id_byte run_state_read = 18
id_byte grid_frequency_current_read = 19
id_byte generator_port_mode_read = 20
id_byte generator_energy_read = 21
id_byte generator_electrical_read = 22
id_byte output_power_high_read = 23
id_byte relay_status_read = 24
id_byte external_ct_power_high_read = 25
id_byte internal_grid_power_low_read = 26
id_byte internal_grid_power_high_read = 27
id_byte protocol_version_read = 28
id_byte controller_versions_read = 29
id_byte firmware_words_read = 30
id_byte battery_input_code_read = 31
id_byte bms_mirrors_read = 32
id_byte (unlisted zero) = 0
id_byte (unlisted (suc b)) = b + 33

abbrev pub same_id : ReadId → ReadId → Bool
same_id a b = id_byte a == id_byte b

abbrev spec : String → ℕ → ℕ → ℕ → Option ReadSpec
spec name sequence start quantity =
    some (record { name = name; sequence = sequence; start = start; quantity = quantity })

unfoldable pub approved_read_spec : ReadId → Option ReadSpec
approved_read_spec device_type_read = spec "device-type" 0x01 0x0000 1
approved_read_spec ups_power_high_read = spec "ups-load-power-high-words" 0x1E 0x02B8 4
approved_read_spec grid_voltage_read = spec "grid-phase-voltages" 0x03 0x0256 3
approved_read_spec capability_read = spec "rated-power-mppt-phases" 0x09 0x0014 3
approved_read_spec battery_temperature_read = spec "battery-temperature" 0x06 0x024A 1
approved_read_spec battery_voltage_soc_read = spec "battery-voltage-soc" 0x05 0x024B 2
approved_read_spec battery_flow_read = spec "battery-power-current" 0x0A 0x024E 2
approved_read_spec energy_read = spec "energy-counters" 0x08 0x0202 16
approved_read_spec grid_power_low_read = spec "grid-power-low-words" 0x0C 0x026E 4
approved_read_spec grid_power_high_read = spec "grid-power-high-words" 0x0D 0x02AF 4
approved_read_spec output_scalar_read = spec "output-scalars" 0x0E 0x0273 12
approved_read_spec load_voltage_read = spec "ups-load-voltage-block" 0x10 0x0280 7
approved_read_spec direct_load_power_low_read = spec "direct-load-power-low-words" 0x12 0x028A 4
approved_read_spec load_frequency_read = spec "load-frequency-high-word-block" 0x13 0x028F 5
approved_read_spec pv_input_read = spec "pv-input-block" 0x07 0x02A0 8
approved_read_spec inverter_temperature_read = spec "dc-ac-temperatures" 0x15 0x021C 2
approved_read_spec warning_fault_read = spec "warning-fault-raw-words" 0x14 0x0229 6
approved_read_spec run_state_read = spec "run-state-block" 0x04 0x01F4 6
approved_read_spec grid_frequency_current_read = spec "grid-frequency-current-block" 0x0B 0x0261 11
approved_read_spec generator_port_mode_read = spec "generator-port-mode" 0x16 0x0085 1
approved_read_spec generator_energy_read = spec "generator-energy-runtime" 0x17 0x0218 4
approved_read_spec generator_electrical_read = spec "generator-voltage-power" 0x18 0x0295 11
approved_read_spec output_power_high_read = spec "output-power-high-words" 0x0F 0x02B3 5
approved_read_spec relay_status_read = spec "power-and-ac-relay-status" 0x19 0x0227 2
approved_read_spec external_ct_power_high_read = spec "external-ct-power-high-words" 0x1A 0x02C1 4
approved_read_spec internal_grid_power_low_read = spec "internal-grid-power-low-words" 0x1B 0x025C 4
approved_read_spec internal_grid_power_high_read =
    spec "internal-grid-power-high-words" 0x1C 0x02BC 4
approved_read_spec protocol_version_read = spec "protocol-version-raw" 0x1F 2 1
approved_read_spec controller_versions_read = spec "controller-version-bytes" 0x20 11 1
approved_read_spec firmware_words_read = spec "firmware-raw-words" 0x21 14 5
approved_read_spec battery_input_code_read = spec "battery-input-raw-code" 0x22 24 1
approved_read_spec bms_mirrors_read = spec "bms-telemetry-mirrors" 0x23 210 9
approved_read_spec (unlisted b) = none
