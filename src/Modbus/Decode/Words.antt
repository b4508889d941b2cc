-- ===== src/Modbus/Decode/Words.antt =====
-- decode.go: what its decoders share. A float64 that a decoder makes is a 16- or 32-bit integer, or
-- ten times, a tenth or a hundredth of one; it is modelled exactly, by its number of hundredths.
use Prim.Native.String.{String}
use jinko_exporter.Prelude.{
  ℕ, ◌+◌, ◌-◌, ◌*◌, not, List, length, get_or, ltb, ◌==◌, if◌then◌else◌, Result, reject,
}
use jinko_exporter.Prelude.Int.{ℤ, pos, negsuc, sub_ℕ}

-- The register block that a message names.
pub data Block : Type 0 where
  port_mode generator_energy generator_electrical capability ups_voltage ups_high load_voltage :
      Block
  load_frequency_block direct_low direct_high pv_block temperatures grid_voltage grid_low
        grid_high :
      Block
  output_block output_high battery_temperature battery_voltage battery_flow energy : Block
  warning_fault relay_status run_state grid_currents ct_block ct_high internal_low internal_high :
      Block
  bms_mirrors protocol_version controller_versions firmware battery_input : Block

-- One constructor for each kind of message, with the block and the index that it names.
pub data DecodeError : Type 0 where
  word_count : Block → ℕ → ℕ → DecodeError
  port_mode_nonzero : ℕ → DecodeError
  generator_nonzero : ℕ → ℕ → DecodeError
  capability_refused : ℕ → ℕ → DecodeError
  high_word : Block → ℕ → ℕ → DecodeError
  incoherent : Block → ℕ → ℤ → DecodeError
  phase_sum : Block → ℤ → ℤ → DecodeError
  above_maximum : Block → ℕ → ℤ → DecodeError
  temperature_raw : Block → ℕ → ℕ → DecodeError
  temperature_range : Block → ℕ → ℤ → DecodeError
  soc_range : Block → ℕ → DecodeError
  pv34_nonzero : ℕ → ℕ → DecodeError
  rated_power_missing : DecodeError
  pv_power pv_voltage pv_current : ℕ → ℤ → DecodeError
  pv_total : ℤ → DecodeError
  power_status_code run_state_code battery_input_code : ℕ → DecodeError

abbrev pub word_at : List ℕ → ℕ → ℕ
word_at values i = get_or values i 0

unfoldable pub require_word_count : Block → List ℕ → ℕ → Result DecodeError Unit
require_word_count block values expected =
    reject (not (length values == expected)) (word_count block (length values) expected)

pub record MetricValue : Type 0 where
  pub key : String
  pub value : ℤ

-- float64(w), float64(w) / 10 and float64(w) / 100, in hundredths
abbrev pub units : ℕ → ℤ
units w = pos (100 * w)

abbrev pub tenths : ℕ → ℤ
tenths w = pos (10 * w)

abbrev pub hundredths : ℕ → ℤ
hundredths w = pos w

-- int16(w) and int32(w)
abbrev pub signed16 : ℕ → ℤ
signed16 w = if ltb w 32768 then pos w else negsuc (65536 - w - 1)

abbrev pub signed32 : ℕ → ℤ
signed32 w = if ltb w 2147483648 then pos w else negsuc (4294967296 - w - 1)

-- uint32(low) | uint32(high) << 16
abbrev pub u32_of : ℕ → ℕ → ℕ
u32_of low high = low + high * 65536

-- float64(int(raw) - 1000) / 10
abbrev pub temperature_of : ℕ → ℤ
temperature_of raw = sub_ℕ (10 * raw) 10000

abbrev pub maximum_voltage_v : ℤ
maximum_voltage_v = pos 100000

abbrev pub maximum_temperature_raw : ℕ
maximum_temperature_raw = 3000

abbrev pub minimum_temperature_c : ℤ
minimum_temperature_c = negsuc 9999

abbrev pub maximum_temperature_c : ℤ
maximum_temperature_c = pos 10000
