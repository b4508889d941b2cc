-- ===== src/Modbus/Decode/Scalars.antt =====
-- decode.go and bms.go: voltages, currents, frequencies, temperatures and the BMS mirrors.
use jinko_exporter.Prelude.{
  ℕ, ◌+◌, ◌*◌, Bool, ◌||◌, not, List, [], ◌∷◌, ltb, ◌==◌, if◌then◌else◌, Result, ok, err, ◌>>=◌,
  ◌>>◌, reject,
}
use jinko_exporter.Prelude.Int.{ℤ, pos, negsuc, ltb_ℤ, ◌+ℤ◌, ◌*ℤ◌}
use jinko_exporter.Modbus.Decode.Words.{
  Block, DecodeError, MetricValue, require_word_count, word_at, units, tenths, hundredths, signed16,
  temperature_of, maximum_voltage_v, maximum_temperature_raw, minimum_temperature_c,
  maximum_temperature_c, load_voltage, load_frequency_block, pv_block, temperatures, grid_voltage,
  output_block, battery_temperature, battery_voltage, battery_flow, grid_currents, bms_mirrors,
  above_maximum, temperature_raw, temperature_range, soc_range, pv34_nonzero, rated_power_missing,
  pv_power, pv_voltage, pv_current, pv_total,
}

-- The loop over voltage words, 0.1 V each, against a maximum in volts.
unfoldable pub decode_voltages : Block → ℤ → ℕ → List ℕ → Result DecodeError (List ℤ)
decode_voltages block maximum index [] = ok []
decode_voltages block maximum index (raw ∷ values) =
    let rest = decode_voltages block maximum (index + 1) values in
    if ltb_ℤ maximum (tenths raw)
    then err (above_maximum block index (tenths raw))
    else rest >>= (λ voltages. ok (tenths raw ∷ voltages))

unfoldable pub decode_load_voltages : List ℕ → Result DecodeError (List ℤ)
unfolding require_word_count
decode_load_voltages values = do
  require_word_count load_voltage values 7
  decode_voltages load_voltage (pos 50000) 0
      (word_at values 4 ∷ word_at values 5 ∷ word_at values 6 ∷ [])

unfoldable pub decode_grid_voltages : List ℕ → Result DecodeError (List ℤ)
unfolding require_word_count
decode_grid_voltages values = do
  require_word_count grid_voltage values 3
  decode_voltages grid_voltage maximum_voltage_v 0 values

unfoldable pub decode_load_frequency : List ℕ → Result DecodeError ℤ
unfolding require_word_count
decode_load_frequency values = do
  require_word_count load_frequency_block values 5
  let frequency_hz = hundredths (word_at values 0)
  reject (ltb_ℤ (pos 10000) frequency_hz) (above_maximum load_frequency_block 0 frequency_hz)
  ok frequency_hz

-- math.Abs(value) > maximum
abbrev pub exceeds : ℤ → ℤ → Bool
exceeds value maximum = ltb_ℤ maximum value || ltb_ℤ value (negsuc 0 *ℤ maximum)

abbrev pub maximum_absolute_amps : ℤ
maximum_absolute_amps = pos 10000

pub record OutputScalars : Type 0 where
  pub voltages : List ℤ
  pub currents : List ℤ
  pub frequency_hz : ℤ

-- One round of the loop: the voltage and the current of a phase.
unfoldable pub decode_output_phase : List ℕ → ℕ → Result DecodeError (ℤ × ℤ)
unfolding ◌*ℤ◌
decode_output_phase values index = do
  let voltage = tenths (word_at values index)
  let current = signed16 (word_at values (index + 3))
  reject (ltb_ℤ (pos 50000) voltage) (above_maximum output_block index voltage)
  reject (exceeds current maximum_absolute_amps) (above_maximum output_block (index + 3) current)
  ok (voltage, current)

unfoldable pub decode_output_scalars : List ℕ → Result DecodeError OutputScalars
unfolding require_word_count
decode_output_scalars values = do
  require_word_count output_block values 12
  l1 ← decode_output_phase values 0
  l2 ← decode_output_phase values 1
  l3 ← decode_output_phase values 2
  let frequency_hz = hundredths (word_at values 11)
  reject (ltb_ℤ (pos 10000) frequency_hz) (above_maximum output_block 11 frequency_hz)
  ok (record {
    voltages = l1.0 ∷ l2.0 ∷ l3.0 ∷ [];
    currents = l1.1 ∷ l2.1 ∷ l3.1 ∷ [];
    frequency_hz = frequency_hz;
  })

pub record GridFrequencyCurrents : Type 0 where
  pub frequency_hz : ℤ
  pub currents : List ℤ

unfoldable pub decode_grid_current : List ℕ → ℕ → Result DecodeError ℤ
unfolding ◌*ℤ◌
decode_grid_current values index = do
  let current = signed16 (word_at values (index + 1))
  reject (exceeds current maximum_absolute_amps) (above_maximum grid_currents (index + 1) current)
  ok current

unfoldable pub decode_grid_frequency_currents : List ℕ → Result DecodeError GridFrequencyCurrents
unfolding require_word_count
decode_grid_frequency_currents values = do
  require_word_count grid_currents values 11
  let frequency_hz = hundredths (word_at values 0)
  reject (ltb_ℤ (pos 10000) frequency_hz) (above_maximum grid_currents 0 frequency_hz)
  l1 ← decode_grid_current values 0
  l2 ← decode_grid_current values 1
  l3 ← decode_grid_current values 2
  ok (record { frequency_hz = frequency_hz; currents = l1 ∷ l2 ∷ l3 ∷ [] })

-- One temperature word.
unfoldable pub decode_temperature : Block → ℕ → ℕ → Result DecodeError ℤ
decode_temperature block index raw = do
  reject (ltb maximum_temperature_raw raw) (temperature_raw block index raw)
  let temperature = temperature_of raw
  reject (ltb_ℤ temperature minimum_temperature_c || ltb_ℤ maximum_temperature_c temperature)
      (temperature_range block index temperature)
  ok temperature

unfoldable pub decode_inverter_temperatures : List ℕ → Result DecodeError (ℤ × ℤ)
unfolding require_word_count
decode_inverter_temperatures values = do
  require_word_count temperatures values 2
  dc ← decode_temperature temperatures 0 (word_at values 0)
  ac ← decode_temperature temperatures 1 (word_at values 1)
  ok (dc, ac)

unfoldable pub decode_battery_temperature : List ℕ → Result DecodeError ℤ
unfolding require_word_count
decode_battery_temperature values = do
  require_word_count battery_temperature values 1
  decode_temperature battery_temperature 0 (word_at values 0)

unfoldable pub decode_battery_voltage_soc : List ℕ → Result DecodeError (ℤ × ℤ)
unfolding require_word_count
decode_battery_voltage_soc values = do
  require_word_count battery_voltage values 2
  let voltage_v = tenths (word_at values 0)
  reject (ltb_ℤ maximum_voltage_v voltage_v) (above_maximum battery_voltage 0 voltage_v)
  reject (ltb 100 (word_at values 1)) (soc_range battery_voltage (word_at values 1))
  ok (voltage_v, units (word_at values 1))

unfoldable pub decode_battery_flow : List ℕ → Result DecodeError (ℤ × ℤ)
unfolding require_word_count ◌*ℤ◌
decode_battery_flow values = do
  require_word_count battery_flow values 2
  ok (pos 1000 *ℤ signed16 (word_at values 0), signed16 (word_at values 1))

unfoldable pub decode_bms_mirrors : List ℕ → Result DecodeError (List MetricValue)
unfolding require_word_count
decode_bms_mirrors words = do
  require_word_count bms_mirrors words 9
  let charge_voltage = tenths (word_at words 0)
  let voltage = tenths (word_at words 5)
  reject (ltb_ℤ maximum_voltage_v charge_voltage) (above_maximum bms_mirrors 0 charge_voltage)
  reject (ltb_ℤ maximum_voltage_v voltage) (above_maximum bms_mirrors 5 voltage)
  reject (ltb 100 (word_at words 4)) (soc_range bms_mirrors (word_at words 4))
  let temperature = temperature_of (word_at words 7)
  reject
      (ltb maximum_temperature_raw (word_at words 7)
        || ltb_ℤ temperature minimum_temperature_c
        || ltb_ℤ maximum_temperature_c temperature)
      (temperature_range bms_mirrors 7 temperature)
  ok (
      record { key = "BMS_C_V"; value = charge_voltage }
      ∷ record { key = "BMS_D_C_L"; value = units (word_at words 3) }
      ∷ record { key = "BMS_SOC"; value = units (word_at words 4) }
      ∷ record { key = "BMS_B_V1"; value = voltage }
      ∷ record { key = "BMST"; value = temperature }
      ∷ [])

pub record PvInputs : Type 0 where
  pub powers_w : ℤ × ℤ
  pub voltages_v : ℤ × ℤ
  pub currents_a : ℤ × ℤ
  pub total_power_w : ℤ

-- One round of the validation loop: a channel against the envelope.
unfoldable pub check_pv_channel : ℤ → ℕ → ℤ → ℤ → ℤ → Result DecodeError Unit
check_pv_channel maximum_power index power voltage current = do
  reject (ltb_ℤ maximum_power power) (pv_power index power)
  reject (ltb_ℤ maximum_voltage_v voltage) (pv_voltage index voltage)
  reject (ltb_ℤ (pos 10000) current) (pv_current index current)
  ok tt

unfoldable pub decode_pv_inputs : List ℕ → ℤ → Result DecodeError PvInputs
unfolding require_word_count
decode_pv_inputs values rated_power_w = do
  require_word_count pv_block values 8
  reject (not (word_at values 2 == 0) || not (word_at values 3 == 0))
      (pv34_nonzero (word_at values 2) (word_at values 3))
  reject (not (ltb_ℤ (pos 0) rated_power_w)) rated_power_missing
  let power1 = pos (1000 * word_at values 0)
  let power2 = pos (1000 * word_at values 1)
  let voltage1 = tenths (word_at values 4)
  let voltage2 = tenths (word_at values 6)
  let current1 = tenths (word_at values 5)
  let current2 = tenths (word_at values 7)
  let total = power1 +ℤ power2
  let maximum_power = rated_power_w *ℤ pos 2
  check_pv_channel maximum_power 0 power1 voltage1 current1
  check_pv_channel maximum_power 1 power2 voltage2 current2
  reject (ltb_ℤ maximum_power total) (pv_total total)
  ok (record {
    powers_w = (power1, power2);
    voltages_v = (voltage1, voltage2);
    currents_a = (current1, current2);
    total_power_w = total;
  })
