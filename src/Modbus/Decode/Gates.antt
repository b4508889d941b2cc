-- ===== src/Modbus/Decode/Gates.antt =====
-- decode.go: the decoders that accept one configuration or one code, and raw status words.
use Prim.Native.String.{String}
use jinko_exporter.Prelude.{
  ℕ, ◌+◌, ◌/◌, ◌%◌, Bool, ◌||◌, not, List, [], ◌∷◌, ltb, ◌==◌, if◌then◌else◌, Result, ok, err, ◌>>◌,
  reject,
}
use jinko_exporter.Prelude.Int.{ℤ, pos}
use jinko_exporter.Modbus.Decode.Words.{
  DecodeError, MetricValue, require_word_count, word_at, tenths, u32_of, port_mode,
  generator_energy, generator_electrical, capability, warning_fault, relay_status, run_state,
  port_mode_nonzero, generator_nonzero, capability_refused, power_status_code, run_state_code,
}

unfoldable pub decode_generator_port_mode_zero_only : List ℕ → Result DecodeError Unit
unfolding require_word_count
decode_generator_port_mode_zero_only values = do
  require_word_count port_mode values 1
  reject (not (word_at values 0 == 0)) (port_mode_nonzero (word_at values 0))
  ok tt

-- The loop of `requireZeroGeneratorWords`; the first argument is the register of the head.
unfoldable pub require_zero_generator_words : ℕ → List ℕ → Result DecodeError Unit
require_zero_generator_words register [] = ok tt
require_zero_generator_words register (value ∷ values) =
    let rest = require_zero_generator_words (register + 1) values in
    if not (value == 0) then err (generator_nonzero register value) else rest

abbrev zero_metric : String → MetricValue
zero_metric key = record { key = key; value = pos 0 }

abbrev pub generator_energy_zeros : List MetricValue
generator_energy_zeros = zero_metric "R_T_D" ∷ zero_metric "GEN_P_D" ∷ zero_metric "GEN_P_TO" ∷ []

unfoldable pub decode_generator_energy_zero_only : List ℕ → Result DecodeError (List MetricValue)
unfolding require_word_count
decode_generator_energy_zero_only values = do
  require_word_count generator_energy values 4
  require_zero_generator_words 536 values
  ok generator_energy_zeros

abbrev pub generator_electrical_zeros : List MetricValue
generator_electrical_zeros =
    zero_metric "GEN_P_L1"
    ∷ zero_metric "GEN_P_L2"
    ∷ zero_metric "GEN_P_L3"
    ∷ zero_metric "GEN_V_L1"
    ∷ zero_metric "GEN_V_L2"
    ∷ zero_metric "GEN_V_L3"
    ∷ zero_metric "EG_P_CT1"
    ∷ zero_metric "GEN_P_T"
    ∷ []

unfoldable pub decode_generator_electrical_zero_only :
    List ℕ → Result DecodeError (List MetricValue)
unfolding require_word_count
decode_generator_electrical_zero_only values = do
  require_word_count generator_electrical values 11
  require_zero_generator_words 661 values
  ok generator_electrical_zeros

pub record ProfileCapabilities : Type 0 where
  pub rated_power_w : ℤ
  pub mppt_count : ℕ
  pub phase_count : ℕ

unfoldable pub is_supported_jks_family_rated_power_raw : ℕ → Bool
is_supported_jks_family_rated_power_raw raw =
    raw == 60000 || raw == 80000 || raw == 100000 || raw == 120000 || raw == 150000 || raw == 200000

-- (w >> 8) & 0x0F and w & 0x0F are remainders of a division by 16.
unfoldable pub decode_capabilities : List ℕ → Result DecodeError ProfileCapabilities
unfolding require_word_count is_supported_jks_family_rated_power_raw
decode_capabilities values = do
  require_word_count capability values 3
  let rated_power_raw = u32_of (word_at values 0) (word_at values 1)
  let mppt_count = word_at values 2 / 256 % 16
  let phase_count = word_at values 2 % 16
  reject
      (not (is_supported_jks_family_rated_power_raw rated_power_raw)
        || not (mppt_count == 2)
        || not (phase_count == 3)
        || not (word_at values 2 == 0x0203))
      (capability_refused rated_power_raw (word_at values 2))
  ok (record {
    rated_power_w = tenths rated_power_raw;
    mppt_count = mppt_count;
    phase_count = phase_count;
  })

unfoldable pub decode_warning_fault_words : List ℕ → Result DecodeError (List ℕ)
unfolding require_word_count
decode_warning_fault_words values = do require_word_count warning_fault values 6; ok values

unfoldable pub decode_power_and_ac_relay_status : List ℕ → Result DecodeError (ℕ × ℕ)
unfolding require_word_count
decode_power_and_ac_relay_status values = do
  require_word_count relay_status values 2
  let power_status = word_at values 0 % 16
  reject (ltb 1 power_status) (power_status_code power_status)
  ok (power_status, word_at values 1)

unfoldable pub decode_run_state : List ℕ → Result DecodeError ℕ
unfolding require_word_count
decode_run_state values = do
  require_word_count run_state values 6
  reject (ltb 5 (word_at values 0)) (run_state_code (word_at values 0))
  ok (word_at values 0)
