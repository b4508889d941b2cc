-- ===== src/Modbus/Decode/Examples.antt =====
-- Concrete register blocks of the profile.
use jinko_exporter.Prelude.{◌≡◌, refl, ◌↔◌, arith, List, [], ◌∷◌, ok}
use jinko_exporter.Prelude.Int.{ℤ, pos, negsuc, ◌+ℤ◌, ◌*ℤ◌}
use jinko_exporter.Modbus.Decode.Words.{battery_temperature}
use jinko_exporter.Modbus.Decode.Gates.{
  ProfileCapabilities, decode_capabilities, decode_run_state, decode_power_and_ac_relay_status,
}
use jinko_exporter.Modbus.Decode.Scalars.{
  PvInputs, decode_pv_inputs, decode_temperature, check_pv_channel,
}
use jinko_exporter.Modbus.Decode.Powers.{
  decode_grid_powers, decode_internal_grid_powers, four_pairs, signed_pair, check_phase_sum,
  four_watts, watts,
}
use jinko_exporter.Modbus.Decode.Coherence.{low_words, high_words, grid_powers_torn}
use jinko_exporter.Modbus.Decode.Domains.{
  IsFamilyBlock, capabilities_exactly, IsWithinEnvelope, pv_inputs-IsWithinEnvelope,
}

-- Two samples of four powers, on the two sides of zero.
torn_refused :
    decode_grid_powers
      (low_words (pos 1) (pos 2) (pos 3) (pos 6))
      (high_words (pos 1) (pos 2) (pos 3) (pos 6))
    ≡ ok (pos 100 ∷ pos 200 ∷ pos 300 ∷ pos 600 ∷ [])
unfolding decode_grid_powers four_pairs signed_pair check_phase_sum watts ◌+ℤ◌ ◌*ℤ◌
torn_refused = refl

grid_powers_torn_example :
    (◌≡◌ {A = List ℤ}
      (pos 100 ∷ pos 200 ∷ pos 300 ∷ pos 600 ∷ [])
      (four_watts (pos 1, pos 2, pos 3, pos 6)))
    × (pos 1 +ℤ pos 2 +ℤ pos 3 ≡ pos 6)
grid_powers_torn_example =
    grid_powers_torn (pos 1) (pos 2) (pos 3) (pos 6) (pos 1) (pos 2) (pos 3) (pos 6)
      (refl, refl, refl, refl) (refl, refl, refl, refl) (pos 100 ∷ pos 200 ∷ pos 300 ∷ pos 600 ∷ [])
      torn_refused

internal_sample :
    decode_internal_grid_powers
      (low_words (negsuc 0) (pos 2) (pos 3) (pos 9))
      (high_words (negsuc 4) (pos 8) (pos 3) (pos 6))
    ≡ ok (negsuc 99 ∷ pos 200 ∷ pos 300 ∷ pos 900 ∷ [])
unfolding decode_internal_grid_powers four_pairs signed_pair watts ◌*ℤ◌
internal_sample = refl

abbrev twelve_kw : ProfileCapabilities
twelve_kw = record { rated_power_w = pos 1200000; mppt_count = 2; phase_count = 3 }

-- 120000 is 0x0001D4C0.
twelve_kw_decodes : decode_capabilities (0xD4C0 ∷ 1 ∷ 0x0203 ∷ []) ≡ ok twelve_kw
unfolding decode_capabilities
twelve_kw_decodes = refl

capabilities_exactly_example :
    (decode_capabilities (0xD4C0 ∷ 1 ∷ 0x0203 ∷ []) ≡ ok twelve_kw)
    ↔ IsFamilyBlock (0xD4C0 ∷ 1 ∷ 0x0203 ∷ []) twelve_kw
capabilities_exactly_example =
    capabilities_exactly (0xD4C0 ∷ 1 ∷ 0x0203 ∷ []) twelve_kw (omega arith)

abbrev sunny : PvInputs
sunny = record {
  powers_w = (pos 300000, pos 200000);
  voltages_v = (pos 60000, pos 61000);
  currents_a = (pos 500, pos 330);
  total_power_w = pos 500000;
}

sunny_decodes :
    decode_pv_inputs (300 ∷ 200 ∷ 0 ∷ 0 ∷ 6000 ∷ 50 ∷ 6100 ∷ 33 ∷ []) (pos 1200000) ≡ ok sunny
unfolding decode_pv_inputs check_pv_channel ◌+ℤ◌ ◌*ℤ◌
sunny_decodes = refl

pv_inputs-IsWithinEnvelope_example : IsWithinEnvelope (pos 1200000) sunny
pv_inputs-IsWithinEnvelope_example =
    pv_inputs-IsWithinEnvelope (300 ∷ 200 ∷ 0 ∷ 0 ∷ 6000 ∷ 50 ∷ 6100 ∷ 33 ∷ []) (pos 1200000) sunny
      sunny_decodes

below_zero : decode_temperature battery_temperature 0 950 ≡ ok (negsuc 499)
unfolding decode_temperature
below_zero = refl

running : decode_run_state (2 ∷ 9 ∷ 9 ∷ 9 ∷ 9 ∷ 9 ∷ []) ≡ ok 2
unfolding decode_run_state
running = refl

relays : decode_power_and_ac_relay_status (0x00F1 ∷ 0x8005 ∷ []) ≡ ok (1, 0x8005)
unfolding decode_power_and_ac_relay_status
relays = refl
