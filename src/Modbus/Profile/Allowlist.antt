-- ===== src/Modbus/Profile/Allowlist.antt =====
-- Facts of the allowlist that the frames rest on.
use jinko_exporter.Prelude.{
  ℕ, ◌+◌, ◌*◌, ◌≤◌, ◌<◌, ◌≡◌, sym, ap, ◌∙◌, none, some, List, [], ◌∷◌, ◌==◌, if◌then◌else◌, arith,
}
use jinko_exporter.Modbus.Profile.{
  ReadId, ReadSpec, id_byte, approved_read_spec, unlisted, device_type_read, ups_power_high_read,
  grid_voltage_read, capability_read, battery_temperature_read, battery_voltage_soc_read,
  battery_flow_read, energy_read, grid_power_low_read, grid_power_high_read, output_scalar_read,
  load_voltage_read, direct_load_power_low_read, load_frequency_read, pv_input_read,
  inverter_temperature_read, warning_fault_read, run_state_read, grid_frequency_current_read,
  generator_port_mode_read, generator_energy_read, generator_electrical_read,
  output_power_high_read, relay_status_read, external_ct_power_high_read,
  internal_grid_power_low_read, internal_grid_power_high_read, protocol_version_read,
  controller_versions_read, firmware_words_read, battery_input_code_read, bms_mirrors_read,
}

-- Every approved range lies in the 16-bit register space, is not empty, and its response fits the
-- 128 bytes that the transport accepts.
pub record IsBoundedSpec (s : ReadSpec) : Type 0 where
  pub sequence_byte : s.sequence < 256
  pub start_word : s.start < 65536
  pub some_register : 0 < s.quantity
  pub in_space : s.start + s.quantity ≤ 65536
  pub fits_frame : 25 + (5 + s.quantity * 2) + 2 ≤ 128

pub approved-IsBoundedSpec :
    (id : ReadId) (s : ReadSpec) → approved_read_spec id ≡ some s → IsBoundedSpec s
unfolding approved_read_spec
approved-IsBoundedSpec (unlisted b) s h = absurd (cc)
approved-IsBoundedSpec _ s h = ground arith

-- The byte of the first identifier of a list that is read under a sequence number.
sequence_owner : ℕ → List ReadId → ℕ
sequence_owner n [] = 0
sequence_owner n (id ∷ ids) =
    let rest = sequence_owner n ids in
    elim (approved_read_spec id) [
      | none ↦ rest
      | some s ↦ if s.sequence == n then id_byte id else rest
    ]

abbrev constants : List ReadId
constants =
    device_type_read ∷ ups_power_high_read ∷ grid_voltage_read ∷ capability_read
    ∷ battery_temperature_read ∷ battery_voltage_soc_read ∷ battery_flow_read ∷ energy_read
    ∷ grid_power_low_read ∷ grid_power_high_read ∷ output_scalar_read ∷ load_voltage_read
    ∷ direct_load_power_low_read ∷ load_frequency_read ∷ pv_input_read ∷ inverter_temperature_read
    ∷ warning_fault_read ∷ run_state_read ∷ grid_frequency_current_read ∷ generator_port_mode_read
    ∷ generator_energy_read ∷ generator_electrical_read ∷ output_power_high_read ∷ relay_status_read
    ∷ external_ct_power_high_read ∷ internal_grid_power_low_read ∷ internal_grid_power_high_read
    ∷ protocol_version_read ∷ controller_versions_read ∷ firmware_words_read
    ∷ battery_input_code_read ∷ bms_mirrors_read ∷ []

owner-sequence :
    (id : ReadId) (s : ReadSpec)
    → approved_read_spec id ≡ some s
    → sequence_owner s.sequence constants ≡ id_byte id
unfolding approved_read_spec sequence_owner id_byte
owner-sequence (unlisted b) s h = absurd (cc)
owner-sequence _ s h = ground arith

-- Two approved reads that share a sequence number are the same read.
pub sequence_injective :
    (id id' : ReadId) (s s' : ReadSpec)
    → approved_read_spec id ≡ some s
    → approved_read_spec id' ≡ some s'
    → s.sequence ≡ s'.sequence
    → id_byte id ≡ id_byte id'
sequence_injective id id' s s' h h' e =
    sym (owner-sequence id s h) ∙ ap (λ n. sequence_owner n constants) e ∙ owner-sequence id' s' h'
