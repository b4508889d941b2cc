-- ===== src/Modbus/Decode/Domains.antt =====
-- What a decoder that succeeds has established of its words.
use jinko_exporter.Prelude.{
  ℕ, ◌<◌, ◌+◌, ◌*◌, ◌%◌, ◌≤◌, ◌≡◌, refl, ap, ◌∙◌, ◌↔◌, ◌⊎◌, List, [], ◌∷◌, length, replicate, ok,
  arith,
}
use jinko_exporter.Prelude.Int.{ℤ, pos, negsuc, ◌+ℤ◌, ◌*ℤ◌, ◌≤ℤ◌}
use jinko_exporter.Modbus.Decode.Words.{Block, word_at, tenths, units, u32_of, temperature_of}
use jinko_exporter.Modbus.Decode.Gates.{
  ProfileCapabilities, require_zero_generator_words, decode_generator_electrical_zero_only,
  decode_generator_energy_zero_only, generator_electrical_zeros, generator_energy_zeros,
  decode_capabilities, is_supported_jks_family_rated_power_raw, decode_power_and_ac_relay_status,
  decode_run_state,
}
use jinko_exporter.Modbus.Decode.Scalars.{
  PvInputs, check_pv_channel, decode_pv_inputs, decode_temperature,
}
use jinko_exporter.Modbus.Protocol.Response.{AreWords}
use jinko_exporter.Modbus.Decode.Powers.{decode_ups_powers}

zero_words :
    (register : ℕ) (values : List ℕ)
    → (require_zero_generator_words register values ≡ ok tt)
      ↔ (values ≡ replicate (length values) 0)
unfolding require_zero_generator_words
zero_words register [] = (λ h. refl, λ h. refl)
zero_words register (v ∷ values) =
    let ih = zero_words (register + 1) values in
    (λ h. ground (arith, ih.0), λ h. ground (arith, ih.1))

energy_passed :
    (e : List ℕ)
    → decode_generator_energy_zero_only e ≡ ok generator_energy_zeros
    → (length e ≡ 4) × (require_zero_generator_words 536 e ≡ ok tt)
unfolding decode_generator_energy_zero_only
energy_passed e h = ground arith

electrical_passed :
    (g : List ℕ)
    → decode_generator_electrical_zero_only g ≡ ok generator_electrical_zeros
    → (length g ≡ 11) × (require_zero_generator_words 661 g ≡ ok tt)
unfolding decode_generator_electrical_zero_only
electrical_passed g h = ground arith

-- The two generator blocks are accepted exactly when they have their 4 and 11 words and all are
-- zero; then the published metrics are the fixed zeros.
generator_zero_only :
    (e g : List ℕ)
    → ((decode_generator_energy_zero_only e ≡ ok generator_energy_zeros) ↔ (e ≡ replicate 4 0))
      × ((decode_generator_electrical_zero_only g ≡ ok generator_electrical_zeros)
          ↔ (g ≡ replicate 11 0))
unfolding decode_generator_energy_zero_only decode_generator_electrical_zero_only
generator_zero_only e g = (
  (
    λ h.
        let (len, zeros) = energy_passed e h in
        (zero_words 536 e).0 zeros ∙ ap (λ n. replicate n 0) len,
    λ h. rw h (unfold require_zero_generator_words in refl),
  ),
  (
    λ h.
        let (len, zeros) = electrical_passed g h in
        (zero_words 661 g).0 zeros ∙ ap (λ n. replicate n 0) len,
    λ h. rw h (unfold require_zero_generator_words in refl),
  ),
)

-- The rated powers of the family, in hundredths of a watt.
abbrev pub IsFamilyPower : ℤ → Type 0
IsFamilyPower p =
    (p ≡ pos 600000)
    ⊎ (p ≡ pos 800000)
    ⊎ (p ≡ pos 1000000)
    ⊎ (p ≡ pos 1200000)
    ⊎ (p ≡ pos 1500000)
    ⊎ (p ≡ pos 2000000)

-- What a capability block that was accepted is known to say, whatever its words.
pub capabilities_supported :
    (values : List ℕ) (c : ProfileCapabilities)
    → decode_capabilities values ≡ ok c
    → IsFamilyPower c.rated_power_w
      × (c.mppt_count ≡ 2)
      × (c.phase_count ≡ 3)
      × (word_at values 2 ≡ 0x0203)
      × (c.rated_power_w ≡ tenths (u32_of (word_at values 0) (word_at values 1)))
unfolding decode_capabilities
capabilities_supported values c h = ground arith

-- The block of three words of an inverter of the family, and what it says: the rated power, given in
-- watts, two trackers and three phases.
abbrev pub IsBlockOf : ℕ → ℕ → ℕ → List ℕ → ProfileCapabilities → Type 0
IsBlockOf low high watts values c =
    (values ≡ low ∷ high ∷ 0x0203 ∷ [])
    × (c.rated_power_w ≡ pos (100 * watts))
    × (c.mppt_count ≡ 2)
    × (c.phase_count ≡ 3)

abbrev pub IsFamilyBlock : List ℕ → ProfileCapabilities → Type 0
IsFamilyBlock values c =
    IsBlockOf 0xEA60 0 6000 values c
    ⊎ IsBlockOf 0x3880 1 8000 values c
    ⊎ IsBlockOf 0x86A0 1 10000 values c
    ⊎ IsBlockOf 0xD4C0 1 12000 values c
    ⊎ IsBlockOf 0x49F0 2 15000 values c
    ⊎ IsBlockOf 0x0D40 3 20000 values c

three_words :
    (low high third : ℕ) (c : ProfileCapabilities)
    → low < 65536
    → high < 65536
    → decode_capabilities (low ∷ high ∷ third ∷ []) ≡ ok c
    → IsFamilyBlock (low ∷ high ∷ third ∷ []) c
unfolding decode_capabilities is_supported_jks_family_rated_power_raw
three_words low high third c lt lt' h = ground arith

family_decodes :
    (values : List ℕ) (c : ProfileCapabilities)
    → IsFamilyBlock values c
    → decode_capabilities values ≡ ok c
unfolding decode_capabilities is_supported_jks_family_rated_power_raw
family_decodes values c h = ground arith

-- A block of 16-bit words is accepted as the capabilities `c` exactly when it is one of the six blocks
-- of three words of the family, and `c` is what that block says.
pub capabilities_exactly :
    (values : List ℕ) (c : ProfileCapabilities)
    → AreWords values
    → (decode_capabilities values ≡ ok c) ↔ IsFamilyBlock values c
unfolding decode_capabilities
capabilities_exactly (low ∷ high ∷ third ∷ []) c (lt, (lt', _)) =
    (three_words low high third c lt lt', family_decodes (low ∷ high ∷ third ∷ []) c)
capabilities_exactly [] c h = (λ e. absurd (cc), family_decodes [] c)
capabilities_exactly (a ∷ []) c h = (λ e. absurd (cc), family_decodes (a ∷ []) c)
capabilities_exactly (a ∷ b ∷ []) c h = (λ e. absurd (cc), family_decodes (a ∷ b ∷ []) c)
capabilities_exactly (x ∷ y ∷ z ∷ w ∷ ws) c h =
    (λ e. absurd (ground arith), family_decodes (x ∷ y ∷ z ∷ w ∷ ws) c)

-- The UPS block is accepted exactly when it has its words and every high word is zero; then the four
-- powers are the low words unchanged, with no sum required of them.
ups_powers_exactly :
    (loads highs : List ℕ) (v : List ℤ)
    → (decode_ups_powers loads highs ≡ ok v) ↔ (
        (length loads ≡ 7)
        × (highs ≡ replicate 4 0)
        × (v
            ≡ units (word_at loads 0)
              ∷ units (word_at loads 1)
              ∷ units (word_at loads 2)
              ∷ units (word_at loads 3)
              ∷ []))
unfolding decode_ups_powers
ups_powers_exactly loads [] v = ground arith
ups_powers_exactly loads (a ∷ []) v = ground arith
ups_powers_exactly loads (a ∷ b ∷ []) v = ground arith
ups_powers_exactly loads (a ∷ b ∷ c ∷ []) v = ground arith
ups_powers_exactly loads (a ∷ b ∷ c ∷ d ∷ []) v = ground arith
ups_powers_exactly loads (a ∷ b ∷ c ∷ d ∷ e ∷ highs) v = ground arith

-- The envelope of the PV inputs, in hundredths.
pub record IsWithinEnvelope (rated : ℤ) (p : PvInputs) : Type 0 where
  pub power1 : p.powers_w.0 ≤ℤ rated *ℤ pos 2
  pub power2 : p.powers_w.1 ≤ℤ rated *ℤ pos 2
  pub total : p.total_power_w ≤ℤ rated *ℤ pos 2
  pub sum : p.total_power_w ≡ p.powers_w.0 +ℤ p.powers_w.1
  pub voltage1 : p.voltages_v.0 ≤ℤ pos 100000
  pub voltage2 : p.voltages_v.1 ≤ℤ pos 100000
  pub current1 : p.currents_a.0 ≤ℤ pos 10000
  pub current2 : p.currents_a.1 ≤ℤ pos 10000

channel_passed :
    (maximum : ℤ) (i : ℕ) (power voltage current : ℤ)
    → check_pv_channel maximum i power voltage current ≡ ok tt
    → (power ≤ℤ maximum) × (voltage ≤ℤ pos 100000) × (current ≤ℤ pos 10000)
unfolding check_pv_channel
channel_passed maximum i power voltage current h = ground arith

-- Accepted PV inputs: each channel and their total lie within twice the rated power, each voltage
-- within 1000 V and each current within 100 A, and the total is the sum of the channels.
pub pv_inputs-IsWithinEnvelope :
    (values : List ℕ) (rated : ℤ) (p : PvInputs)
    → decode_pv_inputs values rated ≡ ok p
    → IsWithinEnvelope rated p
unfolding decode_pv_inputs
pv_inputs-IsWithinEnvelope values rated p h =
    let power1 = pos (1000 * word_at values 0) in
    let power2 = pos (1000 * word_at values 1) in
    ground (
      arith,
      channel_passed (rated *ℤ pos 2) 0 power1 (tenths (word_at values 4))
          (tenths (word_at values 5)),
      channel_passed (rated *ℤ pos 2) 1 power2 (tenths (word_at values 6))
          (tenths (word_at values 7)),
    )

-- An accepted temperature lies between -100 and 100 degrees and is the word less 1000, in tenths.
temperature_in_range :
    (block : Block) (i raw : ℕ) (t : ℤ)
    → decode_temperature block i raw ≡ ok t
    → (t ≡ temperature_of raw) × (negsuc 9999 ≤ℤ t) × (t ≤ℤ pos 10000)
unfolding decode_temperature
temperature_in_range block i raw t h = ground arith

-- An accepted run state is the first word and at most 5; an accepted relay block keeps all 16 bits
-- of the relay word and a power switch state of 0 or 1.
status_codes :
    (rs ws : List ℕ) (code power relay : ℕ)
    → decode_run_state rs ≡ ok code
    → decode_power_and_ac_relay_status ws ≡ ok (power, relay)
    → (code ≡ word_at rs 0)
      × (code ≤ 5)
      × (power ≤ 1)
      × (power ≡ word_at ws 0 % 16)
      × (relay ≡ word_at ws 1)
unfolding decode_run_state decode_power_and_ac_relay_status
status_codes rs ws code power relay h k = ground arith
