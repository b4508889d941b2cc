-- ===== src/Modbus/Decode/Powers.antt =====
-- decode.go: powers of 32 bits, read as a block of low words and a block of high words.
use jinko_exporter.Prelude.{
  ℕ, ◌+◌, Bool, ◌&&◌, ◌||◌, not, List, [], ◌∷◌, ◌==◌, Result, ok, ◌>>=◌, ◌>>◌, reject,
}
use jinko_exporter.Prelude.Int.{ℤ, pos, negsuc, ltb_ℤ, ◌+ℤ◌, ◌*ℤ◌}
use jinko_exporter.Modbus.Decode.Words.{
  Block, DecodeError, require_word_count, word_at, units, signed16, signed32, u32_of, ups_voltage,
  ups_high, direct_low, direct_high, grid_low, grid_high, output_block, output_high, ct_block,
  ct_high, internal_low, internal_high, high_word, incoherent, phase_sum,
}

-- The symmetric envelope, 0x7FFF W, that every signed power shares.
abbrev pub is_coherent : ℤ → Bool
is_coherent raw = not (ltb_ℤ raw (negsuc 32766) || ltb_ℤ (pos 32767) raw)

-- One round of a loop over signed pairs: the high word must be a sign extension, and the pair must
-- lie in the envelope. The result is the raw `int32`, in watts.
unfoldable pub signed_pair : Block → ℕ → ℕ → ℕ → Result DecodeError ℤ
signed_pair block index low high = do
  reject (not (high == 0x0000) && not (high == 0xFFFF)) (high_word block index high)
  let raw = signed32 (u32_of low high)
  reject (not (is_coherent raw)) (incoherent block index raw)
  ok raw

-- float64(raw), in hundredths
unfoldable pub watts : ℤ → ℤ
unfolding ◌*ℤ◌
watts raw = pos 100 *ℤ raw

-- The four raw values of a block of pairs, by the words at an offset of each block.
unfoldable pub four_pairs : Block → List ℕ → ℕ → List ℕ → Result DecodeError (ℤ × ℤ × ℤ × ℤ)
four_pairs block low_words offset high_words = do
  a ← signed_pair block 0 (word_at low_words offset) (word_at high_words 0)
  b ← signed_pair block 1 (word_at low_words (offset + 1)) (word_at high_words 1)
  c ← signed_pair block 2 (word_at low_words (offset + 2)) (word_at high_words 2)
  d ← signed_pair block 3 (word_at low_words (offset + 3)) (word_at high_words 3)
  ok (a, b, c, d)

abbrev pub four_watts : ℤ × ℤ × ℤ × ℤ → List ℤ
four_watts (a, b, c, d) = watts a ∷ watts b ∷ watts c ∷ watts d ∷ []

-- `phaseSum != total`; both are whole watts.
abbrev pub same_ℤ : ℤ → ℤ → Bool
same_ℤ a b = not (ltb_ℤ a b) && not (ltb_ℤ b a)

-- The three phases must sum to the total exactly.
unfoldable pub check_phase_sum : Block → ℤ × ℤ × ℤ × ℤ → Result DecodeError (List ℤ)
check_phase_sum block (a, b, c, d) = do
  reject (not (same_ℤ (a +ℤ b +ℤ c) d)) (phase_sum block (a +ℤ b +ℤ c) d)
  ok (four_watts (a, b, c, d))

unfoldable pub decode_grid_powers : List ℕ → List ℕ → Result DecodeError (List ℤ)
unfolding require_word_count
decode_grid_powers low_words high_words = do
  require_word_count grid_low low_words 4
  require_word_count grid_high high_words 4
  raw_values ← four_pairs grid_high low_words 0 high_words
  check_phase_sum grid_high raw_values

unfoldable pub decode_output_active_powers : List ℕ → List ℕ → Result DecodeError (List ℤ)
unfolding require_word_count
decode_output_active_powers output_words high_words = do
  require_word_count output_block output_words 12
  require_word_count output_high high_words 5
  raw_values ← four_pairs output_high output_words 6 high_words
  check_phase_sum output_high raw_values

unfoldable pub decode_internal_grid_powers : List ℕ → List ℕ → Result DecodeError (List ℤ)
unfolding require_word_count
decode_internal_grid_powers low_words high_words = do
  require_word_count internal_low low_words 4
  require_word_count internal_high high_words 4
  raw_values ← four_pairs internal_high low_words 0 high_words
  ok (four_watts raw_values)

pub record ExternalCtReadings : Type 0 where
  pub currents_a : List ℤ
  pub powers_w : List ℤ

unfoldable pub decode_external_ct : List ℕ → List ℕ → Result DecodeError ExternalCtReadings
unfolding require_word_count
decode_external_ct grid_words high_words = do
  require_word_count ct_block grid_words 11
  require_word_count ct_high high_words 4
  raw_values ← four_pairs ct_high grid_words 7 high_words
  ok (record {
    currents_a =
        signed16 (word_at grid_words 4)
        ∷ signed16 (word_at grid_words 5)
        ∷ signed16 (word_at grid_words 6)
        ∷ [];
    powers_w = four_watts raw_values;
  })

pub record DirectLoadPowers : Type 0 where
  pub phases_w : List ℤ
  pub total_w : ℤ

-- The high words stand behind the frequency word of their block.
unfoldable pub decode_direct_load_powers : List ℕ → List ℕ → Result DecodeError DirectLoadPowers
unfolding require_word_count
decode_direct_load_powers low_words frequency_words = do
  require_word_count direct_low low_words 4
  require_word_count direct_high frequency_words 5
  a ← signed_pair direct_high 0 (word_at low_words 0) (word_at frequency_words 1)
  b ← signed_pair direct_high 1 (word_at low_words 1) (word_at frequency_words 2)
  c ← signed_pair direct_high 2 (word_at low_words 2) (word_at frequency_words 3)
  reject (not (word_at frequency_words 4 == 0))
      (high_word direct_high 3 (word_at frequency_words 4))
  ok (record { phases_w = watts a ∷ watts b ∷ watts c ∷ []; total_w = units (word_at low_words 3) })

-- One round of the unsigned loop: only a zero high word is accepted.
unfoldable pub unsigned_pair : ℕ → ℕ → ℕ → Result DecodeError ℤ
unsigned_pair index low high = do
  reject (not (high == 0)) (high_word ups_high index high)
  ok (units (u32_of low high))

unfoldable pub decode_ups_powers : List ℕ → List ℕ → Result DecodeError (List ℤ)
unfolding require_word_count unsigned_pair
decode_ups_powers load_words high_words = do
  require_word_count ups_voltage load_words 7
  require_word_count ups_high high_words 4
  a ← unsigned_pair 0 (word_at load_words 0) (word_at high_words 0)
  b ← unsigned_pair 1 (word_at load_words 1) (word_at high_words 1)
  c ← unsigned_pair 2 (word_at load_words 2) (word_at high_words 2)
  d ← unsigned_pair 3 (word_at load_words 3) (word_at high_words 3)
  ok (a ∷ b ∷ c ∷ d ∷ [])
