-- ===== src/Modbus/Decode/Coherence.antt =====
-- Why the envelope of the signed pairs makes a torn pair of reads fail closed.
use jinko_exporter.Prelude.{
  Result-cases, ◌⊎◌, inl, inr, ap, ◌∙◌, err, ℕ, ◌-◌, ◌%◌, ◌/◌, ◌≡◌, List, [], ◌∷◌, ok, arith, true,
}
use jinko_exporter.Prelude.Int.{ℤ, pos, negsuc, ◌+ℤ◌, eq_of_parts}
use jinko_exporter.Modbus.Decode.Words.{Block, DecodeError, grid_high, internal_high}
use jinko_exporter.Modbus.Decode.Powers.{
  is_coherent, signed_pair, four_pairs, four_watts, check_phase_sum, decode_grid_powers,
  decode_internal_grid_powers,
}

-- The two words in which the inverter holds a signed power of 32 bits.
abbrev pub low_word : ℤ → ℕ
low_word (pos n) = n % 65536
low_word (negsuc n) = 65535 - n % 65536

abbrev pub high_word_of : ℤ → ℕ
high_word_of (pos n) = n / 65536 % 65536
high_word_of (negsuc n) = 65535 - n / 65536 % 65536

-- A power that the envelope admits.
abbrev pub Admitted : ℤ → Type 0
Admitted x = is_coherent x ≡ true

-- The words of one admitted power are read back as that power.
pub signed_pair-words :
    (block : Block) (i : ℕ) (x : ℤ)
    → Admitted x
    → signed_pair block i (low_word x) (high_word_of x) ≡ ok x
unfolding signed_pair
signed_pair-words block i (pos n) h = ground arith
signed_pair-words block i (negsuc n) h = ground arith

-- The low word of one admitted power with the high word of another, as when the power changes sign
-- between the two reads, is refused or gives the power of the low word.
pub signed_pair-torn :
    (block : Block) (i : ℕ) (x y v : ℤ)
    → Admitted x
    → Admitted y
    → signed_pair block i (low_word x) (high_word_of y) ≡ ok v
    → v ≡ x
unfolding signed_pair
signed_pair-torn block i (pos n) (pos m) v hx hy h = ground arith
signed_pair-torn block i (pos n) (negsuc m) v hx hy h = ground arith
signed_pair-torn block i (negsuc n) (pos m) v hx hy h = ground arith
signed_pair-torn block i (negsuc n) (negsuc m) v hx hy h = ground arith

torn_or_refused :
    (block : Block) (i : ℕ) (x y : ℤ)
    → Admitted x
    → Admitted y
    → (signed_pair block i (low_word x) (high_word_of y) ≡ ok x)
      ⊎ ((e : DecodeError) × (signed_pair block i (low_word x) (high_word_of y) ≡ err e))
torn_or_refused block i x y hx hy =
    elim (Result-cases (signed_pair block i (low_word x) (high_word_of y))) [
      | inl (v, e) ↦ inl (e ∙ ap ok (signed_pair-torn block i x y v hx hy e))
      | inr refused ↦ inr refused
    ]

abbrev pub low_words : ℤ → ℤ → ℤ → ℤ → List ℕ
low_words a b c d = low_word a ∷ low_word b ∷ low_word c ∷ low_word d ∷ []

abbrev pub high_words : ℤ → ℤ → ℤ → ℤ → List ℕ
high_words a b c d = high_word_of a ∷ high_word_of b ∷ high_word_of c ∷ high_word_of d ∷ []

-- The low words of one set of four admitted powers and the high words of another.
module _ (x0 x1 x2 x3 y0 y1 y2 y3 : ℤ) (hx : Admitted x0 × Admitted x1 × Admitted x2 × Admitted x3)
    (hy : Admitted y0 × Admitted y1 × Admitted y2 × Admitted y3) where
  -- A whole block decodes to the powers of its low words, or not at all.
  four_pairs-torn :
      (block : Block) (r : ℤ × ℤ × ℤ × ℤ)
      → four_pairs block (low_words x0 x1 x2 x3) 0 (high_words y0 y1 y2 y3) ≡ ok r
      → r ≡ (x0, x1, x2, x3)
  unfolding four_pairs
  four_pairs-torn block r h = ground (
    arith,
    torn_or_refused block 0 x0 y0 hx.0 hy.0,
    torn_or_refused block 1 x1 y1 hx.1 hy.1,
    torn_or_refused block 2 x2 y2 hx.2 hy.2,
    torn_or_refused block 3 x3 y3 hx.3 hy.3,
  )

-- As a case split: what a torn block decodes to.
module _ (x0 x1 x2 x3 y0 y1 y2 y3 : ℤ) (hx : Admitted x0 × Admitted x1 × Admitted x2 × Admitted x3)
    (hy : Admitted y0 × Admitted y1 × Admitted y2 × Admitted y3) (block : Block) where
  four_cases :
      let r = four_pairs block (low_words x0 x1 x2 x3) 0 (high_words y0 y1 y2 y3) in
      (r ≡ ok (x0, x1, x2, x3)) ⊎ ((e : DecodeError) × (r ≡ err e))
  four_cases =
      let r = four_pairs block (low_words x0 x1 x2 x3) 0 (high_words y0 y1 y2 y3) in
      elim (Result-cases r) [
        | inl (v, e) ↦ inl (e ∙ ap ok (four_pairs-torn x0 x1 x2 x3 y0 y1 y2 y3 hx hy block v e))
        | inr refused ↦ inr refused
      ]

check_phase_sum-ok :
    (block : Block) (a b c d : ℤ) (v : List ℤ)
    → check_phase_sum block (a, b, c, d) ≡ ok v
    → (v ≡ four_watts (a, b, c, d)) × (a +ℤ b +ℤ c ≡ d)
unfolding check_phase_sum
check_phase_sum-ok block a b c d v h = ground (arith, eq_of_parts (a +ℤ b +ℤ c) d)

module _ (x0 x1 x2 x3 y0 y1 y2 y3 : ℤ) (hx : Admitted x0 × Admitted x1 × Admitted x2 × Admitted x3)
    (hy : Admitted y0 × Admitted y1 × Admitted y2 × Admitted y3) where
  -- Grid powers whose low words come from one admitted sample and whose high words come from another
  -- decode to the first sample, whose phases then sum to its total, or are refused.
  pub grid_powers_torn :
      (v : List ℤ)
      → decode_grid_powers (low_words x0 x1 x2 x3) (high_words y0 y1 y2 y3) ≡ ok v
      → (v ≡ four_watts (x0, x1, x2, x3)) × (x0 +ℤ x1 +ℤ x2 ≡ x3)
  unfolding decode_grid_powers
  grid_powers_torn v h = elim (four_cases x0 x1 x2 x3 y0 y1 y2 y3 hx hy grid_high) [
    | inl e ↦ check_phase_sum-ok grid_high x0 x1 x2 x3 v (ground (arith, e))
    | inr (x, e) ↦ absurd (ground (arith, e))
  ]

  -- Likewise for the internal grid powers: low words of one set of four powers in the envelope and
  -- high words of another decode to the powers of the low words, or are refused. Their total is a
  -- reading of its own and need not be the sum.
  internal_grid_powers_torn :
      (v : List ℤ)
      → decode_internal_grid_powers (low_words x0 x1 x2 x3) (high_words y0 y1 y2 y3) ≡ ok v
      → v ≡ four_watts (x0, x1, x2, x3)
  unfolding decode_internal_grid_powers
  internal_grid_powers_torn v h =
      ground (arith, four_cases x0 x1 x2 x3 y0 y1 y2 y3 hx hy internal_high)
