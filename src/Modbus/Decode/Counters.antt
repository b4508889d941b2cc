-- ===== src/Modbus/Decode/Counters.antt =====
-- decode.go: the energy counters.
use jinko_exporter.Prelude.{ℕ, ◌+◌, List, [], ◌∷◌, Result, ok, ◌>>◌}
use jinko_exporter.Prelude.Int.{ℤ}
use jinko_exporter.Modbus.Decode.Words.{
  DecodeError, MetricValue, require_word_count, word_at, tenths, u32_of, energy,
}

abbrev pub u16 : List ℕ → ℕ → ℤ
u16 values index = tenths (word_at values index)

abbrev pub u32_low_first : List ℕ → ℕ → ℤ
u32_low_first values low_index =
    tenths (u32_of (word_at values low_index) (word_at values (low_index + 1)))

unfoldable pub decode_energy_metrics : List ℕ → Result DecodeError (List MetricValue)
unfolding require_word_count
decode_energy_metrics values = do
  require_word_count energy values 16
  let daily_pv = u16 values 15
  ok (
      record { key = "Etdy_cg1"; value = u16 values 0 }
      ∷ record { key = "Etdy_dcg1"; value = u16 values 1 }
      ∷ record { key = "t_cg_n1"; value = u32_low_first values 2 }
      ∷ record { key = "t_dcg_n1"; value = u32_low_first values 4 }
      ∷ record { key = "E_B_D"; value = u16 values 6 }
      ∷ record { key = "E_S_D"; value = u16 values 7 }
      ∷ record { key = "E_B_TO"; value = u32_low_first values 8 }
      ∷ record { key = "E_S_TO"; value = u32_low_first values 10 }
      ∷ record { key = "Etdy_use1"; value = u16 values 12 }
      ∷ record { key = "E_C_T"; value = u32_low_first values 13 }
      ∷ record { key = "PV_D_P_G"; value = daily_pv }
      ∷ record { key = "Etdy_ge1"; value = daily_pv }
      ∷ [])
