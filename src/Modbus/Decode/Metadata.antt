-- ===== src/Modbus/Decode/Metadata.antt =====
-- metadata.go: the raw firmware words as labels.
use Prim.Native.String.{String, ◌++◌}
use jinko_exporter.Prelude.{ℕ, ◌/◌, List, [], ◌∷◌, ltb, Result, ok, ◌>>◌, reject}
use jinko_exporter.Prelude.Digits.{hex2, hex4, decimal}
use jinko_exporter.Modbus.Decode.Words.{
  DecodeError, require_word_count, word_at, protocol_version, controller_versions, firmware,
  battery_input, battery_input_code,
}

unfoldable pub decode_metadata :
    List ℕ → List ℕ → List ℕ → List ℕ → Result DecodeError (List (String × String))
unfolding require_word_count
decode_metadata protocol controller words battery = do
  require_word_count protocol_version protocol 1
  require_word_count controller_versions controller 1
  require_word_count firmware words 5
  require_word_count battery_input battery 1
  reject (ltb 4 (word_at battery 0)) (battery_input_code (word_at battery 0))
  ok (
      ("protocol_version_hex", hex4 (word_at protocol 0))
      ∷ ("control_firmware_words", hex4 (word_at words 0) ++ "-" ++ hex4 (word_at words 1))
      ∷ (
        "communication_firmware_words",
        hex4 (word_at words 2) ++ "-" ++ hex4 (word_at words 3) ++ "-" ++ hex4 (word_at words 4),
      )
      ∷ ("bootloader_version_hex", hex2 (word_at controller 0))
      ∷ ("assistant_version_hex", hex2 (word_at controller 0 / 256))
      ∷ ("battery_input_code", decimal (word_at battery 0))
      ∷ [])
