-- ===== src/Modbus/Protocol.antt =====
-- bridge/internal/source/modbus/protocol.go: V5 frames around Modbus FC03 requests and responses.
pub mod Request
pub mod Response
pub mod Accepted
use jinko_exporter.Prelude.{
  ℕ, zero, suc, ◌+◌, ◌-◌, ◌*◌, ◌/◌, Bool, ◌&&◌, ◌||◌, not, none, some, List, [], ◌∷◌, length,
  replicate, ltb, ◌==◌, if◌then◌else◌, Result, ok, err, ◌>>◌, reject,
}
use jinko_exporter.Modbus.Bytes.{
  byte_at, slice, put, all_zero, low_byte, le16_bytes, be16_bytes, le32_bytes, le16_at, be16_at,
  le32_at, checksum8, modbus_crc, valid_modbus_crc,
}
use jinko_exporter.Modbus.Profile.{
  ReadId, ReadSpec, approved_read_spec, modbus_unit_id, read_holding_registers,
}

abbrev pub v5_request_length : ℕ
v5_request_length = 36

abbrev pub v5_request_rtu_offset : ℕ
v5_request_rtu_offset = 26

abbrev pub v5_response_rtu_offset : ℕ
v5_response_rtu_offset = 25

abbrev pub max_v5_frame_length : ℕ
max_v5_frame_length = 128

-- One constructor for each error message of the file.
pub data ProtocolError : Type 0 where
  zero_serial : ProtocolError
  unit_not_approved : ℕ → ProtocolError
  id_not_listed : ReadId → ProtocolError
  request_not_listed : ProtocolError
  request_length : ℕ → ProtocolError
  request_markers request_length_field request_control request_serial : ProtocolError
  request_reserved request_checksum request_crc request_function request_range : ProtocolError
  response_not_listed : ProtocolError
  response_short : ℕ → ProtocolError
  response_markers : ProtocolError
  response_length : ℕ → ℕ → ProtocolError
  response_checksum : ProtocolError
  response_control : ℕ → ℕ → ProtocolError
  response_sequence : ℕ → ProtocolError
  response_serial : ProtocolError
  response_status : ℕ → ℕ → ProtocolError
  response_no_rtu exception_crc : ProtocolError
  modbus_exception : ℕ → ProtocolError
  rtu_length : ℕ → ℕ → ProtocolError
  rtu_crc : ProtocolError
  rtu_header : ℕ → ℕ → ℕ → ProtocolError

-- The bytes that `buildReadRequest` writes, in its order, before it validates them.
unfoldable pub request_frame : ℕ → ℕ → ReadSpec → List ℕ
request_frame logger_serial unit spec =
    let f0 = put (replicate v5_request_length 0) 0 (0xA5 ∷ []) in
    let f1 = put f0 1 (le16_bytes (v5_request_length - 13)) in
    let f2 = put f1 3 (0x10 ∷ 0x45 ∷ spec.sequence ∷ 0x00 ∷ []) in
    let f3 = put f2 7 (le32_bytes logger_serial) in
    let f4 = put f3 11 (0x02 ∷ []) in
    let f5 = put f4 v5_request_rtu_offset (unit ∷ read_holding_registers ∷ []) in
    let f6 = put f5 28 (be16_bytes spec.start) in
    let f7 = put f6 30 (be16_bytes spec.quantity) in
    let crc = modbus_crc (slice f7 26 32) in
    let f8 = put f7 32 (low_byte crc ∷ low_byte (crc / 256) ∷ []) in
    let f9 = put f8 34 (checksum8 (slice f8 1 34) ∷ []) in put f9 35 (0x15 ∷ [])

-- `validateReadRequest` once its specification is found.
unfoldable pub validate_against : ReadSpec → List ℕ → ℕ → ℕ → Result ProtocolError Unit
validate_against spec frame logger_serial unit = do
  reject (not (length frame == v5_request_length)) (request_length (length frame))
  reject (not (byte_at frame 0 == 0xA5) || not (byte_at frame (length frame - 1) == 0x15))
      request_markers
  reject (not (le16_at frame 1 + 13 == length frame)) request_length_field
  reject
      (not (byte_at frame 3 == 0x10)
        || not (byte_at frame 4 == 0x45)
        || not (byte_at frame 5 == spec.sequence)
        || not (byte_at frame 6 == 0x00))
      request_control
  reject (not (le32_at frame 7 == logger_serial) || not (byte_at frame 11 == 0x02)) request_serial
  reject (not (all_zero (slice frame 12 v5_request_rtu_offset))) request_reserved
  reject (not (checksum8 (slice frame 1 (length frame - 2)) == byte_at frame (length frame - 2)))
      request_checksum
  let rtu = slice frame v5_request_rtu_offset (length frame - 2)
  reject (not (length rtu == 8) || not (valid_modbus_crc rtu)) request_crc
  reject (not (byte_at rtu 0 == unit) || not (byte_at rtu 1 == read_holding_registers))
      request_function
  reject (not (be16_at rtu 2 == spec.start) || not (be16_at rtu 4 == spec.quantity)) request_range
  ok tt

unfoldable pub validate_read_request : List ℕ → ℕ → ℕ → ReadId → Result ProtocolError Unit
validate_read_request frame logger_serial unit id = elim (approved_read_spec id) [
  | none ↦ err request_not_listed
  | some spec ↦ validate_against spec frame logger_serial unit
]

unfoldable pub build_read_request : ℕ → ℕ → ReadId → Result ProtocolError (List ℕ)
build_read_request logger_serial unit id = do
  reject (logger_serial == 0) zero_serial
  reject (not (unit == modbus_unit_id)) (unit_not_approved unit)
  elim (approved_read_spec id) [
    | none ↦ err (id_not_listed id)
    | some spec ↦ (do
      validate_read_request (request_frame logger_serial unit spec) logger_serial unit id
      ok (request_frame logger_serial unit spec))
  ]

-- The loop over `values`: big-endian words from `offset` on.
unfoldable pub words_at : List ℕ → ℕ → ℕ → List ℕ
words_at rtu offset zero = []
words_at rtu offset (suc n) = be16_at rtu offset ∷ words_at rtu (offset + 2) n

-- The Modbus RTU frame inside a V5 response.
unfoldable pub parse_rtu : ReadSpec → ℕ → List ℕ → Result ProtocolError (List ℕ)
parse_rtu spec unit rtu =
    if (length rtu == 5) && (byte_at rtu 0 == unit) && (byte_at rtu 1 == 0x83)
    then (do
      reject (not (valid_modbus_crc rtu)) exception_crc
      err (modbus_exception (byte_at rtu 2)))
    else (do
      reject (not (length rtu == 5 + spec.quantity * 2))
          (rtu_length (length rtu) (5 + spec.quantity * 2))
      reject (not (valid_modbus_crc rtu)) rtu_crc
      reject
          (not (byte_at rtu 0 == unit)
            || not (byte_at rtu 1 == read_holding_registers)
            || not (byte_at rtu 2 == spec.quantity * 2))
          (rtu_header (byte_at rtu 0) (byte_at rtu 1) (byte_at rtu 2))
      ok (words_at rtu 3 spec.quantity))

-- The checks of the V5 envelope of a response, and of whom it answers.
unfoldable pub check_envelope : List ℕ → Result ProtocolError Unit
check_envelope frame = do
  reject (ltb (length frame) 18) (response_short (length frame))
  reject (not (byte_at frame 0 == 0xA5) || not (byte_at frame (length frame - 1) == 0x15))
      response_markers
  reject (not (length frame == le16_at frame 1 + 13))
      (response_length (length frame) (le16_at frame 1))
  reject (not (checksum8 (slice frame 1 (length frame - 2)) == byte_at frame (length frame - 2)))
      response_checksum
  ok tt

unfoldable pub check_identity : ReadSpec → List ℕ → ℕ → Result ProtocolError Unit
check_identity spec frame logger_serial = do
  reject (not (byte_at frame 3 == 0x10) || not (byte_at frame 4 == 0x15))
      (response_control (byte_at frame 3) (byte_at frame 4))
  reject (not (byte_at frame 5 == spec.sequence)) (response_sequence (byte_at frame 5))
  reject (not (le32_at frame 7 == logger_serial)) response_serial
  reject (not (byte_at frame 11 == 0x02) || not (byte_at frame 12 == 0x01))
      (response_status (byte_at frame 11) (byte_at frame 12))
  ok tt

-- `parseReadResponse` once its specification is found.
unfoldable pub parse_against : ReadSpec → List ℕ → ℕ → ℕ → Result ProtocolError (List ℕ)
parse_against spec frame logger_serial unit = do
  check_envelope frame
  check_identity spec frame logger_serial
  reject (ltb (length frame) (v5_response_rtu_offset + 5 + 2)) response_no_rtu
  parse_rtu spec unit (slice frame v5_response_rtu_offset (length frame - 2))

unfoldable pub parse_read_response : List ℕ → ℕ → ℕ → ReadId → Result ProtocolError (List ℕ)
parse_read_response frame logger_serial unit id = elim (approved_read_spec id) [
  | none ↦ err response_not_listed
  | some spec ↦ parse_against spec frame logger_serial unit
]
