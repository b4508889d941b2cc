-- ===== src/Modbus/Examples.antt =====
-- Concrete requests, responses and sessions of the profile.
use jinko_exporter.Prelude.{
  ℕ, zero, suc, ◌<◌, ◌≡◌, refl, List, [], ◌∷◌, ok, err, arith, some, none, true, false, ◌↔◌, ◌⊎◌,
  ◌≢◌, ◌++◌, take, length,
}
use jinko_exporter.Modbus.Bytes.{byte_at, checksum8, modbus_crc, valid_modbus_crc}
use jinko_exporter.Modbus.Profile.{ReadSpec, id_byte, approved_read_spec, device_type_read}
use jinko_exporter.Modbus.Protocol.{
  request_frame, build_read_request, validate_read_request, validate_against, parse_read_response,
  parse_against, parse_rtu, check_envelope, check_identity, words_at,
}
use jinko_exporter.Modbus.Protocol.Request.{validated_unique, build_exactly}
use jinko_exporter.Modbus.Protocol.Response.{response_frame, parse-response_roundtrip}
use jinko_exporter.Modbus.Protocol.Accepted.{IsAccepted, parse-IsAccepted, accepted_once}
use jinko_exporter.Modbus.Transport.{
  Io, Conn, ReadSession, read_approved, read_one_v5_frame, fetch_read_plan, new_guard, complete,
  read_in_order, send_planned, exchange, after_write, guarded_write, bytes_equal, receive, fail,
  fail_with, read_full,
}
use jinko_exporter.Modbus.Transport.Frames.{IsCut, read_one_v5_frame-IsCut}
use jinko_exporter.Modbus.Transport.Guard.{Attempt, write_all, guard_sends_once}
use jinko_exporter.Modbus.Transport.Session.{IsOrderly, run_reads, read-IsOrderly}
use jinko_exporter.Modbus.Transport.Complete.{completed_sends_all}
use jinko_exporter.Modbus.Transport.Plan.{
  OpenIo, OpenError, CanOpen, open_read_session, open_exactly, fresh_session, fresh-IsOrderly,
  planned_frames, sends_front_of_plan,
}

abbrev serial : ℕ
serial = 305419896

abbrev type_spec : ReadSpec
type_spec = record { name = "device-type"; sequence = 1; start = 0; quantity = 1 }

abbrev clock_bytes : ℕ → ℕ
clock_bytes i = 7

-- The request for the device type of logger 0x12345678, and an answer with device type 6.
abbrev type_request : List ℕ
type_request =
    165 ∷ 23 ∷ 0 ∷ 16 ∷ 69 ∷ 1 ∷ 0 ∷ 120 ∷ 86 ∷ 52 ∷ 18 ∷ 2 ∷ 0 ∷ 0 ∷ 0 ∷ 0 ∷ 0 ∷ 0 ∷ 0 ∷ 0 ∷ 0 ∷ 0
    ∷ 0 ∷ 0 ∷ 0 ∷ 0 ∷ 1 ∷ 3 ∷ 0 ∷ 0 ∷ 0 ∷ 1 ∷ 132 ∷ 10 ∷ 22 ∷ 21 ∷ []

abbrev type_response : List ℕ
type_response =
    165 ∷ 21 ∷ 0 ∷ 16 ∷ 21 ∷ 1 ∷ 9 ∷ 120 ∷ 86 ∷ 52 ∷ 18 ∷ 2 ∷ 1 ∷ 7 ∷ 7 ∷ 7 ∷ 7 ∷ 7 ∷ 7 ∷ 7 ∷ 7 ∷ 7
    ∷ 7 ∷ 7 ∷ 7 ∷ 1 ∷ 3 ∷ 2 ∷ 0 ∷ 6 ∷ 56 ∷ 70 ∷ 57 ∷ 21 ∷ []

abbrev AllBytes : List ℕ → Type 0
AllBytes [] = Unit
AllBytes (b ∷ bs) = (b < 256) × AllBytes bs

byte_at-AllBytes : (xs : List ℕ) → AllBytes xs → (i : ℕ) → byte_at xs i < 256
byte_at-AllBytes [] h i = omega arith
byte_at-AllBytes (x ∷ xs) h zero = h.0
byte_at-AllBytes (x ∷ xs) h (suc i) = byte_at-AllBytes xs h.1 i

type_approved : approved_read_spec device_type_read ≡ some type_spec
unfolding approved_read_spec
type_approved = refl

type_request_valid : validate_read_request type_request serial 1 device_type_read ≡ ok tt
unfolding validate_read_request validate_against approved_read_spec checksum8 valid_modbus_crc
    modbus_crc
type_request_valid = refl

type_response_parses : parse_read_response type_response serial 1 device_type_read ≡ ok (6 ∷ [])
unfolding parse_read_response parse_against parse_rtu check_envelope check_identity words_at
    approved_read_spec checksum8 valid_modbus_crc modbus_crc
type_response_parses = refl

validated_unique_example : type_request ≡ request_frame serial 1 type_spec
validated_unique_example =
    validated_unique type_request serial 1 device_type_read type_spec
      (byte_at-AllBytes type_request (omega arith)) type_approved type_request_valid

build_exactly_example : (build_read_request serial 1 device_type_read ≡ ok type_request) ↔ (
    (serial ≢ 0)
    × ◌≡◌ {A = ℕ} 1 1
    × ((spec : ReadSpec) × (approved_read_spec device_type_read ≡ some spec)
        × (type_request ≡ request_frame serial 1 spec)))
build_exactly_example = build_exactly serial 1 device_type_read type_request (omega arith)

parse-response_roundtrip_example :
    parse_read_response
      (response_frame type_spec serial 1 9 clock_bytes (6 ∷ []))
      serial
      1
      device_type_read
    ≡ ok (6 ∷ [])
parse-response_roundtrip_example =
    parse-response_roundtrip device_type_read type_spec serial 1 9 clock_bytes (6 ∷ [])
      type_approved (omega arith) (omega arith) refl

parse-IsAccepted_example : IsAccepted type_spec type_response serial 1 (6 ∷ [])
parse-IsAccepted_example =
    parse-IsAccepted device_type_read type_spec type_response serial 1 (6 ∷ []) type_approved
      (byte_at-AllBytes type_response (omega arith)) type_response_parses

accepted_once_example : id_byte device_type_read ≡ id_byte device_type_read
accepted_once_example =
    accepted_once device_type_read device_type_read type_response serial 1 (6 ∷ []) (6 ∷ [])
      type_response_parses type_response_parses

type_response_cut : read_one_v5_frame (type_response ++ 165 ∷ []) ≡ (ok type_response, 165 ∷ [])
unfolding read_one_v5_frame
type_response_cut = refl

read_one_v5_frame-IsCut_example : IsCut (type_response ++ 165 ∷ []) type_response (165 ∷ [])
read_one_v5_frame-IsCut_example =
    read_one_v5_frame-IsCut (type_response ++ 165 ∷ []) type_response (165 ∷ []) type_response_cut

abbrev idle : Conn
idle = record { sent = []; incoming = []; closed = false }

abbrev two_attempts : List Attempt
two_attempts =
    record { bytes = type_request; written = 36; write_error = none }
    ∷ record { bytes = type_request; written = 36; write_error = none }
    ∷ []

guard_sends_once_example :
    ((write_all (new_guard type_request) idle two_attempts).sent ≡ [])
    ⊎ ((write_all (new_guard type_request) idle two_attempts).sent ≡ type_request ∷ [])
guard_sends_once_example = guard_sends_once type_request idle two_attempts

abbrev answer : Io
answer = record {
  ctx_before = none;
  ctx_after = none;
  written = 36;
  write_error = none;
  arrived = type_response;
}

abbrev session : ReadSession
session = fresh_session serial true true

read-IsOrderly_example : IsOrderly (read_approved session device_type_read answer).0
read-IsOrderly_example =
    read-IsOrderly session device_type_read answer (fresh-IsOrderly serial true true)

-- A session whose plan is the one read of the device type, which the logger answers.
abbrev short_session : ReadSession
short_session = record session { plan = device_type_read ∷ []; requests = type_request ∷ [] }

short_session_completes :
    (complete (run_reads short_session ((device_type_read, answer) ∷ [])) none).1 ≡ ok tt
unfolding run_reads complete read_approved read_in_order send_planned validate_read_request
    approved_read_spec validate_against checksum8 valid_modbus_crc modbus_crc exchange after_write
    guarded_write bytes_equal receive read_one_v5_frame parse_read_response parse_against
    check_envelope check_identity parse_rtu words_at fail fail_with read_full id_byte
short_session_completes = refl

completed_sends_all_example :
    (run_reads short_session ((device_type_read, answer) ∷ [])).conn.sent ≡ type_request ∷ []
completed_sends_all_example =
    completed_sends_all short_session ((device_type_read, answer) ∷ []) none refl refl refl
      short_session_completes

sends_front_of_plan_example :
    let sent =
      (run_reads session
        ((device_type_read, answer) ∷ (device_type_read, answer) ∷ [])).conn.sent in
    sent ≡ take (length sent) (planned_frames serial (fetch_read_plan true true))
sends_front_of_plan_example =
    sends_front_of_plan serial true true
      ((device_type_read, answer) ∷ (device_type_read, answer) ∷ [])

abbrev calm : OpenIo
calm = record {
  has_context = true;
  has_deadline = true;
  has_dialer = true;
  ctx_before = none;
  dial_ok = true;
  ctx_after = none;
  has_keep_alive = true;
  keep_alive_ok = true;
  deadline_ok = true;
}

open_exactly_example :
    let o = open_read_session calm serial 1 true false in
    (CanOpen calm → o.result ≡ ok (fresh_session serial true false))
    × ((s : ReadSession)
        → o.result ≡ ok s
        → CanOpen calm × (s ≡ fresh_session serial true false) × (o.closed ≡ false))
    × ((e : OpenError) → o.result ≡ err e → o.closed ≡ o.dialed)
open_exactly_example = open_exactly calm serial true false (omega arith) (omega arith)
