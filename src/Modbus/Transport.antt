-- ===== src/Modbus/Transport.antt =====
-- bridge/internal/source/modbus/transport.go: one TCP session that sends a fixed plan of requests.
pub mod Frames
pub mod Guard
pub mod Session
pub mod Plan
pub mod Complete
use jinko_exporter.Prelude.{
  ℕ, zero, suc, ◌+◌, ◌-◌, Bool, true, false, ◌&&◌, ◌||◌, not, Option, none, some, List, [], ◌∷◌,
  ◌++◌, length, get_elem?, take, drop, ltb, leb, ◌==◌, if◌then◌else◌, Result, ok, err, ◌>>=◌, ◌>>◌,
  reject,
}
use jinko_exporter.Modbus.Bytes.{byte_at, le16_at}
use jinko_exporter.Modbus.Profile.{
  ReadId, same_id, device_type_read, ups_power_high_read, grid_voltage_read, capability_read,
  battery_temperature_read, battery_voltage_soc_read, battery_flow_read, energy_read,
  grid_power_low_read, grid_power_high_read, output_scalar_read, load_voltage_read,
  direct_load_power_low_read, load_frequency_read, pv_input_read, inverter_temperature_read,
  warning_fault_read, run_state_read, grid_frequency_current_read, generator_port_mode_read,
  generator_energy_read, generator_electrical_read, output_power_high_read, relay_status_read,
  external_ct_power_high_read, internal_grid_power_low_read, internal_grid_power_high_read,
  protocol_version_read, controller_versions_read, firmware_words_read, battery_input_code_read,
  bms_mirrors_read,
}
use jinko_exporter.Modbus.Protocol.{
  ProtocolError, build_read_request, validate_read_request, parse_read_response,
  max_v5_frame_length,
}

-- What `ctx.Err()` may be.
pub data ContextError : Type 0 where
  canceled deadline_exceeded : ContextError

pub data SessionError : Type 0 where
  context_done : ContextError → SessionError
  not_open : SessionError
  poisoned : SessionError → SessionError
  failed_before : SessionError → SessionError
  plan_complete : ReadId → SessionError
  out_of_order : ReadId → ReadId → SessionError
  request_refused : ProtocolError → SessionError
  budget_spent outside_request : SessionError
  network : ℕ → SessionError
  send_failed : ReadId → ℕ → SessionError → SessionError
  send_short : ReadId → ℕ → SessionError
  header_unread body_unread : SessionError
  first_byte : ℕ → SessionError
  frame_length : ℕ → SessionError
  response_refused : ProtocolError → SessionError
  incomplete : ℕ → ℕ → SessionError

-- The network connection: what was handed to its `Write`, what it has received and nobody has read,
-- and whether `Close` was called.
pub record Conn : Type 0 where
  pub sent : List (List ℕ)
  pub incoming : List ℕ
  pub closed : Bool

pub record ReadSession : Type 0 where
  pub conn : Conn
  pub logger_serial : ℕ
  pub unit : ℕ
  pub plan : List ReadId
  pub requests : List (List ℕ)
  pub next : ℕ
  pub failed : Option SessionError

-- What the context and the network do during one read: `ctx.Err()` before and after, what `Write`
-- returns, and the bytes that arrive.
pub record Io : Type 0 where
  pub ctx_before : Option ContextError
  pub ctx_after : Option ContextError
  pub written : ℕ
  pub write_error : Option SessionError
  pub arrived : List ℕ

unfoldable pub fetch_read_plan : Bool → Bool → List ReadId
fetch_read_plan include_profile_gates include_metadata =
    (if include_profile_gates
      then device_type_read
        ∷ capability_read
        ∷ (if include_metadata
            then protocol_version_read ∷ controller_versions_read ∷ firmware_words_read
              ∷ battery_input_code_read ∷ []
            else [])
      else [])
    ++ generator_port_mode_read ∷ generator_energy_read ∷ generator_electrical_read
      ∷ load_voltage_read ∷ ups_power_high_read ∷ direct_load_power_low_read ∷ load_frequency_read
      ∷ grid_voltage_read ∷ grid_power_low_read ∷ grid_power_high_read ∷ output_scalar_read
      ∷ output_power_high_read ∷ pv_input_read ∷ inverter_temperature_read
      ∷ battery_temperature_read ∷ battery_voltage_soc_read ∷ battery_flow_read ∷ bms_mirrors_read
      ∷ energy_read ∷ relay_status_read ∷ warning_fault_read ∷ run_state_read
      ∷ grid_frequency_current_read ∷ external_ct_power_high_read ∷ internal_grid_power_low_read
      ∷ internal_grid_power_high_read ∷ []

-- io.ReadFull: the first n bytes and the rest, if so many come.
unfoldable pub read_full : ℕ → List ℕ → Option (List ℕ × List ℕ)
read_full n incoming =
    if ltb (length incoming) n then none else some (take n incoming, drop n incoming)

-- `readOneV5Frame`: the frame or the error, and the bytes that stay unread.
unfoldable pub read_one_v5_frame : List ℕ → Result SessionError (List ℕ) × List ℕ
unfolding read_full
read_one_v5_frame incoming = elim (read_full 3 incoming) [
  | none ↦ (err header_unread, [])
  | some (header, rest) ↦
      let total_length = le16_at header 1 + 13 in
      if not (byte_at header 0 == 0xA5)
      then (err (first_byte (byte_at header 0)), rest)
      else (if ltb total_length 18 || ltb max_v5_frame_length total_length
          then (err (frame_length total_length), rest)
          else elim (read_full (total_length - 3) rest) [
            | none ↦ (err body_unread, [])
            | some (body, rest') ↦ (ok (header ++ body), rest')
          ])
]

-- bytes.Equal
unfoldable pub bytes_equal : List ℕ → List ℕ → Bool
bytes_equal [] [] = true
bytes_equal (x ∷ xs) (y ∷ ys) = (x == y) && bytes_equal xs ys
bytes_equal _ _ = false

-- `singleExpectedWriteConn` apart from its connection.
pub record WriteGuard : Type 0 where
  pub spent : Bool
  pub expected : List ℕ

abbrev pub new_guard : List ℕ → WriteGuard
new_guard expected = record { spent = false; expected = expected }

pub record Written : Type 0 where
  pub guard : WriteGuard
  pub conn : Conn
  pub count : ℕ
  pub error : Option SessionError

abbrev pub guarded : WriteGuard → Conn → ℕ → Option SessionError → Written
guarded g c n e = record { guard = g; conn = c; count = n; error = e }

-- Its `Write`; the last two arguments are what the network's `Write` returns, if it is reached.
unfoldable pub guarded_write : WriteGuard → Conn → List ℕ → ℕ → Option SessionError → Written
guarded_write g c bytes written write_error =
    if g.spent
    then guarded g c 0 (some budget_spent)
    else (if not (bytes_equal bytes g.expected)
        then guarded (record g { spent = true }) c 0 (some outside_request)
        else guarded (record g { spent = true }) (record c { sent = c.sent ++ bytes ∷ [] }) written
            write_error)

-- `fail` poisons the session once, closes it, and returns the first failure.
unfoldable pub fail_with :
    ReadSession → Option SessionError → SessionError → ReadSession × SessionError
fail_with s none e = (record s { failed = some e; conn = record s.conn { closed = true } }, e)
fail_with s (some first) e = (s, first)

unfoldable pub fail :
    {A : Type 0} → ReadSession → SessionError → ReadSession × Result SessionError A
unfolding fail_with
fail s e = let (s', e') = fail_with s s.failed e in (s', err e')

abbrev pub contextual : Option ContextError → SessionError → SessionError
contextual none e = e
contextual (some c) e = context_done c

-- What follows a complete send.
unfoldable pub receive : ReadSession → ReadId → Io → ReadSession × Result SessionError (List ℕ)
receive s id io =
    let (r, unread) = read_one_v5_frame (s.conn.incoming ++ io.arrived) in
    let s' = record s { conn = record s.conn { incoming = unread } } in
    elim r [
      | err e ↦ fail s' (contextual io.ctx_after e)
      | ok frame ↦ elim (parse_read_response frame s.logger_serial s.unit id) [
        | err e ↦ fail s' (response_refused e)
        | ok values ↦ (record s' { next = s.next + 1 }, ok values)
      ]
    ]

-- What `Write` returned decides how a read goes on.
unfoldable pub after_write :
    ReadSession
    → ReadId
    → List ℕ
    → Io
    → ℕ
    → Option SessionError
    → ReadSession × Result SessionError (List ℕ)
after_write s id request io count (some e) =
    fail s (contextual io.ctx_after (send_failed id count e))
after_write s id request io count none =
    if not (count == length request)
    then fail s (contextual io.ctx_after (send_short id count))
    else receive s id io

-- The send of one approved request through a fresh guard, and what follows.
unfoldable pub exchange :
    ReadSession → ReadId → List ℕ → Io → ReadSession × Result SessionError (List ℕ)
exchange s id request io =
    let w = guarded_write (new_guard request) s.conn request io.written io.write_error in
    after_write (record s { conn = w.conn }) id request io w.count w.error

-- The planned request is validated once more before it is sent.
unfoldable pub send_planned :
    ReadSession → ReadId → Option (List ℕ) → Io → ReadSession × Result SessionError (List ℕ)
send_planned s id none io = fail s not_open
send_planned s id (some request) io =
    elim (validate_read_request request s.logger_serial s.unit id) [
      | err e ↦ fail s (request_refused e)
      | ok _ ↦ exchange s id request io
    ]

-- The order of the plan.
unfoldable pub read_in_order :
    ReadSession → ReadId → Option ReadId → Io → ReadSession × Result SessionError (List ℕ)
read_in_order s id none io = fail s (plan_complete id)
read_in_order s id (some want) io =
    if not (same_id id want)
    then fail s (out_of_order id want)
    else send_planned s id (get_elem? s.requests s.next) io

unfoldable pub read_approved :
    ReadSession → ReadId → Io → ReadSession × Result SessionError (List ℕ)
read_approved s id io = elim s.failed [
  | some e ↦ (s, err (poisoned e))
  | none ↦ elim io.ctx_before [
    | some c ↦ fail s (context_done c)
    | none ↦ read_in_order s id (get_elem? s.plan s.next) io
  ]
]

unfoldable pub complete : ReadSession → Option ContextError → ReadSession × Result SessionError Unit
complete s ctx = elim s.failed [
  | some e ↦ (s, err (failed_before e))
  | none ↦ elim ctx [
    | some c ↦ fail s (context_done c)
    | none ↦
        if not (s.next == length s.plan)
        then fail s (incomplete s.next (length s.plan))
        else (s, ok tt)
  ]
]
