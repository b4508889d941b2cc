-- ===== src/Modbus/Transport/Plan.antt =====
-- The fixed plan of a fetch, its requests, and how a session is opened.
use jinko_exporter.Prelude.{
  ℕ, ◌<◌, ◌≡◌, ◌≢◌, refl, ap, ◌∙◌, Bool, true, false, not, ◌&&◌, inl, inr, Option-cases, Option,
  none, some, List, [], ◌∷◌, length, ok, err, arith, Result, ◌>>=◌, ◌>>◌, reject, take,
}
use jinko_exporter.Modbus.Profile.{ReadId, ReadSpec, approved_read_spec}
use jinko_exporter.Modbus.Profile.Allowlist.{approved-IsBoundedSpec}
use jinko_exporter.Modbus.Protocol.Request.{build_exactly, validate-request_frame}
use jinko_exporter.Modbus.Protocol.{
  ProtocolError, request_frame, build_read_request, validate_read_request,
}
use jinko_exporter.Modbus.Transport.{ContextError, ReadSession, Io, fetch_read_plan}
use jinko_exporter.Modbus.Transport.Session.{
  IsOrderly, run_reads, run_reads-IsOrderly, run_reads-requests,
}

pub data OpenError : Type 0 where
  no_context no_deadline no_dialer : OpenError
  build_failed : ReadId → ProtocolError → OpenError
  validation_failed : ReadId → ProtocolError → OpenError
  context_over : ContextError → OpenError
  connect_failed keep_alive_failed deadline_failed : OpenError

-- What the caller gives to `openReadSession` besides the numbers, and what the network does: whether
-- there is a context, a deadline and a dialer, `ctx.Err()` before and after the dial, whether the
-- dial, the keep-alive option (if the connection has one) and the deadline succeed.
pub record OpenIo : Type 0 where
  pub has_context : Bool
  pub has_deadline : Bool
  pub has_dialer : Bool
  pub ctx_before : Option ContextError
  pub dial_ok : Bool
  pub ctx_after : Option ContextError
  pub has_keep_alive : Bool
  pub keep_alive_ok : Bool
  pub deadline_ok : Bool

-- The loop that fills `requests`.
unfoldable pub build_requests : ℕ → ℕ → List ReadId → Result OpenError (List (List ℕ))
build_requests logger_serial unit [] = ok []
build_requests logger_serial unit (id ∷ plan) =
    let rest = build_requests logger_serial unit plan in
    elim (build_read_request logger_serial unit id) [
      | err e ↦ err (build_failed id e)
      | ok request ↦ elim (validate_read_request request logger_serial unit id) [
        | err e ↦ err (validation_failed id e)
        | ok _ ↦ rest >>= (λ requests. ok (request ∷ requests))
      ]
    ]

abbrev ctx_reject : Option ContextError → Result OpenError Unit
ctx_reject none = ok tt
ctx_reject (some e) = err (context_over e)

-- What is left of the connection, and the session or the error.
pub record Opened : Type 0 where
  pub dialed : Bool
  pub closed : Bool
  pub result : Result OpenError ReadSession

abbrev opened : Bool → Bool → Result OpenError ReadSession → Opened
opened d c r = record { dialed = d; closed = c; result = r }

-- The deferred `Close` runs if a step after the dial fails.
unfoldable pub after_dial : OpenIo → ReadSession → Opened
after_dial io s =
    elim (do
      ctx_reject io.ctx_after
      reject (io.has_keep_alive && not io.keep_alive_ok) keep_alive_failed
      reject (not io.deadline_ok) deadline_failed
      ok s) [ err e ↦ opened true true (err e) | ok s' ↦ opened true false (ok s') ]

unfoldable pub open_read_session : OpenIo → ℕ → ℕ → Bool → Bool → Opened
open_read_session io logger_serial unit include_profile_gates include_metadata =
    let plan = fetch_read_plan include_profile_gates include_metadata in
    elim (do
      reject (not io.has_context) no_context
      reject (not io.has_deadline) no_deadline
      reject (not io.has_dialer) no_dialer
      requests ← build_requests logger_serial unit plan
      ctx_reject io.ctx_before
      reject (not io.dial_ok) connect_failed
      ok requests) [
        | err e ↦ opened false false (err e)
        | ok requests ↦ after_dial io (record {
          conn = record { sent = []; incoming = []; closed = false };
          logger_serial = logger_serial;
          unit = unit;
          plan = plan;
          requests = requests;
          next = 0;
          failed = none;
        })
      ]

-- The frames of a plan, one for each read.
abbrev pub planned_frames : ℕ → List ReadId → List (List ℕ)
planned_frames logger_serial [] = []
planned_frames logger_serial (id ∷ plan) =
    let rest = planned_frames logger_serial plan in
    elim (approved_read_spec id) [
      | none ↦ rest
      | some spec ↦ request_frame logger_serial 1 spec ∷ rest
    ]

abbrev is_approved : Option ReadSpec → Bool
is_approved none = false
is_approved (some spec) = true

abbrev pub AllApproved : List ReadId → Type 0
AllApproved [] = Unit
AllApproved (id ∷ plan) = (is_approved (approved_read_spec id) ≡ true) × AllApproved plan

-- Every read of the plan, with or without the profile gates and the metadata, is on the allowlist.
pub fetch_read_plan-AllApproved : (g m : Bool) → AllApproved (fetch_read_plan g m)
unfolding fetch_read_plan approved_read_spec
fetch_read_plan-AllApproved true true = ground arith
fetch_read_plan-AllApproved true false = ground arith
fetch_read_plan-AllApproved false _ = ground arith

build-frame :
    (serial : ℕ) (id : ReadId) (spec : ReadSpec)
    → serial ≢ 0
    → serial < 4294967296
    → approved_read_spec id ≡ some spec
    → (build_read_request serial 1 id ≡ ok (request_frame serial 1 spec))
      × (validate_read_request (request_frame serial 1 spec) serial 1 id ≡ ok tt)
unfolding validate_read_request
build-frame serial id spec nz hs found =
    let b = approved-IsBoundedSpec id spec found in
    (
      (build_exactly serial 1 id (request_frame serial 1 spec) hs).1
          (nz, refl, (spec, found, refl)),
      rw (found, validate_read_request)
          (validate-request_frame spec serial 1 hs b.start_word
            (omega (arith, b.in_space, b.some_register))),
    )

build_requests-frames :
    (serial : ℕ) (plan : List ReadId)
    → serial ≢ 0
    → serial < 4294967296
    → AllApproved plan
    → build_requests serial 1 plan ≡ ok (planned_frames serial plan)
unfolding build_requests
build_requests-frames serial [] nz hs h = refl
build_requests-frames serial (id ∷ plan) nz hs (approved, h) =
    elim (Option-cases (approved_read_spec id)) [
      | inl absent ↦ absurd (ground arith)
      | inr (spec, found) ↦
          ground (
            arith,
            build-frame serial id spec nz hs found,
            build_requests-frames serial plan nz hs h,
          )
    ]

length-planned_frames :
    (serial : ℕ) (plan : List ReadId)
    → AllApproved plan
    → length (planned_frames serial plan) ≡ length plan
length-planned_frames serial [] h = refl
length-planned_frames serial (id ∷ plan) (approved, h) =
    ground (arith, length-planned_frames serial plan h)

-- The conditions under which the caller and the network let a session open.
pub record CanOpen (io : OpenIo) : Type 0 where
  pub context : io.has_context ≡ true
  pub deadline : io.has_deadline ≡ true
  pub dialer : io.has_dialer ≡ true
  pub live_before : io.ctx_before ≡ none
  pub dial : io.dial_ok ≡ true
  pub live_after : io.ctx_after ≡ none
  pub keep_alive : (io.has_keep_alive && not io.keep_alive_ok) ≡ false
  pub deadline_set : io.deadline_ok ≡ true

-- The session that `openReadSession` returns.
abbrev pub fresh_session : ℕ → Bool → Bool → ReadSession
fresh_session logger_serial g m = record {
  conn = record { sent = []; incoming = []; closed = false };
  logger_serial = logger_serial;
  unit = 1;
  plan = fetch_read_plan g m;
  requests = planned_frames logger_serial (fetch_read_plan g m);
  next = 0;
  failed = none;
}

-- For a non-zero 32-bit serial a session opens exactly when the context, the dialer and the network
-- allow it, never for a request that cannot be built; it then holds the frames of the whole plan and
-- has sent nothing. Without a session, a connection that was dialed is closed.
pub open_exactly :
    (io : OpenIo) (serial : ℕ) (g m : Bool)
    → serial ≢ 0
    → serial < 4294967296
    → let o = open_read_session io serial 1 g m in
      (CanOpen io → o.result ≡ ok (fresh_session serial g m))
      × ((s : ReadSession)
          → o.result ≡ ok s
          → CanOpen io × (s ≡ fresh_session serial g m) × (o.closed ≡ false))
      × ((e : OpenError) → o.result ≡ err e → o.closed ≡ o.dialed)
unfolding open_read_session after_dial
open_exactly io serial g m nz hs =
    let built =
      build_requests-frames serial (fetch_read_plan g m) nz hs (fetch_read_plan-AllApproved g m) in
    (λ can. ground (arith, built), λ s h. ground (arith, built), λ e h. ground (arith, built))

pub fresh-IsOrderly : (serial : ℕ) (g m : Bool) → IsOrderly (fresh_session serial g m)
fresh-IsOrderly serial g m =
    ground
      (arith, length-planned_frames serial (fetch_read_plan g m) (fetch_read_plan-AllApproved g m))

-- Whatever reads are asked of an opened session, in whatever order, and whatever the network does,
-- the frames that it sends are a front of the plan's frames, in their order, each at most once.
pub sends_front_of_plan :
    (serial : ℕ) (g m : Bool) (reads : List (ReadId × Io))
    → let sent = (run_reads (fresh_session serial g m) reads).conn.sent in
      sent ≡ take (length sent) (planned_frames serial (fetch_read_plan g m))
sends_front_of_plan serial g m reads =
    let s = fresh_session serial g m in
    let ordered = run_reads-IsOrderly s reads (fresh-IsOrderly serial g m) in
    ordered.sent_front
    ∙ ap (take (length (run_reads s reads).conn.sent)) (run_reads-requests s reads)
