-- ===== src/Modbus/Protocol/Request.antt =====
-- What a validated request is: exactly the bytes that the builder writes.
use jinko_exporter.Prelude.{
  ℕ, ◌<◌, ◌≡◌, ◌≢◌, List, length, some, ok, arith, reject-eq-ok, sym, ◌∙◌, ◌↔◌, Option-cases, inl,
  inr, ==_iff, not-false,
}
use mathlib.Core.Path.{subst}
use jinko_exporter.Modbus.Profile.Allowlist.{approved-IsBoundedSpec}
use jinko_exporter.Modbus.Bytes.{tabulate, tabulate-byte_at, byte_at, valid_modbus_crc}
use jinko_exporter.Modbus.Profile.{ReadId, ReadSpec, approved_read_spec}
use jinko_exporter.Modbus.Protocol.{
  request_frame, validate_against, validate_read_request, build_read_request,
}

-- What a builder writes passes the validator.
pub validate-request_frame :
    (spec : ReadSpec) (serial unit : ℕ)
    → serial < 4294967296
    → spec.start < 65536
    → spec.quantity < 65536
    → validate_against spec (request_frame serial unit spec) serial unit ≡ ok tt
unfolding validate_against request_frame valid_modbus_crc
validate-request_frame spec serial unit hs hst hq = ground arith

validated-length :
    (spec : ReadSpec) (frame : List ℕ) (serial unit : ℕ)
    → validate_against spec frame serial unit ≡ ok tt
    → length frame ≡ 36
unfolding validate_against
validated-length spec frame serial unit h = (==_iff _ _).0 (not-false _ (reject-eq-ok _ _ _ h).0)

validated_tab :
    (f : ℕ → ℕ) (spec : ReadSpec) (serial unit : ℕ)
    → ((i : ℕ) → f i < 256)
    → spec.start < 65536
    → spec.quantity < 65536
    → validate_against spec (tabulate 36 f) serial unit ≡ ok tt
    → tabulate 36 f ≡ request_frame serial unit spec
unfolding validate_against request_frame valid_modbus_crc
validated_tab f spec serial unit hf hst hq h =
    ground (arith, hf 0, hf 1, hf 2, hf 7, hf 8, hf 9, hf 10, hf 28, hf 29, hf 30, hf 31)

-- A frame of bytes passes the validator only if it is, byte for byte, the frame that the builder
-- writes for that read: one function code, one register range, one unit, one logger.
pub validated_unique :
    (frame : List ℕ) (serial unit : ℕ) (id : ReadId) (spec : ReadSpec)
    → ((i : ℕ) → byte_at frame i < 256)
    → approved_read_spec id ≡ some spec
    → validate_read_request frame serial unit id ≡ ok tt
    → frame ≡ request_frame serial unit spec
unfolding validate_read_request
validated_unique frame serial unit id spec bytes found h =
    let b = approved-IsBoundedSpec id spec found in
    let h' : validate_against spec frame serial unit ≡ ok tt =
      rw (found, validate_read_request) at h in
    let len = validated-length spec frame serial unit h' in
    let whole : tabulate 36 (byte_at frame) ≡ frame =
      subst (λ n. tabulate n (byte_at frame) ≡ frame) len (tabulate-byte_at frame) in
    sym whole
    ∙ validated_tab (byte_at frame) spec serial unit bytes b.start_word
        (omega (arith, b.fits_frame))
        (subst (λ f. validate_against spec f serial unit ≡ ok tt) (sym whole) h')

-- The builder returns a frame exactly for a non-zero serial, unit 1 and an approved read, and then
-- it is the frame of that read: its own final validation never refuses.
pub build_exactly :
    (serial unit : ℕ) (id : ReadId) (frame : List ℕ)
    → serial < 4294967296
    → (build_read_request serial unit id ≡ ok frame) ↔ (
        (serial ≢ 0)
        × (unit ≡ 1)
        × ((spec : ReadSpec) × (approved_read_spec id ≡ some spec)
            × (frame ≡ request_frame serial unit spec)))
unfolding build_read_request validate_read_request
build_exactly serial unit id frame hs = (
  λ h. elim (Option-cases (approved_read_spec id)) [
    | inl absent ↦ absurd (ground arith)
    | inr (spec, found) ↦ (ground arith, ground arith, (spec, found, ground arith))
  ],
  λ (nonzero, one, (spec, found, e)).
      let b = approved-IsBoundedSpec id spec found in
      ground (
        arith,
        validate-request_frame spec serial unit hs b.start_word (omega (arith, b.fits_frame)),
      ),
)
