-- ===== src/Modbus/Protocol/Accepted.antt =====
-- What follows from a response that `parseReadResponse` accepts.
use jinko_exporter.Prelude.{
  ℕ, zero, suc, ◌+◌, ◌-◌, ◌*◌, ◌≤◌, ◌<◌, ◌≡◌, refl, ap, sym, ◌∙◌, List, [], ◌∷◌, length, some, ok,
  arith, take, drop, Option-cases, inl, inr, length-take, length-drop,
}
use native.Mathlib.Nat.{zero-add, suc-add}
use jinko_exporter.Modbus.Bytes.{byte_at, slice, le32_at}
use jinko_exporter.Modbus.Profile.{ReadId, ReadSpec, id_byte, approved_read_spec}
use jinko_exporter.Modbus.Profile.Allowlist.{sequence_injective}
use jinko_exporter.Modbus.Protocol.{
  words_at, parse_rtu, check_identity, parse_against, parse_read_response,
}
use jinko_exporter.Modbus.Protocol.Response.{AreWords}

length-words_at : (rtu : List ℕ) (offset n : ℕ) → length (words_at rtu offset n) ≡ n
unfolding words_at
length-words_at rtu offset zero = refl
length-words_at rtu offset (suc n) = omega (arith, length-words_at rtu (offset + 2) n)

words_at-AreWords :
    (rtu : List ℕ)
    → ((i : ℕ) → byte_at rtu i < 256)
    → (offset n : ℕ) → AreWords (words_at rtu offset n)
unfolding words_at
words_at-AreWords rtu h offset zero = tt
words_at-AreWords rtu h offset (suc n) =
    (omega (arith, h offset, h (offset + 1)), words_at-AreWords rtu h (offset + 2) n)

byte_at-drop : (k : ℕ) (xs : List ℕ) (i : ℕ) → byte_at (drop k xs) i ≡ byte_at xs (k + i)
byte_at-drop zero xs i = rw zero-add
byte_at-drop (suc k) [] i = refl
byte_at-drop (suc k) (x ∷ xs) i = rw suc-add (byte_at-drop k xs i)

byte_at-take : (n : ℕ) (xs : List ℕ) (i : ℕ) → i < n → byte_at (take n xs) i ≡ byte_at xs i
byte_at-take zero xs i h = absurd (omega arith)
byte_at-take (suc n) [] i h = refl
byte_at-take (suc n) (x ∷ xs) zero h = refl
byte_at-take (suc n) (x ∷ xs) (suc i) h = byte_at-take n xs i (omega arith)

byte_at-take_bound :
    (n : ℕ) (xs : List ℕ) → ((i : ℕ) → byte_at xs i < 256) → (i : ℕ) → byte_at (take n xs) i < 256
byte_at-take_bound zero xs h i = omega arith
byte_at-take_bound (suc n) [] h i = omega arith
byte_at-take_bound (suc n) (x ∷ xs) h zero = h 0
byte_at-take_bound (suc n) (x ∷ xs) h (suc i) = byte_at-take_bound n xs (λ j. h (suc j)) i

abbrev frame_rtu : List ℕ → List ℕ
frame_rtu frame = slice frame 25 (length frame - 2)

rtu_accepted :
    (spec : ReadSpec) (unit : ℕ) (rtu ws : List ℕ)
    → parse_rtu spec unit rtu ≡ ok ws
    → (ws ≡ words_at rtu 3 spec.quantity)
      × (length rtu ≡ 5 + spec.quantity * 2)
      × (byte_at rtu 0 ≡ unit)
      × (byte_at rtu 1 ≡ 3)
unfolding parse_rtu
rtu_accepted spec unit rtu ws h = ground arith

identity_accepted :
    (spec : ReadSpec) (frame : List ℕ) (serial : ℕ)
    → check_identity spec frame serial ≡ ok tt
    → (byte_at frame 5 ≡ spec.sequence) × (le32_at frame 7 ≡ serial)
unfolding check_identity
identity_accepted spec frame serial h = ground arith

against_accepted :
    (spec : ReadSpec) (frame : List ℕ) (serial unit : ℕ) (ws : List ℕ)
    → parse_against spec frame serial unit ≡ ok ws
    → (parse_rtu spec unit (frame_rtu frame) ≡ ok ws)
      × (32 ≤ length frame)
      × (byte_at frame 5 ≡ spec.sequence)
      × (le32_at frame 7 ≡ serial)
unfolding parse_against
against_accepted spec frame serial unit ws h = ground (arith, identity_accepted spec frame serial)

accepted_sequence :
    (id : ReadId) (frame : List ℕ) (serial unit : ℕ) (ws : List ℕ)
    → parse_read_response frame serial unit id ≡ ok ws
    → (spec : ReadSpec) × (approved_read_spec id ≡ some spec) × (byte_at frame 5 ≡ spec.sequence)
unfolding parse_read_response
accepted_sequence id frame serial unit ws h = elim (Option-cases (approved_read_spec id)) [
  | inl absent ↦ absurd (cc (rw (absent, parse_read_response) at h))
  | inr (spec, found) ↦
      let h' : parse_against spec frame serial unit ≡ ok ws =
        rw (found, parse_read_response) at h in
      (spec, found, (against_accepted spec frame serial unit ws h').2)
]

-- What an accepted response says of its frame and of its words.
pub record IsAccepted (spec : ReadSpec) (frame : List ℕ) (serial unit : ℕ) (ws : List ℕ)
    : Type 0 where
  pub word_count : length ws ≡ spec.quantity
  pub words : AreWords ws
  pub frame_length : length frame ≡ 25 + (5 + spec.quantity * 2) + 2
  pub sequence : byte_at frame 5 ≡ spec.sequence
  pub logger : le32_at frame 7 ≡ serial
  pub from_unit : byte_at frame 25 ≡ unit
  pub function : byte_at frame 26 ≡ 3
  pub payload : ws ≡ words_at (frame_rtu frame) 3 spec.quantity

-- An accepted response of bytes carries exactly the registers that the read asked for, as 16-bit
-- words, from the logger, the unit and the function 03 that it was sent to.
pub parse-IsAccepted :
    (id : ReadId) (spec : ReadSpec) (frame : List ℕ) (serial unit : ℕ) (ws : List ℕ)
    → approved_read_spec id ≡ some spec
    → ((i : ℕ) → byte_at frame i < 256)
    → parse_read_response frame serial unit id ≡ ok ws
    → IsAccepted spec frame serial unit ws
unfolding parse_read_response
parse-IsAccepted id spec frame serial unit ws found bytes h =
    let h' : parse_against spec frame serial unit ≡ ok ws = rw (found, parse_read_response) at h in
    let (inner, long, seq, log) = against_accepted spec frame serial unit ws h' in
    let (e, len, un, fc) = rtu_accepted spec unit (frame_rtu frame) ws inner in
    let rtu_byte : (i : ℕ) → byte_at (frame_rtu frame) i < 256 =
      byte_at-take_bound _ _ (λ i. rw byte_at-drop (bytes (25 + i))) in
    let rtu_at : (i : ℕ) → i < 5 → byte_at frame (25 + i) ≡ byte_at (frame_rtu frame) i = λ i lt.
      sym (
        byte_at-take (length frame - 2 - 25) (drop 25 frame) i (omega arith)
        ∙ byte_at-drop 25 frame i) in
    record {
      word_count = ap length e ∙ length-words_at (frame_rtu frame) 3 spec.quantity;
      words = rw e (words_at-AreWords (frame_rtu frame) rtu_byte 3 spec.quantity);
      frame_length = omega (
        arith,
        len,
        long,
        length-take (length frame - 2 - 25) (drop 25 frame),
        length-drop 25 frame,
      );
      sequence = seq;
      logger = log;
      from_unit = rtu_at 0 (omega arith) ∙ un;
      function = rtu_at 1 (omega arith) ∙ fc;
      payload = e;
    }

-- A frame that is accepted as the response to two reads answers one read: a late response to
-- another read of the plan is refused.
pub accepted_once :
    (id id' : ReadId) (frame : List ℕ) (serial unit : ℕ) (ws ws' : List ℕ)
    → parse_read_response frame serial unit id ≡ ok ws
    → parse_read_response frame serial unit id' ≡ ok ws'
    → id_byte id ≡ id_byte id'
accepted_once id id' frame serial unit ws ws' h h' =
    let (spec, found, s) = accepted_sequence id frame serial unit ws h in
    let (spec', found', s') = accepted_sequence id' frame serial unit ws' h' in
    sequence_injective id id' spec spec' found found' (sym s ∙ s')
