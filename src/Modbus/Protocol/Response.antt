-- ===== src/Modbus/Protocol/Response.antt =====
-- What `parseReadResponse` accepts, and the frames that a logger sends.
use native.Mathlib.Nat.{zero-add, suc-add}
use jinko_exporter.Prelude.{
  ℕ, zero, suc, ◌+◌, ◌-◌, ◌*◌, ◌/◌, ◌%◌, ◌≤◌, ◌<◌, ◌≡◌, refl, ap, ◌∙◌, List, [], ◌∷◌, ◌++◌, length,
  length-append, some, ok, arith, take, true,
}
use jinko_exporter.Modbus.Bytes.{
  tabulate, byte_at, low_byte, be16_at, le16_bytes, le32_bytes, checksum8, modbus_crc,
  valid_modbus_crc,
}
use jinko_exporter.Modbus.Profile.{ReadId, ReadSpec, approved_read_spec}
use jinko_exporter.Modbus.Profile.Allowlist.{approved-IsBoundedSpec}
use jinko_exporter.Modbus.Protocol.{
  words_at, parse_rtu, parse_against, parse_read_response, check_envelope, check_identity,
}

-- The frame around registers that a logger with this serial sends, by the protocol: `mark` is the
-- byte that the logger keeps, `clock` the twelve bytes that the bridge does not read.
abbrev be_words : List ℕ → List ℕ
be_words [] = []
be_words (w ∷ ws) = w / 256 % 256 ∷ w % 256 ∷ be_words ws

abbrev with_crc : List ℕ → List ℕ
with_crc body = body ++ low_byte (modbus_crc body) ∷ low_byte (modbus_crc body / 256) ∷ []

abbrev rtu_response : ℕ → List ℕ → List ℕ
rtu_response unit words = with_crc (unit ∷ 3 ∷ length words * 2 ∷ be_words words)

take-append {ℓ} : {A : Type ℓ} (xs ys : List A) → take (length xs) (xs ++ ys) ≡ xs
take-append [] ys = refl
take-append (x ∷ xs) ys = ap (λ r. x ∷ r) (take-append xs ys)

byte_at-append : (xs ys : List ℕ) (i : ℕ) → byte_at (xs ++ ys) (length xs + i) ≡ byte_at ys i
byte_at-append [] ys i = rw zero-add
byte_at-append (x ∷ xs) ys i = rw suc-add (byte_at-append xs ys i)

-- Two bytes at the end, read from the length.
module _ (xs : List ℕ) (a b : ℕ) where
  length_trailer : length (xs ++ a ∷ b ∷ []) ≡ length xs + 2
  length_trailer = length-append xs (a ∷ b ∷ [])

  take_trailer : take (length (xs ++ a ∷ b ∷ []) - 2) (xs ++ a ∷ b ∷ []) ≡ xs
  take_trailer =
      let e : length (xs ++ a ∷ b ∷ []) - 2 ≡ length xs = omega (arith, length_trailer) in
      rw e (take-append xs (a ∷ b ∷ []))

  first_trailer : byte_at (xs ++ a ∷ b ∷ []) (length (xs ++ a ∷ b ∷ []) - 2) ≡ a
  first_trailer =
      let e : length (xs ++ a ∷ b ∷ []) - 2 ≡ length xs + 0 = omega (arith, length_trailer) in
      rw e (byte_at-append xs (a ∷ b ∷ []) 0)

  last_trailer : byte_at (xs ++ a ∷ b ∷ []) (length (xs ++ a ∷ b ∷ []) - 1) ≡ b
  last_trailer =
      let e : length (xs ++ a ∷ b ∷ []) - 1 ≡ length xs + 1 = omega (arith, length_trailer) in
      rw e (byte_at-append xs (a ∷ b ∷ []) 1)

-- The length of a body is at least 1, so the trailer makes three bytes.
valid-with_crc : (x : ℕ) (body : List ℕ) → valid_modbus_crc (with_crc (x ∷ body)) ≡ true
unfolding valid_modbus_crc
valid-with_crc x body =
    let crc = modbus_crc (x ∷ body) in
    let lo = low_byte crc in
    let hi = low_byte (crc / 256) in
    ground (
      arith,
      length_trailer (x ∷ body) lo hi,
      take_trailer (x ∷ body) lo hi,
      first_trailer (x ∷ body) lo hi,
      last_trailer (x ∷ body) lo hi,
    )

words_at_shift :
    (x : ℕ) (xs : List ℕ) (offset n : ℕ) → words_at (x ∷ xs) (suc offset) n ≡ words_at xs offset n
unfolding words_at
words_at_shift x xs offset zero = refl
words_at_shift x xs offset (suc n) =
    rw (suc-add, suc-add) (ap (λ r. be16_at xs offset ∷ r) (words_at_shift x xs (offset + 2) n))

abbrev pub AreWords : List ℕ → Type 0
AreWords [] = Unit
AreWords (w ∷ ws) = (w < 65536) × AreWords ws

word_of_bytes : (w : ℕ) → w < 65536 → 256 * (w / 256 % 256) + w % 256 ≡ w
word_of_bytes w h = omega arith

words_at-be_words :
    (ws rest : List ℕ) → AreWords ws → words_at (be_words ws ++ rest) 0 (length ws) ≡ ws
unfolding words_at
words_at-be_words [] rest h = refl
words_at-be_words (w ∷ ws) rest h =
    let tail = be_words ws ++ rest in
    let two : words_at (w / 256 % 256 ∷ w % 256 ∷ tail) 2 (length ws)
        ≡ words_at tail 0 (length ws) =
      words_at_shift (w / 256 % 256) (w % 256 ∷ tail) 1 (length ws)
      ∙ words_at_shift (w % 256) tail 0 (length ws) in
    cc (two, words_at-be_words ws rest h.1, word_of_bytes w h.0)

length-be_words : (ws : List ℕ) → length (be_words ws) ≡ length ws * 2
length-be_words [] = refl
length-be_words (w ∷ ws) = omega (arith, length-be_words ws)

length-rtu_response : (unit : ℕ) (ws : List ℕ) → length (rtu_response unit ws) ≡ 5 + length ws * 2
length-rtu_response unit ws =
    let body = unit ∷ 3 ∷ length ws * 2 ∷ be_words ws in
    omega (
      arith,
      length_trailer body (low_byte (modbus_crc body)) (low_byte (modbus_crc body / 256)),
      length-be_words ws,
    )

words_at-rtu_response :
    (unit : ℕ) (ws : List ℕ) → AreWords ws → words_at (rtu_response unit ws) 3 (length ws) ≡ ws
words_at-rtu_response unit ws h =
    let body = unit ∷ 3 ∷ length ws * 2 ∷ be_words ws in
    let n = length ws in
    let rest = low_byte (modbus_crc body) ∷ low_byte (modbus_crc body / 256) ∷ [] in
    let tail = be_words ws ++ rest in
    words_at_shift unit (3 ∷ n * 2 ∷ tail) 2 n
    ∙ words_at_shift 3 (n * 2 ∷ tail) 1 n
    ∙ words_at_shift (n * 2) tail 0 n
    ∙ words_at-be_words ws rest h

parse-rtu_response :
    (spec : ReadSpec) (unit : ℕ) (ws : List ℕ)
    → AreWords ws
    → length ws ≡ spec.quantity
    → parse_rtu spec unit (rtu_response unit ws) ≡ ok ws
unfolding parse_rtu
parse-rtu_response spec unit ws h e = ground (
  arith,
  length-rtu_response unit ws,
  words_at-rtu_response unit ws h,
  valid-with_crc unit (3 ∷ length ws * 2 ∷ be_words ws),
)

abbrev response_inner : ReadSpec → ℕ → ℕ → ℕ → (ℕ → ℕ) → List ℕ → List ℕ
response_inner spec logger_serial unit mark clock words =
    let rtu = rtu_response unit words in
    le16_bytes (length rtu + 14)
    ++ (0x10 ∷ 0x15 ∷ spec.sequence ∷ mark ∷ le32_bytes logger_serial
        ++ (0x02 ∷ 0x01 ∷ tabulate 12 clock ++ rtu))

abbrev pub response_frame : ReadSpec → ℕ → ℕ → ℕ → (ℕ → ℕ) → List ℕ → List ℕ
response_frame spec logger_serial unit mark clock words =
    let inner = response_inner spec logger_serial unit mark clock words in
    0xA5 ∷ inner ++ checksum8 inner ∷ 0x15 ∷ []

parse-response_frame :
    (spec : ReadSpec) (serial unit mark : ℕ) (clock : ℕ → ℕ) (ws : List ℕ)
    → serial < 4294967296
    → length ws ≤ 48
    → AreWords ws
    → length ws ≡ spec.quantity
    → parse_against spec (response_frame spec serial unit mark clock ws) serial unit ≡ ok ws
unfolding parse_against check_envelope check_identity
parse-response_frame spec serial unit mark clock ws hs small hw e =
    let inner = response_inner spec serial unit mark clock ws in
    let sum = checksum8 inner in
    ground (
      arith,
      length-rtu_response unit ws,
      length_trailer (0xA5 ∷ inner) sum 0x15,
      take_trailer (0xA5 ∷ inner) sum 0x15,
      first_trailer (0xA5 ∷ inner) sum 0x15,
      last_trailer (0xA5 ∷ inner) sum 0x15,
      parse-rtu_response spec unit ws hw e,
    )

-- The frame that a logger sends around the words of an approved read is accepted, and gives those
-- words back, whatever its mark and clock bytes are.
pub parse-response_roundtrip :
    (id : ReadId) (spec : ReadSpec) (serial unit mark : ℕ) (clock : ℕ → ℕ) (words : List ℕ)
    → approved_read_spec id ≡ some spec
    → serial < 4294967296
    → AreWords words
    → length words ≡ spec.quantity
    → parse_read_response (response_frame spec serial unit mark clock words) serial unit id
      ≡ ok words
unfolding parse_read_response
parse-response_roundtrip id spec serial unit mark clock words found hs hw e =
    let b = approved-IsBoundedSpec id spec found in
    rw (found, parse_read_response)
      (parse-response_frame spec serial unit mark clock words hs (omega (arith, b.fits_frame, e)) hw
        e)
