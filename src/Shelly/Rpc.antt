-- ===== src/Shelly/Rpc.antt =====
-- client.go: one call of the meter's RPC. What `http.Client.Do` returned and encoding/json are values
-- and parameters.
use jinko_exporter.Prelude.{
  ℕ, Bool, true, ◌&&◌, ◌||◌, not, Option, none, some, List, [], ◌∷◌, length, ltb, leb, ◌==◌, false,
  refl, ◌≡◌, Result, ok, err, ◌>>=◌, ◌>>◌, reject, if◌then◌else◌,
}
use jinko_exporter.Prelude.Int.{ℤ}

pub data RpcError : Type 0 where
  request_failed read_failed body_too_long empty_response not_json not_one_value : RpcError
  bad_status : ℕ → RpcError
  rpc_code : ℤ → RpcError

-- No response, or the status with the body; a body that cannot be read is none.
pub data Reply : Type 0 where
  no_response : Reply
  response : ℕ → Option (List ℕ) → Reply

abbrev pub max_shelly_rpc_response_bytes : ℕ
max_shelly_rpc_response_bytes = 65536

abbrev pub is_ascii_space : ℕ → Bool
is_ascii_space c = (leb 9 c && leb c 13) || c == 32

-- Where a scan for spaces in UTF-8 stands: between two characters, after the first byte or the first
-- two bytes of one, or past something that is no space.
pub data SpaceScan : Type 0 where
  between after_c2 after_e1 after_e1_9a after_e2 after_e2_80 after_e2_81 after_e3 after_e3_80 :
      SpaceScan
  past : SpaceScan

abbrev pub first_byte_of : ℕ → SpaceScan
first_byte_of c =
    if is_ascii_space c
    then between
    else if c == 0xC2
    then after_c2
    else if c == 0xE1
    then after_e1
    else if c == 0xE2
    then after_e2
    else if c == 0xE3
    then after_e3
    else past

abbrev pub go_if : Bool → SpaceScan → SpaceScan
go_if test next = if test then next else past

-- U+0085, U+00A0, U+1680, U+2000 to U+200A, U+2028, U+2029, U+202F, U+205F and U+3000.
unfoldable pub scan_byte : SpaceScan → ℕ → SpaceScan
scan_byte between c = first_byte_of c
scan_byte after_c2 c = go_if (c == 0x85 || c == 0xA0) between
scan_byte after_e1 c = go_if (c == 0x9A) after_e1_9a
scan_byte after_e1_9a c = go_if (c == 0x80) between
scan_byte after_e2 c = if c == 0x80 then after_e2_80 else go_if (c == 0x81) after_e2_81
scan_byte after_e2_80 c =
    go_if ((leb 0x80 c && leb c 0x8A) || c == 0xA8 || c == 0xA9 || c == 0xAF) between
scan_byte after_e2_81 c = go_if (c == 0x9F) between
scan_byte after_e3 c = go_if (c == 0x80) after_e3_80
scan_byte after_e3_80 c = go_if (c == 0x80) between
scan_byte past c = past

unfoldable pub is_blank_from : SpaceScan → List ℕ → Bool
unfolding scan_byte
is_blank_from between [] = true
is_blank_from scan [] = false
is_blank_from scan (c ∷ body) = is_blank_from (scan_byte scan c) body

-- `len(bytes.TrimSpace(body)) == 0`
unfoldable pub is_blank : List ℕ → Bool
is_blank body = is_blank_from between body

abbrev pub reject_code : Option ℤ → Result RpcError Unit
reject_code none = ok tt
reject_code (some code) = err (rpc_code code)

abbrev pub or_err : {T : Type 0} → Option T → RpcError → Result RpcError T
or_err none e = err e
or_err (some value) e = ok value

-- `code_of` is the first Unmarshal, `decode` the decoder that wants one value and the end.
module _ {T : Type 0} (code_of : List ℕ → Option (Option ℤ)) (decode : List ℕ → Option T) where
  unfoldable pub read_body : List ℕ → Result RpcError T
  read_body body = do
    reject (ltb max_shelly_rpc_response_bytes (length body)) body_too_long
    reject (is_blank body) empty_response
    code ← or_err (code_of body) not_json
    reject_code code
    or_err (decode body) not_one_value

  unfoldable pub get_rpc : Reply → Result RpcError T
  get_rpc no_response = err request_failed
  get_rpc (response status body) =
      if ltb status 200 || not (ltb status 300)
      then err (bad_status status)
      else elim body [ none ↦ err read_failed | some bytes ↦ read_body bytes ]

blanks :
    (is_blank (32 ∷ 0xC2 ∷ 0xA0 ∷ 0xE2 ∷ 0x80 ∷ 0xA8 ∷ 10 ∷ []) ≡ true)
    × (is_blank (0xA0 ∷ []) ≡ false)
    × (is_blank (0xE2 ∷ 0x80 ∷ []) ≡ false)
unfolding is_blank is_blank_from
blanks = (refl, refl, refl)
