-- ===== src/Modbus/Bytes.antt =====
-- What protocol.go takes from encoding/binary and from slices of bytes.
use Prim.Native.Nat.{bit_and, bit_xor}
use jinko_exporter.Prelude.{
  ℕ, zero, suc, ◌+◌, ◌-◌, ◌*◌, ◌/◌, ◌%◌, Bool, true, false, ◌&&◌, not, List, [], ◌∷◌, length,
  get_or, set, take, drop, ltb, ◌==◌, if◌then◌else◌, ◌≡◌, refl, ap,
}

-- xs[i]; every caller has tested the length first.
abbrev pub byte_at : List ℕ → ℕ → ℕ
byte_at xs i = get_or xs i 0

-- xs[from:to]
abbrev pub slice : List ℕ → ℕ → ℕ → List ℕ
slice xs from to = take (to - from) (drop from xs)

-- Writes the bytes from index `i` on, as a write through the slice xs[i:] does.
abbrev pub put : List ℕ → ℕ → List ℕ → List ℕ
put xs i [] = xs
put xs i (b ∷ bs) = put (set xs i b) (i + 1) bs

abbrev pub all_zero : List ℕ → Bool
all_zero [] = true
all_zero (value ∷ data') = (value == 0) && all_zero data'

-- byte(n)
abbrev pub low_byte : ℕ → ℕ
low_byte n = n % 256

abbrev pub le16_bytes : ℕ → List ℕ
le16_bytes n = n % 256 ∷ n / 256 % 256 ∷ []

abbrev pub be16_bytes : ℕ → List ℕ
be16_bytes n = n / 256 % 256 ∷ n % 256 ∷ []

abbrev pub le32_bytes : ℕ → List ℕ
le32_bytes n = n % 256 ∷ n / 256 % 256 ∷ n / 65536 % 256 ∷ n / 16777216 % 256 ∷ []

-- LittleEndian.Uint16(xs[i : i+2]) and its kin
abbrev pub le16_at : List ℕ → ℕ → ℕ
le16_at xs i = byte_at xs i + 256 * byte_at xs (i + 1)

abbrev pub be16_at : List ℕ → ℕ → ℕ
be16_at xs i = 256 * byte_at xs i + byte_at xs (i + 1)

abbrev pub le32_at : List ℕ → ℕ → ℕ
le32_at xs i =
    byte_at xs i
    + 256 * byte_at xs (i + 1)
    + 65536 * byte_at xs (i + 2)
    + 16777216 * byte_at xs (i + 3)

-- `sum` is a byte: it wraps at 256.
pub checksum_from : ℕ → List ℕ → ℕ
checksum_from sum [] = sum
checksum_from sum (value ∷ data') = checksum_from ((sum + value) % 256) data'

unfoldable pub checksum8 : List ℕ → ℕ
unfolding checksum_from
checksum8 data' = checksum_from 0 data'

-- `for range 8`: one bit of the CRC, and its eight rounds.
crc_bit : ℕ → ℕ
crc_bit crc = if not (bit_and crc 1 == 0) then bit_xor (crc / 2) 0xA001 else crc / 2

crc_bits : ℕ → ℕ → ℕ
unfolding crc_bit
crc_bits zero crc = crc
crc_bits (suc rounds) crc = crc_bits rounds (crc_bit crc)

pub crc_from : ℕ → List ℕ → ℕ
unfolding crc_bits
crc_from crc [] = crc
crc_from crc (value ∷ data') = crc_from (crc_bits 8 (bit_xor crc value)) data'

unfoldable pub modbus_crc : List ℕ → ℕ
unfolding crc_from
modbus_crc data' = crc_from 0xFFFF data'

unfoldable pub valid_modbus_crc : List ℕ → Bool
valid_modbus_crc frame =
    if ltb (length frame) 3
    then false
    else (byte_at frame (length frame - 2) == low_byte crc)
      && (byte_at frame (length frame - 1) == low_byte (crc / 256))
  where
    crc : ℕ
    crc = modbus_crc (take (length frame - 2) frame)

-- The n bytes f 0, f 1, …
abbrev pub tabulate : ℕ → (ℕ → ℕ) → List ℕ
tabulate zero f = []
tabulate (suc n) f = f 0 ∷ tabulate n (λ i. f (suc i))

pub tabulate-byte_at : (xs : List ℕ) → tabulate (length xs) (byte_at xs) ≡ xs
tabulate-byte_at [] = refl
tabulate-byte_at (x ∷ xs) = ap (λ r. x ∷ r) (tabulate-byte_at xs)

crc_test : modbus_crc (1 ∷ 3 ∷ 0 ∷ 0 ∷ 0 ∷ 1 ∷ []) ≡ 0x0A84
unfolding modbus_crc
crc_test = refl
