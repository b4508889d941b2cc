-- ===== src/Prelude/Digits.antt =====
-- Numbers as text: what `%04X`, `%02X` and strconv.FormatUint print.
use Prim.Native.String.{String, ◌++◌}
use jinko_exporter.Prelude.{
  ℕ, zero, suc, ◌/◌, ◌%◌, ◌≡◌, refl, List, [], ◌∷◌, get_or, ltb, if◌then◌else◌,
}

abbrev digits : List String
digits =
    "0" ∷ "1" ∷ "2" ∷ "3" ∷ "4" ∷ "5" ∷ "6" ∷ "7" ∷ "8" ∷ "9" ∷ "A" ∷ "B" ∷ "C" ∷ "D" ∷ "E" ∷ "F"
    ∷ []

unfoldable pub digit : ℕ → String
digit n = get_or digits n ""

unfoldable pub hex2 : ℕ → String
unfolding digit
hex2 n = digit (n / 16 % 16) ++ digit (n % 16)

unfoldable pub hex4 : ℕ → String
unfolding hex2
hex4 n = hex2 (n / 256) ++ hex2 n

-- A number has fewer digits than it is large, plus one.
unfoldable pub decimal_from : ℕ → ℕ → String
unfolding digit
decimal_from zero n = ""
decimal_from (suc fuel) n =
    let front = decimal_from fuel (n / 10) in if ltb n 10 then digit n else front ++ digit (n % 10)

unfoldable pub decimal : ℕ → String
unfolding decimal_from
decimal n = decimal_from (suc n) n

prints : (hex4 48879 ≡ "BEEF") × (decimal 12000 ≡ "12000") × (decimal 0 ≡ "0")
unfolding hex4 decimal
prints = (refl, refl, refl)
