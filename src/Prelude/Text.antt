-- ===== src/Prelude/Text.antt =====
-- What the bridge takes from Go's package strings, over native texts.
use Prim.Native.Char.{code}
use Prim.Native.String.{String}
use text.Mathlib.Text.{◌==◌ as str_eq}
use text.Mathlib.TextEquality.{eq_iff}
use jinko_exporter.Prelude.{
  ap, ◌∙◌, Bool-cases, inl, inr, ℕ, ◌+◌, ◌≡◌, refl, ◌↔◌, Bool, true, false, not, ◌&&◌, ◌||◌, List,
  [], ◌∷◌, ◌==◌, leb, if◌then◌else◌, arith,
}

infix 50 ◌=$◌
abbrev pub ◌=$◌ : String → String → Bool
s =$ t = str_eq s t

pub =$_iff : (s t : String) → ((s =$ t) ≡ true) ↔ (s ≡ t)
=$_iff s t = eq_iff s t

-- unicode.IsSpace
unfoldable pub is_space : ℕ → Bool
is_space c =
    (leb 9 c && leb c 13)
    || c == 32
    || c == 0x85
    || c == 0xA0
    || c == 0x1680
    || (leb 0x2000 c && leb c 0x200A)
    || c == 0x2028
    || c == 0x2029
    || c == 0x202F
    || c == 0x205F
    || c == 0x3000

unfoldable pub trim_left : String → String
trim_left String.[] = ""
trim_left (String.◌∷◌ c s) =
    let rest = trim_left s in if is_space (code c) then rest else String.◌∷◌ c s

abbrev pub is_empty : String → Bool
is_empty String.[] = true
is_empty (String.◌∷◌ c s) = false

unfoldable pub trim_right : String → String
trim_right String.[] = ""
trim_right (String.◌∷◌ c s) =
    let rest = trim_right s in if is_space (code c) && is_empty rest then "" else String.◌∷◌ c rest

-- strings.TrimSpace
unfoldable pub trim_space : String → String
unfolding trim_left trim_right
trim_space s = trim_right (trim_left s)

-- The code points of strings.ToLower, as far as a search for ASCII words needs them: ASCII capitals,
-- and the two other characters whose lower case is an ASCII letter.
unfoldable pub lower : ℕ → ℕ
lower c =
    if leb 65 c && leb c 90
    then c + 32
    else if c == 0x212A
    then 107
    else if c == 0x130
    then 105
    else c

unfoldable pub lower_codes : String → List ℕ
unfolding lower
lower_codes String.[] = []
lower_codes (String.◌∷◌ c s) = lower (code c) ∷ lower_codes s

unfoldable pub starts_with : List ℕ → List ℕ → Bool
starts_with xs [] = true
starts_with [] (w ∷ ws) = false
starts_with (x ∷ xs) (w ∷ ws) = (x == w) && starts_with xs ws

-- strings.Contains(strings.ToLower(text), word)
unfoldable pub contains : List ℕ → List ℕ → Bool
unfolding starts_with
contains [] word = starts_with [] word
contains (x ∷ xs) word = starts_with (x ∷ xs) word || contains xs word

trims : trim_space " \t a b\n " ≡ "a b"
unfolding trim_space is_space
trims = refl

abbrev starts_solid : String → Bool
starts_solid String.[] = true
starts_solid (String.◌∷◌ c s) = not (is_space (code c))

trim_left-solid : (s : String) → starts_solid (trim_left s) ≡ true
unfolding trim_left
trim_left-solid String.[] = refl
trim_left-solid (String.◌∷◌ c s) = ground (arith, trim_left-solid s)

trim_left_of_solid : (s : String) → starts_solid s ≡ true → trim_left s ≡ s
unfolding trim_left
trim_left_of_solid String.[] h = refl
trim_left_of_solid (String.◌∷◌ c s) h = ground arith

-- Trimming the right end of a text that starts with no space keeps its start.
trim_right-solid : (s : String) → starts_solid s ≡ true → starts_solid (trim_right s) ≡ true
unfolding trim_right
trim_right-solid String.[] h = refl
trim_right-solid (String.◌∷◌ c s) h = ground arith

trim_right_idem : (s : String) → trim_right (trim_right s) ≡ trim_right s
unfolding trim_right
trim_right_idem String.[] = refl
trim_right_idem (String.◌∷◌ c s) =
    elim (Bool-cases (is_space (code c) && is_empty (trim_right s))) [
      | inl gone ↦ rw gone
      | inr kept ↦ rw kept (rw (trim_right_idem s, kept))
    ]

-- Trimming twice is trimming once.
pub trim_space_idem : (s : String) → trim_space (trim_space s) ≡ trim_space s
unfolding trim_space
trim_space_idem s =
    ap trim_right (
      trim_left_of_solid (trim_right (trim_left s))
        (trim_right-solid (trim_left s) (trim_left-solid s)))
    ∙ trim_right_idem (trim_left s)
