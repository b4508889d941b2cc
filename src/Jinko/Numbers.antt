-- ===== src/Jinko/Numbers.antt =====
-- parser.go: the separators of a number's text, over its code points.
use Prim.Native.Char.{code}
use Prim.Native.String.{String}
use jinko_exporter.Prelude.{
  ℕ, ◌+◌, ◌≡◌, refl, Bool, true, false, ◌&&◌, ◌||◌, not, List, [], ◌∷◌, ◌++◌, ◌==◌, leb,
  if◌then◌else◌, arith, Bool-cases, inl, inr,
}
use jinko_exporter.Prelude.Text.{is_space}
use jinko_exporter.Jinko.Text.{is_nil}

unfoldable pub codes : String → List ℕ
codes String.[] = []
codes (String.◌∷◌ c s) = code c ∷ codes s

-- strings.ReplaceAll(raw, "\u00a0", " ")
unfoldable pub plain_spaces : List ℕ → List ℕ
plain_spaces [] = []
plain_spaces (c ∷ s) = (if c == 0xA0 then 32 else c) ∷ plain_spaces s

-- strings.TrimSpace
unfoldable pub trim_start : List ℕ → List ℕ
trim_start [] = []
trim_start (c ∷ s) = let rest = trim_start s in if is_space c then rest else c ∷ s

unfoldable pub trim_end : List ℕ → List ℕ
trim_end [] = []
trim_end (c ∷ s) = let rest = trim_end s in if is_space c && is_nil rest then [] else c ∷ rest

-- strings.ReplaceAll(raw, sep, "") and strings.Contains(raw, sep) for one character.
unfoldable pub without : ℕ → List ℕ → List ℕ
without sep [] = []
without sep (c ∷ s) = let rest = without sep s in if c == sep then rest else c ∷ rest

unfoldable pub has : ℕ → List ℕ → Bool
has sep [] = false
has sep (c ∷ s) = c == sep || has sep s

abbrev pub push : ℕ → List (List ℕ) → List (List ℕ)
push c [] = (c ∷ []) ∷ []
push c (part ∷ parts) = (c ∷ part) ∷ parts

-- strings.Split(raw, ",")
unfoldable pub split_commas : List ℕ → List (List ℕ)
split_commas [] = [] ∷ []
split_commas (c ∷ s) = let rest = split_commas s in if c == 44 then [] ∷ rest else push c rest

-- The length in bytes.
abbrev pub utf8_size : ℕ → ℕ
utf8_size c = if leb c 0x7F then 1 else if leb c 0x7FF then 2 else if leb c 0xFFFF then 3 else 4

unfoldable pub byte_length : List ℕ → ℕ
byte_length [] = 0
byte_length (c ∷ s) = utf8_size c + byte_length s

abbrev pub join_parts : List ℕ → List (List ℕ) → List ℕ
join_parts raw (whole ∷ fraction ∷ []) =
    if byte_length fraction == 3 && not (is_nil whole)
    then whole ++ fraction
    else whole ++ 46 ∷ fraction
join_parts raw _ = without 44 raw

abbrev pub normalize_spaced : List ℕ → List ℕ
normalize_spaced raw =
    if not (has 44 raw)
    then raw
    else if has 46 raw
    then without 44 raw
    else join_parts raw (split_commas raw)

unfoldable pub normalize_number_separators : List ℕ → List ℕ
normalize_number_separators raw = normalize_spaced (without 32 raw)

thousands : normalize_number_separators (codes "1 234,5") ≡ codes "1234.5"
unfolding normalize_number_separators codes without has split_commas byte_length
thousands = refl

grouped : normalize_number_separators (codes "12,345") ≡ codes "12345"
unfolding normalize_number_separators codes without has split_commas byte_length
grouped = refl

-- A separator that is taken out is gone, and no other comes in.
without-has_self : (sep : ℕ) (s : List ℕ) → has sep (without sep s) ≡ false
unfolding without has
without-has_self sep [] = refl
without-has_self sep (c ∷ s) = ground (arith, without-has_self sep s)

without-has : (sep other : ℕ) (s : List ℕ) → has other s ≡ false → has other (without sep s) ≡ false
unfolding without has
without-has sep other [] h = refl
without-has sep other (c ∷ s) h = ground (arith, without-has sep other s)

has-append :
    (sep : ℕ) (s t : List ℕ) → has sep s ≡ false → has sep t ≡ false → has sep (s ++ t) ≡ false
unfolding has
has-append sep [] t h k = k
has-append sep (c ∷ s) t h k = ground (arith, has-append sep s t)

-- No part has a comma, and none has a separator that the whole has not.
abbrev no_part_has : ℕ → List (List ℕ) → Bool
no_part_has sep [] = true
no_part_has sep (part ∷ parts) = not (has sep part) && no_part_has sep parts

push-no_part :
    (sep c : ℕ) (parts : List (List ℕ))
    → (c == sep) ≡ false
    → no_part_has sep parts ≡ true
    → no_part_has sep (push c parts) ≡ true
unfolding has
push-no_part sep c [] other h = ground arith
push-no_part sep c (part ∷ parts) other h = ground arith

split-no_comma : (s : List ℕ) → no_part_has 44 (split_commas s) ≡ true
unfolding split_commas has
split-no_comma [] = refl
split-no_comma (c ∷ s) = ground (arith, split-no_comma s, push-no_part 44 c (split_commas s))

split-no_space : (s : List ℕ) → has 32 s ≡ false → no_part_has 32 (split_commas s) ≡ true
unfolding split_commas has
split-no_space [] h = refl
split-no_space (c ∷ s) h = ground (arith, split-no_space s, push-no_part 32 c (split_commas s))

join-clean :
    (sep : ℕ) (raw : List ℕ) (parts : List (List ℕ))
    → (46 == sep) ≡ false
    → has sep (without 44 raw) ≡ false
    → no_part_has sep parts ≡ true
    → has sep (join_parts raw parts) ≡ false
unfolding has
join-clean sep raw [] dot h k = h
join-clean sep raw (whole ∷ []) dot h k = h
join-clean sep raw (whole ∷ fraction ∷ []) dot h k =
    ground (arith, k, has-append sep whole fraction, has-append sep whole (46 ∷ fraction))
join-clean sep raw (whole ∷ fraction ∷ third ∷ parts) dot h k = h

spaced-clean :
    (raw : List ℕ)
    → has 32 raw ≡ false
    → (has 44 (normalize_spaced raw) ≡ false) × (has 32 (normalize_spaced raw) ≡ false)
spaced-clean raw h = elim (Bool-cases (has 44 raw)) [
  | inr none_there ↦ rw none_there (none_there, h)
  | inl commas ↦ elim (Bool-cases (has 46 raw)) [
    | inl dotted ↦ rw (commas, dotted) (without-has_self 44 raw, without-has 44 32 raw h)
    | inr undotted ↦
        rw (commas, undotted)
          (
            join-clean 44 raw (split_commas raw) refl (without-has_self 44 raw)
                (split-no_comma raw),
            join-clean 32 raw (split_commas raw) refl (without-has 44 32 raw h)
                (split-no_space raw h),
          )
  ]
]

-- Whatever text comes in, what is handed to the float parser has no comma and no space left.
pub normalized_is_plain :
    (raw : List ℕ)
    → (has 44 (normalize_number_separators raw) ≡ false)
      × (has 32 (normalize_number_separators raw) ≡ false)
unfolding normalize_number_separators
normalized_is_plain raw = spaced-clean (without 32 raw) (without-has_self 32 raw)
