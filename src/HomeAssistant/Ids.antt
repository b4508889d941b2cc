-- ===== src/HomeAssistant/Ids.antt =====
-- publisher.go, grid_load.go: the groups and the metadata keys of a meter. Texts are code points.
use Prim.Native.Char.{code}
use Prim.Native.String.{String, ◌++◌}
use jinko_exporter.Prelude.{
  ℕ, ◌+◌, ◌≡◌, refl, ◌∙◌, Bool, true, false, ◌&&◌, ◌||◌, not, List, [], ◌∷◌, leb, ◌==◌,
  if◌then◌else◌, arith,
}
use jinko_exporter.Prelude.Text.{is_space, trim_space, lower_codes, starts_with}

unfoldable pub same_codes : List ℕ → List ℕ → Bool
same_codes [] [] = true
same_codes [] (y ∷ ys) = false
same_codes (x ∷ xs) [] = false
same_codes (x ∷ xs) (y ∷ ys) = x == y && same_codes xs ys

abbrev pub fold_code : ℕ → ℕ
fold_code c = if leb 65 c && leb c 90 then c + 32 else c

unfoldable pub fold_codes : String → List ℕ
fold_codes String.[] = []
fold_codes (String.◌∷◌ c s) = fold_code (code c) ∷ fold_codes s

-- `strings.EqualFold(strings.TrimSpace(text), group)` for a group without the letters k and s, to
-- which only ASCII capitals fold.
unfoldable pub is_group : String → String → Bool
is_group group text = same_codes (fold_codes (trim_space text)) (fold_codes group)

abbrev pub underscore : ℕ
underscore = 95

abbrev pub is_id_rune : ℕ → Bool
is_id_rune r = (leb 97 r && leb r 122) || (leb 48 r && leb r 57)

-- The loop of `sanitizeID`, with `lastUnderscore`.
unfoldable pub sanitize_from : Bool → List ℕ → List ℕ
sanitize_from last_underscore [] = []
sanitize_from last_underscore (r ∷ text) =
    let kept = sanitize_from false text in
    let skipped = sanitize_from true text in
    if is_id_rune r then r ∷ kept else if last_underscore then skipped else underscore ∷ skipped

unfoldable pub trim_left_underscores : List ℕ → List ℕ
trim_left_underscores [] = []
trim_left_underscores (c ∷ text) =
    let rest = trim_left_underscores text in if c == underscore then rest else c ∷ text

abbrev pub no_codes : List ℕ → Bool
no_codes [] = true
no_codes (c ∷ text) = false

unfoldable pub trim_right_underscores : List ℕ → List ℕ
trim_right_underscores [] = []
trim_right_underscores (c ∷ text) =
    let rest = trim_right_underscores text in
    if c == underscore && no_codes rest then [] else c ∷ rest

abbrev pub or_unknown : List ℕ → List ℕ
or_unknown [] = lower_codes "unknown"
or_unknown (c ∷ text) = c ∷ text

-- `sanitizeID`. A no-break space is a space to TrimSpace and is not kept, so that replacing it by a
-- space first changes nothing.
unfoldable pub sanitize_id : String → List ℕ
sanitize_id value = or_unknown (
    trim_right_underscores
      (trim_left_underscores (sanitize_from false (lower_codes (trim_space value)))))

-- `strings.HasPrefix(sanitizeID(key), "shelly_"+group+"_")`
unfoldable pub is_meta_key : String → String → Bool
is_meta_key group key = starts_with (sanitize_id key) (lower_codes ("shelly_" ++ group ++ "_"))

sanitizes :
    (is_meta_key "grid_load" " Shelly grid-load: URL" ≡ true)
    × (is_group "grid_load" " GRID_Load " ≡ true)
    × (sanitize_id " __ " ≡ lower_codes "unknown")
unfolding is_space is_meta_key is_group sanitize_id sanitize_from trim_left_underscores
    trim_right_underscores same_codes fold_codes trim_space lower_codes starts_with
sanitizes = (refl, refl, refl)

same_codes_agree :
    (xs ys bs : List ℕ) → same_codes xs ys ≡ true → same_codes xs bs ≡ same_codes ys bs
unfolding same_codes
same_codes_agree [] [] bs h = refl
same_codes_agree [] (a ∷ ys) bs h = absurd (cc h)
same_codes_agree (x ∷ xs) [] bs h = absurd (cc h)
same_codes_agree (x ∷ xs) (a ∷ ys) [] h = refl
same_codes_agree (x ∷ xs) (a ∷ ys) (b ∷ bs) h = ground (arith, same_codes_agree xs ys bs)

-- Two texts without a common first text differ where one of them ends or before.
abbrev pub diverge : List ℕ → List ℕ → Bool
diverge [] bs = false
diverge (a ∷ ys) [] = false
diverge (a ∷ ys) (b ∷ bs) = not (a == b) || diverge ys bs

starts_with_apart :
    (xs ys bs : List ℕ)
    → diverge ys bs ≡ true
    → starts_with xs ys ≡ true
    → starts_with xs bs ≡ false
unfolding starts_with
starts_with_apart xs [] bs d h = absurd (cc d)
starts_with_apart xs (a ∷ ys) [] d h = absurd (cc d)
starts_with_apart [] (a ∷ ys) (b ∷ bs) d h = absurd (cc h)
starts_with_apart (x ∷ xs) (a ∷ ys) (b ∷ bs) d h = ground (arith, starts_with_apart xs ys bs)

load_input_differ : same_codes (fold_codes "grid_load") (fold_codes "grid_input") ≡ false
unfolding same_codes fold_codes
load_input_differ = refl

-- No text is in both groups.
pub group_apart : (g : String) → is_group "grid_load" g ≡ true → is_group "grid_input" g ≡ false
unfolding is_group
group_apart g h =
    same_codes_agree (fold_codes (trim_space g)) (fold_codes "grid_load") (fold_codes "grid_input")
      h
    ∙ load_input_differ

-- No key is a key of both meters.
pub meta_key_apart :
    (key : String) → is_meta_key "grid_load" key ≡ true → is_meta_key "grid_input" key ≡ false
unfolding is_meta_key lower_codes
meta_key_apart key h =
    starts_with_apart (sanitize_id key) (lower_codes "shelly_grid_load_")
      (lower_codes "shelly_grid_input_") refl h
