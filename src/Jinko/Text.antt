-- ===== src/Jinko/Text.antt =====
-- parser.go: texts as lists of code points, which is what its key functions work on.
use Prim.Native.String.{String}
use jinko_exporter.Prelude.{
  ℕ, ◌≡◌, refl, Bool, true, false, ◌&&◌, ◌||◌, List, [], ◌∷◌, ◌++◌, ◌==◌, leb, if◌then◌else◌,
}
use jinko_exporter.Prelude.Text.{◌=$◌, is_space, trim_space, lower_codes}

abbrev pub is_nil : List ℕ → Bool
is_nil [] = true
is_nil (c ∷ s) = false

-- strings.NewReplacer(" ", "_", "-", "_", "/", "_", ".", "_", "(", "", ")", "", "%", "pct")
unfoldable pub replaced : ℕ → List ℕ
replaced c =
    if c == 32 || c == 45 || c == 47 || c == 46
    then 95 ∷ []
    else if c == 40 || c == 41
    then []
    else if c == 37
    then 112 ∷ 99 ∷ 116 ∷ []
    else c ∷ []

unfoldable pub replace_all : List ℕ → List ℕ
unfolding replaced
replace_all [] = []
replace_all (c ∷ s) = replaced c ++ replace_all s

abbrev pub is_kept : ℕ → Bool
is_kept c = (leb 97 c && leb c 122) || (leb 48 c && leb c 57)

-- The loop over runes: a run of other characters becomes one underscore.
unfoldable pub collapse : Bool → List ℕ → List ℕ
collapse last_underscore [] = []
collapse last_underscore (c ∷ s) =
    let kept = collapse false s in
    let skipped = collapse true s in
    if is_kept c then c ∷ kept else if last_underscore then skipped else 95 ∷ skipped

-- strings.Trim(s, "_")
unfoldable pub trim_front : List ℕ → List ℕ
trim_front [] = []
trim_front (c ∷ s) = let rest = trim_front s in if c == 95 then rest else c ∷ s

unfoldable pub trim_back : List ℕ → List ℕ
trim_back [] = []
trim_back (c ∷ s) = let rest = trim_back s in if c == 95 && is_nil rest then [] else c ∷ rest

unfoldable pub sanitize_key : String → List ℕ
unfolding replace_all collapse trim_front trim_back trim_space lower_codes
sanitize_key input =
    trim_back (trim_front (collapse false (replace_all (lower_codes (trim_space input)))))

unfoldable pub normalize_unit : String → String
unfolding trim_space
normalize_unit unit = let u = trim_space unit in if u =$ "℃" then "C" else u

sanitizes : sanitize_key " Load  Power (L1)/% " ≡ lower_codes "load_power_l1_pct"
unfolding sanitize_key lower_codes is_space
sanitizes = refl
