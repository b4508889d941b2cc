-- ===== src/Jinko/Metadata.antt =====
-- parser.go: the version texts that a cloud answer is kept for. A map is a list of pairs.
pub mod Exactly
use Prim.Native.Char.{code}
use Prim.Native.String.{String, len}
use jinko_exporter.Prelude.{
  ℕ, Bool, true, false, ◌&&◌, ◌||◌, not, Option, none, some, List, [], ◌∷◌, ltb, leb, ◌==◌,
  if◌then◌else◌,
}
use jinko_exporter.Prelude.Text.{◌=$◌, is_empty, trim_space}

pub record Field : Type 0 where
  pub key : String
  pub value : String
  pub storage_name : String
  pub unit : String
  pub org_value : String

-- The switch; none is its default.
unfoldable pub cloud_key : String → Option String
cloud_key name =
    if name =$ "PTCv1"
    then some "cloud_protocol_version"
    else if name =$ "MAIN"
    then some "cloud_main_firmware"
    else if name =$ "HMI"
    then some "cloud_hmi_firmware"
    else if name =$ "CBAMSV"
    then some "cloud_assistant_version"
    else if name =$ "CBAVM"
    then some "cloud_bootloader_version"
    else if name =$ "L_B_H_V_N"
    then some "cloud_battery_hardware_version"
    else if name =$ "L_B_H_V_N2"
    then some "cloud_battery2_hardware_version"
    else if name =$ "BAT_FAC"
    then some "cloud_battery_manufacturer"
    else none

abbrev pub cloud_value : Field → String
cloud_value f = if is_empty f.org_value then f.value else f.org_value

-- unicode.IsControl
abbrev pub is_control : ℕ → Bool
is_control c = ltb c 32 || (leb 127 c && leb c 159)

unfoldable pub has_control : String → Bool
has_control String.[] = false
has_control (String.◌∷◌ c s) = is_control (code c) || has_control s

-- A length is one in bytes.
unfoldable pub is_valid : String → Bool
is_valid value = not (is_empty (trim_space value)) && leb (len value) 128 && not (has_control value)

-- The two maps, `metadata` and `rejected`.
pub record Collected : Type 0 where
  pub metadata : List (String × String)
  pub rejected : List String

unfoldable pub lookup : List (String × String) → String → Option String
lookup [] key = none
lookup ((k, v) ∷ rest) key = if k =$ key then some v else lookup rest key

unfoldable pub delete : List (String × String) → String → List (String × String)
delete [] key = []
delete ((k, v) ∷ rest) key =
    let rest' = delete rest key in if k =$ key then rest' else (k, v) ∷ rest'

unfoldable pub is_rejected : List String → String → Bool
is_rejected [] key = false
is_rejected (k ∷ rest) key = k =$ key || is_rejected rest key

abbrev pub differs : Option String → String → Bool
differs none value = false
differs (some previous) value = not (previous =$ value)

abbrev pub reject_key : Collected → String → Collected
reject_key c key = record { metadata = delete c.metadata key; rejected = key ∷ c.rejected }

abbrev pub keep : Collected → String → String → Collected
keep c key value = record c { metadata = (key, value) ∷ delete c.metadata key }

unfoldable pub collect_under : Collected → String → String → Collected
collect_under c key value =
    if is_rejected c.rejected key
    then c
    else if not (is_valid value) || differs (lookup c.metadata key) value
    then reject_key c key
    else keep c key value

unfoldable pub collect_cloud_metadata : Collected → Field → Collected
collect_cloud_metadata c f = elim (cloud_key f.storage_name) [
  | none ↦ c
  | some key ↦ collect_under c key (cloud_value f)
]

unfoldable pub collect_all : Collected → List Field → Collected
collect_all c [] = c
collect_all c (f ∷ fields) = collect_all (collect_cloud_metadata c f) fields
