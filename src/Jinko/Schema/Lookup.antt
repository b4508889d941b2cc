-- ===== src/Jinko/Schema/Lookup.antt =====
-- schema.go: the indexes by key and by name, and the canonical form of a metric.
use Prim.Native.String.{String}
use jinko_exporter.Prelude.{ℕ, ◌≡◌, refl, Option, none, some, List, [], ◌∷◌, if◌then◌else◌}
use jinko_exporter.Prelude.Text.{trim_space, lower_codes, is_space}
use jinko_exporter.Model.{Metric}
use jinko_exporter.Source.Priority.{equal_codes}
use jinko_exporter.Jinko.Text.{is_nil, sanitize_key, normalize_unit}
use jinko_exporter.Jinko.Schema.{MetricDefinition, canonical_metric_definitions}

-- A lookup in an index.
unfoldable pub find_definition : List ℕ → List (List ℕ × MetricDefinition) → Option MetricDefinition
find_definition key [] = none
find_definition key ((k, def) ∷ index) =
    let rest = find_definition key index in if equal_codes k key then some def else rest

-- The loop of `buildMetricIndex`: the first definition under a key stays. Neither key function
-- leaves space at an end.
unfoldable pub build_metric_index :
    (MetricDefinition → List ℕ)
    → List MetricDefinition
    → List (List ℕ × MetricDefinition)
    → List (List ℕ × MetricDefinition)
build_metric_index key_func [] index = index
build_metric_index key_func (def ∷ defs) index =
    let key = key_func def in
    build_metric_index key_func defs (
      if is_nil key
      then index
      else elim (find_definition key index) [ none ↦ (key, def) ∷ index | some _ ↦ index ])

abbrev pub lower_key : MetricDefinition → List ℕ
lower_key def = lower_codes def.key

abbrev pub sanitized_name : MetricDefinition → List ℕ
sanitized_name def = sanitize_key def.name

-- By key first, then by name.
unfoldable pub look_up :
    List (List ℕ × MetricDefinition)
    → List (List ℕ × MetricDefinition)
    → String
    → String
    → Option MetricDefinition
look_up by_key by_name key name = elim (find_definition (lower_codes (trim_space key)) by_key) [
  | some def ↦ some def
  | none ↦ find_definition (sanitize_key name) by_name
]

unfoldable pub lookup_metric_definition : String → String → Option MetricDefinition
lookup_metric_definition =
    look_up (build_metric_index lower_key canonical_metric_definitions [])
      (build_metric_index sanitized_name canonical_metric_definitions [])

module _ {V : Type 0} where
  unfoldable pub canonicalize_metric : Metric V → Option (Metric V)
  canonicalize_metric m = elim (lookup_metric_definition m.key m.name) [
    | none ↦ none
    | some def ↦ some (record m {
      group = def.group;
      key = def.key;
      name = def.name;
      unit = normalize_unit def.unit;
    })
  ]

finds :
    lookup_metric_definition " gen_p_t" ""
    ≡ some (record { key = "GEN_P_T"; group = "generator"; name = "Total Gen Power"; unit = "W" })
unfolding lookup_metric_definition look_up find_definition build_metric_index equal_codes
    lower_codes trim_space is_space
finds = refl

names :
    lookup_metric_definition "" "battery_power"
    ≡ some (record { key = "B_P1"; group = "battery"; name = "Battery Power"; unit = "W" })
unfolding lookup_metric_definition look_up find_definition build_metric_index equal_codes
    lower_codes trim_space is_space sanitize_key
names = refl
