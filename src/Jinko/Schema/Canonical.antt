-- ===== src/Jinko/Schema/Canonical.antt =====
-- A metric's canonical form is stable.
use Prim.Native.String.{String}
use mathlib.Core.List.{Memᴰ}
use jinko_exporter.Prelude.{
  ℕ, ◌≡◌, refl, sym, ap, ◌∙◌, Bool, true, false, ◌&&◌, none, some, List, [], ◌∷◌, Option-cases,
  Bool-cases, inl, inr, arith,
}
use jinko_exporter.Prelude.Text.{◌=$◌, =$_iff, trim_space, lower_codes, is_space}
use jinko_exporter.Model.{Metric}
use jinko_exporter.Source.Priority.{equal_codes}
use jinko_exporter.Jinko.Text.{is_nil, sanitize_key, normalize_unit}
use jinko_exporter.Jinko.Schema.{MetricDefinition, canonical_metric_definitions}
use jinko_exporter.Jinko.Schema.Lookup.{
  find_definition, build_metric_index, lookup_metric_definition, canonicalize_metric, lower_key,
  sanitized_name, look_up,
}
use mathlib.Core.Path.{subst}

abbrev same_definition : MetricDefinition → MetricDefinition → Bool
same_definition a b = a.key =$ b.key && a.group =$ b.group && a.name =$ b.name && a.unit =$ b.unit

abbrev finds_itself : List (List ℕ × MetricDefinition) → MetricDefinition → Bool
finds_itself index def = elim (find_definition (lower_codes (trim_space def.key)) index) [
  | none ↦ false
  | some d ↦ same_definition d def
]

abbrev all_find : List (List ℕ × MetricDefinition) → List MetricDefinition → Bool
all_find index [] = true
all_find index (def ∷ defs) = finds_itself index def && all_find index defs

-- Every definition is found under its own key.
table_found :
    all_find
      (build_metric_index lower_key canonical_metric_definitions [])
      canonical_metric_definitions
    ≡ true
unfolding find_definition build_metric_index equal_codes lower_codes trim_space is_space
table_found = refl

same_definition-eq : (a b : MetricDefinition) → same_definition a b ≡ true → a ≡ b
same_definition-eq a b h = ground (
  arith,
  h,
  =$_iff a.key b.key,
  =$_iff a.group b.group,
  =$_iff a.name b.name,
  =$_iff a.unit b.unit,
)

some_inj : {a b : MetricDefinition} → some a ≡ some b → a ≡ b
some_inj h = cc

found_itself :
    (index : List (List ℕ × MetricDefinition)) (def : MetricDefinition)
    → finds_itself index def ≡ true
    → find_definition (lower_codes (trim_space def.key)) index ≡ some def
found_itself index def h =
    elim (Option-cases (find_definition (lower_codes (trim_space def.key)) index)) [
      | inl absent ↦ absurd (cc (rw (absent, finds_itself) at h))
      | inr (d, found) ↦ found ∙ ap some (same_definition-eq d def (rw (found, finds_itself) at h))
    ]

all_find-at :
    (index : List (List ℕ × MetricDefinition)) (def : MetricDefinition)
    (defs : List MetricDefinition)
    → all_find index defs ≡ true
    → Memᴰ def defs
    → find_definition (lower_codes (trim_space def.key)) index ≡ some def
all_find-at index def [] all at = elim at [ ]
all_find-at index def (d ∷ defs) all (Memᴰ.head e) =
    rw e (found_itself index d (ground (arith, all)))
all_find-at index def (d ∷ defs) all (Memᴰ.tail at) =
    all_find-at index def defs (ground (arith, all)) at

-- What an index holds comes from the definitions.
module _ (key_func : MetricDefinition → List ℕ) (defs : List MetricDefinition) where
  abbrev Holds : List (List ℕ × MetricDefinition) → Type 0
  Holds index =
      (key : List ℕ) (def : MetricDefinition) → find_definition key index ≡ some def → Memᴰ def defs

  cons-Holds :
      (def : MetricDefinition) (index : List (List ℕ × MetricDefinition))
      → Memᴰ def defs
      → Holds index
      → Holds ((key_func def, def) ∷ index)
  unfolding find_definition
  cons-Holds def index at all key d h = elim (Bool-cases (equal_codes (key_func def) key)) [
    | inl same ↦ subst (λ x. Memᴰ x defs) (some_inj (rw (same, find_definition) at h)) at
    | inr other ↦ all key d (rw (other, find_definition) at h)
  ]

  build-Holds :
      (rest : List MetricDefinition) (index : List (List ℕ × MetricDefinition))
      → ((d : MetricDefinition) → Memᴰ d rest → Memᴰ d defs)
      → Holds index
      → Holds (build_metric_index key_func rest index)
  unfolding build_metric_index
  build-Holds [] index within all = all
  build-Holds (d ∷ rest) index within all = elim (Bool-cases (is_nil (key_func d))) [
    | inl blank ↦
        rw (blank, build_metric_index)
          (build-Holds rest index (λ e at. within e (Memᴰ.tail at)) all)
    | inr keyed ↦ elim (Option-cases (find_definition (key_func d) index)) [
      | inl absent ↦
          rw (keyed, absent, build_metric_index)
            (build-Holds rest ((key_func d, d) ∷ index) (λ e at. within e (Memᴰ.tail at))
              (cons-Holds d index (within d (Memᴰ.head refl)) all))
      | inr (e, present) ↦
          rw (keyed, present, build_metric_index)
            (build-Holds rest index (λ e at. within e (Memᴰ.tail at)) all)
    ]
  ]

empty-Holds :
    (key_func : MetricDefinition → List ℕ) (defs : List MetricDefinition) → Holds key_func defs []
unfolding find_definition
empty-Holds key_func defs key def h = absurd (cc)

look_up-Holds :
    (by_key by_name : List (List ℕ × MetricDefinition)) (defs : List MetricDefinition)
    (key name : String) (def : MetricDefinition)
    → Holds lower_key defs by_key
    → Holds sanitized_name defs by_name
    → look_up by_key by_name key name ≡ some def
    → Memᴰ def defs
unfolding look_up
look_up-Holds by_key by_name defs key name def k n h =
    elim (Option-cases (find_definition (lower_codes (trim_space key)) by_key)) [
      | inr (d, found) ↦ k (lower_codes (trim_space key)) def (found ∙ (rw (found, look_up) at h))
      | inl absent ↦ n (sanitize_key name) def (rw (absent, look_up) at h)
    ]

looked_up :
    (key name : String) (def : MetricDefinition)
    → lookup_metric_definition key name ≡ some def
    → Memᴰ def canonical_metric_definitions
unfolding lookup_metric_definition
looked_up key name def h =
    look_up-Holds (build_metric_index lower_key canonical_metric_definitions [])
      (build_metric_index sanitized_name canonical_metric_definitions [])
      canonical_metric_definitions key name def
      (build-Holds lower_key canonical_metric_definitions canonical_metric_definitions []
        (λ d at. at) (empty-Holds lower_key canonical_metric_definitions))
      (build-Holds sanitized_name canonical_metric_definitions canonical_metric_definitions []
        (λ d at. at) (empty-Holds sanitized_name canonical_metric_definitions))
      h

look_up-by_key :
    (by_key by_name : List (List ℕ × MetricDefinition)) (key name : String) (def : MetricDefinition)
    → find_definition (lower_codes (trim_space key)) by_key ≡ some def
    → look_up by_key by_name key name ≡ some def
unfolding look_up
look_up-by_key by_key by_name key name def h = rw (h, look_up)

looked_up_again :
    (def : MetricDefinition)
    → Memᴰ def canonical_metric_definitions
    → lookup_metric_definition def.key def.name ≡ some def
unfolding lookup_metric_definition
looked_up_again def at =
    look_up-by_key (build_metric_index lower_key canonical_metric_definitions [])
      (build_metric_index sanitized_name canonical_metric_definitions []) def.key def.name def
      (all_find-at (build_metric_index lower_key canonical_metric_definitions []) def
        canonical_metric_definitions table_found at)

module _ {V : Type 0} where
  abbrev styled : Metric V → MetricDefinition → Metric V
  styled m def = record m {
    group = def.group;
    key = def.key;
    name = def.name;
    unit = normalize_unit def.unit;
  }

  canonicalize_as :
      (m : Metric V) (def : MetricDefinition)
      → lookup_metric_definition m.key m.name ≡ some def
      → canonicalize_metric m ≡ some (styled m def)
  unfolding canonicalize_metric
  canonicalize_as m def h = rw (h, canonicalize_metric)

  metric_inj : {a b : Metric V} → some a ≡ some b → a ≡ b
  metric_inj h = cc

  canonicalize-cases :
      (m m' : Metric V)
      → canonicalize_metric m ≡ some m'
      → (def : MetricDefinition) × (lookup_metric_definition m.key m.name ≡ some def)
        × (styled m def ≡ m')
  unfolding canonicalize_metric
  canonicalize-cases m m' h = elim (Option-cases (lookup_metric_definition m.key m.name)) [
    | inl absent ↦ absurd (cc (rw (absent, canonicalize_metric) at h))
    | inr (def, found) ↦ (def, found, metric_inj (rw (found, canonicalize_metric) at h))
  ]

  -- A canonical metric has the key of a definition.
  pub canonical_key :
      (m m' : Metric V)
      → canonicalize_metric m ≡ some m'
      → (def : MetricDefinition) × Memᴰ def canonical_metric_definitions × (m'.key ≡ def.key)
  canonical_key m m' h =
      let (def, found, e) = canonicalize-cases m m' h in
      (def, looked_up m.key m.name def found, ap (λ x. x.key) (sym e))

  -- A metric's canonical form is its own canonical form, so it does not matter whether a source has
  -- canonicalised its metrics already.
  pub canonicalize_stable :
      (m m' : Metric V) → canonicalize_metric m ≡ some m' → canonicalize_metric m' ≡ some m'
  canonicalize_stable m m' h =
      let (def, found, e) = canonicalize-cases m m' h in
      subst (λ x. canonicalize_metric x ≡ some x) e
        (canonicalize_as (styled m def) def
          (looked_up_again def (looked_up m.key m.name def found)))
