-- ===== src/Jinko/Parser.antt =====
-- parser.go: a decoded answer becomes a snapshot. The value of a metric stays a parameter, with
-- strconv.ParseFloat, which refuses NaN and infinities here, over it.
pub mod Answers
use Prim.Native.String.{String, ◌++◌ as text_append}
use mathlib.Core.List.{◌++◌ as append}
use jinko_exporter.Prelude.{
  ℕ, suc, ◌*◌, ◌/◌, ◌%◌, ◌+◌, ◌-◌, ◌^◌, ◌≡◌, refl, Bool, true, false, ◌&&◌, ◌||◌, Option, none,
  some, List, [], ◌∷◌, get_or, ltb, ◌==◌, if◌then◌else◌,
}
use jinko_exporter.Prelude.Digits.{decimal}
use jinko_exporter.Prelude.Int.{ℤ, pos, negsuc}
use jinko_exporter.Prelude.Text.{is_empty, trim_space, lower_codes}
use jinko_exporter.Model.{Metric, Snapshot, zero_time}
use jinko_exporter.Source.Priority.{equal_codes}
use jinko_exporter.Jinko.Text.{is_nil, sanitize_key, normalize_unit}
use jinko_exporter.Jinko.Numbers.{
  codes, plain_spaces, trim_start, trim_end, normalize_number_separators,
}
use jinko_exporter.Jinko.Metadata.{Field, Collected, collect_cloud_metadata}
use jinko_exporter.Jinko.Metadata.Exactly.{nothing_collected}
use jinko_exporter.Jinko.Schema.Lookup.{canonicalize_metric}

pub record Category : Type 0 where
  pub name : String
  pub tag : String
  pub field_list : List Field

-- A float64 is numerator / 2 ^ halvings.
pub record Seconds : Type 0 where
  pub numerator : ℤ
  pub halvings : ℕ

pub record DetailResponse : Type 0 where
  pub device_id : ℤ
  pub device_sn : String
  pub site_id : ℤ
  pub collection_time : Seconds
  pub parent_device_sn : String
  pub categories : List Category

-- A time without an answer's own stays zero; the product with time.Second is taken as exact.
unfoldable pub collected_at : Seconds → ℤ
collected_at t = elim t.numerator [
  | negsuc _ ↦ zero_time
  | pos n ↦
      let one = 2 ^ t.halvings in
      if ltb 0 n && ltb n (9223372036854775808 * one)
      then pos (n / one * 1000000000 + n % one * 1000000000 / one)
      else zero_time
]

-- strconv.FormatInt(n, 10)
abbrev pub format_int : ℤ → String
format_int (pos n) = decimal n
format_int (negsuc n) = text_append "-" (decimal (suc n))

abbrev key_characters : List String
key_characters =
    "a" ∷ "b" ∷ "c" ∷ "d" ∷ "e" ∷ "f" ∷ "g" ∷ "h" ∷ "i" ∷ "j" ∷ "k" ∷ "l" ∷ "m" ∷ "n" ∷ "o" ∷ "p"
    ∷ "q" ∷ "r" ∷ "s" ∷ "t" ∷ "u" ∷ "v" ∷ "w" ∷ "x" ∷ "y" ∷ "z" ∷ []

-- The text of a sanitised key: letters, digits and underscores.
unfoldable pub key_text : List ℕ → String
key_text [] = ""
key_text (c ∷ s) =
    let rest = key_text s in
    text_append
      (if c == 95
        then "_"
        else if ltb c 97
        then decimal (c - 48)
        else get_or key_characters (c - 97) "")
      rest

abbrev pub known_groups : List (List ℕ)
known_groups =
    codes "basic"
    ∷ codes "electric"
    ∷ codes "electricity_generation"
    ∷ codes "grid"
    ∷ codes "load"
    ∷ codes "battery"
    ∷ codes "bms"
    ∷ codes "bms2"
    ∷ codes "temperature"
    ∷ codes "status"
    ∷ codes "state"
    ∷ codes "alert"
    ∷ []

unfoldable pub is_known : List (List ℕ) → List ℕ → Bool
is_known [] value = false
is_known (g ∷ groups) value = equal_codes g value || is_known groups value

unfoldable pub first_non_empty : List String → String
first_non_empty [] = ""
first_non_empty (value ∷ values) =
    let rest = first_non_empty values in if is_empty (trim_space value) then rest else value

unfoldable pub normalize_group : String → String → String
normalize_group tag name = key_text (
    if is_known known_groups (sanitize_key tag)
    then sanitize_key tag
    else if is_known known_groups (sanitize_key name)
    then sanitize_key name
    else sanitize_key (first_non_empty (tag ∷ name ∷ [])))

module _ {V : Type 0} (parse_float : List ℕ → Option V) where
  unfoldable pub parse_number : String → Option V
  parse_number raw =
      let trimmed = trim_end (trim_start (plain_spaces (codes raw))) in
      if is_nil trimmed then none else parse_float (normalize_number_separators trimmed)

  unfoldable pub parse_field_number : Field → Option V
  parse_field_number f = elim (parse_number f.org_value) [
    | some value ↦ some value
    | none ↦ parse_number f.value
  ]

  abbrev pub field_metric : String → Field → V → Metric V
  field_metric group f value = record {
    group = group;
    key =
        if is_empty (trim_space f.storage_name)
        then key_text (sanitize_key f.key)
        else trim_space f.storage_name;
    name = trim_space f.key;
    unit = normalize_unit f.unit;
    value = value;
  }

  abbrev pub canonical_or_own : Metric V → Metric V
  canonical_or_own m = elim (canonicalize_metric m) [ some canonical ↦ canonical | none ↦ m ]

  unfoldable pub add_metric : String → Field → List (Metric V) → List (Metric V)
  add_metric group f metrics = elim (parse_field_number f) [
    | none ↦ metrics
    | some value ↦ append metrics (canonical_or_own (field_metric group f value) ∷ [])
  ]

  unfoldable pub parse_fields :
      String → List Field → Collected → List (Metric V) → Collected × List (Metric V)
  parse_fields group [] c metrics = (c, metrics)
  parse_fields group (f ∷ fields) c metrics =
      parse_fields group fields (collect_cloud_metadata c f) (add_metric group f metrics)

  unfoldable pub parse_categories :
      List Category → Collected → List (Metric V) → Collected × List (Metric V)
  parse_categories [] c metrics = (c, metrics)
  parse_categories (cat ∷ categories) c metrics =
      let (c', metrics') =
        parse_fields (normalize_group cat.tag cat.name) cat.field_list c metrics in
      parse_categories categories c' metrics'

  -- What follows json.Unmarshal.
  unfoldable pub parse_detail_response : DetailResponse → Snapshot V
  parse_detail_response payload =
      let (c, metrics) = parse_categories payload.categories nothing_collected [] in
      record {
        source = "";
        device_sn = trim_space payload.device_sn;
        parent_sn = trim_space payload.parent_device_sn;
        device_id = format_int payload.device_id;
        site_id = format_int payload.site_id;
        collected_at = collected_at payload.collection_time;
        metrics = metrics;
        meta = c.metadata;
        modbus_evidence = none;
      }
