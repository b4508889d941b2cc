-- ===== src/Jinko/Examples.antt =====
-- A concrete answer of the cloud, and a concrete metric.
use Prim.Native.String.{String}
use jinko_exporter.Prelude.{
  ℕ, ◌≡◌, refl, ◌↔◌, true, Option, none, some, List, [], ◌∷◌, map, arith, err,
}
use jinko_exporter.Prelude.Int.{pos}
use jinko_exporter.Prelude.Text.{trim_space, lower_codes, is_space}
use jinko_exporter.Model.{Metric}
use jinko_exporter.Model.Freshness.{CollectionError, validate_collection_time}
use jinko_exporter.Source.Priority.{equal_codes}
use jinko_exporter.Jinko.Text.{normalize_unit}
use jinko_exporter.Jinko.Metadata.{Field, lookup}
use jinko_exporter.Jinko.Metadata.Exactly.{given, all_agree, any_given}
use jinko_exporter.Jinko.Parser.{DetailResponse, parse_detail_response}
use jinko_exporter.Jinko.Parser.Answers.{all_fields, meta_exactly, timeless_is_refused}
use jinko_exporter.Jinko.Schema.Lookup.{
  canonicalize_metric, lookup_metric_definition, look_up, find_definition, build_metric_index,
}
use jinko_exporter.Jinko.Schema.Canonical.{canonicalize_stable}

abbrev loose : Metric ℕ
loose = record { group = "x"; key = " gen_p_t"; name = "?"; unit = "kW"; value = 5 }

abbrev canonical : Metric ℕ
canonical = record {
  group = "generator";
  key = "GEN_P_T";
  name = "Total Gen Power";
  unit = "W";
  value = 5;
}

loose-canonical : canonicalize_metric loose ≡ some canonical
unfolding canonicalize_metric lookup_metric_definition look_up find_definition build_metric_index
    equal_codes lower_codes trim_space is_space normalize_unit
loose-canonical = refl

canonicalize_stable_example : canonicalize_metric canonical ≡ some canonical
canonicalize_stable_example = canonicalize_stable loose canonical loose-canonical

abbrev version_field : String → String → Field
version_field name value = record {
  key = "Version";
  value = value;
  storage_name = name;
  unit = "";
  org_value = "";
}

-- One version twice, and two that contradict each other.
abbrev answer : DetailResponse
answer = record {
  device_id = pos 7;
  device_sn = "SN1";
  site_id = pos 9;
  collection_time = record { numerator = pos 0; halvings = 0 };
  parent_device_sn = "";
  categories =
      record {
        name = "Version";
        tag = "version";
        field_list =
            version_field "MAIN" "1.0"
            ∷ version_field "HMI" "2.0"
            ∷ version_field "MAIN" "1.0"
            ∷ [];
      }
      ∷ record { name = "State"; tag = "state"; field_list = version_field "HMI" "2.1" ∷ [] }
      ∷ [];
}

abbrev no_number : List ℕ → Option ℕ
no_number text = none

meta_exactly_example :
    let texts = map (given "cloud_main_firmware") (all_fields answer.categories) in
    (lookup (parse_detail_response no_number answer).meta "cloud_main_firmware" ≡ some "1.0")
    ↔ ((any_given texts ≡ true) × (all_agree "1.0" texts ≡ true))
meta_exactly_example = meta_exactly no_number answer "cloud_main_firmware" "1.0"

timeless_is_refused_example :
    (e : CollectionError) × (validate_collection_time
        (parse_detail_response no_number answer).collected_at
        (pos 1700000000000000000)
        (pos 60000000000)
      ≡ err e)
timeless_is_refused_example =
    timeless_is_refused no_number answer (pos 1700000000000000000) (pos 60000000000) (omega arith)
