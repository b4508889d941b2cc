-- ===== src/Source/Examples.antt =====
-- A primary that was seen once and then fails, and a fallback of the same device.
use Prim.Native.String.{String}
use mathlib.Core.List.{Memᴰ}
use jinko_exporter.Prelude.{ℕ, ◌≡◌, refl, ◌↔◌, true, List, [], ◌∷◌, Option, some, none, ok, err}
use jinko_exporter.Prelude.Int.{pos}
use jinko_exporter.Prelude.Text.{trim_space, is_space}
use jinko_exporter.Model.{Metric, Snapshot}
use jinko_exporter.Source.Priority.{
  Priority, MetricSurface, Outcome, FetchError, all_failed, named, source_error, nil_source, fetch,
  consider, accept, fallback_device_conflicts_with_primary, project_to_primary_surface,
  project_metrics, project_metric, remember_primary_surface, index_metrics, find, member,
  has_ordinary_telemetry, is_source_alert_metric,
}
use jinko_exporter.Source.Priority.Projection.{IsProjectionOf, projected_origin}
use jinko_exporter.Source.Priority.Keys.{AreFresh, projected-AreFresh}
use jinko_exporter.Source.Priority.Chain.{Serves, fetch-Serves_first}
use jinko_exporter.Source.Priority.Device.{IsCompatible, fetch-IsCompatible}
use jinko_exporter.Source.Enriched.{fetch_enriched, IsSameReading, enriched_appends}

abbrev soc : ℕ → Metric ℕ
soc v = record { group = "battery"; key = "B_left_cap1"; name = "SoC"; unit = "%"; value = v }

abbrev cloud_soc : Metric ℕ
cloud_soc = record {
  group = "Battery";
  key = " B_left_cap1";
  name = "Level";
  unit = "";
  value = 55;
}

abbrev snapshot_of : String → List (Metric ℕ) → Snapshot ℕ
snapshot_of source metrics = record {
  source = source;
  device_sn = "SN1";
  parent_sn = "";
  device_id = "";
  site_id = "";
  collected_at = pos 40;
  metrics = metrics;
  meta = [];
  modbus_evidence = none;
}

abbrev primary : Snapshot ℕ
primary = snapshot_of "modbus" (soc 60 ∷ [])

abbrev cloud : Snapshot ℕ
cloud = snapshot_of "jinko" (cloud_soc ∷ cloud_soc ∷ [])

abbrev surface : MetricSurface ℕ
surface = record {
  device_sn = "SN1";
  parent_sn = "";
  device_id = "";
  site_id = "";
  metrics = ("B_left_cap1", soc 60) ∷ [];
}

abbrev chain : Priority ℕ
chain = record { project_fallback_metrics = true; primary_surface = some surface }

abbrev answers : List (Option String × Outcome ℕ)
answers =
    (some "modbus", record { snapshot = none; error = some 7; ctx_error = none })
    ∷ (some "jinko", record { snapshot = some cloud; error = none; ctx_error = none })
    ∷ []

abbrev served : Snapshot ℕ
served = snapshot_of "jinko" (soc 55 ∷ [])

surface_learned : remember_primary_surface primary ≡ surface
unfolding remember_primary_surface index_metrics find trim_space is_space
surface_learned = refl

serves_cloud : fetch chain answers ≡ (chain, ok served)
unfolding fetch consider accept fallback_device_conflicts_with_primary project_to_primary_surface
    project_metrics project_metric find member has_ordinary_telemetry is_source_alert_metric
    trim_space is_space
serves_cloud = refl

fetch-Serves_first_example :
    (fetch chain answers ≡ (chain, ok served)) ↔ Serves chain chain served 0 answers
fetch-Serves_first_example = fetch-Serves_first chain chain served answers

fetch-IsCompatible_example : IsCompatible (some surface) served
fetch-IsCompatible_example = fetch-IsCompatible chain chain served answers refl serves_cloud

abbrev silent : List (Option String × Outcome ℕ)
silent =
    (some "modbus", record { snapshot = none; error = some 7; ctx_error = none })
    ∷ (none, record { snapshot = none; error = none; ctx_error = none })
    ∷ []

abbrev reasons : FetchError
reasons = all_failed (named "modbus" (source_error 7) ∷ nil_source ∷ [])

fails : fetch chain silent ≡ (chain, err reasons)
unfolding fetch consider
fails = refl

projects : project_metrics surface.metrics [] cloud.metrics ≡ soc 55 ∷ []
unfolding project_metrics project_metric find member is_source_alert_metric trim_space is_space
projects = refl

kept : Memᴰ (soc 55) (project_metrics surface.metrics [] cloud.metrics)
unfolding project_metrics project_metric find member is_source_alert_metric trim_space is_space
kept = Memᴰ.head refl

projected_origin_example :
    (m : Metric ℕ) × Memᴰ m cloud.metrics × IsProjectionOf surface.metrics m (soc 55)
projected_origin_example = projected_origin surface.metrics [] cloud.metrics (soc 55) kept

projected-AreFresh_example :
    AreFresh [] (project_to_primary_surface (some (remember_primary_surface primary)) cloud).metrics
projected-AreFresh_example = projected-AreFresh primary cloud

abbrev local_answer : Outcome ℕ
local_answer = record { snapshot = some primary; error = none; ctx_error = none }

abbrev grid_load : Metric ℕ
grid_load = record { group = "grid"; key = "E_Grid"; name = "Grid"; unit = "W"; value = 900 }

-- A nil source, one that fails and one that answers.
abbrev extras : List (Option (Outcome ℕ))
extras =
    none
    ∷ some (record { snapshot = none; error = some 3; ctx_error = none })
    ∷ some (record {
      snapshot = some (snapshot_of "shelly" (grid_load ∷ []));
      error = none;
      ctx_error = none;
    })
    ∷ []

enriched_appends_example :
    (s' : Snapshot ℕ) × (fetch_enriched local_answer extras ≡ ok (some s'))
    × (s'.metrics ≡ soc 60 ∷ grid_load ∷ [])
    × IsSameReading primary s'
enriched_appends_example = enriched_appends local_answer primary extras refl refl
