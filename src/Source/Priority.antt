-- ===== src/Source/Priority.antt =====
-- bridge/internal/source/priority.go: an ordered chain of sources, and the projection of a fallback
-- onto what the primary source has published.
pub mod Projection
pub mod Chain
pub mod Device
pub mod Keys
use Prim.Native.String.{String, ◌++◌}
use jinko_exporter.Prelude.{
  ℕ, zero, suc, ◌+◌, Bool, true, false, ◌&&◌, ◌||◌, not, Option, none, some, List, [], ◌∷◌, ◌==◌,
  if◌then◌else◌, Result, ok, err,
}
use mathlib.Core.List.{◌++◌ as append}
use jinko_exporter.Prelude.Text.{◌=$◌, is_empty, trim_space, lower_codes, contains}
use jinko_exporter.Model.{Metric, Snapshot}

-- The code points of "alarm" and of "fault".
abbrev alarm : List ℕ
alarm = 97 ∷ 108 ∷ 97 ∷ 114 ∷ 109 ∷ []

abbrev fault : List ℕ
fault = 102 ∷ 97 ∷ 117 ∷ 108 ∷ 116 ∷ []

abbrev alert : List ℕ
alert = 97 ∷ 108 ∷ 101 ∷ 114 ∷ 116 ∷ []

unfoldable pub equal_codes : List ℕ → List ℕ → Bool
equal_codes [] [] = true
equal_codes (x ∷ xs) (y ∷ ys) = (x == y) && equal_codes xs ys
equal_codes _ _ = false

module _ {V : Type 0} where
  -- `strings.TrimSpace` of the lower-cased group: case does not change what is space.
  unfoldable pub is_source_alert_metric : Metric V → Bool
  unfolding trim_space lower_codes contains equal_codes
  is_source_alert_metric m =
      let text = lower_codes (m.group ++ " " ++ m.key ++ " " ++ m.name) in
      equal_codes (lower_codes (trim_space m.group)) alert
      || contains text alarm
      || contains text fault

  -- The loop of `hasOrdinaryTelemetry`.
  unfoldable pub has_ordinary_metric : List (Metric V) → Bool
  has_ordinary_metric [] = false
  has_ordinary_metric (m ∷ metrics) =
      not (is_empty (trim_space m.key)) && not (is_source_alert_metric m)
      || has_ordinary_metric metrics

  unfoldable pub has_ordinary_telemetry : Snapshot V → Bool
  unfolding has_ordinary_metric
  has_ordinary_telemetry s = has_ordinary_metric s.metrics

-- `surface.metrics`, a map from trimmed keys.
module _ {V : Type 0} where
  unfoldable pub find : String → List (String × Metric V) → Option (Metric V)
  find key [] = none
  find key ((k, m) ∷ rest) = if k =$ key then some m else find key rest

unfoldable pub member : String → List String → Bool
member key [] = false
member key (k ∷ seen) = k =$ key || member key seen

-- An identity field of a fallback of the same device is filled in where it is blank.
abbrev pub fill : Bool → String → String → String
fill same_device own primary =
    if same_device && is_empty (trim_space own) && not (is_empty primary) then primary else own

pub record MetricSurface (V : Type 0) : Type 0 where
  pub device_sn : String
  pub parent_sn : String
  pub device_id : String
  pub site_id : String
  pub metrics : List (String × Metric V)

module _ {V : Type 0} where
  -- The loop of `rememberPrimarySurface`: the first metric under a key stays.
  unfoldable pub index_metrics :
      List (String × Metric V) → List (Metric V) → List (String × Metric V)
  index_metrics index [] = index
  index_metrics index (m ∷ metrics) =
      let key = trim_space m.key in
      index_metrics
        (if is_empty key
          then index
          else (elim (find key index) [ none ↦ (key, m) ∷ index | some _ ↦ index ]))
        metrics

  unfoldable pub remember_primary_surface : Snapshot V → MetricSurface V
  unfolding index_metrics
  remember_primary_surface s = record {
    device_sn = trim_space s.device_sn;
    parent_sn = trim_space s.parent_sn;
    device_id = trim_space s.device_id;
    site_id = trim_space s.site_id;
    metrics = index_metrics [] s.metrics;
  }

  -- A fallback metric takes all but its value from the metric of the primary surface.
  abbrev pub restyle : Metric V → Metric V → Metric V
  restyle primary m = record m {
    group = primary.group;
    key = primary.key;
    name = primary.name;
    unit = primary.unit;
  }

  -- What becomes of one metric of the loop of `projectToPrimarySurface`.
  unfoldable pub project_metric :
      List (String × Metric V) → List String → Metric V → Option (Metric V)
  project_metric surface seen m =
      let key = trim_space m.key in
      if is_empty key
      then none
      else (if is_source_alert_metric m
          then (if member key seen then none else some m)
          else elim (find key surface) [
            | none ↦ none
            | some primary ↦ if member key seen then none else some (restyle primary m)
          ])

  unfoldable pub project_metrics :
      List (String × Metric V) → List String → List (Metric V) → List (Metric V)
  project_metrics surface seen [] = []
  project_metrics surface seen (m ∷ metrics) =
      let skipped = project_metrics surface seen metrics in
      let kept = project_metrics surface (trim_space m.key ∷ seen) metrics in
      elim (project_metric surface seen m) [ none ↦ skipped | some m' ↦ m' ∷ kept ]

  unfoldable pub project_to_primary_surface : Option (MetricSurface V) → Snapshot V → Snapshot V
  project_to_primary_surface none s = s
  project_to_primary_surface (some p) s =
      let fallback_sn = trim_space s.device_sn in
      let same =
        not (is_empty fallback_sn) && not (is_empty p.device_sn) && (fallback_sn =$ p.device_sn) in
      record s {
        parent_sn = fill same s.parent_sn p.parent_sn;
        device_id = fill same s.device_id p.device_id;
        site_id = fill same s.site_id p.site_id;
        metrics = project_metrics p.metrics [] s.metrics;
      }

  -- The surface's serial number is trimmed already; trimming again is written out as in the source.
  unfoldable pub fallback_device_conflicts_with_primary :
      Option (MetricSurface V) → Snapshot V → Bool
  fallback_device_conflicts_with_primary none s = false
  fallback_device_conflicts_with_primary (some p) s =
      let primary_sn = trim_space p.device_sn in
      let fallback_sn = trim_space s.device_sn in
      not (is_empty primary_sn) && not (is_empty fallback_sn) && not (fallback_sn =$ primary_sn)

-- What a source answered: its snapshot or nil, its error or nil, and `ctx.Err()` afterwards.
pub record Outcome (V : Type 0) : Type 0 where
  pub snapshot : Option (Snapshot V)
  pub error : Option ℕ
  pub ctx_error : Option ℕ

-- Why one source was passed over.
pub data SourceFailure : Type 0 where
  nil_source device_conflict no_compatible_telemetry nil_snapshot : SourceFailure
  source_error : ℕ → SourceFailure
  named : String → SourceFailure → SourceFailure

pub data FetchError : Type 0 where
  context_over : ℕ → FetchError
  all_failed : List SourceFailure → FetchError

pub record Priority (V : Type 0) : Type 0 where
  pub project_fallback_metrics : Bool
  pub primary_surface : Option (MetricSurface V)

module _ {V : Type 0} where
  abbrev pub is_some : Option (MetricSurface V) → Bool
  is_some none = false
  is_some (some p) = true

  -- The acceptance checks on a snapshot of the source at `index`: the new state, and the snapshot to
  -- return or the reason to go on.
  unfoldable pub accept :
      Priority V → ℕ → Snapshot V → Priority V × Result SourceFailure (Snapshot V)
  accept p zero s =
      if p.project_fallback_metrics
      then (record p { primary_surface = some (remember_primary_surface s) }, ok s)
      else (p, ok s)
  accept p (suc index) s =
      if p.project_fallback_metrics
      then (if fallback_device_conflicts_with_primary p.primary_surface s
          then (p, err device_conflict)
          else (let s' = project_to_primary_surface p.primary_surface s in
              if is_some p.primary_surface && not (has_ordinary_telemetry s')
              then (p, err no_compatible_telemetry)
              else (p, ok s')))
      else (p, ok s)

  -- One source's answer.
  unfoldable pub consider :
      Priority V → ℕ → Outcome V → Priority V × Result SourceFailure (Snapshot V)
  consider p index o = elim o.error [
    | some e ↦ (p, err (source_error e))
    | none ↦ elim o.snapshot [ none ↦ (p, err nil_snapshot) | some s ↦ accept p index s ]
  ]

  -- The loop of `Fetch`. A source is nil or has a name, and comes with what it answers.
  unfoldable pub fetch_from :
      Priority V
      → ℕ
      → List SourceFailure
      → List (Option String × Outcome V)
      → Priority V × Result FetchError (Snapshot V)
  fetch_from p index errs [] = (p, err (all_failed errs))
  fetch_from p index errs ((none, o) ∷ rest) =
      fetch_from p (suc index) (append errs (nil_source ∷ [])) rest
  fetch_from p index errs ((some name, o) ∷ rest) =
      let r = consider p index o in
      let next =
        λ (e : SourceFailure). fetch_from r.0 (suc index) (append errs (named name e ∷ [])) rest in
      elim r.1 [
        | ok s ↦ (r.0, ok s)
        | err e ↦ elim o.ctx_error [ some c ↦ (r.0, err (context_over c)) | none ↦ next e ]
      ]

  unfoldable pub fetch :
      Priority V → List (Option String × Outcome V) → Priority V × Result FetchError (Snapshot V)
  unfolding fetch_from
  fetch p sources = fetch_from p 0 [] sources
