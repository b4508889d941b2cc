-- ===== src/Source/Priority/Projection.antt =====
-- What a snapshot becomes when it is projected onto a surface.
use Prim.Native.String.{String}
use mathlib.Core.List.{Memᴰ}
use mathlib.Core.Path.{subst}
use jinko_exporter.Prelude.{
  ◌≡◌, refl, sym, ◌⊎◌, inl, inr, true, some, List, [], ◌∷◌, arith, Bool-cases, Option-cases,
}
use jinko_exporter.Prelude.Text.{trim_space}
use jinko_exporter.Model.{Metric}
use jinko_exporter.Source.Priority.{
  find, is_source_alert_metric, restyle, project_metric, project_metrics,
}

module _ {V : Type 0} where
  -- The value of one metric under the group, key, name and unit of another.
  abbrev pub HasStyle : Metric V → Metric V → Metric V → Type 0
  HasStyle primary m m' =
      (m'.group ≡ primary.group)
      × (m'.key ≡ primary.key)
      × (m'.name ≡ primary.name)
      × (m'.unit ≡ primary.unit)
      × (m'.value ≡ m.value)

  -- Where a projected metric comes from: an alert metric of the fallback itself, or the value of one
  -- of the fallback's metrics under the group, key, name and unit of the primary's.
  abbrev pub IsProjectionOf : List (String × Metric V) → Metric V → Metric V → Type 0
  IsProjectionOf surface m m' =
      ((is_source_alert_metric m ≡ true) × (m' ≡ m))
      ⊎ ((primary : Metric V) × (find (trim_space m.key) surface ≡ some primary)
          × HasStyle primary m m')

  pub project_metric_origin :
      (surface : List (String × Metric V)) (seen : List String) (m m' : Metric V)
      → project_metric surface seen m ≡ some m'
      → IsProjectionOf surface m m'
  unfolding project_metric
  project_metric_origin surface seen m m' h =
      elim (Option-cases (find (trim_space m.key) surface)) [
        | inl absent ↦ inl (ground (arith, absent), ground (arith, absent))
        | inr (primary, found) ↦ elim (Bool-cases (is_source_alert_metric m)) [
          | inl alert ↦ inl (alert, ground (arith, alert, found))
          | inr ordinary ↦
              let same : restyle primary m ≡ m' = ground (arith, ordinary, found) in
              inr (primary, found, subst (HasStyle primary m) same (refl, refl, refl, refl, refl))
        ]
      ]

  projected_head :
      {rest : List (Metric V)} (surface : List (String × Metric V)) (m : Metric V)
      (metrics : List (Metric V)) (m' x : Metric V)
      → IsProjectionOf surface m x
      → (Memᴰ m' rest → (o : Metric V) × Memᴰ o metrics × IsProjectionOf surface o m')
      → Memᴰ m' (x ∷ rest)
      → (o : Metric V) × Memᴰ o (m ∷ metrics) × IsProjectionOf surface o m'
  projected_head surface m metrics m' x from later (Memᴰ.head e) =
      (m, Memᴰ.head refl, subst (IsProjectionOf surface m) (sym e) from)
  projected_head surface m metrics m' x from later (Memᴰ.tail at) =
      let (o, at', from') = later at in (o, Memᴰ.tail at', from')

  -- Every metric of a projection is one of the fallback's own alert metrics, unchanged, or has the
  -- value of one of the fallback's metrics and all else from the primary's metric of that key: no
  -- value is invented and none of the primary's is repeated.
  pub projected_origin :
      (surface : List (String × Metric V)) (seen : List String) (metrics : List (Metric V))
      (m' : Metric V)
      → Memᴰ m' (project_metrics surface seen metrics)
      → (m : Metric V) × Memᴰ m metrics × IsProjectionOf surface m m'
  unfolding project_metrics
  projected_origin surface seen [] m' h = elim h [ ]
  projected_origin surface seen (m ∷ metrics) m' h =
      elim (Option-cases (project_metric surface seen m)) [
        | inl skipped ↦
            let (o, at, from) =
              projected_origin surface seen metrics m' (rw (skipped, project_metrics) at h) in
            (o, Memᴰ.tail at, from)
        | inr (x, kept) ↦
            projected_head surface m metrics m' x (project_metric_origin surface seen m x kept)
              (projected_origin surface (trim_space m.key ∷ seen) metrics m')
              (rw (kept, project_metrics) at h)
      ]
