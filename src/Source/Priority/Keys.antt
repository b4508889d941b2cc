-- ===== src/Source/Priority/Keys.antt =====
-- The keys of a remembered surface and of what is projected onto it.
use Prim.Native.String.{String}
use mathlib.Core.Path.{subst}
use jinko_exporter.Prelude.{
  ◌≡◌, sym, ap, ◌∙◌, inl, inr, false, some, List, [], ◌∷◌, arith, Bool-cases, Option-cases,
}
use jinko_exporter.Prelude.Text.{◌=$◌, =$_iff, is_empty, trim_space}
use jinko_exporter.Model.{Metric, Snapshot}
use jinko_exporter.Source.Priority.{
  find, member, index_metrics, remember_primary_surface, project_metric, project_metrics,
  project_to_primary_surface,
}
use jinko_exporter.Source.Priority.Projection.{IsProjectionOf, project_metric_origin}

module _ {V : Type 0} where
  -- A metric is stored under its own trimmed key.
  abbrev pub IsIndex : List (String × Metric V) → Type 0
  IsIndex index = (key : String) (m : Metric V) → find key index ≡ some m → trim_space m.key ≡ key

  -- No metric has a key in the list or the key of a metric in front of it.
  abbrev pub AreFresh : List String → List (Metric V) → Type 0
  AreFresh seen [] = Unit
  AreFresh seen (m ∷ metrics) =
      (member (trim_space m.key) seen ≡ false) × AreFresh (trim_space m.key ∷ seen) metrics

  empty-IsIndex : IsIndex []
  unfolding find
  empty-IsIndex key m h = absurd (cc)

  some_inj : {a b : Metric V} → some a ≡ some b → a ≡ b
  some_inj h = cc

  cons-IsIndex :
      (m : Metric V) (index : List (String × Metric V))
      → IsIndex index
      → IsIndex ((trim_space m.key, m) ∷ index)
  unfolding find
  cons-IsIndex m index well key m' h = elim (Bool-cases (trim_space m.key =$ key)) [
    | inl same ↦
        ap (λ (x : Metric V). trim_space x.key) (some_inj (sym (rw (same, find) at h)))
        ∙ (=$_iff (trim_space m.key) key).0 same
    | inr other ↦ well key m' (rw (other, find) at h)
  ]

  index_metrics-IsIndex :
      (index : List (String × Metric V)) (metrics : List (Metric V))
      → IsIndex index
      → IsIndex (index_metrics index metrics)
  unfolding index_metrics
  index_metrics-IsIndex index [] well = well
  index_metrics-IsIndex index (m ∷ metrics) well = elim (Bool-cases (is_empty (trim_space m.key))) [
    | inl blank ↦ rw (blank, index_metrics) (index_metrics-IsIndex index metrics well)
    | inr keyed ↦ elim (Option-cases (find (trim_space m.key) index)) [
      | inl absent ↦
          rw (keyed, absent, index_metrics)
            (index_metrics-IsIndex ((trim_space m.key, m) ∷ index) metrics
              (cons-IsIndex m index well))
      | inr (m', present) ↦
          rw (keyed, present, index_metrics) (index_metrics-IsIndex index metrics well)
    ]
  ]

  kept_fresh :
      (surface : List (String × Metric V)) (seen : List String) (m m' : Metric V)
      → project_metric surface seen m ≡ some m'
      → member (trim_space m.key) seen ≡ false
  unfolding project_metric
  kept_fresh surface seen m m' h = ground (arith, h)

  origin_key :
      (surface : List (String × Metric V)) (m m' : Metric V)
      → IsIndex surface
      → IsProjectionOf surface m m'
      → trim_space m.key ≡ trim_space m'.key
  origin_key surface m m' well (inl (alert, same)) =
      ap (λ (x : Metric V). trim_space x.key) (sym same)
  origin_key surface m m' well (inr (primary, found, styled)) =
      let (group, key, name, unit, value) = styled in
      sym (ap trim_space key ∙ well (trim_space m.key) primary found)

  cons-AreFresh :
      (seen : List String) (key : String) (m : Metric V) (metrics : List (Metric V))
      → key ≡ trim_space m.key
      → member key seen ≡ false
      → AreFresh (key ∷ seen) metrics
      → AreFresh seen (m ∷ metrics)
  cons-AreFresh seen key m metrics same fresh later = (
    subst (λ k. member k seen ≡ false) same fresh,
    subst (λ k. AreFresh (k ∷ seen) metrics) same later,
  )

  project_metrics-AreFresh :
      (surface : List (String × Metric V)) (seen : List String) (metrics : List (Metric V))
      → IsIndex surface
      → AreFresh seen (project_metrics surface seen metrics)
  unfolding project_metrics
  project_metrics-AreFresh surface seen [] well = tt
  project_metrics-AreFresh surface seen (m ∷ metrics) well =
      elim (Option-cases (project_metric surface seen m)) [
        | inl skipped ↦
            rw (skipped, project_metrics) (project_metrics-AreFresh surface seen metrics well)
        | inr (x, kept) ↦
            rw (kept, project_metrics)
              (cons-AreFresh seen (trim_space m.key) x _
                (origin_key surface m x well (project_metric_origin surface seen m x kept))
                (kept_fresh surface seen m x kept)
                (project_metrics-AreFresh surface (trim_space m.key ∷ seen) metrics well))
      ]

  -- A snapshot projected onto what a fetch remembered of the primary has no two metrics with the
  -- same key, spaces at the ends aside.
  pub projected-AreFresh :
      (primary s : Snapshot V)
      → AreFresh [] (project_to_primary_surface (some (remember_primary_surface primary)) s).metrics
  unfolding project_to_primary_surface remember_primary_surface
  projected-AreFresh primary s =
      project_metrics-AreFresh (index_metrics [] primary.metrics) [] s.metrics
        (index_metrics-IsIndex [] primary.metrics empty-IsIndex)
