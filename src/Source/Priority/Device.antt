-- ===== src/Source/Priority/Device.antt =====
-- Whose telemetry a priority chain serves, once it has seen its primary source.
use Prim.Native.String.{String}
use mathlib.Core.Path.{subst}
use jinko_exporter.Prelude.{
  not-false, ℕ, zero, suc, ◌≡◌, refl, sym, ◌⊎◌, inl, inr, true, false, not, ◌&&◌, Option, none,
  some, List, [], ◌∷◌, arith, ok, Option-cases,
}
use jinko_exporter.Prelude.Text.{=$_iff, is_empty, trim_space, trim_space_idem}
use jinko_exporter.Model.{Snapshot}
use jinko_exporter.Source.Priority.{
  Priority, Outcome, MetricSurface, accept, consider, fetch, fallback_device_conflicts_with_primary,
  project_to_primary_surface, remember_primary_surface, has_ordinary_telemetry, is_some,
}
use jinko_exporter.Source.Priority.Chain.{Serves, here, past_nil, past_failed, fetch-Serves_first}

-- One of the two devices is not named, or they are the same, spaces at the ends aside.
abbrev pub IsSameDevice : String → String → Type 0
IsSameDevice a b =
    (is_empty (trim_space a) ≡ true)
    ⊎ (is_empty (trim_space b) ≡ true)
    ⊎ (trim_space a ≡ trim_space b)

module _ {V : Type 0} where
  -- A snapshot may be served next to a surface when it is about the surface's device and is the
  -- primary's own or holds ordinary telemetry. Next to no surface every snapshot may be served.
  abbrev pub IsCompatible : Option (MetricSurface V) → Snapshot V → Type 0
  IsCompatible none s = Unit
  IsCompatible (some m) s =
      IsSameDevice s.device_sn m.device_sn
      × ((m ≡ remember_primary_surface s) ⊎ (has_ordinary_telemetry s ≡ true))

  primary-IsCompatible : (s : Snapshot V) → IsCompatible (some (remember_primary_surface s)) s
  unfolding remember_primary_surface
  primary-IsCompatible s = (inr (inr (sym (trim_space_idem s.device_sn))), inl refl)

  no_conflict :
      (m : MetricSurface V) (s : Snapshot V)
      → fallback_device_conflicts_with_primary (some m) s ≡ false
      → IsSameDevice s.device_sn m.device_sn
  unfolding fallback_device_conflicts_with_primary
  no_conflict m s h = ground (arith, h, =$_iff (trim_space s.device_sn) (trim_space m.device_sn))

  project_keeps_device :
      (surface : Option (MetricSurface V)) (s : Snapshot V)
      → (project_to_primary_surface surface s).device_sn ≡ s.device_sn
  unfolding project_to_primary_surface
  project_keeps_device none s = refl
  project_keeps_device (some m) s = refl

  IsCompatible-as :
      {surface surface' : Option (MetricSurface V)} {s s' : Snapshot V}
      → surface ≡ surface'
      → s ≡ s'
      → IsCompatible surface s
      → IsCompatible surface' s'
  IsCompatible-as {s' = s'} e f h = subst (λ x. IsCompatible x s') e (subst (IsCompatible _) f h)

  accepted_primary :
      (p p' : Priority V) (s s' : Snapshot V)
      → p.project_fallback_metrics ≡ true
      → accept p 0 s ≡ (p', ok s')
      → (some (remember_primary_surface s) ≡ p'.primary_surface) × (s ≡ s')
  unfolding accept
  accepted_primary p p' s s' on h = ground (arith, on, h)

  accepted_fallback :
      (p p' : Priority V) (index : ℕ) (s s' : Snapshot V)
      → p.project_fallback_metrics ≡ true
      → accept p (suc index) s ≡ (p', ok s')
      → (p.primary_surface ≡ p'.primary_surface)
        × (project_to_primary_surface p.primary_surface s ≡ s')
        × (fallback_device_conflicts_with_primary p.primary_surface s ≡ false)
        × ((is_some p.primary_surface && not (has_ordinary_telemetry s')) ≡ false)
  unfolding accept
  accepted_fallback p p' index s s' on h = ground (arith, on, h)

  projected-IsCompatible :
      (surface : Option (MetricSurface V)) (s : Snapshot V)
      → fallback_device_conflicts_with_primary surface s ≡ false
      → (is_some surface && not (has_ordinary_telemetry (project_to_primary_surface surface s)))
        ≡ false
      → IsCompatible surface (project_to_primary_surface surface s)
  projected-IsCompatible none s calm ordinary = tt
  projected-IsCompatible (some m) s calm ordinary = (
    subst (λ sn. IsSameDevice sn m.device_sn) (sym (project_keeps_device (some m) s))
        (no_conflict m s calm),
    inr (not-false _ ordinary),
  )

  accepted-IsCompatible :
      (p p' : Priority V) (index : ℕ) (s s' : Snapshot V)
      → p.project_fallback_metrics ≡ true
      → accept p index s ≡ (p', ok s')
      → IsCompatible p'.primary_surface s'
  accepted-IsCompatible p p' zero s s' on h =
      let (e, f) = accepted_primary p p' s s' on h in IsCompatible-as e f (primary-IsCompatible s)
  accepted-IsCompatible p p' (suc index) s s' on h =
      let (e, f, calm, ordinary) = accepted_fallback p p' index s s' on h in
      IsCompatible-as e f (
        projected-IsCompatible p.primary_surface s calm (
          subst (λ x. (is_some p.primary_surface && not (has_ordinary_telemetry x)) ≡ false) (sym f)
            ordinary))

  considered-IsCompatible :
      (p p' : Priority V) (index : ℕ) (o : Outcome V) (s' : Snapshot V)
      → p.project_fallback_metrics ≡ true
      → consider p index o ≡ (p', ok s')
      → IsCompatible p'.primary_surface s'
  unfolding consider
  considered-IsCompatible p p' index o s' on h = elim (Option-cases o.error) [
    | inr (e, failed) ↦ absurd (cc (rw failed at h))
    | inl fine ↦ elim (Option-cases o.snapshot) [
      | inl empty ↦ absurd (cc (rw (fine, empty) at h))
      | inr (s, given) ↦ accepted-IsCompatible p p' index s s' on (rw (fine, given) at h)
    ]
  ]

  served-IsCompatible :
      (p p' : Priority V) (s : Snapshot V) (index : ℕ) (sources : List (Option String × Outcome V))
      → p.project_fallback_metrics ≡ true
      → Serves p p' s index sources
      → IsCompatible p'.primary_surface s
  served-IsCompatible p p' s index [] on at = elim at [ ]
  served-IsCompatible p p' s index ((some name, o) ∷ rest) on (here h) =
      considered-IsCompatible p p' index o s on h
  served-IsCompatible p p' s index ((none, o) ∷ rest) on (past_nil at) =
      served-IsCompatible p p' s (suc index) rest on at
  served-IsCompatible p p' s index ((some name, o) ∷ rest) on (past_failed h quiet at) =
      served-IsCompatible p p' s (suc index) rest on at

  -- With projection on, and once the primary source has been seen: a served snapshot is never about
  -- another device than the one the primary source was last seen with (a device that has no serial
  -- number counts as the same), and it is the primary's own or holds at least one metric that is not an
  -- alert. As long as nothing is remembered of the primary source, nothing is claimed.
  pub fetch-IsCompatible :
      (p p' : Priority V) (s : Snapshot V) (sources : List (Option String × Outcome V))
      → p.project_fallback_metrics ≡ true
      → fetch p sources ≡ (p', ok s)
      → IsCompatible p'.primary_surface s
  fetch-IsCompatible p p' s sources on h =
      served-IsCompatible p p' s 0 sources on ((fetch-Serves_first p p' s sources).0 h)
