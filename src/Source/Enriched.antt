-- ===== src/Source/Enriched.antt =====
-- bridge/internal/source/enriched.go: a primary source whose snapshots take on the metrics of extra
-- sources.
use jinko_exporter.Prelude.{
  ℕ, ◌≡◌, refl, ap, ◌∙◌, inl, inr, Option, none, some, List, [], ◌∷◌, Result, ok, err, Option-cases,
}
use mathlib.Core.List.{◌++◌ as append}
use jinko_exporter.Model.{Metric, Snapshot}
use jinko_exporter.Source.Priority.{Outcome}

module _ {V : Type 0} where
  -- The map of labels is an association list whose first entry of a key counts, so that copying a
  -- map over it puts the copied entries in front.
  abbrev pub add_extra : Snapshot V → Snapshot V → Snapshot V
  add_extra s extra = record s {
    metrics = append s.metrics extra.metrics;
    meta = append extra.meta s.meta;
  }

  -- One round of the loop of `Fetch`; a nil source is none.
  unfoldable pub absorb : Snapshot V → Option (Outcome V) → Snapshot V
  absorb s none = s
  absorb s (some o) = elim o.error [
    | some e ↦ s
    | none ↦ elim o.snapshot [ none ↦ s | some extra ↦ add_extra s extra ]
  ]

  unfoldable pub enrich : Snapshot V → List (Option (Outcome V)) → Snapshot V
  enrich s [] = s
  enrich s (x ∷ extras) = enrich (absorb s x) extras

  -- `Fetch`: an error of the primary, or its snapshot, which may be nil.
  unfoldable pub fetch_enriched :
      Outcome V → List (Option (Outcome V)) → Result ℕ (Option (Snapshot V))
  fetch_enriched primary extras = elim primary.error [
    | some e ↦ err e
    | none ↦ elim primary.snapshot [ none ↦ ok none | some s ↦ ok (some (enrich s extras)) ]
  ]

  -- The metrics of the extras that answered, in order.
  abbrev pub answered : Option (Outcome V) → List (Metric V)
  answered none = []
  answered (some o) = elim o.error [
    | some e ↦ []
    | none ↦ elim o.snapshot [ none ↦ [] | some extra ↦ extra.metrics ]
  ]

  abbrev pub all_answered : List (Option (Outcome V)) → List (Metric V)
  all_answered [] = []
  all_answered (x ∷ extras) = append (answered x) (all_answered extras)

  -- All of a snapshot but its metrics and labels.
  abbrev pub IsSameReading : Snapshot V → Snapshot V → Type 0
  IsSameReading s s' =
      (s'.source ≡ s.source)
      × (s'.device_sn ≡ s.device_sn)
      × (s'.parent_sn ≡ s.parent_sn)
      × (s'.device_id ≡ s.device_id)
      × (s'.site_id ≡ s.site_id)
      × (s'.collected_at ≡ s.collected_at)
      × (s'.modbus_evidence ≡ s.modbus_evidence)

  absorb-IsSameReading : (s : Snapshot V) (x : Option (Outcome V)) → IsSameReading s (absorb s x)
  unfolding absorb
  absorb-IsSameReading s none = (refl, refl, refl, refl, refl, refl, refl)
  absorb-IsSameReading s (some o) = elim (Option-cases o.error) [
    | inr (e, failed) ↦ rw failed (refl, refl, refl, refl, refl, refl, refl)
    | inl fine ↦ elim (Option-cases o.snapshot) [
      | inl empty ↦ rw (fine, empty) (refl, refl, refl, refl, refl, refl, refl)
      | inr (extra, given) ↦ rw (fine, given) (refl, refl, refl, refl, refl, refl, refl)
    ]
  ]

  append_empty : (xs : List (Metric V)) → xs ≡ append xs []
  append_empty [] = refl
  append_empty (x ∷ xs) = ap (λ ys. x ∷ ys) (append_empty xs)

  append_assoc : (xs ys zs : List (Metric V)) → append (append xs ys) zs ≡ append xs (append ys zs)
  append_assoc [] ys zs = refl
  append_assoc (x ∷ xs) ys zs = ap (λ ws. x ∷ ws) (append_assoc xs ys zs)

  absorb-metrics :
      (s : Snapshot V) (x : Option (Outcome V))
      → (absorb s x).metrics ≡ append s.metrics (answered x)
  unfolding absorb
  absorb-metrics s none = append_empty s.metrics
  absorb-metrics s (some o) = elim (Option-cases o.error) [
    | inr (e, failed) ↦ rw failed (append_empty s.metrics)
    | inl fine ↦ elim (Option-cases o.snapshot) [
      | inl empty ↦ rw (fine, empty) (append_empty s.metrics)
      | inr (extra, given) ↦ rw (fine, given)
    ]
  ]

  enrich-metrics :
      (s : Snapshot V) (extras : List (Option (Outcome V)))
      → (enrich s extras).metrics ≡ append s.metrics (all_answered extras)
  unfolding enrich
  enrich-metrics s [] = append_empty s.metrics
  enrich-metrics s (x ∷ extras) =
      enrich-metrics (absorb s x) extras
      ∙ ap (λ ms. append ms (all_answered extras)) (absorb-metrics s x)
      ∙ append_assoc s.metrics (answered x) (all_answered extras)

  enrich-IsSameReading :
      (s : Snapshot V) (extras : List (Option (Outcome V))) → IsSameReading s (enrich s extras)
  unfolding enrich
  enrich-IsSameReading s [] = (refl, refl, refl, refl, refl, refl, refl)
  enrich-IsSameReading s (x ∷ extras) =
      let (a, b, c, d, e, f, g) = enrich-IsSameReading (absorb s x) extras in
      let (a', b', c', d', e', f', g') = absorb-IsSameReading s x in
      (a ∙ a', b ∙ b', c ∙ c', d ∙ d', e ∙ e', f ∙ f', g ∙ g')

  -- When the primary answers with a snapshot, so does the enriched source, whatever the extras do:
  -- with the primary's metrics followed by those of the extras that answered, in order, and with the
  -- primary's source, device, collection time and evidence.
  pub enriched_appends :
      (primary : Outcome V) (s : Snapshot V) (extras : List (Option (Outcome V)))
      → primary.error ≡ none
      → primary.snapshot ≡ some s
      → (s' : Snapshot V) × (fetch_enriched primary extras ≡ ok (some s'))
        × (s'.metrics ≡ append s.metrics (all_answered extras))
        × IsSameReading s s'
  unfolding fetch_enriched
  enriched_appends primary s extras fine given =
      (enrich s extras, rw (fine, given), enrich-metrics s extras, enrich-IsSameReading s extras)
