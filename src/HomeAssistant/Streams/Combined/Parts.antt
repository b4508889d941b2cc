-- ===== src/HomeAssistant/Streams/Combined/Parts.antt =====
-- What the published snapshot holds of each stream.
use Prim.Native.String.{String}
use mathlib.Core.List.{◌++◌ as append}
use jinko_exporter.Prelude.{
  ◌≡◌, refl, sym, ap, ◌∙◌, Bool, true, false, Bool-cases, Option, none, inl, inr, List, [], arith,
  if◌then◌else◌,
}
use jinko_exporter.Model.{Metric, Snapshot}
use jinko_exporter.HomeAssistant.Ids.{is_meta_key, group_apart, meta_key_apart}
use jinko_exporter.HomeAssistant.Streams.{
  Meter, load_meter, input_meter, group_of, stream, Stream, Publisher, filter, while_up, add_meter,
  combined, combine_inverter, owns_independent_metric, owns_independent_meta, not_owned,
  not_owned_meta, is_own_meta, grid_meter_metadata,
}
use jinko_exporter.HomeAssistant.Streams.Combined.{
  append_empty, filter-append, filter-keeps, filter-drops, in_group, metrics_of, meta_of, IsOwn,
  own-keeps, own-drops, while_up-IsOwn, add_meter-metrics, add_meter-meta,
}

module _ {A : Type 0} where
  -- A test on three parts, of which it keeps known ones.
  filter-parts :
      (f : A → Bool) (xs ys zs as' bs cs : List A)
      → filter f xs ≡ as'
      → filter f ys ≡ bs
      → filter f zs ≡ cs
      → filter f (append (append xs ys) zs) ≡ append (append as' bs) cs
  filter-parts f xs ys zs as' bs cs hx hy hz =
      rw (filter-append f (append xs ys) zs, filter-append f xs ys, hx, hy, hz) refl

module _ {V : Type 0} (p : Publisher V) where
  abbrev inverter_metrics : List (Metric V)
  inverter_metrics =
      if p.inverter.up then filter (not_owned p) (metrics_of p.inverter.snapshot) else []

  abbrev up_load : Option (Snapshot V)
  up_load = while_up p.independent_grid_load p.grid_load

  abbrev up_input : Option (Snapshot V)
  up_input = while_up p.independent_grid_input p.grid_input

  combine_inverter-parts :
      ((combine_inverter p).metrics ≡ inverter_metrics)
      × ((combine_inverter p).meta ≡ filter (not_owned_meta p) (meta_of p.inverter.snapshot))
  unfolding combine_inverter filter
  combine_inverter-parts = ground arith

  combined-metrics :
      (combined p).metrics
      ≡ append (append inverter_metrics (metrics_of up_load)) (metrics_of up_input)
  unfolding combined
  combined-metrics =
      add_meter-metrics "grid_input" up_input (add_meter "grid_load" up_load (combine_inverter p))
      ∙ ap (λ ms. append ms (metrics_of up_input))
          (add_meter-metrics "grid_load" up_load (combine_inverter p)
            ∙ ap (λ ms. append ms (metrics_of up_load)) combine_inverter-parts.0)

  -- Of the inverter's metrics none is left that a meter owns.
  inverter-drops :
      (f : Metric V → Bool)
      → ((m : Metric V) → not_owned p m ≡ true → f m ≡ false)
      → filter f inverter_metrics ≡ []
  unfolding filter owns_independent_metric
  inverter-drops f h = elim (Bool-cases p.inverter.up) [
    | inl up ↦ rw up (filter-drops f (not_owned p) (metrics_of p.inverter.snapshot) h)
    | inr off ↦ rw off refl
  ]

  not_owned_not_load :
      p.independent_grid_load ≡ true
      → (m : Metric V) → not_owned p m ≡ true
      → in_group "grid_load" m ≡ false
  unfolding owns_independent_metric
  not_owned_not_load on m h = ground arith

  not_owned_not_input :
      p.independent_grid_input ≡ true
      → (m : Metric V) → not_owned p m ≡ true
      → in_group "grid_input" m ≡ false
  unfolding owns_independent_metric
  not_owned_not_input on m h = ground arith

  not_input : (m : Metric V) → in_group "grid_load" m ≡ true → in_group "grid_input" m ≡ false
  not_input m = group_apart m.group

  not_load : (m : Metric V) → in_group "grid_input" m ≡ true → in_group "grid_load" m ≡ false
  not_load m h = elim (Bool-cases (in_group "grid_load" m)) [
    | inl load ↦ absurd (cc (h, not_input m load))
    | inr other ↦ other
  ]

  load_is_owned :
      p.independent_grid_load ≡ true
      → (m : Metric V) → in_group "grid_load" m ≡ true
      → not_owned p m ≡ false
  unfolding owns_independent_metric
  load_is_owned on m h = ground arith

  input_is_owned :
      p.independent_grid_input ≡ true
      → (m : Metric V) → in_group "grid_input" m ≡ true
      → not_owned p m ≡ false
  unfolding owns_independent_metric
  input_is_owned on m h = ground arith

  live_off : (s : Stream V) → while_up false s ≡ none
  unfolding while_up
  live_off s = refl

  load-hidden :
      IsOwn "grid_load" p.grid_load.snapshot → filter (not_owned p) (metrics_of up_load) ≡ []
  unfolding filter
  load-hidden own = elim (Bool-cases p.independent_grid_load) [
    | inl on ↦
        own-drops (not_owned p) "grid_load" (metrics_of up_load) (load_is_owned on)
          (while_up-IsOwn "grid_load" p.independent_grid_load p.grid_load own)
    | inr off ↦
        ap (λ b. filter (not_owned p) (metrics_of (while_up b p.grid_load))) off
        ∙ ap (λ s. filter (not_owned p) (metrics_of s)) (live_off p.grid_load)
  ]

  input-hidden :
      IsOwn "grid_input" p.grid_input.snapshot → filter (not_owned p) (metrics_of up_input) ≡ []
  unfolding filter
  input-hidden own = elim (Bool-cases p.independent_grid_input) [
    | inl on ↦
        own-drops (not_owned p) "grid_input" (metrics_of up_input) (input_is_owned on)
          (while_up-IsOwn "grid_input" p.independent_grid_input p.grid_input own)
    | inr off ↦
        ap (λ b. filter (not_owned p) (metrics_of (while_up b p.grid_input))) off
        ∙ ap (λ s. filter (not_owned p) (metrics_of s)) (live_off p.grid_input)
  ]

  inverter-kept : filter (not_owned p) inverter_metrics ≡ inverter_metrics
  unfolding filter owns_independent_metric
  inverter-kept = elim (Bool-cases p.inverter.up) [
    | inl up ↦
        rw up (filter-keeps (not_owned p) (not_owned p) (metrics_of p.inverter.snapshot) (λ m h. h))
    | inr off ↦ rw off refl
  ]

  module _ (own_load : IsOwn "grid_load" p.grid_load.snapshot)
      (own_input : IsOwn "grid_input" p.grid_input.snapshot) where
    up_load-IsOwn : IsOwn "grid_load" up_load
    up_load-IsOwn = while_up-IsOwn "grid_load" p.independent_grid_load p.grid_load own_load

    up_input-IsOwn : IsOwn "grid_input" up_input
    up_input-IsOwn = while_up-IsOwn "grid_input" p.independent_grid_input p.grid_input own_input

    load_metrics :
        p.independent_grid_load ≡ true
        → filter (in_group "grid_load") (combined p).metrics ≡ metrics_of up_load
    load_metrics on = rw combined-metrics (
        filter-parts (in_group "grid_load") inverter_metrics (metrics_of up_load)
          (metrics_of up_input) [] (metrics_of up_load) []
          (inverter-drops (in_group "grid_load") (not_owned_not_load on))
          (own-keeps (in_group "grid_load") "grid_load" (metrics_of up_load) (λ m h. h)
            up_load-IsOwn)
          (own-drops (in_group "grid_load") "grid_input" (metrics_of up_input) not_load
            up_input-IsOwn)
        ∙ sym (append_empty (metrics_of up_load)))

    input_metrics :
        p.independent_grid_input ≡ true
        → filter (in_group "grid_input") (combined p).metrics ≡ metrics_of up_input
    input_metrics on = rw combined-metrics (
        filter-parts (in_group "grid_input") inverter_metrics (metrics_of up_load)
          (metrics_of up_input) [] [] (metrics_of up_input)
          (inverter-drops (in_group "grid_input") (not_owned_not_input on))
          (own-drops (in_group "grid_input") "grid_load" (metrics_of up_load) not_input
            up_load-IsOwn)
          (own-keeps (in_group "grid_input") "grid_input" (metrics_of up_input) (λ m h. h)
            up_input-IsOwn))

    other_metrics : filter (not_owned p) (combined p).metrics ≡ inverter_metrics
    other_metrics = rw combined-metrics (
        filter-parts (not_owned p) inverter_metrics (metrics_of up_load) (metrics_of up_input)
          inverter_metrics [] [] inverter-kept (load-hidden own_load) (input-hidden own_input)
        ∙ sym (append_empty (append inverter_metrics []))
        ∙ sym (append_empty inverter_metrics))

  abbrev inverter_meta : List (String × String)
  inverter_meta = filter (not_owned_meta p) (meta_of p.inverter.snapshot)

  combined-meta :
      (combined p).meta
      ≡ append
          (grid_meter_metadata (meta_of up_input) "grid_input")
          (append (grid_meter_metadata (meta_of up_load) "grid_load") inverter_meta)
  unfolding combined
  combined-meta =
      add_meter-meta "grid_input" up_input (add_meter "grid_load" up_load (combine_inverter p))
      ∙ ap (λ ms. append (grid_meter_metadata (meta_of up_input) "grid_input") ms)
          (add_meter-meta "grid_load" up_load (combine_inverter p)
            ∙ ap (λ ms. append (grid_meter_metadata (meta_of up_load) "grid_load") ms)
                combine_inverter-parts.1)

  load_key_not_input :
      (entry : String × String)
      → is_own_meta "grid_load" entry ≡ true
      → is_own_meta "grid_input" entry ≡ false
  load_key_not_input (key, value) = meta_key_apart key

  input_key_not_load :
      (entry : String × String)
      → is_own_meta "grid_input" entry ≡ true
      → is_own_meta "grid_load" entry ≡ false
  input_key_not_load (key, value) h = elim (Bool-cases (is_meta_key "grid_load" key)) [
    | inl load ↦ absurd (cc (h, meta_key_apart key load))
    | inr other ↦ other
  ]

  not_owned_not_load_key :
      p.independent_grid_load ≡ true
      → (entry : String × String) → not_owned_meta p entry ≡ true
      → is_own_meta "grid_load" entry ≡ false
  unfolding owns_independent_meta
  not_owned_not_load_key on (key, value) h = ground arith

  not_owned_not_input_key :
      p.independent_grid_input ≡ true
      → (entry : String × String) → not_owned_meta p entry ≡ true
      → is_own_meta "grid_input" entry ≡ false
  unfolding owns_independent_meta
  not_owned_not_input_key on (key, value) h = ground arith

  load_meta :
      p.independent_grid_load ≡ true
      → filter (is_own_meta "grid_load") (combined p).meta
        ≡ grid_meter_metadata (meta_of up_load) "grid_load"
  load_meta on =
      rw
        (
          combined-meta,
          filter-append (is_own_meta "grid_load")
              (grid_meter_metadata (meta_of up_input) "grid_input")
              (append (grid_meter_metadata (meta_of up_load) "grid_load") inverter_meta),
          filter-append (is_own_meta "grid_load")
              (grid_meter_metadata (meta_of up_load) "grid_load") inverter_meta,
          filter-drops (is_own_meta "grid_load") (is_own_meta "grid_input") (meta_of up_input)
              input_key_not_load,
          filter-keeps (is_own_meta "grid_load") (is_own_meta "grid_load") (meta_of up_load)
              (λ entry h. h),
          filter-drops (is_own_meta "grid_load") (not_owned_meta p) (meta_of p.inverter.snapshot)
              (not_owned_not_load_key on),
        )
        (sym (append_empty (grid_meter_metadata (meta_of up_load) "grid_load")))

  input_meta :
      p.independent_grid_input ≡ true
      → filter (is_own_meta "grid_input") (combined p).meta
        ≡ grid_meter_metadata (meta_of up_input) "grid_input"
  input_meta on =
      rw
        (
          combined-meta,
          filter-append (is_own_meta "grid_input")
              (grid_meter_metadata (meta_of up_input) "grid_input")
              (append (grid_meter_metadata (meta_of up_load) "grid_load") inverter_meta),
          filter-append (is_own_meta "grid_input")
              (grid_meter_metadata (meta_of up_load) "grid_load") inverter_meta,
          filter-drops (is_own_meta "grid_input") (is_own_meta "grid_load") (meta_of up_load)
              load_key_not_input,
          filter-keeps (is_own_meta "grid_input") (is_own_meta "grid_input") (meta_of up_input)
              (λ entry h. h),
          filter-drops (is_own_meta "grid_input") (not_owned_meta p) (meta_of p.inverter.snapshot)
              (not_owned_not_input_key on),
        )
        (sym (append_empty (grid_meter_metadata (meta_of up_input) "grid_input")))

  up_inverter : inverter_metrics ≡ filter (not_owned p) (metrics_of (while_up true p.inverter))
  unfolding while_up filter owns_independent_metric
  up_inverter = ground arith

module _ {V : Type 0} where
  abbrev pub observed : Publisher V → Meter → Bool
  observed p load_meter = p.independent_grid_load
  observed p input_meter = p.independent_grid_input

  -- Let the snapshots that the publisher keeps of the two meters hold metrics of their own groups only,
  -- and let one meter be observed on its own. Then the published snapshot's metrics in that meter's
  -- group are exactly those of its snapshot while it is up, and none otherwise, and so are the entries
  -- of the metadata under its keys; and of the metrics that no meter observed on its own owns, the
  -- published snapshot has exactly the inverter's while the inverter is up, and none otherwise.
  pub combined_exactly :
      (p : Publisher V) (meter : Meter)
      → observed p meter ≡ true
      → IsOwn "grid_load" p.grid_load.snapshot
      → IsOwn "grid_input" p.grid_input.snapshot
      → (filter (in_group (group_of meter)) (combined p).metrics
          ≡ metrics_of (while_up true (stream p meter)))
        × (filter (is_own_meta (group_of meter)) (combined p).meta
            ≡ grid_meter_metadata (meta_of (while_up true (stream p meter))) (group_of meter))
        × (filter (not_owned p) (combined p).metrics
            ≡ filter (not_owned p) (metrics_of (while_up true p.inverter)))
  combined_exactly p load_meter on own_load own_input = (
    load_metrics p own_load own_input on ∙ ap (λ b. metrics_of (while_up b p.grid_load)) on,
    load_meta p on
        ∙ ap (λ b. grid_meter_metadata (meta_of (while_up b p.grid_load)) "grid_load") on,
    other_metrics p own_load own_input ∙ up_inverter p,
  )
  combined_exactly p input_meter on own_load own_input = (
    input_metrics p own_load own_input on ∙ ap (λ b. metrics_of (while_up b p.grid_input)) on,
    input_meta p on
        ∙ ap (λ b. grid_meter_metadata (meta_of (while_up b p.grid_input)) "grid_input") on,
    other_metrics p own_load own_input ∙ up_inverter p,
  )
