-- ===== src/Shelly/Apart.antt =====
-- The two meters never publish into each other's group.
use Prim.Native.String.{String}
use jinko_exporter.Prelude.{
  ◌≡◌, refl, Option, none, some, List, [], ◌∷◌, All, Result, ok, err, Result-cases, Bool-cases, inl,
  inr,
}
use mathlib.Core.Path.{subst}
use jinko_exporter.Prelude.Int.{ℤ, pos}
use jinko_exporter.Model.{Metric, Snapshot}
use jinko_exporter.Shelly.Rpc.{RpcError}
use jinko_exporter.Shelly.Meter.{
  Phase, EmStatus, EmDataStatus, TemperatureStatus, MeterError, MeterConfig, Answers, add, add_kwh,
  add_phase_metrics, same_int, temperature_metric, add_temperature, energy_metrics, meter_metrics,
  as_grid_input, as_grid_inputs, fetch_grid_load, fetch_grid_input, as_input, rpc, validate_em,
  validate_em_data, loaded,
}

module _ {V : Type 0} where
  abbrev pub AreIn : String → List (Metric V) → Type 0
  AreIn group = All (λ m. m.group ≡ group)

  add-AreIn :
      (key name unit : String) (value : Option V) (rest : List (Metric V))
      → AreIn "grid_load" rest
      → AreIn "grid_load" (add key name unit value rest)
  add-AreIn key name unit none rest h = h
  add-AreIn key name unit (some value) rest h = (refl, h)

  phase-AreIn :
      (prefix label : String) (p : Phase V) (rest : List (Metric V))
      → AreIn "grid_load" rest
      → AreIn "grid_load" (add_phase_metrics prefix label p rest)
  unfolding add_phase_metrics
  phase-AreIn prefix label p rest h = search (add-AreIn, h) depth 20

  temperature_metric-AreIn :
      (id : Option ℤ) (errors : List String) (t_c : Option V)
      → AreIn "grid_load" (temperature_metric id errors t_c)
  unfolding temperature_metric
  temperature_metric-AreIn none errors t_c = tt
  temperature_metric-AreIn (some id) (e ∷ errors) t_c = tt
  temperature_metric-AreIn (some id) [] t_c = elim (Bool-cases (same_int id (pos 0))) [
    | inl own ↦
        rw own (add-AreIn "internal_temperature" "Shelly Internal Temperature" "°C" t_c [] tt)
    | inr other ↦ rw other tt
  ]

  temperature-AreIn :
      (t : Result RpcError (TemperatureStatus V)) → AreIn "grid_load" (add_temperature t)
  unfolding add_temperature
  temperature-AreIn (err e) = tt
  temperature-AreIn (ok t) = temperature_metric-AreIn t.id t.errors t.t_c

  as_grid_inputs-AreIn : (metrics : List (Metric V)) → AreIn "grid_input" (as_grid_inputs metrics)
  unfolding as_grid_inputs as_grid_input
  as_grid_inputs-AreIn [] = tt
  as_grid_inputs-AreIn (m ∷ metrics) = (refl, as_grid_inputs-AreIn metrics)

  -- The same reading under another group and name.
  abbrev pub SameReadings : List (Metric V) → List (Metric V) → Type 0
  SameReadings [] [] = Unit
  SameReadings (m ∷ ms) (n ∷ ns) =
      ((n.key ≡ m.key) × (n.unit ≡ m.unit) × (n.value ≡ m.value)) × SameReadings ms ns
  SameReadings [] (n ∷ ns) = ⊥
  SameReadings (m ∷ ms) [] = ⊥

  as_grid_inputs-SameReadings :
      (metrics : List (Metric V)) → SameReadings metrics (as_grid_inputs metrics)
  unfolding as_grid_inputs as_grid_input
  as_grid_inputs-SameReadings [] = tt
  as_grid_inputs-SameReadings (m ∷ metrics) =
      ((refl, refl, refl), as_grid_inputs-SameReadings metrics)

module _ {V : Type 0} (thousandth : V → V) where
  kwh-AreIn :
      (key name : String) (value : Option V) (rest : List (Metric V))
      → AreIn "grid_load" rest
      → AreIn "grid_load" (add_kwh thousandth key name value rest)
  kwh-AreIn key name none rest h = h
  kwh-AreIn key name (some value) rest h = (refl, h)

  metrics-AreIn :
      (em : EmStatus V) (d : EmDataStatus V) (t : Result RpcError (TemperatureStatus V))
      → AreIn "grid_load" (meter_metrics thousandth em d t)
  unfolding meter_metrics energy_metrics
  metrics-AreIn em d t = search (add-AreIn, phase-AreIn, kwh-AreIn, temperature-AreIn) depth 30

  loaded_inj : {a b : Snapshot V} → ◌≡◌ {A = Result MeterError (Snapshot V)} (ok a) (ok b) → a ≡ b
  loaded_inj h = cc

  load-AreIn :
      (cfg : MeterConfig) (answers : Answers V) (s : Snapshot V)
      → fetch_grid_load thousandth cfg answers ≡ ok s
      → AreIn "grid_load" s.metrics × (s.source ≡ "shelly_grid_load")
  unfolding fetch_grid_load
  load-AreIn cfg answers s h = elim (Result-cases (rpc answers.em)) [
    | inr (e, failed) ↦ absurd (cc (rw (failed, fetch_grid_load) at h))
    | inl (em, em_there) ↦ elim (Result-cases (validate_em em cfg.em_id)) [
      | inr (e, failed) ↦ absurd (cc (rw (em_there, fetch_grid_load, failed) at h))
      | inl (_, em_good) ↦ elim (Result-cases (rpc answers.em_data)) [
        | inr (e, failed) ↦ absurd (cc (rw (em_there, fetch_grid_load, em_good, failed) at h))
        | inl (d, d_there) ↦ elim (Result-cases (validate_em_data d cfg.em_id)) [
          | inr (e, failed) ↦
              absurd (cc (rw (em_there, fetch_grid_load, em_good, d_there, failed) at h))
          | inl (_, d_good) ↦
              let same : loaded thousandth cfg answers.now em d answers.temperature ≡ s =
                loaded_inj (rw (em_there, fetch_grid_load, em_good, d_there, d_good) at h) in
              subst (λ x. AreIn "grid_load" x.metrics × (x.source ≡ "shelly_grid_load")) same
                (metrics-AreIn em d answers.temperature, refl)
        ]
      ]
    ]
  ]

  -- From the same answers of a meter the two clients fail alike or succeed alike; if they succeed,
  -- every metric of the one is in the group grid_load and every metric of the other in grid_input, with
  -- the same keys, units and values in the same order, and the snapshots name different sources.
  pub meters-AreApart :
      (cfg : MeterConfig) (answers : Answers V)
      → ((e : MeterError)
          → fetch_grid_load thousandth cfg answers ≡ err e
          → fetch_grid_input thousandth cfg answers ≡ err e)
        × ((s : Snapshot V)
            → fetch_grid_load thousandth cfg answers ≡ ok s
            → AreIn "grid_load" s.metrics
              × (s.source ≡ "shelly_grid_load")
              × ((s' : Snapshot V) × (fetch_grid_input thousandth cfg answers ≡ ok s')
                  × AreIn "grid_input" s'.metrics
                  × SameReadings s.metrics s'.metrics
                  × (s'.source ≡ "shelly_grid_input")))
  unfolding fetch_grid_input
  meters-AreApart cfg answers = (
    λ e failed. rw (failed, fetch_grid_input) refl,
    λ s passed.
        let (inside, named) = load-AreIn cfg answers s passed in
        (
          inside,
          named,
          (
            as_input cfg s,
            rw (passed, fetch_grid_input) refl,
            as_grid_inputs-AreIn s.metrics,
            as_grid_inputs-SameReadings s.metrics,
            refl,
          ),
        ),
  )
