-- ===== src/Alert/Rules/Bands.antt =====
-- The bands of the battery and of the temperatures, and the three phases of the grid.
use jinko_exporter.Prelude.{
  ◌≡◌, refl, ◌⊎◌, inl, inr, Bool, true, false, ◌&&◌, ◌||◌, not, none, some, List, [], ◌∷◌,
  Option-cases, Bool-cases, arith, ap,
}
use Prim.Native.String.{String}
use jinko_exporter.Model.{Metric, Snapshot}
use jinko_exporter.Alert.Rules.{
  Scale, AlertConfig, Rule, Decision, quiet, raise, recover, present, soc_keys, grid_keys,
  temperature_keys, evaluate_battery_soc, evaluate_grid_down, evaluate_high_temperature, first_low,
  first_above, any_below, any_above, hot, battery_decision, battery_recovery, temperature_decision,
  temperature_recovery, grid_decision,
}

-- What a decision of a rule means: none of the three leaves room for another.
abbrev pub DecidedBy : Bool → Bool → Bool → Decision → Type 0
DecidedBy enabled bad back quiet = (enabled ≡ false) ⊎ ((bad ≡ false) × (back ≡ false))
DecidedBy enabled bad back (raise e) = (enabled ≡ true) × (bad ≡ true)
DecidedBy enabled bad back (recover key e) = (enabled ≡ true) × (bad ≡ false) × (back ≡ true)

List-cases : {A : Type 0} (xs : List A) → (xs ≡ []) ⊎ ((y : A) × (ys : List A) × (xs ≡ y ∷ ys))
List-cases [] = inl refl
List-cases (y ∷ ys) = inr (y, ys, refl)

module _ {V : Type 0} (scale : Scale V) where
  -- Whether every value is above the limit.
  abbrev pub all_above : V → List (Metric V) → Bool
  all_above limit [] = true
  all_above limit (m ∷ metrics) = scale.above m.value limit && all_above limit metrics

  abbrev pub any_at_least : V → List (Metric V) → Bool
  any_at_least limit [] = false
  any_at_least limit (m ∷ metrics) = scale.at_least m.value limit || any_at_least limit metrics

  abbrev pub is_some_there : List (Metric V) → Bool
  is_some_there [] = false
  is_some_there (m ∷ metrics) = true

  first_low-none :
      (limit : V) (metrics : List (Metric V))
      → first_low scale limit metrics ≡ none
      → all_above limit metrics ≡ true
  unfolding first_low
  first_low-none limit [] h = refl
  first_low-none limit (m ∷ metrics) h = ground (arith, first_low-none limit metrics)

  first_low-some :
      (limit : V) (metrics : List (Metric V)) (low : Metric V)
      → first_low scale limit metrics ≡ some low
      → all_above limit metrics ≡ false
  unfolding first_low
  first_low-some limit [] low h = absurd (cc)
  first_low-some limit (m ∷ metrics) low h = ground (arith, first_low-some limit metrics low)

  hot-nil :
      (limit : V) (metrics : List (Metric V))
      → hot scale limit metrics ≡ []
      → any_at_least limit metrics ≡ false
  unfolding hot
  hot-nil limit [] h = refl
  hot-nil limit (m ∷ metrics) h = ground (arith, hot-nil limit metrics)

  hot-cons :
      (limit : V) (metrics : List (Metric V)) (x : Metric V) (xs : List (Metric V))
      → hot scale limit metrics ≡ x ∷ xs
      → any_at_least limit metrics ≡ true
  unfolding hot
  hot-cons limit [] x xs h = absurd (cc)
  hot-cons limit (m ∷ metrics) x xs h = ground (arith, hot-cons limit metrics x xs)

  first_above-none :
      (limit : V) (metrics : List (Metric V))
      → first_above scale limit metrics ≡ none
      → any_above scale limit metrics ≡ false
  unfolding first_above any_above
  first_above-none limit [] h = refl
  first_above-none limit (m ∷ metrics) h = ground (arith, first_above-none limit metrics)

  first_above-some :
      (limit : V) (metrics : List (Metric V)) (up : Metric V)
      → first_above scale limit metrics ≡ some up
      → any_above scale limit metrics ≡ true
  unfolding first_above any_above
  first_above-some limit [] up h = absurd (cc)
  first_above-some limit (m ∷ metrics) up h = ground (arith, first_above-some limit metrics up)

module _ {V : Type 0} (scale : Scale V) (body : Rule → List (Metric V) → String)
    (cfg : AlertConfig V) (s : Snapshot V) where
  battery_recovery-DecidedBy :
      (metrics : List (Metric V))
      → all_above scale cfg.battery_soc_low_threshold metrics ≡ true
      → DecidedBy true
          (not (all_above scale cfg.battery_soc_low_threshold metrics))
          (is_some_there scale metrics
            && not (
                any_below scale
                  (scale.at_most_100 (scale.plus_five cfg.battery_soc_low_threshold))
                  metrics))
          (battery_recovery scale body cfg s metrics)
  battery_recovery-DecidedBy [] above = inr (ground arith, refl)
  battery_recovery-DecidedBy (m ∷ metrics) above =
      let level = scale.at_most_100 (scale.plus_five cfg.battery_soc_low_threshold) in
      elim (Bool-cases (any_below scale level (m ∷ metrics))) [
        | inl low ↦ rw low (inr (ground arith, refl))
        | inr back ↦ rw back (refl, ground arith, refl)
      ]

  battery-DecidedBy :
      let metrics = present s.metrics soc_keys in
      let level = scale.at_most_100 (scale.plus_five cfg.battery_soc_low_threshold) in
      DecidedBy
        (scale.is_positive cfg.battery_soc_low_threshold)
        (not (all_above scale cfg.battery_soc_low_threshold metrics))
        (is_some_there scale metrics && not (any_below scale level metrics))
        (evaluate_battery_soc scale body cfg s)
  unfolding evaluate_battery_soc battery_decision
  battery-DecidedBy =
      let metrics = present s.metrics soc_keys in
      let limit = cfg.battery_soc_low_threshold in
      elim (Bool-cases (scale.is_positive limit)) [
        | inr off ↦ rw (off, evaluate_battery_soc) (inl refl)
        | inl on ↦ elim (Option-cases (first_low scale limit metrics)) [
          | inr (low, found) ↦
              rw (on, evaluate_battery_soc, found, battery_decision)
                (refl, ap not (first_low-some scale limit metrics low found))
          | inl clear ↦
              rw (evaluate_battery_soc, on, battery_decision, clear)
                (battery_recovery-DecidedBy metrics (first_low-none scale limit metrics clear))
        ]
      ]

  temperature_recovery-DecidedBy :
      (metrics : List (Metric V))
      → any_at_least scale cfg.high_temperature_threshold metrics ≡ false
      → DecidedBy true
          (any_at_least scale cfg.high_temperature_threshold metrics)
          (is_some_there scale metrics
            && not (any_above scale (scale.minus_five cfg.high_temperature_threshold) metrics))
          (temperature_recovery scale body cfg s metrics)
  temperature_recovery-DecidedBy [] cool = inr (refl, refl)
  temperature_recovery-DecidedBy (m ∷ metrics) cool =
      let level = scale.minus_five cfg.high_temperature_threshold in
      elim (Bool-cases (any_above scale level (m ∷ metrics))) [
        | inl warm ↦ rw warm (inr (cool, refl))
        | inr back ↦ rw back (refl, cool, refl)
      ]

  temperature-DecidedBy :
      let metrics = present s.metrics temperature_keys in
      let level = scale.minus_five cfg.high_temperature_threshold in
      DecidedBy
        (scale.is_positive cfg.high_temperature_threshold)
        (any_at_least scale cfg.high_temperature_threshold metrics)
        (is_some_there scale metrics && not (any_above scale level metrics))
        (evaluate_high_temperature scale body cfg s)
  unfolding evaluate_high_temperature temperature_decision
  temperature-DecidedBy =
      let metrics = present s.metrics temperature_keys in
      let limit = cfg.high_temperature_threshold in
      elim (Bool-cases (scale.is_positive limit)) [
        | inr off ↦ rw (off, evaluate_high_temperature) (inl refl)
        | inl on ↦ elim (List-cases (hot scale limit metrics)) [
          | inr (x, xs, found) ↦
              rw (on, evaluate_high_temperature, found, temperature_decision)
                (refl, hot-cons scale limit metrics x xs found)
          | inl clear ↦
              rw (evaluate_high_temperature, on, temperature_decision, clear)
                (temperature_recovery-DecidedBy metrics (hot-nil scale limit metrics clear))
        ]
      ]

  grid_decision-DecidedBy :
      (metrics : List (Metric V))
      → DecidedBy true
          (is_some_there scale metrics
            && not (any_above scale cfg.grid_down_voltage_threshold metrics))
          (any_above scale cfg.grid_down_voltage_threshold metrics)
          (grid_decision scale body cfg s metrics)
  unfolding grid_decision any_above
  grid_decision-DecidedBy [] = inr (refl, refl)
  grid_decision-DecidedBy (m ∷ metrics) =
      let limit = cfg.grid_down_voltage_threshold in
      elim (Option-cases (first_above scale limit (m ∷ metrics))) [
        | inr (up, found) ↦
            let some_up = first_above-some scale limit (m ∷ metrics) up found in
            rw (found, grid_decision) (refl, ap not some_up, some_up)
        | inl down ↦
            rw (down, grid_decision)
              (refl, ap not (first_above-none scale limit (m ∷ metrics) down))
      ]

  grid-DecidedBy :
      let metrics = present s.metrics grid_keys in
      let up = any_above scale cfg.grid_down_voltage_threshold metrics in
      DecidedBy
        (scale.is_positive cfg.grid_down_voltage_threshold)
        (is_some_there scale metrics && not up)
        up
        (evaluate_grid_down scale body cfg s)
  unfolding evaluate_grid_down
  grid-DecidedBy = elim (Bool-cases (scale.is_positive cfg.grid_down_voltage_threshold)) [
    | inr off ↦ rw (off, evaluate_grid_down) (inl refl)
    | inl on ↦ rw (on, evaluate_grid_down) (grid_decision-DecidedBy (present s.metrics grid_keys))
  ]

  -- Each rule with a positive threshold decides one of three things, by these tests alone; a rule
  -- without one decides nothing. The battery: a state of charge that is not above the threshold raises
  -- the alert; it recovers when a state is there, none is low and none is below the threshold and five
  -- more, 100 at most. The temperatures: one at or above the threshold raises the alert; it recovers
  -- when one is there, none is so high and none is above the threshold less five. The grid: it is down
  -- when a phase voltage is there and none is above the threshold, restored when one is above it.
  pub decisions-DecidedBy :
      let socs = present s.metrics soc_keys in
      let temperatures = present s.metrics temperature_keys in
      let voltages = present s.metrics grid_keys in
      let full = scale.at_most_100 (scale.plus_five cfg.battery_soc_low_threshold) in
      let cool = scale.minus_five cfg.high_temperature_threshold in
      let up = any_above scale cfg.grid_down_voltage_threshold voltages in
      DecidedBy
        (scale.is_positive cfg.battery_soc_low_threshold)
        (not (all_above scale cfg.battery_soc_low_threshold socs))
        (is_some_there scale socs && not (any_below scale full socs))
        (evaluate_battery_soc scale body cfg s)
      × DecidedBy
          (scale.is_positive cfg.high_temperature_threshold)
          (any_at_least scale cfg.high_temperature_threshold temperatures)
          (is_some_there scale temperatures && not (any_above scale cool temperatures))
          (evaluate_high_temperature scale body cfg s)
      × DecidedBy
          (scale.is_positive cfg.grid_down_voltage_threshold)
          (is_some_there scale voltages && not up)
          up
          (evaluate_grid_down scale body cfg s)
  decisions-DecidedBy = (battery-DecidedBy, temperature-DecidedBy, grid-DecidedBy)
