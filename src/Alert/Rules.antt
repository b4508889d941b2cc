-- ===== src/Alert/Rules.antt =====
-- bridge/internal/alert/rules.go: what a snapshot raises and what it lets recover. The values are a
-- parameter with the comparisons and sums that the rules make; the body of an event is a parameter
-- too, since it only prints.
mod Examples
pub mod Bands
pub mod Names
pub mod Keys
use Prim.Native.Char.{code}
use Prim.Native.String.{String, ◌++◌}
use jinko_exporter.Prelude.{
  ℕ, Bool, true, false, ◌&&◌, ◌||◌, not, ◌+◌, ◌-◌, leb, get_or, Option, none, some, List, [], ◌∷◌,
  if◌then◌else◌,
}
use jinko_exporter.Prelude.Int.{ℤ, pos, ltb_ℤ}
use jinko_exporter.Prelude.Text.{◌=$◌, is_empty, trim_space, lower_codes, contains}
use jinko_exporter.Model.{Metric, Snapshot}
use jinko_exporter.Alert.Manager.{Manager, Event, Attempt, notify_active, resolve}

-- float64: `a > b`, `a >= b`, `a < b`, `a == 0`, `a > 0`, `a + 5`, `a - 5` and `min(a, 100)`.
pub record Scale (V : Type 0) : Type 0 where
  pub above : V → V → Bool
  pub at_least : V → V → Bool
  pub below : V → V → Bool
  pub is_zero : V → Bool
  pub is_positive : V → Bool
  pub plus_five : V → V
  pub minus_five : V → V
  pub at_most_100 : V → V

pub record AlertConfig (V : Type 0) : Type 0 where
  pub notify_recovery : Bool
  pub grid_down_voltage_threshold : V
  pub battery_soc_low_threshold : V
  pub high_temperature_threshold : V

-- What the body of an event prints.
pub data Rule : Type 0 where
  alarm_active alarm_recovered grid_down grid_restored : Rule
  battery_low battery_recovered temperature_high temperature_recovered : Rule

-- What a rule asks of the manager.
pub data Decision : Type 0 where
  quiet : Decision
  raise : Event → Decision
  recover : String → Event → Decision

abbrev letters : List String
letters =
    "a" ∷ "b" ∷ "c" ∷ "d" ∷ "e" ∷ "f" ∷ "g" ∷ "h" ∷ "i" ∷ "j" ∷ "k" ∷ "l" ∷ "m" ∷ "n" ∷ "o" ∷ "p"
    ∷ "q" ∷ "r" ∷ "s" ∷ "t" ∷ "u" ∷ "v" ∷ "w" ∷ "x" ∷ "y" ∷ "z" ∷ []

-- strings.ToLower for ASCII capitals; the names of the sources have no others.
unfoldable pub lower_text : String → String
lower_text String.[] = ""
lower_text (String.◌∷◌ c s) =
    let rest = lower_text s in
    if leb 65 (code c) && leb (code c) 90
    then get_or letters (code c - 65) "" ++ rest
    else String.◌∷◌ c rest

-- The code points of "alarm" and of "fault".
abbrev alarm : List ℕ
alarm = 97 ∷ 108 ∷ 97 ∷ 114 ∷ 109 ∷ []

abbrev fault : List ℕ
fault = 102 ∷ 97 ∷ 117 ∷ 108 ∷ 116 ∷ []

unfoldable pub first_text : List String → String
first_text [] = "unknown-device"
first_text (value ∷ values) =
    let rest = first_text values in if is_empty (trim_space value) then rest else trim_space value

abbrev pub grid_keys : List String
grid_keys = "G_V_L1" ∷ "G_V_L2" ∷ "G_V_L3" ∷ []

abbrev pub soc_keys : List String
soc_keys = "BMS_SOC" ∷ "B_left_cap1" ∷ []

abbrev pub temperature_keys : List String
temperature_keys = "AC_T" ∷ "T_DC" ∷ "B_T1" ∷ "BMST" ∷ []

module _ {V : Type 0} where
  abbrev pub alert_identity : Snapshot V → String
  alert_identity s = first_text (s.device_sn ∷ s.device_id ∷ s.site_id ∷ s.source ∷ [])

  -- The metric that `indexMetrics` has under a key: the last one.
  unfoldable pub indexed : List (Metric V) → String → Option (Metric V)
  indexed [] key = none
  indexed (m ∷ metrics) key = elim (indexed metrics key) [
    | some later ↦ some later
    | none ↦ if trim_space m.key =$ key then some m else none
  ]

  unfoldable pub present : List (Metric V) → List String → List (Metric V)
  present metrics [] = []
  present metrics (key ∷ keys) =
      let rest = present metrics keys in
      elim (indexed metrics key) [ none ↦ rest | some m ↦ m ∷ rest ]

  unfoldable pub is_alarm_metric : Metric V → Bool
  is_alarm_metric m =
      let text = lower_codes (m.group ++ " " ++ m.key ++ " " ++ m.name) in
      contains text alarm || contains text fault || m.group =$ "alert"

  unfoldable pub any_alarm_metric : List (Metric V) → Bool
  any_alarm_metric [] = false
  any_alarm_metric (m ∷ metrics) = is_alarm_metric m || any_alarm_metric metrics

  abbrev pub alarm_metric_active_key : Snapshot V → String
  alarm_metric_active_key s =
      let source = lower_text (trim_space s.source) in
      "metric_alarm_"
      ++ (if is_empty source then "unknown-source" else source)
      ++ "_"
      ++ alert_identity s

module _ {V : Type 0} (scale : Scale V) where
  unfoldable pub triggered : List (Metric V) → List (Metric V)
  triggered [] = []
  triggered (m ∷ metrics) =
      let rest = triggered metrics in
      if is_alarm_metric m && not (scale.is_zero m.value) then m ∷ rest else rest

  -- The first metric above the threshold.
  unfoldable pub first_above : V → List (Metric V) → Option (Metric V)
  first_above threshold [] = none
  first_above threshold (m ∷ metrics) =
      let rest = first_above threshold metrics in
      if scale.above m.value threshold then some m else rest

  -- The first metric that is not above the threshold.
  unfoldable pub first_low : V → List (Metric V) → Option (Metric V)
  first_low threshold [] = none
  first_low threshold (m ∷ metrics) =
      let rest = first_low threshold metrics in
      if scale.above m.value threshold then rest else some m

  unfoldable pub any_above : V → List (Metric V) → Bool
  any_above limit [] = false
  any_above limit (m ∷ metrics) = scale.above m.value limit || any_above limit metrics

  -- `metric.Value < limit`
  unfoldable pub any_below : V → List (Metric V) → Bool
  any_below limit [] = false
  any_below limit (m ∷ metrics) = scale.below m.value limit || any_below limit metrics

  -- `metric.Value >= threshold`
  unfoldable pub hot : V → List (Metric V) → List (Metric V)
  hot threshold [] = []
  hot threshold (m ∷ metrics) =
      let rest = hot threshold metrics in
      if scale.at_least m.value threshold then m ∷ rest else rest

module _ {V : Type 0} (scale : Scale V) (body : Rule → List (Metric V) → String) where
  abbrev pub alert_event : String → String → Rule → Snapshot V → List (Metric V) → Event
  alert_event key subject rule s metrics = record {
    key = key;
    subject = subject ++ alert_identity s;
    body = body rule metrics;
    cooldown = pos 0;
  }

  abbrev pub recovery : String → String → Rule → Snapshot V → List (Metric V) → Decision
  recovery active_key subject rule s metrics =
      recover active_key (alert_event (active_key ++ "_recovered") subject rule s metrics)

  unfoldable pub evaluate_alarm_metrics : Snapshot V → Decision
  evaluate_alarm_metrics s = elim (triggered scale s.metrics) [
    | m ∷ metrics ↦ raise (
        alert_event (alarm_metric_active_key s) "Inverter warning/alarm/fault metrics active for "
          alarm_active s (m ∷ metrics))
    | [] ↦
        if any_alarm_metric s.metrics
        then recovery (alarm_metric_active_key s)
            "Inverter warning/alarm/fault metrics recovered for " alarm_recovered s []
        else quiet
  ]

  unfoldable pub grid_decision : AlertConfig V → Snapshot V → List (Metric V) → Decision
  grid_decision cfg s [] = quiet
  grid_decision cfg s (m ∷ metrics) =
      elim (first_above scale cfg.grid_down_voltage_threshold (m ∷ metrics)) [
        | some up ↦
            recovery ("grid_down_" ++ alert_identity s) "Grid restored for " grid_restored s
              (up ∷ [])
        | none ↦ raise (
            alert_event ("grid_down_" ++ alert_identity s) "Grid down detected for " grid_down s
              (m ∷ metrics))
      ]

  unfoldable pub evaluate_grid_down : AlertConfig V → Snapshot V → Decision
  evaluate_grid_down cfg s =
      if not (scale.is_positive cfg.grid_down_voltage_threshold)
      then quiet
      else grid_decision cfg s (present s.metrics grid_keys)

  abbrev pub battery_recovery : AlertConfig V → Snapshot V → List (Metric V) → Decision
  battery_recovery cfg s [] = quiet
  battery_recovery cfg s (m ∷ metrics) =
      if any_below scale (scale.at_most_100 (scale.plus_five cfg.battery_soc_low_threshold))
        (m ∷ metrics)
      then quiet
      else recovery ("battery_soc_low_" ++ alert_identity s) "Battery SOC recovered for "
          battery_recovered s (m ∷ metrics)

  unfoldable pub battery_decision : AlertConfig V → Snapshot V → List (Metric V) → Decision
  battery_decision cfg s metrics = elim (first_low scale cfg.battery_soc_low_threshold metrics) [
    | some low ↦ raise (
        alert_event ("battery_soc_low_" ++ alert_identity s) "Battery SOC low for " battery_low s
          (low ∷ []))
    | none ↦ battery_recovery cfg s metrics
  ]

  unfoldable pub evaluate_battery_soc : AlertConfig V → Snapshot V → Decision
  evaluate_battery_soc cfg s =
      if not (scale.is_positive cfg.battery_soc_low_threshold)
      then quiet
      else battery_decision cfg s (present s.metrics soc_keys)

  abbrev pub temperature_recovery : AlertConfig V → Snapshot V → List (Metric V) → Decision
  temperature_recovery cfg s [] = quiet
  temperature_recovery cfg s (m ∷ metrics) =
      if any_above scale (scale.minus_five cfg.high_temperature_threshold) (m ∷ metrics)
      then quiet
      else recovery ("high_temperature_" ++ alert_identity s) "Temperature recovered for "
          temperature_recovered s (m ∷ metrics)

  unfoldable pub temperature_decision : AlertConfig V → Snapshot V → List (Metric V) → Decision
  temperature_decision cfg s metrics = elim (hot scale cfg.high_temperature_threshold metrics) [
    | m ∷ rest ↦ raise (
        alert_event ("high_temperature_" ++ alert_identity s) "High temperature detected for "
          temperature_high s (m ∷ rest))
    | [] ↦ temperature_recovery cfg s metrics
  ]

  unfoldable pub evaluate_high_temperature : AlertConfig V → Snapshot V → Decision
  evaluate_high_temperature cfg s =
      if not (scale.is_positive cfg.high_temperature_threshold)
      then quiet
      else temperature_decision cfg s (present s.metrics temperature_keys)

-- What the manager does with a decision.
unfoldable pub apply : Manager → Bool → Decision → Attempt → Manager
apply m notify quiet a = m
apply m notify (raise e) a = notify_active m e a
apply m notify (recover active_key e) a = resolve m active_key e notify a

module _ {V : Type 0} (scale : Scale V) (body : Rule → List (Metric V) → String) where
  -- The decisions of a snapshot in their order.
  abbrev pub decisions : AlertConfig V → Snapshot V → List Decision
  decisions cfg s =
      evaluate_alarm_metrics scale body s
      ∷ evaluate_grid_down scale body cfg s
      ∷ evaluate_battery_soc scale body cfg s
      ∷ evaluate_high_temperature scale body cfg s
      ∷ []

-- Each decision meets the clock and the notifier anew.
unfoldable pub apply_all : Manager → Bool → List Decision → (ℕ → Attempt) → ℕ → Manager
unfolding apply
apply_all m notify [] attempts n = m
apply_all m notify (d ∷ rest) attempts n =
    apply_all (apply m notify d (attempts n)) notify rest attempts (n + 1)

module _ {V : Type 0} (scale : Scale V) (body : Rule → List (Metric V) → String) where
  unfoldable pub evaluate_snapshot : Manager → AlertConfig V → Snapshot V → (ℕ → Attempt) → Manager
  evaluate_snapshot m cfg s attempts =
      apply_all m cfg.notify_recovery (decisions scale body cfg s) attempts 0

abbrev pub reference_time : ℕ → Option ℕ → ℕ
reference_time started_at none = started_at
reference_time started_at (some t) = t

-- The times are readings of the monotonic clock; a zero time is none. The event goes to `Notify`.
unfoldable pub evaluate_no_successful_poll : ℤ → String → ℕ → Option ℕ → ℕ → String → Option Event
evaluate_no_successful_poll window source_name started_at last_success_at now body =
    let reference = reference_time started_at last_success_at in
    if not (ltb_ℤ (pos 0) window) || ltb_ℤ (pos (now - reference)) window
    then none
    else some (record {
      key = "no_successful_poll_" ++ lower_text (trim_space source_name);
      subject = "No successful poll for " ++ trim_space source_name;
      body = body;
      cooldown = pos 0;
    })
