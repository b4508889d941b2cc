-- ===== src/Alert/Rules/Keys.antt =====
-- Which conditions of the manager a snapshot can change.
use Prim.Native.String.{String, ◌++◌}
use jinko_exporter.Prelude.{
  ℕ, ◌+◌, ◌≡◌, ◌≢◌, refl, sym, ◌∙◌, if◌then◌else◌, Bool, true, false, not, ◌&&◌, List, [], ◌∷◌,
  arith,
}
use jinko_exporter.Prelude.Text.{◌=$◌, is_empty, trim_space}
use jinko_exporter.Alert.Rules.Names.{is_empty-append, apart_first, append_ne, apart_later}
use jinko_exporter.Model.{Metric, Snapshot}
use jinko_exporter.Alert.Manager.{
  Manager, Event, Attempt, update, reserve_send, finish_send, mark_active, mark_resolved, event_key,
  notify_delivered, notify_active, resolve, recovery_event,
}
use jinko_exporter.Alert.Rules.{
  Scale, AlertConfig, Rule, Decision, quiet, raise, recover, apply, apply_all, decisions,
  evaluate_snapshot, alert_identity, alarm_metric_active_key, evaluate_alarm_metrics,
  evaluate_grid_down, grid_decision, evaluate_battery_soc, battery_decision,
  evaluate_high_temperature, temperature_decision, first_text, lower_text,
}

-- Whether a decision is about the condition under this key.
abbrev pub concerns : String → Decision → Bool
concerns key quiet = false
concerns key (raise e) = event_key e =$ key
concerns key (recover active_key e) = active_key =$ key

abbrev pub none_concerns : String → List Decision → Bool
none_concerns key [] = true
none_concerns key (d ∷ rest) = not (concerns key d) && none_concerns key rest

-- A delivery does not touch the active conditions.
delivered-active :
    (m : Manager) (e : Event) (a : Attempt) (key : String)
    → (notify_delivered m e a).0.active key ≡ m.active key
unfolding notify_delivered reserve_send finish_send
delivered-active m e a key = ground arith

marked-active :
    (m : Manager) (marked key : String)
    → (marked =$ key) ≡ false
    → (mark_active m marked).active key ≡ m.active key
unfolding mark_active update
marked-active m marked key other = ground (arith, other)

resolved-active :
    (m : Manager) (active_key key : String)
    → (active_key =$ key) ≡ false
    → (mark_resolved m active_key).0.active key ≡ m.active key
unfolding mark_resolved update
resolved-active m active_key key other = ground (arith, other)

raised-active :
    (m : Manager) (e : Event) (a : Attempt) (key : String)
    → (event_key e =$ key) ≡ false
    → (notify_active m e a).active key ≡ m.active key
unfolding notify_active
raised-active m e a key other =
    delivered-active (mark_active m (event_key e)) (record e { key = event_key e }) a key
    ∙ marked-active m (event_key e) key other

recovered-active :
    (m : Manager) (active_key : String) (e : Event) (notify : Bool) (a : Attempt) (key : String)
    → (active_key =$ key) ≡ false
    → (resolve m active_key e notify a).active key ≡ m.active key
unfolding resolve
recovered-active m active_key e notify a key other =
    let resolved = (mark_resolved m active_key).0 in
    let sent = notify_delivered resolved (recovery_event active_key e) a in
    ground (
      arith,
      resolved-active m active_key key other,
      delivered-active resolved (recovery_event active_key e) a key,
      marked-active sent.0 active_key key other,
    )

apply-active :
    (m : Manager) (notify : Bool) (d : Decision) (a : Attempt) (key : String)
    → concerns key d ≡ false
    → (apply m notify d a).active key ≡ m.active key
unfolding apply
apply-active m notify quiet a key other = refl
apply-active m notify (raise e) a key other = raised-active m e a key other
apply-active m notify (recover active_key e) a key other =
    recovered-active m active_key e notify a key other

apply_all-active :
    (m : Manager) (notify : Bool) (ds : List Decision) (attempts : ℕ → Attempt) (n : ℕ)
    (key : String)
    → none_concerns key ds ≡ true
    → (apply_all m notify ds attempts n).active key ≡ m.active key
unfolding apply_all
apply_all-active m notify [] attempts n key h = refl
apply_all-active m notify (d ∷ ds) attempts n key h =
    apply_all-active (apply m notify d (attempts n)) notify ds attempts (n + 1) key
      (ground (arith, h))
    ∙ apply-active m notify d (attempts n) key (ground (arith, h))

-- What follows "metric_alarm_" in the key of an alarm: the source, and the device.
abbrev source_part : String → String
source_part source = if is_empty source then "unknown-source" else source

abbrev alarm_part : {V : Type 0} → Snapshot V → String
alarm_part s = source_part (lower_text (trim_space s.source)) ++ "_" ++ alert_identity s

module _ {V : Type 0} (scale : Scale V) (body : Rule → List (Metric V) → String) where
  alarm-concerns :
      (s : Snapshot V) (key : String)
      → (alarm_metric_active_key s =$ key) ≡ false
      → concerns key (evaluate_alarm_metrics scale body s) ≡ false
  unfolding evaluate_alarm_metrics
  alarm-concerns s key h = ground (arith, h, is_empty-append "metric_alarm_" (alarm_part s) refl)

  grid-concerns :
      (cfg : AlertConfig V) (s : Snapshot V) (key : String)
      → (("grid_down_" ++ alert_identity s) =$ key) ≡ false
      → concerns key (evaluate_grid_down scale body cfg s) ≡ false
  unfolding evaluate_grid_down grid_decision
  grid-concerns cfg s key h =
      ground (arith, h, is_empty-append "grid_down_" (alert_identity s) refl)

  battery-concerns :
      (cfg : AlertConfig V) (s : Snapshot V) (key : String)
      → (("battery_soc_low_" ++ alert_identity s) =$ key) ≡ false
      → concerns key (evaluate_battery_soc scale body cfg s) ≡ false
  unfolding evaluate_battery_soc battery_decision
  battery-concerns cfg s key h =
      ground (arith, h, is_empty-append "battery_soc_low_" (alert_identity s) refl)

  temperature-concerns :
      (cfg : AlertConfig V) (s : Snapshot V) (key : String)
      → (("high_temperature_" ++ alert_identity s) =$ key) ≡ false
      → concerns key (evaluate_high_temperature scale body cfg s) ≡ false
  unfolding evaluate_high_temperature temperature_decision
  temperature-concerns cfg s key h =
      ground (arith, h, is_empty-append "high_temperature_" (alert_identity s) refl)

  none-concerns :
      (cfg : AlertConfig V) (s : Snapshot V) (key : String)
      → (alarm_metric_active_key s =$ key) ≡ false
      → (("grid_down_" ++ alert_identity s) =$ key) ≡ false
      → (("battery_soc_low_" ++ alert_identity s) =$ key) ≡ false
      → (("high_temperature_" ++ alert_identity s) =$ key) ≡ false
      → none_concerns key (decisions scale body cfg s) ≡ true
  none-concerns cfg s key alarm grid battery temperature =
      rw
        (
          alarm-concerns s key alarm,
          grid-concerns cfg s key grid,
          battery-concerns cfg s key battery,
          temperature-concerns cfg s key temperature,
        )
        refl

-- A device is identified by its serial number, if it has one.
serial_identity :
    {V : Type 0} (s : Snapshot V)
    → is_empty (trim_space s.device_sn) ≡ false
    → alert_identity s ≡ trim_space s.device_sn
unfolding first_text
serial_identity s named = ground (arith, named)

different_identity :
    {V : Type 0} (s s' : Snapshot V)
    → is_empty (trim_space s.device_sn) ≡ false
    → is_empty (trim_space s'.device_sn) ≡ false
    → trim_space s.device_sn ≢ trim_space s'.device_sn
    → alert_identity s ≢ alert_identity s'
different_identity s s' named named' different =
    λ e. different (sym (serial_identity s named) ∙ e ∙ serial_identity s' named')

module _ {V : Type 0} (scale : Scale V) (body : Rule → List (Metric V) → String) (m : Manager)
    (cfg : AlertConfig V) (s : Snapshot V) (attempts : ℕ → Attempt) where
  abbrev pub Untouched : String → Type 0
  Untouched key = (evaluate_snapshot scale body m cfg s attempts).active key ≡ m.active key

  untouched :
      (key : String)
      → (alarm_metric_active_key s =$ key) ≡ false
      → (("grid_down_" ++ alert_identity s) =$ key) ≡ false
      → (("battery_soc_low_" ++ alert_identity s) =$ key) ≡ false
      → (("high_temperature_" ++ alert_identity s) =$ key) ≡ false
      → Untouched key
  unfolding evaluate_snapshot
  untouched key alarm grid battery temperature =
      apply_all-active m cfg.notify_recovery (decisions scale body cfg s) attempts 0 key
        (none-concerns scale body cfg s key alarm grid battery temperature)

  -- Let two snapshots be of devices with different serial numbers, spaces at the ends aside. Whatever
  -- the one holds, and whether its events can be delivered or not, evaluating it leaves every
  -- condition of the other device as it is: that its grid is down, that its battery is low, that its
  -- temperature is high, and that the same source reports an alarm of it.
  pub evaluate-keeps_others :
      (s' : Snapshot V)
      → is_empty (trim_space s.device_sn) ≡ false
      → is_empty (trim_space s'.device_sn) ≡ false
      → trim_space s.device_sn ≢ trim_space s'.device_sn
      → Untouched ("grid_down_" ++ alert_identity s')
        × Untouched ("battery_soc_low_" ++ alert_identity s')
        × Untouched ("high_temperature_" ++ alert_identity s')
        × Untouched (alarm_metric_active_key (record s' { source = s.source }))
  evaluate-keeps_others s' named named' different =
      let ne = different_identity s s' named named' different in
      let same_source = record s' { source = s.source } in
      let ne' = different_identity s same_source named named' different in
      let id = alert_identity s in
      let id' = alert_identity s' in
      let a = alarm_part s in
      (
        untouched ("grid_down_" ++ id')
            (apart_first "metric_alarm_" "grid_down_" a id' refl refl refl)
            (apart_later "grid_down_" id id' ne)
            (apart_first "battery_soc_low_" "grid_down_" id id' refl refl refl)
            (apart_first "high_temperature_" "grid_down_" id id' refl refl refl),
        untouched ("battery_soc_low_" ++ id')
            (apart_first "metric_alarm_" "battery_soc_low_" a id' refl refl refl)
            (apart_first "grid_down_" "battery_soc_low_" id id' refl refl refl)
            (apart_later "battery_soc_low_" id id' ne)
            (apart_first "high_temperature_" "battery_soc_low_" id id' refl refl refl),
        untouched ("high_temperature_" ++ id')
            (apart_first "metric_alarm_" "high_temperature_" a id' refl refl refl)
            (apart_first "grid_down_" "high_temperature_" id id' refl refl refl)
            (apart_first "battery_soc_low_" "high_temperature_" id id' refl refl refl)
            (apart_later "high_temperature_" id id' ne),
        untouched (alarm_metric_active_key same_source)
            (apart_later "metric_alarm_" a (alarm_part same_source) (
              append_ne (source_part (lower_text (trim_space s.source))) ("_" ++ id)
                ("_" ++ alert_identity same_source)
                (append_ne "_" id (alert_identity same_source) ne')))
            (apart_first "grid_down_" "metric_alarm_" id (alarm_part same_source) refl refl refl)
            (apart_first "battery_soc_low_" "metric_alarm_" id (alarm_part same_source) refl refl
              refl)
            (apart_first "high_temperature_" "metric_alarm_" id (alarm_part same_source) refl refl
              refl),
      )
