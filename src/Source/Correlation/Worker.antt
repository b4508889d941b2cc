-- ===== src/Source/Correlation/Worker.antt =====
-- The worker's state and its queue of one job. `observe` runs under the lock and is the only
-- producer, so a queue that is full when it starts holds its job when it ends, whether the consumer
-- comes in between or not.
pub mod Queue
use Prim.Native.String.{String}
use jinko_exporter.Prelude.{
  ℕ, ◌≡◌, refl, Bool, true, false, ◌&&◌, ◌||◌, not, Option, none, some, List, [], ◌∷◌,
  if◌then◌else◌, Result, ok, err,
}
use jinko_exporter.Prelude.Int.{ℤ, pos, ltb_ℤ}
use jinko_exporter.Prelude.Text.{◌=$◌, is_empty, trim_space}
use jinko_exporter.Model.{Metric, Snapshot}
use jinko_exporter.Model.Freshness.{time_sub}
use jinko_exporter.Source.Priority.{equal_codes}
use jinko_exporter.Source.Correlation.Signature.{
  ModbusAlertSignature, no_signature, is_active, modbus_alert_signature_from_snapshot,
}

pub data EventKind : Type 0 where
  detected recovered correlation_complete : EventKind

pub record MetricIdentity : Type 0 where
  pub group : String
  pub unit : String

pub record Job : Type 0 where
  pub kind : EventKind
  pub observed_at : ℤ
  pub signature : ModbusAlertSignature
  pub expected_device_sn : String
  pub ordinary_keys : List (String × MetricIdentity)

-- A zero time is none.
pub record Worker : Type 0 where
  pub cooldown : ℤ
  pub jobs : Option Job
  pub running : Bool
  pub active : Bool
  pub last_signature : ModbusAlertSignature
  pub last_device_sn : String
  pub last_triggered_at : Option ℤ

unfoldable pub find_identity : List (String × MetricIdentity) → String → Option MetricIdentity
find_identity [] key = none
find_identity ((k, i) ∷ keys) key =
    let rest = find_identity keys key in if k =$ key then some i else rest

abbrev pub add_identity :
    List (String × MetricIdentity) → String → MetricIdentity → List (String × MetricIdentity)
add_identity keys key identity = elim (find_identity keys key) [
  | none ↦ (key, identity) ∷ keys
  | some _ ↦ keys
]

-- The first metric with a key counts.
unfoldable pub clone_ordinary_metric_keys :
    List (String × MetricIdentity) → List (Metric ℤ) → List (String × MetricIdentity)
clone_ordinary_metric_keys keys [] = keys
clone_ordinary_metric_keys keys (m ∷ metrics) =
    clone_ordinary_metric_keys
      (if trim_space m.group =$ "alert" || is_empty (trim_space m.key)
        then keys
        else add_identity keys (trim_space m.key)
            (record { group = trim_space m.group; unit = trim_space m.unit }))
      metrics

abbrev pub same_signature : ModbusAlertSignature → ModbusAlertSignature → Bool
same_signature a b = equal_codes a.values b.values

unfoldable pub enqueue_latest : Worker → Job → Worker
enqueue_latest w job = record w { jobs = some job }

-- What the deferred function of `RunBackground` and a recovery put back.
abbrev pub forget : Worker → Worker
forget w = record w {
  active = false;
  last_signature = no_signature;
  last_device_sn = "";
  last_triggered_at = none;
}

unfoldable pub changed : Worker → ModbusAlertSignature → String → Bool
changed w signature device_sn =
    not w.active
    || not (same_signature signature w.last_signature)
    || not (device_sn =$ w.last_device_sn)

abbrev pub is_zero_duration : ℤ → Bool
is_zero_duration d = not (ltb_ℤ d (pos 0)) && not (ltb_ℤ (pos 0) d)

abbrev pub since_trigger : Worker → Option ℤ → ℤ → Bool
since_trigger w none now = true
since_trigger w (some t) now = not (ltb_ℤ (time_sub now t) w.cooldown)

unfoldable pub cooldown_elapsed : Worker → ℤ → Bool
cooldown_elapsed w now = is_zero_duration w.cooldown || since_trigger w w.last_triggered_at now

abbrev pub recovered_job : ℤ → ModbusAlertSignature → String → Job
recovered_job now signature device_sn = record {
  kind = recovered;
  observed_at = now;
  signature = signature;
  expected_device_sn = device_sn;
  ordinary_keys = [];
}

abbrev pub detected_job : ℤ → ModbusAlertSignature → String → List (String × MetricIdentity) → Job
detected_job now signature device_sn keys = record {
  kind = detected;
  observed_at = now;
  signature = signature;
  expected_device_sn = device_sn;
  ordinary_keys = keys;
}

unfoldable pub trigger : Worker → ℤ → ModbusAlertSignature → String → List (Metric ℤ) → Worker
trigger w now signature device_sn metrics =
    enqueue_latest
      (record w {
        active = true;
        last_signature = signature;
        last_device_sn = device_sn;
        last_triggered_at = some now;
      })
      (detected_job now signature device_sn (clone_ordinary_metric_keys [] metrics))

unfoldable pub observe_signature :
    Worker → ℤ → ModbusAlertSignature → String → List (Metric ℤ) → Worker
observe_signature w now signature device_sn metrics =
    if not (is_active signature)
    then if not w.active
      then w
      else enqueue_latest (forget w) (recovered_job now signature device_sn)
    else if not (changed w signature device_sn) && not (cooldown_elapsed w now)
    then w
    else trigger w now signature device_sn metrics

unfoldable pub observe : Worker → ℤ → Snapshot ℤ → Worker
observe w now s = elim (modbus_alert_signature_from_snapshot s) [
  | err e ↦ w
  | ok signature ↦ observe_signature w now signature (trim_space s.device_sn) s.metrics
]

-- What happens to a worker: an observation, `RunBackground` starts, takes a job, or ends and empties
-- the queue.
pub data WorkerEvent : Type 0 where
  observes : ℤ → Snapshot ℤ → WorkerEvent
  starts takes ends : WorkerEvent

unfoldable pub worker_step : Worker → WorkerEvent → Worker
worker_step w (observes now s) = observe w now s
worker_step w starts = record w { running = true }
worker_step w takes = if w.running then record w { jobs = none } else w
worker_step w ends = if w.running then record (forget w) { running = false; jobs = none } else w

unfoldable pub run_worker : Worker → List WorkerEvent → Worker
unfolding worker_step
run_worker w [] = w
run_worker w (e ∷ events) = run_worker (worker_step w e) events

abbrev pub new_worker : ℤ → Worker
new_worker cooldown = record {
  cooldown = cooldown;
  jobs = none;
  running = false;
  active = false;
  last_signature = no_signature;
  last_device_sn = "";
  last_triggered_at = none;
}
