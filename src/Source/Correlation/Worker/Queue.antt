-- ===== src/Source/Correlation/Worker/Queue.antt =====
-- What the queue and the state of the worker say of each other.
use Prim.Native.String.{String}
use jinko_exporter.Prelude.{
  ◌≡◌, ◌⊎◌, inl, inr, true, false, none, some, List, [], ◌∷◌, Result-cases, arith,
}
use jinko_exporter.Prelude.Int.{ℤ}
use jinko_exporter.Prelude.Text.{trim_space}
use jinko_exporter.Model.{Metric, Snapshot}
use jinko_exporter.Source.Correlation.Signature.{
  ModbusAlertSignature, is_active, any_set, modbus_alert_signature_from_snapshot,
}
use jinko_exporter.Source.Correlation.Worker.{
  detected, recovered, Job, Worker, WorkerEvent, observes, starts, takes, ends, enqueue_latest,
  trigger, observe_signature, observe, worker_step, run_worker, new_worker,
}

-- A pending job is about the state that the worker is in.
abbrev pub IsCurrent : Worker → Job → Type 0
IsCurrent w j =
    (j.kind ≡ recovered) × (w.active ≡ false)
    ⊎ ((j.kind ≡ detected)
        × (w.active ≡ true)
        × (j.signature ≡ w.last_signature)
        × (j.expected_device_sn ≡ w.last_device_sn))

pub record IsCoherent (w : Worker) : Type 0 where
  pub active_signature : w.active ≡ is_active w.last_signature
  pub idle : w.active ≡ false → w.last_triggered_at ≡ none
  pub current : (j : Job) → w.jobs ≡ some j → IsCurrent w j

signature-IsCoherent :
    (w : Worker) (now : ℤ) (signature : ModbusAlertSignature) (device_sn : String)
    (metrics : List (Metric ℤ))
    → IsCoherent w
    → IsCoherent (observe_signature w now signature device_sn metrics)
unfolding observe_signature trigger enqueue_latest any_set
signature-IsCoherent w now signature device_sn metrics h = ground (arith, h.current)

observe-IsCoherent :
    (w : Worker) (now : ℤ) (s : Snapshot ℤ) → IsCoherent w → IsCoherent (observe w now s)
unfolding observe
observe-IsCoherent w now s h = elim (Result-cases (modbus_alert_signature_from_snapshot s)) [
  | inr (e, refused) ↦ rw (refused, observe) h
  | inl (signature, accepted) ↦
      rw (accepted, observe)
        (signature-IsCoherent w now signature (trim_space s.device_sn) s.metrics h)
]

step-IsCoherent : (w : Worker) (e : WorkerEvent) → IsCoherent w → IsCoherent (worker_step w e)
unfolding worker_step any_set
step-IsCoherent w (observes now s) h = observe-IsCoherent w now s h
step-IsCoherent w starts h = ground (arith, h.current)
step-IsCoherent w takes h = ground (arith, h.current)
step-IsCoherent w ends h = ground (arith, h.current)

-- From a coherent worker on, such as a new one, whatever is observed, in whatever order, and whenever
-- the background task starts, takes a job or ends: the worker is active exactly while its last signature has a word that is not zero, an idle one
-- remembers no trigger, and a job in the queue is about the worker's present state: a detection of
-- the very signature and device that it last triggered on, or a recovery while it is idle.
pub run-IsCoherent :
    (w : Worker) (events : List WorkerEvent) → IsCoherent w → IsCoherent (run_worker w events)
unfolding run_worker
run-IsCoherent w [] h = h
run-IsCoherent w (e ∷ events) h = run-IsCoherent (worker_step w e) events (step-IsCoherent w e h)

pub new-IsCoherent : (cooldown : ℤ) → IsCoherent (new_worker cooldown)
unfolding any_set
new-IsCoherent cooldown = ground arith
