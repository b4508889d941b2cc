-- ===== src/HomeAssistant/Streams/Sound/Runs.antt =====
-- Whole calls, in any order.
use jinko_exporter.Prelude.{◌||◌, Bool-cases, Option, none, some, inl, inr, List, [], ◌∷◌}
use jinko_exporter.Model.{Snapshot}
use jinko_exporter.HomeAssistant.Streams.{
  Meter, group_of, stream, with_stream, Publisher, publish_independent,
}
use jinko_exporter.HomeAssistant.Streams.Calls.{
  ObserverCall, Writes, inverter_polled, inverter_failed, meter_polled, meter_failed, handle,
  handle_all, inverter_success, inverter_failure, meter_success, meter_failure, all_in_group, fresh,
  down, mark_after,
}
use jinko_exporter.HomeAssistant.Streams.Sound.{
  IsSound, inverter-IsKeptApart, with_stream-IsKeptApart, stream-IsOwn, publish-IsSettling,
  mark_after-IsSound, settle_inverter-IsSound, settle_meter-IsSound, refuse-IsSound, lower-IsSound,
}

module _ {V : Type 0} where
  inverter_success-IsSound :
      (p : Publisher V) (s : Option (Snapshot V)) (w : Writes)
      → IsSound p
      → IsSound (inverter_success p s w).0
  unfolding inverter_success
  inverter_success-IsSound p none w sound = sound
  inverter_success-IsSound p (some s) w sound = elim (Bool-cases (p.closing || p.closed)) [
    | inl shut ↦ simp shut sound
    | inr alive ↦
        simp (alive, sound.apart.independent)
          (settle_inverter-IsSound p
            (publish_independent
              (record p { inverter = fresh s w.now; inverter_duration = w.duration }) w.attempt)
            w.write_failed
            (publish-IsSettling
              (record p { inverter = fresh s w.now; inverter_duration = w.duration }) w.attempt
              (inverter-IsKeptApart p sound.apart (fresh s w.now) w.duration)))
  ]

  inverter_failure-IsSound :
      (p : Publisher V) (w : Writes) → IsSound p → IsSound (inverter_failure p w).0
  unfolding inverter_failure
  inverter_failure-IsSound p w sound = elim (Bool-cases (p.closing || p.closed)) [
    | inl shut ↦ simp shut sound
    | inr alive ↦
        simp (alive, sound.apart.independent)
          (mark_after-IsSound
            (publish_independent (record p { inverter = down p.inverter }) w.attempt) w.write_failed
            (publish-IsSettling (record p { inverter = down p.inverter }) w.attempt
              (inverter-IsKeptApart p sound.apart (down p.inverter) p.inverter_duration)))
  ]

  meter_failure-IsSound :
      (meter : Meter) (p : Publisher V) (w : Writes)
      → IsSound p
      → IsSound (meter_failure meter p w).0
  unfolding meter_failure
  meter_failure-IsSound meter p w sound = elim (Bool-cases (p.closing || p.closed)) [
    | inl shut ↦ simp shut sound
    | inr alive ↦ simp alive (lower-IsSound meter p w sound)
  ]

  meter_success-IsSound :
      (meter : Meter) (p : Publisher V) (s : Option (Snapshot V)) (w : Writes)
      → IsSound p
      → IsSound (meter_success meter p s w).0
  unfolding meter_success
  meter_success-IsSound meter p none w sound = sound
  meter_success-IsSound meter p (some s) w sound = elim (Bool-cases (p.closing || p.closed)) [
    | inl shut ↦ simp shut sound
    | inr alive ↦ elim (Bool-cases (all_in_group (group_of meter) s.metrics)) [
      | inl own ↦
          simp (alive, own)
            (settle_meter-IsSound meter (stream p meter)
              (publish_independent (with_stream p meter (fresh s w.now)) w.attempt) w.write_failed
              (stream-IsOwn meter p sound.apart)
              (publish-IsSettling (with_stream p meter (fresh s w.now)) w.attempt
                (with_stream-IsKeptApart meter p (fresh s w.now) own sound.apart)))
      | inr foreign ↦
          simp (alive, foreign)
            (refuse-IsSound
              (mark_after w.write_failed
                (publish_independent (with_stream p meter (down (stream p meter))) w.attempt))
              (lower-IsSound meter p w sound))
    ]
  ]

  handle-IsSound : (p : Publisher V) (call : ObserverCall V) → IsSound p → IsSound (handle p call).0
  unfolding handle
  handle-IsSound p (inverter_polled s w) sound = inverter_success-IsSound p s w sound
  handle-IsSound p (inverter_failed w) sound = inverter_failure-IsSound p w sound
  handle-IsSound p (meter_polled meter s w) sound = meter_success-IsSound meter p s w sound
  handle-IsSound p (meter_failed meter w) sound = meter_failure-IsSound meter p w sound

  -- Whatever calls of the three observers follow, in any order and with any errors of the file or the
  -- broker: the snapshot of each meter holds metrics of its own group only, and the publisher's last
  -- availability is online only while some stream is up, if both held before and a meter is observed
  -- on its own.
  pub handle_all-IsSound :
      (p : Publisher V) (calls : List (ObserverCall V)) → IsSound p → IsSound (handle_all p calls)
  unfolding handle_all
  handle_all-IsSound p [] sound = sound
  handle_all-IsSound p (call ∷ calls) sound =
      handle_all-IsSound (handle p call).0 calls (handle-IsSound p call sound)
