-- ===== src/HomeAssistant/Streams/Calls.antt =====
-- publisher.go, grid_load.go: the calls of the observers of the inverter and of the two meters.
use Prim.Native.String.{String}
use jinko_exporter.Prelude.{
  Bool, true, false, ◌&&◌, ◌||◌, Option, none, some, List, [], ◌∷◌, if◌then◌else◌,
}
use jinko_exporter.Prelude.Int.{ℤ}
use jinko_exporter.Model.{Metric, Snapshot}
use jinko_exporter.HomeAssistant.Ids.{is_group}
use jinko_exporter.HomeAssistant.Streams.{
  Meter, Stream, Publisher, Publication, PublishError, from_another_stream, group_of, stream,
  with_stream, publish_snapshot, publish_independent, independent_meters, mark_publication_failure,
  mark_invalid_poll,
}

-- The values of a call: the poll's duration, the time as a text, what the publication met and whether
-- the write of the availability failed.
pub record Writes : Type 0 where
  pub duration : ℤ
  pub now : String
  pub attempt : Publication
  pub write_failed : Bool

module _ {V : Type 0} where
  -- The loop over the metrics of a meter's snapshot.
  unfoldable pub all_in_group : String → List (Metric V) → Bool
  all_in_group group [] = true
  all_in_group group (m ∷ metrics) = is_group group m.group && all_in_group group metrics

  abbrev pub fresh : Snapshot V → String → Stream V
  fresh s now = record { snapshot = some s; up = true; published_at = now }

  abbrev pub down : Stream V → Stream V
  down s = record s { up = false }

  -- What follows the publication of a snapshot of the inverter: after an error the previous snapshot
  -- is put back and the stream is down.
  abbrev pub settle_inverter :
      Publisher V → Bool → Publisher V × Option PublishError → Publisher V × Option PublishError
  settle_inverter p write_failed (p', none) = (p', none)
  settle_inverter p write_failed (p', some e) = (
    mark_invalid_poll
        (record p' { inverter = down p.inverter; inverter_duration = p.inverter_duration })
        write_failed,
    some e,
  )

  abbrev pub settle_whole :
      Bool → Publisher V × Option PublishError → Publisher V × Option PublishError
  settle_whole write_failed (p', none) = (p', none)
  settle_whole write_failed (p', some e) = (mark_invalid_poll p' write_failed, some e)

  -- `Publisher.OnPollSuccess`
  unfoldable pub inverter_success :
      Publisher V → Option (Snapshot V) → Writes → Publisher V × Option PublishError
  inverter_success p none w = (p, none)
  inverter_success p (some s) w =
      if p.closing || p.closed
      then (p, none)
      else if independent_meters p
      then settle_inverter p w.write_failed (
          publish_independent
            (record p { inverter = fresh s w.now; inverter_duration = w.duration }) w.attempt)
      else settle_whole w.write_failed (publish_snapshot p s w.attempt)

  abbrev pub mark_after :
      Bool → Publisher V × Option PublishError → Publisher V × Option PublishError
  mark_after write_failed (p', none) = (p', none)
  mark_after write_failed (p', some e) = (mark_publication_failure p' write_failed, some e)

  -- `Publisher.OnPollFailure`
  unfoldable pub inverter_failure : Publisher V → Writes → Publisher V × Option PublishError
  inverter_failure p w =
      if p.closing || p.closed
      then (p, none)
      else if independent_meters p
      then mark_after w.write_failed
          (publish_independent (record p { inverter = down p.inverter }) w.attempt)
      else (mark_publication_failure p w.write_failed, none)

  abbrev pub refuse : Publisher V × Option PublishError → Publisher V × Option PublishError
  refuse (p, e) = (p, some from_another_stream)

  abbrev pub settle_meter :
      Meter
      → Stream V
      → Bool
      → Publisher V × Option PublishError
      → Publisher V × Option PublishError
  settle_meter meter previous write_failed (p', none) = (p', none)
  settle_meter meter previous write_failed (p', some e) =
      (mark_publication_failure (with_stream p' meter (down previous)) write_failed, some e)

  -- `gridMeterObserver.OnPollSuccess`
  unfoldable pub meter_success :
      Meter → Publisher V → Option (Snapshot V) → Writes → Publisher V × Option PublishError
  meter_success meter p none w = (p, none)
  meter_success meter p (some s) w =
      if p.closing || p.closed
      then (p, none)
      else if all_in_group (group_of meter) s.metrics
      then settle_meter meter (stream p meter) w.write_failed
          (publish_independent (with_stream p meter (fresh s w.now)) w.attempt)
      else refuse (
          mark_after w.write_failed
            (publish_independent (with_stream p meter (down (stream p meter))) w.attempt))

  -- `gridMeterObserver.OnPollFailure`
  unfoldable pub meter_failure : Meter → Publisher V → Writes → Publisher V × Option PublishError
  meter_failure meter p w =
      if p.closing || p.closed
      then (p, none)
      else mark_after w.write_failed
          (publish_independent (with_stream p meter (down (stream p meter))) w.attempt)

-- A call of an observer. The lock of the publisher orders the calls.
pub data ObserverCall (V : Type 0) : Type 0 where
  inverter_polled : Option (Snapshot V) → Writes → ObserverCall V
  inverter_failed : Writes → ObserverCall V
  meter_polled : Meter → Option (Snapshot V) → Writes → ObserverCall V
  meter_failed : Meter → Writes → ObserverCall V

module _ {V : Type 0} where
  unfoldable pub handle : Publisher V → ObserverCall V → Publisher V × Option PublishError
  handle p (inverter_polled s w) = inverter_success p s w
  handle p (inverter_failed w) = inverter_failure p w
  handle p (meter_polled meter s w) = meter_success meter p s w
  handle p (meter_failed meter w) = meter_failure meter p w

  unfoldable pub handle_all : Publisher V → List (ObserverCall V) → Publisher V
  handle_all p [] = p
  handle_all p (call ∷ calls) = handle_all (handle p call).0 calls
