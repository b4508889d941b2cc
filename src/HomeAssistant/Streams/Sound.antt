-- ===== src/HomeAssistant/Streams/Sound.antt =====
-- What the calls of the observers keep.
pub mod Runs
use jinko_exporter.Prelude.{
  ◌≡◌, refl, ap, ◌∙◌, Bool, true, false, ◌&&◌, ◌||◌, not, Bool-cases, Option, none, some,
  Option-cases, inl, inr, List, [], ◌∷◌, arith, if◌then◌else◌,
}
use jinko_exporter.Prelude.Int.{ℤ}
use jinko_exporter.Model.{Snapshot}
use jinko_exporter.HomeAssistant.Streams.{
  Meter, load_meter, input_meter, group_of, stream, with_stream, Stream, Publisher, Publication,
  cached, not_cached, PublishError, combined, independent_meters, some_up, publish_snapshot,
  publish_independent, mark_publication_failure, mark_invalid_poll, broker_error,
}
use jinko_exporter.HomeAssistant.Streams.Calls.{
  ObserverCall, Writes, inverter_polled, inverter_failed, meter_polled, meter_failed, handle,
  handle_all, inverter_success, inverter_failure, meter_success, meter_failure, all_in_group, fresh,
  down, settle_inverter, settle_meter, settle_whole, mark_after, refuse,
}
use jinko_exporter.HomeAssistant.Streams.Combined.{IsOwn}

module _ {V : Type 0} where
  -- Each meter's stream holds metrics of its own group only.
  pub record IsKeptApart (p : Publisher V) : Type 0 where
    pub independent : independent_meters p ≡ true
    pub own_load : IsOwn "grid_load" p.grid_load.snapshot
    pub own_input : IsOwn "grid_input" p.grid_input.snapshot

  -- An announced availability is that of some stream.
  pub record IsSound (p : Publisher V) : Type 0 where
    pub apart : IsKeptApart p
    pub lit : p.online ≡ true → some_up p ≡ true

  -- Of a call so far: without an error the publisher is sound.
  abbrev IsSettling : Publisher V × Option PublishError → Type 0
  IsSettling (p, none) = IsSound p
  IsSettling (p, some e) = IsKeptApart p

  -- What is not about the two meters may change.
  other_fields-IsKeptApart :
      (p : Publisher V)
      → IsKeptApart p
      → (online pending : Bool) (cached_state : Option (Snapshot V))
      → IsKeptApart (record p {
        online = online;
        offline_publish_pending = pending;
        cached_state = cached_state;
      })
  unfolding independent_meters
  other_fields-IsKeptApart p apart online pending cached_state = record {
    independent = apart.independent;
    own_load = apart.own_load;
    own_input = apart.own_input;
  }

  pub inverter-IsKeptApart :
      (p : Publisher V)
      → IsKeptApart p
      → (s : Stream V) (duration : ℤ)
      → IsKeptApart (record p { inverter = s; inverter_duration = duration })
  unfolding independent_meters
  inverter-IsKeptApart p apart s duration = record {
    independent = apart.independent;
    own_load = apart.own_load;
    own_input = apart.own_input;
  }

  pub with_stream-IsKeptApart :
      (meter : Meter) (p : Publisher V) (s : Stream V)
      → IsOwn (group_of meter) s.snapshot
      → IsKeptApart p
      → IsKeptApart (with_stream p meter s)
  unfolding independent_meters
  with_stream-IsKeptApart load_meter p s own apart = record {
    independent = apart.independent;
    own_load = own;
    own_input = apart.own_input;
  }
  with_stream-IsKeptApart input_meter p s own apart = record {
    independent = apart.independent;
    own_load = apart.own_load;
    own_input = own;
  }

  pub stream-IsOwn :
      (meter : Meter) (p : Publisher V)
      → IsKeptApart p
      → IsOwn (group_of meter) (stream p meter).snapshot
  stream-IsOwn load_meter p apart = apart.own_load
  stream-IsOwn input_meter p apart = apart.own_input

  pub publish-IsSettling :
      (p : Publisher V) (attempt : Publication)
      → IsKeptApart p
      → IsSettling (publish_independent p attempt)
  unfolding independent_meters
  publish-IsSettling p (not_cached e) apart = apart
  publish-IsSettling p (cached none) apart = record {
    apart =
        other_fields-IsKeptApart p apart (not (independent_meters p && not (some_up p))) false
          (some (combined p));
    lit = λ on. ground (arith, apart.independent);
  }
  publish-IsSettling p (cached (some e)) apart =
      rw apart.independent
        (other_fields-IsKeptApart p apart (not (not (some_up p))) false (some (combined p)))

  mark-IsSound :
      (p : Publisher V) (pending : Bool)
      → IsKeptApart p
      → IsSound (mark_publication_failure p pending)
  mark-IsSound p pending apart = record {
    apart = other_fields-IsKeptApart p apart false pending p.cached_state;
    lit = λ on. absurd (cc on);
  }

  pub mark_after-IsSound :
      (r : Publisher V × Option PublishError) (write_failed : Bool)
      → IsSettling r
      → IsSound (mark_after write_failed r).0
  mark_after-IsSound (p, none) write_failed sound = sound
  mark_after-IsSound (p, some e) write_failed apart = mark-IsSound p write_failed apart

  pub settle_inverter-IsSound :
      (p : Publisher V) (r : Publisher V × Option PublishError) (write_failed : Bool)
      → IsSettling r
      → IsSound (settle_inverter p write_failed r).0
  settle_inverter-IsSound p (p', none) write_failed sound = sound
  settle_inverter-IsSound p (p', some e) write_failed apart =
      mark-IsSound
        (record p' { inverter = down p.inverter; inverter_duration = p.inverter_duration })
        ((p'.online || p'.offline_publish_pending) && write_failed)
        (inverter-IsKeptApart p' apart (down p.inverter) p.inverter_duration)

  pub settle_meter-IsSound :
      (meter : Meter) (previous : Stream V) (r : Publisher V × Option PublishError)
      (write_failed : Bool)
      → IsOwn (group_of meter) previous.snapshot
      → IsSettling r
      → IsSound (settle_meter meter previous write_failed r).0
  settle_meter-IsSound meter previous (p', none) write_failed own sound = sound
  settle_meter-IsSound meter previous (p', some e) write_failed own apart =
      mark-IsSound (with_stream p' meter (down previous)) write_failed
        (with_stream-IsKeptApart meter p' (down previous) own apart)

  pub refuse-IsSound : (r : Publisher V × Option PublishError) → IsSound r.0 → IsSound (refuse r).0
  refuse-IsSound (p, e) sound = sound

  pub lower-IsSound :
      (meter : Meter) (p : Publisher V) (w : Writes)
      → IsSound p
      → IsSound
          (mark_after w.write_failed
            (publish_independent (with_stream p meter (down (stream p meter))) w.attempt)).0
  lower-IsSound meter p w sound =
      let lowered = with_stream p meter (down (stream p meter)) in
      mark_after-IsSound (publish_independent lowered w.attempt) w.write_failed (
        publish-IsSettling lowered w.attempt (
          with_stream-IsKeptApart meter p (down (stream p meter)) (stream-IsOwn meter p sound.apart)
            sound.apart))
