-- ===== src/HomeAssistant/Streams.antt =====
-- publisher.go, grid_load.go: the three streams of a publisher and the calls of their observers. A
-- call's writes enter as values: what `publishSnapshotLocked` met and whether a write of the
-- availability failed.
pub mod Calls
pub mod Combined
pub mod Sound
use Prim.Native.String.{String}
use mathlib.Core.List.{◌++◌ as append}
use jinko_exporter.Prelude.{
  ℕ, Bool, true, false, ◌&&◌, ◌||◌, not, Option, none, some, List, [], ◌∷◌, if◌then◌else◌,
}
use jinko_exporter.Prelude.Int.{ℤ}
use jinko_exporter.Model.{Metric, Snapshot, zero_time}
use jinko_exporter.HomeAssistant.Ids.{is_group, is_meta_key}

unfoldable pub filter : {A : Type 0} → (A → Bool) → List A → List A
filter keep [] = []
filter keep (x ∷ xs) = let rest = filter keep xs in if keep x then x ∷ rest else rest

pub data Meter : Type 0 where
  load_meter input_meter : Meter

abbrev pub group_of : Meter → String
group_of load_meter = "grid_load"
group_of input_meter = "grid_input"

-- The error of a call; the text of an error of the file or the broker is a number.
pub data PublishError : Type 0 where
  from_another_stream : PublishError
  publication_failed : ℕ → PublishError

-- How far `publishSnapshotLocked` came: an error before the state is cached, or what the writes to
-- the broker after that met.
pub data Publication : Type 0 where
  not_cached : ℕ → Publication
  cached : Option ℕ → Publication

abbrev pub is_own_meta : String → String × String → Bool
is_own_meta group (key, value) = is_meta_key group key

abbrev pub grid_meter_metadata : List (String × String) → String → List (String × String)
grid_meter_metadata meta group = filter (is_own_meta group) meta

-- After the broker's error, a publisher without meters returns nil.
abbrev pub broker_error : Bool → Option ℕ → Option PublishError
broker_error independent none = none
broker_error true (some e) = some (publication_failed e)
broker_error false (some e) = none

module _ (V : Type 0) where
  pub record Stream : Type 0 where
    pub snapshot : Option (Snapshot V)
    pub up : Bool
    pub published_at : String

  pub record Publisher : Type 0 where
    pub primary_source : String
    pub closing : Bool
    pub closed : Bool
    pub online : Bool
    pub offline_publish_pending : Bool
    pub independent_grid_load : Bool
    pub independent_grid_input : Bool
    pub inverter : Stream
    pub inverter_duration : ℤ
    pub grid_load : Stream
    pub grid_input : Stream
    pub cached_state : Option (Snapshot V)

module _ {V : Type 0} where
  unfoldable pub independent_meters : Publisher V → Bool
  independent_meters p = p.independent_grid_load || p.independent_grid_input

  -- Of a metric, by its group, and of a key of the metadata.
  unfoldable pub owns_independent_metric : Publisher V → Metric V → Bool
  owns_independent_metric p m =
      (p.independent_grid_load && is_group "grid_load" m.group)
      || (p.independent_grid_input && is_group "grid_input" m.group)

  unfoldable pub owns_independent_meta : Publisher V → String × String → Bool
  owns_independent_meta p (key, value) =
      (p.independent_grid_load && is_meta_key "grid_load" key)
      || (p.independent_grid_input && is_meta_key "grid_input" key)

  abbrev pub stream : Publisher V → Meter → Stream V
  stream p load_meter = p.grid_load
  stream p input_meter = p.grid_input

  abbrev pub with_stream : Publisher V → Meter → Stream V → Publisher V
  with_stream p load_meter s = record p { grid_load = s }
  with_stream p input_meter s = record p { grid_input = s }

  abbrev pub no_reading : String → Snapshot V
  no_reading source = record {
    source = source;
    device_sn = "";
    parent_sn = "";
    device_id = "";
    site_id = "";
    collected_at = zero_time;
    metrics = [];
    meta = [];
    modbus_evidence = none;
  }

  abbrev pub not_owned : Publisher V → Metric V → Bool
  not_owned p m = not (owns_independent_metric p m)

  abbrev pub not_owned_meta : Publisher V → String × String → Bool
  not_owned_meta p entry = not (owns_independent_meta p entry)

  unfoldable pub combine_inverter : Publisher V → Snapshot V
  combine_inverter p = elim p.inverter.snapshot [
    | none ↦ no_reading p.primary_source
    | some s ↦ record s {
      metrics = if p.inverter.up then filter (not_owned p) s.metrics else [];
      meta = filter (not_owned_meta p) s.meta;
    }
  ]

  -- Its snapshot, while the meter is observed on its own and up.
  unfoldable pub while_up : Bool → Stream V → Option (Snapshot V)
  while_up enabled s = if enabled && s.up then s.snapshot else none

  -- A copied entry stands in front of the ones it replaces.
  unfoldable pub add_meter : String → Option (Snapshot V) → Snapshot V → Snapshot V
  add_meter group none combined = combined
  add_meter group (some s) combined = record combined {
    metrics = append combined.metrics s.metrics;
    meta = append (grid_meter_metadata s.meta group) combined.meta;
  }

  -- The snapshot that `publishIndependentLocked` puts together.
  unfoldable pub combined : Publisher V → Snapshot V
  combined p =
      add_meter "grid_input" (while_up p.independent_grid_input p.grid_input)
        (add_meter "grid_load" (while_up p.independent_grid_load p.grid_load) (combine_inverter p))

  abbrev pub some_up : Publisher V → Bool
  some_up p = p.inverter.up || p.grid_load.up || p.grid_input.up

  abbrev pub publish_snapshot :
      Publisher V → Snapshot V → Publication → Publisher V × Option PublishError
  publish_snapshot p s (not_cached e) = (p, some (publication_failed e))
  publish_snapshot p s (cached e) = (
    record p {
      cached_state = some s;
      online = not (independent_meters p && not (some_up p));
      offline_publish_pending = false;
    },
    broker_error (independent_meters p) e,
  )

  abbrev pub publish_independent : Publisher V → Publication → Publisher V × Option PublishError
  publish_independent p attempt = publish_snapshot p (combined p) attempt

  abbrev pub mark_publication_failure : Publisher V → Bool → Publisher V
  mark_publication_failure p write_failed = record p {
    online = false;
    offline_publish_pending = write_failed;
  }

  -- The deferred function of `OnPollSuccess` after an error.
  abbrev pub mark_invalid_poll : Publisher V → Bool → Publisher V
  mark_invalid_poll p write_failed = record p {
    online = false;
    offline_publish_pending = (p.online || p.offline_publish_pending) && write_failed;
  }
