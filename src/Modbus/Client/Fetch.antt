-- ===== src/Modbus/Client/Fetch.antt =====
-- client.go: one fetch, with the cache of the profile gates and of the metadata.
use Prim.Native.String.{String}
use jinko_exporter.Prelude.{
  ℕ, ◌/◌, Bool, true, false, not, Option, none, some, List, [], ◌∷◌, if◌then◌else◌, Result, ok, err,
}
use mathlib.Core.List.{◌++◌ as append}
use jinko_exporter.Prelude.Digits.{decimal}
use jinko_exporter.Prelude.Int.{ℤ, pos_part}
use jinko_exporter.Prelude.Text.{trim_space}
use jinko_exporter.Model.{ModbusEvidence, Snapshot}
use jinko_exporter.Modbus.Profile.{
  ReadId, modbus_unit_id, bms_mirrors_read, relay_status_read, warning_fault_read, run_state_read,
}
use jinko_exporter.Modbus.Decode.Words.{word_at}
use jinko_exporter.Modbus.Decode.Gates.{ProfileCapabilities}
use jinko_exporter.Modbus.Transport.{ContextError, ReadSession, Io, complete}
use jinko_exporter.Modbus.Transport.Plan.{OpenIo, open_read_session}
use jinko_exporter.Modbus.Client.Program.{
  FetchError, no_fetch_context, context_ended, open_failed, complete_failed, Program, pure, lift,
  ◌>>=◌, ◌>>◌,
}
use jinko_exporter.Modbus.Client.Readings.{
  Readings, validate_profile, read_metadata, read_measurements,
}
use jinko_exporter.Modbus.Client.Metrics.{snapshot_metrics}

-- The client's configuration and what it has cached. A nil map of metadata is empty.
pub record Client : Type 0 where
  pub device_sn : String
  pub logger_serial_text : String
  pub logger_serial : ℕ
  pub metadata_enabled : Bool
  pub validation_evidence_enabled : Bool
  pub capabilities : Option ProfileCapabilities
  pub metadata : List (String × String)

-- When a fetch reads the wall clock.
pub data Moment : Type 0 where
  started collected : Moment
  before after : ReadId → Moment

-- What one fetch meets: whether it has a context, whether that ended while the fetch waited for the
-- one in front of it, the opening of the session, the network during each read, `ctx.Err()` before
-- the cache is filled, at `complete` and at the end, and the clock.
pub record Network : Type 0 where
  pub has_context : Bool
  pub gate : Option ContextError
  pub opening : OpenIo
  pub io : ReadId → Io
  pub ctx_commit : Option ContextError
  pub ctx_complete : Option ContextError
  pub ctx_end : Option ContextError
  pub clock : Moment → ℤ

abbrev pub live : Option ContextError → Result FetchError Unit
live none = ok tt
live (some e) = err (context_ended e)

abbrev pub is_missing : Option ProfileCapabilities → Bool
is_missing none = true
is_missing (some c) = false

-- The gates and the metadata are read together when nothing is cached.
unfoldable pub acquire : Network → Bool → Program (ProfileCapabilities × List (String × String))
acquire n metadata_enabled = do
  capabilities ← validate_profile n.io
  metadata ← if metadata_enabled then read_metadata n.io else pure []
  lift (live n.ctx_commit)
  pure (capabilities, metadata)

unfoldable pub complete_session : Option ContextError → Program Unit
complete_session ctx s =
    let (s', r) = complete s ctx in
    elim r [ err e ↦ (s', err (complete_failed e)) | ok _ ↦ (s', ok tt) ]

-- The labels of a snapshot; the entry in front counts where a key stands twice.
unfoldable pub snapshot_meta : ProfileCapabilities → List (String × String) → List (String × String)
snapshot_meta c metadata = append metadata (
    ("profile", "jks-6-20h-ei-readonly-v1")
    ∷ ("transport", "solarman-v5-over-tcp")
    ∷ ("modbus_function", "03")
    ∷ ("device_type_code", "0x0006")
    ∷ ("rated_power_w", decimal (pos_part c.rated_power_w / 100))
    ∷ ("mppt_count", decimal c.mppt_count)
    ∷ ("phase_count", decimal c.phase_count)
    ∷ [])

unfoldable pub fetch_evidence : (Moment → ℤ) → Readings → ModbusEvidence
fetch_evidence clock r = record {
  started_at = clock started;
  finished_at = clock collected;
  bms_words = r.battery.bms_words;
  bms_window = record {
    started_at = clock (before bms_mirrors_read);
    finished_at = clock (after bms_mirrors_read);
  };
  relay_words = r.status.relay_words;
  relay_window = record {
    started_at = clock (before relay_status_read);
    finished_at = clock (after relay_status_read);
  };
  alert_words = r.status.alert_words;
  alert_window = record {
    started_at = clock (before warning_fault_read);
    finished_at = clock (after warning_fault_read);
  };
  run_state = word_at r.status.run_state_words 0;
  run_state_window = record {
    started_at = clock (before run_state_read);
    finished_at = clock (after run_state_read);
  };
}

-- From the first read that every fetch makes to the snapshot.
unfoldable pub publish : Client → ProfileCapabilities → Network → Program (Snapshot ℤ)
publish c capabilities n = do
  readings ← read_measurements n.io capabilities.rated_power_w
  metrics ← lift (snapshot_metrics capabilities.rated_power_w readings)
  complete_session n.ctx_complete
  lift (live n.ctx_end)
  pure (record {
    source = "modbus";
    device_sn = trim_space c.device_sn;
    parent_sn = trim_space c.logger_serial_text;
    device_id = "";
    site_id = "";
    collected_at = n.clock collected;
    metrics = metrics;
    meta = snapshot_meta capabilities c.metadata;
    modbus_evidence =
        if c.validation_evidence_enabled then some (fetch_evidence n.clock readings) else none;
  })

-- The client afterwards, the frames that were sent, and the snapshot or the error.
pub record Fetched : Type 0 where
  pub client : Client
  pub sent : List (List ℕ)
  pub result : Result FetchError (Snapshot ℤ)

abbrev pub fetched : Client → ReadSession × Result FetchError (Snapshot ℤ) → Fetched
fetched c (s, r) = record { client = c; sent = s.conn.sent; result = r }

abbrev pub not_sent : Client → FetchError → Fetched
not_sent c e = record { client = c; sent = []; result = err e }

-- On an open session: what is cached is used, and an acquisition is cached before the rest is read.
unfoldable pub fetch_cached : Client → Network → Option ProfileCapabilities → ReadSession → Fetched
fetch_cached c n (some capabilities) s = fetched c (publish c capabilities n s)
fetch_cached c n none s =
    let (s', r) = acquire n c.metadata_enabled s in
    elim r [
      | err e ↦ fetched c (s', err e)
      | ok (capabilities, metadata) ↦
          let c' = record c { capabilities = some capabilities; metadata = metadata } in
          fetched c' (publish c' capabilities n s')
    ]

unfoldable pub fetch : Client → Network → Fetched
fetch c n = if not n.has_context then not_sent c no_fetch_context else elim n.gate [
  | some e ↦ not_sent c (context_ended e)
  | none ↦
      elim (open_read_session n.opening c.logger_serial modbus_unit_id (is_missing c.capabilities)
        c.metadata_enabled).result [
          | err e ↦ not_sent c (open_failed e)
          | ok s ↦ fetch_cached c n c.capabilities s
        ]
]
