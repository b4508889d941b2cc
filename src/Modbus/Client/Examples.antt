-- ===== src/Modbus/Client/Examples.antt =====
-- A whole fetch against a logger that answers every read.
use jinko_exporter.Prelude.{ℕ, List, [], ◌∷◌, arith, some, none, true, false}
use jinko_exporter.Prelude.Int.{pos}
use jinko_exporter.Modbus.Profile.{
  ReadId, device_type_read, capability_read, battery_temperature_read, inverter_temperature_read,
  approved_read_spec,
}
use jinko_exporter.Modbus.Protocol.Response.{response_frame}
use jinko_exporter.Modbus.Bytes.{tabulate}
use jinko_exporter.Modbus.Transport.{Io}
use jinko_exporter.Modbus.Client.Fetch.{Client, Network, fetch}
use jinko_exporter.Modbus.Client.Sends.{fetch_frames, SendsFront, fetch_sends_plan}
use jinko_exporter.Modbus.Client.Cache.{CacheIsSupported, Caches, PublishesCached, fetch-Caches}

abbrev words_of : ReadId → ℕ → List ℕ
words_of device_type_read n = 6 ∷ []
words_of capability_read n = 0xD4C0 ∷ 1 ∷ 0x0203 ∷ []
words_of battery_temperature_read n = 1250 ∷ []
words_of inverter_temperature_read n = 1400 ∷ 1410 ∷ []
words_of _ n = tabulate n (λ i. 0)

abbrev answer : ReadId → Io
answer id = record {
  ctx_before = none;
  ctx_after = none;
  written = 36;
  write_error = none;
  arrived = elim (approved_read_spec id) [
    | none ↦ []
    | some spec ↦ response_frame spec 305419896 1 9 (λ i. 7) (words_of id spec.quantity)
  ];
}

abbrev network : Network
network = record {
  has_context = true;
  gate = none;
  opening = record {
    has_context = true;
    has_deadline = true;
    has_dialer = true;
    ctx_before = none;
    dial_ok = true;
    ctx_after = none;
    has_keep_alive = true;
    keep_alive_ok = true;
    deadline_ok = true;
  };
  io = answer;
  ctx_commit = none;
  ctx_complete = none;
  ctx_end = none;
  clock = λ m. pos 1700000000000000000;
}

abbrev client : Client
client = record {
  device_sn = "SN1";
  logger_serial_text = "305419896";
  logger_serial = 305419896;
  metadata_enabled = false;
  validation_evidence_enabled = true;
  capabilities = none;
  metadata = [];
}

fetch_sends_plan_example : SendsFront (fetch_frames client) (fetch client network)
fetch_sends_plan_example = fetch_sends_plan client network (omega arith) (omega arith)

abbrev cached_client : Client
cached_client = record client {
  capabilities = some (record { rated_power_w = pos 1200000; mppt_count = 2; phase_count = 3 });
}

cached_client-IsSupported : CacheIsSupported cached_client
cached_client-IsSupported c e = ground arith

fetch-Caches_example :
    let f = fetch cached_client network in
    Caches cached_client f.client × CacheIsSupported f.client × PublishesCached f
fetch-Caches_example = fetch-Caches cached_client network cached_client-IsSupported
