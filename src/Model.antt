-- ===== src/Model.antt =====
-- bridge/internal/model: metrics, snapshots and the raw evidence of a fetch. The value of a metric is
-- a float64, which stays a parameter `V`; a time is its number of nanoseconds since 1970.
pub mod Freshness
mod Examples
use Prim.Native.String.{String}
use jinko_exporter.Prelude.{ℕ, Option, List}
use jinko_exporter.Prelude.Int.{ℤ, negsuc}

-- The zero time.Time is the start of the year 1.
abbrev pub zero_time : ℤ
zero_time = negsuc 62135596799999999999

pub record Metric (V : Type 0) : Type 0 where
  pub group : String
  pub key : String
  pub name : String
  pub unit : String
  pub value : V

pub record ModbusReadWindow : Type 0 where
  pub started_at : ℤ
  pub finished_at : ℤ

pub record ModbusEvidence : Type 0 where
  pub started_at : ℤ
  pub finished_at : ℤ
  pub bms_words : List ℕ
  pub bms_window : ModbusReadWindow
  pub relay_words : List ℕ
  pub relay_window : ModbusReadWindow
  pub alert_words : List ℕ
  pub alert_window : ModbusReadWindow
  pub run_state : ℕ
  pub run_state_window : ModbusReadWindow

pub record Snapshot (V : Type 0) : Type 0 where
  pub source : String
  pub device_sn : String
  pub parent_sn : String
  pub device_id : String
  pub site_id : String
  pub collected_at : ℤ
  pub metrics : List (Metric V)
  pub meta : List (String × String)
  pub modbus_evidence : Option ModbusEvidence
