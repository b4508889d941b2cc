-- ===== src/Shelly/Examples.antt =====
-- One answer of a meter.
use jinko_exporter.Prelude.{ℕ, ◌/◌, ◌≡◌, Option, none, some, List, ok, err}
use jinko_exporter.Prelude.Int.{ℤ, pos}
use jinko_exporter.Model.{Snapshot}
use jinko_exporter.Shelly.Rpc.{no_response, get_rpc}
use jinko_exporter.Shelly.Meter.{
  Phase, Answers, MeterConfig, MeterError, fetch_grid_load, fetch_grid_input,
}
use jinko_exporter.Shelly.Apart.{AreIn, SameReadings, meters-AreApart}

abbrev nothing : Phase ℕ
nothing = record {
  voltage = none;
  current = none;
  active_power = none;
  apparent_power = none;
  power_factor = none;
  frequency = none;
}

abbrev config : MeterConfig
config = record {
  em_id = pos 0;
  em_id_text = "0";
  host = "192.168.1.5";
  metadata_base_url = "http://192.168.1.5";
}

abbrev no_code : List ℕ → Option (Option ℤ)
no_code body = none

abbrev answers : Answers ℕ
answers = record {
  em = ok (record {
    id = some (pos 0);
    a = record nothing { voltage = some 230; active_power = some 500 };
    b = nothing;
    c = nothing;
    n_current = none;
    total_current = none;
    total_active_power = some 500;
    total_apparent_power = none;
  });
  em_data = ok (record {
    id = some (pos 0);
    a_total = none;
    a_returned = none;
    b_total = none;
    b_returned = none;
    c_total = none;
    c_returned = none;
    total = some 120000;
    returned = none;
  });
  temperature = get_rpc no_code (λ body. none) no_response;
  now = pos 5;
}

abbrev thousandth : ℕ → ℕ
thousandth n = n / 1000

meters-AreApart_example :
    ((e : MeterError)
      → fetch_grid_load thousandth config answers ≡ err e
      → fetch_grid_input thousandth config answers ≡ err e)
    × ((s : Snapshot ℕ)
        → fetch_grid_load thousandth config answers ≡ ok s
        → AreIn "grid_load" s.metrics
          × (s.source ≡ "shelly_grid_load")
          × ((s' : Snapshot ℕ) × (fetch_grid_input thousandth config answers ≡ ok s')
              × AreIn "grid_input" s'.metrics
              × SameReadings s.metrics s'.metrics
              × (s'.source ≡ "shelly_grid_input")))
meters-AreApart_example = meters-AreApart thousandth config answers
