-- ===== src/Model/Examples.antt =====
-- A fresh and a stale collection time.
use jinko_exporter.Prelude.{◌≡◌, refl, ◌↔◌, true, ok, err}
use jinko_exporter.Prelude.Int.{ℤ, pos, ◌≤ℤ◌, ◌+ℤ◌, ◌-ℤ◌, ltb_ℤ}
use jinko_exporter.Model.Freshness.{
  validate_collection_time, validate_with_age, time_sub, effective_max_age, stale_time,
  first_second, year_10000, max_collection_future_skew, accepted_exactly,
}

-- 2026-01-01, ten minutes later and half an hour later
abbrev collected : ℤ
collected = pos 1767225600000000000

abbrev ten_minutes_later : ℤ
ten_minutes_later = pos 1767226200000000000

abbrev half_an_hour_later : ℤ
half_an_hour_later = pos 1767227400000000000

accepted_exactly_example :
    (validate_collection_time collected ten_minutes_later (pos 0) ≡ ok tt) ↔ (
      (pos 0 ≤ℤ effective_max_age (pos 0))
      × (first_second ≤ℤ collected)
      × (ltb_ℤ collected year_10000 ≡ true)
      × (collected ≤ℤ ten_minutes_later +ℤ max_collection_future_skew)
      × (ten_minutes_later ≤ℤ collected +ℤ effective_max_age (pos 0)))
accepted_exactly_example = accepted_exactly collected ten_minutes_later (pos 0) refl

stale_now : validate_collection_time collected half_an_hour_later (pos 0) ≡ err stale_time
unfolding validate_collection_time validate_with_age time_sub ◌+ℤ◌ ◌-ℤ◌
stale_now = refl
