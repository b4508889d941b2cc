-- ===== src/Model/Freshness.antt =====
-- bridge/internal/model/freshness.go: when a measurement may be published.
use jinko_exporter.Prelude.{
  ℕ, zero, suc, ◌≡◌, refl, ◌↔◌, ◌||◌, not, true, if◌then◌else◌, arith, Result, ok, err, ◌>>◌,
  reject,
}
use jinko_exporter.Prelude.Int.{ℤ, pos, negsuc, ltb_ℤ, ◌≤ℤ◌, ◌+ℤ◌, ◌-ℤ◌, +ℤ_parts, -ℤ_parts}

pub data CollectionError : Type 0 where
  negative_max_age invalid_time future_time stale_time : CollectionError

-- time.Second, DefaultMaxDataAge and MaxCollectionFutureSkew
abbrev pub second : ℕ
second = 1000000000

abbrev pub default_max_data_age : ℤ
default_max_data_age = pos 900000000000

abbrev pub max_collection_future_skew : ℤ
max_collection_future_skew = pos 60000000000

-- The largest and the smallest time.Duration, at which `Sub` saturates.
abbrev pub max_duration : ℤ
max_duration = pos 9223372036854775807

abbrev pub min_duration : ℤ
min_duration = negsuc 9223372036854775807

unfoldable pub time_sub : ℤ → ℤ → ℤ
time_sub t u =
    if ltb_ℤ max_duration (t -ℤ u)
    then max_duration
    else if ltb_ℤ (t -ℤ u) min_duration
    then min_duration
    else t -ℤ u

-- The first nanosecond with a positive Unix second, and the first of the year 10000.
abbrev pub first_second : ℤ
first_second = pos 1000000000

abbrev pub year_10000 : ℤ
year_10000 = pos 253402300800000000000

abbrev pub effective_max_age : ℤ → ℤ
effective_max_age (pos zero) = default_max_data_age
effective_max_age (pos (suc n)) = pos (suc n)
effective_max_age (negsuc n) = negsuc n

-- `IsZero` is year 1, below `first_second`, so the test of the Unix second covers it.
unfoldable pub validate_with_age : ℤ → ℤ → ℤ → Result CollectionError Unit
validate_with_age collected_at now max_age = do
  reject (ltb_ℤ max_age (pos 0)) negative_max_age
  reject (ltb_ℤ collected_at first_second || not (ltb_ℤ collected_at year_10000)) invalid_time
  reject (ltb_ℤ (now +ℤ max_collection_future_skew) collected_at) future_time
  reject (ltb_ℤ max_age (time_sub now collected_at)) stale_time
  ok tt

unfoldable pub validate_collection_time : ℤ → ℤ → ℤ → Result CollectionError Unit
validate_collection_time collected_at now max_age =
    validate_with_age collected_at now (effective_max_age max_age)

module _ (collected now age : ℤ) where
  accepted_age :
      ltb_ℤ age max_duration ≡ true
      → validate_with_age collected now age ≡ ok tt
      → (pos 0 ≤ℤ age)
        × (first_second ≤ℤ collected)
        × (ltb_ℤ collected year_10000 ≡ true)
        × (collected ≤ℤ now +ℤ max_collection_future_skew)
        × (now ≤ℤ collected +ℤ age)
  unfolding validate_with_age time_sub
  accepted_age h passed = ground (arith, -ℤ_parts now collected, +ℤ_parts collected age)

  accepts_age :
      (pos 0 ≤ℤ age)
      → (first_second ≤ℤ collected)
      → ltb_ℤ collected year_10000 ≡ true
      → (collected ≤ℤ now +ℤ max_collection_future_skew)
      → (now ≤ℤ collected +ℤ age)
      → validate_with_age collected now age ≡ ok tt
  unfolding validate_with_age time_sub
  accepts_age a b c d e = ground (arith, -ℤ_parts now collected, +ℤ_parts collected age)

effective-lt_max :
    (max_age : ℤ)
    → ltb_ℤ max_age max_duration ≡ true
    → ltb_ℤ (effective_max_age max_age) max_duration ≡ true
effective-lt_max (pos zero) h = refl
effective-lt_max (pos (suc n)) h = h
effective-lt_max (negsuc n) h = h

-- For a maximum age below the largest duration, a collection time is accepted exactly when the age
-- (the default for 0) is not negative, the time lies after the first second of 1970 and before the
-- year 10000, at most a minute ahead of the clock, and at most that age behind it.
pub accepted_exactly :
    (collected now max_age : ℤ)
    → ltb_ℤ max_age max_duration ≡ true
    → (validate_collection_time collected now max_age ≡ ok tt) ↔ (
        (pos 0 ≤ℤ effective_max_age max_age)
        × (first_second ≤ℤ collected)
        × (ltb_ℤ collected year_10000 ≡ true)
        × (collected ≤ℤ now +ℤ max_collection_future_skew)
        × (now ≤ℤ collected +ℤ effective_max_age max_age))
unfolding validate_collection_time
accepted_exactly collected now max_age h =
    let age = effective_max_age max_age in
    (
      accepted_age collected now age (effective-lt_max max_age h),
      λ (a, b, c, d, e). accepts_age collected now age a b c d e,
    )

stale_age :
    (collected now later age : ℤ)
    → now ≤ℤ later
    → validate_with_age collected now age ≡ err stale_time
    → validate_with_age collected later age ≡ err stale_time
unfolding validate_with_age time_sub
stale_age collected now later age h stale = ground (
  arith,
  -ℤ_parts now collected,
  -ℤ_parts later collected,
  +ℤ_parts now max_collection_future_skew,
  +ℤ_parts later max_collection_future_skew,
)

-- Once a collection time is too old it stays too old at every later clock reading: a cached response
-- cannot become fresh again.
stale_forever :
    (collected now later max_age : ℤ)
    → now ≤ℤ later
    → validate_collection_time collected now max_age ≡ err stale_time
    → validate_collection_time collected later max_age ≡ err stale_time
unfolding validate_collection_time
stale_forever collected now later max_age h stale =
    stale_age collected now later (effective_max_age max_age) h stale
