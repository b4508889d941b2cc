-- ===== src/Source/Correlation/Evidence/Labels.antt =====
-- What of a cloud's answer can reach the log.
use Prim.Native.Char.{code}
use Prim.Native.String.{String, len}
use mathlib.Core.List.{Memᴰ}
use mathlib.Core.Path.{subst}
use jinko_exporter.Prelude.{
  ℕ, zero, suc, ◌≡◌, refl, ◌⊎◌, inl, inr, Bool, true, false, Option, none, some, List, [], ◌∷◌,
  length, take, length-take, ◌≤◌, All, Option-cases, Bool-cases, Result, ok, err, arith,
}
use jinko_exporter.Prelude.Int.{ℤ}
use jinko_exporter.Prelude.Text.{=$_iff, is_empty, trim_space}
use jinko_exporter.Model.{Metric, Snapshot}
use jinko_exporter.Source.Correlation.Worker.{
  MetricIdentity, find_identity, clone_ordinary_metric_keys,
}
use jinko_exporter.Source.Correlation.Evidence.OrdinaryKeys.{HasNames, snapshot-Says}
use jinko_exporter.Source.Correlation.Evidence.{
  CorrelationMetric, Values, FetchFault, is_canonical_correlation_alert_key, evidence_identity,
  has_safe_labels, safe_characters, safe_evidence_label, sanitize_metric, sanitize_metrics,
  insert_metric, sort_metrics, metric_less, snapshot_evidence, snapshot_fault,
  fetch_alert_correlation_evidence, max_correlation_evidence_metrics,
}

-- The four alerts of the lithium battery.
abbrev pub IsLithiumKey : String → Type 0
IsLithiumKey key = (key ≡ "L_B_A_F") ⊎ (key ≡ "L_B_F_F") ⊎ (key ≡ "L_B_A_F2") ⊎ (key ≡ "L_B_F_F2")

-- A letter, a digit or an underscore; in a unit also one of the characters %/.-, a degree sign or a
-- degree Celsius.
abbrev pub IsHarmless : Bool → ℕ → Type 0
IsHarmless in_unit c =
    ((65 ≤ c) × (c ≤ 90))
    ⊎ ((97 ≤ c) × (c ≤ 122))
    ⊎ ((48 ≤ c) × (c ≤ 57))
    ⊎ (c ≡ 95)
    ⊎ ((in_unit ≡ true) × ((c ≡ 37) ⊎ (c ≡ 47) ⊎ (c ≡ 46) ⊎ (c ≡ 45) ⊎ (c ≡ 0xB0) ⊎ (c ≡ 0x2103)))

abbrev pub AreHarmless : Bool → String → Type 0
AreHarmless in_unit String.[] = Unit
AreHarmless in_unit (String.◌∷◌ c s) = IsHarmless in_unit (code c) × AreHarmless in_unit s

-- A text of bounded length and of harmless characters.
abbrev pub IsLabel : ℕ → Bool → String → Type 0
IsLabel max_bytes in_unit s = (len s ≤ max_bytes) × AreHarmless in_unit s

-- A metric that may be logged: a lithium alert without a unit, or one under the key, the group and the
-- unit of a metric of the Modbus snapshot; and with harmless labels.
abbrev pub IsShareable : {V : Type 0} → List (Metric ℤ) → CorrelationMetric V → Type 0
IsShareable modbus m =
    ((m.group ≡ "alert") × (m.unit ≡ "") × IsLithiumKey m.key
      ⊎ ((o : Metric ℤ) × Memᴰ o modbus × HasNames m.key m.group m.unit o))
    × IsLabel 32 false m.group
    × IsLabel 64 false m.key
    × IsLabel 16 true m.unit

lithium_key : (key : String) → is_canonical_correlation_alert_key key ≡ true → IsLithiumKey key
unfolding is_canonical_correlation_alert_key
lithium_key key h = ground (
  arith,
  h,
  =$_iff key "L_B_A_F",
  =$_iff key "L_B_F_F",
  =$_iff key "L_B_A_F2",
  =$_iff key "L_B_F_F2",
)

safe-AreHarmless :
    (in_unit : Bool) (s : String) → safe_characters in_unit s ≡ true → AreHarmless in_unit s
unfolding safe_characters
safe-AreHarmless in_unit String.[] h = tt
safe-AreHarmless in_unit (String.◌∷◌ c s) h =
    (ground (arith, h), safe-AreHarmless in_unit s (ground (arith, h)))

safe-IsLabel :
    (s : String) (max_bytes : ℕ) (in_unit : Bool)
    → safe_evidence_label s max_bytes in_unit ≡ true
    → IsLabel max_bytes in_unit s
unfolding safe_evidence_label
safe-IsLabel s max_bytes in_unit h =
    (ground (arith, h), safe-AreHarmless in_unit s (ground (arith, h)))

empty_is : (s : String) → is_empty s ≡ true → s ≡ ""
empty_is String.[] h = refl
empty_is (String.◌∷◌ c s) h = absurd (ground arith)

module _ {V : Type 0} (values : Values V) (modbus : List (Metric ℤ)) where
  abbrev keys : List (String × MetricIdentity)
  keys = clone_ordinary_metric_keys [] modbus

  abbrev AllowedIdentity : Metric V → MetricIdentity → Type 0
  AllowedIdentity m i =
      (i.group ≡ "alert")
        × (i.unit ≡ "")
        × (is_canonical_correlation_alert_key (trim_space m.key) ≡ true)
      ⊎ (find_identity keys (trim_space m.key) ≡ some i)

  identity_allowed :
      (m : Metric V) (i : MetricIdentity) → evidence_identity keys m ≡ some i → AllowedIdentity m i
  unfolding evidence_identity
  identity_allowed m i h =
      ground (arith, =$_iff (trim_space m.group) "alert", empty_is (trim_space m.unit))

  -- The metric that the labels of `m` and an identity make.
  abbrev labelled : MetricIdentity → String → V → CorrelationMetric V
  labelled i key v = record { group = i.group; key = key; unit = i.unit; value = v }

  labelled-IsShareable :
      (m : Metric V) (i : MetricIdentity) (v : V)
      → AllowedIdentity m i
      → has_safe_labels i (trim_space m.key) ≡ true
      → IsShareable modbus (labelled i (trim_space m.key) v)
  unfolding has_safe_labels
  labelled-IsShareable m i v allowed safe = (
    elim allowed [
      | inl (group, unit, key) ↦ inl (group, unit, lithium_key (trim_space m.key) key)
      | inr found ↦ inr (snapshot-Says modbus (trim_space m.key) i found)
    ],
    safe-IsLabel i.group 32 false (ground (arith, safe)),
    safe-IsLabel (trim_space m.key) 64 false (ground (arith, safe)),
    safe-IsLabel i.unit 16 true (ground (arith, safe)),
  )

  metric-IsShareable :
      (m : Metric V) (safe : CorrelationMetric V)
      → sanitize_metric values keys m ≡ some safe
      → IsShareable modbus safe
  unfolding sanitize_metric
  metric-IsShareable m safe h = elim (Option-cases (evidence_identity keys m)) [
    | inl absent ↦ absurd (ground arith)
    | inr (i, found) ↦ elim (Bool-cases (has_safe_labels i (trim_space m.key))) [
      | inr unsafe ↦ absurd (ground (arith, found, unsafe))
      | inl fine ↦
          let same : labelled i (trim_space m.key) (values.plain_zero m.value) ≡ safe =
            ground (arith, found, fine) in
          subst (IsShareable modbus) same
            (labelled-IsShareable m i (values.plain_zero m.value) (identity_allowed m i found) fine)
    ]
  ]

module _ {V : Type 0} (values : Values V) (P : CorrelationMetric V → Type 0) where
  insert-All :
      (m : CorrelationMetric V) (sorted : List (CorrelationMetric V))
      → P m
      → All P sorted
      → All P (insert_metric values m sorted)
  unfolding insert_metric
  insert-All m [] h all = (h, tt)
  insert-All m (other ∷ sorted) h (k, all) = elim (Bool-cases (metric_less values other m)) [
    | inl later ↦ rw (later, insert_metric) (k, insert-All m sorted h all)
    | inr earlier ↦ rw (earlier, insert_metric) (h, (k, all))
  ]

  sort-All :
      (metrics : List (CorrelationMetric V)) → All P metrics → All P (sort_metrics values metrics)
  unfolding sort_metrics
  sort-All [] all = tt
  sort-All (m ∷ metrics) (h, all) =
      insert-All m (sort_metrics values metrics) h (sort-All metrics all)

  take-All : (n : ℕ) (metrics : List (CorrelationMetric V)) → All P metrics → All P (take n metrics)
  take-All zero metrics all = tt
  take-All (suc n) [] all = tt
  take-All (suc n) (m ∷ metrics) (h, all) = (h, take-All n metrics all)

module _ {V : Type 0} (values : Values V) (modbus : List (Metric ℤ)) where
  sanitized-AreShareable :
      (metrics : List (Metric V))
      → All (IsShareable modbus) (sanitize_metrics values (keys values modbus) metrics)
  unfolding sanitize_metrics
  sanitized-AreShareable [] = tt
  sanitized-AreShareable (m ∷ metrics) =
      elim (Option-cases (sanitize_metric values (keys values modbus) m)) [
        | inl dropped ↦ rw (dropped, sanitize_metrics) (sanitized-AreShareable metrics)
        | inr (safe, kept) ↦
            rw (kept, sanitize_metrics)
              (metric-IsShareable values modbus m safe kept, sanitized-AreShareable metrics)
      ]

module _ {V : Type 0} (values : Values V) (digest : List (CorrelationMetric V) → String) where
  -- Whatever a cloud answers to a job that was made of the metrics of a Modbus snapshot: its evidence
  -- holds at most 256 metrics, and each of them is either one of the four lithium alerts without a
  -- unit, or has the key, the group and the unit of a metric of that snapshot; and its labels have at
  -- most 32, 64 and 16 bytes and are of letters, digits and underscores, in a unit also of %, /, ., -
  -- and the degree signs. The evidence carries the name of its source.
  pub evidence-AreShareable :
      (name device_sn : String) (modbus : List (Metric ℤ)) (now : ℤ)
      (fetched : Result FetchFault (Option (Snapshot V)))
      → let e =
          fetch_alert_correlation_evidence values digest name device_sn
            (clone_ordinary_metric_keys [] modbus)
            now
            fetched in
        All (IsShareable modbus) e.metrics
        × (length e.metrics ≤ max_correlation_evidence_metrics)
        × (length e.metrics ≤ e.total_metric_count)
        × (e.source ≡ name)
  unfolding fetch_alert_correlation_evidence snapshot_evidence
  evidence-AreShareable name device_sn modbus now (err e) = (tt, omega arith, omega arith, refl)
  evidence-AreShareable name device_sn modbus now (ok none) = (tt, omega arith, omega arith, refl)
  evidence-AreShareable name device_sn modbus now (ok (some s)) =
      let sorted =
        sort_metrics values
          (sanitize_metrics values (clone_ordinary_metric_keys [] modbus) s.metrics) in
      elim (Option-cases (snapshot_fault name device_sn now s)) [
        | inr (status, fault) ↦ rw (fault, snapshot_evidence) (tt, omega arith, omega arith, refl)
        | inl clean ↦
            rw (clean, snapshot_evidence)
              (
                take-All values (IsShareable modbus) max_correlation_evidence_metrics sorted (
                    sort-All values (IsShareable modbus)
                      (sanitize_metrics values (clone_ordinary_metric_keys [] modbus) s.metrics)
                      (sanitized-AreShareable values modbus s.metrics)),
                omega (arith, length-take max_correlation_evidence_metrics sorted),
                omega (arith, length-take max_correlation_evidence_metrics sorted),
                refl,
              )
      ]
