-- ===== src/Source/Correlation/Evidence.antt =====
-- What a cloud says of an alert, made safe for the log. The value of a metric is a parameter with
-- its test for a finite number, the positive zero for a zero, and the order of its bits; the digest is
-- SHA-256, a parameter too.
pub mod OrdinaryKeys
pub mod Labels
use Prim.Native.Char.{code}
use Prim.Native.Nat.{Ordering}
use Prim.Native.String.{String, len, compare}
use jinko_exporter.Prelude.{
  ℕ, ◌+◌, ◌≡◌, refl, Bool, true, false, ◌&&◌, ◌||◌, not, Option, none, some, List, [], ◌∷◌, length,
  take, leb, ltb, ◌==◌, if◌then◌else◌, Result, ok, err,
}
use jinko_exporter.Prelude.Int.{ℤ, pos, ltb_ℤ, ◌+ℤ◌}
use jinko_exporter.Prelude.Text.{◌=$◌, is_empty, trim_space}
use jinko_exporter.Model.{Metric, Snapshot, zero_time}
use jinko_exporter.Model.Freshness.{time_sub}
use jinko_exporter.Source.Correlation.Worker.{MetricIdentity, find_identity}

pub data SourceStatus : Type 0 where
  source_ok fetch_failed timed_out canceled preempted empty_snapshot : SourceStatus
  identity_unverified device_mismatch source_mismatch stale_snapshot : SourceStatus
  invalid_collected_at no_safe_metrics : SourceStatus

-- What `errors.Is` finds in the error of a fetch.
pub data FetchFault : Type 0 where
  diagnostic_preempted deadline_exceeded context_canceled other_fault : FetchFault

unfoldable pub classify_alert_correlation_status : Option FetchFault → SourceStatus
classify_alert_correlation_status none = source_ok
classify_alert_correlation_status (some diagnostic_preempted) = preempted
classify_alert_correlation_status (some deadline_exceeded) = timed_out
classify_alert_correlation_status (some context_canceled) = canceled
classify_alert_correlation_status (some other_fault) = fetch_failed

abbrev pub is_between : ℕ → ℕ → ℕ → Bool
is_between low high c = leb low c && leb c high

unfoldable pub safe_characters : Bool → String → Bool
safe_characters allow_empty String.[] = true
safe_characters allow_empty (String.◌∷◌ c s) =
    (is_between 65 90 (code c)
      || is_between 97 122 (code c)
      || is_between 48 57 (code c)
      || code c == 95
      || (allow_empty
          && (code c == 37
              || code c == 47
              || code c == 46
              || code c == 45
              || code c == 0xB0
              || code c == 0x2103)))
    && safe_characters allow_empty s

unfoldable pub safe_evidence_label : String → ℕ → Bool → Bool
unfolding safe_characters
safe_evidence_label value max_bytes allow_empty =
    not ((not allow_empty && is_empty value) || ltb max_bytes (len value))
    && safe_characters allow_empty value

unfoldable pub is_canonical_correlation_alert_key : String → Bool
is_canonical_correlation_alert_key key =
    key =$ "L_B_A_F" || key =$ "L_B_F_F" || key =$ "L_B_A_F2" || key =$ "L_B_F_F2"

abbrev pub max_correlation_evidence_metrics : ℕ
max_correlation_evidence_metrics = 256

-- 15 and 2 minutes.
abbrev pub max_correlation_snapshot_age : ℤ
max_correlation_snapshot_age = pos 900000000000

abbrev pub max_correlation_future_skew : ℤ
max_correlation_future_skew = pos 120000000000

abbrev pub same_time : ℤ → ℤ → Bool
same_time a b = not (ltb_ℤ a b) && not (ltb_ℤ b a)

pub record CorrelationMetric (V : Type 0) : Type 0 where
  pub group : String
  pub key : String
  pub unit : String
  pub value : V

pub record Values (V : Type 0) : Type 0 where
  pub is_finite : V → Bool
  pub plain_zero : V → V
  pub bits_less : V → V → Bool

unfoldable pub has_safe_labels : MetricIdentity → String → Bool
unfolding safe_evidence_label
has_safe_labels identity key =
    safe_evidence_label identity.group 32 false
    && safe_evidence_label key 64 false
    && safe_evidence_label identity.unit 16 true

module _ {V : Type 0} where
  -- The group and the unit that a metric may be logged under.
  unfoldable pub evidence_identity :
      List (String × MetricIdentity) → Metric V → Option MetricIdentity
  evidence_identity ordinary_keys m =
      if trim_space m.group =$ "alert"
      then if not (is_empty (trim_space m.unit))
          || not (is_canonical_correlation_alert_key (trim_space m.key))
        then none
        else some (record { group = trim_space m.group; unit = trim_space m.unit })
      else find_identity ordinary_keys (trim_space m.key)

  unfoldable pub alert_metric_count : List (CorrelationMetric V) → ℕ
  alert_metric_count [] = 0
  alert_metric_count (m ∷ metrics) =
      let rest = alert_metric_count metrics in if m.group =$ "alert" then rest + 1 else rest

module _ {V : Type 0} (values : Values V) where
  unfoldable pub sanitize_metric :
      List (String × MetricIdentity) → Metric V → Option (CorrelationMetric V)
  sanitize_metric ordinary_keys m =
      if not (values.is_finite m.value) then none else elim (evidence_identity ordinary_keys m) [
        | none ↦ none
        | some identity ↦
            if not (has_safe_labels identity (trim_space m.key))
            then none
            else some (record {
              group = identity.group;
              key = trim_space m.key;
              unit = identity.unit;
              value = values.plain_zero m.value;
            })
      ]

  unfoldable pub sanitize_metrics :
      List (String × MetricIdentity) → List (Metric V) → List (CorrelationMetric V)
  sanitize_metrics ordinary_keys [] = []
  sanitize_metrics ordinary_keys (m ∷ metrics) =
      let rest = sanitize_metrics ordinary_keys metrics in
      elim (sanitize_metric ordinary_keys m) [ none ↦ rest | some safe ↦ safe ∷ rest ]

  abbrev pub text_less : String → String → Bool → Bool
  text_less a b equal = elim (compare a b) [
    | Ordering.lt ↦ true
    | Ordering.eq ↦ equal
    | Ordering.gt ↦ false
  ]

  unfoldable pub metric_less : CorrelationMetric V → CorrelationMetric V → Bool
  metric_less a b =
      text_less a.group b.group
        (text_less a.key b.key (text_less a.unit b.unit (values.bits_less a.value b.value)))

  -- sort.Slice; metrics that neither comes before are equal, so every sort gives this list.
  unfoldable pub insert_metric :
      CorrelationMetric V → List (CorrelationMetric V) → List (CorrelationMetric V)
  insert_metric m [] = m ∷ []
  insert_metric m (other ∷ rest) =
      let later = insert_metric m rest in
      if metric_less other m then other ∷ later else m ∷ other ∷ rest

  unfoldable pub sort_metrics : List (CorrelationMetric V) → List (CorrelationMetric V)
  sort_metrics [] = []
  sort_metrics (m ∷ metrics) = insert_metric m (sort_metrics metrics)

pub record SourceEvidence (V : Type 0) : Type 0 where
  pub source : String
  pub status : SourceStatus
  pub collected_at : Option ℤ
  pub metrics : List (CorrelationMetric V)
  pub total_metric_count : ℕ
  pub alert_metric_count : ℕ
  pub truncated : Bool
  pub metrics_sha256 : String

module _ {V : Type 0} where
  abbrev pub no_evidence : String → SourceStatus → Option ℤ → SourceEvidence V
  no_evidence source status collected_at = record {
    source = source;
    status = status;
    collected_at = collected_at;
    metrics = [];
    total_metric_count = 0;
    alert_metric_count = 0;
    truncated = false;
    metrics_sha256 = "";
  }

module _ {V : Type 0} where
  -- The tests of a snapshot, in their order; none means that its metrics are evidence.
  unfoldable pub snapshot_fault : String → String → ℤ → Snapshot V → Option SourceStatus
  snapshot_fault name expected_device_sn now s =
      if not (trim_space s.source =$ name)
      then some source_mismatch
      else if is_empty (trim_space expected_device_sn) || is_empty (trim_space s.device_sn)
      then some identity_unverified
      else if not (trim_space s.device_sn =$ trim_space expected_device_sn)
      then some device_mismatch
      else if same_time s.collected_at zero_time
      then some invalid_collected_at
      else if ltb_ℤ (now +ℤ max_correlation_future_skew) s.collected_at
      then some invalid_collected_at
      else if ltb_ℤ max_correlation_snapshot_age (time_sub now s.collected_at)
      then some stale_snapshot
      else none

module _ {V : Type 0} (values : Values V) (digest : List (CorrelationMetric V) → String) where
  abbrev pub evidence_of :
      String → ℤ → List (String × MetricIdentity) → List (Metric V) → SourceEvidence V
  evidence_of source collected_at ordinary_keys metrics =
      let sorted = sort_metrics values (sanitize_metrics values ordinary_keys metrics) in
      let kept = take max_correlation_evidence_metrics sorted in
      let is_nothing = length sorted == 0 in
      record {
        source = source;
        status = if is_nothing then no_safe_metrics else source_ok;
        collected_at = some collected_at;
        metrics = kept;
        total_metric_count = length sorted;
        alert_metric_count = alert_metric_count sorted;
        truncated = ltb (length kept) (length sorted);
        metrics_sha256 = if is_nothing then "" else digest sorted;
      }

  unfoldable pub snapshot_evidence :
      String → String → List (String × MetricIdentity) → ℤ → Snapshot V → SourceEvidence V
  snapshot_evidence name expected_device_sn ordinary_keys now s =
      elim (snapshot_fault name expected_device_sn now s) [
        | some status ↦ no_evidence name status (some s.collected_at)
        | none ↦ evidence_of name s.collected_at ordinary_keys s.metrics
      ]

  -- What the gate's fetch returned becomes evidence; a nil snapshot is none.
  unfoldable pub fetch_alert_correlation_evidence :
      String
      → String
      → List (String × MetricIdentity)
      → ℤ
      → Result FetchFault (Option (Snapshot V))
      → SourceEvidence V
  fetch_alert_correlation_evidence name expected_device_sn ordinary_keys now fetched =
      elim fetched [
        | err e ↦ no_evidence name (classify_alert_correlation_status (some e)) none
        | ok none ↦ no_evidence name empty_snapshot none
        | ok (some s) ↦ snapshot_evidence name expected_device_sn ordinary_keys now s
      ]
