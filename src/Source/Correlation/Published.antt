-- ===== src/Source/Correlation/Published.antt =====
-- The signature of a snapshot that the Modbus client has published.
use Prim.Native.String.{String}
use mathlib.Core.List.{Memᴰ}
use jinko_exporter.Prelude.{
  ℕ, ◌<◌, ◌≡◌, refl, sym, ap, ◌∙◌, Bool, true, false, ◌&&◌, Option, none, some, List, [], ◌∷◌, ◌++◌,
  All, Result, ok, Result-cases, Option-cases, inl, inr, arith, get_or, set, replicate,
}
use jinko_exporter.Prelude.Int.{ℤ}
use jinko_exporter.Prelude.Text.{trim_space, is_space}
use jinko_exporter.Model.{Metric, Snapshot}
use jinko_exporter.Jinko.Schema.{MetricDefinition, canonical_metric_definitions}
use mathlib.Core.Path.{subst}
use jinko_exporter.Prelude.Digits.{decimal}
use jinko_exporter.Jinko.Schema.Lookup.{canonicalize_metric}
use jinko_exporter.Jinko.Schema.Canonical.{canonical_key}
use jinko_exporter.Modbus.Decode.Words.{MetricValue, units}
use jinko_exporter.Modbus.Client.Readings.{Readings}
use jinko_exporter.Modbus.Client.Metrics.{
  canonical_metric, canonical_metrics, metric_values, external_ct_metrics,
  modbus_warning_fault_metrics, status_metrics, snapshot_metrics, alert_word,
}
use jinko_exporter.Source.Correlation.Signature.{
  Found, modbus_alert_metric_keys, key_index, take_metric, scan_metrics, all_found,
  modbus_alert_signature_from_snapshot, exact_u16,
}
use jinko_exporter.Modbus.Client.Program.{FetchError}

abbrev is_none : Option ℕ → Bool
is_none none = true
is_none (some i) = false

-- A key that is none of the six.
abbrev is_other_key : String → Bool
is_other_key key = is_none (key_index 0 modbus_alert_metric_keys (trim_space key))

abbrev all_other : List MetricDefinition → Bool
all_other [] = true
all_other (def ∷ defs) = is_other_key def.key && all_other defs

-- No canonical metric has an alert register's key.
table_other : all_other canonical_metric_definitions ≡ true
unfolding key_index trim_space is_space
table_other = refl

all_other-at :
    (defs : List MetricDefinition) (def : MetricDefinition)
    → all_other defs ≡ true
    → Memᴰ def defs
    → is_other_key def.key ≡ true
all_other-at [] def all at = elim at [ ]
all_other-at (d ∷ defs) def all (Memᴰ.head e) = rw e (ground (arith, all))
all_other-at (d ∷ defs) def all (Memᴰ.tail at) = all_other-at defs def (ground (arith, all)) at

abbrev AreOther : List (Metric ℤ) → Type 0
AreOther = All (λ m. is_other_key m.key ≡ true)

scan-skips :
    (found : Found) (ms rest : List (Metric ℤ))
    → AreOther ms
    → scan_metrics found (ms ++ rest) ≡ scan_metrics found rest
unfolding scan_metrics
scan-skips found [] rest all = refl
scan-skips found (m ∷ ms) rest (other, all) =
    elim (Option-cases (key_index 0 modbus_alert_metric_keys (trim_space m.key))) [
      | inl skipped ↦ rw (skipped, scan_metrics) (scan-skips found ms rest all)
      | inr (i, listed) ↦ absurd (cc (rw listed at other))
    ]

canonical_metric-other :
    (key : String) (value : ℤ) (m : Metric ℤ)
    → canonical_metric key value ≡ ok m
    → is_other_key m.key ≡ true
unfolding canonical_metric
canonical_metric-other key value m h =
    let own : Metric ℤ = record { group = ""; key = key; name = ""; unit = ""; value = value } in
    elim (Option-cases (canonicalize_metric own)) [
      | inl absent ↦ absurd (cc (rw (absent, canonical_metric) at h))
      | inr (m', found) ↦
          let same : m' ≡ m = cc (rw (found, canonical_metric) at h) in
          let (def, at, key_of) = canonical_key own m' found in
          ap (λ k. is_other_key k) (ap (λ x. x.key) (sym same) ∙ key_of)
          ∙ all_other-at canonical_metric_definitions def table_other at
    ]

canonical-AreOther :
    (items : List MetricValue) (ms : List (Metric ℤ))
    → canonical_metrics items ≡ ok ms
    → AreOther ms
unfolding canonical_metrics
canonical-AreOther [] ms h = let none_there : [] ≡ ms = cc h in subst AreOther none_there tt
canonical-AreOther (item ∷ items) ms h =
    elim (Result-cases (canonical_metric item.key item.value)) [
      | inr (e, failed) ↦ absurd (cc (rw (failed, canonical_metrics) at h))
      | inl (m, first) ↦ elim (Result-cases (canonical_metrics items)) [
        | inr (e, failed) ↦ absurd (cc (rw (first, canonical_metrics, failed) at h))
        | inl (rest, others) ↦
            let same : (m ∷ rest) ≡ ms = cc (rw (first, canonical_metrics, others) at h) in
            subst AreOther same (
              canonical_metric-other item.key item.value m first,
              canonical-AreOther items rest others,
            )
      ]
    ]

external_ct-AreOther : (a b c : ℤ) → AreOther (external_ct_metrics 0 (a ∷ b ∷ c ∷ []))
unfolding external_ct_metrics decimal key_index trim_space is_space
external_ct-AreOther a b c = (refl, (refl, (refl, tt)))

-- A word in hundredths is a uint16 again.
exact-units : (w : ℕ) → w < 65536 → exact_u16 (units w) ≡ some w
exact-units w h = ground arith

module _ (found : Found) (key name : String) (w index : ℕ) where
  take_word :
      w < 65536
      → get_or found index none ≡ none
      → take_metric found (alert_word key name w) index ≡ ok (set found index (some w))
  unfolding take_metric trim_space is_space
  take_word small unseen = rw (unseen, exact-units w small) refl

  scan_word :
      (rest : List (Metric ℤ))
      → key_index 0 modbus_alert_metric_keys (trim_space key) ≡ some index
      → w < 65536
      → get_or found index none ≡ none
      → scan_metrics found (alert_word key name w ∷ rest)
        ≡ scan_metrics (set found index (some w)) rest
  unfolding scan_metrics
  scan_word rest listed small unseen =
      rw (listed, scan_metrics, take_word small unseen, scan_metrics) refl

abbrev six : ℕ → ℕ → ℕ → ℕ → ℕ → ℕ → List ℕ
six a b c d e f = a ∷ b ∷ c ∷ d ∷ e ∷ f ∷ []

abbrev AreWords : List ℕ → Type 0
AreWords = All (λ w. w < 65536)

scan_six :
    (a b c d e f power run : ℕ)
    → AreWords (six a b c d e f)
    → scan_metrics
        (replicate 6 none)
        (modbus_warning_fault_metrics (six a b c d e f) ++ status_metrics power run)
      ≡ ok (some a ∷ some b ∷ some c ∷ some d ∷ some e ∷ some f ∷ [])
unfolding modbus_warning_fault_metrics status_metrics key_index trim_space is_space scan_metrics
scan_six a b c d e f power run (ha, (hb, (hc, (hd, (he, (hf, _)))))) =
    let after_f = status_metrics power run in
    let after_e =
      alert_word "DEYE_MODBUS_R558_FAULT_WORD_4_RAW" "Deye Inverter Fault Word 4 (Raw U16)" f
      ∷ after_f in
    let after_d =
      alert_word "DEYE_MODBUS_R557_FAULT_WORD_3_RAW" "Deye Inverter Fault Word 3 (Raw U16)" e
      ∷ after_e in
    let after_c =
      alert_word "DEYE_MODBUS_R556_FAULT_WORD_2_RAW" "Deye Inverter Fault Word 2 (Raw U16)" d
      ∷ after_d in
    let after_b =
      alert_word "DEYE_MODBUS_R555_FAULT_WORD_1_RAW" "Deye Inverter Fault Word 1 (Raw U16)" c
      ∷ after_c in
    let after_a =
      alert_word "DEYE_MODBUS_R554_WARNING_WORD_2_RAW" "Deye Inverter Warning Word 2 (Raw U16)" b
      ∷ after_b in
    let found_0 : Found = replicate 6 none in
    let found_1 = set found_0 0 (some a) in
    let found_2 = set found_1 1 (some b) in
    let found_3 = set found_2 2 (some c) in
    let found_4 = set found_3 3 (some d) in
    let found_5 = set found_4 4 (some e) in
    scan_word found_0 "DEYE_MODBUS_R553_WARNING_WORD_1_RAW" "Deye Inverter Warning Word 1 (Raw U16)"
      a 0 after_a refl ha refl
    ∙ scan_word found_1 "DEYE_MODBUS_R554_WARNING_WORD_2_RAW"
        "Deye Inverter Warning Word 2 (Raw U16)" b 1 after_b refl hb refl
    ∙ scan_word found_2 "DEYE_MODBUS_R555_FAULT_WORD_1_RAW" "Deye Inverter Fault Word 1 (Raw U16)" c
        2 after_c refl hc refl
    ∙ scan_word found_3 "DEYE_MODBUS_R556_FAULT_WORD_2_RAW" "Deye Inverter Fault Word 2 (Raw U16)" d
        3 after_d refl hd refl
    ∙ scan_word found_4 "DEYE_MODBUS_R557_FAULT_WORD_3_RAW" "Deye Inverter Fault Word 3 (Raw U16)" e
        4 after_e refl he refl
    ∙ scan_word found_5 "DEYE_MODBUS_R558_FAULT_WORD_4_RAW" "Deye Inverter Fault Word 4 (Raw U16)" f
        5 after_f refl hf refl

made_inj :
    {a b : List (Metric ℤ)} → ◌≡◌ {A = Result FetchError (List (Metric ℤ))} (ok a) (ok b) → a ≡ b
made_inj h = cc

-- The parts of the metrics of a snapshot.
metrics_parts :
    (rated : ℤ) (r : Readings) (ms : List (Metric ℤ))
    → snapshot_metrics rated r ≡ ok ms
    → (own : List (Metric ℤ)) × (canonical_metrics (metric_values rated r) ≡ ok own)
      × (ms
          ≡ own
            ++ (external_ct_metrics 0 r.currents.external_ct.currents_a
                ++ (modbus_warning_fault_metrics r.status.alert_words
                    ++ status_metrics r.status.switch_relay.0 r.status.run_state)))
unfolding snapshot_metrics
metrics_parts rated r ms h = elim (Result-cases (canonical_metrics (metric_values rated r))) [
  | inr (e, failed) ↦ absurd (cc (rw (failed, snapshot_metrics) at h))
  | inl (own, passed) ↦ (own, passed, sym (made_inj (rw (passed, snapshot_metrics) at h)))
]

-- The metrics that the client makes of its readings have the six words that it read as their alert
-- signature, if they are words and there are three external currents, as the decoders give them: what
-- the correlation and the validation see of a published snapshot is what the inverter sent.
pub published_signature :
    (rated : ℤ) (r : Readings) (s : Snapshot ℤ) (x y z : ℤ) (a b c d e f : ℕ)
    → snapshot_metrics rated r ≡ ok s.metrics
    → s.source ≡ "modbus"
    → r.currents.external_ct.currents_a ≡ x ∷ y ∷ z ∷ []
    → r.status.alert_words ≡ six a b c d e f
    → AreWords (six a b c d e f)
    → modbus_alert_signature_from_snapshot s ≡ ok (record { values = six a b c d e f })
unfolding modbus_alert_signature_from_snapshot trim_space is_space all_found
published_signature rated r s x y z a b c d e f made named currents words small =
    let (own, canonical, parts) = metrics_parts rated r s.metrics made in
    let own_other = canonical-AreOther (metric_values rated r) own canonical in
    let currents_other =
      subst (λ cs. AreOther (external_ct_metrics 0 cs)) (sym currents)
        (external_ct-AreOther x y z) in
    let status = status_metrics r.status.switch_relay.0 r.status.run_state in
    let alerts = modbus_warning_fault_metrics r.status.alert_words ++ status in
    let scanned : scan_metrics (replicate 6 none) s.metrics
        ≡ ok (some a ∷ some b ∷ some c ∷ some d ∷ some e ∷ some f ∷ []) =
      ap (scan_metrics (replicate 6 none)) parts
      ∙ scan-skips (replicate 6 none) own
          (external_ct_metrics 0 r.currents.external_ct.currents_a ++ alerts) own_other
      ∙ scan-skips (replicate 6 none) (external_ct_metrics 0 r.currents.external_ct.currents_a)
          alerts currents_other
      ∙ ap (λ ws. scan_metrics (replicate 6 none) (modbus_warning_fault_metrics ws ++ status)) words
      ∙ scan_six a b c d e f r.status.switch_relay.0 r.status.run_state small in
    rw (named, scanned, modbus_alert_signature_from_snapshot) refl
