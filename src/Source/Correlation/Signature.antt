-- ===== src/Source/Correlation/Signature.antt =====
-- The signature of a snapshot: its six alert words. A value is its number of hundredths, as the
-- Modbus decoders make it, so NaN and infinities do not occur.
use Prim.Native.String.{String}
use jinko_exporter.Prelude.{
  ℕ, zero, suc, ◌+◌, ◌/◌, ◌%◌, Bool, true, false, ◌&&◌, ◌||◌, not, Option, none, some, List, [],
  ◌∷◌, ◌++◌, get_or, set, replicate, leb, ◌==◌, if◌then◌else◌, Result, ok, err,
}
use jinko_exporter.Prelude.Int.{ℤ, pos, negsuc}
use jinko_exporter.Prelude.Text.{◌=$◌, is_empty, trim_space}
use jinko_exporter.Model.{Metric, Snapshot}

pub data SignatureError : Type 0 where
  not_modbus duplicate_register outside_alert_group has_unit not_u16 missing_register :
      SignatureError

-- R553 to R558, in this order.
pub record ModbusAlertSignature : Type 0 where
  pub values : List ℕ

pub record ModbusAlertBit : Type 0 where
  pub register : ℕ
  pub bit : ℕ

abbrev pub no_signature : ModbusAlertSignature
no_signature = record { values = replicate 6 0 }

unfoldable pub any_set : List ℕ → Bool
any_set [] = false
any_set (value ∷ values) = not (value == 0) || any_set values

abbrev pub is_active : ModbusAlertSignature → Bool
is_active s = any_set s.values

-- The inner loop, from a bit on; the word is shifted down to that bit.
unfoldable pub bits_from : ℕ → ℕ → ℕ → ℕ → List ModbusAlertBit
bits_from zero register bit value = []
bits_from (suc left) register bit value =
    let rest = bits_from left register (bit + 1) (value / 2) in
    if value % 2 == 1 then record { register = register; bit = bit } ∷ rest else rest

unfoldable pub active_from : ℕ → List ℕ → List ModbusAlertBit
unfolding bits_from
active_from register [] = []
active_from register (value ∷ values) =
    bits_from 16 register 0 value ++ active_from (register + 1) values

abbrev pub active_bits : ModbusAlertSignature → List ModbusAlertBit
active_bits s = active_from 553 s.values

abbrev pub modbus_alert_metric_keys : List String
modbus_alert_metric_keys =
    "DEYE_MODBUS_R553_WARNING_WORD_1_RAW" ∷ "DEYE_MODBUS_R554_WARNING_WORD_2_RAW"
    ∷ "DEYE_MODBUS_R555_FAULT_WORD_1_RAW" ∷ "DEYE_MODBUS_R556_FAULT_WORD_2_RAW"
    ∷ "DEYE_MODBUS_R557_FAULT_WORD_3_RAW" ∷ "DEYE_MODBUS_R558_FAULT_WORD_4_RAW" ∷ []

-- The loop over the keys; none is -1.
unfoldable pub key_index : ℕ → List String → String → Option ℕ
key_index i [] key = none
key_index i (k ∷ keys) key =
    let rest = key_index (i + 1) keys key in if k =$ key then some i else rest

-- The value of a metric as a uint16, if it is exactly one.
abbrev pub exact_u16 : ℤ → Option ℕ
exact_u16 (negsuc n) = none
exact_u16 (pos n) = if leb n 6553500 && (n % 100 == 0) then some (n / 100) else none

-- `values` and `found`: a register that was not found is none.
abbrev pub Found : Type 0
Found = List (Option ℕ)

abbrev pub is_found : Option ℕ → Bool
is_found none = false
is_found (some v) = true

unfoldable pub take_metric : Found → Metric ℤ → ℕ → Result SignatureError Found
take_metric found m index =
    if is_found (get_or found index none)
    then err duplicate_register
    else if not (trim_space m.group =$ "alert")
    then err outside_alert_group
    else if not (is_empty (trim_space m.unit))
    then err has_unit
    else elim (exact_u16 m.value) [ none ↦ err not_u16 | some v ↦ ok (set found index (some v)) ]

unfoldable pub scan_metrics : Found → List (Metric ℤ) → Result SignatureError Found
scan_metrics found [] = ok found
scan_metrics found (m ∷ metrics) = elim (key_index 0 modbus_alert_metric_keys (trim_space m.key)) [
  | none ↦ scan_metrics found metrics
  | some index ↦ elim (take_metric found m index) [
    | err e ↦ err e
    | ok found' ↦ scan_metrics found' metrics
  ]
]

unfoldable pub all_found : Found → Option (List ℕ)
all_found [] = some []
all_found (none ∷ found) = none
all_found (some v ∷ found) = elim (all_found found) [ none ↦ none | some vs ↦ some (v ∷ vs) ]

unfoldable pub modbus_alert_signature_from_snapshot :
    Snapshot ℤ → Result SignatureError ModbusAlertSignature
modbus_alert_signature_from_snapshot s =
    if not (trim_space s.source =$ "modbus")
    then err not_modbus
    else elim (scan_metrics (replicate 6 none) s.metrics) [
      | err e ↦ err e
      | ok found ↦ elim (all_found found) [
        | none ↦ err missing_register
        | some values ↦ ok (record { values = values })
      ]
    ]
