-- ===== src/Source/Validation.antt =====
-- bridge/internal/source/modbus_validation_evidence.go: the passive observer of raw evidence.
pub mod Budget
mod Examples
use Prim.Native.String.{String}
use jinko_exporter.Prelude.{
  ℕ, ◌+◌, ◌/◌, ◌%◌, ◌≡◌, refl, Bool, true, false, ◌&&◌, ◌||◌, not, Option, none, some, List, [],
  ◌∷◌, ◌++◌, ltb, ◌==◌, if◌then◌else◌, Result, ok, err, replicate,
}
use jinko_exporter.Prelude.Int.{ℤ, pos, ltb_ℤ}
use jinko_exporter.Prelude.Text.{◌=$◌}
use jinko_exporter.Model.{ModbusEvidence, ModbusReadWindow, Snapshot, zero_time}
use jinko_exporter.Model.Freshness.{time_sub}
use jinko_exporter.Modbus.Decode.Words.{word_at}
use jinko_exporter.Source.Priority.{equal_codes}
use jinko_exporter.Source.Correlation.Signature.{modbus_alert_signature_from_snapshot}
use jinko_exporter.Source.Correlation.Evidence.{same_time}

abbrev pub validation_change_interval : ℤ
validation_change_interval = pos 60000000000

abbrev pub validation_change_budget : ℕ
validation_change_budget = 64

pub record ValidationStatus : Type 0 where
  pub relay : List ℕ
  pub alert : List ℕ
  pub run : ℕ

-- `seen` has one Boolean for each of the nine milestones; `last` is none until `hasLast`.
pub record ModbusValidationObserver : Type 0 where
  pub seen : List Bool
  pub last : Option ValidationStatus
  pub last_change : ℤ
  pub changes : ℕ
  pub exhausted : Bool
  pub sequence : ℕ

pub record ModbusValidationRecord : Type 0 where
  pub capture_index : ℕ
  pub reasons : List String
  pub evidence : ModbusEvidence

abbrev pub new_observer : ModbusValidationObserver
new_observer = record {
  seen = replicate 9 false;
  last = none;
  last_change = zero_time;
  changes = 0;
  exhausted = false;
  sequence = 0;
}

abbrev pub same_status : ValidationStatus → ValidationStatus → Bool
same_status a b = equal_codes a.relay b.relay && equal_codes a.alert b.alert && a.run == b.run

-- Each window begins no earlier than the one before it ended.
unfoldable pub windows_in_order : ℤ → ℤ → List ModbusReadWindow → Bool
windows_in_order previous finished_at [] = true
windows_in_order previous finished_at (w ∷ windows) =
    let rest = windows_in_order w.finished_at finished_at windows in
    not (
      ltb_ℤ w.started_at previous
      || ltb_ℤ w.finished_at w.started_at
      || ltb_ℤ finished_at w.finished_at)
    && rest

abbrev pub signature_agrees : Snapshot ℤ → List ℕ → Bool
signature_agrees s alert_words = elim (modbus_alert_signature_from_snapshot s) [
  | err _ ↦ false
  | ok signature ↦ equal_codes signature.values alert_words
]

unfoldable pub valid_evidence : Snapshot ℤ → ModbusEvidence → Bool
valid_evidence s e =
    not (
      same_time e.started_at zero_time
      || ltb_ℤ e.finished_at e.started_at
      || ltb_ℤ (pos 30000000000) (time_sub e.finished_at e.started_at)
      || not (same_time e.finished_at s.collected_at))
    && windows_in_order e.started_at e.finished_at
        (e.bms_window ∷ e.relay_window ∷ e.alert_window ∷ e.run_state_window ∷ [])
    && signature_agrees s e.alert_words

-- The evidence that `validModbusValidationEvidence` lets through.
unfoldable pub valid_modbus_validation_evidence : Snapshot ℤ → Option ModbusEvidence
valid_modbus_validation_evidence s =
    if not (s.source =$ "modbus") then none else elim s.modbus_evidence [
      | none ↦ none
      | some e ↦ if valid_evidence s e then some e else none
    ]

abbrev nonzero : ℕ → Bool
nonzero w = not (w == 0)

abbrev high_bit : ℕ → Bool
high_bit w = w / 32768 % 2 == 1

abbrev not_all_ones : ℕ → Bool
not_all_ones w = not (w == 0xFFFF)

abbrev pub conditions : List ℕ → List (Bool × String)
conditions words =
    (true, "first_complete_sample")
    ∷ (nonzero (word_at words 1), "r211_first_nonzero")
    ∷ (nonzero (word_at words 2), "r212_first_nonzero")
    ∷ (nonzero (word_at words 8), "r218_first_nonzero")
    ∷ (nonzero (word_at words 1) && not_all_ones (word_at words 1), "r211_first_nonzero_non_ffff")
    ∷ (nonzero (word_at words 2) && not_all_ones (word_at words 2), "r212_first_nonzero_non_ffff")
    ∷ (nonzero (word_at words 8) && not_all_ones (word_at words 8), "r218_first_nonzero_non_ffff")
    ∷ (high_bit (word_at words 6), "r216_first_high_bit")
    ∷ (high_bit (word_at words 6) && not_all_ones (word_at words 6), "r216_first_high_bit_non_ffff")
    ∷ []

-- The loop over the conditions: `seen` afterwards, and the reasons.
unfoldable pub mark_seen : List Bool → List (Bool × String) → List Bool × List String
mark_seen [] conditions = ([], [])
mark_seen (flag ∷ seen) [] = (flag ∷ seen, [])
mark_seen (flag ∷ seen) ((active, reason) ∷ conditions) =
    let (seen', reasons) = mark_seen seen conditions in
    if active && not flag then (true ∷ seen', reason ∷ reasons) else (flag ∷ seen', reasons)

unfoldable pub has_changed : Option ValidationStatus → ValidationStatus → Bool
has_changed none status = false
has_changed (some last) status = not (same_status status last)

abbrev pub with_reason : Bool → String → List String → List String
with_reason true reason reasons = reasons ++ reason ∷ []
with_reason false reason reasons = reasons

abbrev pub first_change : Option ValidationStatus → ℤ → ℤ → ℤ
first_change none now last_change = now
first_change (some last) now last_change = last_change

abbrev pub status_of : ModbusEvidence → ValidationStatus
status_of e = record { relay = e.relay_words; alert = e.alert_words; run = e.run_state }

-- The change that the budget and the interval allow to be recorded.
unfoldable pub counts_change : ModbusValidationObserver → ℤ → Bool → Bool
counts_change o now changed =
    changed
    && ltb o.changes validation_change_budget
    && not (ltb_ℤ (time_sub now o.last_change) validation_change_interval)

abbrev pub add_change : ModbusValidationObserver → ℤ → Bool → ModbusValidationObserver
add_change o now false = o
add_change o now true = record o { changes = o.changes + 1; last_change = now }

abbrev pub exhausts : ModbusValidationObserver → Bool → Bool
exhausts o changed = changed && not (ltb o.changes validation_change_budget) && not o.exhausted

abbrev pub emit :
    ModbusValidationObserver
    → ℤ
    → ModbusEvidence
    → List String
    → ModbusValidationObserver × Option ModbusValidationRecord
emit o now e [] = (o, none)
emit o now e (reason ∷ reasons) = (
  record o {
    last = some (status_of e);
    last_change = first_change o.last now o.last_change;
    sequence = o.sequence + 1;
  },
  some (record { capture_index = o.sequence + 1; reasons = reason ∷ reasons; evidence = e }),
)

unfoldable pub observe_evidence :
    ModbusValidationObserver
    → ℤ
    → ModbusEvidence
    → ModbusValidationObserver × Option ModbusValidationRecord
observe_evidence o now e =
    let (seen, reasons) = mark_seen o.seen (conditions e.bms_words) in
    let changed = has_changed o.last (status_of e) in
    let counted = counts_change o now changed in
    let o' = add_change (record o { seen = seen }) now counted in
    let exhausted = exhausts o' changed in
    emit (record o' { exhausted = o'.exhausted || exhausted }) now e
      (with_reason exhausted "status_change_budget_exhausted"
        (with_reason counted "status_words_changed" reasons))

unfoldable pub observe :
    ModbusValidationObserver
    → ℤ
    → Snapshot ℤ
    → ModbusValidationObserver × Option ModbusValidationRecord
observe o now s = elim (valid_modbus_validation_evidence s) [
  | none ↦ (o, none)
  | some e ↦ observe_evidence o now e
]

abbrev pub add_record :
    Option ModbusValidationRecord
    → ModbusValidationObserver × List ModbusValidationRecord
    → ModbusValidationObserver × List ModbusValidationRecord
add_record none (o, records) = (o, records)
add_record (some r) (o, records) = (o, r ∷ records)

-- The observations of a process in their order, and the records that they emit.
unfoldable pub observe_all :
    ModbusValidationObserver
    → List (ℤ × Snapshot ℤ)
    → ModbusValidationObserver × List ModbusValidationRecord
observe_all o [] = (o, [])
observe_all o ((now, s) ∷ rest) =
    let (o', emitted) = observe o now s in add_record emitted (observe_all o' rest)
