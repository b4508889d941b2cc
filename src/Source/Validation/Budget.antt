-- ===== src/Source/Validation/Budget.antt =====
-- How much the observer can record.
use Prim.Native.String.{String}
use jinko_exporter.Prelude.{
  ℕ, suc, ◌+◌, ◌≤◌, ◌<◌, Bool-cases, ◌≡◌, refl, sym, ap, ◌∙◌, Bool, true, false, ◌||◌, Option, none,
  some, List, [], ◌∷◌, length, length-append, Option-cases, inl, inr, arith, zero,
}
use jinko_exporter.Prelude.Int.{ℤ}
use jinko_exporter.Model.{ModbusEvidence, Snapshot}
use jinko_exporter.Source.Validation.{
  ModbusValidationObserver, ModbusValidationRecord, new_observer, mark_seen, has_changed,
  counts_change, add_change, exhausts, emit, with_reason, conditions, status_of, observe_evidence,
  observe, observe_all, add_record, valid_modbus_validation_evidence, validation_change_budget,
}

abbrev one_if : Bool → ℕ
one_if true = 1
one_if false = 0

one_if_most : (b : Bool) → one_if b ≤ 1
one_if_most true = omega arith
one_if_most false = omega arith

abbrev count_seen : List Bool → ℕ
count_seen [] = 0
count_seen (flag ∷ seen) = one_if flag + count_seen seen

count_seen-length : (seen : List Bool) → count_seen seen ≤ length seen
count_seen-length [] = omega arith
count_seen-length (true ∷ seen) = omega (arith, count_seen-length seen)
count_seen-length (false ∷ seen) = omega (arith, count_seen-length seen)

-- A reason of the loop is a milestone that was not seen before.
mark_seen-counts :
    (seen : List Bool) (conditions : List (Bool × String))
    → (length (mark_seen seen conditions).0 ≡ length seen)
      × (count_seen (mark_seen seen conditions).0
          ≡ count_seen seen + length (mark_seen seen conditions).1)
unfolding mark_seen
mark_seen-counts [] conditions = (refl, omega arith)
mark_seen-counts (flag ∷ seen) [] = (refl, omega arith)
mark_seen-counts (flag ∷ seen) ((active, reason) ∷ conditions) =
    ground (arith, mark_seen-counts seen conditions)

-- What has been used of the milestones and of the changes.
abbrev used : ModbusValidationObserver → ℕ
used o = count_seen o.seen + o.changes

-- While the changes are not declared used up, one is left.
pub record IsWithinBudget (o : ModbusValidationObserver) : Type 0 where
  pub nine : length o.seen ≡ 9
  pub budget : o.changes ≤ validation_change_budget
  pub paid : o.sequence ≤ used o
  pub left : o.exhausted ≡ false → o.changes < validation_change_budget

abbrev needs : List String → ℕ
needs [] = 0
needs (reason ∷ reasons) = 1

length-with_reason :
    (b : Bool) (reason : String) (reasons : List String)
    → length (with_reason b reason reasons) ≡ length reasons + one_if b
length-with_reason true reason reasons = length-append reasons (reason ∷ [])
length-with_reason false reason reasons = omega arith

needs-length : (reasons : List String) → needs reasons ≤ length reasons
needs-length [] = omega arith
needs-length (reason ∷ reasons) = omega arith

needs_most : (reasons : List String) → needs reasons ≤ 1
needs_most [] = omega arith
needs_most (reason ∷ reasons) = omega arith

-- A reason that only joins others needs no record of its own.
needs-with_reason :
    (b : Bool) (reason : String) (reasons : List String)
    → (b ≡ true → 1 ≤ length reasons)
    → needs (with_reason b reason reasons) ≤ length reasons
needs-with_reason false reason reasons h = needs-length reasons
needs-with_reason true reason reasons h =
    omega (arith, h refl, needs_most (with_reason true reason reasons))

-- No record and no number, or a record with the number after this one.
abbrev pub Numbers : ℕ → ModbusValidationObserver → Option ModbusValidationRecord → Type 0
Numbers n o none = o.sequence ≡ n
Numbers n o (some r) = (o.sequence ≡ n + 1) × (r.capture_index ≡ n + 1)

abbrev Continues : ℕ → ModbusValidationObserver × Option ModbusValidationRecord → Type 0
Continues n (o, r) = IsWithinBudget o × Numbers n o r

module _ (now : ℤ) (e : ModbusEvidence) (n : ℕ) where
  -- The reasons pay for a record.
  emit-Continues :
      (o : ModbusValidationObserver) (reasons : List String)
      → o.sequence ≡ n
      → length o.seen ≡ 9
      → o.changes ≤ validation_change_budget
      → (o.exhausted ≡ false → o.changes < validation_change_budget)
      → n + needs reasons ≤ used o
      → Continues n (emit o now e reasons)
  emit-Continues o [] same nine budget left paid =
      (record { nine = nine; budget = budget; paid = omega (arith, same, paid); left = left }, same)
  emit-Continues o (reason ∷ reasons) same nine budget left paid = (
    record { nine = nine; budget = budget; paid = omega (arith, same, paid); left = left },
    (omega (arith, same), omega (arith, same)),
  )

add_change-counts :
    (o : ModbusValidationObserver) (now : ℤ) (b : Bool)
    → let o' = add_change o now b in
      (o'.seen ≡ o.seen)
      × (o'.changes ≡ o.changes + one_if b)
      × (o'.exhausted ≡ o.exhausted)
      × (o'.sequence ≡ o.sequence)
add_change-counts o now true = (refl, refl, refl, refl)
add_change-counts o now false = (refl, omega arith, refl, refl)

counts_change-below :
    (o : ModbusValidationObserver) (now : ℤ) (changed : Bool)
    → o.changes ≤ validation_change_budget
    → o.changes + one_if (counts_change o now changed) ≤ validation_change_budget
unfolding counts_change
counts_change-below o now changed h = ground arith

module _ (o : ModbusValidationObserver) (now : ℤ) (changed : Bool)
    (left : o.exhausted ≡ false → o.changes < validation_change_budget) where
  -- The changes are declared used up together with the last one.
  exhausts-last :
      (o' : ModbusValidationObserver)
      → o'.changes ≡ o.changes + one_if (counts_change o now changed)
      → o'.exhausted ≡ o.exhausted
      → exhausts o' changed ≡ true
      → counts_change o now changed ≡ true
  exhausts-last o' changes same h = elim (Bool-cases o.exhausted) [
    | inl over ↦ absurd (ground (arith, same, over, h))
    | inr going ↦ elim (Bool-cases (counts_change o now changed)) [
      | inl counted ↦ counted
      | inr not_counted ↦ absurd (ground (arith, same, going, left going, h, changes, not_counted))
    ]
  ]

  left-after :
      (o' : ModbusValidationObserver)
      → o'.changes ≡ o.changes + one_if (counts_change o now changed)
      → o'.exhausted ≡ o.exhausted
      → (o'.exhausted || exhausts o' changed) ≡ false
      → o'.changes < validation_change_budget
  unfolding counts_change
  left-after o' changes same h = elim (Bool-cases o.exhausted) [
    | inl over ↦ absurd (ground (arith, same, over, h))
    | inr going ↦ ground (arith, same, going, left going, h, changes)
  ]

observe_evidence-Continues :
    (o : ModbusValidationObserver) (now : ℤ) (e : ModbusEvidence)
    → IsWithinBudget o
    → Continues o.sequence (observe_evidence o now e)
unfolding observe_evidence
observe_evidence-Continues o now e h =
    let words = conditions e.bms_words in
    let reasons = (mark_seen o.seen words).1 in
    let changed = has_changed o.last (status_of e) in
    let counted = counts_change o now changed in
    let marked = record o { seen = (mark_seen o.seen words).0 } in
    let o' = add_change marked now counted in
    let exhausted = exhausts o' changed in
    let (same_length, more) = mark_seen-counts o.seen words in
    let (same_seen, changes, same_end, same_number) = add_change-counts marked now counted in
    let first = with_reason counted "status_words_changed" reasons in
    let number = length-with_reason counted "status_words_changed" reasons in
    emit-Continues now e o.sequence (record o' { exhausted = o'.exhausted || exhausted })
      (with_reason exhausted "status_change_budget_exhausted" first) same_number
      (ap length same_seen ∙ same_length ∙ h.nine)
      (omega (arith, changes, counts_change-below o now changed h.budget))
      (left-after o now changed h.left o' changes same_end)
      (omega (
        arith,
        h.paid,
        more,
        changes,
        ap count_seen same_seen,
        number,
        needs-with_reason exhausted "status_change_budget_exhausted" first (λ over. omega (
          arith,
          number,
          ap one_if (exhausts-last o now changed h.left o' changes same_end over),
        )),
      ))

observe-Continues :
    (o : ModbusValidationObserver) (now : ℤ) (s : Snapshot ℤ)
    → IsWithinBudget o
    → Continues o.sequence (observe o now s)
unfolding observe
observe-Continues o now s h = elim (Option-cases (valid_modbus_validation_evidence s)) [
  | inl invalid ↦ rw (invalid, observe) (h, refl)
  | inr (e, valid) ↦ rw (valid, observe) (observe_evidence-Continues o now e h)
]

abbrev pub count_from : ℕ → ℕ → List ℕ
count_from n zero = []
count_from n (suc left) = n ∷ count_from (n + 1) left

abbrev pub capture_indexes : List ModbusValidationRecord → List ℕ
capture_indexes [] = []
capture_indexes (r ∷ records) = r.capture_index ∷ capture_indexes records

abbrev Follows : ℕ → ModbusValidationObserver × List ModbusValidationRecord → Type 0
Follows n (o, records) =
    IsWithinBudget o
    × (o.sequence ≡ n + length records)
    × (capture_indexes records ≡ count_from (n + 1) (length records))

add_record-Follows :
    (n : ℕ) (o : ModbusValidationObserver) (r : Option ModbusValidationRecord)
    (later : ModbusValidationObserver × List ModbusValidationRecord)
    → Numbers n o r
    → Follows o.sequence later
    → Follows n (add_record r later)
add_record-Follows n o none later same h = rw (sym same) h
add_record-Follows n o (some r) later (number, index) (h, total, indexes) =
    (h, omega (arith, number, total), rw (index, sym number) (ap (λ xs. o.sequence ∷ xs) indexes))

observe_all-Follows :
    (o : ModbusValidationObserver) (observations : List (ℤ × Snapshot ℤ))
    → IsWithinBudget o
    → Follows o.sequence (observe_all o observations)
unfolding observe_all
observe_all-Follows o [] h = (h, omega arith, refl)
observe_all-Follows o ((now, s) ∷ rest) h =
    let (h', numbers) = observe-Continues o now s h in
    let later = observe_all-Follows (observe o now s).0 rest h' in
    add_record-Follows o.sequence (observe o now s).0 (observe o now s).1
      (observe_all (observe o now s).0 rest) numbers later

new-IsWithinBudget : IsWithinBudget new_observer
new-IsWithinBudget = record {
  nine = omega arith;
  budget = omega arith;
  paid = omega arith;
  left = λ going. omega arith;
}

-- Whatever snapshots a process observes, at whatever times: the records that it emits are numbered
-- from 1 without a gap, and there are never more than 73 of them, for nine milestones and 64 changes.
pub records_bounded :
    (observations : List (ℤ × Snapshot ℤ))
    → let records = (observe_all new_observer observations).1 in
      (capture_indexes records ≡ count_from 1 (length records)) × (length records ≤ 73)
records_bounded observations =
    let (h, total, indexes) = observe_all-Follows new_observer observations new-IsWithinBudget in
    let o = (observe_all new_observer observations).0 in
    (indexes, omega (arith, h.paid, h.nine, h.budget, total, count_seen-length o.seen))
