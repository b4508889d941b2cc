-- ===== src/Jinko/Metadata/Exactly.antt =====
-- What becomes of each version text, whatever the order of the fields.
use Prim.Native.String.{String}
use jinko_exporter.Prelude.{
  ◌≡◌, refl, ap, ◌∙◌, ◌↔◌, inl, inr, Bool, true, false, ◌&&◌, ◌||◌, not, Option, none, some, List,
  [], ◌∷◌, Option-cases, if◌then◌else◌, arith, map,
}
use jinko_exporter.Prelude.Text.{◌=$◌, =$_iff}
use jinko_exporter.Jinko.Metadata.{
  Field, cloud_key, cloud_value, is_valid, Collected, lookup, delete, is_rejected, differs,
  collect_under, collect_cloud_metadata, collect_all,
}

lookup-delete :
    (m : List (String × String)) (key other : String)
    → lookup (delete m key) other ≡ (if key =$ other then none else lookup m other)
unfolding lookup delete
lookup-delete [] key other = ground arith
lookup-delete ((k, v) ∷ m) key other =
    ground (arith, lookup-delete m key other, =$_iff k key, =$_iff k other, =$_iff key other)

-- What the maps say of one key: the text that is kept, and whether the key is rejected.
abbrev view : Collected → String → Option String × Bool
view c key = (lookup c.metadata key, is_rejected c.rejected key)

abbrev step_view : Option String × Bool → String → Option String × Bool
step_view (kept, true) value = (kept, true)
step_view (kept, false) value =
    if not (is_valid value) || differs kept value then (none, true) else (some value, false)

collect_under-view :
    (c : Collected) (key value other : String)
    → view (collect_under c key value) other
      ≡ (if key =$ other then step_view (view c other) value else view c other)
unfolding collect_under lookup is_rejected
collect_under-view c key value other =
    ground (arith, lookup-delete c.metadata key other, =$_iff key other)

-- The text that a field gives for a key.
unfoldable pub given : String → Field → Option String
given key f = elim (cloud_key f.storage_name) [
  | none ↦ none
  | some k ↦ if k =$ key then some (cloud_value f) else none
]

abbrev step_given : Option String × Bool → Option String → Option String × Bool
step_given seen none = seen
step_given seen (some value) = step_view seen value

collect-view :
    (c : Collected) (f : Field) (key : String)
    → view (collect_cloud_metadata c f) key ≡ step_given (view c key) (given key f)
unfolding collect_cloud_metadata given
collect-view c f key = elim (Option-cases (cloud_key f.storage_name)) [
  | inl other ↦ ground (arith, other)
  | inr (k, named) ↦ ground (arith, named, collect_under-view c k (cloud_value f) key, =$_iff k key)
]

abbrev run_given : Option String × Bool → List (Option String) → Option String × Bool
run_given seen [] = seen
run_given seen (given ∷ rest) = run_given (step_given seen given) rest

collect_all-view :
    (c : Collected) (key : String) (fields : List Field)
    → view (collect_all c fields) key ≡ run_given (view c key) (map (given key) fields)
unfolding collect_all
collect_all-view c key [] = refl
collect_all-view c key (f ∷ fields) =
    collect_all-view (collect_cloud_metadata c f) key fields
    ∙ ap (λ seen. run_given seen (map (given key) fields)) (collect-view c f key)

-- Whether every text is this one, and valid.
abbrev pub all_agree : String → List (Option String) → Bool
all_agree value [] = true
all_agree value (none ∷ rest) = all_agree value rest
all_agree value (some other ∷ rest) = is_valid other && other =$ value && all_agree value rest

abbrev pub any_given : List (Option String) → Bool
any_given [] = false
any_given (none ∷ rest) = any_given rest
any_given (some value ∷ rest) = true

run_rejected : (texts : List (Option String)) → (run_given (none, true) texts).0 ≡ none
run_rejected [] = refl
run_rejected (none ∷ texts) = run_rejected texts
run_rejected (some value ∷ texts) = run_rejected texts

run_kept :
    (kept value : String) (texts : List (Option String))
    → ((run_given (some kept, false) texts).0 ≡ some value)
      ↔ ((kept ≡ value) × (all_agree value texts ≡ true))
run_kept kept value [] = ground arith
run_kept kept value (none ∷ texts) = run_kept kept value texts
run_kept kept value (some v ∷ texts) =
    ground (arith, =$_iff kept v, =$_iff v value, run_kept v value texts, run_rejected texts)

run_fresh :
    (value : String) (texts : List (Option String))
    → ((run_given (none, false) texts).0 ≡ some value)
      ↔ ((any_given texts ≡ true) × (all_agree value texts ≡ true))
run_fresh value [] = ground arith
run_fresh value (none ∷ texts) = run_fresh value texts
run_fresh value (some v ∷ texts) =
    ground (arith, =$_iff v value, run_kept v value texts, run_rejected texts)

abbrev pub nothing_collected : Collected
nothing_collected = record { metadata = []; rejected = [] }

-- After all fields of an answer a version text is kept under a key exactly when some field gives a
-- text for it and every field that does gives this very text, which is valid: not blank, at most 128
-- bytes and without control characters. A key with two different texts or one malformed text is
-- absent, in whatever order the fields come, and other keys are not affected.
pub kept_exactly :
    (fields : List Field) (key value : String)
    → let texts = map (given key) fields in
      (lookup (collect_all nothing_collected fields).metadata key ≡ some value)
      ↔ ((any_given texts ≡ true) × (all_agree value texts ≡ true))
unfolding lookup is_rejected
kept_exactly fields key value =
    rw (ap (λ seen. seen.0) (collect_all-view nothing_collected key fields))
      (run_fresh value (map (given key) fields))
