-- ===== src/HomeAssistant/Streams/Combined.antt =====
-- What is published together: each stream's own part, and nothing else.
pub mod Parts
use Prim.Native.String.{String}
use mathlib.Core.List.{◌++◌ as append}
use jinko_exporter.Prelude.{
  ◌≡◌, refl, sym, ap, ◌∙◌, Bool, true, false, ◌&&◌, ◌||◌, not, Bool-cases, Option, none, some,
  Option-cases, inl, inr, List, [], ◌∷◌, arith, if◌then◌else◌,
}
use jinko_exporter.Model.{Metric, Snapshot}
use jinko_exporter.HomeAssistant.Ids.{is_group, is_meta_key, group_apart, meta_key_apart}
use jinko_exporter.HomeAssistant.Streams.{
  Stream, Publisher, filter, while_up, add_meter, combined, combine_inverter,
  owns_independent_metric, owns_independent_meta, not_owned, not_owned_meta, grid_meter_metadata,
  no_reading,
}
use jinko_exporter.HomeAssistant.Streams.Calls.{all_in_group}

module _ {A : Type 0} where
  pub append_empty : (xs : List A) → xs ≡ append xs []
  append_empty [] = refl
  append_empty (x ∷ xs) = ap (λ ys. x ∷ ys) (append_empty xs)

  pub filter-append :
      (f : A → Bool) (xs ys : List A) → filter f (append xs ys) ≡ append (filter f xs) (filter f ys)
  unfolding filter
  filter-append f [] ys = refl
  filter-append f (x ∷ xs) ys = ground (arith, filter-append f xs ys)

  -- Of what one test keeps, a test that agrees keeps all and one that contradicts keeps nothing.
  pub filter-keeps :
      (f g : A → Bool) (xs : List A)
      → ((x : A) → g x ≡ true → f x ≡ true)
      → filter f (filter g xs) ≡ filter g xs
  unfolding filter
  filter-keeps f g [] h = refl
  filter-keeps f g (x ∷ xs) h = elim (Bool-cases (g x)) [
    | inl kept ↦ rw kept (rw (h x kept, filter-keeps f g xs h) refl)
    | inr gone ↦ rw gone (filter-keeps f g xs h)
  ]

  pub filter-drops :
      (f g : A → Bool) (xs : List A)
      → ((x : A) → g x ≡ true → f x ≡ false)
      → filter f (filter g xs) ≡ []
  unfolding filter
  filter-drops f g [] h = refl
  filter-drops f g (x ∷ xs) h = elim (Bool-cases (g x)) [
    | inl kept ↦ rw kept (rw (h x kept) (filter-drops f g xs h))
    | inr gone ↦ rw gone (filter-drops f g xs h)
  ]

module _ {V : Type 0} where
  abbrev pub in_group : String → Metric V → Bool
  in_group group m = is_group group m.group

  abbrev pub metrics_of : Option (Snapshot V) → List (Metric V)
  metrics_of none = []
  metrics_of (some s) = s.metrics

  abbrev pub meta_of : Option (Snapshot V) → List (String × String)
  meta_of none = []
  meta_of (some s) = s.meta

  -- All metrics of a stream's snapshot are in its group.
  abbrev pub IsOwn : String → Option (Snapshot V) → Type 0
  IsOwn group s = all_in_group group (metrics_of s) ≡ true

  pub own-keeps :
      (f : Metric V → Bool) (group : String) (ms : List (Metric V))
      → ((m : Metric V) → is_group group m.group ≡ true → f m ≡ true)
      → all_in_group group ms ≡ true
      → filter f ms ≡ ms
  unfolding filter all_in_group
  own-keeps f group [] h own = refl
  own-keeps f group (m ∷ ms) h own = elim (Bool-cases (is_group group m.group)) [
    | inl inside ↦ rw (h m inside, own-keeps f group ms h (rw inside at own)) refl
    | inr outside ↦ absurd (cc (rw outside at own))
  ]

  pub own-drops :
      (f : Metric V → Bool) (group : String) (ms : List (Metric V))
      → ((m : Metric V) → is_group group m.group ≡ true → f m ≡ false)
      → all_in_group group ms ≡ true
      → filter f ms ≡ []
  unfolding filter all_in_group
  own-drops f group [] h own = refl
  own-drops f group (m ∷ ms) h own = elim (Bool-cases (is_group group m.group)) [
    | inl inside ↦ rw (h m inside) (own-drops f group ms h (rw inside at own))
    | inr outside ↦ absurd (cc (rw outside at own))
  ]

  pub while_up-IsOwn :
      (group : String) (enabled : Bool) (s : Stream V)
      → IsOwn group s.snapshot
      → IsOwn group (while_up enabled s)
  unfolding while_up all_in_group
  while_up-IsOwn group enabled s own = ground arith

  pub add_meter-metrics :
      (group : String) (s : Option (Snapshot V)) (c : Snapshot V)
      → (add_meter group s c).metrics ≡ append c.metrics (metrics_of s)
  unfolding add_meter
  add_meter-metrics group none c = append_empty c.metrics
  add_meter-metrics group (some s) c = refl

  pub add_meter-meta :
      (group : String) (s : Option (Snapshot V)) (c : Snapshot V)
      → (add_meter group s c).meta ≡ append (grid_meter_metadata (meta_of s) group) c.meta
  unfolding add_meter filter
  add_meter-meta group none c = refl
  add_meter-meta group (some s) c = refl
