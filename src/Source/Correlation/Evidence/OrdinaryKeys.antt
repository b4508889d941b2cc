-- ===== src/Source/Correlation/Evidence/OrdinaryKeys.antt =====
-- What a job knows of the metrics of the Modbus snapshot that it was made of.
use Prim.Native.String.{String}
use mathlib.Core.List.{Memᴰ}
use jinko_exporter.Prelude.{
  ◌≡◌, refl, ◌⊎◌, inl, inr, ◌||◌, ap, some, List, [], ◌∷◌, Option-cases, Bool-cases, arith,
}
use jinko_exporter.Prelude.Int.{ℤ}
use jinko_exporter.Prelude.Text.{=$_iff, ◌=$◌, is_empty, trim_space}
use jinko_exporter.Model.{Metric}
use jinko_exporter.Source.Correlation.Worker.{
  MetricIdentity, find_identity, add_identity, clone_ordinary_metric_keys,
}

-- A metric of a Modbus snapshot with this key, group and unit, spaces at the ends aside.
abbrev pub HasNames : String → String → String → Metric ℤ → Type 0
HasNames key group unit o =
    (trim_space o.key ≡ key) × (trim_space o.group ≡ group) × (trim_space o.unit ≡ unit)

added :
    (keys : List (String × MetricIdentity)) (k key : String) (j i : MetricIdentity)
    → find_identity (add_identity keys k j) key ≡ some i
    → (find_identity keys key ≡ some i) ⊎ ((k ≡ key) × (j ≡ i))
unfolding find_identity
added keys k key j i h = elim (Option-cases (find_identity keys k)) [
  | inr (other, there) ↦ inl (ground (arith, there, h))
  | inl absent ↦ ground (arith, absent, h, =$_iff k key)
]

-- What the ordinary keys of a snapshot say of a key is what one of its metrics says.
abbrev pub Says : List (Metric ℤ) → String → MetricIdentity → Type 0
Says metrics key i = (o : Metric ℤ) × Memᴰ o metrics × HasNames key i.group i.unit o

Says-later :
    (m : Metric ℤ) (metrics : List (Metric ℤ)) (key : String) (i : MetricIdentity)
    → Says metrics key i
    → Says (m ∷ metrics) key i
Says-later m metrics key i (o, at, same) = (o, Memᴰ.tail at, same)

abbrev identity_of : Metric ℤ → MetricIdentity
identity_of m = record { group = trim_space m.group; unit = trim_space m.unit }

Says-here :
    (keys : List (String × MetricIdentity)) (m : Metric ℤ) (metrics : List (Metric ℤ))
    (key : String) (i : MetricIdentity)
    → find_identity (add_identity keys (trim_space m.key) (identity_of m)) key ≡ some i
    → (find_identity keys key ≡ some i) ⊎ Says (m ∷ metrics) key i
Says-here keys m metrics key i h = elim (added keys (trim_space m.key) key (identity_of m) i h) [
  | inl before ↦ inl before
  | inr (same, is) ↦ inr (
    m,
    Memᴰ.head refl,
    (same, ap (λ (x : MetricIdentity). x.group) is, ap (λ (x : MetricIdentity). x.unit) is),
  )
]

cloned :
    (keys : List (String × MetricIdentity)) (metrics : List (Metric ℤ)) (key : String)
    (i : MetricIdentity)
    → find_identity (clone_ordinary_metric_keys keys metrics) key ≡ some i
    → (find_identity keys key ≡ some i) ⊎ Says metrics key i
unfolding clone_ordinary_metric_keys
cloned keys [] key i h = inl h
cloned keys (m ∷ metrics) key i h =
    elim (Bool-cases (trim_space m.group =$ "alert" || is_empty (trim_space m.key))) [
      | inl skipped ↦ elim (cloned keys metrics key i (rw skipped at h)) [
        | inl before ↦ inl before
        | inr later ↦ inr (Says-later m metrics key i later)
      ]
      | inr ordinary ↦
          elim (cloned (add_identity keys (trim_space m.key) (identity_of m)) metrics key i
            (rw ordinary at h)) [
              | inl here ↦ Says-here keys m metrics key i here
              | inr later ↦ inr (Says-later m metrics key i later)
            ]
    ]

pub snapshot-Says :
    (metrics : List (Metric ℤ)) (key : String) (i : MetricIdentity)
    → find_identity (clone_ordinary_metric_keys [] metrics) key ≡ some i
    → Says metrics key i
unfolding find_identity
snapshot-Says metrics key i h = elim (cloned [] metrics key i h) [
  | inl nothing ↦ absurd (cc (nothing))
  | inr says ↦ says
]
