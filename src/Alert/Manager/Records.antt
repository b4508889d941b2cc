-- ===== src/Alert/Manager/Records.antt =====
-- What is known of the deliveries that were made, and that one more delivery keeps it.
use Prim.Native.String.{String}
use mathlib.Core.List.{Memᴰ}
use mathlib.Core.Path.{subst}
use jinko_exporter.Prelude.{
  ℕ, ◌+◌, ◌≤◌, ◌≡◌, refl, sym, ap, ◌∙◌, ◌⊎◌, inl, inr, true, false, Option, none, some, List, [],
  ◌∷◌, arith, Bool-cases, All, All-at, All-zip, All-map,
}
use jinko_exporter.Prelude.Int.{pos_part}
use jinko_exporter.Prelude.Text.{◌=$◌, =$_iff}
use jinko_exporter.Alert.Manager.{Manager, update, finish_send}
use jinko_exporter.Alert.Manager.World.{Pending, Delivered, World, remove}
use jinko_exporter.Alert.Manager.InFlight.{AreReserved, alone, All-remove, finished-AreReserved}

-- The last delivery on record is no earlier than this one.
abbrev IsRecorded : Manager → Delivered → Type 0
IsRecorded m d = (t : ℕ) × (m.last_sent d.delivery.key ≡ some t) × (d.finished_at ≤ t)

abbrev pub IsRested : Option ℕ → Pending → Type 0
IsRested none p = Unit
IsRested (some t) p = t + pos_part p.cooldown ≤ p.reserved_at

abbrev pub IsPast : ℕ → Option ℕ → Type 0
IsPast clock none = Unit
IsPast clock (some t) = t ≤ clock

-- A delivery that was reserved its cooldown after another of its key had been finished.
abbrev pub IsApart : Delivered → Delivered → Type 0
IsApart d older =
    older.delivery.key ≡ d.delivery.key
    → older.finished_at + pos_part d.delivery.cooldown ≤ d.delivery.reserved_at

abbrev pub AreSpaced : List Delivered → Type 0
AreSpaced [] = Unit
AreSpaced (d ∷ older) = All (IsApart d) older × AreSpaced older

pub record IsSound (w : World) : Type 0 where
  pub reserved_once : AreReserved w.manager w.pending
  pub past : (key : String) → IsPast w.clock (w.manager.last_sent key)
  pub recorded : All (IsRecorded w.manager) w.sent
  pub rested : All (λ p. IsRested (w.manager.last_sent p.key) p) w.pending
  pub spaced : AreSpaced w.sent

update_self :
    {A : Type 0} (f : String → A) (key other : String) (v : A)
    → key ≡ other
    → update f key v other ≡ v
unfolding update
update_self f key other v h = rw ((=$_iff key other).1 h, update)

update_other :
    {A : Type 0} (f : String → A) (key other : String) (v : A)
    → (key =$ other) ≡ false
    → update f key v other ≡ f other
unfolding update
update_other f key other v h = rw (h, update)

updated :
    {A : Type 0} (f : String → A) (key other : String) (v : A)
    → ((key ≡ other) × (update f key v other ≡ v)) ⊎ (update f key v other ≡ f other)
updated f key other v = elim (Bool-cases (key =$ other)) [
  | inl same ↦ let e = (=$_iff key other).0 same in inl (e, update_self f key other v e)
  | inr other' ↦ inr (update_other f key other v other')
]

module _ (w : World) (p : Pending) (sound : IsSound w) (at : Memᴰ p w.pending) where
  abbrev pub after : Manager
  after = finish_send w.manager p.key true w.clock

  last_sent-cases :
      (key : String)
      → ((p.key ≡ key) × (after.last_sent key ≡ some w.clock))
        ⊎ (after.last_sent key ≡ w.manager.last_sent key)
  unfolding finish_send
  last_sent-cases key = updated w.manager.last_sent p.key key (some w.clock)

  delivered-IsPast : (key : String) → IsPast w.clock (after.last_sent key)
  delivered-IsPast key = elim (last_sent-cases key) [
    | inl (e, last) ↦ subst (IsPast w.clock) (sym last) (omega arith)
    | inr last ↦ subst (IsPast w.clock) (sym last) (sound.past key)
  ]

  delivered-IsRecorded : (d : Delivered) → IsRecorded w.manager d → IsRecorded after d
  delivered-IsRecorded d (t, e, le) = elim (last_sent-cases d.delivery.key) [
    | inl (same, last) ↦
        let before = subst (IsPast w.clock) e (sound.past d.delivery.key) in
        (w.clock, last, omega (arith, before, le))
    | inr last ↦ (t, last ∙ e, le)
  ]

  delivered_now : IsRecorded after (record { delivery = p; finished_at = w.clock })
  unfolding finish_send
  delivered_now =
      (w.clock, update_self w.manager.last_sent p.key p.key (some w.clock) refl, omega arith)

  delivered-IsRested :
      (q : Pending)
      → (q.key =$ p.key) ≡ false
      → IsRested (w.manager.last_sent q.key) q
      → IsRested (after.last_sent q.key) q
  delivered-IsRested q other h = elim (last_sent-cases q.key) [
    | inl (same, last) ↦ absurd (cc (other, (=$_iff q.key p.key).1 (sym same)))
    | inr last ↦ subst (λ x. IsRested x q) (sym last) h
  ]

  delivered-IsApart :
      (d : Delivered)
      → IsRecorded w.manager d
      → IsApart (record { delivery = p; finished_at = w.clock }) d
  delivered-IsApart d (t, e, le) same =
      let h = All-at (λ p. IsRested (w.manager.last_sent p.key) p) w.pending at sound.rested in
      let h' = subst (λ x. IsRested x p) (ap w.manager.last_sent (sym same) ∙ e) h in
      omega (arith, h', le)

  pub delivered-IsSound : IsSound (record w {
    manager = after;
    pending = remove p.key w.pending;
    sent = record { delivery = p; finished_at = w.clock } ∷ w.sent;
  })
  delivered-IsSound = record {
    reserved_once = finished-AreReserved w.manager w.pending p true w.clock at sound.reserved_once;
    past = delivered-IsPast;
    recorded = (delivered_now, All-map delivered-IsRecorded w.sent sound.recorded);
    rested =
        All-zip delivered-IsRested (remove p.key w.pending)
          (alone w.manager w.pending p at sound.reserved_once)
          (All-remove _ p.key w.pending sound.rested);
    spaced = (All-map delivered-IsApart w.sent sound.recorded, sound.spaced);
  }
