-- ===== src/Alert/Manager/Spacing.antt =====
-- Deliveries of one alert key: one at a time, and a cooldown apart.
use Prim.Native.String.{String}
use mathlib.Core.List.{Memᴰ}
use mathlib.Core.Path.{subst}
use jinko_exporter.Prelude.{
  ℕ, ◌+◌, ◌≤◌, ◌≡◌, refl, sym, inl, inr, Bool, true, false, Option, none, some, ◌∷◌, arith,
  Bool-cases, ◌↔◌,
}
use jinko_exporter.Prelude.Int.{ℤ}
use jinko_exporter.Alert.Manager.{
  Manager, update, reserve_send, finish_send, mark_active, mark_resolved, new_manager, too_soon,
}
use jinko_exporter.Alert.Manager.World.{
  Pending, World, remove, start, Step, wait, reserved, refused, failed, delivered, activated,
  resolved, Reachable, started, stepped,
}
use jinko_exporter.Alert.Manager.InFlight.{
  under_way, All-remove, reserve_send-true, reserve_send-false, reserved-AreReserved,
  finished-AreReserved,
}
use jinko_exporter.Alert.Manager.Records.{IsSound, IsRested, IsPast, AreSpaced, delivered-IsSound}

started-IsSound : (has_notifier : Bool) (cooldown : ℤ) → IsSound (start has_notifier cooldown)
unfolding new_manager under_way
started-IsSound has_notifier cooldown = record {
  reserved_once = λ key. refl;
  past = λ key. tt;
  recorded = tt;
  rested = tt;
  spaced = tt;
}

later-IsPast : (clock n : ℕ) (last : Option ℕ) → IsPast clock last → IsPast (clock + n) last
later-IsPast clock n none h = tt
later-IsPast clock n (some t) h = omega arith

-- A delivery that was let through is its cooldown after the last one.
let_through :
    (last : Option ℕ) (p : Pending)
    → IsPast p.reserved_at last
    → too_soon p.cooldown last p.reserved_at ≡ false
    → IsRested last p
let_through none p past h = tt
let_through (some t) p past h = ground (arith, h, past)

reserved-IsSound :
    (w : World) (key : String) (cooldown : ℤ)
    → IsSound w
    → (reserve_send w.manager key cooldown w.clock).1 ≡ true
    → IsSound (record w {
      manager = record w.manager { in_flight = update w.manager.in_flight key true };
      pending = record { key = key; cooldown = cooldown; reserved_at = w.clock } ∷ w.pending;
    })
reserved-IsSound w key cooldown sound granted =
    let (free, rest, e) = reserve_send-true w.manager key cooldown w.clock granted in
    let p : Pending = record { key = key; cooldown = cooldown; reserved_at = w.clock } in
    record {
      reserved_once = reserved-AreReserved w.manager w.pending p free sound.reserved_once;
      past = sound.past;
      recorded = sound.recorded;
      rested = (let_through (w.manager.last_sent key) p (sound.past key) rest, sound.rested);
      spaced = sound.spaced;
    }

failed-IsSound :
    (w : World) (p : Pending)
    → IsSound w
    → Memᴰ p w.pending
    → IsSound (record w {
      manager = finish_send w.manager p.key false w.clock;
      pending = remove p.key w.pending;
    })
unfolding finish_send
failed-IsSound w p sound at = record {
  reserved_once = finished-AreReserved w.manager w.pending p false w.clock at sound.reserved_once;
  past = sound.past;
  recorded = sound.recorded;
  rested = All-remove _ p.key w.pending sound.rested;
  spaced = sound.spaced;
}

-- A step on the manager that touches no delivery keeps all that is known of deliveries.
quiet-IsSound :
    (w : World) (active : String → Bool)
    → IsSound w
    → IsSound (record w { manager = record w.manager { active = active } })
quiet-IsSound w active sound = record {
  reserved_once = sound.reserved_once;
  past = sound.past;
  recorded = sound.recorded;
  rested = sound.rested;
  spaced = sound.spaced;
}

mark_resolved-active :
    (m : Manager) (key : String)
    → (active : String → Bool) × (record m { active = active } ≡ (mark_resolved m key).0)
unfolding mark_resolved
mark_resolved-active m key = elim (Bool-cases (m.active key)) [
  | inl on ↦ (update m.active key false, ground (arith, on))
  | inr off ↦ (m.active, ground (arith, off))
]

-- A manager in its place, up to equality.
manager-IsSound :
    {m m' : Manager} (w : World)
    → m ≡ m'
    → IsSound (record w { manager = m })
    → IsSound (record w { manager = m' })
manager-IsSound w e sound = subst (λ m. IsSound (record w { manager = m })) e sound

Step-IsSound : {w w' : World} → IsSound w → Step w w' → IsSound w'
unfolding mark_active
Step-IsSound {w = w} sound (wait n) = record {
  reserved_once = sound.reserved_once;
  past = λ key. later-IsPast w.clock n (w.manager.last_sent key) (sound.past key);
  recorded = sound.recorded;
  rested = sound.rested;
  spaced = sound.spaced;
}
Step-IsSound {w = w} sound (reserved key cooldown granted) =
    let (free, rest, e) = reserve_send-true w.manager key cooldown w.clock granted in
    manager-IsSound
      (record w {
        pending = record { key = key; cooldown = cooldown; reserved_at = w.clock } ∷ w.pending;
      })
      (sym e) (reserved-IsSound w key cooldown sound granted)
Step-IsSound {w = w} sound (refused key cooldown denied) =
    manager-IsSound w (sym (reserve_send-false w.manager key cooldown w.clock denied)) sound
Step-IsSound {w = w} sound (failed p at) = failed-IsSound w p sound at
Step-IsSound {w = w} sound (delivered p at) = delivered-IsSound w p sound at
Step-IsSound {w = w} sound (activated key) =
    quiet-IsSound w (update w.manager.active key true) sound
Step-IsSound {w = w} sound (resolved key) =
    let (active, e) = mark_resolved-active w.manager key in
    manager-IsSound w e (quiet-IsSound w active sound)

Reachable-IsSound :
    {has_notifier : Bool} {cooldown : ℤ} {w : World} → Reachable has_notifier cooldown w → IsSound w
Reachable-IsSound {has_notifier = b} {cooldown = c} started = started-IsSound b c
Reachable-IsSound (stepped before step) = Step-IsSound (Reachable-IsSound before) step

module _ {has_notifier : Bool} {cooldown : ℤ} where
  -- However the calls of a manager interleave, two deliveries of one key are a cooldown apart: the
  -- later one was reserved no earlier than its own cooldown after the earlier one had been finished.
  pub deliveries_spaced : {w : World} → Reachable has_notifier cooldown w → AreSpaced w.sent
  deliveries_spaced reached = (Reachable-IsSound reached).spaced

  -- However the calls of a manager interleave, at most one delivery of a key is under way, and the
  -- manager's set of keys in flight says for each key whether one is.
  pub one_under_way :
      {w : World} (key : String)
      → Reachable has_notifier cooldown w
      → (under_way key w.pending ≤ 1)
        × ((w.manager.in_flight key ≡ true) ↔ (under_way key w.pending ≡ 1))
  one_under_way {w = w} key reached =
      let h = (Reachable-IsSound reached).reserved_once key in ground (arith, h)
