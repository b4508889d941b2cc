-- ===== src/Alert/Manager/World.antt =====
-- Calls of the alert manager that interleave: each critical section is one step.
use Prim.Native.String.{String}
use mathlib.Core.List.{Memᴰ}
use jinko_exporter.Prelude.{ℕ, ◌+◌, ◌≡◌, Bool, true, false, List, [], ◌∷◌, if◌then◌else◌}
use jinko_exporter.Prelude.Int.{ℤ}
use jinko_exporter.Prelude.Text.{◌=$◌}
use jinko_exporter.Alert.Manager.{
  Manager, reserve_send, finish_send, mark_active, mark_resolved, new_manager,
}

-- A delivery between `reserveSend` and `finishSend`.
pub record Pending : Type 0 where
  pub key : String
  pub cooldown : ℤ
  pub reserved_at : ℕ

pub record Delivered : Type 0 where
  pub delivery : Pending
  pub finished_at : ℕ

-- The deliveries that were made are listed from the last.
pub record World : Type 0 where
  pub manager : Manager
  pub clock : ℕ
  pub pending : List Pending
  pub sent : List Delivered

unfoldable pub remove : String → List Pending → List Pending
remove key [] = []
remove key (p ∷ pending) =
    let rest = remove key pending in if p.key =$ key then pending else p ∷ rest

abbrev pub start : Bool → ℤ → World
start has_notifier cooldown = record {
  manager = new_manager has_notifier cooldown;
  clock = 0;
  pending = [];
  sent = [];
}

pub data Step (w : World) : World → Type 0 where
  wait : (n : ℕ) → Step w (record w { clock = w.clock + n })
  reserved :
      (key : String) (cooldown : ℤ)
      → (reserve_send w.manager key cooldown w.clock).1 ≡ true
      → Step w (record w {
        manager = (reserve_send w.manager key cooldown w.clock).0;
        pending = record { key = key; cooldown = cooldown; reserved_at = w.clock } ∷ w.pending;
      })
  refused :
      (key : String) (cooldown : ℤ)
      → (reserve_send w.manager key cooldown w.clock).1 ≡ false
      → Step w (record w { manager = (reserve_send w.manager key cooldown w.clock).0 })
  failed :
      (p : Pending)
      → Memᴰ p w.pending
      → Step w (record w {
        manager = finish_send w.manager p.key false w.clock;
        pending = remove p.key w.pending;
      })
  delivered :
      (p : Pending)
      → Memᴰ p w.pending
      → Step w (record w {
        manager = finish_send w.manager p.key true w.clock;
        pending = remove p.key w.pending;
        sent = record { delivery = p; finished_at = w.clock } ∷ w.sent;
      })
  activated : (key : String) → Step w (record w { manager = mark_active w.manager key })
  resolved : (key : String) → Step w (record w { manager = (mark_resolved w.manager key).0 })

-- What a manager can come to after `NewManager`.
pub data Reachable (has_notifier : Bool) (cooldown : ℤ) : World → Type 0 where
  started : Reachable has_notifier cooldown (start has_notifier cooldown)
  stepped :
      {w w' : World}
      → Reachable has_notifier cooldown w
      → Step w w'
      → Reachable has_notifier cooldown w'
