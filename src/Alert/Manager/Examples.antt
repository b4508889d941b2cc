-- ===== src/Alert/Manager/Examples.antt =====
-- One alert key: a delivery, one refused within the cooldown, and one after it.
use Prim.Native.String.{String}
use mathlib.Core.List.{Memᴰ}
use jinko_exporter.Prelude.{◌≤◌, ◌≡◌, refl, ◌↔◌, ◌&&◌, true, [], ◌∷◌, if◌then◌else◌, not}
use jinko_exporter.Prelude.Int.{pos}
use jinko_exporter.Prelude.Text.{◌=$◌}
use jinko_exporter.Alert.Manager.{
  Event, Attempt, update, new_manager, reserve_send, finish_send, mark_active, resolve,
}
use jinko_exporter.Alert.Manager.World.{
  World, Pending, start, wait, reserved, delivered, Reachable, started, stepped, remove,
}
use jinko_exporter.Alert.Manager.InFlight.{under_way}
use jinko_exporter.Alert.Manager.Records.{AreSpaced}
use jinko_exporter.Alert.Manager.Spacing.{deliveries_spaced, one_under_way}
use jinko_exporter.Alert.Manager.Calls.{resolve_exactly, recovers}

abbrev key : String
key = "grid_down_SN1"

abbrev first : Pending
first = record { key = key; cooldown = pos 100; reserved_at = 0 }

abbrev second : Pending
second = record { key = key; cooldown = pos 100; reserved_at = 150 }

abbrev w1 : World
w1 = record {
  manager = (reserve_send (start true (pos 60)).manager key (pos 100) 0).0;
  clock = 0;
  pending = first ∷ [];
  sent = [];
}

abbrev w2 : World
w2 = record {
  manager = finish_send w1.manager key true 0;
  clock = 0;
  pending = remove key w1.pending;
  sent = record { delivery = first; finished_at = 0 } ∷ [];
}

abbrev w3 : World
w3 = record w2 { clock = 150 }

abbrev w4 : World
w4 = record w3 {
  manager = (reserve_send w3.manager key (pos 100) 150).0;
  pending = second ∷ w3.pending;
}

abbrev w5 : World
w5 = record w4 {
  manager = finish_send w4.manager key true 150;
  pending = remove key w4.pending;
  sent = record { delivery = second; finished_at = 150 } ∷ w4.sent;
}

grants_first : (reserve_send (start true (pos 60)).manager key (pos 100) 0).1 ≡ true
unfolding reserve_send new_manager
grants_first = refl

grants_second : (reserve_send w3.manager key (pos 100) 150).1 ≡ true
unfolding reserve_send finish_send update new_manager
grants_second = refl

reached4 : Reachable true (pos 60) w4
reached4 =
    stepped
      (stepped
        (stepped (stepped started (reserved key (pos 100) grants_first))
          (delivered first (Memᴰ.head refl)))
        (wait 150))
      (reserved key (pos 100) grants_second)

reached5 : Reachable true (pos 60) w5
reached5 = stepped reached4 (delivered second (Memᴰ.head refl))

deliveries_spaced_example : AreSpaced w5.sent
deliveries_spaced_example =
    deliveries_spaced {has_notifier = true} {cooldown = pos 60} {w = w5} reached5

one_under_way_example :
    (under_way key w4.pending ≤ 1)
    × ((w4.manager.in_flight key ≡ true) ↔ (under_way key w4.pending ≡ 1))
one_under_way_example = one_under_way {w = w4} key reached4

abbrev event : Event
event = record { key = key; subject = "Grid down"; body = "0 V"; cooldown = pos 0 }

abbrev broken : Attempt
broken = record { reserved_at = 500; failed = true; finished_at = 510 }

abbrev recovery : Event
recovery = record { key = ""; subject = "Grid restored"; body = "230 V"; cooldown = pos 0 }

-- The recovery cannot be delivered, so the condition stays active.
resolve_exactly_example :
    (resolve (mark_active w5.manager key) key recovery true broken).active key ≡ (
      if key =$ key
      then (mark_active w5.manager key).active key
        && (true && not (recovers (mark_active w5.manager key) key recovery true broken))
      else (mark_active w5.manager key).active key)
resolve_exactly_example =
    resolve_exactly (mark_active w5.manager key) key recovery true broken key refl
