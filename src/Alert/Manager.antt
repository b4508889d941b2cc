-- ===== src/Alert/Manager.antt =====
-- bridge/internal/alert/manager.go: which alerts are sent, and which conditions are active.
pub mod World
pub mod InFlight
pub mod Records
pub mod Spacing
pub mod Calls
mod Examples
use Prim.Native.String.{String, ◌++◌}
use jinko_exporter.Prelude.{
  ℕ, ◌+◌, Bool, true, false, not, ◌&&◌, ◌||◌, Option, none, some, ltb, if◌then◌else◌,
}
use jinko_exporter.Prelude.Int.{ℤ, pos, pos_part, ltb_ℤ}
use jinko_exporter.Prelude.Text.{◌=$◌, is_empty}

-- The assignment `f[key] = v` to a map.
unfoldable pub update {ℓ} : {A : Type ℓ} → (String → A) → String → A → String → A
update f key v other = if key =$ other then v else f other

pub record Event : Type 0 where
  pub key : String
  pub subject : String
  pub body : String
  pub cooldown : ℤ

-- A set is its characteristic function. Times are readings of the monotonic clock in nanoseconds.
pub record Manager : Type 0 where
  pub has_notifier : Bool
  pub cooldown : ℤ
  pub last_sent : String → Option ℕ
  pub active : String → Bool
  pub in_flight : String → Bool

unfoldable pub new_manager : Bool → ℤ → Manager
new_manager has_notifier cooldown = record {
  has_notifier = has_notifier;
  cooldown = cooldown;
  last_sent = λ key. none;
  active = λ key. false;
  in_flight = λ key. false;
}

-- `time.Since(lastSent) < cooldown` for a positive cooldown
abbrev pub too_soon : ℤ → Option ℕ → ℕ → Bool
too_soon cooldown none now = false
too_soon cooldown (some last_sent) now =
    ltb_ℤ (pos 0) cooldown && ltb now (last_sent + pos_part cooldown)

unfoldable pub reserve_send : Manager → String → ℤ → ℕ → Manager × Bool
reserve_send m key cooldown now =
    if m.in_flight key
    then (m, false)
    else if too_soon cooldown (m.last_sent key) now
    then (m, false)
    else (record m { in_flight = update m.in_flight key true }, true)

unfoldable pub finish_send : Manager → String → Bool → ℕ → Manager
finish_send m key delivered now = record m {
  in_flight = update m.in_flight key false;
  last_sent = if delivered then update m.last_sent key (some now) else m.last_sent;
}

unfoldable pub mark_active : Manager → String → Manager
mark_active m key = record m { active = update m.active key true }

unfoldable pub mark_resolved : Manager → String → Manager × Bool
mark_resolved m key =
    if m.active key then (record m { active = update m.active key false }, true) else (m, false)

abbrev pub event_key : Event → String
event_key e = if is_empty e.key then e.subject else e.key

abbrev pub event_cooldown : Manager → Event → ℤ
event_cooldown m e = if ltb_ℤ (pos 0) e.cooldown then e.cooldown else m.cooldown

-- What happens outside the manager during one delivery: the clock when it is reserved, whether the
-- notifier returns an error, the clock when it is finished.
pub record Attempt : Type 0 where
  pub reserved_at : ℕ
  pub failed : Bool
  pub finished_at : ℕ

unfoldable pub notify_delivered : Manager → Event → Attempt → Manager × Bool
notify_delivered m e a =
    if not m.has_notifier
    then (m, false)
    else (let r = reserve_send m (event_key e) (event_cooldown m e) a.reserved_at in
        if not r.1
        then (r.0, false)
        else (if a.failed
            then (finish_send r.0 (event_key e) false a.finished_at, false)
            else (finish_send r.0 (event_key e) true a.finished_at, true)))

unfoldable pub notify_active : Manager → Event → Attempt → Manager
notify_active m e a =
    (notify_delivered (mark_active m (event_key e)) (record e { key = event_key e }) a).0

-- The recovery as `Resolve` sends it.
unfoldable pub recovery_event : String → Event → Event
recovery_event active_key recovery = record recovery {
  key = if is_empty recovery.key then active_key ++ "_recovered" else recovery.key;
}

unfoldable pub resolve : Manager → String → Event → Bool → Attempt → Manager
resolve m active_key recovery notify a =
    if is_empty active_key
    then m
    else (let r = mark_resolved m active_key in
        if not r.1
        then r.0
        else (if not notify
            then r.0
            else (let sent = notify_delivered r.0 (recovery_event active_key recovery) a in
                if not sent.1 then mark_active sent.0 active_key else sent.0)))
