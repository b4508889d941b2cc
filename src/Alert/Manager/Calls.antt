-- ===== src/Alert/Manager/Calls.antt =====
-- What whole calls of the alert manager do, with nothing else running.
use Prim.Native.String.{String}
use jinko_exporter.Prelude.{
  ℕ, ◌≡◌, refl, ap, ◌↔◌, ◌⊎◌, inl, inr, Bool, true, false, not, ◌&&◌, Option, some, arith,
  if◌then◌else◌, Bool-cases, sym, ◌∙◌,
}
use jinko_exporter.Prelude.Text.{◌=$◌, =$_iff, is_empty}
use jinko_exporter.Alert.Manager.{
  Manager, Event, Attempt, update, reserve_send, finish_send, too_soon, event_key, event_cooldown,
  notify_delivered, mark_active, mark_resolved, resolve, recovery_event,
}

-- Taking a key in and out of a set it is not in changes nothing.
released :
    (f : String → Bool) (key k : String)
    → f key ≡ false
    → update (update f key true) key false k ≡ f k
unfolding update
released f key k free = elim (Bool-cases (key =$ k)) [
  | inl same ↦ ground (arith, same, free, ap f ((=$_iff key k).0 same))
  | inr other ↦ ground (arith, other)
]

recorded :
    (done : Bool) (f : String → Option ℕ) (key k : String) (now : ℕ)
    → (if done then update f key (some now) else f) k
      ≡ (if done && (key =$ k) then some now else f k)
unfolding update
recorded true f key k now = refl
recorded false f key k now = refl

module _ (m : Manager) (e : Event) (a : Attempt) where
  -- A call delivers an event exactly when there is a notifier, no other delivery of the event's key
  -- is in flight, its cooldown is over, and the notifier returns no error.
  delivers_exactly : ((notify_delivered m e a).1 ≡ true) ↔ (
      (m.has_notifier ≡ true)
      × (m.in_flight (event_key e) ≡ false)
      × (too_soon (event_cooldown m e) (m.last_sent (event_key e)) a.reserved_at ≡ false)
      × (a.failed ≡ false))
  unfolding notify_delivered reserve_send
  delivers_exactly = ground arith

  -- The three ways a call ends: turned away, failed, delivered.
  delivery-cases :
      ((notify_delivered m e a ≡ (m, false)))
      ⊎ (m.in_flight (event_key e) ≡ false)
        × (notify_delivered m e a ≡ (
          record m {
            in_flight = update (update m.in_flight (event_key e) true) (event_key e) false;
            last_sent =
                if not a.failed
                then update m.last_sent (event_key e) (some a.finished_at)
                else m.last_sent;
          },
          not a.failed,
        ))
  unfolding notify_delivered reserve_send finish_send
  delivery-cases = ground arith

  -- A call leaves the keys in flight and the active conditions as they were, and moves the time of
  -- the last delivery for its own key alone and only when it delivered.
  delivery_effects :
      (k : String)
      → ((notify_delivered m e a).0.in_flight k ≡ m.in_flight k)
        × ((notify_delivered m e a).0.active k ≡ m.active k)
        × ((notify_delivered m e a).0.last_sent k ≡ (
            if (notify_delivered m e a).1 && (event_key e =$ k)
            then some a.finished_at
            else m.last_sent k))
  delivery_effects k = elim delivery-cases [
    | inl h ↦ rw h (refl, refl, refl)
    | inr (free, h) ↦ rw h (
      released m.in_flight (event_key e) k free,
      refl,
      recorded (not a.failed) m.last_sent (event_key e) k a.finished_at,
    )
  ]

mark_resolved-active :
    (m : Manager) (key : String)
    → m.active key ≡ true
    → mark_resolved m key ≡ (record m { active = update m.active key false }, true)
unfolding mark_resolved
mark_resolved-active m key on = rw on

mark_resolved-quiet :
    (m : Manager) (key : String) → m.active key ≡ false → mark_resolved m key ≡ (m, false)
unfolding mark_resolved
mark_resolved-quiet m key off = rw off

-- A recovery that was not delivered marks the condition active again.
retried :
    (sent : Manager × Bool) (f : String → Bool) (key k : String)
    → sent.0.active k ≡ update f key false k
    → (if not sent.1 then mark_active sent.0 key else sent.0).active k
      ≡ (if key =$ k then not sent.1 else f k)
unfolding mark_active update
retried (m, true) f key k h = h
retried (m, false) f key k h = elim (Bool-cases (key =$ k)) [
  | inl same ↦ ground (arith, same, h)
  | inr other ↦ ground (arith, other, h)
]

inactive_stays :
    (f : String → Bool) (key k : String) (rest : Bool)
    → f key ≡ false
    → f k ≡ (if key =$ k then f key && rest else f k)
inactive_stays f key k rest off = elim (Bool-cases (key =$ k)) [
  | inl same ↦ ground (arith, same, off, ap f ((=$_iff key k).0 same))
  | inr other ↦ ground (arith, other)
]

cleared_stays :
    (f : String → Bool) (key k : String) (notify rest : Bool)
    → notify ≡ false
    → update f key false k ≡ (if key =$ k then f key && (notify && rest) else f k)
unfolding update
cleared_stays f key k notify rest silent = elim (Bool-cases (key =$ k)) [
  | inl same ↦ ground (arith, same, silent)
  | inr other ↦ ground (arith, other)
]

recovery_due :
    (f : String → Bool) (key k : String) (notify b c : Bool)
    → f key ≡ true
    → notify ≡ true
    → b ≡ c
    → (if key =$ k then not b else f k) ≡ (if key =$ k then f key && (notify && not c) else f k)
recovery_due f key k notify b c on loud same = ground (arith, on, loud, same)

module _ (m : Manager) (active_key : String) (recovery : Event) (notify : Bool) (a : Attempt) where
  -- Whether the recovery is delivered.
  abbrev pub recovers : Bool
  recovers =
      (notify_delivered (mark_resolved m active_key).0 (recovery_event active_key recovery) a).1

  abbrev cleared : Manager
  cleared = record m { active = update m.active active_key false }

  abbrev sent : Manager × Bool
  sent = notify_delivered cleared (recovery_event active_key recovery) a

  resolve-quiet :
      is_empty active_key ≡ false
      → m.active active_key ≡ false
      → resolve m active_key recovery notify a ≡ m
  unfolding resolve
  resolve-quiet named off = rw (named, mark_resolved-quiet m active_key off)

  resolve-silent :
      is_empty active_key ≡ false
      → m.active active_key ≡ true
      → notify ≡ false
      → resolve m active_key recovery notify a ≡ cleared
  unfolding resolve
  resolve-silent named on silent = rw (named, mark_resolved-active m active_key on, silent)

  resolve-loud :
      is_empty active_key ≡ false
      → m.active active_key ≡ true
      → notify ≡ true
      → resolve m active_key recovery notify a
        ≡ (if not sent.1 then mark_active sent.0 active_key else sent.0)
  unfolding resolve
  resolve-loud named on loud = rw (named, mark_resolved-active m active_key on, loud)

  sent-eq-recovers : m.active active_key ≡ true → sent.1 ≡ recovers
  sent-eq-recovers on =
      ap (λ (r : Manager × Bool). (notify_delivered r.0 (recovery_event active_key recovery) a).1)
        (sym (mark_resolved-active m active_key on))

  -- After `Resolve` of a named condition that condition is active exactly when it was, its recovery
  -- is to be notified, and the notification was not delivered, so that a later clear snapshot tries
  -- again. No other condition changes.
  pub resolve_exactly :
      (k : String)
      → is_empty active_key ≡ false
      → (resolve m active_key recovery notify a).active k
        ≡ (if active_key =$ k then m.active active_key && (notify && not recovers) else m.active k)
  resolve_exactly k named = elim (Bool-cases (m.active active_key)) [
    | inr off ↦
        ap (λ (x : Manager). x.active k) (resolve-quiet named off)
        ∙ inactive_stays m.active active_key k (notify && not recovers) off
    | inl on ↦ elim (Bool-cases notify) [
      | inr silent ↦
          ap (λ (x : Manager). x.active k) (resolve-silent named on silent)
          ∙ cleared_stays m.active active_key k notify (not recovers) silent
      | inl loud ↦
          ap (λ (x : Manager). x.active k) (resolve-loud named on loud)
          ∙ retried sent m.active active_key k
              (delivery_effects cleared (recovery_event active_key recovery) a k).1
          ∙ recovery_due m.active active_key k notify sent.1 recovers on loud (sent-eq-recovers on)
    ]
  ]
