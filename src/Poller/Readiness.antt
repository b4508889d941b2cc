-- ===== src/Poller/Readiness.antt =====
-- What readiness says of the polls that were made.
use Prim.Native.String.{String}
use mathlib.Core.List.{Memᴰ}
use jinko_exporter.Prelude.{
  ℕ, ◌+◌, ◌/◌, ◌≤◌, ◌≡◌, refl, ap, ◌∙◌, ◌⊎◌, inl, inr, true, Option, none, some, List, [], ◌∷◌,
  arith, Option-cases,
}
use jinko_exporter.Prelude.Int.{ℤ, pos, ltb_ℤ, pos_part}
use jinko_exporter.Model.{Snapshot}
use jinko_exporter.Poller.{
  State, Polled, panicked, failed, nil_snapshot, fetched, Poll, new_state, ready, record_success,
  record_failure, poll_once, run, no_successful_poll_monitor_interval,
}
use mathlib.Core.Path.{subst}

module _ {V : Type 0} where
  -- The state shows what a poll fetched, at the time it did.
  abbrev pub IsShownBy : State V → Poll V → Type 0
  IsShownBy s p =
      (snapshot : Snapshot V) × (late : Option (String × ℕ)) × (p.polled ≡ fetched snapshot late)
      × (s.snapshot ≡ some snapshot)
      × (s.last_success_at ≡ some snapshot.collected_at)
      × (s.last_poll_success_at ≡ some p.finished_at)

  -- An up state shows what some poll of the run fetched, with no error.
  abbrev pub IsShown : State V → List (Poll V) → Type 0
  IsShown s polls =
      s.up ≡ true → (s.last_error ≡ "") × ((p : Poll V) × Memᴰ p polls × IsShownBy s p)

  some_inj : {a b : State V} → some a ≡ some b → a ≡ b
  some_inj h = cc

  stored-IsShownBy :
      (s : State V) (p : Poll V) (snapshot : Snapshot V) (late : Option (String × ℕ))
      → p.polled ≡ fetched snapshot late
      → ((record_success s snapshot p.duration p.finished_at).last_error ≡ "")
        × IsShownBy (record_success s snapshot p.duration p.finished_at) p
  unfolding record_success
  stored-IsShownBy s p snapshot late e = (refl, (snapshot, late, e, refl, refl, refl))

  poll_once-IsShownBy :
      (s s' : State V) (p : Poll V) (q : Polled V)
      → p.polled ≡ q
      → poll_once s p ≡ some s'
      → s'.up ≡ true
      → (s'.last_error ≡ "") × IsShownBy s' p
  unfolding poll_once record_success record_failure
  poll_once-IsShownBy s s' p (panicked text) e h up = absurd (cc (up, rw e at h))
  poll_once-IsShownBy s s' p (failed text) e h up = absurd (cc (up, rw e at h))
  poll_once-IsShownBy s s' p nil_snapshot e h up = absurd (cc (rw e at h))
  poll_once-IsShownBy s s' p (fetched snapshot (some panic)) e h up = absurd (cc (up, rw e at h))
  poll_once-IsShownBy s s' p (fetched snapshot none) e h up =
      subst (λ s. (s.last_error ≡ "") × IsShownBy s p) (some_inj (rw e at h))
        (stored-IsShownBy s p snapshot none e)

  -- Where an up state comes from.
  abbrev Origin : State V → State V → List (Poll V) → Type 0
  Origin s s' polls =
      ((polls ≡ []) × (s ≡ s'))
      ⊎ (s'.last_error ≡ "") × ((p : Poll V) × Memᴰ p polls × IsShownBy s' p)

  run-Origin :
      (s s' : State V) (polls : List (Poll V))
      → run s polls ≡ some s'
      → s'.up ≡ true
      → Origin s s' polls
  unfolding run
  run-Origin s s' [] h up = inl (refl, some_inj h)
  run-Origin s s' (p ∷ polls) h up = elim (Option-cases (poll_once s p)) [
    | inl blocked ↦ absurd (cc (rw (blocked, run) at h))
    | inr (s1, polled) ↦ elim (run-Origin s1 s' polls (rw (polled, run) at h) up) [
      | inl (last, same) ↦
          let (calm, shown) = poll_once-IsShownBy s s' p p.polled refl (polled ∙ ap some same) up in
          inr (calm, (p, Memᴰ.head refl, shown))
      | inr (calm, (q, at, shown)) ↦ inr (calm, (q, Memᴰ.tail at, shown))
    ]
  ]

  ready-parts :
      (s : State V) (max_age : ℤ) (now t : ℕ)
      → ready s max_age now ≡ true
      → s.last_poll_success_at ≡ some t
      → (s.up ≡ true) × (ltb_ℤ (pos 0) max_age ≡ true → now ≤ t + pos_part max_age)
  unfolding ready
  ready-parts s max_age now t h e = ground (arith, h, e)

  ready_up : (s : State V) (max_age : ℤ) (now : ℕ) → ready s max_age now ≡ true → s.up ≡ true
  unfolding ready
  ready_up s max_age now h = ground (arith, h)

  -- Whenever the exporter is ready, it shows with no error what a poll since its start has fetched,
  -- and under a positive maximum age that poll is no older.
  pub ready_shows_recent_poll :
      (source_name : String) (polls : List (Poll V)) (s : State V) (max_age : ℤ) (now : ℕ)
      → run (new_state source_name) polls ≡ some s
      → ready s max_age now ≡ true
      → (s.last_error ≡ "")
        × ((p : Poll V) × Memᴰ p polls
            × IsShownBy s p
            × (ltb_ℤ (pos 0) max_age ≡ true → now ≤ p.finished_at + pos_part max_age))
  unfolding new_state
  ready_shows_recent_poll source_name polls s max_age now h r =
      elim (run-Origin (new_state source_name) s polls h (ready_up s max_age now r)) [
        | inl (none_made, same) ↦
            absurd (cc (ready_up s max_age now r, ap (λ (x : State V). x.up) same))
        | inr (calm, (p, at, (snapshot, late, e, f, g, t))) ↦ (
          calm,
          (p, at, (snapshot, late, e, f, g, t), (ready-parts s max_age now p.finished_at r t).1),
        )
      ]

  fresh_ready :
      (s : State V) (snapshot : Snapshot V) (duration t : ℕ) (max_age : ℤ) (now : ℕ)
      → (ltb_ℤ (pos 0) max_age ≡ true → now ≤ t + pos_part max_age)
      → ready (record_success s snapshot duration t) max_age now ≡ true
  unfolding ready record_success
  fresh_ready s snapshot duration t max_age now young = ground (arith, young)

  -- A poll that fetches a snapshot, with no panic afterwards, makes the exporter ready whatever went
  -- before, for as long as the maximum age allows.
  pub successful_poll_ready :
      (s : State V) (p : Poll V) (snapshot : Snapshot V) (max_age : ℤ) (now : ℕ)
      → p.polled ≡ fetched snapshot none
      → (ltb_ℤ (pos 0) max_age ≡ true → now ≤ p.finished_at + pos_part max_age)
      → (s' : State V) × (poll_once s p ≡ some s') × (ready s' max_age now ≡ true)
  unfolding poll_once
  successful_poll_ready s p snapshot max_age now e young = (
    record_success s snapshot p.duration p.finished_at,
    rw e,
    fresh_ready s snapshot p.duration p.finished_at max_age now young,
  )

-- The monitor wakes neither more often than every 10 ms nor less often than every minute, and its
-- interval is at most half the window when that is at least 20 ms.
monitor_interval_bounds :
    (window : ℕ)
    → (10000000 ≤ no_successful_poll_monitor_interval window)
      × (no_successful_poll_monitor_interval window ≤ 60000000000)
      × (20000000 ≤ window → no_successful_poll_monitor_interval window ≤ window / 2)
unfolding no_successful_poll_monitor_interval
monitor_interval_bounds window = ground arith
