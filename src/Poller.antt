-- ===== src/Poller.antt =====
-- bridge/internal/poller/poller.go: the state that polls leave behind and that readiness reads.
pub mod Readiness
mod Examples
use Prim.Native.String.{String, ◌++◌}
use jinko_exporter.Prelude.{
  ℕ, suc, ◌+◌, ◌-◌, ◌/◌, ◌%◌, ◌^◌, Bool, true, false, not, ◌||◌, Option, none, some, List, [], ◌∷◌,
  leb, ltb, if◌then◌else◌,
}
use jinko_exporter.Prelude.Int.{ℤ, pos, negsuc, ltb_ℤ, pos_part}
use jinko_exporter.Model.{Snapshot}

-- The zero `lastPollSuccessAt` is `none`; other times are readings of the monotonic clock.
pub record State (V : Type 0) : Type 0 where
  pub source_name : String
  pub snapshot : Option (Snapshot V)
  pub last_poll_duration : ℕ
  pub last_error : String
  pub last_success_at : Option ℤ
  pub last_poll_success_at : Option ℕ
  pub up : Bool
  pub success_count : ℕ
  pub error_count : ℕ

-- How one call of `pollOnce` goes: `Fetch` panics, returns an error, or returns a snapshot (nil or
-- not). After a snapshot is stored, evaluating alerts or an observer may panic, with a text and the
-- time since the poll began. What a failed poll calls is taken not to panic.
pub data Polled (V : Type 0) : Type 0 where
  panicked : String → Polled V
  failed : String → Polled V
  nil_snapshot : Polled V
  fetched : Snapshot V → Option (String × ℕ) → Polled V

pub record Poll (V : Type 0) : Type 0 where
  pub polled : Polled V
  pub duration : ℕ
  pub finished_at : ℕ

-- A maximum age of 0 or less is no limit.
abbrev pub is_recent : ℤ → Option ℕ → ℕ → Bool
is_recent max_age none now = false
is_recent max_age (some t) now =
    if ltb_ℤ (pos 0) max_age then leb (now - t) (pos_part max_age) else true

module _ {V : Type 0} where
  unfoldable pub new_state : String → State V
  new_state source_name = record {
    source_name = source_name;
    snapshot = none;
    last_poll_duration = 0;
    last_error = "";
    last_success_at = none;
    last_poll_success_at = none;
    up = false;
    success_count = 0;
    error_count = 0;
  }

  abbrev pub has_value : Option (Snapshot V) → Bool
  has_value none = false
  has_value (some a) = true

  unfoldable pub ready : State V → ℤ → ℕ → Bool
  ready s max_age now =
      if not s.up || not (has_value s.snapshot)
      then false
      else is_recent max_age s.last_poll_success_at now

  unfoldable pub record_success : State V → Snapshot V → ℕ → ℕ → State V
  record_success s snapshot duration now = record s {
    snapshot = some snapshot;
    last_poll_duration = duration;
    last_success_at = some snapshot.collected_at;
    last_poll_success_at = some now;
    last_error = "";
    up = true;
    success_count = (s.success_count + 1) % 2 ^ 64;
  }

  unfoldable pub record_failure : State V → String → ℕ → State V
  record_failure s error duration = record s {
    last_poll_duration = duration;
    up = false;
    error_count = (s.error_count + 1) % 2 ^ 64;
    last_error = error;
  }

  -- A nil snapshot panics while the lock is held, so the deferred `recordFailure` waits for ever: the
  -- poll has no result.
  unfoldable pub poll_once : State V → Poll V → Option (State V)
  unfolding record_success record_failure
  poll_once s p = elim p.polled [
    | panicked text ↦ some (record_failure s ("poll panic: " ++ text) p.duration)
    | failed text ↦ some (record_failure s text p.duration)
    | nil_snapshot ↦ none
    | fetched snapshot late ↦
        let stored = record_success s snapshot p.duration p.finished_at in
        elim late [
          | none ↦ some stored
          | some panic ↦ some (record_failure stored ("poll panic: " ++ panic.0) panic.1)
        ]
  ]

  -- The polls of `Run`, one after the other.
  unfoldable pub run : State V → List (Poll V) → Option (State V)
  run s [] = some s
  run s (p ∷ polls) = elim (poll_once s p) [ none ↦ none | some s' ↦ run s' polls ]

-- In nanoseconds.
unfoldable pub no_successful_poll_monitor_interval : ℕ → ℕ
no_successful_poll_monitor_interval window =
    let interval = window / 2 in
    if ltb interval 10000000
    then 10000000
    else if ltb 60000000000 interval
    then 60000000000
    else interval
