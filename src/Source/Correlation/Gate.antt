-- ===== src/Source/Correlation/Gate.antt =====
-- The gate of one source: the critical sections of `fetchNormal` and `fetchDiagnostic` as steps of
-- many calls that interleave. Closing `changed` only wakes the calls that wait, which may look at
-- the gate at any time here.
pub mod Turns
use jinko_exporter.Prelude.{
  ℕ, suc, ◌+◌, ◌-◌, ◌<◌, ◌≡◌, ◌≢◌, Bool, true, false, ◌&&◌, ◌||◌, not, Option, none, some, List, [],
  ◌∷◌, ◌==◌, ◌⊎◌, map, set, get_elem?,
}

-- A call that holds the gate is named by its number.
pub record Gate : Type 0 where
  pub active : Bool
  pub diagnostic : Bool
  pub cancel_diagnostic : Option ℕ
  pub normal_waiters : ℕ

abbrev pub new_source_fetch_gate : Gate
new_source_fetch_gate = record {
  active = false;
  diagnostic = false;
  cancel_diagnostic = none;
  normal_waiters = 0;
}

abbrev pub enter_normal : Gate → Gate
enter_normal g = record g { normal_waiters = g.normal_waiters + 1 }

-- The call that a normal one cancels, while it finds the gate taken.
unfoldable pub cancels : Gate → Option ℕ
cancels g = elim g.diagnostic [ true ↦ g.cancel_diagnostic | false ↦ none ]

abbrev pub leave_normal : Gate → Gate
leave_normal g = record g { normal_waiters = g.normal_waiters - 1 }

abbrev pub take_normal : Gate → Gate
take_normal g = record {
  active = true;
  diagnostic = false;
  cancel_diagnostic = none;
  normal_waiters = g.normal_waiters - 1;
}

abbrev pub take_diagnostic : ℕ → Gate → Gate
take_diagnostic call g = record g {
  active = true;
  diagnostic = true;
  cancel_diagnostic = some call;
}

abbrev pub release : Gate → Gate
release g = record g { active = false; diagnostic = false; cancel_diagnostic = none }

-- Where a call stands; a diagnostic call may have been cancelled with a cause.
pub data Phase : Type 0 where
  outside waiting fetching done : Phase

pub record Call : Type 0 where
  pub is_normal : Bool
  pub phase : Phase
  pub preempted : Bool

-- The gate, and the calls by their numbers.
pub record World : Type 0 where
  pub gate : Gate
  pub calls : List Call

abbrev pub with_call : World → Gate → ℕ → Call → World
with_call w g id c = record { gate = g; calls = set w.calls id c }

abbrev pub at_phase : Call → Phase → Call
at_phase c phase = record c { phase = phase }

abbrev pub is_taken : Gate → Bool
is_taken g = g.active || not (g.normal_waiters == 0)

-- One critical section of the call `c`, whose number is `id`.
pub data Step (w : World) (id : ℕ) (c : Call) : World → Type 0 where
  normal_enters :
      c.is_normal ≡ true
      → c.phase ≡ outside
      → Step w id c (with_call w (enter_normal w.gate) id (at_phase c waiting))
  normal_cancels :
      (other : ℕ) (victim : Call)
      → c.is_normal ≡ true
      → c.phase ≡ waiting
      → w.gate.active ≡ true
      → cancels w.gate ≡ some other
      → get_elem? w.calls other ≡ some victim
      → Step w id c (with_call w w.gate other (record victim { preempted = true }))
  normal_gives_up :
      c.is_normal ≡ true
      → c.phase ≡ waiting
      → Step w id c (with_call w (leave_normal w.gate) id (at_phase c done))
  normal_takes :
      c.is_normal ≡ true
      → c.phase ≡ waiting
      → w.gate.active ≡ false
      → Step w id c (with_call w (take_normal w.gate) id (at_phase c fetching))
  diagnostic_waits :
      c.is_normal ≡ false
      → c.phase ≡ outside
      → is_taken w.gate ≡ true
      → Step w id c (with_call w w.gate id (at_phase c waiting))
  diagnostic_gives_up :
      c.is_normal ≡ false
      → c.phase ≡ waiting
      → Step w id c (with_call w w.gate id (at_phase c done))
  diagnostic_takes :
      c.is_normal ≡ false
      → (c.phase ≡ outside) ⊎ (c.phase ≡ waiting)
      → is_taken w.gate ≡ false
      → Step w id c (with_call w (take_diagnostic id w.gate) id (at_phase c fetching))
  releases : c.phase ≡ fetching → Step w id c (with_call w (release w.gate) id (at_phase c done))

-- Calls that have not begun.
abbrev pub new_call : Bool → Call
new_call is_normal = record { is_normal = is_normal; phase = outside; preempted = false }

abbrev pub start : List Bool → World
start kinds = record { gate = new_source_fetch_gate; calls = map new_call kinds }

pub data Reachable (kinds : List Bool) : World → Type 0 where
  started : Reachable kinds (start kinds)
  stepped :
      {w w' : World} (id : ℕ) (c : Call)
      → Reachable kinds w
      → get_elem? w.calls id ≡ some c
      → Step w id c w'
      → Reachable kinds w'
