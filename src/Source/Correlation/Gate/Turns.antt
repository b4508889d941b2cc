-- ===== src/Source/Correlation/Gate/Turns.antt =====
-- Who holds the gate, and who waits for it.
use jinko_exporter.Prelude.{
  ℕ, zero, suc, ◌+◌, ◌-◌, ◌≤◌, ◌≡◌, refl, sym, ◌∙◌, Bool, true, false, ◌&&◌, some, List, [], ◌∷◌,
  map, set, get_elem?, arith, if◌then◌else◌,
}
use jinko_exporter.Source.Correlation.Gate.{
  Gate, outside, waiting, fetching, done, Call, World, Step, Reachable, started, stepped, start,
  cancels, new_call, normal_enters, normal_cancels, normal_gives_up, normal_takes, diagnostic_waits,
  diagnostic_gives_up, diagnostic_takes, releases, with_call,
}

abbrev one_if : Bool → ℕ
one_if true = 1
one_if false = 0

abbrev pub count : (Call → Bool) → List Call → ℕ
count p [] = 0
count p (c ∷ calls) = one_if (p c) + count p calls

module _ (p : Call → Bool) where
  count-set :
      (calls : List Call) (id : ℕ) (c c' : Call)
      → get_elem? calls id ≡ some c
      → count p (set calls id c') + one_if (p c) ≡ count p calls + one_if (p c')
  count-set [] id c c' at = absurd (cc)
  count-set (d ∷ calls) zero c c' at = let same : d ≡ c = cc at in rw same (omega arith)
  count-set (d ∷ calls) (suc id) c c' at = omega (arith, count-set calls id c c' at)

abbrev pub is_fetching : Call → Bool
is_fetching c = elim c.phase [ fetching ↦ true | outside ↦ false | waiting ↦ false | done ↦ false ]

abbrev pub waits_as_normal : Call → Bool
waits_as_normal c =
    c.is_normal
    && elim c.phase [ waiting ↦ true | outside ↦ false | fetching ↦ false | done ↦ false ]

abbrev pub is_preempted_normal : Call → Bool
is_preempted_normal c = c.is_normal && c.preempted

abbrev pub IsDiagnosticAt : List Call → ℕ → Type 0
IsDiagnosticAt calls id = (c : Call) × (get_elem? calls id ≡ some c) × (c.is_normal ≡ false)

-- The call that a normal one would cancel is a diagnostic one.
abbrev pub CancelsDiagnostic : World → Type 0
CancelsDiagnostic w = (id : ℕ) → cancels w.gate ≡ some id → IsDiagnosticAt w.calls id

pub record IsOrdered (w : World) : Type 0 where
  pub holders : count is_fetching w.calls ≡ (if w.gate.active then 1 else 0)
  pub waiters : count waits_as_normal w.calls ≡ w.gate.normal_waiters
  pub unharmed : count is_preempted_normal w.calls ≡ 0
  pub victim : CancelsDiagnostic w

-- A call keeps its kind when it moves on.
diagnostic-set :
    (calls : List Call) (id other : ℕ) (c c' : Call)
    → get_elem? calls id ≡ some c
    → c'.is_normal ≡ c.is_normal
    → IsDiagnosticAt calls other
    → IsDiagnosticAt (set calls id c') other
diagnostic-set [] id other c c' at same (d, found, kind) = absurd (cc)
diagnostic-set (x ∷ calls) zero zero c c' at same (d, found, kind) = (c', refl, same ∙ (cc))
diagnostic-set (x ∷ calls) zero (suc other) c c' at same h = h
diagnostic-set (x ∷ calls) (suc id) zero c c' at same h = h
diagnostic-set (x ∷ calls) (suc id) (suc other) c c' at same h =
    diagnostic-set calls id other c c' at same h

self-set :
    (calls : List Call) (id : ℕ) (c c' : Call)
    → get_elem? calls id ≡ some c
    → get_elem? (set calls id c') id ≡ some c'
self-set [] id c c' at = absurd (cc)
self-set (x ∷ calls) zero c c' at = refl
self-set (x ∷ calls) (suc id) c c' at = self-set calls id c c' at

module _ (w : World) (h : IsOrdered w) where
  -- A call that waits is counted.
  counted :
      (id : ℕ) (c : Call)
      → get_elem? w.calls id ≡ some c
      → waits_as_normal c ≡ true
      → 1 ≤ w.gate.normal_waiters
  counted id c at waits =
      ground (arith, h.waiters, waits, count-set waits_as_normal w.calls id c (new_call false) at)

  busy :
      (id : ℕ) (c : Call)
      → get_elem? w.calls id ≡ some c
      → is_fetching c ≡ true
      → w.gate.active ≡ true
  busy id c at fetches =
      ground (arith, h.holders, fetches, count-set is_fetching w.calls id c (new_call false) at)

  -- A call moves on, and the gate with it.
  ordered :
      (g' : Gate) (id : ℕ) (c c' : Call)
      → get_elem? w.calls id ≡ some c
      → one_if g'.active + one_if (is_fetching c) ≡ one_if w.gate.active + one_if (is_fetching c')
      → g'.normal_waiters + one_if (waits_as_normal c)
        ≡ w.gate.normal_waiters + one_if (waits_as_normal c')
      → is_preempted_normal c' ≡ is_preempted_normal c
      → CancelsDiagnostic (with_call w g' id c')
      → IsOrdered (with_call w g' id c')
  ordered g' id c c' at holds waits harms victim = record {
    holders = ground (arith, count-set is_fetching w.calls id c c' at, h.holders, holds);
    waiters = omega (arith, count-set waits_as_normal w.calls id c c' at, h.waiters, waits);
    unharmed = ground (arith, count-set is_preempted_normal w.calls id c c' at, h.unharmed, harms);
    victim = victim;
  }

  -- A gate that would cancel what it would cancel before.
  same_victim :
      (g' : Gate) (id : ℕ) (c c' : Call)
      → get_elem? w.calls id ≡ some c
      → c'.is_normal ≡ c.is_normal
      → cancels g' ≡ cancels w.gate
      → CancelsDiagnostic (with_call w g' id c')
  same_victim g' id c c' at kind same other e =
      diagnostic-set w.calls id other c c' at kind (h.victim other (sym same ∙ e))

  no_victim :
      (g' : Gate) (id : ℕ) (c' : Call)
      → g'.diagnostic ≡ false
      → CancelsDiagnostic (with_call w g' id c')
  unfolding cancels
  no_victim g' id c' plain other e = absurd (ground arith)

preempted-harmless :
    (calls : List Call) (other : ℕ) (victim : Call)
    → get_elem? calls other ≡ some victim
    → IsDiagnosticAt calls other
    → victim.is_normal ≡ false
preempted-harmless calls other victim at (c, found, kind) =
    let same : victim ≡ c = cc (at, found) in rw same kind

Step-IsOrdered :
    (w w' : World) (id : ℕ) (c : Call)
    → IsOrdered w
    → get_elem? w.calls id ≡ some c
    → Step w id c w'
    → IsOrdered w'
unfolding cancels
Step-IsOrdered w w' id c h at (normal_enters kind phase) =
    let c' = record c { phase = waiting } in
    ordered w h (record w.gate { normal_waiters = w.gate.normal_waiters + 1 }) id c c' at
      (ground arith) (ground arith) refl
      (same_victim w h (record w.gate { normal_waiters = w.gate.normal_waiters + 1 }) id c c' at
        refl refl)
Step-IsOrdered w w' id c h at (normal_cancels other victim kind phase taken cancelled found) =
    let v' = record victim { preempted = true } in
    let diagnostic = preempted-harmless w.calls other victim found (h.victim other cancelled) in
    ordered w h w.gate other victim v' found refl refl (ground arith)
      (same_victim w h w.gate other victim v' found refl refl)
Step-IsOrdered w w' id c h at (normal_gives_up kind phase) =
    let c' = record c { phase = done } in
    let g' = record w.gate { normal_waiters = w.gate.normal_waiters - 1 } in
    ordered w h g' id c c' at (ground arith) (ground (arith, counted w h id c at (ground arith)))
      refl (same_victim w h g' id c c' at refl refl)
Step-IsOrdered w w' id c h at (normal_takes kind phase free) =
    let c' = record c { phase = fetching } in
    ordered w h w'.gate id c c' at (ground arith)
      (ground (arith, counted w h id c at (ground arith))) refl (no_victim w h w'.gate id c' refl)
Step-IsOrdered w w' id c h at (diagnostic_waits kind phase taken) =
    let c' = record c { phase = waiting } in
    ordered w h w.gate id c c' at (ground arith) (ground arith) refl
      (same_victim w h w.gate id c c' at refl refl)
Step-IsOrdered w w' id c h at (diagnostic_gives_up kind phase) =
    let c' = record c { phase = done } in
    ordered w h w.gate id c c' at (ground arith) (ground arith) refl
      (same_victim w h w.gate id c c' at refl refl)
Step-IsOrdered w w' id c h at (diagnostic_takes kind phase free) =
    let c' = record c { phase = fetching } in
    ordered w h w'.gate id c c' at (ground arith) (ground arith) refl (λ other e.
      let mine : id ≡ other = cc e in rw (sym mine) (c', self-set w.calls id c c' at, kind))
Step-IsOrdered w w' id c h at (releases phase) =
    let c' = record c { phase = done } in
    ordered w h w'.gate id c c' at (ground (arith, busy w h id c at (ground arith))) (ground arith)
      refl (no_victim w h w'.gate id c' refl)

start_count :
    (p : Call → Bool) (kinds : List Bool)
    → ((kind : Bool) → p (new_call kind) ≡ false)
    → count p (map new_call kinds) ≡ 0
start_count p [] none_is = refl
start_count p (kind ∷ kinds) none_is = ground (arith, none_is kind, start_count p kinds none_is)

nothing_to_cancel : (kinds : List Bool) → CancelsDiagnostic (start kinds)
unfolding cancels
nothing_to_cancel kinds other e = absurd (cc)

start-IsOrdered : (kinds : List Bool) → IsOrdered (start kinds)
start-IsOrdered kinds = record {
  holders = start_count is_fetching kinds (λ kind. refl);
  waiters = start_count waits_as_normal kinds (λ kind. ground arith);
  unharmed = start_count is_preempted_normal kinds (λ kind. ground arith);
  victim = nothing_to_cancel kinds;
}

Reachable-IsOrdered : (kinds : List Bool) (w : World) → Reachable kinds w → IsOrdered w
Reachable-IsOrdered kinds w started = start-IsOrdered kinds
Reachable-IsOrdered kinds w (stepped {w = v} id c r at step) =
    Step-IsOrdered v w id c (Reachable-IsOrdered kinds v r) at step

-- A diagnostic call that turns the gate active has found no normal call that waits.
abbrev pub LetsNormalFirst : World → Type 0
LetsNormalFirst w =
    (w' : World) (id : ℕ) (c : Call)
    → Step w id c w'
    → c.is_normal ≡ false
    → w.gate.active ≡ false
    → w'.gate.active ≡ true
    → count waits_as_normal w.calls ≡ 0

ordered-LetsNormalFirst : (w : World) → IsOrdered w → LetsNormalFirst w
ordered-LetsNormalFirst w h w' id c (normal_enters kind phase) other free busy = absurd (cc)
ordered-LetsNormalFirst w h w' id c (normal_cancels o v kind phase taken e f) other free busy =
    absurd (cc)
ordered-LetsNormalFirst w h w' id c (normal_gives_up kind phase) other free busy = absurd (cc)
ordered-LetsNormalFirst w h w' id c (normal_takes kind phase idle) other free busy = absurd (cc)
ordered-LetsNormalFirst w h w' id c (diagnostic_waits kind phase taken) other free busy =
    absurd (cc)
ordered-LetsNormalFirst w h w' id c (diagnostic_gives_up kind phase) other free busy = absurd (cc)
ordered-LetsNormalFirst w h w' id c (diagnostic_takes kind phase idle) other free busy =
    ground (arith, h.waiters, idle)
ordered-LetsNormalFirst w h w' id c (releases phase) other free busy = absurd (cc)

-- However normal and diagnostic fetches of one source interleave, every critical section at a time:
-- at most one call is fetching, and exactly while the gate is active; the gate counts the normal
-- calls that wait; no normal call is ever preempted, since what a normal call cancels is a diagnostic
-- one; and a diagnostic call takes the gate only while no normal call waits.
pub gate-IsOrdered :
    (kinds : List Bool) (w : World) → Reachable kinds w → IsOrdered w × LetsNormalFirst w
gate-IsOrdered kinds w r = let h = Reachable-IsOrdered kinds w r in (h, ordered-LetsNormalFirst w h)
