-- ===== src/Source/Priority/Chain.antt =====
-- Which source a fetch serves, and under which identity.
use Prim.Native.String.{String}
use mathlib.Core.List.{◌++◌ as append}
use mathlib.Core.Path.{subst}
use jinko_exporter.Prelude.{
  ℕ, suc, ◌+◌, ◌≡◌, sym, ap, ◌∙◌, ◌↔◌, inl, inr, Option, none, some, List, [], ◌∷◌, length,
  length-append, arith, Result, ok, err, Result-cases, Option-cases,
}
use jinko_exporter.Model.{Snapshot}
use jinko_exporter.Source.Priority.{
  Priority, Outcome, SourceFailure, nil_source, named, FetchError, context_over, all_failed, accept,
  consider, fetch_from, fetch,
}

zero_add : (n : ℕ) → 0 + n ≡ n
zero_add n = omega arith

-- One reason for each source, when all of them fail.
abbrev pub HasAllReasons : ℕ → FetchError → Type 0
HasAllReasons n (context_over c) = Unit
HasAllReasons n (all_failed errs) = length errs ≡ n

recount :
    (e : FetchError) (errs : List SourceFailure) (failure : SourceFailure) (n : ℕ)
    → HasAllReasons (length (append errs (failure ∷ [])) + n) e
    → HasAllReasons (length errs + suc n) e
recount (context_over c) errs failure n h = tt
recount (all_failed es) errs failure n h = omega (arith, h, length-append errs (failure ∷ []))

module _ {V : Type 0} where
  -- A source that does not serve leaves what is remembered of the primary alone.
  rejected_keeps :
      (p : Priority V) (index : ℕ) (o : Outcome V) (e : SourceFailure)
      → (consider p index o).1 ≡ err e
      → consider p index o ≡ (p, err e)
  unfolding consider accept
  rejected_keeps p index o e h = ground (arith, h)

  abbrev over_result : Priority V → ℕ → Priority V × Result FetchError (Snapshot V)
  over_result q c = (q, err (context_over c))

  rejected_state :
      (p : Priority V) (index : ℕ) (o : Outcome V) (e : SourceFailure)
      → (consider p index o).1 ≡ err e
      → (consider p index o).0 ≡ p
  rejected_state p index o e h = ap (λ r. r.0) (rejected_keeps p index o e h)

  module _ (p : Priority V) (index : ℕ) (errs : List SourceFailure) (name : String) (o : Outcome V)
      (rest : List (Option String × Outcome V)) where
    fetch_from-served :
        (s : Snapshot V)
        → (consider p index o).1 ≡ ok s
        → fetch_from p index errs ((some name, o) ∷ rest) ≡ ((consider p index o).0, ok s)
    unfolding fetch_from
    fetch_from-served s h = rw (h, fetch_from)

    fetch_from-failed :
        (e : SourceFailure)
        → (consider p index o).1 ≡ err e
        → o.ctx_error ≡ none
        → fetch_from p index errs ((some name, o) ∷ rest)
          ≡ fetch_from p (suc index) (append errs (named name e ∷ [])) rest
    unfolding fetch_from
    fetch_from-failed e h quiet =
        rw (h, quiet, fetch_from)
          (ap (λ q. fetch_from q (suc index) (append errs (named name e ∷ [])) rest)
            (rejected_state p index o e h))

    fetch_from-over :
        (e : SourceFailure) (c : ℕ)
        → (consider p index o).1 ≡ err e
        → o.ctx_error ≡ some c
        → fetch_from p index errs ((some name, o) ∷ rest) ≡ (p, err (context_over c))
    unfolding fetch_from
    fetch_from-over e c h over =
        rw (h, over, fetch_from) (ap (λ q. over_result q c) (rejected_state p index o e h))

  -- The first source that serves, everything in front of it passed over with no context error.
  pub data Serves (p p' : Priority V) (s : Snapshot V)
      : ℕ → List (Option String × Outcome V) → Type 0 where
    here :
        {index : ℕ} {name : String} {o : Outcome V} {rest : List (Option String × Outcome V)}
        → consider p index o ≡ (p', ok s)
        → Serves p p' s index ((some name, o) ∷ rest)
    past_nil :
        {index : ℕ} {o : Outcome V} {rest : List (Option String × Outcome V)}
        → Serves p p' s (suc index) rest
        → Serves p p' s index ((none, o) ∷ rest)
    past_failed :
        {index : ℕ} {name : String} {o : Outcome V} {rest : List (Option String × Outcome V)}
        {e : SourceFailure}
        → consider p index o ≡ (p, err e)
        → o.ctx_error ≡ none
        → Serves p p' s (suc index) rest
        → Serves p p' s index ((some name, o) ∷ rest)

  fetch_from-Serves :
      (p p' : Priority V) (s : Snapshot V) (index : ℕ) (errs : List SourceFailure)
      (sources : List (Option String × Outcome V))
      → fetch_from p index errs sources ≡ (p', ok s)
      → Serves p p' s index sources
  unfolding fetch_from
  fetch_from-Serves p p' s index errs [] h = absurd (cc)
  fetch_from-Serves p p' s index errs ((none, o) ∷ rest) h =
      past_nil (fetch_from-Serves p p' s (suc index) (append errs (nil_source ∷ [])) rest h)
  fetch_from-Serves p p' s index errs ((some name, o) ∷ rest) h =
      elim (Result-cases (consider p index o).1) [
        | inl (s', served) ↦
            here (cc (h, served, fetch_from-served p index errs name o rest s' served))
        | inr (e, failed) ↦ elim (Option-cases o.ctx_error) [
          | inl quiet ↦ past_failed (rejected_keeps p index o e failed) quiet (
              fetch_from-Serves p p' s (suc index) (append errs (named name e ∷ [])) rest
                (sym (fetch_from-failed p index errs name o rest e failed quiet) ∙ h))
          | inr (c, over) ↦
              absurd (cc (h, fetch_from-over p index errs name o rest e c failed over))
        ]
      ]

  Serves-fetch_from :
      (p p' : Priority V) (s : Snapshot V) (index : ℕ) (errs : List SourceFailure)
      (sources : List (Option String × Outcome V))
      → Serves p p' s index sources
      → fetch_from p index errs sources ≡ (p', ok s)
  unfolding fetch_from
  Serves-fetch_from p p' s index errs [] at = elim at [ ]
  Serves-fetch_from p p' s index errs ((some name, o) ∷ rest) (here h) =
      fetch_from-served p index errs name o rest s (ap (λ r. r.1) h)
      ∙ ap (λ (r : Priority V × Result SourceFailure (Snapshot V)). (r.0, ok s)) h
  Serves-fetch_from p p' s index errs ((none, o) ∷ rest) (past_nil at) =
      Serves-fetch_from p p' s (suc index) (append errs (nil_source ∷ [])) rest at
  Serves-fetch_from p p' s index errs ((some name, o) ∷ rest) (past_failed {e = e} h quiet at) =
      fetch_from-failed p index errs name o rest e (ap (λ r. r.1) h) quiet
      ∙ Serves-fetch_from p p' s (suc index) (append errs (named name e ∷ [])) rest at

  -- A fetch returns a snapshot and a state exactly when some source serves them, every source in
  -- front of it is nil or was passed over with the context still open.
  pub fetch-Serves_first :
      (p p' : Priority V) (s : Snapshot V) (sources : List (Option String × Outcome V))
      → (fetch p sources ≡ (p', ok s)) ↔ Serves p p' s 0 sources
  unfolding fetch
  fetch-Serves_first p p' s sources =
      (fetch_from-Serves p p' s 0 [] sources, Serves-fetch_from p p' s 0 [] sources)

  over_reasons :
      (p p' : Priority V) (e : FetchError) (c n : ℕ)
      → over_result p c ≡ (p', err e)
      → (p' ≡ p) × HasAllReasons n e
  over_reasons p p' (context_over d) c n h = (cc, tt)
  over_reasons p p' (all_failed es) c n h = absurd (cc)

  fetch_from_fails :
      (p p' : Priority V) (e : FetchError) (index : ℕ) (errs : List SourceFailure)
      (sources : List (Option String × Outcome V))
      → fetch_from p index errs sources ≡ (p', err e)
      → (p' ≡ p) × HasAllReasons (length errs + length sources) e
  unfolding fetch_from
  fetch_from_fails p p' (context_over c) index errs [] h = absurd (cc)
  fetch_from_fails p p' (all_failed es) index errs [] h = (cc, ground (arith, h))
  fetch_from_fails p p' e index errs ((none, o) ∷ rest) h =
      let r = fetch_from_fails p p' e (suc index) (append errs (nil_source ∷ [])) rest h in
      (r.0, recount e errs nil_source (length rest) r.1)
  fetch_from_fails p p' e index errs ((some name, o) ∷ rest) h =
      elim (Result-cases (consider p index o).1) [
        | inl (s', served) ↦ absurd (cc (h, fetch_from-served p index errs name o rest s' served))
        | inr (e', failed) ↦ elim (Option-cases o.ctx_error) [
          | inl quiet ↦
              let r =
                fetch_from_fails p p' e (suc index) (append errs (named name e' ∷ [])) rest
                  (sym (fetch_from-failed p index errs name o rest e' failed quiet) ∙ h) in
              (r.0, recount e errs (named name e') (length rest) r.1)
          | inr (c, over) ↦
              over_reasons p p' e c (length errs + suc (length rest))
                (sym (fetch_from-over p index errs name o rest e' c failed over) ∙ h)
        ]
      ]

  -- A fetch that fails leaves what is remembered of the primary as it was. Unless the context ended
  -- it, it reports one reason for each source.
  failed_fetch_keeps :
      (p p' : Priority V) (e : FetchError) (sources : List (Option String × Outcome V))
      → fetch p sources ≡ (p', err e)
      → (p' ≡ p) × HasAllReasons (length sources) e
  unfolding fetch
  failed_fetch_keeps p p' e sources h =
      subst (λ n. (p' ≡ p) × HasAllReasons n e) (zero_add (length sources))
        (fetch_from_fails p p' e 0 [] sources h)
