-- ===== src/Modbus/Transport/Session.antt =====
-- What a session has sent: a front of its plan's requests, in order, each once.
use jinko_exporter.Prelude.{
  ◌↔◌, Result-cases, Option-cases, Bool-cases, ℕ, zero, suc, ◌+◌, ◌≤◌, ◌<◌, ◌≡◌, refl, sym, ap, ◌∙◌,
  ◌⊎◌, inl, inr, Bool, true, false, Option, none, some, List, [], ◌∷◌, ◌++◌, length, length-append,
  get_elem?, take, ok, err, arith,
}
use jinko_exporter.Modbus.Profile.{ReadId, same_id}
use jinko_exporter.Modbus.Transport.{
  ContextError, SessionError, Conn, guarded, after_write, contextual, send_failed, send_short,
  not_open, request_refused, plan_complete, context_done, out_of_order, ReadSession, Io, poisoned,
  fail, guarded_write, receive, exchange, send_planned, read_in_order, read_approved, complete,
  new_guard,
}
use jinko_exporter.Modbus.Protocol.{validate_read_request}
use jinko_exporter.Modbus.Transport.Guard.{bytes_equal_refl}

abbrev is_failed : Option SessionError → Bool
is_failed none = false
is_failed (some e) = true

-- The three ways a read changes a session that has not failed.
abbrev SendsNothing : ReadSession → ReadSession → Type 0
SendsNothing s s' = (s'.conn.sent ≡ s.conn.sent) × (s'.next ≡ s.next) × (is_failed s'.failed ≡ true)

abbrev Loses : ReadSession → List ℕ → ReadSession → Type 0
Loses s request s' =
    (s'.conn.sent ≡ s.conn.sent ++ request ∷ []) × (s'.next ≡ s.next) × (is_failed s'.failed ≡ true)

abbrev Answers : ReadSession → List ℕ → ReadSession → Type 0
Answers s request s' =
    (s'.conn.sent ≡ s.conn.sent ++ request ∷ [])
    × (s'.next ≡ s.next + 1)
    × (is_failed s'.failed ≡ false)

abbrev SamePlan : ReadSession → ReadSession → Type 0
SamePlan s s' = (s'.plan ≡ s.plan) × (s'.requests ≡ s.requests)

-- An approved request passes its own guard.
guarded_same :
    (c : Conn) (request : List ℕ) (n : ℕ) (e : Option SessionError)
    → guarded_write (new_guard request) c request n e
      ≡ guarded
          (record { spent = true; expected = request })
          (record c { sent = c.sent ++ request ∷ [] })
          n
          e
unfolding guarded_write
guarded_same c request n e = rw (bytes_equal_refl request)

module _ (s : ReadSession) (e : SessionError) where
  fail_effect : let s' = (fail {A = List ℕ} s e).0 in SamePlan s s' × SendsNothing s s'
  unfolding fail
  fail_effect = ground arith

module _ (s : ReadSession) (id : ReadId) (io : Io) (alive : s.failed ≡ none) where
  receive_effect :
      let s' = (receive s id io).0 in
      SamePlan s s'
      × (s'.conn.sent ≡ s.conn.sent)
      × ((s'.next ≡ s.next) × (is_failed s'.failed ≡ true)
          ⊎ (s'.next ≡ s.next + 1) × (is_failed s'.failed ≡ false))
  unfolding receive fail
  receive_effect = ground arith

-- What becomes of a read whose request is on its way.
abbrev Resolves : ReadSession → ReadSession → Type 0
Resolves s s' =
    (s'.next ≡ s.next) × (is_failed s'.failed ≡ true)
    ⊎ (s'.next ≡ s.next + 1) × (is_failed s'.failed ≡ false)

module _ (s : ReadSession) (id : ReadId) (request : List ℕ) (io : Io)
    (alive : s.failed ≡ none) where
  after_write_effect :
      (n : ℕ) (e : Option SessionError)
      → let s' = (after_write s id request io n e).0 in
        SamePlan s s' × (s'.conn.sent ≡ s.conn.sent) × Resolves s s'
  unfolding after_write
  after_write_effect n (some e) =
      ground (arith, fail_effect s (contextual io.ctx_after (send_failed id n e)))
  after_write_effect n none = ground (
    arith,
    fail_effect s (contextual io.ctx_after (send_short id n)),
    receive_effect s id io alive,
  )

module _ (s : ReadSession) (id : ReadId) (request : List ℕ) (io : Io)
    (alive : s.failed ≡ none) where
  exchange_effect :
      let s' = (exchange s id request io).0 in
      SamePlan s s' × (Loses s request s' ⊎ Answers s request s')
  unfolding exchange
  exchange_effect =
      let sending = record s { conn = record s.conn { sent = s.conn.sent ++ request ∷ [] } } in
      ground (
        arith,
        guarded_same s.conn request io.written io.write_error,
        after_write_effect sending id request io alive io.written io.write_error,
      )

-- What any read does to a session that has not failed.
abbrev Reads : ReadSession → ReadSession → Type 0
Reads s s' =
    SamePlan s s'
    × (SendsNothing s s'
        ⊎ ((request : List ℕ) × (get_elem? s.requests s.next ≡ some request)
            × (Loses s request s' ⊎ Answers s request s')))

send_planned_effect :
    (s : ReadSession) (id : ReadId) (request : Option (List ℕ)) (io : Io)
    → s.failed ≡ none
    → request ≡ get_elem? s.requests s.next
    → Reads s (send_planned s id request io).0
unfolding send_planned
send_planned_effect s id none io alive e = ground (arith, fail_effect s not_open)
send_planned_effect s id (some request) io alive e =
    let r = validate_read_request request s.logger_serial s.unit id in
    elim (Result-cases r) [
      | inl (_, passed) ↦
          let (same, effect) = exchange_effect s id request io alive in
          rw (passed, send_planned) (same, inr (request, sym e, effect))
      | inr (x, refused) ↦
          let (same, effect) = fail_effect s (request_refused x) in
          rw (refused, send_planned) (same, inl effect)
    ]

fail-Reads : (s : ReadSession) (e : SessionError) → Reads s (fail {A = List ℕ} s e).0
fail-Reads s e = let (same, effect) = fail_effect s e in (same, inl effect)

read_in_order_effect :
    (s : ReadSession) (id : ReadId) (want : Option ReadId) (io : Io)
    → s.failed ≡ none
    → Reads s (read_in_order s id want io).0
unfolding read_in_order
read_in_order_effect s id none io alive = fail-Reads s (plan_complete id)
read_in_order_effect s id (some want) io alive = elim (Bool-cases (same_id id want)) [
  | inl same ↦
      rw (same, read_in_order)
        (send_planned_effect s id (get_elem? s.requests s.next) io alive refl)
  | inr other ↦ rw (other, read_in_order) (fail-Reads s (out_of_order id want))
]

read_effect :
    (s : ReadSession) (id : ReadId) (io : Io) → s.failed ≡ none → Reads s (read_approved s id io).0
unfolding read_approved
read_effect s id io alive = elim (Option-cases io.ctx_before) [
  | inl go ↦
      rw (alive, read_approved, go, read_approved)
        (read_in_order_effect s id (get_elem? s.plan s.next) io alive)
  | inr (c, done) ↦ rw (alive, read_approved, done, read_approved) (fail-Reads s (context_done c))
]

-- A session that has failed sends nothing more, changes nothing, and refuses every read.
poisoned_reads_nothing :
    (s : ReadSession) (id : ReadId) (io : Io) (e : SessionError)
    → s.failed ≡ some e
    → read_approved s id io ≡ (s, err (poisoned e))
unfolding read_approved
poisoned_reads_nothing s id io e h = ground arith

-- The state between two reads: the frames that were handed to the network are the first requests of
-- the plan, in its order; while nothing has failed, one for each completed read, and after a failure
-- at most one more.
pub record IsOrderly (s : ReadSession) : Type 0 where
  pub aligned : length s.requests ≡ length s.plan
  pub in_plan : s.next ≤ length s.plan
  pub sent_front : s.conn.sent ≡ take (length s.conn.sent) s.requests
  pub sent_alive : s.failed ≡ none → length s.conn.sent ≡ s.next
  pub sent_least : s.next ≤ length s.conn.sent
  pub sent_most : length s.conn.sent ≤ s.next + 1
  pub sent_within : length s.conn.sent ≤ length s.requests

take-next {ℓ} :
    {A : Type ℓ} (xs : List A) (n : ℕ) (x : A)
    → get_elem? xs n ≡ some x
    → (take (n + 1) xs ≡ take n xs ++ x ∷ []) × (n < length xs)
take-next [] n x h = absurd (cc)
take-next (y ∷ xs) zero x h = (ground arith, omega arith)
take-next (y ∷ xs) (suc n) x h =
    let (e, lt) = take-next xs n x h in (ground (arith, e), omega (arith, lt))

module _ (s s' : ReadSession) (h : IsOrderly s) (alive : s.failed ≡ none)
    (same : SamePlan s s') where
  nothing-IsOrderly : SendsNothing s s' → IsOrderly s'
  nothing-IsOrderly effect = ground (arith, h.sent_alive alive)

  sent-IsOrderly :
      (request : List ℕ)
      → get_elem? s.requests s.next ≡ some request
      → Loses s request s' ⊎ Answers s request s'
      → IsOrderly s'
  sent-IsOrderly request at effect =
      let (next_front, lt) = take-next s.requests s.next request at in
      ground (arith, h.sent_alive alive, length-append s.conn.sent (request ∷ []), next_front)

-- Every read, whatever its identifier and whatever the network does, keeps the session orderly.
pub read-IsOrderly :
    (s : ReadSession) (id : ReadId) (io : Io) → IsOrderly s → IsOrderly (read_approved s id io).0
read-IsOrderly s id io h = elim (Option-cases s.failed) [
  | inr (e, failed) ↦ rw (poisoned_reads_nothing s id io e failed) h
  | inl alive ↦ elim (read_effect s id io alive).1 [
    | inl nothing ↦
        nothing-IsOrderly s (read_approved s id io).0 h alive (read_effect s id io alive).0 nothing
    | inr (request, at, sent) ↦
        sent-IsOrderly s (read_approved s id io).0 h alive (read_effect s id io alive).0 request at
          sent
  ]
]

-- Reads one after another, each with what the network does during it.
unfoldable pub run_reads : ReadSession → List (ReadId × Io) → ReadSession
run_reads s [] = s
run_reads s ((id, io) ∷ rest) = run_reads (read_approved s id io).0 rest

pub run_reads-IsOrderly :
    (s : ReadSession) (reads : List (ReadId × Io)) → IsOrderly s → IsOrderly (run_reads s reads)
unfolding run_reads
run_reads-IsOrderly s [] h = h
run_reads-IsOrderly s ((id, io) ∷ rest) h =
    run_reads-IsOrderly (read_approved s id io).0 rest (read-IsOrderly s id io h)

pub read-requests :
    (s : ReadSession) (id : ReadId) (io : Io) → (read_approved s id io).0.requests ≡ s.requests
read-requests s id io = elim (Option-cases s.failed) [
  | inr (e, failed) ↦ rw (poisoned_reads_nothing s id io e failed)
  | inl alive ↦ (read_effect s id io alive).0.1
]

pub run_reads-requests :
    (s : ReadSession) (reads : List (ReadId × Io)) → (run_reads s reads).requests ≡ s.requests
unfolding run_reads
run_reads-requests s [] = refl
run_reads-requests s ((id, io) ∷ rest) =
    run_reads-requests (read_approved s id io).0 rest ∙ read-requests s id io

take-length {ℓ} : {A : Type ℓ} (xs : List A) → take (length xs) xs ≡ xs
take-length [] = refl
take-length (x ∷ xs) = ap (λ r. x ∷ r) (take-length xs)

complete_tests :
    (s : ReadSession) (ctx : Option ContextError)
    → (complete s ctx).1 ≡ ok tt
    → (s.failed ≡ none) × (ctx ≡ none) × (s.next ≡ length s.plan)
unfolding complete fail
complete_tests s ctx h = ground arith

-- For an orderly session `complete` succeeds exactly when nothing has failed, the context is live, the
-- plan is used up and all its requests have been sent, once each and in their order.
pub complete_sent_all :
    (s : ReadSession) (ctx : Option ContextError)
    → IsOrderly s
    → ((complete s ctx).1 ≡ ok tt)
      ↔ ((s.failed ≡ none) × (ctx ≡ none) × (s.next ≡ length s.plan) × (s.conn.sent ≡ s.requests))
unfolding complete
complete_sent_all s ctx h = (
  λ e.
      let (alive, live, used) = complete_tests s ctx e in
      let all : length s.conn.sent ≡ length s.requests =
        omega (arith, h.sent_alive alive, used, h.aligned) in
      (alive, live, used, h.sent_front ∙ ap (λ n. take n s.requests) all ∙ take-length s.requests),
  λ (alive, live, used, _). ground arith,
)
