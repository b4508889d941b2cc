-- ===== src/Modbus/Client/Sends.antt =====
-- client.go: what a fetch has sent, however it ends.
use jinko_exporter.Prelude.{
  ℕ, ◌<◌, ◌≡◌, ◌≢◌, refl, ap, ◌∙◌, inl, inr, Option, none, some, List, length, take, Result, ok,
  Result-cases, Option-cases, Bool-cases, arith,
}
use jinko_exporter.Prelude.Int.{ℤ}
use jinko_exporter.Model.{Snapshot}
use jinko_exporter.Modbus.Decode.Gates.{ProfileCapabilities}
use jinko_exporter.Modbus.Transport.{ContextError, ReadSession, complete, fetch_read_plan, fail}
use jinko_exporter.Modbus.Transport.Session.{IsOrderly, complete_sent_all}
use jinko_exporter.Modbus.Transport.Plan.{
  open_read_session, open_exactly, fresh_session, fresh-IsOrderly, planned_frames,
}
use jinko_exporter.Modbus.Client.Program.{
  FetchError, Program, pure, lift, ◌>>=◌, no_fetch_context, context_ended, open_failed,
}
use jinko_exporter.Modbus.Client.Keeps.{
  Keeps, Keeps-lift, Keeps-read_measurements, Keeps-acquire, Keeps-publish,
}
use jinko_exporter.Modbus.Client.Fetch.{
  Client, Network, Fetched, acquire, complete_session, publish, fetch_cached, fetch, is_missing,
  fetched, not_sent,
}

-- A program that leaves the session alone.
record Silent {A : Type 0} (m : Program A) : Type 0 where
  same : (s : ReadSession) → (m s).0 ≡ s

-- A program whose success means that every request was sent.
record SendsAll {A : Type 0} (m : Program A) : Type 0 where
  all :
      (s : ReadSession) (a : A)
      → IsOrderly s
      → (m s).1 ≡ ok a
      → (m s).0.conn.sent ≡ (m s).0.requests

module _ {A : Type 0} where
  Silent-pure : (a : A) → Silent (pure a)
  unfolding pure
  Silent-pure a = record { same = λ s. refl }

  Silent-lift : (r : Result FetchError A) → Silent (lift r)
  unfolding lift
  Silent-lift r = record { same = λ s. refl }

module _ {A B : Type 0} where
  Silent-bind :
      (m : Program A) (next : A → Program B)
      → Silent m
      → ((a : A) → Silent (next a))
      → Silent (m >>= next)
  unfolding ◌>>=◌
  Silent-bind m next hm hn = record {
    same = λ s. elim (Result-cases (m s).1) [
      | inr (e, failed) ↦ rw (failed, ◌>>=◌) (hm.same s)
      | inl (a, passed) ↦ rw (passed, ◌>>=◌) ((hn a).same (m s).0 ∙ hm.same s)
    ];
  }

  SendsAll-bind :
      (m : Program A) (next : A → Program B)
      → Keeps m
      → ((a : A) → SendsAll (next a))
      → SendsAll (m >>= next)
  unfolding ◌>>=◌
  SendsAll-bind m next hm hn = record {
    all = λ s b h e. elim (Result-cases (m s).1) [
      | inr (f, failed) ↦ absurd (cc (rw (failed, ◌>>=◌) at e))
      | inl (a, passed) ↦
          rw (passed, ◌>>=◌) ((hn a).all (m s).0 b (hm.at s h).0 (rw (passed, ◌>>=◌) at e))
    ];
  }

completed :
    (ctx : Option ContextError) (s : ReadSession)
    → IsOrderly s
    → (complete_session ctx s).1 ≡ ok tt
    → (complete_session ctx s).0.conn.sent ≡ (complete_session ctx s).0.requests
unfolding complete_session complete fail
completed ctx s h e = ground (arith, complete_sent_all s ctx h)

module _ {A : Type 0} where
  SendsAll-complete :
      (ctx : Option ContextError) (next : Unit {0} → Program A)
      → ((a : Unit) → Silent (next a))
      → SendsAll (complete_session ctx >>= next)
  unfolding ◌>>=◌
  SendsAll-complete ctx next hn = record {
    all = λ s b h e. elim (Result-cases (complete_session ctx s).1) [
      | inr (f, failed) ↦ absurd (cc (rw (failed, ◌>>=◌) at e))
      | inl (a, passed) ↦
          rw (passed, ◌>>=◌)
            (rw ((hn a).same (complete_session ctx s).0) (completed ctx s h passed))
    ];
  }

SendsAll-publish :
    (c : Client) (capabilities : ProfileCapabilities) (n : Network)
    → SendsAll (publish c capabilities n)
unfolding publish
SendsAll-publish c capabilities n =
    search
      (
        SendsAll-complete, SendsAll-bind, Silent-bind, Silent-lift, Silent-pure, Keeps-lift,
        Keeps-read_measurements,
      )
      depth 20

-- The frames that a fetch would send.
abbrev pub fetch_frames : Client → List (List ℕ)
fetch_frames c =
    planned_frames c.logger_serial (fetch_read_plan (is_missing c.capabilities) c.metadata_enabled)

-- What was sent is a front of the plan's frames, and all of them if the fetch succeeds.
abbrev pub SendsFront : List (List ℕ) → Fetched → Type 0
SendsFront frames f =
    (f.sent ≡ take (length f.sent) frames)
    × ((snapshot : Snapshot ℤ) → f.result ≡ ok snapshot → f.sent ≡ frames)

publish_sends :
    (c : Client) (capabilities : ProfileCapabilities) (n : Network) (s : ReadSession)
    → IsOrderly s
    → SendsFront s.requests (fetched c (publish c capabilities n s))
publish_sends c capabilities n s h =
    let (ordered, same) = (Keeps-publish c capabilities n).at s h in
    (
      ordered.sent_front ∙ ap (take (length (publish c capabilities n s).0.conn.sent)) same,
      λ snapshot e. (SendsAll-publish c capabilities n).all s snapshot h e ∙ same,
    )

fetch_cached_sends :
    (c : Client) (n : Network) (cached : Option ProfileCapabilities) (s : ReadSession)
    → IsOrderly s
    → SendsFront s.requests (fetch_cached c n cached s)
unfolding fetch_cached
fetch_cached_sends c n (some capabilities) s h = publish_sends c capabilities n s h
fetch_cached_sends c n none s h =
    let (ordered, same) = (Keeps-acquire n c.metadata_enabled).at s h in
    elim (Result-cases (acquire n c.metadata_enabled s).1) [
      | inr (e, failed) ↦
          rw (failed, fetch_cached)
            (
              ordered.sent_front
                  ∙ ap (take (length (acquire n c.metadata_enabled s).0.conn.sent)) same,
              λ snapshot x. absurd (cc),
            )
      | inl ((capabilities, metadata), passed) ↦
          let c' = record c { capabilities = some capabilities; metadata = metadata } in
          let (front, full) =
            publish_sends c' capabilities n (acquire n c.metadata_enabled s).0 ordered in
          rw (passed, fetch_cached)
            (
              front
                  ∙ ap
                      (take (
                        length
                          (publish c' capabilities n
                            (acquire n c.metadata_enabled s).0).0.conn.sent))
                      same,
              λ snapshot x. full snapshot x ∙ same,
            )
    ]

not_sent-SendsFront :
    (frames : List (List ℕ)) (c : Client) (e : FetchError) → SendsFront frames (not_sent c e)
not_sent-SendsFront frames c e = (refl, λ snapshot x. absurd (cc))

-- Whatever the logger answers and whatever the clock and the context say, a fetch for a non-zero
-- 32-bit serial sends a front of the fixed plan's frames, in their order, each at most once; if it
-- returns a snapshot, it has sent the whole plan. The plan holds the profile gates, and the metadata
-- if they are enabled, only while no gates are cached.
pub fetch_sends_plan :
    (c : Client) (n : Network)
    → c.logger_serial ≢ 0
    → c.logger_serial < 4294967296
    → SendsFront (fetch_frames c) (fetch c n)
unfolding fetch
fetch_sends_plan c n nz hs =
    let missing = is_missing c.capabilities in
    let (_, opens, _) = open_exactly n.opening c.logger_serial missing c.metadata_enabled nz hs in
    elim (Bool-cases n.has_context) [
      | inr absent ↦ rw (absent, fetch) (not_sent-SendsFront (fetch_frames c) c no_fetch_context)
      | inl present ↦ elim (Option-cases n.gate) [
        | inr (e, ended) ↦
            rw (present, fetch, ended, fetch)
              (not_sent-SendsFront (fetch_frames c) c (context_ended e))
        | inl going ↦
            elim (Result-cases
              (open_read_session n.opening c.logger_serial 1 missing c.metadata_enabled).result) [
                | inr (e, failed) ↦
                    rw (present, fetch, going, fetch, failed, fetch)
                      (not_sent-SendsFront (fetch_frames c) c (open_failed e))
                | inl (s, opened) ↦
                    let fresh = (opens s opened).1 in
                    rw (present, fetch, going, fetch, opened, fetch, fresh)
                      (fetch_cached_sends c n c.capabilities
                        (fresh_session c.logger_serial missing c.metadata_enabled)
                        (fresh-IsOrderly c.logger_serial missing c.metadata_enabled))
              ]
      ]
    ]
