-- ===== src/Modbus/Client/Keeps.antt =====
-- client.go: the programs of a fetch keep the session orderly.
use jinko_exporter.Prelude.{
  ◌≡◌, refl, ◌∙◌, inl, inr, Bool, true, false, Option, if◌then◌else◌, Result, ok, err, Result-cases,
  arith,
}
use jinko_exporter.Prelude.Int.{ℤ}
use jinko_exporter.Modbus.Profile.{ReadId}
use jinko_exporter.Modbus.Decode.Words.{DecodeError}
use jinko_exporter.Modbus.Decode.Gates.{ProfileCapabilities}
use jinko_exporter.Modbus.Transport.{ContextError, ReadSession, Io, read_approved, complete, fail}
use jinko_exporter.Modbus.Transport.Session.{IsOrderly, read-IsOrderly, read-requests}
use jinko_exporter.Modbus.Client.Program.{FetchError, Program, pure, lift, decoded, ◌>>=◌, read}
use jinko_exporter.Modbus.Client.Readings.{
  validate_profile, read_metadata, read_generator, read_load, read_grid, read_battery, read_status,
  read_currents, read_measurements,
}
use jinko_exporter.Modbus.Client.Fetch.{Client, Network, acquire, complete_session, publish}

-- The session stays orderly and keeps its requests, whether the program ends well or not.
pub record Keeps {A : Type 0} (m : Program A) : Type 0 where
  pub at : (s : ReadSession) → IsOrderly s → IsOrderly (m s).0 × ((m s).0.requests ≡ s.requests)

module _ {A : Type 0} where
  Keeps-pure : (a : A) → Keeps (pure a)
  unfolding pure
  Keeps-pure a = record { at = λ s h. (h, refl) }

  pub Keeps-lift : (r : Result FetchError A) → Keeps (lift r)
  unfolding lift
  Keeps-lift r = record { at = λ s h. (h, refl) }

  Keeps-decoded : (r : Result DecodeError A) → Keeps (decoded r)
  unfolding decoded
  Keeps-decoded (ok a) = record { at = λ s h. (h, refl) }
  Keeps-decoded (err e) = record { at = λ s h. (h, refl) }

  Keeps-if : (b : Bool) (m n : Program A) → Keeps m → Keeps n → Keeps (if b then m else n)
  Keeps-if true m n hm hn = hm
  Keeps-if false m n hm hn = hn

module _ {A B : Type 0} where
  pub Keeps-bind :
      (m : Program A) (next : A → Program B)
      → Keeps m
      → ((a : A) → Keeps (next a))
      → Keeps (m >>= next)
  unfolding ◌>>=◌
  Keeps-bind m next hm hn = record {
    at = λ s h. elim (Result-cases (m s).1) [
      | inr (e, failed) ↦ rw (failed, ◌>>=◌) (hm.at s h)
      | inl (a, passed) ↦
          let (ordered, same) = hm.at s h in
          let (ordered', same') = (hn a).at (m s).0 ordered in
          rw (passed, ◌>>=◌) (ordered', same' ∙ same)
    ];
  }

Keeps-read : (io : ReadId → Io) (id : ReadId) → Keeps (read io id)
unfolding read
Keeps-read io id = record {
  at = λ s h. elim (Result-cases (read_approved s id (io id)).1) [
    | inr (e, failed) ↦
        rw (failed, read) (read-IsOrderly s id (io id) h, read-requests s id (io id))
    | inl (words, passed) ↦
        rw (passed, read) (read-IsOrderly s id (io id) h, read-requests s id (io id))
  ];
}

ruleset keeps_rules = (Keeps-pure, Keeps-lift, Keeps-decoded, Keeps-if, Keeps-bind, Keeps-read)

module _ (io : ReadId → Io) where
  Keeps-validate_profile : Keeps (validate_profile io)
  unfolding validate_profile
  Keeps-validate_profile = search keeps_rules depth 30

  Keeps-read_metadata : Keeps (read_metadata io)
  unfolding read_metadata
  Keeps-read_metadata = search keeps_rules depth 30

  Keeps-read_generator : Keeps (read_generator io)
  unfolding read_generator
  Keeps-read_generator = search keeps_rules depth 30

  Keeps-read_load : Keeps (read_load io)
  unfolding read_load
  Keeps-read_load = search keeps_rules depth 30

  Keeps-read_grid : Keeps (read_grid io)
  unfolding read_grid
  Keeps-read_grid = search keeps_rules depth 30

  Keeps-read_status : Keeps (read_status io)
  unfolding read_status
  Keeps-read_status = search keeps_rules depth 30

  Keeps-read_currents : Keeps (read_currents io)
  unfolding read_currents
  Keeps-read_currents = search keeps_rules depth 30

  Keeps-read_battery : (rated : ℤ) → Keeps (read_battery io rated)
  unfolding read_battery
  Keeps-read_battery rated = search keeps_rules depth 30

ruleset reading_rules = (
  keeps_rules, Keeps-validate_profile, Keeps-read_metadata, Keeps-read_generator, Keeps-read_load,
  Keeps-read_grid, Keeps-read_battery, Keeps-read_status, Keeps-read_currents,
)

pub Keeps-read_measurements : (io : ReadId → Io) (rated : ℤ) → Keeps (read_measurements io rated)
unfolding read_measurements
Keeps-read_measurements io rated = search reading_rules depth 20

Keeps-complete : (ctx : Option ContextError) → Keeps (complete_session ctx)
unfolding complete_session complete fail
Keeps-complete ctx = record { at = λ s h. ground (arith, h.sent_alive) }

pub Keeps-acquire : (n : Network) (m : Bool) → Keeps (acquire n m)
unfolding acquire
Keeps-acquire n m = search reading_rules depth 20

pub Keeps-publish :
    (c : Client) (capabilities : ProfileCapabilities) (n : Network)
    → Keeps (publish c capabilities n)
unfolding publish
Keeps-publish c capabilities n =
    search (reading_rules, Keeps-read_measurements, Keeps-complete) depth 20
