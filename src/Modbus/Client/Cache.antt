-- ===== src/Modbus/Client/Cache.antt =====
-- client.go: the cache of the profile gates, and what a published snapshot says of it.
use Prim.Native.String.{String}
use jinko_exporter.Prelude.{
  ℕ, ◌≡◌, refl, sym, ◌⊎◌, inl, inr, Bool, Option, none, some, List, Result, ok, err, Result-cases,
  Option-cases, Bool-cases,
}
use jinko_exporter.Prelude.Int.{ℤ}
use jinko_exporter.Model.{Snapshot}
use jinko_exporter.Modbus.Profile.{ReadId, modbus_unit_id}
use jinko_exporter.Modbus.Decode.Words.{DecodeError}
use jinko_exporter.Modbus.Decode.Gates.{ProfileCapabilities, decode_capabilities}
use jinko_exporter.Modbus.Decode.Domains.{IsFamilyPower, capabilities_supported}
use jinko_exporter.Modbus.Transport.{ReadSession, Io}
use jinko_exporter.Modbus.Transport.Plan.{open_read_session}
use jinko_exporter.Modbus.Client.Program.{
  FetchError, Program, pure, decoded, ◌>>=◌, no_fetch_context, context_ended, open_failed,
}
use jinko_exporter.Modbus.Client.Readings.{validate_profile}
use jinko_exporter.Modbus.Client.Fetch.{
  Client, Network, Fetched, acquire, publish, fetch_cached, fetch, is_missing, snapshot_meta,
  not_sent,
}

-- What holds of the value of a program that ends well.
record Yields {A : Type 0} (P : A → Type 0) (m : Program A) : Type 0 where
  at : (s : ReadSession) (a : A) → (m s).1 ≡ ok a → P a

module _ {A : Type 0} (P : A → Type 0) where
  Yields-pure : (a : A) → P a → Yields P (pure a)
  unfolding pure
  Yields-pure a h = record { at = λ s b e. let same : b ≡ a = cc e in rw same h }

  Yields-decoded : (r : Result DecodeError A) → ((a : A) → r ≡ ok a → P a) → Yields P (decoded r)
  unfolding decoded
  Yields-decoded (ok a) h = record { at = λ s b e. h b (cc) }
  Yields-decoded (err x) h = record { at = λ s b e. absurd (cc) }

module _ {A B : Type 0} {P : A → Type 0} {Q : B → Type 0} where
  Yields-bind :
      {m : Program A} {next : A → Program B}
      → Yields P m
      → ((a : A) → P a → Yields Q (next a))
      → Yields Q (m >>= next)
  unfolding ◌>>=◌
  Yields-bind {m = m} hm hn = record {
    at = λ s b e. elim (Result-cases (m s).1) [
      | inr (x, failed) ↦ absurd (cc (rw (failed, ◌>>=◌) at e))
      | inl (a, passed) ↦ (hn a (hm.at s a passed)).at (m s).0 b (rw (passed, ◌>>=◌) at e)
    ];
  }

module _ {A B : Type 0} (Q : B → Type 0) where
  -- Only what follows matters.
  Yields-last :
      (m : Program A) (next : A → Program B) → ((a : A) → Yields Q (next a)) → Yields Q (m >>= next)
  Yields-last m next hn =
      Yields-bind {P = λ a. Unit {0}} (record { at = λ s a e. tt }) (λ a _. hn a)

-- The inverter family that the profile is for.
abbrev pub IsSupported : ProfileCapabilities → Type 0
IsSupported c = IsFamilyPower c.rated_power_w × (c.mppt_count ≡ 2) × (c.phase_count ≡ 3)

decoded-IsSupported : (words : List ℕ) → Yields IsSupported (decoded (decode_capabilities words))
decoded-IsSupported words =
    Yields-decoded IsSupported (decode_capabilities words)
      (λ c e. let h = capabilities_supported words c e in (h.0, h.1, h.2))

abbrev Acquires : ProfileCapabilities × List (String × String) → Type 0
Acquires (c, metadata) = IsSupported c

abbrev IsLabelled : ProfileCapabilities → List (String × String) → Snapshot ℤ → Type 0
IsLabelled c metadata s = s.meta ≡ snapshot_meta c metadata

ruleset yields_rules = (Yields-last, Yields-pure, decoded-IsSupported)

validate-IsSupported : (io : ReadId → Io) → Yields IsSupported (validate_profile io)
unfolding validate_profile
validate-IsSupported io = search yields_rules depth 20

acquire-IsSupported : (n : Network) (m : Bool) → Yields Acquires (acquire n m)
unfolding acquire
acquire-IsSupported n m =
    Yields-bind {P = IsSupported} (validate-IsSupported n.io) (λ c h. search yields_rules depth 20)

publish-IsLabelled :
    (c : Client) (capabilities : ProfileCapabilities) (n : Network)
    → Yields (IsLabelled capabilities c.metadata) (publish c capabilities n)
unfolding publish
publish-IsLabelled c capabilities n = search yields_rules depth 20

-- What is cached, if anything, is a supported inverter.
abbrev pub CacheIsSupported : Client → Type 0
CacheIsSupported c =
    (capabilities : ProfileCapabilities)
    → c.capabilities ≡ some capabilities
    → IsSupported capabilities

-- The cache is untouched, or was empty and has been filled.
abbrev pub Caches : Client → Client → Type 0
Caches c c' =
    (c' ≡ c)
    ⊎ ((c.capabilities ≡ none)
        × ((capabilities : ProfileCapabilities) × (metadata : List (String × String)) × (c'
              ≡ record c { capabilities = some capabilities; metadata = metadata })))

-- The labels are those of what the client has cached.
abbrev pub PublishesCached : Fetched → Type 0
PublishesCached f =
    (s : Snapshot ℤ)
    → f.result ≡ ok s
    → (capabilities : ProfileCapabilities) × (f.client.capabilities ≡ some capabilities)
      × (s.meta ≡ snapshot_meta capabilities f.client.metadata)

abbrev Good : Client → Fetched → Type 0
Good c f = Caches c f.client × CacheIsSupported f.client × PublishesCached f

not_sent-Good : (c : Client) (e : FetchError) → CacheIsSupported c → Good c (not_sent c e)
not_sent-Good c e h = (inl refl, h, λ s x. absurd (cc))

fetch_cached-Good :
    (c : Client) (n : Network) (cached : Option ProfileCapabilities) (s : ReadSession)
    → c.capabilities ≡ cached
    → CacheIsSupported c
    → Good c (fetch_cached c n cached s)
unfolding fetch_cached
fetch_cached-Good c n (some capabilities) s e h = (
  inl refl,
  h,
  λ snapshot x. (capabilities, e, (publish-IsLabelled c capabilities n).at s snapshot x),
)
fetch_cached-Good c n none s e h = elim (Result-cases (acquire n c.metadata_enabled s).1) [
  | inr (x, failed) ↦ rw (failed, fetch_cached) (inl refl, h, λ snapshot y. absurd (cc))
  | inl ((capabilities, metadata), passed) ↦
      let c' = record c { capabilities = some capabilities; metadata = metadata } in
      let supported =
        (acquire-IsSupported n c.metadata_enabled).at s (capabilities, metadata) passed in
      rw (passed, fetch_cached)
        (
          inr (e, (capabilities, metadata, refl)),
          λ other y. let same : capabilities ≡ other = cc y in rw (sym same) supported,
          λ snapshot y. (
            capabilities,
            refl,
            (publish-IsLabelled c' capabilities n).at (acquire n c.metadata_enabled s).0 snapshot y,
          ),
        )
]

-- A fetch, whether it succeeds or fails anywhere, leaves the cache of the client untouched or fills
-- an empty one; a cache that held only a supported inverter (a rated power of the family, two
-- trackers, three phases) holds only such a one afterwards; and a published snapshot carries the
-- labels of exactly the inverter and the metadata that are cached afterwards.
pub fetch-Caches :
    (c : Client) (n : Network)
    → CacheIsSupported c
    → let f = fetch c n in Caches c f.client × CacheIsSupported f.client × PublishesCached f
unfolding fetch
fetch-Caches c n h = elim (Bool-cases n.has_context) [
  | inr absent ↦ rw (absent, fetch) (not_sent-Good c no_fetch_context h)
  | inl present ↦ elim (Option-cases n.gate) [
    | inr (e, ended) ↦ rw (present, fetch, ended, fetch) (not_sent-Good c (context_ended e) h)
    | inl going ↦
        elim (Result-cases
          (open_read_session n.opening c.logger_serial modbus_unit_id (is_missing c.capabilities)
            c.metadata_enabled).result) [
              | inr (e, failed) ↦
                  rw (present, fetch, going, fetch, failed, fetch)
                    (not_sent-Good c (open_failed e) h)
              | inl (s, opened) ↦
                  rw (present, fetch, going, fetch, opened, fetch)
                    (fetch_cached-Good c n c.capabilities s refl h)
            ]
  ]
]
