-- ===== src/Modbus/Client/Program.antt =====
-- client.go: programs over one read session, which stop at the first error.
use jinko_exporter.Prelude.{ℕ, Result, ok, err, List}
use jinko_exporter.Modbus.Profile.{ReadId}
use jinko_exporter.Modbus.Decode.Words.{DecodeError}
use jinko_exporter.Modbus.Transport.{ContextError, SessionError, ReadSession, Io, read_approved}
use jinko_exporter.Modbus.Transport.Plan.{OpenError}

pub data FetchError : Type 0 where
  no_fetch_context : FetchError
  context_ended : ContextError → FetchError
  open_failed : OpenError → FetchError
  wrong_device_type : List ℕ → FetchError
  read_failed : ReadId → SessionError → FetchError
  decode_failed : DecodeError → FetchError
  no_definition : FetchError
  complete_failed : SessionError → FetchError

abbrev pub Program : Type 0 → Type 0
Program A = ReadSession → ReadSession × Result FetchError A

module _ {A : Type 0} where
  unfoldable pub pure : A → Program A
  pure a s = (s, ok a)

  unfoldable pub lift : Result FetchError A → Program A
  lift r s = (s, r)

  -- What a decoder says.
  unfoldable pub decoded : Result DecodeError A → Program A
  decoded (ok a) s = (s, ok a)
  decoded (err e) s = (s, err (decode_failed e))

module _ {A B : Type 0} where
  infixl 5 ◌>>=◌ ◌>>◌
  unfoldable pub ◌>>=◌ : Program A → (A → Program B) → Program B
  ◌>>=◌ m next s = let (s', r) = m s in elim r [ err e ↦ (s', err e) | ok a ↦ next a s' ]

  abbrev pub ◌>>◌ : Program A → Program B → Program B
  m >> next = m >>= λ a. next

-- `session.readApproved` with the error wrapped. A fetch asks for each identifier at most once, so
-- what the network does is a function of the identifier.
unfoldable pub read : (ReadId → Io) → ReadId → Program (List ℕ)
read io id s =
    let (s', r) = read_approved s id (io id) in
    elim r [ err e ↦ (s', err (read_failed id e)) | ok words ↦ (s', ok words) ]
