-- ===== src/Modbus/Transport/Frames.antt =====
-- One V5 frame is cut from the bytes of the connection.
use jinko_exporter.Prelude.{
  ℕ, ◌+◌, ◌-◌, ◌*◌, ◌≤◌, ◌≡◌, List, [], ◌∷◌, ◌++◌, length, ok, arith, take-append-drop, length-take,
}
use jinko_exporter.Modbus.Bytes.{le16_at}
use jinko_exporter.Modbus.Transport.{read_one_v5_frame}

-- How a frame lies in the bytes it was cut from.
pub record IsCut (incoming frame rest : List ℕ) : Type 0 where
  pub split : frame ++ rest ≡ incoming
  pub stated : length frame ≡ le16_at frame 1 + 13
  pub at_least : 18 ≤ length frame
  pub at_most : length frame ≤ 128

-- A frame that is read is the front of what the connection holds, nothing of the rest is consumed,
-- its length is the one its header states, and it lies between 18 and 128 bytes.
pub read_one_v5_frame-IsCut :
    (incoming frame rest : List ℕ)
    → read_one_v5_frame incoming ≡ (ok frame, rest)
    → IsCut incoming frame rest
unfolding read_one_v5_frame
read_one_v5_frame-IsCut [] frame rest h = absurd (ground arith)
read_one_v5_frame-IsCut (a ∷ []) frame rest h = absurd (ground arith)
read_one_v5_frame-IsCut (a ∷ b ∷ []) frame rest h = absurd (ground arith)
read_one_v5_frame-IsCut (a ∷ b ∷ c ∷ tail) frame rest h =
    let n = b + 256 * c + 13 - 3 in ground (arith, take-append-drop n tail, length-take n tail)
