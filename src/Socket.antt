-- ===== src/Socket.antt =====
-- statsgod/socket.go: `readInput` and `readInputUdp`. What is read from a connection is a list of
-- buffers; what is sent to the parse channel is a list of messages, oldest first.
pub mod Reassembly
pub mod Kinds
pub mod Tcp
pub mod Udp
pub mod Unix
pub mod Listener
use statsgod.Metric.Parse.{parse_metric_string}
use statsgod.Float.{Float64}
use statsgod.Prelude.{
  false, true, length, none, ltb, ◌==◌, some, if◌then◌else◌, ◌++◌, [], ◌∷◌, Option, List, Bytes, ℕ,
}
use statsgod.Prelude.Outcome.{◌>>=◌, done, Outcome}

abbrev pub minimum_length_message : ℕ
minimum_length_message = 1

abbrev pub read_length : ℕ
read_length = 512

-- strings.Split(text, "\n"), from a piece that has begun: the pieces but the last, and the last.
unfoldable pub split_from : Bytes → Bytes → List Bytes × Bytes
split_from piece [] = ([], piece)
split_from piece (c ∷ s) =
    let (pieces, last) = split_from [] s in
    let longer = split_from (piece ++ c ∷ []) s in
    if c == b'\n' then (piece ∷ pieces, last) else longer

abbrev pub split : Bytes → List Bytes × Bytes
split = split_from []

-- The pieces that are sent.
unfoldable pub messages : List Bytes → List Bytes
messages [] = []
messages (m ∷ metrics) =
    let rest = messages metrics in if ltb minimum_length_message (length m) then m ∷ rest else rest

module _ (F : Type 0) ⦃f : Float64 F⦄ where
  -- What is kept of the last piece of a full buffer: what is sent beside the other pieces, and the
  -- overflow.
  unfoldable pub keep_last : Bytes → Outcome (List Bytes × Bytes)
  keep_last last = do
    (metric, failure) ← parse_metric_string {F = F} last
    done (elim failure [ some e ↦ ([], last) | none ↦ (last ∷ [], []) ])

  -- A round of the loop: the messages sent, and the overflow.
  unfoldable pub read_round : Bytes → Bytes → Outcome (List Bytes × Bytes)
  unfolding keep_last
  read_round overflow [] = done ([], overflow)
  read_round overflow (c ∷ buf) =
      let (pieces, last) = split (overflow ++ c ∷ buf) in
      elim (length (c ∷ buf) == read_length) [
        | true ↦ do (sent, kept) ← keep_last last; done (messages (pieces ++ sent), kept)
        | false ↦ done (messages (pieces ++ last ∷ []), [])
      ]

  -- The loop until a read fails.
  unfoldable pub read_input : Bytes → List Bytes → Outcome (List Bytes)
  unfolding read_round
  read_input overflow [] = done []
  read_input overflow (buf ∷ bufs) = do
    (sent, kept) ← read_round overflow buf
    later ← read_input kept bufs
    done (sent ++ later)

-- A packet, or an error.
unfoldable pub read_input_udp : Option Bytes → List Bytes
read_input_udp none = []
read_input_udp (some packet) =
    let (pieces, last) = split packet in
    if ltb minimum_length_message (length packet) then messages (pieces ++ last ∷ []) else []
