-- ===== src/Transports.antt =====
-- rsocket/transports/tcp.py: `TransportTCP`. The writer takes what it is given, and the reader gives
-- what has come, at most `_read_buffer_size` bytes at a time, or no bytes at the end.
pub mod Stream
use rsocket_py.Prelude.{
  ℕ, Bool, true, false, Option, none, some, List, [], ◌∷◌, ◌++◌, Result, ok, err, Error,
  transport_error,
}
use rsocket_py.Prelude.Actions.{Act}
use rsocket_py.Bytes.{Bytes}
use rsocket_py.Frame.Slots.{Frame}
use rsocket_py.Frame.Serialize.{serialize_prefix_with_frame_size_header, write_data_metadata}
use rsocket_py.FrameParser.{Item, Received, receive_data}

-- The buffer of its parser, the bytes that were written, and whether the writer was closed.
pub record TransportTcp : Type 0 where
  pub buffer : Bytes
  pub written : Bytes
  pub closed : Bool

abbrev pub transport_tcp : TransportTcp
transport_tcp = record { buffer = []; written = []; closed = false }

abbrev pub write : Bytes → TransportTcp → TransportTcp
write b t = record t { written = t.written ++ b }

-- With `wrap_transport_exception`
abbrev pub serialize_partial : Result (Frame × Bytes) → Act TransportTcp Frame
serialize_partial (err e) t = (t, err transport_error)
serialize_partial (ok (f, prefix)) t = (write (write_data_metadata f) (write prefix t), ok f)

unfoldable pub send_frame : Frame → Act TransportTcp Frame
send_frame f = serialize_partial (serialize_prefix_with_frame_size_header f)

-- What the reader gave goes to the parser; `none` ends the loop of the receiver. The generator is
-- run to its end.
unfoldable pub next_frame_generator : ℕ → Bytes → TransportTcp → TransportTcp × Option Received
next_frame_generator rounds [] t = (record t { closed = true }, none)
next_frame_generator rounds (x ∷ xs) t =
    let r = receive_data rounds t.buffer (x ∷ xs) 3 in (record t { buffer = r.buffer }, some r)

-- The loop of the receiver over what the reader gives.
unfoldable pub read_all : ℕ → List Bytes → TransportTcp → TransportTcp × List Item
read_all rounds [] t = (t, [])
read_all rounds (chunk ∷ chunks) t =
    let (t', received) = next_frame_generator rounds chunk t in
    elim received [
      | none ↦ (t', [])
      | some r ↦ let rest = read_all rounds chunks t' in (rest.0, r.items ++ rest.1)
    ]
