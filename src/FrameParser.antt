-- ===== src/FrameParser.antt =====
-- rsocket/frame_parser.py: cutting a stream of received bytes into frames.
pub mod Chunks
pub mod Framing
use rsocket_py.Prelude.{
  ℕ, zero, suc, ◌+◌, ◌-◌, ◌<◌, Bool, Option, none, some, List, [], ◌∷◌, ◌++◌, Result, ok, err,
  Error, ltb, if◌then◌else◌, length, take, drop,
}
use rsocket_py.Bytes.{Bytes, unpack}
use rsocket_py.Frame.Slots.{Frame}
use rsocket_py.Frame.Parse.{parse_or_ignore}

-- What `receive_data` yields: a frame, or an `InvalidFrame`.
pub data Item : Type 0 where
  frame : Frame → Item
  invalid_frame : Item

-- How the generator ends: by `return`, by an exception, or not within the rounds that it is given.
pub data Stop : Type 0 where
  finished : Stop
  raised : Error → Stop
  unfinished : Stop

-- What was yielded, the parser's `_buffer` afterwards, and the end.
pub record Received : Type 0 where
  pub items : List Item
  pub buffer : Bytes
  pub stop : Stop

-- One round's item; a frame to ignore yields nothing.
abbrev pub emit : Result (Option Frame) → Received → Received
emit (ok none) r = r
emit (ok (some f)) r = record r { items = frame f ∷ r.items }
emit (err e) r = record r { items = invalid_frame ∷ r.items }

-- `length` of the next frame: the size header's, or that of the whole message.
unfoldable pub frame_size : ℕ → Bytes → Bytes → Result ℕ
frame_size header_length received buffer =
    if ltb 0 header_length then unpack 4 (0 ∷ take header_length buffer) else ok (length received)

-- The `while` loop; a round is spent for each frame.
unfoldable pub receive_loop : ℕ → Bytes → ℕ → Bytes → ℕ → Received
receive_loop zero received header_length buffer total = record {
  items = [];
  buffer = buffer;
  stop = unfinished;
}
receive_loop (suc rounds) received header_length buffer total =
    if ltb total header_length
    then record { items = []; buffer = buffer; stop = finished }
    else elim (frame_size header_length received buffer) [
      | err e ↦ record { items = []; buffer = buffer; stop = raised e }
      | ok n ↦
          let rest =
            receive_loop rounds received header_length (drop (n + header_length) buffer)
              (total - (n + header_length)) in
          if ltb total (n + header_length)
          then record { items = []; buffer = buffer; stop = finished }
          else emit (parse_or_ignore (take n (drop header_length buffer))) rest
    ]

-- `receive_data(data, header_length)` on a parser that holds `buffer`, within `rounds` rounds.
unfoldable pub receive_data : ℕ → Bytes → Bytes → ℕ → Received
receive_data rounds buffer received header_length =
    receive_loop rounds received header_length (buffer ++ received) (length (buffer ++ received))
