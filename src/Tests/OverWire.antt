-- ===== src/Tests/OverWire.antt =====
-- Two frames in fragments, from the sender's queue over the wire to the receiver's cache.
use rsocket_py.Prelude.{
  ℕ, ◌<◌, ◌≤◌, ◌≡◌, refl, true, none, some, List, [], ◌∷◌, map, arith, All, ok, length,
}
use rsocket_py.Bytes.{Bytes}
use rsocket_py.Frame.Slots.{Body, Frame, init}
use rsocket_py.Frame.Fragmenting.{is_fragmentable_frame, get_header_length, new_frame_fragment}
use rsocket_py.FrameFragmenter.{
  body_size, data_loop, data_part, metadata_loop, fragments, data_to_fragments_if_required,
}
use rsocket_py.FrameParser.{finished, receive_data}
use rsocket_py.FrameParser.Framing.{send_all}
use rsocket_py.FrameFragmentCache.{Cache, append_all}
use rsocket_py.FrameFragmentCache.Interleaved.{on_stream}
use rsocket_py.Connection.{source}
use rsocket_py.Connection.Sender.{send_queued}
use rsocket_py.Connection.Sender.Ready.{HasRoom}
use rsocket_py.Connection.Sender.Queue.{IsOther, frames_left}
use rsocket_py.Connection.Sender.OverWire.{frames_in, IsWired, Arrives, append_all-receive_data}

-- A request and a payload of two and three bytes, in fragments of ten bytes at most.
abbrev channel : Frame
channel = record (init (Body.request_channel 5)) {
  header = record (init (Body.request_channel 5)).header { stream_id = 3 };
  metadata = some (1 ∷ []);
  data_bytes = some (2 ∷ []);
  fragment_size_bytes = some 14;
}

abbrev value : Frame
value = record (init (Body.payload true)) {
  header = record (init (Body.payload true)).header { stream_id = 5 };
  data_bytes = some (6 ∷ 7 ∷ 8 ∷ []);
  flags_complete = true;
  fragment_size_bytes = some 10;
}

abbrev two_frames : List Frame
two_frames = channel ∷ value ∷ []

abbrev nothing_cached : Cache
nothing_cached id = none

abbrev channel_room : HasRoom 9 channel
channel_room = record {
  header = 10;
  size = 14;
  header_length = unfold get_header_length in refl;
  sized = refl;
  first_fits = omega arith;
  next_fits = omega arith;
  fuel = omega arith;
}

abbrev value_room : HasRoom 9 value
value_room = record {
  header = 6;
  size = 10;
  header_length = unfold get_header_length in refl;
  sized = refl;
  first_fits = omega arith;
  next_fits = omega arith;
  fuel = omega arith;
}

two_IsWired : All (IsWired 9 true nothing_cached) two_frames
unfolding is_fragmentable_frame
two_IsWired = (
  record {
    cut = record { fragmentable = refl; room = channel_room; fresh = refl };
    sendable = record {
      stream = omega arith;
      type_matches = refl;
      metadata_fits = omega arith;
      fits = omega arith;
      carried = refl;
    };
    short = omega arith;
  },
  (
    record {
      cut = record { fragmentable = refl; room = value_room; fresh = refl };
      sendable = record {
        stream = omega arith;
        type_matches = refl;
        metadata_fits = omega arith;
        fits = tt;
        carried = refl;
      };
      short = omega arith;
    },
    tt,
  ),
)

few_turns : frames_left 9 true two_frames ≤ 12
unfolding data_to_fragments_if_required fragments metadata_loop data_part data_loop body_size
    new_frame_fragment is_fragmentable_frame get_header_length
few_turns = omega arith

append_all-receive_data_example :
    (b : Bytes) × (send_all (send_queued 12 9 true (map source two_frames)).1 ≡ ok b)
    × ((loops : ℕ)
        → length b < loops
        → let r = receive_data loops [] b 3 in
          (r.stop ≡ finished)
          × (r.buffer ≡ [])
          × (cache : Cache) × (out : List Frame) × (append_all nothing_cached (frames_in r.items)
              ≡ ok (cache, out))
          × All (Arrives 9 true out) two_frames
          × ((i : ℕ) → IsOther 9 true i two_frames → on_stream i out ≡ [])
          × ((i : ℕ) → cache i ≡ nothing_cached i))
append_all-receive_data_example =
    append_all-receive_data 9 true 12 two_frames nothing_cached (λ i. tt) two_IsWired
      ((refl, tt), (tt, tt)) few_turns
