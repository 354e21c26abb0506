-- ===== src/Tests/Wire.antt =====
-- Frames on the wire: rsocket/frame.py and rsocket/frame_parser.py on small inputs.
use rsocket_py.Prelude.{All, List, ℕ, ◌<◌, ◌≡◌, refl, some, [], ◌∷◌, ◌++◌, map, arith, ok, length}
use rsocket_py.Bytes.{Bytes, be}
use rsocket_py.Frame.Slots.{Body, Frame, init}
use rsocket_py.Frame.Parse.{parse_or_ignore}
use rsocket_py.Frame.Serialize.{
  serialize, compute_frame_length, compute_frame_prefix_length, compute_data_metadata_length,
}
use rsocket_py.Frame.Sendable.{IsSendable, arrived, middle_of}
use rsocket_py.Frame.RoundTrip.{parse_or_ignore-serialize}
use rsocket_py.FrameParser.{finished, unfinished, receive_data}
use rsocket_py.FrameParser.Chunks.{receive_data-append}
use rsocket_py.FrameParser.Framing.{IsFramed, arrival, receive_data_diverges}
use rsocket_py.Transports.{TransportTcp, transport_tcp, read_all}
use rsocket_py.Transports.Stream.{join, send_frames, read_all-send_frames}

-- A request on stream 5 with two bytes of metadata and one of data.
abbrev request : Frame
request = record (init (Body.request_stream 7)) {
  header = record (init (Body.request_stream 7)).header { stream_id = 5 };
  metadata = some (1 ∷ 2 ∷ []);
  data_bytes = some (3 ∷ []);
}

abbrev cancelled : Frame
cancelled = record (init Body.cancel) {
  header = record (init Body.cancel).header { stream_id = 5 };
}

request-IsSendable : IsSendable request
request-IsSendable = record {
  stream = omega arith;
  type_matches = refl;
  metadata_fits = omega arith;
  fits = omega arith;
  carried = (refl, refl);
}

cancelled-IsSendable : IsSendable cancelled
cancelled-IsSendable = record {
  stream = omega arith;
  type_matches = refl;
  metadata_fits = omega arith;
  fits = tt;
  carried = (refl, refl, refl, (refl, refl));
}

parse_or_ignore-serialize_example :
    (p : Frame × Bytes) × (serialize request ≡ ok p)
    × (parse_or_ignore p.1 ≡ ok (some (arrived p.0)))
parse_or_ignore-serialize_example = parse_or_ignore-serialize request request-IsSendable

receive_data-append_example :
    let first = receive_data 9 [] (0 ∷ 0 ∷ []) 3 in
    let second = receive_data 9 first.buffer (1 ∷ 7 ∷ []) 3 in
    (first.stop ≡ finished)
    × (second.stop ≡ finished)
    × (receive_data 9 [] (0 ∷ 0 ∷ 1 ∷ 7 ∷ []) 3
        ≡ record { items = first.items ++ second.items; buffer = second.buffer; stop = finished })
receive_data-append_example = receive_data-append 9 [] (0 ∷ 0 ∷ []) (1 ∷ 7 ∷ []) (omega arith)

request-IsFramed : IsFramed request
unfolding compute_frame_length compute_frame_prefix_length compute_data_metadata_length middle_of
request-IsFramed = record { sendable = request-IsSendable; short = unfold be in omega arith }

cancelled-IsFramed : IsFramed cancelled
unfolding compute_frame_length compute_frame_prefix_length compute_data_metadata_length middle_of
cancelled-IsFramed = record { sendable = cancelled-IsSendable; short = omega arith }

read_all-send_frames_example :
    (sender : TransportTcp) × (send_frames (request ∷ cancelled ∷ []) transport_tcp
      ≡ (sender, ok tt))
    × ((rounds : ℕ) (chunks : List Bytes)
        → All (λ c. 0 < length c) chunks
        → join chunks ≡ sender.written
        → length sender.written < rounds
        → read_all rounds chunks transport_tcp
          ≡ (transport_tcp, map arrival (request ∷ cancelled ∷ [])))
read_all-send_frames_example =
    read_all-send_frames (request ∷ cancelled ∷ []) (request-IsFramed, (cancelled-IsFramed, tt))

receive_data_diverges_example :
    ((receive_data 4 [] [] 0).stop ≡ unfinished) × (length (receive_data 4 [] [] 0).items ≡ 4)
receive_data_diverges_example = receive_data_diverges 4
