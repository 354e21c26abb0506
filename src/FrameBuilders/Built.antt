-- ===== src/FrameBuilders/Built.antt =====
-- What is built is read on the other side.
use rsocket_py.Prelude.{
  ℕ, ◌^◌, ◌≤◌, ◌<◌, ◌≡◌, refl, Bool, true, false, Option, none, some, [], arith, length, ok,
}
use rsocket_py.Bytes.{Bytes}
use rsocket_py.FrameHelpers.{safe_len}
use rsocket_py.DatetimeHelpers.{to_milliseconds}
use rsocket_py.Frame.Slots.{Body, Frame}
use rsocket_py.Frame.Parse.{parse_or_ignore}
use rsocket_py.Frame.Serialize.{serialize, bytes_of}
use rsocket_py.Frame.Sendable.{IsSendable, arrived}
use rsocket_py.Frame.RoundTrip.{
  after_serialize, wire_bytes, serialize-wire_bytes, parse_or_ignore-wire_bytes,
}
use rsocket_py.FrameBuilders.{
  Payload, to_payload_frame, to_request_n_frame, to_cancel_frame, to_request_channel_frame,
  to_request_stream_frame, to_request_response_frame, to_fire_and_forget_frame, to_setup_frame,
  to_metadata_push_frame, to_keepalive_frame,
}

-- The frame serializes, and the other side parses its bytes to a whole frame of this class and on this
-- stream, with this metadata and data and this flag.
pub record Carries (b : Body) (stream_id : ℕ) (metadata data_bytes : Bytes) (complete : Bool)
    (f : Frame) : Type 0 where
  pub sent : Frame
  pub bytes : Bytes
  pub read : Frame
  pub serializes : serialize f ≡ ok (sent, bytes)
  pub parses : parse_or_ignore bytes ≡ ok (some read)
  pub of_class : read.body ≡ b
  pub on_stream : read.stream_id ≡ stream_id
  pub same_metadata : read.metadata ≡ some metadata
  pub same_data : read.data_bytes ≡ some data_bytes
  pub completes : read.flags_complete ≡ complete
  pub whole : read.flags_follows ≡ false

-- By the frame that arrives.
read_back-Carries :
    (f : Frame)
    → IsSendable f
    → let g = arrived (after_serialize f) in
      g.flags_follows ≡ false
      → Carries g.body g.stream_id
          (bytes_of (after_serialize f).metadata)
          (bytes_of (after_serialize f).data_bytes)
          g.flags_complete
          f
read_back-Carries f s e = record {
  sent = after_serialize f;
  bytes = wire_bytes f;
  read = arrived (after_serialize f);
  serializes = serialize-wire_bytes f s;
  parses = parse_or_ignore-wire_bytes f s;
  of_class = refl;
  on_stream = refl;
  same_metadata = refl;
  same_data = refl;
  completes = refl;
  whole = e;
}

abbrev pub data_of : Option Payload → Bytes
data_of none = []
data_of (some p) = bytes_of p.data_bytes

abbrev pub metadata_of : Option Payload → Option Bytes
metadata_of none = none
metadata_of (some p) = p.metadata

-- For a stream id of 32 bits, a request number of 32 bits and metadata shorter than 2 ^ 24, the
-- frames of a stream that the builders make are sendable.
pub stream_frames-IsSendable :
    (stream_id n : ℕ) (p : Payload) (size : Option ℕ) (complete is_next : Bool)
    → stream_id < 2 ^ 32
    → n < 2 ^ 32
    → safe_len p.metadata < 2 ^ 24
    → IsSendable (to_payload_frame stream_id p complete is_next size)
      × IsSendable (to_request_channel_frame stream_id p size n complete)
      × IsSendable (to_request_stream_frame stream_id p size n)
      × IsSendable (to_request_response_frame stream_id p size)
      × IsSendable (to_fire_and_forget_frame stream_id p size)
      × IsSendable (to_request_n_frame stream_id n)
      × IsSendable (to_cancel_frame stream_id)
unfolding to_payload_frame to_request_channel_frame to_request_stream_frame
    to_request_response_frame to_fire_and_forget_frame to_request_n_frame to_cancel_frame
stream_frames-IsSendable stream_id n p size complete is_next hs hn hm = (
  record { stream = hs; type_matches = refl; metadata_fits = hm; fits = tt; carried = refl },
  record { stream = hs; type_matches = refl; metadata_fits = hm; fits = hn; carried = refl },
  record {
    stream = hs;
    type_matches = refl;
    metadata_fits = hm;
    fits = hn;
    carried = (refl, refl);
  },
  record {
    stream = hs;
    type_matches = refl;
    metadata_fits = hm;
    fits = tt;
    carried = (refl, refl);
  },
  record {
    stream = hs;
    type_matches = refl;
    metadata_fits = hm;
    fits = tt;
    carried = (refl, refl);
  },
  record {
    stream = hs;
    type_matches = refl;
    metadata_fits = omega arith;
    fits = hn;
    carried = (refl, refl, refl, (refl, refl));
  },
  record {
    stream = hs;
    type_matches = refl;
    metadata_fits = omega arith;
    fits = tt;
    carried = (refl, refl, refl, (refl, refl));
  },
)

-- The frames of the connection that the builders make are sendable: the setup frame if its two
-- periods in milliseconds have 32 bits, its encodings at most 127 bytes and its metadata is shorter
-- than 2 ^ 24, the metadata push frame with metadata shorter than that, and the keep-alive frame.
pub connection_frames-IsSendable :
    (p : Option Payload) (data_encoding metadata_encoding : Bytes)
    (keep_alive_period max_lifetime_period : ℕ) (honor_lease : Bool) (metadata : Bytes)
    (data_bytes : Option Bytes)
    → to_milliseconds keep_alive_period < 2 ^ 32
    → to_milliseconds max_lifetime_period < 2 ^ 32
    → length data_encoding ≤ 127
    → length metadata_encoding ≤ 127
    → safe_len (metadata_of p) < 2 ^ 24
    → length metadata < 2 ^ 24
    → IsSendable (
        to_setup_frame p data_encoding metadata_encoding keep_alive_period max_lifetime_period
          honor_lease)
      × IsSendable (to_metadata_push_frame metadata)
      × IsSendable (to_keepalive_frame data_bytes)
unfolding to_setup_frame to_metadata_push_frame to_keepalive_frame
connection_frames-IsSendable none de me k l honor m d hk hl hd hm hp h = (
  record {
    stream = omega arith;
    type_matches = refl;
    metadata_fits = omega arith;
    fits = (omega arith, omega arith, hk, hl, tt, hm, hd);
    carried = (refl, (refl, refl));
  },
  record {
    stream = omega arith;
    type_matches = refl;
    metadata_fits = h;
    fits = tt;
    carried = (refl, refl, (refl, refl), refl);
  },
  record {
    stream = omega arith;
    type_matches = refl;
    metadata_fits = omega arith;
    fits = omega arith;
    carried = (refl, refl, (refl, refl));
  },
)
connection_frames-IsSendable (some p) de me k l honor m d hk hl hd hm hp h = (
  record {
    stream = omega arith;
    type_matches = refl;
    metadata_fits = hp;
    fits = (omega arith, omega arith, hk, hl, tt, hm, hd);
    carried = (refl, (refl, refl));
  },
  record {
    stream = omega arith;
    type_matches = refl;
    metadata_fits = h;
    fits = tt;
    carried = (refl, refl, (refl, refl), refl);
  },
  record {
    stream = omega arith;
    type_matches = refl;
    metadata_fits = omega arith;
    fits = omega arith;
    carried = (refl, refl, (refl, refl));
  },
)

-- The frames of the connection that the builders make are read on the other side on stream 0: the
-- setup frame with its periods in milliseconds, its two encodings, the flag for leases, and its
-- payload, if the periods have 32 bits, the encodings at most 127 bytes and the metadata is shorter than
-- 2 ^ 24; the metadata push frame with metadata shorter than that; and the keep-alive frame with its
-- data and the flag that asks for a response.
pub connection_frames-Carries :
    (p : Option Payload) (data_encoding metadata_encoding : Bytes)
    (keep_alive_period max_lifetime_period : ℕ) (honor_lease : Bool) (metadata : Bytes)
    (data_bytes : Option Bytes)
    → to_milliseconds keep_alive_period < 2 ^ 32
    → to_milliseconds max_lifetime_period < 2 ^ 32
    → length data_encoding ≤ 127
    → length metadata_encoding ≤ 127
    → safe_len (metadata_of p) < 2 ^ 24
    → length metadata < 2 ^ 24
    → Carries
        (Body.setup (record {
          major_version = 1;
          minor_version = 0;
          keep_alive_milliseconds = to_milliseconds keep_alive_period;
          max_lifetime_milliseconds = to_milliseconds max_lifetime_period;
          token = none;
          metadata_encoding = metadata_encoding;
          data_encoding = data_encoding;
          flags_lease = honor_lease;
          flags_resume = false;
        }))
        0
        (bytes_of (metadata_of p))
        (data_of p)
        false
        (to_setup_frame p data_encoding metadata_encoding keep_alive_period max_lifetime_period
          honor_lease)
      × Carries Body.metadata_push 0 metadata [] false (to_metadata_push_frame metadata)
      × Carries
          (Body.keep_alive true 0)
          0
          []
          (bytes_of data_bytes)
          false
          (to_keepalive_frame data_bytes)
unfolding to_setup_frame to_metadata_push_frame to_keepalive_frame
connection_frames-Carries none de me k l honor m d hk hl hd hm hp h =
    let (a, b, c) = connection_frames-IsSendable none de me k l honor m d hk hl hd hm hp h in
    (read_back-Carries _ a refl, read_back-Carries _ b refl, read_back-Carries _ c refl)
connection_frames-Carries (some p) de me k l honor m d hk hl hd hm hp h =
    let (a, b, c) = connection_frames-IsSendable (some p) de me k l honor m d hk hl hd hm hp h in
    (read_back-Carries _ a refl, read_back-Carries _ b refl, read_back-Carries _ c refl)
