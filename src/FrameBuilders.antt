-- ===== src/FrameBuilders.antt =====
-- rsocket/frame_builders.py. A payload is its data and its metadata; futures are not modelled.
pub mod Built
use rsocket_py.Prelude.{ℕ, Bool, true, false, Option, none, some, List, []}
use rsocket_py.Bytes.{Bytes}
use rsocket_py.DatetimeHelpers.{to_milliseconds}
use rsocket_py.Frame.Slots.{Header, SetupSlots, Body, Frame, init}

-- rsocket/payload.py
pub record Payload : Type 0 where
  pub data_bytes : Option Bytes
  pub metadata : Option Bytes

-- A new frame with a stream id and a payload.
abbrev on_stream : ℕ → Frame → Frame
on_stream stream_id f = record f { header = record (f.header) { stream_id = stream_id } }

abbrev with_payload : Payload → Option ℕ → Frame → Frame
with_payload p size f = record f {
  data_bytes = p.data_bytes;
  metadata = p.metadata;
  fragment_size_bytes = size;
}

unfoldable pub to_payload_frame : ℕ → Payload → Bool → Bool → Option ℕ → Frame
to_payload_frame stream_id p complete is_next size =
    record (with_payload p size (on_stream stream_id (init (Body.payload is_next)))) {
      flags_complete = complete;
    }

unfoldable pub to_request_n_frame : ℕ → ℕ → Frame
to_request_n_frame stream_id n = on_stream stream_id (init (Body.request_n n))

unfoldable pub to_cancel_frame : ℕ → Frame
to_cancel_frame stream_id = on_stream stream_id (init Body.cancel)

unfoldable pub to_request_channel_frame : ℕ → Payload → Option ℕ → ℕ → Bool → Frame
to_request_channel_frame stream_id p size initial_request_n complete =
    record (with_payload p size
      (on_stream stream_id (init (Body.request_channel initial_request_n)))) {
        flags_complete = complete;
      }

unfoldable pub to_request_stream_frame : ℕ → Payload → Option ℕ → ℕ → Frame
to_request_stream_frame stream_id p size initial_request_n =
    with_payload p size (on_stream stream_id (init (Body.request_stream initial_request_n)))

unfoldable pub to_request_response_frame : ℕ → Payload → Option ℕ → Frame
to_request_response_frame stream_id p size =
    with_payload p size (on_stream stream_id (init Body.request_response))

unfoldable pub to_fire_and_forget_frame : ℕ → Payload → Option ℕ → Frame
to_fire_and_forget_frame stream_id p size =
    with_payload p size (on_stream stream_id (init Body.request_fnf))

abbrev setup_payload : Option Payload → Frame → Frame
setup_payload none f = f
setup_payload (some p) f = record f { data_bytes = p.data_bytes; metadata = p.metadata }

-- `SetupFrame.__init__` leaves the token unset and the resume flag off.
unfoldable pub to_setup_frame : Option Payload → Bytes → Bytes → ℕ → ℕ → Bool → Frame
to_setup_frame p data_encoding metadata_encoding keep_alive_period max_lifetime_period honor_lease =
    setup_payload p (
      init (
        Body.setup (record {
          major_version = 1;
          minor_version = 0;
          keep_alive_milliseconds = to_milliseconds keep_alive_period;
          max_lifetime_milliseconds = to_milliseconds max_lifetime_period;
          token = none;
          metadata_encoding = metadata_encoding;
          data_encoding = data_encoding;
          flags_lease = honor_lease;
          flags_resume = false;
        })))

-- `MetadataPushFrame.__init__` sets the flag and the slot `metadata_only`.
unfoldable pub to_metadata_push_frame : Bytes → Frame
to_metadata_push_frame metadata = record (init Body.metadata_push) {
  header = record (init Body.metadata_push).header { flags_metadata = true };
  metadata = some metadata;
  metadata_only = true;
}

unfoldable pub to_keepalive_frame : Option Bytes → Frame
to_keepalive_frame data_bytes = record (init (Body.keep_alive true 0)) { data_bytes = data_bytes }
