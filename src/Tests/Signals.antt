-- ===== src/Tests/Signals.antt =====
-- Signals of a publisher that cross the wire: a value, an empty payload and an exception.
use rsocket_py.Prelude.{
  refl, false, none, some, List, [], ◌∷◌, arith, All, ErrorCode, Error, protocol_error,
}
use rsocket_py.Bytes.{Bytes, be}
use rsocket_py.Bytes.Utf8.{is_utf8, continues_utf8}
use rsocket_py.Frame.Serialize.{
  compute_frame_length, compute_frame_prefix_length, compute_data_metadata_length,
}
use rsocket_py.Frame.Errors.{exception_to_error_frame}
use rsocket_py.Frame.Fragmenting.{new_frame_fragment}
use rsocket_py.Frame.Sendable.{IsSendable, middle_of}
use rsocket_py.FrameBuilders.{Payload, to_payload_frame}
use rsocket_py.FrameParser.Framing.{IsFramed}
use rsocket_py.FrameFragmentCache.{Cache}
use rsocket_py.Handlers.{Signal}
use rsocket_py.Handlers.Crossing.{piece, Crosses, nothing}

abbrev pub no_text : Error → Bytes
no_text e = []

abbrev pub empty_cache : Cache
empty_cache id = none

abbrev pub small : Payload
small = record { data_bytes = some (1 ∷ []); metadata = none }

abbrev value : Signal
value = Signal.on_next small false

abbrev empty : Signal
empty = Signal.on_next nothing false

abbrev failure : Signal
failure = Signal.on_error (protocol_error ErrorCode.rejected (7 ∷ []))

abbrev pub signals : List Signal
signals = value ∷ empty ∷ failure ∷ []

value-IsSendable : IsSendable (piece no_text 3 value)
unfolding new_frame_fragment to_payload_frame
value-IsSendable = record {
  stream = omega arith;
  type_matches = refl;
  metadata_fits = omega arith;
  fits = tt;
  carried = refl;
}

empty-IsSendable : IsSendable (piece no_text 3 empty)
unfolding new_frame_fragment to_payload_frame
empty-IsSendable = record {
  stream = omega arith;
  type_matches = refl;
  metadata_fits = omega arith;
  fits = tt;
  carried = refl;
}

failure-IsSendable : IsSendable (piece no_text 3 failure)
unfolding exception_to_error_frame
failure-IsSendable = record {
  stream = omega arith;
  type_matches = refl;
  metadata_fits = omega arith;
  fits = tt;
  carried = (refl, refl, (refl, refl));
}

value-IsFramed : IsFramed (piece no_text 3 value)
unfolding compute_frame_length compute_frame_prefix_length compute_data_metadata_length middle_of
    new_frame_fragment to_payload_frame
value-IsFramed = record { sendable = value-IsSendable; short = omega arith }

empty-IsFramed : IsFramed (piece no_text 3 empty)
unfolding compute_frame_length compute_frame_prefix_length compute_data_metadata_length middle_of
    new_frame_fragment to_payload_frame
empty-IsFramed = record { sendable = empty-IsSendable; short = omega arith }

failure-IsFramed : IsFramed (piece no_text 3 failure)
unfolding compute_frame_length compute_frame_prefix_length compute_data_metadata_length middle_of
    exception_to_error_frame
failure-IsFramed = record { sendable = failure-IsSendable; short = unfold be in omega arith }

pub signals-Crosses : All (Crosses no_text 3) signals
unfolding exception_to_error_frame is_utf8 continues_utf8
signals-Crosses = (
  record { framed = value-IsFramed; readable = tt },
  (
    record { framed = empty-IsFramed; readable = tt },
    (record { framed = failure-IsFramed; readable = refl }, tt),
  ),
)
