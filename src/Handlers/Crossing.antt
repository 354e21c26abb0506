-- ===== src/Handlers/Crossing.antt =====
-- Signals of a publisher as frames on one stream, from the send queue of one side to the stream handler
-- of the other side, where the socket has no fragment size.
use rsocket_py.Prelude.{
  ℕ, zero, suc, ◌≤◌, ◌<◌, ◌≡◌, refl, ap, ◌∙◌, Bool, true, false, ◌||◌, none, some, List, [], ◌∷◌,
  ◌++◌, map, ErrorCode, Error, protocol_error, stream_id_in_use, runtime_error, ok, arith, length,
  All,
}
use rsocket_py.Bytes.{Bytes}
use rsocket_py.Bytes.Utf8.{is_utf8}
use rsocket_py.Frame.Slots.{Body, Frame, truthy}
use rsocket_py.Frame.Serialize.{bytes_of, next_flag}
use rsocket_py.Frame.Errors.{
  exception_to_error_frame, error_frame_to_exception, exception_of,
  error_frame_to_exception-is_utf8,
}
use rsocket_py.Frame.Fragmenting.{
  is_fragmentable_frame, is_fragmentable_body, get_header_length, get_next_fragment,
  new_frame_fragment,
}
use rsocket_py.Frame.Sendable.{arrived, sent, middle_of}
use rsocket_py.Frame.Prefix.{measured}
use rsocket_py.Frame.RoundTrip.{after_serialize}
use rsocket_py.FrameFragmenter.{data_to_fragments_if_required}
use rsocket_py.FrameFragmentCache.{Cache, append_all}
use rsocket_py.FrameBuilders.{Payload, to_payload_frame}
use rsocket_py.FrameParser.{receive_data}
use rsocket_py.FrameParser.Framing.{IsFramed, arrival, send_all, receive_data-send_all}
use rsocket_py.Connection.{Source, source}
use rsocket_py.Connection.Sender.{sending, get_next_frame_to_send, send_queued}
use rsocket_py.Connection.Sender.OverWire.{frames_in}
use rsocket_py.Connection.Refusals.{append_alone}
use rsocket_py.Handlers.{Signal, on_next, on_complete, on_error}

-- An exception on the other side of the wire: only protocol errors keep their code and their text.
abbrev pub relayed : Error → Error
relayed (protocol_error ErrorCode.application_error text) = runtime_error
relayed (protocol_error code text) = protocol_error code text
relayed (stream_id_in_use id) = protocol_error ErrorCode.rejected []
relayed e = runtime_error

-- A payload that was read from the wire: what is not there is empty.
abbrev pub wire_payload : Payload → Payload
wire_payload p = record {
  data_bytes = some (bytes_of p.data_bytes);
  metadata = some (bytes_of p.metadata);
}

abbrev pub has_content : Payload → Bool
has_content p = truthy p.data_bytes || truthy p.metadata

-- A value, or nothing to tell but that it was the last.
abbrev pub heard_next : Bool → Payload → Bool → List Signal
heard_next true p complete = on_next (wire_payload p) complete ∷ []
heard_next false p true = on_complete ∷ []
heard_next false p false = []

-- What the other side is told of a signal: a payload without data and metadata loses its flag `next`.
abbrev pub heard : Signal → List Signal
heard (on_next p complete) = heard_next (has_content p) p complete
heard on_complete = on_complete ∷ []
heard (on_error e) = on_error (relayed e) ∷ []

abbrev pub heard_all : List Signal → List Signal
heard_all [] = []
heard_all (s ∷ signals) = heard s ++ heard_all signals

abbrev pub nothing : Payload
nothing = record { data_bytes = none; metadata = none }

abbrev pub arrives : Frame → Frame
arrives f = arrived (after_serialize f)

module _ (text : Error → Bytes) (id : ℕ) where
  -- The frame of a signal, and the only fragment that the sender makes of it.
  abbrev pub frame_for : Signal → Frame
  frame_for (on_next p complete) = to_payload_frame id p complete true none
  frame_for on_complete = to_payload_frame id nothing true false none
  frame_for (on_error e) = exception_to_error_frame id e text

  abbrev whole_of : Frame → Frame
  whole_of f =
      new_frame_fragment f (record {
        data_bytes = f.data_bytes;
        metadata = f.metadata;
        is_last = none;
        is_first = true;
      })

  abbrev pub piece : Signal → Frame
  piece (on_error e) = exception_to_error_frame id e text
  piece s = whole_of (frame_for s)

  -- The text of an exception is UTF-8.
  abbrev pub IsReadable : Signal → Type 0
  IsReadable (on_error e) =
      is_utf8 (bytes_of (exception_to_error_frame id e text).data_bytes) ≡ true
  IsReadable s = Unit

  -- The frame fits the wire with its size header, and the other side can read it.
  pub record Crosses (s : Signal) : Type 0 where
    pub framed : IsFramed (piece s)
    pub readable : IsReadable s

  -- The error frame of an exception, and the exception that it carries.
  pub error_relayed :
      (e : Error)
      → (code : ErrorCode) × ((exception_to_error_frame id e text).body ≡ Body.error code)
        × (exception_of code (bytes_of (exception_to_error_frame id e text).data_bytes) ≡ relayed e)
        × ((exception_to_error_frame id e text).stream_id ≡ id)
        × ((exception_to_error_frame id e text).flags_follows ≡ false)
  unfolding exception_to_error_frame exception_of
  error_relayed (protocol_error ErrorCode.invalid_setup d) =
      (ErrorCode.invalid_setup, refl, refl, refl, refl)
  error_relayed (protocol_error ErrorCode.unsupported_setup d) =
      (ErrorCode.unsupported_setup, refl, refl, refl, refl)
  error_relayed (protocol_error ErrorCode.rejected_setup d) =
      (ErrorCode.rejected_setup, refl, refl, refl, refl)
  error_relayed (protocol_error ErrorCode.rejected_resume d) =
      (ErrorCode.rejected_resume, refl, refl, refl, refl)
  error_relayed (protocol_error ErrorCode.connection_error d) =
      (ErrorCode.connection_error, refl, refl, refl, refl)
  error_relayed (protocol_error ErrorCode.connection_error_no_retry d) =
      (ErrorCode.connection_error_no_retry, refl, refl, refl, refl)
  error_relayed (protocol_error ErrorCode.application_error d) =
      (ErrorCode.application_error, refl, refl, refl, refl)
  error_relayed (protocol_error ErrorCode.rejected d) = (ErrorCode.rejected, refl, refl, refl, refl)
  error_relayed (protocol_error ErrorCode.canceled d) = (ErrorCode.canceled, refl, refl, refl, refl)
  error_relayed (protocol_error ErrorCode.invalid d) = (ErrorCode.invalid, refl, refl, refl, refl)
  error_relayed (protocol_error ErrorCode.reserved d) = (ErrorCode.reserved, refl, refl, refl, refl)
  error_relayed (stream_id_in_use i) = (ErrorCode.rejected, refl, refl, refl, refl)
  error_relayed e = (ErrorCode.application_error, refl, refl, refl, refl)

  -- The error frame that arrives.
  pub error_arrives :
      (e : Error) (code : ErrorCode)
      → (exception_to_error_frame id e text).body ≡ Body.error code
      → arrives (exception_to_error_frame id e text)
        ≡ arrived (measured (exception_to_error_frame id e text) (middle_of (Body.error code)))
  error_arrives e code is =
      let f = exception_to_error_frame id e text in
      ap (λ (b : Body). arrived (measured (sent b f) (middle_of b))) is

  -- What the frame that arrives says of the exception.
  pub error_read :
      (e : Error) (code : ErrorCode)
      → exception_of code (bytes_of (exception_to_error_frame id e text).data_bytes) ≡ relayed e
      → Crosses (on_error e)
      → error_frame_to_exception code (bytes_of (exception_to_error_frame id e text).data_bytes)
        ≡ ok (relayed e)
  error_read e code carries h = error_frame_to_exception-is_utf8 code _ h.readable ∙ ap ok carries

  -- The flag `next` that arrives.
  pub next_content :
      (p : Payload) (complete : Bool) → next_flag false (piece (on_next p complete)) ≡ has_content p
  unfolding next_flag new_frame_fragment to_payload_frame
  next_content p complete = flag (truthy p.data_bytes) (truthy p.metadata)
    where
      flag : (a b : Bool) → (a || b || false) ≡ (a || b)
      flag true b = refl
      flag false true = refl
      flag false false = refl

  -- The frame that arrives is whole and on the stream.
  arrives_whole :
      (s : Signal)
      → ((arrives (piece s)).flags_follows ≡ false) × ((arrives (piece s)).stream_id ≡ id)
  unfolding new_frame_fragment to_payload_frame
  arrives_whole (on_next p complete) = (refl, refl)
  arrives_whole on_complete = (refl, refl)
  arrives_whole (on_error e) =
      let (code, is, carries, at, last) = error_relayed e in
      let came = error_arrives e code is in
      (ap (λ (f : Frame). f.flags_follows) came ∙ last, ap (λ (f : Frame). f.stream_id) came ∙ at)

  module _ (rounds : ℕ) where
    -- A turn of the sender takes the frame of a signal from the queue and sends its only piece.
    turn_lem :
        (s : Signal) (queue : List Source)
        → get_next_frame_to_send rounds true (source (frame_for s) ∷ queue)
          ≡ (queue, sending (piece s))
    unfolding get_next_frame_to_send get_next_fragment is_fragmentable_frame get_header_length
        data_to_fragments_if_required new_frame_fragment to_payload_frame
    turn_lem (on_next p complete) queue = refl
    turn_lem on_complete queue = refl
    turn_lem (on_error e) queue =
        let (code, is, carries, at, last) = error_relayed e in rw (ap is_fragmentable_body is) refl

    sends_pieces :
        (turns : ℕ) (signals : List Signal)
        → length signals ≤ turns
        → send_queued turns rounds true (map source (map frame_for signals))
          ≡ ([], map piece signals)
    unfolding send_queued
    sends_pieces zero [] h = refl
    sends_pieces zero (s ∷ signals) h = absurd (omega arith)
    sends_pieces (suc turns) [] h = unfold get_next_frame_to_send in refl
    sends_pieces (suc turns) (s ∷ signals) h =
        rw
          (
            turn_lem s (map source (map frame_for signals)),
            sends_pieces turns signals (omega arith),
          )
          refl

  all_framed : (signals : List Signal) → All Crosses signals → All IsFramed (map piece signals)
  all_framed [] h = tt
  all_framed (s ∷ signals) (h, hs) = (h.framed, all_framed signals hs)

  abbrev pub arriving : List Signal → List Frame
  arriving [] = []
  arriving (s ∷ signals) = arrives (piece s) ∷ arriving signals

  frames_in-arrival :
      (signals : List Signal) → frames_in (map arrival (map piece signals)) ≡ arriving signals
  frames_in-arrival [] = refl
  frames_in-arrival (s ∷ signals) =
      ap (λ (fs : List Frame). arrives (piece s) ∷ fs) (frames_in-arrival signals)

  -- The cache passes them on.
  passes :
      (cache : Cache) (signals : List Signal)
      → cache id ≡ none
      → append_all cache (arriving signals) ≡ ok (cache, arriving signals)
  unfolding append_all
  passes cache [] fresh = refl
  passes cache (s ∷ signals) fresh =
      let (last, at) = arrives_whole s in
      rw
        (
          append_alone cache (arrives (piece s)) last (ap cache at ∙ fresh),
          passes cache signals fresh,
        )
        refl

  -- The frames of signals that cross, in the send queue: the sender sends them in order and is left
  -- with an empty queue, the other side's parser reads all bytes, and its cache gives the frames.
  pub crossing :
      (rounds turns : ℕ) (cache : Cache) (signals : List Signal)
      → All Crosses signals
      → cache id ≡ none
      → length signals ≤ turns
      → let queue = send_queued turns rounds true (map source (map frame_for signals)) in
        (queue.0 ≡ [])
        × (b : Bytes) × (send_all queue.1 ≡ ok b)
        × ((loops : ℕ)
            → length b < loops
            → append_all cache (frames_in (receive_data loops [] b 3).items)
              ≡ ok (cache, arriving signals))
  crossing rounds turns cache signals h fresh enough =
      let out = sends_pieces rounds turns signals enough in
      let (b, written, reads) = receive_data-send_all (map piece signals) (all_framed signals h) in
      rw out (
        refl,
        b,
        written,
        λ loops room.
            rw (reads loops room)
              (ap (append_all cache) (frames_in-arrival signals) ∙ passes cache signals fresh),
      )
