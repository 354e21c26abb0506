-- ===== src/Tests/Connections.antt =====
-- Connections on small inputs.
use rsocket_py.Prelude.{Bool, Option}
use rsocket_py.Prelude.{
  ℕ, ◌≤◌, ◌≡◌, refl, sym, append-nil, true, false, none, some, List, [], ◌∷◌, ◌++◌, map, arith,
  ErrorCode, Error, stream_id_in_use, protocol_error, runtime_error, ok, All, inl,
}
use rsocket_py.Prelude.Actions.{return, raise}
use rsocket_py.Bytes.{Bytes}
use rsocket_py.Frame.Slots.{SetupSlots, Body, Frame, init}
use rsocket_py.Frame.Errors.{exception_to_error_frame}
use rsocket_py.Frame.Fragmenting.{is_fragmentable_frame, get_header_length, new_frame_fragment}
use rsocket_py.FrameParser.{Item, frame, invalid_frame}
use rsocket_py.FrameFragmenter.{
  body_size, data_loop, data_part, metadata_loop, fragments, data_to_fragments_if_required,
}
use rsocket_py.FrameBuilders.{to_setup_frame}
use rsocket_py.StreamControl.{stream_control, lookup}
use rsocket_py.Lease.{null_lease, defined_lease, new_defined_lease}
use rsocket_py.Connection.{Source, source, Socket, State}
use rsocket_py.Connection.Sending.{send_frame, connect}
use rsocket_py.Connection.Requests.{requests_of}
use rsocket_py.Connection.LeaseOrder.{
  QueueEvent, request_made, lease_received, frame_made, after_events, accepted_by_all, IsOrderly,
  after_events-requests_of,
}
use rsocket_py.Connection.Sender.{send_queued, get_next_frame_to_send, sending}
use rsocket_py.FrameFragmentCache.Interleaved.{on_stream}
use rsocket_py.Connection.Sender.Ready.{IsReady, uncut, in_pieces, HasRoom, frames_to_send}
use rsocket_py.Connection.Sender.Queue.{IsOther, frames_left, send_queued-frames_to_send}
use rsocket_py.FrameFragmentCache.{Cache, append_all}
use rsocket_py.Connection.Sender.Delivery.{IsCut, Delivered, append_all-send_queued}
use rsocket_py.Connection.Sender.Mixing.{send_queued_alternates}
use rsocket_py.Connection.Receiving.{RequestHandler, StreamHandlers, resume_text}
use rsocket_py.Connection.Receiver.{Round, receive, receiver_listen}
use rsocket_py.Connection.Survival.{AreQuiet, receiver_listen_survives}
use rsocket_py.Connection.Refusals.{Reports, resuming, receive-in_use, receive_refuses_setup}
use rsocket_py.Connection.SetupFirst.{connect_setup_first}

abbrev frame_on : ℕ → Body → Frame
frame_on id b = record (init b) { header = record (init b).header { stream_id = id } }

-- A socket whose lease has one request left.
abbrev leased : Socket ℕ
leased = record {
  send_queue = [];
  request_queue = [];
  request_queue_size = 1;
  honor_lease = true;
  has_lease_publisher = false;
  requester_lease = defined_lease (new_defined_lease 0 1 100);
  responder_lease = null_lease;
  frame_fragment_cache = λ id. none;
  fragment_size_bytes = none;
  is_closing = false;
  clock_readings = 0;
  application = 0;
}

abbrev asked : List QueueEvent
asked =
    request_made (frame_on 1 Body.request_response)
    ∷ request_made (frame_on 3 (Body.request_stream 2))
    ∷ frame_made (frame_on 1 Body.cancel) refl
    ∷ request_made (frame_on 5 Body.request_fnf)
    ∷ lease_received 50 2
    ∷ []

after_events-requests_of_example :
    IsOrderly (λ i. i) (after_events (λ i. i) asked leased)
    × (requests_of (after_events (λ i. i) asked leased)
        ≡ requests_of leased ++ accepted_by_all (λ i. i) asked leased)
after_events-requests_of_example =
    after_events-requests_of (λ i. i) (λ i j h. h) asked leased (inl refl)

-- A payload of two metadata bytes and three data bytes in fragments of one byte, and a whole frame.
abbrev pieces : Frame
pieces = record (frame_on 3 (Body.payload true)) {
  metadata = some (1 ∷ 2 ∷ []);
  data_bytes = some (3 ∷ 4 ∷ 5 ∷ []);
  flags_complete = true;
  fragment_size_bytes = some 10;
}

abbrev waiting_frames : List Frame
waiting_frames = pieces ∷ frame_on 5 Body.cancel ∷ []

abbrev pieces_room : HasRoom 9 pieces
pieces_room = record {
  header = 6;
  size = 10;
  header_length = unfold get_header_length in refl;
  sized = refl;
  first_fits = omega arith;
  next_fits = omega arith;
  fuel = omega arith;
}

pieces-IsReady : All (IsReady 9) waiting_frames
unfolding is_fragmentable_frame
pieces-IsReady = (in_pieces refl pieces_room, (uncut refl, tt))

few_left : frames_left 9 true waiting_frames ≤ 7
unfolding data_to_fragments_if_required fragments metadata_loop data_part data_loop body_size
    new_frame_fragment is_fragmentable_frame get_header_length
few_left = omega arith

send_queued-frames_to_send_example :
    let r = send_queued 7 9 true (map source waiting_frames) in
    (r.0 ≡ [])
    × All (λ (f : Frame). on_stream f.stream_id r.1 ≡ frames_to_send 9 true f) waiting_frames
    × ((i : ℕ) → IsOther 9 true i waiting_frames → on_stream i r.1 ≡ [])
send_queued-frames_to_send_example =
    send_queued-frames_to_send 9 true 7 waiting_frames pieces-IsReady ((refl, tt), (tt, tt))
      few_left

-- Two frames in fragments of one byte, on two streams.
abbrev other_pieces : Frame
other_pieces = record pieces {
  header = record pieces.header { stream_id = 5 };
  data_bytes = some (6 ∷ []);
}

abbrev two_cut : List Frame
two_cut = pieces ∷ other_pieces ∷ []

abbrev no_fragments : Cache
no_fragments id = none

abbrev other_room : HasRoom 9 other_pieces
other_room = record {
  header = 6;
  size = 10;
  header_length = unfold get_header_length in refl;
  sized = refl;
  first_fits = omega arith;
  next_fits = omega arith;
  fuel = omega arith;
}

two_IsCut : All (IsCut 9 true no_fragments) two_cut
unfolding is_fragmentable_frame
two_IsCut = (
  record { fragmentable = refl; room = pieces_room; fresh = refl },
  (record { fragmentable = refl; room = other_room; fresh = refl }, tt),
)

some_left : frames_left 9 true two_cut ≤ 12
unfolding data_to_fragments_if_required fragments metadata_loop data_part data_loop body_size
    new_frame_fragment is_fragmentable_frame get_header_length
some_left = omega arith

append_all-send_queued_example :
    (cache : Cache) × (out : List Frame) × (append_all no_fragments
        (send_queued 12 9 true (map source two_cut)).1
      ≡ ok (cache, out))
    × All (Delivered 9 true no_fragments out) two_cut
    × ((i : ℕ) → IsOther 9 true i two_cut → on_stream i out ≡ [])
    × ((i : ℕ) → cache i ≡ no_fragments i)
append_all-send_queued_example =
    append_all-send_queued 9 true 12 two_cut no_fragments (λ i. tt) two_IsCut ((refl, tt), (tt, tt))
      some_left

-- A first and a second piece of a payload on stream 3.
abbrev piece : Option Bytes → Option Bytes → Bool → Bool → Frame
piece m d last first =
    new_frame_fragment pieces
      (record { data_bytes = d; metadata = m; is_last = some last; is_first = first })

abbrev rest_of_pieces : List Frame
rest_of_pieces =
    piece (some []) (some (3 ∷ [])) false false
    ∷ piece none (some (4 ∷ [])) false false
    ∷ piece none (some (5 ∷ [])) true false
    ∷ []

pieces_IsReady : IsReady 9 pieces
unfolding is_fragmentable_frame
pieces_IsReady = in_pieces refl pieces_room

pieces_sent :
    frames_to_send 9 true pieces
    ≡ piece (some (1 ∷ [])) none false true
      ∷ piece (some (2 ∷ [])) none false false
      ∷ rest_of_pieces
unfolding data_to_fragments_if_required fragments metadata_loop data_part data_loop body_size
    is_fragmentable_frame get_header_length
pieces_sent = refl

send_queued_alternates_example :
    (send_queued 2 9 true (source pieces ∷ source pieces ∷ [])).1
    ≡ piece (some (1 ∷ [])) none false true ∷ piece (some (1 ∷ [])) none false true ∷ []
send_queued_alternates_example =
    send_queued_alternates 9 true pieces pieces (piece (some (1 ∷ [])) none false true)
      (piece (some (2 ∷ [])) none false false) (piece (some (1 ∷ [])) none false true)
      (piece (some (2 ∷ [])) none false false) rest_of_pieces rest_of_pieces pieces_IsReady
      pieces_IsReady pieces_sent pieces_sent

-- An application that does not do anything, and raises in requests for a response.
abbrev pub idle : RequestHandler (State ℕ ℕ)
idle = record {
  on_setup = λ d m p. raise runtime_error;
  request_response = λ p. raise runtime_error;
  request_stream = λ p. return 7;
  request_channel = λ p. return (none, none);
  request_fire_and_forget = λ p. return tt;
  on_metadata_push = λ p. return tt;
  on_error = λ code p. return tt;
  on_close = return tt;
  subscribe_to_leases = return tt;
}

abbrev pub numbered : StreamHandlers (State ℕ ℕ) ℕ
numbered = record {
  frame_received = λ h f. return tt;
  dispose = λ h. return tt;
  is_requester = λ h. true;
  is_disposable = λ h. false;
  request_response_responder = λ id future. return id;
  request_stream_responder = λ id publisher. return id;
  request_channel_responder = λ id publisher. return id;
  setup = λ h. return tt;
  subscribe = λ h subscriber. return tt;
}

abbrev no_text : Error → Bytes
no_text e = []

-- A server with stream 1 open.
abbrev serving : State ℕ ℕ
serving = (record (stream_control 2) { streams = (1, 1) ∷ [] }, leased)

abbrev arrivals : List Item
arrivals =
    frame (frame_on 3 Body.request_response)
    ∷ invalid_frame
    ∷ frame (frame_on 5 (Body.request_stream 1))
    ∷ frame (frame_on 9 Body.cancel)
    ∷ []

abbrev pub idle-AreQuiet : AreQuiet idle numbered
idle-AreQuiet = record {
  on_setup = λ d m p s. refl;
  request_response = λ p s. refl;
  request_stream = λ p s. refl;
  request_channel = λ p s. refl;
  request_fire_and_forget = λ p s. refl;
  on_metadata_push = λ p s. refl;
  on_error = λ code p s. refl;
  subscribe_to_leases = λ s. refl;
  frame_received = λ h f s. refl;
  request_response_responder = λ id future s. refl;
  request_stream_responder = λ id publisher s. refl;
  request_channel_responder = λ id publisher s. refl;
  setup = λ h s. refl;
  subscribe = λ h subscriber s. refl;
}

abbrev rounds : List Round
rounds =
    record { is_server_alive = true; frames = arrivals }
    ∷ record { is_server_alive = false; frames = arrivals }
    ∷ []

receiver_listen_survives_example :
    (receiver_listen (λ i. i) no_text idle numbered rounds serving).1 ≡ ok tt
receiver_listen_survives_example =
    receiver_listen_survives (λ i. i) no_text idle numbered idle-AreQuiet rounds serving

receive-in_use_example :
    let answer = exception_to_error_frame 1 (stream_id_in_use 1) no_text in
    (receive (λ i. i) no_text idle numbered (frame (frame_on 1 Body.request_response)) serving
      ≡ ((serving.0, send_frame answer serving.1), ok tt))
    × (answer.body ≡ Body.error ErrorCode.rejected)
    × (answer.stream_id ≡ 1)
receive-in_use_example =
    receive-in_use (λ i. i) no_text idle numbered (frame_on 1 Body.request_response) serving.0
      serving.1 refl (unfold lookup in refl) refl refl

abbrev setup_slots : SetupSlots
setup_slots = record {
  major_version = 1;
  minor_version = 0;
  keep_alive_milliseconds = 500;
  max_lifetime_milliseconds = 600;
  token = none;
  metadata_encoding = [];
  data_encoding = [];
  flags_lease = false;
  flags_resume = true;
}

abbrev setup_frame : Frame
setup_frame = init (Body.setup setup_slots)

connect_setup_first_example :
    (more : List Source) × (get_next_frame_to_send 9 true
        (connect (λ s. s) (1 ∷ []) (2 ∷ []) none 500 600 (send_frame pieces leased)).send_queue
      ≡ (
        (send_frame pieces leased).send_queue ++ more,
        sending (to_setup_frame none (1 ∷ []) (2 ∷ []) 500 600 true),
      ))
unfolding send_frame
connect_setup_first_example =
    connect_setup_first (λ s. s) (λ s. ([], sym (append-nil s.send_queue))) 9 true (1 ∷ []) (2 ∷ [])
      none 500 600 (send_frame pieces leased)

receive_refuses_setup_example :
    Reports
      (λ i. i)
      no_text
      idle
      numbered
      setup_frame
      (protocol_error ErrorCode.unsupported_setup resume_text)
      serving
      serving
receive_refuses_setup_example =
    receive_refuses_setup (λ i. i) no_text idle numbered setup_frame setup_slots serving
      (protocol_error ErrorCode.unsupported_setup resume_text) serving refl refl (resuming refl)
