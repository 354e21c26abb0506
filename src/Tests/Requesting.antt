-- ===== src/Tests/Requesting.antt =====
-- Requests of a client with two streams open.
use rsocket_py.Prelude.{ℕ, ◌≡◌, refl, some, none, true, false, [], ◌∷◌, arith, ok}
use rsocket_py.Prelude.Actions.{continue}
use rsocket_py.StreamControl.{StreamControl, stream_control, lookup}
use rsocket_py.FrameBuilders.{Payload, to_request_response_frame, to_fire_and_forget_frame}
use rsocket_py.Lease.{null_lease}
use rsocket_py.Connection.{Socket}
use rsocket_py.Connection.Sending.{send_request}
use rsocket_py.Connection.Requesting.{request_response, fire_and_forget}
use rsocket_py.Connection.Requesting.Fresh.{
  HasFreeId, Opened, request_response-Opened, fire_and_forget_same_id,
}

-- Streams 1 and 3 are open, and the next id is still 1.
abbrev busy : StreamControl ℕ
busy = record (stream_control 1) { streams = (1, 10) ∷ (3, 30) ∷ [] }

-- No lease has come, and one request can wait for it.
abbrev waiting : Socket ℕ
waiting = record {
  send_queue = [];
  request_queue = [];
  request_queue_size = 1;
  honor_lease = true;
  has_lease_publisher = false;
  requester_lease = null_lease;
  responder_lease = null_lease;
  frame_fragment_cache = λ id. none;
  fragment_size_bytes = none;
  is_closing = false;
  clock_readings = 0;
  application = 0;
}

abbrev question : Payload
question = record { data_bytes = some (1 ∷ 2 ∷ []); metadata = none }

abbrev busy-HasFreeId : HasFreeId 2 busy
busy-HasFreeId = record {
  limit = refl;
  small = omega arith;
  free = unfold lookup in refl;
  few = omega arith;
}

request_response-Opened_example :
    (id : ℕ) × (after : StreamControl ℕ) × Opened (λ i. 7) busy after id
    × (request_response (λ i. i) 9 (λ i. 7) question (busy, waiting)
        ≡ some (
            let sent =
              send_request
                (λ i. i)
                (to_request_response_frame id question waiting.fragment_size_bytes)
                waiting in
            continue ((after, sent.0), sent.1) (λ u state. (state, ok id))))
request_response-Opened_example =
    request_response-Opened (λ i. i) 9 2 (λ i. 7) question busy waiting busy-HasFreeId (omega arith)

fire_and_forget_same_id_example :
    (id : ℕ) × (after : StreamControl ℕ) × ((payload : Payload) (s : Socket ℕ)
      → fire_and_forget (λ i. i) 9 payload (busy, s)
        ≡ some (
            let frame = to_fire_and_forget_frame id payload s.fragment_size_bytes in
            let sent = send_request (λ i. i) frame s in
            continue ((after, sent.0), sent.1) (λ u state. (state, ok id))))
    × ((payload : Payload) (s : Socket ℕ)
        → fire_and_forget (λ i. i) 9 payload (after, s)
          ≡ some (
              let frame = to_fire_and_forget_frame id payload s.fragment_size_bytes in
              let sent = send_request (λ i. i) frame s in
              continue ((after, sent.0), sent.1) (λ u state. (state, ok id))))
fire_and_forget_same_id_example =
    fire_and_forget_same_id (λ i. i) 9 2 busy busy-HasFreeId (omega arith)
