-- ===== src/Connection/Sending.antt =====
-- rsocket/rsocket_base.py: what puts frames into the queues, and the leases that hold requests back.
use rsocket_py.Prelude.{
  ℕ, suc, ◌*◌, Bool, true, false, Option, none, some, List, [], ◌∷◌, ◌++◌, Error, Result, ok, err,
  ◌&&◌, if◌then◌else◌, queue_full,
}
use rsocket_py.Bytes.{Bytes}
use rsocket_py.Frame.Slots.{Frame}
use rsocket_py.Frame.Errors.{exception_to_error_frame}
use rsocket_py.FrameBuilders.{
  Payload, to_payload_frame, to_setup_frame, to_metadata_push_frame, to_keepalive_frame,
}
use rsocket_py.Lease.{Lease, defined_lease, new_defined_lease, is_request_allowed, to_frame}
use rsocket_py.Connection.{Source, source, Socket, is_initiate_request, is_full}

-- The two loops of `send_priority_frame`: the queue is emptied into `items`, which are put back
-- behind the frame.
unfoldable pub put_each : List Source → List Source → List Source
put_each [] queue = queue
put_each (item ∷ items) queue = put_each items (queue ++ (item ∷ []))

abbrev pub empty_payload : Payload
empty_payload = record { data_bytes = none; metadata = none }

module _ {ℓ} {A : Type ℓ} where
  unfoldable pub send_frame : Frame → Socket A → Socket A
  send_frame f s = record s { send_queue = s.send_queue ++ (source f ∷ []) }

  unfoldable pub send_priority_frame : Frame → Socket A → Socket A
  send_priority_frame f s =
      let items = put_each s.send_queue [] in
      record s { send_queue = put_each items (source f ∷ []) }

  unfoldable pub queue_request_frame : Frame → Socket A → Socket A × Result (Unit {0})
  queue_request_frame f s =
      if is_full s
      then (s, err queue_full)
      else (record s { request_queue = s.request_queue ++ (f ∷ []) }, ok tt)

  unfoldable pub send_payload : ℕ → Payload → Bool → Bool → Socket A → Socket A
  send_payload stream_id payload complete is_next s =
      send_frame (to_payload_frame stream_id payload complete is_next s.fragment_size_bytes) s

  unfoldable pub send_complete : ℕ → Socket A → Socket A
  send_complete stream_id s = send_payload stream_id empty_payload true false s

  -- With the text of an exception that is no protocol error.
  unfoldable pub send_error : (Error → Bytes) → ℕ → Error → Socket A → Socket A
  send_error text stream_id exception s =
      send_frame (exception_to_error_frame stream_id exception text) s

  -- What the publisher of leases gives is a lease, so its frame is always made.
  unfoldable pub send_lease : Lease → Socket A → Socket A
  send_lease lease s = send_frame (to_frame lease) (record s { responder_lease = lease })

  unfoldable pub metadata_push : Bytes → Socket A → Socket A
  metadata_push metadata s = send_frame (to_metadata_push_frame metadata) s

  unfoldable pub send_new_keepalive : Bytes → Socket A → Socket A
  send_new_keepalive data_bytes s = send_frame (to_keepalive_frame (some data_bytes)) s

module _ {ℓ} {A : Type ℓ} (clock : ℕ → ℕ) where
  -- `self._requester_lease.is_request_allowed()`
  unfoldable pub lease_allows : Socket A → Socket A × Bool
  lease_allows s =
      let answer = is_request_allowed (clock s.clock_readings) s.requester_lease in
      (record s { requester_lease = answer.0; clock_readings = suc s.clock_readings }, answer.1)

  unfoldable pub is_frame_allowed_to_send : Frame → Socket A → Socket A × Bool
  is_frame_allowed_to_send f s = if is_initiate_request f.body then lease_allows s else (s, true)

  -- With the answer of the lease, where it is asked.
  abbrev pub sent_or_queued : Frame → Socket A × Bool → Socket A × Result (Unit {0})
  sent_or_queued f (s, allowed) =
      if allowed then (send_frame f s, ok tt) else queue_request_frame f s

  unfoldable pub send_request : Frame → Socket A → Socket A × Result (Unit {0})
  send_request f s =
      sent_or_queued f (if s.honor_lease then is_frame_allowed_to_send f s else (s, true))

  -- The loop of `handle_lease` over the waiting requests.
  unfoldable pub send_waiting : List Frame → Socket A → Socket A
  send_waiting [] s = s
  send_waiting (f ∷ waiting) s =
      let asked = lease_allows s in
      let rest = send_waiting waiting (send_frame f (record asked.0 { request_queue = waiting })) in
      if asked.1 then rest else asked.0

  -- With `time_to_live`, in milliseconds, and `number_of_requests` of the frame.
  unfoldable pub handle_lease : ℕ → ℕ → Socket A → Socket A
  handle_lease time_to_live number_of_requests s =
      let now = clock s.clock_readings in
      let lease = defined_lease (new_defined_lease now number_of_requests (1000 * time_to_live)) in
      send_waiting s.request_queue
        (record s { requester_lease = lease; clock_readings = suc s.clock_readings })

-- The end of `connect`: the setup frame goes in front of everything that waits.
module _ {ℓ} {A : Type ℓ} (subscribe_to_lease_publisher : Socket A → Socket A) where
  unfoldable pub connect : Bytes → Bytes → Option Payload → ℕ → ℕ → Socket A → Socket A
  connect data_encoding metadata_encoding payload keep_alive_period max_lifetime_period s =
      let setup =
        to_setup_frame payload data_encoding metadata_encoding keep_alive_period max_lifetime_period
          s.honor_lease in
      let s = send_priority_frame setup s in
      if s.honor_lease && s.has_lease_publisher then subscribe_to_lease_publisher s else s
