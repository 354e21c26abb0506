-- ===== src/Connection/Requesting/Fresh.antt =====
-- Requests get stream ids of their own, and fire-and-forget requests do not.
use rsocket_py.Prelude.{
  ℕ, ◌%◌, ◌^◌, ◌≤◌, ◌<◌, ◌≡◌, ◌≢◌, refl, false, some, ok, err, inl, inr, Bool, ◌||◌, ◌==◌, ==_iff,
  zero, suc, arith, stream_id_in_use, Bool-cases,
}
use rsocket_py.Prelude.Actions.{continue}
use rsocket_py.Frame.Codes.{connection_stream_id}
use rsocket_py.FrameBuilders.{Payload, to_request_response_frame, to_fire_and_forget_frame}
use rsocket_py.StreamControl.{
  StreamControl, max_stream_id, lookup, in_use, allocate_loop, allocate_stream,
  assert_stream_id_available,
}
use rsocket_py.StreamControl.Allocation.{is_taken, candidate, at_id, allocate_stream-IsAllocated}
use rsocket_py.StreamControl.Registry.{register_stream-finish_stream}
use rsocket_py.Connection.{Socket}
use rsocket_py.Connection.Sending.{send_request}
use rsocket_py.Connection.Requesting.{with_stream, request_response, fire_and_forget}

not_taken :
    (id : ℕ) (b : Bool)
    → id ≢ connection_stream_id
    → b ≡ false
    → ((id == connection_stream_id) || b) ≡ false
not_taken id b ne e = elim (Bool-cases (id == connection_stream_id)) [
  | inl same ↦ absurd (ne ((==_iff id connection_stream_id).0 same))
  | inr other ↦ rw (other, e) refl
]

module _ {ℓ} {H : Type ℓ} where
  -- One of the ids of this side that the search reaches is free.
  pub record HasFreeId (tries : ℕ) (streams : StreamControl H) : Type 0 where
    pub limit : streams.maximum_stream_id ≡ max_stream_id
    pub small : streams.current_stream_id ≤ max_stream_id
    pub free : is_taken (candidate tries streams) streams ≡ false
    pub few : tries ≤ 2 ^ 30

  -- What the request makes of the streams: the handler on an id that was free, is not the
  -- connection's, has the parity of this side and is in range, and every other stream as it was.
  pub record Opened (requester : ℕ → H) (before after : StreamControl H) (id : ℕ) : Type ℓ where
    pub was_free : in_use id before ≡ false
    pub not_connection : id ≢ connection_stream_id
    pub in_range : id ≤ max_stream_id
    pub same_parity : id % 2 ≡ before.current_stream_id % 2
    pub registered : lookup id after.streams ≡ some (requester id)
    pub refused : assert_stream_id_available id after ≡ err (stream_id_in_use id)
    pub others : (other : ℕ) → other ≢ id → lookup other after.streams ≡ lookup other before.streams

  -- Where the current id is free, it is given.
  allocates_current :
      (rounds id : ℕ) (streams : StreamControl H)
      → is_taken id streams ≡ false
      → 0 < rounds
      → allocate_stream rounds (at_id id streams) ≡ some (ok (at_id id streams, id))
  unfolding allocate_stream allocate_loop
  allocates_current zero id streams e h = absurd (omega arith)
  allocates_current (suc rounds) id streams e h = rw e refl

module _ {ℓ κ} {H : Type ℓ} {A : Type κ} where
  -- A request for a response, where an id is free: its requester is registered on a stream of its
  -- own, and the request frame with the payload goes out through `send_request`, whose exception
  -- it raises.
  pub request_response-Opened :
      (clock : ℕ → ℕ) (rounds tries : ℕ) (requester : ℕ → H) (payload : Payload)
      (streams : StreamControl H) (s : Socket A)
      → HasFreeId tries streams
      → tries < rounds
      → (id : ℕ) × (after : StreamControl H) × Opened requester streams after id
        × (request_response clock rounds requester payload (streams, s)
            ≡ some (
                let frame = to_request_response_frame id payload s.fragment_size_bytes in
                let sent = send_request clock frame s in
                continue ((after, sent.0), sent.1) (λ u state. (state, ok id))))
  unfolding request_response with_stream
  request_response-Opened clock rounds tries requester payload streams s h room =
      let a = allocate_stream-IsAllocated rounds tries streams h.limit h.small h.free h.few room in
      let id = a.id in
      let moved = at_id id streams in
      let (after, registers, found, refused, freed, others) =
        register_stream-finish_stream id (requester id) moved a.not_connection
          (omega (arith, a.in_range, h.limit)) in
      (
        id,
        after,
        record {
          was_free = a.free;
          not_connection = a.not_connection;
          in_range = a.in_range;
          same_parity = a.same_parity;
          registered = found;
          refused = refused;
          others = λ other away. (others other away).0;
        },
        rw (a.returns, registers) refl,
      )

  -- A request that is fired and forgotten, where an id is free, goes out on this id, but the id stays
  -- free: the next one, whatever its payload and the state of the queues, goes out on the same id.
  pub fire_and_forget_same_id :
      (clock : ℕ → ℕ) (rounds tries : ℕ) (streams : StreamControl H)
      → HasFreeId tries streams
      → tries < rounds
      → (id : ℕ) × (after : StreamControl H) × ((payload : Payload) (s : Socket A)
          → fire_and_forget clock rounds payload (streams, s)
            ≡ some (
                let frame = to_fire_and_forget_frame id payload s.fragment_size_bytes in
                let sent = send_request clock frame s in
                continue ((after, sent.0), sent.1) (λ u state. (state, ok id))))
        × ((payload : Payload) (s : Socket A)
            → fire_and_forget clock rounds payload (after, s)
              ≡ some (
                  let frame = to_fire_and_forget_frame id payload s.fragment_size_bytes in
                  let sent = send_request clock frame s in
                  continue ((after, sent.0), sent.1) (λ u state. (state, ok id))))
  unfolding fire_and_forget with_stream
  fire_and_forget_same_id clock rounds tries streams h room =
      let a = allocate_stream-IsAllocated rounds tries streams h.limit h.small h.free h.few room in
      (
        a.id,
        at_id a.id streams,
        λ payload s. rw a.returns refl,
        λ payload s.
            rw
              (allocates_current rounds a.id streams (not_taken a.id _ a.not_connection a.free)
                (omega (arith, room)))
              refl,
      )
