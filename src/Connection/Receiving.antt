-- ===== src/Connection/Receiving.antt =====
-- rsocket/rsocket_base.py: the handling of received frames. The application's `RequestHandler` and
-- the classes of stream handlers are interfaces: futures, publishers and subscribers are numbers,
-- and what a method does, in the time that it is awaited too, is an action on the whole state.
use rsocket_py.Prelude.{
  ℕ, Bool, false, Option, none, [], ◌∷◌, ErrorCode, Error, protocol_error, Result, ok, err,
  if◌then◌else◌,
}
use rsocket_py.Prelude.Actions.{Act, ◌>>=◌, ◌>>◌, raise, modify, when, try_except}
use rsocket_py.Bytes.{Bytes}
use rsocket_py.Frame.Slots.{SetupSlots, Body, Frame}
use rsocket_py.FrameBuilders.{Payload}
use rsocket_py.StreamControl.{StreamControl, assert_stream_id_available, register_stream}
use rsocket_py.Connection.{Socket, State}
use rsocket_py.Connection.Sending.{send_frame}

-- `RequestHandler` of rsocket/request_handler.py, and the publisher of leases.
pub record RequestHandler {ℓ} (S : Type ℓ) : Type ℓ where
  pub on_setup : Bytes → Bytes → Payload → Act S (Unit {0})
  pub request_response : Payload → Act S ℕ
  pub request_stream : Payload → Act S ℕ
  pub request_channel : Payload → Act S (Option ℕ × Option ℕ)
  pub request_fire_and_forget : Payload → Act S (Unit {0})
  pub on_metadata_push : Payload → Act S (Unit {0})
  pub on_error : ErrorCode → Payload → Act S (Unit {0})
  pub on_close : Act S (Unit {0})
  pub subscribe_to_leases : Act S (Unit {0})

-- The classes of rsocket/handlers, as the connection uses them. A responder is made with its stream
-- id, which `_register_stream` sets.
pub record StreamHandlers {ℓ κ} (S : Type ℓ) (H : Type κ) : Type (ℓ ⊔ κ) where
  pub frame_received : H → Frame → Act S (Unit {0})
  pub dispose : H → Act S (Unit {0})
  pub is_requester : H → Bool
  pub is_disposable : H → Bool
  pub request_response_responder : ℕ → ℕ → Act S H
  pub request_stream_responder : ℕ → ℕ → Act S H
  pub request_channel_responder : ℕ → Option ℕ → Act S H
  pub setup : H → Act S (Unit {0})
  pub subscribe : H → Option ℕ → Act S (Unit {0})

abbrev pub payload_from_frame : Frame → Payload
payload_from_frame f = record { data_bytes = f.data_bytes; metadata = f.metadata }

-- `Resume not supported` and `Lease not available`
abbrev pub resume_text : Bytes
resume_text =
    82 ∷ 101 ∷ 115 ∷ 117 ∷ 109 ∷ 101 ∷ 32 ∷ 110 ∷ 111 ∷ 116 ∷ 32 ∷ 115 ∷ 117 ∷ 112 ∷ 112 ∷ 111 ∷ 114
    ∷ 116 ∷ 101 ∷ 100 ∷ []

abbrev pub lease_text : Bytes
lease_text =
    76 ∷ 101 ∷ 97 ∷ 115 ∷ 101 ∷ 32 ∷ 110 ∷ 111 ∷ 116 ∷ 32 ∷ 97 ∷ 118 ∷ 97 ∷ 105 ∷ 108 ∷ 97 ∷ 98
    ∷ 108 ∷ 101 ∷ []

module _ {ℓ κ} {H : Type ℓ} {A : Type κ} where
  abbrev pub on_socket : (Socket A → Socket A) → Act (State H A) (Unit {0})
  on_socket change = modify (λ (streams, s). (streams, change s))

  abbrev pub assert_available : ℕ → Act (State H A) (Unit {0})
  assert_available id (streams, s) = ((streams, s), assert_stream_id_available id streams)

  abbrev registered :
      Socket A → StreamControl H → Result (StreamControl H) → State H A × Result (Unit {0})
  registered s streams (ok streams') = ((streams', s), ok tt)
  registered s streams (err e) = ((streams, s), err e)

  -- `_register_stream`
  abbrev pub register : ℕ → H → Act (State H A) (Unit {0})
  register id h (streams, s) = registered s streams (register_stream id h streams)

module _ {ℓ κ} {H : Type ℓ} {A : Type κ} (clock : ℕ → ℕ) (text : Error → Bytes)
    (handler : RequestHandler (State H A)) (handlers : StreamHandlers (State H A) H) where
  unfoldable pub handle_request_response : Frame → Act (State H A) (Unit {0})
  handle_request_response f = do
    assert_available f.stream_id
    response_future ← handler.request_response (payload_from_frame f)
    responder ← handlers.request_response_responder f.stream_id response_future
    register f.stream_id responder
    handlers.setup responder

  unfoldable pub handle_request_stream : Frame → Act (State H A) (Unit {0})
  handle_request_stream f = do
    assert_available f.stream_id
    publisher ← handler.request_stream (payload_from_frame f)
    request_responder ← handlers.request_stream_responder f.stream_id publisher
    register f.stream_id request_responder
    handlers.frame_received request_responder f

  unfoldable pub handle_request_channel : Frame → Act (State H A) (Unit {0})
  handle_request_channel f = do
    assert_available f.stream_id
    (publisher, subscriber) ← handler.request_channel (payload_from_frame f)
    channel_responder ← handlers.request_channel_responder f.stream_id publisher
    register f.stream_id channel_responder
    handlers.subscribe channel_responder subscriber
    handlers.frame_received channel_responder f

  unfoldable pub handle_fire_and_forget : Frame → Act (State H A) (Unit {0})
  handle_fire_and_forget f = do
    assert_available f.stream_id
    handler.request_fire_and_forget (payload_from_frame f)

  unfoldable pub handle_metadata_push : Frame → Act (State H A) (Unit {0})
  handle_metadata_push f =
      handler.on_metadata_push (record { data_bytes = none; metadata = f.metadata })

  unfoldable pub handle_resume : Frame → Act (State H A) (Unit {0})
  handle_resume f = raise (protocol_error ErrorCode.rejected_resume resume_text)

  unfoldable pub handle_error : ErrorCode → Frame → Act (State H A) (Unit {0})
  handle_error code f = handler.on_error code (payload_from_frame f)

  -- `_update_last_keepalive` is the client's (Client).
  unfoldable pub handle_keep_alive : Bool → ℕ → Frame → Act (State H A) (Unit {0})
  handle_keep_alive respond position f =
      when respond (on_socket (send_frame (record f { body = Body.keep_alive false position })))

  -- What the flag for leases asks for.
  unfoldable pub setup_lease : Act (State H A) (Unit {0})
  setup_lease (streams, s) =
      if s.has_lease_publisher
      then handler.subscribe_to_leases (streams, s)
      else ((streams, s), err (protocol_error ErrorCode.unsupported_setup lease_text))

  abbrev pub reject_setup : Error → Act (State H A) (Unit {0})
  reject_setup e = raise (protocol_error ErrorCode.rejected_setup (text e))

  -- The call of the application.
  abbrev pub accept_setup : SetupSlots → Frame → Act (State H A) (Unit {0})
  accept_setup slots f =
      try_except
        (handler.on_setup slots.data_encoding slots.metadata_encoding (payload_from_frame f))
        reject_setup

  unfoldable pub handle_setup : SetupSlots → Frame → Act (State H A) (Unit {0})
  handle_setup slots f =
      when slots.flags_resume (raise (protocol_error ErrorCode.unsupported_setup resume_text))
      >> when slots.flags_lease setup_lease
      >> accept_setup slots f
