-- ===== src/Connection/Receiver.antt =====
-- rsocket/rsocket_base.py: the dispatch of received frames, the receiver's loop and its end.
use rsocket_py.Prelude.{
  ℕ, Bool, true, false, ◌||◌, Option, none, some, List, [], ◌∷◌, ErrorCode, Error, transport_error,
  Result, ok, err, if◌then◌else◌, ◌==◌,
}
use rsocket_py.Prelude.Actions.{Act, ◌>>=◌, ◌>>◌, return, raise, try_except}
use rsocket_py.Bytes.{Bytes}
use rsocket_py.Frame.Codes.{connection_stream_id}
use rsocket_py.Frame.Slots.{Body, Frame}
use rsocket_py.Frame.Fragmenting.{is_fragmentable_frame}
use rsocket_py.FrameParser.{Item, frame, invalid_frame}
use rsocket_py.FrameFragmentCache.{Cache, append}
use rsocket_py.StreamControl.{StreamControl, handle_stream, stop_all_streams}
use rsocket_py.Connection.{Socket, State, is_initiate_request}
use rsocket_py.Connection.Sending.{send_error, handle_lease}
use rsocket_py.Connection.Receiving.{
  RequestHandler, StreamHandlers, on_socket, handle_request_response, handle_request_stream,
  handle_request_channel, handle_fire_and_forget, handle_metadata_push, handle_resume, handle_error,
  handle_keep_alive, handle_setup,
}

module _ {ℓ κ} {H : Type ℓ} {A : Type κ} where
  abbrev pub cached :
      StreamControl H → Socket A → Result (Cache × Option Frame) → State H A × Result (Option Frame)
  cached streams s (ok (cache, complete)) =
      ((streams, record s { frame_fragment_cache = cache }), ok complete)
  cached streams s (err e) = ((streams, s), err e)

  -- The frame to handle, if it is complete.
  unfoldable pub complete_frame : Frame → Act (State H A) (Option Frame)
  complete_frame f (streams, s) =
      if is_fragmentable_frame f
      then cached streams s (append s.frame_fragment_cache f)
      else ((streams, s), ok (some f))

-- A round of the receiver's loop: what `is_server_alive` says, which the watch of a client changes
-- meanwhile, and the frames of the generator that the transport gives.
pub record Round : Type 0 where
  pub is_server_alive : Bool
  pub frames : List Item

-- An exception of the transport, which ends the receiver.
abbrev pub is_transport_error : Error → Bool
is_transport_error transport_error = true
is_transport_error e = false

module _ {ℓ κ} {H : Type ℓ} {A : Type κ} (clock : ℕ → ℕ) (text : Error → Bytes)
    (handler : RequestHandler (State H A)) (handlers : StreamHandlers (State H A) H) where
  -- The dictionary of `_receiver_listen`; other classes have the handler that does nothing.
  abbrev pub by_type : Body → Frame → Act (State H A) (Unit {0})
  by_type Body.request_response f = handle_request_response clock text handler handlers f
  by_type (Body.request_stream n) f = handle_request_stream clock text handler handlers f
  by_type (Body.request_channel n) f = handle_request_channel clock text handler handlers f
  by_type (Body.setup slots) f = handle_setup clock text handler handlers slots f
  by_type Body.request_fnf f = handle_fire_and_forget clock text handler handlers f
  by_type Body.metadata_push f = handle_metadata_push clock text handler handlers f
  by_type (Body.resume slots) f = handle_resume clock text handler handlers f
  by_type (Body.lease time_to_live number) f = on_socket (handle_lease clock time_to_live number)
  by_type (Body.keep_alive respond position) f =
      handle_keep_alive clock text handler handlers respond position f
  by_type (Body.error code) f = handle_error clock text handler handlers code f
  by_type b f = return tt

  unfoldable pub handle_frame_by_type : Frame → Act (State H A) (Unit {0})
  handle_frame_by_type f = by_type f.body f

  abbrev pub handle_stream_of : Frame → Act (State H A) Bool
  handle_stream_of =
      handle_stream handlers.frame_received handlers.dispose handlers.is_requester
        handlers.is_disposable

  -- A frame of an unknown stream is dropped.
  unfoldable pub handle_complete_frame : Frame → Act (State H A) (Unit {0})
  handle_complete_frame f =
      if (f.stream_id == connection_stream_id) || is_initiate_request f.body
      then handle_frame_by_type f
      else (handle_stream_of f >>= λ handled. return tt)

  abbrev pub when_complete : Option Frame → Act (State H A) (Unit {0})
  when_complete none = return tt
  when_complete (some f) = handle_complete_frame f

  unfoldable pub handle_next_frame : Item → Act (State H A) (Unit {0})
  handle_next_frame invalid_frame = return tt
  handle_next_frame (frame f) = complete_frame f >>= when_complete

  -- The three `except` clauses of the loop.
  unfoldable pub report : ℕ → Error → Act (State H A) (Unit {0})
  report stream_id e =
      if is_transport_error e then raise e else on_socket (send_error text stream_id e)

  unfoldable pub receive : Item → Act (State H A) (Unit {0})
  receive invalid_frame = handle_next_frame invalid_frame
  receive (frame f) = try_except (handle_next_frame (frame f)) (report f.stream_id)

  -- The `async for` over one generator of the transport.
  unfoldable pub receive_each : List Item → Act (State H A) (Unit {0})
  receive_each [] = return tt
  receive_each (item ∷ items) = receive item >> receive_each items

  -- `_receiver_listen`, round by round. Behind the last round the transport has no generator, or the
  -- task is cancelled while it waits for the transport.
  unfoldable pub receiver_listen : List Round → Act (State H A) (Unit {0})
  receiver_listen [] = return tt
  receiver_listen (round ∷ rounds) =
      if round.is_server_alive
      then (receive_each round.frames >> receiver_listen rounds)
      else return tt

  unfoldable pub on_connection_closed : Act (State H A) (Unit {0})
  on_connection_closed =
      stop_all_streams handlers.frame_received handlers.dispose handlers.is_requester
        handlers.is_disposable ErrorCode.connection_error []
      >> handler.on_close
      >> on_socket (λ s. record s { is_closing = true })

  -- `_receiver`: an exception of the transport only ends the loop, and so does a cancellation while it
  -- waits for the transport, which is the end of the rounds.
  unfoldable pub receiver : List Round → Act (State H A) (Unit {0})
  receiver rounds =
      try_except (receiver_listen rounds) (λ e. if is_transport_error e then return tt else raise e)
      >> on_connection_closed
