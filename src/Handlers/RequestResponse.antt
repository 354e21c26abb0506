-- ===== src/Handlers/RequestResponse.antt =====
-- rsocket/handlers/request_response_requester.py and request_response_responder.py. A future that
-- is done has a callback that the event loop runs later; `callback_due` says that it has not yet.
use rsocket_py.Prelude.{
  ℕ, Bool, true, Option, List, [], ◌∷◌, ◌++◌, Error, Result, ok, err, ◌>>=◌, invalid_state_error,
}
use rsocket_py.Bytes.{Bytes}
use rsocket_py.Frame.Slots.{Body, Frame}
use rsocket_py.Frame.Serialize.{bytes_of}
use rsocket_py.Frame.Errors.{exception_to_error_frame, error_frame_to_exception}
use rsocket_py.FrameBuilders.{Payload, to_payload_frame, to_request_response_frame, to_cancel_frame}
use rsocket_py.Handlers.{Call, send_request, send_frame, finish_stream}

-- The states of `asyncio.Future`.
pub data FutureState : Type 0 where
  pending cancelled : FutureState
  finished : Payload → FutureState
  failed : Error → FutureState

-- The slots of both handlers; a responder has no payload of its own.
pub record ResponseHandler : Type 0 where
  pub stream_id : ℕ
  pub payload : Payload
  pub future : FutureState
  pub callback_due : Bool

-- `future.cancel()`, and `set_result` or `set_exception`, which raise on a future that is done.
abbrev cancelled_from : FutureState → ResponseHandler → ResponseHandler
cancelled_from pending h = record h { future = cancelled; callback_due = true }
cancelled_from state h = h

unfoldable pub cancel_future : ResponseHandler → ResponseHandler
cancel_future h = cancelled_from h.future h

abbrev set_from : FutureState → FutureState → ResponseHandler → Result ResponseHandler
set_from pending value h = ok (record h { future = value; callback_due = true })
set_from state value h = err invalid_state_error

unfoldable pub set_future : FutureState → ResponseHandler → Result ResponseHandler
set_future value h = set_from h.future value h

-- The requester.
unfoldable pub run : Option ℕ → ResponseHandler → List Call
run size h = send_request (to_request_response_frame h.stream_id h.payload size) ∷ []

abbrev response_received : Body → Frame → ResponseHandler → Result (ResponseHandler × List Call)
response_received (Body.payload next) f h = do
  h' ← set_future (finished (record { data_bytes = f.data_bytes; metadata = f.metadata })) h
  ok (h', finish_stream h.stream_id ∷ [])
response_received (Body.error code) f h = do
  e ← error_frame_to_exception code (bytes_of f.data_bytes)
  h' ← set_future (failed e) h
  ok (h', finish_stream h.stream_id ∷ [])
response_received b f h = ok (h, [])

unfoldable pub requester_frame_received :
    Frame → ResponseHandler → Result (ResponseHandler × List Call)
requester_frame_received f h = response_received f.body f h

-- `cancel` of the requester, which the callback calls when the future was cancelled.
unfoldable pub cancel_request : ResponseHandler → List Call
cancel_request h = send_frame (to_cancel_frame h.stream_id) ∷ finish_stream h.stream_id ∷ []

abbrev cancelled_calls : FutureState → ResponseHandler → List Call
cancelled_calls cancelled h = cancel_request h
cancelled_calls state h = []

unfoldable pub on_future_complete : ResponseHandler → List Call
on_future_complete h = cancelled_calls h.future h

-- The responder: what its callback sends, with the text of an exception and the fragment size.
abbrev answer : (Error → Bytes) → Option ℕ → ℕ → FutureState → List Call
answer text size id pending = []
answer text size id cancelled = []
answer text size id (finished p) = send_frame (to_payload_frame id p true true size) ∷ []
answer text size id (failed e) = send_frame (exception_to_error_frame id e text) ∷ []

unfoldable pub future_done : (Error → Bytes) → Option ℕ → ResponseHandler → List Call
future_done text size h = answer text size h.stream_id h.future ++ (finish_stream h.stream_id ∷ [])

abbrev pub cancel_received : Body → ResponseHandler → ResponseHandler × List Call
cancel_received Body.cancel h = (cancel_future h, finish_stream h.stream_id ∷ [])
cancel_received b h = (h, [])

unfoldable pub responder_frame_received : Frame → ResponseHandler → ResponseHandler × List Call
responder_frame_received f h = cancel_received f.body h

unfoldable pub responder_dispose : ResponseHandler → ResponseHandler × List Call
responder_dispose h = (cancel_future h, [])
