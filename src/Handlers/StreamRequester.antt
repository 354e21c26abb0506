-- ===== src/Handlers/StreamRequester.antt =====
-- rsocket/handlers/request_stream_requester.py
use rsocket_py.Prelude.{
  ℕ, Bool, true, false, Option, List, [], ◌∷◌, ◌++◌, Error, Result, ok, err, ◌>>=◌, attribute_error,
  if◌then◌else◌,
}
use rsocket_py.Frame.Slots.{Body, Frame}
use rsocket_py.Frame.Serialize.{bytes_of}
use rsocket_py.Frame.Errors.{error_frame_to_exception}
use rsocket_py.FrameBuilders.{Payload, to_request_stream_frame}
use rsocket_py.Handlers.{
  Signal, on_next, on_complete, on_error, Call, send_request, finish_stream, to_subscriber,
  on_subscribe, StreamHandler, send_cancel, send_request_n,
}

-- `has_subscriber` says whether `subscribe` was called.
pub record RequestStreamRequester : Type 0 where
  pub handler : StreamHandler
  pub payload : Payload
  pub has_subscriber : Bool

abbrev pub payload_of : Frame → Payload
payload_of f = record { data_bytes = f.data_bytes; metadata = f.metadata }

unfoldable pub send_stream_request : Option ℕ → RequestStreamRequester → List Call
send_stream_request size r =
    send_request (to_request_stream_frame r.handler.stream_id r.payload size r.handler.request_n)
    ∷ []

unfoldable pub subscribe : Option ℕ → RequestStreamRequester → RequestStreamRequester × List Call
subscribe size r = (record r { has_subscriber = true }, on_subscribe ∷ send_stream_request size r)

unfoldable pub cancel : RequestStreamRequester → List Call
cancel r = send_cancel r.handler ++ (finish_stream r.handler.stream_id ∷ [])

unfoldable pub request : ℕ → RequestStreamRequester → List Call
request n r = send_request_n n r.handler

-- `self._subscriber`, which is unset before `subscribe`.
abbrev pub tell : RequestStreamRequester → Signal → Result (List Call)
tell r signal = if r.has_subscriber then ok (to_subscriber signal ∷ []) else err attribute_error

-- `self._subscriber.on_error(error_frame_to_exception(frame))`
abbrev pub tell_error : RequestStreamRequester → Result Error → Result (List Call)
tell_error r exception =
    if r.has_subscriber
    then (exception >>= λ e. ok (to_subscriber (on_error e) ∷ []))
    else err attribute_error

-- What a payload frame tells the subscriber, by the flags `next` and `complete`.
abbrev pub delivered : Bool → Bool → Frame → RequestStreamRequester → Result (List Call)
delivered true complete f r = tell r (on_next (payload_of f) complete)
delivered false true f r = tell r on_complete
delivered false false f r = ok []

abbrev pub finished : RequestStreamRequester → List Call → Result (List Call)
finished r calls = ok (calls ++ (finish_stream r.handler.stream_id ∷ []))

abbrev pub received : Body → Frame → RequestStreamRequester → Result (List Call)
received (Body.payload next) f r = do
  calls ← delivered next f.flags_complete f r
  if f.flags_complete then finished r calls else ok calls
received (Body.error code) f r = do
  calls ← tell_error r (error_frame_to_exception code (bytes_of f.data_bytes))
  finished r calls
received b f r = ok []

unfoldable pub frame_received : Frame → RequestStreamRequester → Result (List Call)
frame_received f r = received f.body f r
