-- ===== src/Handlers/StreamResponder.antt =====
-- rsocket/handlers/request_stream_responder.py
use rsocket_py.Prelude.{
  ℕ, Bool, true, false, Option, none, some, List, [], ◌∷◌, ◌++◌, Error, Result, ok, err, ◌>>=◌,
  attribute_error, if◌then◌else◌,
}
use rsocket_py.Bytes.{Bytes}
use rsocket_py.Frame.Slots.{Body, Frame}
use rsocket_py.Frame.Errors.{exception_to_error_frame}
use rsocket_py.FrameBuilders.{Payload, to_payload_frame}
use rsocket_py.Handlers.{
  Signal, on_next, on_complete, on_error, Call, send_frame, finish_stream, subscription_request,
  subscription_cancel, StreamHandler,
}

-- `StreamSubscriber`, which the application's publisher calls: what each signal sends. The text of
-- an exception and the fragment size of the socket are arguments.
abbrev pub nothing : Payload
nothing = record { data_bytes = none; metadata = none }

unfoldable pub signal_received : (Error → Bytes) → Option ℕ → ℕ → Signal → List Call
signal_received text size id (on_next value is_complete) =
    send_frame (to_payload_frame id value is_complete true size)
    ∷ (if is_complete then finish_stream id ∷ [] else [])
signal_received text size id on_complete =
    send_frame (to_payload_frame id nothing true false size) ∷ finish_stream id ∷ []
signal_received text size id (on_error exception) =
    send_frame (exception_to_error_frame id exception text) ∷ finish_stream id ∷ []

-- `subscriber` is `none` before `setup`, and otherwise says whether it has a subscription.
pub record RequestStreamResponder : Type 0 where
  pub handler : StreamHandler
  pub subscriber : Option Bool

-- `publisher.subscribe` of the application calls `on_subscribe` or does not.
unfoldable pub setup : Bool → RequestStreamResponder → RequestStreamResponder
setup subscribes r = record r { subscriber = some subscribes }

abbrev pub on_subscription : RequestStreamResponder → Call → Result (List Call)
on_subscription r call = elim r.subscriber [ some true ↦ ok (call ∷ []) | _ ↦ err attribute_error ]

abbrev pub received :
    Bool → Body → RequestStreamResponder → Result (RequestStreamResponder × List Call)
received subscribes (Body.request_stream n) r = do
  calls ← on_subscription (setup subscribes r) (subscription_request n)
  ok (setup subscribes r, calls)
received subscribes Body.cancel r = do
  calls ← on_subscription r subscription_cancel
  ok (r, calls ++ (finish_stream r.handler.stream_id ∷ []))
received subscribes (Body.request_n n) r = do
  calls ← on_subscription r (subscription_request n)
  ok (r, calls)
received subscribes b r = ok (r, [])

unfoldable pub frame_received :
    Bool → Frame → RequestStreamResponder → Result (RequestStreamResponder × List Call)
frame_received subscribes f r = received subscribes f.body r

unfoldable pub dispose : RequestStreamResponder → List Call
dispose r = elim r.subscriber [ some true ↦ subscription_cancel ∷ [] | _ ↦ [] ]
