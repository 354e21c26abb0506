-- ===== src/RequestChannel.antt =====
-- rsocket/handlers/request_cahnnel_common.py and its two subclasses: a channel that each side closes on its own. What a
-- method calls on the socket, the application's subscriber or its subscription is an effect, in the
-- order of the calls; calls back from the application into the channel are operations of their own.
pub mod Marks
pub mod Closing
pub mod Relay
use rsocket_py.Prelude.{
  ◌≡◌, ℕ, suc, Bool, true, false, ◌&&◌, Option, none, some, List, [], ◌∷◌, ◌++◌, Result, ok, err,
  ◌>>=◌, Error, attribute_error, if◌then◌else◌,
}
use rsocket_py.Bytes.{Bytes, ℤ, pos}
use rsocket_py.Frame.Slots.{Body, Frame}
use rsocket_py.Frame.Serialize.{bytes_of}
use rsocket_py.Frame.Errors.{error_frame_to_exception}
use rsocket_py.FrameBuilders.{Payload, to_request_channel_frame}

-- `subscriber` is `none` before `setup`, and otherwise says whether it has a subscription.
pub record Channel : Type 0 where
  pub sent_complete : Bool
  pub received_complete : Bool
  pub subscriber : Option Bool
  pub has_remote_subscriber : Bool
  pub has_sending_done : Bool

pub data Effect : Type 0 where
  subscription_cancel : Effect
  subscription_request : ℕ → Effect
  remote_on_subscribe : Effect
  remote_on_next : Payload → Bool → Effect
  remote_on_complete : Effect
  remote_on_error : Error → Effect
  sending_done_set : Effect
  send_payload : Payload → Bool → Bool → Effect
  send_error : Error → Effect
  send_cancel : Effect
  send_request_n : ℕ → Effect
  finish_stream : Effect
  publisher_subscribe : Effect
  send_request : Frame → Effect
  send_complete : Effect

abbrev pub Outcome : Type 0
Outcome = Channel × List Effect

-- An effect in front of the others.
abbrev pub after : List Effect → Outcome → Outcome
after es (c, fs) = (c, es ++ fs)

unfoldable pub finish_if_both_closed : Channel → List Effect
finish_if_both_closed c = if c.received_complete && c.sent_complete then finish_stream ∷ [] else []

-- `mark_completed_and_finish(received=True)` and `mark_completed_and_finish(sent=True)`
unfoldable pub mark_received : Channel → Outcome
mark_received c = let c' = record c { received_complete = true } in (c', finish_if_both_closed c')

unfoldable pub mark_sent : Channel → Outcome
mark_sent c =
    let c' = record c { sent_complete = true } in
    (c', (if c.has_sending_done then sending_done_set ∷ [] else []) ++ finish_if_both_closed c')

-- `self.remote_subscriber.m(…)`
abbrev on_remote : Channel → Effect → Result (List Effect)
on_remote c e = if c.has_remote_subscriber then ok (e ∷ []) else err attribute_error

-- `self.remote_subscriber.on_error(error_frame_to_exception(frame))`
abbrev pub error_on_remote : Channel → Result Error → Result (List Effect)
error_on_remote c exception =
    if c.has_remote_subscriber
    then (exception >>= λ e. ok (remote_on_error e ∷ []))
    else err attribute_error

abbrev payload_of : Frame → Payload
payload_of f = record { data_bytes = f.data_bytes; metadata = f.metadata }

-- What a payload frame calls on the remote subscriber.
abbrev delivered : Bool → Bool → Frame → Channel → Result (List Effect)
delivered true complete f c = on_remote c (remote_on_next (payload_of f) complete)
delivered false true f c = on_remote c remote_on_complete
delivered false false f c = ok []

-- With the flags `next` and `complete` of the frame.
abbrev pub received_payload : Bool → Bool → Frame → Channel → Result Outcome
received_payload next complete f c = do
  es ← delivered next complete f c
  ok (if complete then after es (mark_received c) else (c, es))

-- The class of the frame decides.
abbrev pub received : Body → Frame → Channel → Result Outcome
received Body.cancel f c = elim c.subscriber [
  | some true ↦ ok (after (subscription_cancel ∷ []) (mark_sent c))
  | _ ↦ err attribute_error
]
received (Body.request_n n) f c = elim c.subscriber [
  | none ↦ err attribute_error
  | some true ↦ ok (c, subscription_request n ∷ [])
  | some false ↦ ok (c, [])
]
received (Body.payload next) f c = received_payload next f.flags_complete f c
received (Body.error code) f c = do
  es ← error_on_remote c (error_frame_to_exception code (bytes_of f.data_bytes))
  ok (after es (mark_received c))
received b f c = ok (c, [])

unfoldable pub frame_received : Frame → Channel → Result Outcome
frame_received f c = received f.body f c

-- The methods of `StreamSubscriber`, which the application's publisher calls.
abbrev empty_payload : Payload
empty_payload = record { data_bytes = none; metadata = none }

unfoldable pub on_next : Payload → Bool → Channel → Outcome
on_next value is_complete c =
    after (send_payload value is_complete true ∷ []) (if is_complete then mark_sent c else (c, []))

unfoldable pub on_complete : Channel → Outcome
on_complete c = after (send_payload empty_payload true false ∷ []) (mark_sent c)

unfoldable pub on_error : Error → Channel → Outcome
on_error exception c = after (send_error exception ∷ []) (mark_sent c)

unfoldable pub dispose : Channel → Outcome
dispose c = elim c.subscriber [ some true ↦ (c, subscription_cancel ∷ []) | _ ↦ (c, []) ]

unfoldable pub complete_remote_subscriber : Channel → Outcome
complete_remote_subscriber c =
    after (if c.has_remote_subscriber then remote_on_complete ∷ [] else []) (mark_received c)

-- `subscribe` with a subscriber, or with `None`.
unfoldable pub subscribe : Bool → Channel → Outcome
subscribe true c = (record c { has_remote_subscriber = true }, remote_on_subscribe ∷ [])
subscribe false c = mark_received c

unfoldable pub cancel : Channel → Outcome
cancel c = after (send_cancel ∷ []) (mark_received c)

unfoldable pub request : ℕ → Channel → Outcome
request n c = (c, send_request_n n ∷ [])

-- `setup`. The publisher's `subscribe` calls `on_subscribe` or does not.
abbrev pub setup : Option Bool → Channel → Outcome
setup none c = (record c { subscriber = some false }, [])
setup (some subscribes) c = (record c { subscriber = some subscribes }, publisher_subscribe ∷ [])

-- One method behind another.
abbrev pub and_then : Outcome → (Channel → Outcome) → Outcome
and_then (c, es) f = after es (f c)

-- rsocket/handlers/request_channel_requester.py
pub record RequestChannelRequester : Type 0 where
  pub stream_id : ℕ
  pub payload : Payload
  pub request_n : ℕ
  pub publisher : Option Bool
  pub fragment_size_bytes : Option ℕ

abbrev is_none : Option Bool → Bool
is_none none = true
is_none (some b) = false

unfoldable pub send_channel_request : RequestChannelRequester → Channel → Outcome
send_channel_request r c = (
  c,
  send_request (
        to_request_channel_frame r.stream_id r.payload r.fragment_size_bytes r.request_n
          (is_none r.publisher))
      ∷ [],
)

abbrev pub without_publisher : Option Bool → Channel → Outcome
without_publisher none c = mark_sent c
without_publisher (some b) c = (c, [])

-- `RequestChannelRequester.subscribe`
unfoldable pub requester_subscribe : RequestChannelRequester → Bool → Channel → Outcome
requester_subscribe r there c =
    and_then (and_then (and_then (setup r.publisher c) (subscribe there)) (send_channel_request r))
      (without_publisher r.publisher)

-- rsocket/handlers/request_cahnnel_responder.py: the request that opens the channel.
abbrev pub opened : ℕ → Option Bool → Channel → Outcome
opened n (some true) c = (c, subscription_request n ∷ [])
opened n subscriber c = after (send_complete ∷ []) (mark_sent c)

abbrev pub request_received : Option Bool → ℕ → Bool → Channel → Outcome
request_received publisher n complete c =
    and_then (and_then (setup publisher c) (λ c'. opened n c'.subscriber c'))
      (λ c'. if complete then complete_remote_subscriber c' else (c', []))

abbrev pub responder_received : Option Bool → Body → Frame → Channel → Result Outcome
responder_received publisher (Body.request_channel n) f c =
    ok (request_received publisher n f.flags_complete c)
responder_received publisher b f c = frame_received f c

-- `RequestChannelResponder.frame_received`
unfoldable pub responder_frame_received : Option Bool → Frame → Channel → Result Outcome
responder_frame_received publisher f c = responder_received publisher f.body f c

-- `StreamHandler.initial_request_n`, which the requester of a channel inherits: a number that is not
-- positive finishes the stream and raises. The number itself is in `RequestChannelRequester`.
unfoldable pub initial_request_n : ℤ → Channel → Outcome
initial_request_n (pos (suc n)) c = (c, [])
initial_request_n n c = (c, finish_stream ∷ [])

-- The operations of a channel, as a step with its effects.
pub data Step (c : Channel) : Outcome → Type 0 where
  frame_step : (f : Frame) (o : Outcome) → frame_received f c ≡ ok o → Step c o
  next_step : (p : Payload) (is_complete : Bool) → Step c (on_next p is_complete c)
  complete_step : Step c (on_complete c)
  error_step : (exception : Error) → Step c (on_error exception c)
  dispose_step : Step c (dispose c)
  remote_step : Step c (complete_remote_subscriber c)
  subscribe_step : (there : Bool) → Step c (subscribe there c)
  cancel_step : Step c (cancel c)
  request_step : (n : ℕ) → Step c (request n c)
  initial_step : (n : ℤ) → Step c (initial_request_n n c)
  requester_step :
      (r : RequestChannelRequester) (there : Bool) → Step c (requester_subscribe r there c)
  responder_step :
      (publisher : Option Bool) (f : Frame) (o : Outcome)
      → responder_frame_received publisher f c ≡ ok o
      → Step c o
