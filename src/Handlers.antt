-- ===== src/Handlers.antt =====
-- rsocket/streams/stream_handler.py and the handlers of rsocket/handlers with one response or one
-- stream of responses. A method gives the handler as it leaves it and what it calls on the socket,
-- the application's subscriber, subscription or future, in the order of the calls; a call of the
-- application back into the handler is an operation of its own.
pub mod RequestResponse
pub mod StreamRequester
pub mod StreamResponder
pub mod Crossing
pub mod Relay
pub mod RespondOnce
use rsocket_py.Prelude.{ℕ, suc, Bool, List, [], ◌∷◌, Error, Result, ok, err, rsocket_value_error}
use rsocket_py.Bytes.{ℤ, pos, negsuc}
use rsocket_py.Frame.Codes.{max_request_n}
use rsocket_py.Frame.Slots.{Frame}
use rsocket_py.FrameBuilders.{Payload, to_cancel_frame, to_request_n_frame}

-- What a subscriber is told.
pub data Signal : Type 0 where
  on_next : Payload → Bool → Signal
  on_complete : Signal
  on_error : Error → Signal

pub data Call : Type 0 where
  send_request send_frame : Frame → Call
  finish_stream : ℕ → Call
  to_subscriber : Signal → Call
  on_subscribe : Call
  subscription_request : ℕ → Call
  subscription_cancel : Call

pub record StreamHandler : Type 0 where
  pub stream_id : ℕ
  pub request_n : ℕ

-- `__init__`, with the id that the registration sets.
abbrev pub stream_handler : ℕ → StreamHandler
stream_handler id = record { stream_id = id; request_n = max_request_n }

unfoldable pub initial_request_n : ℤ → StreamHandler → Result StreamHandler × List Call
initial_request_n (pos (suc n)) h = (ok (record h { request_n = suc n }), [])
initial_request_n n h = (err rsocket_value_error, finish_stream h.stream_id ∷ [])

unfoldable pub send_cancel : StreamHandler → List Call
send_cancel h = send_frame (to_cancel_frame h.stream_id) ∷ []

unfoldable pub send_request_n : ℕ → StreamHandler → List Call
send_request_n n h = send_frame (to_request_n_frame h.stream_id n) ∷ []
