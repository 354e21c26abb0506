-- ===== src/Connection/Requesting.antt =====
-- rsocket/rsocket_base.py: the requests that this side makes. A requester is made for its stream id,
-- which `_register_stream` sets; `none` is a search for an id that is out of rounds.
pub mod Fresh
use rsocket_py.Prelude.{ℕ, Option, none, some, Result, ok, err}
use rsocket_py.Prelude.Actions.{Act, ◌>>=◌, ◌>>◌, return}
use rsocket_py.Frame.Slots.{Frame}
use rsocket_py.FrameBuilders.{Payload, to_request_response_frame, to_fire_and_forget_frame}
use rsocket_py.StreamControl.{StreamControl, allocate_stream, finish}
use rsocket_py.Connection.{Socket, State}
use rsocket_py.Connection.Sending.{send_request}
use rsocket_py.Connection.Receiving.{register}

module _ {ℓ κ} {H : Type ℓ} {A : Type κ} where
  -- With the id of `_allocate_stream`, or its exception.
  abbrev pub allocated {μ} :
      {B : Type μ}
      → Option (Result (StreamControl H × ℕ))
      → (ℕ → Act (State H A) B)
      → State H A
      → Option (State H A × Result B)
  allocated none continue state = none
  allocated (some (err e)) continue state = some (state, err e)
  allocated (some (ok (streams, id))) continue (old, s) = some (continue id (streams, s))

  unfoldable pub with_stream {μ} :
      {B : Type μ} → ℕ → (ℕ → Act (State H A) B) → State H A → Option (State H A × Result B)
  with_stream rounds continue (streams, s) =
      allocated (allocate_stream rounds streams) continue (streams, s)

  -- `register_new_stream`
  unfoldable pub register_new_stream : ℕ → (ℕ → H) → State H A → Option (State H A × Result ℕ)
  register_new_stream rounds handler =
      with_stream rounds (λ id. register id (handler id) >> return id)

  -- `requester.run()` sends the request.
  abbrev pub request_sent : (ℕ → ℕ) → Frame → Act (State H A) (Unit {0})
  request_sent clock f (streams, s) =
      let sent = send_request clock f s in ((streams, sent.0), sent.1)

  unfoldable pub request_response :
      (ℕ → ℕ) → ℕ → (ℕ → H) → Payload → State H A → Option (State H A × Result ℕ)
  request_response clock rounds requester payload (streams, s) =
      with_stream rounds
        (λ id.
          register id (requester id)
          >> request_sent clock (to_request_response_frame id payload s.fragment_size_bytes)
          >> return id)
        (streams, s)

  -- The request is sent by `subscribe` of the requester.
  unfoldable pub request_stream : ℕ → (ℕ → H) → State H A → Option (State H A × Result ℕ)
  request_stream rounds requester = register_new_stream rounds requester

  unfoldable pub request_channel : ℕ → (ℕ → H) → State H A → Option (State H A × Result ℕ)
  request_channel rounds requester = register_new_stream rounds requester

  -- No handler is registered; `fire_and_forget_sent` is the callback of the frame's future.
  unfoldable pub fire_and_forget : (ℕ → ℕ) → ℕ → Payload → State H A → Option (State H A × Result ℕ)
  fire_and_forget clock rounds payload (streams, s) =
      with_stream rounds
        (λ id.
          request_sent clock (to_fire_and_forget_frame id payload s.fragment_size_bytes)
          >> return id)
        (streams, s)

  abbrev pub fire_and_forget_sent : ℕ → Act (State H A) (Unit {0})
  fire_and_forget_sent id = finish id
