-- ===== src/Handlers/RespondOnce.antt =====
-- How often the responder of a request for a response answers.
use rsocket_py.Prelude.{
  ℕ, ◌+◌, ◌≤◌, ◌≡◌, ap, Bool, true, false, Option, List, [], ◌∷◌, ◌++◌, Error, Result, ok, err,
  length, arith, if◌then◌else◌,
}
use rsocket_py.Bytes.{Bytes}
use rsocket_py.Frame.Slots.{Body, Frame}
use rsocket_py.FrameBuilders.{Payload}
use rsocket_py.Handlers.{Call, send_frame}
use rsocket_py.Handlers.Relay.{frames_sent}
use rsocket_py.Handlers.RequestResponse.{
  FutureState, pending, cancelled, finished, failed, ResponseHandler, cancel_future, set_future,
  cancel_received, future_done, responder_frame_received, responder_dispose,
}

-- What can happen to a responder: the application completes the future, a frame is received, the
-- streams are stopped, or the event loop runs the callback of a future that is done.
pub data Step (text : Error → Bytes) (size : Option ℕ) (h : ResponseHandler)
    : ResponseHandler × List Call → Type 0 where
  completes :
      (value : FutureState) (h' : ResponseHandler)
      → set_future value h ≡ ok h'
      → Step text size h (h', [])
  receives : (f : Frame) → Step text size h (responder_frame_received f h)
  disposes : Step text size h (responder_dispose h)
  calls_back :
      h.callback_due ≡ true
      → Step text size h (record h { callback_due = false }, future_done text size h)

-- Steps one after the other, with all that they call.
pub data Steps (text : Error → Bytes) (size : Option ℕ)
    : ResponseHandler → ResponseHandler → List Call → Type 0 where
  stop : (h : ResponseHandler) → Steps text size h h []
  step :
      (h h' h'' : ResponseHandler) (calls rest : List Call)
      → Step text size h (h', calls)
      → Steps text size h' h'' rest
      → Steps text size h h'' (calls ++ rest)

-- The answers that a responder can still send.
abbrev answers_of : FutureState → Bool → ℕ
answers_of pending due = 1
answers_of cancelled due = 0
answers_of (finished p) due = if due then 1 else 0
answers_of (failed e) due = if due then 1 else 0

abbrev pub answers_left : ResponseHandler → ℕ
answers_left h = answers_of h.future h.callback_due

-- A responder by its slots.
abbrev at_slots : ℕ → Payload → FutureState → Bool → ResponseHandler
at_slots id p state due = record { stream_id = id; payload = p; future = state; callback_due = due }

cancel_bound :
    (id : ℕ) (p : Payload) (state : FutureState) (due : Bool)
    → answers_left (cancel_future (at_slots id p state due)) ≤ answers_of state due
unfolding cancel_future
cancel_bound id p pending due = omega arith
cancel_bound id p cancelled due = omega arith
cancel_bound id p (finished q) due = omega arith
cancel_bound id p (failed e) due = omega arith

-- The answers that are left behind a result, if there is one.
abbrev left_or : ℕ → Result ResponseHandler → ℕ
left_or n (ok h) = answers_left h
left_or n (err e) = n

answers_bound : (value : FutureState) (due : Bool) → answers_of value due ≤ 1
answers_bound pending due = omega arith
answers_bound cancelled due = omega arith
answers_bound (finished q) true = omega arith
answers_bound (finished q) false = omega arith
answers_bound (failed e) true = omega arith
answers_bound (failed e) false = omega arith

set_bound :
    (id : ℕ) (p : Payload) (state value : FutureState) (due : Bool)
    → left_or 0 (set_future value (at_slots id p state due)) ≤ answers_of state due
unfolding set_future
set_bound id p pending value due = answers_bound value true
set_bound id p cancelled value due = omega arith
set_bound id p (finished q) value due = omega arith
set_bound id p (failed e) value due = omega arith

module _ (text : Error → Bytes) (size : Option ℕ) where
  done_bound :
      (id : ℕ) (p : Payload) (state : FutureState) (due : Bool)
      → due ≡ true
      → length (frames_sent (future_done text size (at_slots id p state due)))
          + answers_of state false
        ≤ answers_of state due
  unfolding future_done
  done_bound id p pending due e = omega arith
  done_bound id p cancelled due e = omega arith
  done_bound id p (finished q) due e = rw e (omega arith)
  done_bound id p (failed x) due e = rw e (omega arith)

  received_bound :
      (b : Body) (id : ℕ) (p : Payload) (state : FutureState) (due : Bool)
      → let r = cancel_received b (at_slots id p state due) in
        length (frames_sent r.1) + answers_left r.0 ≤ answers_of state due
  received_bound Body.cancel id p state due = omega (arith, cancel_bound id p state due)
  received_bound b id p state due = omega arith

  Step-bound :
      (h : ResponseHandler) (o : ResponseHandler × List Call)
      → Step text size h o
      → length (frames_sent o.1) + answers_left o.0 ≤ answers_left h
  unfolding responder_frame_received responder_dispose
  Step-bound h o (completes value h'' e) =
      omega (arith, ap (left_or 0) e, set_bound h.stream_id h.payload h.future value h.callback_due)
  Step-bound h o (receives f) = received_bound f.body h.stream_id h.payload h.future h.callback_due
  Step-bound h o disposes =
      omega (arith, cancel_bound h.stream_id h.payload h.future h.callback_due)
  Step-bound h o (calls_back due) = done_bound h.stream_id h.payload h.future h.callback_due due

  frames_sent-append :
      (xs ys : List Call)
      → length (frames_sent (xs ++ ys)) ≡ length (frames_sent xs) + length (frames_sent ys)
  frames_sent-append [] ys = omega arith
  frames_sent-append (send_frame f ∷ xs) ys = omega (arith, frames_sent-append xs ys)
  frames_sent-append (c ∷ xs) ys = frames_sent-append xs ys

  -- Whatever happens to a responder, in any order, the frames that it sends and the answers that it
  -- can still send are at most those that it could send before: one while the future is not done
  -- or its callback has not run, and none once the future was cancelled.
  pub Steps-bound :
      (h h' : ResponseHandler) (calls : List Call)
      → Steps text size h h' calls
      → length (frames_sent calls) + answers_left h' ≤ answers_left h
  Steps-bound h h' calls (stop _) = omega arith
  Steps-bound h h' calls (step _ next _ first rest s more) = omega (
    arith,
    frames_sent-append first rest,
    Step-bound h (next, first) s,
    Steps-bound next h' rest more,
  )
