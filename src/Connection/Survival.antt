-- ===== src/Connection/Survival.antt =====
-- The receiver's loop and the exceptions of the handlers.
use rsocket_py.Prelude.{
  ℕ, ◌≡◌, refl, sym, ap, ◌∙◌, inl, inr, Bool, true, false, not, ltb, Option, none, some, List, [],
  ◌∷◌, ErrorCode, Error, Result, ok, err, ◌==◌, Bool-cases, if◌then◌else◌,
}
use rsocket_py.Prelude.Actions.{Act, continue, return, recover}
use rsocket_py.Bytes.{Bytes}
use rsocket_py.Frame.Slots.{SetupSlots, Body, Frame}
use rsocket_py.FrameParser.{Item, frame, invalid_frame}
use rsocket_py.FrameBuilders.{Payload}
use rsocket_py.Frame.Fragmenting.{is_fragmentable_frame}
use rsocket_py.FrameFragmentCache.{Cache}
use rsocket_py.StreamControl.{
  StreamControl, lookup, handle_stream, in_use, assert_stream_id_available, register_stream,
}
use rsocket_py.Frame.Codes.{connection_stream_id}
use rsocket_py.Connection.{Socket, State}
use rsocket_py.Connection.Quiet.{
  is_quiet, Quiet, continue-quiet, bind-Quiet, then-Quiet, when-Quiet, either_quiet, if-Quiet,
  recover-quiet, append-quiet,
}
use rsocket_py.Connection.Receiving.{
  RequestHandler, StreamHandlers, assert_available, register, handle_request_response,
  handle_request_stream, handle_request_channel, handle_setup, setup_lease, handle_fire_and_forget,
  handle_metadata_push, handle_error, handle_keep_alive, handle_resume,
}
use rsocket_py.Connection.Receiver.{
  is_transport_error, report, by_type, complete_frame, when_complete, handle_stream_of, cached,
  handle_complete_frame, handle_next_frame, handle_frame_by_type, receive, receive_each,
  receiver_listen, Round,
}

-- Neither the application nor a stream handler raises an exception of the transport.
pub record AreQuiet {ℓ κ} {S : Type ℓ} {H : Type κ} (handler : RequestHandler S)
    (handlers : StreamHandlers S H) : Type (ℓ ⊔ κ) where
  pub on_setup : (d m : Bytes) (p : Payload) → Quiet (handler.on_setup d m p)
  pub request_response : (p : Payload) → Quiet (handler.request_response p)
  pub request_stream : (p : Payload) → Quiet (handler.request_stream p)
  pub request_channel : (p : Payload) → Quiet (handler.request_channel p)
  pub request_fire_and_forget : (p : Payload) → Quiet (handler.request_fire_and_forget p)
  pub on_metadata_push : (p : Payload) → Quiet (handler.on_metadata_push p)
  pub on_error : (code : ErrorCode) (p : Payload) → Quiet (handler.on_error code p)
  pub subscribe_to_leases : Quiet handler.subscribe_to_leases
  pub frame_received : (h : H) (f : Frame) → Quiet (handlers.frame_received h f)
  pub request_response_responder :
      (id future : ℕ) → Quiet (handlers.request_response_responder id future)
  pub request_stream_responder :
      (id publisher : ℕ) → Quiet (handlers.request_stream_responder id publisher)
  pub request_channel_responder :
      (id : ℕ) (publisher : Option ℕ) → Quiet (handlers.request_channel_responder id publisher)
  pub setup : (h : H) → Quiet (handlers.setup h)
  pub subscribe : (h : H) (subscriber : Option ℕ) → Quiet (handlers.subscribe h subscriber)

module _ {ℓ κ} {H : Type ℓ} {A : Type κ} where
  assert_available-Quiet : (id : ℕ) → Quiet (assert_available {H = H} {A = A} id)
  unfolding assert_stream_id_available
  assert_available-Quiet id (streams, s) = elim (Bool-cases (in_use id streams)) [
    | inl e ↦ rw e refl
    | inr e ↦ rw e refl
  ]

  register-Quiet : (id : ℕ) (h : H) → Quiet (register {H = H} {A = A} id h)
  unfolding register_stream
  register-Quiet id h (streams, s) = elim (Bool-cases (id == connection_stream_id)) [
    | inl e ↦ rw e refl
    | inr e ↦ elim (Bool-cases (ltb streams.maximum_stream_id id)) [
      | inl e' ↦ rw (e, e') refl
      | inr e' ↦ rw (e, e') refl
    ]
  ]

module _ {ℓ κ} {H : Type ℓ} {A : Type κ} (clock : ℕ → ℕ) (text : Error → Bytes)
    (handler : RequestHandler (State H A)) (handlers : StreamHandlers (State H A) H)
    (quiet : AreQuiet handler handlers) where
  request_response-Quiet :
      (f : Frame) → Quiet (handle_request_response clock text handler handlers f)
  unfolding handle_request_response
  request_response-Quiet f = then-Quiet _ _ (assert_available-Quiet f.stream_id) (
      bind-Quiet _ _ (quiet.request_response _) (λ future.
        bind-Quiet _ _ (quiet.request_response_responder f.stream_id future)
          (λ h. then-Quiet _ _ (register-Quiet f.stream_id h) (quiet.setup h))))

  request_stream-Quiet : (f : Frame) → Quiet (handle_request_stream clock text handler handlers f)
  unfolding handle_request_stream
  request_stream-Quiet f = then-Quiet _ _ (assert_available-Quiet f.stream_id) (
      bind-Quiet _ _ (quiet.request_stream _) (λ publisher.
        bind-Quiet _ _ (quiet.request_stream_responder f.stream_id publisher)
          (λ h. then-Quiet _ _ (register-Quiet f.stream_id h) (quiet.frame_received h f))))

  request_channel-Quiet : (f : Frame) → Quiet (handle_request_channel clock text handler handlers f)
  unfolding handle_request_channel
  request_channel-Quiet f = then-Quiet _ _ (assert_available-Quiet f.stream_id) (
      bind-Quiet _ _ (quiet.request_channel _) (λ given.
        bind-Quiet _ _ (quiet.request_channel_responder f.stream_id given.0) (λ h.
          then-Quiet _ _ (register-Quiet f.stream_id h)
            (then-Quiet _ _ (quiet.subscribe h given.1) (quiet.frame_received h f)))))

  setup-Quiet :
      (slots : SetupSlots) (f : Frame) → Quiet (handle_setup clock text handler handlers slots f)
  unfolding handle_setup setup_lease
  setup-Quiet slots f =
      then-Quiet _ _
        (then-Quiet _ _ (when-Quiet slots.flags_resume _ (λ s. refl)) (
          when-Quiet slots.flags_lease _
            (λ s. either_quiet s.1.has_lease_publisher _ _ (quiet.subscribe_to_leases s) refl)))
        (λ s. recover-quiet (handler.on_setup _ _ _ s) _ (λ e s'. refl))

  by_type-Quiet : (b : Body) (f : Frame) → Quiet (by_type clock text handler handlers b f)
  unfolding handle_fire_and_forget handle_metadata_push handle_resume handle_error handle_keep_alive
  by_type-Quiet Body.request_response f = request_response-Quiet f
  by_type-Quiet (Body.request_stream n) f = request_stream-Quiet f
  by_type-Quiet (Body.request_channel n) f = request_channel-Quiet f
  by_type-Quiet (Body.setup slots) f = setup-Quiet slots f
  by_type-Quiet Body.request_fnf f =
      then-Quiet _ _ (assert_available-Quiet f.stream_id) (quiet.request_fire_and_forget _)
  by_type-Quiet Body.metadata_push f = quiet.on_metadata_push _
  by_type-Quiet (Body.resume slots) f = λ s. refl
  by_type-Quiet (Body.keep_alive respond position) f = when-Quiet respond _ (λ s. refl)
  by_type-Quiet (Body.error code) f = quiet.on_error code _
  by_type-Quiet b f = λ s. refl

  cached-quiet :
      (streams : StreamControl H) (s : Socket A) (r : Result (Cache × Option Frame))
      → is_quiet r ≡ true
      → is_quiet (cached streams s r).1 ≡ true
  cached-quiet streams s (ok a) h = refl
  cached-quiet streams s (err e) h = h

  complete_frame-Quiet : (f : Frame) → Quiet (complete_frame {H = H} {A = A} f)
  unfolding complete_frame
  complete_frame-Quiet f s =
      either_quiet (is_fragmentable_frame f) _ _
        (cached-quiet s.0 s.1 _ (append-quiet s.1.frame_fragment_cache f)) refl

  handle_stream-Quiet : (f : Frame) → Quiet (handle_stream_of clock text handler handlers f)
  unfolding handle_stream
  handle_stream-Quiet f s = handled (lookup f.stream_id s.0.streams)
    where
      handled :
          (o : Option H)
          → is_quiet
              (elim o as (λ x. State H A × Result Bool) [
                | none ↦ (s, ok false)
                | some h ↦ continue (handlers.frame_received h f s) (λ _. return true)
              ]).1
            ≡ true
      handled none = refl
      handled (some h) =
          continue-quiet (handlers.frame_received h f s) _ (quiet.frame_received h f s)
            (λ _ s'. refl)

  complete-Quiet : (f : Option Frame) → Quiet (when_complete clock text handler handlers f)
  unfolding handle_complete_frame handle_frame_by_type
  complete-Quiet none = λ s. refl
  complete-Quiet (some f) =
      if-Quiet _ _ _ (by_type-Quiet f.body f)
        (bind-Quiet _ _ (handle_stream-Quiet f) (λ handled s. refl))

  next-Quiet : (item : Item) → Quiet (handle_next_frame clock text handler handlers item)
  unfolding handle_next_frame
  next-Quiet invalid_frame = λ s. refl
  next-Quiet (frame f) = bind-Quiet _ _ (complete_frame-Quiet f) complete-Quiet

  -- An exception that is not the transport's is reported.
  reported :
      (id : ℕ) (r : State H A × Result (Unit {0}))
      → is_quiet r.1 ≡ true
      → (recover r (report clock text handler handlers id)).1 ≡ ok tt
  unfolding report
  reported id (s, ok u) h = refl
  reported id (s, err e) h = elim (Bool-cases (is_transport_error e)) [
    | inl thrown ↦ cc (sym (ap not thrown) ∙ h)
    | inr other ↦ rw other refl
  ]

  receive_ok :
      (item : Item) (s : State H A) → (receive clock text handler handlers item s).1 ≡ ok tt
  unfolding receive handle_next_frame
  receive_ok invalid_frame s = refl
  receive_ok (frame f) s = reported f.stream_id _ (next-Quiet (frame f) s)

  continue_ok :
      (r : State H A × Result (Unit {0})) (k : Act (State H A) (Unit {0}))
      → r.1 ≡ ok tt
      → ((s : State H A) → (k s).1 ≡ ok tt)
      → (continue r (λ _. k)).1 ≡ ok tt
  continue_ok (s, ok u) k h f = f s
  continue_ok (s, err e) k h f = cc h

  alive_ok :
      (alive : Bool) (k : Act (State H A) (Unit {0}))
      → ((s : State H A) → (k s).1 ≡ ok tt)
      → (s : State H A) → ((if alive then k else return tt) s).1 ≡ ok tt
  alive_ok true k h s = h s
  alive_ok false k h s = refl

  receive_each_ok :
      (items : List Item) (s : State H A)
      → (receive_each clock text handler handlers items s).1 ≡ ok tt
  unfolding receive_each
  receive_each_ok [] s = refl
  receive_each_ok (item ∷ items) s =
      continue_ok (receive clock text handler handlers item s) _ (receive_ok item s)
        (receive_each_ok items)

  -- If neither the application nor a stream handler raises an exception of the transport, the
  -- receiver handles the frames of any rounds from any state to the end, without an exception.
  pub receiver_listen_survives :
      (rounds : List Round) (s : State H A)
      → (receiver_listen clock text handler handlers rounds s).1 ≡ ok tt
  unfolding receiver_listen
  receiver_listen_survives [] s = refl
  receiver_listen_survives (round ∷ rounds) s =
      alive_ok round.is_server_alive _
        (λ s'.
          continue_ok (receive_each clock text handler handlers round.frames s') _
            (receive_each_ok round.frames s') (receiver_listen_survives rounds))
        s
