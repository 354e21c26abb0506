-- ===== src/Connection/Refusals.antt =====
-- What the connection refuses with an error frame: requests on an id in use, setups and resumption.
use rsocket_py.Prelude.{
  ℕ, ◌≡◌, refl, ap, ◌∙◌, Bool, true, false, ◌||◌, Option, none, some, ErrorCode, Error,
  protocol_error, stream_id_in_use, Result, ok, err, if◌then◌else◌, ◌==◌, ==_iff,
}
use rsocket_py.Prelude.Actions.{Act, continue, recover, when}
use rsocket_py.Bytes.{Bytes}
use rsocket_py.Frame.Codes.{connection_stream_id}
use rsocket_py.Frame.Slots.{SetupSlots, Body, Frame}
use rsocket_py.Frame.Errors.{exception_to_error_frame}
use rsocket_py.Frame.Fragmenting.{is_fragmentable_body, is_fragmentable_frame}
use rsocket_py.FrameParser.{frame}
use rsocket_py.FrameFragmentCache.{Cache, append}
use rsocket_py.StreamControl.{StreamControl, in_use, assert_stream_id_available}
use rsocket_py.Connection.{Socket, State, is_initiate_request}
use rsocket_py.Connection.Sending.{send_frame, send_error}
use rsocket_py.Connection.Receiving.{
  RequestHandler, StreamHandlers, payload_from_frame, resume_text, lease_text,
  handle_request_response, handle_request_stream, handle_request_channel, handle_fire_and_forget,
  handle_setup, setup_lease, accept_setup, reject_setup,
}
use rsocket_py.Connection.Receiver.{
  is_transport_error, cached, complete_frame, when_complete, by_type, handle_frame_by_type,
  handle_complete_frame, handle_next_frame, report, receive,
}

-- The branch of `append` for a frame that is alone.
alone {ℓ} :
    {R : Type ℓ} (b : Bool) (o : Option Frame) (x y : R) (z : Frame → R)
    → b ≡ false
    → o ≡ none
    → (if b then x else (elim o as (λ _. R) [ none ↦ y | some f ↦ z f ])) ≡ y
alone false none x y z e e' = refl
alone false (some f) x y z e e' = cc e'
alone true o x y z e e' = cc e

pub append_alone :
    (cache : Cache) (f : Frame)
    → f.flags_follows ≡ false
    → cache f.stream_id ≡ none
    → append cache f ≡ ok (cache, some f)
unfolding append
append_alone cache f last fresh = alone f.flags_follows (cache f.stream_id) _ _ _ last fresh

either_whole {ℓ} : {R : Type ℓ} (b : Bool) (x y : R) → x ≡ y → (if b then x else y) ≡ y
either_whole true x y e = e
either_whole false x y e = refl

chosen_first {ℓ} : {R : Type ℓ} (b : Bool) (x y : R) → b ≡ true → (if b then x else y) ≡ x
chosen_first true x y e = refl
chosen_first false x y e = cc e

chosen_second {ℓ} : {R : Type ℓ} (b : Bool) (x y : R) → b ≡ false → (if b then x else y) ≡ y
chosen_second false x y e = refl
chosen_second true x y e = cc e

or_true : (a b : Bool) → b ≡ true → (a || b) ≡ true
or_true true b e = refl
or_true false b e = e

module _ {ℓ κ} {H : Type ℓ} {A : Type κ} (clock : ℕ → ℕ) (text : Error → Bytes)
    (handler : RequestHandler (State H A)) (handlers : StreamHandlers (State H A) H) where
  -- An exception that is not the transport's becomes an error frame at the end of the send queue.
  abbrev pub Reports : Frame → Error → State H A → State H A → Type (ℓ ⊔ κ)
  Reports f e s (streams, left) =
      receive clock text handler handlers (frame f) s
      ≡ ((streams, send_error text f.stream_id e left), ok tt)

  reports :
      (f : Frame) (e : Error) (s left : State H A)
      → is_transport_error e ≡ false
      → handle_next_frame clock text handler handlers (frame f) s ≡ (left, err e)
      → Reports f e s left
  unfolding receive report
  reports f e s left other raises =
      ap
        (λ (r : State H A × Result (Unit {0})).
          recover r (report clock text handler handlers f.stream_id))
        raises
      ∙ rw other refl

  -- A frame that is not a fragment is handled as it is.
  whole_frame :
      (f : Frame) (streams : StreamControl H) (s : Socket A)
      → f.flags_follows ≡ false
      → s.frame_fragment_cache f.stream_id ≡ none
      → complete_frame f (streams, s) ≡ ((streams, s), ok (some f))
  unfolding complete_frame
  whole_frame f streams s last fresh =
      either_whole (is_fragmentable_frame f) _ _
        (ap (cached streams s) (append_alone s.frame_fragment_cache f last fresh))

  in_use_raises :
      (b : Body) (f : Frame) (streams : StreamControl H) (s : Socket A)
      → is_initiate_request b ≡ true
      → in_use f.stream_id streams ≡ true
      → by_type clock text handler handlers b f (streams, s)
        ≡ ((streams, s), err (stream_id_in_use f.stream_id))
  unfolding handle_request_response handle_request_stream handle_request_channel
      handle_fire_and_forget assert_stream_id_available
  in_use_raises Body.request_response f streams s i there = rw there refl
  in_use_raises (Body.request_stream n) f streams s i there = rw there refl
  in_use_raises (Body.request_channel n) f streams s i there = rw there refl
  in_use_raises Body.request_fnf f streams s i there = rw there refl
  in_use_raises b f streams s i there = cc i

  -- A whole frame that its handler of the connection refuses.
  refused :
      (f : Frame) (e : Error) (streams : StreamControl H) (s : Socket A) (left : State H A)
      → is_transport_error e ≡ false
      → complete_frame f (streams, s) ≡ ((streams, s), ok (some f))
      → ((f.stream_id == connection_stream_id) || is_initiate_request f.body) ≡ true
      → by_type clock text handler handlers f.body f (streams, s) ≡ (left, err e)
      → Reports f e (streams, s) left
  unfolding handle_next_frame handle_complete_frame handle_frame_by_type
  refused f e streams s left other complete handled raises =
      reports f e (streams, s) left other
        (ap
            (λ (r : State H A × Result (Option Frame)).
              continue r (when_complete clock text handler handlers))
            complete
          ∙ ap (λ (m : Act (State H A) (Unit {0})). m (streams, s))
              (chosen_first _ (by_type clock text handler handlers f.body f) _ handled)
          ∙ raises)

  -- A whole request frame on an id in use is answered by an error frame with the code `rejected` on
  -- its stream; the application is not asked, and the streams stay as they are.
  pub receive-in_use :
      (f : Frame) (streams : StreamControl H) (s : Socket A)
      → is_initiate_request f.body ≡ true
      → in_use f.stream_id streams ≡ true
      → f.flags_follows ≡ false
      → s.frame_fragment_cache f.stream_id ≡ none
      → let answer = exception_to_error_frame f.stream_id (stream_id_in_use f.stream_id) text in
        (receive clock text handler handlers (frame f) (streams, s)
          ≡ ((streams, send_frame answer s), ok tt))
        × (answer.body ≡ Body.error ErrorCode.rejected)
        × (answer.stream_id ≡ f.stream_id)
  unfolding exception_to_error_frame send_error
  receive-in_use f streams s initiates there last fresh = (
    refused f (stream_id_in_use f.stream_id) streams s (streams, s) refl
        (whole_frame f streams s last fresh) (or_true _ _ initiates)
        (in_use_raises f.body f streams s initiates there),
    refl,
    refl,
  )

  at_connection :
      (f : Frame) (e : f.stream_id ≡ connection_stream_id) (b : Bool)
      → ((f.stream_id == connection_stream_id) || b) ≡ true
  at_connection f e b = ap (λ (t : Bool). t || b) ((==_iff f.stream_id connection_stream_id).1 e)

  module _ (f : Frame) (slots : SetupSlots) (streams : StreamControl H) (s : Socket A) where
    resuming_raises :
        slots.flags_resume ≡ true
        → handle_setup clock text handler handlers slots f (streams, s)
          ≡ ((streams, s), err (protocol_error ErrorCode.unsupported_setup resume_text))
    unfolding handle_setup
    resuming_raises e = rw e refl

    leasing_raises :
        slots.flags_resume ≡ false
        → slots.flags_lease ≡ true
        → s.has_lease_publisher ≡ false
        → handle_setup clock text handler handlers slots f (streams, s)
          ≡ ((streams, s), err (protocol_error ErrorCode.unsupported_setup lease_text))
    unfolding handle_setup setup_lease
    leasing_raises e e' none' =
        rw (e, e')
          (ap
            (λ (r : State H A × Result (Unit {0})).
              continue r (λ _. accept_setup clock text handler handlers slots f))
            (chosen_second s.has_lease_publisher _ _ none'))

    subscribing_raises :
        (e : Error) (left : State H A)
        → slots.flags_resume ≡ false
        → slots.flags_lease ≡ true
        → s.has_lease_publisher ≡ true
        → handler.subscribe_to_leases (streams, s) ≡ (left, err e)
        → handle_setup clock text handler handlers slots f (streams, s) ≡ (left, err e)
    unfolding handle_setup setup_lease
    subscribing_raises e left resume lease there raises =
        rw (resume, lease)
          (ap
            (λ (r : State H A × Result (Unit {0})).
              continue r (λ _. accept_setup clock text handler handlers slots f))
            (chosen_first s.has_lease_publisher _ _ there ∙ raises))

    application_raises :
        (e : Error) (asked left : State H A)
        → slots.flags_resume ≡ false
        → when slots.flags_lease (setup_lease clock text handler handlers) (streams, s)
          ≡ (asked, ok tt)
        → handler.on_setup slots.data_encoding slots.metadata_encoding (payload_from_frame f) asked
          ≡ (left, err e)
        → handle_setup clock text handler handlers slots f (streams, s)
          ≡ (left, err (protocol_error ErrorCode.rejected_setup (text e)))
    unfolding handle_setup
    application_raises e asked left resume lease raises = rw resume (
        ap
          (λ (r : State H A × Result (Unit {0})).
            continue r (λ _. accept_setup clock text handler handlers slots f))
          lease
        ∙ ap
            (λ (r : State H A × Result (Unit {0})).
              recover r (reject_setup clock text handler handlers))
            raises)

  connection_frame :
      (f : Frame) (b : Body) (streams : StreamControl H) (s : Socket A)
      → f.body ≡ b
      → is_fragmentable_body b ≡ false
      → complete_frame f (streams, s) ≡ ((streams, s), ok (some f))
  unfolding complete_frame is_fragmentable_frame
  connection_frame f b streams s e h = chosen_second _ _ _ (ap is_fragmentable_body e ∙ h)

  setup-Reports :
      (f : Frame) (slots : SetupSlots) (streams : StreamControl H) (s : Socket A) (e : Error)
      (left : State H A)
      → f.body ≡ Body.setup slots
      → f.stream_id ≡ connection_stream_id
      → is_transport_error e ≡ false
      → handle_setup clock text handler handlers slots f (streams, s) ≡ (left, err e)
      → Reports f e (streams, s) left
  setup-Reports f slots streams s e left b zero other raises =
      refused f e streams s left other (connection_frame f (Body.setup slots) streams s b refl)
        (at_connection f zero (is_initiate_request f.body))
        (ap (λ (t : Body). by_type clock text handler handlers t f (streams, s)) b ∙ raises)

  -- Why a setup is refused, with the exception and the state that is left: it asks for resumption,
  -- or for a lease where there is no publisher of leases, or the subscription to that publisher raises
  -- an exception that is not the transport's, or the application raises in `on_setup`, behind the
  -- subscription to leases if the setup asks for them.
  pub data RefusedSetup (f : Frame) (slots : SetupSlots) (s : State H A)
      : Error → State H A → Type (ℓ ⊔ κ) where
    resuming :
        slots.flags_resume ≡ true
        → RefusedSetup f slots s (protocol_error ErrorCode.unsupported_setup resume_text) s
    leasing :
        slots.flags_resume ≡ false
        → slots.flags_lease ≡ true
        → s.1.has_lease_publisher ≡ false
        → RefusedSetup f slots s (protocol_error ErrorCode.unsupported_setup lease_text) s
    subscribing :
        (e : Error) (left : State H A)
        → slots.flags_resume ≡ false
        → slots.flags_lease ≡ true
        → s.1.has_lease_publisher ≡ true
        → handler.subscribe_to_leases s ≡ (left, err e)
        → is_transport_error e ≡ false
        → RefusedSetup f slots s e left
    raising :
        (e : Error) (asked left : State H A)
        → slots.flags_resume ≡ false
        → when slots.flags_lease (setup_lease clock text handler handlers) s ≡ (asked, ok tt)
        → handler.on_setup slots.data_encoding slots.metadata_encoding (payload_from_frame f) asked
          ≡ (left, err e)
        → RefusedSetup f slots s (protocol_error ErrorCode.rejected_setup (text e)) left

  -- A setup frame on stream 0 that is refused is answered by an error frame there: with
  -- `unsupported_setup` for resumption and for a lease without a publisher, with the exception of the
  -- subscription to leases, and with `rejected_setup` and the text of the exception of `on_setup`.
  pub receive_refuses_setup :
      (f : Frame) (slots : SetupSlots) (s : State H A) (e : Error) (left : State H A)
      → f.body ≡ Body.setup slots
      → f.stream_id ≡ connection_stream_id
      → RefusedSetup f slots s e left
      → Reports f e s left
  receive_refuses_setup f slots (streams, s) e left b zero (resuming resume) =
      setup-Reports f slots streams s e left b zero refl (resuming_raises f slots streams s resume)
  receive_refuses_setup f slots (streams, s) e left b zero (leasing resume lease publisher) =
      setup-Reports f slots streams s e left b zero refl
        (leasing_raises f slots streams s resume lease publisher)
  receive_refuses_setup f slots (streams, s) e left b zero
        (subscribing _ _ resume lease there raises other) =
      setup-Reports f slots streams s e left b zero other
        (subscribing_raises f slots streams s e left resume lease there raises)
  receive_refuses_setup f slots (streams, s) e left b zero (raising x asked _ resume lease raises) =
      setup-Reports f slots streams s e left b zero refl
        (application_raises f slots streams s x asked left resume lease raises)
