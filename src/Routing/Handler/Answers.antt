-- ===== src/Routing/Handler/Answers.antt =====
-- The routing handler answers every request, and no exception of a route reaches the connection.
use rsocket_py.Prelude.{
  ℕ, ap, plain_exception, ◌≡◌, refl, Option, none, some, List, Error, Result, ok, err, arith,
  type_error,
}
use rsocket_py.Prelude.Actions.{
  Act, of_result, ◌>>=◌, ◌>>◌, return, raise, modify, recover, try_except,
}
use rsocket_py.Bytes.{Bytes}
use rsocket_py.FrameBuilders.{Payload}
use rsocket_py.Extensions.Tables.{message_rsocket_composite_metadata}
use rsocket_py.Extensions.WellKnown.{same_bytes}
use rsocket_py.Extensions.Composite.{AnyAuthentication, CompositeMetadataItem}
use rsocket_py.Extensions.Composite.Total.{Returns, parse_items-Returns}
use rsocket_py.Connection.{State}
use rsocket_py.Connection.Quiet.{is_quiet, Quiet, if-Quiet}
use rsocket_py.Connection.Receiving.{RequestHandler, StreamHandlers}
use rsocket_py.Connection.Receiver.{Round, receiver_listen}
use rsocket_py.Connection.Survival.{AreQuiet, receiver_listen_survives}
use rsocket_py.Routing.{RequestType, RequestRouter, route_items, parse_and_route}
use rsocket_py.Routing.Handler.{
  Methods, Objects, made, enough, routed, routing_request_handler, on_setup, request_response,
  request_stream, request_channel, request_fire_and_forget, on_metadata_push, error_channel,
}

module _ {ℓ κ μ} {M : Type ℓ} {S : Type κ} {R : Type μ}
    (method_call : M → List CompositeMetadataItem → Payload → Act S R)
    (authentication_verifier : Option (Bytes → AnyAuthentication → Act S (Unit {0})))
    (router : RequestRouter M) where
  parse_and_route-Returns :
      (t : RequestType) (data_bytes metadata : Option Bytes) (s : S)
      → Returns (
          parse_and_route method_call authentication_verifier router
            (enough metadata)
            t
            (record { data_bytes = data_bytes; metadata = metadata })
            s)
  unfolding parse_and_route
  parse_and_route-Returns t d none s = ((s, err type_error), refl)
  parse_and_route-Returns t d (some metadata) s =
      let (items, parsed) = parse_items-Returns (enough (some metadata)) metadata (omega arith) in
      (
        (of_result items >>= λ parts.
              route_items method_call authentication_verifier router t
                (record { data_bytes = d; metadata = some metadata }) parts)
            s,
        rw (parse_and_route, parsed) refl,
      )

-- What a request comes to: the result of its route, or the object that carries its exception.
abbrev pub answered {ℓ κ} :
    {S : Type ℓ} {R : Type κ} → (Error → S → S × R) → S × Result R → S × Result R
answered carry (s, ok r) = (s, ok r)
answered carry (s, err e) = ((carry e s).0, ok (carry e s).1)

-- The action does not raise.
abbrev pub Answers {ℓ κ} : {S : Type ℓ} {R : Type κ} → Act S R → Type (ℓ ⊔ κ)
Answers {S = S} {R = R} m = (s : S) → (s' : S) × (a : R) × (m s ≡ (s', ok a))

recovers {ℓ κ} :
    {S : Type ℓ} {R : Type κ} (m : Act S R) (f : Error → Act S R)
    → ((e : Error) → Answers (f e))
    → Answers (try_except m f)
recovers {S = S} {R = R} m f h s = recovered (m s)
  where
    recovered : (r : S × Result R) → (s' : S) × (a : R) × (recover r f ≡ (s', ok a))
    recovered (s', ok a) = (s', a, refl)
    recovered (s', err e) = h e s'

answered-recover {ℓ} :
    {S : Type ℓ} (carry : Error → S → S × ℕ) (r : S × Result ℕ)
    → recover r (λ e. made (carry e)) ≡ answered carry r
answered-recover carry (s, ok a) = refl
answered-recover carry (s, err e) = refl

quiet_of {ℓ κ} : {S : Type ℓ} {R : Type κ} (m : Act S R) → Answers m → Quiet m
quiet_of m h s = let (s', a, e) = h s in ap (λ x. is_quiet x.1) e

module _ {ℓ κ} {M : Type ℓ} {S : Type κ} (methods : Methods M S) (objects : Objects S)
    (authentication_verifier : Option (Bytes → AnyAuthentication → Act S (Unit {0})))
    (router : RequestRouter M) (base : RequestHandler S) where
  abbrev pub handler : RequestHandler S
  handler = routing_request_handler methods objects authentication_verifier router base

  response-Answers : (p : Payload) → Answers (handler.request_response p)
  unfolding request_response
  response-Answers p =
      recovers
        (routed authentication_verifier router methods.response RequestType.request_response p)
        (λ e. made (objects.create_error_future e)) (λ e s. (_, _, refl))

  stream-Answers : (p : Payload) → Answers (handler.request_stream p)
  unfolding request_stream
  stream-Answers p =
      recovers (routed authentication_verifier router methods.stream RequestType.request_stream p)
        (λ e. made (objects.error_stream e)) (λ e s. (_, _, refl))

  channel-Answers : (p : Payload) → Answers (handler.request_channel p)
  unfolding request_channel
  channel-Answers p =
      recovers (routed authentication_verifier router methods.channel RequestType.request_channel p)
        (error_channel methods objects authentication_verifier router base) (λ e s. (_, _, refl))

  fire_and_forget-Answers : (p : Payload) → Answers (handler.request_fire_and_forget p)
  unfolding request_fire_and_forget
  fire_and_forget-Answers p =
      recovers (routed authentication_verifier router methods.nothing RequestType.request_fnf p)
        (λ e. return tt) (λ e s. (_, _, refl))

  push-Answers : (p : Payload) → Answers (handler.on_metadata_push p)
  unfolding on_metadata_push
  push-Answers p =
      recovers (routed authentication_verifier router methods.nothing RequestType.metadata_push p)
        (λ e. return tt) (λ e s. (_, _, refl))

  setup-Quiet :
      ((d m : Bytes) (p : Payload) → Quiet (base.on_setup d m p))
      → (d m : Bytes) (p : Payload) → Quiet (handler.on_setup d m p)
  unfolding on_setup
  setup-Quiet h d m p =
      if-Quiet (same_bytes m message_rsocket_composite_metadata.1)
        (modify (objects.set_encodings d m) >> base.on_setup d m p) (raise plain_exception)
        (λ s. h d m p (objects.set_encodings d m s)) (λ s. refl)

module _ {ℓ κ μ} {M : Type ℓ} {H : Type κ} {A : Type μ} (methods : Methods M (State H A))
    (objects : Objects (State H A))
    (authentication_verifier : Option (Bytes → AnyAuthentication → Act (State H A) (Unit {0})))
    (router : RequestRouter M) (base : RequestHandler (State H A))
    (handlers : StreamHandlers (State H A) H) where
  abbrev routing : RequestHandler (State H A)
  routing = handler methods objects authentication_verifier router base

  handler-AreQuiet : AreQuiet base handlers → AreQuiet routing handlers
  handler-AreQuiet quiet = record {
    on_setup = setup-Quiet methods objects authentication_verifier router base quiet.on_setup;
    request_response = λ p.
        quiet_of (routing.request_response p)
          (response-Answers methods objects authentication_verifier router base p);
    request_stream = λ p.
        quiet_of (routing.request_stream p)
          (stream-Answers methods objects authentication_verifier router base p);
    request_channel = λ p.
        quiet_of (routing.request_channel p)
          (channel-Answers methods objects authentication_verifier router base p);
    request_fire_and_forget = λ p.
        quiet_of (routing.request_fire_and_forget p)
          (fire_and_forget-Answers methods objects authentication_verifier router base p);
    on_metadata_push = λ p.
        quiet_of (routing.on_metadata_push p)
          (push-Answers methods objects authentication_verifier router base p);
    on_error = quiet.on_error;
    subscribe_to_leases = quiet.subscribe_to_leases;
    frame_received = quiet.frame_received;
    request_response_responder = quiet.request_response_responder;
    request_stream_responder = quiet.request_stream_responder;
    request_channel_responder = quiet.request_channel_responder;
    setup = quiet.setup;
    subscribe = quiet.subscribe;
  }

  -- A routing handler over a base handler and stream handlers that raise no exception of the
  -- transport, with any methods, any verifier and any payload: no request raises; the parsing of the
  -- metadata ends within one more round than it has bytes; a request for a response or a stream gives
  -- the future or publisher of its method, or the one that carries the exception of the parsing, of
  -- the verifier, of the router or of the method; and a receiver with this handler handles the
  -- frames of any rounds from any state to the end, without an exception.
  pub routing_request_handler-Answers :
      AreQuiet base handlers
      → ((p : Payload)
          → Answers (routing.request_response p)
            × Answers (routing.request_stream p)
            × Answers (routing.request_channel p)
            × Answers (routing.request_fire_and_forget p)
            × Answers (routing.on_metadata_push p))
        × ((p : Payload) (s : State H A)
            → (r : State H A × Result ℕ) × (parse_and_route methods.response authentication_verifier
                  router
                  (enough p.metadata)
                  RequestType.request_response
                  p
                  s
                ≡ some r)
              × (routing.request_response p s ≡ answered objects.create_error_future r))
        × ((p : Payload) (s : State H A)
            → (r : State H A × Result ℕ) × (parse_and_route methods.stream authentication_verifier
                  router
                  (enough p.metadata)
                  RequestType.request_stream
                  p
                  s
                ≡ some r)
              × (routing.request_stream p s ≡ answered objects.error_stream r))
        × ((clock : ℕ → ℕ) (text : Error → Bytes) (rounds : List Round) (s : State H A)
            → (receiver_listen clock text routing handlers rounds s).1 ≡ ok tt)
  unfolding request_response request_stream routed
  routing_request_handler-Answers quiet = (
    λ p. (
      response-Answers methods objects authentication_verifier router base p,
      stream-Answers methods objects authentication_verifier router base p,
      channel-Answers methods objects authentication_verifier router base p,
      fire_and_forget-Answers methods objects authentication_verifier router base p,
      push-Answers methods objects authentication_verifier router base p,
    ),
    λ p s.
        let (r, e) =
          parse_and_route-Returns methods.response authentication_verifier router
            RequestType.request_response p.data_bytes p.metadata s in
        (r, e, rw (request_response, routed, e) (answered-recover objects.create_error_future r)),
    λ p s.
        let (r, e) =
          parse_and_route-Returns methods.stream authentication_verifier router
            RequestType.request_stream p.data_bytes p.metadata s in
        (r, e, rw (request_stream, routed, e) (answered-recover objects.error_stream r)),
    λ clock text rounds s.
        receiver_listen_survives clock text routing handlers (handler-AreQuiet quiet) rounds s,
  )
