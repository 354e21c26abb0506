-- ===== src/Routing/Handler.antt =====
-- rsocket/routing/routing_request_handler.py: `RoutingRequestHandler` as the handler of a connection.
-- It inherits from a base handler; the methods of the application give numbers for their futures and
-- publishers, as the connection has them.
pub mod Answers
use rsocket_py.Prelude.{
  ℕ, suc, Option, none, some, List, Error, plain_exception, Result, ok, err, length, if◌then◌else◌,
}
use rsocket_py.Prelude.Actions.{Act, ◌>>=◌, ◌>>◌, return, raise, modify, try_except}
use rsocket_py.Bytes.{Bytes}
use rsocket_py.FrameBuilders.{Payload}
use rsocket_py.Extensions.Tables.{message_rsocket_composite_metadata}
use rsocket_py.Extensions.WellKnown.{same_bytes}
use rsocket_py.Extensions.Composite.{AnyAuthentication, CompositeMetadataItem}
use rsocket_py.Connection.Receiving.{RequestHandler}
use rsocket_py.Routing.{RequestType, RequestRouter, parse_and_route}

-- A call of a method by what its request wants, with the items of the metadata.
pub record Methods {ℓ κ} (M : Type ℓ) (S : Type κ) : Type (ℓ ⊔ κ) where
  pub response : M → List CompositeMetadataItem → Payload → Act S ℕ
  pub stream : M → List CompositeMetadataItem → Payload → Act S ℕ
  pub channel : M → List CompositeMetadataItem → Payload → Act S (Option ℕ × Option ℕ)
  pub nothing : M → List CompositeMetadataItem → Payload → Act S (Unit {0})

-- The objects that the handler makes, and its own slots `data_encoding` and `metadata_encoding`.
pub record Objects {ℓ} (S : Type ℓ) : Type ℓ where
  pub create_error_future : Error → S → S × ℕ
  pub error_stream : Error → S → S × ℕ
  pub null_subscriber : S → S × ℕ
  pub set_encodings : Bytes → Bytes → S → S

abbrev pub made {ℓ} : {S : Type ℓ} → (S → S × ℕ) → Act S ℕ
made make s = ((make s).0, ok (make s).1)

-- More rounds than the metadata has bytes.
abbrev pub enough : Option Bytes → ℕ
enough none = 1
enough (some metadata) = suc (length metadata)

module _ {ℓ κ} {M : Type ℓ} {S : Type κ}
    (authentication_verifier : Option (Bytes → AnyAuthentication → Act S (Unit {0})))
    (router : RequestRouter M) where
  -- `_parse_and_route`; a lack of rounds would be an exception too.
  unfoldable pub routed {μ} :
      {R : Type μ}
      → (M → List CompositeMetadataItem → Payload → Act S R)
      → RequestType
      → Payload
      → Act S R
  routed method_call t p s =
      elim (parse_and_route method_call authentication_verifier router (enough p.metadata) t p s) [
        | none ↦ (s, err plain_exception)
        | some result ↦ result
      ]

module _ {ℓ κ} {M : Type ℓ} {S : Type κ} (methods : Methods M S) (objects : Objects S)
    (authentication_verifier : Option (Bytes → AnyAuthentication → Act S (Unit {0})))
    (router : RequestRouter M) (base : RequestHandler S) where
  unfoldable pub on_setup : Bytes → Bytes → Payload → Act S (Unit {0})
  on_setup data_encoding metadata_encoding p =
      if same_bytes metadata_encoding message_rsocket_composite_metadata.1
      then (modify (objects.set_encodings data_encoding metadata_encoding)
          >> base.on_setup data_encoding metadata_encoding p)
      else raise plain_exception

  -- The methods of a request, each with its `except Exception`.
  unfoldable pub request_response : Payload → Act S ℕ
  request_response p =
      try_except
        (routed authentication_verifier router methods.response RequestType.request_response p)
        (λ e. made (objects.create_error_future e))

  unfoldable pub request_stream : Payload → Act S ℕ
  request_stream p =
      try_except (routed authentication_verifier router methods.stream RequestType.request_stream p)
        (λ e. made (objects.error_stream e))

  abbrev pub error_channel : Error → Act S (Option ℕ × Option ℕ)
  error_channel e = do
    publisher ← made (objects.error_stream e)
    subscriber ← made objects.null_subscriber
    return (some publisher, some subscriber)

  unfoldable pub request_channel : Payload → Act S (Option ℕ × Option ℕ)
  request_channel p =
      try_except
        (routed authentication_verifier router methods.channel RequestType.request_channel p)
        error_channel

  unfoldable pub request_fire_and_forget : Payload → Act S (Unit {0})
  request_fire_and_forget p =
      try_except (routed authentication_verifier router methods.nothing RequestType.request_fnf p)
        (λ e. return tt)

  unfoldable pub on_metadata_push : Payload → Act S (Unit {0})
  on_metadata_push p =
      try_except (routed authentication_verifier router methods.nothing RequestType.metadata_push p)
        (λ e. return tt)

  -- What `RequestHandler` has besides is inherited.
  abbrev pub routing_request_handler : RequestHandler S
  routing_request_handler = record base {
    on_setup = on_setup;
    request_response = request_response;
    request_stream = request_stream;
    request_channel = request_channel;
    request_fire_and_forget = request_fire_and_forget;
    on_metadata_push = on_metadata_push;
  }
