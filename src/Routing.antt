-- ===== src/Routing.antt =====
-- rsocket/routing: request_router.py and routing_request_handler.py. A method is an object of the
-- application; calling it, with the arguments that its signature asks for, is an action. A route is
-- the bytes of its text.
pub mod Registered
pub mod Verified
pub mod Requested
pub mod Handler
use rsocket_py.Prelude.{
  ℕ, Bool, true, false, Option, none, some, List, [], ◌∷◌, ErrorCode, Error, Result, ok, err,
  empty_route, unknown_route, key_error, index_error, type_error, unicode_decode_error,
  plain_exception, if◌then◌else◌,
}
use rsocket_py.Prelude.Actions.{Act, continue, ◌>>=◌, ◌>>◌, return, raise, of_result, recover}
use rsocket_py.Bytes.{Bytes}
use rsocket_py.Bytes.Utf8.{is_utf8}
use rsocket_py.FrameBuilders.{Payload}
use rsocket_py.Extensions.WellKnown.{same_bytes}
use rsocket_py.Extensions.Composite.{
  AnyAuthentication, Content, plain, routing, stream_data_mimetype, stream_data_mimetypes,
  authentication, CompositeMetadataItem, parse_items,
}

-- The frame types that `_route_map_by_frame_type` has.
pub data RequestType : Type 0 where
  request_response request_stream request_channel request_fnf metadata_push : RequestType

abbrev pub is_type : RequestType → RequestType → Bool
is_type request_response request_response = true
is_type request_stream request_stream = true
is_type request_channel request_channel = true
is_type request_fnf request_fnf = true
is_type metadata_push metadata_push = true
is_type t u = false

-- A dictionary of routes.
abbrev pub Routes {ℓ} : Type ℓ → Type ℓ
Routes M = List (Bytes × M)

-- For each frame type, the routes, and the method for unknown routes.
pub record RequestRouter {ℓ} (M : Type ℓ) : Type ℓ where
  pub routes : RequestType → Routes M
  pub unknown : RequestType → Option M

abbrev pub request_router {ℓ} : {M : Type ℓ} → RequestRouter M
request_router = record { routes = λ t. []; unknown = λ t. none }

module _ {ℓ} {M : Type ℓ} where
  unfoldable pub find_route : Bytes → Routes M → Option M
  find_route route [] = none
  find_route route ((r, method) ∷ routes) =
      if same_bytes r route then some method else find_route route routes

  -- The decorator of `decorator_factory`. `safe_len(route) == 0` is an empty route.
  abbrev added : Option M → Bytes → M → Routes M → Result (Routes M)
  added (some there) route method routes = err key_error
  added none route method routes = ok ((route, method) ∷ routes)

  unfoldable pub decorator : Bytes → M → Routes M → Result (Routes M)
  decorator [] method routes = err empty_route
  decorator (x ∷ route) method routes =
      added (find_route (x ∷ route) routes) (x ∷ route) method routes

  abbrev with_routes : RequestType → RequestRouter M → Result (Routes M) → Result (RequestRouter M)
  with_routes t router (ok rs) =
      ok (record router { routes = λ u. if is_type u t then rs else router.routes u })
  with_routes t router (err e) = err e

  -- The decorators `response`, `stream`, `channel`, `fire_and_forget` and `metadata_push`, and those
  -- for unknown routes.
  unfoldable pub register_route :
      RequestType → Bytes → M → RequestRouter M → Result (RequestRouter M)
  register_route t route method router =
      with_routes t router (decorator route method (router.routes t))

  unfoldable pub register_unknown : RequestType → M → RequestRouter M → RequestRouter M
  register_unknown t method router = record router {
    unknown = λ u. if is_type u t then some method else router.unknown u;
  }

  abbrev pub found : Option M → Option M → Bytes → Result M
  found (some method) unknown route = ok method
  found none (some method) route = ok method
  found none none route = err (unknown_route route)

  -- The method that `route` calls, or its exception.
  unfoldable pub route_info : RequestType → Bytes → RequestRouter M → Result M
  route_info t route router = found (find_route route (router.routes t)) (router.unknown t) route

-- `require_route` of rsocket/extensions/helpers.py
abbrev first_tag : List Bytes → Result Bytes
first_tag [] = err index_error
first_tag (tag ∷ tags) = if is_utf8 tag then ok tag else err unicode_decode_error

abbrev route_of : Content → Result Bytes → Result Bytes
route_of (routing tags) rest = first_tag tags
route_of content rest = rest

unfoldable pub require_route : List CompositeMetadataItem → Result Bytes
require_route [] = err plain_exception
require_route (item ∷ items) = route_of item.content (require_route items)

-- The first item with an authentication.
abbrev authentication_or : Content → Option AnyAuthentication → Option AnyAuthentication
authentication_or (authentication a) rest = some a
authentication_or content rest = rest

unfoldable pub find_authentication : List CompositeMetadataItem → Option AnyAuthentication
find_authentication [] = none
find_authentication (item ∷ items) = authentication_or item.content (find_authentication items)

-- `RoutingRequestHandler`, with the verifier if there is one.
module _ {ℓ κ μ} {M : Type ℓ} {S : Type κ} {R : Type μ}
    (method_call : M → List CompositeMetadataItem → Payload → Act S R)
    (authentication_verifier : Option (Bytes → AnyAuthentication → Act S (Unit {0})))
    (router : RequestRouter M) where
  abbrev pub verified :
      Option AnyAuthentication
      → Bytes
      → (Bytes → AnyAuthentication → Act S (Unit {0}))
      → Act S (Unit {0})
  verified none route verifier = raise plain_exception
  verified (some a) route verifier = verifier route a

  unfoldable pub verify_authentication : Bytes → List CompositeMetadataItem → Act S (Unit {0})
  verify_authentication route items = elim authentication_verifier [
    | none ↦ return tt
    | some verifier ↦ verified (find_authentication items) route verifier
  ]

  unfoldable pub route : RequestType → Bytes → Payload → List CompositeMetadataItem → Act S R
  route t r payload items = do
    method ← of_result (route_info t r router)
    method_call method items payload

  -- `_parse_and_route` behind the parsing of the metadata.
  unfoldable pub route_items : RequestType → Payload → List CompositeMetadataItem → Act S R
  route_items t payload items = do
    r ← of_result (require_route items)
    verify_authentication r items
    route t r payload items

  abbrev parsed_metadata : ℕ → Option Bytes → Option (Result (List CompositeMetadataItem))
  parsed_metadata rounds none = some (err type_error)
  parsed_metadata rounds (some metadata) = parse_items rounds metadata

  -- `none` is out of rounds.
  unfoldable pub parse_and_route : ℕ → RequestType → Payload → S → Option (S × Result R)
  parse_and_route rounds t payload s = elim (parsed_metadata rounds payload.metadata) [
    | none ↦ none
    | some r ↦ some ((of_result r >>= λ items. route_items t payload items) s)
  ]
