-- ===== src/Tests/Routes.antt =====
-- Routes and the verification of the authentication on small inputs.
use rsocket_py.Prelude.{
  ℕ, ◌≡◌, refl, false, ◌&&◌, none, some, List, [], ◌∷◌, plain_exception, key_error, ok, err,
  if◌then◌else◌,
}
use rsocket_py.Prelude.Actions.{Act}
use rsocket_py.Bytes.{Bytes}
use rsocket_py.FrameBuilders.{Payload}
use rsocket_py.Extensions.WellKnown.{named, same_bytes}
use rsocket_py.Extensions.Composite.{
  AnyAuthentication, simple_authentication, bearer_authentication, routing, authentication,
  CompositeMetadataItem,
}
use rsocket_py.Routing.{
  RequestType, request_response, is_type, RequestRouter, find_route, register_route, route_info,
  require_route, route_items,
}
use rsocket_py.Routing.Registered.{register_route-route_info}

-- A router with the method 8 for the route `b`.
abbrev pub router : RequestRouter ℕ
router = record {
  routes = λ t. if is_type t request_response then ((98 ∷ []), 8) ∷ [] else [];
  unknown = λ t. none;
}

no_route_yet : find_route (97 ∷ []) (router.routes request_response) ≡ none
unfolding find_route
no_route_yet = refl

register_route-route_info_example :
    (router' : RequestRouter ℕ) × (register_route request_response (97 ∷ []) 7 router ≡ ok router')
    × (route_info request_response (97 ∷ []) router' ≡ ok 7)
    × ((other : ℕ) → register_route request_response (97 ∷ []) other router' ≡ err key_error)
    × ((u : RequestType) (r : Bytes)
        → (is_type u request_response && same_bytes (97 ∷ []) r) ≡ false
        → route_info u r router' ≡ route_info u r router)
register_route-route_info_example =
    register_route-route_info request_response 97 [] 7 router no_route_yet

-- The state is the list of the methods that were called.
abbrev pub method_call : ℕ → List CompositeMetadataItem → Payload → Act (List ℕ) ℕ
method_call method items payload = λ s. (method ∷ s, ok method)

-- A bearer token is accepted, a user name is not.
abbrev pub verifier : Bytes → AnyAuthentication → Act (List ℕ) (Unit {0})
verifier r (bearer_authentication token) = λ s. (s, ok tt)
verifier r (simple_authentication a) = λ s. (s, err plain_exception)

abbrev payload : Payload
payload = record { data_bytes = some (1 ∷ []); metadata = none }

abbrev items : List CompositeMetadataItem
items =
    record { encoding = named (2 ∷ []); content = routing ((98 ∷ []) ∷ []) }
    ∷ record {
      encoding = named (1 ∷ []);
      content = authentication (bearer_authentication (5 ∷ []));
    }
    ∷ []

method_called :
    route_items method_call (some verifier) router request_response payload items []
    ≡ (8 ∷ [], ok 8)
unfolding route_items require_route rsocket_py.Bytes.Utf8.is_utf8
    rsocket_py.Bytes.Utf8.continues_utf8 rsocket_py.Routing.verify_authentication
    rsocket_py.Routing.find_authentication rsocket_py.Routing.route route_info find_route
method_called = refl
