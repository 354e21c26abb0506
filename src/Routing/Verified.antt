-- ===== src/Routing/Verified.antt =====
-- No method of the application is called before the authentication is verified.
use rsocket_py.Prelude.{
  ◌≡◌, refl, Option, none, some, List, Error, plain_exception, Result, ok, err,
}
use rsocket_py.Prelude.Actions.{Act, continue, ◌>>=◌, of_result}
use rsocket_py.Bytes.{Bytes}
use rsocket_py.FrameBuilders.{Payload}
use rsocket_py.Extensions.Composite.{AnyAuthentication, CompositeMetadataItem}
use rsocket_py.Routing.{
  RequestType, RequestRouter, require_route, find_authentication, verify_authentication, verified,
  route_info, route, route_items,
}

module _ {ℓ κ μ} {M : Type ℓ} {S : Type κ} {R : Type μ}
    (method_call : M → List CompositeMetadataItem → Payload → Act S R)
    (verifier : Bytes → AnyAuthentication → Act S (Unit {0})) (router : RequestRouter M) where
  -- How a request on the route `r` ends, from a state `s`: the exception for a missing
  -- authentication, with the state as it was; what the verifier raises, in the state that it leaves;
  -- and if it accepts, the call of the route's method, or the exception for an unknown route.
  pub data Outcome (t : RequestType) (payload : Payload) (items : List CompositeMetadataItem)
      (r : Bytes) (s : S) : S × Result R → Type (ℓ ⊔ κ ⊔ μ) where
    unauthenticated :
        find_authentication items ≡ none → Outcome t payload items r s (s, err plain_exception)
    refused :
        (a : AnyAuthentication) (e : Error) (s' : S)
        → find_authentication items ≡ some a
        → verifier r a s ≡ (s', err e)
        → Outcome t payload items r s (s', err e)
    unknown :
        (a : AnyAuthentication) (e : Error) (s' : S)
        → find_authentication items ≡ some a
        → verifier r a s ≡ (s', ok tt)
        → route_info t r router ≡ err e
        → Outcome t payload items r s (s', err e)
    called :
        (a : AnyAuthentication) (method : M) (s' : S)
        → find_authentication items ≡ some a
        → verifier r a s ≡ (s', ok tt)
        → route_info t r router ≡ ok method
        → Outcome t payload items r s (method_call method items payload s')

  -- What the verifier's answer leads to.
  answered :
      (t : RequestType) (payload : Payload) (items : List CompositeMetadataItem) (r : Bytes) (s : S)
      (a : AnyAuthentication) (answer : S × Result (Unit {0})) (info : Result M)
      → find_authentication items ≡ some a
      → verifier r a s ≡ answer
      → route_info t r router ≡ info
      → Outcome t payload items r s
          (continue answer (λ _. of_result info >>= λ method. method_call method items payload))
  answered t payload items r s a (s', err e) info there refuses known = refused a e s' there refuses
  answered t payload items r s a (s', ok u) (err e) there accepts known =
      unknown a e s' there accepts known
  answered t payload items r s a (s', ok u) (ok method) there accepts known =
      called a method s' there accepts known

  -- With a verifier, a request that has a route ends in one of the ways of `Outcome`: the method of
  -- the route is called only after the verifier has accepted the first authentication of the
  -- metadata.
  pub route_items-Outcome :
      (t : RequestType) (payload : Payload) (items : List CompositeMetadataItem) (r : Bytes) (s : S)
      → require_route items ≡ ok r
      → Outcome t payload items r s
          (route_items method_call (some verifier) router t payload items s)
  unfolding route_items verify_authentication route
  route_items-Outcome t payload items r s routed =
      rw routed (by_authentication (find_authentication items) refl)
    where
      by_authentication :
          (o : Option AnyAuthentication)
          → find_authentication items ≡ o
          → Outcome t payload items r s (
              continue
                (verified method_call (some verifier) router o r verifier s)
                (λ _. route method_call (some verifier) router t r payload items))
      by_authentication none absent = unauthenticated absent
      by_authentication (some a) there =
          answered t payload items r s a (verifier r a s) (route_info t r router) there refl refl
