-- ===== src/Routing/Registered.antt =====
-- What a route that is registered leads to.
use rsocket_py.Prelude.{
  ℕ, ◌≡◌, refl, sym, ap, ◌∙◌, inl, inr, Bool, true, false, ◌&&◌, Option, none, [], ◌∷◌, ok, err,
  key_error, if◌then◌else◌, Bool-cases, ==_iff,
}
use rsocket_py.Bytes.{Bytes}
use rsocket_py.Extensions.WellKnown.{same_bytes}
use rsocket_py.Routing.{
  RequestType, request_response, request_stream, request_channel, request_fnf, metadata_push,
  is_type, RequestRouter, find_route, found, decorator, register_route, route_info,
}

same_itself : (b : Bytes) → same_bytes b b ≡ true
same_itself [] = refl
same_itself (x ∷ b) = rw ((==_iff x x).1 refl) (same_itself b)

type_itself : (t : RequestType) → is_type t t ≡ true
type_itself request_response = refl
type_itself request_stream = refl
type_itself request_channel = refl
type_itself request_fnf = refl
type_itself metadata_push = refl

type_same : (t u : RequestType) → is_type t u ≡ true → t ≡ u
type_same request_response request_response e = refl
type_same request_stream request_stream e = refl
type_same request_channel request_channel e = refl
type_same request_fnf request_fnf e = refl
type_same metadata_push metadata_push e = refl
type_same t u e = cc e

module _ {ℓ} {M : Type ℓ} where
  -- A new route that is not empty is registered for its type: it leads to its method and is refused
  -- a second time, and every other route, and every route of another type, leads to what it did.
  pub register_route-route_info :
      (t : RequestType) (x : ℕ) (path : Bytes) (method : M) (router : RequestRouter M)
      → find_route (x ∷ path) (router.routes t) ≡ none
      → (router' : RequestRouter M) × (register_route t (x ∷ path) method router ≡ ok router')
        × (route_info t (x ∷ path) router' ≡ ok method)
        × ((other : M) → register_route t (x ∷ path) other router' ≡ err key_error)
        × ((u : RequestType) (r : Bytes)
            → (is_type u t && same_bytes (x ∷ path) r) ≡ false
            → route_info u r router' ≡ route_info u r router)
  unfolding register_route decorator route_info find_route
  register_route-route_info t x path method router free = (
    record router {
      routes = λ u. if is_type u t then ((x ∷ path), method) ∷ router.routes t else router.routes u;
    },
    rw free refl,
    rw (type_itself t, same_itself (x ∷ path)) refl,
    λ other. rw (type_itself t, same_itself (x ∷ path)) refl,
    λ u r away. ap (λ (o : Option M). found o (router.unknown u) r) (kept_routes u r away),
  )
    where
      kept_routes :
          (u : RequestType) (r : Bytes)
          → (is_type u t && same_bytes (x ∷ path) r) ≡ false
          → find_route r
              (if is_type u t then ((x ∷ path), method) ∷ router.routes t else router.routes u)
            ≡ find_route r (router.routes u)
      kept_routes u r away = elim (Bool-cases (is_type u t)) [
        | inl e ↦
            let other : same_bytes (x ∷ path) r ≡ false =
              ap (λ (b : Bool). b && same_bytes (x ∷ path) r) (sym e) ∙ away in
            rw (e, other)
              (ap (λ (v : RequestType). find_route r (router.routes v)) (sym (type_same u t e)))
        | inr e ↦ rw e refl
      ]
