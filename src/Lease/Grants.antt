-- ===== src/Lease/Grants.antt =====
-- How many requests a lease allows.
use Prim.Native.Nat.{min}
use rsocket_py.Prelude.{
  ℕ, suc, ◌+◌, ◌-◌, ◌≤◌, ◌<◌, ◌≡◌, inl, inr, false, List, [], ◌∷◌, arith, leb, ltb, ltb→lt,
  if◌then◌else◌, Bool-cases, length, All,
}
use rsocket_py.Lease.{DefinedLease, is_defined_request_allowed, new_defined_lease}

-- The number of requests, at the given times, that are allowed.
unfoldable pub granted : List ℕ → DefinedLease → ℕ
granted [] l = 0
granted (now ∷ times) l =
    let answer = is_defined_request_allowed now l in
    let rest = granted times answer.0 in if answer.1 then suc rest else rest

ltb-false : (a b : ℕ) → ltb a b ≡ false → b ≤ a
ltb-false a b h = ground arith

lt→leb : (a b : ℕ) → b < a → leb a b ≡ false
lt→leb a b h = ground arith

granted_bound :
    (times : List ℕ) (l : DefinedLease)
    → granted times l ≤ l.maximum_request_count - l.request_counter
unfolding granted is_defined_request_allowed
granted_bound [] l = omega arith
granted_bound (now ∷ times) l =
    elim (Bool-cases (leb (l.lease_created_at + l.maximum_lease_time) now)) [
      | inl late ↦ rw late (granted_bound times l)
      | inr early ↦
          let rest = granted_bound times (record l { request_counter = l.request_counter + 1 }) in
          elim (Bool-cases (ltb l.maximum_request_count (l.request_counter + 1))) [
            | inl used ↦ rw (early, used) (omega (arith, rest))
            | inr left ↦ rw (early, left) (omega (arith, rest, ltb-false _ _ left))
          ]
    ]

granted_in_time :
    (times : List ℕ) (l : DefinedLease)
    → All (λ now. now < l.lease_created_at + l.maximum_lease_time) times
    → granted times l ≡ min (length times) (l.maximum_request_count - l.request_counter)
unfolding granted is_defined_request_allowed
granted_in_time [] l h = omega arith
granted_in_time (now ∷ times) l (early, h) =
    let late : leb (l.lease_created_at + l.maximum_lease_time) now ≡ false = lt→leb _ _ early in
    let rest = granted_in_time times (record l { request_counter = l.request_counter + 1 }) h in
    elim (Bool-cases (ltb l.maximum_request_count (l.request_counter + 1))) [
      | inl used ↦ rw (late, used) (omega (arith, rest, ltb→lt _ _ used))
      | inr left ↦ rw (late, left) (omega (arith, rest, ltb-false _ _ left))
    ]

-- A lease with its counter at zero, asked at any times, allows no more requests than its maximum,
-- and if all times are before its expiry, it allows as many as there are, up to the maximum.
pub granted_lem :
    (times : List ℕ) (created count time : ℕ)
    → (granted times (new_defined_lease created count time) ≤ count)
      × (All (λ now. now < created + time) times
          → granted times (new_defined_lease created count time) ≡ min (length times) count)
granted_lem times created count time = (
  omega (arith, granted_bound times (new_defined_lease created count time)),
  λ h. omega (arith, granted_in_time times (new_defined_lease created count time) h),
)
