-- ===== src/LoadBalancer.antt =====
-- rsocket/load_balancer/round_robin.py. The clients of the pool are objects of any type.
use native.Mathlib.Nat.{mod-lt, mod-add-mod, mod-eq_of_lt}
use rsocket_py.Prelude.{
  ℕ, zero, suc, ◌+◌, ◌%◌, ◌<◌, ◌≡◌, refl, sym, ap, ◌∙◌, Option, none, some, List, [], ◌∷◌, arith,
  length, get_elem?, index_error, Result, ok, err,
}

pub record LoadBalancerRoundRobin {ℓ} (C : Type ℓ) : Type ℓ where
  pub pool : List C
  pub current_index : ℕ

module _ {ℓ} {C : Type ℓ} where
  abbrev picked : Option C → LoadBalancerRoundRobin C → Result (LoadBalancerRoundRobin C × C)
  picked none s = err index_error
  picked (some client) s =
      ok (record s { current_index = (s.current_index + 1) % length s.pool }, client)

  -- The first line of the code raises on an empty pool, so the second one does not divide by zero.
  unfoldable pub select : LoadBalancerRoundRobin C → Result (LoadBalancerRoundRobin C × C)
  select s = picked (get_elem? s.pool s.current_index) s

  -- The clients that some selections give, one after the other.
  abbrev more : Result (LoadBalancerRoundRobin C × C) → (LoadBalancerRoundRobin C → List C) → List C
  more (ok (s, client)) rest = client ∷ rest s
  more (err e) rest = []

  unfoldable pub select_all : ℕ → LoadBalancerRoundRobin C → List C
  select_all zero s = []
  select_all (suc n) s = more (select s) (select_all n)

  in_range : (xs : List C) (i : ℕ) → i < length xs → (x : C) × (get_elem? xs i ≡ some x)
  in_range [] i h = absurd (omega arith)
  in_range (x ∷ xs) zero h = (x, refl)
  in_range (x ∷ xs) (suc i) h = in_range xs i (omega arith)

  -- Every client of the pool in turn: selection `k` from a pool that is not empty, with an index in
  -- range, is the client `k` places behind the index, around the pool.
  pub select_all_in_turn :
      (n k : ℕ) (s : LoadBalancerRoundRobin C)
      → s.current_index < length s.pool
      → k < n
      → get_elem? (select_all n s) k ≡ get_elem? s.pool ((s.current_index + k) % length s.pool)
  unfolding select select_all
  select_all_in_turn zero k s h le = absurd (omega arith)
  select_all_in_turn (suc n) zero s h le =
      let (client, e) = in_range s.pool s.current_index h in
      rw e (
        sym (
          ap (λ (j : ℕ). get_elem? s.pool (j % length s.pool)) (omega arith)
          ∙ ap (get_elem? s.pool) (mod-eq_of_lt h)
          ∙ e))
  select_all_in_turn (suc n) (suc k) s h le =
      let (client, e) = in_range s.pool s.current_index h in
      rw e (
        select_all_in_turn n k (record s { current_index = (s.current_index + 1) % length s.pool })
          (mod-lt (s.current_index + 1) (omega arith)) (omega arith)
        ∙ ap (get_elem? s.pool) (
            mod-add-mod (s.current_index + 1) (length s.pool) k
            ∙ ap (λ (j : ℕ). j % length s.pool) (omega arith)))
