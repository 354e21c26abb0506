-- ===== src/StreamControl/Allocation.antt =====
-- The ids that `allocate_stream` gives.
use rsocket_py.Prelude.{
  ℕ, zero, suc, ◌+◌, ◌*◌, ◌%◌, ◌^◌, ◌≤◌, ◌<◌, bit_and, ◌≡◌, ◌≢◌, refl, ap, ◌∙◌, inl, inr, Bool,
  true, false, ◌||◌, Option, some, arith, Result, ok, err, stream_allocation_failure, ltb, ge→ltb,
  ◌==◌, ==_iff, Bool-cases,
}
use rsocket_py.Prelude.Bits.{bit_and_mask}
use rsocket_py.Frame.Codes.{connection_stream_id}
use rsocket_py.StreamControl.{
  StreamControl, max_stream_id, in_use, increment_stream_id, allocate_loop, allocate_stream,
}

ltb-false : (a b : ℕ) → ltb a b ≡ false → b ≤ a
ltb-false a b h = ground arith

second_false : (a b : Bool) → (a || b) ≡ false → b ≡ false
second_false true b e = cc
second_false false b e = e

second_absurd :
    (id : ℕ) (b : Bool)
    → id ≡ connection_stream_id
    → ((id == connection_stream_id) || b) ≡ false
    → ⊥
second_absurd id b e f = cc ((==_iff id 0).1 e, f)

module _ {ℓ} {H : Type ℓ} where
  -- The loop's condition: the id cannot be given.
  abbrev pub is_taken : ℕ → StreamControl H → Bool
  is_taken id s = (id == connection_stream_id) || in_use id s

  -- The id that is tried after `tries` steps from the current one.
  abbrev pub candidate : ℕ → StreamControl H → ℕ
  candidate tries s = (s.current_stream_id + 2 * tries) % 2 ^ 31

  abbrev pub at_id : ℕ → StreamControl H → StreamControl H
  at_id id s = record s { current_stream_id = id }

  -- What an allocated id is, and what else changes: nothing but the current id.
  pub record IsAllocated (s : StreamControl H) (run : Option (Result (StreamControl H × ℕ)))
      : Type ℓ where
    pub id : ℕ
    pub returns : run ≡ some (ok (at_id id s, id))
    pub free : in_use id s ≡ false
    pub not_connection : id ≢ connection_stream_id
    pub in_range : id ≤ max_stream_id
    pub same_parity : id % 2 ≡ s.current_stream_id % 2

  given :
      (s : StreamControl H)
      → s.current_stream_id ≤ max_stream_id
      → is_taken s.current_stream_id s ≡ false
      → IsAllocated s (some (ok (s, s.current_stream_id)))
  given s small e = record {
    id = s.current_stream_id;
    returns = refl;
    free = second_false _ _ e;
    not_connection = λ zero_id. absurd (second_absurd _ _ zero_id e);
    in_range = small;
    same_parity = refl;
  }

  next_id :
      (s : StreamControl H)
      → s.maximum_stream_id ≡ max_stream_id
      → (increment_stream_id s).current_stream_id ≡ (s.current_stream_id + 2) % 2 ^ 31
  unfolding increment_stream_id
  next_id s limit =
      ap (bit_and (s.current_stream_id + 2)) limit ∙ bit_and_mask 31 (s.current_stream_id + 2)

  -- One step further, with the same streams.
  stepped :
      (s : StreamControl H) (run : Option (Result (StreamControl H × ℕ)))
      → s.maximum_stream_id ≡ max_stream_id
      → IsAllocated (increment_stream_id s) run
      → IsAllocated s run
  unfolding increment_stream_id
  stepped s run limit a = record {
    id = a.id;
    returns = a.returns;
    free = a.free;
    not_connection = a.not_connection;
    in_range = a.in_range;
    same_parity = a.same_parity ∙ omega (arith, next_id s limit);
  }

  next_candidate :
      (tries : ℕ) (s : StreamControl H)
      → s.maximum_stream_id ≡ max_stream_id
      → candidate tries (increment_stream_id s) ≡ candidate (suc tries) s
  next_candidate tries s limit = omega (arith, next_id s limit)

  limit_kept :
      (s : StreamControl H)
      → s.maximum_stream_id ≡ max_stream_id
      → (increment_stream_id s).maximum_stream_id ≡ max_stream_id
  unfolding increment_stream_id
  limit_kept s limit = limit

  taken_unchanged :
      (id : ℕ) (s : StreamControl H) → is_taken id (increment_stream_id s) ≡ is_taken id s
  unfolding increment_stream_id
  taken_unchanged id s = refl

  loop-IsAllocated :
      (rounds tries attempt : ℕ) (s : StreamControl H)
      → s.maximum_stream_id ≡ max_stream_id
      → s.current_stream_id ≤ max_stream_id
      → is_taken (candidate tries s) s ≡ false
      → tries < rounds
      → 2 * (attempt + tries) ≤ max_stream_id + 1
      → IsAllocated s (allocate_loop rounds attempt s)
  unfolding allocate_loop
  loop-IsAllocated zero tries attempt s limit small free room few = absurd (omega arith)
  loop-IsAllocated (suc rounds) zero attempt s limit small free room few =
      let e : is_taken s.current_stream_id s ≡ false =
        ap (λ (id : ℕ). is_taken id s) (omega arith) ∙ free in
      rw e (given s small e)
  loop-IsAllocated (suc rounds) (suc tries) attempt s limit small free room few =
      elim (Bool-cases (is_taken s.current_stream_id s)) [
        | inr e ↦ rw e (given s small e)
        | inl e ↦
            let going : ltb s.maximum_stream_id (2 * attempt) ≡ false =
              ge→ltb _ _ (omega (arith, limit)) in
            let later : is_taken (candidate tries (increment_stream_id s)) (increment_stream_id s)
                ≡ false =
              taken_unchanged _ s
              ∙ ap (λ (id : ℕ). is_taken id s) (next_candidate tries s limit)
              ∙ free in
            rw (e, going)
              (stepped s _ limit (
                loop-IsAllocated rounds tries (attempt + 1) (increment_stream_id s)
                  (limit_kept s limit) (omega (arith, next_id s limit)) later (omega arith)
                  (omega arith)))
      ]

  -- If one of the ids of the current parity that the loop reaches is free, then `allocate_stream`
  -- returns within as many rounds: an id of that parity that is not zero, in range and not in use.
  pub allocate_stream-IsAllocated :
      (rounds tries : ℕ) (s : StreamControl H)
      → s.maximum_stream_id ≡ max_stream_id
      → s.current_stream_id ≤ max_stream_id
      → is_taken (candidate tries s) s ≡ false
      → tries ≤ 2 ^ 30
      → tries < rounds
      → IsAllocated s (allocate_stream rounds s)
  unfolding allocate_stream
  allocate_stream-IsAllocated rounds tries s limit small free few room =
      loop-IsAllocated rounds tries 0 s limit small free room (omega arith)

  loop_fails :
      (rounds attempt : ℕ) (s : StreamControl H)
      → s.maximum_stream_id ≡ max_stream_id
      → s.current_stream_id ≤ max_stream_id
      → ((tries : ℕ) → attempt + tries ≤ 2 ^ 30 → is_taken (candidate tries s) s ≡ true)
      → attempt ≤ 2 ^ 30
      → 2 ^ 30 < rounds + attempt
      → allocate_loop rounds attempt s ≡ some (err stream_allocation_failure)
  unfolding allocate_loop
  loop_fails zero attempt s limit small taken few room = absurd (omega arith)
  loop_fails (suc rounds) attempt s limit small taken few room =
      let e : is_taken s.current_stream_id s ≡ true =
        ap (λ (id : ℕ). is_taken id s) (omega arith) ∙ taken 0 (omega arith) in
      elim (Bool-cases (ltb s.maximum_stream_id (2 * attempt))) [
        | inl stop ↦ rw (e, stop) refl
        | inr going ↦
            let more : attempt + 1 ≤ 2 ^ 30 = omega (arith, limit, ltb-false _ _ going) in
            let s' = increment_stream_id s in
            rw (e, going)
              (loop_fails rounds (attempt + 1) s' (limit_kept s limit)
                (omega (arith, next_id s limit))
                (λ tries h.
                  taken_unchanged _ s
                  ∙ ap (λ (id : ℕ). is_taken id s) (next_candidate tries s limit)
                  ∙ taken (suc tries) (omega arith))
                more (omega arith))
      ]

  -- If all ids of the current parity are taken, then `allocate_stream` raises the allocation
  -- failure; a little more than half of the ids as rounds are enough.
  pub allocate_stream_fails :
      (rounds : ℕ) (s : StreamControl H)
      → s.maximum_stream_id ≡ max_stream_id
      → s.current_stream_id ≤ max_stream_id
      → ((tries : ℕ) → tries ≤ 2 ^ 30 → is_taken (candidate tries s) s ≡ true)
      → 2 ^ 30 < rounds
      → allocate_stream rounds s ≡ some (err stream_allocation_failure)
  unfolding allocate_stream
  allocate_stream_fails rounds s limit small taken room =
      loop_fails rounds 0 s limit small (λ tries h. taken tries (omega arith)) (omega arith)
        (omega arith)
