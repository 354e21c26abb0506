-- ===== src/Connection/Sender/RoundRobin.antt =====
-- Round robin over queued lists, each with a key: what the sender's loop is an implementation of.
use rsocket_py.Prelude.{
  ℕ, zero, suc, ◌+◌, ◌≤◌, ◌≡◌, refl, sym, ap, ◌∙◌, inl, inr, false, List, [], ◌∷◌, ◌++◌,
  append_assoc, append-nil, arith, All, length, ◌==◌, ==_iff, if◌then◌else◌, Bool-cases, cons_if,
}

pub swapped : (k j : ℕ) → (j == k) ≡ false → (k == j) ≡ false
swapped k j h = ground arith

module _ {ℓ} {B : Type ℓ} where
  -- The queue after the first list's turn.
  abbrev pub back : ℕ → List B → List (ℕ × B × List B) → List (ℕ × B × List B)
  back k [] queue = queue
  back k (x ∷ xs) queue = queue ++ ((k, x, xs) ∷ [])

  -- Each turn takes the first element of the first list, which goes behind the others unless it is
  -- used up.
  unfoldable pub round_robin : ℕ → List (ℕ × B × List B) → List (ℕ × B × List B) × List (ℕ × B)
  round_robin zero queue = (queue, [])
  round_robin (suc turns) [] = ([], [])
  round_robin (suc turns) ((k, x, xs) ∷ queue) =
      let rest = round_robin turns (back k xs queue) in (rest.0, (k, x) ∷ rest.1)

  -- What was taken under a key, in order.
  abbrev pub taken_of : ℕ → List (ℕ × B) → List B
  taken_of i [] = []
  taken_of i ((k, x) ∷ xs) = cons_if (k == i) x (taken_of i xs)

  -- What the queue has under a key, list by list.
  abbrev pub queued_of : ℕ → List (ℕ × B × List B) → List B
  queued_of i [] = []
  queued_of i ((k, x, xs) ∷ queue) = (if k == i then x ∷ xs else []) ++ queued_of i queue

  abbrev pub total : List (ℕ × B × List B) → ℕ
  total [] = 0
  total ((k, x, xs) ∷ queue) = suc (length xs) + total queue

  abbrev pub IsAbsent : ℕ → List (ℕ × B × List B) → Type 0
  IsAbsent i queue = All (λ (entry : ℕ × B × List B). (entry.0 == i) ≡ false) queue

  -- No two lists with one key.
  abbrev pub Distinct : List (ℕ × B × List B) → Type 0
  Distinct [] = Unit
  Distinct ((k, x, xs) ∷ queue) = IsAbsent k queue × Distinct queue

  pub queued_of_absent :
      (i : ℕ) (queue : List (ℕ × B × List B)) → IsAbsent i queue → queued_of i queue ≡ []
  queued_of_absent i [] h = refl
  queued_of_absent i ((k, x, xs) ∷ queue) (e, h) = rw (e, queued_of_absent i queue h) refl

  total-append : (q r : List (ℕ × B × List B)) → total (q ++ r) ≡ total q + total r
  total-append [] r = omega arith
  total-append ((k, x, xs) ∷ q) r = omega (arith, total-append q r)

  queued_of-append :
      (i : ℕ) (q r : List (ℕ × B × List B)) → queued_of i (q ++ r) ≡ queued_of i q ++ queued_of i r
  queued_of-append i [] r = refl
  queued_of-append i ((k, x, xs) ∷ q) r =
      ap (λ (l : List B). (if k == i then x ∷ xs else []) ++ l) (queued_of-append i q r)
      ∙ sym (append_assoc (if k == i then x ∷ xs else []) (queued_of i q) (queued_of i r))

  total-back :
      (k : ℕ) (xs : List B) (queue : List (ℕ × B × List B))
      → total (back k xs queue) ≡ length xs + total queue
  total-back k [] queue = omega arith
  total-back k (x ∷ xs) queue = omega (arith, total-append queue ((k, x, xs) ∷ []))

  IsAbsent-snoc :
      (i k : ℕ) (x : B) (xs : List B) (queue : List (ℕ × B × List B))
      → IsAbsent i queue
      → (k == i) ≡ false
      → IsAbsent i (queue ++ ((k, x, xs) ∷ []))
  IsAbsent-snoc i k x xs [] h e = (e, tt)
  IsAbsent-snoc i k x xs ((j, y, ys) ∷ queue) (e', h) e = (e', IsAbsent-snoc i k x xs queue h e)

  Distinct-snoc :
      (k : ℕ) (x : B) (xs : List B) (queue : List (ℕ × B × List B))
      → Distinct queue
      → IsAbsent k queue
      → Distinct (queue ++ ((k, x, xs) ∷ []))
  Distinct-snoc k x xs [] d h = (tt, tt)
  Distinct-snoc k x xs ((j, y, ys) ∷ queue) (a, d) (e, h) =
      (IsAbsent-snoc j k x xs queue a (swapped k j e), Distinct-snoc k x xs queue d h)

  Distinct-back :
      (k : ℕ) (xs : List B) (queue : List (ℕ × B × List B))
      → Distinct queue
      → IsAbsent k queue
      → Distinct (back k xs queue)
  Distinct-back k [] queue d h = d
  Distinct-back k (x ∷ xs) queue d h = Distinct-snoc k x xs queue d h

  -- A turn leaves the rest of the list under its key, and the other keys as they were.
  queued_of-back :
      (i k : ℕ) (xs : List B) (queue : List (ℕ × B × List B))
      → IsAbsent k queue
      → queued_of i (back k xs queue) ≡ (if k == i then xs else []) ++ queued_of i queue
  queued_of-back i k [] queue h = elim (Bool-cases (k == i)) [
    | inl e ↦ rw e refl
    | inr e ↦ rw e refl
  ]
  queued_of-back i k (x ∷ xs) queue h =
      queued_of-append i queue ((k, x, xs) ∷ []) ∙ (elim (Bool-cases (k == i)) [
        | inl e ↦
            rw
              (
                e,
                ap (λ (j : ℕ). queued_of j queue) (sym ((==_iff k i).0 e)),
                queued_of_absent k queue h,
              )
              refl
        | inr e ↦ rw (e, append-nil (queued_of i queue)) refl
      ])

  -- Within as many turns as the queue has elements, a round robin over lists with distinct keys
  -- empties the queue, and what it has taken under each key is the list of the key, in order.
  pub round_robin_lem :
      (turns : ℕ) (queue : List (ℕ × B × List B))
      → total queue ≤ turns
      → Distinct queue
      → ((round_robin turns queue).0 ≡ [])
        × ((i : ℕ) → taken_of i (round_robin turns queue).1 ≡ queued_of i queue)
  unfolding round_robin
  round_robin_lem zero [] h d = (refl, λ i. refl)
  round_robin_lem zero ((k, x, xs) ∷ queue) h d = absurd (omega arith)
  round_robin_lem (suc turns) [] h d = (refl, λ i. refl)
  round_robin_lem (suc turns) ((k, x, xs) ∷ queue) h (absent, d) =
      let (emptied, in_order) =
        round_robin_lem turns (back k xs queue) (omega (arith, total-back k xs queue))
          (Distinct-back k xs queue d absent) in
      (
        emptied,
        λ i.
            ap (cons_if (k == i) x) (in_order i ∙ queued_of-back i k xs queue absent)
            ∙ elim (Bool-cases (k == i)) [ inl e ↦ rw e refl | inr e ↦ rw e refl ],
      )
