-- ===== src/StreamFromGenerator/Credit.antt =====
-- A stream from a generator and the credit of its subscriber.
use rsocket_py.Prelude.{
  ℕ, ◌+◌, ◌≤◌, ◌≡◌, refl, subst, List, [], ◌∷◌, ◌++◌, map, arith, Result, length,
}
use rsocket_py.StreamFromGenerator.{
  Item, Told, StreamFromGenerator, subscribed, send_to_subscriber, Event, requests, cancels,
  n_feeder_runs, payload_feeder_runs, step, after_events,
}
use rsocket_py.StreamFromGenerator.Given.{
  items_of, given, total, all_requested, Given, Inv, live, over, to_Given,
}
use rsocket_py.StreamFromGenerator.Over.{more-Given, requested_after, step-Inv}
use rsocket_py.StreamFromGenerator.Kept.{kept_generator}

Inv-Given : (n : ℕ) (s : StreamFromGenerator) → Inv n s → Given s.generator n s.told
Inv-Given n s (live l) = to_Given l
Inv-Given n s (over d g) = g

requested_first :
    (event : Event) (events : List Event) (n : ℕ)
    → all_requested events + requested_after event n ≡ all_requested (event ∷ events) + n
unfolding all_requested
requested_first (requests m) events n = omega arith
requested_first cancels events n = refl
requested_first n_feeder_runs events n = refl
requested_first payload_feeder_runs events n = refl

after_events-Inv :
    (events : List Event) (n : ℕ) (s : StreamFromGenerator)
    → Inv n s
    → Given s.generator (all_requested events + n) (after_events events s).told
unfolding after_events all_requested
after_events-Inv [] n s i = more-Given 0 (Inv-Given n s i)
after_events-Inv (event ∷ events) n s i =
    subst
      (λ (g : List (Result Item)).
        Given g (all_requested (event ∷ events) + n) (after_events events (step event s)).told)
      (kept_generator event s)
      (subst (λ (m : ℕ). Given (step event s).generator m (after_events events (step event s)).told)
        (requested_first event events n)
        (after_events-Inv events (requested_after event n) (step event s) (step-Inv event n s i)))

subscribed-Live : (generator : List (Result Item)) → Inv 0 (subscribed generator)
unfolding given total
subscribed-Live generator = live (record { order = refl; credit = omega arith })

-- Whatever the order of requests, cancels and runs of the two tasks, what the subscriber of a stream
-- from a generator is told, without an exception, is the beginning of what the generator gives to
-- its end, and never more than was requested.
pub after_events-all_requested :
    (generator : List (Result Item)) (events : List Event)
    → let told = given (after_events events (subscribed generator)).told in
      ((rest : List Told) × (told ++ rest ≡ map send_to_subscriber (items_of generator)))
      × (length told ≤ all_requested events)
after_events-all_requested generator events =
    let g = after_events-Inv events 0 (subscribed generator) (subscribed-Live generator) in
    ((g.rest, g.order), omega (arith, g.credit))
