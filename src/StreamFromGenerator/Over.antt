-- ===== src/StreamFromGenerator/Over.antt =====
-- The runs behind the end of the payload feeder, and all events.
use rsocket_py.Prelude.{
  ℕ, zero, suc, ◌+◌, ◌≡◌, refl, true, false, List, [], ◌∷◌, ◌++◌, arith, Result, ok, err,
}
use rsocket_py.StreamFromGenerator.{
  Item, Told, NFeeder, absent, created, waiting, generating, returned, PayloadFeeder, cancelled,
  ended, StreamFromGenerator, n_feeder_created, generate_next, next_n, queue_next_n,
  feed_subscriber, Event, requests, cancels, n_feeder_runs, payload_feeder_runs, step,
}
use rsocket_py.StreamFromGenerator.Given.{
  total-snoc, given-error, is_live, Live, Given, Inv, live, over, to_Given, cancelled_not_live,
}
use rsocket_py.StreamFromGenerator.Alive.{queue_next_n-Inv, feed_subscriber-Inv}

-- Behind the end of the payload feeder nothing more is given.
pub generate_next-over :
    (n k : ℕ) (iteration : List (Result Item)) (s : StreamFromGenerator)
    → is_live s.payload_feeder ≡ false
    → Given s.generator n s.told
    → Inv n (generate_next k iteration s)
generate_next-over n k [] s d g = over d g
generate_next-over n k (err e ∷ rest) s d g = over (cancelled_not_live s.payload_feeder) (record {
  rest = g.rest;
  order = rw (given-error s.told e) g.order;
  credit = rw (given-error s.told e) g.credit;
})
generate_next-over n k (ok (payload, true) ∷ rest) s d g = over d g
generate_next-over n k (ok (payload, false) ∷ rest) s d g = over d g

pub next_n-over :
    (n : ℕ) (ns : List ℕ) (s : StreamFromGenerator)
    → is_live s.payload_feeder ≡ false
    → Given s.generator n s.told
    → Inv n (next_n ns s)
next_n-over n [] s d g = over d g
next_n-over n (m ∷ ns) s d g = over d g

pub queue_next_n-over :
    (n : ℕ) (f : NFeeder) (s : StreamFromGenerator)
    → is_live s.payload_feeder ≡ false
    → Given s.generator n s.told
    → Inv n (queue_next_n f s)
queue_next_n-over n absent s d g = over d g
queue_next_n-over n created s d g = over d g
queue_next_n-over n waiting s d g = next_n-over n s.request_n_queue s d g
queue_next_n-over n (generating zero) s d g = over d g
queue_next_n-over n (generating (suc k)) s d g = generate_next-over n k s.iteration s d g
queue_next_n-over n returned s d g = over d g

pub feed_subscriber-over :
    (n : ℕ) (f : PayloadFeeder) (s : StreamFromGenerator)
    → s.payload_feeder ≡ f
    → is_live f ≡ false
    → Given s.generator n s.told
    → Inv n (feed_subscriber f s)
feed_subscriber-over n cancelled s e d g = over refl g
feed_subscriber-over n ended s e d g = over (rw e refl) g
feed_subscriber-over n f s e d g = cc d

pub request-Live :
    (n m : ℕ) (f : NFeeder) (s : StreamFromGenerator)
    → Live s.generator n f s.iteration s.queue s.request_n_queue s.told
    → Live s.generator
        (m + n)
        (n_feeder_created f)
        s.iteration
        s.queue
        (s.request_n_queue ++ (m ∷ []))
        s.told
request-Live n m absent s l = record {
  order = l.order;
  credit = omega (arith, l.credit, total-snoc s.request_n_queue m);
}
request-Live n m f s l = record {
  order = l.order;
  credit = omega (arith, l.credit, total-snoc s.request_n_queue m);
}

pub more-Given :
    {generator : List (Result Item)} {n : ℕ} {told : List Told} (m : ℕ)
    → Given generator n told
    → Given generator (m + n) told
more-Given m g = record { rest = g.rest; order = g.order; credit = omega (arith, g.credit) }

abbrev pub requested_after : Event → ℕ → ℕ
requested_after (requests m) n = m + n
requested_after event n = n

pub step-Inv :
    (event : Event) (n : ℕ) (s : StreamFromGenerator)
    → Inv n s
    → Inv (requested_after event n) (step event s)
unfolding step
step-Inv (requests m) n s (live l) = live (request-Live n m s.n_feeder s l)
step-Inv (requests m) n s (over d g) = over d (more-Given m g)
step-Inv cancels n s (live l) = over (cancelled_not_live s.payload_feeder) (to_Given l)
step-Inv cancels n s (over d g) = over (cancelled_not_live s.payload_feeder) g
step-Inv n_feeder_runs n s (live l) = queue_next_n-Inv n s.n_feeder s refl l
step-Inv n_feeder_runs n s (over d g) = queue_next_n-over n s.n_feeder s d g
step-Inv payload_feeder_runs n s (live l) = feed_subscriber-Inv n s.payload_feeder s refl l
step-Inv payload_feeder_runs n s (over d g) = feed_subscriber-over n s.payload_feeder s refl d g
