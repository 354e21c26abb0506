-- ===== src/StreamFromGenerator/Alive.antt =====
-- The runs of the two tasks while the payload feeder lives.
use rsocket_py.Prelude.{
  ℕ, zero, suc, ◌+◌, ◌≤◌, ◌≡◌, refl, ap, ◌∙◌, true, false, some, List, [], ◌∷◌, ◌++◌, map,
  append_assoc, append-nil, arith, Result, ok, err, length, length-append,
}
use rsocket_py.StreamFromGenerator.{
  Item, Told, NFeeder, absent, created, waiting, generating, returned, PayloadFeeder, begun_not,
  getting, sleeping, cancelled, ended, StreamFromGenerator, empty_payload, queued, generate_next,
  next_n, queue_next_n, send_to_subscriber, sent, feed_subscriber,
}
use rsocket_py.StreamFromGenerator.Given.{
  ends_at, items_of, given, total, given-error, given-sent, to_come, Live, Inv, live, over,
  to_Given, cancelled_not_live,
}

-- A round that gave an item to the queue.
pub queued-Inv :
    (n k : ℕ) (item : Item) (rest : List (Result Item)) (s : StreamFromGenerator)
    → given s.told ++ map send_to_subscriber (s.queue ++ ends_at item (items_of rest))
      ≡ map send_to_subscriber (items_of s.generator)
    → length (given s.told) + (length s.queue + (suc k + total s.request_n_queue)) ≤ n
    → Inv n (queued k item (record s { iteration = rest }))
queued-Inv n k (payload, true) rest s order credit = live (record {
  order =
      ap (λ (l : List Item). given s.told ++ map send_to_subscriber l)
        (append-nil (s.queue ++ ((payload, true) ∷ [])))
      ∙ order;
  credit = omega (arith, credit, length-append s.queue ((payload, true) ∷ []));
})
queued-Inv n k (payload, false) rest s order credit = live (record {
  order =
      ap (λ (l : List Item). given s.told ++ map send_to_subscriber l)
        (append_assoc s.queue ((payload, false) ∷ []) (items_of rest))
      ∙ order;
  credit = omega (arith, credit, length-append s.queue ((payload, false) ∷ []));
})

pub generate_next-Inv :
    (n k : ℕ) (iteration : List (Result Item)) (s : StreamFromGenerator)
    → Live s.generator n (generating (suc k)) iteration s.queue s.request_n_queue s.told
    → Inv n (generate_next k iteration s)
unfolding items_of
generate_next-Inv n k [] s l = live (record {
  order =
      ap (λ (q : List Item). given s.told ++ map send_to_subscriber q)
        (append-nil (s.queue ++ ((some empty_payload, true) ∷ [])))
      ∙ l.order;
  credit = omega (arith, l.credit, length-append s.queue ((some empty_payload, true) ∷ []));
})
generate_next-Inv n k (err e ∷ rest) s l = over (cancelled_not_live s.payload_feeder) (record {
  rest = map send_to_subscriber (s.queue ++ []);
  order = rw (given-error s.told e) l.order;
  credit = rw (given-error s.told e) (omega (arith, l.credit));
})
generate_next-Inv n k (ok item ∷ rest) s l = queued-Inv n k item rest s l.order l.credit

pub next_n-Inv :
    (n : ℕ) (ns : List ℕ) (s : StreamFromGenerator)
    → s.request_n_queue ≡ ns
    → Live s.generator n waiting s.iteration s.queue ns s.told
    → s.n_feeder ≡ waiting
    → Inv n (next_n ns s)
unfolding total
next_n-Inv n [] s e l w = live (rw (e, w) l)
next_n-Inv n (m ∷ ns) s e l w = live (record { order = l.order; credit = omega (arith, l.credit) })

pub queue_next_n-Inv :
    (n : ℕ) (f : NFeeder) (s : StreamFromGenerator)
    → s.n_feeder ≡ f
    → Live s.generator n f s.iteration s.queue s.request_n_queue s.told
    → Inv n (queue_next_n f s)
queue_next_n-Inv n absent s e l = live (rw e l)
queue_next_n-Inv n created s e l = live (record { order = l.order; credit = l.credit })
queue_next_n-Inv n waiting s e l = next_n-Inv n s.request_n_queue s refl l e
queue_next_n-Inv n (generating zero) s e l = live (record { order = l.order; credit = l.credit })
queue_next_n-Inv n (generating (suc k)) s e l = generate_next-Inv n k s.iteration s l
queue_next_n-Inv n returned s e l = live (rw e l)

pub sent-Inv :
    (n : ℕ) (queue : List Item) (s : StreamFromGenerator)
    → s.queue ≡ queue
    → Live s.generator n s.n_feeder s.iteration queue s.request_n_queue s.told
    → Inv n (sent queue s)
sent-Inv n [] s e l = live (rw e l)
sent-Inv n (item ∷ items) s e l =
    let told = given-sent s.told item in
    live (record {
      order =
          ap
            (λ (g : List Told).
              g ++ map send_to_subscriber (items ++ to_come s.generator s.n_feeder s.iteration))
            told
          ∙ append_assoc (given s.told) (send_to_subscriber item ∷ [])
              (map send_to_subscriber (items ++ to_come s.generator s.n_feeder s.iteration))
          ∙ l.order;
      credit = omega (
        arith,
        l.credit,
        ap (λ (g : List Told). length g) told,
        length-append (given s.told) (send_to_subscriber item ∷ []),
      );
    })

pub feed_subscriber-Inv :
    (n : ℕ) (f : PayloadFeeder) (s : StreamFromGenerator)
    → s.payload_feeder ≡ f
    → Live s.generator n s.n_feeder s.iteration s.queue s.request_n_queue s.told
    → Inv n (feed_subscriber f s)
feed_subscriber-Inv n begun_not s e l = live l
feed_subscriber-Inv n getting s e l = sent-Inv n s.queue s refl l
feed_subscriber-Inv n (sleeping true) s e l = over refl (to_Given l)
feed_subscriber-Inv n (sleeping false) s e l = live l
feed_subscriber-Inv n cancelled s e l = over refl (to_Given l)
feed_subscriber-Inv n ended s e l = live l
