-- ===== src/StreamFromGenerator/Kept.antt =====
-- No event changes the generator of a stream.
use rsocket_py.Prelude.{ℕ, zero, suc, ◌≡◌, refl, true, false, List, [], ◌∷◌, Result, ok, err}
use rsocket_py.StreamFromGenerator.{
  Item, NFeeder, absent, created, waiting, generating, returned, PayloadFeeder, begun_not, getting,
  sleeping, cancelled, ended, StreamFromGenerator, queued, generate_next, next_n, queue_next_n,
  sent, feed_subscriber, Event, requests, cancels, n_feeder_runs, payload_feeder_runs, step,
}

pub kept_generator_queued :
    (k : ℕ) (item : Item) (s : StreamFromGenerator) → (queued k item s).generator ≡ s.generator
kept_generator_queued k (payload, true) s = refl
kept_generator_queued k (payload, false) s = refl

pub kept_generator_generated :
    (k : ℕ) (iteration : List (Result Item)) (s : StreamFromGenerator)
    → (generate_next k iteration s).generator ≡ s.generator
kept_generator_generated k [] s = refl
kept_generator_generated k (err e ∷ rest) s = refl
kept_generator_generated k (ok item ∷ rest) s =
    kept_generator_queued k item (record s { iteration = rest })

pub kept_generator_next :
    (ns : List ℕ) (s : StreamFromGenerator) → (next_n ns s).generator ≡ s.generator
kept_generator_next [] s = refl
kept_generator_next (n ∷ ns) s = refl

pub kept_generator_n_feeder :
    (f : NFeeder) (s : StreamFromGenerator) → (queue_next_n f s).generator ≡ s.generator
kept_generator_n_feeder absent s = refl
kept_generator_n_feeder created s = refl
kept_generator_n_feeder waiting s = kept_generator_next s.request_n_queue s
kept_generator_n_feeder (generating zero) s = refl
kept_generator_n_feeder (generating (suc k)) s = kept_generator_generated k s.iteration s
kept_generator_n_feeder returned s = refl

pub kept_generator_sent :
    (queue : List Item) (s : StreamFromGenerator) → (sent queue s).generator ≡ s.generator
kept_generator_sent [] s = refl
kept_generator_sent (item ∷ items) s = refl

pub kept_generator_payload_feeder :
    (f : PayloadFeeder) (s : StreamFromGenerator) → (feed_subscriber f s).generator ≡ s.generator
kept_generator_payload_feeder begun_not s = refl
kept_generator_payload_feeder getting s = kept_generator_sent s.queue s
kept_generator_payload_feeder (sleeping true) s = refl
kept_generator_payload_feeder (sleeping false) s = refl
kept_generator_payload_feeder cancelled s = refl
kept_generator_payload_feeder ended s = refl

pub kept_generator :
    (event : Event) (s : StreamFromGenerator) → (step event s).generator ≡ s.generator
unfolding step
kept_generator (requests m) s = refl
kept_generator cancels s = refl
kept_generator n_feeder_runs s = kept_generator_n_feeder s.n_feeder s
kept_generator payload_feeder_runs s = kept_generator_payload_feeder s.payload_feeder s
