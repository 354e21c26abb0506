-- ===== src/StreamFromGenerator.antt =====
-- rsocket/streams/stream_from_generator.py. A generator is the list of what it yields, with the
-- exception that it ends in if it raises. Its two tasks run between the awaits of their code: an
-- event is such a run, or a call from outside. `on_complete` and `on_cancel` are not modelled.
pub mod Given
pub mod Alive
pub mod Over
pub mod Kept
pub mod Credit
use rsocket_py.Prelude.{
  ℕ, zero, suc, ◌+◌, Bool, true, false, Option, none, some, List, [], ◌∷◌, ◌++◌, Error, Result, ok,
  err,
}
use rsocket_py.FrameBuilders.{Payload}

-- A payload with `is_complete`
abbrev pub Item : Type 0
Item = Option Payload × Bool

-- What the subscriber is told.
pub data Told : Type 0 where
  on_next : Option Payload → Bool → Told
  on_complete : Told
  on_error : Error → Told

-- `_n_feeder`: no task, a task that has not begun, one that waits for a number, one in the loop with
-- so many values left, one that is done.
pub data NFeeder : Type 0 where
  absent created waiting : NFeeder
  generating : ℕ → NFeeder
  returned : NFeeder

-- `_payload_feeder`: not begun, waiting for an item, asleep behind an item, cancelled, done.
pub data PayloadFeeder : Type 0 where
  begun_not getting : PayloadFeeder
  sleeping : Bool → PayloadFeeder
  cancelled ended : PayloadFeeder

pub record StreamFromGenerator : Type 0 where
  pub generator : List (Result Item)
  pub iteration : List (Result Item)
  pub queue : List Item
  pub request_n_queue : List ℕ
  pub n_feeder : NFeeder
  pub payload_feeder : PayloadFeeder
  pub told : List Told

-- A stream that was just subscribed to.
abbrev pub subscribed : List (Result Item) → StreamFromGenerator
subscribed generator = record {
  generator = generator;
  iteration = [];
  queue = [];
  request_n_queue = [];
  n_feeder = absent;
  payload_feeder = begun_not;
  told = [];
}

abbrev pub n_feeder_created : NFeeder → NFeeder
n_feeder_created absent = created
n_feeder_created f = f

abbrev pub request : ℕ → StreamFromGenerator → StreamFromGenerator
request n s = record s {
  n_feeder = n_feeder_created s.n_feeder;
  request_n_queue = s.request_n_queue ++ (n ∷ []);
}

-- A task that has not begun never enters its `try`.
abbrev pub payload_feeder_cancelled : PayloadFeeder → PayloadFeeder
payload_feeder_cancelled begun_not = ended
payload_feeder_cancelled ended = ended
payload_feeder_cancelled f = cancelled

abbrev pub cancel_feeders : StreamFromGenerator → StreamFromGenerator
cancel_feeders s = record s {
  n_feeder = absent;
  payload_feeder = payload_feeder_cancelled s.payload_feeder;
}

-- `cancel`, which closes the generator
abbrev pub cancel : StreamFromGenerator → StreamFromGenerator
cancel s = record (cancel_feeders s) { iteration = [] }

abbrev pub empty_payload : Payload
empty_payload = record { data_bytes = none; metadata = none }

-- An item that was generated.
abbrev pub queued : ℕ → Item → StreamFromGenerator → StreamFromGenerator
queued k (payload, true) s = record s {
  queue = s.queue ++ ((payload, true) ∷ []);
  n_feeder = returned;
}
queued k (payload, false) s = record s {
  queue = s.queue ++ ((payload, false) ∷ []);
  n_feeder = generating k;
}

-- A round of `_generate_next_n` with `k` rounds behind it, and the end of an exception in
-- `queue_next_n`.
abbrev pub generate_next : ℕ → List (Result Item) → StreamFromGenerator → StreamFromGenerator
generate_next k [] s = record s {
  queue = s.queue ++ ((some empty_payload, true) ∷ []);
  n_feeder = returned;
}
generate_next k (err e ∷ rest) s =
    cancel_feeders (record s { iteration = []; told = s.told ++ (on_error e ∷ []) })
generate_next k (ok item ∷ rest) s = queued k item (record s { iteration = rest })

abbrev pub next_n : List ℕ → StreamFromGenerator → StreamFromGenerator
next_n [] s = s
next_n (n ∷ ns) s = record s { request_n_queue = ns; n_feeder = generating n }

-- `queue_next_n`
abbrev pub queue_next_n : NFeeder → StreamFromGenerator → StreamFromGenerator
queue_next_n absent s = s
queue_next_n created s = record s { iteration = s.generator; n_feeder = waiting }
queue_next_n waiting s = next_n s.request_n_queue s
queue_next_n (generating zero) s = record s { n_feeder = waiting }
queue_next_n (generating (suc k)) s = generate_next k s.iteration s
queue_next_n returned s = s

abbrev pub send_to_subscriber : Item → Told
send_to_subscriber (none, true) = on_complete
send_to_subscriber (payload, is_complete) = on_next payload is_complete

abbrev pub sent : List Item → StreamFromGenerator → StreamFromGenerator
sent [] s = s
sent (item ∷ items) s = record s {
  queue = items;
  payload_feeder = sleeping item.1;
  told = s.told ++ (send_to_subscriber item ∷ []);
}

-- `feed_subscriber`, at its end with its `finally`
abbrev pub feed_subscriber : PayloadFeeder → StreamFromGenerator → StreamFromGenerator
feed_subscriber begun_not s = record s { payload_feeder = getting }
feed_subscriber getting s = sent s.queue s
feed_subscriber (sleeping true) s = record s { payload_feeder = ended; n_feeder = absent }
feed_subscriber (sleeping false) s = record s { payload_feeder = getting }
feed_subscriber cancelled s = record s { payload_feeder = ended; n_feeder = absent }
feed_subscriber ended s = s

pub data Event : Type 0 where
  requests : ℕ → Event
  cancels : Event
  n_feeder_runs payload_feeder_runs : Event

unfoldable pub step : Event → StreamFromGenerator → StreamFromGenerator
step (requests n) s = request n s
step cancels s = cancel s
step n_feeder_runs s = queue_next_n s.n_feeder s
step payload_feeder_runs s = feed_subscriber s.payload_feeder s

unfoldable pub after_events : List Event → StreamFromGenerator → StreamFromGenerator
after_events [] s = s
after_events (event ∷ events) s = after_events events (step event s)
