-- ===== src/Tests/Sources.antt =====
-- A stream from a generator on small inputs.
use rsocket_py.Prelude.{
  ◌≡◌, ◌≤◌, refl, true, false, none, some, List, [], ◌∷◌, ◌++◌, map, Result, ok, length,
}
use rsocket_py.FrameBuilders.{Payload}
use rsocket_py.StreamFromGenerator.{
  Item, Told, on_next, StreamFromGenerator, subscribed, send_to_subscriber, Event, requests,
  cancels, n_feeder_runs, payload_feeder_runs, after_events,
}
use rsocket_py.StreamFromGenerator.Given.{items_of, given, all_requested}
use rsocket_py.StreamFromGenerator.Credit.{after_events-all_requested}

abbrev one_byte : Payload
one_byte = record { data_bytes = some (1 ∷ []); metadata = none }

abbrev two_items : List (Result Item)
two_items = ok (some one_byte, false) ∷ ok (some one_byte, true) ∷ []

-- One value is requested and given; the next request comes before the cancel.
abbrev events : List Event
events =
    payload_feeder_runs
    ∷ requests 1
    ∷ n_feeder_runs
    ∷ n_feeder_runs
    ∷ n_feeder_runs
    ∷ payload_feeder_runs
    ∷ requests 1
    ∷ cancels
    ∷ n_feeder_runs
    ∷ payload_feeder_runs
    ∷ []

one_value : (after_events events (subscribed two_items)).told ≡ on_next (some one_byte) false ∷ []
unfolding after_events rsocket_py.StreamFromGenerator.step
one_value = refl

after_events-all_requested_example :
    let told = given (after_events events (subscribed two_items)).told in
    ((rest : List Told) × (told ++ rest ≡ map send_to_subscriber (items_of two_items)))
    × (length told ≤ all_requested events)
after_events-all_requested_example = after_events-all_requested two_items events
