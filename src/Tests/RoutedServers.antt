-- ===== src/Tests/RoutedServers.antt =====
-- A server whose handler routes.
use rsocket_py.Prelude.{ℕ, ◌≡◌, none, some, List, Error, Result, ok, transport_error}
use rsocket_py.Prelude.Actions.{return, raise}
use rsocket_py.Bytes.{Bytes}
use rsocket_py.FrameBuilders.{Payload}
use rsocket_py.Connection.{State}
use rsocket_py.Connection.Receiving.{RequestHandler}
use rsocket_py.Connection.Receiver.{Round, receiver_listen}
use rsocket_py.Routing.{RequestType, parse_and_route}
use rsocket_py.Routing.Handler.{Methods, Objects, enough, routing_request_handler}
use rsocket_py.Routing.Handler.Answers.{Answers, answered, routing_request_handler-Answers}
use rsocket_py.Tests.Connections.{idle, numbered, idle-AreQuiet}
use rsocket_py.Tests.Routes.{router}

-- A method for a stream raises what would end the receiver.
abbrev failing_methods : Methods ℕ (State ℕ ℕ)
failing_methods = record {
  response = λ m items p. return m;
  stream = λ m items p. raise transport_error;
  channel = λ m items p. return (none, some m);
  nothing = λ m items p. return tt;
}

-- The object for an exception is 0.
abbrev objects : Objects (State ℕ ℕ)
objects = record {
  create_error_future = λ e s. (s, 0);
  error_stream = λ e s. (s, 0);
  null_subscriber = λ s. (s, 0);
  set_encodings = λ d m s. s;
}

abbrev routed_server : RequestHandler (State ℕ ℕ)
routed_server = routing_request_handler failing_methods objects none router idle

routing_request_handler-Answers_example :
    ((p : Payload)
      → Answers (routed_server.request_response p)
        × Answers (routed_server.request_stream p)
        × Answers (routed_server.request_channel p)
        × Answers (routed_server.request_fire_and_forget p)
        × Answers (routed_server.on_metadata_push p))
    × ((p : Payload) (s : State ℕ ℕ)
        → (r : State ℕ ℕ × Result ℕ) × (parse_and_route failing_methods.response none router
              (enough p.metadata)
              RequestType.request_response
              p
              s
            ≡ some r)
          × (routed_server.request_response p s ≡ answered objects.create_error_future r))
    × ((p : Payload) (s : State ℕ ℕ)
        → (r : State ℕ ℕ × Result ℕ) × (parse_and_route failing_methods.stream none router
              (enough p.metadata)
              RequestType.request_stream
              p
              s
            ≡ some r)
          × (routed_server.request_stream p s ≡ answered objects.error_stream r))
    × ((clock : ℕ → ℕ) (text : Error → Bytes) (rounds : List Round) (s : State ℕ ℕ)
        → (receiver_listen clock text routed_server numbered rounds s).1 ≡ ok tt)
routing_request_handler-Answers_example =
    routing_request_handler-Answers failing_methods objects none router idle numbered idle-AreQuiet
