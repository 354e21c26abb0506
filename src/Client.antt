-- ===== src/Client.antt =====
-- rsocket/rsocket_client.py: the watch over the keep-alive frames of the server, and the listener for
-- requests to reconnect. Both run between the awaits of their code: an event is such a run, or a call
-- from outside. Times are readings of the clock.
pub mod Watch
pub mod Reconnecting
use Prim.Native.Nat.{compare}
use rsocket_py.Prelude.{
  ℕ, suc, ◌+◌, ◌-◌, ◌≡◌, Bool, true, false, not, Option, none, some, List, [], ◌∷◌, ◌++◌, ltb,
  if◌then◌else◌,
}

-- What the client knows of its server; `timeouts` are the calls of `on_keepalive_timeout` of the
-- handler, with their times since the last keep-alive frame.
pub record Keepalive : Type 0 where
  pub last_server_keepalive : ℕ
  pub is_server_alive : Bool
  pub timeouts : List ℕ

-- The object that `__init__` makes at a time.
abbrev pub keepalive_at : ℕ → Keepalive
keepalive_at now = record { last_server_keepalive = now; is_server_alive = true; timeouts = [] }

abbrev pub update_last_keepalive : ℕ → Keepalive → Keepalive
update_last_keepalive now k = record k { last_server_keepalive = now }

-- The loop of `_keepalive_timeout_task` behind its sleep.
unfoldable pub keepalive_timeout_task : ℕ → ℕ → Keepalive → Keepalive
keepalive_timeout_task max_lifetime_period now k =
    let time_since_last_keepalive = now - k.last_server_keepalive in
    if ltb max_lifetime_period time_since_last_keepalive
    then record k {
      is_server_alive = false;
      timeouts = k.timeouts ++ (time_since_last_keepalive ∷ []);
    }
    else k

-- A keep-alive frame is received, or the task of the watch wakes.
pub data Heartbeat : Type 0 where
  received woken : ℕ → Heartbeat

abbrev pub after_heartbeat : ℕ → Heartbeat → Keepalive → Keepalive
after_heartbeat max_lifetime_period (received now) k = update_last_keepalive now k
after_heartbeat max_lifetime_period (woken now) k = keepalive_timeout_task max_lifetime_period now k

unfoldable pub after_heartbeats : ℕ → List Heartbeat → Keepalive → Keepalive
after_heartbeats max_lifetime_period [] k = k
after_heartbeats max_lifetime_period (h ∷ hs) k =
    after_heartbeats max_lifetime_period hs (after_heartbeat max_lifetime_period h k)

-- Where `connect` awaits: it has no call under way, waits for a transport, or for
-- `on_connection_error` of the handler.
pub data Connect : Type 0 where
  idle connecting_transport reporting_error : Connect

-- Where `_reconnect_listener` awaits: the event, the end of `_close`, its `connect`; or it has ended.
pub data Listener : Type 0 where
  listening closing : Listener
  in_connect : Connect → Listener
  ended : Listener

-- `first` is the `connect` of the application. `transports` counts those asked of the provider.
pub record Reconnect : Type 0 where
  pub connecting : Bool
  pub connect_request_event : Bool
  pub listener : Listener
  pub first : Connect
  pub transports : ℕ

-- A client that the application connects.
abbrev pub first_connect : Reconnect
first_connect = record {
  connecting = true;
  connect_request_event = false;
  listener = listening;
  first = connecting_transport;
  transports = 1;
}

abbrev pub reconnect : Reconnect → Reconnect
reconnect c = record c { connect_request_event = true }

-- The listener behind its wait for the event, up to `_close`.
abbrev pub request_taken : Reconnect → Reconnect
request_taken c =
    if c.connecting
    then record c { connect_request_event = false; listener = listening }
    else record c { connecting = true; connect_request_event = false; listener = closing }

-- Behind `_close`, up to the transport.
abbrev pub closed : Reconnect → Reconnect
closed c = record c { listener = in_connect connecting_transport; transports = suc c.transports }

-- How `_connect_new_transport` ends: with a transport that is connected, without a transport in the
-- provider, or with another exception.
pub data Attempt : Type 0 where
  connected no_transport failed : Attempt

abbrev pub after_attempt : Attempt → Connect
after_attempt connected = idle
after_attempt no_transport = idle
after_attempt failed = reporting_error

-- The `finally` of a round of the listener.
abbrev pub round_ended : Reconnect → Reconnect
round_ended c = record c { connect_request_event = false; listener = listening }

abbrev pub listener_goes_on : Connect → Reconnect → Reconnect
listener_goes_on idle c = round_ended c
listener_goes_on p c = record c { listener = in_connect p }

abbrev pub first_attempted : Attempt → Reconnect → Reconnect
first_attempted a c = record c { connecting = false; first = after_attempt a }

abbrev pub listener_attempted : Attempt → Reconnect → Reconnect
listener_attempted a c = listener_goes_on (after_attempt a) (record c { connecting = false })

-- The `finally` of `_connect_new_transport`, if the listener is there when it ends.
abbrev pub still_connecting : Listener → Bool → Bool
still_connecting (in_connect connecting_transport) b = false
still_connecting l b = b

-- The listener is cancelled or an exception ends it.
abbrev pub listener_ended : Reconnect → Reconnect
listener_ended c = record c {
  connecting = still_connecting c.listener c.connecting;
  connect_request_event = false;
  listener = ended;
}

-- The steps of a client behind an await, each where the code can take it.
pub data Step (c : Reconnect) : Reconnect → Type 0 where
  taken_step : c.listener ≡ listening → c.connect_request_event ≡ true → Step c (request_taken c)
  closed_step : c.listener ≡ closing → Step c (closed c)
  first_step : (a : Attempt) → c.first ≡ connecting_transport → Step c (first_attempted a c)
  first_reported_step : c.first ≡ reporting_error → Step c (record c { first = idle })
  attempt_step :
      (a : Attempt) → c.listener ≡ in_connect connecting_transport → Step c (listener_attempted a c)
  reported_step : c.listener ≡ in_connect reporting_error → Step c (round_ended c)
  ended_step : Step c (listener_ended c)

-- The states that a client comes to, with the number of calls of `reconnect` before.
pub data Reached : ℕ → Reconnect → Type 0 where
  started : Reached 0 first_connect
  called : {calls : ℕ} {c : Reconnect} → Reached calls c → Reached (suc calls) (reconnect c)
  stepped : {calls : ℕ} {c d : Reconnect} → Reached calls c → Step c d → Reached calls d
