-- ===== src/Tests/Clients.antt =====
-- A client whose server falls silent, and one that reconnects.
use mathlib.Core.Logic.{◌↔◌}
use rsocket_py.Prelude.{suc, ◌≤◌, ◌≡◌, refl, true, false, ◌&&◌, ◌||◌, List, [], ◌∷◌, arith}
use rsocket_py.Client.{
  keepalive_at, Heartbeat, received, woken, after_heartbeats, connecting_transport, reporting_error,
  listening, in_connect, Reconnect, first_connect, reconnect, closed, request_taken, connected,
  failed, first_attempted, listener_attempted, taken_step, closed_step, first_step, attempt_step,
  Reached, started, called, stepped,
}
use rsocket_py.Client.Watch.{Missed, TwoWakes, after_heartbeats-Missed}
use rsocket_py.Client.Reconnecting.{is_attempting, is_busy, Reached-serial}

-- The watch wakes every 10 seconds; frames come at 3 and at 9.
abbrev falling_silent : List Heartbeat
falling_silent = received 3 ∷ received 9 ∷ woken 11 ∷ woken 21 ∷ received 22 ∷ []

after_heartbeats-Missed_example :
    (((after_heartbeats 10 falling_silent (keepalive_at 1)).is_server_alive ≡ false)
      ↔ Missed 10 1 falling_silent)
    × (TwoWakes 10 1 falling_silent
        → (after_heartbeats 10 falling_silent (keepalive_at 1)).is_server_alive ≡ false)
after_heartbeats-Missed_example =
    after_heartbeats-Missed 10 1 falling_silent
      (omega arith, (omega arith, (omega arith, (omega arith, (omega arith, tt)))))

-- The first connection is made, a call of `reconnect` is taken, and the new transport fails.
abbrev failing_again : Reconnect
failing_again =
    listener_attempted failed
      (closed (request_taken (reconnect (first_attempted connected first_connect))))

abbrev failing_again-Reached : Reached 1 failing_again
failing_again-Reached =
    stepped
      (stepped
        (stepped (called (stepped started (first_step connected refl))) (taken_step refl refl))
        (closed_step refl))
      (attempt_step failed refl)

Reached-serial_example :
    (failing_again.transports ≤ 2)
    × ((is_busy failing_again.listener && is_attempting failing_again.first) ≡ false)
    × ((is_busy failing_again.listener || is_attempting failing_again.first) ≡ true
        → failing_again.connecting ≡ true)
    × (failing_again.listener ≡ listening
        → failing_again.connecting ≡ false
        → (d : Reconnect) × Reached 2 d
          × (d.listener ≡ in_connect connecting_transport)
          × (d.transports ≡ suc failing_again.transports))
    × (failing_again.listener ≡ in_connect reporting_error
        → (d : Reconnect) × Reached 2 d
          × (d.listener ≡ listening)
          × (d.connect_request_event ≡ false)
          × (d.transports ≡ failing_again.transports))
Reached-serial_example = Reached-serial failing_again-Reached
