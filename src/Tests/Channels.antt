-- ===== src/Tests/Channels.antt =====
-- A channel on small inputs.
use rsocket_py.Prelude.{
  ℕ, ◌<◌, length, arith, ◌≡◌, refl, true, false, ◌||◌, some, List, [], map, ok,
}
use rsocket_py.Bytes.{Bytes}
use rsocket_py.Frame.Slots.{Frame}
use rsocket_py.FrameParser.{receive_data}
use rsocket_py.FrameParser.Framing.{send_all}
use rsocket_py.FrameFragmentCache.{append_all}
use rsocket_py.Connection.{source}
use rsocket_py.Connection.Sender.{send_queued}
use rsocket_py.Connection.Sender.OverWire.{frames_in}
use rsocket_py.Handlers.Crossing.{heard_all}
use rsocket_py.Tests.Signals.{signals, no_text, empty_cache, signals-Crosses}
use rsocket_py.RequestChannel.{Channel, Outcome, cancel, cancel_step}
use rsocket_py.RequestChannel.Relay.{
  tell_all, receive_all, some_closes, told, frames, receive_all-tell_all,
}
use rsocket_py.RequestChannel.Marks.{Closes}
use rsocket_py.RequestChannel.Closing.{Step-Closes}

-- A channel whose own side is closed.
abbrev half_closed : Channel
half_closed = record {
  sent_complete = true;
  received_complete = false;
  subscriber = some true;
  has_remote_subscriber = true;
  has_sending_done = false;
}

Step-Closes_example : Closes half_closed (cancel half_closed)
Step-Closes_example = Step-Closes half_closed cancel_step

abbrev open_channel : Channel
open_channel = record half_closed { sent_complete = false }

receive_all-tell_all_example :
    let sending = tell_all signals open_channel in
    let queue = send_queued 3 1 true (map source (frames no_text 3 sending.1)) in
    (queue.0 ≡ [])
    × (bytes : Bytes) × (arrived : List Frame) × (received : Outcome) × (send_all queue.1
        ≡ ok bytes)
    × ((loops : ℕ)
        → length bytes < loops
        → append_all empty_cache (frames_in (receive_data loops [] bytes 3).items)
          ≡ ok (empty_cache, arrived))
    × (receive_all arrived open_channel ≡ ok received)
    × (told received.1 ≡ heard_all signals)
    × (sending.0.sent_complete ≡ (false || some_closes signals))
    × (received.0.received_complete ≡ (false || some_closes signals))
receive_all-tell_all_example =
    receive_all-tell_all no_text 3 signals open_channel open_channel empty_cache 1 3 refl
      signals-Crosses refl (omega arith)
