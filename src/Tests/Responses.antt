-- ===== src/Tests/Responses.antt =====
-- Stream handlers, a collector and a load balancer on small inputs.
use rsocket_py.Prelude.{
  ℕ, ◌+◌, ◌%◌, ◌≤◌, ◌<◌, ◌≡◌, refl, true, false, none, List, [], ◌∷◌, ◌++◌, map, arith, ok, length,
  get_elem?,
}
use rsocket_py.Bytes.{Bytes}
use rsocket_py.Frame.Slots.{Body, Frame, init}
use rsocket_py.Handlers.{Call, stream_handler}
use rsocket_py.Handlers.StreamRequester.{RequestStreamRequester}
use rsocket_py.Handlers.Relay.{
  frames_sent, signals_told, streams_finished, respond_all, receive_all, receive_all-respond_all,
}
use rsocket_py.FrameParser.{receive_data}
use rsocket_py.FrameParser.Framing.{send_all}
use rsocket_py.FrameFragmentCache.{append_all}
use rsocket_py.Connection.{source}
use rsocket_py.Connection.Sender.{send_queued}
use rsocket_py.Connection.Sender.OverWire.{frames_in}
use rsocket_py.Handlers.Crossing.{heard_all}
use rsocket_py.Tests.Signals.{small, signals, no_text, empty_cache, signals-Crosses}
use rsocket_py.Handlers.RequestResponse.{
  ResponseHandler, pending, cancelled, cancel_future, future_done, responder_frame_received,
}
use rsocket_py.Handlers.RespondOnce.{
  receives, calls_back, Steps, stop, step, answers_left, Steps-bound,
}
use rsocket_py.LoadBalancer.{LoadBalancerRoundRobin, select_all, select_all_in_turn}
use rsocket_py.Collector.{collector_subscriber, on_next_all, requested, on_next_all_credit}

abbrev requester : RequestStreamRequester
requester = record { handler = stream_handler 3; payload = small; has_subscriber = true }

receive_all-respond_all_example :
    let responded = respond_all no_text none 3 signals in
    let queue = send_queued 3 1 true (map source (frames_sent responded)) in
    (queue.0 ≡ [])
    × (bytes : Bytes) × (arrived : List Frame) × (calls : List Call) × (send_all queue.1 ≡ ok bytes)
    × ((loops : ℕ)
        → length bytes < loops
        → append_all empty_cache (frames_in (receive_data loops [] bytes 3).items)
          ≡ ok (empty_cache, arrived))
    × (receive_all requester arrived ≡ ok calls)
    × (signals_told calls ≡ heard_all signals)
    × (streams_finished calls ≡ streams_finished responded)
receive_all-respond_all_example =
    receive_all-respond_all no_text requester signals empty_cache 1 3 refl signals-Crosses refl
      (omega arith)

-- A responder that is cancelled before its future is done, and then called back.
abbrev responder : ResponseHandler
responder = record { stream_id = 2; payload = small; future = pending; callback_due = false }

abbrev cancelled_responder : ResponseHandler
cancelled_responder = record {
  stream_id = 2;
  payload = small;
  future = cancelled;
  callback_due = true;
}

abbrev called_back : ResponseHandler
called_back = record cancelled_responder { callback_due = false }

abbrev cancel_frame : Frame
cancel_frame = init Body.cancel

abbrev all_calls : List Call
all_calls =
    (responder_frame_received cancel_frame responder).1
    ++ (future_done no_text none cancelled_responder ++ [])

cancelled_run : Steps no_text none responder called_back all_calls
unfolding responder_frame_received cancel_future
cancelled_run =
    step responder cancelled_responder called_back _ _ (receives cancel_frame)
      (step cancelled_responder called_back called_back _ _ (calls_back refl) (stop called_back))

Steps-bound_example : length (frames_sent all_calls) + answers_left called_back ≤ 1
Steps-bound_example = Steps-bound no_text none responder called_back all_calls cancelled_run

abbrev balancer : LoadBalancerRoundRobin ℕ
balancer = record { pool = 10 ∷ 20 ∷ 30 ∷ []; current_index = 2 }

select_all_in_turn_example :
    get_elem? (select_all 9 balancer) 4 ≡ get_elem? (10 ∷ 20 ∷ 30 ∷ []) ((2 + 4) % 3)
select_all_in_turn_example = select_all_in_turn 9 4 balancer (omega arith) (omega arith)

on_next_all_credit_example :
    let values = small ∷ small ∷ small ∷ [] in
    let r = on_next_all values (collector_subscriber 2 none) in
    (r.0.values ≡ values)
    × (length values < 2 + requested r.1)
    × (2 + requested r.1 ≤ length values + 2)
on_next_all_credit_example = on_next_all_credit (small ∷ small ∷ small ∷ []) 2 (omega arith)
