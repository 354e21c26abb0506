-- ===== src/Handlers/Relay.antt =====
-- What the responder's subscriber is told, the requester's subscriber is told, by frames that go
-- through the send queue of one side and the parser and the cache of the other.
use rsocket_py.Prelude.{
  ℕ, ◌≤◌, ◌<◌, ◌≡◌, refl, sym, ap, ◌∙◌, Bool, true, false, none, List, [], ◌∷◌, ◌++◌, map, Error,
  Result, ok, ◌>>=◌, length, All, Option, append_assoc,
}
use rsocket_py.Bytes.{Bytes}
use rsocket_py.Frame.Slots.{Body, Frame}
use rsocket_py.Frame.Serialize.{next_flag}
use rsocket_py.Frame.Errors.{exception_to_error_frame}
use rsocket_py.Frame.Sendable.{arrived, middle_of}
use rsocket_py.Frame.Prefix.{measured}
use rsocket_py.Frame.Fragmenting.{new_frame_fragment}
use rsocket_py.FrameBuilders.{Payload, to_payload_frame}
use rsocket_py.FrameFragmentCache.{Cache, append_all}
use rsocket_py.FrameParser.{receive_data}
use rsocket_py.FrameParser.Framing.{send_all}
use rsocket_py.Connection.{source}
use rsocket_py.Connection.Sender.{send_queued}
use rsocket_py.Connection.Sender.OverWire.{frames_in}
use rsocket_py.Handlers.{
  Signal, on_next, on_complete, on_error, Call, send_frame, finish_stream, to_subscriber,
}
use rsocket_py.Handlers.Crossing.{
  has_content, heard, heard_next, heard_all, arrives, frame_for, piece, Crosses, error_relayed,
  error_arrives, error_read, next_content, arriving, crossing,
}
use rsocket_py.Handlers.StreamRequester.{
  RequestStreamRequester, tell_error, finished, received, frame_received,
}
use rsocket_py.Handlers.StreamResponder.{signal_received}

abbrev add_frame : Call → List Frame → List Frame
add_frame (send_frame f) fs = f ∷ fs
add_frame c fs = fs

abbrev add_signal : Call → List Signal → List Signal
add_signal (to_subscriber s) ss = s ∷ ss
add_signal c ss = ss

abbrev add_finish : Call → List ℕ → List ℕ
add_finish (finish_stream id) ids = id ∷ ids
add_finish c ids = ids

-- The frames that are sent, the signals to the subscriber, and the streams that are finished.
abbrev pub frames_sent : List Call → List Frame
frames_sent [] = []
frames_sent (c ∷ cs) = add_frame c (frames_sent cs)

abbrev pub signals_told : List Call → List Signal
signals_told [] = []
signals_told (c ∷ cs) = add_signal c (signals_told cs)

abbrev pub streams_finished : List Call → List ℕ
streams_finished [] = []
streams_finished (c ∷ cs) = add_finish c (streams_finished cs)

-- What the responder calls for signals one after the other, and the requester for frames.
abbrev pub respond_all : (Error → Bytes) → Option ℕ → ℕ → List Signal → List Call
respond_all text size id [] = []
respond_all text size id (s ∷ ss) = signal_received text size id s ++ respond_all text size id ss

abbrev pub receive_all : RequestStreamRequester → List Frame → Result (List Call)
receive_all r [] = ok []
receive_all r (f ∷ fs) = do calls ← frame_received f r; rest ← receive_all r fs; ok (calls ++ rest)

-- What a signal finishes.
abbrev finishing : ℕ → Signal → List Call
finishing id (on_next p true) = finish_stream id ∷ []
finishing id (on_next p false) = []
finishing id s = finish_stream id ∷ []

module _ (text : Error → Bytes) (r : RequestStreamRequester)
    (subscribed : r.has_subscriber ≡ true) where
  abbrev id : ℕ
  id = r.handler.stream_id

  responds :
      (s : Signal)
      → signal_received text none id s ≡ send_frame (frame_for text id s) ∷ finishing id s
  unfolding signal_received
  responds (on_next p true) = refl
  responds (on_next p false) = refl
  responds on_complete = refl
  responds (on_error e) = refl

  -- The calls for a signal that was heard.
  abbrev calls_for : Signal → List Call
  calls_for s = map to_subscriber (heard s) ++ finishing id s

  error_receives :
      (e : Error)
      → Crosses text id (on_error e)
      → frame_received (arrives (exception_to_error_frame id e text)) r
        ≡ ok (calls_for (on_error e))
  unfolding frame_received
  error_receives e crosses =
      let (code, is, carries, at, last) = error_relayed text id e in
      let f = exception_to_error_frame id e text in
      let came = arrived (measured f (middle_of (Body.error code))) in
      ap (λ (f : Frame). received f.body f r) (error_arrives text id e code is)
      ∙ ap (λ (b : Body). received b came r) is
      ∙ ap (λ (x : Result Error). tell_error r x >>= λ calls. finished r calls)
          (error_read text id e code carries crosses)
      ∙ rw subscribed refl

  -- A payload with or without the flag `next`.
  payload_receives :
      (p : Payload) (complete next : Bool)
      → received (Body.payload next) (arrives (piece text id (on_next p complete))) r
        ≡ ok (map to_subscriber (heard_next next p complete) ++ finishing id (on_next p complete))
  unfolding new_frame_fragment to_payload_frame
  payload_receives p true true = rw subscribed refl
  payload_receives p false true = rw subscribed refl
  payload_receives p true false = rw subscribed refl
  payload_receives p false false = refl

  completion_receives :
      frame_received (arrives (piece text id on_complete)) r ≡ ok (calls_for on_complete)
  unfolding frame_received new_frame_fragment to_payload_frame next_flag
  completion_receives = rw subscribed refl

  receives :
      (s : Signal)
      → Crosses text id s
      → frame_received (arrives (piece text id s)) r ≡ ok (calls_for s)
  unfolding frame_received new_frame_fragment to_payload_frame
  receives (on_next p complete) crosses =
      ap
        (λ (next : Bool).
          received (Body.payload next) (arrives (piece text id (on_next p complete))) r)
        (next_content text id p complete)
      ∙ payload_receives p complete (has_content p)
  receives on_complete crosses = completion_receives
  receives (on_error e) crosses = error_receives e crosses

  finishing_only :
      (s : Signal) (calls : List Call)
      → (frames_sent (finishing id s ++ calls) ≡ frames_sent calls)
        × (signals_told (finishing id s ++ calls) ≡ signals_told calls)
  finishing_only (on_next p true) calls = (refl, refl)
  finishing_only (on_next p false) calls = (refl, refl)
  finishing_only on_complete calls = (refl, refl)
  finishing_only (on_error e) calls = (refl, refl)

  finishing_same :
      (s : Signal) (calls calls' : List Call)
      → streams_finished calls ≡ streams_finished calls'
      → streams_finished (finishing id s ++ calls) ≡ streams_finished (finishing id s ++ calls')
  finishing_same (on_next p true) calls calls' e = ap (λ (ids : List ℕ). id ∷ ids) e
  finishing_same (on_next p false) calls calls' e = e
  finishing_same on_complete calls calls' e = ap (λ (ids : List ℕ). id ∷ ids) e
  finishing_same (on_error x) calls calls' e = ap (λ (ids : List ℕ). id ∷ ids) e

  framed :
      (s : Signal) (rest : List Call)
      → frames_sent (signal_received text none id s ++ rest)
        ≡ frame_for text id s ∷ frames_sent rest
  framed s rest =
      ap (λ (l : List Call). frames_sent (l ++ rest)) (responds s)
      ∙ ap (λ (fs : List Frame). frame_for text id s ∷ fs) (finishing_only s rest).0

  all_framed :
      (signals : List Signal)
      → frames_sent (respond_all text none id signals) ≡ map (frame_for text id) signals
  all_framed [] = refl
  all_framed (s ∷ signals) =
      framed s (respond_all text none id signals)
      ∙ ap (λ (fs : List Frame). frame_for text id s ∷ fs) (all_framed signals)

receive_both :
    (r : RequestStreamRequester) (f : Frame) (fs : List Frame) (first rest : List Call)
    → frame_received f r ≡ ok first
    → receive_all r fs ≡ ok rest
    → receive_all r (f ∷ fs) ≡ ok (first ++ rest)
receive_both r f fs first rest e e' = rw (e, e') refl

told_append :
    (ss : List Signal) (calls : List Call)
    → (signals_told (map to_subscriber ss ++ calls) ≡ ss ++ signals_told calls)
      × (streams_finished (map to_subscriber ss ++ calls) ≡ streams_finished calls)
told_append [] calls = (refl, refl)
told_append (s ∷ ss) calls =
    (ap (λ (l : List Signal). s ∷ l) (told_append ss calls).0, (told_append ss calls).1)

-- What arrives is told.
receive_all-arriving :
    (text : Error → Bytes) (r : RequestStreamRequester) (signals : List Signal)
    → r.has_subscriber ≡ true
    → All (Crosses text r.handler.stream_id) signals
    → let id = r.handler.stream_id in
      (calls : List Call) × (receive_all r (arriving text id signals) ≡ ok calls)
      × (signals_told calls ≡ heard_all signals)
      × (streams_finished calls ≡ streams_finished (respond_all text none id signals))
receive_all-arriving text r [] subscribed h = ([], refl, refl, refl)
receive_all-arriving text r (s ∷ signals) subscribed (crosses, h) =
    let (calls, returns, same, finished) = receive_all-arriving text r signals subscribed h in
    let id = r.handler.stream_id in
    let rest = respond_all text none id signals in
    let ends = finishing id s ++ calls in
    let told = told_append (heard s) ends in
    let split = append_assoc (map to_subscriber (heard s)) (finishing id s) calls in
    (
      calls_for text r subscribed s ++ calls,
      receive_both r (arrives (piece text id s)) (arriving text id signals)
          (calls_for text r subscribed s) calls (receives text r subscribed s crosses) returns,
      ap signals_told split
          ∙ told.0
          ∙ ap (λ (ss : List Signal). heard s ++ ss)
              ((finishing_only text r subscribed s calls).1 ∙ same),
      ap streams_finished split
          ∙ told.1
          ∙ finishing_same text r subscribed s calls rest finished
          ∙ sym
              (ap (λ (l : List Call). streams_finished (l ++ rest)) (responds text r subscribed s)),
    )

-- Signals to the responder's subscriber, whose frames fit the wire and whose exceptions have UTF-8
-- texts, where the socket has no fragment size, and a requester on the same stream with a
-- subscriber. The frames that the responder sends, in the queue of the sender: it sends them all, in
-- turns no fewer than the signals; the other side's parser reads all bytes, and any cache that holds
-- nothing of the stream passes the frames on; handed to the requester in their order, they do not
-- make it raise. Its subscriber is told the signals in order, a payload with its absent fields as
-- empty ones, a payload without data and metadata as completion where it completes and else not at
-- all, and an exception as the wire relays it. The stream is finished there as often as it is at
-- the responder.
pub receive_all-respond_all :
    (text : Error → Bytes) (r : RequestStreamRequester) (signals : List Signal) (cache : Cache)
    (rounds turns : ℕ)
    → r.has_subscriber ≡ true
    → All (Crosses text r.handler.stream_id) signals
    → cache r.handler.stream_id ≡ none
    → length signals ≤ turns
    → let responded = respond_all text none r.handler.stream_id signals in
      let queue = send_queued turns rounds true (map source (frames_sent responded)) in
      (queue.0 ≡ [])
      × (bytes : Bytes) × (arrived : List Frame) × (calls : List Call) × (send_all queue.1
          ≡ ok bytes)
      × ((loops : ℕ)
          → length bytes < loops
          → append_all cache (frames_in (receive_data loops [] bytes 3).items)
            ≡ ok (cache, arrived))
      × (receive_all r arrived ≡ ok calls)
      × (signals_told calls ≡ heard_all signals)
      × (streams_finished calls ≡ streams_finished responded)
receive_all-respond_all text r signals cache rounds turns subscribed h fresh enough =
    let id = r.handler.stream_id in
    let (empty, bytes, written, reads) =
      crossing text id rounds turns cache signals h fresh enough in
    let (calls, returns, same, finished) = receive_all-arriving text r signals subscribed h in
    rw (all_framed text r subscribed signals)
      (empty, bytes, arriving text id signals, calls, written, reads, returns, same, finished)
