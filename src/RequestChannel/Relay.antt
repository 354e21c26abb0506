-- ===== src/RequestChannel/Relay.antt =====
-- What the publisher of one side of a channel tells, the remote subscriber of the other side is told,
-- by frames that go through the send queue of one side and the parser and the cache of the other.
use rsocket_py.Prelude.{
  ℕ, ◌≤◌, ◌<◌, ◌≡◌, refl, sym, ap, ◌∙◌, subst, inl, inr, Bool, true, false, ◌&&◌, ◌||◌, none, List,
  [], ◌∷◌, ◌++◌, map, attribute_error, Error, Result, ok, err, ◌>>=◌, if◌then◌else◌, Bool-cases,
  length, All,
}
use rsocket_py.Bytes.{Bytes}
use rsocket_py.Frame.Slots.{Body, Frame}
use rsocket_py.Frame.Errors.{exception_to_error_frame}
use rsocket_py.FrameBuilders.{Payload, to_payload_frame}
use rsocket_py.Handlers.{Signal}
use rsocket_py.Frame.Serialize.{next_flag}
use rsocket_py.Frame.Sendable.{arrived, middle_of}
use rsocket_py.Frame.Prefix.{measured}
use rsocket_py.Frame.Fragmenting.{new_frame_fragment}
use rsocket_py.FrameFragmentCache.{Cache, append_all}
use rsocket_py.FrameParser.{receive_data}
use rsocket_py.FrameParser.Framing.{send_all}
use rsocket_py.Connection.{source}
use rsocket_py.Connection.Sender.{send_queued}
use rsocket_py.Connection.Sender.OverWire.{frames_in}
use rsocket_py.Handlers.Crossing.{
  relayed, wire_payload, has_content, heard, heard_next, heard_all, arrives, frame_for, piece,
  Crosses, error_relayed, error_arrives, error_read, next_content, arriving, crossing,
}
use rsocket_py.RequestChannel.{
  Channel, Effect, Outcome, remote_on_next, remote_on_complete, remote_on_error, send_payload,
  send_error, after, finish_if_both_closed, mark_received, mark_sent, frame_received, received,
  error_on_remote, on_next, on_complete, on_error,
}

or_true : (a : Bool) → (a || true) ≡ true
or_true true = refl
or_true false = refl

or_false : (a : Bool) → (a || false) ≡ a
or_false true = refl
or_false false = refl

or_assoc : (a b c : Bool) → ((a || b) || c) ≡ (a || (b || c))
or_assoc true b c = refl
or_assoc false b c = refl

-- A signal of the application's publisher to the `StreamSubscriber`.
abbrev tell : Signal → Channel → Outcome
tell (Signal.on_next p complete) c = on_next p complete c
tell Signal.on_complete c = on_complete c
tell (Signal.on_error e) c = on_error e c

unfoldable pub tell_all : List Signal → Channel → Outcome
tell_all [] c = (c, [])
tell_all (s ∷ signals) c = let o = tell s c in after o.1 (tell_all signals o.0)

unfoldable pub receive_all : List Frame → Channel → Result Outcome
receive_all [] c = ok (c, [])
receive_all (f ∷ fs) c = do o ← frame_received f c; rest ← receive_all fs o.0; ok (after o.1 rest)

abbrev pub closes : Signal → Bool
closes (Signal.on_next p complete) = complete
closes s = true

abbrev pub some_closes : List Signal → Bool
some_closes [] = false
some_closes (s ∷ signals) = closes s || some_closes signals

-- What the remote subscriber is told.
abbrev add_told : Effect → List Signal → List Signal
add_told (remote_on_next p complete) ss = Signal.on_next p complete ∷ ss
add_told remote_on_complete ss = Signal.on_complete ∷ ss
add_told (remote_on_error e) ss = Signal.on_error e ∷ ss
add_told effect ss = ss

abbrev pub told : List Effect → List Signal
told [] = []
told (e ∷ es) = add_told e (told es)

module _ (text : Error → Bytes) (id : ℕ) where
  -- The frames that a socket without a fragment size makes of the effects.
  abbrev add_frame : Effect → List Frame → List Frame
  add_frame (send_payload p complete is_next) fs = to_payload_frame id p complete is_next none ∷ fs
  add_frame (send_error e) fs = exception_to_error_frame id e text ∷ fs
  add_frame effect fs = fs

  abbrev pub frames : List Effect → List Frame
  frames [] = []
  frames (e ∷ es) = add_frame e (frames es)

  -- One signal: its frame, and the side that it closes.
  record Told (s : Signal) (c : Channel) : Type 0 where
    framed :
        (rest : List Effect) → frames ((tell s c).1 ++ rest) ≡ frame_for text id s ∷ frames rest
    sent : (tell s c).0.sent_complete ≡ (c.sent_complete || closes s)

  -- Only effects that send nothing and tell nothing.
  abbrev IsSilent : List Effect → Type 0
  IsSilent es =
      ((rest : List Effect) → frames (es ++ rest) ≡ frames rest)
      × ((rest : List Effect) → told (es ++ rest) ≡ told rest)

  finish-IsSilent : (c : Channel) → IsSilent (finish_if_both_closed c)
  unfolding finish_if_both_closed
  finish-IsSilent c = elim (Bool-cases (c.received_complete && c.sent_complete)) [
    | inl e ↦ rw e ((λ rest. refl), (λ rest. refl))
    | inr e ↦ rw e ((λ rest. refl), (λ rest. refl))
  ]

  mark_sent-IsSilent : (c : Channel) → IsSilent (mark_sent c).1
  unfolding mark_sent finish_if_both_closed
  mark_sent-IsSilent c = elim (Bool-cases c.has_sending_done) [
    | inl e ↦ rw e (finish-IsSilent (record c { sent_complete = true }))
    | inr e ↦ rw e (finish-IsSilent (record c { sent_complete = true }))
  ]

  mark_received-IsSilent : (c : Channel) → IsSilent (mark_received c).1
  unfolding mark_received
  mark_received-IsSilent c = finish-IsSilent (record c { received_complete = true })

  tell-Told : (s : Signal) (c : Channel) → Told s c
  unfolding on_next on_complete on_error mark_sent
  tell-Told (Signal.on_next p true) c = record {
    framed = λ rest.
        ap (λ (fs : List Frame). frame_for text id (Signal.on_next p true) ∷ fs)
          ((mark_sent-IsSilent c).0 rest);
    sent = sym (or_true c.sent_complete);
  }
  tell-Told (Signal.on_next p false) c = record {
    framed = λ rest. refl;
    sent = sym (or_false c.sent_complete);
  }
  tell-Told Signal.on_complete c = record {
    framed = λ rest.
        ap (λ (fs : List Frame). frame_for text id Signal.on_complete ∷ fs)
          ((mark_sent-IsSilent c).0 rest);
    sent = sym (or_true c.sent_complete);
  }
  tell-Told (Signal.on_error e) c = record {
    framed = λ rest.
        ap (λ (fs : List Frame). frame_for text id (Signal.on_error e) ∷ fs)
          ((mark_sent-IsSilent c).0 rest);
    sent = sym (or_true c.sent_complete);
  }

  tell_all_framed :
      (signals : List Signal) (c : Channel)
      → (frames (tell_all signals c).1 ≡ map (frame_for text id) signals)
        × ((tell_all signals c).0.sent_complete ≡ (c.sent_complete || some_closes signals))
  unfolding tell_all
  tell_all_framed [] c = (refl, sym (or_false c.sent_complete))
  tell_all_framed (s ∷ signals) c =
      let t = tell-Told s c in
      let (rest, sent) = tell_all_framed signals (tell s c).0 in
      (
        t.framed (tell_all signals (tell s c).0).1
            ∙ ap (λ (fs : List Frame). frame_for text id s ∷ fs) rest,
        sent
            ∙ ap (λ (b : Bool). b || some_closes signals) t.sent
            ∙ or_assoc c.sent_complete (closes s) (some_closes signals),
      )

  -- A frame that is received: the remote subscriber is told what is heard of its signal.
  record Hears (heard : List Signal) (closing : Bool) (c : Channel) (r : Result Outcome)
      : Type 0 where
    outcome : Outcome
    returns : r ≡ ok outcome
    tells : (rest : List Effect) → told (outcome.1 ++ rest) ≡ heard ++ told rest
    received : outcome.0.received_complete ≡ (c.received_complete || closing)
    subscriber : outcome.0.has_remote_subscriber ≡ c.has_remote_subscriber

  -- One call on the remote subscriber, with which the sender closes its side or not.
  call-Hears :
      (s : Signal) (closing : Bool) (c : Channel) (e : Effect)
      → ((es : List Signal) → add_told e es ≡ s ∷ es)
      → Hears
          (s ∷ [])
          closing
          c
          (ok (if closing then after (e ∷ []) (mark_received c) else (c, e ∷ [])))
  unfolding mark_received
  call-Hears s true c e adds = record {
    outcome = after (e ∷ []) (mark_received c);
    returns = refl;
    tells = λ rest. adds _ ∙ ap (λ (ss : List Signal). s ∷ ss) ((mark_received-IsSilent c).1 rest);
    received = sym (or_true c.received_complete);
    subscriber = refl;
  }
  call-Hears s false c e adds = record {
    outcome = (c, e ∷ []);
    returns = refl;
    tells = λ rest. adds _;
    received = sym (or_false c.received_complete);
    subscriber = refl;
  }

  -- The call where the remote subscriber is there.
  reached-Hears :
      (s : Signal) (closing : Bool) (c : Channel) (e : Effect)
      → ((es : List Signal) → add_told e es ≡ s ∷ es)
      → c.has_remote_subscriber ≡ true
      → Hears (s ∷ []) closing c (
          (if c.has_remote_subscriber then ok (e ∷ []) else err attribute_error) >>= λ es.
          ok (if closing then after es (mark_received c) else (c, es)))
  reached-Hears s closing c e adds there =
      subst
        (λ (b : Bool). Hears (s ∷ []) closing c (
          (if b then ok (e ∷ []) else err attribute_error) >>= λ es.
          ok (if closing then after es (mark_received c) else (c, es))))
        (sym there) (call-Hears s closing c e adds)

  error-Hears :
      (e : Error) (c : Channel)
      → c.has_remote_subscriber ≡ true
      → Crosses text id (Signal.on_error e)
      → Hears
          (heard (Signal.on_error e))
          true
          c
          (frame_received (arrives (exception_to_error_frame id e text)) c)
  unfolding frame_received
  error-Hears e c there crosses =
      let (code, is, carries, at, last) = error_relayed text id e in
      let f = exception_to_error_frame id e text in
      let came = arrived (measured f (middle_of (Body.error code))) in
      subst (Hears (heard (Signal.on_error e)) true c)
        (sym (
          ap (λ (f : Frame). received f.body f c) (error_arrives text id e code is)
          ∙ ap (λ (b : Body). received b came c) is
          ∙ ap (λ (x : Result Error). error_on_remote c x >>= λ es. ok (after es (mark_received c)))
              (error_read text id e code carries crosses)))
        (reached-Hears (Signal.on_error (relayed e)) true c (remote_on_error (relayed e))
          (λ ss. refl) there)

  -- A payload with or without the flag `next`.
  payload-Hears :
      (p : Payload) (complete next : Bool) (c : Channel)
      → c.has_remote_subscriber ≡ true
      → Hears
          (heard_next next p complete)
          complete
          c
          (received (Body.payload next) (arrives (piece text id (Signal.on_next p complete))) c)
  unfolding new_frame_fragment to_payload_frame
  payload-Hears p complete true c there =
      reached-Hears (Signal.on_next (wire_payload p) complete) complete c
        (remote_on_next (wire_payload p) complete) (λ ss. refl) there
  payload-Hears p true false c there =
      reached-Hears Signal.on_complete true c remote_on_complete (λ ss. refl) there
  payload-Hears p false false c there = record {
    outcome = (c, []);
    returns = refl;
    tells = λ rest. refl;
    received = sym (or_false c.received_complete);
    subscriber = refl;
  }

  completion-Hears :
      (c : Channel)
      → c.has_remote_subscriber ≡ true
      → Hears
          (heard Signal.on_complete)
          true
          c
          (frame_received (arrives (piece text id Signal.on_complete)) c)
  unfolding frame_received new_frame_fragment to_payload_frame next_flag
  completion-Hears c there =
      reached-Hears Signal.on_complete true c remote_on_complete (λ ss. refl) there

  receives :
      (s : Signal) (c : Channel)
      → c.has_remote_subscriber ≡ true
      → Crosses text id s
      → Hears (heard s) (closes s) c (frame_received (arrives (piece text id s)) c)
  unfolding frame_received new_frame_fragment to_payload_frame
  receives (Signal.on_next p complete) c there crosses =
      subst
        (λ (next : Bool).
          Hears (heard (Signal.on_next p complete)) complete c
            (received (Body.payload next) (arrives (piece text id (Signal.on_next p complete))) c))
        (sym (next_content text id p complete)) (payload-Hears p complete (has_content p) c there)
  receives Signal.on_complete c there crosses = completion-Hears c there
  receives (Signal.on_error e) c there crosses = error-Hears e c there crosses

  -- What arrives is told.
  receive_all-arriving :
      (signals : List Signal) (far : Channel)
      → far.has_remote_subscriber ≡ true
      → All (Crosses text id) signals
      → (received : Outcome) × (receive_all (arriving text id signals) far ≡ ok received)
        × (told received.1 ≡ heard_all signals)
        × (received.0.received_complete ≡ (far.received_complete || some_closes signals))
  unfolding receive_all
  receive_all-arriving [] far there h =
      ((far, []), refl, refl, sym (or_false far.received_complete))
  receive_all-arriving (s ∷ signals) far there (crosses, more) =
      let h = receives s far there crosses in
      let (rest, returns, same, got) =
        receive_all-arriving signals h.outcome.0 (h.subscriber ∙ there) more in
      (
        after h.outcome.1 rest,
        ap
              (λ (r : Result Outcome). r >>= λ o.
                receive_all (arriving text id signals) o.0 >>= λ rest'. ok (after o.1 rest'))
              h.returns
            ∙ ap (λ (r : Result Outcome). r >>= λ rest'. ok (after h.outcome.1 rest')) returns,
        h.tells rest.1 ∙ ap (λ (ss : List Signal). heard s ++ ss) same,
        got
            ∙ ap (λ (b : Bool). b || some_closes signals) h.received
            ∙ or_assoc far.received_complete (closes s) (some_closes signals),
      )

-- Signals of the publisher on one side of a channel, whose frames on the stream `id` fit the wire and
-- whose exceptions have UTF-8 texts, where the socket has no fragment size, and the other side with
-- a remote subscriber. The frames in the queue of the sender: it sends them all, in turns no fewer
-- than the signals; the other side's parser reads all bytes, and any cache that holds nothing of the
-- stream passes the frames on; handed to the other side in their order, they do not make it raise.
-- Its remote subscriber is told the signals in order, a payload with its absent fields as empty
-- ones, a payload without data and metadata as completion where it completes and else not at all,
-- and an exception as the wire relays it. The other side has closed its receiving half exactly if
-- it had before or a signal closes, and this side its sending half likewise.
pub receive_all-tell_all :
    (text : Error → Bytes) (id : ℕ) (signals : List Signal) (near far : Channel) (cache : Cache)
    (rounds turns : ℕ)
    → far.has_remote_subscriber ≡ true
    → All (Crosses text id) signals
    → cache id ≡ none
    → length signals ≤ turns
    → let sending = tell_all signals near in
      let queue = send_queued turns rounds true (map source (frames text id sending.1)) in
      (queue.0 ≡ [])
      × (bytes : Bytes) × (arrived : List Frame) × (received : Outcome) × (send_all queue.1
          ≡ ok bytes)
      × ((loops : ℕ)
          → length bytes < loops
          → append_all cache (frames_in (receive_data loops [] bytes 3).items)
            ≡ ok (cache, arrived))
      × (receive_all arrived far ≡ ok received)
      × (told received.1 ≡ heard_all signals)
      × (sending.0.sent_complete ≡ (near.sent_complete || some_closes signals))
      × (received.0.received_complete ≡ (far.received_complete || some_closes signals))
receive_all-tell_all text id signals near far cache rounds turns there h fresh enough =
    let (empty, bytes, written, reads) =
      crossing text id rounds turns cache signals h fresh enough in
    let (framed, sent) = tell_all_framed text id signals near in
    let (received, returns, same, got) = receive_all-arriving text id signals far there h in
    rw framed
      (empty, bytes, arriving text id signals, received, written, reads, returns, same, sent, got)
