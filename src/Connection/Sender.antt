-- ===== src/Connection/Sender.antt =====
-- rsocket/rsocket_base.py: `_get_next_frame_to_send` and the loop of `_sender`. The transport takes
-- every frame; logging and the futures that wait for a frame are not modelled.
pub mod RoundRobin
pub mod InOrder
pub mod Ready
pub mod Queue
pub mod Delivery
pub mod Mixing
pub mod Framed
pub mod OverWire
use rsocket_py.Prelude.{
  ℕ, zero, suc, Bool, true, false, Option, none, some, List, [], ◌∷◌, ◌++◌, Error, Result, ok, err,
  attribute_error, if◌then◌else◌,
}
use rsocket_py.Frame.Slots.{Frame}
use rsocket_py.Frame.Fragmenting.{is_fragmentable_frame, get_next_fragment}
use rsocket_py.FrameFragmenter.{Fragment}
use rsocket_py.Connection.{Source, Socket}

-- What a turn of the loop comes to: it waits on an empty queue, has a frame for the transport, or
-- raises; `out_of_rounds` is a fragmenter that was given too few rounds.
pub data Turn : Type 0 where
  waiting out_of_rounds : Turn
  sending : Frame → Turn
  raising : Error → Turn

-- The queue after a fragment of its first source: `rest`, with the source behind it if fragments
-- are left. The second call of `get_next_fragment`, for the last fragment, changes only the
-- source, which has left the queue.
abbrev pub cycled : Frame → List Fragment → Frame → List Source → List Source
cycled f generator next rest =
    if next.flags_follows
    then rest ++ (record { frame = f; generator = some generator } ∷ [])
    else rest

abbrev pub after_fragment :
    Source → List Source → Result (Option (Option Frame × List Fragment)) → List Source × Turn
after_fragment source rest (err e) = (source ∷ rest, raising e)
after_fragment source rest (ok none) = (source ∷ rest, out_of_rounds)
after_fragment source rest (ok (some (none, generator))) =
    (record source { generator = some generator } ∷ rest, raising attribute_error)
after_fragment source rest (ok (some (some next, generator))) =
    (cycled source.frame generator next rest, sending next)

-- With the rounds for the fragmenter and the transport's `requires_length_header`.
unfoldable pub get_next_frame_to_send : ℕ → Bool → List Source → List Source × Turn
get_next_frame_to_send rounds requires_length_header [] = ([], waiting)
get_next_frame_to_send rounds requires_length_header (next_frame_source ∷ rest) =
    if is_fragmentable_frame next_frame_source.frame
    then after_fragment next_frame_source rest (
        get_next_fragment rounds requires_length_header next_frame_source.frame
          next_frame_source.generator)
    else (rest, sending next_frame_source.frame)

-- The queue after some turns with nothing else between them, and the frames that were sent. `rest`
-- is what the turns behind this one come to.
abbrev pub sent_first : Turn → List Source → List Source × List Frame → List Source × List Frame
sent_first (sending f) queue rest = (rest.0, f ∷ rest.1)
sent_first turn queue rest = (queue, [])

unfoldable pub send_queued : ℕ → ℕ → Bool → List Source → List Source × List Frame
send_queued zero rounds required queue = (queue, [])
send_queued (suc turns) rounds required queue =
    let turn = get_next_frame_to_send rounds required queue in
    let rest = send_queued turns rounds required turn.0 in sent_first turn.1 turn.0 rest

-- `_sender` as long as the queue has frames.
unfoldable pub sender {ℓ} : {A : Type ℓ} → ℕ → ℕ → Bool → Socket A → Socket A × List Frame
sender turns rounds required s =
    let sent = send_queued turns rounds required s.send_queue in
    (record s { send_queue = sent.0 }, sent.1)
