-- ===== src/FrameParser/Framing.antt =====
-- Frames that are sent one behind the other with size headers, and the websocket mode without them.
use rsocket_py.Prelude.{
  ℕ, zero, suc, ◌+◌, ◌^◌, ◌<◌, ◌≡◌, refl, ap, ◌∙◌, Option, some, List, [], ◌∷◌, ◌++◌, map, Result,
  ok, ◌>>=◌, arith, length, length-append, take, drop, take-append_length, drop-append_length,
  drop-drop, append_assoc, All,
}
use native.Mathlib.Nat.{mod-eq_of_lt, add_comm}
use rsocket_py.Bytes.{Bytes, be, un_be, pack-eq_ok, length-be, un_be-be, take-be, drop-be}
use rsocket_py.Frame.Slots.{Frame}
use rsocket_py.Frame.Parse.{parse_or_ignore}
use rsocket_py.Frame.Serialize.{serialize_with_frame_size_header, compute_frame_length}
use rsocket_py.Frame.Sendable.{IsSendable, middle_of, arrived}
use rsocket_py.Frame.RoundTrip.{
  wire_bytes, after_serialize, serialize-wire_bytes, parse_or_ignore-wire_bytes, length-wire_bytes,
}
use rsocket_py.FrameParser.{
  invalid_frame, Item, frame, finished, unfinished, emit, frame_size, receive_loop, receive_data,
}
use rsocket_py.FrameParser.Chunks.{run, size_of, IsWhole, run_whole}

-- A size header of three bytes, as `serialize_with_frame_size_header` writes it.
unfoldable pub framed : Bytes → Bytes
framed b = be 3 (length b) ++ b

size_of-framed : (b rest : Bytes) → length b < 2 ^ 24 → size_of (framed b ++ rest) ≡ length b
unfolding size_of framed un_be
size_of-framed b rest h =
    rw (append_assoc (be 3 (length b)) b rest, take-be 3 (length b) (b ++ rest))
      (omega (arith, un_be-be 3 (length b) h))

behind_header : (b rest : Bytes) → drop 3 (framed b ++ rest) ≡ b ++ rest
unfolding framed
behind_header b rest = rw (append_assoc (be 3 (length b)) b rest) (drop-be 3 (length b) (b ++ rest))

behind_frame : (b rest : Bytes) → drop (length b + 3) (framed b ++ rest) ≡ rest
behind_frame b rest =
    rw (add_comm (length b) 3, ← drop-drop 3 (length b) (framed b ++ rest), behind_header b rest)
      (drop-append_length b rest)

length-framed : (b : Bytes) → length (framed b) ≡ length b + 3
unfolding framed
length-framed b = omega (arith, length-append (be 3 (length b)) b, length-be 3 (length b))

module _ (b rest : Bytes) (small : length b < 2 ^ 24) where
  framed-IsWhole : IsWhole (framed b ++ rest)
  framed-IsWhole = record {
    sized = omega (arith, length-append (framed b) rest, length-framed b);
    held =
        omega (arith, length-append (framed b) rest, length-framed b, size_of-framed b rest small);
  }

  -- One whole frame at the front of the buffer is parsed, and the rest stays.
  pub run-framed :
      (rounds : ℕ) (received : Bytes)
      → run (suc rounds) received (framed b ++ rest)
        ≡ emit (parse_or_ignore b) (run rounds received rest)
  run-framed rounds received = run_whole rounds received (framed b ++ rest) framed-IsWhole ∙ front
    where
      front :
          emit
            (parse_or_ignore (take (size_of (framed b ++ rest)) (drop 3 (framed b ++ rest))))
            (run rounds received (drop (size_of (framed b ++ rest) + 3) (framed b ++ rest)))
          ≡ emit (parse_or_ignore b) (run rounds received rest)
      front = rw (
        size_of-framed b rest small,
        behind_header b rest,
        behind_frame b rest,
        take-append_length b rest,
      )

-- The frames of a batch, sent one behind the other.
pub send_all : List Frame → Result Bytes
send_all [] = ok []
send_all (f ∷ fs) = do b ← serialize_with_frame_size_header f; rest ← send_all fs; ok (b ++ rest)

-- Sendable, and short enough for a size header of three bytes.
pub record IsFramed (f : Frame) : Type 0 where
  pub sendable : IsSendable f
  pub short : compute_frame_length f (middle_of f.body) < 2 ^ 24

abbrev pub arrival : Frame → Item
arrival f = frame (arrived (after_serialize f))

pub drop-be_four : (n : ℕ) → n < 2 ^ 24 → drop 1 (be 4 n) ≡ be 3 n
unfolding be
drop-be_four n short = ap (be 3) (mod-eq_of_lt short)

serialize_with_frame_size_header-eq_ok :
    (f : Frame) → IsFramed f → serialize_with_frame_size_header f ≡ ok (framed (wire_bytes f))
unfolding serialize_with_frame_size_header framed
serialize_with_frame_size_header-eq_ok f h =
    let size = length-wire_bytes f h.sendable in
    let short : length (wire_bytes f) < 2 ^ 24 = omega (arith, size, h.short) in
    rw
      (
        serialize-wire_bytes f h.sendable,
        pack-eq_ok 4 (length (wire_bytes f)) (omega (arith, short)),
      )
      (ap (λ (t : Bytes). ok (t ++ wire_bytes f)) (drop-be_four (length (wire_bytes f)) short))

abbrev pub stream : List Frame → Bytes
stream [] = []
stream (f ∷ fs) = framed (wire_bytes f) ++ stream fs

send_all-stream : (fs : List Frame) → All IsFramed fs → send_all fs ≡ ok (stream fs)
unfolding send_all
send_all-stream [] h = refl
send_all-stream (f ∷ fs) (hf, hfs) =
    rw (serialize_with_frame_size_header-eq_ok f hf, send_all-stream fs hfs)

pub run-stream :
    (fs : List Frame) (rounds : ℕ) (received : Bytes)
    → All IsFramed fs
    → length (stream fs) < rounds
    → run rounds received (stream fs)
      ≡ record { items = map arrival fs; buffer = []; stop = finished }
run-stream fs zero received h room = absurd (omega arith)
run-stream [] (suc rounds) received h room = unfold receive_loop in refl
run-stream (f ∷ fs) (suc rounds) received (hf, hfs) room =
    let b = wire_bytes f in
    let short : length b < 2 ^ 24 = omega (arith, length-wire_bytes f hf.sendable, hf.short) in
    let room' : length (stream fs) < rounds =
      omega (arith, length-append (framed b) (stream fs), length-framed b) in
    run-framed b (stream fs) short rounds received
    ∙ ap (λ (o : Result (Option Frame)). emit o (run rounds received (stream fs)))
        (parse_or_ignore-wire_bytes f hf.sendable)
    ∙ ap (emit (ok (some (arrived (after_serialize f))))) (run-stream fs rounds received hfs room')

-- Frames that are sent with size headers, one behind the other, are received in order and whole,
-- each as `parse_or_ignore-serialize` says, and nothing is left in the buffer.
pub receive_data-send_all :
    (fs : List Frame)
    → All IsFramed fs
    → (b : Bytes) × (send_all fs ≡ ok b)
      × ((rounds : ℕ)
          → length b < rounds
          → receive_data rounds [] b 3
            ≡ record { items = map arrival fs; buffer = []; stop = finished })
unfolding receive_data
receive_data-send_all fs h =
    (stream fs, send_all-stream fs h, λ rounds room. run-stream fs rounds (stream fs) h room)

receive_loop-one_more :
    (rounds : ℕ)
    → receive_loop (suc rounds) [] 0 [] 0 ≡ record (receive_loop rounds [] 0 [] 0) {
      items = invalid_frame ∷ (receive_loop rounds [] 0 [] 0).items;
    }
unfolding receive_loop frame_size parse_or_ignore
receive_loop-one_more rounds = refl

receive_loop_empty :
    (rounds : ℕ)
    → ((receive_loop rounds [] 0 [] 0).stop ≡ unfinished)
      × (length (receive_loop rounds [] 0 [] 0).items ≡ rounds)
receive_loop_empty zero = unfold receive_loop in (refl, refl)
receive_loop_empty (suc rounds) =
    let rest = receive_loop_empty rounds in
    rw (receive_loop-one_more rounds) (rest.0, ap suc rest.1)

-- Without a size header an empty message never ends the loop: on a parser with an empty buffer
-- `receive_data` yields `InvalidFrame` in each round and does not return, whatever the rounds.
pub receive_data_diverges :
    (rounds : ℕ)
    → ((receive_data rounds [] [] 0).stop ≡ unfinished)
      × (length (receive_data rounds [] [] 0).items ≡ rounds)
unfolding receive_data
receive_data_diverges rounds = receive_loop_empty rounds
