-- ===== src/Transports/Stream.antt =====
-- Frames over a stream of bytes that is read in any pieces.
use rsocket_py.Prelude.{
  ℕ, zero, suc, ◌+◌, ◌^◌, ◌<◌, ◌≡◌, refl, sym, ap, ◌∙◌, Bool, true, false, not, ◌&&◌, ◌||◌, Option,
  some, List, [], ◌∷◌, ◌++◌, append-nil, append_assoc, map, Result, ok, arith, length,
  length-append, drop, All, if◌then◌else◌,
}
use rsocket_py.Prelude as Results
use rsocket_py.Prelude.Actions.{Act, ◌>>=◌, return}
use rsocket_py.Bytes.{Bytes, be, pack, length-be, pack-eq_ok}
use rsocket_py.Frame.Slots.{Body, Frame, truthy}
use rsocket_py.Frame.Serialize.{
  serialize_prefix_with_frame_size_header, serialize_frame_prefix, write_data_metadata, contents,
  bytes_of, compute_frame_length,
}
use rsocket_py.Frame.Sendable.{middle_of, wire_flags, sent}
use rsocket_py.Frame.Prefix.{size_field}
use rsocket_py.Frame.Written.{with_header, contents-sent, prefix_of-Writes}
use rsocket_py.Frame.RoundTrip.{
  IsSendable-IsPackable, wire_bytes, after_serialize, length-wire_bytes,
}
use rsocket_py.FrameParser.{Item, Received, finished, receive_data}
use rsocket_py.FrameParser.Chunks.{run, run_finishes, receive_data-append}
use rsocket_py.FrameParser.Framing.{framed, IsFramed, arrival, drop-be_four, stream, run-stream}
use rsocket_py.Transports.{
  TransportTcp, transport_tcp, write, send_frame, next_frame_generator, read_all,
}

abbrev pub join : List Bytes → Bytes
join [] = []
join (chunk ∷ chunks) = chunk ++ join chunks

-- The bytes behind the prefix are those that `serialize` copies.
write_data_metadata-contents : (f : Frame) → write_data_metadata f ≡ contents f
unfolding write_data_metadata contents
write_data_metadata-contents f = joined (truthy f.metadata) f.flags_metadata
  where
    joined :
        (t m : Bool)
        → (if t then bytes_of f.metadata else [])
            ++ (if not f.metadata_only && truthy f.data_bytes then bytes_of f.data_bytes else [])
          ≡ (if (t || m) && t then bytes_of f.metadata else [])
            ++ (if not f.metadata_only && truthy f.data_bytes then bytes_of f.data_bytes else [])
    joined true m = refl
    joined false true = refl
    joined false false = refl

length-sent :
    (b : Body) (f : Frame)
    → compute_frame_length (sent b f) (middle_of b) ≡ compute_frame_length f (middle_of b)
unfolding compute_frame_length rsocket_py.Frame.Serialize.compute_frame_prefix_length
    rsocket_py.Frame.Serialize.compute_data_metadata_length
length-sent (Body.payload n) f = refl
length-sent _ f = refl

prefix_bytes : Frame → Bytes
prefix_bytes f = with_header f (wire_flags f.body f) (middle_of f.body ++ size_field f)

size_header :
    {n whole : ℕ}
    → n ≡ whole
    → whole < 2 ^ 24
    → (f : Frame) (prefix : Bytes)
    → Results.◌>>=◌ {B = Frame × Bytes} (pack 4 n) (λ size. ok (f, drop 1 size ++ prefix))
      ≡ ok (f, be 3 whole ++ prefix)
size_header {whole = whole} e short f prefix =
    rw (e, pack-eq_ok 4 whole (omega (arith, short)))
      (ap (λ (b : Bytes). ok (f, b ++ prefix)) (drop-be_four whole short))

-- The prefix with the size of the whole frame in front.
prefix-framed :
    (f : Frame)
    → IsFramed f
    → serialize_prefix_with_frame_size_header f
      ≡ ok (after_serialize f, be 3 (length (wire_bytes f)) ++ prefix_bytes f)
unfolding serialize_prefix_with_frame_size_header serialize_frame_prefix prefix_bytes
prefix-framed f h =
    let s = h.sendable in
    let size = length-wire_bytes f s in
    rw (prefix_of-Writes f.body f s.fits (IsSendable-IsPackable f s)) (
      size_header (length-sent f.body f ∙ sym size) (omega (arith, size, h.short))
        (after_serialize f) (prefix_bytes f))

send_frame-framed :
    (f : Frame) (t : TransportTcp)
    → IsFramed f
    → send_frame f t ≡ (write (framed (wire_bytes f)) t, ok (after_serialize f))
unfolding send_frame framed prefix_bytes
send_frame-framed f t h =
    let size = be 3 (length (wire_bytes f)) in
    let behind : write_data_metadata (after_serialize f) ≡ contents f =
      write_data_metadata-contents (after_serialize f) ∙ contents-sent f.body f in
    let joined : (t.written ++ (size ++ prefix_bytes f)) ++ contents f
        ≡ t.written ++ (size ++ (prefix_bytes f ++ contents f)) =
      append_assoc t.written (size ++ prefix_bytes f) (contents f)
      ∙ ap (λ (b : Bytes). t.written ++ b) (append_assoc size (prefix_bytes f) (contents f)) in
    rw (prefix-framed f h, behind)
      (ap (λ (b : Bytes). (record t { written = b }, ok (after_serialize f))) joined)

kept_room :
    (rounds : ℕ) (buffer chunk more : Bytes)
    → length (buffer ++ (chunk ++ more)) < rounds
    → length ((receive_data rounds buffer chunk 3).buffer ++ more) < rounds
unfolding receive_data
kept_room rounds buffer chunk more room =
    let all = length-append buffer (chunk ++ more) in
    let part = length-append chunk more in
    let front = length-append buffer chunk in
    let kept =
      run_finishes rounds chunk (buffer ++ chunk) (omega (arith, all, part, front, room)) in
    omega (
      arith,
      all,
      part,
      front,
      room,
      kept.1,
      length-append (run rounds chunk (buffer ++ chunk)).buffer more,
    )

read_run :
    (rounds : ℕ) (chunk : Bytes) (chunks : List Bytes) (t : TransportTcp)
    → All (λ c. 0 < length c) (chunk ∷ chunks)
    → length (t.buffer ++ (chunk ++ join chunks)) < rounds
    → let r = receive_data rounds t.buffer (chunk ++ join chunks) 3 in
      read_all rounds (chunk ∷ chunks) t ≡ (record t { buffer = r.buffer }, r.items)
unfolding read_all next_frame_generator
read_run rounds [] chunks t (h, hs) room = absurd (omega (arith, h))
read_run rounds (x ∷ xs) [] t h room = rw (append-nil xs) (
    ap
      (λ (l : List Item).
        (record t { buffer = (receive_data rounds t.buffer (x ∷ xs) 3).buffer }, l))
      (append-nil _))
read_run rounds (x ∷ xs) (c ∷ cs) t (h, hs) room =
    let first = receive_data rounds t.buffer (x ∷ xs) 3 in
    let (ends, finishes, together) =
      receive_data-append rounds t.buffer (x ∷ xs) (join (c ∷ cs)) room in
    let rest =
      read_run rounds c cs (record t { buffer = first.buffer }) hs
        (kept_room rounds t.buffer (x ∷ xs) (join (c ∷ cs)) room) in
    rw (together, rest) refl

-- Frames behind one another; an exception ends it.
abbrev pub send_frames : List Frame → Act TransportTcp (Unit {0})
send_frames [] = return tt
send_frames (f ∷ fs) = send_frame f >>= λ f'. send_frames fs

send_frames-stream :
    (fs : List Frame) (t : TransportTcp)
    → All IsFramed fs
    → send_frames fs t ≡ (write (stream fs) t, ok tt)
send_frames-stream [] t h =
    ap (λ (b : Bytes). (record t { written = b }, ok tt)) (sym (append-nil t.written))
send_frames-stream (f ∷ fs) t (hf, hfs) =
    rw (send_frame-framed f t hf, send_frames-stream fs (write (framed (wire_bytes f)) t) hfs)
      (ap (λ (b : Bytes). (record t { written = b }, ok tt))
        (append_assoc t.written (framed (wire_bytes f)) (stream fs)))

nothing_sent : (fs : List Frame) → [] ≡ stream fs → map arrival fs ≡ []
unfolding framed
nothing_sent [] e = refl
nothing_sent (f ∷ fs) e =
    let size = be 3 (length (wire_bytes f)) in
    absurd (
      omega (
        arith,
        ap length e,
        length-append (size ++ wire_bytes f) (stream fs),
        length-append size (wire_bytes f),
        length-be 3 (length (wire_bytes f)),
      ))

whole_read :
    (fs : List Frame) (rounds : ℕ)
    → All IsFramed fs
    → length (stream fs) < rounds
    → receive_data rounds [] (stream fs) 3
      ≡ record { items = map arrival fs; buffer = []; stop = finished }
unfolding receive_data
whole_read fs rounds h room = run-stream fs rounds (stream fs) h room

-- Frames that are sendable and short enough for the size header go over TCP: sending raises no
-- exception, and a reader that gets the bytes written in any pieces, none empty, gives the frames in
-- their order, each as `parse_or_ignore-serialize` says, with nothing left in its parser, within more
-- rounds than bytes.
pub read_all-send_frames :
    (fs : List Frame)
    → All IsFramed fs
    → (sender : TransportTcp) × (send_frames fs transport_tcp ≡ (sender, ok tt))
      × ((rounds : ℕ) (chunks : List Bytes)
          → All (λ c. 0 < length c) chunks
          → join chunks ≡ sender.written
          → length sender.written < rounds
          → read_all rounds chunks transport_tcp ≡ (transport_tcp, map arrival fs))
read_all-send_frames fs h = (
  write (stream fs) transport_tcp,
  send_frames-stream fs transport_tcp h,
  λ rounds chunks full same room. all_read rounds chunks full same room,
)
  where
    all_read :
        (rounds : ℕ) (chunks : List Bytes)
        → All (λ c. 0 < length c) chunks
        → join chunks ≡ stream fs
        → length (stream fs) < rounds
        → read_all rounds chunks transport_tcp ≡ (transport_tcp, map arrival fs)
    all_read rounds [] full same room =
        unfold read_all in ap (λ (l : List Item). (transport_tcp, l)) (sym (nothing_sent fs same))
    all_read rounds (c ∷ cs) full same room =
        let taken : Received → TransportTcp × List Item =
          λ r. (record transport_tcp { buffer = r.buffer }, r.items) in
        read_run rounds c cs transport_tcp full (rw same room)
        ∙ ap (λ (b : Bytes). taken (receive_data rounds [] b 3)) same
        ∙ ap taken (whole_read fs rounds h room)
