-- ===== src/Connection/Sender/OverWire.antt =====
-- From the sender's queue over the wire to the receiver's cache: the fragments are written with size
-- headers into one byte stream, the frame parser cuts it, and the cache rejoins what it yields.
use rsocket_py.Prelude.{
  ℕ, ◌+◌, ◌^◌, ◌≤◌, ◌<◌, ◌≡◌, refl, sym, ap, ◌∙◌, subst, inl, inr, Bool, true, false, Option, none,
  List, [], ◌∷◌, map, All, All-monotone, cons_if, Result, ok, arith, length, ◌==◌, ==_iff,
}
use rsocket_py.Bytes.{Bytes}
use rsocket_py.Frame.Slots.{Frame, frame_type_of}
use rsocket_py.Frame.Serialize.{bytes_of}
use rsocket_py.Frame.Sendable.{IsSendable}
use rsocket_py.Frame.Fragmenting.{is_payload}
use rsocket_py.FrameFragmenter.Fragments.{room_of}
use rsocket_py.FrameParser.{Item, frame, invalid_frame, finished, receive_data}
use rsocket_py.FrameParser.Framing.{IsFramed, send_all, arrival, receive_data-send_all}
use rsocket_py.FrameFragmentCache.{Cache, append_all}
use rsocket_py.FrameFragmentCache.Slot.{append_slot_all}
use rsocket_py.FrameFragmentCache.Interleaved.{on_stream, IsKeyed, append_all-on_stream}
use rsocket_py.FrameFragmentCache.Alike.{AllAlike, rejoined-Alike}
use rsocket_py.Connection.{source}
use rsocket_py.Connection.Sender.{send_queued}
use rsocket_py.Connection.Sender.Ready.{frames_to_send}
use rsocket_py.Connection.Sender.Queue.{
  IsOther, HasDistinctStreams, frames_left, send_queued-frames_to_send,
}
use rsocket_py.Connection.Sender.Delivery.{IsCut, alone, slot_run, which, both, ready, ran_ok}
use rsocket_py.Connection.Sender.Framed.{fragments-IsFramed, arrives, arrives-Alike}

-- The frames among what the parser yields.
abbrev pub frames_in : List Item → List Frame
frames_in [] = []
frames_in (frame f ∷ items) = f ∷ frames_in items
frames_in (invalid_frame ∷ items) = frames_in items

frames_in-arrival : (fs : List Frame) → frames_in (map arrival fs) ≡ map arrives fs
frames_in-arrival [] = refl
frames_in-arrival (f ∷ fs) = ap (λ (gs : List Frame). arrives f ∷ gs) (frames_in-arrival fs)

AllAlike-arrives : (fs : List Frame) → AllAlike fs (map arrives fs)
AllAlike-arrives [] = tt
AllAlike-arrives (f ∷ fs) = (arrives-Alike f, AllAlike-arrives fs)

cons_if-map :
    (b : Bool) (f : Frame) (fs : List Frame)
    → cons_if b (arrives f) (map arrives fs) ≡ map arrives (cons_if b f fs)
cons_if-map true f fs = refl
cons_if-map false f fs = refl

on_stream-arrives :
    (i : ℕ) (fs : List Frame) → on_stream i (map arrives fs) ≡ map arrives (on_stream i fs)
on_stream-arrives i [] = refl
on_stream-arrives i (f ∷ fs) =
    ap (λ (j : ℕ). cons_if (j == i) (arrives f) (on_stream i (map arrives fs)))
      (sym (arrives-Alike f).same_stream)
    ∙ ap (cons_if (f.stream_id == i) (arrives f)) (on_stream-arrives i fs)
    ∙ cons_if-map (f.stream_id == i) f (on_stream i fs)

All-cons_if_tail :
    (P : Frame → Type 0) (b : Bool) (f : Frame) (fs : List Frame)
    → All P (cons_if b f fs)
    → All P fs
All-cons_if_tail P true f fs h = h.1
All-cons_if_tail P false f fs h = h

All-cons_if_head :
    (P : Frame → Type 0) (b : Bool) (f : Frame) (fs : List Frame)
    → b ≡ true
    → All P (cons_if b f fs)
    → P f
All-cons_if_head P true f fs e h = h.0
All-cons_if_head P false f fs e h = cc e

-- What holds on every stream holds of all frames.
All-on_stream :
    (P : Frame → Type 0) (fs : List Frame) → ((i : ℕ) → All P (on_stream i fs)) → All P fs
All-on_stream P [] h = tt
All-on_stream P (f ∷ fs) h = (
  All-cons_if_head P (f.stream_id == f.stream_id) f (on_stream f.stream_id fs)
      ((==_iff f.stream_id f.stream_id).1 refl) (h f.stream_id),
  All-on_stream P fs (λ i. All-cons_if_tail P (f.stream_id == i) f (on_stream i fs) (h i)),
)

room-le : (header size : ℕ) (required b : Bool) → room_of header size required b ≤ size
room-le header size required true = omega arith
room-le header size required false = omega arith

module _ (rounds : ℕ) (required : Bool) where
  -- A frame that is cut into fragments which fit the wire, on a stream with nothing in the cache.
  pub record IsWired (c : Cache) (f : Frame) : Type 0 where
    pub cut : IsCut rounds required c f
    pub sendable : IsSendable f
    pub short : cut.room.size + 13 < 2 ^ 24

  -- What has arrived on the stream of a frame: one frame of its class with its metadata and data.
  pub record Arrives (out : List Frame) (f : Frame) : Type 0 where
    pub whole : Frame
    pub delivered : on_stream f.stream_id out ≡ whole ∷ []
    pub same_data : bytes_of whole.data_bytes ≡ bytes_of f.data_bytes
    pub same_metadata : bytes_of whole.metadata ≡ bytes_of f.metadata
    pub same_type : whole.frame_type ≡ frame_type_of f.body
    pub same_request : is_payload f.body ≡ false → whole.body ≡ f.body
    pub completes : is_payload f.body ≡ true → whole.flags_complete ≡ f.flags_complete

  wired-IsFramed :
      (c : Cache) (f : Frame) → IsWired c f → All IsFramed (frames_to_send rounds required f)
  wired-IsFramed c f w =
      let a = alone rounds required c f w.cut in
      let r = w.cut.room in
      rw a.all (
        fragments-IsFramed (room_of r.header r.size required) r.size true f a.pieces
          w.cut.fragmentable w.sendable (room-le r.header r.size required) w.short a.are.marked)

  -- One slot's run over what arrives.
  record ArrivedRun (c : Cache) (f : Frame) (run : Result (Option Frame × List Frame))
      : Type 0 where
    whole : Frame
    ran : run ≡ ok (none, whole ∷ [])
    same_data : bytes_of whole.data_bytes ≡ bytes_of f.data_bytes
    same_metadata : bytes_of whole.metadata ≡ bytes_of f.metadata
    same_type : whole.frame_type ≡ frame_type_of f.body
    same_request : is_payload f.body ≡ false → whole.body ≡ f.body
    completes : is_payload f.body ≡ true → whole.flags_complete ≡ f.flags_complete

  arrived_run :
      (c : Cache) (f : Frame)
      → IsWired c f
      → IsKeyed c
      → ArrivedRun c f (append_slot_all none (map arrives (frames_to_send rounds required f)))
  arrived_run c f w keyed =
      let a = alone rounds required c f w.cut in
      let r = a.rejoins in
      let run =
        ap (λ (o : Option Frame). append_slot_all o (frames_to_send rounds required f))
          (sym w.cut.fresh)
        ∙ slot_run rounds required c f w.cut a keyed
        ∙ ap (λ (o : Option Frame). ok (o, r.whole ∷ [])) (r.restored f.stream_id ∙ w.cut.fresh) in
      let (whole, ran, like) =
        rejoined-Alike _ _ r.whole run (AllAlike-arrives (frames_to_send rounds required f)) in
      record {
        whole = whole;
        ran = ran;
        same_data = sym like.same_data ∙ r.same_data;
        same_metadata = sym like.same_metadata ∙ r.same_metadata;
        same_type = sym like.same_type ∙ r.same_type;
        same_request =
            λ e. sym (like.same_request (ap is_payload (r.same_request e) ∙ e)) ∙ r.same_request e;
        completes = λ e. sym like.same_complete ∙ r.completes ∙ rw e refl;
      }

  module _ (c : Cache) (keyed : IsKeyed c) (fs : List Frame) (sent : List Frame)
      (wires : All (IsWired c) fs)
      (each : All (λ (f : Frame). on_stream f.stream_id sent ≡ frames_to_send rounds required f) fs)
      (nothing : (i : ℕ) → IsOther rounds required i fs → on_stream i sent ≡ []) where
    abbrev Sent : Frame → Type 0
    Sent f = IsWired c f × (on_stream f.stream_id sent ≡ frames_to_send rounds required f)

    sents : All Sent fs
    sents = both rounds required (IsWired c) _ fs wires each

    stream-IsFramed : (i : ℕ) → All IsFramed (on_stream i sent)
    stream-IsFramed i = elim (which rounds required Sent i fs sents) [
      | inl other ↦ rw (nothing i other) tt
      | inr (f, here, s) ↦
          subst (λ (j : ℕ). All IsFramed (on_stream j sent)) here (rw s.1 (wired-IsFramed c f s.0))
    ]

    sent-IsFramed : All IsFramed sent
    sent-IsFramed = All-on_stream IsFramed sent stream-IsFramed

    own_run :
        (f : Frame) (s : Sent f)
        → append_slot_all (c f.stream_id) (on_stream f.stream_id (map arrives sent))
          ≡ ok (none, (arrived_run c f s.0 keyed).whole ∷ [])
    own_run f s =
        ap (append_slot_all (c f.stream_id)) (on_stream-arrives f.stream_id sent)
        ∙ ap (λ (l : List Frame). append_slot_all (c f.stream_id) (map arrives l)) s.1
        ∙ ap
            (λ (o : Option Frame).
              append_slot_all o (map arrives (frames_to_send rounds required f)))
            s.0.cut.fresh
        ∙ (arrived_run c f s.0 keyed).ran

    other_run :
        (i : ℕ)
        → IsOther rounds required i fs
        → append_slot_all (c i) (on_stream i (map arrives sent)) ≡ ok (c i, [])
    other_run i other =
        ap (append_slot_all (c i)) (on_stream-arrives i sent)
        ∙ ap (λ (l : List Frame). append_slot_all (c i) (map arrives l)) (nothing i other)

    stream_run :
        (i : ℕ)
        → (gs : List Frame) × (append_slot_all (c i) (on_stream i (map arrives sent))
            ≡ ok (c i, gs))
    stream_run i = elim (which rounds required Sent i fs sents) [
      | inl other ↦ ([], other_run i other)
      | inr (f, here, s) ↦
          subst
            (λ (j : ℕ).
              (gs : List Frame) × (append_slot_all (c j) (on_stream j (map arrives sent))
                ≡ ok (c j, gs)))
            here
            (
              (arrived_run c f s.0 keyed).whole ∷ [],
              own_run f s
                  ∙ ap (λ (o : Option Frame). ok (o, (arrived_run c f s.0 keyed).whole ∷ []))
                      (sym s.0.cut.fresh),
            )
    ]

    abbrev Received : List Frame → Type 0
    Received frames =
        (cache : Cache) × (out : List Frame) × (append_all c frames ≡ ok (cache, out))
        × All (Arrives out) fs
        × ((i : ℕ) → IsOther rounds required i fs → on_stream i out ≡ [])
        × ((i : ℕ) → cache i ≡ c i)

    received : Received (map arrives sent)
    received =
        let (cache, out, ran, agrees) =
          append_all-on_stream c (map arrives sent) keyed
            (λ i. let (gs, e) = stream_run i in ((c i, gs), e)) in
        (
          cache,
          out,
          ran,
          All-monotone
              (λ f s.
                let run = arrived_run c f s.0 keyed in
                record {
                  whole = run.whole;
                  delivered =
                      (ran_ok rounds required _ _ _ _ _ (agrees f.stream_id) (own_run f s)).1;
                  same_data = run.same_data;
                  same_metadata = run.same_metadata;
                  same_type = run.same_type;
                  same_request = run.same_request;
                  completes = run.completes;
                })
              fs sents,
          λ i other. (ran_ok rounds required _ _ _ _ _ (agrees i) (other_run i other)).1,
          λ i. let (gs, e) = stream_run i in (ran_ok rounds required _ _ _ _ _ (agrees i) e).0,
        )

  -- The bytes that the sender writes for a queue of frames, each cut into fragments that fit the
  -- wire and on distinct streams: the other side's parser takes them all within more rounds than
  -- bytes, with nothing left over, and its cache, which holds nothing of the streams, completes on
  -- the stream of each frame one frame with its class, metadata and data, nothing on other streams,
  -- and has its slots as before.
  pub append_all-receive_data :
      (turns : ℕ) (fs : List Frame) (c : Cache)
      → IsKeyed c
      → All (IsWired c) fs
      → HasDistinctStreams rounds required fs
      → frames_left rounds required fs ≤ turns
      → (b : Bytes) × (send_all (send_queued turns rounds required (map source fs)).1 ≡ ok b)
        × ((loops : ℕ)
            → length b < loops
            → let r = receive_data loops [] b 3 in
              (r.stop ≡ finished)
              × (r.buffer ≡ [])
              × (cache : Cache) × (out : List Frame) × (append_all c (frames_in r.items)
                  ≡ ok (cache, out))
              × All (Arrives out) fs
              × ((i : ℕ) → IsOther rounds required i fs → on_stream i out ≡ [])
              × ((i : ℕ) → cache i ≡ c i))
  append_all-receive_data turns fs c keyed wires distinct enough =
      let (emptied, each, nothing) =
        send_queued-frames_to_send rounds required turns fs
          (All-monotone (λ f w. ready rounds required c f w.cut) fs wires) distinct enough in
      let sent = (send_queued turns rounds required (map source fs)).1 in
      let (b, written, reads) =
        receive_data-send_all sent (sent-IsFramed c keyed fs sent wires each nothing) in
      (
        b,
        written,
        λ loops room.
            let (cache, out, ran, arrived_all, others, kept) =
              received c keyed fs sent wires each nothing in
            rw (reads loops room) (
              refl,
              refl,
              cache,
              out,
              ap (append_all c) (frames_in-arrival sent) ∙ ran,
              arrived_all,
              others,
              kept,
            ),
      )
