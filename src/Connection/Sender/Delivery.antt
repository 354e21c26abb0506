-- ===== src/Connection/Sender/Delivery.antt =====
-- The fragments that the sender interleaves are rejoined by the receiver's cache.
use rsocket_py.Prelude.{
  ℕ, ◌≤◌, ◌≡◌, refl, sym, ap, ◌∙◌, subst, ◌⊎◌, inl, inr, Bool, true, Option, none, List, [], ◌∷◌,
  map, All, All-monotone, Result, ok, err, ◌==◌, ==_iff, Bool-cases,
}
use rsocket_py.Frame.Slots.{Frame}
use rsocket_py.Frame.Fragmenting.{is_fragmentable_frame, new_frame_fragment}
use rsocket_py.FrameFragmenter.{Fragment, data_to_fragments_if_required}
use rsocket_py.FrameFragmenter.Fragments.{AreFragments, room_of}
use rsocket_py.FrameFragmentCache.{Cache, append_all}
use rsocket_py.FrameFragmentCache.WholeFrame.{Rejoins, append_all-data_to_fragments_if_required}
use rsocket_py.FrameFragmentCache.Slot.{append_slot_all}
use rsocket_py.FrameFragmentCache.Interleaved.{on_stream, IsKeyed, append_all-on_stream}
use rsocket_py.FrameFragmentCache.OneStream.{IsOnly, append_slot_all-append_all, slot_part}
use rsocket_py.Connection.{source}
use rsocket_py.Connection.Sender.{send_queued}
use rsocket_py.Connection.Sender.Ready.{IsReady, in_pieces, HasRoom, frames_to_send, frames_of_all}
use rsocket_py.Connection.Sender.Queue.{
  IsOther, HasDistinctStreams, frames_left, send_queued-frames_to_send,
}

fragments-IsOnly :
    (f : Frame) (ps : List Fragment) → IsOnly f.stream_id (map (new_frame_fragment f) ps)
unfolding new_frame_fragment
fragments-IsOnly f [] = tt
fragments-IsOnly f (p ∷ ps) = (refl, fragments-IsOnly f ps)

module _ (rounds : ℕ) (required : Bool) where
  -- A frame that is cut into fragments, on a stream with nothing in the cache.
  pub record IsCut (c : Cache) (f : Frame) : Type 0 where
    pub fragmentable : is_fragmentable_frame f ≡ true
    pub room : HasRoom rounds f
    pub fresh : c f.stream_id ≡ none

  -- What a run of the cache has completed on the stream of a frame: the frame, rejoined.
  pub record Delivered (c : Cache) (out : List Frame) (f : Frame) : Type 0 where
    pub fragments : List Fragment
    pub rejoined : Rejoins f fragments c (append_all c (map (new_frame_fragment f) fragments))
    pub delivered : on_stream f.stream_id out ≡ rejoined.whole ∷ []

  -- What a frame has to send, and how the cache rejoins it alone.
  pub record Alone (c : Cache) (f : Frame) (cut : IsCut c f) : Type 0 where
    pub pieces : List Fragment
    pub are :
        AreFragments (room_of cut.room.header cut.room.size required) f.metadata f.data_bytes pieces
    pub all : frames_to_send rounds required f ≡ map (new_frame_fragment f) pieces
    pub rejoins : Rejoins f pieces c (append_all c (map (new_frame_fragment f) pieces))

  pub alone : (c : Cache) (f : Frame) (cut : IsCut c f) → Alone c f cut
  alone c f cut =
      let r = cut.room in
      let (ps, returns, are, rejoins) =
        append_all-data_to_fragments_if_required f r.header r.size rounds required c r.first_fits
          r.next_fits r.fuel cut.fresh in
      record {
        pieces = ps;
        are = are;
        all =
            rw (cut.fragmentable, r.header_length)
              (ap (frames_of_all f) (
                ap
                  (λ (o : Option ℕ).
                    data_to_fragments_if_required rounds f.data_bytes f.metadata r.header o
                      required)
                  r.sized
                ∙ returns));
        rejoins = rejoins;
      }

  -- The run of the frame's slot.
  pub slot_run :
      (c : Cache) (f : Frame) (cut : IsCut c f) (a : Alone c f cut)
      → IsKeyed c
      → append_slot_all (c f.stream_id) (frames_to_send rounds required f)
        ≡ ok (a.rejoins.cache f.stream_id, a.rejoins.whole ∷ [])
  slot_run c f cut a keyed =
      ap (append_slot_all (c f.stream_id)) a.all
      ∙ append_slot_all-append_all f.stream_id c _ keyed (fragments-IsOnly f a.pieces)
      ∙ ap (slot_part f.stream_id) a.rejoins.returns

  -- A stream is one of the frames', or another one.
  pub which :
      (P : Frame → Type 0) (i : ℕ) (fs : List Frame)
      → All P fs
      → IsOther rounds required i fs ⊎ ((f : Frame) × (f.stream_id ≡ i) × P f)
  which P i [] ps = inl tt
  which P i (f ∷ fs) (p, ps) = elim (Bool-cases (f.stream_id == i)) [
    | inl e ↦ inr (f, (==_iff f.stream_id i).0 e, p)
    | inr e ↦ elim (which P i fs ps) [ inl other ↦ inl (e, other) | inr found ↦ inr found ]
  ]

  pub both :
      (P Q : Frame → Type 0) (fs : List Frame)
      → All P fs
      → All Q fs
      → All (λ (f : Frame). P f × Q f) fs
  both P Q [] ps qs = tt
  both P Q (f ∷ fs) (p, ps) (q, qs) = ((p, q), both P Q fs ps qs)

  pub ready : (c : Cache) (f : Frame) → IsCut c f → IsReady rounds f
  ready c f cut = in_pieces cut.fragmentable cut.room

  pub ran_ok :
      (a b : Option Frame) (xs ys : List Frame) (r : Result (Option Frame × List Frame))
      → r ≡ ok (a, xs)
      → r ≡ ok (b, ys)
      → (a ≡ b) × (xs ≡ ys)
  ran_ok a b xs ys r e e' = (ap slot_of (sym e ∙ e'), ap out_of (sym e ∙ e'))
    where
      slot_of : Result (Option Frame × List Frame) → Option Frame
      slot_of (ok p) = p.0
      slot_of (err x) = none

      out_of : Result (Option Frame × List Frame) → List Frame
      out_of (ok p) = p.1
      out_of (err x) = []

  module _ (c : Cache) (keyed : IsKeyed c) (fs : List Frame) (sent : List Frame)
      (cuts : All (IsCut c) fs)
      (each : All (λ (f : Frame). on_stream f.stream_id sent ≡ frames_to_send rounds required f) fs)
      (nothing : (i : ℕ) → IsOther rounds required i fs → on_stream i sent ≡ []) where
    abbrev Sent : Frame → Type 0
    Sent f = IsCut c f × (on_stream f.stream_id sent ≡ frames_to_send rounds required f)

    sents : All Sent fs
    sents = both (IsCut c) _ fs cuts each

    own_run :
        (f : Frame) (s : Sent f)
        → let a = alone c f s.0 in
          append_slot_all (c f.stream_id) (on_stream f.stream_id sent)
          ≡ ok (a.rejoins.cache f.stream_id, a.rejoins.whole ∷ [])
    own_run f s = ap (append_slot_all (c f.stream_id)) s.1 ∙ slot_run c f s.0 (alone c f s.0) keyed

    other_run :
        (i : ℕ)
        → IsOther rounds required i fs
        → append_slot_all (c i) (on_stream i sent) ≡ ok (c i, [])
    other_run i other = ap (append_slot_all (c i)) (nothing i other)

    -- Every stream's run ends, and leaves the slot as it was.
    stream_run :
        (i : ℕ) → (gs : List Frame) × (append_slot_all (c i) (on_stream i sent) ≡ ok (c i, gs))
    stream_run i = elim (which Sent i fs sents) [
      | inl other ↦ ([], other_run i other)
      | inr (f, here, s) ↦
          let a = alone c f s.0 in
          subst
            (λ (j : ℕ).
              (gs : List Frame) × (append_slot_all (c j) (on_stream j sent) ≡ ok (c j, gs)))
            here
            (
              a.rejoins.whole ∷ [],
              own_run f s
                  ∙ ap (λ (o : Option Frame). ok (o, a.rejoins.whole ∷ []))
                      (a.rejoins.restored f.stream_id),
            )
    ]

    received :
        (cache : Cache) × (out : List Frame) × (append_all c sent ≡ ok (cache, out))
        × All (Delivered c out) fs
        × ((i : ℕ) → IsOther rounds required i fs → on_stream i out ≡ [])
        × ((i : ℕ) → cache i ≡ c i)
    received =
        let (cache, out, ran, agrees) =
          append_all-on_stream c sent keyed (λ i. let (gs, e) = stream_run i in ((c i, gs), e)) in
        (
          cache,
          out,
          ran,
          All-monotone
              (λ f s. record {
                fragments = (alone c f s.0).pieces;
                rejoined = (alone c f s.0).rejoins;
                delivered = (ran_ok _ _ _ _ _ (agrees f.stream_id) (own_run f s)).1;
              })
              fs sents,
          λ i other. (ran_ok _ _ _ _ _ (agrees i) (other_run i other)).1,
          λ i. let (gs, e) = stream_run i in (ran_ok _ _ _ _ _ (agrees i) e).0,
        )

  -- The frames of a queue are each cut into fragments and on distinct streams, and the receiver's
  -- cache holds nothing of the streams: within as many turns as there are fragments the sender sends
  -- them all, interleaved; the cache completes on the stream of each frame one frame, the frame
  -- rejoined, and nothing on other streams, and its slots are as before.
  pub append_all-send_queued :
      (turns : ℕ) (fs : List Frame) (c : Cache)
      → IsKeyed c
      → All (IsCut c) fs
      → HasDistinctStreams rounds required fs
      → frames_left rounds required fs ≤ turns
      → (cache : Cache) × (out : List Frame) × (append_all c
            (send_queued turns rounds required (map source fs)).1
          ≡ ok (cache, out))
        × All (Delivered c out) fs
        × ((i : ℕ) → IsOther rounds required i fs → on_stream i out ≡ [])
        × ((i : ℕ) → cache i ≡ c i)
  append_all-send_queued turns fs c keyed cuts distinct enough =
      let (emptied, each, nothing) =
        send_queued-frames_to_send rounds required turns fs (All-monotone (ready c) fs cuts)
          distinct enough in
      received c keyed fs _ cuts each nothing
