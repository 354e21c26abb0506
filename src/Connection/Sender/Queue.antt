-- ===== src/Connection/Sender/Queue.antt =====
-- What the sender sends of a queue of frames.
use rsocket_py.Prelude.{
  ℕ, ◌+◌, ◌≤◌, ◌≡◌, refl, sym, ap, ◌∙◌, subst, Bool, false, List, [], ◌∷◌, map, append-nil, arith,
  All, All-monotone, length, ◌==◌, ==_iff,
}
use rsocket_py.Frame.Slots.{Frame}
use rsocket_py.FrameFragmentCache.Interleaved.{on_stream}
use rsocket_py.Connection.{Source, source}
use rsocket_py.Connection.Sender.{send_queued}
use rsocket_py.Connection.Sender.RoundRobin.{
  queued_of, total, Distinct, IsAbsent, queued_of_absent, swapped, round_robin_lem,
}
use rsocket_py.Connection.Sender.InOrder.{Plans, turns_lem}
use rsocket_py.Connection.Sender.Ready.{IsReady, frames_to_send, planned}

module _ (rounds : ℕ) (required : Bool) where
  -- The number of frames that a queue has to send.
  abbrev pub frames_left : List Frame → ℕ
  frames_left [] = 0
  frames_left (f ∷ fs) = length (frames_to_send rounds required f) + frames_left fs

  -- Another stream than those of the frames.
  abbrev pub IsOther : ℕ → List Frame → Type 0
  IsOther i fs = All (λ (g : Frame). (g.stream_id == i) ≡ false) fs

  abbrev pub HasDistinctStreams : List Frame → Type 0
  HasDistinctStreams [] = Unit
  HasDistinctStreams (f ∷ fs) = IsOther f.stream_id fs × HasDistinctStreams fs

  -- The plans of a queue of frames that are ready.
  plans_of : (fs : List Frame) → All (IsReady rounds) fs → List (ℕ × Frame × List Frame)
  plans_of [] ready = []
  plans_of (f ∷ fs) (r, ready) =
      let p = planned rounds required f r in (f.stream_id, p.first, p.more) ∷ plans_of fs ready

  plans_of-Plans :
      (fs : List Frame) (ready : All (IsReady rounds) fs)
      → Plans rounds required (map source fs) (plans_of fs ready)
  unfolding plans_of
  plans_of-Plans [] ready = tt
  plans_of-Plans (f ∷ fs) (r, ready) =
      (refl, (planned rounds required f r).plan, plans_of-Plans fs ready)

  total-plans_of :
      (fs : List Frame) (ready : All (IsReady rounds) fs)
      → total (plans_of fs ready) ≡ frames_left fs
  unfolding plans_of
  total-plans_of [] ready = refl
  total-plans_of (f ∷ fs) (r, ready) =
      omega (arith, ap length (planned rounds required f r).all, total-plans_of fs ready)

  plans_of-IsAbsent :
      (i : ℕ) (fs : List Frame) (ready : All (IsReady rounds) fs)
      → IsOther i fs
      → IsAbsent i (plans_of fs ready)
  unfolding plans_of
  plans_of-IsAbsent i [] ready h = tt
  plans_of-IsAbsent i (f ∷ fs) (r, ready) (e, h) = (e, plans_of-IsAbsent i fs ready h)

  plans_of-Distinct :
      (fs : List Frame) (ready : All (IsReady rounds) fs)
      → HasDistinctStreams fs
      → Distinct (plans_of fs ready)
  unfolding plans_of
  plans_of-Distinct [] ready h = tt
  plans_of-Distinct (f ∷ fs) (r, ready) (e, h) =
      (plans_of-IsAbsent f.stream_id fs ready e, plans_of-Distinct fs ready h)

  shifted :
      (k : ℕ) (f : Frame) (fs : List Frame) (plans : List (ℕ × Frame × List Frame))
      (gs : List Frame)
      → IsOther k gs
      → All (λ (g : Frame). queued_of g.stream_id plans ≡ frames_to_send rounds required g) gs
      → All
          (λ (g : Frame).
            queued_of g.stream_id ((k, f, fs) ∷ plans) ≡ frames_to_send rounds required g)
          gs
  shifted k f fs plans [] other h = tt
  shifted k f fs plans (g ∷ gs) (e, other) (same, h) =
      (rw (swapped k g.stream_id e) same, shifted k f fs plans gs other h)

  -- The plans have, under the stream of each frame, what the frame has to send.
  queued_of-plans_of :
      (fs : List Frame) (ready : All (IsReady rounds) fs)
      → HasDistinctStreams fs
      → All
          (λ (f : Frame).
            queued_of f.stream_id (plans_of fs ready) ≡ frames_to_send rounds required f)
          fs
  unfolding plans_of
  queued_of-plans_of [] ready h = tt
  queued_of-plans_of (f ∷ fs) (r, ready) (e, h) = (
    rw
        (
          (==_iff f.stream_id f.stream_id).1 refl,
          queued_of_absent f.stream_id (plans_of fs ready)
              (plans_of-IsAbsent f.stream_id fs ready e),
        )
        (append-nil ((planned rounds required f r).first ∷ (planned rounds required f r).more)
          ∙ sym (planned rounds required f r).all),
    shifted f.stream_id _ _ (plans_of fs ready) fs e (queued_of-plans_of fs ready h),
  )

  ended : (queue : List Source) → Plans rounds required queue [] → queue ≡ []
  ended [] h = refl
  ended (s ∷ queue) h = absurd h

  -- A queue of frames that are ready and whose streams are distinct: within as many turns as there
  -- are frames to send, the sender empties the queue, and what it has sent on the stream of each
  -- frame are the frames of its fragments, in order; on other streams it has sent nothing.
  pub send_queued-frames_to_send :
      (turns : ℕ) (fs : List Frame)
      → All (IsReady rounds) fs
      → HasDistinctStreams fs
      → frames_left fs ≤ turns
      → let r = send_queued turns rounds required (map source fs) in
        (r.0 ≡ [])
        × All (λ (f : Frame). on_stream f.stream_id r.1 ≡ frames_to_send rounds required f) fs
        × ((i : ℕ) → IsOther i fs → on_stream i r.1 ≡ [])
  send_queued-frames_to_send turns fs ready distinct enough =
      let (left, same) =
        turns_lem rounds required turns (map source fs) (plans_of fs ready)
          (plans_of-Plans fs ready) in
      let (emptied, in_order) =
        round_robin_lem turns (plans_of fs ready) (omega (arith, total-plans_of fs ready))
          (plans_of-Distinct fs ready distinct) in
      (
        ended _ (subst (Plans rounds required _) emptied left),
        All-monotone (λ f e. same f.stream_id ∙ in_order f.stream_id ∙ e) fs
            (queued_of-plans_of fs ready distinct),
        λ i other.
            same i
            ∙ in_order i
            ∙ queued_of_absent i (plans_of fs ready) (plans_of-IsAbsent i fs ready other),
      )
