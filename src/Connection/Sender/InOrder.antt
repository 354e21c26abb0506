-- ===== src/Connection/Sender/InOrder.antt =====
-- The sender's loop is a round robin over the fragments of the queued frames.
use rsocket_py.Prelude.{cons_if}
use rsocket_py.Prelude.{
  ℕ, zero, suc, ◌≡◌, refl, ap, ◌∙◌, Bool, true, false, some, List, [], ◌∷◌, ◌++◌, map, ◌==◌, ok,
}
use rsocket_py.Frame.Slots.{Frame}
use rsocket_py.Frame.Fragmenting.{
  is_fragmentable_frame, get_next_fragment, next_of, new_frame_fragment,
}
use rsocket_py.FrameFragmenter.{Fragment}
use rsocket_py.FrameFragmentCache.Interleaved.{on_stream}
use rsocket_py.Connection.{Source}
use rsocket_py.Connection.Sender.{
  Turn, sending, after_fragment, get_next_frame_to_send, send_queued,
}
use rsocket_py.Connection.Sender.RoundRobin.{back, round_robin, taken_of}

-- All frames but the last say that fragments follow.
abbrev pub Follows : Frame → List Frame → Type 0
Follows f [] = f.flags_follows ≡ false
Follows f (g ∷ fs) = (f.flags_follows ≡ true) × Follows g fs

-- The frames that a queued source still gives the transport: a first one and the others.
module _ (rounds : ℕ) (required : Bool) where
  pub data Plan (s : Source) : Frame → List Frame → Type 0 where
    whole : is_fragmentable_frame s.frame ≡ false → Plan s s.frame []
    cut :
        is_fragmentable_frame s.frame ≡ true
        → (p : Fragment) (ps : List Fragment)
        → get_next_fragment rounds required s.frame s.generator
          ≡ ok (some (next_of s.frame (p ∷ ps)))
        → Follows (new_frame_fragment s.frame p) (map (new_frame_fragment s.frame) ps)
        → Plan s (new_frame_fragment s.frame p) (map (new_frame_fragment s.frame) ps)

  -- A queue of sources and their plans, by stream id.
  abbrev pub Plans : List Source → List (ℕ × Frame × List Frame) → Type 0
  Plans [] [] = Unit
  Plans (s ∷ queue) ((k, f, fs) ∷ plans) = (s.frame.stream_id ≡ k) × Plan s f fs × Plans queue plans
  Plans _ _ = ⊥

  Plans-snoc :
      (queue : List Source) (plans : List (ℕ × Frame × List Frame)) (s : Source) (k : ℕ) (f : Frame)
      (fs : List Frame)
      → Plans queue plans
      → s.frame.stream_id ≡ k
      → Plan s f fs
      → Plans (queue ++ (s ∷ [])) (plans ++ ((k, f, fs) ∷ []))
  Plans-snoc [] [] s k f fs h e p = (e, p, tt)
  Plans-snoc [] (x ∷ plans) s k f fs h e p = absurd h
  Plans-snoc (t ∷ queue) [] s k f fs h e p = absurd h
  Plans-snoc (t ∷ queue) ((j, g, gs) ∷ plans) s k f fs (e', q, h) e p =
      (e', q, Plans-snoc queue plans s k f fs h e p)

  -- What a turn of the sender has to do with a turn of the round robin.
  abbrev pub Turns :
      ℕ → Frame → List Frame → List (ℕ × Frame × List Frame) → List Source × Turn → Type 0
  Turns k f fs plans (queue, turn) =
      (turn ≡ sending f) × (f.stream_id ≡ k) × Plans queue (back k fs plans)

  cut_turn :
      (s : Source) (queue : List Source) (k : ℕ) (plans : List (ℕ × Frame × List Frame))
      (p : Fragment) (ps : List Fragment)
      → s.frame.stream_id ≡ k
      → is_fragmentable_frame s.frame ≡ true
      → Follows (new_frame_fragment s.frame p) (map (new_frame_fragment s.frame) ps)
      → Plans queue plans
      → Turns k
          (new_frame_fragment s.frame p)
          (map (new_frame_fragment s.frame) ps)
          plans
          (after_fragment s queue (ok (some (next_of s.frame (p ∷ ps)))))
  unfolding new_frame_fragment get_next_fragment
  cut_turn s queue k plans p [] e cuts follows h = (refl, e, rw follows h)
  cut_turn s queue k plans p (q ∷ ps) e cuts (follows, more) h =
      (refl, e, rw follows (Plans-snoc queue plans _ k _ _ h e (cut cuts q ps refl more)))

  pub turn_lem :
      (s : Source) (queue : List Source) (k : ℕ) (f : Frame) (fs : List Frame)
      (plans : List (ℕ × Frame × List Frame))
      → Plans (s ∷ queue) ((k, f, fs) ∷ plans)
      → Turns k f fs plans (get_next_frame_to_send rounds required (s ∷ queue))
  unfolding get_next_frame_to_send
  turn_lem s queue k f fs plans (e, whole w, h) = rw w (refl, e, h)
  turn_lem s queue k f fs plans (e, cut cuts p ps next follows, h) =
      rw (cuts, next) (cut_turn s queue k plans p ps e cuts follows h)

  pub turns_lem :
      (turns : ℕ) (queue : List Source) (plans : List (ℕ × Frame × List Frame))
      → Plans queue plans
      → let r = send_queued turns rounds required queue in
        Plans r.0 (round_robin turns plans).0
        × ((i : ℕ) → on_stream i r.1 ≡ taken_of i (round_robin turns plans).1)
  unfolding send_queued round_robin
  turns_lem zero queue plans h = (h, λ i. refl)
  turns_lem (suc turns) [] [] h = (unfold get_next_frame_to_send in (tt, λ i. refl))
  turns_lem (suc turns) [] (x ∷ plans) h = absurd h
  turns_lem (suc turns) (s ∷ queue) [] h = absurd h
  turns_lem (suc turns) (s ∷ queue) ((k, f, fs) ∷ plans) h =
      let (is_sent, at_stream, next) = turn_lem s queue k f fs plans h in
      let (left, same) = turns_lem turns _ _ next in
      rw is_sent (
        left,
        λ i.
            ap (cons_if (f.stream_id == i) f) (same i)
            ∙ ap
                (λ (j : ℕ). cons_if (j == i) f (taken_of i (round_robin turns (back k fs plans)).1))
                at_stream,
      )
