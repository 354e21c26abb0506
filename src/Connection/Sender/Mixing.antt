-- ===== src/Connection/Sender/Mixing.antt =====
-- Two fragmented frames in the queue: their fragments alternate, on one stream too.
use rsocket_py.Prelude.{ℕ, ◌≡◌, refl, sym, ap, ◌∙◌, subst, Bool, List, [], ◌∷◌}
use rsocket_py.Frame.Slots.{Frame}
use rsocket_py.Connection.{Source, source}
use rsocket_py.Connection.Sender.{get_next_frame_to_send, send_queued}
use rsocket_py.Connection.Sender.InOrder.{Plan, Plans, Turns, turn_lem}
use rsocket_py.Connection.Sender.Ready.{IsReady, frames_to_send, planned}

abbrev first_or : Frame → List Frame → Frame
first_or f [] = f
first_or f (g ∷ gs) = g

abbrev others : List Frame → List Frame
others [] = []
others (g ∷ gs) = gs

module _ (rounds : ℕ) (required : Bool) where
  -- The plan of a frame with the frames that it has to send.
  plan_of :
      (f g : Frame) (gs : List Frame)
      → IsReady rounds f
      → frames_to_send rounds required f ≡ g ∷ gs
      → Plan rounds required (source f) g gs
  plan_of f g gs r e =
      let p = planned rounds required f r in
      let same = sym p.all ∙ e in
      subst (λ (h : Frame). Plan rounds required (source f) h gs) (ap (first_or g) same)
        (subst (Plan rounds required (source f) p.first) (ap others same) p.plan)

  any_turn :
      (queue : List Source) (k : ℕ) (f : Frame) (fs : List Frame)
      (plans : List (ℕ × Frame × List Frame))
      → Plans rounds required queue ((k, f, fs) ∷ plans)
      → Turns rounds required k f fs plans (get_next_frame_to_send rounds required queue)
  any_turn [] k f fs plans h = absurd h
  any_turn (s ∷ queue) k f fs plans h = turn_lem rounds required s queue k f fs plans h

  two_turns :
      (queue : List Source) (k j : ℕ) (f f' g g' : Frame) (fs gs : List Frame)
      → Plans rounds required queue ((k, f, f' ∷ fs) ∷ (j, g, g' ∷ gs) ∷ [])
      → (send_queued 2 rounds required queue).1 ≡ f ∷ g ∷ []
  unfolding send_queued
  two_turns queue k j f f' g g' fs gs h =
      let (first, at, next) = any_turn queue k f (f' ∷ fs) ((j, g, g' ∷ gs) ∷ []) h in
      let (second, at', rest) = any_turn _ j g (g' ∷ gs) ((k, f', fs) ∷ []) next in
      rw (first, second) refl

  -- With two frames in the queue that are each cut into several fragments, the sender sends the
  -- first fragment of the one, and then that of the other, whether or not their streams are the same.
  pub send_queued_alternates :
      (f g f1 f2 g1 g2 : Frame) (fs gs : List Frame)
      → IsReady rounds f
      → IsReady rounds g
      → frames_to_send rounds required f ≡ f1 ∷ f2 ∷ fs
      → frames_to_send rounds required g ≡ g1 ∷ g2 ∷ gs
      → (send_queued 2 rounds required (source f ∷ source g ∷ [])).1 ≡ f1 ∷ g1 ∷ []
  send_queued_alternates f g f1 f2 g1 g2 fs gs r r' e e' =
      two_turns _ f.stream_id g.stream_id f1 f2 g1 g2 fs gs
        (refl, plan_of f f1 (f2 ∷ fs) r e, (refl, plan_of g g1 (g2 ∷ gs) r' e', tt))
