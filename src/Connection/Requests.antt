-- ===== src/Connection/Requests.antt =====
-- The requests among the queued frames.
use rsocket_py.Prelude.{
  ◌≡◌, refl, sym, ap, ◌∙◌, ◌⊎◌, inl, inr, false, List, [], ◌∷◌, ◌++◌, map, append_assoc, append-nil,
  Result, ok, err, if◌then◌else◌, Bool-cases,
}
use rsocket_py.Frame.Slots.{Frame}
use rsocket_py.Connection.{Source, source, Socket, is_initiate_request, is_full}
use rsocket_py.Connection.Sending.{send_frame, queue_request_frame}

abbrev pub kept : Frame → List Frame → List Frame
kept f fs = if is_initiate_request f.body then f ∷ fs else fs

-- The request frames among some frames.
abbrev pub initiating : List Frame → List Frame
initiating [] = []
initiating (f ∷ fs) = kept f (initiating fs)

kept-append : (f : Frame) (xs ys : List Frame) → kept f xs ++ ys ≡ kept f (xs ++ ys)
kept-append f xs ys = elim (Bool-cases (is_initiate_request f.body)) [
  | inl e ↦ rw e refl
  | inr e ↦ rw e refl
]

initiating-append : (xs ys : List Frame) → initiating (xs ++ ys) ≡ initiating xs ++ initiating ys
initiating-append [] ys = refl
initiating-append (f ∷ xs) ys =
    ap (kept f) (initiating-append xs ys) ∙ sym (kept-append f (initiating xs) (initiating ys))

abbrev pub frames_of : List Source → List Frame
frames_of = map (λ (s : Source). s.frame)

frames_of-append : (xs ys : List Source) → frames_of (xs ++ ys) ≡ frames_of xs ++ frames_of ys
frames_of-append [] ys = refl
frames_of-append (x ∷ xs) ys = ap (◌∷◌ x.frame) (frames_of-append xs ys)

-- A request that is made and not refused by a full queue.
abbrev pub taken : Frame → Result (Unit {0}) → List Frame
taken f (ok u) = initiating (f ∷ [])
taken f (err e) = []

module _ {ℓ} {A : Type ℓ} where
  -- The requests that have not left yet, in the order in which they will.
  abbrev pub requests_of : Socket A → List Frame
  requests_of s = initiating (frames_of s.send_queue ++ s.request_queue)

  pub moved :
      (s : Socket A) (f : Frame) (rest : List Frame)
      → s.request_queue ≡ f ∷ rest
      → frames_of (s.send_queue ++ (source f ∷ [])) ++ rest
        ≡ frames_of s.send_queue ++ s.request_queue
  moved s f rest e =
      rw (e, frames_of-append s.send_queue (source f ∷ []), append_assoc (frames_of s.send_queue))
        refl

  split :
      (f : Frame) (s : Socket A)
      → requests_of (send_frame f s)
        ≡ (initiating (frames_of s.send_queue) ++ initiating (f ∷ [])) ++ initiating s.request_queue
  unfolding send_frame
  split f s =
      rw
        (
          frames_of-append s.send_queue (source f ∷ []),
          initiating-append (frames_of s.send_queue ++ (f ∷ [])) s.request_queue,
          initiating-append (frames_of s.send_queue) (f ∷ []),
        )
        refl

  pub sent :
      (f : Frame) (s : Socket A)
      → (s.request_queue ≡ []) ⊎ (is_initiate_request f.body ≡ false)
      → requests_of (send_frame f s) ≡ requests_of s ++ initiating (f ∷ [])
  sent f s (inl e) =
      split f s
      ∙ rw
          (
            e,
            append-nil (initiating (frames_of s.send_queue) ++ initiating (f ∷ [])),
            append-nil (frames_of s.send_queue),
          )
          refl
  sent f s (inr e) =
      split f s
      ∙ rw (e, initiating-append (frames_of s.send_queue) s.request_queue)
          (rw
            (
              append-nil (initiating (frames_of s.send_queue)),
              append-nil (initiating (frames_of s.send_queue) ++ initiating s.request_queue),
            )
            refl)

  pub queued :
      (f : Frame) (s : Socket A)
      → let r = queue_request_frame f s in requests_of r.0 ≡ requests_of s ++ taken f r.1
  unfolding queue_request_frame
  queued f s = elim (Bool-cases (is_full s)) [
    | inl full ↦ rw full (sym (append-nil (requests_of s)))
    | inr room ↦ rw room (
        ap initiating (sym (append_assoc (frames_of s.send_queue) s.request_queue (f ∷ [])))
        ∙ initiating-append (frames_of s.send_queue ++ s.request_queue) (f ∷ []))
  ]
