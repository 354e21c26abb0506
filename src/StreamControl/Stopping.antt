-- ===== src/StreamControl/Stopping.antt =====
-- Stopping all streams, with handlers that may raise.
use rsocket_py.Prelude.{
  ℕ, ◌≡◌, refl, sym, ap, ◌∙◌, inl, inr, Bool, true, false, List, [], ◌∷◌, ErrorCode, Error, ok, err,
  ◌==◌, ==_iff, Bool-cases,
}
use rsocket_py.Prelude.Actions.{Act, Runs, then-Runs, when-Runs}
use rsocket_py.Bytes.{Bytes}
use rsocket_py.Frame.Slots.{Frame}
use rsocket_py.StreamControl.{
  StreamControl, in_use, is_there, lookup, remove, finish_stream, finish, stop_frame, stop_stream,
  stop_each, stop_all_streams,
}
use rsocket_py.StreamControl.Registry.{lookup-remove, lookup-remove_other}

finished_kept {ℓ} :
    {H : Type ℓ} (id other : ℕ) (s : StreamControl H)
    → in_use other s ≡ false
    → in_use other (finish_stream id s) ≡ false
unfolding finish_stream
finished_kept id other s free = elim (Bool-cases (other == id)) [
  | inl e ↦
      ap (λ (i : ℕ). is_there (lookup i (remove id s.streams))) ((==_iff other id).0 e)
      ∙ ap is_there (lookup-remove id s.streams)
  | inr e ↦
      ap is_there
        (lookup-remove_other other id s.streams (λ same. cc ((==_iff other id).1 same, e)))
      ∙ free
]

finished {ℓ} : {H : Type ℓ} (id : ℕ) (s : StreamControl H) → in_use id (finish_stream id s) ≡ false
unfolding finish_stream
finished id s = ap is_there (lookup-remove id s.streams)

module _ {ℓ κ} {H : Type ℓ} {W : Type κ} where
  abbrev pub IsFree : ℕ → StreamControl H × W → Type 0
  IsFree id state = in_use id state.0 ≡ false

  -- The action never raises, and every id that is free stays free.
  abbrev pub OpensNone : Act (StreamControl H × W) (Unit {0}) → Type (ℓ ⊔ κ)
  OpensNone m =
      (s : StreamControl H × W)
      → (s' : StreamControl H × W) × (m s ≡ (s', ok tt)) × ((id : ℕ) → IsFree id s → IsFree id s')

  OpensNone-IsFree :
      (m : Act (StreamControl H × W) (Unit {0})) (id : ℕ)
      → OpensNone m
      → Runs (IsFree id) m (IsFree id)
  OpensNone-IsFree m id h s free = let (s', e, kept) = h s in (s', tt, e, kept id free)

  OpensNone-Runs :
      (m : Act (StreamControl H × W) (Unit {0}))
      → OpensNone m
      → Runs (λ s. Unit {0}) m (λ s. Unit {0})
  OpensNone-Runs m h s u = let (s', e, kept) = h s in (s', tt, e, tt)

module _ {ℓ κ} {H : Type ℓ} {W : Type κ}
    (frame_received : H → Frame → Act (StreamControl H × W) (Unit {0}))
    (dispose : H → Act (StreamControl H × W) (Unit {0}))
    (is_requester is_disposable : H → Bool) where
  abbrev stop : ErrorCode → Bytes → ℕ → H → Act (StreamControl H × W) (Unit {0})
  stop = stop_stream frame_received dispose is_requester is_disposable

  abbrev stops : ErrorCode → Bytes → List (ℕ × H) → Act (StreamControl H × W) (Unit {0})
  stops = stop_each frame_received dispose is_requester is_disposable

  stop_each_raises :
      (code : ErrorCode) (b : Bytes) (id : ℕ) (h : H) (items : List (ℕ × H))
      (s s' : StreamControl H × W) (e : Error)
      → is_requester h ≡ true
      → frame_received h (stop_frame id code b) s ≡ (s', err e)
      → stops code b ((id, h) ∷ items) s ≡ (s', err e)
  unfolding stop_each stop_stream
  stop_each_raises code b id h items s s' e requests raises = rw (requests, raises) refl

  -- If the handler of the first open stream is a requester that raises, then `stop_all_streams`
  -- raises the same, and the handlers behind it are not called: the state is as the first one has
  -- left it.
  pub stop_all_streams_raises :
      (code : ErrorCode) (b : Bytes) (id : ℕ) (h : H) (items : List (ℕ × H))
      (s s' : StreamControl H × W) (e : Error)
      → s.0.streams ≡ (id, h) ∷ items
      → is_requester h ≡ true
      → frame_received h (stop_frame id code b) s ≡ (s', err e)
      → stop_all_streams frame_received dispose is_requester is_disposable code b s ≡ (s', err e)
  unfolding stop_all_streams
  stop_all_streams_raises code b id h items s s' e there requests raises =
      ap (λ (l : List (ℕ × H)). stops code b l s) there
      ∙ stop_each_raises code b id h items s s' e requests raises

module _ {ℓ κ} {H : Type ℓ} {W : Type κ}
    (frame_received : H → Frame → Act (StreamControl H × W) (Unit {0}))
    (dispose : H → Act (StreamControl H × W) (Unit {0})) (is_requester is_disposable : H → Bool)
    (received_opens_none : (h : H) (f : Frame) → OpensNone (frame_received h f))
    (dispose_opens_none : (h : H) → OpensNone (dispose h)) where
  stop_stream-IsFree :
      (code : ErrorCode) (b : Bytes) (id : ℕ) (h : H) (other : ℕ)
      → Runs
          (IsFree other)
          (stop_stream frame_received dispose is_requester is_disposable code b id h)
          (IsFree other)
  unfolding stop_stream finish
  stop_stream-IsFree code b id h other =
      then-Runs _ (finish id)
        (then-Runs _ _
          (when-Runs (is_requester h) _ (OpensNone-IsFree _ other (received_opens_none h _)))
          (when-Runs (is_disposable h) _ (OpensNone-IsFree _ other (dispose_opens_none h))))
        (λ s free. (_, tt, refl, finished_kept id other s.0 free))

  stop_frees :
      (code : ErrorCode) (b : Bytes) (id : ℕ) (h : H)
      → Runs
          (λ s. Unit {0})
          (stop_stream frame_received dispose is_requester is_disposable code b id h)
          (IsFree id)
  unfolding stop_stream finish
  stop_frees code b id h =
      then-Runs _ (finish id)
        (then-Runs _ _ (when-Runs (is_requester h) _ (OpensNone-Runs _ (received_opens_none h _)))
          (when-Runs (is_disposable h) _ (OpensNone-Runs _ (dispose_opens_none h))))
        (λ s p. (_, tt, refl, finished id s.0))

  -- A stream that is stopped: the id is free if it was, or if it is the stream's.
  next_frees :
      (code : ErrorCode) (b : Bytes) (k : ℕ) (h : H) (items : List (ℕ × H)) (id : ℕ)
      → Runs
          (λ s. is_there (lookup id ((k, h) ∷ items)) ≡ false → IsFree id s)
          (stop_stream frame_received dispose is_requester is_disposable code b k h)
          (λ s. is_there (lookup id items) ≡ false → IsFree id s)
  unfolding lookup
  next_frees code b k h items id s free = elim (Bool-cases (k == id)) [
    | inl same ↦
        let (s', u, e, freed) = stop_frees code b k h s tt in
        (s', u, e, λ absent. ap (λ (i : ℕ). in_use i s'.0) (sym ((==_iff k id).0 same)) ∙ freed)
    | inr other ↦ elim (Bool-cases (is_there (lookup id items))) [
      | inl there ↦
          let (s', u, e, freed) = stop_frees code b k h s tt in
          (s', u, e, λ absent. cc (there, absent))
      | inr absent ↦
          let (s', u, e, kept) = stop_stream-IsFree code b k h id s (free (rw other absent)) in
          (s', u, e, λ _. kept)
    ]
  ]

  stop_each_frees :
      (code : ErrorCode) (b : Bytes) (items : List (ℕ × H)) (id : ℕ)
      → Runs
          (λ s. is_there (lookup id items) ≡ false → IsFree id s)
          (stop_each frame_received dispose is_requester is_disposable code b items)
          (IsFree id)
  unfolding stop_each lookup
  stop_each_frees code b [] id = λ s h. (s, tt, refl, h refl)
  stop_each_frees code b ((k, h) ∷ items) id =
      then-Runs _ _ (next_frees code b k h items id) (stop_each_frees code b items id)

  -- If no handler raises or opens a stream when it receives a frame or is disposed of, then
  -- `stop_all_streams` does not raise, and no id is in use behind it.
  pub stop_all_streams_frees :
      (code : ErrorCode) (b : Bytes) (s : StreamControl H × W) (id : ℕ)
      → let r = stop_all_streams frame_received dispose is_requester is_disposable code b s in
        (r.1 ≡ ok tt) × IsFree id r.0
  unfolding stop_all_streams
  stop_all_streams_frees code b s id =
      let (s', u, e, freed) = stop_each_frees code b s.0.streams id s (λ absent. absent) in
      rw e (refl, freed)
