-- ===== src/FrameFragmentCache/Slot.antt =====
-- The cache does with each stream what it does with the stream alone.
use rsocket_py.Prelude.{
  ℕ, ◌≡◌, refl, sym, ap, ◌∙◌, subst, inl, inr, Bool, true, false, Option, none, some, List, [], ◌∷◌,
  Result, ok, err, ◌>>=◌, Result-cases, key_error, ◌==◌, if◌then◌else◌, Bool-cases,
}
use rsocket_py.Frame.Slots.{Body, Frame}
use rsocket_py.Frame.Fragmenting.{is_payload}
use rsocket_py.FrameFragmentCache.{
  Cache, put, pop, popped, merge_frame_content_inplace, update_flags, frame_fragment_builder,
  append, completed,
}
use rsocket_py.FrameFragmentCache.Reassembly.{same_id, put_at}

-- `append` for the slot of one stream: the slot afterwards, and the complete frame if there is one.
abbrev pub append_slot : Bool → Option Frame → Frame → Result (Option Frame × Option Frame)
append_slot true slot f = frame_fragment_builder slot f >>= λ built. ok (some built, none)
append_slot false none f = ok (none, some f)
append_slot false (some current) f =
    frame_fragment_builder (some current) f >>= λ built. ok (none, some built)

abbrev pub append_slot_all : Option Frame → List Frame → Result (Option Frame × List Frame)
append_slot_all slot [] = ok (slot, [])
append_slot_all slot (f ∷ fs) = do
  (slot, complete) ← append_slot f.flags_follows slot f
  (slot, rest) ← append_slot_all slot fs
  ok (slot, completed complete rest)

-- `append`, by its two tests.
abbrev append_by : Bool → Option Frame → Cache → Frame → Result (Cache × Option Frame)
append_by true slot c f =
    frame_fragment_builder slot f >>= λ built. ok (put c f.stream_id built, none)
append_by false none c f = ok (c, some f)
append_by false (some current) c f =
    frame_fragment_builder (some current) f >>= λ built. popped c built.stream_id built

-- The cached frame of a stream is a frame of the stream.
abbrev pub HasStream : ℕ → Option Frame → Type 0
HasStream i none = Unit
HasStream i (some f) = f.stream_id ≡ i

update_flags_stream :
    (b next : Body) (f : Frame) (complete : Bool)
    → (update_flags b next f complete).stream_id ≡ f.stream_id
update_flags_stream (Body.payload n) (Body.payload m) f complete = refl
update_flags_stream b next f complete = refl

-- The stream of a frame that is there.
abbrev stream_or : ℕ → Result Frame → ℕ
stream_or i (ok f) = f.stream_id
stream_or i (err e) = i

built_stream :
    (current f : Frame)
    → stream_or current.stream_id (frame_fragment_builder (some current) f) ≡ current.stream_id
unfolding frame_fragment_builder merge_frame_content_inplace
built_stream current f = elim (Bool-cases (is_payload f.body)) [
  | inl e ↦ rw e (update_flags_stream current.body f.body current f.flags_complete)
  | inr e ↦ rw e refl
]

built-HasStream :
    (slot : Option Frame) (f g : Frame)
    → HasStream f.stream_id slot
    → frame_fragment_builder slot f ≡ ok g
    → g.stream_id ≡ f.stream_id
unfolding frame_fragment_builder
built-HasStream none f g h e = ap (stream_or 0) (sym e)
built-HasStream (some current) f g h e =
    ap (stream_or current.stream_id) (sym e) ∙ built_stream current f ∙ h

-- The function that `append` is, by its two tests.
append-append_by :
    (c : Cache) (f : Frame) → append c f ≡ append_by f.flags_follows (c f.stream_id) c f
unfolding append
append-append_by c f = by_tests f.flags_follows (c f.stream_id)
  where
    by_tests :
        (b : Bool) (slot : Option Frame)
        → (if b
            then (frame_fragment_builder slot f >>= λ built. ok (put c f.stream_id built, none))
            else elim slot as (λ _. Result (Cache × Option Frame)) [
              | none ↦ ok (c, some f)
              | some current ↦ frame_fragment_builder (some current) f >>= λ built.
                  popped c built.stream_id built
            ])
          ≡ append_by b slot c f
    by_tests true slot = refl
    by_tests false none = refl
    by_tests false (some current) = refl

other_slot : (c : Cache) (id i : ℕ) (f : Frame) → (i == id) ≡ false → put c id f i ≡ c i
other_slot c id i f e = rw e refl

-- An append on one stream: the stream's slot and the complete frame are those of the stream alone,
-- and the other slots stay.
abbrev pub Matches :
    Cache → Frame → Result (Option Frame × Option Frame) → Result (Cache × Option Frame) → Type 0
Matches c f (ok (slot, complete)) (ok (cache, complete')) =
    (complete' ≡ complete)
    × (cache f.stream_id ≡ slot)
    × ((i : ℕ) → (i == f.stream_id) ≡ false → cache i ≡ c i)
    × HasStream f.stream_id slot
    × HasStream f.stream_id complete
Matches c f (err e) (err e') = e ≡ e'
Matches c f _ _ = ⊥

popped_there :
    (c : Cache) (id : ℕ) (current f : Frame)
    → c id ≡ some current
    → popped c id f ≡ ok (pop c id, some f)
popped_there c id current f e =
    ap
      (λ (o : Option Frame). elim o as (λ _. Result (Cache × Option Frame)) [
        | none ↦ err key_error
        | some old ↦ ok (pop c id, some f)
      ])
      e

removed_at : (c : Cache) (id : ℕ) → pop c id id ≡ none
removed_at c id = rw (same_id id) refl

removed_other : (c : Cache) (id i : ℕ) → (i == id) ≡ false → pop c id i ≡ c i
removed_other c id i e = rw e refl

append_by-Matches :
    (b : Bool) (before : Option Frame) (c : Cache) (f : Frame)
    → c f.stream_id ≡ before
    → HasStream f.stream_id before
    → Matches c f (append_slot b before f) (append_by b before c f)
append_by-Matches true before c f at h = elim (Result-cases (frame_fragment_builder before f)) [
  | inl (built, e) ↦ rw e (
    refl,
    put_at c f.stream_id built,
    (λ i other. other_slot c f.stream_id i built other),
    built-HasStream before f built h e,
    tt,
  )
  | inr (e', e) ↦ rw e refl
]
append_by-Matches false none c f at h = (refl, at, (λ i other. refl), tt, refl)
append_by-Matches false (some current) c f at h =
    elim (Result-cases (frame_fragment_builder (some current) f)) [
      | inl (built, e) ↦
          let same = built-HasStream (some current) f built h e in
          rw
            (
              e,
              ap (λ (id : ℕ). popped c id built) same,
              popped_there c f.stream_id current built at,
            )
            (
              refl,
              removed_at c f.stream_id,
              (λ i other. removed_other c f.stream_id i other),
              tt,
              same,
            )
      | inr (e', e) ↦ rw e refl
    ]

pub append-Matches :
    (c : Cache) (f : Frame)
    → HasStream f.stream_id (c f.stream_id)
    → Matches c f (append_slot f.flags_follows (c f.stream_id) f) (append c f)
append-Matches c f h =
    subst (Matches c f (append_slot f.flags_follows (c f.stream_id) f)) (sym (append-append_by c f))
      (append_by-Matches f.flags_follows (c f.stream_id) c f refl h)
