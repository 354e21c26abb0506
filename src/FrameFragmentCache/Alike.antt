-- ===== src/FrameFragmentCache/Alike.antt =====
-- The cache cannot tell a frame from one with the same content: `None` and the empty byte string,
-- the flag `next` and the lengths in the header make no difference to what it joins.
use rsocket_py.Prelude.{
  ◌≡◌, refl, sym, ap, ◌∙◌, subst, Bool, true, false, Option, none, some, List, [], ◌∷◌, inl, inr,
  Result, ok, err, ◌>>=◌, if◌then◌else◌, Bool-cases,
}
use rsocket_py.Frame.Slots.{Body, Frame}
use rsocket_py.Frame.Serialize.{bytes_of}
use rsocket_py.Frame.Fragmenting.{is_payload}
use rsocket_py.FrameFragmentCache.{
  merge_frame_content_inplace, update_flags, frame_fragment_builder, completed,
}
use rsocket_py.FrameFragmentCache.Reassembly.{bytes_of-joined}
use rsocket_py.FrameFragmentCache.Slot.{append_slot, append_slot_all}

-- Two frames of one class and stream with the same content.
pub record Alike (f g : Frame) : Type 0 where
  pub same_stream : f.stream_id ≡ g.stream_id
  pub same_type : f.frame_type ≡ g.frame_type
  pub same_follows : f.flags_follows ≡ g.flags_follows
  pub same_complete : f.flags_complete ≡ g.flags_complete
  pub same_data : bytes_of f.data_bytes ≡ bytes_of g.data_bytes
  pub same_metadata : bytes_of f.metadata ≡ bytes_of g.metadata
  pub both_payload : is_payload f.body ≡ is_payload g.body
  pub same_request : is_payload f.body ≡ false → f.body ≡ g.body

-- What the assignment of the two flags leaves, if the next frame is a payload frame.
record Flagged (b : Body) (f : Frame) (complete : Bool) (g : Frame) : Type 0 where
  same_stream : g.stream_id ≡ f.stream_id
  same_type : g.frame_type ≡ f.frame_type
  same_follows : g.flags_follows ≡ f.flags_follows
  same_data : g.data_bytes ≡ f.data_bytes
  same_metadata : g.metadata ≡ f.metadata
  completes : g.flags_complete ≡ (if is_payload b then complete else f.flags_complete)
  still : f.body ≡ b → is_payload g.body ≡ is_payload b
  requested : is_payload b ≡ false → g.body ≡ f.body

update_flags_unchanged :
    (b n : Body) (f : Frame) (complete : Bool)
    → is_payload b ≡ false
    → update_flags b n f complete ≡ f
update_flags_unchanged (Body.payload x) n f complete e = cc e
update_flags_unchanged b n f complete e = refl

unchanged-Flagged :
    (b : Body) (f g : Frame) (complete : Bool)
    → is_payload b ≡ false
    → g ≡ f
    → Flagged b f complete g
unchanged-Flagged b f g complete e same = record {
  same_stream = ap (λ (h : Frame). h.stream_id) same;
  same_type = ap (λ (h : Frame). h.frame_type) same;
  same_follows = ap (λ (h : Frame). h.flags_follows) same;
  same_data = ap (λ (h : Frame). h.data_bytes) same;
  same_metadata = ap (λ (h : Frame). h.metadata) same;
  completes = rw e (ap (λ (h : Frame). h.flags_complete) same);
  still = λ at. ap (λ (h : Frame). is_payload h.body) same ∙ ap is_payload at;
  requested = λ p. ap (λ (h : Frame). h.body) same;
}

update_flags-Flagged :
    (b n : Body) (f : Frame) (complete : Bool)
    → is_payload n ≡ true
    → Flagged b f complete (update_flags b n f complete)
update_flags-Flagged (Body.payload x) (Body.payload m) f complete e = record {
  same_stream = refl;
  same_type = refl;
  same_follows = refl;
  same_data = refl;
  same_metadata = refl;
  completes = refl;
  still = λ at. refl;
  requested = λ p. cc p;
}
update_flags-Flagged (Body.payload x) n f complete e = cc e
update_flags-Flagged b n f complete e =
    unchanged-Flagged b f (update_flags b n f complete) complete refl refl

joined_alike :
    (a b x y : Frame)
    → bytes_of a.data_bytes ≡ bytes_of b.data_bytes
    → bytes_of x.data_bytes ≡ bytes_of y.data_bytes
    → bytes_of (merge_frame_content_inplace a x).data_bytes
      ≡ bytes_of (merge_frame_content_inplace b y).data_bytes
unfolding merge_frame_content_inplace
joined_alike a b x y e f =
    bytes_of-joined a.data_bytes x.data_bytes
    ∙ rw (e, f) (sym (bytes_of-joined b.data_bytes y.data_bytes))

joined_metadata_alike :
    (a b x y : Frame)
    → bytes_of a.metadata ≡ bytes_of b.metadata
    → bytes_of x.metadata ≡ bytes_of y.metadata
    → bytes_of (merge_frame_content_inplace a x).metadata
      ≡ bytes_of (merge_frame_content_inplace b y).metadata
unfolding merge_frame_content_inplace
joined_metadata_alike a b x y e f =
    bytes_of-joined a.metadata x.metadata ∙ rw (e, f) (sym (bytes_of-joined b.metadata y.metadata))

merged-Alike :
    (a b x y : Frame)
    → Alike a b
    → Alike x y
    → Alike (merge_frame_content_inplace a x) (merge_frame_content_inplace b y)
unfolding merge_frame_content_inplace
merged-Alike a b x y r s =
    let datas = joined_alike a b x y r.same_data s.same_data in
    let metadatas = joined_metadata_alike a b x y r.same_metadata s.same_metadata in
    record {
      same_stream = r.same_stream;
      same_type = r.same_type;
      same_follows = r.same_follows;
      same_complete = r.same_complete;
      same_data = datas;
      same_metadata = metadatas;
      both_payload = r.both_payload;
      same_request = r.same_request;
    }

Flagged-Alike :
    (f g f' g' : Frame) (b : Bool)
    → Alike f g
    → Flagged f.body f b f'
    → Flagged g.body g b g'
    → Alike f' g'
Flagged-Alike f g f' g' b r u v = record {
  same_stream = u.same_stream ∙ r.same_stream ∙ sym v.same_stream;
  same_type = u.same_type ∙ r.same_type ∙ sym v.same_type;
  same_follows = u.same_follows ∙ r.same_follows ∙ sym v.same_follows;
  same_complete = u.completes ∙ rw (r.both_payload, r.same_complete) (sym v.completes);
  same_data = ap bytes_of u.same_data ∙ r.same_data ∙ sym (ap bytes_of v.same_data);
  same_metadata = ap bytes_of u.same_metadata ∙ r.same_metadata ∙ sym (ap bytes_of v.same_metadata);
  both_payload = u.still refl ∙ r.both_payload ∙ sym (v.still refl);
  same_request = λ e.
      let p : is_payload f.body ≡ false = sym (u.still refl) ∙ e in
      u.requested p ∙ r.same_request p ∙ sym (v.requested (sym r.both_payload ∙ p));
}

abbrev AlikeSlot : Option Frame → Option Frame → Type 0
AlikeSlot none none = Unit
AlikeSlot (some f) (some g) = Alike f g
AlikeSlot _ _ = ⊥

abbrev AlikeResult : Result Frame → Result Frame → Type 0
AlikeResult (ok f) (ok g) = Alike f g
AlikeResult (err e) (err e') = e ≡ e'
AlikeResult _ _ = ⊥

built_on-Alike :
    (a b x y : Frame)
    → Alike a b
    → Alike x y
    → AlikeResult (frame_fragment_builder (some a) x) (frame_fragment_builder (some b) y)
unfolding frame_fragment_builder
built_on-Alike a b x y r s = elim (Bool-cases (is_payload x.body)) [
  | inl e ↦
      let e' : is_payload y.body ≡ true = sym s.both_payload ∙ e in
      rw (e, e')
        (merged-Alike _ _ x y
          (Flagged-Alike a b _ _ x.flags_complete r
            (update_flags-Flagged a.body x.body a x.flags_complete e)
            (rw s.same_complete (update_flags-Flagged b.body y.body b y.flags_complete e')))
          s)
  | inr e ↦ rw (e, sym s.both_payload ∙ e) refl
]

-- Two lists of frames that are alike one by one.
abbrev pub AllAlike : List Frame → List Frame → Type 0
AllAlike [] [] = Unit
AllAlike (f ∷ fs) (g ∷ gs) = Alike f g × AllAlike fs gs
AllAlike _ _ = ⊥

abbrev AlikeAppend :
    Result (Option Frame × Option Frame) → Result (Option Frame × Option Frame) → Type 0
AlikeAppend (ok (slot, complete)) (ok (slot', complete')) =
    AlikeSlot slot slot' × AlikeSlot complete complete'
AlikeAppend (err e) (err e') = e ≡ e'
AlikeAppend _ _ = ⊥

abbrev AlikeRun : Result (Option Frame × List Frame) → Result (Option Frame × List Frame) → Type 0
AlikeRun (ok (slot, out)) (ok (slot', out')) = AlikeSlot slot slot' × AllAlike out out'
AlikeRun (err e) (err e') = e ≡ e'
AlikeRun _ _ = ⊥

stored-Alike :
    (r r' : Result Frame)
    → AlikeResult r r'
    → AlikeAppend (r >>= λ built. ok (some built, none)) (r' >>= λ built. ok (some built, none))
stored-Alike (ok f) (ok g) h = (h, tt)
stored-Alike (err e) (err e') h = h
stored-Alike (ok f) (err e') h = elim h [ ]
stored-Alike (err e) (ok g) h = elim h [ ]

given-Alike :
    (r r' : Result Frame)
    → AlikeResult r r'
    → AlikeAppend (r >>= λ built. ok (none, some built)) (r' >>= λ built. ok (none, some built))
given-Alike (ok f) (ok g) h = (tt, h)
given-Alike (err e) (err e') h = h
given-Alike (ok f) (err e') h = elim h [ ]
given-Alike (err e) (ok g) h = elim h [ ]

append_slot-Alike :
    (follows : Bool) (slot slot' : Option Frame) (f g : Frame)
    → AlikeSlot slot slot'
    → Alike f g
    → AlikeAppend (append_slot follows slot f) (append_slot follows slot' g)
unfolding frame_fragment_builder
append_slot-Alike true none none f g s r = (r, tt)
append_slot-Alike true (some a) (some b) f g s r = stored-Alike _ _ (built_on-Alike a b f g s r)
append_slot-Alike false none none f g s r = (tt, r)
append_slot-Alike false (some a) (some b) f g s r = given-Alike _ _ (built_on-Alike a b f g s r)
append_slot-Alike b none (some a') f g s r = elim s [ ]
append_slot-Alike b (some a) none f g s r = elim s [ ]

completed-Alike :
    (o o' : Option Frame) (r r' : Result (Option Frame × List Frame))
    → AlikeSlot o o'
    → AlikeRun r r'
    → AlikeRun
        (r >>= λ (slot, rest). ok (slot, completed o rest))
        (r' >>= λ (slot, rest). ok (slot, completed o' rest))
completed-Alike none none (ok p) (ok p') s h = h
completed-Alike (some f) (some g) (ok p) (ok p') s h = (h.0, (s, h.1))
completed-Alike o o' (err e) (err e') s h = h
completed-Alike o o' (err e) (ok p') s h = elim h [ ]
completed-Alike o o' (ok p) (err e') s h = elim h [ ]
completed-Alike none (some g) r r' s h = elim s [ ]
completed-Alike (some f) none r r' s h = elim s [ ]

-- Behind the first frame of a run.
abbrev behind :
    List Frame → Result (Option Frame × Option Frame) → Result (Option Frame × List Frame)
behind fs r = r >>= λ (slot, complete).
    append_slot_all slot fs >>= λ (slot', rest). ok (slot', completed complete rest)

behind-Alike :
    (fs gs : List Frame) (r r' : Result (Option Frame × Option Frame))
    → ((slot slot' : Option Frame)
        → AlikeSlot slot slot'
        → AlikeRun (append_slot_all slot fs) (append_slot_all slot' gs))
    → AlikeAppend r r'
    → AlikeRun (behind fs r) (behind gs r')
behind-Alike fs gs (ok p) (ok p') runs h = completed-Alike p.1 p'.1 _ _ h.1 (runs p.0 p'.0 h.0)
behind-Alike fs gs (err e) (err e') runs h = h
behind-Alike fs gs (ok p) (err e') runs h = elim h [ ]
behind-Alike fs gs (err e) (ok p') runs h = elim h [ ]

append_slot_all-Alike :
    (fs gs : List Frame) (slot slot' : Option Frame)
    → AlikeSlot slot slot'
    → AllAlike fs gs
    → AlikeRun (append_slot_all slot fs) (append_slot_all slot' gs)
append_slot_all-Alike [] [] slot slot' s h = (s, tt)
append_slot_all-Alike [] (g ∷ gs) slot slot' s h = elim h [ ]
append_slot_all-Alike (f ∷ fs) [] slot slot' s h = elim h [ ]
append_slot_all-Alike (f ∷ fs) (g ∷ gs) slot slot' s (r, h) =
    behind-Alike fs gs (append_slot f.flags_follows slot f) (append_slot g.flags_follows slot' g)
      (λ a b t. append_slot_all-Alike fs gs a b t h)
      (subst
        (λ (b : Bool). AlikeAppend (append_slot f.flags_follows slot f) (append_slot b slot' g))
        r.same_follows (append_slot-Alike f.flags_follows slot slot' f g s r))

-- Where the frames of a stream are joined to one frame, frames that are alike are joined to one that
-- is alike.
pub rejoined-Alike :
    (fs gs : List Frame) (whole : Frame)
    → append_slot_all none fs ≡ ok (none, whole ∷ [])
    → AllAlike fs gs
    → (whole' : Frame) × (append_slot_all none gs ≡ ok (none, whole' ∷ [])) × Alike whole whole'
rejoined-Alike fs gs whole run h = of_run (append_slot_all none gs) refl (
    subst (λ (r : Result (Option Frame × List Frame)). AlikeRun r (append_slot_all none gs)) run
      (append_slot_all-Alike fs gs none none tt h))
  where
    of_run :
        (r : Result (Option Frame × List Frame))
        → append_slot_all none gs ≡ r
        → AlikeRun (ok (none, whole ∷ [])) r
        → (whole' : Frame) × (append_slot_all none gs ≡ ok (none, whole' ∷ [])) × Alike whole whole'
    of_run (ok (none, g ∷ [])) e s = (g, e, s.1.0)
    of_run (ok (none, [])) e s = elim s.1 [ ]
    of_run (ok (none, g ∷ (x ∷ xs))) e s = elim s.1.1 [ ]
    of_run (ok (some g, out)) e s = elim s.0 [ ]
    of_run (err x) e s = elim s [ ]
