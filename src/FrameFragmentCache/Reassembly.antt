-- ===== src/FrameFragmentCache/Reassembly.antt =====
-- The fragments of a frame, appended in order, give the frame.
use rsocket_py.Prelude.{
  ℕ, ◌≡◌, refl, sym, ap, ◌∙◌, inl, inr, Bool, true, false, Option, none, some, List, [], ◌∷◌, ◌++◌,
  map, Result, ok, err, key_error, ◌>>=◌, ◌==◌, ==_iff, if◌then◌else◌, Bool-cases, append_assoc,
  append-nil,
}
use rsocket_py.Bytes.{Bytes}
use rsocket_py.Frame.Slots.{Header, Body, Frame}
use rsocket_py.Frame.Serialize.{bytes_of}
use rsocket_py.Frame.Fragmenting.{is_payload, new_frame_fragment}
use rsocket_py.FrameFragmenter.{Fragment}
use rsocket_py.FrameFragmenter.Pieces.{joined_metadata, joined_data, Marked, piece}
use rsocket_py.FrameFragmentCache.{
  Cache, put, pop, popped, joined, merge_frame_content_inplace, update_flags,
  frame_fragment_builder, append, append_all, completed,
}

pub bytes_of-joined : (a b : Option Bytes) → bytes_of (joined a b) ≡ bytes_of a ++ bytes_of b
bytes_of-joined none none = refl
bytes_of-joined none (some []) = refl
bytes_of-joined none (some (x ∷ b)) = refl
bytes_of-joined (some []) none = refl
bytes_of-joined (some []) (some []) = refl
bytes_of-joined (some []) (some (x ∷ b)) = refl
bytes_of-joined (some (y ∷ a)) none = sym (append-nil (y ∷ a))
bytes_of-joined (some (y ∷ a)) (some []) = sym (append-nil (y ∷ a))
bytes_of-joined (some (y ∷ a)) (some (x ∷ b)) = refl

pub same_id : (i : ℕ) → (i == i) ≡ true
same_id i = (==_iff i i).1 refl

-- What the two flags' assignment leaves.
pub record Updated (b : Body) (f : Frame) (complete : Bool) (g : Frame) : Type 0 where
  pub same_header : g.header ≡ f.header
  same_data : g.data_bytes ≡ f.data_bytes
  same_metadata : g.metadata ≡ f.metadata
  completes : g.flags_complete ≡ (if is_payload b then complete else f.flags_complete)
  still : b ≡ f.body → is_payload g.body ≡ is_payload b
  requested : is_payload b ≡ false → g.body ≡ f.body

pub update_flags-Updated :
    (b : Body) (f : Frame) (complete : Bool)
    → Updated b f complete (update_flags b (Body.payload false) f complete)
update_flags-Updated (Body.payload n) f complete = record {
  same_header = refl;
  same_data = refl;
  same_metadata = refl;
  completes = refl;
  still = λ e. refl;
  requested = λ e. cc;
}
update_flags-Updated b f complete = record {
  same_header = refl;
  same_data = refl;
  same_metadata = refl;
  completes = refl;
  still = λ e. ap is_payload (sym e);
  requested = λ e. refl;
}

-- A later fragment's frame, joined to the one in the cache.
abbrev grown : Frame → Frame → Option Bytes → Option Bytes → Bool → Frame
grown base current metadata data_bytes last =
    merge_frame_content_inplace
      (update_flags current.body (Body.payload false) current
        (if last then base.flags_complete else false))
      (new_frame_fragment base (piece metadata data_bytes last false))

abbrev flag_of : Frame → Bool → Bool
flag_of base last = if last then base.flags_complete else false

grown-data :
    (base current : Frame) (m d : Option Bytes) (last : Bool)
    → bytes_of (grown base current m d last).data_bytes ≡ bytes_of current.data_bytes ++ bytes_of d
unfolding merge_frame_content_inplace new_frame_fragment
grown-data base current m d last =
    ap (λ (o : Option Bytes). bytes_of (joined o d))
      (update_flags-Updated current.body current (flag_of base last)).same_data
    ∙ bytes_of-joined current.data_bytes d

grown-metadata :
    (base current : Frame) (m d : Option Bytes) (last : Bool)
    → bytes_of (grown base current m d last).metadata ≡ bytes_of current.metadata ++ bytes_of m
unfolding merge_frame_content_inplace new_frame_fragment
grown-metadata base current m d last =
    ap (λ (o : Option Bytes). bytes_of (joined o m))
      (update_flags-Updated current.body current (flag_of base last)).same_metadata
    ∙ bytes_of-joined current.metadata m

grown-Updated :
    (base current : Frame) (m d : Option Bytes) (last : Bool)
    → let g = grown base current m d last in
      (g.header ≡ current.header)
      × (g.flags_complete
          ≡ (if is_payload current.body then flag_of base last else current.flags_complete))
      × (is_payload g.body ≡ is_payload current.body)
      × (is_payload current.body ≡ false → g.body ≡ current.body)
unfolding merge_frame_content_inplace
grown-Updated base current m d last =
    let u = update_flags-Updated current.body current (flag_of base last) in
    (u.same_header, u.completes, u.still refl, u.requested)

chosen :
    (p q x y z w : Bool)
    → p ≡ q
    → y ≡ (if q then w else z)
    → (if p then x else y) ≡ (if q then x else z)
chosen p true x y z w e h = rw e
chosen p false x y z w e h = rw (e, h)

module _ (base : Frame) (c : Cache) (current : Frame) (there : c base.stream_id ≡ some current)
    (at : current.stream_id ≡ base.stream_id) (m d : Option Bytes) where
  grown_at : (last : Bool) → (grown base current m d last).stream_id ≡ base.stream_id
  unfolding merge_frame_content_inplace
  grown_at last =
      ap (λ (h : Header). h.stream_id)
        (update_flags-Updated current.body current
          (if last then base.flags_complete else false)).same_header
      ∙ at

  pops : (f : Frame) → popped c base.stream_id f ≡ ok (pop c base.stream_id, some f)
  pops f =
      ap
        (λ (o : Option Frame). elim o [
          | none ↦ err key_error
          | some old ↦ ok (pop c base.stream_id, some f)
        ])
        there

  append_last :
      append c (new_frame_fragment base (piece m d true false))
      ≡ ok (pop c base.stream_id, some (grown base current m d true))
  unfolding append new_frame_fragment frame_fragment_builder
  append_last =
      let kept = grown_at true in
      rw there (
        ap (λ (id : ℕ). popped c id (grown base current m d true)) kept
        ∙ pops (grown base current m d true))

  append_more :
      append c (new_frame_fragment base (piece m d false false))
      ≡ ok (put c base.stream_id (grown base current m d false), none)
  unfolding append new_frame_fragment frame_fragment_builder
  append_more = rw there refl

-- The run gives one frame: the cached one, with the bytes of the fragments behind its own and, for
-- a payload frame, with the flags of the last. Its stream leaves the cache.
pub record Completes (base : Frame) (c : Cache) (current : Frame) (fs : List Fragment)
    (run : Result (Cache × List Frame)) : Type 0 where
  pub cache : Cache
  pub whole : Frame
  pub returns : run ≡ ok (cache, whole ∷ [])
  pub emptied : (i : ℕ) → cache i ≡ pop c base.stream_id i
  pub data_joins : bytes_of whole.data_bytes ≡ bytes_of current.data_bytes ++ joined_data fs
  pub metadata_joins : bytes_of whole.metadata ≡ bytes_of current.metadata ++ joined_metadata fs
  pub same_header : whole.header ≡ current.header
  pub completes :
      whole.flags_complete
      ≡ (if is_payload current.body then base.flags_complete else current.flags_complete)
  pub requested : is_payload current.body ≡ false → whole.body ≡ current.body

pub pop-put : (c : Cache) (f : Frame) (id i : ℕ) → pop (put c id f) id i ≡ pop c id i
pop-put c f id i = elim (Bool-cases (i == id)) [ inl e ↦ rw e | inr e ↦ rw e ]

pub is_piece :
    (f : Fragment) (last first : Bool)
    → f.is_first ≡ first
    → f.is_last ≡ some last
    → f ≡ piece f.metadata f.data_bytes last first
is_piece f last first e e' = cc

pub put_at : (c : Cache) (id : ℕ) (f : Frame) → put c id f id ≡ some f
put_at c id f = rw (same_id id)

-- What `append_all` does with the frames behind a frame that was appended.
abbrev pub then_all : List Frame → Result (Cache × Option Frame) → Result (Cache × List Frame)
then_all fs r = r >>= λ (c, o). append_all c fs >>= λ (c', gs). ok (c', completed o gs)

pub append_all-Completes :
    (room : Bool → ℕ) (base : Frame) (f : Fragment) (fs : List Fragment) (c : Cache)
    (current : Frame)
    → Marked room false (f ∷ fs)
    → c base.stream_id ≡ some current
    → current.stream_id ≡ base.stream_id
    → Completes base c current (f ∷ fs) (append_all c (map (new_frame_fragment base) (f ∷ fs)))
unfolding Marked append_all joined_data joined_metadata
append_all-Completes room base f [] c current (is_first, is_last, fits, rest) there at =
    let (same_header, completes, still, requested) =
      grown-Updated base current f.metadata f.data_bytes true in
    let run = append_last base c current there at f.metadata f.data_bytes in
    record {
      cache = pop c base.stream_id;
      whole = grown base current f.metadata f.data_bytes true;
      returns =
          ap (λ (g : Fragment). append_all c (new_frame_fragment base g ∷ []))
            (is_piece f true false is_first is_last)
          ∙ ap (then_all []) run;
      emptied = λ i. refl;
      data_joins =
          grown-data base current f.metadata f.data_bytes true
          ∙ ap (λ (t : Bytes). bytes_of current.data_bytes ++ t)
              (sym (append-nil (bytes_of f.data_bytes)));
      metadata_joins =
          grown-metadata base current f.metadata f.data_bytes true
          ∙ ap (λ (t : Bytes). bytes_of current.metadata ++ t)
              (sym (append-nil (bytes_of f.metadata)));
      same_header = same_header;
      completes = completes;
      requested = requested;
    }
append_all-Completes room base f (g ∷ fs) c current (is_first, is_last, fits, rest) there at =
    let m = f.metadata in
    let d = f.data_bytes in
    let next = grown base current m d false in
    let (same_header, completes, still, requested) = grown-Updated base current m d false in
    let run = append_more base c current there at m d in
    let ih =
      append_all-Completes room base g fs (put c base.stream_id next) next rest
        (put_at c base.stream_id next) (grown_at base c current there at m d false) in
    record {
      cache = ih.cache;
      whole = ih.whole;
      returns =
          ap
            (λ (p : Fragment).
              append_all c (new_frame_fragment base p ∷ map (new_frame_fragment base) (g ∷ fs)))
            (is_piece f false false is_first is_last)
          ∙ ap (then_all (map (new_frame_fragment base) (g ∷ fs))) run
          ∙ ap (λ (r : Result (Cache × List Frame)). r >>= λ (c', gs). ok (c', gs)) ih.returns;
      emptied = λ i. ih.emptied i ∙ pop-put c next base.stream_id i;
      data_joins =
          ih.data_joins
          ∙ ap (λ (t : Bytes). t ++ joined_data (g ∷ fs)) (grown-data base current m d false)
          ∙ append_assoc (bytes_of current.data_bytes) (bytes_of d) (joined_data (g ∷ fs));
      metadata_joins =
          ih.metadata_joins
          ∙ ap (λ (t : Bytes). t ++ joined_metadata (g ∷ fs))
              (grown-metadata base current m d false)
          ∙ append_assoc (bytes_of current.metadata) (bytes_of m) (joined_metadata (g ∷ fs));
      same_header = ih.same_header ∙ same_header;
      completes = ih.completes ∙ chosen _ _ _ _ _ _ still completes;
      requested = λ e. ih.requested (still ∙ e) ∙ requested e;
    }
