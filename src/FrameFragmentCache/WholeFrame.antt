-- ===== src/FrameFragmentCache/WholeFrame.antt =====
-- A frame that is cut into fragments and joined again.
use rsocket_py.Prelude.{
  ℕ, ◌+◌, ◌<◌, ◌≡◌, refl, sym, ap, ◌∙◌, inl, inr, Bool, true, false, ◌||◌, Option, none, some, List,
  [], ◌∷◌, ◌++◌, map, Result, ok, ◌>>=◌, ◌==◌, ==_iff, if◌then◌else◌, Bool-cases, append-nil,
}
use rsocket_py.Bytes.{Bytes}
use rsocket_py.FrameHelpers.{safe_len}
use rsocket_py.Frame.Slots.{Header, Body, Frame, frame_type_of}
use rsocket_py.Frame.Serialize.{bytes_of}
use rsocket_py.Frame.Fragmenting.{is_payload, fragment_body, new_frame_fragment}
use rsocket_py.FrameFragmenter.{Fragment, data_to_fragments_if_required}
use rsocket_py.FrameFragmenter.Pieces.{joined_metadata, joined_data, Marked, piece}
use rsocket_py.FrameFragmenter.Fragments.{
  AreFragments, room_of, data_to_fragments_if_required-AreFragments,
}
use rsocket_py.FrameFragmentCache.{Cache, put, pop, append, frame_fragment_builder, append_all}
use rsocket_py.FrameFragmentCache.Reassembly.{
  append_all-Completes, pop-put, is_piece, put_at, then_all,
}

abbrev pub is_single {ℓ} : {A : Type ℓ} → List A → Bool
is_single [] = false
is_single (x ∷ []) = true
is_single (x ∷ y ∷ xs) = false

-- What a run of the cache makes of the fragments `fs` of a frame: one frame of the same class and
-- stream with the same metadata and data, and the cache as before. The flag `complete` survives for
-- a payload frame, or if there was one fragment.
pub record Rejoins (base : Frame) (fs : List Fragment) (c : Cache)
    (run : Result (Cache × List Frame)) : Type 0 where
  pub cache : Cache
  pub whole : Frame
  pub returns : run ≡ ok (cache, whole ∷ [])
  pub restored : (i : ℕ) → cache i ≡ c i
  pub same_data : bytes_of whole.data_bytes ≡ bytes_of base.data_bytes
  pub same_metadata : bytes_of whole.metadata ≡ bytes_of base.metadata
  pub same_stream : whole.stream_id ≡ base.stream_id
  pub same_type : whole.frame_type ≡ frame_type_of base.body
  pub same_request : is_payload base.body ≡ false → whole.body ≡ base.body
  pub completes :
      whole.flags_complete
      ≡ (if is_payload base.body || is_single fs then base.flags_complete else false)

class_kept : (b : Body) → frame_type_of (fragment_body true b) ≡ frame_type_of b
class_kept (Body.payload n) = refl
class_kept b = refl

payload_kept : (b : Body) → is_payload (fragment_body true b) ≡ is_payload b
payload_kept (Body.payload n) = refl
payload_kept b = refl

request_kept : (b : Body) → is_payload b ≡ false → fragment_body true b ≡ b
request_kept (Body.payload n) e = cc
request_kept b e = refl

-- The frame of the first fragment.
abbrev opening : Frame → Option Bytes → Option Bytes → Bool → Frame
opening base m d last = new_frame_fragment base (piece m d last true)

opening_fields :
    (base : Frame) (m d : Option Bytes) (last : Bool)
    → let o = opening base m d last in
      (o.data_bytes ≡ d)
      × (o.metadata ≡ m)
      × (o.stream_id ≡ base.stream_id)
      × (o.frame_type ≡ frame_type_of base.body)
      × (o.body ≡ fragment_body true base.body)
      × (o.flags_complete ≡ (if last then base.flags_complete else false))
unfolding new_frame_fragment
opening_fields base m d true = (refl, refl, refl, class_kept base.body, refl, refl)
opening_fields base m d false = (refl, refl, refl, class_kept base.body, refl, refl)

module _ (base : Frame) (c : Cache) (fresh : c base.stream_id ≡ none) (m d : Option Bytes) where
  append_alone : append c (opening base m d true) ≡ ok (c, some (opening base m d true))
  unfolding append new_frame_fragment
  append_alone = rw fresh

  append_first :
      append c (opening base m d false) ≡ ok (put c base.stream_id (opening base m d false), none)
  unfolding append new_frame_fragment frame_fragment_builder
  append_first = rw fresh

  restored : (f : Frame) (i : ℕ) → pop (put c base.stream_id f) base.stream_id i ≡ c i
  restored f i = pop-put c f base.stream_id i ∙ (elim (Bool-cases (i == base.stream_id)) [
    | inl e ↦ rw e (sym (ap c ((==_iff i base.stream_id).0 e) ∙ fresh))
    | inr e ↦ rw e
  ])

either_way : (p b : Bool) → (if p || true then b else false) ≡ b
either_way true b = refl
either_way false b = refl

later_way : (q p b : Bool) → q ≡ p → (if q then b else false) ≡ (if p || false then b else false)
later_way q true b e = rw e
later_way q false b e = rw e

append_all-Rejoins :
    (room : Bool → ℕ) (base : Frame) (fs : List Fragment) (c : Cache)
    → AreFragments room base.metadata base.data_bytes fs
    → c base.stream_id ≡ none
    → Rejoins base fs c (append_all c (map (new_frame_fragment base) fs))
unfolding Marked joined_data joined_metadata append_all
append_all-Rejoins room base [] c a fresh = cc (a.some_piece)
append_all-Rejoins room base (f ∷ []) c a fresh =
    let (is_first, is_last, fits, rest) = a.marked in
    let m = f.metadata in
    let d = f.data_bytes in
    let o = opening_fields base m d true in
    record {
      cache = c;
      whole = opening base m d true;
      returns =
          ap (λ (p : Fragment). append_all c (new_frame_fragment base p ∷ []))
            (is_piece f true true is_first is_last)
          ∙ ap (then_all []) (append_alone base c fresh m d);
      restored = λ i. refl;
      same_data = ap bytes_of o.0 ∙ sym (append-nil (bytes_of d)) ∙ a.data_joins;
      same_metadata = ap bytes_of o.1 ∙ sym (append-nil (bytes_of m)) ∙ a.metadata_joins;
      same_stream = o.2;
      same_type = o.3;
      same_request = λ e. o.4 ∙ request_kept base.body e;
      completes = o.5 ∙ sym (either_way (is_payload base.body) base.flags_complete);
    }
append_all-Rejoins room base (f ∷ g ∷ fs) c a fresh =
    let (is_first, is_last, fits, rest) = a.marked in
    let m = f.metadata in
    let d = f.data_bytes in
    let first = opening base m d false in
    let o = opening_fields base m d false in
    let rest_run =
      append_all-Completes room base g fs (put c base.stream_id first) first rest
        (put_at c base.stream_id first) o.2 in
    record {
      cache = rest_run.cache;
      whole = rest_run.whole;
      returns =
          ap
            (λ (p : Fragment).
              append_all c (new_frame_fragment base p ∷ map (new_frame_fragment base) (g ∷ fs)))
            (is_piece f false true is_first is_last)
          ∙ ap (then_all (map (new_frame_fragment base) (g ∷ fs))) (append_first base c fresh m d)
          ∙ ap (λ (r : Result (Cache × List Frame)). r >>= λ (c', gs). ok (c', gs))
              rest_run.returns;
      restored = λ i. rest_run.emptied i ∙ restored base c fresh m d first i;
      same_data =
          rest_run.data_joins
          ∙ ap (λ (t : Option Bytes). bytes_of t ++ joined_data (g ∷ fs)) o.0
          ∙ a.data_joins;
      same_metadata =
          rest_run.metadata_joins
          ∙ ap (λ (t : Option Bytes). bytes_of t ++ joined_metadata (g ∷ fs)) o.1
          ∙ a.metadata_joins;
      same_stream = ap (λ (h : Header). h.stream_id) rest_run.same_header ∙ o.2;
      same_type = ap (λ (h : Header). h.frame_type) rest_run.same_header ∙ o.3;
      same_request = λ e.
          rest_run.requested (ap is_payload o.4 ∙ payload_kept base.body ∙ e)
          ∙ o.4
          ∙ request_kept base.body e;
      completes =
          rest_run.completes
          ∙ ap (λ (b : Bool). if is_payload first.body then base.flags_complete else b) o.5
          ∙ later_way _ _ base.flags_complete (ap is_payload o.4 ∙ payload_kept base.body);
    }

-- A frame of a class whose header takes `header` bytes, on a cache that holds no fragment of its
-- stream: with a fragment size that leaves room in each fragment, and more rounds than bytes, the
-- sender's fragments are well marked and fit, and the receiver rejoins their frames.
pub append_all-data_to_fragments_if_required :
    (base : Frame) (header size rounds : ℕ) (required : Bool) (c : Cache)
    → header + 3 < size
    → 9 < size
    → safe_len base.metadata + safe_len base.data_bytes < rounds
    → c base.stream_id ≡ none
    → (fs : List Fragment) × (data_to_fragments_if_required rounds base.data_bytes base.metadata
          header
          (some size)
          required
        ≡ some fs)
      × AreFragments (room_of header size required) base.metadata base.data_bytes fs
      × Rejoins base fs c (append_all c (map (new_frame_fragment base) fs))
append_all-data_to_fragments_if_required base header size rounds required c first_fits next_fits
      fuel fresh =
    let (fs, returns, are) =
      data_to_fragments_if_required-AreFragments header size required base.metadata base.data_bytes
        first_fits next_fits rounds fuel in
    (fs, returns, are, append_all-Rejoins (room_of header size required) base fs c are fresh)
