-- ===== src/Connection/Sender/Ready.antt =====
-- Frames that the sender can cut into fragments.
use rsocket_py.Prelude.{
  ℕ, ◌+◌, ◌<◌, ◌≡◌, refl, ap, ◌∙◌, Bool, true, false, Option, none, some, List, [], ◌∷◌, map,
  if◌then◌else◌, Result, ok, err,
}
use rsocket_py.FrameHelpers.{safe_len}
use rsocket_py.Frame.Slots.{Frame}
use rsocket_py.Frame.Fragmenting.{
  is_fragmentable_frame, get_header_length, get_next_fragment, new_frame_fragment,
}
use rsocket_py.FrameFragmenter.{Fragment, data_to_fragments_if_required}
use rsocket_py.FrameFragmenter.Pieces.{Marked}
use rsocket_py.FrameFragmenter.Fragments.{
  AreFragments, room_of, data_to_fragments_if_required-AreFragments,
}
use rsocket_py.Connection.{source}
use rsocket_py.Connection.Sender.InOrder.{Follows, Plan, whole, cut}

-- A frame whose class has fragments, with no fragment size, or with one that leaves room for a byte
-- in each fragment and more rounds than bytes.
pub record HasRoom (rounds : ℕ) (f : Frame) : Type 0 where
  pub header : ℕ
  pub size : ℕ
  pub header_length : get_header_length f.body ≡ ok header
  pub sized : f.fragment_size_bytes ≡ some size
  pub first_fits : header + 3 < size
  pub next_fits : 9 < size
  pub fuel : safe_len f.metadata + safe_len f.data_bytes < rounds

pub data IsReady (rounds : ℕ) (f : Frame) : Type 0 where
  uncut : is_fragmentable_frame f ≡ false → IsReady rounds f
  at_once :
      is_fragmentable_frame f ≡ true
      → (header : ℕ) → get_header_length f.body ≡ ok header
      → f.fragment_size_bytes ≡ none
      → IsReady rounds f
  in_pieces : is_fragmentable_frame f ≡ true → HasRoom rounds f → IsReady rounds f

-- The frames of the fragments of a frame, one after the other.
abbrev pub frames_of_all : Frame → Option (List Fragment) → List Frame
frames_of_all f none = []
frames_of_all f (some ps) = map (new_frame_fragment f) ps

abbrev pub pieces_of : Frame → Result ℕ → ℕ → Bool → List Frame
pieces_of f (err e) rounds required = []
pieces_of f (ok header) rounds required = frames_of_all f (
    data_to_fragments_if_required rounds f.data_bytes f.metadata header f.fragment_size_bytes
      required)

abbrev pub frames_to_send : ℕ → Bool → Frame → List Frame
frames_to_send rounds required f =
    if is_fragmentable_frame f
    then pieces_of f (get_header_length f.body) rounds required
    else f ∷ []

Marked-Follows :
    (room : Bool → ℕ) (first : Bool) (base : Frame) (p : Fragment) (ps : List Fragment)
    → Marked room first (p ∷ ps)
    → Follows (new_frame_fragment base p) (map (new_frame_fragment base) ps)
unfolding Marked new_frame_fragment
Marked-Follows room first base p [] (is_first, is_last, fits, rest) = rw is_last refl
Marked-Follows room first base p (q ∷ ps) (is_first, is_last, fits, rest) =
    (rw is_last refl, Marked-Follows room false base q ps rest)

-- A plan for a frame, which is what the frame has to send.
pub record Planned (rounds : ℕ) (required : Bool) (f : Frame) : Type 0 where
  pub first : Frame
  pub more : List Frame
  pub plan : Plan rounds required (source f) first more
  pub all : frames_to_send rounds required f ≡ first ∷ more

module _ (rounds : ℕ) (required : Bool) where
  cut-Planned :
      (f : Frame) (header : ℕ) (p : Fragment) (ps : List Fragment)
      → is_fragmentable_frame f ≡ true
      → get_header_length f.body ≡ ok header
      → data_to_fragments_if_required rounds f.data_bytes f.metadata header f.fragment_size_bytes
          required
        ≡ some (p ∷ ps)
      → Follows (new_frame_fragment f p) (map (new_frame_fragment f) ps)
      → Planned rounds required f
  unfolding get_next_fragment
  cut-Planned f header p ps cuts e returns follows = record {
    first = new_frame_fragment f p;
    more = map (new_frame_fragment f) ps;
    plan = cut cuts p ps (rw (e, returns) refl) follows;
    all = rw (cuts, e) (ap (frames_of_all f) returns);
  }

  in_pieces-Planned :
      (f : Frame) (r : HasRoom rounds f) (ps : List Fragment)
      → is_fragmentable_frame f ≡ true
      → data_to_fragments_if_required rounds f.data_bytes f.metadata r.header (some r.size) required
        ≡ some ps
      → AreFragments (room_of r.header r.size required) f.metadata f.data_bytes ps
      → Planned rounds required f
  in_pieces-Planned f r [] cuts returns are = cc (are.some_piece)
  in_pieces-Planned f r (p ∷ ps) cuts returns are =
      cut-Planned f r.header p ps cuts r.header_length
        (ap
            (λ (o : Option ℕ).
              data_to_fragments_if_required rounds f.data_bytes f.metadata r.header o required)
            r.sized
          ∙ returns)
        (Marked-Follows _ true f p ps are.marked)

  pub planned : (f : Frame) → IsReady rounds f → Planned rounds required f
  unfolding data_to_fragments_if_required new_frame_fragment
  planned f (uncut e) = record { first = f; more = []; plan = whole e; all = rw e refl }
  planned f (at_once cuts header e size) =
      cut-Planned f header _ [] cuts e
        (ap
          (λ (o : Option ℕ).
            data_to_fragments_if_required rounds f.data_bytes f.metadata header o required)
          size)
        refl
  planned f (in_pieces cuts r) =
      let (ps, returns, are) =
        data_to_fragments_if_required-AreFragments r.header r.size required f.metadata f.data_bytes
          r.first_fits r.next_fits rounds r.fuel in
      in_pieces-Planned f r ps cuts returns are
