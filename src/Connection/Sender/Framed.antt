-- ===== src/Connection/Sender/Framed.antt =====
-- The frames of the fragments on the wire: they can be sent with a size header, and what arrives is
-- alike.
use rsocket_py.Prelude.{
  ℕ, ◌+◌, ◌^◌, ◌≤◌, ◌<◌, ◌≡◌, refl, ap, Bool, true, false, List, [], ◌∷◌, map, All, arith, length,
  if◌then◌else◌,
}
use rsocket_py.Bytes.{Bytes, be}
use rsocket_py.FrameHelpers.{safe_len}
use rsocket_py.Frame.Slots.{Body, Frame}
use rsocket_py.Frame.Serialize.{
  bytes_of, compute_frame_length, compute_frame_prefix_length, compute_data_metadata_length,
}
use rsocket_py.Frame.Prefix.{measured}
use rsocket_py.Frame.Sendable.{Fits, Carried, IsSendable, middle_of, sent, arrived}
use rsocket_py.Frame.RoundTrip.{after_serialize}
use rsocket_py.Frame.Fragmenting.{
  is_payload, is_fragmentable_body, is_fragmentable_frame, fragment_body, has_more,
  new_frame_fragment,
}
use rsocket_py.FrameFragmenter.{Fragment}
use rsocket_py.FrameFragmenter.Pieces.{Marked, length-bytes_of}
use rsocket_py.FrameParser.Framing.{IsFramed}
use rsocket_py.FrameFragmentCache.Alike.{Alike}

-- What the class of a fragment asks of its frame.
record Fitting (b : Body) (g : Frame) : Type 0 where
  fits : Fits b
  carried : Carried b g
  middle : length (middle_of b) ≤ 4

no_flag : (b c : Bool) → c ≡ false → (if b then false else c) ≡ false
no_flag true c e = refl
no_flag false c e = e

piece-Fitting :
    (b : Body) (first : Bool) (f : Frame) (p : Fragment)
    → is_fragmentable_body b ≡ true
    → Fits b
    → Carried b f
    → Fitting (fragment_body first b) (new_frame_fragment f p)
unfolding new_frame_fragment middle_of be
piece-Fitting (Body.payload n) true f p ok fits c = record {
  fits = tt;
  carried = c;
  middle = omega arith;
}
piece-Fitting (Body.payload n) false f p ok fits c = record {
  fits = tt;
  carried = c;
  middle = omega arith;
}
piece-Fitting (Body.request_channel n) true f p ok fits c = record {
  fits = fits;
  carried = c;
  middle = omega arith;
}
piece-Fitting (Body.request_channel n) false f p ok fits c = record {
  fits = tt;
  carried = c;
  middle = omega arith;
}
piece-Fitting Body.request_response true f p ok fits c = record {
  fits = tt;
  carried = (c.0, no_flag (has_more p.is_last) f.flags_complete c.1);
  middle = omega arith;
}
piece-Fitting Body.request_response false f p ok fits c = record {
  fits = tt;
  carried = c.0;
  middle = omega arith;
}
piece-Fitting Body.request_fnf true f p ok fits c = record {
  fits = tt;
  carried = (c.0, no_flag (has_more p.is_last) f.flags_complete c.1);
  middle = omega arith;
}
piece-Fitting Body.request_fnf false f p ok fits c = record {
  fits = tt;
  carried = c.0;
  middle = omega arith;
}
piece-Fitting (Body.request_stream n) true f p ok fits c = record {
  fits = fits;
  carried = (c.0, no_flag (has_more p.is_last) f.flags_complete c.1);
  middle = omega arith;
}
piece-Fitting (Body.request_stream n) false f p ok fits c = record {
  fits = tt;
  carried = c.0;
  middle = omega arith;
}
piece-Fitting b first f p ok fits c = cc ok

-- A frame takes nine bytes at most beside those of its class, its metadata and its data.
frame_length-le :
    (f : Frame) (middle : Bytes)
    → compute_frame_length f middle
      ≤ 9 + (length middle + (safe_len f.metadata + safe_len f.data_bytes))
unfolding compute_frame_length compute_frame_prefix_length compute_data_metadata_length
frame_length-le f middle = ground arith

piece-IsFramed :
    (f : Frame) (p : Fragment)
    → is_fragmentable_frame f ≡ true
    → IsSendable f
    → length (bytes_of p.metadata) + length (bytes_of p.data_bytes) + 13 < 2 ^ 24
    → IsFramed (new_frame_fragment f p)
unfolding is_fragmentable_frame
piece-IsFramed f p ok s small =
    let g = new_frame_fragment f p in
    let c = piece-Fitting f.body p.is_first f p ok s.fits s.carried in
    let metadata = length-bytes_of p.metadata in
    let contents = length-bytes_of p.data_bytes in
    unfold new_frame_fragment in
    record {
      sendable = record {
        stream = s.stream;
        type_matches = refl;
        metadata_fits = omega (arith, small, metadata);
        fits = c.fits;
        carried = c.carried;
      };
      short = omega (
        arith,
        small,
        metadata,
        contents,
        frame_length-le g (middle_of (fragment_body p.is_first f.body)),
        c.middle,
      );
    }

-- The frames of fragments with at most `n` bytes each.
pub fragments-IsFramed :
    (room : Bool → ℕ) (n : ℕ) (first : Bool) (f : Frame) (ps : List Fragment)
    → is_fragmentable_frame f ≡ true
    → IsSendable f
    → ((b : Bool) → room b ≤ n)
    → n + 13 < 2 ^ 24
    → Marked room first ps
    → All IsFramed (map (new_frame_fragment f) ps)
unfolding Marked
fragments-IsFramed room n first f [] ok s le small marked = tt
fragments-IsFramed room n first f (p ∷ ps) ok s le small (is_first, is_last, fits, rest) = (
  piece-IsFramed f p ok s (omega (arith, fits, le first, small)),
  fragments-IsFramed room n false f ps ok s le small rest,
)

-- The frame that arrives.
abbrev pub arrives : Frame → Frame
arrives f = arrived (after_serialize f)

arrives_by-Alike :
    (b : Body) (f : Frame) → f.body ≡ b → Alike f (arrived (measured (sent b f) (middle_of b)))
arrives_by-Alike (Body.payload n) f e = record {
  same_stream = refl;
  same_type = refl;
  same_follows = refl;
  same_complete = refl;
  same_data = refl;
  same_metadata = refl;
  both_payload = ap is_payload e;
  same_request = λ h. cc (h, ap is_payload e);
}
arrives_by-Alike b f e = record {
  same_stream = refl;
  same_type = refl;
  same_follows = refl;
  same_complete = refl;
  same_data = refl;
  same_metadata = refl;
  both_payload = refl;
  same_request = λ h. refl;
}

pub arrives-Alike : (f : Frame) → Alike f (arrives f)
arrives-Alike f = arrives_by-Alike f.body f refl
