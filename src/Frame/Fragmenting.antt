-- ===== src/Frame/Fragmenting.antt =====
-- `new_frame_fragment`, `get_header_length` and `FrameFragmentMixin` of rsocket/frame.py.
use rsocket_py.Prelude.{
  ℕ, Bool, true, false, Option, none, some, List, [], ◌∷◌, Result, ok, err, ◌>>=◌, key_error,
  if◌then◌else◌,
}
use rsocket_py.Frame.Slots.{Body, Frame, has_metadata, frame_type_of}
use rsocket_py.FrameFragmenter.{Fragment, data_to_fragments_if_required}

abbrev pub is_payload : Body → Bool
is_payload (Body.payload n) = true
is_payload _ = false

abbrev pub is_fragmentable_body : Body → Bool
is_fragmentable_body (Body.payload n) = true
is_fragmentable_body Body.request_response = true
is_fragmentable_body (Body.request_channel n) = true
is_fragmentable_body (Body.request_stream n) = true
is_fragmentable_body Body.request_fnf = true
is_fragmentable_body _ = false

unfoldable pub is_fragmentable_frame : Frame → Bool
is_fragmentable_frame f = is_fragmentable_body f.body

-- A new object of the class of the base frame, with its `initial_request_n`. A new payload frame
-- is blank when the code asks whether to set `flags_next`, so that stays unset.
abbrev pub fragment_body : Bool → Body → Body
fragment_body false base = Body.payload false
fragment_body true (Body.payload n) = Body.payload false
fragment_body true base = base

-- `fragment.is_last is False`, and its opposite.
abbrev pub has_more : Option Bool → Bool
has_more (some false) = true
has_more _ = false

unfoldable pub new_frame_fragment : Frame → Fragment → Frame
new_frame_fragment base fragment = record {
  header = record {
    length = 0;
    frame_type = frame_type_of (fragment_body fragment.is_first base.body);
    stream_id = base.stream_id;
    flags_ignore = base.flags_ignore;
    flags_metadata = has_metadata base;
  };
  prefix_length = 0;
  metadata = fragment.metadata;
  data_bytes = fragment.data_bytes;
  flags_follows = has_more fragment.is_last;
  flags_complete = if has_more fragment.is_last then false else base.flags_complete;
  metadata_only = base.metadata_only;
  fragment_size_bytes = none;
  body = fragment_body fragment.is_first base.body;
}

unfoldable pub get_header_length : Body → Result ℕ
get_header_length (Body.payload n) = ok 6
get_header_length Body.request_response = ok 6
get_header_length Body.request_fnf = ok 6
get_header_length (Body.request_stream n) = ok 10
get_header_length (Body.request_channel n) = ok 10
get_header_length _ = err key_error

-- `get_next_fragment`: the next frame, if there is one, and what is left in `fragment_generator`,
-- which is made in the first call. The fragments are made at once, within the rounds.
abbrev pub next_of : Frame → List Fragment → Option Frame × List Fragment
next_of f [] = (none, [])
next_of f (fragment ∷ rest) = (some (new_frame_fragment f fragment), rest)

unfoldable pub get_next_fragment :
    ℕ → Bool → Frame → Option (List Fragment) → Result (Option (Option Frame × List Fragment))
get_next_fragment rounds requires_length_header f (some generator) = ok (some (next_of f generator))
get_next_fragment rounds requires_length_header f none = do
  header ← get_header_length f.body
  ok
      (elim (data_to_fragments_if_required rounds f.data_bytes f.metadata header
        f.fragment_size_bytes requires_length_header) [
          | none ↦ none
          | some generator ↦ some (next_of f generator)
        ])
