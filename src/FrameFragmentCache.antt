-- ===== src/FrameFragmentCache.antt =====
-- rsocket/frame_fragment_cache.py: joining the fragments of a frame. A cached frame is the object
-- of the first fragment, which later fragments change; nothing else holds it.
pub mod Reassembly
pub mod WholeFrame
pub mod Slot
pub mod Interleaved
pub mod OneStream
pub mod Alike
use rsocket_py.Prelude.{
  ℕ, ◌+◌, Bool, true, false, not, ◌&&◌, Option, none, some, List, [], ◌∷◌, ◌++◌, Result, ok, err,
  ◌>>=◌, fragment_different_type, key_error, ◌==◌, if◌then◌else◌,
}
use rsocket_py.Bytes.{Bytes}
use rsocket_py.Frame.Slots.{Body, Frame, is_blank}
use rsocket_py.Frame.Serialize.{bytes_of}
use rsocket_py.Frame.Fragmenting.{is_payload}

-- `_frames_by_stream_id`
abbrev pub Cache : Type 0
Cache = ℕ → Option Frame

abbrev pub put : Cache → ℕ → Frame → Cache
put cache id f = λ i. if i == id then some f else cache i

abbrev pub pop : Cache → ℕ → Cache
pop cache id = λ i. if i == id then none else cache i

abbrev pub joined : Option Bytes → Option Bytes → Option Bytes
joined current next =
    if is_blank next
    then current
    else some ((if is_blank current then [] else bytes_of current) ++ bytes_of next)

-- `_merge_frame_content_inplace`
unfoldable pub merge_frame_content_inplace : Frame → Frame → Frame
merge_frame_content_inplace current next = record current {
  data_bytes = joined current.data_bytes next.data_bytes;
  metadata = joined current.metadata next.metadata;
}

-- The assignment of the two flags, if the cached frame is a payload frame.
abbrev pub update_flags : Body → Body → Frame → Bool → Frame
update_flags (Body.payload n) (Body.payload m) current flags_complete = record current {
  flags_complete = flags_complete;
  body = Body.payload m;
}
update_flags _ _ current flags_complete = current

-- `_frame_fragment_builder`
unfoldable pub frame_fragment_builder : Option Frame → Frame → Result Frame
frame_fragment_builder none next = ok next
frame_fragment_builder (some current) next =
    if not (is_payload next.body)
    then err fragment_different_type
    else ok (
        merge_frame_content_inplace
          (update_flags current.body next.body current next.flags_complete) next)

-- `self._frames_by_stream_id.pop(id)`, and the frame to return.
abbrev pub popped : Cache → ℕ → Frame → Result (Cache × Option Frame)
popped cache id f = elim (cache id) [ none ↦ err key_error | some old ↦ ok (pop cache id, some f) ]

-- The cache afterwards, and the complete frame if there is one.
unfoldable pub append : Cache → Frame → Result (Cache × Option Frame)
append cache f =
    if f.flags_follows
    then (do
      built ← frame_fragment_builder (cache f.stream_id) f
      ok (put cache f.stream_id built, none))
    else elim (cache f.stream_id) [
      | none ↦ ok (cache, some f)
      | some current ↦ do
        built ← frame_fragment_builder (some current) f
        popped cache built.stream_id built
    ]

-- Frames that arrive one after the other, and the complete frames among them.
abbrev pub completed : Option Frame → List Frame → List Frame
completed none fs = fs
completed (some f) fs = f ∷ fs

unfoldable pub append_all : Cache → List Frame → Result (Cache × List Frame)
append_all cache [] = ok (cache, [])
append_all cache (f ∷ fs) = do
  (cache, complete) ← append cache f
  (cache, rest) ← append_all cache fs
  ok (cache, completed complete rest)
