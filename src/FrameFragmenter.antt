-- ===== src/FrameFragmenter.antt =====
-- rsocket/frame_fragmenter.py and rsocket/fragment.py: cutting the metadata and the data of a frame
-- into fragments. A generator is the list of what it yields; its loops are given rounds.
pub mod Pieces
pub mod Fragments
use rsocket_py.Prelude.{
  ℕ, zero, suc, ◌+◌, ◌-◌, Bool, true, false, ◌&&◌, ◌||◌, Option, none, some, List, [], ◌∷◌, ltb,
  ◌==◌, if◌then◌else◌, length, take, drop,
}
use rsocket_py.Bytes.{Bytes, ℤ, pos, negsuc, ◌-ℤ◌}
use rsocket_py.FrameHelpers.{safe_len}
use rsocket_py.Frame.Serialize.{bytes_of}

-- `sent_future` is not modelled; it is `None` in all fragments.
pub record Fragment : Type 0 where
  pub data_bytes : Option Bytes
  pub metadata : Option Bytes
  pub is_last : Option Bool
  pub is_first : Bool

-- What `__init__` stores and nothing changes.
pub record FrameFragmenter : Type 0 where
  pub first_fragment_size_bytes : ℤ
  pub next_frame_header_size : ℤ
  pub metadata : Option Bytes
  pub data_bytes : Option Bytes

abbrev pub frame_fragmenter : Option Bytes → Option Bytes → ℕ → ℕ → Bool → FrameFragmenter
frame_fragmenter data_bytes metadata first_frame_header_size fragment_size_bytes
      frame_length_required =
    record {
      first_fragment_size_bytes =
          pos fragment_size_bytes -ℤ pos first_frame_header_size -ℤ pos length_field;
      next_frame_header_size = pos fragment_size_bytes -ℤ pos 6 -ℤ pos length_field;
      metadata = metadata;
      data_bytes = data_bytes;
    }
  where
    length_field : ℕ
    length_field = if frame_length_required then 3 else 0

-- `_get_next_fragment_body_size`
unfoldable pub body_size : FrameFragmenter → Bool → ℤ
body_size s true = s.first_fragment_size_bytes
body_size s false = s.next_frame_header_size

-- `BytesIO.read`: what is read, and what is left. A negative size reads all.
abbrev pub read : ℤ → Bytes → Bytes × Bytes
read (pos n) reader = (take n reader, drop n reader)
read (negsuc n) reader = (reader, [])

-- `n < size`
abbrev pub is_shorter : ℕ → ℤ → Bool
is_shorter n (pos size) = ltb n size
is_shorter n (negsuc size) = false

abbrev pub yielded : Fragment → Option (List Fragment) → Option (List Fragment)
yielded f none = none
yielded f (some fs) = some (f ∷ fs)

-- The second `while` loop, from the number of data bytes that were read; `none` is out of rounds.
unfoldable pub data_loop : ℕ → FrameFragmenter → Bool → Bytes → ℕ → Option (List Fragment)
data_loop zero s is_first reader read_length = none
data_loop (suc rounds) s is_first reader read_length =
    let fragment = (read (body_size s is_first) reader).0 in
    let read_length = read_length + length fragment in
    let is_last_fragment = read_length == safe_len s.data_bytes in
    let is_blank = length fragment == 0 in
    let rest =
      data_loop rounds s (is_first && is_blank) (read (body_size s is_first) reader).1
        read_length in
    let after = if is_last_fragment then some [] else rest in
    if is_blank
    then after
    else yielded
        (record {
          data_bytes = some fragment;
          metadata = none;
          is_last = some is_last_fragment;
          is_first = is_first;
        })
        after

-- The code between the loops, from the metadata that the first one has left.
unfoldable pub data_part : ℕ → FrameFragmenter → Bool → Bytes → Option (List Fragment)
data_part rounds s is_first last_metadata =
    let reads = read (body_size s is_first -ℤ pos (length last_metadata)) (bytes_of s.data_bytes) in
    let fragment = reads.0 in
    let last_sent = length fragment == safe_len s.data_bytes in
    let rest = data_loop rounds s false reads.1 (length fragment) in
    if ltb 0 (length last_metadata) || ltb 0 (length fragment)
    then yielded
        (record {
          data_bytes = some fragment;
          metadata = some last_metadata;
          is_last = some last_sent;
          is_first = is_first;
        })
        (if last_sent then some [] else if length fragment == 0 then some [] else rest)
    else some []

-- The first `while` loop, with the code behind it.
unfoldable pub metadata_loop : ℕ → FrameFragmenter → Bool → Bytes → ℕ → Option (List Fragment)
metadata_loop zero s is_first reader read_length = none
metadata_loop (suc rounds) s is_first reader read_length =
    let size = body_size s is_first in
    let fragment = (read size reader).0 in
    let read_length = read_length + length fragment in
    let rest = metadata_loop rounds s false (read size reader).1 read_length in
    if length fragment == 0
    then data_part rounds s is_first []
    else if is_shorter (length fragment) size
    then data_part rounds s is_first fragment
    else yielded
        (record {
          data_bytes = none;
          metadata = some fragment;
          is_last = some (safe_len s.data_bytes == 0 && (read_length == safe_len s.metadata));
          is_first = is_first;
        })
        rest

-- `__iter__`
unfoldable pub fragments : ℕ → FrameFragmenter → Option (List Fragment)
fragments rounds s =
    if safe_len s.data_bytes == 0 && (safe_len s.metadata == 0)
    then some
        (record { data_bytes = none; metadata = none; is_last = some true; is_first = true } ∷ [])
    else metadata_loop rounds s true (bytes_of s.metadata) 0

unfoldable pub data_to_fragments_if_required :
    ℕ → Option Bytes → Option Bytes → ℕ → Option ℕ → Bool → Option (List Fragment)
data_to_fragments_if_required rounds data_bytes metadata header (some size) required =
    fragments rounds (frame_fragmenter data_bytes metadata header size required)
data_to_fragments_if_required rounds data_bytes metadata header none required =
    some (
      record { data_bytes = data_bytes; metadata = metadata; is_last = none; is_first = true } ∷ [])
