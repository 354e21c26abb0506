-- ===== src/FrameHelpers.antt =====
-- rsocket/frame_helpers.py: packing of the fields that frames and metadata share. Where the source
-- has two versions, this is the one that does not need the optional `cbitstruct`.
pub mod Laws
use rsocket_py.Prelude.{
  ℕ, ◌+◌, ◌-◌, ◌/◌, ◌^◌, bit_and, Bool, not, Option, none, some, List, [], ◌∷◌, ◌++◌, Result, ok,
  err, ◌>>=◌, struct_error, mimetype_too_long, ltb, leb, ◌==◌, if◌then◌else◌, length, take, drop,
}
use rsocket_py.Bytes.{Bytes, ℤ, pos, negsuc, ◌+ℤ◌, sub_ℕ, slice, pack, unpack, unpack_from}

abbrev pub mask_63_bits : ℕ
mask_63_bits = 0x7fff_ffff_ffff_ffff

abbrev pub is_flag_set : ℕ → ℕ → Bool
is_flag_set flags bit = not (bit_and flags bit == 0)

-- The format `b` is a signed byte.
unfoldable pub pack_string : Bytes → Result Bytes
pack_string buffer =
    if leb (length buffer) 127 then ok (length buffer ∷ buffer) else err struct_error

abbrev pub signed_byte : ℕ → ℤ
signed_byte b = if ltb b 128 then pos b else negsuc (255 - b)

unfoldable pub unpack_string : Bytes → ℤ → Result (ℤ × Bytes)
unpack_string buffer offset = do
  byte ← unpack_from 1 buffer offset
  let length = signed_byte byte
  ok (length, slice buffer (offset +ℤ pos 1) (offset +ℤ length +ℤ pos 1))

abbrev pub unpack_32bit : Bytes → ℤ → Result ℕ
unpack_32bit = unpack_from 4

-- `len(value)`, and 0 for `None`.
abbrev pub safe_len : Option Bytes → ℕ
safe_len none = 0
safe_len (some value) = length value

-- `n & 0b1111111`, for a negative `n` too.
abbrev pub low_seven : ℤ → ℕ
low_seven (pos n) = bit_and n 127
low_seven (negsuc n) = 127 - bit_and n 127

abbrev pub exceeds_seven_bits : ℤ → Bool
exceeds_seven_bits (pos n) = ltb 127 n
exceeds_seven_bits (negsuc n) = ltb 1 0

unfoldable pub serialize_128max_value : Bytes → Result Bytes
serialize_128max_value encoding =
    let encoded_encoding_length = sub_ℕ (length encoding) 1 in
    if exceeds_seven_bits encoded_encoding_length
    then err (mimetype_too_long encoding)
    else ok (low_seven encoded_encoding_length ∷ encoding)

-- The top bit of the first byte, and its low seven bits.
unfoldable pub parse_type : Bytes → Result (Bool × ℕ)
parse_type buffer = do
  data_byte ← unpack 1 (take 1 buffer)
  ok (data_byte / 2 ^ 7 == 1, bit_and data_byte 127)

unfoldable pub unpack_position : Bytes → Result ℕ
unpack_position chunk = do value ← unpack 8 chunk; ok (bit_and value mask_63_bits)

unfoldable pub unpack_24bit : Bytes → ℤ → Result ℕ
unpack_24bit metadata offset = unpack 4 (0 ∷ slice metadata offset (offset +ℤ pos 3))

unfoldable pub pack_position : ℕ → Result Bytes
pack_position position = pack 8 (bit_and position mask_63_bits)

-- The highest of four bytes is dropped, whatever it is.
unfoldable pub pack_24bit : ℕ → Result Bytes
pack_24bit length = do bytes ← pack 4 length; ok (drop 1 bytes)

abbrev pub pack_24bit_length : Bytes → Result Bytes
pack_24bit_length item_metadata = pack_24bit (length item_metadata)
