-- ===== src/Frame/Codes.antt =====
-- The constants and enumerations of rsocket/frame.py, and rsocket/error_codes.py.
use rsocket_py.Prelude.{
  ℕ, Result, ok, err, unknown_frame_type, value_error, ErrorCode, ◌==◌, if◌then◌else◌,
}

abbrev pub header_length : ℕ
header_length = 6

abbrev pub mask_31_bits : ℕ
mask_31_bits = 0x7fff_ffff

abbrev pub connection_stream_id : ℕ
connection_stream_id = 0

abbrev pub max_request_n : ℕ
max_request_n = 0x7fff_ffff

abbrev pub minimum_fragment_size_bytes : ℕ
minimum_fragment_size_bytes = 64

abbrev pub flag_ignore_bit : ℕ
flag_ignore_bit = 0x200

abbrev pub flag_metadata_bit : ℕ
flag_metadata_bit = 0x100

abbrev pub flag_follows_bit : ℕ
flag_follows_bit = 0x80

abbrev pub flag_resume_bit : ℕ
flag_resume_bit = 0x80

abbrev pub flag_respond_bit : ℕ
flag_respond_bit = 0x80

abbrev pub flag_lease_bit : ℕ
flag_lease_bit = 0x40

abbrev pub flag_complete_bit : ℕ
flag_complete_bit = 0x40

abbrev pub flag_next_bit : ℕ
flag_next_bit = 0x20

-- `EXT` (0xFFFF) does not fit the six bits of a header, and no class is registered for it.
pub data FrameType : Type 0 where
  setup lease keepalive request_response request_fnf request_stream request_channel : FrameType
  request_n cancel payload error metadata_push resume resume_ok ext : FrameType

abbrev pub type_id : FrameType → ℕ
type_id setup = 1
type_id lease = 2
type_id keepalive = 3
type_id request_response = 4
type_id request_fnf = 5
type_id request_stream = 6
type_id request_channel = 7
type_id request_n = 8
type_id cancel = 9
type_id payload = 10
type_id error = 11
type_id metadata_push = 12
type_id resume = 13
type_id resume_ok = 14
type_id ext = 0xffff

unfoldable pub from_id : ℕ → Result FrameType
from_id n =
    if n == 1
    then ok setup
    else if n == 2
    then ok lease
    else if n == 3
    then ok keepalive
    else if n == 4
    then ok request_response
    else if n == 5
    then ok request_fnf
    else if n == 6
    then ok request_stream
    else if n == 7
    then ok request_channel
    else if n == 8
    then ok request_n
    else if n == 9
    then ok cancel
    else if n == 10
    then ok payload
    else if n == 11
    then ok error
    else if n == 12
    then ok metadata_push
    else if n == 13
    then ok resume
    else if n == 14
    then ok resume_ok
    else if n == 0xffff
    then ok ext
    else err (unknown_frame_type n)

abbrev pub code_value : ErrorCode → ℕ
code_value ErrorCode.invalid_setup = 0x001
code_value ErrorCode.unsupported_setup = 0x002
code_value ErrorCode.rejected_setup = 0x003
code_value ErrorCode.rejected_resume = 0x004
code_value ErrorCode.connection_error = 0x101
code_value ErrorCode.connection_error_no_retry = 0x102
code_value ErrorCode.application_error = 0x201
code_value ErrorCode.rejected = 0x202
code_value ErrorCode.canceled = 0x203
code_value ErrorCode.invalid = 0x204
code_value ErrorCode.reserved = 0xffff_ffff

-- `ErrorCode(value)`, a `ValueError` for a number that is none.
unfoldable pub error_code : ℕ → Result ErrorCode
error_code n =
    if n == 0x001
    then ok ErrorCode.invalid_setup
    else if n == 0x002
    then ok ErrorCode.unsupported_setup
    else if n == 0x003
    then ok ErrorCode.rejected_setup
    else if n == 0x004
    then ok ErrorCode.rejected_resume
    else if n == 0x101
    then ok ErrorCode.connection_error
    else if n == 0x102
    then ok ErrorCode.connection_error_no_retry
    else if n == 0x201
    then ok ErrorCode.application_error
    else if n == 0x202
    then ok ErrorCode.rejected
    else if n == 0x203
    then ok ErrorCode.canceled
    else if n == 0x204
    then ok ErrorCode.invalid
    else if n == 0xffff_ffff
    then ok ErrorCode.reserved
    else err value_error
