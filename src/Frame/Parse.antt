-- ===== src/Frame/Parse.antt =====
-- Parsing a frame: `parse_header_native`, `parse_metadata`, `parse_data`, the method `parse` of
-- each subclass, and `parse_or_ignore`. An offset is an integer, since a string of negative length
-- moves it back.
use rsocket_py.Prelude.{
  ℕ, ◌+◌, ◌*◌, ◌/◌, ◌^◌, bit_and, bit_or, Bool, true, false, not, ◌&&◌, Option, none, some, [],
  ErrorCode, Result, ok, err, ◌>>=◌, parse_error, protocol_error, key_error, ltb, ◌==◌,
  if◌then◌else◌, length,
}
use rsocket_py.Bytes.{Bytes, ℤ, pos, ◌+ℤ◌, ◌-ℤ◌, slice, slice_from, unpack_from}
use rsocket_py.FrameHelpers.{
  is_flag_set, unpack_string, unpack_32bit, unpack_position, unpack_24bit,
}
use rsocket_py.Frame.Codes.{
  FrameType, from_id, error_code, header_length, mask_31_bits, connection_stream_id,
  flag_ignore_bit, flag_metadata_bit, flag_follows_bit, flag_complete_bit, flag_next_bit,
}
use rsocket_py.Frame.Slots.{Flags, Header, Body, Frame, has_metadata, init}

-- `struct.unpack_from('>IBB', …)` is three fields, one behind the other.
unfoldable pub parse_header : Bytes → ℤ → Result (Header × Flags)
parse_header buffer offset = do
  stream_id ← unpack_from 4 buffer offset
  type_byte ← unpack_from 1 buffer (offset +ℤ pos 4)
  flag_byte ← unpack_from 1 buffer (offset +ℤ pos 5)
  let flag_bits = bit_or flag_byte (bit_and type_byte 3 * 2 ^ 8)
  frame_type ← from_id (type_byte / 2 ^ 2)
  ok (
    record {
      length = length buffer;
      frame_type = frame_type;
      stream_id = stream_id;
      flags_ignore = is_flag_set flag_bits flag_ignore_bit;
      flags_metadata = is_flag_set flag_bits flag_metadata_bit;
    },
    record {
      flags_follows_resume_respond = is_flag_set flag_bits flag_follows_bit;
      flags_complete_lease = is_flag_set flag_bits flag_complete_bit;
      flags_next = is_flag_set flag_bits flag_next_bit;
    },
  )

-- The header written into a frame.
abbrev pub read_header : Frame → Bytes → ℤ → Result (Frame × Flags)
read_header f buffer offset = do
  (h, flags) ← parse_header buffer offset
  ok (record f { header = h }, flags)

-- The frame, and by how much the offset moves.
unfoldable pub parse_metadata : Frame → Bytes → ℤ → Result (Frame × ℤ)
parse_metadata f buffer offset =
    if not (has_metadata f)
    then ok (f, pos 0)
    else if not f.metadata_only
    then (do
      length ← unpack_24bit buffer offset
      let start = offset +ℤ pos 3
      ok (
        record f { metadata = some (slice buffer start (start +ℤ pos length)) },
        pos (length + 3),
      ))
    else let length = pos f.length -ℤ offset +ℤ pos 3 in
      ok (record f { metadata = some (slice buffer offset (offset +ℤ length)) }, length)

unfoldable pub parse_data : Frame → Bytes → ℤ → Frame
parse_data f buffer offset =
    let length = pos f.length -ℤ offset +ℤ pos 3 in
    record f { data_bytes = some (slice buffer offset (offset +ℤ length)) }

-- `_parse_payload`, and the same two calls in the other classes.
abbrev pub parse_payload : Frame → Bytes → ℤ → Result Frame
parse_payload f buffer offset = do
  (f, moved) ← parse_metadata f buffer offset
  ok (parse_data f buffer (offset +ℤ moved))

-- `token_length` and the token behind it, if the resume flag is set.
abbrev pub parse_token : Bool → Bytes → ℤ → Result (Option (ℕ × Bytes) × ℤ)
parse_token false buffer offset = ok (none, offset)
parse_token true buffer offset = do
  n ← unpack_from 2 buffer offset
  let start = offset +ℤ pos 2
  ok (some (n, slice buffer start (start +ℤ pos n)), start +ℤ pos n)

unfoldable pub parse_setup : Frame → Bytes → ℤ → Result Frame
parse_setup f buffer offset = do
  (f, flags) ← read_header f buffer offset
  let offset = offset +ℤ pos header_length
  major ← unpack_from 2 buffer offset
  minor ← unpack_from 2 buffer (offset +ℤ pos 2)
  keep_alive ← unpack_from 4 buffer (offset +ℤ pos 4)
  max_lifetime ← unpack_from 4 buffer (offset +ℤ pos 8)
  (token, offset) ← parse_token flags.flags_follows_resume_respond buffer (offset +ℤ pos 12)
  (metadata_moved, metadata_encoding) ← unpack_string buffer offset
  let offset = offset +ℤ (metadata_moved +ℤ pos 1)
  (data_moved, data_encoding) ← unpack_string buffer offset
  let offset = offset +ℤ (data_moved +ℤ pos 1)
  parse_payload
      (record f {
        body = Body.setup (record {
          major_version = major;
          minor_version = minor;
          keep_alive_milliseconds = keep_alive;
          max_lifetime_milliseconds = max_lifetime;
          token = token;
          metadata_encoding = metadata_encoding;
          data_encoding = data_encoding;
          flags_lease = flags.flags_complete_lease;
          flags_resume = flags.flags_follows_resume_respond;
        });
      })
      buffer offset

unfoldable pub parse_error_frame : Frame → Bytes → ℤ → Result Frame
parse_error_frame f buffer offset = do
  (f, flags) ← read_header f buffer offset
  let offset = offset +ℤ pos header_length
  n ← unpack_32bit buffer offset
  code ← error_code n
  ok (parse_data (record f { body = Body.error code }) buffer (offset +ℤ pos 4))

unfoldable pub parse_lease : Frame → Bytes → ℤ → Result Frame
parse_lease f buffer offset = do
  (f, flags) ← read_header f buffer offset
  let offset = offset +ℤ pos header_length
  time_to_live ← unpack_from 4 buffer offset
  number_of_requests ← unpack_from 4 buffer (offset +ℤ pos 4)
  (f, moved) ←
      parse_metadata
        (record f {
          body =
              Body.lease (bit_and time_to_live mask_31_bits)
                (bit_and number_of_requests mask_31_bits);
        })
        buffer (offset +ℤ pos 8)
  ok f

unfoldable pub parse_keep_alive : Frame → Bytes → ℤ → Result Frame
parse_keep_alive f buffer offset = do
  (f, flags) ← read_header f buffer offset
  let offset = offset +ℤ pos header_length
  position ← unpack_position (slice buffer offset (offset +ℤ pos 8))
  ok (
      parse_data (record f { body = Body.keep_alive flags.flags_follows_resume_respond position })
        buffer (offset +ℤ pos 8))

-- `RequestFrame.parse`
abbrev pub parse_request : Frame → Bytes → ℤ → Result (Frame × Flags)
parse_request f buffer offset = do
  (f, flags) ← read_header f buffer offset
  ok (record f { flags_follows = flags.flags_follows_resume_respond }, flags)

-- `RequestResponseFrame.parse` and `RequestFireAndForgetFrame.parse`
unfoldable pub parse_plain_request : Frame → Bytes → ℤ → Result Frame
parse_plain_request f buffer offset = do
  (f, flags) ← parse_request f buffer offset
  parse_payload f buffer (offset +ℤ pos header_length)

unfoldable pub parse_request_stream : Frame → Bytes → ℤ → Result Frame
parse_request_stream f buffer offset = do
  (f, flags) ← parse_request f buffer offset
  let offset = offset +ℤ pos header_length
  n ← unpack_32bit buffer offset
  parse_payload (record f { body = Body.request_stream n }) buffer (offset +ℤ pos 4)

unfoldable pub parse_request_channel : Frame → Bytes → ℤ → Result Frame
parse_request_channel f buffer offset = do
  (f, flags) ← parse_request f buffer offset
  let offset = offset +ℤ pos header_length
  n ← unpack_32bit buffer offset
  parse_payload
      (record f {
        flags_complete = flags.flags_complete_lease;
        flags_follows = flags.flags_follows_resume_respond;
        body = Body.request_channel n;
      })
      buffer (offset +ℤ pos 4)

unfoldable pub parse_request_n : Frame → Bytes → ℤ → Result Frame
parse_request_n f buffer offset = do
  (f, flags) ← read_header f buffer offset
  n ← unpack_32bit buffer (offset +ℤ pos header_length)
  ok (record f { body = Body.request_n n })

unfoldable pub parse_cancel : Frame → Bytes → ℤ → Result Frame
parse_cancel f buffer offset = do (f, flags) ← read_header f buffer offset; ok f

unfoldable pub parse_payload_frame : Frame → Bytes → ℤ → Result Frame
parse_payload_frame f buffer offset = do
  (f, flags) ← read_header f buffer offset
  parse_payload
      (record f {
        flags_follows = flags.flags_follows_resume_respond;
        flags_complete = flags.flags_complete_lease;
        body = Body.payload flags.flags_next;
      })
      buffer (offset +ℤ pos header_length)

unfoldable pub parse_metadata_push : Frame → Bytes → ℤ → Result Frame
parse_metadata_push f buffer offset = do
  (f, flags) ← read_header f buffer offset
  (f, moved) ← parse_metadata f buffer (offset +ℤ pos header_length)
  ok f

unfoldable pub parse_resume : Frame → Bytes → ℤ → Result Frame
parse_resume f buffer offset = do
  (f, flags) ← read_header f buffer offset
  let offset = offset +ℤ pos header_length
  major ← unpack_from 2 buffer offset
  minor ← unpack_from 2 buffer (offset +ℤ pos 2)
  let offset = offset +ℤ pos 4
  n ← unpack_from 2 buffer offset
  let offset = offset +ℤ pos 2
  let token = slice buffer offset (offset +ℤ pos n)
  let offset = offset +ℤ pos n
  last_server ← unpack_position (slice buffer offset (offset +ℤ pos 8))
  first_client ← unpack_position (slice_from buffer (offset +ℤ pos 8))
  ok (record f {
    body = Body.resume (record {
      major_version = major;
      minor_version = minor;
      token_length = n;
      resume_identification_token = token;
      last_server_position = last_server;
      first_client_position = first_client;
    });
  })

unfoldable pub parse_resume_ok : Frame → Bytes → ℤ → Result Frame
parse_resume_ok f buffer offset = do
  (f, flags) ← read_header f buffer offset
  let offset = offset +ℤ pos header_length
  position ← unpack_position (slice buffer offset (offset +ℤ pos 8))
  ok (record f { body = Body.resume_ok position })

-- `_frame_class_by_id[frame_type]()`: a new object of the class. The slots that `__init__` of the
-- class leaves unset are written by `parse`, and their values here are not read.
unfoldable pub new_frame : FrameType → Result Frame
new_frame FrameType.setup = ok (
    init (
      Body.setup (record {
        major_version = 1;
        minor_version = 0;
        keep_alive_milliseconds = 0;
        max_lifetime_milliseconds = 0;
        token = none;
        metadata_encoding = [];
        data_encoding = [];
        flags_lease = false;
        flags_resume = false;
      })))
new_frame FrameType.lease = ok (record (init (Body.lease 0 0)) { metadata_only = true })
new_frame FrameType.keepalive = ok (init (Body.keep_alive false 0))
new_frame FrameType.request_response = ok (init Body.request_response)
new_frame FrameType.request_fnf = ok (init Body.request_fnf)
new_frame FrameType.request_stream = ok (init (Body.request_stream 0))
new_frame FrameType.request_channel = ok (init (Body.request_channel 0))
new_frame FrameType.request_n = ok (init (Body.request_n 0))
new_frame FrameType.cancel = ok (init Body.cancel)
new_frame FrameType.payload = ok (init (Body.payload false))
new_frame FrameType.error = ok (init (Body.error ErrorCode.reserved))
new_frame FrameType.metadata_push = ok (push (init Body.metadata_push))
  where
    push : Frame → Frame
    push f = record f { header = record (f.header) { flags_metadata = true }; metadata_only = true }
new_frame FrameType.resume = ok (
    init (
      Body.resume (record {
        major_version = 1;
        minor_version = 0;
        token_length = 0;
        resume_identification_token = [];
        last_server_position = 0;
        first_client_position = 0;
      })))
new_frame FrameType.resume_ok = ok (init (Body.resume_ok 0))
new_frame FrameType.ext = err key_error

-- The method `parse` of the frame's class.
unfoldable pub parse : Body → Frame → Bytes → ℤ → Result Frame
parse (Body.setup s) = parse_setup
parse (Body.error c) = parse_error_frame
parse (Body.lease t n) = parse_lease
parse (Body.keep_alive r p) = parse_keep_alive
parse Body.request_response = parse_plain_request
parse Body.request_fnf = parse_plain_request
parse (Body.request_stream n) = parse_request_stream
parse (Body.request_channel n) = parse_request_channel
parse (Body.request_n n) = parse_request_n
parse Body.cancel = parse_cancel
parse (Body.payload n) = parse_payload_frame
parse Body.metadata_push = parse_metadata_push
parse (Body.resume s) = parse_resume
parse (Body.resume_ok p) = parse_resume_ok

abbrev pub is_metadata_push : Body → Bool
is_metadata_push Body.metadata_push = true
is_metadata_push _ = false

unfoldable pub is_frame_to_ignore : Frame → Bool
is_frame_to_ignore f = is_metadata_push f.body && not (f.stream_id == connection_stream_id)

-- The exception's text is not modelled: the protocol error carries no data here.
abbrev parsed : Bool → Result Frame → Result (Option Frame)
parsed flags_ignore (ok f) = if is_frame_to_ignore f then ok none else ok (some f)
parsed flags_ignore (err e) =
    if flags_ignore then ok none else err (protocol_error ErrorCode.connection_error [])

-- Errors of the first header, and an unknown class, are raised outside the `try`.
unfoldable pub parse_or_ignore : Bytes → Result (Option Frame)
parse_or_ignore buffer = if ltb (length buffer) header_length then err parse_error else do
  (header, flags) ← parse_header buffer (pos 0)
  frame ← new_frame header.frame_type
  parsed header.flags_ignore (parse frame.body frame buffer (pos 0))
