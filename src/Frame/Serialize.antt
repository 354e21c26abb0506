-- ===== src/Frame/Serialize.antt =====
-- Serializing a frame: `Frame.serialize_frame_prefix`, the method of that name of each subclass,
-- `serialize`, and the forms with a size header. The prefix methods write the slots `length`,
-- `prefix_length` and `flags_next`, so they return the frame with the bytes.
use rsocket_py.Prelude.{
  ℕ, ◌+◌, ◌*◌, ◌/◌, ◌^◌, bit_and, bit_or, bit_xor, Bool, not, ◌&&◌, ◌||◌, Option, none, some, [],
  ◌∷◌, ◌++◌, Result, ok, err, ◌>>=◌, attribute_error, value_error, ltb, if◌then◌else◌, length, drop,
}
use rsocket_py.Bytes.{Bytes, pack}
use rsocket_py.FrameHelpers.{pack_string, pack_24bit, pack_position, safe_len}
use rsocket_py.Frame.Codes.{
  type_id, code_value, header_length, mask_31_bits, flag_ignore_bit, flag_metadata_bit,
  flag_follows_bit, flag_resume_bit, flag_respond_bit, flag_lease_bit, flag_complete_bit,
  flag_next_bit,
}
use rsocket_py.Frame.Slots.{SetupSlots, ResumeSlots, Body, Frame, is_blank, truthy, has_metadata}

-- `flags & ~mask`
abbrev pub clear : ℕ → ℕ → ℕ
clear flags mask = bit_xor flags (bit_and flags mask)

-- `if test: flags |= bit`
abbrev pub set_flag : Bool → ℕ → ℕ → ℕ
set_flag test bit flags = if test then bit_or flags bit else flags

-- The bytes of an optional byte string; `None` is written nowhere.
abbrev pub bytes_of : Option Bytes → Bytes
bytes_of none = []
bytes_of (some b) = b

-- Assignment to an item of a `bytearray`.
unfoldable pub byte_item : ℕ → Result Bytes
byte_item v = if ltb v 256 then ok (v ∷ []) else err value_error

unfoldable pub compute_frame_prefix_length : Frame → Bytes → ℕ
compute_frame_prefix_length f middle =
    header_length
    + length middle
    + (if has_metadata f && truthy f.metadata then (if not f.metadata_only then 3 else 0) else 0)

unfoldable pub compute_data_metadata_length : Frame → ℕ
compute_data_metadata_length f =
    (if has_metadata f && truthy f.metadata then safe_len f.metadata else 0)
    + (if not f.metadata_only && truthy f.data_bytes then safe_len f.data_bytes else 0)

unfoldable pub compute_frame_length : Frame → Bytes → ℕ
compute_frame_length f middle =
    compute_frame_prefix_length f middle + compute_data_metadata_length f

unfoldable pub metadata_length_field : Frame → Result Bytes
metadata_length_field f =
    if truthy f.metadata && not f.metadata_only then pack_24bit (safe_len f.metadata) else ok []

-- `Frame.serialize_frame_prefix`. The buffer has `prefix_length` bytes, and each is assigned.
unfoldable pub base_prefix : Frame → Bytes → ℕ → Result (Frame × Bytes)
base_prefix f middle flags = do
  let flags = clear flags (bit_or flag_ignore_bit flag_metadata_bit)
  let flags = set_flag f.flags_ignore flag_ignore_bit flags
  let flags = set_flag (truthy f.metadata) flag_metadata_bit flags
  stream ← pack 4 f.stream_id
  type_byte ← byte_item (bit_or (type_id f.frame_type * 2 ^ 2) (flags / 2 ^ 8))
  flag_byte ← byte_item (bit_and flags 0xff)
  size ← metadata_length_field f
  ok (
    record f {
      header = record (f.header) { length = compute_frame_length f middle };
      prefix_length = compute_frame_prefix_length f middle;
    },
    stream ++ (type_byte ++ (flag_byte ++ (middle ++ size))),
  )

-- `token_length` and the token, if the resume flag is set.
unfoldable pub pack_token : SetupSlots → Result Bytes
pack_token s = if not s.flags_resume then ok [] else elim s.token [
  | none ↦ err attribute_error
  | some (n, token) ↦ do size ← pack 2 n; ok (size ++ token)
]

unfoldable pub setup_middle : SetupSlots → Result Bytes
setup_middle s = do
  major ← pack 2 s.major_version
  minor ← pack 2 s.minor_version
  keep_alive ← pack 4 s.keep_alive_milliseconds
  max_lifetime ← pack 4 s.max_lifetime_milliseconds
  token ← pack_token s
  metadata_encoding ← pack_string s.metadata_encoding
  data_encoding ← pack_string s.data_encoding
  ok (
      major
      ++ (minor
          ++ (keep_alive ++ (max_lifetime ++ (token ++ (metadata_encoding ++ data_encoding))))))

unfoldable pub setup_prefix : SetupSlots → Frame → Bytes → ℕ → Result (Frame × Bytes)
setup_prefix s f middle flags = do
  let flags = clear flags (bit_or flag_lease_bit flag_resume_bit)
  let flags = set_flag s.flags_lease flag_lease_bit flags
  let flags = set_flag s.flags_resume flag_resume_bit flags
  middle ← setup_middle s
  base_prefix f middle flags

unfoldable pub lease_prefix : ℕ → ℕ → Frame → Bytes → ℕ → Result (Frame × Bytes)
lease_prefix time_to_live number_of_requests f middle flags = do
  ttl ← pack 4 (bit_and time_to_live mask_31_bits)
  number ← pack 4 (bit_and number_of_requests mask_31_bits)
  base_prefix f (ttl ++ number) flags

unfoldable pub keep_alive_prefix : Bool → ℕ → Frame → Bytes → ℕ → Result (Frame × Bytes)
keep_alive_prefix respond last_received_position f middle flags = do
  let flags = set_flag respond flag_respond_bit (clear flags flag_respond_bit)
  position ← pack_position last_received_position
  base_prefix f (middle ++ position) flags

-- `RequestFrame.serialize_frame_prefix`
unfoldable pub request_prefix : Frame → Bytes → ℕ → Result (Frame × Bytes)
request_prefix f middle flags =
    base_prefix f middle (set_flag f.flags_follows flag_follows_bit (clear flags flag_follows_bit))

unfoldable pub request_stream_prefix : ℕ → Frame → Bytes → ℕ → Result (Frame × Bytes)
request_stream_prefix initial_request_n f middle flags = do
  n ← pack 4 initial_request_n
  request_prefix f n 0

unfoldable pub request_channel_prefix : ℕ → Frame → Bytes → ℕ → Result (Frame × Bytes)
request_channel_prefix initial_request_n f middle flags = do
  n ← pack 4 initial_request_n
  request_prefix f n (set_flag f.flags_complete flag_complete_bit (clear flags flag_complete_bit))

unfoldable pub request_n_prefix : ℕ → Frame → Bytes → ℕ → Result (Frame × Bytes)
request_n_prefix n f middle flags = do bytes ← pack 4 n; request_prefix f bytes flags

-- `flags_next` is set first, if there is anything to send.
unfoldable pub next_flag : Bool → Frame → Bool
next_flag next f = not (is_blank f.data_bytes) || not (is_blank f.metadata) || next

unfoldable pub payload_prefix : Bool → Frame → Bytes → ℕ → Result (Frame × Bytes)
payload_prefix next f middle flags =
    let flags = clear flags (bit_or (bit_or flag_follows_bit flag_complete_bit) flag_next_bit) in
    let flags = set_flag f.flags_follows flag_follows_bit flags in
    let flags = set_flag f.flags_complete flag_complete_bit flags in
    base_prefix (record f { body = Body.payload (next_flag next f) }) []
      (set_flag (next_flag next f) flag_next_bit flags)

unfoldable pub error_prefix : ℕ → Frame → Bytes → ℕ → Result (Frame × Bytes)
error_prefix code f middle flags = do bytes ← pack 4 code; base_prefix f bytes flags

unfoldable pub resume_prefix : ResumeSlots → Frame → Bytes → ℕ → Result (Frame × Bytes)
resume_prefix s f middle flags = do
  major ← pack 2 s.major_version
  minor ← pack 2 s.minor_version
  size ← pack 2 (length s.resume_identification_token)
  last_server ← pack_position s.last_server_position
  first_client ← pack_position s.first_client_position
  base_prefix f
      (major
        ++ (minor ++ (size ++ (s.resume_identification_token ++ (last_server ++ first_client)))))
      0

unfoldable pub resume_ok_prefix : ℕ → Frame → Bytes → ℕ → Result (Frame × Bytes)
resume_ok_prefix last_received_client_position f middle flags = do
  serialized ← pack_position last_received_client_position
  base_prefix f serialized 0

-- The method of the frame's class.
unfoldable pub prefix_of : Body → Frame → Bytes → ℕ → Result (Frame × Bytes)
prefix_of (Body.setup s) = setup_prefix s
prefix_of (Body.error c) = error_prefix (code_value c)
prefix_of (Body.lease t n) = lease_prefix t n
prefix_of (Body.keep_alive r p) = keep_alive_prefix r p
prefix_of Body.request_response = request_prefix
prefix_of Body.request_fnf = request_prefix
prefix_of (Body.request_stream n) = request_stream_prefix n
prefix_of (Body.request_channel n) = request_channel_prefix n
prefix_of (Body.request_n n) = request_n_prefix n
prefix_of Body.cancel = base_prefix
prefix_of (Body.payload n) = payload_prefix n
prefix_of Body.metadata_push = base_prefix
prefix_of (Body.resume s) = resume_prefix s
prefix_of (Body.resume_ok p) = resume_ok_prefix p

unfoldable pub serialize_frame_prefix : Frame → Result (Frame × Bytes)
serialize_frame_prefix f = prefix_of f.body f [] 0

-- The metadata and the data behind the prefix, as `serialize` copies them.
unfoldable pub contents : Frame → Bytes
contents f =
    (if has_metadata f && truthy f.metadata then bytes_of f.metadata else [])
    ++ (if not f.metadata_only && truthy f.data_bytes then bytes_of f.data_bytes else [])

unfoldable pub serialize : Frame → Result (Frame × Bytes)
serialize f = do
  (f', prefix_buffer) ← serialize_frame_prefix f
  ok (f', prefix_buffer ++ contents f')

-- What `write_data_metadata` hands to the writer.
unfoldable pub write_data_metadata : Frame → Bytes
write_data_metadata f =
    (if truthy f.metadata then bytes_of f.metadata else [])
    ++ (if not f.metadata_only && truthy f.data_bytes then bytes_of f.data_bytes else [])

unfoldable pub serialize_with_frame_size_header : Frame → Result Bytes
serialize_with_frame_size_header f = do
  (f', serialized_frame) ← serialize f
  size ← pack 4 (length serialized_frame)
  ok (drop 1 size ++ serialized_frame)

unfoldable pub serialize_prefix_with_frame_size_header : Frame → Result (Frame × Bytes)
serialize_prefix_with_frame_size_header f = do
  (f', serialized_frame_prefix) ← serialize_frame_prefix f
  size ← pack 4 f'.length
  ok (f', drop 1 size ++ serialized_frame_prefix)
