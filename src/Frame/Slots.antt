-- ===== src/Frame/Slots.antt =====
-- The frame objects of rsocket/frame.py: the slots of `Header`, `Flags` and `Frame`, and for each
-- subclass a constructor of `Body` with the slots that it adds.
use rsocket_py.Prelude.{ℕ, Bool, true, false, not, ◌||◌, Option, none, some, [], ◌∷◌, ErrorCode}
use rsocket_py.Bytes.{Bytes}
use rsocket_py.Frame.Codes.{FrameType, connection_stream_id}

pub record Flags : Type 0 where
  pub flags_follows_resume_respond : Bool
  pub flags_complete_lease : Bool
  pub flags_next : Bool

-- What `parse_header` writes. `flags_metadata` is the slot `_flags_metadata`, as a truth value.
pub record Header : Type 0 where
  pub length : ℕ
  pub frame_type : FrameType
  pub stream_id : ℕ
  pub flags_ignore : Bool
  pub flags_metadata : Bool

-- `token` is `token_length` with `resume_identification_token`, which are set or unset together.
pub record SetupSlots : Type 0 where
  pub major_version : ℕ
  pub minor_version : ℕ
  pub keep_alive_milliseconds : ℕ
  pub max_lifetime_milliseconds : ℕ
  pub token : Option (ℕ × Bytes)
  pub metadata_encoding : Bytes
  pub data_encoding : Bytes
  pub flags_lease : Bool
  pub flags_resume : Bool

pub record ResumeSlots : Type 0 where
  pub major_version : ℕ
  pub minor_version : ℕ
  pub token_length : ℕ
  pub resume_identification_token : Bytes
  pub last_server_position : ℕ
  pub first_client_position : ℕ

-- The subclasses. The numbers are, in order: `time_to_live`, `number_of_requests`;
-- `flags_respond`, `last_received_position`; `initial_request_n`; `request_n`; `flags_next`;
-- `last_received_client_position`.
pub data Body : Type 0 where
  setup : SetupSlots → Body
  error : ErrorCode → Body
  lease : ℕ → ℕ → Body
  keep_alive : Bool → ℕ → Body
  request_response request_fnf : Body
  request_stream request_channel : ℕ → Body
  request_n : ℕ → Body
  cancel : Body
  payload : Bool → Body
  metadata_push : Body
  resume : ResumeSlots → Body
  resume_ok : ℕ → Body

pub record Frame : Type 0 where
  pub header : Header
  pub open header use *
  pub prefix_length : ℕ
  pub metadata : Option Bytes
  pub data_bytes : Option Bytes
  pub flags_follows : Bool
  pub flags_complete : Bool
  pub metadata_only : Bool
  pub fragment_size_bytes : Option ℕ
  pub body : Body

abbrev pub is_blank : Option Bytes → Bool
is_blank none = true
is_blank (some []) = true
is_blank (some (x ∷ b)) = false

-- Python's truth value of `None` or a byte string.
abbrev pub truthy : Option Bytes → Bool
truthy value = not (is_blank value)

-- The property `flags_metadata`: `self.metadata or self._flags_metadata`.
abbrev pub has_metadata : Frame → Bool
has_metadata f = truthy f.metadata || f.flags_metadata

abbrev pub frame_type_of : Body → FrameType
frame_type_of (setup s) = FrameType.setup
frame_type_of (error c) = FrameType.error
frame_type_of (lease t n) = FrameType.lease
frame_type_of (keep_alive r p) = FrameType.keepalive
frame_type_of request_response = FrameType.request_response
frame_type_of request_fnf = FrameType.request_fnf
frame_type_of (request_stream n) = FrameType.request_stream
frame_type_of (request_channel n) = FrameType.request_channel
frame_type_of (request_n n) = FrameType.request_n
frame_type_of cancel = FrameType.cancel
frame_type_of (payload n) = FrameType.payload
frame_type_of metadata_push = FrameType.metadata_push
frame_type_of (resume s) = FrameType.resume
frame_type_of (resume_ok p) = FrameType.resume_ok

-- `Frame.__init__`
abbrev pub init : Body → Frame
init b = record {
  header = record {
    length = 0;
    frame_type = frame_type_of b;
    stream_id = connection_stream_id;
    flags_ignore = false;
    flags_metadata = false;
  };
  prefix_length = 0;
  metadata = some [];
  data_bytes = some [];
  flags_follows = false;
  flags_complete = false;
  metadata_only = false;
  fragment_size_bytes = none;
  body = b;
}
