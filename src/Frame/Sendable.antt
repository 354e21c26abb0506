-- ===== src/Frame/Sendable.antt =====
-- Which frames the wire format can carry, and what the other side makes of them: the ranges of the
-- fields, the slots that a class does not transmit, and the frame that arrives.
use rsocket_py.Prelude.{
  ℕ, ◌^◌, ◌≤◌, ◌<◌, ◌≡◌, refl, sym, Bool, true, false, not, ◌&&◌, ◌||◌, Option, none, some, [], ◌∷◌,
  ◌++◌, length, if◌then◌else◌, append-nil, append_assoc,
}
use rsocket_py.Bytes.{Bytes, be}
use rsocket_py.FrameHelpers.{safe_len}
use rsocket_py.Frame.Codes.{code_value, connection_stream_id}
use rsocket_py.Frame.Slots.{Flags, Body, Frame, truthy, frame_type_of}
use rsocket_py.Frame.Serialize.{bytes_of, next_flag, contents}
use rsocket_py.Frame.Prefix.{size_field}
use rsocket_py.Frame.Contents.{metadata_field}

-- A token is there exactly if the resume flag is set, with its length beside it.
abbrev pub TokenFits : Bool → Option (ℕ × Bytes) → Type 0
TokenFits false none = Unit {0}
TokenFits false (some p) = ⊥
TokenFits true none = ⊥
TokenFits true (some (n, token)) = (n ≡ length token) × (n < 2 ^ 16)

-- The ranges of the fields of each class.
abbrev pub Fits : Body → Type 0
Fits (Body.setup s) =
    (s.major_version < 2 ^ 16)
    × (s.minor_version < 2 ^ 16)
    × (s.keep_alive_milliseconds < 2 ^ 32)
    × (s.max_lifetime_milliseconds < 2 ^ 32)
    × TokenFits s.flags_resume s.token
    × (length s.metadata_encoding ≤ 127)
    × (length s.data_encoding ≤ 127)
Fits (Body.lease t n) = (t < 2 ^ 31) × (n < 2 ^ 31)
Fits (Body.keep_alive r p) = p < 2 ^ 63
Fits (Body.request_stream n) = n < 2 ^ 32
Fits (Body.request_channel n) = n < 2 ^ 32
Fits (Body.request_n n) = n < 2 ^ 32
Fits (Body.resume s) =
    (s.major_version < 2 ^ 16)
    × (s.minor_version < 2 ^ 16)
    × (s.token_length ≡ length s.resume_identification_token)
    × (s.token_length < 2 ^ 16)
    × (s.last_server_position < 2 ^ 63)
    × (s.first_client_position < 2 ^ 63)
Fits (Body.resume_ok p) = p < 2 ^ 63
Fits _ = Unit

-- No flag that only requests and payloads transmit.
abbrev pub IsUnflagged : Frame → Type 0
IsUnflagged f = (f.flags_follows ≡ false) × (f.flags_complete ≡ false)

-- What a class does not transmit is not there.
abbrev pub Carried : Body → Frame → Type 0
Carried (Body.setup s) f = (f.metadata_only ≡ false) × IsUnflagged f
Carried (Body.error c) f = (f.metadata_only ≡ false) × (bytes_of f.metadata ≡ []) × IsUnflagged f
Carried (Body.lease t n) f = (f.metadata_only ≡ true) × (bytes_of f.data_bytes ≡ []) × IsUnflagged f
Carried (Body.keep_alive r p) f =
    (f.metadata_only ≡ false) × (bytes_of f.metadata ≡ []) × IsUnflagged f
Carried (Body.payload n) f = f.metadata_only ≡ false
Carried (Body.request_channel n) f = f.metadata_only ≡ false
Carried Body.request_response f = (f.metadata_only ≡ false) × (f.flags_complete ≡ false)
Carried Body.request_fnf f = (f.metadata_only ≡ false) × (f.flags_complete ≡ false)
Carried (Body.request_stream n) f = (f.metadata_only ≡ false) × (f.flags_complete ≡ false)
Carried Body.metadata_push f =
    (f.metadata_only ≡ true)
    × (bytes_of f.data_bytes ≡ [])
    × IsUnflagged f
    × (f.stream_id ≡ connection_stream_id)
Carried _ f =
    (f.metadata_only ≡ false)
    × (bytes_of f.metadata ≡ [])
    × (bytes_of f.data_bytes ≡ [])
    × IsUnflagged f

pub record IsSendable (f : Frame) : Type 0 where
  pub stream : f.stream_id < 2 ^ 32
  pub type_matches : f.frame_type ≡ frame_type_of f.body
  pub metadata_fits : safe_len f.metadata < 2 ^ 24
  pub fits : Fits f.body
  pub carried : Carried f.body f

-- The flags that the class writes into its header.
abbrev pub wire_flags : Body → Frame → Flags
wire_flags (Body.setup s) f = record {
  flags_follows_resume_respond = s.flags_resume;
  flags_complete_lease = s.flags_lease;
  flags_next = false;
}
wire_flags (Body.keep_alive r p) f = record {
  flags_follows_resume_respond = r;
  flags_complete_lease = false;
  flags_next = false;
}
wire_flags (Body.payload n) f = record {
  flags_follows_resume_respond = f.flags_follows;
  flags_complete_lease = f.flags_complete;
  flags_next = next_flag n f;
}
wire_flags (Body.request_channel n) f = record {
  flags_follows_resume_respond = f.flags_follows;
  flags_complete_lease = f.flags_complete;
  flags_next = false;
}
wire_flags Body.request_response f = record {
  flags_follows_resume_respond = f.flags_follows;
  flags_complete_lease = false;
  flags_next = false;
}
wire_flags Body.request_fnf f = record {
  flags_follows_resume_respond = f.flags_follows;
  flags_complete_lease = false;
  flags_next = false;
}
wire_flags (Body.request_stream n) f = record {
  flags_follows_resume_respond = f.flags_follows;
  flags_complete_lease = false;
  flags_next = false;
}
wire_flags (Body.request_n n) f = record {
  flags_follows_resume_respond = f.flags_follows;
  flags_complete_lease = false;
  flags_next = false;
}
wire_flags _ f = record {
  flags_follows_resume_respond = false;
  flags_complete_lease = false;
  flags_next = false;
}

-- The bytes of the class between the header and the metadata.
abbrev pub token_bytes : Option (ℕ × Bytes) → Bytes
token_bytes none = []
token_bytes (some (n, token)) = be 2 n ++ token

abbrev pub string_bytes : Bytes → Bytes
string_bytes s = length s ∷ s

unfoldable pub middle_of : Body → Bytes
middle_of (Body.setup s) =
    be 2 s.major_version
    ++ (be 2 s.minor_version
        ++ (be 4 s.keep_alive_milliseconds
            ++ (be 4 s.max_lifetime_milliseconds
                ++ (token_bytes s.token
                    ++ (string_bytes s.metadata_encoding ++ string_bytes s.data_encoding)))))
middle_of (Body.error c) = be 4 (code_value c)
middle_of (Body.lease t n) = be 4 t ++ be 4 n
middle_of (Body.keep_alive r p) = be 8 p
middle_of (Body.request_stream n) = be 4 n
middle_of (Body.request_channel n) = be 4 n
middle_of (Body.request_n n) = be 4 n
middle_of (Body.resume s) =
    be 2 s.major_version
    ++ (be 2 s.minor_version
        ++ (be 2 s.token_length
            ++ (s.resume_identification_token
                ++ (be 8 s.last_server_position ++ be 8 s.first_client_position))))
middle_of (Body.resume_ok p) = be 8 p
middle_of _ = []

-- A payload frame learns whether it has anything for `on_next`.
abbrev pub sent : Body → Frame → Frame
sent (Body.payload n) f = record f { body = Body.payload (next_flag n f) }
sent b f = f

-- What `parse` makes of a frame of `n` bytes.
abbrev pub arrived : Frame → Frame
arrived f = record {
  header = record (f.header) { flags_metadata = truthy f.metadata };
  prefix_length = 0;
  metadata = some (bytes_of f.metadata);
  data_bytes = some (bytes_of f.data_bytes);
  flags_follows = f.flags_follows;
  flags_complete = f.flags_complete;
  metadata_only = f.metadata_only;
  fragment_size_bytes = none;
  body = f.body;
}

written : (d : Option Bytes) → (if truthy d then bytes_of d else []) ≡ bytes_of d
written none = refl
written (some []) = refl
written (some (x ∷ d)) = refl

flagged_written :
    (m : Option Bytes) (b : Bool)
    → (if (truthy m || b) && truthy m then bytes_of m else []) ≡ bytes_of m
flagged_written none true = refl
flagged_written none false = refl
flagged_written (some []) true = refl
flagged_written (some []) false = refl
flagged_written (some (x ∷ m)) b = refl

sized_contents :
    (m d : Option Bytes) (b : Bool)
    → (if truthy m && not false then be 3 (safe_len m) else [])
        ++ ((if (truthy m || b) && truthy m then bytes_of m else [])
            ++ (if not false && truthy d then bytes_of d else []))
      ≡ metadata_field (bytes_of m) ++ bytes_of d
unfolding metadata_field
sized_contents none d b = rw (flagged_written none b, written d)
sized_contents (some []) d b = rw (flagged_written (some []) b, written d)
sized_contents (some (x ∷ m)) d b =
    rw (written d) (sym (append_assoc (be 3 (length (x ∷ m))) (x ∷ m) (bytes_of d)))

only_contents :
    (m d : Option Bytes) (b : Bool)
    → (if truthy m && not true then be 3 (safe_len m) else [])
        ++ ((if (truthy m || b) && truthy m then bytes_of m else [])
            ++ (if not true && truthy d then bytes_of d else []))
      ≡ bytes_of m
only_contents none d b = rw (flagged_written none b)
only_contents (some []) d b = rw (flagged_written (some []) b)
only_contents (some (x ∷ m)) d b = append-nil (x ∷ m)

-- What stands behind the bytes of the class.
pub tail_sized :
    (f : Frame)
    → f.metadata_only ≡ false
    → size_field f ++ contents f ≡ metadata_field (bytes_of f.metadata) ++ bytes_of f.data_bytes
unfolding contents
tail_sized f e = rw e (sized_contents f.metadata f.data_bytes f.flags_metadata)

pub tail_only :
    (f : Frame) → f.metadata_only ≡ true → size_field f ++ contents f ≡ bytes_of f.metadata
unfolding contents
tail_only f e = rw e (only_contents f.metadata f.data_bytes f.flags_metadata)
