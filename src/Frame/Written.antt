-- ===== src/Frame/Written.antt =====
-- What `serialize` writes for each class: header, the bytes of the class, size field, contents.
use native.Mathlib.Nat.{mod-eq_of_lt}
use rsocket_py.Prelude.{
  ℕ, ◌^◌, ◌≤◌, ◌<◌, bit_and, ◌≡◌, refl, ◌∙◌, Bool, true, false, not, Option, none, some, ErrorCode,
  attribute_error, err, [], ◌++◌, arith, Result, ok, ◌>>=◌, length, if◌then◌else◌, le→leb,
}
use rsocket_py.Prelude.Bits.{bit_and_mask}
use rsocket_py.Bytes.{Bytes, be, pack, pack-eq_ok}
use rsocket_py.FrameHelpers.{pack_string}
use rsocket_py.FrameHelpers.Laws.{pack_position-eq_ok}
use rsocket_py.Frame.Codes.{type_id, code_value, mask_31_bits}
use rsocket_py.Frame.Slots.{Flags, SetupSlots, Body, Frame, truthy}
use rsocket_py.Frame.Serialize.{
  clear, set_flag, pack_token, setup_middle, setup_prefix, lease_prefix, keep_alive_prefix,
  request_prefix, request_stream_prefix, request_channel_prefix, request_n_prefix, payload_prefix,
  next_flag, error_prefix, resume_prefix, resume_ok_prefix, prefix_of, serialize_frame_prefix,
  serialize, contents,
}
use rsocket_py.Frame.Header.{low_word, flag_word, header_bytes}
use rsocket_py.Frame.Prefix.{IsPackable, measured, size_field, base_prefix-eq_ok}
use rsocket_py.Frame.Sendable.{
  TokenFits, Fits, wire_flags, middle_of, token_bytes, string_bytes, sent,
}

abbrev pub wire_word : Flags → ℕ
wire_word w = low_word w.flags_follows_resume_respond w.flags_complete_lease w.flags_next

-- The header and what the base method puts behind it.
abbrev pub with_header : Frame → Flags → Bytes → Bytes
with_header f w rest =
    header_bytes f.stream_id (type_id f.frame_type)
      (flag_word f.flags_ignore (truthy f.metadata) (wire_word w))
    ++ rest

abbrev pub Writes : Body → Frame → Result (Frame × Bytes) → Type 0
Writes b f r =
    r
    ≡ ok (
      measured (sent b f) (middle_of b),
      with_header f (wire_flags b f) (middle_of b ++ size_field f),
    )

pack_string-eq_ok : (s : Bytes) → length s ≤ 127 → pack_string s ≡ ok (string_bytes s)
unfolding pack_string
pack_string-eq_ok s h = rw (le→leb (length s) 127 h)

pack_token-eq_ok :
    (s : SetupSlots) → TokenFits s.flags_resume s.token → pack_token s ≡ ok (token_bytes s.token)
unfolding pack_token
pack_token-eq_ok s h = token s.flags_resume s.token h
  where
    token :
        (r : Bool) (t : Option (ℕ × Bytes))
        → TokenFits r t
        → (if not r then ok [] else elim t [
          | none ↦ err attribute_error
          | some (n, token) ↦ do size ← pack 2 n; ok (size ++ token)
        ])
          ≡ ok (token_bytes t)
    token false none h = refl
    token false (some p) h = absurd h
    token true none h = absurd h
    token true (some (n, t)) h = rw (pack-eq_ok 2 n h.1)

code_value_lt : (c : ErrorCode) → code_value c < 2 ^ 32
code_value_lt ErrorCode.invalid_setup = omega arith
code_value_lt _ = omega arith

masked : (n : ℕ) → n < 2 ^ 31 → bit_and n mask_31_bits ≡ n
masked n h = bit_and_mask 31 n ∙ mod-eq_of_lt h

shared : (f : Frame) → IsPackable f → (b : Body) → IsPackable (record f { body = b })
shared f h b = record {
  stream = h.stream;
  registered = h.registered;
  metadata_fits = h.metadata_fits;
}

-- The flags as the classes compute them.
resume_then_lease :
    (r l : Bool) → set_flag r 0x80 (set_flag l 0x40 (clear 0 0xc0)) ≡ low_word r l false
unfolding low_word
resume_then_lease r l = ground arith

complete_then_follows :
    (f c : Bool)
    → set_flag f 0x80 (clear (set_flag c 0x40 (clear 0 0x40)) 0x80) ≡ low_word f c false
unfolding low_word
complete_then_follows f c = ground arith

request_prefix-eq_ok :
    (f : Frame) (middle : Bytes)
    → IsPackable f
    → request_prefix f middle 0
      ≡ ok (
        measured f middle,
        with_header f
            (record {
              flags_follows_resume_respond = f.flags_follows;
              flags_complete_lease = false;
              flags_next = false;
            })
            (middle ++ size_field f),
      )
unfolding request_prefix low_word
request_prefix-eq_ok f middle h = base_prefix-eq_ok f middle f.flags_follows false false h

setup_middle-eq_ok :
    (s : SetupSlots) → Fits (Body.setup s) → setup_middle s ≡ ok (middle_of (Body.setup s))
unfolding setup_middle middle_of
setup_middle-eq_ok s (major, minor, keep_alive, max_lifetime, token, metadata, data_bytes) = rw (
  pack-eq_ok 2 s.major_version major,
  pack-eq_ok 2 s.minor_version minor,
  pack-eq_ok 4 s.keep_alive_milliseconds keep_alive,
  pack-eq_ok 4 s.max_lifetime_milliseconds max_lifetime,
  pack_token-eq_ok s token,
  pack_string-eq_ok s.metadata_encoding metadata,
  pack_string-eq_ok s.data_encoding data_bytes,
)

pub prefix_of-Writes :
    (b : Body) (f : Frame) → Fits b → IsPackable f → Writes b f (prefix_of b f [] 0)
unfolding prefix_of middle_of
prefix_of-Writes (Body.setup s) f fits h =
    unfold setup_prefix low_word in
    rw (setup_middle-eq_ok s fits, resume_then_lease s.flags_resume s.flags_lease)
      (base_prefix-eq_ok f (middle_of (Body.setup s)) s.flags_resume s.flags_lease false h)
prefix_of-Writes (Body.error c) f fits h =
    unfold error_prefix low_word in
    rw (pack-eq_ok 4 (code_value c) (code_value_lt c))
      (base_prefix-eq_ok f (be 4 (code_value c)) false false false h)
prefix_of-Writes (Body.lease t n) f (ht, hn) h =
    unfold lease_prefix low_word in
    rw (masked t ht, masked n hn, pack-eq_ok 4 t (omega arith), pack-eq_ok 4 n (omega arith))
      (base_prefix-eq_ok f (be 4 t ++ be 4 n) false false false h)
prefix_of-Writes (Body.keep_alive r p) f fits h =
    unfold keep_alive_prefix low_word in
    rw (pack_position-eq_ok p fits) (base_prefix-eq_ok f (be 8 p) r false false h)
prefix_of-Writes Body.request_response f fits h = request_prefix-eq_ok f [] h
prefix_of-Writes Body.request_fnf f fits h = request_prefix-eq_ok f [] h
prefix_of-Writes (Body.request_stream n) f fits h =
    unfold request_stream_prefix in rw (pack-eq_ok 4 n fits) (request_prefix-eq_ok f (be 4 n) h)
prefix_of-Writes (Body.request_channel n) f fits h =
    unfold request_channel_prefix request_prefix in
    rw (pack-eq_ok 4 n fits, complete_then_follows f.flags_follows f.flags_complete)
      (base_prefix-eq_ok f (be 4 n) f.flags_follows f.flags_complete false h)
prefix_of-Writes (Body.request_n n) f fits h =
    unfold request_n_prefix in rw (pack-eq_ok 4 n fits) (request_prefix-eq_ok f (be 4 n) h)
prefix_of-Writes Body.cancel f fits h =
    unfold low_word in base_prefix-eq_ok f [] false false false h
prefix_of-Writes (Body.payload n) f fits h =
    unfold payload_prefix low_word in
    base_prefix-eq_ok (record f { body = Body.payload (next_flag n f) }) [] f.flags_follows
      f.flags_complete (next_flag n f) (shared f h _)
prefix_of-Writes Body.metadata_push f fits h =
    unfold low_word in base_prefix-eq_ok f [] false false false h
prefix_of-Writes (Body.resume s) f (major, minor, size, small, last, first) h =
    unfold resume_prefix low_word in
    rw
      (
        pack-eq_ok 2 s.major_version major,
        pack-eq_ok 2 s.minor_version minor,
        ← size,
        pack-eq_ok 2 s.token_length small,
        pack_position-eq_ok s.last_server_position last,
        pack_position-eq_ok s.first_client_position first,
      )
      (base_prefix-eq_ok f (middle_of (Body.resume s)) false false false h)
prefix_of-Writes (Body.resume_ok p) f fits h =
    unfold resume_ok_prefix low_word in
    rw (pack_position-eq_ok p fits) (base_prefix-eq_ok f (be 8 p) false false false h)

-- The prefix methods leave the contents alone.
pub contents-sent :
    (b : Body) (f : Frame) → contents (measured (sent b f) (middle_of b)) ≡ contents f
unfolding contents
contents-sent (Body.payload n) f = refl
contents-sent _ f = refl

-- The whole frame on the wire.
pub serialize-eq_ok :
    (f : Frame)
    → Fits f.body
    → IsPackable f
    → serialize f
      ≡ ok (
        measured (sent f.body f) (middle_of f.body),
        with_header f (wire_flags f.body f) (middle_of f.body ++ size_field f) ++ contents f,
      )
unfolding serialize serialize_frame_prefix
serialize-eq_ok f fits h = rw (prefix_of-Writes f.body f fits h, contents-sent f.body f)
