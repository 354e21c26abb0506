-- ===== src/Frame/RoundTrip.antt =====
-- A frame that is serialized and parsed again.
use rsocket_py.Prelude.{
  ℕ, ◌+◌, ◌^◌, ◌<◌, ◌≡◌, refl, sym, ap, ◌∙◌, Bool, true, false, not, ◌&&◌, ◌||◌, Option, none, some,
  [], ◌∷◌, ◌++◌, arith, ok, length, drop, append_assoc, append-nil, ge→ltb, if◌then◌else◌,
  length-append,
}
use rsocket_py.Bytes.{Bytes, pos, be}
use rsocket_py.FrameHelpers.{safe_len}
use rsocket_py.Frame.Codes.{FrameType, type_id}
use rsocket_py.Frame.Slots.{Flags, Header, Body, Frame, truthy, frame_type_of}
use rsocket_py.Frame.Parse.{parse_header, new_frame, parse, is_frame_to_ignore, parse_or_ignore}
use rsocket_py.Frame.Serialize.{
  bytes_of, contents, serialize, next_flag, compute_frame_length, compute_frame_prefix_length,
  compute_data_metadata_length,
}
use rsocket_py.Frame.Header.{header_bytes, flag_word, IsRegistered, parse_header-header_bytes}
use rsocket_py.Frame.Contents.{metadata_field}
use rsocket_py.Frame.Prefix.{IsPackable, measured, size_field}
use rsocket_py.Frame.Sendable.{
  Fits, Carried, IsSendable, wire_flags, middle_of, sent, arrived, tail_sized, tail_only,
}
use rsocket_py.Frame.Written.{wire_word, with_header, serialize-eq_ok}
use rsocket_py.Frame.Read.{
  seen, payload_frame-read, plain_request-read, request_stream-read, request_channel-read,
  request_n-read, cancel-read, error-read, keep_alive-read, resume_ok-read, metadata_push-read,
  lease-read,
}
use rsocket_py.Frame.ReadSetup.{setup-read, resume-read}

-- Any bytes behind a header that the sender writes.
module _ (sid : ℕ) (ty : FrameType) (ignore metadata : Bool) (w : Flags) (rest : Bytes)
    (hs : sid < 2 ^ 32) (ht : IsRegistered ty) where
  abbrev buffer : Bytes
  buffer = header_bytes sid (type_id ty) (flag_word ignore metadata (wire_word w)) ++ rest

  abbrev header_of : Header
  header_of = record {
    length = 6 + length rest;
    frame_type = ty;
    stream_id = sid;
    flags_ignore = ignore;
    flags_metadata = metadata;
  }

  header_read : parse_header buffer (pos 0) ≡ ok (header_of, w)
  header_read =
      parse_header-header_bytes sid ty ignore metadata w.flags_follows_resume_respond
        w.flags_complete_lease w.flags_next rest hs ht

  whole : 6 + length rest ≡ length buffer
  unfolding header_bytes be
  whole = omega arith

  behind : drop 6 buffer ≡ rest
  unfolding header_bytes be
  behind = refl

  -- The class is found by the header, and its `parse` decides.
  opened :
      (f g : Frame)
      → new_frame ty ≡ ok f
      → parse f.body f buffer (pos 0) ≡ ok g
      → is_frame_to_ignore g ≡ false
      → parse_or_ignore buffer ≡ ok (some g)
  unfolding parse_or_ignore
  opened f g found read kept =
      rw (← whole, ge→ltb (6 + length rest) 6 (omega arith), header_read, found, read, kept)

truthy-bytes_of : (o : Option Bytes) → truthy o ≡ truthy (some (bytes_of o))
truthy-bytes_of none = refl
truthy-bytes_of (some b) = refl

length-bytes_of : (o : Option Bytes) → length (bytes_of o) ≡ safe_len o
length-bytes_of none = refl
length-bytes_of (some b) = refl

abbrev sent_body : Body → Frame → Body
sent_body (Body.payload n) f = Body.payload (next_flag n f)
sent_body b f = b

registered : (b : Body) → IsRegistered (frame_type_of b)
registered (Body.setup s) = omega arith
registered _ = omega arith

-- The frame that is read: the sender's, behind the header `h`.
abbrev target : Header → Body → Frame → Frame
target h b f =
    seen h (bytes_of f.metadata) (bytes_of f.data_bytes) f.flags_follows f.flags_complete
      f.metadata_only (sent_body b f)

module _ (f : Frame) (hs : f.stream_id < 2 ^ 32) (hm : safe_len f.metadata < 2 ^ 24) where
  abbrev tail : Bytes
  tail = size_field f ++ contents f

  abbrev wire : Body → Bytes
  wire b =
      buffer f.stream_id (frame_type_of b) f.flags_ignore (truthy f.metadata) (wire_flags b f)
        (middle_of b ++ tail) hs (registered b)

  abbrev wire_header : Body → Header
  wire_header b =
      header_of f.stream_id (frame_type_of b) f.flags_ignore (truthy f.metadata) (wire_flags b f)
        (middle_of b ++ tail) hs (registered b)

  fits : length (bytes_of f.metadata) < 2 ^ 24
  fits = rw (length-bytes_of f.metadata) hm

  wire_opened :
      (b : Body) (f₀ g : Frame)
      → new_frame (frame_type_of b) ≡ ok f₀
      → parse f₀.body f₀ (wire b) (pos 0) ≡ ok g
      → is_frame_to_ignore g ≡ false
      → parse_or_ignore (wire b) ≡ ok (some g)
  wire_opened b =
      opened f.stream_id (frame_type_of b) f.flags_ignore (truthy f.metadata) (wire_flags b f)
        (middle_of b ++ tail) hs (registered b)

  wire_read : (b : Body) → parse_header (wire b) (pos 0) ≡ ok (wire_header b, wire_flags b f)
  wire_read b =
      header_read f.stream_id (frame_type_of b) f.flags_ignore (truthy f.metadata) (wire_flags b f)
        (middle_of b ++ tail) hs (registered b)

  wire_whole : (b : Body) → 6 + length (middle_of b ++ tail) ≡ length (wire b)
  wire_whole b =
      whole f.stream_id (frame_type_of b) f.flags_ignore (truthy f.metadata) (wire_flags b f)
        (middle_of b ++ tail) hs (registered b)

  wire_behind : (b : Body) → drop 6 (wire b) ≡ middle_of b ++ tail
  wire_behind b =
      behind f.stream_id (frame_type_of b) f.flags_ignore (truthy f.metadata) (wire_flags b f)
        (middle_of b ++ tail) hs (registered b)

  -- The bytes behind the header, for the classes with a size field and for those without.
  at_sized :
      (b : Body)
      → f.metadata_only ≡ false
      → drop 6 (wire b)
        ≡ middle_of b ++ (metadata_field (bytes_of f.metadata) ++ bytes_of f.data_bytes)
  at_sized b e = wire_behind b ∙ ap (λ (t : Bytes). middle_of b ++ t) (tail_sized f e)

  at_data :
      (b : Body)
      → f.metadata_only ≡ false
      → bytes_of f.metadata ≡ []
      → drop 6 (wire b) ≡ middle_of b ++ bytes_of f.data_bytes
  unfolding metadata_field
  at_data b e m =
      at_sized b e
      ∙ ap (λ (t : Bytes). middle_of b ++ (metadata_field t ++ bytes_of f.data_bytes)) m

  at_only :
      (b : Body) → f.metadata_only ≡ true → drop 6 (wire b) ≡ middle_of b ++ bytes_of f.metadata
  at_only b e = wire_behind b ∙ ap (λ (t : Bytes). middle_of b ++ t) (tail_only f e)

  landed :
      (b : Body) {f₀ g : Frame}
      → new_frame (frame_type_of b) ≡ ok f₀
      → parse f₀.body f₀ (wire b) (pos 0) ≡ ok g
      → is_frame_to_ignore g ≡ false
      → g ≡ target (wire_header b) b f
      → parse_or_ignore (wire b) ≡ ok (some (target (wire_header b) b f))
  landed b found read kept e = wire_opened b _ _ found read kept ∙ ap (λ (g : Frame). ok (some g)) e

  truth : truthy f.metadata ≡ truthy (some (bytes_of f.metadata))
  truth = truthy-bytes_of f.metadata

  read_back :
      (b : Body)
      → Fits b
      → Carried b f
      → parse_or_ignore (wire b) ≡ ok (some (target (wire_header b) b f))
  unfolding new_frame parse is_frame_to_ignore middle_of
  read_back (Body.payload n) h c =
      let b = Body.payload n in
      landed b refl
        (payload_frame-read (wire b) _ (wire_header b) _ (wire_read b) (wire_whole b) _ _ fits truth
          _ (at_sized b c))
        refl (cc)
  read_back Body.request_response h c =
      let b = Body.request_response in
      landed b refl
        (plain_request-read (wire b) _ (wire_header b) _ (wire_read b) (wire_whole b) _ _ fits truth
          _ (at_sized b c.0))
        refl (cc (c.0, c.1))
  read_back Body.request_fnf h c =
      let b = Body.request_fnf in
      landed b refl
        (plain_request-read (wire b) _ (wire_header b) _ (wire_read b) (wire_whole b) _ _ fits truth
          _ (at_sized b c.0))
        refl (cc (c.0, c.1))
  read_back (Body.request_stream n) h c =
      let b = Body.request_stream n in
      landed b refl
        (request_stream-read (wire b) _ (wire_header b) _ (wire_read b) (wire_whole b) _ _ fits
          truth _ n h (at_sized b c.0))
        refl (cc (c.0, c.1))
  read_back (Body.request_channel n) h c =
      let b = Body.request_channel n in
      landed b refl
        (request_channel-read (wire b) _ (wire_header b) _ (wire_read b) (wire_whole b) _ _ fits
          truth _ n h (at_sized b c))
        refl (cc (c))
  read_back (Body.request_n n) h c =
      let b = Body.request_n n in
      landed b refl
        (request_n-read (wire b) _ (wire_header b) _ (wire_read b) (wire_whole b) _ n _ h
          (wire_behind b))
        refl (cc (c.0, c.1, c.2, c.3.0, c.3.1))
  read_back Body.cancel h c =
      let b = Body.cancel in
      landed b refl (cancel-read (wire b) _ (wire_header b) _ (wire_read b) (wire_whole b) _) refl
        (cc (c.0, c.1, c.2, c.3.0, c.3.1))
  read_back (Body.error k) h c =
      let b = Body.error k in
      landed b refl
        (error-read (wire b) _ (wire_header b) _ (wire_read b) (wire_whole b) _ k _
          (at_data b c.0 c.1))
        refl (cc (c.0, c.1, c.2.0, c.2.1))
  read_back (Body.keep_alive r p) h c =
      let b = Body.keep_alive r p in
      landed b refl
        (keep_alive-read (wire b) _ (wire_header b) _ (wire_read b) (wire_whole b) _ p _ h
          (at_data b c.0 c.1))
        refl (cc (c.0, c.1, c.2.0, c.2.1))
  read_back (Body.lease t n) h c =
      let b = Body.lease t n in
      landed b refl
        (lease-read (wire b) _ (wire_header b) _ (wire_read b) (wire_whole b) _ truth _ t n h.0 h.1
          (at_only b c.0 ∙ append_assoc (be 4 t) (be 4 n) _))
        refl (cc (c.0, c.1, c.2.0, c.2.1))
  read_back (Body.resume_ok p) h c =
      let b = Body.resume_ok p in
      landed b refl
        (resume_ok-read (wire b) _ (wire_header b) _ (wire_read b) (wire_whole b) _ p _ h
          (wire_behind b))
        refl (cc (c.0, c.1, c.2, c.3.0, c.3.1))
  read_back (Body.resume s) h c =
      let b = Body.resume s in
      landed b refl
        (resume-read (wire b) _ (wire_header b) _ s (wire_read b) _ h
          (at_data b c.0 c.1 ∙ rw c.2 (append-nil (middle_of b))))
        refl (cc (c.0, c.1, c.2, c.3.0, c.3.1))
  read_back (Body.setup s) h c =
      let b = Body.setup s in
      landed b refl
        (setup-read (wire b) _ (wire_header b) s (wire_read b) (wire_whole b) _ _ fits truth _ h
          (at_sized b c.0))
        refl (cc (c.0, c.1.0, c.1.1))
  read_back Body.metadata_push h c =
      let b = Body.metadata_push in
      landed b refl
        (metadata_push-read (wire b) _ (wire_header b) _ (wire_read b) (wire_whole b) _ truth _
          (at_only b c.0))
        (ground (arith, c.3)) (cc (c.0, c.1, c.2.0, c.2.1))

abbrev parts_length : Option Bytes → Option Bytes → Bool → Bool → ℕ
parts_length m d flag only =
    (if (truthy m || flag) && truthy m then (if not only then 3 else 0) else 0)
    + ((if (truthy m || flag) && truthy m then safe_len m else 0)
        + (if not only && truthy d then safe_len d else 0))

length-parts :
    (m d : Option Bytes) (flag only : Bool)
    → length (
        (if truthy m && not only then be 3 (safe_len m) else [])
        ++ ((if (truthy m || flag) && truthy m then bytes_of m else [])
            ++ (if not only && truthy d then bytes_of d else [])))
      ≡ parts_length m d flag only
unfolding be
length-parts none none flag only = ground arith
length-parts none (some []) flag only = ground arith
length-parts none (some (y ∷ d)) flag only = ground arith
length-parts (some []) none flag only = ground arith
length-parts (some []) (some []) flag only = ground arith
length-parts (some []) (some (y ∷ d)) flag only = ground arith
length-parts (some (x ∷ m)) none flag only = ground (arith, length-append m [])
length-parts (some (x ∷ m)) (some []) flag only = ground (arith, length-append m [])
length-parts (some (x ∷ m)) (some (y ∷ d)) flag only =
    ground (arith, length-append m (y ∷ d), length-append m [])

-- `compute_frame_length` is the number of bytes that are written.
pub frame_length :
    (f : Frame) (middle : Bytes)
    → 6 + length (middle ++ (size_field f ++ contents f)) ≡ compute_frame_length f middle
unfolding compute_frame_length compute_frame_prefix_length compute_data_metadata_length contents
frame_length f middle = omega (
  arith,
  length-append middle (size_field f ++ contents f),
  length-parts f.metadata f.data_bytes f.flags_metadata f.metadata_only,
)

wire-eq :
    (f : Frame) (hs : f.stream_id < 2 ^ 32) (hm : safe_len f.metadata < 2 ^ 24)
    → f.frame_type ≡ frame_type_of f.body
    → with_header f (wire_flags f.body f) (middle_of f.body ++ size_field f) ++ contents f
      ≡ wire f hs hm f.body
wire-eq f hs hm e = simp append_assoc (
    ap
      (λ (t : FrameType).
        header_bytes f.stream_id (type_id t)
          (flag_word f.flags_ignore (truthy f.metadata) (wire_word (wire_flags f.body f)))
        ++ (middle_of f.body ++ (size_field f ++ contents f)))
      e)

arrived-target :
    (b : Body) (f : Frame) (hs : f.stream_id < 2 ^ 32) (hm : safe_len f.metadata < 2 ^ 24)
    → f.body ≡ b
    → f.frame_type ≡ frame_type_of b
    → target (wire_header f hs hm b) b f ≡ arrived (measured (sent b f) (middle_of b))
unfolding compute_frame_length compute_frame_prefix_length compute_data_metadata_length
arrived-target (Body.payload n) f hs hm eb et = cc (frame_length f (middle_of (Body.payload n)))
arrived-target b f hs hm eb et = cc (frame_length f (middle_of b))

-- The bytes of a frame, and the frame as `serialize` leaves it.
abbrev pub wire_bytes : Frame → Bytes
wire_bytes f = with_header f (wire_flags f.body f) (middle_of f.body ++ size_field f) ++ contents f

abbrev pub after_serialize : Frame → Frame
after_serialize f = measured (sent f.body f) (middle_of f.body)

module _ (f : Frame) (s : IsSendable f) where
  pub IsSendable-IsPackable : IsPackable f
  IsSendable-IsPackable = record {
    stream = s.stream;
    registered = rw s.type_matches (registered f.body);
    metadata_fits = s.metadata_fits;
  }

  pub serialize-wire_bytes : serialize f ≡ ok (after_serialize f, wire_bytes f)
  serialize-wire_bytes = serialize-eq_ok f s.fits IsSendable-IsPackable

  pub parse_or_ignore-wire_bytes :
      parse_or_ignore (wire_bytes f) ≡ ok (some (arrived (after_serialize f)))
  parse_or_ignore-wire_bytes =
      ap parse_or_ignore (wire-eq f s.stream s.metadata_fits s.type_matches)
      ∙ read_back f s.stream s.metadata_fits f.body s.fits s.carried
      ∙ ap (λ (g : Frame). ok (some g))
          (arrived-target f.body f s.stream s.metadata_fits refl s.type_matches)

  pub length-wire_bytes : length (wire_bytes f) ≡ compute_frame_length f (middle_of f.body)
  length-wire_bytes =
      ap length (wire-eq f s.stream s.metadata_fits s.type_matches)
      ∙ sym (wire_whole f s.stream s.metadata_fits f.body)
      ∙ frame_length f (middle_of f.body)

-- A frame that is sendable serializes, and parsing its bytes gives it back: every field that its
-- class transmits, with `None` read as the empty byte string, and for a payload frame with the
-- flag `next` that `serialize` sets.
pub parse_or_ignore-serialize :
    (f : Frame)
    → IsSendable f
    → (p : Frame × Bytes) × (serialize f ≡ ok p) × (parse_or_ignore p.1 ≡ ok (some (arrived p.0)))
parse_or_ignore-serialize f s =
    ((after_serialize f, wire_bytes f), serialize-wire_bytes f s, parse_or_ignore-wire_bytes f s)
