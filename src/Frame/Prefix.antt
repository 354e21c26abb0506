-- ===== src/Frame/Prefix.antt =====
-- What `Frame.serialize_frame_prefix` writes: the header, the bytes of the class, the size field.
use native.Mathlib.Nat.{mod-eq_of_lt}
use rsocket_py.Prelude.{
  ℕ, ◌^◌, ◌<◌, bit_and, ◌≡◌, refl, sym, ap, Bool, true, false, not, ◌&&◌, [], ◌∷◌, ◌++◌, ok, arith,
  lt→ltb, append_assoc, if◌then◌else◌,
}
use rsocket_py.Bytes.{Bytes, be, pack-eq_ok}
use rsocket_py.FrameHelpers.{safe_len, pack_24bit}
use rsocket_py.FrameHelpers.Laws.{pack_24bit-eq_ok}
use rsocket_py.Frame.Codes.{type_id}
use rsocket_py.Frame.Slots.{Frame, truthy}
use rsocket_py.Frame.Serialize.{
  byte_item, metadata_length_field, base_prefix, compute_frame_length, compute_frame_prefix_length,
}
use rsocket_py.Frame.Header.{
  low_word, flag_word, type_byte, header_bytes, IsRegistered, byte_facts, low_byte_lt, flag_word_lt,
}

-- The frame with the two lengths that the prefix method writes.
abbrev pub measured : Frame → Bytes → Frame
measured f middle = record f {
  header = record (f.header) { length = compute_frame_length f middle };
  prefix_length = compute_frame_prefix_length f middle;
}

-- Three bytes of size for metadata that is not the whole body.
abbrev pub size_field : Frame → Bytes
size_field f = if truthy f.metadata && not f.metadata_only then be 3 (safe_len f.metadata) else []

-- What the base method is given, in ranges that it packs.
pub record IsPackable (f : Frame) : Type 0 where
  pub stream : f.stream_id < 2 ^ 32
  pub registered : IsRegistered f.frame_type
  pub metadata_fits : safe_len f.metadata < 2 ^ 24

pub metadata_length_field-eq_ok :
    (f : Frame) → safe_len f.metadata < 2 ^ 24 → metadata_length_field f ≡ ok (size_field f)
unfolding metadata_length_field
metadata_length_field-eq_ok f h = field (truthy f.metadata && not f.metadata_only)
  where
    field :
        (b : Bool)
        → (if b then pack_24bit (safe_len f.metadata) else ok [])
          ≡ ok (if b then be 3 (safe_len f.metadata) else [])
    field false = refl
    field true = rw (pack_24bit-eq_ok (safe_len f.metadata) (omega arith), mod-eq_of_lt h)

byte_item-eq_ok : (v : ℕ) → v < 256 → byte_item v ≡ ok (v ∷ [])
unfolding byte_item
byte_item-eq_ok v h = rw (lt→ltb v 256 h)

assoc :
    (sid x y : ℕ) (tail : Bytes) → be 4 sid ++ (x ∷ y ∷ tail) ≡ (be 4 sid ++ (x ∷ y ∷ [])) ++ tail
assoc sid x y tail = sym (append_assoc (be 4 sid) (x ∷ y ∷ []) tail)

-- The prefix of a frame whose class sets the bits of `low_word`.
pub base_prefix-eq_ok :
    (f : Frame) (middle : Bytes) (follows complete next : Bool)
    → IsPackable f
    → base_prefix f middle (low_word follows complete next)
      ≡ ok (
        measured f middle,
        header_bytes f.stream_id
              (type_id f.frame_type)
              (flag_word f.flags_ignore (truthy f.metadata) (low_word follows complete next))
            ++ (middle ++ size_field f),
      )
unfolding base_prefix header_bytes flag_word type_byte
base_prefix-eq_ok f middle follows complete next h =
    let w = flag_word f.flags_ignore (truthy f.metadata) (low_word follows complete next) in
    let small = flag_word_lt f.flags_ignore (truthy f.metadata) follows complete next in
    let (fits, _, _) = byte_facts (type_id f.frame_type) w h.registered small in
    rw
      (
        pack-eq_ok 4 f.stream_id h.stream,
        byte_item-eq_ok (type_byte (type_id f.frame_type) w) fits,
        byte_item-eq_ok (bit_and w 0xff) (low_byte_lt w small),
        metadata_length_field-eq_ok f h.metadata_fits,
      )
      (ap (λ (b : Bytes). ok (measured f middle, b)) (assoc _ _ _ _))
