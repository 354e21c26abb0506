-- ===== src/Frame/Header.antt =====
-- The six bytes of a header: what `serialize_frame_prefix` writes and what `parse_header` reads.
use rsocket_py.Prelude.{
  ℕ, ◌+◌, ◌*◌, ◌/◌, ◌^◌, ◌<◌, bit_and, bit_or, ◌≡◌, refl, ap, Bool, true, false, ◌&&◌, [], ◌∷◌,
  ◌++◌, ok, arith, append_assoc, ltb, ltb→lt, ◌==◌, ==_iff, length, drop,
}
use rsocket_py.Prelude.Bits.{all_below, all_below_sound, bit_and_mask}
use rsocket_py.Bytes.{Bytes, pos, be, unpack_front, take_exact, un_be, drop-be, unpack_front-be}
use rsocket_py.FrameHelpers.{is_flag_set}
use rsocket_py.Frame.Codes.{FrameType, type_id, from_id}
use rsocket_py.Frame.Parse.{parse_header}
use rsocket_py.Frame.Serialize.{clear, set_flag}

-- The flag word: the bits that a class sets, and those that every frame may have.
unfoldable pub low_word : Bool → Bool → Bool → ℕ
low_word follows complete next =
    set_flag next 0x20 (set_flag complete 0x40 (set_flag follows 0x80 0))

unfoldable pub flag_word : Bool → Bool → ℕ → ℕ
flag_word ignore has_metadata low =
    set_flag has_metadata 0x100 (set_flag ignore 0x200 (clear low 0x300))

unfoldable pub type_byte : ℕ → ℕ → ℕ
type_byte id word = bit_or (id * 2 ^ 2) (word / 2 ^ 8)

-- The header of a frame whose type has the number `id`.
unfoldable pub header_bytes : ℕ → ℕ → ℕ → Bytes
header_bytes stream_id id word = be 4 stream_id ++ (type_byte id word ∷ bit_and word 0xff ∷ [])

-- The bytes of one type, over all flag words.
word_table :
    all_below 16 (λ id. all_below 1024 (λ w.
      ltb (type_byte id w) 256
      && ((type_byte id w / 2 ^ 2 == id)
          && (bit_or (bit_and w 0xff) (bit_and (type_byte id w) 3 * 2 ^ 8) == w))))
    ≡ true
unfolding all_below type_byte
word_table = refl

and_left : (a b : Bool) → (a && b) ≡ true → a ≡ true
and_left true b h = refl
and_left false b h = cc

and_right : (a b : Bool) → (a && b) ≡ true → b ≡ true
and_right true b h = h
and_right false b h = cc

pub byte_facts :
    (id w : ℕ)
    → id < 16
    → w < 1024
    → (type_byte id w < 256)
      × (type_byte id w / 2 ^ 2 ≡ id)
      × (bit_or (bit_and w 0xff) (bit_and (type_byte id w) 3 * 2 ^ 8) ≡ w)
byte_facts id w hi hw = (
  ltb→lt _ _ (and_left _ _ row),
  (==_iff _ _).0 (and_left _ _ (and_right _ _ row)),
  (==_iff _ _).0 (and_right _ _ (and_right _ _ row)),
)
  where
    row :
        (ltb (type_byte id w) 256
          && ((type_byte id w / 2 ^ 2 == id)
              && (bit_or (bit_and w 0xff) (bit_and (type_byte id w) 3 * 2 ^ 8) == w)))
        ≡ true
    row = all_below_sound 1024 _ w hw (all_below_sound 16 _ id hi word_table)

pub low_byte_lt : (w : ℕ) → w < 1024 → bit_and w 0xff < 256
low_byte_lt w h = omega (arith, bit_and_mask 8 w)

pub flag_word_lt : (i m f c n : Bool) → flag_word i m (low_word f c n) < 1024
unfolding flag_word low_word
flag_word_lt i m f c n = ground arith

pub flags_read :
    (i m f c n : Bool)
    → let w = flag_word i m (low_word f c n) in
      (is_flag_set w 0x200 ≡ i)
      × (is_flag_set w 0x100 ≡ m)
      × (is_flag_set w 0x80 ≡ f)
      × (is_flag_set w 0x40 ≡ c)
      × (is_flag_set w 0x20 ≡ n)
unfolding flag_word low_word
flags_read i m f c n = ground arith

-- A registered type: all but `ext`, whose number has no place in a header.
abbrev pub IsRegistered : FrameType → Type 0
IsRegistered ty = type_id ty < 16

from_id-type_id : (ty : FrameType) → IsRegistered ty → from_id (type_id ty) ≡ ok ty
unfolding from_id
from_id-type_id FrameType.setup h = refl
from_id-type_id FrameType.ext h = absurd (omega arith)
from_id-type_id _ h = refl

unpack_one : (x : ℕ) (rest : Bytes) → unpack_front 1 (x ∷ rest) ≡ ok x
unfolding unpack_front take_exact un_be
unpack_one x rest = ap ok (omega arith)

module _ (sid x y : ℕ) (rest : Bytes) where
  at_four : drop 4 (be 4 sid ++ (x ∷ y ∷ rest)) ≡ x ∷ y ∷ rest
  at_four = drop-be 4 sid (x ∷ y ∷ rest)

  at_five : drop 5 (be 4 sid ++ (x ∷ y ∷ rest)) ≡ y ∷ rest
  unfolding be
  at_five = refl

  whole_length : length (be 4 sid ++ (x ∷ y ∷ rest)) ≡ 6 + length rest
  unfolding be
  whole_length = omega arith

-- The header is read back field by field, whatever stands behind it.
pub parse_header-header_bytes :
    (sid : ℕ) (ty : FrameType) (i m f c n : Bool) (rest : Bytes)
    → sid < 2 ^ 32
    → IsRegistered ty
    → parse_header (header_bytes sid (type_id ty) (flag_word i m (low_word f c n)) ++ rest) (pos 0)
      ≡ ok (
        record {
          length = 6 + length rest;
          frame_type = ty;
          stream_id = sid;
          flags_ignore = i;
          flags_metadata = m;
        },
        record { flags_follows_resume_respond = f; flags_complete_lease = c; flags_next = n },
      )
unfolding header_bytes parse_header
parse_header-header_bytes sid ty i m f c n rest hs ht =
    let w = flag_word i m (low_word f c n) in
    let x = type_byte (type_id ty) w in
    let y = bit_and w 0xff in
    let small = flag_word_lt i m f c n in
    let (fits, id, word) = byte_facts (type_id ty) w ht small in
    let (ei, em, ef, ec, en) = flags_read i m f c n in
    rw (append_assoc (be 4 sid) (x ∷ y ∷ []) rest) (
      rw (
        unpack_front-be 4 sid (x ∷ y ∷ rest) hs,
        at_four sid x y rest,
        at_five sid x y rest,
        unpack_one x (y ∷ rest),
        unpack_one y rest,
        id,
        from_id-type_id ty ht,
        word,
        whole_length sid x y rest,
        ei,
        em,
        ef,
        ec,
        en,
      ))
