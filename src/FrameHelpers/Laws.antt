-- ===== src/FrameHelpers/Laws.antt =====
-- What is packed is unpacked again.
use native.Mathlib.Nat.{mod-eq_of_lt}
use rsocket_py.Prelude.{
  ℕ, ◌+◌, ◌%◌, ◌^◌, ◌≤◌, ◌<◌, ◌≡◌, refl, sym, ap, ◌∙◌, [], ◌∷◌, ◌++◌, ok, arith, lt→ltb, length,
  drop,
}
use rsocket_py.Prelude.Bits.{bit_and_mask}
use rsocket_py.Bytes.{
  Bytes, pos, slice, be, un_be, unpack, unpack_front, take_exact, length-be, unpack-be, pack-eq_ok,
  slice_at, drop_past,
}
use rsocket_py.FrameHelpers.{
  unpack_string, pack_24bit, unpack_24bit, pack_position, unpack_position, signed_byte,
}

-- A length below 2 ^ 24 takes the three low bytes; a longer one loses its high byte.
pub pack_24bit-eq_ok : (n : ℕ) → n < 2 ^ 32 → pack_24bit n ≡ ok (be 3 (n % 2 ^ 24))
unfolding pack_24bit
pack_24bit-eq_ok n h = rw (pack-eq_ok 4 n h) (unfold be in refl)

unpack_padded : (n : ℕ) → n < 2 ^ 24 → unpack 4 (0 ∷ be 3 n) ≡ ok n
unfolding unpack un_be
unpack_padded n h = unfold be in ap ok (omega arith)

pub unpack_24bit_at :
    (buffer : Bytes) (i n : ℕ) (rest : Bytes)
    → n < 2 ^ 24
    → drop i buffer ≡ be 3 n ++ rest
    → unpack_24bit buffer (pos i) ≡ ok n
unfolding unpack_24bit
unpack_24bit_at buffer i n rest h at =
    rw (slice_at buffer i (be 3 n) rest at 3 (sym (length-be 3 n))) (unpack_padded n h)

pub unpack_string_at :
    (buffer : Bytes) (i : ℕ) (s rest : Bytes)
    → length s ≤ 127
    → drop i buffer ≡ length s ∷ (s ++ rest)
    → unpack_string buffer (pos i) ≡ ok (pos (length s), s)
unfolding unpack_string
unpack_string_at buffer i s rest h at =
    rw (first, small) (ap (λ (t : Bytes). ok (pos (length s), t)) rest_of)
  where
    first : unpack_front 1 (drop i buffer) ≡ ok (length s)
    first = rw at (unfold unpack_front take_exact un_be in ap ok (omega arith))

    small : signed_byte (length s) ≡ pos (length s)
    small = rw (lt→ltb (length s) 128 (omega arith))

    rest_of : slice buffer (pos (i + 1)) (pos (i + length s + 1)) ≡ s
    rest_of =
        let after = drop_past buffer i (length s ∷ []) (s ++ rest) at 1 refl in
        let order : i + length s + 1 ≡ i + 1 + length s = omega arith in
        rw order (slice_at buffer (i + 1) s rest after (length s) refl)

pub pack_position-eq_ok : (p : ℕ) → p < 2 ^ 63 → pack_position p ≡ ok (be 8 p)
unfolding pack_position
pack_position-eq_ok p h = rw (bit_and_mask 63 p, mod-eq_of_lt h) (pack-eq_ok 8 p (omega arith))

pub unpack_position-be : (p : ℕ) → p < 2 ^ 63 → unpack_position (be 8 p) ≡ ok p
unfolding unpack_position
unpack_position-be p h =
    rw (unpack-be 8 p (omega arith)) (ap ok (bit_and_mask 63 p ∙ mod-eq_of_lt h))
