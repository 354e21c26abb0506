-- ===== src/Extensions/WellKnown/RoundTrip.antt =====
-- Encodings that are serialized and parsed again.
use rsocket_py.Prelude.{
  ℕ, ◌+◌, ◌-◌, ◌*◌, ◌/◌, ◌^◌, ◌≤◌, ◌<◌, bit_and, bit_or, ◌≡◌, refl, ap, ◌∙◌, inl, inr, Bool, true,
  false, ◌&&◌, Option, none, some, [], ◌∷◌, ◌++◌, arith, Result, ok, ge→ltb, ◌==◌, ==_iff,
  Option-cases, length, take-append_length,
}
use rsocket_py.Prelude.Bits.{all_below, all_below_sound, bit_and_mask}
use rsocket_py.Bytes.{Bytes, ℤ, pos, un_be, unpack}
use rsocket_py.FrameHelpers.{serialize_128max_value, parse_type}
use rsocket_py.Extensions.WellKnown.{
  named, serialize_well_known_encoding, parse_well_known_encoding,
}

parse_type-first :
    (x : ℕ) (rest : Bytes) → parse_type (x ∷ rest) ≡ ok (x / 2 ^ 7 == 1, bit_and x 127)
unfolding parse_type unpack un_be
parse_type-first x rest = ap (λ (b : ℕ). ok (b / 2 ^ 7 == 1, bit_and b 127)) (omega arith)

known_table :
    all_below 128 (λ i.
      ((bit_or (1 * 2 ^ 7) (bit_and i 127) / 2 ^ 7 == 1)
        && (bit_and (bit_or (1 * 2 ^ 7) (bit_and i 127)) 127 == i)))
    ≡ true
unfolding all_below
known_table = refl

high_bits : all_below 128 (λ i. bit_or (1 * 2 ^ 7) (bit_and i 127) == 128 + i) ≡ true
unfolding all_below
high_bits = refl

high_bit : (i : ℕ) → i < 128 → bit_or (1 * 2 ^ 7) (bit_and i 127) ≡ 128 + i
high_bit i low = (==_iff _ (128 + i)).0 (all_below_sound 128 _ i low high_bits)

both : (a b : Bool) → (a && b) ≡ true → (a ≡ true) × (b ≡ true)
both true true e = (refl, refl)
both true false e = cc
both false b e = cc

-- Reading back what was written, with anything behind it: the name, and as many bytes.
pub record ReadsBack (name rest : Bytes) (require_by_id : ℕ → Result Bytes) (written : Result Bytes)
    : Type 0 where
  pub bytes : Bytes
  pub returns : written ≡ ok bytes
  pub some_byte : 0 < length bytes
  pub reads : parse_well_known_encoding (bytes ++ rest) require_by_id ≡ ok (name, length bytes)

module _ (name rest : Bytes) (require_by_id : ℕ → Result Bytes)
    (get_by_name : Bytes → Option ℤ) where
  -- What is written, by the table.
  pub data Written (written : Result Bytes) : Type 0 where
    by_number :
        (i : ℕ) → get_by_name name ≡ some (pos i) → written ≡ ok ((128 + i) ∷ []) → Written written
    in_full : get_by_name name ≡ none → written ≡ ok ((length name - 1) ∷ name) → Written written

  known-ReadsBack :
      (i : ℕ)
      → get_by_name name ≡ some (pos i)
      → i < 128
      → require_by_id i ≡ ok name
      → ReadsBack name rest require_by_id (serialize_well_known_encoding (named name) get_by_name)
  unfolding serialize_well_known_encoding parse_well_known_encoding
  known-ReadsBack i e small found =
      let x = bit_or (1 * 2 ^ 7) (bit_and i 127) in
      let row =
        both (x / 2 ^ 7 == 1) (bit_and x 127 == i) (all_below_sound 128 _ i small known_table) in
      record {
        bytes = x ∷ [];
        some_byte = omega arith;
        returns = rw (serialize_well_known_encoding, e) refl;
        reads = rw (parse_type-first x rest, row.0, (==_iff (bit_and x 127) i).0 row.1, found) refl;
      }

  long-ReadsBack :
      get_by_name name ≡ none
      → 0 < length name
      → length name ≤ 128
      → ReadsBack name rest require_by_id (serialize_well_known_encoding (named name) get_by_name)
  unfolding serialize_well_known_encoding parse_well_known_encoding serialize_128max_value
  long-ReadsBack e there small =
      let n = length name - 1 in
      let low : bit_and n 127 ≡ n = omega (arith, bit_and_mask 7 n) in
      let plain : (n / 2 ^ 7 == 1) ≡ false = ground arith in
      let whole : n + 1 ≡ length name = omega arith in
      record {
        bytes = n ∷ name;
        some_byte = omega arith;
        returns =
            rw
              (
                serialize_well_known_encoding,
                e,
                serialize_128max_value,
                ge→ltb (length name) 1 (omega arith),
                ge→ltb 127 n (omega arith),
                low,
              )
              refl;
        reads =
            rw (parse_type-first n (name ++ rest), plain, low, whole, take-append_length name rest)
              (ap (λ (k : ℕ). ok (name, k)) (omega arith));
      }

  -- A name of 1 to 128 bytes that, if the table has it, has a number of seven bits whose name it is:
  -- what is written for it is read back, whatever follows, and it is one byte with this number and the
  -- highest bit if the table has the name, and the length less one and the name in full otherwise.
  pub parse_well_known_encoding-serialize_well_known_encoding :
      0 < length name
      → length name ≤ 128
      → ((id : ℤ)
          → get_by_name name ≡ some id
          → (i : ℕ) × (id ≡ pos i) × (i < 128) × (require_by_id i ≡ ok name))
      → ReadsBack name rest require_by_id (serialize_well_known_encoding (named name) get_by_name)
        × Written (serialize_well_known_encoding (named name) get_by_name)
  unfolding long-ReadsBack known-ReadsBack
  parse_well_known_encoding-serialize_well_known_encoding there small known =
      elim (Option-cases (get_by_name name)) [
        | inl e ↦ (long-ReadsBack e there small, in_full e (long-ReadsBack e there small).returns)
        | inr (id, e) ↦
            let (i, is, low, found) = known id e in
            let there' = e ∙ ap some is in
            let read = known-ReadsBack i there' low found in
            (read, by_number i there' (read.returns ∙ ap (λ (x : ℕ). ok (x ∷ [])) (high_bit i low)))
      ]
