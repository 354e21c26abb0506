-- ===== src/Frame/Contents.antt =====
-- `parse_metadata` and `parse_data` at an offset behind which the bytes are known.
use native.Mathlib.Nat.{add-zero}
use rsocket_py.Prelude.{
  ℕ, ◌+◌, ◌-◌, ◌^◌, ◌≤◌, ◌<◌, ◌≡◌, refl, sym, ap, ◌∙◌, true, false, ◌||◌, Option, some, [], ◌∷◌,
  ◌++◌, Result, ok, arith, length, drop, take_all, length-drop, append_assoc,
}
use rsocket_py.Bytes.{Bytes, ℤ, pos, ◌+ℤ◌, ◌-ℤ◌, slice, index, be, length-be, slice_at, drop_past}
use rsocket_py.FrameHelpers.Laws.{unpack_24bit_at}
use rsocket_py.FrameHelpers.{unpack_24bit}
use rsocket_py.Frame.Slots.{Frame, truthy, has_metadata}
use rsocket_py.Frame.Parse.{parse_metadata, parse_data, parse_payload}

-- The size field and the bytes of a frame's metadata, which are not there if it is empty.
unfoldable pub metadata_field : Bytes → Bytes
metadata_field [] = []
metadata_field (x ∷ m) = be 3 (length (x ∷ m)) ++ (x ∷ m)

reach : (n i : ℕ) → n - i ≤ index n (pos i +ℤ (pos n -ℤ pos i +ℤ pos 3)) - i
reach n i = ground arith

-- A slice that reaches the end of the buffer or past it.
pub slice_to_end :
    (buffer : Bytes) (i n : ℕ)
    → n ≡ length buffer
    → slice buffer (pos i) (pos i +ℤ (pos n -ℤ pos i +ℤ pos 3)) ≡ drop i buffer
slice_to_end buffer i n e =
    rw e (take_all _ (drop i buffer) (rw (length-drop i buffer) (reach (length buffer) i)))

pub parse_data_at :
    (f : Frame) (buffer : Bytes) (i : ℕ)
    → f.length ≡ length buffer
    → parse_data f buffer (pos i) ≡ record f { data_bytes = some (drop i buffer) }
unfolding parse_data
parse_data_at f buffer i e =
    ap (λ (b : Bytes). record f { data_bytes = some b }) (slice_to_end buffer i f.length e)

-- A frame whose metadata is empty and whose header says whether there is any.
pub record IsFresh (f : Frame) (m buffer : Bytes) : Type 0 where
  pub empty : f.metadata ≡ some []
  pub flag : f.flags_metadata ≡ truthy (some m)
  pub whole : f.length ≡ length buffer

has_metadata-fresh :
    (f : Frame) (m buffer : Bytes) → IsFresh f m buffer → has_metadata f ≡ truthy (some m)
has_metadata-fresh f m buffer fresh =
    ap (λ (o : Option Bytes). truthy o || f.flags_metadata) fresh.empty ∙ fresh.flag

module _ (f : Frame) (buffer : Bytes) (i : ℕ) where
  parse_metadata_absent : has_metadata f ≡ false → parse_metadata f buffer (pos i) ≡ ok (f, pos 0)
  unfolding parse_metadata
  parse_metadata_absent h = rw h

  parse_metadata_sized :
      (n : ℕ)
      → has_metadata f ≡ true
      → f.metadata_only ≡ false
      → unpack_24bit buffer (pos i) ≡ ok n
      → parse_metadata f buffer (pos i)
        ≡ ok (
          record f { metadata = some (slice buffer (pos (i + 3)) (pos (i + 3 + n))) },
          pos (n + 3),
        )
  unfolding parse_metadata
  parse_metadata_sized n h sized e = simp (h, sized, e)

  parse_metadata_rest :
      has_metadata f ≡ true
      → f.metadata_only ≡ true
      → f.length ≡ length buffer
      → (n : ℤ) × (parse_metadata f buffer (pos i)
          ≡ ok (record f { metadata = some (drop i buffer) }, n))
  unfolding parse_metadata
  parse_metadata_rest h only e =
      (pos f.length -ℤ pos i +ℤ pos 3, simp (h, only, slice_to_end buffer i f.length e))

  keep_empty :
      (n : ℤ)
      → f.metadata ≡ some []
      → ◌≡◌ {A = Result (Frame × ℤ)} (ok (f, n)) (ok (record f { metadata = some [] }, n))
  keep_empty n e = ap (λ (o : Option Bytes). ok (record f { metadata = o }, n)) e

  -- With a size field in front.
  pub parse_metadata_at :
      (m rest : Bytes)
      → IsFresh f m buffer
      → f.metadata_only ≡ false
      → length m < 2 ^ 24
      → drop i buffer ≡ metadata_field m ++ rest
      → (n : ℕ) × (parse_metadata f buffer (pos i) ≡ ok (record f { metadata = some m }, pos n))
        × (drop (i + n) buffer ≡ rest)
  unfolding metadata_field
  parse_metadata_at [] rest fresh sized fits at = (
    0,
    parse_metadata_absent (has_metadata-fresh f [] buffer fresh) ∙ keep_empty (pos 0) fresh.empty,
    rw add-zero at,
  )
  parse_metadata_at (x ∷ m) rest fresh sized fits at = (
    length (x ∷ m) + 3,
    parse_metadata_sized (length (x ∷ m)) (has_metadata-fresh f (x ∷ m) buffer fresh) sized
          (unpack_24bit_at buffer i (length (x ∷ m)) _ fits whole)
        ∙ ap (λ (b : Bytes). ok (record f { metadata = some b }, pos (length (x ∷ m) + 3)))
            (slice_at buffer (i + 3) (x ∷ m) rest behind (length (x ∷ m)) refl),
    end_of,
  )
    where
      whole : drop i buffer ≡ be 3 (length (x ∷ m)) ++ ((x ∷ m) ++ rest)
      whole = at ∙ append_assoc (be 3 (length (x ∷ m))) (x ∷ m) rest

      behind : drop (i + 3) buffer ≡ (x ∷ m) ++ rest
      behind = drop_past buffer i _ _ whole 3 (sym (length-be 3 (length (x ∷ m))))

      order : i + (length (x ∷ m) + 3) ≡ i + 3 + length (x ∷ m)
      order = omega arith

      end_of : drop (i + (length (x ∷ m) + 3)) buffer ≡ rest
      end_of = rw order (drop_past buffer (i + 3) (x ∷ m) rest behind (length (x ∷ m)) refl)

  -- Up to the end of the buffer.
  pub parse_metadata_only_at :
      (m : Bytes)
      → IsFresh f m buffer
      → f.metadata_only ≡ true
      → drop i buffer ≡ m
      → (n : ℤ) × (parse_metadata f buffer (pos i) ≡ ok (record f { metadata = some m }, n))
  parse_metadata_only_at [] fresh only at = (
    pos 0,
    parse_metadata_absent (has_metadata-fresh f [] buffer fresh) ∙ keep_empty (pos 0) fresh.empty,
  )
  parse_metadata_only_at (x ∷ m) fresh only at =
      rw at at (parse_metadata_rest (has_metadata-fresh f (x ∷ m) buffer fresh) only fresh.whole)

  -- Metadata and data, one behind the other.
  pub parse_payload_at :
      (m rest : Bytes)
      → IsFresh f m buffer
      → f.metadata_only ≡ false
      → length m < 2 ^ 24
      → drop i buffer ≡ metadata_field m ++ rest
      → parse_payload f buffer (pos i) ≡ ok (record f { metadata = some m; data_bytes = some rest })
  parse_payload_at m rest fresh sized fits at =
      let (n, read, past) = parse_metadata_at m rest fresh sized fits at in
      rw read (
        ap ok (
          parse_data_at _ buffer (i + n) fresh.whole
          ∙ ap (λ (b : Bytes). record f { metadata = some m; data_bytes = some b }) past))
