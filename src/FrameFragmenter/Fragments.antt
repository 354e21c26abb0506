-- ===== src/FrameFragmenter/Fragments.antt =====
-- `data_to_fragments_if_required` as a whole.
use rsocket_py.Prelude.{
  ℕ, suc, ◌+◌, ◌-◌, ◌≤◌, ◌<◌, ◌≡◌, refl, ap, ◌∙◌, inl, inr, Bool, true, false, ◌&&◌, Option, none,
  some, List, [], ◌∷◌, arith, ge→ltb, if◌then◌else◌, Bool-cases,
}
use rsocket_py.Bytes.{Bytes, pos, ◌-ℤ◌}
use rsocket_py.FrameHelpers.{safe_len}
use rsocket_py.Frame.Serialize.{bytes_of}
use rsocket_py.FrameFragmenter.{
  Fragment, frame_fragmenter, body_size, fragments, data_to_fragments_if_required,
}
use rsocket_py.FrameFragmenter.Pieces.{
  joined_metadata, joined_data, is_empty, Marked, Cuts, limit, metadata_loop-Cuts, length-bytes_of,
  Marked-monotone, safe_len-is_empty,
}

-- The bytes of metadata and data that the first fragment (`true`) or a later one has room for.
abbrev pub room_of : ℕ → ℕ → Bool → Bool → ℕ
room_of header size required true = size - header - (if required then 3 else 0)
room_of header size required false = size - 6 - (if required then 3 else 0)

-- Fragments of the metadata and the data: joined in order they are the whole, only the first is
-- marked as first and only the last as last, and no fragment has more bytes than its room.
pub record AreFragments (room : Bool → ℕ) (metadata data_bytes : Option Bytes) (fs : List Fragment)
    : Type 0 where
  pub metadata_joins : joined_metadata fs ≡ bytes_of metadata
  pub data_joins : joined_data fs ≡ bytes_of data_bytes
  pub marked : Marked room true fs
  pub some_piece : is_empty fs ≡ false

subtract_twice : (a b c : ℕ) → b + c < a → pos a -ℤ pos b -ℤ pos c ≡ pos (suc (a - b - c - 1))
subtract_twice a b c h =
    rw (ge→ltb a b (omega arith), ge→ltb (a - b) c (omega arith)) (ap pos (omega arith))

and_swap : (a b : Bool) → (a && b) ≡ (b && a)
and_swap true true = refl
and_swap true false = refl
and_swap false true = refl
and_swap false false = refl

nothing : (m d : Bytes) → (is_empty m && is_empty d) ≡ true → ([] ≡ m) × ([] ≡ d)
nothing [] [] h = (refl, refl)
nothing [] (y ∷ d) h = cc
nothing (x ∷ m) d h = cc

module _ (header size : ℕ) (required : Bool) (metadata data_bytes : Option Bytes)
    (first_fits : header + 3 < size) (next_fits : 9 < size) where
  abbrev room : Bool → ℕ
  room b = room_of header size required b - 1

  field_small : (if required then 3 else 0) ≤ 3
  field_small = ground arith

  sizes :
      (b : Bool)
      → body_size (frame_fragmenter data_bytes metadata header size required) b ≡ pos (suc (room b))
  unfolding body_size
  sizes true = subtract_twice size header (if required then 3 else 0) (omega (arith, field_small))
  sizes false = subtract_twice size 6 (if required then 3 else 0) (omega (arith, field_small))

  room_in_limit : (b : Bool) → limit room b ≤ room_of header size required b
  room_in_limit true = omega (arith, field_small)
  room_in_limit false = omega (arith, field_small)

  abbrev ResultOf : Option (List Fragment) → Type 0
  ResultOf run =
      (fs : List Fragment) × (run ≡ some fs)
      × AreFragments (room_of header size required) metadata data_bytes fs

  of_Cuts :
      (run : Option (List Fragment))
      → (is_empty (bytes_of metadata) && is_empty (bytes_of data_bytes)) ≡ false
      → Cuts (limit room) true (bytes_of metadata) (bytes_of data_bytes) run
      → ResultOf run
  of_Cuts run full c = (
    c.pieces,
    c.returns,
    record {
      metadata_joins = c.metadata_joins;
      data_joins = c.data_joins;
      marked = Marked-monotone (limit room) _ true c.pieces room_in_limit c.marked;
      some_piece = c.none_empty ∙ full;
    },
  )

  -- With a fragment size that leaves room for a byte in each fragment, and more rounds than bytes,
  -- `data_to_fragments_if_required` returns the fragments of the metadata and the data.
  pub data_to_fragments_if_required-AreFragments :
      (rounds : ℕ)
      → safe_len metadata + safe_len data_bytes < rounds
      → (fs : List Fragment) × (data_to_fragments_if_required rounds data_bytes metadata header
            (some size)
            required
          ≡ some fs)
        × AreFragments (room_of header size required) metadata data_bytes fs
  unfolding data_to_fragments_if_required fragments
  data_to_fragments_if_required-AreFragments rounds fuel =
      rw
        (
          safe_len-is_empty data_bytes,
          safe_len-is_empty metadata,
          and_swap (is_empty (bytes_of data_bytes)) (is_empty (bytes_of metadata)),
        )
        (elim (Bool-cases (is_empty (bytes_of metadata) && is_empty (bytes_of data_bytes))) [
          | inl blank ↦ rw blank (
            record { data_bytes = none; metadata = none; is_last = some true; is_first = true }
                ∷ [],
            refl,
            record {
              metadata_joins = unfold joined_metadata in (nothing _ _ blank).0;
              data_joins = unfold joined_data in (nothing _ _ blank).1;
              marked = unfold Marked in (refl, refl, omega arith, tt);
              some_piece = refl;
            },
          )
          | inr full ↦ rw full (
              of_Cuts _ full (
                metadata_loop-Cuts (frame_fragmenter data_bytes metadata header size required) room
                  sizes rounds true (bytes_of metadata) 0
                  (omega (arith, length-bytes_of metadata, length-bytes_of data_bytes))
                  (omega (arith, length-bytes_of metadata))))
        ])
