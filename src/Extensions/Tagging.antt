-- ===== src/Extensions/Tagging.antt =====
-- rsocket/extensions/tagging.py (and its subclass in routing.py): a list of tags of at most 255 bytes.
use rsocket_py.Prelude.{
  ℕ, zero, suc, ◌≤◌, ◌<◌, ◌≡◌, refl, ap, Option, none, some, List, [], ◌∷◌, ◌++◌, arith, Result, ok,
  err, ◌>>=◌, rsocket_error, ltb, ge→ltb, if◌then◌else◌, length, take, drop, take-append_length,
  drop-append_length, length-append, All,
}
use rsocket_py.Bytes.{Bytes, pack, be, pack-eq_ok}

-- `_serialize_tags`
unfoldable pub serialize_tags : List Bytes → Result Bytes
serialize_tags [] = ok []
serialize_tags (tag ∷ tags) =
    let rest = serialize_tags tags in
    if ltb 255 (length tag)
    then err rsocket_error
    else do size ← pack 1 (length tag); rest' ← rest; ok (size ++ (tag ++ rest'))

-- The loop of `parse` on what is left of the buffer; a round for each tag, `none` is out of rounds.
-- A tag that the buffer cuts short is taken as far as it goes.
unfoldable pub parse_tags : ℕ → Bytes → Option (List Bytes)
parse_tags zero buffer = none
parse_tags (suc rounds) [] = some []
parse_tags (suc rounds) (n ∷ buffer) = elim (parse_tags rounds (drop n buffer)) [
  | none ↦ none
  | some tags ↦ some (take n buffer ∷ tags)
]

unfoldable pub tag_bytes : List Bytes → Bytes
tag_bytes [] = []
tag_bytes (tag ∷ tags) = length tag ∷ (tag ++ tag_bytes tags)

pub serialize_tags-eq_ok :
    (tags : List Bytes) → All (λ t. length t ≤ 255) tags → serialize_tags tags ≡ ok (tag_bytes tags)
unfolding serialize_tags tag_bytes
serialize_tags-eq_ok [] h = refl
serialize_tags-eq_ok (tag ∷ tags) (short, h) =
    rw
      (
        ge→ltb 255 (length tag) short,
        pack-eq_ok 1 (length tag) (omega arith),
        serialize_tags-eq_ok tags h,
      )
      (unfold be in ap (λ (n : ℕ). ok (n ∷ (tag ++ tag_bytes tags))) (omega arith))

pub parse_tags-tag_bytes :
    (tags : List Bytes) (rounds : ℕ)
    → length tags < rounds
    → parse_tags rounds (tag_bytes tags) ≡ some tags
unfolding parse_tags tag_bytes
parse_tags-tag_bytes tags zero h = absurd (omega arith)
parse_tags-tag_bytes [] (suc rounds) h = refl
parse_tags-tag_bytes (tag ∷ tags) (suc rounds) h = rw (
  drop-append_length tag (tag_bytes tags),
  parse_tags-tag_bytes tags rounds (omega arith),
  take-append_length tag (tag_bytes tags),
)

-- Tags of at most 255 bytes serialize, and parsing the bytes gives them back, in more rounds than
-- there are tags.
pub parse_tags-serialize_tags :
    (tags : List Bytes)
    → All (λ t. length t ≤ 255) tags
    → (b : Bytes) × (serialize_tags tags ≡ ok b)
      × ((rounds : ℕ) → length tags < rounds → parse_tags rounds b ≡ some tags)
parse_tags-serialize_tags tags h =
    (tag_bytes tags, serialize_tags-eq_ok tags h, parse_tags-tag_bytes tags)

pub length-tag_bytes : (tags : List Bytes) → length tags ≤ length (tag_bytes tags)
unfolding tag_bytes
length-tag_bytes [] = omega arith
length-tag_bytes (tag ∷ tags) =
    omega (arith, length-tag_bytes tags, length-append tag (tag_bytes tags))
