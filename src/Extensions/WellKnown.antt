-- ===== src/Extensions/WellKnown.antt =====
-- Well-known encodings: `require_by_id` and `get_by_name` of the tables, and
-- `serialize_well_known_encoding` and `parse_well_known_encoding` of rsocket/helpers.py.
pub mod RoundTrip
use rsocket_py.Prelude.{
  ℕ, suc, ◌+◌, ◌*◌, ◌%◌, ◌^◌, bit_or, Bool, true, false, ◌&&◌, Option, none, some, List, [], ◌∷◌,
  ◌++◌, Result, ok, err, Error, ◌>>=◌, ◌==◌, if◌then◌else◌, take, drop,
}
use rsocket_py.Bytes.{Bytes, ℤ, pos, negsuc}
use rsocket_py.FrameHelpers.{low_seven, serialize_128max_value, parse_type}
use rsocket_py.Extensions.Tables.{Table}

abbrev pub same_bytes : Bytes → Bytes → Bool
same_bytes [] [] = true
same_bytes (x ∷ a) (y ∷ b) = (x == y) && same_bytes a b
same_bytes [] (y ∷ b) = false
same_bytes (x ∷ a) [] = false

abbrev is_id : ℤ → ℕ → Bool
is_id (pos n) id = n == id
is_id (negsuc n) id = false

-- `type_by_id[id]` or the error of the table.
unfoldable pub require_by_id : (ℕ → Error) → Table → ℕ → Result Bytes
require_by_id unknown [] id = err (unknown id)
require_by_id unknown ((k, name) ∷ table) id =
    if is_id k id then ok name else require_by_id unknown table id

-- `type_by_name.get(name)`, which is the id.
unfoldable pub get_by_name : Table → Bytes → Option ℤ
get_by_name [] name = none
get_by_name ((k, n) ∷ table) name = if same_bytes n name then some k else get_by_name table name

-- The name of an encoding, or a `WellKnownType`.
pub data Encoding : Type 0 where
  named : Bytes → Encoding
  well_known : ℤ → Bytes → Encoding

abbrev known_byte : ℤ → Bytes
known_byte id = bit_or (1 * 2 ^ 7) (low_seven id) ∷ []

unfoldable pub serialize_well_known_encoding : Encoding → (Bytes → Option ℤ) → Result Bytes
serialize_well_known_encoding (named name) encoding_parser = elim (encoding_parser name) [
  | none ↦ serialize_128max_value name
  | some id ↦ ok (known_byte id)
]
serialize_well_known_encoding (well_known id name) encoding_parser = ok (known_byte id)

-- The name, and how many bytes were read.
unfoldable pub parse_well_known_encoding : Bytes → (ℕ → Result Bytes) → Result (Bytes × ℕ)
parse_well_known_encoding buffer encoding_name_provider = do
  (is_known_mime_id, mime_length_or_type) ← parse_type buffer
  read_encoding is_known_mime_id mime_length_or_type
  where
    read_encoding : Bool → ℕ → Result (Bytes × ℕ)
    read_encoding true id = encoding_name_provider id >>= λ name. ok (name, 1)
    read_encoding false n = ok (take (n + 1) (drop 1 buffer), 1 + (n + 1))
