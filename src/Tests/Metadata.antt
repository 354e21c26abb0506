-- ===== src/Tests/Metadata.antt =====
-- Metadata extensions on small inputs.
use rsocket_py.Prelude.{ℕ, ◌≡◌, ◌<◌, refl, some, List, [], ◌∷◌, arith, ok, unknown_mimetype, length}
use rsocket_py.Bytes.{Bytes, ℤ, pos}
use rsocket_py.Extensions.Tables.{well_known_mime_types, application_json}
use rsocket_py.Extensions.WellKnown.{
  named, serialize_well_known_encoding, require_by_id, get_by_name,
}
use rsocket_py.Extensions.WellKnown.RoundTrip.{
  ReadsBack, Written, parse_well_known_encoding-serialize_well_known_encoding,
}
use rsocket_py.Extensions.Tagging.{serialize_tags, parse_tags, parse_tags-serialize_tags}
use rsocket_py.Extensions.Authentication.{
  AuthenticationSimple, serialize_simple, parse_simple, parse_simple-serialize_simple,
}

abbrev routes : List Bytes
routes = (1 ∷ 2 ∷ []) ∷ [] ∷ []

parse_tags-serialize_tags_example :
    (b : Bytes) × (serialize_tags routes ≡ ok b)
    × ((rounds : ℕ) → length routes < rounds → parse_tags rounds b ≡ some routes)
parse_tags-serialize_tags_example =
    parse_tags-serialize_tags routes (omega arith, (omega arith, tt))

abbrev user : AuthenticationSimple
user = record { username = 1 ∷ 2 ∷ []; password = 3 ∷ [] }

parse_simple-serialize_simple_example :
    (b : Bytes) × (serialize_simple user ≡ ok b) × (parse_simple b ≡ ok user)
parse_simple-serialize_simple_example = parse_simple-serialize_simple user (omega arith)

json_known :
    (id : ℤ)
    → get_by_name well_known_mime_types application_json.1 ≡ some id
    → (i : ℕ) × (id ≡ pos i)
      × (i < 128)
      × (require_by_id unknown_mimetype well_known_mime_types i ≡ ok application_json.1)
unfolding get_by_name well_known_mime_types require_by_id
json_known id e = (5, cc e, omega arith, refl)

parse_well_known_encoding-serialize_well_known_encoding_example :
    ReadsBack application_json.1
      (9 ∷ [])
      (require_by_id unknown_mimetype well_known_mime_types)
      (serialize_well_known_encoding (named application_json.1) (get_by_name well_known_mime_types))
    × Written application_json.1
        (9 ∷ [])
        (require_by_id unknown_mimetype well_known_mime_types)
        (get_by_name well_known_mime_types)
        (serialize_well_known_encoding
          (named application_json.1)
          (get_by_name well_known_mime_types))
parse_well_known_encoding-serialize_well_known_encoding_example =
    parse_well_known_encoding-serialize_well_known_encoding application_json.1 (9 ∷ [])
      (require_by_id unknown_mimetype well_known_mime_types) (get_by_name well_known_mime_types)
      (omega arith) (omega arith) json_known
