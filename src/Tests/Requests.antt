-- ===== src/Tests/Requests.antt =====
-- Composite metadata and a request that it routes, on small inputs.
use rsocket_py.Prelude.{
  ℕ, ◌≡◌, ◌<◌, refl, ap, some, List, [], ◌∷◌, map, All, arith, Result, ok, err, length,
}
use rsocket_py.Bytes.{Bytes, pos}
use rsocket_py.Extensions.Tables.{well_known_mime_types, application_json}
use rsocket_py.Extensions.WellKnown.{named, well_known, get_by_name}
use rsocket_py.Extensions.Composite.{
  CompositeMetadataItem, serialize_content, serialize_items, parse_items,
}
use rsocket_py.Extensions.Composite.Encodings.{IsReadable}
use rsocket_py.Extensions.Composite.RoundTrip.{read_item, FitsItem, parse_items-serialize_items}
use rsocket_py.Extensions.Helpers.{metadata_item, route, route-FitsItem}

-- An encoding that the table does not have.
abbrev text : CompositeMetadataItem
text = metadata_item (7 ∷ 8 ∷ []) (named (120 ∷ []))

text-IsReadable : IsReadable text.encoding
unfolding well_known_mime_types get_by_name
text-IsReadable = (omega arith, omega arith, λ id e. cc e)

ok_eq : (a b : Bytes) → ok a ≡ ok b → a ≡ b
ok_eq a b e = ap (λ (r : Result Bytes). elim r [ ok x ↦ x | err y ↦ a ]) e

text-FitsItem : FitsItem text
unfolding serialize_content
text-FitsItem = record {
  readable = text-IsReadable;
  fits = (refl, refl, refl, refl);
  short = λ b e. omega (arith, ap length (ok_eq (7 ∷ 8 ∷ []) b e));
}

-- An encoding that is an object of the table.
abbrev json : CompositeMetadataItem
json = metadata_item (9 ∷ []) (well_known (pos 5) application_json.1)

json-IsReadable : IsReadable json.encoding
unfolding well_known_mime_types get_by_name
json-IsReadable = (5, refl, omega arith, omega arith, refl)

json-FitsItem : FitsItem json
unfolding serialize_content
json-FitsItem = record {
  readable = json-IsReadable;
  fits = (refl, refl, refl, refl);
  short = λ b e. omega (arith, ap length (ok_eq (9 ∷ []) b e));
}

abbrev routed_items : List CompositeMetadataItem
routed_items = text ∷ json ∷ route ((98 ∷ []) ∷ []) ∷ []

routed_fit : All FitsItem routed_items
routed_fit = (text-FitsItem, (json-FitsItem, (route-FitsItem (98 ∷ []) (omega arith), tt)))

parse_items-serialize_items_example :
    (b : Bytes) × (serialize_items routed_items ≡ ok b)
    × ((rounds : ℕ)
        → length b < rounds
        → parse_items rounds b ≡ some (ok (map read_item routed_items)))
parse_items-serialize_items_example = parse_items-serialize_items routed_items routed_fit
