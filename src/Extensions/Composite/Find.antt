-- ===== src/Extensions/Composite/Find.antt =====
-- `CompositeMetadata.find_by_mimetype`. An encoding that is a `WellKnownMimeType` is not converted
-- to its name, and its `__eq__` asks the name that it is compared with for a `name`.
use rsocket_py.Prelude.{Bool, List, [], ◌∷◌, cons_if, Result, ok, err, ◌>>=◌, attribute_error}
use rsocket_py.Bytes.{Bytes}
use rsocket_py.Extensions.WellKnown.{Encoding, named, well_known, same_bytes}
use rsocket_py.Extensions.Composite.{CompositeMetadataItem}

abbrev has_name : Encoding → Bytes → Result Bool
has_name (named name) mimetype = ok (same_bytes name mimetype)
has_name (well_known id name) mimetype = err attribute_error

unfoldable pub find_by_mimetype :
    Bytes → List CompositeMetadataItem → Result (List CompositeMetadataItem)
find_by_mimetype mimetype [] = ok []
find_by_mimetype mimetype (item ∷ items) = do
  found ← has_name item.encoding mimetype
  rest ← find_by_mimetype mimetype items
  ok (cons_if found item rest)
