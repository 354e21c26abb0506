-- ===== src/Extensions/Helpers.antt =====
-- rsocket/extensions/helpers.py: building composite metadata. `require_route` is in Routing.
use rsocket_py.Prelude.{
  ◌≤◌, ◌≡◌, refl, sym, ap, ◌∙◌, List, [], ◌∷◌, arith, Result, ok, err, length, length-append,
}
use rsocket_py.Bytes.{Bytes}
use rsocket_py.Extensions.Tables.{
  well_known_mime_types, message_rsocket_mimetype, message_rsocket_accept_mimetypes,
  message_rsocket_authentication, message_rsocket_routing,
}
use rsocket_py.Extensions.WellKnown.{Encoding, named, get_by_name}
use rsocket_py.Extensions.Tagging.{tag_bytes, serialize_tags-eq_ok}
use rsocket_py.Extensions.Composite.{
  AnyAuthentication, simple_authentication, bearer_authentication, plain, routing,
  stream_data_mimetype, stream_data_mimetypes, authentication, CompositeMetadataItem,
  serialize_content, serialize_items,
}
use rsocket_py.Extensions.Composite.Encodings.{IsReadable}
use rsocket_py.Extensions.Composite.RoundTrip.{FitsItem}

unfoldable pub composite : List CompositeMetadataItem → Result Bytes
composite items = serialize_items items

abbrev pub metadata_item : Bytes → Encoding → CompositeMetadataItem
metadata_item content encoding = record { encoding = encoding; content = plain content }

-- The classes of the items name their encoding by its bytes.
abbrev item_of_type : AnyAuthentication → CompositeMetadataItem
item_of_type a = record {
  encoding = named message_rsocket_authentication.1;
  content = authentication a;
}

abbrev pub authenticate_simple : Bytes → Bytes → CompositeMetadataItem
authenticate_simple username password =
    item_of_type (simple_authentication (record { username = username; password = password }))

abbrev pub authenticate_bearer : Bytes → CompositeMetadataItem
authenticate_bearer token = item_of_type (bearer_authentication token)

abbrev pub route : List Bytes → CompositeMetadataItem
route paths = record { encoding = named message_rsocket_routing.1; content = routing paths }

abbrev pub data_mime_type : Encoding → CompositeMetadataItem
data_mime_type e = record {
  encoding = named message_rsocket_mimetype.1;
  content = stream_data_mimetype e;
}

abbrev pub data_mime_types : List Encoding → CompositeMetadataItem
data_mime_types es = record {
  encoding = named message_rsocket_accept_mimetypes.1;
  content = stream_data_mimetypes es;
}

routing-IsReadable : IsReadable (named message_rsocket_routing.1)
unfolding well_known_mime_types get_by_name
routing-IsReadable = (omega arith, omega arith, λ id e. (126, cc e))

ok_eq : (a b : Bytes) → ok a ≡ ok b → a ≡ b
ok_eq a b e = ap (λ (r : Result Bytes). elim r [ ok x ↦ x | err y ↦ a ]) e

-- The item that `route` makes for one path can be carried.
pub route-FitsItem : (path : Bytes) → length path ≤ 255 → FitsItem (route (path ∷ []))
unfolding serialize_content tag_bytes
route-FitsItem path h = record {
  readable = routing-IsReadable;
  fits = (refl, (h, tt));
  short = λ b e. omega (
    arith,
    h,
    length-append path [],
    ap length (ok_eq _ b (sym (serialize_tags-eq_ok (path ∷ []) (h, tt)) ∙ e)),
  );
}
