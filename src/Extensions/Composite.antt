-- ===== src/Extensions/Composite.antt =====
-- rsocket/extensions/composite_metadata.py with its items: composite_metadata_item.py, routing.py,
-- stream_data_mimetype.py and authentication_content.py.
pub mod Encodings
pub mod RoundTrip
pub mod Find
pub mod Total
use rsocket_py.Prelude.{
  ℕ, zero, suc, ◌+◌, Option, none, some, List, [], ◌∷◌, ◌++◌, Result, ok, err, ◌>>=◌,
  unknown_mimetype, unknown_auth_type, key_error, if◌then◌else◌, length, take, drop,
}
use rsocket_py.Bytes.{Bytes, pos}
use rsocket_py.FrameHelpers.{pack_24bit_length, unpack_24bit}
use rsocket_py.Extensions.Tables.{
  well_known_mime_types, well_known_authentication_types, simple, bearer, message_rsocket_mimetype,
  message_rsocket_accept_mimetypes, message_rsocket_authentication, message_rsocket_routing,
}
use rsocket_py.Extensions.WellKnown.{
  Encoding, named, same_bytes, require_by_id, get_by_name, serialize_well_known_encoding,
  parse_well_known_encoding,
}
use rsocket_py.Extensions.Tagging.{serialize_tags, parse_tags}
use rsocket_py.Extensions.Authentication.{
  AuthenticationSimple, AuthenticationBearer, serialize_simple, parse_simple, serialize_bearer,
  parse_bearer,
}

-- The subclasses of `Authentication`, and of `CompositeMetadataItem` with the slots that they add.
pub data AnyAuthentication : Type 0 where
  simple_authentication : AuthenticationSimple → AnyAuthentication
  bearer_authentication : AuthenticationBearer → AnyAuthentication

pub data Content : Type 0 where
  plain : Bytes → Content
  routing : List Bytes → Content
  stream_data_mimetype : Encoding → Content
  stream_data_mimetypes : List Encoding → Content
  authentication : AnyAuthentication → Content

pub record CompositeMetadataItem : Type 0 where
  pub encoding : Encoding
  pub content : Content

abbrev pub mime_type_bytes : Encoding → Result Bytes
mime_type_bytes e = serialize_well_known_encoding e (get_by_name well_known_mime_types)

abbrev pub parse_mime_type : Bytes → Result (Bytes × ℕ)
parse_mime_type b =
    parse_well_known_encoding b (require_by_id unknown_mimetype well_known_mime_types)

-- `AuthenticationContent.serialize`: the type of the authentication and its bytes.
unfoldable pub serialize_authentication : AnyAuthentication → Result Bytes
serialize_authentication (simple_authentication a) = do
  type ←
      serialize_well_known_encoding (named simple.1) (get_by_name well_known_authentication_types)
  bytes ← serialize_simple a
  ok (type ++ bytes)
serialize_authentication (bearer_authentication a) = do
  type ←
      serialize_well_known_encoding (named bearer.1) (get_by_name well_known_authentication_types)
  ok (type ++ serialize_bearer a)

-- `AuthenticationContent.parse` with `authentication_item_factory`
unfoldable pub parse_authentication : Bytes → Result AnyAuthentication
parse_authentication buffer = do
  (type, offset) ←
      parse_well_known_encoding buffer
        (require_by_id unknown_auth_type well_known_authentication_types)
  authentication_item_factory type (drop offset buffer)
  where
    authentication_item_factory : Bytes → Bytes → Result AnyAuthentication
    authentication_item_factory type rest =
        if same_bytes type simple.1
        then (parse_simple rest >>= λ a. ok (simple_authentication a))
        else if same_bytes type bearer.1
        then ok (bearer_authentication (parse_bearer rest))
        else err key_error

-- `StreamDataMimetypes.serialize` and the loop of its `parse`, which wants rounds.
unfoldable pub serialize_mimetypes : List Encoding → Result Bytes
serialize_mimetypes [] = ok []
serialize_mimetypes (e ∷ es) = do
  first ← mime_type_bytes e
  rest ← serialize_mimetypes es
  ok (first ++ rest)

unfoldable pub parse_mimetypes : ℕ → Bytes → Option (Result (List Encoding))
parse_mimetypes zero buffer = none
parse_mimetypes (suc rounds) [] = some (ok [])
parse_mimetypes (suc rounds) (x ∷ buffer) = elim (parse_mime_type (x ∷ buffer)) [
  | err e ↦ some (err e)
  | ok (name, offset) ↦ elim (parse_mimetypes rounds (drop offset (x ∷ buffer))) [
    | none ↦ none
    | some r ↦ some (r >>= λ es. ok (named name ∷ es))
  ]
]

-- The method `serialize` of the item's class.
unfoldable pub serialize_content : Content → Result Bytes
serialize_content (plain b) = ok b
serialize_content (routing tags) = serialize_tags tags
serialize_content (stream_data_mimetype e) = mime_type_bytes e
serialize_content (stream_data_mimetypes es) = serialize_mimetypes es
serialize_content (authentication a) = serialize_authentication a

-- `CompositeMetadata.serialize`
unfoldable pub serialize_items : List CompositeMetadataItem → Result Bytes
serialize_items [] = ok []
serialize_items (item ∷ items) = do
  metadata_header ← mime_type_bytes item.encoding
  item_metadata ← serialize_content item.content
  size ← pack_24bit_length item_metadata
  rest ← serialize_items items
  ok ((metadata_header ++ (size ++ item_metadata)) ++ rest)

-- `metadata_item_factory(name)().parse(item_metadata)`; each byte takes a round at most.
unfoldable pub parse_content : ℕ → Bytes → Bytes → Option (Result Content)
parse_content rounds name b =
    if same_bytes name message_rsocket_routing.1
    then elim (parse_tags rounds b) [ none ↦ none | some tags ↦ some (ok (routing tags)) ]
    else if same_bytes name message_rsocket_mimetype.1
    then some (parse_mime_type b >>= λ (e, offset). ok (stream_data_mimetype (named e)))
    else if same_bytes name message_rsocket_accept_mimetypes.1
    then elim (parse_mimetypes rounds b) [
      | none ↦ none
      | some r ↦ some (r >>= λ es. ok (stream_data_mimetypes es))
    ]
    else if same_bytes name message_rsocket_authentication.1
    then some (parse_authentication b >>= λ a. ok (authentication a))
    else some (ok (plain b))

-- The head of an item: the name of its encoding, its metadata, and what is left of the buffer.
unfoldable pub parse_item_header : Bytes → Result (Bytes × Bytes × Bytes)
parse_item_header buffer = do
  (name, relative_offset) ← parse_mime_type buffer
  size ← unpack_24bit buffer (pos relative_offset)
  let item_metadata = take size (drop (relative_offset + 3) buffer)
  ok (name, item_metadata, drop (relative_offset + 3 + length item_metadata) buffer)

-- `CompositeMetadata.parse` on what is left of the buffer; a round for each item.
unfoldable pub parse_items : ℕ → Bytes → Option (Result (List CompositeMetadataItem))
parse_items zero buffer = none
parse_items (suc rounds) [] = some (ok [])
parse_items (suc rounds) (x ∷ buffer) = elim (parse_item_header (x ∷ buffer)) [
  | err e ↦ some (err e)
  | ok (name, item_metadata, left) ↦ elim (parse_content (suc rounds) name item_metadata) [
    | none ↦ none
    | some (err e) ↦ some (err e)
    | some (ok content) ↦ elim (parse_items rounds left) [
      | none ↦ none
      | some r ↦
          some (r >>= λ items. ok (record { encoding = named name; content = content } ∷ items))
    ]
  ]
]
