-- ===== src/Extensions/Composite/RoundTrip.antt =====
-- Composite metadata that is serialized and parsed again.
use rsocket_py.Prelude.{
  ℕ, zero, suc, ◌+◌, ◌^◌, ◌≤◌, ◌<◌, ◌≡◌, refl, sym, ap, ◌∙◌, subst, false, some, List, [], ◌∷◌,
  ◌++◌, map, All, arith, Result, ok, ◌>>=◌, length, length-append, drop, take-append_length,
  drop-append_length, append_assoc, append-nil,
}
use rsocket_py.Bytes.{Bytes, pos, be, length-be, drop_past}
use native.Mathlib.Nat.{mod-eq_of_lt}
use rsocket_py.FrameHelpers.{pack_24bit, pack_24bit_length, unpack_24bit}
use rsocket_py.FrameHelpers.Laws.{pack_24bit-eq_ok, unpack_24bit_at}
use rsocket_py.Extensions.Tables.{
  well_known_authentication_types, message_rsocket_mimetype, message_rsocket_accept_mimetypes,
  message_rsocket_authentication, message_rsocket_routing,
}
use rsocket_py.Extensions.WellKnown.{
  Encoding, named, same_bytes, require_by_id, get_by_name, serialize_well_known_encoding,
  parse_well_known_encoding,
}
use rsocket_py.Extensions.WellKnown.RoundTrip.{ReadsBack}
use rsocket_py.Extensions.Tagging.{
  tag_bytes, serialize_tags-eq_ok, parse_tags-tag_bytes, length-tag_bytes,
}
use rsocket_py.Extensions.Authentication.{parse_simple-serialize_simple}
use rsocket_py.Extensions.Composite.{
  AnyAuthentication, simple_authentication, bearer_authentication, Content, plain, routing,
  stream_data_mimetype, stream_data_mimetypes, authentication, CompositeMetadataItem,
  mime_type_bytes, parse_mime_type, serialize_authentication, parse_authentication,
  serialize_mimetypes, parse_mimetypes, serialize_content, parse_content, parse_item_header,
  serialize_items, parse_items,
}
use rsocket_py.Extensions.Composite.Encodings.{mime_id, name_of, IsReadable, ReadsBack-encoding}

-- An encoding is parsed to its name.
abbrev pub read_encoding : Encoding → Encoding
read_encoding e = named (name_of e)

abbrev pub read_content : Content → Content
read_content (stream_data_mimetype e) = stream_data_mimetype (read_encoding e)
read_content (stream_data_mimetypes es) = stream_data_mimetypes (map read_encoding es)
read_content content = content

abbrev pub read_item : CompositeMetadataItem → CompositeMetadataItem
read_item item = record {
  encoding = read_encoding item.encoding;
  content = read_content item.content;
}

abbrev pub FitsAuthentication : AnyAuthentication → Type 0
FitsAuthentication (simple_authentication a) = length a.username < 2 ^ 16
FitsAuthentication (bearer_authentication a) = Unit

-- The content is of the class of its encoding, and its parts fit.
abbrev pub FitsContent : Bytes → Content → Type 0
FitsContent name (plain b) =
    (same_bytes name message_rsocket_routing.1 ≡ false)
    × (same_bytes name message_rsocket_mimetype.1 ≡ false)
    × (same_bytes name message_rsocket_accept_mimetypes.1 ≡ false)
    × (same_bytes name message_rsocket_authentication.1 ≡ false)
FitsContent name (routing tags) =
    (name ≡ message_rsocket_routing.1) × All (λ (t : Bytes). length t ≤ 255) tags
FitsContent name (stream_data_mimetype e) = (name ≡ message_rsocket_mimetype.1) × IsReadable e
FitsContent name (stream_data_mimetypes es) =
    (name ≡ message_rsocket_accept_mimetypes.1) × All IsReadable es
FitsContent name (authentication a) =
    (name ≡ message_rsocket_authentication.1) × FitsAuthentication a

-- The content is written, and read back in more rounds than bytes.
record ContentBack (name : Bytes) (content : Content) : Type 0 where
  bytes : Bytes
  returns : serialize_content content ≡ ok bytes
  reads :
      (rounds : ℕ)
      → length bytes < rounds
      → parse_content rounds name bytes ≡ some (ok (read_content content))

parse_mimetypes-cons :
    (bytes rest name : Bytes) (rounds : ℕ) (es : List Encoding)
    → 0 < length bytes
    → parse_mime_type (bytes ++ rest) ≡ ok (name, length bytes)
    → parse_mimetypes rounds rest ≡ some (ok es)
    → parse_mimetypes (suc rounds) (bytes ++ rest) ≡ some (ok (named name ∷ es))
unfolding parse_mimetypes
parse_mimetypes-cons [] rest name rounds es there head tail = absurd (omega arith)
parse_mimetypes-cons (x ∷ bytes) rest name rounds es there head tail =
    rw (parse_mimetypes, head, drop-append_length (x ∷ bytes) rest, tail) refl

mimetypes_loop :
    (e : Encoding) (es : List Encoding) {rest : Bytes}
    (b : ReadsBack (name_of e) rest mime_id (mime_type_bytes e))
    → ((rounds : ℕ)
        → length rest < rounds
        → parse_mimetypes rounds rest ≡ some (ok (map read_encoding es)))
    → (rounds : ℕ) → length (b.bytes ++ rest) < rounds
    → parse_mimetypes rounds (b.bytes ++ rest) ≡ some (ok (read_encoding e ∷ map read_encoding es))
mimetypes_loop e es b reads zero room = absurd (omega arith)
mimetypes_loop e es {rest} b reads (suc rounds) room =
    parse_mimetypes-cons b.bytes rest (name_of e) rounds (map read_encoding es) b.some_byte b.reads
      (reads rounds (omega (arith, room, b.some_byte, length-append b.bytes rest)))

mimetypes_back :
    (es : List Encoding)
    → All IsReadable es
    → (b : Bytes) × (serialize_mimetypes es ≡ ok b)
      × ((rounds : ℕ)
          → length b < rounds
          → parse_mimetypes rounds b ≡ some (ok (map read_encoding es)))
unfolding serialize_mimetypes
mimetypes_back [] h = ([], refl, no_rounds)
  where
    no_rounds : (rounds : ℕ) → length {A = ℕ} [] < rounds → parse_mimetypes rounds [] ≡ some (ok [])
    no_rounds zero h = absurd (omega arith)
    no_rounds (suc rounds) h = unfold parse_mimetypes in refl
mimetypes_back (e ∷ es) (h, hs) =
    let (rest, written, reads) = mimetypes_back es hs in
    let b = ReadsBack-encoding e rest h in
    (b.bytes ++ rest, rw (b.returns, written) refl, mimetypes_loop e es b reads)

authentication_back :
    (a : AnyAuthentication)
    → FitsAuthentication a
    → (b : Bytes) × (serialize_authentication a ≡ ok b) × (parse_authentication b ≡ ok a)
unfolding serialize_authentication parse_authentication serialize_well_known_encoding
    parse_well_known_encoding rsocket_py.FrameHelpers.parse_type get_by_name require_by_id
    well_known_authentication_types rsocket_py.Bytes.unpack rsocket_py.Bytes.un_be
authentication_back (simple_authentication a) h =
    let (b, written, reads) = parse_simple-serialize_simple a h in
    (128 ∷ b, rw written refl, rw reads refl)
authentication_back (bearer_authentication a) h = (129 ∷ a, refl, refl)

routing_back :
    (tags : List Bytes)
    → All (λ (t : Bytes). length t ≤ 255) tags
    → ContentBack message_rsocket_routing.1 (routing tags)
unfolding serialize_content parse_content
routing_back tags h = record {
  bytes = tag_bytes tags;
  returns = serialize_tags-eq_ok tags h;
  reads = λ rounds room.
      rw (parse_tags-tag_bytes tags rounds (omega (arith, room, length-tag_bytes tags))) refl;
}

mimetype_back :
    (e : Encoding) → IsReadable e → ContentBack message_rsocket_mimetype.1 (stream_data_mimetype e)
unfolding serialize_content parse_content
mimetype_back e h =
    let b = ReadsBack-encoding e [] h in
    record {
      bytes = b.bytes;
      returns = b.returns;
      reads = λ rounds room.
          ap
            (λ (r : Result (Bytes × ℕ)).
              some (r >>= λ (name, offset). ok (stream_data_mimetype (named name))))
            (ap parse_mime_type (sym (append-nil b.bytes)) ∙ b.reads);
    }

accepted_back :
    (es : List Encoding)
    → All IsReadable es
    → ContentBack message_rsocket_accept_mimetypes.1 (stream_data_mimetypes es)
unfolding serialize_content parse_content
accepted_back es h =
    let (b, written, reads) = mimetypes_back es h in
    record { bytes = b; returns = written; reads = λ rounds room. rw (reads rounds room) refl }

authenticated_back :
    (a : AnyAuthentication)
    → FitsAuthentication a
    → ContentBack message_rsocket_authentication.1 (authentication a)
unfolding serialize_content parse_content
authenticated_back a h =
    let (b, written, reads) = authentication_back a h in
    record { bytes = b; returns = written; reads = λ rounds room. rw reads refl }

content_back : (name : Bytes) (c : Content) → FitsContent name c → ContentBack name c
unfolding serialize_content parse_content
content_back name (plain b) (a, d, e, g) = record {
  bytes = b;
  returns = refl;
  reads = λ rounds room. rw (parse_content, a, d, e, g) refl;
}
content_back name (routing tags) (e, h) =
    subst (λ (n : Bytes). ContentBack n (routing tags)) (sym e) (routing_back tags h)
content_back name (stream_data_mimetype d) (e, h) =
    subst (λ (n : Bytes). ContentBack n (stream_data_mimetype d)) (sym e) (mimetype_back d h)
content_back name (stream_data_mimetypes ds) (e, h) =
    subst (λ (n : Bytes). ContentBack n (stream_data_mimetypes ds)) (sym e) (accepted_back ds h)
content_back name (authentication a) (e, h) =
    subst (λ (n : Bytes). ContentBack n (authentication a)) (sym e) (authenticated_back a h)

-- The head of an item in front of its metadata and the rest.
parse_item_header-item :
    (header name metadata rest : Bytes)
    → length metadata < 2 ^ 24
    → parse_mime_type (header ++ ((be 3 (length metadata) ++ metadata) ++ rest))
      ≡ ok (name, length header)
    → parse_item_header (header ++ ((be 3 (length metadata) ++ metadata) ++ rest))
      ≡ ok (name, metadata, rest)
unfolding parse_item_header
parse_item_header-item header name metadata rest small named_at =
    let size = be 3 (length metadata) in
    let buffer = header ++ ((size ++ metadata) ++ rest) in
    let at : drop (length header) buffer ≡ size ++ (metadata ++ rest) =
      drop-append_length header ((size ++ metadata) ++ rest) ∙ append_assoc size metadata rest in
    let behind : drop (length header + 3) buffer ≡ metadata ++ rest =
      drop_past buffer (length header) size (metadata ++ rest) at 3
        (sym (length-be 3 (length metadata))) in
    let left : drop (length header + 3 + length metadata) buffer ≡ rest =
      drop_past buffer (length header + 3) metadata rest behind (length metadata) refl in
    rw
      (
        named_at,
        unpack_24bit_at buffer (length header) (length metadata) (metadata ++ rest) small at,
        behind,
        take-append_length metadata rest,
        left,
      )
      refl

-- An item that the format can carry: a readable encoding, a content of its class, and bytes that
-- three bytes of length can count.
pub record FitsItem (item : CompositeMetadataItem) : Type 0 where
  pub readable : IsReadable item.encoding
  pub fits : FitsContent (name_of item.encoding) item.content
  pub short : (b : Bytes) → serialize_content item.content ≡ ok b → length b < 2 ^ 24

-- One item in front of the rest.
parse_items-cons :
    (header name metadata rest : Bytes) (rounds : ℕ) (content : Content)
    (items : List CompositeMetadataItem)
    → 0 < length header
    → length metadata < 2 ^ 24
    → parse_mime_type (header ++ ((be 3 (length metadata) ++ metadata) ++ rest))
      ≡ ok (name, length header)
    → parse_content (suc rounds) name metadata ≡ some (ok content)
    → parse_items rounds rest ≡ some (ok items)
    → parse_items (suc rounds) (header ++ ((be 3 (length metadata) ++ metadata) ++ rest))
      ≡ some (ok (record { encoding = named name; content = content } ∷ items))
unfolding parse_items
parse_items-cons [] name metadata rest rounds content items there small head read tail =
    absurd (omega arith)
parse_items-cons (x ∷ header) name metadata rest rounds content items there small head read tail =
    rw (parse_items, parse_item_header-item (x ∷ header) name metadata rest small head, read, tail)
      refl

size_field : (n : ℕ) → n < 2 ^ 24 → pack_24bit n ≡ ok (be 3 n)
size_field n small =
    pack_24bit-eq_ok n (omega arith) ∙ ap (λ (m : ℕ). ok (be 3 m)) (mod-eq_of_lt small)

items_loop :
    (item : CompositeMetadataItem) (items : List CompositeMetadataItem) (rest : Bytes)
    (c : ContentBack (name_of item.encoding) item.content)
    (b : ReadsBack
      (name_of item.encoding)
      ((be 3 (length c.bytes) ++ c.bytes) ++ rest)
      mime_id
      (mime_type_bytes item.encoding))
    → length c.bytes < 2 ^ 24
    → ((rounds : ℕ)
        → length rest < rounds
        → parse_items rounds rest ≡ some (ok (map read_item items)))
    → (rounds : ℕ) → length (b.bytes ++ ((be 3 (length c.bytes) ++ c.bytes) ++ rest)) < rounds
    → parse_items rounds (b.bytes ++ ((be 3 (length c.bytes) ++ c.bytes) ++ rest))
      ≡ some (ok (read_item item ∷ map read_item items))
items_loop item items rest c b small reads zero room = absurd (omega arith)
items_loop item items rest c b small reads (suc rounds) room =
    let sized = be 3 (length c.bytes) ++ c.bytes in
    let whole = length-append b.bytes (sized ++ rest) in
    let parts = length-append sized rest in
    let part = length-append (be 3 (length c.bytes)) c.bytes in
    parse_items-cons b.bytes (name_of item.encoding) c.bytes rest rounds (read_content item.content)
      (map read_item items) b.some_byte small b.reads
      (c.reads (suc rounds) (omega (arith, room, whole, parts, part)))
      (reads rounds (omega (arith, room, whole, parts, b.some_byte)))

-- Composite metadata is written and read back: each item with the name of its encoding, and with
-- its content, in which an encoding is read as its name, in more rounds than there are bytes.
pub parse_items-serialize_items :
    (items : List CompositeMetadataItem)
    → All FitsItem items
    → (b : Bytes) × (serialize_items items ≡ ok b)
      × ((rounds : ℕ) → length b < rounds → parse_items rounds b ≡ some (ok (map read_item items)))
unfolding serialize_items
parse_items-serialize_items [] h = ([], refl, no_items)
  where
    no_items : (rounds : ℕ) → length {A = ℕ} [] < rounds → parse_items rounds [] ≡ some (ok [])
    no_items zero h = absurd (omega arith)
    no_items (suc rounds) h = unfold parse_items in refl
parse_items-serialize_items (item ∷ items) (h, hs) =
    let (rest, written, reads) = parse_items-serialize_items items hs in
    let c = content_back (name_of item.encoding) item.content h.fits in
    let small : length c.bytes < 2 ^ 24 = h.short c.bytes c.returns in
    let sized = be 3 (length c.bytes) ++ c.bytes in
    let b = ReadsBack-encoding item.encoding (sized ++ rest) h.readable in
    (
      b.bytes ++ (sized ++ rest),
      rw (b.returns, c.returns, size_field (length c.bytes) small, written)
          (ap ok (append_assoc b.bytes sized rest)),
      items_loop item items rest c b small reads,
    )
