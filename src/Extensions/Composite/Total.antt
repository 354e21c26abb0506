-- ===== src/Extensions/Composite/Total.antt =====
-- Parsing composite metadata ends on any bytes.
use rsocket_py.Prelude.{
  ℕ, zero, suc, ◌+◌, ◌≤◌, ◌<◌, ◌≡◌, refl, ap, inl, inr, Bool, true, false, Option, none, some, List,
  [], ◌∷◌, Result, ok, err, Result-cases, ◌>>=◌, length, take, drop, length-take, length-drop,
  arith, if◌then◌else◌,
}
use rsocket_py.Bytes.{Bytes, pos}
use rsocket_py.FrameHelpers.{parse_type, unpack_24bit}
use rsocket_py.Extensions.WellKnown.{same_bytes, Encoding, named, parse_well_known_encoding}
use rsocket_py.Extensions.Tables.{
  message_rsocket_routing, message_rsocket_mimetype, message_rsocket_accept_mimetypes,
  message_rsocket_authentication,
}
use rsocket_py.Extensions.Tagging.{parse_tags}
use rsocket_py.Extensions.Composite.{
  Content, routing, stream_data_mimetypes, parse_mime_type, parse_mimetypes, parse_content,
  parse_item_header, parse_items,
}

-- The loop does not run out of rounds.
abbrev pub Returns {ℓ} : {A : Type ℓ} → Option A → Type ℓ
Returns {A = A} o = (a : A) × (o ≡ some a)

drop_shorter : (n x : ℕ) (b : Bytes) → 1 ≤ n → length (drop n (x ∷ b)) ≤ length b
drop_shorter n x b h = omega (arith, length-drop n (x ∷ b), h)

parse_tags-Returns : (rounds : ℕ) (b : Bytes) → length b < rounds → Returns (parse_tags rounds b)
unfolding parse_tags
parse_tags-Returns zero b h = absurd (omega arith)
parse_tags-Returns (suc rounds) [] h = ([], refl)
parse_tags-Returns (suc rounds) (n ∷ b) h =
    let (tags, e) = parse_tags-Returns rounds (drop n b) (omega (arith, length-drop n b, h)) in
    (take n b ∷ tags, rw e refl)

-- The bytes of an encoding are at least one.
offset_positive :
    (f : ℕ → Result Bytes) (b name : Bytes) (offset : ℕ)
    → parse_well_known_encoding b f ≡ ok (name, offset)
    → 1 ≤ offset
unfolding parse_well_known_encoding
offset_positive f b name offset e = elim (Result-cases (parse_type b)) [
  | inr (x, failed) ↦ absurd (cc (rw failed at e))
  | inl ((known, n), read) ↦ offset_of known n read
]
  where
    one :
        (r : Result Bytes)
        → ◌>>=◌ {B = Bytes × ℕ} r (λ x. ok (x, 1)) ≡ ok (name, offset)
        → 1 ≤ offset
    one (ok x) h = let same : offset ≡ 1 = cc h in omega (arith, same)
    one (err x) h = absurd (cc h)

    offset_of : (known : Bool) (n : ℕ) → parse_type b ≡ ok (known, n) → 1 ≤ offset
    offset_of true n read = one (f n) (rw read at e)
    offset_of false n read =
        let shown : ok (take (n + 1) (drop 1 b), 1 + (n + 1)) ≡ ok (name, offset) = rw read at e in
        let same : offset ≡ 1 + (n + 1) = cc shown in omega (arith, same)

parse_mimetypes-Returns :
    (rounds : ℕ) (b : Bytes) → length b < rounds → Returns (parse_mimetypes rounds b)
unfolding parse_mimetypes
parse_mimetypes-Returns zero b h = absurd (omega arith)
parse_mimetypes-Returns (suc rounds) [] h = (ok [], refl)
parse_mimetypes-Returns (suc rounds) (x ∷ b) h = elim (Result-cases (parse_mime_type (x ∷ b))) [
  | inr (e, failed) ↦ (err e, rw (parse_mimetypes, failed) refl)
  | inl ((name, offset), read) ↦
      let (r, rest) =
        parse_mimetypes-Returns rounds (drop offset (x ∷ b)) (
          omega (arith, drop_shorter offset x b (offset_positive _ (x ∷ b) name offset read), h)) in
      (r >>= λ es. ok (named name ∷ es), rw (parse_mimetypes, read, rest) refl)
]

if-Returns {ℓ} :
    {A : Type ℓ} (b : Bool) (o p : Option A) → Returns o → Returns p → Returns (if b then o else p)
if-Returns true o p h k = h
if-Returns false o p h k = k

parse_content-Returns :
    (rounds : ℕ) (name b : Bytes) → length b < rounds → Returns (parse_content rounds name b)
unfolding parse_content
parse_content-Returns rounds name b h =
    if-Returns (same_bytes name message_rsocket_routing.1) _ _
      (tagged (parse_tags-Returns rounds b h))
      (if-Returns (same_bytes name message_rsocket_mimetype.1) _ _ (_, refl)
        (if-Returns (same_bytes name message_rsocket_accept_mimetypes.1) _ _
          (listed (parse_mimetypes-Returns rounds b h))
          (if-Returns (same_bytes name message_rsocket_authentication.1) _ _ (_, refl) (_, refl))))
  where
    tagged :
        {o : Option (List Bytes)}
        → Returns o
        → Returns (elim o as (λ _. Option (Result Content)) [
          | none ↦ none
          | some tags ↦ some (ok (routing tags))
        ])
    tagged (tags, e) = (ok (routing tags), rw e refl)

    listed :
        {o : Option (Result (List Encoding))}
        → Returns o
        → Returns (elim o as (λ _. Option (Result Content)) [
          | none ↦ none
          | some r ↦ some (r >>= λ es. ok (stream_data_mimetypes es))
        ])
    listed (r, e) = (r >>= λ es. ok (stream_data_mimetypes es), rw e refl)

-- What is left behind an item's head is shorter, and the item's metadata no longer, than it all.
header_shorter :
    (x : ℕ) (b name metadata left : Bytes)
    → parse_item_header (x ∷ b) ≡ ok (name, metadata, left)
    → (length left < length (x ∷ b)) × (length metadata ≤ length (x ∷ b))
unfolding parse_item_header
header_shorter x b name metadata left e = elim (Result-cases (parse_mime_type (x ∷ b))) [
  | inr (y, failed) ↦ absurd (cc (rw failed at e))
  | inl ((first, offset), read) ↦ elim (Result-cases (unpack_24bit (x ∷ b) (pos offset))) [
    | inr (y, failed) ↦ absurd (cc (rw (read, failed) at e))
    | inl (size, unpacked) ↦
        let n = length (take size (drop (offset + 3) (x ∷ b))) in
        let shown : ok (first, take size (drop (offset + 3) (x ∷ b)), drop (offset + 3 + n) (x ∷ b))
            ≡ ok (name, metadata, left) =
          rw (read, unpacked) at e in
        let rest : drop (offset + 3 + n) (x ∷ b) ≡ left = cc shown in
        let inner : take size (drop (offset + 3) (x ∷ b)) ≡ metadata = cc shown in
        (
          omega (arith, ap length rest, length-drop (offset + 3 + n) (x ∷ b)),
          omega (
            arith,
            ap length inner,
            length-take size (drop (offset + 3) (x ∷ b)),
            length-drop (offset + 3) (x ∷ b),
          ),
        )
  ]
]

pub parse_items-Returns :
    (rounds : ℕ) (b : Bytes) → length b < rounds → Returns (parse_items rounds b)
unfolding parse_items
parse_items-Returns zero b h = absurd (omega arith)
parse_items-Returns (suc rounds) [] h = (ok [], refl)
parse_items-Returns (suc rounds) (x ∷ b) h = elim (Result-cases (parse_item_header (x ∷ b))) [
  | inr (e, failed) ↦ (err e, rw (parse_items, failed) refl)
  | inl ((name, metadata, left), read) ↦
      let (less, fits) = header_shorter x b name metadata left read in
      let (c, content) =
        parse_content-Returns (suc rounds) name metadata (omega (arith, fits, h)) in
      let (r, rest) = parse_items-Returns rounds left (omega (arith, less, h)) in
      elim (Result-cases c) [
        | inr (e, failed) ↦ (err e, rw (parse_items, read, content, failed) refl)
        | inl (found, kept) ↦ (
          r >>= λ items. ok (record { encoding = named name; content = found } ∷ items),
          rw (parse_items, read, content, kept, rest) refl,
        )
      ]
]
