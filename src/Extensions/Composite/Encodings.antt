-- ===== src/Extensions/Composite/Encodings.antt =====
-- The table of well-known mime types, and the encodings that it lets through.
use rsocket_py.Prelude.{
  ℕ, ◌≤◌, ◌<◌, ◌≡◌, refl, sym, ap, ◌∙◌, inl, inr, Bool, true, false, ◌&&◌, Option, some, [], ◌∷◌,
  Result, ok, err, unknown_mimetype, ltb, ltb→lt, ◌==◌, ==_iff, if◌then◌else◌, Bool-cases, length,
}
use rsocket_py.Bytes.{Bytes, ℤ, pos, negsuc}
use rsocket_py.Extensions.Tables.{Table, well_known_mime_types}
use rsocket_py.Extensions.WellKnown.{
  Encoding, named, well_known, same_bytes, require_by_id, get_by_name,
  serialize_well_known_encoding,
}
use rsocket_py.Extensions.WellKnown.RoundTrip.{
  ReadsBack, parse_well_known_encoding-serialize_well_known_encoding,
}

abbrev pub mime_id : ℕ → Result Bytes
mime_id = require_by_id unknown_mimetype well_known_mime_types

abbrev pub mime_name : Bytes → Option ℤ
mime_name = get_by_name well_known_mime_types

same_bytes-eq : (a b : Bytes) → same_bytes a b ≡ true → a ≡ b
same_bytes-eq [] [] e = refl
same_bytes-eq (x ∷ a) (y ∷ b) e = elim (Bool-cases (x == y)) [
  | inl h ↦
      let front : x ≡ y = (==_iff x y).0 h in
      let rest : same_bytes a b ≡ true = ap (λ (t : Bool). t && same_bytes a b) (sym h) ∙ e in
      let more = same_bytes-eq a b rest in cc
  | inr h ↦ cc (ap (λ (t : Bool). t && same_bytes a b) (sym h) ∙ e)
]
same_bytes-eq [] (y ∷ b) e = cc e
same_bytes-eq (x ∷ a) [] e = cc e

-- The row of a number leads back to its name, and the number has seven bits.
abbrev is_name : Bytes → Result Bytes → Bool
is_name name (ok n) = same_bytes n name
is_name name (err e) = false

abbrev leads_back : ℤ → Bytes → Bool
leads_back (pos i) name = ltb i 128 && is_name name (mime_id i)
leads_back (negsuc i) name = true

abbrev all_lead_back : Table → Bool
all_lead_back [] = true
all_lead_back ((id, name) ∷ table) = leads_back id name && all_lead_back table

table_leads_back : all_lead_back well_known_mime_types ≡ true
unfolding require_by_id well_known_mime_types
table_leads_back = refl

is_name-eq : (name : Bytes) (r : Result Bytes) → is_name name r ≡ true → r ≡ ok name
is_name-eq name (ok n) e = ap ok (same_bytes-eq n name e)
is_name-eq name (err x) e = cc e

both : (a b : Bool) → (a && b) ≡ true → (a ≡ true) × (b ≡ true)
both true true e = (refl, refl)
both true false e = cc e
both false b e = cc e

named_row :
    (table : Table) (name : Bytes) (i : ℕ)
    → all_lead_back table ≡ true
    → get_by_name table name ≡ some (pos i)
    → (i < 128) × (mime_id i ≡ ok name)
unfolding get_by_name
named_row [] name i all e = cc e
named_row ((id, n) ∷ table) name i all e = elim (Bool-cases (same_bytes n name)) [
  | inl h ↦
      let at : id ≡ pos i =
        some_eq id (pos i)
          (ap (λ (t : Bool). if t then some id else get_by_name table name) (sym h) ∙ e) in
      let row =
        both (leads_back (pos i) n) _
          (ap (λ (z : ℤ). leads_back z n && all_lead_back table) (sym at) ∙ all) in
      let parts = both (ltb i 128) (is_name n (mime_id i)) row.0 in
      (ltb→lt i 128 parts.0, is_name-eq n (mime_id i) parts.1 ∙ ap ok (same_bytes-eq n name h))
  | inr h ↦
      named_row table name i (both _ _ all).1
        (ap (λ (t : Bool). if t then some id else get_by_name table name) (sym h) ∙ e)
]
  where
    some_eq : (a b : ℤ) → some a ≡ some b → a ≡ b
    some_eq a b q = cc q

abbrev pub name_of : Encoding → Bytes
name_of (named name) = name
name_of (well_known id name) = name

-- A name of 1 to 128 bytes that is not one of the two reserved ones, or a row of the table.
abbrev pub IsReadable : Encoding → Type 0
IsReadable (named name) =
    (0 < length name)
    × (length name ≤ 128)
    × ((id : ℤ) → get_by_name well_known_mime_types name ≡ some id → (i : ℕ) × (id ≡ pos i))
IsReadable (well_known id name) =
    (i : ℕ) × (id ≡ pos i)
    × (0 < length name)
    × (length name ≤ 128)
    × (get_by_name well_known_mime_types name ≡ some (pos i))

pub ReadsBack-encoding :
    (e : Encoding) (rest : Bytes)
    → IsReadable e
    → ReadsBack (name_of e) rest mime_id (serialize_well_known_encoding e mime_name)
unfolding serialize_well_known_encoding
ReadsBack-encoding (named name) rest (there, small, known) =
    (parse_well_known_encoding-serialize_well_known_encoding name rest mime_id mime_name there small
      (λ id e.
        let (i, is) = known id e in
        let row = named_row well_known_mime_types name i table_leads_back (e ∙ ap some is) in
        (i, is, row.0, row.1))).0
ReadsBack-encoding (well_known id name) rest (i, is, there, small, at) =
    let row = named_row well_known_mime_types name i table_leads_back at in
    let (b, w) =
      parse_well_known_encoding-serialize_well_known_encoding name rest mime_id mime_name there
        small
        (λ id' e.
          let same : id' ≡ pos i = some_eq id' (pos i) (sym e ∙ at) in (i, same, row.0, row.1)) in
    record {
      bytes = b.bytes;
      returns = rw is (sym (rw (serialize_well_known_encoding, at) refl) ∙ b.returns);
      some_byte = b.some_byte;
      reads = b.reads;
    }
  where
    some_eq : (a b : ℤ) → some a ≡ some b → a ≡ b
    some_eq a b q = cc q
