-- ===== src/FrameFragmenter/Pieces.antt =====
-- The fragments of a frame: they join to its contents, they are marked in order, and they fit.
use rsocket_py.Prelude.{
  ℕ, zero, suc, ◌+◌, ◌-◌, ◌≤◌, ◌<◌, ◌≡◌, ◌≢◌, refl, sym, ap, ◌∙◌, ◌⊎◌, inl, inr, Bool, true, false,
  ◌&&◌, ◌||◌, Option, none, some, List, [], ◌∷◌, ◌++◌, arith, ltb, lt→ltb, ltb→lt, ge→ltb, ◌==◌,
  ==_iff, if◌then◌else◌, Bool-cases, length, take, drop, length-take, length-drop, take-append-drop,
  append-nil,
}
use rsocket_py.Bytes.{Bytes, pos, ◌-ℤ◌}
use rsocket_py.FrameHelpers.{safe_len}
use rsocket_py.Frame.Serialize.{bytes_of}
use rsocket_py.FrameFragmenter.{
  Fragment, FrameFragmenter, body_size, data_loop, data_part, metadata_loop, yielded,
}

unfoldable pub joined_metadata : List Fragment → Bytes
joined_metadata [] = []
joined_metadata (f ∷ fs) = bytes_of f.metadata ++ joined_metadata fs

unfoldable pub joined_data : List Fragment → Bytes
joined_data [] = []
joined_data (f ∷ fs) = bytes_of f.data_bytes ++ joined_data fs

abbrev pub is_empty {ℓ} : {A : Type ℓ} → List A → Bool
is_empty [] = true
is_empty (x ∷ xs) = false

-- The first of the fragments is marked as `first` says, the others are not first, only the last is
-- marked as last, and each has room for its bytes.
unfoldable pub Marked : (Bool → ℕ) → Bool → List Fragment → Type 0
Marked room first [] = Unit {0}
Marked room first (f ∷ fs) =
    (f.is_first ≡ first)
    × (f.is_last ≡ some (is_empty fs))
    × (length (bytes_of f.metadata) + length (bytes_of f.data_bytes) ≤ room first)
    × Marked room false fs

pub Marked-monotone :
    (small large : Bool → ℕ) (first : Bool) (fs : List Fragment)
    → ((b : Bool) → small b ≤ large b)
    → Marked small first fs
    → Marked large first fs
unfolding Marked
Marked-monotone small large first [] h m = tt
Marked-monotone small large first (f ∷ fs) h (is_first, is_last, fits, rest) =
    (is_first, is_last, omega (arith, h first), Marked-monotone small large false fs h rest)

-- A run that returns fragments of the two byte strings.
pub record Cuts (room : Bool → ℕ) (first : Bool) (metadata data_bytes : Bytes)
    (run : Option (List Fragment)) : Type 0 where
  pub pieces : List Fragment
  pub returns : run ≡ some pieces
  pub marked : Marked room first pieces
  pub metadata_joins : joined_metadata pieces ≡ metadata
  pub data_joins : joined_data pieces ≡ data_bytes
  pub none_empty : is_empty pieces ≡ (is_empty metadata && is_empty data_bytes)

no-Cuts : (room : Bool → ℕ) (first : Bool) → Cuts room first [] [] (some [])
unfolding Marked joined_metadata joined_data
no-Cuts room first = record {
  pieces = [];
  returns = refl;
  marked = tt;
  metadata_joins = refl;
  data_joins = refl;
  none_empty = refl;
}

-- One fragment more, in front.
yielded-Cuts :
    (room : Bool → ℕ) (first : Bool) (f : Fragment) (metadata data_bytes : Bytes)
    {metadata' data_bytes' : Bytes} {run : Option (List Fragment)}
    → Cuts room false metadata data_bytes run
    → f.is_first ≡ first
    → f.is_last ≡ some (is_empty metadata && is_empty data_bytes)
    → length (bytes_of f.metadata) + length (bytes_of f.data_bytes) ≤ room first
    → bytes_of f.metadata ++ metadata ≡ metadata'
    → bytes_of f.data_bytes ++ data_bytes ≡ data_bytes'
    → (is_empty metadata' && is_empty data_bytes') ≡ false
    → Cuts room first metadata' data_bytes' (yielded f run)
unfolding Marked joined_metadata joined_data
yielded-Cuts room first f metadata data_bytes c is_first is_last fits em ed full = record {
  pieces = f ∷ c.pieces;
  returns = ap (yielded f) c.returns;
  marked = (is_first, is_last ∙ ap some (sym c.none_empty), fits, c.marked);
  metadata_joins = ap (λ (t : Bytes). bytes_of f.metadata ++ t) c.metadata_joins ∙ em;
  data_joins = ap (λ (t : Bytes). bytes_of f.data_bytes ++ t) c.data_joins ∙ ed;
  none_empty = sym full;
}

-- Reading takes all, or leaves something and takes as much as was asked for.
read_cases :
    (c : ℕ) (b : Bytes)
    → ((take c b ≡ b) × (drop c b ≡ []))
      ⊎ ((y : ℕ) × (rest : Bytes) × (drop c b ≡ y ∷ rest) × (length (take c b) ≡ c))
read_cases zero [] = inl (refl, refl)
read_cases zero (x ∷ b) = inr (x, b, refl, refl)
read_cases (suc c) [] = inl (refl, refl)
read_cases (suc c) (x ∷ b) = elim (read_cases c b) [
  | inl (t, d) ↦ inl (ap (λ (r : Bytes). x ∷ r) t, d)
  | inr (y, rest, d, n) ↦ inr (y, rest, d, ap suc n)
]

ne→== : (a b : ℕ) → a ≢ b → (a == b) ≡ false
ne→== a b h = ground arith

eq→== : (a b : ℕ) → a ≡ b → (a == b) ≡ true
eq→== a b h = (==_iff a b).1 h

covered : (c : ℕ) (b : Bytes) → take c b ≡ b → length b ≤ c
covered c b e = omega (arith, ap length e, length-take c b)

abbrev pub piece : Option Bytes → Option Bytes → Bool → Bool → Fragment
piece metadata data_bytes is_last is_first = record {
  data_bytes = data_bytes;
  metadata = metadata;
  is_last = some is_last;
  is_first = is_first;
}

pub length-bytes_of : (o : Option Bytes) → length (bytes_of o) ≡ safe_len o
length-bytes_of none = refl
length-bytes_of (some b) = refl

or_true : (b : Bool) → (b || true) ≡ true
or_true true = refl
or_true false = refl

and_false : (b : Bool) → (b && false) ≡ false
and_false true = refl
and_false false = refl

and_true : (b : Bool) → (b && true) ≡ b
and_true true = refl
and_true false = refl

full_right : (m d : Bytes) → 0 < length d → (is_empty m && is_empty d) ≡ false
full_right m [] h = absurd (omega arith)
full_right m (x ∷ d) h = and_false (is_empty m)

pub safe_len-is_empty : (o : Option Bytes) → (safe_len o == 0) ≡ is_empty (bytes_of o)
safe_len-is_empty none = refl
safe_len-is_empty (some []) = refl
safe_len-is_empty (some (x ∷ b)) = ne→== (suc (length b)) 0 (λ e. absurd (omega arith))

-- The room for the bytes of a fragment, which is at least one.
abbrev pub limit : (Bool → ℕ) → Bool → ℕ
limit room b = suc (room b)

module _ (s : FrameFragmenter) (room : Bool → ℕ)
    (small : (b : Bool) → body_size s b ≡ pos (suc (room b))) where
  data_loop-Cuts :
      (rounds : ℕ) (x : ℕ) (reader : Bytes) (read_length : ℕ)
      → length (x ∷ reader) ≤ rounds
      → read_length + length (x ∷ reader) ≡ safe_len s.data_bytes
      → Cuts (limit room) false [] (x ∷ reader) (data_loop rounds s false (x ∷ reader) read_length)
  unfolding data_loop
  data_loop-Cuts zero x reader read_length fuel count = absurd (omega arith)
  data_loop-Cuts (suc rounds) x reader read_length fuel count =
      elim (read_cases (room false) reader) [
        | inl (t, d) ↦
            rw
              (
                small false,
                ne→== (suc (length (take (room false) reader))) 0 (omega arith),
                t,
                d,
                eq→== (read_length + suc (length reader)) (safe_len s.data_bytes) count,
              )
              (yielded-Cuts (limit room) false (piece none (some (x ∷ reader)) true false) [] []
                (no-Cuts (limit room) false) refl refl
                (omega (arith, covered (room false) reader t)) refl (append-nil (x ∷ reader)) refl)
        | inr (y, rest, d, n) ↦
            let left : length reader ≡ room false + suc (length rest) = omega (
              arith,
              ap length d,
              length-drop (room false) reader,
              n,
              length-take (room false) reader,
            ) in
            let unread : read_length + suc (room false) ≢ safe_len s.data_bytes =
              λ e. absurd (omega arith) in
            let rest_cuts =
              data_loop-Cuts rounds y rest (read_length + suc (room false)) (omega arith)
                (omega arith) in
            rw
              (
                small false,
                ne→== (suc (length (take (room false) reader))) 0 (omega arith),
                d,
                n,
                ne→== (read_length + suc (room false)) (safe_len s.data_bytes) unread,
              )
              (yielded-Cuts (limit room) false
                (piece none (some (x ∷ take (room false) reader)) false false) [] (y ∷ rest)
                rest_cuts refl refl (omega (arith, n)) refl
                (ap (λ (t : Bytes). x ∷ t) (rw (← d) (take-append-drop (room false) reader))) refl)
      ]

  abbrev is_there : Bytes → Bytes → Bool
  is_there m d = ltb 0 (length m) || ltb 0 (length d)

  last_piece :
      (first : Bool) (m d : Bytes)
      → length m + length d ≤ suc (room first)
      → Cuts
          (limit room)
          first
          m
          d
          (if is_there m d then yielded (piece (some m) (some d) true first) (some []) else some [])
  last_piece first [] [] fits = no-Cuts (limit room) first
  last_piece first [] (x ∷ d) fits = rw (lt→ltb 0 (suc (length d)) (omega arith)) (
      yielded-Cuts (limit room) first (piece (some []) (some (x ∷ d)) true first) [] []
        (no-Cuts (limit room) false) refl refl (omega arith) refl (append-nil (x ∷ d)) refl)
  last_piece first (x ∷ m) d fits = rw (lt→ltb 0 (suc (length m)) (omega arith)) (
      yielded-Cuts (limit room) first (piece (some (x ∷ m)) (some d) true first) [] []
        (no-Cuts (limit room) false) refl refl (omega arith) (append-nil (x ∷ m)) (append-nil d)
        refl)

  expected_length :
      (first : Bool) (m : Bytes)
      → length m ≤ room first
      → body_size s first -ℤ pos (length m) ≡ pos (suc (room first) - length m)
  expected_length first m fits =
      rw (small first, ge→ltb (suc (room first)) (length m) (omega arith))

  data_part-Cuts :
      (rounds : ℕ) (first : Bool) (m : Bytes)
      → length m ≤ room first
      → length (bytes_of s.data_bytes) ≤ rounds
      → Cuts (limit room) first m (bytes_of s.data_bytes) (data_part rounds s first m)
  unfolding data_part
  data_part-Cuts rounds first m fits fuel =
      let d = bytes_of s.data_bytes in
      let c = suc (room first) - length m in
      elim (read_cases c d) [
        | inl (t, e) ↦
            rw
              (
                expected_length first m fits,
                t,
                e,
                eq→== (length d) (safe_len s.data_bytes) (length-bytes_of s.data_bytes),
              )
              (last_piece first m d (omega (arith, covered c d t)))
        | inr (y, rest, e, n) ↦
            let left : length d ≡ c + suc (length rest) =
              omega (arith, ap length e, length-drop c d, n, length-take c d) in
            let size = length-bytes_of s.data_bytes in
            let unread : c ≢ safe_len s.data_bytes = λ e. absurd (omega (arith, size)) in
            let there : (ltb 0 (length m) || ltb 0 c) ≡ true =
              rw (lt→ltb 0 c (omega arith)) (or_true (ltb 0 (length m))) in
            let rest_cuts = data_loop-Cuts rounds y rest c (omega arith) (omega (arith, size)) in
            rw
              (
                expected_length first m fits,
                e,
                n,
                there,
                ne→== c (safe_len s.data_bytes) unread,
                ne→== c 0 (omega arith),
              )
              (yielded-Cuts (limit room) first (piece (some m) (some (take c d)) false first) []
                (y ∷ rest) rest_cuts refl refl (omega (arith, n)) (append-nil m)
                (rw (← e) (take-append-drop c d)) (full_right m d (omega arith)))
      ]

  pub metadata_loop-Cuts :
      (rounds : ℕ) (first : Bool) (reader : Bytes) (read_length : ℕ)
      → length reader + length (bytes_of s.data_bytes) < rounds
      → read_length + length reader ≡ safe_len s.metadata
      → Cuts
          (limit room)
          first
          reader
          (bytes_of s.data_bytes)
          (metadata_loop rounds s first reader read_length)
  unfolding metadata_loop
  metadata_loop-Cuts zero first reader read_length fuel count = absurd (omega arith)
  metadata_loop-Cuts (suc rounds) first [] read_length fuel count =
      rw (small first) (data_part-Cuts rounds first [] (omega arith) (omega arith))
  metadata_loop-Cuts (suc rounds) first (x ∷ reader) read_length fuel count =
      let n = room first in
      let d = bytes_of s.data_bytes in
      elim (read_cases n reader) [
        | inl (t, e) ↦ elim (Bool-cases (ltb (suc (length reader)) (suc n))) [
          | inl shorter ↦
              rw (small first, ne→== (suc (length (take n reader))) 0 (omega arith), t, shorter)
                (data_part-Cuts rounds first (x ∷ reader) (omega (arith, ltb→lt _ _ shorter))
                  (omega arith))
          | inr whole ↦
              let only_data : ((safe_len s.data_bytes == 0)
                    && (read_length + suc (length reader) == safe_len s.metadata))
                  ≡ is_empty d =
                rw (eq→== (read_length + suc (length reader)) (safe_len s.metadata) count)
                  (and_true (safe_len s.data_bytes == 0) ∙ safe_len-is_empty s.data_bytes) in
              let rest_cuts =
                metadata_loop-Cuts rounds false [] (read_length + suc (length reader)) (omega arith)
                  (omega arith) in
              rw (small first, ne→== (suc (length (take n reader))) 0 (omega arith), t, e, whole)
                (yielded-Cuts (limit room) first _ [] d rest_cuts refl (ap some only_data)
                  (omega (arith, covered n reader t)) (append-nil (x ∷ reader)) refl refl)
        ]
        | inr (y, rest, e, taken) ↦
            let left : length reader ≡ n + suc (length rest) =
              omega (arith, ap length e, length-drop n reader, taken, length-take n reader) in
            let unread : read_length + suc n ≢ safe_len s.metadata = λ e. absurd (omega arith) in
            let rest_cuts =
              metadata_loop-Cuts rounds false (y ∷ rest) (read_length + suc n) (omega arith)
                (omega arith) in
            rw
              (
                small first,
                ne→== (suc (length (take n reader))) 0 (omega arith),
                e,
                taken,
                ge→ltb (suc n) (suc n) (omega arith),
                ne→== (read_length + suc n) (safe_len s.metadata) unread,
              )
              (yielded-Cuts (limit room) first _ (y ∷ rest) d rest_cuts refl
                (ap some (and_false (safe_len s.data_bytes == 0))) (omega (arith, taken))
                (ap (λ (t : Bytes). x ∷ t) (rw (← e) (take-append-drop n reader))) refl refl)
      ]
