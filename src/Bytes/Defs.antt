-- ===== src/Bytes/Defs.antt =====
-- Python's `bytes` and `bytearray`, their slices, and the standard module `struct` with big-endian
-- unsigned formats, as far as rsocket uses them. A byte string is a list of numbers.
use rsocket_py.Prelude.{
  ℕ, zero, suc, ◌+◌, ◌-◌, ◌*◌, ◌/◌, ◌%◌, ◌^◌, ◌<◌, Option, none, some, List, [], ◌∷◌, Result, ok,
  err, struct_error, ltb, ◌==◌, if◌then◌else◌, length, take, drop,
}

abbrev pub Bytes : Type 0
Bytes = List ℕ

abbrev pub IsByte : ℕ → Type 0
IsByte b = b < 256

-- Python's integers, where the source counts below zero. `negsuc n` is -(n + 1).
pub data ℤ : Type 0 where
  pos : ℕ → ℤ
  negsuc : ℕ → ℤ

-- a - b
abbrev pub sub_ℕ : ℕ → ℕ → ℤ
sub_ℕ a b = if ltb a b then negsuc (b - a - 1) else pos (a - b)

infixl 65 ◌+ℤ◌
abbrev pub ◌+ℤ◌ : ℤ → ℤ → ℤ
pos a +ℤ pos b = pos (a + b)
pos a +ℤ negsuc b = sub_ℕ a (suc b)
negsuc a +ℤ pos b = sub_ℕ b (suc a)
negsuc a +ℤ negsuc b = negsuc (suc (a + b))

infixl 65 ◌-ℤ◌
abbrev pub ◌-ℤ◌ : ℤ → ℤ → ℤ
pos a -ℤ pos b = sub_ℕ a b
pos a -ℤ negsuc b = pos (a + suc b)
negsuc a -ℤ pos b = negsuc (a + b)
negsuc a -ℤ negsuc b = sub_ℕ b a

-- An index into a sequence of length `n`: a negative one counts from the end.
abbrev pub index : ℕ → ℤ → ℕ
index n (pos i) = i
index n (negsuc k) = n - suc k

-- `buffer[i:]` and `buffer[i:j]`
abbrev pub slice_from : Bytes → ℤ → Bytes
slice_from b i = drop (index (length b) i) b

abbrev pub slice : Bytes → ℤ → ℤ → Bytes
slice b i j = take (index (length b) j - index (length b) i) (slice_from b i)

-- `n` bytes of a number, the highest first, and back.
unfoldable pub be : ℕ → ℕ → Bytes
be zero v = []
be (suc n) v = (v / 256 ^ n) ∷ be n (v % 256 ^ n)

unfoldable pub un_be : Bytes → ℕ
un_be [] = 0
un_be (b ∷ bs) = b * 256 ^ length bs + un_be bs

-- `struct.pack` of one unsigned field of `n` bytes: `B`, `>H`, `>I`, `>Q` for 1, 2, 4, 8.
unfoldable pub pack : ℕ → ℕ → Result Bytes
pack n v = if ltb v (256 ^ n) then ok (be n v) else err struct_error

-- The first `n` bytes, if there are so many.
unfoldable pub take_exact : ℕ → Bytes → Option Bytes
take_exact zero b = some []
take_exact (suc n) [] = none
take_exact (suc n) (x ∷ b) = elim (take_exact n b) [ none ↦ none | some c ↦ some (x ∷ c) ]

unfoldable pub unpack_front : ℕ → Bytes → Result ℕ
unpack_front n b = elim (take_exact n b) [ none ↦ err struct_error | some c ↦ ok (un_be c) ]

-- `struct.unpack_from` of one such field at an offset.
abbrev pub unpack_from : ℕ → Bytes → ℤ → Result ℕ
unpack_from n b (pos i) = unpack_front n (drop i b)
unpack_from n b (negsuc k) =
    if ltb k (length b) then unpack_front n (drop (length b - suc k) b) else err struct_error

-- `struct.unpack`, which wants exactly `n` bytes.
unfoldable pub unpack : ℕ → Bytes → Result ℕ
unpack n b = if length b == n then ok (un_be b) else err struct_error
