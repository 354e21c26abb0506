-- ===== src/Bytes/Laws.antt =====
-- Packed numbers are read back, whatever follows them.
use rsocket_py.Prelude.{
  ℕ, zero, suc, ◌+◌, ◌-◌, ◌*◌, ◌/◌, ◌%◌, ◌^◌, ◌<◌, ◌≡◌, refl, ap, some, [], ◌∷◌, ◌++◌, ok, arith,
  lt→ltb, length, drop, take, drop-drop, take-append_length, drop-append_length, All,
}
use rsocket_py.Bytes.Defs.{
  slice, pos, Bytes, IsByte, be, un_be, pack, take_exact, unpack_front, unpack,
}
use native.Mathlib.Nat.{div-add-mod', mod-lt, pow-suc, one-le-pow, div-lt_iff_lt-mul}

pub length-be : (n v : ℕ) → length (be n v) ≡ n
unfolding be
length-be zero v = refl
length-be (suc n) v = ap suc (length-be n (v % 256 ^ n))

pub un_be-be : (n v : ℕ) → v < 256 ^ n → un_be (be n v) ≡ v
unfolding be un_be
un_be-be zero v h = omega arith
un_be-be (suc n) v h = omega (
  arith,
  div-add-mod' v (256 ^ n),
  ap (λ (k : ℕ). v / 256 ^ n * 256 ^ k) (length-be n (v % 256 ^ n)),
  un_be-be n (v % 256 ^ n) (mod-lt v (one-le-pow n 256 (omega arith))),
)

top_byte : (n v : ℕ) → v < 256 ^ suc n → v / 256 ^ n < 256
top_byte n v h =
    (div-lt_iff_lt-mul (one-le-pow n 256 (omega arith))).1 (omega (arith, pow-suc 256 n))

pub be-IsByte : (n v : ℕ) → v < 256 ^ n → All IsByte (be n v)
unfolding be
be-IsByte zero v h = tt
be-IsByte (suc n) v h =
    (top_byte n v h, be-IsByte n (v % 256 ^ n) (mod-lt v (one-le-pow n 256 (omega arith))))

pub take_exact-append : (xs ys : Bytes) → take_exact (length xs) (xs ++ ys) ≡ some xs
unfolding take_exact
take_exact-append [] ys = refl
take_exact-append (x ∷ xs) ys = rw (take_exact-append xs ys)

pub unpack_front-be :
    (n v : ℕ) (rest : Bytes) → v < 256 ^ n → unpack_front n (be n v ++ rest) ≡ ok v
unfolding unpack_front
unpack_front-be n v rest h = rw (front, unpack_front) (ap ok (un_be-be n v h))
  where
    front : take_exact n (be n v ++ rest) ≡ some (be n v)
    front = rw (length-be n v) at (take_exact-append (be n v) rest)

pub unpack-be : (n v : ℕ) → v < 256 ^ n → unpack n (be n v) ≡ ok v
unfolding unpack
unpack-be n v h = ground (arith, length-be n v, un_be-be n v)

pub pack-eq_ok : (n v : ℕ) → v < 256 ^ n → pack n v ≡ ok (be n v)
unfolding pack
pack-eq_ok n v h = rw (lt→ltb v (256 ^ n) h)

-- What packs is in range, and the bytes are those of `be`.
pub pack-inv : (n v : ℕ) (b : Bytes) → pack n v ≡ ok b → (v < 256 ^ n) × (b ≡ be n v)
unfolding pack
pack-inv n v b h = ground arith

-- Cutting a buffer whose bytes from `i` on are known.
module _ (buffer : Bytes) (i : ℕ) (xs rest : Bytes) (at : drop i buffer ≡ xs ++ rest) where
  pub drop_past : (n : ℕ) → n ≡ length xs → drop (i + n) buffer ≡ rest
  drop_past n e = rw (← drop-drop i n buffer, at, e) (drop-append_length xs rest)

  pub slice_at : (n : ℕ) → n ≡ length xs → slice buffer (pos i) (pos (i + n)) ≡ xs
  slice_at n e = rw (at, width, e) (take-append_length xs rest)
    where
      width : i + n - i ≡ n
      width = omega arith

pub take-be : (n v : ℕ) (rest : Bytes) → take n (be n v ++ rest) ≡ be n v
take-be n v rest = rw (length-be n v) at (take-append_length (be n v) rest)

pub drop-be : (n v : ℕ) (rest : Bytes) → drop n (be n v ++ rest) ≡ rest
drop-be n v rest = rw (length-be n v) at (drop-append_length (be n v) rest)
