-- ===== src/Bytes/Utf8.antt =====
-- `bytes.decode()`: which byte strings are UTF-8.
use rsocket_py.Prelude.{
  ℕ, zero, suc, Bool, true, false, ◌&&◌, Option, none, some, [], ◌∷◌, ltb, leb, if◌then◌else◌,
}
use rsocket_py.Bytes.Defs.{Bytes}

-- Of a first byte: how many bytes follow, and the range of the next one.
abbrev lead : ℕ → Option (ℕ × ℕ × ℕ)
lead x =
    if ltb x 128
    then some (0, 128, 191)
    else if ltb x 194
    then none
    else if ltb x 224
    then some (1, 128, 191)
    else if ltb x 225
    then some (2, 160, 191)
    else if ltb x 237
    then some (2, 128, 191)
    else if ltb x 238
    then some (2, 128, 159)
    else if ltb x 240
    then some (2, 128, 191)
    else if ltb x 241
    then some (3, 144, 191)
    else if ltb x 244
    then some (3, 128, 191)
    else if ltb x 245
    then some (3, 128, 143)
    else none

-- With so many bytes of a character to come, the next one in a range.
unfoldable pub continues_utf8 : ℕ → ℕ → ℕ → Bytes → Bool
continues_utf8 zero low high [] = true
continues_utf8 (suc k) low high [] = false
continues_utf8 (suc k) low high (x ∷ b) = leb low x && leb x high && continues_utf8 k 128 191 b
continues_utf8 zero low high (x ∷ b) = elim (lead x) [
  | none ↦ false
  | some (k, low', high') ↦ continues_utf8 k low' high' b
]

unfoldable pub is_utf8 : Bytes → Bool
is_utf8 b = continues_utf8 0 128 191 b
