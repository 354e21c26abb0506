-- ===== src/Prelude/Bits.antt =====
-- Masks as arithmetic: `x & (2 ^ k - 1)` at every width, and bytes by tables of all their values.
use Prim.Native.Nat.{
  ℕ, zero, suc, ◌+◌, ◌-◌, ◌*◌, ◌/◌, ◌%◌, ◌^◌, ◌≤◌, ◌<◌, min, bit_and, digits, bit_and-bitwise,
}
use mathlib.Core.Path.{◌≡◌, refl, ap, ◌∙◌}
use mathlib.Core.Bool.{Bool, true, ◌&&◌}
use native.Mathlib.Nat.{
  pow-suc, one-le-pow, div-add-mod', mod-lt, mod-eq_of_lt, mul-add-mod_self_right,
}
use native.Mathlib.Omega.{arith}

-- The digits of `bit_and`, with the number of digits that are looked at in the last place.
low_digits : ℕ → ℕ → ℕ → ℕ
low_digits x mask count = digits (λ rest. zero) min count x mask

-- A number has no more digits than its value, so larger counts agree.
more_digits :
    (x mask count other : ℕ)
    → x ≤ count
    → x ≤ other
    → low_digits x mask count ≡ low_digits x mask other
unfolding low_digits
more_digits (suc x) mask zero other room _ = absurd (omega arith)
more_digits (suc x) mask (suc count) zero _ room = absurd (omega arith)
more_digits (suc x) mask (suc count) (suc other) room room' =
    let half = more_digits (suc x / 2) (mask / 2) count other (omega arith) (omega arith) in
    omega (arith, half)
more_digits zero mask zero zero _ _ = refl
more_digits zero mask (suc count) zero _ _ = refl
more_digits zero mask zero (suc other) _ _ = refl
more_digits zero mask (suc count) (suc other) _ _ = refl

-- The law for the lowest digit.
lowest_digit :
    (x mask : ℕ) → bit_and x mask ≡ min (x % 2) (mask % 2) + 2 * bit_and (x / 2) (mask / 2)
unfolding low_digits
lowest_digit zero mask = omega (arith, bit_and-bitwise 0 mask, bit_and-bitwise 0 (mask / 2))
lowest_digit (suc x) mask =
    let half = suc x / 2 in
    let same = more_digits half (mask / 2) x half (omega arith) (omega arith) in
    omega (arith, same, bit_and-bitwise half (mask / 2), bit_and-bitwise (suc x) mask)

nothing_masked : (bound x : ℕ) → x ≤ bound → bit_and x 0 ≡ 0
nothing_masked bound zero _ = refl
nothing_masked (suc bound) (suc x) room =
    let half = nothing_masked bound (suc x / 2) (omega arith) in
    omega (arith, half, lowest_digit (suc x) 0)
nothing_masked zero (suc x) room = absurd (omega arith)

half_mask : (k : ℕ) → (2 ^ suc k - 1) / 2 ≡ 2 ^ k - 1
half_mask k = omega (arith, pow-suc 2 k, one-le-pow k 2)

odd_mask : (k : ℕ) → (2 ^ suc k - 1) % 2 ≡ 1
odd_mask k = omega (arith, pow-suc 2 k, one-le-pow k 2)

-- Halving first and cutting at `k` bits is cutting at one bit more.
mod_digit : (k a : ℕ) → a % 2 ^ suc k ≡ a / 2 % 2 ^ k * 2 + a % 2
mod_digit k a =
    ap (λ (t : ℕ). t % 2 ^ suc k) parts
    ∙ mul-add-mod_self_right high (2 ^ suc k) low
    ∙ mod-eq_of_lt fits
  where
    high : ℕ
    high = a / 2 / 2 ^ k

    low : ℕ
    low = a / 2 % 2 ^ k * 2 + a % 2

    parts : a ≡ high * 2 ^ suc k + low
    parts =
        omega (arith, div-add-mod' (a / 2) (2 ^ k), ap (λ (t : ℕ). a / 2 / 2 ^ k * t) (pow-suc 2 k))

    fits : low < 2 ^ suc k
    fits = omega (arith, pow-suc 2 k, mod-lt (a / 2) (one-le-pow k 2 (omega arith)))

-- A mask of `k` ones keeps the `k` low bits.
pub bit_and_mask : (k a : ℕ) → bit_and a (2 ^ k - 1) ≡ a % 2 ^ k
bit_and_mask zero a = omega (arith, nothing_masked a a (omega arith))
bit_and_mask (suc k) a = omega (
  arith,
  lowest_digit a (2 ^ suc k - 1),
  ap (λ (m : ℕ). bit_and (a / 2) m) (half_mask k),
  bit_and_mask k (a / 2),
  odd_mask k,
  mod_digit k a,
)

-- A test that passes for every number below a bound, found by running it.
unfoldable pub all_below : ℕ → (ℕ → Bool) → Bool
all_below zero test = true
all_below (suc bound) test = all_below bound test && test bound

pub all_below_sound :
    (bound : ℕ) (test : ℕ → Bool) (x : ℕ) → x < bound → all_below bound test ≡ true → test x ≡ true
unfolding all_below
all_below_sound zero test x room passed = absurd (omega arith)
all_below_sound (suc bound) test x room passed = ground (arith, all_below_sound bound test x)
