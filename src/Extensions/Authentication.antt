-- ===== src/Extensions/Authentication.antt =====
-- rsocket/extensions/authentication.py
use rsocket_py.Prelude.{
  ℕ, ◌+◌, ◌^◌, ◌<◌, ◌≡◌, ap, ◌∷◌, ◌++◌, arith, Result, ok, ◌>>=◌, length, take, drop,
  take-append_length, drop-append_length, drop-drop,
}
use rsocket_py.Bytes.{Bytes, be, un_be, pack, unpack, pack-eq_ok, take-be, drop-be}

pub record AuthenticationSimple : Type 0 where
  pub username : Bytes
  pub password : Bytes

-- The two low bytes of the length, the user name, the password.
unfoldable pub serialize_simple : AuthenticationSimple → Result Bytes
serialize_simple a = do
  size ← pack 4 (length a.username)
  ok (drop 2 size ++ (a.username ++ a.password))

unfoldable pub parse_simple : Bytes → Result AuthenticationSimple
parse_simple buffer = do
  n ← unpack 4 (0 ∷ 0 ∷ take 2 buffer)
  ok (record { username = take n (drop 2 buffer); password = drop (2 + n) buffer })

-- A bearer token is its own serialization.
abbrev pub AuthenticationBearer : Type 0
AuthenticationBearer = Bytes

abbrev pub serialize_bearer : AuthenticationBearer → Bytes
serialize_bearer token = token

abbrev pub parse_bearer : Bytes → AuthenticationBearer
parse_bearer buffer = buffer

drop-be_two : (n : ℕ) → n < 2 ^ 16 → drop 2 (be 4 n) ≡ be 2 n
unfolding be
drop-be_two n h = ap (be 2) (omega arith)

unpack_two : (n : ℕ) → n < 2 ^ 16 → unpack 4 (0 ∷ 0 ∷ be 2 n) ≡ ok n
unfolding unpack un_be
unpack_two n h = unfold be in ap ok (omega arith)

-- A user name of less than 2 ^ 16 bytes and any password are written and read back.
pub parse_simple-serialize_simple :
    (a : AuthenticationSimple)
    → length a.username < 2 ^ 16
    → (b : Bytes) × (serialize_simple a ≡ ok b) × (parse_simple b ≡ ok a)
unfolding serialize_simple parse_simple
parse_simple-serialize_simple a h =
    let u = a.username in
    let tail = u ++ a.password in
    (
      be 2 (length u) ++ tail,
      rw (pack-eq_ok 4 (length u) (omega arith))
          (ap (λ (t : Bytes). ok (t ++ tail)) (drop-be_two (length u) h)),
      rw (
        take-be 2 (length u) tail,
        unpack_two (length u) h,
        ← drop-drop 2 (length u) (be 2 (length u) ++ tail),
        drop-be 2 (length u) tail,
        take-append_length u a.password,
        drop-append_length u a.password,
      ),
    )
