-- ===== src/Frame/Read.antt =====
-- What the method `parse` of each class makes of a buffer whose bytes are known.
use native.Mathlib.Nat.{mod-eq_of_lt}
use rsocket_py.Prelude.{
  ℕ, ◌+◌, ◌^◌, ◌<◌, bit_and, ◌≡◌, refl, sym, ap, ◌∙◌, Bool, true, false, none, some, ErrorCode, [],
  ◌++◌, arith, ok, length, drop,
}
use rsocket_py.Prelude.Bits.{bit_and_mask}
use rsocket_py.Bytes.{Bytes, pos, be, unpack_front, unpack_front-be, length-be, slice_at, drop_past}
use rsocket_py.FrameHelpers.Laws.{unpack_position-be}
use rsocket_py.Frame.Codes.{code_value, error_code, mask_31_bits}
use rsocket_py.Frame.Slots.{Flags, Header, Body, Frame, truthy}
use rsocket_py.Frame.Parse.{
  parse_header, parse_payload, parse_error_frame, parse_lease, parse_keep_alive,
  parse_plain_request, parse_request_stream, parse_request_channel, parse_request_n, parse_cancel,
  parse_payload_frame, parse_metadata_push, parse_resume_ok,
}
use rsocket_py.Frame.Contents.{
  metadata_field, parse_data_at, parse_metadata_only_at, parse_payload_at,
}

-- A number of `n` bytes at an offset.
pub unpack_at :
    (buffer : Bytes) (i n v : ℕ) (rest : Bytes)
    → v < 256 ^ n
    → drop i buffer ≡ be n v ++ rest
    → unpack_front n (drop i buffer) ≡ ok v
unpack_at buffer i n v rest h at = rw at (unpack_front-be n v rest h)

-- What stands behind it.
pub past :
    (buffer : Bytes) (i n v : ℕ) (rest : Bytes)
    → drop i buffer ≡ be n v ++ rest
    → drop (i + n) buffer ≡ rest
past buffer i n v rest at = drop_past buffer i (be n v) rest at n (sym (length-be n v))

code_value_lt : (c : ErrorCode) → code_value c < 2 ^ 32
code_value_lt ErrorCode.invalid_setup = omega arith
code_value_lt _ = omega arith

error_code-code_value : (c : ErrorCode) → error_code (code_value c) ≡ ok c
unfolding error_code
error_code-code_value ErrorCode.invalid_setup = refl
error_code-code_value _ = refl

masked : (n : ℕ) → n < 2 ^ 31 → bit_and n mask_31_bits ≡ n
masked n h = bit_and_mask 31 n ∙ mod-eq_of_lt h

-- A frame as its class sees it: header, metadata, data, the two flags, `metadata_only`, the slots.
abbrev pub seen : Header → Bytes → Bytes → Bool → Bool → Bool → Body → Frame
seen h m d follows complete only b = record {
  header = h;
  prefix_length = 0;
  metadata = some m;
  data_bytes = some d;
  flags_follows = follows;
  flags_complete = complete;
  metadata_only = only;
  fragment_size_bytes = none;
  body = b;
}

-- A new object of a class, before `parse`.
abbrev pub object : Header → Bool → Body → Frame
object h₀ only b = seen h₀ [] [] false false only b

-- A buffer whose header is known.
module _ (buffer : Bytes) (h₀ h : Header) (w : Flags)
    (head : parse_header buffer (pos 0) ≡ ok (h, w)) (whole : h.length ≡ length buffer) where
  module _ (m d : Bytes) (fits : length m < 2 ^ 24)
      (flag : h.flags_metadata ≡ truthy (some m)) where
    pub read_payload :
        (i : ℕ) (b : Body) (follows complete : Bool)
        → drop i buffer ≡ metadata_field m ++ d
        → parse_payload (seen h [] [] follows complete false b) buffer (pos i)
          ≡ ok (seen h m d follows complete false b)
    read_payload i b follows complete at =
        parse_payload_at _ buffer i m d (record { empty = refl; flag = flag; whole = whole }) refl
          fits at

    pub payload_frame-read :
        (b : Body)
        → drop 6 buffer ≡ metadata_field m ++ d
        → parse_payload_frame (object h₀ false b) buffer (pos 0)
          ≡ ok (
              seen h m d w.flags_follows_resume_respond w.flags_complete_lease false
                (Body.payload w.flags_next))
    unfolding parse_payload_frame
    payload_frame-read b at = rw head (read_payload 6 _ _ _ at)

    pub plain_request-read :
        (b : Body)
        → drop 6 buffer ≡ metadata_field m ++ d
        → parse_plain_request (object h₀ false b) buffer (pos 0)
          ≡ ok (seen h m d w.flags_follows_resume_respond false false b)
    unfolding parse_plain_request
    plain_request-read b at = rw head (read_payload 6 _ _ _ at)

    pub request_stream-read :
        (b : Body) (n : ℕ)
        → n < 2 ^ 32
        → drop 6 buffer ≡ be 4 n ++ (metadata_field m ++ d)
        → parse_request_stream (object h₀ false b) buffer (pos 0)
          ≡ ok (seen h m d w.flags_follows_resume_respond false false (Body.request_stream n))
    unfolding parse_request_stream
    request_stream-read b n hn at =
        rw (head, unpack_at buffer 6 4 n _ hn at) (read_payload 10 _ _ _ (past buffer 6 4 n _ at))

    pub request_channel-read :
        (b : Body) (n : ℕ)
        → n < 2 ^ 32
        → drop 6 buffer ≡ be 4 n ++ (metadata_field m ++ d)
        → parse_request_channel (object h₀ false b) buffer (pos 0)
          ≡ ok (
              seen h m d w.flags_follows_resume_respond w.flags_complete_lease false
                (Body.request_channel n))
    unfolding parse_request_channel
    request_channel-read b n hn at =
        rw (head, unpack_at buffer 6 4 n _ hn at) (read_payload 10 _ _ _ (past buffer 6 4 n _ at))

  pub request_n-read :
      (b : Body) (n : ℕ) (rest : Bytes)
      → n < 2 ^ 32
      → drop 6 buffer ≡ be 4 n ++ rest
      → parse_request_n (object h₀ false b) buffer (pos 0)
        ≡ ok (seen h [] [] false false false (Body.request_n n))
  unfolding parse_request_n
  request_n-read b n rest hn at = rw (head, unpack_at buffer 6 4 n rest hn at)

  pub cancel-read :
      (b : Body)
      → parse_cancel (object h₀ false b) buffer (pos 0) ≡ ok (seen h [] [] false false false b)
  unfolding parse_cancel
  cancel-read b = rw head

  pub error-read :
      (b : Body) (c : ErrorCode) (d : Bytes)
      → drop 6 buffer ≡ be 4 (code_value c) ++ d
      → parse_error_frame (object h₀ false b) buffer (pos 0)
        ≡ ok (seen h [] d false false false (Body.error c))
  unfolding parse_error_frame
  error-read b c d at =
      rw (head, unpack_at buffer 6 4 (code_value c) d (code_value_lt c) at, error_code-code_value c)
        (ap ok (
          parse_data_at _ buffer 10 whole
          ∙ ap (λ (t : Bytes). seen h [] t false false false (Body.error c))
              (past buffer 6 4 (code_value c) d at)))

  pub keep_alive-read :
      (b : Body) (p : ℕ) (d : Bytes)
      → p < 2 ^ 63
      → drop 6 buffer ≡ be 8 p ++ d
      → parse_keep_alive (object h₀ false b) buffer (pos 0)
        ≡ ok (seen h [] d false false false (Body.keep_alive w.flags_follows_resume_respond p))
  unfolding parse_keep_alive
  keep_alive-read b p d hp at =
      rw (head, slice_at buffer 6 (be 8 p) d at 8 (sym (length-be 8 p)), unpack_position-be p hp)
        (ap ok (
          parse_data_at _ buffer 14 whole
          ∙ ap
              (λ (t : Bytes).
                seen h [] t false false false (Body.keep_alive w.flags_follows_resume_respond p))
              (past buffer 6 8 p d at)))

  pub resume_ok-read :
      (b : Body) (p : ℕ) (rest : Bytes)
      → p < 2 ^ 63
      → drop 6 buffer ≡ be 8 p ++ rest
      → parse_resume_ok (object h₀ false b) buffer (pos 0)
        ≡ ok (seen h [] [] false false false (Body.resume_ok p))
  unfolding parse_resume_ok
  resume_ok-read b p rest hp at =
      rw (head, slice_at buffer 6 (be 8 p) rest at 8 (sym (length-be 8 p)), unpack_position-be p hp)

  module _ (m : Bytes) (flag : h.flags_metadata ≡ truthy (some m)) where
    pub metadata_push-read :
        (b : Body)
        → drop 6 buffer ≡ m
        → parse_metadata_push (object h₀ true b) buffer (pos 0)
          ≡ ok (seen h m [] false false true b)
    unfolding parse_metadata_push
    metadata_push-read b at =
        let (n, read) =
          parse_metadata_only_at (seen h [] [] false false true b) buffer 6 m
            (record { empty = refl; flag = flag; whole = whole }) refl at in
        rw (head, read)

    pub lease-read :
        (b : Body) (t n : ℕ)
        → t < 2 ^ 31
        → n < 2 ^ 31
        → drop 6 buffer ≡ be 4 t ++ (be 4 n ++ m)
        → parse_lease (object h₀ true b) buffer (pos 0)
          ≡ ok (seen h m [] false false true (Body.lease t n))
    unfolding parse_lease
    lease-read b t n ht hn at =
        let next = past buffer 6 4 t _ at in
        let (k, read) =
          parse_metadata_only_at (seen h [] [] false false true (Body.lease t n)) buffer 14 m
            (record { empty = refl; flag = flag; whole = whole }) refl
            (past buffer 10 4 n m next) in
        rw (
          head,
          unpack_at buffer 6 4 t _ (omega arith) at,
          unpack_at buffer 10 4 n m (omega arith) next,
          masked t ht,
          masked n hn,
          read,
        )
