-- ===== src/Frame/ReadSetup.antt =====
-- The same for the two classes with fields of variable length: `SetupFrame` and `ResumeFrame`.
use rsocket_py.Prelude.{
  ℕ, ◌+◌, ◌^◌, ◌<◌, ◌≡◌, refl, sym, ◌∙◌, Bool, true, false, Option, none, some, [], ◌++◌, arith, ok,
  length, drop, append_assoc,
}
use rsocket_py.Bytes.{Bytes, pos, be, length-be, slice_at, drop_past}
use rsocket_py.FrameHelpers.Laws.{unpack_position-be, unpack_string_at}
use rsocket_py.Frame.Slots.{Flags, Header, SetupSlots, ResumeSlots, Body, truthy}
use rsocket_py.Frame.Parse.{parse_header, parse_token, parse_setup, parse_resume}
use rsocket_py.Frame.Contents.{metadata_field}
use rsocket_py.Frame.Sendable.{TokenFits, Fits, token_bytes, string_bytes, middle_of}
use rsocket_py.Frame.Read.{seen, object, unpack_at, past, read_payload}

parse_token_at :
    (buffer : Bytes) (i : ℕ) (r : Bool) (t : Option (ℕ × Bytes)) (rest : Bytes)
    → TokenFits r t
    → drop i buffer ≡ token_bytes t ++ rest
    → (j : ℕ) × (parse_token r buffer (pos i) ≡ ok (t, pos j)) × (drop j buffer ≡ rest)
parse_token_at buffer i false none rest h at = (i, refl, at)
parse_token_at buffer i false (some p) rest h at = absurd h
parse_token_at buffer i true none rest h at = absurd h
parse_token_at buffer i true (some (n, token)) rest (size, small) at = (
  i + 2 + n,
  rw (unpack_at buffer i 2 n _ small whole, slice_at buffer (i + 2) token rest behind n size),
  drop_past buffer (i + 2) token rest behind n size,
)
  where
    whole : drop i buffer ≡ be 2 n ++ (token ++ rest)
    whole = at ∙ append_assoc (be 2 n) token rest

    behind : drop (i + 2) buffer ≡ token ++ rest
    behind = past buffer i 2 n _ whole

behind_string :
    (buffer : Bytes) (i : ℕ) (s rest : Bytes)
    → drop i buffer ≡ string_bytes s ++ rest
    → drop (i + (length s + 1)) buffer ≡ rest
behind_string buffer i s rest at =
    drop_past buffer i (string_bytes s) rest at (length s + 1) (omega arith)

module _ (buffer : Bytes) (h₀ h : Header) (s : SetupSlots)
    (head : parse_header buffer (pos 0)
      ≡ ok (
        h,
        record {
          flags_follows_resume_respond = s.flags_resume;
          flags_complete_lease = s.flags_lease;
          flags_next = false;
        },
      ))
    (whole : h.length ≡ length buffer) (m d : Bytes) (fits : length m < 2 ^ 24)
    (flag : h.flags_metadata ≡ truthy (some m)) where
  pub setup-read :
      (b : Body)
      → Fits (Body.setup s)
      → drop 6 buffer ≡ middle_of (Body.setup s) ++ (metadata_field m ++ d)
      → parse_setup (object h₀ false b) buffer (pos 0)
        ≡ ok (seen h m d false false false (Body.setup s))
  unfolding parse_setup middle_of
  setup-read b (major, minor, keep_alive, max_lifetime, token, metadata, encoding) at =
      let at8 = past buffer 6 2 s.major_version _ at6 in
      let at10 = past buffer 8 2 s.minor_version _ at8 in
      let at14 = past buffer 10 4 s.keep_alive_milliseconds _ at10 in
      let at18 = past buffer 14 4 s.max_lifetime_milliseconds _ at14 in
      let (i, token_read, at_i) = parse_token_at buffer 18 s.flags_resume s.token _ token at18 in
      let at_j = behind_string buffer i s.metadata_encoding _ at_i in
      let j = i + (length s.metadata_encoding + 1) in
      let at_k = behind_string buffer j s.data_encoding _ at_j in
      rw
        (
          head,
          unpack_at buffer 6 2 s.major_version _ major at6,
          unpack_at buffer 8 2 s.minor_version _ minor at8,
          unpack_at buffer 10 4 s.keep_alive_milliseconds _ keep_alive at10,
          unpack_at buffer 14 4 s.max_lifetime_milliseconds _ max_lifetime at14,
          token_read,
          unpack_string_at buffer i s.metadata_encoding _ metadata at_i,
          unpack_string_at buffer j s.data_encoding _ encoding at_j,
        )
        (read_payload buffer h₀ h _ head whole m d fits flag (j + (length s.data_encoding + 1))
          (Body.setup s) false false at_k)
    where
      tail : Bytes
      tail = metadata_field m ++ d

      at6 :
          drop 6 buffer
          ≡ be 2 s.major_version
            ++ (be 2 s.minor_version
                ++ (be 4 s.keep_alive_milliseconds
                    ++ (be 4 s.max_lifetime_milliseconds
                        ++ (token_bytes s.token
                            ++ (string_bytes s.metadata_encoding
                                ++ (string_bytes s.data_encoding ++ tail))))))
      at6 = at ∙ simp append_assoc

module _ (buffer : Bytes) (h₀ h : Header) (w : Flags) (s : ResumeSlots)
    (head : parse_header buffer (pos 0) ≡ ok (h, w)) where
  pub resume-read :
      (b : Body)
      → Fits (Body.resume s)
      → drop 6 buffer ≡ middle_of (Body.resume s)
      → parse_resume (object h₀ false b) buffer (pos 0)
        ≡ ok (seen h [] [] false false false (Body.resume s))
  unfolding parse_resume middle_of
  resume-read b (major, minor, size, small, last, first) at =
      let token = s.resume_identification_token in
      let n = s.token_length in
      let at8 = past buffer 6 2 s.major_version _ at in
      let at10 = past buffer 8 2 s.minor_version _ at8 in
      let at12 = past buffer 10 2 n _ at10 in
      let at_i = drop_past buffer 12 token _ at12 n size in
      let at_j = past buffer (12 + n) 8 s.last_server_position _ at_i in
      rw (
        head,
        unpack_at buffer 6 2 s.major_version _ major at,
        unpack_at buffer 8 2 s.minor_version _ minor at8,
        unpack_at buffer 10 2 n _ small at10,
        slice_at buffer 12 token _ at12 n size,
        slice_at buffer (12 + n) (be 8 s.last_server_position) _ at_i 8
            (sym (length-be 8 s.last_server_position)),
        at_j,
        unpack_position-be s.last_server_position last,
        unpack_position-be s.first_client_position first,
      )
