-- ===== src/Tests/Streams.antt =====
-- Fragments, stream ids, leases and built frames on small inputs.
use Prim.Native.Nat.{min}
use rsocket_py.Prelude.{
  ℕ, ◌+◌, ◌*◌, ◌%◌, ◌≤◌, ◌<◌, ◌≡◌, ◌≢◌, refl, true, false, none, some, List, [], ◌∷◌, map, arith,
  ErrorCode, ok, err, stream_id_in_use, length, All,
}
use rsocket_py.Prelude.Actions.{Act}
use rsocket_py.DatetimeHelpers.{to_milliseconds, to_milliseconds_whole}
use rsocket_py.Frame.Slots.{Body, Frame, init}
use rsocket_py.Frame.Fragmenting.{new_frame_fragment}
use rsocket_py.FrameFragmenter.{Fragment, data_to_fragments_if_required}
use rsocket_py.FrameFragmenter.Fragments.{AreFragments, room_of}
use rsocket_py.FrameFragmentCache.{append_all}
use rsocket_py.FrameFragmentCache.WholeFrame.{Rejoins, append_all-data_to_fragments_if_required}
use rsocket_py.StreamControl.{
  StreamControl, stream_control, lookup, in_use, register_stream, finish_stream,
  assert_stream_id_available, allocate_stream, stop_all_streams,
}
use rsocket_py.StreamControl.Allocation.{IsAllocated, allocate_stream-IsAllocated}
use rsocket_py.StreamControl.Registry.{register_stream-finish_stream}
use rsocket_py.StreamControl.Stopping.{stop_all_streams_frees}
use rsocket_py.Lease.{new_defined_lease}
use rsocket_py.Lease.Grants.{granted, granted_lem}
use rsocket_py.FrameBuilders.{Payload, to_setup_frame, to_metadata_push_frame, to_keepalive_frame}
use rsocket_py.FrameBuilders.Built.{Carries, connection_frames-Carries}

-- A payload of two metadata bytes and three data bytes on stream 3, in fragments of one byte.
abbrev answer : Frame
answer = record (init (Body.payload true)) {
  header = record (init (Body.payload true)).header { stream_id = 3 };
  metadata = some (1 ∷ 2 ∷ []);
  data_bytes = some (3 ∷ 4 ∷ 5 ∷ []);
  flags_complete = true;
}

append_all-data_to_fragments_if_required_example :
    (fs : List Fragment) × (data_to_fragments_if_required 9 answer.data_bytes answer.metadata 6
        (some 10)
        true
      ≡ some fs)
    × AreFragments (room_of 6 10 true) answer.metadata answer.data_bytes fs
    × Rejoins answer fs (λ i. none) (append_all (λ i. none) (map (new_frame_fragment answer) fs))
append_all-data_to_fragments_if_required_example =
    append_all-data_to_fragments_if_required answer 6 10 9 true (λ i. none) (omega arith)
      (omega arith) (omega arith) refl

-- A client with streams 1 and 3 open, whose next id is still 1.
abbrev client : StreamControl ℕ
client = record (stream_control 1) { streams = (1, 10) ∷ (3, 30) ∷ [] }

allocate_stream-IsAllocated_example : IsAllocated client (allocate_stream 9 client)
allocate_stream-IsAllocated_example =
    allocate_stream-IsAllocated 9 2 client refl (omega arith) (unfold lookup in refl) (omega arith)
      (omega arith)

register_stream-finish_stream_example :
    (s' : StreamControl ℕ) × (register_stream 5 50 client ≡ ok s')
    × (lookup 5 s'.streams ≡ some 50)
    × (assert_stream_id_available 5 s' ≡ err (stream_id_in_use 5))
    × (assert_stream_id_available 5 (finish_stream 5 s') ≡ ok tt)
    × ((other : ℕ)
        → other ≢ 5
        → (lookup other s'.streams ≡ lookup other client.streams)
          × (lookup other (finish_stream 5 s').streams ≡ lookup other client.streams))
register_stream-finish_stream_example =
    register_stream-finish_stream 5 50 client (λ e. absurd (omega arith)) (omega arith)

-- Handlers that count how often they are called.
abbrev counted : ℕ → Frame → Act (StreamControl ℕ × ℕ) (Unit {0})
counted h f (s, n) = ((s, n + h), ok tt)

abbrev dropped : ℕ → Act (StreamControl ℕ × ℕ) (Unit {0})
dropped h (s, n) = ((s, n + 1), ok tt)

stop_all_streams_frees_example :
    let r =
      stop_all_streams counted dropped (λ h. true) (λ h. true) ErrorCode.canceled [] (client, 0) in
    (r.1 ≡ ok tt) × (in_use 3 r.0.0 ≡ false)
stop_all_streams_frees_example =
    stop_all_streams_frees counted dropped (λ h. true) (λ h. true) (λ h f s. (_, refl, λ id e. e))
      (λ h s. (_, refl, λ id e. e)) ErrorCode.canceled [] (client, 0) 3

abbrev asked : List ℕ
asked = 5 ∷ 6 ∷ 7 ∷ []

granted_lem_example :
    (granted asked (new_defined_lease 0 2 100) ≤ 2)
    × (All (λ now. now < 0 + 100) asked
        → granted asked (new_defined_lease 0 2 100) ≡ min (length asked) 2)
granted_lem_example = granted_lem asked 0 2 100

to_milliseconds_whole_example : to_milliseconds (1000 * 500) ≡ 500 + 500 % 1000
to_milliseconds_whole_example = to_milliseconds_whole 500

abbrev small_payload : Payload
small_payload = record { data_bytes = some (1 ∷ []); metadata = none }

connection_frames-Carries_example :
    Carries
      (Body.setup (record {
        major_version = 1;
        minor_version = 0;
        keep_alive_milliseconds = to_milliseconds (1000 * 500);
        max_lifetime_milliseconds = to_milliseconds (1000 * 600);
        token = none;
        metadata_encoding = 2 ∷ [];
        data_encoding = 1 ∷ [];
        flags_lease = true;
        flags_resume = false;
      }))
      0
      []
      (1 ∷ [])
      false
      (to_setup_frame (some small_payload) (1 ∷ []) (2 ∷ []) (1000 * 500) (1000 * 600) true)
    × Carries Body.metadata_push 0 (1 ∷ []) [] false (to_metadata_push_frame (1 ∷ []))
    × Carries (Body.keep_alive true 0) 0 [] [] false (to_keepalive_frame none)
connection_frames-Carries_example =
    connection_frames-Carries (some small_payload) (1 ∷ []) (2 ∷ []) (1000 * 500) (1000 * 600) true
      (1 ∷ []) none (rw (to_milliseconds_whole 500) (omega arith))
      (rw (to_milliseconds_whole 600) (omega arith)) (omega arith) (omega arith) (omega arith)
      (omega arith)
