-- ===== src/StreamControl.antt =====
-- rsocket/stream_control.py: stream ids and the handlers of the open streams. `_streams` is an
-- association list in the order of insertion. Handlers are objects of other modules: what they do
-- when they receive a frame or are disposed of is a parameter, a change of the whole state.
pub mod Allocation
pub mod Registry
pub mod Stopping
use rsocket_py.Prelude.{
  ℕ, zero, suc, ◌+◌, ◌-◌, ◌*◌, ◌<◌, bit_and, ◌≡◌, Bool, true, false, ◌||◌, Option, none, some, List,
  [], ◌∷◌, ErrorCode, Result, ok, err, stream_allocation_failure, stream_id_in_use, runtime_error,
  ltb, ◌==◌, if◌then◌else◌,
}
use rsocket_py.Prelude.Actions.{Act, continue, ◌>>◌, return, when}
use rsocket_py.Bytes.{Bytes}
use rsocket_py.Frame.Codes.{connection_stream_id}
use rsocket_py.Frame.Slots.{Header, Body, Frame, init}

abbrev pub max_stream_id : ℕ
max_stream_id = 0x7fff_ffff

pub record StreamControl {ℓ} (H : Type ℓ) : Type ℓ where
  pub first_stream_id : ℕ
  pub current_stream_id : ℕ
  pub streams : List (ℕ × H)
  pub maximum_stream_id : ℕ

-- `__init__`
abbrev pub stream_control {ℓ} : {H : Type ℓ} → ℕ → StreamControl H
stream_control first = record {
  first_stream_id = first;
  current_stream_id = first;
  streams = [];
  maximum_stream_id = max_stream_id;
}

module _ {ℓ} {H : Type ℓ} where
  unfoldable pub lookup : ℕ → List (ℕ × H) → Option H
  lookup id [] = none
  lookup id ((k, h) ∷ streams) = if k == id then some h else lookup id streams

  unfoldable pub insert : ℕ → H → List (ℕ × H) → List (ℕ × H)
  insert id h [] = (id, h) ∷ []
  insert id h ((k, v) ∷ streams) =
      let rest = insert id h streams in if k == id then (k, h) ∷ streams else (k, v) ∷ rest

  unfoldable pub remove : ℕ → List (ℕ × H) → List (ℕ × H)
  remove id [] = []
  remove id ((k, v) ∷ streams) =
      let rest = remove id streams in if k == id then rest else (k, v) ∷ rest

  -- `stream_id in self._streams`
  abbrev pub is_there : Option H → Bool
  is_there none = false
  is_there (some h) = true

  abbrev pub in_use : ℕ → StreamControl H → Bool
  in_use id s = is_there (lookup id s.streams)

  unfoldable pub increment_stream_id : StreamControl H → StreamControl H
  increment_stream_id s = record s {
    current_stream_id = bit_and (s.current_stream_id + 2) s.maximum_stream_id;
  }

  -- The loop of `allocate_stream`; `none` is out of rounds. The test of the attempts is on a
  -- fraction, so it is written without the division.
  unfoldable pub allocate_loop : ℕ → ℕ → StreamControl H → Option (Result (StreamControl H × ℕ))
  allocate_loop zero attempt_counter s = none
  allocate_loop (suc rounds) attempt_counter s =
      let rest = allocate_loop rounds (attempt_counter + 1) (increment_stream_id s) in
      if (s.current_stream_id == connection_stream_id) || in_use s.current_stream_id s
      then (if ltb s.maximum_stream_id (2 * attempt_counter)
          then some (err stream_allocation_failure)
          else rest)
      else some (ok (s, s.current_stream_id))

  unfoldable pub allocate_stream : ℕ → StreamControl H → Option (Result (StreamControl H × ℕ))
  allocate_stream rounds s = allocate_loop rounds 0 s

  unfoldable pub finish_stream : ℕ → StreamControl H → StreamControl H
  finish_stream id s = record s { streams = remove id s.streams }

  unfoldable pub register_stream : ℕ → H → StreamControl H → Result (StreamControl H)
  register_stream id h s =
      if id == connection_stream_id
      then err runtime_error
      else if ltb s.maximum_stream_id id
      then err runtime_error
      else ok (record s { streams = insert id h s.streams })

  unfoldable pub assert_stream_id_available : ℕ → StreamControl H → Result (Unit {0})
  assert_stream_id_available id s = if in_use id s then err (stream_id_in_use id) else ok tt

module _ {ℓ κ} {H : Type ℓ} {W : Type κ} where
  unfoldable pub finish : ℕ → Act (StreamControl H × W) (Unit {0})
  finish id (s, w) = ((finish_stream id s, w), ok tt)

-- The frame that stops a requester.
abbrev pub stop_frame : ℕ → ErrorCode → Bytes → Frame
stop_frame id code data_bytes = record (init (Body.error code)) {
  header = record (init (Body.error code)).header { stream_id = id };
  data_bytes = some data_bytes;
}

-- The handlers' part of the state is `W`; what they do may raise.
module _ {ℓ κ} {H : Type ℓ} {W : Type κ}
    (frame_received : H → Frame → Act (StreamControl H × W) (Unit {0}))
    (dispose : H → Act (StreamControl H × W) (Unit {0}))
    (is_requester is_disposable : H → Bool) where
  -- Whether there was a handler.
  unfoldable pub handle_stream : Frame → Act (StreamControl H × W) Bool
  handle_stream f state = elim (lookup f.stream_id state.0.streams) [
    | none ↦ (state, ok false)
    | some h ↦ continue (frame_received h f state) (λ _. return true)
  ]

  unfoldable pub stop_stream : ErrorCode → Bytes → ℕ → H → Act (StreamControl H × W) (Unit {0})
  stop_stream code data_bytes id h =
      when (is_requester h) (frame_received h (stop_frame id code data_bytes))
      >> when (is_disposable h) (dispose h)
      >> finish id

  -- The loop over a copy of the items.
  unfoldable pub stop_each : ErrorCode → Bytes → List (ℕ × H) → Act (StreamControl H × W) (Unit {0})
  stop_each code data_bytes [] = return tt
  stop_each code data_bytes ((id, h) ∷ items) =
      stop_stream code data_bytes id h >> stop_each code data_bytes items

  unfoldable pub stop_all_streams : ErrorCode → Bytes → Act (StreamControl H × W) (Unit {0})
  stop_all_streams code data_bytes state = stop_each code data_bytes state.0.streams state
