-- ===== src/Connection.antt =====
-- rsocket/rsocket_base.py: one side of a connection. `Socket` has the slots of `RSocketBase` but
-- the streams, which are in `StreamControl`; `application` is the state of code outside the library.
-- A time is a number of microseconds: the reading `i` of the clock is `clock i`, an argument.
pub mod Sending
pub mod Requests
pub mod LeaseOrder
pub mod Sender
pub mod Receiving
pub mod Receiver
pub mod Quiet
pub mod Survival
pub mod Refusals
pub mod SetupFirst
pub mod Requesting
use rsocket_py.Prelude.{
  ℕ, suc, ◌*◌, Bool, true, false, ◌&&◌, Option, none, some, List, [], ◌∷◌, ◌++◌, Result, ok, err,
  ltb, leb, if◌then◌else◌, length, rsocket_error, queue_full,
}
use rsocket_py.Frame.Slots.{Body, Frame}
use rsocket_py.FrameFragmenter.{Fragment}
use rsocket_py.FrameFragmentCache.{Cache}
use rsocket_py.StreamControl.{StreamControl, stream_control}
use rsocket_py.Lease.{max_31_bit, Lease, null_lease, defined_lease, new_defined_lease}

-- A frame in the send queue, with its slot `fragment_generator`.
pub record Source : Type 0 where
  pub frame : Frame
  pub generator : Option (List Fragment)

abbrev pub source : Frame → Source
source f = record { frame = f; generator = none }

pub record Socket {ℓ} (A : Type ℓ) : Type ℓ where
  pub send_queue : List Source
  pub request_queue : List Frame
  pub request_queue_size : ℕ
  pub honor_lease : Bool
  pub has_lease_publisher : Bool
  pub requester_lease : Lease
  pub responder_lease : Lease
  pub frame_fragment_cache : Cache
  pub fragment_size_bytes : Option ℕ
  pub is_closing : Bool
  pub clock_readings : ℕ
  pub application : A

-- A socket with its streams; `H` is the type of stream handlers.
abbrev pub State {ℓ κ} : Type ℓ → Type κ → Type (ℓ ⊔ κ)
State H A = StreamControl H × Socket A

unfoldable pub assert_valid_fragment_size : Option ℕ → Result (Unit {0})
assert_valid_fragment_size none = ok tt
assert_valid_fragment_size (some size) = if ltb size 64 then err rsocket_error else ok tt

-- The lease that a socket starts with, at a time: `DefinedLease` without requests and with the default
-- lease time, or the one that allows everything.
abbrev pub initial_lease : Bool → ℕ → Lease
initial_lease honor now =
    if honor then defined_lease (new_defined_lease now 0 (1000 * max_31_bit)) else null_lease

-- `_reset_internals`; the first stream id is 1 for a client and 2 for a server.
unfoldable pub reset_internals {ℓ κ} :
    {H : Type ℓ} {A : Type κ} → (ℕ → ℕ) → ℕ → State H A → State H A
reset_internals clock first_stream_id (streams, s) = (
  stream_control first_stream_id,
  record s {
    frame_fragment_cache = λ id. none;
    send_queue = [];
    request_queue = [];
    requester_lease = initial_lease s.honor_lease (clock s.clock_readings);
    responder_lease = null_lease;
    is_closing = false;
    clock_readings = suc s.clock_readings;
  },
)

abbrev pub is_initiate_request : Body → Bool
is_initiate_request Body.request_response = true
is_initiate_request (Body.request_stream n) = true
is_initiate_request (Body.request_channel n) = true
is_initiate_request Body.request_fnf = true
is_initiate_request b = false

-- `asyncio.Queue.full()`: a size of zero is no bound.
abbrev pub is_full {ℓ} : {A : Type ℓ} → Socket A → Bool
is_full s = ltb 0 s.request_queue_size && leb s.request_queue_size (length s.request_queue)
