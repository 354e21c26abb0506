-- ===== src/Lease.antt =====
-- rsocket/lease.py: leases, which allow a number of requests for a time. A time is a number of
-- microseconds, and the clock that `datetime.now()` reads is an argument.
pub mod Grants
use rsocket_py.Prelude.{
  ℕ, suc, ◌+◌, ◌-◌, ◌^◌, Bool, true, false, Option, none, some, List, [], ◌∷◌, leb, ltb,
  if◌then◌else◌,
}
use rsocket_py.DatetimeHelpers.{to_milliseconds}
use rsocket_py.Frame.Slots.{Header, Body, Frame, init}

abbrev pub max_31_bit : ℕ
max_31_bit = 2 ^ 31 - 1

pub record DefinedLease : Type 0 where
  pub maximum_request_count : ℕ
  pub maximum_lease_time : ℕ
  pub lease_created_at : ℕ
  pub request_counter : ℕ

-- The classes of `Lease`.
pub data Lease : Type 0 where
  null_lease : Lease
  defined_lease : DefinedLease → Lease

-- `DefinedLease.__init__` at a time.
abbrev pub new_defined_lease : ℕ → ℕ → ℕ → DefinedLease
new_defined_lease now count time = record {
  maximum_request_count = count;
  maximum_lease_time = time;
  lease_created_at = now;
  request_counter = 0;
}

-- `DefinedLease._is_request_allowed`: the counter moves with each request in time.
unfoldable pub is_defined_request_allowed : ℕ → DefinedLease → DefinedLease × Bool
is_defined_request_allowed now l =
    if leb (l.lease_created_at + l.maximum_lease_time) now
    then (l, false)
    else let l' = record l { request_counter = l.request_counter + 1 } in
      if ltb l.maximum_request_count (l.request_counter + 1) then (l', false) else (l', true)

unfoldable pub is_request_allowed : ℕ → Lease → Lease × Bool
is_request_allowed now null_lease = (null_lease, true)
is_request_allowed now (defined_lease l) =
    let answer = is_defined_request_allowed now l in (defined_lease answer.0, answer.1)

-- A new `LeaseFrame` with its two numbers.
abbrev pub lease_frame : ℕ → ℕ → Frame
lease_frame time_to_live number_of_requests =
    record (init (Body.lease time_to_live number_of_requests)) { metadata_only = true }

unfoldable pub to_frame : Lease → Frame
to_frame null_lease = lease_frame max_31_bit max_31_bit
to_frame (defined_lease l) =
    lease_frame (to_milliseconds l.maximum_lease_time) l.maximum_request_count
