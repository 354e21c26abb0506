-- ===== src/Connection/LeaseOrder.antt =====
-- Requests that a lease holds back leave in the order in which they were made.
use rsocket_py.Prelude.{
  ℕ, ◌≤◌, ◌≡◌, refl, sym, ap, ◌∙◌, ◌⊎◌, inl, inr, Bool, true, false, List, [], ◌∷◌, ◌++◌,
  append_assoc, append-nil, arith, if◌then◌else◌, Bool-cases,
}
use rsocket_py.Frame.Slots.{Frame}
use rsocket_py.Lease.{
  Lease, null_lease, defined_lease, is_request_allowed, is_defined_request_allowed,
}
use rsocket_py.Connection.{Socket, is_initiate_request, is_full}
use rsocket_py.Connection.Sending.{
  send_frame, queue_request_frame, lease_allows, is_frame_allowed_to_send, sent_or_queued,
  send_request, send_waiting, handle_lease,
}
use rsocket_py.Connection.Requests.{initiating, requests_of, taken, moved, sent, queued}

refused_stays :
    (now later : ℕ) (l : Lease)
    → now ≤ later
    → (is_request_allowed now l).1 ≡ false
    → (is_request_allowed later (is_request_allowed now l).0).1 ≡ false
unfolding is_request_allowed is_defined_request_allowed
refused_stays now later null_lease le h = h
refused_stays now later (defined_lease l) le h = ground arith

-- What happens to the queues of requests and frames from the outside: a request is made, a lease
-- arrives, or a frame that is no request is sent.
pub data QueueEvent : Type 0 where
  request_made : Frame → QueueEvent
  lease_received : ℕ → ℕ → QueueEvent
  frame_made : (f : Frame) → is_initiate_request f.body ≡ false → QueueEvent

module _ {ℓ} {A : Type ℓ} (clock : ℕ → ℕ) where
  abbrev pub after_event : QueueEvent → Socket A → Socket A
  after_event (request_made f) s = (send_request clock f s).0
  after_event (lease_received time_to_live number) s = handle_lease clock time_to_live number s
  after_event (frame_made f e) s = send_frame f s

  abbrev pub accepted_by : QueueEvent → Socket A → List Frame
  accepted_by (request_made f) s = taken f (send_request clock f s).1
  accepted_by (lease_received time_to_live number) s = []
  accepted_by (frame_made f e) s = []

  abbrev pub after_events : List QueueEvent → Socket A → Socket A
  after_events [] s = s
  after_events (e ∷ es) s = after_events es (after_event e s)

  abbrev pub accepted_by_all : List QueueEvent → Socket A → List Frame
  accepted_by_all [] s = []
  accepted_by_all (e ∷ es) s = accepted_by e s ++ accepted_by_all es (after_event e s)

  -- The lease refuses whenever it is asked from now on.
  abbrev pub Refuses : Socket A → Type 0
  Refuses s =
      (r : ℕ) → s.clock_readings ≤ r → (is_request_allowed (clock r) s.requester_lease).1 ≡ false

  -- A request waits only while the lease refuses.
  abbrev pub IsOrderly : Socket A → Type 0
  IsOrderly s = (s.request_queue ≡ []) ⊎ ((s.honor_lease ≡ true) × Refuses s)

  module _ (clock_runs : (i j : ℕ) → i ≤ j → clock i ≤ clock j) where
    asked-Refuses :
        (s : Socket A) → (lease_allows clock s).1 ≡ false → Refuses (lease_allows clock s).0
    unfolding lease_allows
    asked-Refuses s h r le =
        refused_stays (clock s.clock_readings) (clock r) s.requester_lease
          (clock_runs s.clock_readings r (omega arith)) h

    -- What a lease leaves of the queue is orderly, and nothing is lost or overtaken.
    send_waiting_lem :
        (waiting : List Frame) (s : Socket A)
        → s.request_queue ≡ waiting
        → (waiting ≡ []) ⊎ (s.honor_lease ≡ true)
        → IsOrderly (send_waiting clock waiting s)
          × (requests_of (send_waiting clock waiting s) ≡ requests_of s)
    unfolding send_waiting send_frame lease_allows
    send_waiting_lem [] s e honor = (inl e, refl)
    send_waiting_lem (f ∷ waiting) s e (inl empty) = cc empty
    send_waiting_lem (f ∷ waiting) s e (inr honor) = elim (Bool-cases (lease_allows clock s).1) [
      | inl allowed ↦ rw allowed (
          let asked = (lease_allows clock s).0 in
          let next = send_frame f (record asked { request_queue = waiting }) in
          let (orderly, same) = send_waiting_lem waiting next refl (inr honor) in
          (orderly, same ∙ ap initiating (moved s f waiting e)))
      | inr refused ↦ rw refused (inr (honor, asked-Refuses s refused), refl)
    ]

    queued-Refuses :
        (f : Frame) (s : Socket A)
        → (s.honor_lease ≡ true) × Refuses s
        → let r = queue_request_frame f s in (r.0.honor_lease ≡ true) × Refuses r.0
    unfolding queue_request_frame
    queued-Refuses f s h = elim (Bool-cases (is_full s)) [
      | inl full ↦ rw full h
      | inr room ↦ rw room h
    ]

    -- The two ways of a request, with the answer of the lease.
    answered :
        (f : Frame) (s : Socket A) (b : Bool)
        → (b ≡ true → (s.request_queue ≡ []) ⊎ (is_initiate_request f.body ≡ false))
        → (b ≡ true → IsOrderly s)
        → (b ≡ false → (s.honor_lease ≡ true) × Refuses s)
        → let r = sent_or_queued clock f (s, b) in
          IsOrderly r.0 × (requests_of r.0 ≡ requests_of s ++ taken f r.1)
    unfolding send_frame
    answered f s true free orderly refuses = (orderly refl, sent f s (free refl))
    answered f s false free orderly refuses = (inr (queued-Refuses f s (refuses refl)), queued f s)

    -- The lease is only asked when it is honored, and Answers no while requests wait.
    asked_free :
        (s : Socket A) → IsOrderly s → (lease_allows clock s).1 ≡ true → s.request_queue ≡ []
    unfolding lease_allows
    asked_free s (inl e) allowed = e
    asked_free s (inr (honor, refuses)) allowed =
        cc (allowed, refuses s.clock_readings (omega arith))

    unleased : (s : Socket A) → IsOrderly s → s.honor_lease ≡ false → s.request_queue ≡ []
    unleased s (inl e) ignored = e
    unleased s (inr (honor, refuses)) ignored = cc (honor, ignored)

    still_orderly : (s : Socket A) → s.request_queue ≡ [] → IsOrderly (lease_allows clock s).0
    unfolding lease_allows
    still_orderly s e = inl e

    asked :
        (f : Frame) (s : Socket A)
        → s.honor_lease ≡ true
        → IsOrderly s
        → let r = sent_or_queued clock f (lease_allows clock s) in
          IsOrderly r.0 × (requests_of r.0 ≡ requests_of s ++ taken f r.1)
    unfolding lease_allows
    asked f s honor orderly =
        let (s', allowed) = lease_allows clock s in
        answered f s' allowed (λ e. inl (asked_free s orderly e))
          (λ e. still_orderly s (asked_free s orderly e)) (λ e. (honor, asked-Refuses s e))

    -- Whether leases are honored, and whether the frame is a request.
    decided :
        (f : Frame) (s : Socket A) (honored initiates : Bool)
        → s.honor_lease ≡ honored
        → is_initiate_request f.body ≡ initiates
        → IsOrderly s
        → let r = sent_or_queued clock f (
            if honored
            then (if initiates then lease_allows clock s else (s, true))
            else (s, true)) in
          IsOrderly r.0 × (requests_of r.0 ≡ requests_of s ++ taken f r.1)
    decided f s true true h i orderly = asked f s h orderly
    decided f s true false h i orderly = answered f s true (λ e. inr i) (λ e. orderly) (λ e. cc e)
    decided f s false b h i orderly =
        answered f s true (λ e. inl (unleased s orderly h)) (λ e. orderly) (λ e. cc e)

    request_lem :
        (f : Frame) (s : Socket A)
        → IsOrderly s
        → let r = send_request clock f s in
          IsOrderly r.0 × (requests_of r.0 ≡ requests_of s ++ taken f r.1)
    unfolding send_request is_frame_allowed_to_send
    request_lem f s orderly =
        decided f s s.honor_lease (is_initiate_request f.body) refl refl orderly

    -- A lease that arrives lets the first requests go and leaves the others in their order.
    lease_lem :
        (time_to_live number : ℕ) (s : Socket A)
        → IsOrderly s
        → let r = handle_lease clock time_to_live number s in
          IsOrderly r × (requests_of r ≡ requests_of s)
    unfolding handle_lease
    lease_lem time_to_live number s (inl e) = send_waiting_lem s.request_queue _ refl (inl e)
    lease_lem time_to_live number s (inr (honor, refuses)) =
        send_waiting_lem s.request_queue _ refl (inr honor)

    event_lem :
        (e : QueueEvent) (s : Socket A)
        → IsOrderly s
        → IsOrderly (after_event e s)
          × (requests_of (after_event e s) ≡ requests_of s ++ accepted_by e s)
    unfolding send_frame
    event_lem (request_made f) s orderly = request_lem f s orderly
    event_lem (lease_received time_to_live number) s orderly =
        let (still, same) = lease_lem time_to_live number s orderly in
        (still, same ∙ sym (append-nil (requests_of s)))
    event_lem (frame_made f control) s orderly = (
      orderly,
      sent f s (inr control) ∙ ap (λ (fs : List Frame). requests_of s ++ fs) (rw control refl),
    )

    -- When the clock does not run back, and requests wait only while the lease refuses: after
    -- any requests, leases and other frames to send, requests still wait only while the lease
    -- refuses, and the requests of the send queue and behind it those that wait are the ones of
    -- before, followed by those made since, in their order, but the ones that a full queue refused.
    pub after_events-requests_of :
        (es : List QueueEvent) (s : Socket A)
        → IsOrderly s
        → IsOrderly (after_events es s)
          × (requests_of (after_events es s) ≡ requests_of s ++ accepted_by_all es s)
    after_events-requests_of [] s orderly = (orderly, sym (append-nil (requests_of s)))
    after_events-requests_of (e ∷ es) s orderly =
        let (still, same) = event_lem e s orderly in
        let (end, all) = after_events-requests_of es (after_event e s) still in
        (
          end,
          all
              ∙ ap (λ (fs : List Frame). fs ++ accepted_by_all es (after_event e s)) same
              ∙ append_assoc (requests_of s) (accepted_by e s)
                  (accepted_by_all es (after_event e s)),
        )
