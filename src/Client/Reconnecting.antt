-- ===== src/Client/Reconnecting.antt =====
-- Every connection has its request, and there is one at a time.
use rsocket_py.Prelude.{
  ℕ, suc, ◌+◌, ◌≤◌, ◌≡◌, refl, sym, ap, ◌∙◌, inl, inr, Bool, true, false, ◌||◌, ◌&&◌, Bool-cases,
  arith, subst,
}
use rsocket_py.Client.{
  Connect, idle, connecting_transport, reporting_error, Listener, listening, closing, in_connect,
  ended, Reconnect, first_connect, reconnect, request_taken, closed, Attempt, connected,
  no_transport, failed, after_attempt, first_attempted, listener_attempted, listener_ended,
  round_ended, still_connecting, Step, taken_step, closed_step, first_step, first_reported_step,
  attempt_step, reported_step, ended_step, Reached, started, called, stepped,
}

-- `connect` is up to its transport.
abbrev pub is_attempting : Connect → Bool
is_attempting connecting_transport = true
is_attempting p = false

-- The listener is making a connection.
abbrev pub is_busy : Listener → Bool
is_busy closing = true
is_busy (in_connect p) = is_attempting p
is_busy l = false

abbrev count : Bool → ℕ
count true = 1
count false = 0

abbrev count_closing : Listener → ℕ
count_closing closing = 1
count_closing l = 0

-- What holds of the fields of a client after so many calls.
record Sound (calls : ℕ) (c : Reconnect) : Type 0 where
  busy : is_busy c.listener ≡ true → c.connecting ≡ true
  first_busy : is_attempting c.first ≡ true → c.connecting ≡ true
  alone : (is_busy c.listener && is_attempting c.first) ≡ false
  counted : c.transports + (count c.connect_request_event + count_closing c.listener) ≤ suc calls

at_start : Sound 0 first_connect
at_start = record { busy = λ e. refl; first_busy = λ e. refl; alone = refl; counted = omega arith }

at_call : (calls : ℕ) (c : Reconnect) → Sound calls c → Sound (suc calls) (reconnect c)
at_call calls c s = record {
  busy = s.busy;
  first_busy = s.first_busy;
  alone = s.alone;
  counted = omega (arith, s.counted);
}

left_false : (a b : Bool) → (a && b) ≡ false → b ≡ true → a ≡ false
left_false true b e t = absurd (cc (e, t))
left_false false b e t = refl

and_false : (a : Bool) → (a && false) ≡ false
and_false true = refl
and_false false = refl

not_attempting : (a : Attempt) → is_attempting (after_attempt a) ≡ false
not_attempting connected = refl
not_attempting no_transport = refl
not_attempting failed = refl

module _ (calls : ℕ) (c : Reconnect) (s : Sound calls c) where
  counted_at :
      (l : Listener) (b : Bool)
      → c.listener ≡ l
      → c.connect_request_event ≡ b
      → c.transports + (count b + count_closing l) ≤ suc calls
  counted_at l b e f = rw (sym e, sym f) s.counted

  alone_at : (l : Listener) → c.listener ≡ l → (is_busy l && is_attempting c.first) ≡ false
  alone_at l e = rw (sym e) s.alone

  busy_at : (l : Listener) → c.listener ≡ l → is_busy l ≡ true → c.connecting ≡ true
  busy_at l e b = s.busy (ap is_busy e ∙ b)

  -- No connection of the application where none is being made.
  first_away : c.connecting ≡ false → is_attempting c.first ≡ false
  first_away p = elim (Bool-cases (is_attempting c.first)) [
    | inl q ↦ absurd (cc (p, s.first_busy q))
    | inr q ↦ q
  ]

  at_taken : c.listener ≡ listening → c.connect_request_event ≡ true → Sound calls (request_taken c)
  at_taken e f = elim (Bool-cases c.connecting) [
    | inl p ↦ rw p (record {
      busy = λ b. refl;
      first_busy = λ b. refl;
      alone = refl;
      counted = omega (arith, counted_at listening true e f);
    })
    | inr p ↦ rw p (record {
      busy = λ b. refl;
      first_busy = λ b. refl;
      alone = first_away p;
      counted = omega (arith, counted_at listening true e f);
    })
  ]

  at_closed : c.listener ≡ closing → Sound calls (closed c)
  at_closed e = record {
    busy = λ b. busy_at closing e refl;
    first_busy = s.first_busy;
    alone = alone_at closing e;
    counted = omega (arith, counted_at closing c.connect_request_event e refl);
  }

  listener_away : c.first ≡ connecting_transport → is_busy c.listener ≡ false
  listener_away e = left_false (is_busy c.listener) _ s.alone (ap is_attempting e)

  at_first : (a : Attempt) → c.first ≡ connecting_transport → Sound calls (first_attempted a c)
  at_first a e = record {
    busy = λ b. absurd (cc (b, listener_away e));
    first_busy = λ b. absurd (cc (b, not_attempting a));
    alone = rw (not_attempting a) (and_false (is_busy c.listener));
    counted = s.counted;
  }

  at_round_ended :
      (connecting : Bool)
      → (is_attempting c.first ≡ true → connecting ≡ true)
      → Sound calls (round_ended (record c { connecting = connecting }))
  at_round_ended connecting f = record {
    busy = λ b. absurd (cc b);
    first_busy = f;
    alone = refl;
    counted = omega (arith, s.counted);
  }

  at_attempt :
      (a : Attempt)
      → c.listener ≡ in_connect connecting_transport
      → Sound calls (listener_attempted a c)
  at_attempt connected e =
      at_round_ended false (λ b. absurd (cc (b, alone_at (in_connect connecting_transport) e)))
  at_attempt no_transport e =
      at_round_ended false (λ b. absurd (cc (b, alone_at (in_connect connecting_transport) e)))
  at_attempt failed e = record {
    busy = λ b. absurd (cc b);
    first_busy = λ b. absurd (cc (b, alone_at (in_connect connecting_transport) e));
    alone = refl;
    counted = omega (arith, s.counted);
  }

  at_ended : Sound calls (listener_ended c)
  at_ended = record {
    busy = λ b. absurd (cc b);
    first_busy = λ b. kept c.listener (alone_at c.listener refl) b;
    alone = refl;
    counted = omega (arith, s.counted);
  }
    where
      kept :
          (l : Listener)
          → (is_busy l && is_attempting c.first) ≡ false
          → is_attempting c.first ≡ true
          → still_connecting l c.connecting ≡ true
      kept listening h b = s.first_busy b
      kept closing h b = s.first_busy b
      kept ended h b = s.first_busy b
      kept (in_connect idle) h b = s.first_busy b
      kept (in_connect reporting_error) h b = s.first_busy b
      kept (in_connect connecting_transport) h b = absurd (cc (h, b))

  Step-Sound : {d : Reconnect} → Step c d → Sound calls d
  Step-Sound (taken_step e f) = at_taken e f
  Step-Sound (closed_step e) = at_closed e
  Step-Sound (first_step a e) = at_first a e
  Step-Sound (first_reported_step e) = record {
    busy = s.busy;
    first_busy = λ b. absurd (cc b);
    alone = and_false (is_busy c.listener);
    counted = s.counted;
  }
  Step-Sound (attempt_step a e) = at_attempt a e
  Step-Sound (reported_step e) = at_round_ended c.connecting s.first_busy
  Step-Sound ended_step = at_ended

Reached-Sound : {calls : ℕ} {c : Reconnect} → Reached calls c → Sound calls c
Reached-Sound started = at_start
Reached-Sound (called r) = at_call _ _ (Reached-Sound r)
Reached-Sound (stepped r s) = Step-Sound _ _ (Reached-Sound r) s

-- In every state that a client comes to, it has asked for no more transports than calls of
-- `reconnect` and one for its first connection; the listener is not making a connection while the
-- application is; and `_connecting` is set while either is. From every state in which the listener
-- waits and `_connecting` is not set, a call of `reconnect` leads to one more transport; from every
-- state in which the listener waits for `on_connection_error`, a call, as by this method itself, may
-- be lost: the listener waits again with the event not set, and no transport is asked for.
pub Reached-serial :
    {calls : ℕ} {c : Reconnect}
    → Reached calls c
    → (c.transports ≤ suc calls)
      × ((is_busy c.listener && is_attempting c.first) ≡ false)
      × ((is_busy c.listener || is_attempting c.first) ≡ true → c.connecting ≡ true)
      × (c.listener ≡ listening
          → c.connecting ≡ false
          → (d : Reconnect) × Reached (suc calls) d
            × (d.listener ≡ in_connect connecting_transport)
            × (d.transports ≡ suc c.transports))
      × (c.listener ≡ in_connect reporting_error
          → (d : Reconnect) × Reached (suc calls) d
            × (d.listener ≡ listening)
            × (d.connect_request_event ≡ false)
            × (d.transports ≡ c.transports))
Reached-serial {c = c} r =
    let s = Reached-Sound r in
    (
      omega (arith, s.counted),
      s.alone,
      λ b. either (is_busy c.listener) b s.busy s.first_busy,
      λ e p. (
        closed (record c { connecting = true; connect_request_event = false; listener = closing }),
        stepped (stepped (called r) (taken e p)) (closed_step refl),
        refl,
        refl,
      ),
      λ e. (round_ended (reconnect c), stepped (called r) (reported_step e), refl, refl, refl),
    )
  where
    either :
        (a : Bool) {b t : Bool}
        → (a || b) ≡ true
        → (a ≡ true → t ≡ true)
        → (b ≡ true → t ≡ true)
        → t ≡ true
    either true e f g = f refl
    either false e f g = g e

    taken :
        c.listener ≡ listening
        → c.connecting ≡ false
        → Step
            (reconnect c)
            (record c { connecting = true; connect_request_event = false; listener = closing })
    taken e p = subst (Step (reconnect c)) (rw p refl) (taken_step e refl)
