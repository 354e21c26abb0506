-- ===== src/Collector.antt =====
-- rsocket/awaitable/collector_subscriber.py: a subscriber that collects values and asks for more.
-- The subscription is the application's or a requester's: what is called on it is a list of calls.
use rsocket_py.Prelude.{
  ℕ, ◌+◌, ◌≤◌, ◌<◌, ◌≡◌, refl, sym, ap, ◌∙◌, subst, append-nil, inl, inr, Bool, true, false, Option,
  none, some, List, [], ◌∷◌, ◌++◌, append_assoc, arith, Error, Result, ok, err, length, ◌==◌,
  ==_iff, if◌then◌else◌, Bool-cases,
}
use rsocket_py.FrameBuilders.{Payload}

-- What is called on the subscription.
pub data SubscriptionCall : Type 0 where
  request : ℕ → SubscriptionCall
  cancel : SubscriptionCall

pub record CollectorSubscriber : Type 0 where
  pub limit_count : Option ℕ
  pub limit_rate : ℕ
  pub received_count : ℕ
  pub total_received_count : ℕ
  pub is_done : Bool
  pub error : Option Error
  pub values : List Payload

abbrev pub collector_subscriber : ℕ → Option ℕ → CollectorSubscriber
collector_subscriber limit_rate limit_count = record {
  limit_count = limit_count;
  limit_rate = limit_rate;
  received_count = 0;
  total_received_count = 0;
  is_done = false;
  error = none;
  values = [];
}

-- `self._limit_count is not None and self._limit_count == total`
abbrev is_limit : Option ℕ → ℕ → Bool
is_limit none total = false
is_limit (some count) total = count == total

abbrev done : CollectorSubscriber → CollectorSubscriber
done s = record s { is_done = true }

-- The end of `on_next`, after the value is stored and counted.
unfoldable pub counted : Bool → CollectorSubscriber → CollectorSubscriber × List SubscriptionCall
counted is_complete s =
    if is_complete
    then (done s, [])
    else if is_limit s.limit_count s.total_received_count
    then (done s, cancel ∷ [])
    else if s.received_count == s.limit_rate
    then (record s { received_count = 0 }, request s.limit_rate ∷ [])
    else (s, [])

unfoldable pub on_next :
    Payload → Bool → CollectorSubscriber → CollectorSubscriber × List SubscriptionCall
on_next value is_complete s = counted is_complete (record s {
  values = s.values ++ (value ∷ []);
  received_count = s.received_count + 1;
  total_received_count = s.total_received_count + 1;
})

unfoldable pub on_complete : CollectorSubscriber → CollectorSubscriber
on_complete s = done s

unfoldable pub on_error : Error → CollectorSubscriber → CollectorSubscriber
on_error exception s = record s { error = some exception; is_done = true }

-- What `run` returns or raises, once `is_done` is set.
unfoldable pub run : CollectorSubscriber → Result (List Payload)
run s = elim s.error [ none ↦ ok s.values | some e ↦ err e ]

-- Values that arrive one after the other, none of which completes.
unfoldable pub on_next_all :
    List Payload → CollectorSubscriber → CollectorSubscriber × List SubscriptionCall
on_next_all [] s = (s, [])
on_next_all (value ∷ values) s =
    let first = on_next value false s in
    let rest = on_next_all values first.0 in (rest.0, first.1 ++ rest.1)

-- The number of values that were asked for.
abbrev pub requested : List SubscriptionCall → ℕ
requested [] = 0
requested (request n ∷ calls) = n + requested calls
requested (cancel ∷ calls) = requested calls

requested-append :
    (xs ys : List SubscriptionCall) → requested (xs ++ ys) ≡ requested xs + requested ys
requested-append [] ys = omega arith
requested-append (request n ∷ xs) ys = omega (arith, requested-append xs ys)
requested-append (cancel ∷ xs) ys = omega (arith, requested-append xs ys)

-- One value: it is stored, and counted against what was asked for.
record Takes (value : Payload) (s : CollectorSubscriber)
    (r : CollectorSubscriber × List SubscriptionCall) : Type 0 where
  same_limit : r.0.limit_count ≡ s.limit_count
  same_rate : r.0.limit_rate ≡ s.limit_rate
  stored : r.0.values ≡ s.values ++ (value ∷ [])
  below : r.0.received_count < s.limit_rate
  balance : s.received_count + 1 ≡ r.0.received_count + requested r.1

not_reached : (n rate : ℕ) → n < rate → (n + 1 == rate) ≡ false → n + 1 < rate
not_reached n rate h e = ground arith

on_next-Takes :
    (value : Payload) (s : CollectorSubscriber)
    → s.limit_count ≡ none
    → s.received_count < s.limit_rate
    → Takes value s (on_next value false s)
unfolding on_next counted
on_next-Takes value s unlimited h =
    rw unlimited (elim (Bool-cases (s.received_count + 1 == s.limit_rate)) [
      | inl e ↦ rw e (record {
        same_limit = refl;
        same_rate = refl;
        stored = refl;
        below = omega arith;
        balance = omega (arith, (==_iff (s.received_count + 1) s.limit_rate).0 e);
      })
      | inr e ↦ rw e (record {
        same_limit = refl;
        same_rate = refl;
        stored = refl;
        below = not_reached s.received_count s.limit_rate h e;
        balance = omega arith;
      })
    ])

-- A run without a limit of values: the values are stored in order, and what arrived is what was
-- asked for on the way, up to the count since the last request.
record Collects (values : List Payload) (s : CollectorSubscriber)
    (r : CollectorSubscriber × List SubscriptionCall) : Type 0 where
  stored : r.0.values ≡ s.values ++ values
  below : r.0.received_count < s.limit_rate
  balance : s.received_count + length values ≡ r.0.received_count + requested r.1

on_next_all-Collects :
    (values : List Payload) (s : CollectorSubscriber)
    → s.limit_count ≡ none
    → s.received_count < s.limit_rate
    → Collects values s (on_next_all values s)
unfolding on_next_all
on_next_all-Collects [] s unlimited h = record {
  stored = sym (append-nil s.values);
  below = h;
  balance = omega arith;
}
on_next_all-Collects (value ∷ values) s unlimited h =
    let first = on_next value false s in
    let t = on_next-Takes value s unlimited h in
    let c =
      on_next_all-Collects values first.0 (t.same_limit ∙ unlimited)
        (subst (λ (n : ℕ). first.0.received_count < n) (sym t.same_rate) t.below) in
    record {
      stored =
          c.stored
          ∙ ap (λ (l : List Payload). l ++ values) t.stored
          ∙ append_assoc s.values (value ∷ []) values;
      below = omega (arith, t.same_rate, c.below);
      balance =
          omega
            (arith, t.balance, c.balance, requested-append first.1 (on_next_all values first.0).1);
    }

-- A collector without a limit of values, whose stream was asked for `limit_rate` values at first
-- and gives values without an end: all values are stored in order, the stream has always been asked
-- for more values than have arrived, and never for more than `limit_rate` ahead of them.
pub on_next_all_credit :
    (values : List Payload) (limit_rate : ℕ)
    → 0 < limit_rate
    → let r = on_next_all values (collector_subscriber limit_rate none) in
      (r.0.values ≡ values)
      × (length values < limit_rate + requested r.1)
      × (limit_rate + requested r.1 ≤ length values + limit_rate)
on_next_all_credit values limit_rate h =
    let c = on_next_all-Collects values (collector_subscriber limit_rate none) refl h in
    (c.stored, omega (arith, c.balance, c.below), omega (arith, c.balance, c.below))
