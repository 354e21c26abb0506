-- ===== src/Client/Watch.antt =====
-- The server counts as dead exactly when the watch has found it silent for too long.
use mathlib.Core.Logic.{◌↔◌}
use rsocket_py.Prelude.{
  ℕ, ◌+◌, ◌-◌, ◌≤◌, ◌<◌, ◌≡◌, refl, sym, ap, ◌∙◌, subst, inl, inr, true, false, List, [], ◌∷◌, ◌++◌,
  append-nil, append_assoc, ltb, ltb→lt, lt→ltb, Bool-cases, All, All-monotone, arith,
}
use rsocket_py.Client.{
  Keepalive, keepalive_at, keepalive_timeout_task, Heartbeat, received, woken, after_heartbeats,
}

abbrev time_of : Heartbeat → ℕ
time_of (received t) = t
time_of (woken t) = t

-- The events are in the order of their times, none before the first.
abbrev pub IsTimed : ℕ → List Heartbeat → Type 0
IsTimed t [] = Unit
IsTimed t (h ∷ hs) = (t ≤ time_of h) × IsTimed (time_of h) hs

-- The times of the keep-alive frames.
abbrev pub heard : List Heartbeat → List ℕ
heard [] = []
heard (received t ∷ hs) = t ∷ heard hs
heard (woken t ∷ hs) = heard hs

-- At some wake, the start and all keep-alive frames are longer ago than the maximum lifetime.
pub record Missed (max_lifetime_period start : ℕ) (hs : List Heartbeat) : Type 0 where
  pub before : List Heartbeat
  pub now : ℕ
  pub later : List Heartbeat
  pub split : hs ≡ before ++ (woken now ∷ later)
  pub silent : All (λ t. t + max_lifetime_period < now) (start ∷ heard before)

-- Two wakes with a sleep between them and no frame from before the first on.
pub record TwoWakes (max_lifetime_period start : ℕ) (hs : List Heartbeat) : Type 0 where
  pub before : List Heartbeat
  pub first : ℕ
  pub between : List Heartbeat
  pub second : ℕ
  pub later : List Heartbeat
  pub split : hs ≡ before ++ (woken first ∷ (between ++ (woken second ∷ later)))
  pub slept : first + max_lifetime_period ≤ second
  pub past : All (λ t. t < first) (start ∷ heard before)
  pub quiet : heard between ≡ []

module _ (max_lifetime_period : ℕ) where
  last_kept :
      (now : ℕ) (k : Keepalive)
      → (keepalive_timeout_task max_lifetime_period now k).last_server_keepalive
        ≡ k.last_server_keepalive
  unfolding keepalive_timeout_task
  last_kept now k = elim (Bool-cases (ltb max_lifetime_period (now - k.last_server_keepalive))) [
    | inl e ↦ rw e refl
    | inr e ↦ rw e refl
  ]

  task_dead :
      (now : ℕ) (k : Keepalive)
      → k.is_server_alive ≡ false
      → (keepalive_timeout_task max_lifetime_period now k).is_server_alive ≡ false
  unfolding keepalive_timeout_task
  task_dead now k h = elim (Bool-cases (ltb max_lifetime_period (now - k.last_server_keepalive))) [
    | inl e ↦ rw e refl
    | inr e ↦ rw e h
  ]

  task_idle :
      (now : ℕ) (k : Keepalive)
      → ltb max_lifetime_period (now - k.last_server_keepalive) ≡ false
      → keepalive_timeout_task max_lifetime_period now k ≡ k
  unfolding keepalive_timeout_task
  task_idle now k e = rw e refl

  stays_dead :
      (hs : List Heartbeat) (k : Keepalive)
      → k.is_server_alive ≡ false
      → (after_heartbeats max_lifetime_period hs k).is_server_alive ≡ false
  unfolding after_heartbeats
  stays_dead [] k h = h
  stays_dead (received t ∷ hs) k h = stays_dead hs _ h
  stays_dead (woken t ∷ hs) k h = stays_dead hs _ (task_dead t k h)

  silence_found :
      (before : List Heartbeat) (now : ℕ) (later : List Heartbeat) (k : Keepalive)
      → All (λ t. t + max_lifetime_period < now) (k.last_server_keepalive ∷ heard before)
      → (after_heartbeats max_lifetime_period (before ++ (woken now ∷ later)) k).is_server_alive
        ≡ false
  unfolding after_heartbeats keepalive_timeout_task
  silence_found [] now later k (h, u) =
      stays_dead later _
        (rw (lt→ltb max_lifetime_period (now - k.last_server_keepalive) (omega (arith, h))) refl)
  silence_found (received t ∷ before) now later k (h, hs) = silence_found before now later _ hs
  silence_found (woken t ∷ before) now later k (h, hs) =
      silence_found before now later _
        (subst (λ (l : ℕ). l + max_lifetime_period < now) (sym (last_kept t k)) h, hs)

  death_explained :
      (hs : List Heartbeat) (start : ℕ) (k : Keepalive)
      → k.last_server_keepalive ≤ start
      → IsTimed start hs
      → k.is_server_alive ≡ true
      → (after_heartbeats max_lifetime_period hs k).is_server_alive ≡ false
      → Missed max_lifetime_period k.last_server_keepalive hs
  unfolding after_heartbeats keepalive_timeout_task
  death_explained [] start k le timed alive dead = absurd (cc (alive, dead))
  death_explained (received t ∷ hs) start k le (after_start, timed) alive dead =
      let m = death_explained hs t _ (omega arith) timed alive dead in
      record {
        before = received t ∷ m.before;
        now = m.now;
        later = m.later;
        split = ap (λ (l : List Heartbeat). received t ∷ l) m.split;
        silent = (omega (arith, le, after_start, m.silent.0), m.silent);
      }
  death_explained (woken t ∷ hs) start k le (after_start, timed) alive dead =
      elim (Bool-cases (ltb max_lifetime_period (t - k.last_server_keepalive))) [
        | inl e ↦
            let late = ltb→lt max_lifetime_period (t - k.last_server_keepalive) e in
            record {
              before = [];
              now = t;
              later = hs;
              split = refl;
              silent = (omega (arith, late), tt);
            }
        | inr e ↦
            let m = death_explained hs t k (omega (arith, le, after_start)) timed alive (
              subst
                (λ (x : Keepalive).
                  (after_heartbeats max_lifetime_period hs x).is_server_alive ≡ false)
                (task_idle t k e) dead) in
            record {
              before = woken t ∷ m.before;
              now = m.now;
              later = m.later;
              split = ap (λ (l : List Heartbeat). woken t ∷ l) m.split;
              silent = m.silent;
            }
      ]

  TwoWakes-Missed :
      (start : ℕ) (hs : List Heartbeat)
      → TwoWakes max_lifetime_period start hs
      → Missed max_lifetime_period start hs
  TwoWakes-Missed start hs w = record {
    before = w.before ++ (woken w.first ∷ w.between);
    now = w.second;
    later = w.later;
    split =
        w.split
        ∙ sym (append_assoc w.before (woken w.first ∷ w.between) (woken w.second ∷ w.later));
    silent = subst (All (λ t. t + max_lifetime_period < w.second)) (sym same) (
        All-monotone {P = λ t. t < w.first} {Q = λ t. t + max_lifetime_period < w.second}
          (λ t lt. omega (arith, lt, w.slept)) (start ∷ heard w.before) w.past);
  }
    where
      heard-append : (hs gs : List Heartbeat) → heard (hs ++ gs) ≡ heard hs ++ heard gs
      heard-append [] gs = refl
      heard-append (received t ∷ hs) gs = ap (λ (l : List ℕ). t ∷ l) (heard-append hs gs)
      heard-append (woken t ∷ hs) gs = heard-append hs gs

      same : start ∷ heard (w.before ++ (woken w.first ∷ w.between)) ≡ start ∷ heard w.before
      same =
          ap (λ (l : List ℕ). start ∷ l)
            (heard-append w.before (woken w.first ∷ w.between)
              ∙ (ap (λ (l : List ℕ). heard w.before ++ l) w.quiet ∙ append-nil (heard w.before)))

  -- For keep-alive frames and wakes of the watch in the order of their times, after the start: the
  -- server counts as dead exactly if the watch once woke with the start and all frames up to then
  -- longer ago than the maximum lifetime; and two wakes that are the maximum lifetime apart, with no
  -- frame between them nor at the time of the first, are enough for it.
  pub after_heartbeats-Missed :
      (start : ℕ) (hs : List Heartbeat)
      → IsTimed start hs
      → (((after_heartbeats max_lifetime_period hs (keepalive_at start)).is_server_alive ≡ false)
          ↔ Missed max_lifetime_period start hs)
        × (TwoWakes max_lifetime_period start hs
            → (after_heartbeats max_lifetime_period hs (keepalive_at start)).is_server_alive
              ≡ false)
  after_heartbeats-Missed start hs timed = (
    (λ dead. death_explained hs start (keepalive_at start) (omega arith) timed refl dead, found),
    λ w. found (TwoWakes-Missed start hs w),
  )
    where
      found :
          Missed max_lifetime_period start hs
          → (after_heartbeats max_lifetime_period hs (keepalive_at start)).is_server_alive ≡ false
      found m =
          subst
            (λ (l : List Heartbeat).
              (after_heartbeats max_lifetime_period l (keepalive_at start)).is_server_alive ≡ false)
            (sym m.split) (silence_found m.before m.now m.later (keepalive_at start) m.silent)
