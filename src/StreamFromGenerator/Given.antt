-- ===== src/StreamFromGenerator/Given.antt =====
-- What the subscriber of a stream from a generator was given, and what is still to come.
use rsocket_py.Prelude.{
  ℕ, ◌+◌, ◌≤◌, ◌≡◌, refl, ap, ◌∙◌, Bool, true, false, none, some, List, [], ◌∷◌, ◌++◌, map, arith,
  Error, Result, ok, err, length,
}
use rsocket_py.StreamFromGenerator.{
  Item, Told, on_next, on_complete, on_error, NFeeder, absent, created, waiting, generating,
  returned, PayloadFeeder, begun_not, getting, sleeping, cancelled, ended, StreamFromGenerator,
  payload_feeder_cancelled, empty_payload, send_to_subscriber, Event, requests, cancels,
  n_feeder_runs, payload_feeder_runs,
}

-- What a generator gives to its end: up to the first item that completes, or an empty payload that
-- completes behind the last, and nothing behind an exception.
abbrev pub ends_at : Item → List Item → List Item
ends_at (payload, true) rest = (payload, true) ∷ []
ends_at (payload, false) rest = (payload, false) ∷ rest

unfoldable pub items_of : List (Result Item) → List Item
items_of [] = (some empty_payload, true) ∷ []
items_of (err e ∷ rest) = []
items_of (ok item ∷ rest) = ends_at item (items_of rest)

-- What the subscriber is told, without an exception.
unfoldable pub given : List Told → List Told
given [] = []
given (on_next payload is_complete ∷ told) = on_next payload is_complete ∷ given told
given (on_complete ∷ told) = on_complete ∷ given told
given (on_error e ∷ told) = given told

unfoldable pub total : List ℕ → ℕ
total [] = 0
total (n ∷ ns) = n + total ns

-- The numbers that were requested.
unfoldable pub all_requested : List Event → ℕ
all_requested [] = 0
all_requested (requests n ∷ events) = n + all_requested events
all_requested (cancels ∷ events) = all_requested events
all_requested (n_feeder_runs ∷ events) = all_requested events
all_requested (payload_feeder_runs ∷ events) = all_requested events

pub total-snoc : (ns : List ℕ) (n : ℕ) → total (ns ++ (n ∷ [])) ≡ total ns + n
unfolding total
total-snoc [] n = omega arith
total-snoc (m ∷ ns) n = omega (arith, total-snoc ns n)

pub given-error : (told : List Told) (e : Error) → given (told ++ (on_error e ∷ [])) ≡ given told
unfolding given
given-error [] e = refl
given-error (on_next payload c ∷ told) e =
    ap (λ (l : List Told). on_next payload c ∷ l) (given-error told e)
given-error (on_complete ∷ told) e = ap (λ (l : List Told). on_complete ∷ l) (given-error told e)
given-error (on_error e' ∷ told) e = given-error told e

pub given-item : (item : Item) → given (send_to_subscriber item ∷ []) ≡ send_to_subscriber item ∷ []
unfolding given
given-item (none, true) = refl
given-item (none, false) = refl
given-item (some p, c) = refl

pub given-append : (xs ys : List Told) → given (xs ++ ys) ≡ given xs ++ given ys
unfolding given
given-append [] ys = refl
given-append (on_next payload c ∷ xs) ys =
    ap (λ (l : List Told). on_next payload c ∷ l) (given-append xs ys)
given-append (on_complete ∷ xs) ys = ap (λ (l : List Told). on_complete ∷ l) (given-append xs ys)
given-append (on_error e ∷ xs) ys = given-append xs ys

pub given-sent :
    (told : List Told) (item : Item)
    → given (told ++ (send_to_subscriber item ∷ [])) ≡ given told ++ (send_to_subscriber item ∷ [])
given-sent told item =
    given-append told (send_to_subscriber item ∷ [])
    ∙ ap (λ (l : List Told). given told ++ l) (given-item item)

-- What the n-feeder has still to give to the queue, and how many it owes.
abbrev pub to_come : List (Result Item) → NFeeder → List (Result Item) → List Item
to_come generator absent iteration = items_of generator
to_come generator created iteration = items_of generator
to_come generator waiting iteration = items_of iteration
to_come generator (generating k) iteration = items_of iteration
to_come generator returned iteration = []

abbrev pub owed : NFeeder → ℕ
owed (generating k) = k
owed f = 0

abbrev pub is_live : PayloadFeeder → Bool
is_live cancelled = false
is_live ended = false
is_live f = true

-- The state behind requests for `n` values: while the payload feeder lives, what was given, what is
-- queued and what is to come are the items of the generator, and no more were generated than asked
-- for; afterwards what was given is a part of them.
pub record Live (generator : List (Result Item)) (n : ℕ) (f : NFeeder)
    (iteration : List (Result Item)) (queue : List Item) (ns : List ℕ) (told : List Told)
    : Type 0 where
  pub order :
      given told ++ map send_to_subscriber (queue ++ to_come generator f iteration)
      ≡ map send_to_subscriber (items_of generator)
  pub credit : length (given told) + (length queue + (owed f + total ns)) ≤ n

pub record Given (generator : List (Result Item)) (n : ℕ) (told : List Told) : Type 0 where
  pub rest : List Told
  pub order : given told ++ rest ≡ map send_to_subscriber (items_of generator)
  pub credit : length (given told) ≤ n

pub data Inv (n : ℕ) (s : StreamFromGenerator) : Type 0 where
  live : Live s.generator n s.n_feeder s.iteration s.queue s.request_n_queue s.told → Inv n s
  over : is_live s.payload_feeder ≡ false → Given s.generator n s.told → Inv n s

pub to_Given :
    {generator : List (Result Item)} {n : ℕ} {f : NFeeder} {iteration : List (Result Item)}
    {queue : List Item} {ns : List ℕ} {told : List Told}
    → Live generator n f iteration queue ns told
    → Given generator n told
to_Given {generator} {n} {f} {iteration} {queue} l = record {
  rest = map send_to_subscriber (queue ++ to_come generator f iteration);
  order = l.order;
  credit = omega (arith, l.credit);
}

pub cancelled_not_live : (f : PayloadFeeder) → is_live (payload_feeder_cancelled f) ≡ false
cancelled_not_live begun_not = refl
cancelled_not_live getting = refl
cancelled_not_live (sleeping c) = refl
cancelled_not_live cancelled = refl
cancelled_not_live ended = refl
