-- ===== src/Connection/Quiet.antt =====
-- Actions that raise no exception of the transport.
use rsocket_py.Prelude.{
  ℕ, ◌≡◌, refl, inl, inr, Bool, true, false, not, Option-cases, Option, none, some, Error, Result,
  ok, err, if◌then◌else◌, Bool-cases,
}
use rsocket_py.Prelude as Results
use rsocket_py.Prelude.Actions.{Act, continue, ◌>>=◌, ◌>>◌, when, recover}
use rsocket_py.Frame.Slots.{Frame}
use rsocket_py.Frame.Fragmenting.{is_payload}
use rsocket_py.FrameFragmentCache.{Cache, popped, frame_fragment_builder, append}
use rsocket_py.Connection.Receiver.{is_transport_error}

abbrev pub is_quiet {ℓ} : {A : Type ℓ} → Result A → Bool
is_quiet (ok a) = true
is_quiet (err e) = not (is_transport_error e)

-- The action raises no exception of the transport.
abbrev pub Quiet {ℓ κ} : {S : Type ℓ} {A : Type κ} → Act S A → Type ℓ
Quiet {S = S} m = (s : S) → is_quiet (m s).1 ≡ true

pub continue-quiet {ℓ κ μ} :
    {S : Type ℓ} {A : Type κ} {B : Type μ} (r : S × Result A) (f : A → Act S B)
    → is_quiet r.1 ≡ true
    → ((a : A) → Quiet (f a))
    → is_quiet (continue r f).1 ≡ true
continue-quiet (s, ok a) f h k = k a s
continue-quiet (s, err e) f h k = h

pub bind-Quiet {ℓ κ μ} :
    {S : Type ℓ} {A : Type κ} {B : Type μ} (m : Act S A) (f : A → Act S B)
    → Quiet m
    → ((a : A) → Quiet (f a))
    → Quiet (m >>= f)
bind-Quiet m f h k s = continue-quiet (m s) f (h s) k

pub then-Quiet {ℓ κ μ} :
    {S : Type ℓ} {A : Type κ} {B : Type μ} (m : Act S A) (k : Act S B)
    → Quiet m
    → Quiet k
    → Quiet (m >> k)
then-Quiet m k h h' s = continue-quiet (m s) (λ _. k) (h s) (λ _. h')

pub when-Quiet {ℓ} : {S : Type ℓ} (b : Bool) (m : Act S (Unit {0})) → Quiet m → Quiet (when b m)
when-Quiet true m h = h
when-Quiet false m h = λ s. refl

pub either_quiet {ℓ κ} :
    {S : Type ℓ} {A : Type κ} (b : Bool) (r q : S × Result A)
    → is_quiet r.1 ≡ true
    → is_quiet q.1 ≡ true
    → is_quiet (if b then r else q).1 ≡ true
either_quiet true r q h h' = h
either_quiet false r q h h' = h'

pub if-Quiet {ℓ κ} :
    {S : Type ℓ} {A : Type κ} (b : Bool) (m k : Act S A)
    → Quiet m
    → Quiet k
    → Quiet (if b then m else k)
if-Quiet true m k h h' = h
if-Quiet false m k h h' = h'

pub recover-quiet {ℓ κ} :
    {S : Type ℓ} {A : Type κ} (r : S × Result A) (f : Error → Act S A)
    → ((e : Error) → Quiet (f e))
    → is_quiet (recover r f).1 ≡ true
recover-quiet (s, ok a) f k = refl
recover-quiet (s, err e) f k = k e s

-- The same for a result that another computation takes.
result-quiet {ℓ κ} :
    {A : Type ℓ} {B : Type κ} (r : Result A) (f : A → Result B)
    → is_quiet r ≡ true
    → ((a : A) → is_quiet (f a) ≡ true)
    → is_quiet (Results.◌>>=◌ r f) ≡ true
result-quiet (ok a) f h k = k a
result-quiet (err e) f h k = h

builder-quiet : (o : Option Frame) (f : Frame) → is_quiet (frame_fragment_builder o f) ≡ true
unfolding frame_fragment_builder
builder-quiet none f = refl
builder-quiet (some current) f = elim (Bool-cases (is_payload f.body)) [
  | inl e ↦ rw e refl
  | inr e ↦ rw e refl
]

-- What a computation that takes the result of another one comes to, either way.
popped-quiet : (cache : Cache) (id : ℕ) (f : Frame) → is_quiet (popped cache id f) ≡ true
popped-quiet cache id f = elim (Option-cases (cache id)) [
  | inl e ↦ rw (is_quiet, e) refl
  | inr (old, e) ↦ rw (is_quiet, e) refl
]

-- What the cache does with the frame that was built, or with the exception.
pub append-quiet : (cache : Cache) (f : Frame) → is_quiet (append cache f) ≡ true
unfolding append
append-quiet cache f = elim (Bool-cases f.flags_follows) [
  | inl e ↦ rw e (
      result-quiet (frame_fragment_builder (cache f.stream_id) _) _
        (builder-quiet (cache f.stream_id) _) (λ built. refl))
  | inr e ↦ elim (Option-cases (cache f.stream_id)) [
    | inl e' ↦ rw (e, e') refl
    | inr (current, e') ↦
        rw (e, e')
          (result-quiet (frame_fragment_builder (some current) f) _ (builder-quiet (some current) f)
            (λ built. popped-quiet cache built.stream_id built))
  ]
]
