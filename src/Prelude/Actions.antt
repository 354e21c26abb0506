-- ===== src/Prelude/Actions.antt =====
-- Stateful code that may raise: an action takes the state and gives the state afterwards, with a
-- result. What was changed before an exception stays changed.
use mathlib.Core.Bool.{Bool, true, false}
use mathlib.Core.Path.{◌≡◌, refl, ap, ◌∙◌}
use rsocket_py.Prelude.Results.{Error, Result, ok, err}

abbrev pub Act {ℓ κ} : Type ℓ → Type κ → Type (ℓ ⊔ κ)
Act S A = S → S × Result A

-- The code behind an action, which an exception skips.
abbrev pub continue {ℓ κ μ} :
    {S : Type ℓ} {A : Type κ} {B : Type μ} → S × Result A → (A → Act S B) → S × Result B
continue (s, ok a) f = f a s
continue (s, err e) f = (s, err e)

infixl 5 ◌>>=◌ ◌>>◌
abbrev pub ◌>>=◌ {ℓ κ μ} :
    {S : Type ℓ} {A : Type κ} {B : Type μ} → Act S A → (A → Act S B) → Act S B
m >>= f = λ s. continue (m s) f

abbrev pub ◌>>◌ {ℓ κ μ} : {S : Type ℓ} {A : Type κ} {B : Type μ} → Act S A → Act S B → Act S B
m >> k = λ s. continue (m s) (λ _. k)

abbrev pub return {ℓ κ} : {S : Type ℓ} {A : Type κ} → A → Act S A
return a = λ s. (s, ok a)

abbrev pub raise {ℓ κ} : {S : Type ℓ} {A : Type κ} → Error → Act S A
raise e = λ s. (s, err e)

abbrev pub gets {ℓ κ} : {S : Type ℓ} {A : Type κ} → (S → A) → Act S A
gets f = λ s. (s, ok (f s))

abbrev pub modify {ℓ} : {S : Type ℓ} → (S → S) → Act S (Unit {0})
modify f = λ s. (f s, ok tt)

-- `if test: m`
abbrev pub when {ℓ} : {S : Type ℓ} → Bool → Act S (Unit {0}) → Act S (Unit {0})
when true m = m
when false m = return tt

-- Code that changes nothing, with its result.
abbrev pub of_result {ℓ κ} : {S : Type ℓ} {A : Type κ} → Result A → Act S A
of_result r = λ s. (s, r)

-- `try: m; except Exception as exception: handler`
abbrev pub recover {ℓ κ} :
    {S : Type ℓ} {A : Type κ} → S × Result A → (Error → Act S A) → S × Result A
recover (s, ok a) handler = (s, ok a)
recover (s, err e) handler = handler e s

abbrev pub try_except {ℓ κ} : {S : Type ℓ} {A : Type κ} → Act S A → (Error → Act S A) → Act S A
try_except m handler = λ s. recover (m s) handler

-- From a state with `P`, the action does not raise and leaves a state with `Q`.
abbrev pub Runs {ℓ κ μ} :
    {S : Type ℓ} {A : Type κ} → (S → Type μ) → Act S A → (S → Type μ) → Type (ℓ ⊔ κ ⊔ μ)
Runs {S = S} {A = A} P m Q = (s : S) → P s → (s' : S) × (a : A) × (m s ≡ (s', ok a)) × Q s'

pub then-Runs {ℓ μ} :
    {S : Type ℓ} {P Q R : S → Type μ} (m k : Act S (Unit {0}))
    → Runs P m Q
    → Runs Q k R
    → Runs P (m >> k) R
then-Runs m k f g s p =
    let (s', a, e, q) = f s p in
    let (s'', b, e', r) = g s' q in (s'', b, ap (λ t. continue t (λ _. k)) e ∙ e', r)

pub when-Runs {ℓ μ} :
    {S : Type ℓ} {P : S → Type μ} (b : Bool) (m : Act S (Unit {0}))
    → Runs P m P
    → Runs P (when b m) P
when-Runs true m f = f
when-Runs false m f = λ s p. (s, tt, refl, p)
