-- ===== src/Outcome.antt =====
-- How a piece of the program ends, and the memory that `rte_calloc` hands out.
use mathlib.Core.Path.{subst}
use flo_watcher_dpdk.Common.{ℕ, ◌≡◌, refl, Bool, true, false}

-- `failed` is the return of an error code, `exit` is `rte_exit`, `fault` is undefined behaviour: a use of NULL or of
-- an uninitialised pointer, or an access out of bounds
pub data Outcome {ℓ} (A : Type ℓ) : Type ℓ where
  ok : A → Outcome A
  failed : Outcome A
  exit : Outcome A
  fault : Outcome A

infixl 5 ◌>>=◌
abbrev pub ◌>>=◌ {ℓ κ} : {A : Type ℓ} {B : Type κ} → Outcome A → (A → Outcome B) → Outcome B
ok a >>= f = f a
failed >>= f = failed
exit >>= f = exit
fault >>= f = fault

-- if (f () != 0) rte_exit (...)
abbrev pub or_exit {ℓ} : {A : Type ℓ} → Outcome A → Outcome A
or_exit (ok a) = ok a
or_exit failed = exit
or_exit exit = exit
or_exit fault = fault

-- whether the n-th call of `rte_calloc` succeeds
abbrev pub Calloc : Type 0
Calloc = ℕ → Bool

abbrev pub Refuses : Calloc → Type 0
Refuses calloc = (n : ℕ) × (calloc n ≡ false)

-- the run ends in a value with `P`, or by `rte_exit` because memory was refused
abbrev pub Ends {ℓ} : {A : Type ℓ} → Calloc → (A → Type 0) → Outcome A → Type 0
Ends calloc P (ok a) = P a
Ends calloc P failed = ⊥
Ends calloc P exit = Refuses calloc
Ends calloc P fault = ⊥

pub bind-Ends {ℓ κ} :
    {A : Type ℓ} {B : Type κ} (calloc : Calloc) (P : A → Type 0) (Q : B → Type 0) (m : Outcome A)
    (f : A → Outcome B)
    → Ends calloc P m
    → ((a : A) → P a → Ends calloc Q (f a))
    → Ends calloc Q (m >>= f)
bind-Ends calloc P Q (ok a) f h next = next a h
bind-Ends calloc P Q failed f h next = h
bind-Ends calloc P Q exit f h next = h
bind-Ends calloc P Q fault f h next = h

-- where memory is never refused, such a run ends in a value
pub Ends-total {ℓ} :
    {A : Type ℓ} (calloc : Calloc) (P : A → Type 0) (m : Outcome A)
    → ((n : ℕ) → calloc n ≡ true)
    → Ends calloc P m
    → (a : A) × (m ≡ ok a) × P a
Ends-total calloc P (ok a) g h = (a, refl, h)
Ends-total calloc P failed g h = absurd h
Ends-total calloc P exit g (n, h) = absurd (clash (calloc n) (g n) h)
  where
    clash : (b : Bool) → b ≡ true → b ≡ false → ⊥
    clash b p q = cc
Ends-total calloc P fault g h = absurd h

pub mono-Ends {ℓ} :
    {A : Type ℓ} (calloc : Calloc) (P Q : A → Type 0) (m : Outcome A)
    → Ends calloc P m
    → ((a : A) → P a → Q a)
    → Ends calloc Q m
mono-Ends calloc P Q (ok a) h weaken = weaken a h
mono-Ends calloc P Q failed h weaken = h
mono-Ends calloc P Q exit h weaken = h
mono-Ends calloc P Q fault h weaken = h

-- a value that the run ends in has `P`; it may end without one
abbrev pub Ensures {ℓ} : {A : Type ℓ} → (A → Type 0) → Outcome A → Type 0
Ensures P (ok a) = P a
Ensures P failed = Unit
Ensures P exit = Unit
Ensures P fault = Unit

pub bind-Ensures {ℓ κ} :
    {A : Type ℓ} {B : Type κ} (P : A → Type 0) (Q : B → Type 0) (m : Outcome A) (f : A → Outcome B)
    → Ensures P m
    → ((a : A) → P a → Ensures Q (f a))
    → Ensures Q (m >>= f)
bind-Ensures P Q (ok a) f h next = next a h
bind-Ensures P Q failed f h next = tt
bind-Ensures P Q exit f h next = tt
bind-Ensures P Q fault f h next = tt

pub Ensures-ok {ℓ} :
    {A : Type ℓ} (P : A → Type 0) (m : Outcome A) (a : A) → m ≡ ok a → Ensures P m → P a
Ensures-ok P m a e h = subst (Ensures P) e h

pub and-Ensures {ℓ} :
    {A : Type ℓ} (P Q : A → Type 0) (m : Outcome A)
    → Ensures P m
    → Ensures Q m
    → Ensures (λ a. P a × Q a) m
and-Ensures P Q (ok a) h k = (h, k)
and-Ensures P Q failed h k = tt
and-Ensures P Q exit h k = tt
and-Ensures P Q fault h k = tt

-- whatever the first part ends in
pub bind_any-Ensures {ℓ κ} :
    {A : Type ℓ} {B : Type κ} (Q : B → Type 0) (m : Outcome A) (f : A → Outcome B)
    → ((a : A) → Ensures Q (f a))
    → Ensures Q (m >>= f)
bind_any-Ensures Q (ok a) f next = next a
bind_any-Ensures Q failed f next = tt
bind_any-Ensures Q exit f next = tt
bind_any-Ensures Q fault f next = tt

pub mono-Ensures {ℓ} :
    {A : Type ℓ} (P Q : A → Type 0) (m : Outcome A)
    → Ensures P m
    → ((a : A) → P a → Q a)
    → Ensures Q m
mono-Ensures P Q (ok a) h weaken = weaken a h
mono-Ensures P Q failed h weaken = tt
mono-Ensures P Q exit h weaken = tt
mono-Ensures P Q fault h weaken = tt
