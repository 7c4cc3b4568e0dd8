-- ===== src/Common/Lists.antt =====
-- Lists over the native numbers, arrays as functions, and sums over an index range.
use Prim.Native.Nat.{ℕ, zero, suc, ◌+◌, ◌≤◌, ◌<◌}
use mathlib.Core.Path.{◌≡◌, refl, sym, ap, ◌∙◌}
use mathlib.Core.Logic.{◌≢◌}
use mathlib.Core.Option.{Option, none, some}
use mathlib.Core.List.{List, [], ◌∷◌, ◌++◌}
use native.Mathlib.Decide.{ℕ_discrete}
use native.Mathlib.Omega.{arith}
use flo_watcher_dpdk.Common.Tests.{◌==◌, if◌then◌else◌}

module _ {ℓ} {A : Type ℓ} where
  abbrev pub length : List A → ℕ
  length [] = 0
  length (x ∷ xs) = suc (length xs)

  pub length-append : (xs ys : List A) → length (xs ++ ys) ≡ length xs + length ys
  length-append [] ys = omega arith
  length-append (x ∷ xs) ys = omega (arith, length-append xs ys)

  abbrev pub take : ℕ → List A → List A
  take zero xs = []
  take (suc n) [] = []
  take (suc n) (x ∷ xs) = x ∷ take n xs

  abbrev pub get_elem? : List A → ℕ → Option A
  get_elem? [] i = none
  get_elem? (x ∷ xs) zero = some x
  get_elem? (x ∷ xs) (suc i) = get_elem? xs i

  abbrev pub drop : ℕ → List A → List A
  drop zero xs = xs
  drop (suc n) [] = []
  drop (suc n) (x ∷ xs) = drop n xs

module _ {ℓ κ} {A : Type ℓ} (P : A → Type κ) where
  -- every element satisfies `P`
  abbrev pub All : List A → Type κ
  All [] = Unit
  All (x ∷ xs) = P x × All xs

-- an array of the program, read at any index
abbrev pub Array {ℓ} : Type ℓ → Type ℓ
Array A = ℕ → A

-- `a[i] = v`
unfoldable pub update {ℓ} : {A : Type ℓ} → Array A → ℕ → A → Array A
update a i v j = if j == i then v else a j

module _ {ℓ} {A : Type ℓ} (a : Array A) (i : ℕ) (v : A) where
  pub update_self : update a i v i ≡ v
  unfolding update
  update_self = ground arith

  pub update_ne : (j : ℕ) → j ≢ i → update a i v j ≡ a j
  unfolding update
  update_ne j h = ground arith

-- how often `k` stands in the list
unfoldable pub count : ℕ → List ℕ → ℕ
count k [] = 0
count k (x ∷ xs) = (if x == k then 1 else 0) + count k xs

pub count-le-length : (k : ℕ) (xs : List ℕ) → count k xs ≤ length xs
unfolding count
count-le-length k [] = omega arith
count-le-length k (x ∷ xs) = ground (arith, count-le-length k xs)

pub count-append : (k : ℕ) (xs ys : List ℕ) → count k (xs ++ ys) ≡ count k xs + count k ys
unfolding count
count-append k [] ys = omega arith
count-append k (x ∷ xs) ys = omega (arith, count-append k xs ys)

-- f 0 + f 1 + … + f (n - 1)
unfoldable pub sum_below : ℕ → (ℕ → ℕ) → ℕ
sum_below zero f = 0
sum_below (suc n) f = sum_below n f + f n

pub sum_below_congr_lt :
    (n : ℕ) (f g : ℕ → ℕ) → ((i : ℕ) → i < n → f i ≡ g i) → sum_below n f ≡ sum_below n g
unfolding sum_below
sum_below_congr_lt zero f g h = refl
sum_below_congr_lt (suc n) f g h =
    omega (arith, sum_below_congr_lt n f g (λ i lt. h i (omega arith)), h n (omega arith))

pub sum_below_congr : (n : ℕ) (f g : ℕ → ℕ) → ((i : ℕ) → f i ≡ g i) → sum_below n f ≡ sum_below n g
sum_below_congr n f g h = sum_below_congr_lt n f g (λ i lt. h i)

pub sum_below-zero : (n : ℕ) (f : ℕ → ℕ) → ((i : ℕ) → f i ≡ 0) → sum_below n f ≡ 0
unfolding sum_below
sum_below-zero zero f h = refl
sum_below-zero (suc n) f h = omega (arith, sum_below-zero n f h, h n)

pub le-sum_below : (n i : ℕ) (f : ℕ → ℕ) → i < n → f i ≤ sum_below n f
unfolding sum_below
le-sum_below zero i f h = absurd (omega arith)
le-sum_below (suc n) i f h = elim (ℕ_discrete n i) [
  | yes last ↦ let e = ap f last in omega (arith, e)
  | no before ↦ omega (arith, le-sum_below n i f (omega (arith, λ (e : i ≡ n). before (sym e))))
]

-- a sum of which one place changes
sum_below-outside :
    (n x : ℕ) (f g : ℕ → ℕ) → n ≤ x → ((i : ℕ) → i ≢ x → g i ≡ f i) → sum_below n g ≡ sum_below n f
unfolding sum_below
sum_below-outside zero x f g h e = refl
sum_below-outside (suc n) x f g h e =
    omega (arith, sum_below-outside n x f g (omega arith) e, e n (omega arith))

pub sum_below-change :
    (n x : ℕ) (f g : ℕ → ℕ)
    → x < n
    → ((i : ℕ) → i ≢ x → g i ≡ f i)
    → sum_below n g + f x ≡ sum_below n f + g x
unfolding sum_below
sum_below-change zero x f g h e = absurd (omega arith)
sum_below-change (suc n) x f g h e = elim (ℕ_discrete n x) [
  | yes last ↦
      rw (← last) (
        omega (arith, sum_below-outside n n f g (omega arith) (λ i d. e i (λ q. d (q ∙ sym last)))))
  | no before ↦ omega (arith, sum_below-change n x f g (omega arith) e, e n before)
]

pub take-drop {ℓ} : {A : Type ℓ} (n : ℕ) (ms : List A) → take n ms ++ drop n ms ≡ ms
take-drop zero ms = refl
take-drop (suc n) [] = refl
take-drop (suc n) (m ∷ ms) = ap (λ t. m ∷ t) (take-drop n ms)
