-- ===== src/RunToCompletion/Quantile/Sorting.antt =====
-- `insertSort` over the first five heights. It moves them through an `int`, so its correctness asks
-- that an `int` holds them; they are gaps between packets, which are whole numbers.
use mathlib.Core.List.{Perm}
use mathlib.Core.List.Perm
use native.Mathlib.Decide.{ℕ_discrete}
use flo_watcher_dpdk.Common.{
  ℕ, zero, suc, ◌≤◌, ◌<◌, ◌≡◌, refl, ap, ◌≢◌, inl, inr, true, false, Array, update, arith,
  Bool-cases, List, [], ◌∷◌, if◌then◌else◌, ◌==◌,
}
use flo_watcher_dpdk.Double.{Arithmetic}
use flo_watcher_dpdk.RunToCompletion.Quantile.{swap_down, sink, insert_sort}

-- what the sort relies on: `<` is the strict part of a total preorder on the numbers that occur
pub record IsOrder {F : Type 0} (fp : Arithmetic F) : Type 0 where
  pub lt_asymm : (a b : F) → fp.lt a b ≡ true → fp.lt b a ≡ false
  pub le_trans : (a b c : F) → fp.lt b a ≡ false → fp.lt c b ≡ false → fp.lt c a ≡ false

module _ {F : Type 0} ⦃fp : Arithmetic F⦄ where
  abbrev pub Le : F → F → Type 0
  Le a b = fp.lt b a ≡ false

  -- an `int` holds the height
  abbrev pub Fits : F → Type 0
  Fits a = fp.of_int (fp.to_int a) ≡ a

  abbrev pub heights : Array F → List F
  heights n = n 0 ∷ n 1 ∷ n 2 ∷ n 3 ∷ n 4 ∷ []

  abbrev pub SortedTo : ℕ → Array F → Type 0
  SortedTo k n = (i : ℕ) → i < k → Le (n i) (n (suc i))

  -- sorted up to `k`, but for the height at `j`, which may be too small for its place
  record Sinking (j k : ℕ) (n : Array F) : Type 0 where
    rest : (i : ℕ) → i < k → suc i ≢ j → Le (n i) (n (suc i))
    gap : (i : ℕ) → suc i ≡ j → j < k → Le (n i) (n (suc j))

  swap_down-eq :
      (i : ℕ) (n : Array F)
      → Fits (n (suc i))
      → swap_down i n ≡ update (update n (suc i) (n i)) i (n (suc i))
  unfolding swap_down
  swap_down-eq i n f = ap (λ v. update (update n (suc i) (n i)) i v) f

  swapped :
      (i j : ℕ) (n : Array F)
      → Fits (n (suc i))
      → swap_down i n j ≡ (if j == i then n (suc i) else if j == suc i then n i else n j)
  unfolding swap_down update
  swapped i j n f = rw f refl

  Fits-swap : (i j : ℕ) (n : Array F) → ((m : ℕ) → Fits (n m)) → Fits (swap_down i n j)
  Fits-swap i j n f = rw (swapped i j n (f (suc i))) (ground (arith, f (suc i), f i, f j))

  module _ (order : IsOrder fp) where
    swap-Sinking :
        (i k : ℕ) (n : Array F)
        → suc i ≤ k
        → Fits (n (suc i))
        → fp.lt (n (suc i)) (n i) ≡ true
        → Sinking (suc i) k n
        → Sinking i k (swap_down i n)
    swap-Sinking i k n h f less s = record {
      rest = λ m lt ne.
          rw (swapped i m n f, swapped i (suc m) n f)
            (ground (arith, s.rest m, s.gap i, order.lt_asymm (n (suc i)) (n i)));
      gap = λ m e lt. rw (swapped i m n f, swapped i (suc i) n f) (ground (arith, s.rest m));
    }

    sink-SortedTo :
        (j k : ℕ) (n : Array F)
        → j ≤ k
        → ((m : ℕ) → Fits (n m))
        → Sinking j k n
        → SortedTo k (sink j n)
    unfolding sink
    sink-SortedTo zero k n h f s = λ i lt. s.rest i lt (λ e. cc)
    sink-SortedTo (suc i) k n h f s = elim (Bool-cases (fp.lt (n (suc i)) (n i))) [
      | inl less ↦ rw less (
          sink-SortedTo i k (swap_down i n) (omega arith) (λ m. Fits-swap i m n f)
            (swap-Sinking i k n h (f (suc i)) less s))
      | inr placed ↦ rw placed (λ m lt. elim (ℕ_discrete m i) [
        | yes here ↦ rw here placed
        | no other ↦ s.rest m lt (λ e. other (omega arith))
      ])
    ]

    Fits-sink : (i : ℕ) (n : Array F) → ((m : ℕ) → Fits (n m)) → (m : ℕ) → Fits (sink i n m)
    unfolding sink
    Fits-sink zero n f m = f m
    Fits-sink (suc i) n f m = elim (Bool-cases (fp.lt (n (suc i)) (n i))) [
      | inl less ↦ rw less (Fits-sink i (swap_down i n) (λ j. Fits-swap i j n f) m)
      | inr placed ↦ rw placed (f m)
    ]

    -- one round of the outer loop, on heights that are sorted up to `k`
    extend-SortedTo :
        (k : ℕ) (n : Array F)
        → ((m : ℕ) → Fits (n m))
        → SortedTo k n
        → SortedTo (suc k) (sink (suc k) n)
    extend-SortedTo k n f s =
        sink-SortedTo (suc k) (suc k) n (omega arith) f
          (record { rest = λ i lt ne. s i (omega arith); gap = λ i e lt. absurd (omega arith) })

    insert_sort-SortedTo : (n : Array F) → ((m : ℕ) → Fits (n m)) → SortedTo 4 (insert_sort n)
    unfolding insert_sort
    insert_sort-SortedTo n f =
        let f1 = Fits-sink 1 n f in
        let f2 = Fits-sink 2 _ f1 in
        let f3 = Fits-sink 3 _ f2 in
        extend-SortedTo 3 _ f3 (
          extend-SortedTo 2 _ f2
            (extend-SortedTo 1 _ f1 (extend-SortedTo 0 n f (λ i lt. absurd (omega arith)))))

  swap_down-Perm :
      (i : ℕ) (n : Array F) → i < 4 → Fits (n (suc i)) → Perm (heights (swap_down i n)) (heights n)
  unfolding swap_down update
  swap_down-Perm zero n h f = rw f (Perm.swap _ _ _)
  swap_down-Perm (suc zero) n h f = rw f (Perm.cons _ (Perm.swap _ _ _))
  swap_down-Perm (suc (suc zero)) n h f = rw f (Perm.cons _ (Perm.cons _ (Perm.swap _ _ _)))
  swap_down-Perm (suc (suc (suc zero))) n h f =
      rw f (Perm.cons _ (Perm.cons _ (Perm.cons _ (Perm.swap _ _ _))))
  swap_down-Perm (suc (suc (suc (suc i)))) n h f = absurd (omega arith)

  sink-Perm :
      (j : ℕ) (n : Array F) → j ≤ 4 → ((m : ℕ) → Fits (n m)) → Perm (heights (sink j n)) (heights n)
  unfolding sink
  sink-Perm zero n h f = Perm.refl (heights n)
  sink-Perm (suc i) n h f = elim (Bool-cases (fp.lt (n (suc i)) (n i))) [
    | inl less ↦ rw less (
        Perm.trans (sink-Perm i (swap_down i n) (omega arith) (λ m. Fits-swap i m n f))
          (swap_down-Perm i n h (f (suc i))))
    | inr placed ↦ rw placed (Perm.refl (heights n))
  ]

  -- Where an `int` holds the five heights and `<` is the strict part of a total preorder,
  -- `insertSort` puts them in order and keeps each as often as it stands there.
  pub insert_sort-sorted :
      (n : Array F)
      → IsOrder fp
      → ((m : ℕ) → Fits (n m))
      → SortedTo 4 (insert_sort n) × Perm (heights (insert_sort n)) (heights n)
  unfolding insert_sort
  insert_sort-sorted n order f =
      let f1 = Fits-sink order 1 n f in
      let f2 = Fits-sink order 2 _ f1 in
      let f3 = Fits-sink order 3 _ f2 in
      (
        insert_sort-SortedTo order n f,
        Perm.trans (sink-Perm 4 _ (omega arith) f3) (
            Perm.trans (sink-Perm 3 _ (omega arith) f2)
              (Perm.trans (sink-Perm 2 _ (omega arith) f1) (sink-Perm 1 n (omega arith) f))),
      )

  -- A height that an `int` does not hold is changed by the sort: where the second one is less than
  -- the first, what goes to the front is its conversion to `int` and back.
  sink-truncates :
      (n : Array F)
      → fp.lt (n 1) (n 0) ≡ true
      → (sink 1 n 0 ≡ fp.of_int (fp.to_int (n 1))) × (sink 1 n 1 ≡ n 0)
  unfolding sink swap_down update
  sink-truncates n less = rw less (refl, refl)
