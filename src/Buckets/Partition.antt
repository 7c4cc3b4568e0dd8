-- ===== src/Buckets/Partition.antt =====
-- The parts into which the buckets split a history: their packets and their different marks.
use flo_watcher_dpdk.Common.{
  ℕ, zero, suc, ◌+◌, ◌<◌, ◌≤◌, ◌≡◌, refl, ◌∙◌, List, [], ◌∷◌, arith, All, length, count, sum_below,
  sum_below_congr, ◌==◌, if◌then◌else◌, Bool-cases, inl, inr,
}
use flo_watcher_dpdk.Buckets.{marks, after, after_all, total}
use flo_watcher_dpdk.Dpdk.{Mbuf}
use flo_watcher_dpdk.Tally.{distinct}

-- a sum to which one place adds `d`
sum_below-outside :
    (n x d : ℕ) (f : ℕ → ℕ)
    → n ≤ x
    → sum_below n (λ l. if l == x then d + f l else f l) ≡ sum_below n f
unfolding sum_below
sum_below-outside zero x d f h = refl
sum_below-outside (suc n) x d f h = ground (arith, sum_below-outside n x d f)

sum_below-place :
    (n x d : ℕ) (f : ℕ → ℕ)
    → x < n
    → sum_below n (λ l. if l == x then d + f l else f l) ≡ d + sum_below n f
unfolding sum_below
sum_below-place zero x d f h = absurd (omega arith)
sum_below-place (suc n) x d f h = elim (Bool-cases (n == x)) [
  | inl last ↦ rw last (omega (arith, sum_below-outside n x d f (ground arith)))
  | inr before ↦ rw before (omega (arith, sum_below-place n x d f (ground arith)))
]

sum_below-zero : (n : ℕ) → sum_below n (λ l. 0) ≡ 0
unfolding sum_below
sum_below-zero zero = refl
sum_below-zero (suc n) = omega (arith, sum_below-zero n)

-- where a number below `width` gets `d` more
pub sum_below-step :
    (width x d : ℕ) (f g : ℕ → ℕ)
    → x < width
    → ((l : ℕ) → g l ≡ (if l == x then d + f l else f l))
    → sum_below width g ≡ d + sum_below width f
sum_below-step width x d f g h e =
    sum_below_congr width g (λ l. if l == x then d + f l else f l) e ∙ sum_below-place width x d f h

module _ (low high : ℕ → ℕ) where
  pub marks-length_le : (l : ℕ) (rs : List ℕ) → length (marks low high l rs) ≤ length rs
  unfolding marks
  marks-length_le l [] = omega arith
  marks-length_le l (r ∷ rs) = ground (arith, marks-length_le l rs)

module _ (low high : ℕ → ℕ) (width : ℕ) where
  -- each packet belongs to one bucket
  pub marks-length :
      (rs : List ℕ)
      → All (λ r. low r < width) rs
      → sum_below width (λ l. length (marks low high l rs)) ≡ length rs
  unfolding marks
  marks-length [] h = sum_below-zero width
  marks-length (r ∷ rs) h = omega (
    arith,
    sum_below-step width (low r) 1 (λ l. length (marks low high l rs))
        (λ l. length (marks low high l (r ∷ rs))) h.0 (λ l. ground arith),
    marks-length rs h.1,
  )

  module _ (Word : ℕ → Type 0)
      (apart : (a b : ℕ) → Word a → Word b → low a ≡ low b → high a ≡ high b → a ≡ b) where
    -- in its bucket, a hash is told from the others by its mark
    count-marks :
        (r : ℕ) (rs : List ℕ)
        → Word r
        → All Word rs
        → count (high r) (marks low high (low r) rs) ≡ count r rs
    unfolding marks count
    count-marks r [] w h = refl
    count-marks r (x ∷ rs) w h = ground (arith, count-marks r rs w h.1, apart x r h.0 w)

    pub marks-distinct :
        (rs : List ℕ)
        → All (λ r. low r < width) rs
        → All Word rs
        → sum_below width (λ l. distinct (marks low high l rs)) ≡ distinct rs
    unfolding marks distinct
    marks-distinct [] h w = sum_below-zero width
    marks-distinct (r ∷ rs) h w = omega (
      arith,
      sum_below-step width (low r) (if count r rs == 0 then 1 else 0)
          (λ l. distinct (marks low high l rs)) (λ l. distinct (marks low high l (r ∷ rs))) h.0
          (λ l. ground (arith, count-marks r rs w.0 w.1)),
      marks-distinct rs h.1 w.1,
    )

pub distinct-le_length : (rs : List ℕ) → distinct rs ≤ length rs
unfolding distinct
distinct-le_length [] = omega arith
distinct-le_length (r ∷ rs) = ground (arith, distinct-le_length rs)

-- the packets of a run
pub after-length : (ms : List Mbuf) (rs : List ℕ) → length (after ms rs) ≡ length ms + length rs
unfolding after
after-length [] rs = omega arith
after-length (m ∷ ms) rs = omega (arith, after-length ms (m.rss ∷ rs))

pub after_all-length :
    (bursts : List (List Mbuf)) (rs : List ℕ)
    → length (after_all bursts rs) ≡ total bursts + length rs
unfolding after_all total
after_all-length [] rs = omega arith
after_all-length (ms ∷ rest) rs =
    omega (arith, after-length ms rs, after_all-length rest (after ms rs))
