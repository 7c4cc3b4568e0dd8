-- ===== src/Tally/Filled.antt =====
-- The entries of a chain that count, read up to the first one that does not: where no counter wraps,
-- these are all.
use flo_watcher_dpdk.Common.{
  ℕ, ◌+◌, ◌<◌, ◌≡◌, refl, ◌∙◌, ◌⊎◌, inl, inr, ◌||◌, true, List, [], ◌∷◌, arith, length, ltb, ◌==◌,
  if◌then◌else◌, Bool-cases,
}
use flo_watcher_dpdk.Common.History.{Nonzero}
use flo_watcher_dpdk.Tally.{
  Tally, bump, bump_all, bump_all-sum, used, sum, Free, sum-Free, distinct,
}
use native.Mathlib.Nat.{mod-eq_of_lt}

-- how many entries count before the first one that does not
unfoldable pub leading : Tally → ℕ
leading [] = 0
leading ((j, c) ∷ t) = if ltb 0 c then 1 + leading t else 0

-- the entries that do not count are free and stand at the end
abbrev Filled : Tally → Type 0
Filled [] = Unit
Filled ((j, c) ∷ t) = ((j ≡ 0) × (c ≡ 0) × Free t) ⊎ ((0 < c) × Filled t)

Filled-of_Free : (t : Tally) → Free t → Filled t
Filled-of_Free [] f = tt
Filled-of_Free ((j, c) ∷ t) f = inl (f.0.0, f.0.1, f.1)

leading-Filled : (t : Tally) → Filled t → leading t ≡ used t
unfolding leading used
leading-Filled [] f = refl
leading-Filled ((j, c) ∷ t) (inl (free, z, rest)) = rw z (omega (arith, sum-Free t rest))
leading-Filled ((j, c) ∷ t) (inr (p, f)) = ground (arith, leading-Filled t f)

-- one more packet, where the counters cannot wrap
bump-Filled : (m h : ℕ) (t : Tally) → sum t + 1 < m → Filled t → Filled (bump m h t)
unfolding bump sum
bump-Filled m h [] o f = inr (omega arith, tt)
bump-Filled m h ((j, c) ∷ t) o (inl (free, z, rest)) =
    let taken : (j == 0 || j == h) ≡ true = ground arith in
    rw taken (
      inr (omega (arith, z, mod-eq_of_lt {n = c + 1} {m = m} (omega arith)), Filled-of_Free t rest))
bump-Filled m h ((j, c) ∷ t) o (inr (p, rest)) = elim (Bool-cases (j == 0 || j == h)) [
  | inl own ↦ rw own (inr (omega (arith, mod-eq_of_lt {n = c + 1} {m = m} (omega arith)), rest))
  | inr other ↦ rw other (inr (p, bump-Filled m h t (omega arith) rest))
]

bump_all-Filled :
    (m : ℕ) (hs : List ℕ) (t : Tally)
    → Nonzero hs
    → Free t
    → length hs < m
    → Filled (bump_all m hs t)
unfolding bump_all
bump_all-Filled m [] t n f o = Filled-of_Free t f
bump_all-Filled m (h ∷ hs) t n f o =
    let (size, _) = bump_all-sum m hs t n.1 f (omega arith) in
    bump-Filled m h (bump_all m hs t) (omega arith) (bump_all-Filled m hs t n.1 f (omega arith))

-- Starting from free entries, where no counter can wrap, as many entries count before the first one
-- that does not as there are different marks.
pub bump_all-leading :
    (m : ℕ) (hs : List ℕ) (t : Tally)
    → Nonzero hs
    → Free t
    → length hs < m
    → leading (bump_all m hs t) ≡ distinct hs
bump_all-leading m hs t n f o =
    leading-Filled (bump_all m hs t) (bump_all-Filled m hs t n f o) ∙ (bump_all-sum m hs t n f o).1
