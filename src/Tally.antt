-- ===== src/Tally.antt =====
-- What a chain of flow entries promises, whichever program owns it: a list of marks with counters
-- in which each packet is counted at the entry of its mark. A mark of 0 stands for a free entry.
-- It is the specification of the chains of the LINKED_LIST and HASH_LIST builds.
pub mod Filled
use flo_watcher_dpdk.Common.{
  ℕ, zero, suc, ◌∙◌, sym, true, false, Bool-cases, ◌+◌, ◌%◌, ◌<◌, ◌≡◌, refl, ◌≢◌, ◌⊎◌, inl, inr,
  ◌||◌, List, [], ◌∷◌, arith, All, length, count, count-le-length, ltb, ◌==◌, if◌then◌else◌,
}
use flo_watcher_dpdk.Common.History.{Nonzero}
use native.Mathlib.Nat.{mod-eq_of_lt, mod-add-mod, add_comm}

abbrev pub Tally : Type 0
Tally = List (ℕ × ℕ)

-- a packet with mark `h` under counters that wrap at `m`: the first entry that is free or has the
-- mark takes it, a new one at the end if there is none
unfoldable pub bump : ℕ → ℕ → Tally → Tally
bump m h [] = (h, 1) ∷ []
bump m h ((k, c) ∷ t) = if k == 0 || k == h then (h, (c + 1) % m) ∷ t else (k, c) ∷ bump m h t

-- the counter of a mark, 0 if it has none
unfoldable pub tally : ℕ → Tally → ℕ
tally k [] = 0
tally k ((j, c) ∷ t) = if j == k then c else tally k t

-- the entries that count, and all that they have counted
unfoldable pub used : Tally → ℕ
used [] = 0
used ((j, c) ∷ t) = (if ltb 0 c then 1 else 0) + used t

unfoldable pub sum : Tally → ℕ
sum [] = 0
sum ((j, c) ∷ t) = c + sum t

abbrev pub Free : Tally → Type 0
Free = All (λ e. (e.0 ≡ 0) × (e.1 ≡ 0))

abbrev pub Absent : ℕ → Tally → Type 0
Absent k = All (λ e. e.0 ≢ k)

-- each mark has one entry, and the free entries stand at the end
abbrev pub IsTally : Tally → Type 0
IsTally [] = Unit
IsTally ((k, c) ∷ t) = ((k ≡ 0) × (c ≡ 0) × Free t) ⊎ ((k ≢ 0) × Absent k t × IsTally t)

tally-Absent : (k : ℕ) (t : Tally) → Absent k t → tally k t ≡ 0
unfolding tally
tally-Absent k [] a = refl
tally-Absent k ((j, c) ∷ t) a = ground (arith, tally-Absent k t a.1)

tally-Free : (k : ℕ) (t : Tally) → Free t → tally k t ≡ 0
unfolding tally
tally-Free k [] a = refl
tally-Free k ((j, c) ∷ t) a = ground (arith, tally-Free k t a.1)

Absent-of_Free : (k : ℕ) (t : Tally) → k ≢ 0 → Free t → Absent k t
Absent-of_Free k [] nz f = tt
Absent-of_Free k ((j, c) ∷ t) nz f = ground (arith, Absent-of_Free k t nz f.1)

IsTally-of_Free : (t : Tally) → Free t → IsTally t
IsTally-of_Free [] f = tt
IsTally-of_Free ((j, c) ∷ t) f = inl (f.0.0, f.0.1, f.1)

inc-mod : (m x : ℕ) → (x % m + 1) % m ≡ (1 + x) % m
inc-mod m x = rw (mod-add-mod, add_comm x 1)

one-mod : (m : ℕ) → 1 < m → 1 % m ≡ 1
one-mod m o = mod-eq_of_lt o

module _ (m h : ℕ) (nz : h ≢ 0) where
  bump-Absent : (k : ℕ) (t : Tally) → k ≢ h → Absent k t → Absent k (bump m h t)
  unfolding bump
  bump-Absent k [] d a = (λ e. d (sym e), tt)
  bump-Absent k ((j, c) ∷ t) d a = ground (arith, bump-Absent k t d a.1)

  bump-IsTally : (t : Tally) → IsTally t → IsTally (bump m h t)
  unfolding bump
  bump-IsTally [] w = inr (nz, tt, tt)
  bump-IsTally ((k, c) ∷ t) (inl (z, z', f)) =
      let taken : (k == 0 || k == h) ≡ true = ground arith in
      rw taken (inr (nz, Absent-of_Free h t nz f, IsTally-of_Free t f))
  bump-IsTally ((k, c) ∷ t) (inr (z, a, w)) = elim (Bool-cases (k == h)) [
    | inl own ↦
        let e : k ≡ h = ground arith in
        let taken : (k == 0 || k == h) ≡ true = ground arith in rw taken (inr (nz, rw e at a, w))
    | inr other ↦
        let kept : (k == 0 || k == h) ≡ false = ground arith in
        rw kept (inr (z, bump-Absent k t (ground arith) a, bump-IsTally t w))
  ]

  tally-bump :
      (k : ℕ) (t : Tally)
      → k ≢ 0
      → 1 < m
      → IsTally t
      → tally k (bump m h t) ≡ (if k == h then (tally k t + 1) % m else tally k t)
  unfolding bump tally
  tally-bump k [] z o w = ground (arith, one-mod m o)
  tally-bump k ((j, c) ∷ t) z o (inl (z', c', f)) = ground (arith, tally-Free k t f)
  tally-bump k ((j, c) ∷ t) z o (inr (z', a, w)) =
      ground (arith, tally-bump k t z o w, tally-Absent j t a)

-- all packets of a history, most recent first
unfoldable pub bump_all : ℕ → List ℕ → Tally → Tally
bump_all m [] t = t
bump_all m (h ∷ hs) t = bump m h (bump_all m hs t)

-- how many different marks a history has
unfoldable pub distinct : List ℕ → ℕ
distinct [] = 0
distinct (h ∷ hs) = (if count h hs == 0 then 1 else 0) + distinct hs

bump_all-IsTally :
    (m : ℕ) (hs : List ℕ) (t : Tally) → Nonzero hs → IsTally t → IsTally (bump_all m hs t)
unfolding bump_all
bump_all-IsTally m [] t n w = w
bump_all-IsTally m (h ∷ hs) t n w = bump-IsTally m h n.0 _ (bump_all-IsTally m hs t n.1 w)

-- starting from free entries, the counter of a mark is the number of its packets
pub tally-bump_all :
    (m k : ℕ) (hs : List ℕ) (t : Tally)
    → k ≢ 0
    → 1 < m
    → Nonzero hs
    → Free t
    → tally k (bump_all m hs t) ≡ count k hs % m
unfolding bump_all count
tally-bump_all m k [] t z o n f = tally-Free k t f ∙ sym (mod-eq_of_lt (omega arith))
tally-bump_all m k (h ∷ hs) t z o n f =
    let ih = tally-bump_all m k hs t z o n.1 f in
    let step =
      tally-bump m h n.0 k (bump_all m hs t) z o
        (bump_all-IsTally m hs t n.1 (IsTally-of_Free t f)) in
    ground (arith, step, ih, inc-mod m (count k hs))

pub sum-Free : (t : Tally) → Free t → (sum t ≡ 0) × (used t ≡ 0)
unfolding sum used
sum-Free [] f = (refl, refl)
sum-Free ((j, c) ∷ t) f =
    let (s, u) = sum-Free t f.1 in (omega (arith, f.0), rw f.0.1 (omega arith))

inc-eq : (m c : ℕ) → c + 1 < m → (c + 1) % m ≡ c + 1
inc-eq m c o = mod-eq_of_lt o

-- one more packet, where the counters cannot wrap
sum-bump : (m h : ℕ) (t : Tally) → sum t + 1 < m → sum (bump m h t) ≡ sum t + 1
unfolding bump sum
sum-bump m h [] o = refl
sum-bump m h ((j, c) ∷ t) o = ground (arith, sum-bump m h t, inc-eq m c)

used-bump :
    (m h : ℕ) (t : Tally)
    → h ≢ 0
    → IsTally t
    → sum t + 1 < m
    → used (bump m h t) ≡ (if tally h t == 0 then 1 else 0) + used t
unfolding bump used tally sum
used-bump m h [] z w o = refl
used-bump m h ((j, c) ∷ t) z (inl (z', c', f)) o = ground (arith, tally-Free h t f, inc-eq m c)
used-bump m h ((j, c) ∷ t) z (inr (z', a, w)) o =
    ground (arith, used-bump m h t z w, tally-Absent j t a, inc-eq m c)

-- Starting from free entries, where no counter can wrap, the counters add up to the packets and as
-- many entries count as there are different marks.
pub bump_all-sum :
    (m : ℕ) (hs : List ℕ) (t : Tally)
    → Nonzero hs
    → Free t
    → length hs < m
    → (sum (bump_all m hs t) ≡ length hs) × (used (bump_all m hs t) ≡ distinct hs)
unfolding bump_all distinct
bump_all-sum m [] t n f o = sum-Free t f
bump_all-sum m (h ∷ hs) t n f o =
    let (s, u) = bump_all-sum m hs t n.1 f (omega arith) in
    let w = bump_all-IsTally m hs t n.1 (IsTally-of_Free t f) in
    let known = tally-bump_all m h hs t n.0 (omega arith) n.1 f in
    let small = mod-eq_of_lt {n = count h hs} {m = m} (omega (arith, count-le-length h hs)) in
    (
      omega (arith, sum-bump m h (bump_all m hs t)),
      ground (arith, used-bump m h (bump_all m hs t) n.0 w, known, small),
    )

pub bump-ne_nil : (m h : ℕ) (t : Tally) → bump m h t ≢ []
unfolding bump
bump-ne_nil m h [] e = cc
bump-ne_nil m h ((j, c) ∷ t) e = ground arith

-- the tally of a chain that has only free entries
unfoldable pub zeros : ℕ → Tally
zeros zero = []
zeros (suc n) = (0, 0) ∷ zeros n

pub zeros-Free : (n : ℕ) → Free (zeros n)
unfolding zeros
zeros-Free zero = tt
zeros-Free (suc n) = ((refl, refl), zeros-Free n)
