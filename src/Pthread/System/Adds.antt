-- ===== src/Pthread/System/Adds.antt =====
-- The loop over the counters in `handler` of pthread/main.c, and counters of which one is added to.
use flo_watcher_dpdk.Common.{
  ℕ, zero, suc, ◌+◌, ◌%◌, ◌<◌, ◌≡◌, ap, ◌∙◌, ◌≢◌, ◌⊎◌, inl, inr, arith, Array, if◌then◌else◌, ◌==◌,
  u64_mod, sum_below, sum_below_congr, sum_below-change, le-sum_below,
}
use flo_watcher_dpdk.Pthread.Report.{global_counter}

global_counter-sum_below :
    (g : Array ℕ) (rounds i : ℕ)
    → global_counter g rounds i (sum_below i g % u64_mod) ≡ sum_below (i + rounds) g % u64_mod
unfolding global_counter sum_below
global_counter-sum_below g zero i =
    let e : i ≡ i + 0 = omega arith in ap (λ n. sum_below n g % u64_mod) e
global_counter-sum_below g (suc rounds) i =
    let e : suc i ≡ i + 1 = omega arith in
    let next : (sum_below i g % u64_mod + g i) % u64_mod ≡ sum_below (i + 1) g % u64_mod =
      omega (arith, ap (λ n. sum_below n g) e) in
    let f : i + 1 + rounds ≡ i + suc rounds = omega arith in
    ap (global_counter g rounds (i + 1)) next
    ∙ global_counter-sum_below g rounds (i + 1)
    ∙ ap (λ n. sum_below n g % u64_mod) f

pub global_counter-sum : (g : Array ℕ) (n : ℕ) → global_counter g n 0 0 ≡ sum_below n g % u64_mod
unfolding sum_below
global_counter-sum g n =
    let e : 0 + n ≡ n = omega arith in
    global_counter-sum_below g n 0 ∙ ap (λ m. sum_below m g % u64_mod) e

-- counter `q` has `taken` more than before, and the others are as they were
abbrev pub Adds : ℕ → ℕ → Array ℕ → Array ℕ → Type 0
Adds q taken g g' =
    (j : ℕ) → g j < u64_mod → g' j ≡ (if j == q then (g j + taken) % u64_mod else g j)

abbrev pub Small : Array ℕ → Type 0
Small g = (j : ℕ) → g j < u64_mod

pub Adds-Small : (q taken : ℕ) (g g' : Array ℕ) → Small g → Adds q taken g g' → Small g'
Adds-Small q taken g g' small adds j = ground (arith, adds j (small j), small j)

-- the first `n` counters have `base` and what was seen, if this is below 2 ^ 64
abbrev pub Sums : ℕ → ℕ → ℕ → Array ℕ → Type 0
Sums n base seen g = base + seen < u64_mod → sum_below n g ≡ base + seen

-- what is added to one of them, or is nothing, is added to the sum
pub Adds-Sums :
    (n q base seen taken : ℕ) (g g' : Array ℕ)
    → Small g
    → Adds q taken g g'
    → ((q < n) ⊎ (taken ≡ 0))
    → Sums n base seen g
    → Sums n base (seen + taken) g'
Adds-Sums n q base seen taken g g' small adds (inl lt) sums few =
    let others : (j : ℕ) → j ≢ q → g' j ≡ g j = λ j d. ground (arith, adds j (small j)) in
    let own : g' q ≡ (g q + taken) % u64_mod = ground (arith, adds q (small q)) in
    let sum = sums (omega arith) in
    omega (arith, le-sum_below n q g lt, sum_below-change n q g g' lt others, own, sum)
Adds-Sums n q base seen taken g g' small adds (inr none) sums few =
    let same : (j : ℕ) → g' j ≡ g j = λ j. ground (arith, adds j (small j), small j) in
    let sum = sums (omega arith) in omega (arith, sum_below_congr n g' g same, sum)
