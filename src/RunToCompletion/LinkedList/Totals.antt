-- ===== src/RunToCompletion/LinkedList/Totals.antt =====
-- The LINKED_LIST build from its initialisation to the report of `handler`.
use flo_watcher_dpdk.Common.{
  ℕ, zero, suc, ◌+◌, ◌-◌, ◌%◌, ◌<◌, ◌≤◌, ◌≡◌, refl, ◌∙◌, ap, ◌≢◌, inl, inr, true, false, List, [],
  ◌∷◌, arith, All, length, count, u32_mod, u64_mod, Array, update, sum_below, ◌==◌, Bool-cases,
  add64,
}
use flo_watcher_dpdk.Double.{Arithmetic}
use flo_watcher_dpdk.Dpdk.{Mbuf}
use flo_watcher_dpdk.Outcome.{ok, fault, Calloc, Ends, mono-Ends}
use flo_watcher_dpdk.Tally.{
  Tally, bump_all, tally, used, sum, Free, zeros, zeros-Free, distinct, tally-bump_all,
  bump_all-sum,
}
use flo_watcher_dpdk.RunToCompletion.{Build, flow_num, index_high}
use flo_watcher_dpdk.Buckets.{marks, after_all, after_all-All}
use flo_watcher_dpdk.RunToCompletion.Arrivals.{highs, Marked, highs-Nonzero, MarkedBurst}
use flo_watcher_dpdk.RunToCompletion.LinkedList.{
  Chain, State, fresh, extend, init_chain, flow_struct_init, linked_list, report_chain, report,
}
use flo_watcher_dpdk.RunToCompletion.LinkedList.Exact.{view, Tallied, linked_list-Tallied}

-- what `flow_struct_init (size)` makes of a chain
abbrev pub start : ℕ → Tally
start size = (0, 0) ∷ zeros ((size + (u32_mod - 1)) % u32_mod)

pub start-ne_nil : (size : ℕ) → start size ≢ []
start-ne_nil size e = cc

start-Free : (size : ℕ) → Free (start size)
start-Free size = ((refl, refl), zeros-Free _)

module _ {F : Type 0} ⦃fp : Arithmetic F⦄ (calloc : Calloc) where
  module _ (given : (n : ℕ) → calloc n ≡ true) where
    extend-zeros :
        (j calls : ℕ) → (r : Chain F × ℕ) × (extend calloc j calls ≡ ok r) × (view r.0 ≡ zeros j)
    unfolding extend view zeros fresh
    extend-zeros zero calls = (([], calls), refl, refl)
    extend-zeros (suc j) calls =
        let (r, run, e) = extend-zeros j (calls + 1) in
        ((fresh calloc ∷ r.0, r.1), rw (given calls, run), ap (λ t. (0, 0) ∷ t) e)

    init_chain-start :
        (size calls : ℕ)
        → (r : Chain F × ℕ) × (init_chain calloc size calls ≡ ok r) × (view r.0 ≡ start size)
    unfolding init_chain view fresh
    init_chain-start size calls =
        let (r, run, e) = extend-zeros ((size + (u32_mod - 1)) % u32_mod) (calls + 1) in
        ((fresh calloc ∷ r.0, r.1), rw (given calls, run), ap (λ t. (0, 0) ∷ t) e)

    -- Where memory is never refused, the initialisation ends and every bucket gets a chain of free
    -- entries.
    pub flow_struct_init-Tallied :
        (n size : ℕ) (s : Array (Chain F) × ℕ)
        → (r : Array (Chain F) × ℕ) × (flow_struct_init calloc n size s ≡ ok r)
          × ((l : ℕ) → l < n → view (r.0 l) ≡ start size)
    unfolding flow_struct_init update
    flow_struct_init-Tallied zero size s = (s, refl, λ l h. absurd (omega arith))
    flow_struct_init-Tallied (suc i) size s =
        let (r, run, k) = flow_struct_init-Tallied i size s in
        let (c, made, e) = init_chain-start size r.1 in
        (
          (update r.0 i c.0, c.1),
          rw (run, made),
          λ l h. elim (Bool-cases (l == i)) [
            | inl last ↦ rw last e
            | inr before ↦ rw before (k l (ground arith))
          ],
        )

  -- If the second allocation of a chain is refused, the program uses NULL: the test behind it looks
  -- at the entry before, and the `-1` that the caller expects is not returned.
  init_chain-fault :
      (size calls : ℕ)
      → 2 ≤ size
      → size < u32_mod
      → calloc calls ≡ true
      → calloc (calls + 1) ≡ false
      → init_chain {F = F} calloc size calls ≡ fault
  unfolding init_chain extend
  init_chain-fault size calls two small first second =
      let rounds : (size + (u32_mod - 1)) % u32_mod ≡ suc (size - 2) = omega arith in
      rw (first, rounds, second)

  -- Exact counters, and a loop that does not fault: after any bursts on initialised chains the
  -- counter of each flow of each bucket is the number of its packets, modulo 2 ^ 32, unless the
  -- program has ended because memory was refused. No packet has an upper hash half of 0.
  pub linked_list-tally :
      (b : Build) (q size : ℕ) (bursts : List (List Mbuf)) (s : State F)
      → ((l : ℕ) → l < flow_num → view (s.flows l) ≡ start size)
      → All MarkedBurst bursts
      → Ends calloc
          (λ s'.
            (l k : ℕ)
            → l < flow_num
            → k ≢ 0
            → tally k (view (s'.flows l)) ≡ count k (highs l (after_all bursts [])) % u32_mod)
          (linked_list calloc b q bursts s)
  unfolding marks bump_all
  linked_list-tally b q size bursts s k h =
      let rs = after_all bursts [] in
      mono-Ends calloc (λ s'. Tallied (start size) rs s'.flows) _ (linked_list calloc b q bursts s)
        (linked_list-Tallied calloc (start size) b q bursts [] s
          (λ l lt. (k l lt, rw (k l lt) (start-ne_nil size))))
        (λ s' e l k lt nz.
          ap (tally k) (e l lt).0
          ∙ tally-bump_all u32_mod k (highs l rs) (start size) nz (omega arith)
              (highs-Nonzero l rs (after_all-All (λ r. index_high r ≢ 0) bursts [] h tt))
              (start-Free size))

report_chain-sums :
    {F : Type 0} (c : Chain F) (fls n : ℕ)
    → fls < u64_mod
    → n < u64_mod
    → report_chain c (fls, n) ≡ ((fls + used (view c)) % u64_mod, (n + sum (view c)) % u64_mod)
unfolding report_chain view used sum
report_chain-sums [] fls n p q = ground arith
report_chain-sums (f ∷ rest) fls n p q = ground (
  arith,
  report_chain-sums rest (add64 fls 1) (add64 n f.ctr),
  report_chain-sums rest fls (add64 n f.ctr),
)

report_chain_wrapped :
    {F : Type 0} (c : Chain F) (a b : ℕ)
    → report_chain c (a % u64_mod, b % u64_mod)
      ≡ ((a + used (view c)) % u64_mod, (b + sum (view c)) % u64_mod)
report_chain_wrapped c a b = ground (arith, report_chain-sums c (a % u64_mod) (b % u64_mod))

-- Where no bucket has 2 ^ 32 packets, `handler` reports the number of different flows, by bucket
-- and upper hash half, and the number of packets of the table, both modulo 2 ^ 64.
pub report-distinct :
    {F : Type 0} (rs : List ℕ) (size n : ℕ) (t : Array (Chain F))
    → Marked rs
    → ((l : ℕ) → l < n → view (t l) ≡ bump_all u32_mod (highs l rs) (start size))
    → ((l : ℕ) → l < n → length (highs l rs) < u32_mod)
    → report n t ≡ (
      sum_below n (λ l. distinct (highs l rs)) % u64_mod,
      sum_below n (λ l. length (highs l rs)) % u64_mod,
    )
unfolding report sum_below
report-distinct rs size zero t m k small = refl
report-distinct rs size (suc n) t m k small =
    let ih =
      report-distinct rs size n t m (λ l h. k l (omega arith)) (λ l h. small l (omega arith)) in
    let here = k n (omega arith) in
    let (total, flows) =
      bump_all-sum u32_mod (highs n rs) (start size) (highs-Nonzero n rs m) (start-Free size)
        (small n (omega arith)) in
    rw (ih, report_chain_wrapped (t n), here, total, flows)
