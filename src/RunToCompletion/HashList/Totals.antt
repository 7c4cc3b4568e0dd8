-- ===== src/RunToCompletion/HashList/Totals.antt =====
-- The HASH_LIST build from the loop of `port_init` to the report of `handler`.
use flo_watcher_dpdk.Common.{
  ℕ, zero, suc, ◌+◌, ◌%◌, ◌<◌, ◌≡◌, refl, sym, ◌∙◌, ap, ◌≢◌, inl, inr, true, List, [], ◌∷◌,
  if◌then◌else◌, ltb, arith, All, length, count, u32_mod, u64_mod, Array, update, sum_below, ◌==◌,
  Bool-cases, add64,
}
use flo_watcher_dpdk.Buckets.{marks, after_all, after_all-All}
use flo_watcher_dpdk.Double.{Arithmetic}
use flo_watcher_dpdk.Dpdk.{Mbuf}
use flo_watcher_dpdk.Outcome.{ok, Calloc, Ends, mono-Ends}
use flo_watcher_dpdk.Tally.{
  Tally, bump_all, tally, used, sum, zeros, zeros-Free, distinct, tally-bump_all, bump_all-sum,
}
use flo_watcher_dpdk.RunToCompletion.{Build, flow_num, index_high}
use flo_watcher_dpdk.RunToCompletion.Arrivals.{highs, Marked, highs-Nonzero, MarkedBurst}
use flo_watcher_dpdk.RunToCompletion.HashList.{
  FlowEntry, PktCount, State, entry_per_flow, cleared, init_chain, extend, reset, init_table,
  hash_list, report_slot, report_chain, report,
}
use flo_watcher_dpdk.RunToCompletion.HashList.Exact.{view_chain, view, Tallied, hash_list-Tallied}

-- what the initialisation makes of a bucket: two free slots and a free entry
abbrev pub start : Tally
start = zeros 3

pub start-Chained : {F : Type 0} (c : PktCount F) → view c ≡ start → view_chain c.flows ≢ []
unfolding view zeros
start-Chained c e none =
    let one : view_chain c.flows ≡ (0, 0) ∷ [] = cc in cons-ne_nil (sym one ∙ none)
  where
    cons-ne_nil : {x : ℕ × ℕ} {t : Tally} → x ∷ t ≢ []
    cons-ne_nil e = cc

module _ {F : Type 0} ⦃fp : Arithmetic F⦄ (calloc : Calloc) where
  module _ (given : (n : ℕ) → calloc n ≡ true) where
    init_chain-free :
        (calls : ℕ) → init_chain {F = F} calloc entry_per_flow calls ≡ ok (cleared ∷ [], calls + 1)
    unfolding init_chain extend
    init_chain-free calls = rw (given calls) refl

    reset-view :
        (b : Build) (c : PktCount F) → view (record (reset b c) { flows = cleared ∷ [] }) ≡ start
    unfolding reset view view_chain cleared zeros
    reset-view b c = elim (Bool-cases b.ipg) [
      | inl on ↦ elim (Bool-cases b.quantile) [
        | inl deep ↦ simp (on, deep)
        | inr flat ↦ simp (on, flat)
      ]
      | inr off ↦ simp off
    ]

    -- Where memory is never refused, the initialisation ends, and every bucket has two free slots
    -- and a chain of one free entry.
    pub init_table-Tallied :
        (b : Build) (n : ℕ) (s : Array (PktCount F) × ℕ)
        → (r : Array (PktCount F) × ℕ) × (init_table calloc b n s ≡ ok r)
          × ((l : ℕ) → l < n → view (r.0 l) ≡ start)
    unfolding init_table update
    init_table-Tallied b zero s = (s, refl, λ l h. absurd (omega arith))
    init_table-Tallied b (suc i) s =
        let (r, run, k) = init_table-Tallied b i s in
        (
          (update r.0 i (record (reset b (r.0 i)) { flows = cleared ∷ [] }), r.1 + 1),
          rw (run, init_chain-free r.1) refl,
          λ l h. elim (Bool-cases (l == i)) [
            | inl last ↦ rw last (reset-view b (r.0 i))
            | inr before ↦ rw before (k l (ground arith))
          ],
        )

  -- Exact counters, and a loop that does not fault: after any bursts on an initialised table the
  -- counter of each flow of each bucket, in a slot or in the chain, is the number of its packets,
  -- modulo 2 ^ 32, unless the program has ended because memory was refused. No packet has an upper
  -- hash half of 0.
  pub hash_list-tally :
      (b : Build) (q : ℕ) (bursts : List (List Mbuf)) (s : State F)
      → ((l : ℕ) → l < flow_num → view (s.pkt_ctr l) ≡ start)
      → All MarkedBurst bursts
      → Ends calloc
          (λ s'.
            (l k : ℕ)
            → l < flow_num
            → k ≢ 0
            → tally k (view (s'.pkt_ctr l)) ≡ count k (highs l (after_all bursts [])) % u32_mod)
          (hash_list calloc b q bursts s)
  unfolding marks bump_all zeros
  hash_list-tally b q bursts s k h =
      let rs = after_all bursts [] in
      mono-Ends calloc (λ s'. Tallied start rs s'.pkt_ctr) _ (hash_list calloc b q bursts s)
        (hash_list-Tallied calloc start b q bursts [] s
          (λ l lt. (k l lt, start-Chained (s.pkt_ctr l) (k l lt))))
        (λ s' e l k lt nz.
          ap (tally k) (e l lt).0
          ∙ tally-bump_all u32_mod k (highs l rs) start nz (omega arith)
              (highs-Nonzero l rs (after_all-All (λ r. index_high r ≢ 0) bursts [] h tt))
              (zeros-Free 3))

-- a slot counts like an entry of the chain
abbrev one : ℕ → ℕ
one ctr = if ltb 0 ctr then 1 else 0

report_slot_wrapped :
    (ctr a b : ℕ)
    → report_slot ctr (a % u64_mod, b % u64_mod) ≡ ((a + one ctr) % u64_mod, (b + ctr) % u64_mod)
unfolding report_slot
report_slot_wrapped ctr a b = ground arith

report_chain-sums :
    {F : Type 0} (c : List (FlowEntry F)) (fls n : ℕ)
    → fls < u64_mod
    → n < u64_mod
    → report_chain c (fls, n)
      ≡ ((fls + used (view_chain c)) % u64_mod, (n + sum (view_chain c)) % u64_mod)
unfolding report_chain view_chain used sum
report_chain-sums [] fls n p q = ground arith
report_chain-sums (f ∷ rest) fls n p q = ground (
  arith,
  report_chain-sums rest (add64 fls 1) (add64 n f.ctr),
  report_chain-sums rest fls (add64 n f.ctr),
)

report_chain_wrapped :
    {F : Type 0} (c : List (FlowEntry F)) (a b : ℕ)
    → report_chain c (a % u64_mod, b % u64_mod)
      ≡ ((a + used (view_chain c)) % u64_mod, (b + sum (view_chain c)) % u64_mod)
report_chain_wrapped c a b = ground (arith, report_chain-sums c (a % u64_mod) (b % u64_mod))

bucket-sums :
    {F : Type 0} (c : PktCount F) (a b : ℕ)
    → report_chain c.flows (report_slot c.ctr1 (report_slot c.ctr0 (a % u64_mod, b % u64_mod)))
      ≡ ((a + used (view c)) % u64_mod, (b + sum (view c)) % u64_mod)
unfolding view used sum
bucket-sums c a b =
    rw
      (
        report_slot_wrapped c.ctr0 a b,
        report_slot_wrapped c.ctr1 (a + one c.ctr0) (b + c.ctr0),
        report_chain_wrapped c.flows (a + one c.ctr0 + one c.ctr1) (b + c.ctr0 + c.ctr1),
      )
      (ground arith)

-- Where no bucket has 2 ^ 32 packets, `handler` reports the number of different flows, by bucket
-- and upper hash half, and the number of packets of the table, both modulo 2 ^ 64.
pub report-flows :
    {F : Type 0} (rs : List ℕ) (n : ℕ) (t : Array (PktCount F))
    → Marked rs
    → ((l : ℕ) → l < n → view (t l) ≡ bump_all u32_mod (highs l rs) start)
    → ((l : ℕ) → l < n → length (highs l rs) < u32_mod)
    → report n t ≡ (
      sum_below n (λ l. distinct (highs l rs)) % u64_mod,
      sum_below n (λ l. length (highs l rs)) % u64_mod,
    )
unfolding report sum_below
report-flows rs zero t m k small = refl
report-flows rs (suc n) t m k small =
    let ih = report-flows rs n t m (λ l h. k l (omega arith)) (λ l h. small l (omega arith)) in
    let here = k n (omega arith) in
    let (total, flows) =
      bump_all-sum u32_mod (highs n rs) start (highs-Nonzero n rs m) (zeros-Free 3)
        (small n (omega arith)) in
    rw (ih, bucket-sums (t n), here, total, flows)
