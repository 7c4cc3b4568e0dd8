-- ===== src/Lthread/Pipeline/Report.antt =====
-- What `handler` of lthread/main.c reports of the flow table, for every interleaving of the threads.
use Prim.Native.Nat.{min}
use flo_watcher_dpdk.Common.{
  ℕ, zero, suc, ◌+◌, ◌*◌, ◌≤◌, ◌<◌, ◌≡◌, refl, ◌≢◌, List, [], arith, All, length, count-le-length,
  Array, ltb, if◌then◌else◌, sum_below, u32_mod,
}
use flo_watcher_dpdk.Common.History.{Nonzero}
use flo_watcher_dpdk.Buckets.{after_all, total, after_all-All}
use flo_watcher_dpdk.Buckets.Partition.{after_all-length}
use flo_watcher_dpdk.Double.{Arithmetic}
use flo_watcher_dpdk.Lthread.DoubleHash.{PktCount, init_table, report_slot, report}
use flo_watcher_dpdk.Lthread.DoubleHash.Same.{counts_of}
use flo_watcher_dpdk.Lthread.Pipeline.{Cond, State, Event, Setting, run, batches}
use flo_watcher_dpdk.Lthread.Pipeline.Counting.{run-Counted_lthread}
use flo_watcher_dpdk.Ring.{Ring}
use flo_watcher_dpdk.RunToCompletion.{flow_num, index_high}
use flo_watcher_dpdk.RunToCompletion.Arrivals.{
  highs, MarkedBurst, highs-Nonzero, highs-le, highs-total,
}
use flo_watcher_dpdk.RunToCompletion.DoubleHash.Counting.{Counted, Counted-parts}
use flo_watcher_dpdk.Slots
use flo_watcher_dpdk.Slots.{Slots}
use flo_watcher_dpdk.Slots.Used.{used_slots, used_slots-distinct}
use flo_watcher_dpdk.Tally.{distinct}

module _ {F : Type 0} ⦃fp : Arithmetic F⦄ where
  -- a bucket that stands for a history that cannot wrap
  abbrev Exact : List ℕ → PktCount F → Type 0
  Exact hs c = Nonzero hs × Counted hs (counts_of c) × (length hs < u32_mod)

  Exact-counters :
      (hs : List ℕ) (c : PktCount F)
      → Exact hs c
      → (c.ctr0 + c.ctr1 + c.ctr2 ≡ length hs)
        × ((if ltb 0 c.ctr0 then 1 else 0) + (if ltb 0 c.ctr1 then 1 else 0) ≡ min 2 (distinct hs))
  unfolding used_slots
  Exact-counters hs c (n, k, small) =
      let parts = Counted-parts hs (counts_of c) n k in
      let le0 = count-le-length c.hi_f1 hs in
      let le1 = count-le-length c.hi_f2 hs in
      let slots : Slots = record {
        hi_f1 = c.hi_f1;
        hi_f2 = c.hi_f2;
        ctr0 = c.ctr0;
        ctr1 = c.ctr1;
      } in
      let counted : Slots.Counted hs slots = record {
        first = k.first;
        second = k.second;
        ctr0 = omega (arith, k.ctr0, le0);
        ctr1 = omega (arith, k.ctr1, le1);
      } in
      (
        omega (arith, parts, k.ctr0, k.ctr1, k.ctr2),
        used_slots-distinct hs slots n counted (omega arith),
      )

  report-sums :
      (n : ℕ) (t : Array (PktCount F)) (hs : ℕ → List ℕ)
      → n ≤ flow_num
      → ((l : ℕ) → l < n → Exact (hs l) (t l))
      → ((report n t).0 ≡ sum_below n (λ l. min 2 (distinct (hs l))))
        × ((report n t).1 + sum_below n (λ l. (t l).ctr2) ≡ sum_below n (λ l. length (hs l)))
        × ((report n t).1 ≤ n * u32_mod)
  unfolding report report_slot sum_below
  report-sums zero t hs small e = (refl, refl, omega arith)
  report-sums (suc n) t hs small e =
      let (flows, packets, bound) = report-sums n t hs (omega arith) (λ l h. e l (omega arith)) in
      let (all, used) = Exact-counters (hs n) (t n) (e n (omega arith)) in
      let few = (e n (omega arith)).2 in ground arith

module _ {R C F : Type 0} ⦃fp : Arithmetic F⦄ (ops : Ring R) (cond : Cond C) (k : Setting) where
  -- Whatever the order in which the threads run, on the table that `main` has reset `handler` reports
  -- for each bucket the number of different flows that were taken out of the rings, two at most, and
  -- all packets that were taken out but those of the further flows, which the third counters have.
  -- There are fewer than 2 ^ 32 packets, none with an upper hash half of 0.
  pub run-report :
      (es : List Event) (s : State R C F) (t : Array (PktCount F))
      → All MarkedBurst (batches ops cond k es s)
      → s.pkt_ctr ≡ init_table k.macros flow_num t
      → total (batches ops cond k es s) < u32_mod
      → let rs = after_all (batches ops cond k es s) [] in
        let table = (run ops cond k es s).pkt_ctr in
        ((report flow_num table).0 ≡ sum_below flow_num (λ l. min 2 (distinct (highs l rs))))
        × ((report flow_num table).1 + sum_below flow_num (λ l. (table l).ctr2)
            ≡ total (batches ops cond k es s))
  run-report es s t marked e few =
      let bursts = batches ops cond k es s in
      let rs = after_all bursts [] in
      let many = after_all-length bursts [] in
      let (flows, packets, _) =
        report-sums flow_num (run ops cond k es s).pkt_ctr (λ l. highs l rs) (omega arith)
          (λ l lt. (
            highs-Nonzero l rs (after_all-All (λ r. index_high r ≢ 0) bursts [] marked tt),
            run-Counted_lthread ops cond k es s t l marked e lt,
            omega (arith, highs-le l rs, many),
          )) in
      (flows, omega (arith, packets, highs-total rs, many))
