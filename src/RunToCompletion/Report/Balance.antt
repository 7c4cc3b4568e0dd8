-- ===== src/RunToCompletion/Report/Balance.antt =====
-- The report of the DOUBLE_HASH build accounts for every packet.
use flo_watcher_dpdk.Common.{
  ℕ, zero, suc, ◌+◌, ◌<◌, ◌≡◌, refl, ◌∙◌, ap, ◌≢◌, true, Bool, List, [], ◌∷◌, arith, All, length,
  Array, sum_below, u32_mod, u64_mod, count-le-length,
}
use flo_watcher_dpdk.Buckets.{after_all, after_all-All, total}
use flo_watcher_dpdk.Buckets.Partition.{after_all-length}
use flo_watcher_dpdk.Common.History.{Nonzero}
use flo_watcher_dpdk.Double.{Arithmetic}
use flo_watcher_dpdk.Dpdk.{Mbuf}
use flo_watcher_dpdk.RunToCompletion.{Build, flow_num, index_high}
use flo_watcher_dpdk.RunToCompletion.Arrivals.{
  highs, highs-Nonzero, highs-le, highs-total, MarkedBurst,
}
use flo_watcher_dpdk.RunToCompletion.DoubleHash.{
  PktCount, State, double_hash, init_table, miscounted,
}
use flo_watcher_dpdk.RunToCompletion.DoubleHash.Accounts.{double_hash-re}
use flo_watcher_dpdk.RunToCompletion.DoubleHash.Counting.{Counted, Counted-parts}
use flo_watcher_dpdk.RunToCompletion.DoubleHash.Runs.{double_hash-Counted}
use flo_watcher_dpdk.RunToCompletion.Report.{miscounts, handler, finish, queue_counters}
use flo_watcher_dpdk.Statistics.{EthStats}

-- the three counters of a bucket make up its packets
Counted-sum :
    {F : Type 0} (hs : List ℕ) (c : PktCount F)
    → Nonzero hs
    → Counted hs c
    → length hs < u32_mod
    → c.ctr0 + c.ctr1 + c.ctr2 ≡ length hs
Counted-sum hs c n k small = omega (
  arith,
  Counted-parts hs c n k,
  count-le-length c.hi_f1 hs,
  count-le-length c.hi_f2 hs,
  k.ctr0,
  k.ctr1,
  k.ctr2,
)

miscounted-balance :
    {F : Type 0} (n : ℕ) (t : Array (PktCount F)) (g : ℕ → ℕ)
    → ((l : ℕ) → l < n → (t l).ctr0 + (t l).ctr1 + (t l).ctr2 ≡ g l)
    → sum_below n g < u64_mod
    → miscounted n t + sum_below n (λ l. (t l).ctr0 + (t l).ctr1) ≡ sum_below n g
unfolding miscounted sum_below
miscounted-balance zero t g e few = refl
miscounted-balance (suc n) t g e few =
    omega
      (arith, miscounted-balance n t g (λ l lt. e l (omega arith)) (omega arith), e n (omega arith))

module _ {F : Type 0} ⦃fp : Arithmetic F⦄ (b : Build) where
  -- The report accounts for every packet: with FLOW_LEVEL, on the table that `port_init` has reset,
  -- the queue counter that `handler` prints is the number of packets received, and the miscounted
  -- packets that it prints are those which the counters of the flows do not have. There are fewer
  -- than 2 ^ 32 packets, none with an upper hash half of 0, and the queue counter starts at 0.
  pub handler-balance :
      b.flow_level ≡ true
      → (write_file : Bool) (eth_stats : EthStats) (bursts : List (List Mbuf)) (s : State F)
        (t : Array (PktCount F))
      → All MarkedBurst bursts
      → total bursts < u32_mod
      → s.re 0 ≡ 0
      → s.pkt_ctr ≡ init_table b flow_num t
      → let s' = double_hash b 0 bursts s in
        let report = handler write_file eth_stats s' in
        (report.queues ≡ total bursts ∷ [])
        × ((missed : ℕ) × (report.table ≡ miscounts missed)
            × (missed + sum_below flow_num (λ l. (s'.pkt_ctr l).ctr0 + (s'.pkt_ctr l).ctr1)
                ≡ total bursts))
  unfolding handler finish queue_counters
  handler-balance flow write_file eth_stats bursts s t marked few start e =
      let s' = double_hash b 0 bursts s in
      let rs = after_all bursts [] in
      let many = after_all-length bursts [] in
      let all = highs-total rs in
      let queue : s'.re 0 ≡ total bursts = ground (arith, double_hash-re b 0 0 bursts s, start) in
      (
        ap (λ n. n ∷ []) queue,
        (
          miscounted flow_num s'.pkt_ctr,
          refl,
          miscounted-balance flow_num s'.pkt_ctr (λ l. length (highs l rs))
                (λ l lt.
                  Counted-sum (highs l rs) (s'.pkt_ctr l)
                    (highs-Nonzero l rs (after_all-All (λ r. index_high r ≢ 0) bursts [] marked tt))
                    (double_hash-Counted b flow 0 bursts s t l marked e lt)
                    (omega (arith, highs-le l rs, many)))
                (omega (arith, all, many))
              ∙ omega (arith, all, many),
        ),
      )
