-- ===== src/RunToCompletion/LinkedList/Session.antt =====
-- The LINKED_LIST build from start to report: `port_init` prepares the chains, `linked_list` counts,
-- and `handler` prints the number of flows and of packets.
use flo_watcher_dpdk.Common.{ℕ, ◌<◌, ◌^◌, ◌≡◌, ◌≢◌, ◌∙◌, ap, true, List, [], arith, All, u32_mod}
use flo_watcher_dpdk.Buckets.{marks, after_all, after_all-All, total}
use flo_watcher_dpdk.Buckets.Partition.{after_all-length}
use flo_watcher_dpdk.Double.{Arithmetic}
use flo_watcher_dpdk.Dpdk.{Mbuf}
use flo_watcher_dpdk.Outcome.{ok, Calloc, Ends-total}
use flo_watcher_dpdk.Tally.{bump_all, distinct}
use flo_watcher_dpdk.RunToCompletion.{Build, flow_num, index_high}
use flo_watcher_dpdk.RunToCompletion.Arrivals.{MarkedBurst, table-counts, highs-le}
use flo_watcher_dpdk.RunToCompletion.LinkedList.{
  State, entry_per_flow, linked_list, report, session,
}
use flo_watcher_dpdk.RunToCompletion.LinkedList.Exact.{Tallied, linked_list-Tallied}
use flo_watcher_dpdk.RunToCompletion.LinkedList.Totals.{
  start, start-ne_nil, flow_struct_init-Tallied, report-distinct,
}

module _ {F : Type 0} ⦃fp : Arithmetic F⦄ (calloc : Calloc) where
  -- The report is right: where memory is never refused and a run has fewer than 2 ^ 32 packets, all
  -- with an upper hash half other than 0, the program initialises the chains, counts, and reports
  -- the number of different hashes and the number of packets.
  pub session-report :
      ((n : ℕ) → calloc n ≡ true)
      → (b : Build) (q : ℕ) (bursts : List (List Mbuf)) (s : State F)
      → All (All (λ m. m.rss < 2 ^ 32)) bursts
      → All MarkedBurst bursts
      → total bursts < u32_mod
      → (s' : State F) × (session calloc b q bursts s ≡ ok s')
        × (report flow_num s'.flows ≡ (distinct (after_all bursts []), total bursts))
  unfolding session marks bump_all
  session-report given b q bursts s words marked small =
      let rs = after_all bursts [] in
      let size = after_all-length bursts [] in
      let first = start entry_per_flow in
      let (r, made, k) =
        flow_struct_init-Tallied calloc given flow_num entry_per_flow (s.flows, s.calls) in
      let s1 = record s { flows = r.0; calls = r.1 } in
      let (s', run, e) =
        Ends-total calloc (λ s'. Tallied first rs s'.flows) (linked_list calloc b q bursts s1) given
          (linked_list-Tallied calloc first b q bursts [] s1
            (λ l lt. (k l lt, rw (k l lt) (start-ne_nil entry_per_flow)))) in
      let (flows, packets) =
        table-counts rs (after_all-All (λ r. r < 2 ^ 32) bursts [] words tt) (omega arith) in
      (
        s',
        rw made run,
        report-distinct rs entry_per_flow flow_num s'.flows
              (after_all-All (λ r. index_high r ≢ 0) bursts [] marked tt) (λ l lt. (e l lt).0)
              (λ l lt. omega (arith, highs-le l rs))
            ∙ rw (flows, packets, size) (ap (λ n. (distinct rs, n)) (omega arith)),
      )
