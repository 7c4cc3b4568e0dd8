-- ===== src/Pthread/Pipeline/Flows.antt =====
-- The number of flows that `handler` of pthread/main.c reports in the DOUBLE_HASH build.
use Prim.Native.Nat.{min}
use flo_watcher_dpdk.Common.{
  ℕ, zero, suc, ◌*◌, ◌≤◌, ◌<◌, ◌≡◌, refl, ◌≢◌, List, [], arith, length, Array, sum_below, u64_mod,
}
use flo_watcher_dpdk.Buckets.{marks, MarkedBurst, marks-Nonzero, after, after-All}
use flo_watcher_dpdk.Buckets.Partition.{marks-length_le, after-length}
use flo_watcher_dpdk.Double.{Arithmetic}
use flo_watcher_dpdk.Dpdk.{Mbuf}
use flo_watcher_dpdk.Pthread.{flow_num}
use flo_watcher_dpdk.Pthread.DoubleHash.{PktCount, init_table, flows_of_slots, count_flows}
use flo_watcher_dpdk.Pthread.Pipeline.{State, Event, Setting, run, served}
use flo_watcher_dpdk.Pthread.Pipeline.Counting.{low, high, slots_of, Tabled, run-Counted}
use flo_watcher_dpdk.Ring.{Ring}
use flo_watcher_dpdk.Slots.Used.{used_slots, used_slots-distinct}
use flo_watcher_dpdk.Tally.{distinct}

count_flows-sum :
    {F : Type 0} (n : ℕ) (t : Array (PktCount F)) (g : ℕ → ℕ)
    → n ≤ flow_num
    → ((l : ℕ) → l < n → used_slots (slots_of (t l)) ≡ g l)
    → (count_flows n t ≡ sum_below n g) × (sum_below n g ≤ 2 * n)
unfolding count_flows flows_of_slots sum_below used_slots
count_flows-sum zero t g small e = (refl, omega arith)
count_flows-sum (suc n) t g small e =
    let (ih, bound) = count_flows-sum n t g (omega arith) (λ l h. e l (omega arith)) in
    let here = e n (omega arith) in ground arith

-- the flows that `handler` counts on a table that stands for the packets `taken`
pub Tabled-flows :
    {F : Type 0} (k : Setting) (taken : List Mbuf) (t : Array (PktCount F))
    → MarkedBurst (low k) (high k) taken
    → Tabled k (after taken []) t
    → length taken < u64_mod
    → count_flows flow_num t
      ≡ sum_below flow_num (λ l. min 2 (distinct (marks (low k) (high k) l (after taken []))))
Tabled-flows k taken t h tabled few =
    let rs = after taken [] in
    let (sum, _) =
      count_flows-sum flow_num t (λ l. min 2 (distinct (marks (low k) (high k) l rs))) (omega arith)
        (λ l lt.
          used_slots-distinct (marks (low k) (high k) l rs) (slots_of (t l))
            (marks-Nonzero (low k) (high k) l rs (after-All (λ r. high k r ≢ 0) taken [] h tt))
            (tabled l lt)
            (omega (arith, marks-length_le (low k) (high k) l rs, after-length taken []))) in
    sum

module _ {R F : Type 0} ⦃fp : Arithmetic F⦄ (ops : Ring R) (k : Setting) where
  -- Whatever the order in which the two threads run, `handler` reports for each bucket the number of
  -- different flows that were taken out of the ring, two at most, on the table that `main` has reset.
  -- No packet that is taken out has a masked upper part of 0, and there are fewer than 2 ^ 64.
  run-flows :
      (es : List Event) (s : State R F) (t : Array (PktCount F))
      → MarkedBurst (low k) (high k) (served ops k es s)
      → s.pkt_ctr ≡ init_table k.ipg flow_num t
      → length (served ops k es s) < u64_mod
      → count_flows flow_num (run ops k es s).pkt_ctr
        ≡ sum_below flow_num
            (λ l. min 2 (distinct (marks (low k) (high k) l (after (served ops k es s) []))))
  run-flows es s t h e few =
      Tabled-flows k (served ops k es s) (run ops k es s).pkt_ctr h
        (λ l lt. run-Counted ops k es s t l h e lt) few
