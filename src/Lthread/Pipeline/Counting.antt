-- ===== src/Lthread/Pipeline/Counting.antt =====
-- What the flow table of lthread/main.c holds, for every interleaving of the threads: they count as
-- run_to_completion/main.c counts the bursts that were taken out of the rings.
use flo_watcher_dpdk.Common.{
  ℕ, ◌<◌, ◌≡◌, refl, ap, ◌∙◌, List, [], ◌∷◌, All, Array, update, ◌==◌, Bool-cases, inl, inr,
}
use flo_watcher_dpdk.Buckets.{after_all}
use flo_watcher_dpdk.Double.{Arithmetic}
use flo_watcher_dpdk.Dpdk.{Mbuf}
use flo_watcher_dpdk.Lthread.{burst_size}
use flo_watcher_dpdk.Lthread.DoubleHash.{PktCount, init_table}
use flo_watcher_dpdk.Lthread.DoubleHash.Same.{counting, counts_of, packet-counts, init_table-counts}
use flo_watcher_dpdk.Lthread.Pipeline.{
  Cond, State, Event, receive, dequeue, wait, Setting, receive_queue, count_mbuf, count_mbufs,
  count_taken, at_dequeue, lthread_tx_per_ring, cond_wait, step, run, batch, batches, update_2,
}
use flo_watcher_dpdk.Ring.{Ring}
use flo_watcher_dpdk.RunToCompletion.{flow_num, index_low, index_high}
use flo_watcher_dpdk.RunToCompletion.Arrivals.{highs, MarkedBurst}
use flo_watcher_dpdk.RunToCompletion.DoubleHash
use flo_watcher_dpdk.RunToCompletion.DoubleHash.{burst, double_hash}
use flo_watcher_dpdk.RunToCompletion.DoubleHash.Counting.{Counted}
use flo_watcher_dpdk.RunToCompletion.DoubleHash.Runs.{double_hash-Counted}

module _ {R C F : Type 0} ⦃fp : Arithmetic F⦄ (ops : Ring R) (cond : Cond C) (k : Setting) where
  -- a table of lthread and one of run_to_completion count the same
  abbrev Alike : Array (PktCount F) → Array (DoubleHash.PktCount F) → Type 0
  Alike t u = (l : ℕ) → counts_of (t l) ≡ u l

  count_mbuf-Alike :
      (global g : ℕ) (m : Mbuf) (t : Array (PktCount F)) (u : Array (DoubleHash.PktCount F))
      → Alike t u
      → Alike (count_mbuf ops cond k global t m) (DoubleHash.count_packet counting g u m)
  unfolding count_mbuf DoubleHash.count_packet update
  count_mbuf-Alike global g m t u same l = elim (Bool-cases (l == index_low m.rss)) [
    | inl own ↦
        rw (own, ← same (index_low m.rss))
          (packet-counts k.macros global g (index_high m.rss) (t (index_low m.rss)))
    | inr other ↦ rw other (same l)
  ]

  count_mbufs-Alike :
      (global g : ℕ) (ms : List Mbuf) (s : Array (PktCount F) × List ℕ)
      (r : Array (DoubleHash.PktCount F) × List ℕ)
      → Alike s.0 r.0
      → Alike (count_mbufs ops cond k global ms s).0 (DoubleHash.count_loop counting g ms r).0
  unfolding count_mbufs DoubleHash.count_loop
  count_mbufs-Alike global g [] s r same = same
  count_mbufs-Alike global g (m ∷ ms) s r same =
      count_mbufs-Alike global g ms _ _ (count_mbuf-Alike global g m s.0 r.0 same)

  count_taken-Alike :
      (rx w q : ℕ) (bufs : List Mbuf) (s : State R C F) (r : DoubleHash.State F)
      → Alike s.pkt_ctr r.pkt_ctr
      → Alike (count_taken ops cond k rx w bufs s).pkt_ctr (burst counting q bufs r).pkt_ctr
  unfolding count_taken burst
  count_taken-Alike rx w q [] s r same = same
  count_taken-Alike rx w q (m ∷ ms) s r same =
      count_mbufs-Alike _ _ (m ∷ ms) (s.pkt_ctr, s.freed) (r.pkt_ctr, r.freed) same

  burst-nil : (q : ℕ) (r : DoubleHash.State F) → burst counting q [] r ≡ r
  unfolding burst
  burst-nil q r = refl

  step-Alike :
      (q : ℕ) (e : Event) (s : State R C F) (r : DoubleHash.State F)
      → Alike s.pkt_ctr r.pkt_ctr
      → Alike (step ops cond k e s).pkt_ctr (burst counting q (batch ops cond k e s) r).pkt_ctr
  unfolding step batch receive_queue lthread_tx_per_ring cond_wait
  step-Alike q (receive rx queueid bufs) s r same = rw (burst-nil q r) same
  step-Alike q (dequeue rx w) s r same = elim (Bool-cases (at_dequeue ops cond k rx w s)) [
    | inl on ↦
        let taken = ops.dequeue_burst (s.rings rx w) burst_size in
        rw on (
          count_taken-Alike rx w q taken.0 (record s { rings = update_2 s.rings rx w taken.1 }) r
            same)
    | inr off ↦ rw (off, burst-nil q r) same
  ]
  step-Alike q (wait rx w) s r same = elim (Bool-cases (s.emptied rx w)) [
    | inl on ↦ rw (on, burst-nil q r) same
    | inr off ↦ rw (off, burst-nil q r) same
  ]

  -- Whatever the order in which the threads run, the counters of lthread are those of
  -- run_to_completion, compiled with DOUBLE_HASH and FLOW_LEVEL, after the bursts that were taken out
  -- of the rings, in the order in which they were: it starts from a table with the same counters.
  pub run-double_hash :
      (q : ℕ) (es : List Event) (s : State R C F) (r : DoubleHash.State F)
      → ((l : ℕ) → counts_of (s.pkt_ctr l) ≡ r.pkt_ctr l)
      → (l : ℕ)
      → counts_of ((run ops cond k es s).pkt_ctr l)
        ≡ (double_hash counting q (batches ops cond k es s) r).pkt_ctr l
  unfolding run batches double_hash
  run-double_hash q [] s r same = same
  run-double_hash q (e ∷ es) s r same =
      run-double_hash q es (step ops cond k e s) (burst counting q (batch ops cond k e s) r)
        (step-Alike q e s r same)

  -- Whatever the order in which the threads run, on the table that `main` has reset the first flow of
  -- each bucket and the first other one have exact counters, modulo 2 ^ 32, and `ctr[2]` has the
  -- packets of all further flows, of the packets that were taken out of the rings. None of them has
  -- an upper hash half of 0.
  pub run-Counted_lthread :
      (es : List Event) (s : State R C F) (t : Array (PktCount F)) (l : ℕ)
      → All MarkedBurst (batches ops cond k es s)
      → s.pkt_ctr ≡ init_table k.macros flow_num t
      → l < flow_num
      → Counted
          (highs l (after_all (batches ops cond k es s) []))
          (counts_of ((run ops cond k es s).pkt_ctr l))
  run-Counted_lthread es s t l marked e lt =
      let u = λ (i : ℕ). counts_of (t i) in
      let r : DoubleHash.State F = record {
        pkt_ctr = DoubleHash.init_table counting flow_num u;
        re = λ q. 0;
        global = 0;
        freed = [];
      } in
      let same = λ (i : ℕ). ap (λ p. counts_of (p i)) e ∙ init_table-counts k.macros flow_num t i in
      rw (run-double_hash 0 es s r same l)
        (double_hash-Counted counting refl 0 (batches ops cond k es s) r u l marked refl lt)
