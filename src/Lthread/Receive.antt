-- ===== src/Lthread/Receive.antt =====
-- `lthread_rx` of lthread/main.c: each burst goes to the next ring in turn, what a ring does not take
-- is counted as lost and freed, and a counting thread is woken when its ring has had BURST_SIZE
-- packets since the last signal. The counters `batch_n` and `ring_loss` are `int`s, of which only what is
-- below 2 ^ 31 is defined in the source; they have their 32 bits here, and a theorem about them asks
-- for that bound. `batch_n` has RX_RINGS places, and the queues are those for which it has one. The
-- remainder by `n_ring` is undefined in the source where there is no ring.
pub mod Buffers
pub mod Turns
use flo_watcher_dpdk.Common.{
  ℕ, zero, suc, ◌+◌, ◌-◌, ◌%◌, List, [], ◌∷◌, ◌++◌, length, drop, Array, update, leb, ltb,
  if◌then◌else◌, u32_mod,
}
use flo_watcher_dpdk.Buckets.{addrs}
use flo_watcher_dpdk.Dpdk.{Mbuf}
use flo_watcher_dpdk.Lthread.{burst_size}
use flo_watcher_dpdk.Ring.{Ring}

-- the variables of the thread, the rings that it fills, the buffers that it frees and the workers
-- that it signals
pub record State (R : Type 0) : Type 0 where
  pub worker_id : ℕ
  pub len : Array ℕ
  pub rings : Array R
  pub batch_n : Array ℕ
  pub ring_loss : ℕ
  pub freed : List ℕ
  pub signals : List ℕ

-- a += b, in the 32 bits of an `int`
unfoldable pub add_int : ℕ → ℕ → ℕ
add_int a b = (a + b) % u32_mod

module _ {R : Type 0} (ops : Ring R) (n_ring : ℕ) where
  -- one round of the loop over the queues, given what `rte_eth_rx_burst` delivers
  unfoldable pub lthread_rx_queue : ℕ → List Mbuf → State R → State R
  lthread_rx_queue queueid [] s = s
  lthread_rx_queue queueid (m ∷ ms) s =
      let pkts_burst = m ∷ ms in
      let worker = (s.worker_id + 1) % n_ring in
      let taken = ops.enqueue_burst (s.rings worker) pkts_burst in
      let new_len = s.len worker + taken.0 in
      let full = leb burst_size new_len in
      let lost = ltb taken.0 (length pkts_burst) in
      record {
        worker_id = worker;
        len = update s.len worker (if full then 0 else new_len);
        rings = update s.rings worker taken.1;
        batch_n = update s.batch_n queueid (add_int (s.batch_n queueid) 1);
        ring_loss = if lost then add_int s.ring_loss (length pkts_burst - taken.0) else s.ring_loss;
        freed = if lost then s.freed ++ addrs (drop taken.0 pkts_burst) else s.freed;
        signals = if full then s.signals ++ worker ∷ [] else s.signals;
      }

  -- the bursts of the queues, in the order in which they are read
  unfoldable pub lthread_rx : List (ℕ × List Mbuf) → State R → State R
  lthread_rx [] s = s
  lthread_rx ((queueid, bufs) ∷ rest) s = lthread_rx rest (lthread_rx_queue queueid bufs s)
