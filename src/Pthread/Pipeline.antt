-- ===== src/Pthread/Pipeline.antt =====
-- One receive thread and one counting thread of pthread/main.c with the ring between them:
-- `lcore_main_rx` and `lcore_main_count_double_hash`, interleaved in any order.
pub mod Counting
pub mod Flows
pub mod Order
use flo_watcher_dpdk.Common.{
  ℕ, zero, suc, ◌+◌, Bool, List, [], ◌∷◌, ◌++◌, length, take, Array, update, if◌then◌else◌, add64,
}
use flo_watcher_dpdk.Double.{Arithmetic}
use flo_watcher_dpdk.Dpdk.{Mbuf}
use flo_watcher_dpdk.RunToCompletion.{global_loop}
use flo_watcher_dpdk.Pthread.DoubleHash.{PktCount, packet}
use flo_watcher_dpdk.Pthread.Masks.{Masks, masked_low, masked_high}
use flo_watcher_dpdk.Ring.{Ring}

-- the ring, the table, the counters of the threads, and the log of freed buffers; the length of `gCtr` is
-- looked at where all threads are put together, by `accessing` of Pthread/System
pub record State (R F : Type 0) : Type 0 where
  pub ring : R
  pub pkt_ctr : Array (PktCount F)
  pub g_ctr : Array ℕ
  pub freed : List ℕ

-- what the two threads do next: receive what the NIC has, or take a burst from the ring
pub data Event : Type 0 where
  receive : List Mbuf → Event
  serve : Event

-- what a run of the counting threads is fixed by: IPG, the masks, `burst_size`, `n_rx_thread`, and
-- the number `q` of the counting thread
pub record Setting : Type 0 where
  pub ipg : Bool
  pub masks : Masks
  pub burst_size : ℕ
  pub n_rx_thread : ℕ
  pub q : ℕ

module _ {R F : Type 0} ⦃fp : Arithmetic F⦄ (ops : Ring R) (k : Setting) where
  -- one round of `lcore_main_rx`: what the ring does not take is neither freed nor tried again
  unfoldable pub lcore_main_rx : List Mbuf → State R F → State R F
  lcore_main_rx [] s = s
  lcore_main_rx (m ∷ ms) s = record s { ring = (ops.enqueue_burst s.ring (m ∷ ms)).1 }

  -- the per-packet loop
  unfoldable pub count_packet : ℕ → Array (PktCount F) → Mbuf → Array (PktCount F)
  count_packet global t m =
      let l = masked_low k.masks m.rss in
      update t l (packet k.ipg global (masked_high k.masks m.rss) (t l))

  unfoldable pub count_loop :
      ℕ → List Mbuf → Array (PktCount F) × List ℕ → Array (PktCount F) × List ℕ
  count_loop global [] s = s
  count_loop global (m ∷ ms) s =
      count_loop global ms (count_packet global s.0 m, s.1 ++ m.addr ∷ [])

  -- one round of `lcore_main_count_double_hash` with the burst that was taken out
  unfoldable pub count_burst : List Mbuf → State R F → State R F
  count_burst [] s = s
  count_burst (m ∷ ms) s =
      let bufs = m ∷ ms in
      let g_ctr = update s.g_ctr k.q (add64 (s.g_ctr k.q) (length bufs)) in
      let global = if k.ipg then global_loop g_ctr k.n_rx_thread 0 else 0 in
      let counted = count_loop global bufs (s.pkt_ctr, s.freed) in
      record s { pkt_ctr = counted.0; g_ctr = g_ctr; freed = counted.1 }

  unfoldable pub step : Event → State R F → State R F
  step (receive bufs) s = lcore_main_rx bufs s
  step serve s =
      let taken = ops.dequeue_burst s.ring k.burst_size in
      count_burst taken.0 (record s { ring = taken.1 })

  unfoldable pub run : List Event → State R F → State R F
  run [] s = s
  run (e ∷ es) s = run es (step e s)

  -- the packets that a run takes out of the ring, and those that the ring takes in
  unfoldable pub served : List Event → State R F → List Mbuf
  served [] s = []
  served (receive bufs ∷ es) s = served es (step (receive bufs) s)
  served (serve ∷ es) s = (ops.dequeue_burst s.ring k.burst_size).0 ++ served es (step serve s)

  unfoldable pub accepted : List Event → State R F → List Mbuf
  accepted [] s = []
  accepted (receive bufs ∷ es) s =
      take (ops.enqueue_burst s.ring bufs).0 bufs ++ accepted es (step (receive bufs) s)
  accepted (serve ∷ es) s = accepted es (step serve s)
