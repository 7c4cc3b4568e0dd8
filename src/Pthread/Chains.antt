-- ===== src/Pthread/Chains.antt =====
-- The loop that `lcore_main_count_linked_list` and `lcore_main_count_hash_list` of pthread/main.c
-- share, with the receive thread and the ring before it. What the two builds do with one packet is a
-- parameter, `count_packet`; it may end the program.
pub mod Freed
pub mod Runs
pub mod System
use flo_watcher_dpdk.Common.{ℕ, List, [], ◌∷◌, ◌++◌, length, Array, update, if◌then◌else◌, add64}
use flo_watcher_dpdk.Dpdk.{Mbuf}
use flo_watcher_dpdk.Outcome.{Outcome, ok, ◌>>=◌}
use flo_watcher_dpdk.Pthread.Pipeline.{Event, receive, serve, Setting}
use flo_watcher_dpdk.Ring.{Ring}
use flo_watcher_dpdk.RunToCompletion.{global_loop}

-- the ring, the table with the calls of `rte_calloc`, the counters of the threads, and the log of
-- freed buffers; the length of `gCtr` is looked at where all threads are put together
pub record State (R T : Type 0) : Type 0 where
  pub ring : R
  pub table : T
  pub g_ctr : Array ℕ
  pub freed : List ℕ

module _ {R : Type 0} (ops : Ring R) (burst_size : ℕ) where
  -- the ring behind one round of `lcore_main_rx`
  unfoldable pub enqueue : List Mbuf → R → R
  enqueue [] r = r
  enqueue (m ∷ ms) r = (ops.enqueue_burst r (m ∷ ms)).1

  -- the packets that a run takes out of the ring
  unfoldable pub served : List Event → R → List Mbuf
  served [] r = []
  served (receive bufs ∷ es) r = served es (enqueue bufs r)
  served (serve ∷ es) r = let taken = ops.dequeue_burst r burst_size in taken.0 ++ served es taken.1

module _ {R T : Type 0} (ops : Ring R) (k : Setting) (count_packet : ℕ → Mbuf → T → Outcome T) where
  -- the per-packet loop, which gives each buffer back
  unfoldable pub count_loop : ℕ → List Mbuf → T × List ℕ → Outcome (T × List ℕ)
  count_loop global [] s = ok s
  count_loop global (m ∷ ms) s =
      count_packet global m s.0 >>= (λ t. count_loop global ms (t, s.1 ++ m.addr ∷ []))

  -- one round of the endless loop with the burst that was taken out
  unfoldable pub count_burst : List Mbuf → State R T → Outcome (State R T)
  count_burst [] s = ok s
  count_burst (m ∷ ms) s =
      let bufs = m ∷ ms in
      let g_ctr = update s.g_ctr k.q (add64 (s.g_ctr k.q) (length bufs)) in
      let global = if k.ipg then global_loop g_ctr k.n_rx_thread 0 else 0 in
      count_loop global bufs (s.table, s.freed)
      >>= (λ r. ok (record s { table = r.0; g_ctr = g_ctr; freed = r.1 }))

  unfoldable pub step : Event → State R T → Outcome (State R T)
  step (receive bufs) s = ok (record s { ring = enqueue ops k.burst_size bufs s.ring })
  step serve s =
      let taken = ops.dequeue_burst s.ring k.burst_size in
      count_burst taken.0 (record s { ring = taken.1 })

  unfoldable pub run : List Event → State R T → Outcome (State R T)
  run [] s = ok s
  run (e ∷ es) s = step e s >>= (λ s'. run es s')
