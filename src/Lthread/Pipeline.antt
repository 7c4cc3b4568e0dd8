-- ===== src/Lthread/Pipeline.antt =====
-- The threads of lthread/main.c at work: `lthread_rx` of each receive thread and
-- `lthread_tx_per_ring` of the counting thread at each of its rings, interleaved in any order. They
-- share the flow table, the counters and the condition variables by which a counting thread sleeps.
-- The work on one burst is one step here; the source does not protect the table between lcores.
pub mod Buffers
pub mod Counting
pub mod Report
pub mod Signals
pub mod Wakeups
use flo_watcher_dpdk.Common.{
  ℕ, zero, suc, ◌+◌, ◌≡◌, Bool, true, false, not, ◌&&◌, List, [], ◌∷◌, ◌++◌, length, Array, update,
  if◌then◌else◌, add64,
}
use flo_watcher_dpdk.Double.{Arithmetic}
use flo_watcher_dpdk.Dpdk.{Mbuf}
use flo_watcher_dpdk.Lthread.{burst_size}
use flo_watcher_dpdk.Lthread.DoubleHash.{Macros, PktCount, packet}
use flo_watcher_dpdk.Lthread.Receive
use flo_watcher_dpdk.Lthread.Receive.{lthread_rx_queue}
use flo_watcher_dpdk.Ring.{Ring}
use flo_watcher_dpdk.RunToCompletion.{index_low, index_high, global_loop}

-- the condition variables of the lthread library, which is not code of this repository: to wait
-- blocks the thread, and to signal wakes it; a signal that finds no thread waiting is not kept
pub record Cond (C : Type 0) : Type 0 where
  pub wait : C → C
  pub signal : C → C
  pub blocked : C → Bool

pub record IsCond {C : Type 0} (cond : Cond C) : Type 0 where
  pub wait_blocks : (c : C) → cond.blocked (cond.wait c) ≡ true
  pub signal_wakes : (c : C) → cond.blocked (cond.signal c) ≡ false

-- The variables of all threads; `re` and `batch_n` have RX_RINGS places in the source. A receive thread has a number, a counting thread the number of its
-- receive thread and of its ring there; `emptied` tells that it found nothing and is about to wait.
pub record State (R C F : Type 0) : Type 0 where
  pub worker_id : Array ℕ
  pub len : Array (Array ℕ)
  pub rings : Array (Array R)
  pub ready : Array (Array C)
  pub emptied : Array (Array Bool)
  pub batch_n : Array ℕ
  pub ring_loss : ℕ
  pub re : Array ℕ
  pub pkt_ctr : Array (PktCount F)
  pub freed : List ℕ

-- a round of receive thread `rx` for a queue, or the next thing that the counting thread of ring `w`
-- of receive thread `rx` does: take a burst and count it, or wait
pub data Event : Type 0 where
  receive : (rx queueid : ℕ) → List Mbuf → Event
  dequeue : (rx w : ℕ) → Event
  wait : (rx w : ℕ) → Event

-- what the set-up fixes: the macros, the number of receive threads, the rings of each, and the
-- number of each counting thread
pub record Setting : Type 0 where
  pub macros : Macros
  pub n_rx_thread : ℕ
  pub n_ring : ℕ → ℕ
  pub thread_id : ℕ → ℕ → ℕ

-- `a[i][j] = v`
abbrev pub update_2 : {A : Type 0} → Array (Array A) → ℕ → ℕ → A → Array (Array A)
update_2 a i j v = update a i (update (a i) j v)

-- the packets that a run receives from the NIC
unfoldable pub arrivals : List Event → List Mbuf
arrivals [] = []
arrivals (receive rx queueid bufs ∷ es) = bufs ++ arrivals es
arrivals (dequeue rx w ∷ es) = arrivals es
arrivals (wait rx w ∷ es) = arrivals es

-- the calls of `lthread_cond_signal` of a round
unfoldable pub signal_all : {C : Type 0} → Cond C → List ℕ → Array C → Array C
signal_all cond [] ready = ready
signal_all cond (w ∷ ws) ready = signal_all cond ws (update ready w (cond.signal (ready w)))

module _ {R C F : Type 0} ⦃fp : Arithmetic F⦄ (ops : Ring R) (cond : Cond C) (k : Setting) where
  -- what `lthread_rx` of thread `rx` works on
  abbrev pub view : ℕ → State R C F → Receive.State R
  view rx s = record {
    worker_id = s.worker_id rx;
    len = s.len rx;
    rings = s.rings rx;
    batch_n = s.batch_n;
    ring_loss = s.ring_loss;
    freed = s.freed;
    signals = [];
  }

  unfoldable pub receive_queue : ℕ → ℕ → List Mbuf → State R C F → State R C F
  receive_queue rx queueid bufs s =
      let r = lthread_rx_queue ops (k.n_ring rx) queueid bufs (view rx s) in
      record s {
        worker_id = update s.worker_id rx r.worker_id;
        len = update s.len rx r.len;
        rings = update s.rings rx r.rings;
        ready = update s.ready rx (signal_all cond r.signals (s.ready rx));
        batch_n = r.batch_n;
        ring_loss = r.ring_loss;
        freed = r.freed;
      }

  -- the per-packet loop of `lthread_tx_per_ring`
  unfoldable pub count_mbuf : ℕ → Array (PktCount F) → Mbuf → Array (PktCount F)
  count_mbuf global t m =
      let l = index_low m.rss in update t l (packet k.macros global (index_high m.rss) (t l))

  unfoldable pub count_mbufs :
      ℕ → List Mbuf → Array (PktCount F) × List ℕ → Array (PktCount F) × List ℕ
  count_mbufs global [] s = s
  count_mbufs global (m ∷ ms) s =
      count_mbufs global ms (count_mbuf global s.0 m, s.1 ++ m.addr ∷ [])

  -- what `lthread_tx_per_ring` does with the burst that it took out
  unfoldable pub count_taken : ℕ → ℕ → List Mbuf → State R C F → State R C F
  count_taken rx w [] s = record s { emptied = update_2 s.emptied rx w true }
  count_taken rx w (m ∷ ms) s =
      let bufs = m ∷ ms in
      let q = k.thread_id rx w in
      let re = update s.re q (add64 (s.re q) (length bufs)) in
      let global = if k.macros.ipg then global_loop re k.n_rx_thread 0 else 0 in
      let counted = count_mbufs global bufs (s.pkt_ctr, s.freed) in
      record s { re = re; pkt_ctr = counted.0; freed = counted.1 }

  -- whether a counting thread is at `rte_ring_sc_dequeue_burst`
  abbrev pub at_dequeue : ℕ → ℕ → State R C F → Bool
  at_dequeue rx w s = not (cond.blocked (s.ready rx w)) && not (s.emptied rx w)

  unfoldable pub lthread_tx_per_ring : ℕ → ℕ → State R C F → State R C F
  lthread_tx_per_ring rx w s =
      let taken = ops.dequeue_burst (s.rings rx w) burst_size in
      let s' = count_taken rx w taken.0 (record s { rings = update_2 s.rings rx w taken.1 }) in
      if at_dequeue rx w s then s' else s

  -- lthread_cond_wait (ready, 0)
  unfoldable pub cond_wait : ℕ → ℕ → State R C F → State R C F
  cond_wait rx w s =
      let s' = record s {
        ready = update_2 s.ready rx w (cond.wait (s.ready rx w));
        emptied = update_2 s.emptied rx w false;
      } in
      if s.emptied rx w then s' else s

  unfoldable pub step : Event → State R C F → State R C F
  step (receive rx queueid bufs) s = receive_queue rx queueid bufs s
  step (dequeue rx w) s = lthread_tx_per_ring rx w s
  step (wait rx w) s = cond_wait rx w s

  unfoldable pub run : List Event → State R C F → State R C F
  run [] s = s
  run (e ∷ es) s = run es (step e s)

  -- the burst that a step takes out of a ring, and those of a run
  unfoldable pub batch : Event → State R C F → List Mbuf
  batch (receive rx queueid bufs) s = []
  batch (dequeue rx w) s =
      let taken = (ops.dequeue_burst (s.rings rx w) burst_size).0 in
      if at_dequeue rx w s then taken else []
  batch (wait rx w) s = []

  unfoldable pub batches : List Event → State R C F → List (List Mbuf)
  batches [] s = []
  batches (e ∷ es) s = batch e s ∷ batches es (step e s)
