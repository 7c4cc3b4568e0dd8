-- ===== src/Pthread/System/Counting.antt =====
-- What the flow table of pthread/main.c stands for when all threads run.
use flo_watcher_dpdk.Common.{ℕ, ◌<◌, ◌≡◌, ◌≢◌, List, [], ◌∷◌, ◌++◌, Array}
use mathlib.Core.List.{append-nil}
use flo_watcher_dpdk.Buckets.{marks, MarkedBurst, after, after-All}
use flo_watcher_dpdk.Double.{Arithmetic}
use flo_watcher_dpdk.Dpdk.{Mbuf}
use flo_watcher_dpdk.Outcome.{Ensures, mono-Ensures}
use flo_watcher_dpdk.Pthread.{flow_num}
use flo_watcher_dpdk.Pthread.DoubleHash.{PktCount, init_table}
use flo_watcher_dpdk.Pthread.Pipeline
use flo_watcher_dpdk.Pthread.Pipeline.{step, lcore_main_rx}
use flo_watcher_dpdk.Pthread.Pipeline.Counting.{
  slots_of, low, high, Tabled, init_table-Counted, after-append, All-split, count_burst-Tabled,
}
use flo_watcher_dpdk.Pthread.Startup.{Role, receives, counts, idle}
use flo_watcher_dpdk.Pthread.System.{State, Program, Turn, setting, pass_on, act, took, trace, run}
use flo_watcher_dpdk.Pthread.System.Invariants.{counts-Ensures, Employed, run-Keeps}
use flo_watcher_dpdk.Pthread.Threads.{LcoreRxQueue}
use flo_watcher_dpdk.Ring.{Ring}
use flo_watcher_dpdk.Slots.{Counted}

module _ {R F : Type 0} ⦃fp : Arithmetic F⦄ (ops : Ring R) (k : Program) where
  -- the table stands for the packets `ms` that were taken out of the rings
  abbrev pub Stands : List Mbuf → State R F → Type 0
  Stands ms s =
      MarkedBurst (low (setting k 0)) (high (setting k 0)) ms
      → Tabled (setting k 0) (after ms []) s.pkt_ctr

  pass_on-Stands :
      (rings : List ℕ) (bufs ms : List Mbuf) (s : State R F)
      → Stands ms s
      → Ensures (Stands ms) (pass_on ops k rings bufs s)
  unfolding pass_on lcore_main_rx
  pass_on-Stands rings [] ms s h = h
  pass_on-Stands [] (m ∷ bufs) ms s h = tt
  pass_on-Stands (n ∷ rings) (m ∷ bufs) ms s h = h

  act-Stands :
      (role : Role) (deliver : LcoreRxQueue → List Mbuf) (ms : List Mbuf) (s : State R F)
      → Employed k.setup role
      → Stands ms s
      → Ensures (Stands (ms ++ took ops k role deliver s)) (act ops k role deliver s)
  unfolding act took step
  act-Stands (receives i) deliver ms s e h =
      rw (append-nil ms) (pass_on-Stands (k.setup.rx_thread i).rings _ ms s h)
  act-Stands (counts i) deliver ms s e h =
      counts-Ensures ops k (Stands (ms ++ took ops k (counts i) deliver s)) i deliver s (λ marked.
        let n = (k.setup.tx_thread i).ring in
        let taken = ops.dequeue_burst (s.rings n) k.setup.config.burst_size in
        let s0 : Pipeline.State R F = record {
          ring = taken.1;
          pkt_ctr = s.pkt_ctr;
          g_ctr = s.g_ctr;
          freed = s.freed;
        } in
        let P = λ (m : Mbuf). high (setting k 0) m.rss ≢ 0 in
        let (before, now) = All-split P ms taken.0 marked in
        rw (after-append ms taken.0 []) (
          count_burst-Tabled ops (setting k i) taken.0 (after ms []) s0 now
            (after-All (λ r. high (setting k 0) r ≢ 0) ms [] before tt) (h before)))
  act-Stands idle deliver ms s e h = rw (append-nil ms) h

  -- Whatever the order in which all threads of the program run, on the table that `main` has reset
  -- each bucket stands for the packets that the counting threads took out of the rings: the first
  -- flow to arrive and the first other one have exact counters, modulo 2 ^ 64. No packet that is
  -- taken out has a masked upper part of 0.
  pub run-Counted_system :
      (ts : List Turn) (s : State R F) (t : Array (PktCount F)) (l : ℕ)
      → MarkedBurst (low (setting k 0)) (high (setting k 0)) (trace ops k (took ops k) ts s)
      → s.pkt_ctr ≡ init_table k.ipg flow_num t
      → l < flow_num
      → Ensures
          (λ s'.
            Counted
              (marks
                (low (setting k 0))
                (high (setting k 0))
                l
                (after (trace ops k (took ops k) ts s) []))
              (slots_of (s'.pkt_ctr l)))
          (run ops k ts s)
  unfolding marks after
  run-Counted_system ts s t l marked e lt =
      mono-Ensures (Stands (trace ops k (took ops k) ts s)) _ (run ops k ts s)
        (run-Keeps ops k (took ops k) Stands act-Stands ts [] s
          (λ m. rw e (λ j le. init_table-Counted k.ipg flow_num t j le)))
        (λ s' stands. stands marked l lt)
