-- ===== src/Pthread/System/Totals.antt =====
-- The global counter that `handler` of pthread/main.c reports when all threads run.
use mathlib.Core.List.{append-nil}
use flo_watcher_dpdk.Common.{
  ℕ, ◌<◌, ◌≡◌, refl, ap, ◌⊎◌, List, [], ◌∷◌, ◌++◌, length, length-append, arith, inl, inr, u64_mod,
  sum_below,
}
use flo_watcher_dpdk.Double.{Arithmetic}
use flo_watcher_dpdk.Dpdk.{Mbuf}
use flo_watcher_dpdk.Outcome.{Ensures, mono-Ensures, and-Ensures}
use flo_watcher_dpdk.Pthread.Pipeline
use flo_watcher_dpdk.Pthread.Pipeline.{Setting, step, lcore_main_rx, count_burst}
use flo_watcher_dpdk.Pthread.Pipeline.Order.{count_burst-g_ctr}
use flo_watcher_dpdk.Pthread.Startup.{Role, receives, counts, idle}
use flo_watcher_dpdk.Pthread.Startup.Wired.{Wired}
use flo_watcher_dpdk.Pthread.System.{State, Program, Turn, setting, pass_on, act, took, trace, run}
use flo_watcher_dpdk.Pthread.System.Adds.{Adds, Small, Sums, Adds-Small, Adds-Sums}
use flo_watcher_dpdk.Pthread.System.Invariants.{counts-Ensures, Employed, run-Keeps}
use flo_watcher_dpdk.Pthread.System.Quiet.{Quiet, act-Quiet, fed_or_empty}
use flo_watcher_dpdk.Pthread.Threads.{LcoreRxQueue}
use flo_watcher_dpdk.Ring.{Ring, IsFifo}

module _ {R F : Type 0} ⦃fp : Arithmetic F⦄ (ops : Ring R) (k : Program) (fifo : IsFifo ops)
    (w : Wired k.setup) where
  -- the counters have what they had and the packets `ms` that were taken out of the rings, if these are
  -- fewer than 2 ^ 64
  abbrev pub Totalled : ℕ → List Mbuf → State R F → Type 0
  Totalled base ms s = Small s.g_ctr × Sums k.setup.n_rx_thread base (length ms) s.g_ctr

  abbrev pub Both : ℕ → List Mbuf → State R F → Type 0
  Both base ms s = Quiet ops k fifo w s × Totalled base ms s

  pass_on-g_ctr :
      (rings : List ℕ) (bufs : List Mbuf) (s : State R F)
      → Ensures (λ s'. s'.g_ctr ≡ s.g_ctr) (pass_on ops k rings bufs s)
  unfolding pass_on lcore_main_rx
  pass_on-g_ctr rings [] s = refl
  pass_on-g_ctr [] (m ∷ bufs) s = tt
  pass_on-g_ctr (n ∷ rings) (m ∷ bufs) s = refl

  counts-Totalled :
      (i base : ℕ) (deliver : LcoreRxQueue → List Mbuf) (ms : List Mbuf) (s : State R F)
      → i < k.setup.n_tx_thread
      → Both base ms s
      → Ensures
          (Totalled base (ms ++ took ops k (counts i) deliver s))
          (act ops k (counts i) deliver s)
  unfolding act took step
  counts-Totalled i base deliver ms s used (quiet, (small, total)) =
      counts-Ensures ops k (Totalled base (ms ++ took ops k (counts i) deliver s)) i deliver s (
        let n = (k.setup.tx_thread i).ring in
        let burst = k.setup.config.burst_size in
        let taken = ops.dequeue_burst (s.rings n) burst in
        let v : Pipeline.State R F = record {
          ring = taken.1;
          pkt_ctr = s.pkt_ctr;
          g_ctr = s.g_ctr;
          freed = s.freed;
        } in
        let q = (k.setup.tx_thread i).thread_id in
        let g = (count_burst ops (setting k i) taken.0 v).g_ctr in
        let adds : Adds q (length taken.0) s.g_ctr g =
          λ j. count_burst-g_ctr ops (setting k i) j taken.0 v in
        let known : (q < k.setup.n_rx_thread) ⊎ (length taken.0 ≡ 0) =
          elim (fed_or_empty ops k fifo w i s used quiet) [
            | inl below ↦ inl below
            | inr none ↦ inr (ap length none)
          ] in
        (
          Adds-Small q (length taken.0) s.g_ctr g small adds,
          rw (length-append ms taken.0) (
              Adds-Sums k.setup.n_rx_thread q base (length ms) (length taken.0) s.g_ctr g small adds
                known total),
        ))

  act-Totalled :
      (base : ℕ) (role : Role) (deliver : LcoreRxQueue → List Mbuf) (ms : List Mbuf) (s : State R F)
      → Employed k.setup role
      → Both base ms s
      → Ensures (Totalled base (ms ++ took ops k role deliver s)) (act ops k role deliver s)
  unfolding act took
  act-Totalled base (receives i) deliver ms s e h = rw (append-nil ms) (
      mono-Ensures _ (Totalled base ms) _ (pass_on-g_ctr (k.setup.rx_thread i).rings _ s)
        (λ s' same. rw same h.1))
  act-Totalled base (counts i) deliver ms s e h = counts-Totalled i base deliver ms s e h
  act-Totalled base idle deliver ms s e h = rw (append-nil ms) h.1

  -- a run adds the packets that its counting threads take to the sum of the counters
  pub run-Totalled :
      (ts : List Turn) (s : State R F)
      → Quiet ops k fifo w s
      → ((j : ℕ) → s.g_ctr j < u64_mod)
      → Ensures
          (Both (sum_below k.setup.n_rx_thread s.g_ctr) (trace ops k (took ops k) ts s))
          (run ops k ts s)
  run-Totalled ts s quiet small =
      let base = sum_below k.setup.n_rx_thread s.g_ctr in
      run-Keeps ops k (took ops k) (Both base)
        (λ role deliver ms s used h.
          and-Ensures (Quiet ops k fifo w) (Totalled base (ms ++ took ops k role deliver s)) _
            (act-Quiet ops k fifo w role deliver s used h.0)
            (act-Totalled base role deliver ms s used h))
        ts [] s (quiet, (small, λ few. omega arith))
