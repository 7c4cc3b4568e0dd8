-- ===== src/Pthread/Chains/System.antt =====
-- pthread/main.c as a whole, in the LINKED_LIST and HASH_LIST builds: every lcore that `main` launches
-- runs what `pthread_run` gives it, in any order of rounds. What the two builds do with one packet is
-- a parameter, as in the loop of one thread.
pub mod Keeps
pub mod Silent
pub mod Totals
use flo_watcher_dpdk.Common.{ℕ, List, [], ◌∷◌, ◌++◌, Array, update}
use flo_watcher_dpdk.Dpdk.{Mbuf}
use flo_watcher_dpdk.Outcome.{Outcome, ok, fault, ◌>>=◌}
use flo_watcher_dpdk.Pthread.Chains
use flo_watcher_dpdk.Pthread.Chains.{enqueue, step}
use flo_watcher_dpdk.Pthread.Pipeline.{Event, receive, serve, Setting}
use flo_watcher_dpdk.Pthread.Startup.{Role, receives, counts, idle, pthread_run}
use flo_watcher_dpdk.Pthread.System.{Program, Turn, setting, first_queue, within, accessing}
use flo_watcher_dpdk.Pthread.Threads.{LcoreRxQueue}
use flo_watcher_dpdk.Ring.{Ring}

-- the rings by their numbers, the table with the calls of `rte_calloc`, and what else all threads share;
-- the length of `gCtr` is `room` of the program
pub record State (R T : Type 0) : Type 0 where
  pub rings : Array R
  pub table : T
  pub g_ctr : Array ℕ
  pub freed : List ℕ

module _ {R T : Type 0} where
  -- what a thread with ring `n` sees of the state, and what it leaves
  abbrev pub local : ℕ → State R T → Chains.State R T
  local n s = record { ring = s.rings n; table = s.table; g_ctr = s.g_ctr; freed = s.freed }

  abbrev pub merge : ℕ → State R T → Chains.State R T → State R T
  merge n s v = record {
    rings = update s.rings n v.ring;
    table = v.table;
    g_ctr = v.g_ctr;
    freed = v.freed;
  }

module _ {R : Type 0} (ops : Ring R) (k : Program) where
  -- what a burst leaves in the rings of its receive thread, which fills the first one
  unfoldable pub fill : List ℕ → List Mbuf → Array R → Array R
  fill qs [] rings = rings
  fill [] (m ∷ ms) rings = rings
  fill (n ∷ qs) (m ∷ ms) rings =
      update rings n (enqueue ops k.setup.config.burst_size (m ∷ ms) (rings n))

  -- what a round takes out of the rings, and what it leaves in them
  unfoldable pub deal : Role → (LcoreRxQueue → List Mbuf) → Array R → List Mbuf × Array R
  deal (receives i) deliver rings =
      let conf = k.setup.rx_thread i in
      ([], fill conf.rings (deliver (first_queue conf.rx_queue_list)) rings)
  deal (counts i) deliver rings =
      let n = (k.setup.tx_thread i).ring in
      let taken = ops.dequeue_burst (rings n) k.setup.config.burst_size in
      (taken.0, update rings n taken.1)
  deal idle deliver rings = ([], rings)

  -- the packets that a run takes out of the rings
  unfoldable pub served : List Turn → Array R → List Mbuf
  served [] rings = []
  served (t ∷ ts) rings =
      let dealt = deal (pthread_run k.setup t.lcore) t.deliver rings in dealt.0 ++ served ts dealt.1

module _ {R T : Type 0} (ops : Ring R) (k : Program)
    (count_packet : Setting → ℕ → Mbuf → T → Outcome T) where
  -- a round of thread `i` with ring `n`, of which a counting thread that has taken packets accesses
  -- `gCtr`
  unfoldable pub round : ℕ → ℕ → Event → State R T → Outcome (State R T)
  round i n e s =
      step ops (setting k i) (count_packet (setting k i)) e (local n s) >>= (λ v. ok (merge n s v))

  -- a round of `lcore_main_rx`: without a ring, `ring[0]` is NULL, which is used if packets have come
  unfoldable pub pass_on : ℕ → List ℕ → List Mbuf → State R T → Outcome (State R T)
  pass_on i qs [] s = ok s
  pass_on i [] (m ∷ ms) s = fault
  pass_on i (n ∷ qs) (m ∷ ms) s = round i n (receive (m ∷ ms)) s

  -- a round of what `pthread_run` starts
  unfoldable pub act : Role → (LcoreRxQueue → List Mbuf) → State R T → Outcome (State R T)
  act (receives i) deliver s =
      let conf = k.setup.rx_thread i in
      pass_on i conf.rings (deliver (first_queue conf.rx_queue_list)) s
  act (counts i) deliver s =
      let n = (k.setup.tx_thread i).ring in
      let taken = (ops.dequeue_burst (s.rings n) k.setup.config.burst_size).0 in
      accessing (within k i) taken (round i n serve s)
  act idle deliver s = ok s

  unfoldable pub run : List Turn → State R T → Outcome (State R T)
  run [] s = ok s
  run (t ∷ ts) s = act (pthread_run k.setup t.lcore) t.deliver s >>= run ts

  -- `main` from the initialisation of the table on
  unfoldable pub session : (T → Outcome T) → List Turn → State R T → Outcome (State R T)
  session init ts s = init s.table >>= (λ t. run ts (record s { table = t }))
