-- ===== src/Pthread/System.antt =====
-- pthread/main.c as a whole, in the DOUBLE_HASH build: every lcore that `main` launches runs what
-- `pthread_run` gives it, in any order of rounds; `handler` then adds up the counters.
pub mod Adds
pub mod Buffers
pub mod Counting
pub mod Heard
pub mod Overrun
pub mod Invariants
pub mod Leaks
pub mod Quiet
pub mod Rates
pub mod Session
pub mod Totals
use flo_watcher_dpdk.Common.{
  ℕ, zero, suc, ◌+◌, Bool, List, [], ◌∷◌, ◌++◌, take, Array, update, add64, true, false, not, ◌&&◌,
  ◌||◌, ltb, leb, if◌then◌else◌,
}
use flo_watcher_dpdk.Double.{Arithmetic}
use flo_watcher_dpdk.Dpdk.{Mbuf}
use flo_watcher_dpdk.Outcome.{Outcome, ok, failed, exit, fault, ◌>>=◌}
use flo_watcher_dpdk.Pthread.DoubleHash.{PktCount}
use flo_watcher_dpdk.Pthread.Masks.{Masks}
use flo_watcher_dpdk.Pthread.Pipeline
use flo_watcher_dpdk.Pthread.Pipeline.{Setting, serve, lcore_main_rx, step}
use flo_watcher_dpdk.Pthread.Report.{Source, timer_cb}
use flo_watcher_dpdk.Pthread.Startup.{Setup, Role, receives, counts, idle, pthread_run}
use flo_watcher_dpdk.Pthread.Threads.{LcoreRxQueue}
use flo_watcher_dpdk.Ring.{Ring}
use flo_watcher_dpdk.Statistics.{EthStats, Line, loop_ends}

-- the rings by their numbers, and what all threads share; the length of `gCtr` is `room` of the program
pub record State (R F : Type 0) : Type 0 where
  pub rings : Array R
  pub pkt_ctr : Array (PktCount F)
  pub g_ctr : Array ℕ
  pub freed : List ℕ

-- the entries that `main` asks for, `calloc(n_rx_thread, ...)`: no thread is set up yet
abbrev pub allocated : ℕ
allocated = 0

-- the build, the masks, what `main` has set up, the number of ports, and the number of entries that
-- `gCtr` has
pub record Program : Type 0 where
  pub ipg : Bool
  pub masks : Masks
  pub setup : Setup
  pub dev_count : ℕ
  pub room : ℕ

-- which lcore does its next round, and what the NIC has for a thread that asks for a queue then
pub record Turn : Type 0 where
  pub lcore : ℕ
  pub deliver : LcoreRxQueue → List Mbuf

-- `rx_queue_list[0]`, in a table that starts with zeros
unfoldable pub first_queue : List LcoreRxQueue → LcoreRxQueue
first_queue [] = record { port_id = 0; queue_id = 0 }
first_queue (queue ∷ queues) = queue

module _ (k : Program) where
  -- what counting thread `i` is fixed by
  abbrev pub setting : ℕ → Setting
  setting i = record {
    ipg = k.ipg;
    masks = k.masks;
    burst_size = k.setup.config.burst_size;
    n_rx_thread = k.setup.n_rx_thread;
    q = (k.setup.tx_thread i).thread_id;
  }

  -- whether counting thread `i` stays within `gCtr`: it adds to its own counter, and with IPG reads
  -- those of all receive threads
  abbrev pub within : ℕ → Bool
  within i =
      ltb (k.setup.tx_thread i).thread_id k.room && (not k.ipg || leb k.setup.n_rx_thread k.room)

  -- what the reports are made from
  abbrev pub source : (ℕ → EthStats) → Source
  source stats = record {
    enabled_port_mask = k.setup.config.enabled_port_mask;
    write_on = k.setup.config.write_on;
    n_rx_thread = k.setup.n_rx_thread;
    dev_count = k.dev_count;
    stats = stats;
  }

-- a thread that has taken packets accesses `gCtr`, which is undefined where the accesses are not
-- within its bounds
unfoldable pub accessing : {S : Type 0} → Bool → List Mbuf → Outcome S → Outcome S
accessing within [] o = o
accessing true (m ∷ ms) o = o
accessing false (m ∷ ms) o = fault

module _ {R F : Type 0} where
  -- what a thread with ring `n` sees of the state, and what it leaves
  abbrev pub local : ℕ → State R F → Pipeline.State R F
  local n s = record { ring = s.rings n; pkt_ctr = s.pkt_ctr; g_ctr = s.g_ctr; freed = s.freed }

  abbrev pub merge : ℕ → State R F → Pipeline.State R F → State R F
  merge n s v = record {
    rings = update s.rings n v.ring;
    pkt_ctr = v.pkt_ctr;
    g_ctr = v.g_ctr;
    freed = v.freed;
  }

  -- what follows of a run that has gone on
  unfoldable pub following : {A : Type 0} → Outcome (State R F) → (State R F → List A) → List A
  following (ok s) f = f s
  following failed f = []
  following exit f = []
  following fault f = []

module _ {R F : Type 0} ⦃fp : Arithmetic F⦄ (ops : Ring R) (k : Program) where
  -- a round of `lcore_main_rx` with the rings of its thread: without one, `ring[0]` is NULL, which
  -- is used if packets have come
  unfoldable pub pass_on : List ℕ → List Mbuf → State R F → Outcome (State R F)
  pass_on rings [] s = ok s
  pass_on [] (m ∷ ms) s = fault
  pass_on (n ∷ rings) (m ∷ ms) s =
      ok (merge n s (lcore_main_rx ops (setting k 0) (m ∷ ms) (local n s)))

  -- a round of what `pthread_run` starts
  unfoldable pub act : Role → (LcoreRxQueue → List Mbuf) → State R F → Outcome (State R F)
  act (receives i) deliver s =
      let conf = k.setup.rx_thread i in
      pass_on conf.rings (deliver (first_queue conf.rx_queue_list)) s
  act (counts i) deliver s =
      let n = (k.setup.tx_thread i).ring in
      let taken = (ops.dequeue_burst (s.rings n) k.setup.config.burst_size).0 in
      accessing (within k i) taken (ok (merge n s (step ops (setting k i) serve (local n s))))
  act idle deliver s = ok s

  unfoldable pub turn : Turn → State R F → Outcome (State R F)
  turn t s = act (pthread_run k.setup t.lcore) t.deliver s

  unfoldable pub run : List Turn → State R F → Outcome (State R F)
  run [] s = ok s
  run (t ∷ ts) s = turn t s >>= run ts

  -- what a round takes out of a ring, and what a ring takes in
  unfoldable pub took : Role → (LcoreRxQueue → List Mbuf) → State R F → List Mbuf
  took (receives i) deliver s = []
  took (counts i) deliver s =
      (ops.dequeue_burst (s.rings (k.setup.tx_thread i).ring) k.setup.config.burst_size).0
  took idle deliver s = []

  unfoldable pub stored : List ℕ → List Mbuf → State R F → List Mbuf
  stored rings [] s = []
  stored [] (m ∷ ms) s = []
  stored (n ∷ rings) (m ∷ ms) s = take (ops.enqueue_burst (s.rings n) (m ∷ ms)).0 (m ∷ ms)

  unfoldable pub put : Role → (LcoreRxQueue → List Mbuf) → State R F → List Mbuf
  put (receives i) deliver s =
      let conf = k.setup.rx_thread i in
      stored conf.rings (deliver (first_queue conf.rx_queue_list)) s
  put (counts i) deliver s = []
  put idle deliver s = []

  -- the packets of a run, by what a round has to do with them
  unfoldable pub trace :
      (Role → (LcoreRxQueue → List Mbuf) → State R F → List Mbuf)
      → List Turn
      → State R F
      → List Mbuf
  trace f [] s = []
  trace f (t ∷ ts) s =
      f (pthread_run k.setup t.lcore) t.deliver s ++ following (turn t s) (trace f ts)

  -- the lines that `timer_cb` prints in a run: the turns of each second, and what DPDK knows then. The
  -- call reads the counters of all receive threads; from 256 threads on it never ends, and no line
  -- follows
  unfoldable pub watch : List (List Turn × (ℕ → EthStats)) → State R F → F → Outcome (List (Line F))
  watch [] s old = ok []
  watch ((ts, stats) ∷ seconds) s old = run ts s >>= (λ s'.
      let printed = timer_cb k.ipg (source k stats) s'.g_ctr s'.pkt_ctr old in
      let further = watch seconds s' printed.1 >>= (λ lines. ok (printed.0 ∷ lines)) in
      if leb k.setup.n_rx_thread k.room
      then (if loop_ends k.setup.n_rx_thread then further else ok [])
      else fault)
