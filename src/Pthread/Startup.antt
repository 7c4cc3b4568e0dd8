-- ===== src/Pthread/Startup.antt =====
-- The start of pthread/main.c: the device part of `main`, its order of initialisation, and
-- `pthread_run`, which gives each lcore its thread. What DPDK returns is a parameter.
use Prim.Native.Nat.{bit_and}
use flo_watcher_dpdk.Common.{
  ℕ, zero, suc, ◌+◌, ◌^◌, Bool, Option, none, some, List, Array, leb, ◌==◌, not, if◌then◌else◌,
}
use flo_watcher_dpdk.Common.Int.{ℤ, pos, ltb_ℤ}
use flo_watcher_dpdk.Outcome.{Outcome, ok, exit, fault, ◌>>=◌, or_exit}
use flo_watcher_dpdk.Pthread.Options.{Opt, Config, Strsplit, parse_args}
use flo_watcher_dpdk.Pthread.Threads.{
  ThreadRxConf, ThreadTxConf, init_rx_queues, init_tx_threads, init_rx_rings,
}
pub mod Roles
pub mod Ports
pub mod Wired

-- the results of the DPDK calls, by port and queue, and RTE_MAX_LCORE
pub record Device : Type 0 where
  pub eal_init : ℤ
  pub dev_count : ℕ
  pub dev_configure : ℕ → ℤ
  pub pool_create : ℕ → ℕ → Bool
  pub queue_setup : ℕ → ℕ → ℤ
  pub dev_start : ℕ → ℤ
  pub ring_create : ℕ → Bool
  pub max_lcore : ℕ

-- `NB_SOCKETS`, the length of `pktmbuf_pool`
abbrev pub nb_sockets : ℕ
nb_sockets = 4

-- (enabled_port_mask & (1 << portid)) != 0
unfoldable pub enabled : ℕ → ℕ → Bool
enabled mask port = not (bit_and mask (2 ^ port) == 0)

-- for (qid = 0; qid < n_rx_thread; qid++), in the rounds that are left; `pktmbuf_pool[qid]` is
-- written before anything else, out of bounds from queue NB_SOCKETS on
unfoldable pub setup_queues : Device → ℕ → ℕ → ℕ → Outcome {0} Unit
setup_queues dev port zero q = ok tt
setup_queues dev port (suc rounds) q =
    let further = setup_queues dev port rounds (q + 1) in
    if leb nb_sockets q
    then fault
    else if dev.pool_create port q
    then (if ltb_ℤ (dev.queue_setup port q) (pos 0) then exit else further)
    else exit

unfoldable pub init_port : Device → ℕ → ℕ → Outcome {0} Unit
init_port dev n_rx_thread port =
    if ltb_ℤ (dev.dev_configure port) (pos 0)
    then exit
    else setup_queues dev port n_rx_thread 0
      >>= (λ u. if ltb_ℤ (dev.dev_start port) (pos 0) then exit else ok tt)

-- for (portid = 0; portid < nb_ports; portid++), in the rounds that are left
unfoldable pub init_ports : Device → ℕ → ℕ → ℕ → ℕ → Outcome {0} Unit
init_ports dev mask n_rx_thread zero port = ok tt
init_ports dev mask n_rx_thread (suc rounds) port =
    let further = init_ports dev mask n_rx_thread rounds (port + 1) in
    if enabled mask port then init_port dev n_rx_thread port >>= (λ u. further) else further

-- the configuration and the threads that `main` works with
pub record Setup : Type 0 where
  pub config : Config
  pub rx_thread : Array ThreadRxConf
  pub n_rx_thread : ℕ
  pub tx_thread : Array ThreadTxConf
  pub n_tx_thread : ℕ

-- `main` up to the table initialisation
unfoldable pub start_up :
    Device → Strsplit → List Opt → Config → Array ThreadRxConf → Array ThreadTxConf → Outcome Setup
start_up dev strsplit opts config rx_thread tx_thread =
    if ltb_ℤ dev.eal_init (pos 0)
    then exit
    else or_exit (parse_args strsplit opts config) >>= (λ cfg.
      or_exit (init_rx_queues cfg.rx_thread_params rx_thread) >>= (λ rx.
        let tx = init_tx_threads cfg.tx_thread_params (tx_thread, 0) in
        or_exit (init_rx_rings dev.ring_create dev.max_lcore tx.1 tx.1 0 (rx.0, tx.0))
        >>= (λ linked. init_ports dev cfg.enabled_port_mask rx.1 dev.dev_count 0 >>= (λ u.
            ok (record {
              config = cfg;
              rx_thread = linked.0;
              n_rx_thread = rx.1;
              tx_thread = linked.1;
              n_tx_thread = tx.1;
            })))))

-- what an lcore does: run a receive thread, run a counting thread, or nothing
pub data Role : Type 0 where
  receives : ℕ → Role
  counts : ℕ → Role
  idle : Role

-- the first thread from `i` on that is to run on `lcore`, in the rounds that are left
unfoldable pub find_thread : (ℕ → ℕ) → ℕ → ℕ → ℕ → Option ℕ
find_thread lcores lcore zero i = none
find_thread lcores lcore (suc rounds) i =
    let further = find_thread lcores lcore rounds (i + 1) in
    if lcores i == lcore then some i else further

unfoldable pub pthread_run : Setup → ℕ → Role
pthread_run s lcore = elim (find_thread (λ i. (s.rx_thread i).lcore_id) lcore s.n_rx_thread 0) [
  | some i ↦ receives i
  | none ↦ elim (find_thread (λ i. (s.tx_thread i).lcore_id) lcore s.n_tx_thread 0) [
    | some i ↦ counts i
    | none ↦ idle
  ]
]
