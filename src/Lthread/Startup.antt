-- ===== src/Lthread/Startup.antt =====
-- The start of lthread/main.c: `init_mem1`, the device part of `main` and its order of
-- initialisation. What DPDK returns is a parameter. `init_mem1` returns no value although its caller
-- reads one: what the caller then finds is a parameter too.
pub mod Order
pub mod Ports
use flo_watcher_dpdk.Common.{ℕ, zero, suc, ◌+◌, Bool, List, [], ◌∷◌, Array, leb, not, if◌then◌else◌}
use flo_watcher_dpdk.Common.Int.{ℤ, pos, ltb_ℤ}
use flo_watcher_dpdk.Lthread.{check_lcore_params, get_port_n_rx_queues}
use flo_watcher_dpdk.Lthread.Options.{Opt, Config, parse_args}
use flo_watcher_dpdk.Lthread.Threads.{ThreadTxConf, init_rx_queues, init_tx_threads, init_rx_rings}
use flo_watcher_dpdk.Outcome.{Outcome, ok, exit, fault, ◌>>=◌, or_exit}
use flo_watcher_dpdk.Pthread.{RxThreadParams}
use flo_watcher_dpdk.Pthread.Options.{Strsplit}
use flo_watcher_dpdk.Pthread.Startup.{enabled}
use flo_watcher_dpdk.Pthread.Threads.{LcoreRxQueue, ThreadRxConf}

-- the results of the DPDK calls; `pool_create port name` is that of the call for a pool of this name
-- while `port` is initialised, `mem_result` is what the caller finds as the result of `init_mem1`
pub record Device : Type 0 where
  pub max_lcore : ℕ
  pub eal_init : ℤ
  pub lcore_enabled : ℕ → Bool
  pub ring_create : ℕ → Bool
  pub dev_count : ℕ
  pub dev_configure : ℕ → ℕ → ℤ
  pub pool_create : ℕ → ℕ → Bool
  pub mem_result : ℕ → ℤ
  pub queue_setup : ℕ → ℕ → ℤ
  pub dev_start : ℕ → ℤ

-- `NB_SOCKETS`, the length of `pktmbuf_pool`
abbrev pub nb_sockets : ℕ
nb_sockets = 4

-- snprintf(s, sizeof(s), "mbuf_pool_%d", queue_id), as the number in the name
abbrev pub pool_name : ℕ → ℕ → ℕ
pool_name port queue_id = queue_id

-- the loop of `init_mem1`, from pool `q` on, in the rounds that are left
unfoldable pub init_mem1 : Device → ℕ → ℕ → ℕ → Outcome {0} Unit
init_mem1 dev port zero q = ok tt
init_mem1 dev port (suc rounds) q =
    let further = init_mem1 dev port rounds (q + 1) in
    if leb nb_sockets q
    then fault
    else if dev.pool_create port (pool_name port q)
    then further
    else exit

unfoldable pub init_port : Device → List RxThreadParams → ℕ → ℕ → Outcome {0} Unit
init_port dev params n_rx_thread port =
    if ltb_ℤ (dev.dev_configure port (get_port_n_rx_queues port params)) (pos 0)
    then exit
    else init_mem1 dev port n_rx_thread 0
      >>= (λ u. if ltb_ℤ (dev.mem_result port) (pos 0) then exit else ok tt)

-- the first loop over the ports, from `port` on, in the rounds that are left
unfoldable pub init_ports : Device → Config → ℕ → ℕ → ℕ → Outcome {0} Unit
init_ports dev cfg n_rx_thread zero port = ok tt
init_ports dev cfg n_rx_thread (suc rounds) port =
    let further = init_ports dev cfg n_rx_thread rounds (port + 1) in
    if enabled cfg.enabled_port_mask port
    then init_port dev cfg.rx_thread_params n_rx_thread port >>= (λ u. further)
    else further

-- the queues of a receive thread; `pktmbuf_pool[queueid]` is read out of bounds from NB_SOCKETS on,
-- and is NULL from the number of receive threads on: the parameter `queue_setup` answers for both
unfoldable pub setup_queues : Device → List LcoreRxQueue → Outcome {0} Unit
setup_queues dev [] = ok tt
setup_queues dev (queue ∷ queues) =
    let further = setup_queues dev queues in
    if leb nb_sockets queue.queue_id
    then fault
    else if ltb_ℤ (dev.queue_setup queue.port_id queue.queue_id) (pos 0)
    then exit
    else further

-- for (i = 0; i < n_rx_thread; i++), in the rounds that are left
unfoldable pub setup_threads : Device → Array ThreadRxConf → ℕ → ℕ → Outcome {0} Unit
setup_threads dev rx_thread zero i = ok tt
setup_threads dev rx_thread (suc rounds) i =
    if dev.lcore_enabled (rx_thread i).lcore_id
    then setup_queues dev (rx_thread i).rx_queue_list
      >>= (λ u. setup_threads dev rx_thread rounds (i + 1))
    else exit

-- the second loop over the ports
unfoldable pub start_ports : Device → ℕ → ℕ → ℕ → Outcome {0} Unit
start_ports dev mask zero port = ok tt
start_ports dev mask (suc rounds) port =
    let further = start_ports dev mask rounds (port + 1) in
    if enabled mask port
    then (if ltb_ℤ (dev.dev_start port) (pos 0) then exit else further)
    else further

-- what `main` hands to the threads
pub record Setup : Type 0 where
  pub config : Config
  pub rx_thread : Array ThreadRxConf
  pub n_rx_thread : ℕ
  pub tx_thread : Array ThreadTxConf
  pub n_tx_thread : ℕ

-- `main` from `check_lcore_params` to the start of the threads; the table is reset in between
unfoldable pub bring_up : Device → Array ThreadRxConf → Array ThreadTxConf → Config → Outcome Setup
bring_up dev rx_thread tx_thread cfg =
    or_exit (check_lcore_params dev.lcore_enabled cfg.rx_thread_params) >>= (λ u.
      or_exit (init_rx_queues cfg.rx_thread_params rx_thread) >>= (λ rx.
        let tx = init_tx_threads cfg.tx_thread_params (tx_thread, 0) in
        or_exit (init_rx_rings dev.ring_create dev.max_lcore tx.1 tx.1 0 (rx.0, tx.0))
        >>= (λ linked. init_ports dev cfg rx.1 dev.dev_count 0 >>= (λ u.
            setup_threads dev linked.0 rx.1 0 >>= (λ u.
              start_ports dev cfg.enabled_port_mask dev.dev_count 0 >>= (λ u. ok (record {
                config = cfg;
                rx_thread = linked.0;
                n_rx_thread = rx.1;
                tx_thread = linked.1;
                n_tx_thread = tx.1;
              })))))))

-- `main` up to the start of the threads
unfoldable pub start_up :
    Device
    → Strsplit
    → ℕ
    → List Opt
    → Config
    → Array ThreadRxConf
    → Array ThreadTxConf
    → Outcome Setup
start_up dev strsplit consumed opts config rx_thread tx_thread =
    let (ret, cfg) = parse_args strsplit consumed opts config in
    if ltb_ℤ dev.eal_init (pos 0)
    then exit
    else if ltb_ℤ ret (pos 0)
    then exit
    else bring_up dev rx_thread tx_thread cfg
