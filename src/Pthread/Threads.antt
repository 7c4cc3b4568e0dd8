-- ===== src/Pthread/Threads.antt =====
-- The threads of pthread/main.c: `init_rx_queues`, `init_tx_threads` and `init_rx_rings`, which turn
-- the configuration into the queues of each receive thread and the rings to the counting threads.
pub mod Links
pub mod Queues
use flo_watcher_dpdk.Common.{
  ℕ, zero, suc, ◌+◌, Bool, List, [], ◌∷◌, ◌++◌, length, Array, update, ltb, leb, if◌then◌else◌,
}
use flo_watcher_dpdk.Outcome.{Outcome, ok, failed, exit, fault, ◌>>=◌}
use flo_watcher_dpdk.Pthread.{max_rx_queue_per_lcore, RxThreadParams, TxThreadParams}

-- `struct lcore_rx_queue`
pub record LcoreRxQueue : Type 0 where
  pub port_id : ℕ
  pub queue_id : ℕ

-- `struct thread_rx_conf`: the queue list up to `n_rx_queue`, the rings up to `n_ring`; a ring is the
-- number under which it was created
pub record ThreadRxConf : Type 0 where
  pub lcore_id : ℕ
  pub thread_id : ℕ
  pub rx_queue_list : List LcoreRxQueue
  pub rings : List ℕ

-- `struct thread_tx_conf`
pub record ThreadTxConf : Type 0 where
  pub lcore_id : ℕ
  pub thread_id : ℕ
  pub ring : ℕ

-- the thread tables with the number of threads in use
abbrev pub RxThreads : Type 0
RxThreads = Array ThreadRxConf × ℕ

abbrev pub TxThreads : Type 0
TxThreads = Array ThreadTxConf × ℕ

-- one round of `init_rx_queues`
unfoldable pub init_rx_queue : RxThreadParams → RxThreads → Outcome RxThreads
init_rx_queue p (rx_thread, n_rx_thread) =
    let thread = p.thread_id in
    let conf = rx_thread thread in
    let queue : LcoreRxQueue = record { port_id = p.port_id; queue_id = p.queue_id } in
    let conf' = record conf {
      thread_id = thread;
      lcore_id = p.lcore_id;
      rx_queue_list = conf.rx_queue_list ++ queue ∷ [];
    } in
    if leb max_rx_queue_per_lcore (length conf.rx_queue_list)
    then failed
    else ok
        (update rx_thread thread conf', if leb n_rx_thread thread then thread + 1 else n_rx_thread)

unfoldable pub init_rx_queues_loop : List RxThreadParams → RxThreads → Outcome RxThreads
init_rx_queues_loop [] s = ok s
init_rx_queues_loop (p ∷ ps) s = init_rx_queue p s >>= (λ s'. init_rx_queues_loop ps s')

unfoldable pub init_rx_queues : List RxThreadParams → Array ThreadRxConf → Outcome RxThreads
init_rx_queues params rx_thread = init_rx_queues_loop params (rx_thread, 0)

-- `init_tx_threads`, from thread `n` on
unfoldable pub init_tx_threads : List TxThreadParams → TxThreads → TxThreads
init_tx_threads [] s = s
init_tx_threads (p ∷ ps) (tx_thread, n) =
    let conf = record (tx_thread n) { thread_id = p.thread_id; lcore_id = p.lcore_id } in
    init_tx_threads ps (update tx_thread n conf, n + 1)

-- `init_rx_rings`, from counting thread `n` on, in the rounds that are left; the ring of that thread
-- gets the number `n`. `created` tells whether `rte_ring_create` succeeds, `rte_panic` ends the program,
-- and the array of rings of a receive thread has RTE_MAX_LCORE places.
unfoldable pub init_rx_rings :
    (ℕ → Bool)
    → ℕ
    → ℕ
    → ℕ
    → ℕ
    → Array ThreadRxConf × Array ThreadTxConf
    → Outcome (Array ThreadRxConf × Array ThreadTxConf)
init_rx_rings created max_lcore n_tx_thread zero n s = ok s
init_rx_rings created max_lcore n_tx_thread (suc rounds) n (rx_thread, tx_thread) =
    let rx = (tx_thread n).thread_id in
    let conf = rx_thread rx in
    let linked : Array ThreadRxConf × Array ThreadTxConf = (
      update rx_thread rx (record conf { rings = conf.rings ++ n ∷ [] }),
      update tx_thread n (record (tx_thread n) { ring = n }),
    ) in
    let further = init_rx_rings created max_lcore n_tx_thread rounds (n + 1) linked in
    if ltb n_tx_thread rx
    then failed
    else if created n
    then (if leb max_lcore (length conf.rings) then fault else further)
    else exit
