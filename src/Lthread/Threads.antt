-- ===== src/Lthread/Threads.antt =====
-- The threads of lthread/main.c: `init_rx_queues`, `init_tx_threads` and `init_rx_rings`. The parts of
-- `struct thread_rx_conf` that these write are those of pthread/main.c; the condition variables of a
-- receive thread are numbered like its rings.
pub mod Links
pub mod Queues
use flo_watcher_dpdk.Common.{
  ℕ, zero, suc, ◌+◌, Bool, List, [], ◌∷◌, ◌++◌, length, Array, update, ltb, leb, if◌then◌else◌,
}
use flo_watcher_dpdk.Outcome.{Outcome, ok, failed, exit, fault, ◌>>=◌}
use flo_watcher_dpdk.Pthread.{RxThreadParams, TxThreadParams}
use flo_watcher_dpdk.Pthread.Threads.{LcoreRxQueue, ThreadRxConf, RxThreads}

-- `MAX_RX_QUEUE_PER_LCORE`
abbrev pub max_rx_queue_per_lcore : ℕ
max_rx_queue_per_lcore = 16

-- `struct thread_tx_conf`: a ring is the number under which it was created; `ready` points to a
-- condition variable, given by its receive thread and its number there
pub record ThreadTxConf : Type 0 where
  pub lcore_id : ℕ
  pub thread_id : ℕ
  pub ring : ℕ
  pub ready : ℕ × ℕ

-- one round of `init_rx_queues`
unfoldable pub add_rx_queue : RxThreadParams → RxThreads → Outcome RxThreads
add_rx_queue p (rx_thread, n_rx_thread) =
    let thread = p.thread_id in
    let conf = rx_thread thread in
    let queue : LcoreRxQueue = record { port_id = p.port_id; queue_id = p.queue_id } in
    let conf' = record conf {
      thread_id = thread;
      lcore_id = p.lcore_id;
      rx_queue_list = conf.rx_queue_list ++ queue ∷ [];
    } in
    if leb max_rx_queue_per_lcore (length conf.rx_queue_list)
    then exit
    else ok
        (update rx_thread thread conf', if leb n_rx_thread thread then thread + 1 else n_rx_thread)

unfoldable pub add_rx_queues : List RxThreadParams → RxThreads → Outcome RxThreads
add_rx_queues [] s = ok s
add_rx_queues (p ∷ ps) s = add_rx_queue p s >>= (λ s'. add_rx_queues ps s')

unfoldable pub init_rx_queues : List RxThreadParams → Array ThreadRxConf → Outcome RxThreads
init_rx_queues params rx_thread = add_rx_queues params (rx_thread, 0)

-- `init_tx_threads`, from thread `n_tx_thread` on
unfoldable pub init_tx_threads :
    List TxThreadParams → Array ThreadTxConf × ℕ → Array ThreadTxConf × ℕ
init_tx_threads [] s = s
init_tx_threads (p ∷ ps) (tx_thread, n_tx_thread) =
    let conf = record (tx_thread n_tx_thread) { thread_id = p.thread_id; lcore_id = p.lcore_id } in
    init_tx_threads ps (update tx_thread n_tx_thread conf, n_tx_thread + 1)

-- `init_rx_rings`, from counting thread `n` on, in the rounds that are left; the ring of that thread
-- gets the number `n`. `created` tells whether `rte_ring_create` succeeds, `rte_panic` ends the program,
-- and the array of rings of a receive thread has RTE_MAX_LCORE places.
unfoldable pub init_rx_rings :
    (ℕ → Bool)
    → ℕ
    → ℕ
    → ℕ
    → ℕ
    → Array ThreadRxConf × Array ThreadTxConf
    → Outcome (Array ThreadRxConf × Array ThreadTxConf)
init_rx_rings created max_lcore n_tx_thread zero n s = ok s
init_rx_rings created max_lcore n_tx_thread (suc rounds) n (rx_thread, tx_thread) =
    let rx = (tx_thread n).thread_id in
    let conf = rx_thread rx in
    let n_ring = length conf.rings in
    let linked : Array ThreadRxConf × Array ThreadTxConf = (
      update rx_thread rx (record conf { rings = conf.rings ++ n ∷ [] }),
      update tx_thread n (record (tx_thread n) { ring = n; ready = (rx, n_ring) }),
    ) in
    let further = init_rx_rings created max_lcore n_tx_thread rounds (n + 1) linked in
    if ltb n_tx_thread rx
    then failed
    else if created n
    then (if leb max_lcore n_ring then fault else further)
    else exit
