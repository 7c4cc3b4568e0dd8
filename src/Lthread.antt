-- ===== src/Lthread.antt =====
-- lthread/main.c: receive threads spread the bursts of their queues over the rings of the counting
-- threads. This file has the constants and the checks on the thread parameters.
use flo_watcher_dpdk.Common.{
  ℕ, ◌+◌, ◌%◌, Bool, not, ◌&&◌, List, [], ◌∷◌, ltb, leb, ◌==◌, if◌then◌else◌,
}
use flo_watcher_dpdk.Outcome.{Outcome, ok, failed}
use flo_watcher_dpdk.Pthread.{RxThreadParams}
pub mod DoubleHash
pub mod Options
pub mod Pipeline
pub mod Queues
pub mod Receive
pub mod Report
pub mod Spawn
pub mod Startup
pub mod Threads

-- `BURST_SIZE`, `MAX_RX_QUEUE_PER_PORT`
abbrev pub burst_size : ℕ
burst_size = 256

-- `RX_RINGS`, the length of `re` and `batch_n`
abbrev pub rx_rings : ℕ
rx_rings = 10

abbrev pub max_rx_queue_per_port : ℕ
max_rx_queue_per_port = 128

-- `check_lcore_params`, given what `rte_lcore_is_enabled` says
unfoldable pub check_lcore_params : (ℕ → Bool) → List RxThreadParams → Outcome {0} Unit
check_lcore_params is_enabled [] = ok tt
check_lcore_params is_enabled (p ∷ ps) =
    let further = check_lcore_params is_enabled ps in
    if leb max_rx_queue_per_port p.queue_id
    then failed
    else if not (is_enabled p.lcore_id)
    then failed
    else further

-- the loop of `get_port_n_rx_queues`; `next` is `queue + 1`
unfoldable pub next_queue : ℕ → List RxThreadParams → ℕ → ℕ
next_queue port [] next = next
next_queue port (p ∷ ps) next =
    next_queue port ps
      (if (p.port_id == port) && ltb next (p.queue_id + 1) then p.queue_id + 1 else next)

unfoldable pub get_port_n_rx_queues : ℕ → List RxThreadParams → ℕ
get_port_n_rx_queues port params = next_queue port params 0 % 256
