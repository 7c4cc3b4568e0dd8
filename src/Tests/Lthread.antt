-- ===== src/Tests/Lthread.antt =====
-- The theorems about lthread/main.c with two rings that hold one packet each.
use flo_watcher_dpdk.Common.{ℕ, ◌≤◌, ◌≡◌, refl, true, List, [], ◌∷◌, All, update}
use flo_watcher_dpdk.Dpdk.{Mbuf}
use flo_watcher_dpdk.Lthread.{check_lcore_params, max_rx_queue_per_port, get_port_n_rx_queues}
use flo_watcher_dpdk.Lthread.Queues.{Below, get_port_n_rx_queues-Below}
use flo_watcher_dpdk.Lthread.Receive.{State, lthread_rx, lthread_rx_queue}
use flo_watcher_dpdk.Pthread.{RxThreadParams}
use flo_watcher_dpdk.Tests.Pthread.{single}

abbrev params : List RxThreadParams
params =
    record { port_id = 1; queue_id = 2; lcore_id = 3; thread_id = 0 }
    ∷ record { port_id = 0; queue_id = 127; lcore_id = 3; thread_id = 1 }
    ∷ []

get_port_n_rx_queues-Below_example :
    (get_port_n_rx_queues 1 params ≤ max_rx_queue_per_port)
    × All (Below 1 (get_port_n_rx_queues 1 params)) params
unfolding check_lcore_params
get_port_n_rx_queues-Below_example = get_port_n_rx_queues-Below (λ lcore. true) 1 params refl

abbrev begin : State (List Mbuf)
begin = record {
  worker_id = 0;
  len = λ w. 255;
  rings = λ w. [];
  batch_n = λ q. 0;
  ring_loss = 0;
  freed = [];
  signals = [];
}

-- a burst of two packets, an empty one and a burst of one packet
abbrev bursts : List (ℕ × List Mbuf)
bursts =
    (0, record { addr = 1; rss = 0x10007 } ∷ record { addr = 2; rss = 0x20007 } ∷ [])
    ∷ (1, [])
    ∷ (0, record { addr = 3; rss = 0x30007 } ∷ [])
    ∷ []

signals_test : (lthread_rx single 2 bursts begin).signals ≡ 1 ∷ 0 ∷ []
unfolding lthread_rx lthread_rx_queue update
signals_test = refl
