-- ===== src/Tests/LthreadStart.antt =====
-- The theorems about the start of lthread/main.c at a small configuration: two receive threads and
-- two counting threads, and DPDK calls that succeed.
use flo_watcher_dpdk.Common.{
  ℕ, ◌≤◌, ◌<◌, ◌≡◌, refl, true, List, [], ◌∷◌, ◌++◌, arith, Array, length, update, ◌==◌,
}
use flo_watcher_dpdk.Common.Int.{pos}
use flo_watcher_dpdk.Lthread.Options
use flo_watcher_dpdk.Lthread.Options.{Config, default_config, Opt, parse_args, unknown}
use flo_watcher_dpdk.Lthread.Spawn.{
  Threads, none_yet, Reach, start, later, create_rx, start_rx, count_rx, stop_waiting, create_tx,
  start_tx,
}
use flo_watcher_dpdk.Lthread.Spawn.Completion.{Steps, spawn-completes}
use flo_watcher_dpdk.Lthread.Spawn.Ready.{reading-initialised}
use flo_watcher_dpdk.Lthread.Startup.{Device, Setup, init_ports, start_up, bring_up}
use flo_watcher_dpdk.Lthread.Startup.Order.{start_up-unknown, bring_up-ready}
use flo_watcher_dpdk.Lthread.Startup.Ports.{Works, OnceOnly, Stops, second_port-Stops}
use flo_watcher_dpdk.Lthread.Threads.{ThreadTxConf}
use flo_watcher_dpdk.Lthread.Threads.Links.{Linked}
use flo_watcher_dpdk.Outcome.{ok}
use flo_watcher_dpdk.Pthread.{RxThreadParams}
use flo_watcher_dpdk.Pthread.Options.{Strsplit}
use flo_watcher_dpdk.Pthread.Startup.{enabled}
use flo_watcher_dpdk.Pthread.Threads.{ThreadRxConf}
use flo_watcher_dpdk.Pthread.Threads.Queues.{queues_of, threads_of}

-- every string is taken for four tokens
abbrev four : Strsplit
four s n = s ∷ s ∷ s ∷ s ∷ []

abbrev params : List RxThreadParams
params =
    record { port_id = 1; queue_id = 0; lcore_id = 2; thread_id = 0 }
    ∷ record { port_id = 1; queue_id = 1; lcore_id = 2; thread_id = 1 }
    ∷ []

abbrev config : Config
config = record default_config {
  enabled_port_mask = 2;
  rx_thread_params = params;
  tx_thread_params =
      record { lcore_id = 4; thread_id = 0 } ∷ record { lcore_id = 5; thread_id = 1 } ∷ [];
}

abbrev rx_zero : Array ThreadRxConf
rx_zero t = record { lcore_id = 0; thread_id = 0; rx_queue_list = []; rings = [] }

abbrev tx_zero : Array ThreadTxConf
tx_zero t = record { lcore_id = 0; thread_id = 0; ring = 0; ready = (0, 0) }

-- the pool of each queue is created for port 1 alone
abbrev device : Device
device = record {
  max_lcore = 128;
  eal_init = pos 1;
  lcore_enabled = λ l. true;
  ring_create = λ n. true;
  dev_count = 2;
  dev_configure = λ p n. pos 0;
  pool_create = λ p q. p == 1;
  mem_result = λ p. pos 0;
  queue_setup = λ p q. pos 0;
  dev_start = λ p. pos 0;
}

abbrev opts : List Opt
opts = Options.promiscuous ∷ Options.rx (b'(' ∷ b'7' ∷ b')' ∷ []) ∷ []

device-OnceOnly : OnceOnly device
device-OnceOnly p p' q lt on = ground arith

second_port-Stops_example :
    Stops (init_ports device (record config { enabled_port_mask = 6 }) 2 3 0)
unfolding enabled
second_port-Stops_example =
    second_port-Stops device (record config { enabled_port_mask = 6 }) 2 3 1 2 device-OnceOnly
      (omega arith) (omega arith) (omega arith) refl refl

start_up-unknown_example :
    start_up device four 3 (opts ++ unknown ∷ Options.no_numa ∷ []) config rx_zero tx_zero
    ≡ start_up device four 2 opts config rx_zero tx_zero
start_up-unknown_example =
    start_up-unknown device four 3 2 opts (Options.no_numa ∷ []) config rx_zero tx_zero

-- a device whose pools are those of the one enabled port
abbrev one_port : Device
one_port = record device { pool_create = λ p q. enabled 2 p }

one_port-Works : Works one_port 2
one_port-Works = record {
  lcores = λ l. refl;
  rings = λ n. refl;
  configured = λ p n. refl;
  pools = λ p q on. on;
  memory = λ p. refl;
  queues = λ p q. refl;
  started = λ p. refl;
}

short : (t : ℕ) → length (queues_of t params) ≤ 16
unfolding queues_of
short t = ground arith

bring_up-ready_example :
    (r : Setup) × (bring_up one_port rx_zero tx_zero config ≡ ok r)
    × (r.n_rx_thread ≡ threads_of 0 params)
    × ((t : ℕ) → (r.rx_thread t).rx_queue_list ≡ queues_of t params)
    × (r.n_tx_thread ≡ 2)
    × ((i : ℕ) → i < r.n_tx_thread → Linked (r.rx_thread, r.tx_thread) i)
unfolding threads_of
bring_up-ready_example =
    bring_up-ready one_port config one_port-Works rx_zero tx_zero (λ t. refl) (λ t. refl) short
      (ground arith) (omega arith) (omega arith) (ground arith) (λ i. omega arith)

-- one receive thread and one counting thread: the receive thread has started, and then all
abbrev received : Threads
received = record none_yet {
  created_rx = 1;
  initialised = update none_yet.initialised 0 true;
  counted = update none_yet.counted 0 true;
  rx_counter = 1;
}

received-Reach : Reach 1 1 received
unfolding update
received-Reach =
    later (later (later start (create_rx (omega arith))) (start_rx 0 (omega arith) refl))
      (count_rx 0 refl refl)

abbrev all_started : Threads
all_started = record received {
  awaited = true;
  created_tx = 1;
  reading = update none_yet.reading 0 true;
}

all_started-Reach : Reach 1 1 all_started
all_started-Reach =
    later
      (later (later received-Reach (stop_waiting refl (omega arith)))
        (create_tx refl (omega arith)))
      (start_tx 0 (omega arith))

reading-initialised_example : all_started.initialised 0 ≡ true
unfolding update
reading-initialised_example = reading-initialised 0 0 all_started-Reach refl (omega arith)

spawn-completes_example : (t : Threads) × Steps 1 1 received t × (t.created_tx ≡ 1)
spawn-completes_example = spawn-completes received-Reach
