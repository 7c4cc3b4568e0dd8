-- ===== src/Tests/System.antt =====
-- The theorems about all threads of pthread/main.c at two receive and three counting threads.
use flo_watcher_dpdk.Common.{
  ℕ, zero, suc, ◌+◌, ◌≡◌, refl, true, List, [], ◌∷◌, map, arith, count, All, ◌≢◌, Array, update,
  ◌≤◌,
}
use flo_watcher_dpdk.Common.Int.{ℤ, pos}
use flo_watcher_dpdk.Buckets.{marks, after, addrs}
use flo_watcher_dpdk.Dpdk.{Mbuf}
use flo_watcher_dpdk.Outcome.{Outcome, ok, failed, exit, fault, Ensures, Ensures-ok}
use flo_watcher_dpdk.Pthread.{flow_num}
use flo_watcher_dpdk.Pthread.DoubleHash.{init_table}
use flo_watcher_dpdk.Pthread.Masks.{masks, masked_high, result_loop}
use flo_watcher_dpdk.Pthread.Options.{Config, default_config, parse_args}
use flo_watcher_dpdk.Pthread.Pipeline.{lcore_main_rx, step}
use flo_watcher_dpdk.Pthread.Pipeline.Counting.{low, high, slots_of}
use flo_watcher_dpdk.Pthread.Startup.{
  Device, Setup, setup_queues, init_port, init_ports, enabled, start_up, find_thread, pthread_run,
}
use flo_watcher_dpdk.Pthread.Startup.Wired.{Wired, Named, start_up-Wired}
use flo_watcher_dpdk.Pthread.System.{
  State, Program, Turn, setting, first_queue, pass_on, act, turn, took, accessing, following,
  allocated, trace, run,
}
use flo_watcher_dpdk.Pthread.System.Buffers.{queued}
use flo_watcher_dpdk.Pthread.System.Leaks.{came, leaked, run-leaks}
use flo_watcher_dpdk.Pthread.System.Counting.{run-Counted_system}
use flo_watcher_dpdk.Pthread.System.Heard.{mute, run-mute, run-starved}
use flo_watcher_dpdk.Pthread.Threads.{
  LcoreRxQueue, ThreadRxConf, ThreadTxConf, init_rx_queue, init_rx_queues_loop, init_rx_queues,
  init_tx_threads, init_rx_rings,
}
use flo_watcher_dpdk.Statistics.{EthStats}
use flo_watcher_dpdk.Slots.{Counted}
use flo_watcher_dpdk.Tests.{integers}
use flo_watcher_dpdk.Tests.Pthread.{single, single-IsFifo, blank, four}

abbrev pub device : Device
device = record {
  eal_init = pos 0;
  dev_count = 4;
  dev_configure = λ p. pos 0;
  pool_create = λ p q. true;
  queue_setup = λ p q. pos 0;
  dev_start = λ p. pos 0;
  ring_create = λ n. true;
  max_lcore = 128;
}

abbrev pub config : Config
config = record default_config {
  rx_thread_params =
      record { port_id = 3; queue_id = 0; lcore_id = 1; thread_id = 0 }
      ∷ record { port_id = 3; queue_id = 1; lcore_id = 2; thread_id = 1 }
      ∷ record { port_id = 3; queue_id = 2; lcore_id = 2; thread_id = 1 }
      ∷ [];
  tx_thread_params =
      record { lcore_id = 3; thread_id = 0 }
      ∷ record { lcore_id = 4; thread_id = 1 }
      ∷ record { lcore_id = 5; thread_id = 0 }
      ∷ [];
}

abbrev pub rx_zero : Array ThreadRxConf
rx_zero t = record { lcore_id = 0; thread_id = 0; rx_queue_list = []; rings = [] }

abbrev pub tx_zero : Array ThreadTxConf
tx_zero t = record { lcore_id = 0; thread_id = 0; ring = 0 }

abbrev pub nothing : Setup
nothing = record {
  config = config;
  rx_thread = rx_zero;
  n_rx_thread = 0;
  tx_thread = tx_zero;
  n_tx_thread = 0;
}

unfoldable pub set_up : Outcome Setup → Setup
set_up (ok s) = s
set_up failed = nothing
set_up exit = nothing
set_up fault = nothing

unfoldable pub program : Program
program = record {
  ipg = true;
  masks = masks 16;
  setup = set_up (start_up device four [] config rx_zero tx_zero);
  dev_count = device.dev_count;
  room = 2;
}

-- with the counters that `main` allocates
abbrev cramped : Program
cramped = record program { room = allocated }

pub started : start_up device four [] config rx_zero tx_zero ≡ ok program.setup
unfolding start_up init_rx_queues init_rx_queues_loop init_rx_queue init_tx_threads init_rx_rings
    init_ports init_port setup_queues enabled parse_args set_up program update
started = refl

pub wired : Wired program.setup
wired =
    Ensures-ok Wired _ program.setup started
      (start_up-Wired device four [] config rx_zero tx_zero (λ t. refl))

pub named : Named program.setup
unfolding start_up init_rx_queues init_rx_queues_loop init_rx_queue init_tx_threads init_rx_rings
    init_ports init_port setup_queues enabled parse_args set_up program update
named zero h = (0, omega arith, refl)
named (suc zero) h = (1, omega arith, refl)
named (suc (suc rx)) h = absurd (omega arith)

pub roomy : program.setup.n_rx_thread ≤ program.room
unfolding start_up init_rx_queues init_rx_queues_loop init_rx_queue init_tx_threads init_rx_rings
    init_ports init_port setup_queues enabled parse_args set_up program update
roomy = omega arith

abbrev pub begin : State (List Mbuf) ℤ
begin = record {
  rings = λ n. [];
  pkt_ctr = init_table true flow_num (λ l. blank);
  g_ctr = λ q. 0;
  freed = [];
}

-- every queue has two packets
abbrev deliver : LcoreRxQueue → List Mbuf
deliver q =
    record { addr = q.queue_id; rss = 0x10007 }
    ∷ record { addr = 8 + q.queue_id; rss = 0x20007 }
    ∷ []

abbrev pub turns : List Turn
turns =
    record { lcore = 1; deliver = deliver }
    ∷ record { lcore = 3; deliver = deliver }
    ∷ record { lcore = 2; deliver = deliver }
    ∷ record { lcore = 4; deliver = deliver }
    ∷ []

abbrev pub taken : List Mbuf
taken = trace single program (took single program) turns begin

pub two_taken : taken ≡ record { addr = 0; rss = 0x10007 } ∷ record { addr = 1; rss = 0x10007 } ∷ []
unfolding start_up init_rx_queues init_rx_queues_loop init_rx_queue init_tx_threads init_rx_rings
    init_ports init_port setup_queues enabled parse_args set_up program update trace took turn act
    accessing following pthread_run find_thread pass_on lcore_main_rx step first_queue
two_taken = refl

marked : All (λ m. high (setting program 0) m.rss ≢ 0) taken
unfolding program masks result_loop masked_high
marked = rw two_taken (ground arith)

-- what the NIC says of every port
abbrev pub stats : ℕ → EthStats
stats port = record { ipackets = 9; imissed = 2; ierrors = 0 }

run-Counted_system_example :
    Ensures
      (λ s'.
        Counted
          (marks (low (setting program 0)) (high (setting program 0)) 7 (after taken []))
          (slots_of (s'.pkt_ctr 7)))
      (run single program turns begin)
unfolding program
run-Counted_system_example =
    run-Counted_system single program turns begin (λ l. blank) 7 marked refl (omega arith)

run-mute_example :
    run single program (map (mute program.setup) turns) begin ≡ run single program turns begin
run-mute_example = run-mute single program turns begin

shared : (program.setup.tx_thread 0).thread_id ≡ (program.setup.tx_thread 2).thread_id
unfolding start_up init_rx_queues init_rx_queues_loop init_rx_queue init_tx_threads init_rx_rings
    init_ports init_port setup_queues enabled parse_args set_up program update
shared = refl

run-starved_example :
    Ensures (λ s'. single.contents (s'.rings 2) ≡ []) (run single program turns begin)
run-starved_example =
    run-starved single program turns begin 0 2 single-IsFifo wired (λ i. refl) (omega arith) shared

run-leaks_example :
    Ensures
      (λ s'.
        queued single program 1 s'
          + count 1 s'.freed
          + count 1 (addrs (trace single program (leaked single program) turns begin))
        ≡ queued single program 1 begin
          + count 1 begin.freed
          + count 1 (addrs (trace single program (came single program) turns begin)))
      (run single program turns begin)
run-leaks_example = run-leaks single program 1 single-IsFifo wired turns begin

abbrev one_second : List (List Turn × (ℕ → EthStats))
one_second = (turns, stats) ∷ []
